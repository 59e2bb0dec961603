-- ===== src/SecretsManager/Storage.antt =====
-- ruststack-secretsmanager/src/storage.rs: secrets and their versions. New UUIDs and the clock are
-- arguments. The trait methods only delegate to the `_impl` methods, which are modelled.
pub mod Rotation
pub mod Invariant
pub mod Stages
pub mod Reached
use Prim.Native.String.{◌++◌}
use ruststack.Prelude.{
  ℕ, ◌+◌, String, Bool, Option, none, some, List, [], ◌∷◌, ◌||◌, ◌==◌, string_eq, if◌then◌else◌,
  is_some, without,
}
use mathlib.Core.List.{◌++◌ as append}
use ruststack.Dict.{Dict, get, put, remove, contains_key, values}
use ruststack.Result.{Result, ok, err, ok_or, ◌>>=◌}

pub record SecretVersion : Type 0 where
  pub version_id : String
  pub secret_string : Option String
  pub secret_binary : Option String
  pub created_date : ℕ
  pub version_stages : List String

pub record Secret : Type 0 where
  pub arn : String
  pub name : String
  pub description : Option String
  pub kms_key_id : Option String
  pub versions : Dict String SecretVersion
  pub current_version_id : Option String
  pub previous_version_id : Option String
  pub created_date : ℕ
  pub last_changed_date : ℕ
  pub last_accessed_date : Option ℕ
  pub deleted_date : Option ℕ
  pub tags : Dict String String

pub record SecretsManagerStorage : Type 0 where
  pub secrets : Dict String Secret

pub data SecretsManagerError : Type 0 where
  resource_exists resource_not_found invalid_parameter : String → SecretsManagerError
  decryption_failure : SecretsManagerError
  internal : String → SecretsManagerError

abbrev pub new : SecretsManagerStorage
new = record { secrets = [] }

-- a version as `create_secret_impl` and `put_secret_value_impl` make it
abbrev pub new_version : String → Option String → Option String → ℕ → SecretVersion
new_version version_id secret_string secret_binary now = record {
  version_id = version_id;
  secret_string = secret_string;
  secret_binary = secret_binary;
  created_date = now;
  version_stages = "AWSCURRENT" ∷ [];
}

module _ (version_id uuid6 : String) (now : ℕ) where
  abbrev pub new_secret :
      String
      → Option String
      → Option String
      → Option String
      → Option String
      → Dict String String
      → Secret
  new_secret name description kms_key_id secret_string secret_binary tags =
      let valued = is_some secret_string || is_some secret_binary in
      record {
        arn = "arn:aws:secretsmanager:us-east-1:000000000000:secret:" ++ name ++ "-" ++ uuid6;
        name = name;
        description = description;
        kms_key_id = kms_key_id;
        versions =
            if valued
            then put version_id (new_version version_id secret_string secret_binary now) []
            else [];
        current_version_id = if valued then some version_id else none;
        previous_version_id = none;
        created_date = now;
        last_changed_date = now;
        last_accessed_date = none;
        deleted_date = none;
        tags = tags;
      }

  unfoldable pub create_secret :
      String
      → Option String
      → Option String
      → Option String
      → Option String
      → Dict String String
      → SecretsManagerStorage
      → Result SecretsManagerError Secret × SecretsManagerStorage
  create_secret name description kms_key_id secret_string secret_binary tags s =
      if contains_key name s.secrets
      then (err (resource_exists name), s)
      else (let secret = new_secret name description kms_key_id secret_string secret_binary tags in
          (ok secret, record { secrets = put name secret s.secrets }))

unfoldable pub get_secret : String → SecretsManagerStorage → Result SecretsManagerError Secret
get_secret name s = ok_or (get name s.secrets) (resource_not_found name)

-- the version that a read asks for
unfoldable pub select_version :
    Secret → Option String → Option String → Result SecretsManagerError String
select_version secret (some vid) version_stage = ok vid
select_version secret none (some stage) =
    if stage == "AWSCURRENT"
    then ok_or secret.current_version_id (resource_not_found "No current version")
    else if stage == "AWSPREVIOUS"
    then ok_or secret.previous_version_id (resource_not_found "No previous version")
    else err (invalid_parameter ("Unknown version stage: " ++ stage))
select_version secret none none =
    ok_or secret.current_version_id (resource_not_found "No current version")

unfoldable pub read_version :
    Secret → Option String → Option String → Result SecretsManagerError (Secret × SecretVersion)
unfolding select_version
read_version secret version_id version_stage = do
  vid ← select_version secret version_id version_stage
  version ← ok_or (get vid secret.versions) (resource_not_found ("Version " ++ vid ++ " not found"))
  ok (secret, version)

unfoldable pub get_value_found :
    ℕ
    → String
    → Option String
    → Option String
    → SecretsManagerStorage
    → Option Secret
    → Result SecretsManagerError (Secret × SecretVersion) × SecretsManagerStorage
unfolding read_version
get_value_found now secret_id version_id version_stage s none =
    (err (resource_not_found secret_id), s)
get_value_found now secret_id version_id version_stage s (some secret) =
    let accessed : Secret = record secret { last_accessed_date = some now } in
    (
      read_version accessed version_id version_stage,
      record { secrets = put secret_id accessed s.secrets },
    )

-- The access date is written before the version is looked up, so an error leaves it too.
unfoldable pub get_secret_value :
    ℕ
    → String
    → Option String
    → Option String
    → SecretsManagerStorage
    → Result SecretsManagerError (Secret × SecretVersion) × SecretsManagerStorage
unfolding get_value_found
get_secret_value now secret_id version_id version_stage s =
    get_value_found now secret_id version_id version_stage s (get secret_id s.secrets)

-- `if let Some(version) = versions.get_mut(id)` with a change of its stages
unfoldable pub restage :
    (List String → List String)
    → String
    → Dict String SecretVersion
    → Option SecretVersion
    → Dict String SecretVersion
restage f vid versions none = versions
restage f vid versions (some v) =
    put vid (record v { version_stages = f v.version_stages }) versions

-- the old current version becomes the previous one
abbrev pub demote : List String → List String
demote stages = append (without "AWSCURRENT" stages) ("AWSPREVIOUS" ∷ [])

-- the old previous version loses its stage
abbrev pub retire : List String → List String
retire stages = without "AWSPREVIOUS" stages

unfoldable pub retire_previous :
    Option String → Dict String SecretVersion → Dict String SecretVersion
unfolding restage
retire_previous none versions = versions
retire_previous (some pvid) versions = restage retire pvid versions (get pvid versions)

unfoldable pub shift_versions : Option String → Secret → Secret
unfolding retire_previous
shift_versions none secret = secret
shift_versions (some cvid) secret =
    let demoted = restage demote cvid secret.versions (get cvid secret.versions) in
    record secret {
      versions = retire_previous secret.previous_version_id demoted;
      previous_version_id = some cvid;
    }

unfoldable pub rotate : String → ℕ → Option String → Option String → Secret → Secret
unfolding shift_versions
rotate new_version_id now secret_string secret_binary secret =
    let shifted = shift_versions secret.current_version_id secret in
    record shifted {
      versions =
          put new_version_id (new_version new_version_id secret_string secret_binary now)
            shifted.versions;
      current_version_id = some new_version_id;
      last_changed_date = now;
    }

unfoldable pub put_value_found :
    String
    → ℕ
    → String
    → Option String
    → Option String
    → SecretsManagerStorage
    → Option Secret
    → Result SecretsManagerError (Secret × SecretVersion) × SecretsManagerStorage
put_value_found new_version_id now secret_id secret_string secret_binary s none =
    (err (resource_not_found secret_id), s)
put_value_found new_version_id now secret_id secret_string secret_binary s (some secret) =
    let rotated = rotate new_version_id now secret_string secret_binary secret in
    (
      ok (rotated, new_version new_version_id secret_string secret_binary now),
      record { secrets = put secret_id rotated s.secrets },
    )

unfoldable pub put_secret_value :
    String
    → ℕ
    → String
    → Option String
    → Option String
    → SecretsManagerStorage
    → Result SecretsManagerError (Secret × SecretVersion) × SecretsManagerStorage
unfolding put_value_found
put_secret_value new_version_id now secret_id secret_string secret_binary s =
    put_value_found new_version_id now secret_id secret_string secret_binary s
      (get secret_id s.secrets)

-- Thirty days, in milliseconds.
abbrev thirty_days : ℕ
thirty_days = 2592000000

unfoldable pub delete_found :
    ℕ
    → String
    → Bool
    → SecretsManagerStorage
    → Option Secret
    → Result SecretsManagerError Secret × SecretsManagerStorage
delete_found now secret_id force_delete s none = (err (resource_not_found secret_id), s)
delete_found now secret_id force_delete s (some secret) =
    let marked : Secret = record secret { deleted_date = some (now + thirty_days) } in
    if force_delete
    then (ok secret, record { secrets = remove secret_id s.secrets })
    else (ok marked, record { secrets = put secret_id marked s.secrets })

unfoldable pub delete_secret :
    ℕ
    → String
    → Bool
    → SecretsManagerStorage
    → Result SecretsManagerError Secret × SecretsManagerStorage
unfolding delete_found
delete_secret now secret_id force_delete s =
    delete_found now secret_id force_delete s (get secret_id s.secrets)

unfoldable pub list_secrets : SecretsManagerStorage → List Secret
list_secrets s = values s.secrets

unfoldable pub describe_secret : String → SecretsManagerStorage → Result SecretsManagerError Secret
unfolding get_secret
describe_secret secret_id s = get_secret secret_id s
