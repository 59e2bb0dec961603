-- ===== src/SecretsManager/Storage/Stages.antt =====
-- The stages of the versions agree with the two version identifiers of the secret.
use ruststack.Prelude.{
  ◌≡◌, ◌≢◌, refl, String, Bool, true, false, Option, none, some, List, arith, ◌==◌, string_eq,
  eq_iff, if◌then◌else◌, contains, contains-append, contains-without, Option-cases, inl, inr,
}
use ruststack.Dict.{Dict, get, get-put}
use ruststack.SecretsManager.Storage.{Secret, SecretVersion, restage, demote, retire}

-- The identifier is this version's.
abbrev pub names : Option String → String → Bool
names none vid = false
names (some k) vid = k == vid

-- A version carries AWSCURRENT exactly when it is the secret's current version, and AWSPREVIOUS
-- exactly when it is the previous one; both identifiers name versions that exist, and differ.
pub record IsStaged (secret : Secret) : Type 0 where
  pub current_stage :
      (vid : String) (v : SecretVersion)
      → get vid secret.versions ≡ some v
      → contains v.version_stages "AWSCURRENT" ≡ names secret.current_version_id vid
  pub previous_stage :
      (vid : String) (v : SecretVersion)
      → get vid secret.versions ≡ some v
      → contains v.version_stages "AWSPREVIOUS" ≡ names secret.previous_version_id vid
  pub current_there :
      (vid : String) → secret.current_version_id ≡ some vid → get vid secret.versions ≢ none
  pub previous_there :
      (vid : String) → secret.previous_version_id ≡ some vid → get vid secret.versions ≢ none
  pub apart :
      (vid : String) → secret.current_version_id ≡ some vid → secret.previous_version_id ≢ some vid

abbrev pub restaged : (List String → List String) → Option SecretVersion → Option SecretVersion
restaged f none = none
restaged f (some v) = some (record v { version_stages = f v.version_stages })

pub get-restage :
    (f : List String → List String) (k j : String) (d : Dict String SecretVersion)
    → get j (restage f k d (get k d)) ≡ (if k == j then restaged f (get j d) else get j d)
unfolding restage
get-restage f k j d = elim (Option-cases (get k d)) [
  | inl e ↦ rw e (ground (arith, eq_iff k j))
  | inr (v, e) ↦
      rw e (
        ground
          (arith, get-put k j (record v { version_stages = f v.version_stages }) d, eq_iff k j))
]

-- What the two changes of stages do to the two stages.
pub demote_current : (st : List String) → contains (demote st) "AWSCURRENT" ≡ false
unfolding contains
demote_current st = rw (contains-append, contains-without) refl

pub demote_previous : (st : List String) → contains (demote st) "AWSPREVIOUS" ≡ true
unfolding contains
demote_previous st = rw contains-append (ground arith)

pub retire_current :
    (st : List String) → contains (retire st) "AWSCURRENT" ≡ contains st "AWSCURRENT"
retire_current st = rw contains-without refl

pub retire_previous_stage : (st : List String) → contains (retire st) "AWSPREVIOUS" ≡ false
retire_previous_stage st = rw contains-without refl
