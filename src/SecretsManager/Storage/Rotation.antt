-- ===== src/SecretsManager/Storage/Rotation.antt =====
-- What clients read after a value was put and after a secret was deleted.
use ruststack.Prelude.{
  ℕ, ◌+◌, ◌≡◌, refl, String, true, false, none, some, Option, arith, string_eq, eq_iff, eq_refl,
  Option-cases, inl, inr,
}
use ruststack.Dict.{get, get-put, get-remove}
use ruststack.Result.{Result, ok, err, state, reply}
use ruststack.SecretsManager.Storage.{
  Secret, SecretVersion, SecretsManagerStorage, SecretsManagerError, new, resource_not_found,
  new_version, get_secret_value, read_version, put_secret_value, delete_secret, rotate, demote,
  shift_versions,
}
use ruststack.Reach.{Reach}
use ruststack.SecretsManager.Storage.Stages.{IsStaged}
use ruststack.SecretsManager.Storage.Reached.{Step, IsFresh, reached_secrets-IsValid}
use ruststack.SecretsManager.Storage.Invariant.{get-rotated, rotated_previous}

-- what a read answers when it finds the version, whatever it says of the secret around it
abbrev pub Answers :
    Result SecretsManagerError (Secret × SecretVersion) × SecretsManagerStorage
    → SecretVersion
    → Type 0
Answers r v = (holder : Secret) × (reply r ≡ ok (holder, v))

-- the read of a secret that is there
get_secret_value-found :
    (now : ℕ) (name : String) (version_id version_stage : Option String) (s : SecretsManagerStorage)
    (secret : Secret)
    → get name s.secrets ≡ some secret
    → reply (get_secret_value now name version_id version_stage s)
      ≡ read_version (record secret { last_accessed_date = some now }) version_id version_stage
unfolding get_secret_value
get_secret_value-found now name version_id version_stage s secret e = rw e refl

module _ (new_id : String) (now : ℕ) (name : String) (text binary : Option String)
    (s : SecretsManagerStorage) (secret : Secret) where
  put-get :
      get name s.secrets ≡ some secret
      → get name (state (put_secret_value new_id now name text binary s)).secrets
        ≡ some (rotate new_id now text binary secret)
  unfolding put_secret_value
  put-get e = rw e (
      ground
        (arith, get-put name name (rotate new_id now text binary secret) s.secrets, eq_refl name))

  get-latest :
      get new_id (rotate new_id now text binary secret).versions
      ≡ some (new_version new_id text binary now)
  unfolding rotate
  get-latest = ground (
    arith,
    get-put new_id new_id (new_version new_id text binary now)
        (shift_versions secret.current_version_id secret).versions,
    eq_refl new_id,
  )

  -- the read of the secret after the put
  answers :
      (later : ℕ) (version_id version_stage : Option String) {v : SecretVersion}
      → get name s.secrets ≡ some secret
      → read_version
          (record (rotate new_id now text binary secret) { last_accessed_date = some later })
          version_id
          version_stage
        ≡ ok (record (rotate new_id now text binary secret) { last_accessed_date = some later }, v)
      → Answers
          (get_secret_value later name version_id version_stage
            (state (put_secret_value new_id now name text binary s)))
          v
  answers later version_id version_stage e r = (
    record (rotate new_id now text binary secret) { last_accessed_date = some later },
    rw
        (get_secret_value-found later name version_id version_stage
          (state (put_secret_value new_id now name text binary s))
          (rotate new_id now text binary secret) (put-get e))
        r,
  )

  -- Putting a value for a secret that exists succeeds; afterwards reading AWSCURRENT, the version
  -- of the new identifier, or nothing in particular, answers the new value.
  pub get-put_secret_value :
      (later : ℕ)
      → get name s.secrets ≡ some secret
      → let t : SecretsManagerStorage = state (put_secret_value new_id now name text binary s) in
        let v : SecretVersion = new_version new_id text binary now in
        Answers (put_secret_value new_id now name text binary s) v
        × Answers (get_secret_value later name none (some "AWSCURRENT") t) v
        × Answers (get_secret_value later name (some new_id) none t) v
        × Answers (get_secret_value later name none none t) v
  get-put_secret_value later e = (
    (rotate new_id now text binary secret, unfold put_secret_value in rw e refl),
    answers later none (some "AWSCURRENT") e
        (unfold read_version rotate in ground (arith, get-latest)),
    answers later (some new_id) none e (unfold read_version rotate in ground (arith, get-latest)),
    answers later none none e (unfold read_version rotate in ground (arith, get-latest)),
  )

  -- the old current version after the put
  get_old :
      (old : String) (w : SecretVersion)
      → IsStaged secret
      → get new_id secret.versions ≡ none
      → secret.current_version_id ≡ some old
      → get old secret.versions ≡ some w
      → get old (rotate new_id now text binary secret).versions
        ≡ some (record w { version_stages = demote w.version_stages })
  get_old old w h fresh c f = elim (Option-cases secret.previous_version_id) [
    | inl g ↦
        rw (get-rotated new_id now text binary secret h fresh old, c, g, f)
          (ground (arith, eq_iff new_id old, eq_refl old))
    | inr (p, g) ↦
        rw (get-rotated new_id now text binary secret h fresh old, c, g, f)
          (ground (arith, eq_iff new_id old, eq_refl old, eq_iff p old, h.apart p))
  ]

  previous_old :
      (old : String)
      → IsStaged secret
      → get new_id secret.versions ≡ none
      → secret.current_version_id ≡ some old
      → (rotate new_id now text binary secret).previous_version_id ≡ some old
  previous_old old h fresh c =
      ground (arith, rotated_previous new_id now text binary secret h fresh)

  -- If the store was reached by a sequence of operations, the identifier of the new version is fresh
  -- and the secret had a current version, reading AWSPREVIOUS after the put answers that version, with the same value and AWSPREVIOUS in place of AWSCURRENT.
  pub get_previous-put_secret_value :
      (later : ℕ) (old : String) (w : SecretVersion)
      → get name s.secrets ≡ some secret
      → Reach Step new s
      → IsFresh new_id name s
      → secret.current_version_id ≡ some old
      → get old secret.versions ≡ some w
      → Answers
          (get_secret_value later name none
            (some "AWSPREVIOUS")
            (state (put_secret_value new_id now name text binary s)))
          (record w { version_stages = demote w.version_stages })
  get_previous-put_secret_value later old w e r fresh c f =
      let staged = (reached_secrets-IsValid s r).staged name secret e in
      answers later none (some "AWSPREVIOUS") e (
        unfold read_version in
        ground (
          arith,
          previous_old old staged (fresh secret e) c,
          get_old old w staged (fresh secret e) c f,
        ))

-- A forced delete of a secret that exists makes every later read of it report it missing. A
-- scheduled delete marks it for thirty days later and every later read answers as it did before,
-- but for the dates of the secret.
pub get_secret_value-delete_secret :
    (now later : ℕ) (name : String) (version_id version_stage : Option String)
    (s : SecretsManagerStorage) (secret : Secret)
    → get name s.secrets ≡ some secret
    → (reply (
          get_secret_value later name version_id version_stage
            (state (delete_secret now name true s)))
        ≡ err (resource_not_found name))
      × (reply (
            get_secret_value later name version_id version_stage
              (state (delete_secret now name false s)))
          ≡ read_version
              (record secret {
                last_accessed_date = some later;
                deleted_date = some (now + 2592000000);
              })
              version_id
              version_stage)
unfolding delete_secret get_secret_value
get_secret_value-delete_secret now later name version_id version_stage s secret e = rw e (
  ground (arith, get-remove name name s.secrets, eq_refl name),
  ground (
    arith,
    get-put name name (record secret { deleted_date = some (now + 2592000000) }) s.secrets,
    eq_refl name,
  ),
)
