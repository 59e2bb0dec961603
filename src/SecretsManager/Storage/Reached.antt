-- ===== src/SecretsManager/Storage/Reached.antt =====
-- The stages of every secret that a sequence of operations makes.
use ruststack.Prelude.{
  ℕ, ◌≡◌, String, Bool, none, some, Option, arith, ◌==◌, string_eq, eq_iff, sym, Bool-cases,
  Option-cases, inl, inr, contains,
}
use ruststack.Dict.{Dict, get, put, remove, contains_key, get-put, get-remove}
use ruststack.Result.{state}
use ruststack.Reach.{Reach, Reach_induction}
use ruststack.SecretsManager.Storage.{
  Secret, SecretsManagerStorage, new, new_secret, create_secret, get_secret_value, put_secret_value,
  delete_secret,
}
use ruststack.SecretsManager.Storage.Stages.{IsStaged}
use ruststack.SecretsManager.Storage.Invariant.{rotate-IsStaged}

-- Every secret has its stages in order.
pub record IsValid (s : SecretsManagerStorage) : Type 0 where
  pub staged :
      (name : String) (secret : Secret) → get name s.secrets ≡ some secret → IsStaged secret

-- No version of the secret has this identifier yet.
abbrev pub IsFresh : String → String → SecretsManagerStorage → Type 0
IsFresh version_id name s =
    (secret : Secret) → get name s.secrets ≡ some secret → get version_id secret.versions ≡ none

pub data Step (s : SecretsManagerStorage) : SecretsManagerStorage → Type 0 where
  creates :
      (version_id uuid6 : String) (now : ℕ) (name : String)
      (description kms_key_id text binary : Option String) (tags : Dict String String)
      → Step s (
          state (create_secret version_id uuid6 now name description kms_key_id text binary tags s))
  reads :
      (now : ℕ) (name : String) (version_id version_stage : Option String)
      → Step s (state (get_secret_value now name version_id version_stage s))
  puts :
      (version_id : String) (now : ℕ) (name : String) (text binary : Option String)
      → IsFresh version_id name s
      → Step s (state (put_secret_value version_id now name text binary s))
  deletes :
      (now : ℕ) (name : String) (force_delete : Bool)
      → Step s (state (delete_secret now name force_delete s))

new_secret-IsStaged :
    (version_id uuid6 : String) (now : ℕ) (name : String)
    (description kms_key_id text binary : Option String) (tags : Dict String String)
    → IsStaged (new_secret version_id uuid6 now name description kms_key_id text binary tags)
unfolding put get remove contains
new_secret-IsStaged version_id uuid6 now name description kms_key_id text binary tags = record {
  current_stage = λ k v e. ground arith;
  previous_stage = λ k v e. ground arith;
  current_there = λ k e. ground (arith, eq_iff version_id k);
  previous_there = λ k e. absurd (ground arith);
  apart = λ k e. ground arith;
}

path-IsStaged : (secret t : Secret) → secret ≡ t → IsStaged secret → IsStaged t
path-IsStaged secret t e h = rw (sym e) h

-- The stages depend on the versions and the two identifiers only.
dated-IsStaged :
    (secret : Secret) {accessed deleted : Option ℕ}
    → IsStaged secret
    → IsStaged (record secret { last_accessed_date = accessed; deleted_date = deleted })
dated-IsStaged secret h = record {
  current_stage = h.current_stage;
  previous_stage = h.previous_stage;
  current_there = h.current_there;
  previous_there = h.previous_there;
  apart = h.apart;
}

-- A secret put in place keeps the others.
put-IsValid :
    (s : SecretsManagerStorage) (name : String) (secret : Secret)
    → IsValid s
    → IsStaged secret
    → IsValid (record { secrets = put name secret s.secrets })
put-IsValid s name secret v h = record {
  staged = λ k t e. elim (Bool-cases (name == k)) [
    | inl p ↦ path-IsStaged secret t (ground (arith, get-put name k secret s.secrets)) h
    | inr p ↦ v.staged k t (ground (arith, get-put name k secret s.secrets))
  ];
}

create-IsValid :
    (s : SecretsManagerStorage) (version_id uuid6 : String) (now : ℕ) (name : String)
    (description kms_key_id text binary : Option String) (tags : Dict String String)
    → IsValid s
    → IsValid
        (state (create_secret version_id uuid6 now name description kms_key_id text binary tags s))
unfolding create_secret
create-IsValid s version_id uuid6 now name description kms_key_id text binary tags v =
    elim (Bool-cases (contains_key name s.secrets)) [
      | inl e ↦ rw e v
      | inr e ↦ rw e (
          put-IsValid s name _ v
            (new_secret-IsStaged version_id uuid6 now name description kms_key_id text binary tags))
    ]

read-IsValid :
    (s : SecretsManagerStorage) (now : ℕ) (name : String) (version_id version_stage : Option String)
    → IsValid s
    → IsValid (state (get_secret_value now name version_id version_stage s))
unfolding get_secret_value
read-IsValid s now name version_id version_stage v = elim (Option-cases (get name s.secrets)) [
  | inl e ↦ rw e v
  | inr (secret, e) ↦ rw e (put-IsValid s name _ v (dated-IsStaged secret (v.staged name secret e)))
]

put_value-IsValid :
    (s : SecretsManagerStorage) (version_id : String) (now : ℕ) (name : String)
    (text binary : Option String)
    → IsFresh version_id name s
    → IsValid s
    → IsValid (state (put_secret_value version_id now name text binary s))
unfolding put_secret_value
put_value-IsValid s version_id now name text binary fresh v =
    elim (Option-cases (get name s.secrets)) [
      | inl e ↦ rw e v
      | inr (secret, e) ↦ rw e (
          put-IsValid s name _ v (
            rotate-IsStaged version_id now text binary secret (v.staged name secret e)
              (fresh secret e)))
    ]

remove-IsValid :
    (s : SecretsManagerStorage) (name : String)
    → IsValid s
    → IsValid (record { secrets = remove name s.secrets })
remove-IsValid s name v = record {
  staged = λ k t e. v.staged k t (ground (arith, get-remove name k s.secrets));
}

delete-IsValid :
    (s : SecretsManagerStorage) (now : ℕ) (name : String) (force_delete : Bool)
    → IsValid s
    → IsValid (state (delete_secret now name force_delete s))
unfolding delete_secret
delete-IsValid s now name force_delete v = elim (Option-cases (get name s.secrets)) [
  | inl e ↦ rw e v
  | inr (secret, e) ↦ elim (Bool-cases force_delete) [
    | inl f ↦ rw (e, f) (remove-IsValid s name v)
    | inr f ↦ rw (e, f) (put-IsValid s name _ v (dated-IsStaged secret (v.staged name secret e)))
  ]
]

Step-IsValid : (s t : SecretsManagerStorage) → Step s t → IsValid s → IsValid t
Step-IsValid s t (creates version_id uuid6 now name description kms_key_id text binary tags) v =
    create-IsValid s version_id uuid6 now name description kms_key_id text binary tags v
Step-IsValid s t (reads now name version_id version_stage) v =
    read-IsValid s now name version_id version_stage v
Step-IsValid s t (puts version_id now name text binary fresh) v =
    put_value-IsValid s version_id now name text binary fresh v
Step-IsValid s t (deletes now name force_delete) v = delete-IsValid s now name force_delete v

new-IsValid : IsValid new
unfolding get
new-IsValid = record { staged = λ k t e. absurd (ground arith) }

-- After any sequence of operations on a new store in which every put uses a version identifier that
-- the secret does not have yet, each secret has its stages in order: AWSCURRENT stands on exactly
-- the current version and AWSPREVIOUS on exactly the previous one, and the versions that the two
-- identifiers name exist and differ.
pub reached_secrets-IsValid : (s : SecretsManagerStorage) → Reach Step new s → IsValid s
reached_secrets-IsValid s r =
    Reach_induction Step IsValid (λ t u st v. Step-IsValid t u st v) new s new-IsValid r
