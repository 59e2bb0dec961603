-- ===== src/SecretsManager/Storage/Invariant.antt =====
-- Putting a new value keeps the stages of the versions in step with the secret.
use ruststack.Prelude.{
  ℕ, ◌≡◌, ◌≢◌, refl, String, Option, none, some, arith, ◌==◌, string_eq, eq_iff, if◌then◌else◌,
  contains, Option-cases, inl, inr,
}
use ruststack.Dict.{get, get-put}
use ruststack.SecretsManager.Storage.{
  Secret, SecretVersion, new_version, restage, demote, retire, shift_versions, rotate,
}
use ruststack.SecretsManager.Storage.Stages.{
  IsStaged, names, restaged, get-restage, demote_current, demote_previous, retire_current,
  retire_previous_stage,
}

-- The versions after the shift, looked up one by one.
abbrev pub shifted :
    Option String → Option String → String → Option SecretVersion → Option SecretVersion
shifted none p j found = found
shifted (some c) none j found = if c == j then restaged demote found else found
shifted (some c) (some p) j found =
    if p == j
    then restaged retire (if c == j then restaged demote found else found)
    else if c == j
    then restaged demote found
    else found

get-shift :
    (secret : Secret) (j : String)
    → get j (shift_versions secret.current_version_id secret).versions
      ≡ shifted secret.current_version_id secret.previous_version_id j (get j secret.versions)
unfolding shift_versions
get-shift secret j = elim (Option-cases (secret.current_version_id)) [
  | inl e ↦ rw e refl
  | inr (c, e) ↦ elim (Option-cases (secret.previous_version_id)) [
    | inl f ↦ rw (e, f) (get-restage demote c j secret.versions)
    | inr (p, f) ↦
        rw (e, f)
          (ground (
            arith,
            get-restage demote c j secret.versions,
            get-restage retire p j (restage demote c secret.versions (get c secret.versions)),
          ))
  ]
]

-- The identifier of the previous version after the shift.
abbrev pub next_previous : Option String → Option String → Option String
next_previous none p = p
next_previous (some c) p = some c

shift-previous :
    (secret : Secret)
    → (shift_versions secret.current_version_id secret).previous_version_id
      ≡ next_previous secret.current_version_id secret.previous_version_id
unfolding shift_versions
shift-previous secret = elim (Option-cases (secret.current_version_id)) [
  | inl e ↦ rw e refl
  | inr (c, e) ↦ rw e refl
]

module _ (new_id : String) (now : ℕ) (text binary : Option String) (secret : Secret)
    (h : IsStaged secret) (fresh : get new_id secret.versions ≡ none) where
  abbrev rotated : Secret
  rotated = rotate new_id now text binary secret

  abbrev latest : SecretVersion
  latest = new_version new_id text binary now

  pub get-rotated :
      (j : String)
      → get j rotated.versions ≡ (
          if new_id == j
          then some latest
          else shifted secret.current_version_id secret.previous_version_id j
              (get j secret.versions))
  unfolding rotate
  get-rotated j = ground (
    arith,
    get-put new_id j latest (shift_versions secret.current_version_id secret).versions,
    get-shift secret j,
  )

  pub rotated_previous :
      rotated.previous_version_id
      ≡ next_previous secret.current_version_id secret.previous_version_id
  unfolding rotate
  rotated_previous = shift-previous secret

  rotated-current_stage :
      (j : String) (v : SecretVersion)
      → get j rotated.versions ≡ some v
      → contains v.version_stages "AWSCURRENT" ≡ (new_id == j)
  unfolding contains
  rotated-current_stage j v e = elim (Option-cases (get j secret.versions)) [
    | inl n ↦ ground (arith, get-rotated j)
    | inr (w, n) ↦ ground (
      arith,
      get-rotated j,
      h.current_stage j w,
      demote_current w.version_stages,
      demote_current (retire w.version_stages),
      retire_current w.version_stages,
      retire_current (demote w.version_stages),
    )
  ]

  rotated-previous_stage :
      (j : String) (v : SecretVersion)
      → get j rotated.versions ≡ some v
      → contains v.version_stages "AWSPREVIOUS" ≡ names rotated.previous_version_id j
  unfolding contains
  rotated-previous_stage j v e = elim (Option-cases (get j secret.versions)) [
    | inl n ↦ elim (Option-cases secret.current_version_id) [
      | inl f ↦ elim (Option-cases secret.previous_version_id) [
        | inl g ↦ ground (arith, get-rotated j, rotated_previous)
        | inr (p, g) ↦
            ground (arith, get-rotated j, rotated_previous, h.previous_there p g, eq_iff p j)
      ]
      | inr (c, f) ↦
          ground (arith, get-rotated j, rotated_previous, h.current_there c f, eq_iff c j)
    ]
    | inr (w, n) ↦ elim (Option-cases secret.current_version_id) [
      | inl f ↦
          ground
            (arith, get-rotated j, rotated_previous, h.previous_stage j w n, eq_iff new_id j, fresh)
      | inr (c, f) ↦ elim (Option-cases secret.previous_version_id) [
        | inl g ↦ ground (
          arith,
          get-rotated j,
          rotated_previous,
          h.previous_stage j w n,
          demote_previous w.version_stages,
          h.current_there c f,
          fresh,
          eq_iff new_id j,
        )
        | inr (p, g) ↦ ground (
          arith,
          get-rotated j,
          rotated_previous,
          h.previous_stage j w n,
          h.apart p,
          h.current_there c f,
          demote_previous w.version_stages,
          retire_previous_stage w.version_stages,
          fresh,
          eq_iff new_id j,
          eq_iff c j,
          eq_iff p j,
        )
      ]
    ]
  ]

  rotated-current_there :
      (j : String) → rotated.current_version_id ≡ some j → get j rotated.versions ≢ none
  unfolding rotate
  rotated-current_there j e = ground (arith, get-rotated j, eq_iff new_id j)

  rotated-previous_there :
      (j : String) → rotated.previous_version_id ≡ some j → get j rotated.versions ≢ none
  rotated-previous_there j e = elim (Option-cases secret.current_version_id) [
    | inl f ↦ ground (arith, get-rotated j, rotated_previous, h.previous_there j)
    | inr (c, f) ↦ ground (arith, get-rotated j, rotated_previous, h.current_there c f, h.apart c f)
  ]

  rotated-apart :
      (j : String) → rotated.current_version_id ≡ some j → rotated.previous_version_id ≢ some j
  unfolding rotate
  rotated-apart j e = elim (Option-cases secret.current_version_id) [
    | inl f ↦ ground (arith, rotated_previous, h.previous_there j, fresh)
    | inr (c, f) ↦ ground (arith, rotated_previous, h.current_there c f, fresh)
  ]

  rotated-current :
      (vid : String) (v : SecretVersion)
      → get vid rotated.versions ≡ some v
      → contains v.version_stages "AWSCURRENT" ≡ names rotated.current_version_id vid
  unfolding rotate
  rotated-current = rotated-current_stage

  pub rotate-IsStaged : IsStaged rotated
  rotate-IsStaged = record {
    current_stage = rotated-current;
    previous_stage = rotated-previous_stage;
    current_there = rotated-current_there;
    previous_there = rotated-previous_there;
    apart = rotated-apart;
  }
