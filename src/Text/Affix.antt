-- ===== src/Text/Affix.antt =====
-- What prefixes, suffixes and the split at a character mean as equations of texts.
use Prim.Native.Char.{Char, code}
use Prim.Native.String.{[], ◌∷◌, ◌++◌}
use text.Mathlib.TextEquality.{Char-path}
use text.Mathlib.TextLemmas.{nil-append, cons-append}
use ruststack.Prelude.{
  ℕ, ◌≡◌, refl, ◌↔◌, sym, ap, ◌∙◌, inl, inr, String, true, some, eqb, eqb_iff, Bool-cases, ◌==◌,
  eq_iff, arith, string_eq, eq_refl, Option-cases,
}
use ruststack.Text.{
  strip_prefix, starts_with, ends_with, strip_suffix_code, strip_prefix_code, split_at_code,
}

strip_prefix-eq : (s p r : String) → strip_prefix s p ≡ some r → s ≡ p ++ r
unfolding strip_prefix
strip_prefix-eq s [] r h = ground (arith, nil-append r)
strip_prefix-eq [] (c ∷ p) r h = cc
strip_prefix-eq (d ∷ s) (c ∷ p) r h = elim (Bool-cases (eqb (code d) (code c))) [
  | inl e ↦
      cc (Char-path d c ((eqb_iff _ _).0 e), strip_prefix-eq s p r (rw e at h), cons-append c p r)
  | inr e ↦ ground arith
]

strip_prefix-append : (p r : String) → strip_prefix (p ++ r) p ≡ some r
unfolding strip_prefix
strip_prefix-append [] r = ap some (nil-append r)
strip_prefix-append (c ∷ p) r =
    rw (cons-append, (eqb_iff (code c) (code c)).1 refl) (strip_prefix-append p r)

-- A text starts with `p` exactly when it is `p` followed by something.
pub starts_with_iff : (s p : String) → (starts_with s p ≡ true) ↔ ((r : String) × (s ≡ p ++ r))
unfolding starts_with
starts_with_iff s p = (
  λ h. elim (Option-cases (strip_prefix s p)) [
    | inl e ↦ absurd (ground arith)
    | inr (r, e) ↦ (r, strip_prefix-eq s p r e)
  ],
  λ (r, e). rw (e, strip_prefix-append p r),
)

ends_with_sound : (s q : String) → ends_with s q ≡ true → (r : String) × (s ≡ r ++ q)
unfolding ends_with
ends_with_sound [] q h = ([], (eq_iff [] q).0 h ∙ sym (nil-append q))
ends_with_sound (c ∷ s) q h = elim (Bool-cases ((c ∷ s) == q)) [
  | inl e ↦ ([], (eq_iff (c ∷ s) q).0 e ∙ sym (nil-append q))
  | inr e ↦
      let (r, p) = ends_with_sound s q (ground arith) in
      (c ∷ r, ap (λ t. c ∷ t) p ∙ sym (cons-append c r q))
]

ends_with_self : (q : String) → ends_with q q ≡ true
unfolding ends_with
ends_with_self [] = refl
ends_with_self (c ∷ q) = rw (eq_refl (c ∷ q))

ends_with-append : (r q : String) → ends_with (r ++ q) q ≡ true
unfolding ends_with
ends_with-append [] q = rw nil-append (ends_with_self q)
ends_with-append (c ∷ r) q = rw cons-append (ground (arith, ends_with-append r q))

-- A text ends with `q` exactly when it is something followed by `q`.
pub ends_with_iff : (s q : String) → (ends_with s q ≡ true) ↔ ((r : String) × (s ≡ r ++ q))
ends_with_iff s q = (ends_with_sound s q, λ (r, e). rw e (ends_with-append r q))

pub strip_suffix_code-eq :
    (n : ℕ) (s : String) {p : String}
    → strip_suffix_code n s ≡ some p
    → (c : Char) × (code c ≡ n) × (s ≡ p ++ c ∷ [])
unfolding strip_suffix_code
strip_suffix_code-eq n [] h = cc
strip_suffix_code-eq n (c ∷ []) {p} h =
    (c, ground arith, let e : p ≡ [] = ground arith in rw e (sym (nil-append _)))
strip_suffix_code-eq n (c ∷ d ∷ s) {p} h = elim (Option-cases (strip_suffix_code n (d ∷ s))) [
  | inl e ↦ cc
  | inr (q, e) ↦
      let (x, hx, eq) = strip_suffix_code-eq n (d ∷ s) e in
      (x, hx, cc (eq, cons-append c q (x ∷ [])))
]

pub strip_prefix_code-eq :
    (n : ℕ) (s : String) {p : String}
    → strip_prefix_code n s ≡ some p
    → (c : Char) × (code c ≡ n) × (s ≡ c ∷ p)
unfolding strip_prefix_code
strip_prefix_code-eq n [] h = cc
strip_prefix_code-eq n (c ∷ s) h = (c, ground arith, ground arith)

pub split_at_code-eq :
    (n : ℕ) (s : String) {p q : String}
    → split_at_code n s ≡ some (p, q)
    → (c : Char) × (code c ≡ n) × (s ≡ p ++ c ∷ q)
unfolding split_at_code
split_at_code-eq n [] h = cc
split_at_code-eq n (c ∷ s) {p} {q} h = elim (Bool-cases (eqb (code c) n)) [
  | inl e ↦ (c, (eqb_iff _ _).0 e, ground (arith, nil-append (c ∷ s)))
  | inr e ↦ elim (Option-cases (split_at_code n s)) [
    | inl f ↦ cc
    | inr (r, f) ↦
        let (x, hx, eq) = split_at_code-eq n s {p = r.0} {q = r.1} f in
        (x, hx, ground (arith, eq, cons-append c r.0 (x ∷ r.1)))
  ]
]
