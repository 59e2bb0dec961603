-- ===== src/Iam/Policy/Glob.antt =====
-- The glob matcher of resources against the meaning of `*` and `?`.
use Prim.Native.Char.{Char, code}
use Prim.Native.String.{[], ◌∷◌, ◌++◌, count}
use text.Mathlib.TextEquality.{Char-path}
use text.Mathlib.TextLemmas.{
  nil-append, cons-append, length-append, length-cons, length-nil, tail-eq_of_cons-eq,
}
use ruststack.Prelude.{
  ◌≡◌, sym, ap, ◌∙◌, ◌<◌, ◌≤◌, ◌+◌, String, true, arith, Bool-cases, eqb, eqb_iff, ◌==◌, string_eq,
  eq_iff, ◌&&◌, not, Option-cases, inl, inr,
}
use ruststack.Text.{
  has_code, starts_with, ends_with, byte_len, split_at_code, strip_suffix_code, strip_prefix_code,
}
use ruststack.Text.Affix.{
  starts_with_iff, ends_with_iff, split_at_code-eq, strip_suffix_code-eq, strip_prefix_code-eq,
}
use ruststack.Iam.Policy.{
  star, question, matches_glob, zip_matches, single_matches, middle_matches, inner_matches,
  leading_matches, trailing_matches,
}

-- `*` stands for any text and `?` for any one character.
pub data Matches : String → String → Type 0 where
  nil : Matches [] []
  lit : (c : Char) {p t : String} → Matches p t → Matches (c ∷ p) (c ∷ t)
  one : (c d : Char) {p t : String} → code c ≡ question → Matches p t → Matches (c ∷ p) (d ∷ t)
  stop : (c : Char) {p t : String} → code c ≡ star → Matches p t → Matches (c ∷ p) t
  more : (c d : Char) {p t : String} → code c ≡ star → Matches (c ∷ p) t → Matches (c ∷ p) (d ∷ t)

Matches-refl : (t : String) → Matches t t
Matches-refl [] = nil
Matches-refl (c ∷ t) = lit c (Matches-refl t)

-- A `*` at the end matches any rest.
star_rest : (c : Char) (r : String) → code c ≡ star → Matches (c ∷ []) r
star_rest c [] e = stop c e nil
star_rest c (d ∷ r) e = more c d e (star_rest c r e)

Matches-append_left : (x : String) {p t : String} → Matches p t → Matches (x ++ p) (x ++ t)
Matches-append_left [] {p} {t} m = rw (nil-append p, nil-append t) m
Matches-append_left (c ∷ x) {p} {t} m =
    rw (cons-append c x p, cons-append c x t) (lit c (Matches-append_left x m))

star_skip :
    (c : Char) (r : String) {p t : String} → code c ≡ star → Matches p t → Matches (c ∷ p) (r ++ t)
star_skip c [] {p} {t} e m = rw (nil-append t) (stop c e m)
star_skip c (d ∷ r) {p} {t} e m = rw (cons-append d r t) (more c d e (star_skip c r e m))

-- Two readings of one text, whose ends do not overlap, leave a middle part.
no_overlap :
    (x r r' y : String) → x ++ r ≡ r' ++ y → count y ≤ count r → (m : String) × (r ≡ m ++ y)
no_overlap [] r r' y e h = (r', sym (nil-append r) ∙ e)
no_overlap (c ∷ x) r [] y e h = absurd (
    omega
      (arith, ap count e, length-append (c ∷ x) r, length-append [] y, length-cons c x, length-nil))
no_overlap (c ∷ x) r (d ∷ r') y e h =
    no_overlap x r r' y (tail-eq_of_cons-eq (sym (cons-append c x r) ∙ e ∙ cons-append d r' y)) h

abbrev pub IsAscii : String → Type 0
IsAscii [] = Unit
IsAscii (c ∷ s) = (code c < 128) × IsAscii s

byte_len-IsAscii : (s : String) → IsAscii s → byte_len s ≡ count s
unfolding byte_len
byte_len-IsAscii [] h = sym length-nil
byte_len-IsAscii (c ∷ s) (h, k) = ground (arith, byte_len-IsAscii s k, length-cons c s)

zip_matches_sound : (p t : String) → zip_matches p t ≡ true → count p ≡ count t → Matches p t
unfolding zip_matches
zip_matches_sound [] [] h e = nil
zip_matches_sound [] (d ∷ t) h e = absurd (omega (arith, length-nil, length-cons d t))
zip_matches_sound (c ∷ p) [] h e = absurd (omega (arith, length-nil, length-cons c p))
zip_matches_sound (c ∷ p) (d ∷ t) h e = elim (Bool-cases (eqb (code c) question)) [
  | inl q ↦
      one c d ((eqb_iff _ _).0 q)
        (zip_matches_sound p t (ground arith) (omega (arith, length-cons c p, length-cons d t)))
  | inr q ↦
      let same : c ≡ d = Char-path c d (ground arith) in
      rw (← same) (
        lit c
          (zip_matches_sound p t (ground arith) (omega (arith, length-cons c p, length-cons d t))))
]

middle_sound :
    (x y t : String) (c : Char)
    → code c ≡ star
    → starts_with t x ≡ true
    → ends_with t y ≡ true
    → count x + count y ≤ count t
    → Matches (x ++ c ∷ y) t
middle_sound x y t c e hx hy h =
    let (r, ex) = (starts_with_iff t x).0 hx in
    let (r', ey) = (ends_with_iff t y).0 hy in
    let (m, em) =
      no_overlap x r r' y (sym ex ∙ ey) (omega (arith, ap count ex, length-append x r)) in
    rw (ex, em) (Matches-append_left x (star_skip c m e (Matches-refl y)))

inner_sound :
    (p t : String)
    → inner_matches p t ≡ true
    → IsAscii p
    → IsAscii t
    → count p ≤ count t + 1
    → Matches p t
unfolding inner_matches single_matches middle_matches
inner_sound p t h pa ta k = elim (Bool-cases (p == t)) [
  | inl same ↦ rw ((eq_iff p t).0 same) (Matches-refl t)
  | inr differ ↦ elim (Bool-cases (has_code question p && not (has_code star p))) [
    | inl single ↦
        zip_matches_sound p t (ground arith)
          (ground (arith, byte_len-IsAscii p pa, byte_len-IsAscii t ta))
    | inr other ↦ elim (Option-cases (split_at_code star p)) [
      | inl e ↦ absurd (ground arith)
      | inr ((x, y), e) ↦
          let (c, ec, ep) = split_at_code-eq star p e in
          rw ep (
            middle_sound x y t c ec (ground arith) (ground arith)
              (omega (arith, ap count ep, length-append x (c ∷ y), length-cons c y)))
    ]
  ]
]

leading_sound :
    (p t : String)
    → leading_matches (strip_prefix_code star p) p t ≡ true
    → IsAscii p
    → IsAscii t
    → count p ≤ count t + 1
    → Matches p t
unfolding leading_matches
leading_sound p t h pa ta k = elim (Option-cases (strip_prefix_code star p)) [
  | inl e ↦ inner_sound p t (rw e at h) pa ta k
  | inr (y, e) ↦
      let (c, ec, ep) = strip_prefix_code-eq star p e in
      let (r, et) = (ends_with_iff t y).0 (rw (e, leading_matches) at h) in
      rw (ep, et) (star_skip c r ec (Matches-refl y))
]

-- Over ASCII texts, the matcher of resources accepts only texts that the glob pattern matches,
-- provided that the pattern has at most one character more than the text (so that the two halves
-- around a middle `*` cannot overlap).
pub matches_glob-Matches :
    (pattern target : String)
    → matches_glob pattern target ≡ true
    → IsAscii pattern
    → IsAscii target
    → count pattern ≤ count target + 1
    → Matches pattern target
unfolding matches_glob trailing_matches
matches_glob-Matches pattern target h pa ta k =
    elim (Option-cases (strip_suffix_code star pattern)) [
      | inl e ↦ leading_sound pattern target (rw e at h) pa ta k
      | inr (x, e) ↦
          let (c, ec, ep) = strip_suffix_code-eq star pattern e in
          let (r, et) = (starts_with_iff target x).0 (rw (e, trailing_matches) at h) in
          rw (ep, et) (Matches-append_left x (star_rest c r ec))
    ]
