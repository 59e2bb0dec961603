-- ===== src/Iam/Policy/Overlap.antt =====
-- Where the two halves around a middle `*` overlap, the matcher accepts too much.
use Prim.Native.Char.{Char, code}
use Prim.Native.String.{[], ◌∷◌, ◌++◌, count}
use text.Mathlib.TextLemmas.{
  nil-append, cons-append, length-cons, length-nil, append-ne-nil_of_right_ne-nil, cons-ne-nil,
}
use ruststack.Prelude.{
  ℕ, suc, ◌≡◌, ◌≢◌, sym, ◌<◌, ◌≤◌, ◌+◌, String, true, false, arith, eqb, string_eq, ◌||◌,
  if◌then◌else◌, some, none, refl,
}
use ruststack.Text.{
  has_code, starts_with, ends_with, split_at_code, strip_suffix_code, strip_prefix_code,
}
use ruststack.Iam.Policy.{
  star, question, matches_glob, trailing_matches, leading_matches, inner_matches, middle_matches,
}
use ruststack.Iam.Policy.Glob.{Matches, nil, lit, one, stop, more}

-- The characters of a pattern that each take one character of the text.
width : String → ℕ
width [] = 0
width (c ∷ p) = if eqb (code c) star then width p else suc (width p)

Matches-width : {p t : String} → Matches p t → width p ≤ count t
unfolding width
Matches-width nil = omega (arith, length-nil)
Matches-width (lit c {p} {t} m) = ground (arith, Matches-width m, length-cons c t)
Matches-width (one c d {p} {t} e m) = ground (arith, Matches-width m, length-cons d t)
Matches-width (stop c {p} {t} e m) = ground (arith, Matches-width m)
Matches-width (more c d {p} {t} e m) = ground (arith, Matches-width m, length-cons d t)

width-append : (x p : String) → has_code star x ≡ false → width (x ++ p) ≡ count x + width p
unfolding width has_code
width-append [] p h = rw (nil-append, length-nil) (omega arith)
width-append (c ∷ x) p h = rw (cons-append, length-cons) (ground (arith, width-append x p))

width-eq-count : (y : String) → has_code star y ≡ false → width y ≡ count y
unfolding width has_code
width-eq-count [] h = sym length-nil
width-eq-count (c ∷ y) h = rw length-cons (ground (arith, width-eq-count y))

-- A pattern `x*y` whose halves are not empty and hold no wildcard.
pub record IsHalved (x y : String) : Type 0 where
  pub left : x ≢ []
  pub right : y ≢ []
  pub no_star_left : has_code star x ≡ false
  pub no_star_right : has_code star y ≡ false
  pub no_question_left : has_code question x ≡ false
  pub no_question_right : has_code question y ≡ false

suffix_none : (n : ℕ) (y : String) → has_code n y ≡ false → strip_suffix_code n y ≡ none
unfolding strip_suffix_code has_code
suffix_none n [] h = refl
suffix_none n (c ∷ []) h = ground arith
suffix_none n (c ∷ d ∷ y) h = ground (arith, suffix_none n (d ∷ y))

suffix_none_cons :
    (n : ℕ) (c : Char) (s : String)
    → s ≢ []
    → strip_suffix_code n s ≡ none
    → strip_suffix_code n (c ∷ s) ≡ none
unfolding strip_suffix_code
suffix_none_cons n c [] h e = absurd (h refl)
suffix_none_cons n c (d ∷ s) h e = rw e

suffix_none-append :
    (n : ℕ) (x y : String)
    → y ≢ []
    → strip_suffix_code n y ≡ none
    → strip_suffix_code n (x ++ y) ≡ none
suffix_none-append n [] y h e = rw nil-append e
suffix_none-append n (c ∷ x) y h e = rw cons-append (
    suffix_none_cons n c (x ++ y) (append-ne-nil_of_right_ne-nil x h)
      (suffix_none-append n x y h e))

prefix_none :
    (n : ℕ) (x t : String) → x ≢ [] → has_code n x ≡ false → strip_prefix_code n (x ++ t) ≡ none
unfolding strip_prefix_code has_code
prefix_none n [] t h e = absurd (h refl)
prefix_none n (c ∷ x) t h e = rw cons-append (ground arith)

split_halves :
    (n : ℕ) (x y : String) (c : Char)
    → code c ≡ n
    → has_code n x ≡ false
    → split_at_code n (x ++ c ∷ y) ≡ some (x, y)
unfolding split_at_code has_code
split_halves n [] y c e h = rw nil-append (ground arith)
split_halves n (d ∷ x) y c e h = rw cons-append (ground (arith, split_halves n x y c e))

has_code-append : (n : ℕ) (x y : String) → has_code n (x ++ y) ≡ (has_code n x || has_code n y)
unfolding has_code
has_code-append n [] y = rw nil-append
has_code-append n (c ∷ x) y = rw cons-append (ground (arith, has_code-append n x y))

matches_glob_halves :
    (x y t : String)
    → IsHalved x y
    → starts_with t x ≡ true
    → ends_with t y ≡ true
    → matches_glob (x ++ "*" ∷ y) t ≡ true
unfolding matches_glob trailing_matches leading_matches inner_matches middle_matches has_code
matches_glob_halves x y t h hx hy =
    let tail : strip_suffix_code star ("*" ∷ y) ≡ none =
      suffix_none_cons star "*" y h.right (suffix_none star y h.no_star_right) in
    rw
      (
        suffix_none-append star x ("*" ∷ y) (cons-ne-nil "*" y) tail,
        prefix_none star x ("*" ∷ y) h.left h.no_star_left,
      )
      (ground (
        arith,
        split_halves star x y "*" refl h.no_star_left,
        has_code-append question x ("*" ∷ y),
        has_code-append star x ("*" ∷ y),
      ))

-- A pattern `x*y`, with halves that are not empty and hold no wildcard, accepts a text that starts
-- with `x` and ends with `y` also when the two overlap in it, and such a text does not match.
pub matches_glob_overlap :
    (x y t : String)
    → IsHalved x y
    → starts_with t x ≡ true
    → ends_with t y ≡ true
    → count t < count x + count y
    → (matches_glob (x ++ "*" ∷ y) t ≡ true) × (¬ Matches (x ++ "*" ∷ y) t)
unfolding width
matches_glob_overlap x y t h hx hy short = (
  matches_glob_halves x y t h hx hy,
  λ m. omega (
    arith,
    Matches-width m,
    width-append x ("*" ∷ y) h.no_star_left,
    width-eq-count y h.no_star_right,
  ),
)
