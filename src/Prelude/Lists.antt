-- ===== src/Prelude/Lists.antt =====
-- Lists measured by native numbers, Boolean searches, and predicates on every member.
use Prim.Native.Nat.{ℕ, zero, suc, ◌+◌, ◌≤◌, min}
use mathlib.Core.Path.{◌≡◌, refl, ap}
use mathlib.Core.Logic.{◌⊎◌, inl, inr}
use mathlib.Core.Bool.{Bool, true, false, ◌&&◌, ◌||◌}
use mathlib.Core.List.{List, [], ◌∷◌, ◌++◌}
use native.Mathlib.Omega.{arith}
use ruststack.Prelude.Tests.{if◌then◌else◌, Bool-cases, HasEq, ◌==◌}

module _ {ℓ} {A : Type ℓ} where
  abbrev pub length : List A → ℕ
  length [] = 0
  length (x ∷ xs) = suc (length xs)

  abbrev pub take : ℕ → List A → List A
  take zero xs = []
  take (suc n) [] = []
  take (suc n) (x ∷ xs) = x ∷ take n xs

  abbrev pub drop : ℕ → List A → List A
  drop zero xs = xs
  drop (suc n) [] = []
  drop (suc n) (x ∷ xs) = drop n xs

  abbrev pub any : (A → Bool) → List A → Bool
  any p [] = false
  any p (x ∷ xs) = p x || any p xs

  abbrev pub all : (A → Bool) → List A → Bool
  all p [] = true
  all p (x ∷ xs) = p x && all p xs

  -- `Vec::retain` and `Iterator::filter`.
  abbrev pub keep_if : (A → Bool) → List A → List A
  keep_if p [] = []
  keep_if p (x ∷ xs) = let rest = keep_if p xs in if p x then x ∷ rest else rest

  pub length-append : (xs ys : List A) → length (xs ++ ys) ≡ length xs + length ys
  length-append [] ys = omega arith
  length-append (x ∷ xs) ys = omega (arith, length-append xs ys)

  pub take-append-drop : (n : ℕ) (xs : List A) → take n xs ++ drop n xs ≡ xs
  take-append-drop zero xs = refl
  take-append-drop (suc n) [] = refl
  take-append-drop (suc n) (x ∷ xs) = ap (λ r. x ∷ r) (take-append-drop n xs)

  pub length-take : (n : ℕ) (xs : List A) → length (take n xs) ≡ min n (length xs)
  length-take zero xs = omega arith
  length-take (suc n) [] = omega arith
  length-take (suc n) (x ∷ xs) = omega (arith, length-take n xs)

  pub keep_if-append :
      (p : A → Bool) (xs ys : List A) → keep_if p (xs ++ ys) ≡ keep_if p xs ++ keep_if p ys
  keep_if-append p [] ys = refl
  keep_if-append p (x ∷ xs) ys = ground (arith, keep_if-append p xs ys)

  pub length-keep_if-le : (p : A → Bool) (xs : List A) → length (keep_if p xs) ≤ length xs
  length-keep_if-le p [] = omega arith
  length-keep_if-le p (x ∷ xs) = ground (arith, length-keep_if-le p xs)

module _ {ℓ κ} {A : Type ℓ} (P : A → Type κ) where
  abbrev pub All : List A → Type κ
  All [] = Unit
  All (x ∷ xs) = P x × All xs

  pub All-append : (xs ys : List A) → All xs → All ys → All (xs ++ ys)
  All-append [] ys _ k = k
  All-append (x ∷ xs) ys (p, h) k = (p, All-append xs ys h k)

module _ {ℓ} {A : Type ℓ} (P : A → Type 0) where
  -- Some member satisfies `P`.
  abbrev pub Any : List A → Type 0
  Any [] = ⊥
  Any (x ∷ xs) = P x ⊎ Any xs

  -- A Boolean search decides `Any` when the test decides `P`.
  pub any→Any :
      (p : A → Bool) (xs : List A) → ((x : A) → p x ≡ true → P x) → any p xs ≡ true → Any xs
  any→Any p [] h e = cc
  any→Any p (x ∷ xs) h e = elim (Bool-cases (p x)) [
    | inl q ↦ inl (h x q)
    | inr q ↦ inr (any→Any p xs h (rw q at e))
  ]

  pub Any→any :
      (p : A → Bool) (xs : List A) → ((x : A) → P x → p x ≡ true) → Any xs → any p xs ≡ true
  Any→any p [] h m = absurd m
  Any→any p (x ∷ xs) h (inl q) = rw (h x q)
  Any→any p (x ∷ xs) h (inr m) = ground (arith, Any→any p xs h m)

module _ {ℓ} {A : Type ℓ} ⦃e : HasEq A⦄ where
  -- `Vec::contains`
  unfoldable pub contains : List A → A → Bool
  contains [] a = false
  contains (x ∷ xs) a = x == a || contains xs a

  pub contains-append :
      (xs ys : List A) (a : A) → contains (xs ++ ys) a ≡ (contains xs a || contains ys a)
  unfolding contains
  contains-append [] ys a = refl
  contains-append (x ∷ xs) ys a = ground (arith, contains-append xs ys a)

  -- `retain(|x| x != a)`
  unfoldable pub without : A → List A → List A
  without a [] = []
  without a (x ∷ xs) = let rest = without a xs in if x == a then rest else x ∷ rest

  pub contains-without :
      (a b : A) (xs : List A)
      → contains (without a xs) b ≡ (if a == b then false else contains xs b)
  unfolding contains without
  contains-without a b [] = ground arith
  contains-without a b (x ∷ xs) =
      ground (arith, contains-without a b xs, e.decides x a, e.decides x b, e.decides a b)

  -- What is not there is not removed.
  pub without-eq_self : (a : A) (xs : List A) → contains xs a ≡ false → without a xs ≡ xs
  unfolding contains without
  without-eq_self a [] h = refl
  without-eq_self a (x ∷ xs) h = ground (arith, without-eq_self a xs)

  pub without-append_self :
      (a : A) (xs : List A) → contains xs a ≡ false → without a (xs ++ a ∷ []) ≡ xs
  unfolding contains without
  without-append_self a [] h = ground (arith, e.decides a a)
  without-append_self a (x ∷ xs) h = ground (arith, without-append_self a xs)

  -- No member stands twice.
  abbrev pub IsDistinct : List A → Type 0
  IsDistinct [] = Unit
  IsDistinct (x ∷ xs) = (contains xs x ≡ false) × IsDistinct xs

  pub IsDistinct-append :
      (a : A) (xs : List A) → contains xs a ≡ false → IsDistinct xs → IsDistinct (xs ++ a ∷ [])
  unfolding contains
  IsDistinct-append a [] h d = (refl, tt)
  IsDistinct-append a (x ∷ xs) h d = (
    ground (arith, contains-append xs (a ∷ []) x, e.decides x a, e.decides a x),
    IsDistinct-append a xs (ground arith) d.1,
  )

  pub IsDistinct-without : (a : A) (xs : List A) → IsDistinct xs → IsDistinct (without a xs)
  unfolding without
  IsDistinct-without a [] d = tt
  IsDistinct-without a (x ∷ xs) d =
      ground (arith, contains-without a x xs, IsDistinct-without a xs d.1)
