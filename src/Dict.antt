-- ===== src/Dict.antt =====
-- `HashMap` and `DashMap`: maps over a key type with a Boolean equality, as association lists.
-- `put` replaces the entry of its key, so a map that the operations build has distinct keys.
-- The order of the entries stands for the iteration order, which Rust leaves open.
use ruststack.Prelude.{
  ◌≡◌, Bool, Option, none, some, List, [], ◌∷◌, arith, HasEq, ◌==◌, if◌then◌else◌, is_some,
}

abbrev pub Dict {ℓ κ} : Type ℓ → Type κ → Type (ℓ ⊔ κ)
Dict K V = List (K × V)

abbrev pub empty {ℓ κ} : {K : Type ℓ} {V : Type κ} → Dict K V
empty = []

module _ {ℓ κ} {K : Type ℓ} {V : Type κ} ⦃e : HasEq K⦄ where
  unfoldable pub get : K → Dict K V → Option V
  get k [] = none
  get k ((j, v) ∷ d) = if j == k then some v else get k d

  unfoldable pub remove : K → Dict K V → Dict K V
  remove k [] = []
  remove k ((j, v) ∷ d) = let rest = remove k d in if j == k then rest else (j, v) ∷ rest

  unfoldable pub put : K → V → Dict K V → Dict K V
  unfolding remove
  put k v d = (k, v) ∷ remove k d

  unfoldable pub contains_key : K → Dict K V → Bool
  unfolding get
  contains_key k d = is_some (get k d)

  abbrev pub keys : Dict K V → List K
  keys [] = []
  keys ((j, v) ∷ d) = j ∷ keys d

  abbrev pub values : Dict K V → List V
  values [] = []
  values ((j, v) ∷ d) = v ∷ values d

  pub get-remove :
      (k j : K) (d : Dict K V) → get j (remove k d) ≡ (if k == j then none else get j d)
  unfolding get remove
  get-remove k j [] = ground arith
  get-remove k j ((i, v) ∷ d) =
      ground (arith, get-remove k j d, e.decides i k, e.decides i j, e.decides k j)

  pub get-put :
      (k j : K) (v : V) (d : Dict K V) → get j (put k v d) ≡ (if k == j then some v else get j d)
  unfolding get put
  get-put k j v d = ground (arith, get-remove k j d)
