-- ===== src/DynamoDb/Sort/Texts.antt =====
-- Range keys that are texts: the comparison of ruststack-dynamodb/src/storage.rs orders them.
use Prim.Native.Nat.{Ordering, compare as compare_ℕ}
use Prim.Native.Char.{code}
use Prim.Native.String.compare
use Prim.Native.String.{compare, then}
use ruststack.Prelude.{ℕ, ◌≡◌, refl, String, Bool, true, ◌||◌, not, some, List, arith, string_eq}
use ruststack.Dict.{get}
use ruststack.DynamoDb.Values.{Item, Float, s}
use ruststack.DynamoDb.Sort.{opposite, comes_after, passes_on, is_total_order, by_range_key}
use ruststack.DynamoDb.Sort.Order.{IsAmong, IsOrdered, all-intro}

abbrev between : Ordering → Ordering → Ordering → Bool
between xy yz xz = comes_after xy || comes_after yz || not (comes_after xz)

then-opposite :
    (m n : ℕ) (o p : Ordering)
    → opposite o p ≡ true
    → opposite (then (compare_ℕ m n) o) (then (compare_ℕ n m) p) ≡ true
then-opposite m n o p h = ground arith

compare-opposite : (v t : String) → opposite (compare v t) (compare t v) ≡ true
compare-opposite String.[] String.[] = refl
compare-opposite String.[] (String.◌∷◌ d t) = rw (compare.nil-cons d t, compare.cons-nil d t) refl
compare-opposite (String.◌∷◌ c v) String.[] = rw (compare.cons-nil c v, compare.nil-cons c v) refl
compare-opposite (String.◌∷◌ c v) (String.◌∷◌ d t) =
    rw (compare.cons-cons c d v t, compare.cons-cons d c t v)
      (then-opposite (code c) (code d) (compare v t) (compare t v) (compare-opposite v t))

then-between :
    (l m n : ℕ) (o p q : Ordering)
    → between o p q ≡ true
    → between (then (compare_ℕ l m) o) (then (compare_ℕ m n) p) (then (compare_ℕ l n) q) ≡ true
then-between l m n o p q h = ground arith

compare-between : (v t u : String) → between (compare v t) (compare t u) (compare v u) ≡ true
compare-between String.[] String.[] String.[] = refl
compare-between String.[] String.[] (String.◌∷◌ e u) = rw (compare.nil-cons e u) refl
compare-between String.[] (String.◌∷◌ d t) String.[] = rw (compare.cons-nil d t) (ground arith)
compare-between String.[] (String.◌∷◌ d t) (String.◌∷◌ e u) =
    rw (compare.nil-cons e u) (ground arith)
compare-between (String.◌∷◌ c v) String.[] u = rw (compare.cons-nil c v) refl
compare-between (String.◌∷◌ c v) (String.◌∷◌ d t) String.[] =
    rw (compare.cons-nil d t) (ground arith)
compare-between (String.◌∷◌ c v) (String.◌∷◌ d t) (String.◌∷◌ e u) =
    rw (compare.cons-cons c d v t, compare.cons-cons d e t u, compare.cons-cons c e v u)
      (then-between (code c) (code d) (code e) (compare v t) (compare t u) (compare v u)
        (compare-between v t u))

-- The item has a text under the range key.
abbrev pub HasText : String → Item → Type 0
HasText range_key item = (text : String) × (get range_key item ≡ some (s text))

module _ (float : Float) (range_key : String) where
  by_range_key-opposite :
      (x y : Item)
      → HasText range_key x
      → HasText range_key y
      → opposite (by_range_key float range_key x y) (by_range_key float range_key y x) ≡ true
  unfolding by_range_key
  by_range_key-opposite x y (v, e) (w, f) = rw (e, f) (compare-opposite v w)

  by_range_key-passes_on :
      (x y z : Item)
      → HasText range_key x
      → HasText range_key y
      → HasText range_key z
      → passes_on (by_range_key float range_key) x y z ≡ true
  unfolding by_range_key
  by_range_key-passes_on x y z (v, e) (w, f) (u, g) = rw (e, f, g) (compare-between v w u)

  -- Items with texts under the range key are ordered by it.
  pub HasText-IsOrdered :
      (items : List Item)
      → ((item : Item) → IsAmong item items → HasText range_key item)
      → IsOrdered float (some range_key) items
  unfolding is_total_order
  HasText-IsOrdered items h = all-intro _ items (λ x mx. all-intro _ items (λ y my.
      rw (by_range_key-opposite x y (h x mx) (h y my))
        (all-intro _ items (λ z mz. by_range_key-passes_on x y z (h x mx) (h y my) (h z mz)))))
