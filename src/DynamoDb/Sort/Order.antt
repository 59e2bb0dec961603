-- ===== src/DynamoDb/Sort/Order.antt =====
-- Total orders on the items of a table and on those that a query selects of them.
use Prim.Native.Nat.{Ordering}
use ruststack.Prelude.{
  ◌≡◌, refl, String, Bool, true, false, ◌&&◌, Option, none, some, List, [], ◌∷◌, ◌++◌, all, Any,
  inl, inr, arith,
}
use ruststack.DynamoDb.Values.{Item, Float}
use ruststack.DynamoDb.Sort.{opposite, is_total_order, by_range_key}

abbrev pub IsAmong : Item → List Item → Type 0
IsAmong item items = Any (λ other. other ≡ item) items

abbrev pub IsWithin : List Item → List Item → Type 0
IsWithin items all_items = (item : Item) → IsAmong item items → IsAmong item all_items

pub IsWithin-cons :
    (item : Item) (items all_items : List Item)
    → IsAmong item all_items
    → IsWithin items all_items
    → IsWithin (item ∷ items) all_items
IsWithin-cons item items all_items h k x (inl e) = rw (← e) h
IsWithin-cons item items all_items h k x (inr m) = k x m

pub IsWithin-append :
    (items others all_items : List Item)
    → IsWithin items all_items
    → IsWithin others all_items
    → IsWithin (items ++ others) all_items
IsWithin-append [] others all_items h k = k
IsWithin-append (item ∷ items) others all_items h k =
    IsWithin-cons item (items ++ others) all_items (h item (inl refl))
      (IsWithin-append items others all_items (λ x m. h x (inr m)) k)

all-elim :
    (p : Item → Bool) (items : List Item) (item : Item)
    → all p items ≡ true
    → IsAmong item items
    → p item ≡ true
all-elim p [] item h m = absurd m
all-elim p (x ∷ items) item h (inl e) = rw (← e) (ground arith)
all-elim p (x ∷ items) item h (inr m) = all-elim p items item (ground arith) m

pub all-intro :
    (p : Item → Bool) (items : List Item)
    → ((item : Item) → IsAmong item items → p item ≡ true)
    → all p items ≡ true
all-intro p [] h = refl
all-intro p (x ∷ items) h = rw (h x (inl refl)) (all-intro p items (λ item m. h item (inr m)))

all-within :
    (p q : Item → Bool) (items all_items : List Item)
    → IsWithin items all_items
    → ((item : Item) → p item ≡ true → q item ≡ true)
    → all p all_items ≡ true
    → all q items ≡ true
all-within p q items all_items h k e =
    all-intro q items (λ item m. k item (all-elim p all_items item e (h item m)))

and-map : (a b c : Bool) → (a && b) ≡ true → (b ≡ true → c ≡ true) → (a && c) ≡ true
and-map true b c h k = k h
and-map false b c h k = h

-- A comparison that orders some items orders those among them.
pub is_total_order-within :
    (order : Item → Item → Ordering) (items all_items : List Item)
    → IsWithin items all_items
    → is_total_order order all_items ≡ true
    → is_total_order order items ≡ true
unfolding is_total_order
is_total_order-within order items all_items h e =
    all-within _ _ items all_items h
      (λ x ex.
        all-within _ _ items all_items h
          (λ y ey.
            and-map (opposite (order x y) (order y x)) _ _ ey
              (all-within _ _ items all_items h (λ z ez. ez)))
          ex)
      e

-- The comparison by the range key, if there is one, is a total order on the items.
abbrev pub IsOrdered : Float → Option String → List Item → Type 0
IsOrdered float none items = Unit {0}
IsOrdered float (some range_key) items = is_total_order (by_range_key float range_key) items ≡ true
