-- ===== src/DynamoDb/Sort.antt =====
-- ruststack-dynamodb/src/storage.rs: the order of the items of a query, and the standard library's
-- `sort_by` as it is documented: a stable sort where the comparison is a total order on the items;
-- elsewhere the order of the answer is left open and the sort may panic.
pub mod Order
pub mod Texts
use Prim.Native.Nat.{Ordering}
use Prim.Native.String.{compare}
use mathlib.Core.List.{reverse}
use ruststack.Prelude.{
  String, Bool, true, false, not, ◌&&◌, ◌||◌, Option, none, some, List, [], ◌∷◌, all, string_eq,
  if◌then◌else◌,
}
use ruststack.Dict.{get}
use ruststack.Result.{Result, ok, err, ◌>>=◌}
use ruststack.DynamoDb.Values.{AttributeValue, s, n, b, Item, Float, parsed, unwrap_or}
use ruststack.DynamoDb.Conditions.{Failure, panicked}

abbrev pub comes_after : Ordering → Bool
comes_after Ordering.gt = true
comes_after _ = false

-- The two results are those of one pair, compared both ways round.
abbrev pub opposite : Ordering → Ordering → Bool
opposite Ordering.lt Ordering.gt = true
opposite Ordering.eq Ordering.eq = true
opposite Ordering.gt Ordering.lt = true
opposite _ _ = false

-- What `sort_by` answers, or `none` where it panics, with a comparison that is no total order.
abbrev pub Unordered : Type 0
Unordered = (Item → Item → Ordering) → List Item → Option (List Item)

module _ (order : Item → Item → Ordering) where
  abbrev pub passes_on : Item → Item → Item → Bool
  passes_on x y z =
      comes_after (order x y) || comes_after (order y z) || not (comes_after (order x z))

  -- The comparison is a total order on the items.
  unfoldable pub is_total_order : List Item → Bool
  is_total_order items =
      all
        (λ x. all (λ y. opposite (order x y) (order y x) && all (λ z. passes_on x y z) items) items)
        items

  unfoldable pub insert_by : Item → List Item → List Item
  insert_by item [] = item ∷ []
  insert_by item (other ∷ items) =
      let rest = insert_by item items in
      if comes_after (order item other) then other ∷ rest else item ∷ other ∷ items

  unfoldable pub insertion_sort : List Item → List Item
  unfolding insert_by
  insertion_sort [] = []
  insertion_sort (item ∷ items) = insert_by item (insertion_sort items)

  abbrev pub or_panics : Option (List Item) → Result Failure (List Item)
  or_panics none = err panicked
  or_panics (some items) = ok items

  unfoldable pub sort_by : Unordered → List Item → Result Failure (List Item)
  unfolding is_total_order insertion_sort
  sort_by unordered items =
      if is_total_order items then ok (insertion_sort items) else or_panics (unordered order items)

module _ (float : Float) where
  -- `compare_attribute_values` of storage.rs, which knows no order of booleans
  abbrev pub compare_values : AttributeValue → AttributeValue → Ordering
  compare_values (s s1) (s s2) = compare s1 s2
  compare_values (n n1) (n n2) =
      unwrap_or (float.partial_cmp (parsed float n1) (parsed float n2)) Ordering.eq
  compare_values (b b1) (b b2) = compare b1 b2
  compare_values _ _ = Ordering.eq

  abbrev pub compare_attribute_values_opt : Option AttributeValue → Option AttributeValue → Ordering
  compare_attribute_values_opt none none = Ordering.eq
  compare_attribute_values_opt none (some v) = Ordering.lt
  compare_attribute_values_opt (some v) none = Ordering.gt
  compare_attribute_values_opt (some v) (some w) = compare_values v w

  -- the comparison of two items by their range keys
  unfoldable pub by_range_key : String → Item → Item → Ordering
  by_range_key range_key x y = compare_attribute_values_opt (get range_key x) (get range_key y)

  abbrev pub sorted : Unordered → Option String → Bool → List Item → Result Failure (List Item)
  sorted unordered none scan_index_forward items = ok items
  sorted unordered (some range_key) true items = sort_by (by_range_key range_key) unordered items
  sorted unordered (some range_key) false items =
      sort_by (by_range_key range_key) unordered items >>= λ ascending. ok (reverse ascending)
