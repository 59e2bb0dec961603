-- ===== src/DynamoDb/Table/Copies.antt =====
-- Attributes of an item copied into another, in ruststack-dynamodb/src/storage.rs.
use ruststack.Prelude.{
  ◌≡◌, refl, String, true, false, none, arith, ◌==◌, string_eq, eq_iff, Option-cases, inl, inr,
}
use ruststack.Dict.{get, get-put}
use ruststack.DynamoDb.Values.{Item}
use ruststack.DynamoDb.Table.{copy_attribute}

-- An attribute that agrees with the item's stays so.
pub copy_kept :
    (a n : String) (item key : Item)
    → get n key ≡ get n item
    → get n (copy_attribute a (get a item) key) ≡ get n item
copy_kept a n item key h = elim (Option-cases (get a item)) [
  | inl e ↦ rw e h
  | inr (v, e) ↦ rw e (ground (arith, get-put a n v key, eq_iff a n))
]

pub copy_same :
    (a n : String) (item key : Item)
    → get n key ≡ none
    → (a == n) ≡ true
    → get n (copy_attribute a (get a item) key) ≡ get n item
copy_same a n item key h p = elim (Option-cases (get a item)) [
  | inl e ↦ rw e (ground (arith, eq_iff a n))
  | inr (v, e) ↦ rw e (ground (arith, get-put a n v key, eq_iff a n))
]

pub copy_other :
    (a n : String) (item key : Item)
    → (a == n) ≡ false
    → get n (copy_attribute a (get a item) key) ≡ get n key
copy_other a n item key p = elim (Option-cases (get a item)) [
  | inl e ↦ rw e refl
  | inr (v, e) ↦ rw e (ground (arith, get-put a n v key))
]
