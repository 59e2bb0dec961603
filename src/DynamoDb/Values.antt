-- ===== src/DynamoDb/Values.antt =====
-- ruststack-dynamodb/src/storage.rs: `AttributeValue` and `Item`. The maps inside a value are the
-- data type `Attributes`, which `entries` reads as a map.
use Prim.Native.Nat.{Ordering, lt, eq, gt}
use Prim.Native.String.{compare}
use ruststack.Prelude.{
  ◌≡◌, refl, ap, String, Bool, true, false, Option, none, some, List, [], ◌∷◌, string_eq,
}
use ruststack.Dict.{Dict}

mutual
  pub data AttributeValue : Type 0 where
    s n b : String → AttributeValue
    bool null : Bool → AttributeValue
    l : Values → AttributeValue
    m : Attributes → AttributeValue
    ss ns bs : List String → AttributeValue

  pub data Values : Type 0 where
    nil : Values
    cons : AttributeValue → Values → Values

  pub data Attributes : Type 0 where
    end : Attributes
    attribute : String → AttributeValue → Attributes → Attributes

-- `HashMap<String, AttributeValue>`
abbrev pub Item : Type 0
Item = Dict String AttributeValue

abbrev pub entries : Attributes → Item
entries end = []
entries (attribute k v rest) = (k, v) ∷ entries rest

abbrev pub of_entries : Item → Attributes
of_entries [] = end
of_entries ((k, v) ∷ rest) = attribute k v (of_entries rest)

pub entries-of_entries : (item : Item) → entries (of_entries item) ≡ item
entries-of_entries [] = refl
entries-of_entries ((k, v) ∷ rest) = ap (λ r. (k, v) ∷ r) (entries-of_entries rest)

-- Rust's `f64` as far as the expressions use it: `parse`, `partial_cmp`, `+`, `-`, `to_string`.
pub record Float : Type 1 where
  pub F64 : Type 0
  pub zero : F64
  pub parse : String → Option F64
  pub partial_cmp : F64 → F64 → Option Ordering
  pub add : F64 → F64 → F64
  pub subtract : F64 → F64 → F64
  pub to_string : F64 → String

-- `cmp` on `bool`
abbrev compare_bool : Bool → Bool → Ordering
compare_bool false false = eq
compare_bool false true = lt
compare_bool true false = gt
compare_bool true true = eq

abbrev pub unwrap_or {ℓ} : {A : Type ℓ} → Option A → A → A
unwrap_or none d = d
unwrap_or (some a) d = a

module _ (float : Float) where
  abbrev pub parsed : String → float.F64
  parsed text = unwrap_or (float.parse text) float.zero

  -- ruststack-dynamodb/src/expression.rs, `compare_attribute_values`
  unfoldable pub compare_attribute_values : AttributeValue → AttributeValue → Ordering
  compare_attribute_values (s s1) (s s2) = compare s1 s2
  compare_attribute_values (n n1) (n n2) = unwrap_or (float.partial_cmp (parsed n1) (parsed n2)) eq
  compare_attribute_values (b b1) (b b2) = compare b1 b2
  compare_attribute_values (bool b1) (bool b2) = compare_bool b1 b2
  compare_attribute_values _ _ = eq
