-- ===== src/DynamoDb/Storage/Read.antt =====
-- ruststack-dynamodb/src/storage.rs: reading an item, with its projection.
use ruststack.Prelude.{
  ap, ◌∙◌, eq_refl, ℕ, ◌≡◌, refl, String, Bool, false, Option, none, some, List, [], ◌∷◌, ◌==◌,
  string_eq, if◌then◌else◌, ◌||◌, Bool-cases, inl, inr,
}
use ruststack.Dict.{Dict, get, put, get-put}
use ruststack.Result.{Result, ok, ok_or, state, ◌>>=◌}
use ruststack.Text.Words.{split_trimmed}
use ruststack.DynamoDb.Values.{Item, Float}
use ruststack.DynamoDb.Schema.{DynamoDbError, resource_not_found}
use ruststack.DynamoDb.Table.{Table, get_key, copy_attribute, map_option}
use ruststack.DynamoDb.Table.Copies.{copy_same, copy_other, copy_kept}
use ruststack.DynamoDb.Storage.{Parsers, DynamoDbStorage, unwrap_or}
use ruststack.DynamoDb.Storage.Items.{check_condition, put_item}
use ruststack.DynamoDb.Storage.View.{update_indexes_kept}
use ruststack.DynamoDb.Storage.Collision.{stored}
use ruststack.DynamoDb.Conditions.{ExpressionContext}

abbrev comma : ℕ
comma = 44

-- The attribute that a name of a projection stands for: itself where the call names none.
unfoldable pub attribute_name : Option (Dict String String) → String → String
attribute_name none attr = attr
attribute_name (some names) attr = unwrap_or (get attr names) attr

unfoldable pub project_loop : Option (Dict String String) → Item → List String → Item → Item
unfolding attribute_name
project_loop names item [] projected = projected
project_loop names item (attr ∷ attributes) projected =
    project_loop names item attributes
      (copy_attribute (attribute_name names attr) (get (attribute_name names attr) item) projected)

unfoldable pub projection : Option String → Option (Dict String String) → Option Item → Option Item
unfolding project_loop
projection none names item = item
projection (some proj) names none = none
projection (some proj) names (some item) =
    some (project_loop names item (split_trimmed comma proj) [])

unfoldable pub get_item :
    String
    → Item
    → Option String
    → Option (Dict String String)
    → DynamoDbStorage
    → Result DynamoDbError (Option Item)
unfolding projection
get_item table_name key projection_expression expression_attribute_names s = do
  table ← ok_or (get table_name s.tables) (resource_not_found table_name)
  key_str ← get_key table key
  ok (projection projection_expression expression_attribute_names (get key_str table.items))

module _ (names : Option (Dict String String)) (item : Item) (n : String) where
  -- The attribute is one of those that the projection lists.
  unfoldable pub listed : List String → Bool
  listed [] = false
  listed (attr ∷ attributes) = (attribute_name names attr == n) || listed attributes

  project_loop-kept :
      (attributes : List String) (projected : Item)
      → get n projected ≡ get n item
      → get n (project_loop names item attributes projected) ≡ get n item
  unfolding project_loop
  project_loop-kept [] projected h = h
  project_loop-kept (attr ∷ attributes) projected h =
      project_loop-kept attributes
        (copy_attribute (attribute_name names attr) (get (attribute_name names attr) item)
          projected)
        (copy_kept (attribute_name names attr) n item projected h)

  project_loop-get :
      (attributes : List String) (projected : Item)
      → get n projected ≡ none
      → get n (project_loop names item attributes projected)
        ≡ (if listed attributes then get n item else none)
  unfolding project_loop listed
  project_loop-get [] projected h = h
  project_loop-get (attr ∷ attributes) projected h =
      elim (Bool-cases (attribute_name names attr == n)) [
        | inl e ↦ rw e (
            project_loop-kept attributes
              (copy_attribute (attribute_name names attr) (get (attribute_name names attr) item)
                projected)
              (copy_same (attribute_name names attr) n item projected h e))
        | inr e ↦ rw e (
            project_loop-get attributes
              (copy_attribute (attribute_name names attr) (get (attribute_name names attr) item)
                projected)
              (copy_other (attribute_name names attr) n item projected e ∙ h))
      ]

-- Reading with a projection answers an item with the attributes that the projection lists, under
-- the names that they stand for: each has the value of the stored item, and no other is there.
pub projection-get :
    (proj : String) (names : Option (Dict String String)) (item : Item) (n : String)
    → map_option (get n) (projection (some proj) names (some item))
      ≡ some (if listed names item n (split_trimmed comma proj) then get n item else none)
unfolding projection get
projection-get proj names item n =
    ap some (project_loop-get names item n (split_trimmed comma proj) [] refl)

module _ (parsers : Parsers) (float : Float) (ctx : ExpressionContext) (name : String) where
  put_item_passed :
      (item : Item) (condition : Option String) (store : DynamoDbStorage) (table : Table)
      (key : String)
      → get name store.tables ≡ some table
      → get_key table item ≡ ok key
      → check_condition parsers float ctx condition (unwrap_or (get key table.items) []) ≡ ok tt
      → put_item parsers float ctx name item condition store ≡ (
        ok (get key table.items),
        record { tables = put name (stored table key item) store.tables },
      )
  unfolding put_item
  put_item_passed item condition store table key e f g = rw (e, f, g) refl

  -- After a put that finds its table and passes its condition, a read of a key of that table
  -- answers, under its projection, the item of the put where the text keys are the same, and what
  -- stood there before where they are not.
  pub get_item-put_item :
      (item key_item : Item) (condition proj : Option String) (names : Option (Dict String String))
      (store : DynamoDbStorage) (table : Table) (key other : String)
      → get name store.tables ≡ some table
      → get_key table item ≡ ok key
      → get_key table key_item ≡ ok other
      → check_condition parsers float ctx condition (unwrap_or (get key table.items) []) ≡ ok tt
      → get_item name key_item proj names
          (state (put_item parsers float ctx name item condition store))
        ≡ ok (projection proj names (if key == other then some item else get other table.items))
  unfolding get_item get_key
  get_item-put_item item key_item condition proj names store table key other e f g h =
      let kept = update_indexes_kept (get key table.items) (some item) key table in
      rw
        (
          put_item_passed item condition store table key e f h,
          get-put,
          eq_refl name,
          ap (λ d. d.key_schema) kept.0,
          g,
          get-put,
          kept.1,
        )
        refl
