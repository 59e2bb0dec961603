-- ===== src/DynamoDb/Query.antt =====
-- ruststack-dynamodb/src/storage.rs: queries and scans, with their pages. The order of the entries of
-- a map stands for the iteration order.
pub mod Pages
pub mod Follow
pub mod Outcomes
pub mod Safety
pub mod Tests
use Prim.Native.Nat.{Ordering}
use Prim.Native.String
use Prim.Native.String.{compare}
use mathlib.Core.List.{reverse}
use ruststack.Prelude.{
  ℕ, zero, suc, ◌+◌, String, Bool, true, false, Option, none, some, List, [], ◌∷◌, ◌++◌, ltb,
  string_eq, keep_if, length, take, drop, if◌then◌else◌, ◌==◌,
}
use ruststack.Dict.{Dict, get, values}
use ruststack.Result.{Result, ok, err, ok_or, ◌>>=◌}
use ruststack.DynamoDb.Values.{
  AttributeValue, s, n, b, Item, Float, parsed, unwrap_or as ordering_or,
}
use ruststack.DynamoDb.Conditions.{
  ConditionOp, KeyCondition, ExpressionContext, Failure, raised, panicked, evaluate_condition,
  evaluate_key_conditions,
}
use ruststack.DynamoDb.Schema.{
  DynamoDbError, resource_not_found, validation_error, expression, QueryResult,
}
use ruststack.DynamoDb.Table.{SecondaryIndex, Table, get_key, extract_key, range_key_name}
use ruststack.DynamoDb.Sort.{Unordered, sorted, sort_by, by_range_key}
use ruststack.DynamoDb.Storage.{Parsers, DynamoDbStorage, lift}

-- The items at the primary keys, of those that are there.
abbrev pub push_found : Option Item → List Item → List Item
push_found none items = items
push_found (some item) items = item ∷ items

abbrev pub items_at : Dict String Item → List String → List Item
items_at stored [] = []
items_at stored (primary_key ∷ keys) = push_found (get primary_key stored) (items_at stored keys)

-- the loop over the entries of an index
abbrev pub index_items : Dict String Item → Dict String (List String) → List Item
index_items stored [] = []
index_items stored ((index_key, keys) ∷ entries) =
    items_at stored keys ++ index_items stored entries

abbrev pub or_else {ℓ} : {A : Type ℓ} → Option A → Option A → Option A
or_else none o = o
or_else (some a) o = some a

-- The items that a query or a scan starts from: those of the table, or those of an index.
unfoldable pub source_items : Table → Option String → Result DynamoDbError (List Item)
source_items table none = ok (values table.items)
source_items table (some name) = do
  index ←
      ok_or
        (or_else (get name table.global_secondary_indexes) (get name table.local_secondary_indexes))
        (validation_error (String.◌++◌ "Index not found: " name))
  ok (index_items table.items index.items)

-- `unwrap_or(false)`, on the item and those kept behind it: an error drops it, a panic remains
abbrev pub kept :
    Item → Result Failure Bool → Result Failure (List Item) → Result Failure (List Item)
kept item (ok true) rest = rest >>= λ items. ok (item ∷ items)
kept item (ok false) rest = rest
kept item (err (raised e)) rest = rest
kept item (err panicked) rest = err panicked

abbrev pub keep_holding : (Item → Result Failure Bool) → List Item → Result Failure (List Item)
keep_holding test [] = ok []
keep_holding test (item ∷ items) = kept item (test item) (keep_holding test items)

-- `filter.map(parse_condition).transpose()?.flatten()`
abbrev pub parse_filter : Parsers → Option String → Result Failure (Option ConditionOp)
parse_filter parsers none = ok none
parse_filter parsers (some text) = parsers.parse_condition text

-- `position(|item| self.get_key(item).ok() == Some(key))`
abbrev pub is_key : String → Result DynamoDbError String → Bool
is_key key (ok k) = k == key
is_key key (err e) = false

-- The items after the first one at the key; all of them where none is at it.
unfoldable pub after_key : Table → String → List Item → Option (List Item)
after_key table key [] = none
after_key table key (item ∷ items) =
    let rest = after_key table key items in
    if is_key key (get_key table item) then some items else rest

abbrev pub or_all : List Item → Option (List Item) → List Item
or_all items none = items
or_all items (some rest) = rest

unfoldable pub skip_to : Table → Option Item → List Item → Result DynamoDbError (List Item)
unfolding after_key
skip_to table none items = ok items
skip_to table (some start_key) items = do
  key ← get_key table start_key
  ok (or_all items (after_key table key items))

-- `items.get(i)`
abbrev pub get_elem? : List Item → ℕ → Option Item
get_elem? [] i = none
get_elem? (item ∷ items) zero = some item
get_elem? (item ∷ items) (suc i) = get_elem? items i

abbrev pub extract_from : Table → Option Item → Option Item
extract_from table none = none
extract_from table (some item) = some (extract_key table item)

-- A limit of zero underflows in `lim - 1` when an item is left, which panics where overflows are
-- checked.
unfoldable pub limit_to :
    Table → Option ℕ → List Item → Result DynamoDbError (List Item × Option Item)
limit_to table none items = ok (items, none)
limit_to table (some zero) [] = ok ([], none)
limit_to table (some zero) (item ∷ items) = err (expression panicked)
limit_to table (some (suc lim)) items =
    if ltb (suc lim) (length items)
    then ok (take (suc lim) items, extract_from table (get_elem? items lim))
    else ok (items, none)

-- The page of the items that a call answers.
unfoldable pub page :
    Table → Option Item → Option ℕ → List Item → Result DynamoDbError (List Item × Option Item)
unfolding skip_to limit_to
page table start_key limit items = do
  left ← skip_to table start_key items
  limit_to table limit left

module _ (float : Float) (parsers : Parsers) (ctx : ExpressionContext) where
  abbrev pub passes : Option ConditionOp → Item → Result Failure Bool
  passes none item = ok true
  passes (some filter) item = evaluate_condition float ctx filter item

  unfoldable pub scan :
      String
      → Option String
      → Option String
      → Option ℕ
      → Option Item
      → DynamoDbStorage
      → Result DynamoDbError QueryResult
  unfolding source_items page
  scan table_name index_name filter_expression limit start_key storage = do
    table ← ok_or (get table_name storage.tables) (resource_not_found table_name)
    filter ← lift (parse_filter parsers filter_expression)
    items ← source_items table index_name
    left ← lift (keep_holding (passes filter) items)
    answer ← page table start_key limit left
    ok (record {
      items = answer.0;
      count = length (answer.0);
      scanned_count = length items;
      last_evaluated_key = answer.1;
    })

  module _ (unordered : Unordered) where
    unfoldable pub query_items :
        Table → Option String → String → Option String → Bool → Result DynamoDbError (List Item)
    unfolding source_items sort_by by_range_key
    query_items table index_name key_condition_expression filter_expression scan_index_forward = do
      key_conditions ← lift (parsers.parse_key_condition key_condition_expression)
      filter ← lift (parse_filter parsers filter_expression)
      items ← source_items table index_name
      matching ← lift (keep_holding (evaluate_key_conditions float ctx key_conditions) items)
      filtered ← lift (keep_holding (passes filter) matching)
      lift (sorted float unordered (range_key_name table) scan_index_forward filtered)

    unfoldable pub query :
        String
        → Option String
        → String
        → Option String
        → Bool
        → Option ℕ
        → Option Item
        → DynamoDbStorage
        → Result DynamoDbError QueryResult
    unfolding query_items page
    query table_name index_name key_condition filter_expression forward limit start_key storage = do
      table ← ok_or (get table_name storage.tables) (resource_not_found table_name)
      filtered ← query_items table index_name key_condition filter_expression forward
      answer ← page table start_key limit filtered
      ok (record {
        items = answer.0;
        count = length (answer.0);
        scanned_count = length filtered;
        last_evaluated_key = answer.1;
      })
