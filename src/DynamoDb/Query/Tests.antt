-- ===== src/DynamoDb/Query/Tests.antt =====
-- A query that is followed page by page, at a concrete table.
use ruststack.Prelude.{◌≡◌, refl, true, none, some, List, [], ◌∷◌, string_eq, arith}
use ruststack.Dict.{get}
use ruststack.Result.{ok}
use ruststack.Text.{strip_prefix, strip_prefix_code}
use ruststack.DynamoDb.Values.{Item, compare_attribute_values}
use ruststack.DynamoDb.Conditions.{
  resolve_name, resolve_value, evaluate_key_conditions, prefix_placeholder,
}
use ruststack.DynamoDb.Tests.{float}
use ruststack.DynamoDb.Table.{Table, new_table, get_key, key_parts, join, range_key_name}
use ruststack.DynamoDb.Storage.{DynamoDbStorage}
use ruststack.DynamoDb.Storage.Tests.{parsers, ctx, item, table}
use ruststack.DynamoDb.Query.{after_key, query, query_items, source_items}
use ruststack.DynamoDb.Sort.{
  Unordered, sort_by, insertion_sort, insert_by, is_total_order, by_range_key,
}
use ruststack.DynamoDb.Query.Pages.{HasKeys, follow}
use ruststack.DynamoDb.Query.Follow.{answered, follow-query}

abbrev pub full : Table
full = record table {
  items =
      ("b#1", item "b" "1")
      ∷ ("a#3", item "a" "3")
      ∷ ("a#1", item "a" "1")
      ∷ ("a#2", item "a" "2")
      ∷ [];
}

abbrev pub store : DynamoDbStorage
store = record { tables = ("things", full) ∷ [] }

-- a sort that panics
abbrev pub unordered : Unordered
unordered order items = none

abbrev in_order : List Item
in_order = item "a" "1" ∷ item "a" "2" ∷ item "a" "3" ∷ []

pub things : get "things" store.tables ≡ some full
unfolding get
things = refl

asked : query_items float parsers ctx unordered full none "pk = :pk" none true ≡ ok in_order
unfolding query_items source_items sort_by insertion_sort insert_by is_total_order by_range_key
    evaluate_key_conditions resolve_name range_key_name new_table strip_prefix_code
    prefix_placeholder strip_prefix resolve_value get compare_attribute_values
asked = refl

keyed : HasKeys full in_order
unfolding after_key get_key key_parts join get new_table
keyed = (("a#1", refl, refl), (("a#2", refl, refl), (("a#3", refl, refl), tt)))

follow-query_example :
    follow
      (λ start.
        answered (
          query float parsers ctx unordered "things" none "pk = :pk" none true
            (some 1)
            start
            store))
      4
      none
    ≡ some in_order
follow-query_example =
    follow-query float parsers ctx "things" store full things unordered 0 4 none "pk = :pk" none
      true in_order asked keyed (omega arith)
