-- ===== src/DynamoDb/Parser/Tests.antt =====
-- Runs of the parsers at concrete texts. Stubs stand for the patterns.
use ruststack.Prelude.{
  ◌≡◌, ◌≢◌, ◌<◌, refl, ap, sym, ◌∙◌, inl, inr, ℕ, String, true, none, some, Option, [], ◌∷◌, ◌==◌,
  string_eq, if◌then◌else◌, arith,
}
use ruststack.Result.{ok, err}
use ruststack.Text.Slices.{text_len}
use ruststack.DynamoDb.Conditions.{comparison, attribute_not_exists, and, or, not, eq, panicked}
use ruststack.DynamoDb.Schema.{expression}
use ruststack.DynamoDb.Tests.{float}
use ruststack.DynamoDb.Storage.Tests.{ctx}
use ruststack.DynamoDb.Query.{query}
use ruststack.DynamoDb.Query.Tests.{store, full, things, unordered}
use ruststack.DynamoDb.Sort.Order.{IsAmong, IsOrdered}
use ruststack.DynamoDb.Sort.Texts.{HasText, HasText-IsOrdered}
use ruststack.DynamoDb.Values.{Item}
use ruststack.DynamoDb.Table.{Table, new_table, range_key_name}
use ruststack.Dict.{get, values}
use ruststack.DynamoDb.Query.Safety.{query_safe}
use ruststack.DynamoDb.Parser.{Patterns, parse_condition, parse_condition_expr}
use ruststack.DynamoDb.Parser.Splits.{split_by_and}
use ruststack.DynamoDb.Parser.Actions.{parsers, value_shape, fallback, parse_update_value}
use ruststack.DynamoDb.Parser.ValueTotals.{parsers-IsDone}

abbrev comparison_of : String → Option (String × String × String)
comparison_of text =
    if text == "pk = :pk"
    then some ("pk", "=", ":pk")
    else if text == "colour = :c"
    then some ("colour", "=", ":c")
    else none

abbrev patterns : Patterns
patterns = record {
  key_between = λ text. none;
  key_comparison = comparison_of;
  condition_between = λ text. none;
  condition_in = λ text. none;
  condition_comparison = comparison_of;
  keyword = λ word text. none;
}

nested_run :
    parse_condition patterns " NOT (pk = :pk or attribute_not_exists( a )) AND colour = :c"
    ≡ ok (
        some (
          and
            (not (or (comparison "pk" eq (":pk" ∷ [])) (attribute_not_exists "a")))
            (comparison "colour" eq (":c" ∷ []))))
unfolding parse_condition parse_condition_expr
nested_run = refl

and_run : split_by_and "a BETWEEN :x AND :y and b = :z" ≡ "a BETWEEN :x AND :y" ∷ "b = :z" ∷ []
unfolding split_by_and
and_run = refl

-- The sum behind the function is dropped.
fallback_run : value_shape "if_not_exists(n, :zero) + :one" ≡ fallback "n" " :zero"
unfolding value_shape
fallback_run = refl

in_fuel : text_len "NOT (pk = :pk)" < 15
unfolding text_len
in_fuel = omega arith

parsers-IsDone_example :
    (parse_condition_expr patterns 15 "NOT (pk = :pk)" ≢ none)
    × (parse_update_value 15 "NOT (pk = :pk)" ≢ none)
parsers-IsDone_example = parsers-IsDone patterns 15 "NOT (pk = :pk)" in_fuel

abbrev one : Option ℕ
one = some 1

one_not_zero : one ≢ some 0
one_not_zero = λ p. ground arith

full_texts : (found : Item) → IsAmong found (values full.items) → HasText "sk" found
unfolding get new_table
full_texts found (inl e) = rw (← e) ("1", refl)
full_texts found (inr (inl e)) = rw (← e) ("3", refl)
full_texts found (inr (inr (inl e))) = rw (← e) ("1", refl)
full_texts found (inr (inr (inr (inl e)))) = rw (← e) ("2", refl)
full_texts found (inr (inr (inr (inr m)))) = absurd m

full-IsOrdered : IsOrdered float (range_key_name full) (values full.items)
unfolding range_key_name new_table
full-IsOrdered = HasText-IsOrdered float "sk" (values full.items) full_texts

abbrev or_table : Table → Option Table → Table
or_table d none = d
or_table d (some t) = t

things-IsOrdered :
    (found : Table)
    → get "things" store.tables ≡ some found
    → IsOrdered float (range_key_name found) (values found.items)
things-IsOrdered found e = rw (← ap (or_table full) (sym things ∙ e)) full-IsOrdered

query_safe_example :
    query float
      (parsers patterns)
      ctx
      unordered
      "things"
      none
      "pk = :pk"
      (some "colour = :c")
      true
      one
      none
      store
    ≢ err (expression panicked)
query_safe_example =
    query_safe float patterns ctx unordered "things" none "pk = :pk" (some "colour = :c") true one
      none store one_not_zero things-IsOrdered
