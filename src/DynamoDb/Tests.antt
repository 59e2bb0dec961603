-- ===== src/DynamoDb/Tests.antt =====
-- Runs of paths and conditions at concrete inputs, with natural numbers for `f64`.
use Prim.Native.Nat.{Ordering}
use Prim.Native.Nat
use ruststack.Prelude.{
  ℕ, ◌+◌, ◌-◌, ◌≡◌, ◌≢◌, refl, String, true, false, Option, none, some, [], ◌∷◌, arith, eq_iff,
  ◌==◌, string_eq, if◌then◌else◌,
}
use ruststack.Dict.{get}
use ruststack.Result.{ok, err}
use ruststack.Text.{strip_prefix_code}
use ruststack.Text.Decimal.{decimal}
use ruststack.DynamoDb.Values.{s, n, m, attribute, end, Item, Float}
use ruststack.DynamoDb.Paths.{
  split_path, get_nested_attribute, set_nested_attribute, remove_nested_attribute,
}
use ruststack.DynamoDb.Paths.Nested.{blocks, get-set_nested_attribute, get-remove_nested_attribute}
use ruststack.DynamoDb.Conditions.{
  panicked, ConditionOp, comparison, and, or, not, attribute_exists, eq, ne, lt, le, gt, ge,
  between, KeyCondition, ExpressionContext, resolve_name, resolve_value, evaluate_condition,
  evaluate_key_conditions,
}
use ruststack.DynamoDb.Conditions.Logic.{evaluate_condition-de_morgan}
use ruststack.DynamoDb.Conditions.Keys.{
  IsTopLevel, conjunction, evaluate_key_conditions-conjunction,
}
use ruststack.DynamoDb.Conditions.Panics.{HasValues, evaluate_condition-HasValues}
use ruststack.DynamoDb.Conditions.Kinds.{evaluate_condition_kinds}

-- One digit is read; every other text fails to parse.
abbrev digit_of : String → Option ℕ
digit_of text =
    if text == "1"
    then some 1
    else if text == "2"
    then some 2
    else if text == "3"
    then some 3
    else none

abbrev pub float : Float
float = record {
  F64 = ℕ;
  zero = 0;
  parse = digit_of;
  partial_cmp = λ a b. some (Nat.compare a b);
  add = λ a b. a + b;
  subtract = λ a b. a - b;
  to_string = decimal;
}

abbrev ctx : ExpressionContext
ctx = record {
  attribute_names = some (("#n", "name") ∷ []);
  attribute_values = some ((":low", n "1") ∷ (":high", n "3") ∷ (":who", s "ann") ∷ []);
}

abbrev item : Item
item = ("name", s "ann") ∷ ("age", n "2") ∷ ("home", m (attribute "city" (s "York") end)) ∷ []

get-set_nested_attribute_example :
    (get_nested_attribute (set_nested_attribute item "home.road.name" (s "Fleet")) "home.road.name"
      ≡ (if blocks "home.road.name" item then none else some (s "Fleet")))
    × ((other : String)
        → (split_path "home.road.name").0 ≢ (split_path other).0
        → get_nested_attribute (set_nested_attribute item "home.road.name" (s "Fleet")) other
          ≡ get_nested_attribute item other)
get-set_nested_attribute_example = get-set_nested_attribute item "home.road.name" (s "Fleet")

get-remove_nested_attribute_example :
    (get_nested_attribute (remove_nested_attribute item "home.city") "home.city" ≡ none)
    × ((other : String)
        → (split_path "home.city").0 ≢ (split_path other).0
        → get_nested_attribute (remove_nested_attribute item "home.city") other
          ≡ get_nested_attribute item other)
get-remove_nested_attribute_example = get-remove_nested_attribute item "home.city"

abbrev adult : ConditionOp
adult = comparison "age" ge (":high" ∷ [])

evaluate_condition-de_morgan_example :
    (evaluate_condition float ctx (not (and adult (attribute_exists "#n"))) item
      ≡ evaluate_condition float ctx (or (not adult) (not (attribute_exists "#n"))) item)
    × (evaluate_condition float ctx (not (or adult (attribute_exists "#n"))) item
        ≡ evaluate_condition float ctx (and (not adult) (not (attribute_exists "#n"))) item)
evaluate_condition-de_morgan_example =
    evaluate_condition-de_morgan float ctx adult (attribute_exists "#n") item

abbrev by_name : KeyCondition
by_name = record { attribute = "#n"; op = eq; values = ":who" ∷ [] }

abbrev by_age : KeyCondition
by_age = record { attribute = "age"; op = between; values = ":low" ∷ ":high" ∷ [] }

name_parts : split_path "name" ≡ ("name", [])
unfolding split_path
name_parts = refl

age_parts : split_path "age" ≡ ("age", [])
unfolding split_path
age_parts = refl

abbrev by_other : KeyCondition
by_other = record { attribute = "age"; op = ne; values = ":low" ∷ [] }

by_name-IsTopLevel : IsTopLevel float ctx by_name
unfolding resolve_name strip_prefix_code get
by_name-IsTopLevel name e = ground (arith, name_parts)

by_age-IsTopLevel : IsTopLevel float ctx by_age
unfolding resolve_name strip_prefix_code get
by_age-IsTopLevel name e = ground (arith, age_parts)

by_other-IsTopLevel : IsTopLevel float ctx by_other
unfolding resolve_name strip_prefix_code
by_other-IsTopLevel name e = ground (arith, age_parts)

evaluate_key_conditions-conjunction_example :
    evaluate_key_conditions float ctx (by_name ∷ by_age ∷ by_other ∷ []) item
    ≡ evaluate_condition float ctx (conjunction float ctx by_name (by_age ∷ by_other ∷ [])) item
evaluate_key_conditions-conjunction_example =
    evaluate_key_conditions-conjunction float ctx by_name (by_age ∷ by_other ∷ []) item
      (by_name-IsTopLevel, (by_age-IsTopLevel, (by_other-IsTopLevel, tt)))

age_name : resolve_name ctx "age" ≡ ok "age"
unfolding resolve_name strip_prefix_code
age_name = refl

age_value : get_nested_attribute item "age" ≡ some (n "2")
unfolding get_nested_attribute get
age_value = refl

who_value : resolve_value ctx ":who" ≡ ok (s "ann")
unfolding resolve_value get
who_value = refl

evaluate_condition_kinds_example :
    (evaluate_condition float ctx (comparison "age" eq (":who" ∷ [])) item ≡ ok true)
    × (evaluate_condition float ctx (comparison "age" le (":who" ∷ [])) item ≡ ok true)
    × (evaluate_condition float ctx (comparison "age" ge (":who" ∷ [])) item ≡ ok true)
    × (evaluate_condition float ctx (comparison "age" ne (":who" ∷ [])) item ≡ ok false)
    × (evaluate_condition float ctx (comparison "age" lt (":who" ∷ [])) item ≡ ok false)
    × (evaluate_condition float ctx (comparison "age" gt (":who" ∷ [])) item ≡ ok false)
evaluate_condition_kinds_example =
    evaluate_condition_kinds float ctx "age" "age" ":who" item (n "2") (s "ann") age_name age_value
      who_value (λ p. ground (arith, eq_iff "N" "S"))

abbrev young_or_named : ConditionOp
young_or_named = or (comparison "age" between (":low" ∷ ":high" ∷ [])) (not (attribute_exists "#n"))

young_or_named-HasValues : HasValues young_or_named
unfolding HasValues
young_or_named-HasValues = (omega arith, tt)

evaluate_condition-HasValues_example :
    evaluate_condition float ctx young_or_named item ≢ err panicked
evaluate_condition-HasValues_example =
    evaluate_condition-HasValues float ctx young_or_named item young_or_named-HasValues
