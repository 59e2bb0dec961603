-- ===== src/DynamoDb/Updates/Tests.antt =====
-- Runs of update expressions at concrete inputs, with natural numbers for `f64`.
use Prim.Native.Nat
use ruststack.Prelude.{
  ℕ, ◌+◌, ◌-◌, ◌≡◌, refl, String, false, none, some, [], ◌∷◌, arith, eq_iff, string_eq, contains,
}
use ruststack.Dict.{get}
use ruststack.Result.{ok, state, reply}
use ruststack.Text.{strip_prefix_code}
use ruststack.DynamoDb.Values.{s, n, ss, Item, Float}
use ruststack.DynamoDb.Paths.{split_path}
use ruststack.DynamoDb.Conditions.{ExpressionContext, resolve_name, resolve_value}
use ruststack.DynamoDb.Updates.{set, add, delete, UpdateValue, ParsedUpdateExpression, apply_update}
use ruststack.DynamoDb.Updates.Sets.{apply_update-add_delete}
use ruststack.DynamoDb.Updates.Frame.{apply_update-kept, IsElsewhere}

abbrev float : Float
float = record {
  F64 = ℕ;
  zero = 0;
  parse = λ text. none;
  partial_cmp = λ a b. some (Nat.compare a b);
  add = λ a b. a + b;
  subtract = λ a b. a - b;
  to_string = λ a. "0";
}

abbrev ctx : ExpressionContext
ctx = record {
  attribute_names = none;
  attribute_values = some ((":new", ss ("red" ∷ "blue" ∷ [])) ∷ (":age", n "7") ∷ []);
}

abbrev item : Item
item = ("tags", ss ("green" ∷ [])) ∷ ("name", s "ann") ∷ []

tags_name : resolve_name ctx "tags" ≡ ok "tags"
unfolding resolve_name strip_prefix_code
tags_name = refl

new_value : resolve_value ctx ":new" ≡ ok (ss ("red" ∷ "blue" ∷ []))
unfolding resolve_value get
new_value = refl

tags_value : get "tags" item ≡ some (ss ("green" ∷ []))
unfolding get
tags_value = refl

not_green : contains {A = String} ("red" ∷ "blue" ∷ []) "green" ≡ false
unfolding contains
not_green = refl

abbrev add_and_delete : ParsedUpdateExpression
add_and_delete = record {
  set_actions = [];
  remove_actions = [];
  add_actions = add "tags" ":new" ∷ [];
  delete_actions = delete "tags" ":new" ∷ [];
}

apply_update-add_delete_example :
    (reply (apply_update float ctx add_and_delete item) ≡ ok tt)
    × (get "tags" (state (apply_update float ctx add_and_delete item)) ≡ some (ss ("green" ∷ [])))
apply_update-add_delete_example =
    apply_update-add_delete float ctx "tags" "tags" ":new" ("green" ∷ []) ("red" ∷ "blue" ∷ []) item
      tags_name new_value tags_value (not_green, tt)

age_parts : split_path "age" ≡ ("age", [])
unfolding split_path
age_parts = refl

age-IsElsewhere : IsElsewhere ctx "name" (set "age" (UpdateValue.value ":age"))
unfolding resolve_name strip_prefix_code
age-IsElsewhere name e = λ p. ground (arith, age_parts, eq_iff "age" "name")

tags-IsElsewhere : IsElsewhere ctx "name" (add "tags" ":new")
unfolding resolve_name strip_prefix_code
tags-IsElsewhere name e = λ p. ground (arith, eq_iff "tags" "name")

abbrev grow : ParsedUpdateExpression
grow = record {
  set_actions = set "age" (UpdateValue.value ":age") ∷ [];
  remove_actions = [];
  add_actions = add "tags" ":new" ∷ [];
  delete_actions = [];
}

apply_update-kept_example : get "name" (state (apply_update float ctx grow item)) ≡ get "name" item
apply_update-kept_example =
    apply_update-kept float ctx "name" grow item (age-IsElsewhere, tt) tt (tags-IsElsewhere, tt) tt
