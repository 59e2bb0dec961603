-- ===== src/DynamoDb/Parser/KeySafety.antt =====
-- The key conditions that ruststack-dynamodb/src/expression.rs parses, and the values that they need.
use ruststack.Prelude.{
  ◌≤◌, String, true, false, Option, none, some, List, [], ◌∷◌, arith, length, ◌==◌, string_eq, All,
}
use ruststack.Dict.{get}
use ruststack.Text.Words.{trim, split_trimmed}
use ruststack.DynamoDb.Values.{AttributeValue, Item, Float}
use ruststack.DynamoDb.Conditions.{
  ComparisonOp, eq, ne, lt, le, gt, ge, between, in_values, KeyCondition, ExpressionContext,
  resolve_name, resolve_value, key_equal, prefix_placeholder, evaluate_key, evaluate_key_conditions,
}
use ruststack.DynamoDb.Conditions.Panics.{
  needed, IsSafe, bind-IsSafe, ok-IsSafe, if-IsSafe, resolve_name-IsSafe, resolve_value-IsSafe,
  compare_with-IsSafe, evaluate_between-IsSafe,
}
use ruststack.DynamoDb.Parser.Splits.{comma, split_by_and, extract_function_args}
use ruststack.DynamoDb.Parser.{
  Patterns, key_prefix, key_compared, key_ranged, key_called, parse_single_key_condition,
  parse_parts, parse_key_condition, comparison_op,
}
use ruststack.DynamoDb.Parser.Safety.{
  Answers, Answers-bind, fails-Answers, if-Answers, two-Answers, ReadsOne, comparison_op-Answers,
}

-- The key condition has the values that its operator reads.
abbrev pub HasKeyValues : KeyCondition → Type 0
HasKeyValues condition = needed condition.op ≤ length condition.values

module _ (patterns : Patterns) where
  key_compared-Answers :
      (expr : String) (captured : Option (String × String × String))
      → Answers HasKeyValues (key_compared patterns expr captured)
  key_compared-Answers expr none = fails-Answers HasKeyValues _
  key_compared-Answers expr (some (attribute, op_text, value)) =
      Answers-bind ReadsOne HasKeyValues (comparison_op op_text) _ (comparison_op-Answers op_text)
        (λ op h. h)

  key_ranged-Answers :
      (expr : String) (captured : Option (String × String × String))
      → Answers HasKeyValues (key_ranged patterns expr captured)
  key_ranged-Answers expr none = key_compared-Answers expr (patterns.key_comparison expr)
  key_ranged-Answers expr (some (attribute, low, high)) = omega arith

  key_called-Answers :
      (expr : String) (arguments : Option String)
      → Answers HasKeyValues (key_called patterns expr arguments)
  key_called-Answers expr none = key_ranged-Answers expr (patterns.key_between expr)
  key_called-Answers expr (some inner) =
      two-Answers HasKeyValues "begins_with" (key_prefix patterns) (split_trimmed comma inner)
        (λ x y. omega arith)

  parse_parts-Answers :
      (parts : List String) → Answers (All HasKeyValues) (parse_parts patterns parts)
  unfolding parse_parts parse_single_key_condition
  parse_parts-Answers [] = tt
  parse_parts-Answers (part ∷ parts) =
      Answers-bind HasKeyValues (All HasKeyValues) (parse_single_key_condition patterns (trim part))
        _
        (key_called-Answers (trim (trim part))
          (extract_function_args (trim (trim part)) "begins_with"))
        (λ condition h.
          Answers-bind (All HasKeyValues) (All HasKeyValues) (parse_parts patterns parts) _
            (parse_parts-Answers parts) (λ conditions k. (h, k)))

  pub parse_key_condition-Answers :
      (text : String) → Answers (All HasKeyValues) (parse_key_condition patterns text)
  unfolding parse_key_condition
  parse_key_condition-Answers text =
      if-Answers (All HasKeyValues) (trim text == "") _ _ tt
        (parse_parts-Answers (split_by_and (trim text)))

module _ (float : Float) (ctx : ExpressionContext) where
  key_equal-IsSafe :
      (found : Option AttributeValue) (values : List String) (placeholder : Option String)
      → 1 ≤ length values
      → IsSafe (key_equal float ctx found values placeholder)
  unfolding key_equal
  key_equal-IsSafe found values none h = compare_with-IsSafe float ctx _ false found values h
  key_equal-IsSafe found values (some placeholder) h =
      bind-IsSafe (resolve_value ctx placeholder) _ (resolve_value-IsSafe float ctx placeholder)
        (λ prefix. ok-IsSafe _)

  evaluate_key-IsSafe :
      (op : ComparisonOp) (found : Option AttributeValue) (values : List String)
      → needed op ≤ length values
      → IsSafe (evaluate_key float ctx op found values)
  unfolding evaluate_key
  evaluate_key-IsSafe eq found values h =
      key_equal-IsSafe found values (prefix_placeholder float ctx values) h
  evaluate_key-IsSafe ne found values h = ok-IsSafe false
  evaluate_key-IsSafe in_values found values h = ok-IsSafe false
  evaluate_key-IsSafe between found values h = evaluate_between-IsSafe float ctx found values h
  evaluate_key-IsSafe lt found values h = compare_with-IsSafe float ctx _ false found values h
  evaluate_key-IsSafe le found values h = compare_with-IsSafe float ctx _ false found values h
  evaluate_key-IsSafe gt found values h = compare_with-IsSafe float ctx _ false found values h
  evaluate_key-IsSafe ge found values h = compare_with-IsSafe float ctx _ false found values h

  pub evaluate_key_conditions-IsSafe :
      (conditions : List KeyCondition) (item : Item)
      → All HasKeyValues conditions
      → IsSafe (evaluate_key_conditions float ctx conditions item)
  unfolding evaluate_key_conditions
  evaluate_key_conditions-IsSafe [] item h = ok-IsSafe true
  evaluate_key_conditions-IsSafe (condition ∷ conditions) item (h, k) =
      bind-IsSafe (resolve_name ctx condition.attribute) _
        (resolve_name-IsSafe float ctx condition.attribute)
        (λ name.
          bind-IsSafe (evaluate_key float ctx condition.op (get name item) condition.values) _
            (evaluate_key-IsSafe condition.op (get name item) condition.values h)
            (λ matches.
              if-IsSafe matches _ _ (evaluate_key_conditions-IsSafe conditions item k)
                (ok-IsSafe false)))
