-- ===== src/DynamoDb/Parser.antt =====
-- ruststack-dynamodb/src/expression.rs: the parsers of key conditions and conditions, on ASCII text.
-- The patterns of the crate regex_lite are the parameter `Patterns`.
pub mod Splits
pub mod Actions
pub mod Totals
pub mod Lengths
pub mod ValueTotals
pub mod Safety
pub mod KeySafety
mod Tests
use Prim.Native.String
use ruststack.Prelude.{
  ℕ, zero, suc, ◌-◌, String, Bool, true, false, ◌&&◌, Option, none, some, eqb, List, [], ◌∷◌, ◌==◌,
  string_eq, if◌then◌else◌,
}
use ruststack.Result.{Result, ok, err, ◌>>=◌}
use ruststack.Text.{starts_with, ends_with}
use ruststack.Text.Words.{trim, split_trimmed}
use ruststack.Text.Slices.{text_len, take_text, drop_text, starts_with_word}
use ruststack.DynamoDb.Conditions.{
  Failure, raised, panicked, ExpressionError, invalid, invalid_operator, ComparisonOp, eq, ne, lt,
  le, gt, ge, between, in_values, ConditionOp, comparison, attribute_exists, attribute_not_exists,
  attribute_type, begins_with, contains_value, and, or, not, KeyCondition,
}
use ruststack.DynamoDb.Parser.Splits.{
  comma, split_by_and, split_by_operator, find_matching_paren, extract_function_args,
}

-- What the patterns capture of a text: a path, the operator or a value, and a value. `keyword`
-- finds the start of an update clause.
pub record Patterns : Type 0 where
  pub key_between : String → Option (String × String × String)
  pub key_comparison : String → Option (String × String × String)
  pub condition_between : String → Option (String × String × String)
  pub condition_in : String → Option (String × String)
  pub condition_comparison : String → Option (String × String × String)
  pub keyword : String → String → Option ℕ

-- An error `ExpressionError::Invalid` of a text.
abbrev pub fails {ℓ} : {A : Type ℓ} → String → Result Failure A
fails text = err (raised (invalid text))

unfoldable pub comparison_op : String → Result Failure ComparisonOp
comparison_op op =
    if op == "="
    then ok eq
    else if op == "<>"
    then ok ne
    else if op == "<"
    then ok lt
    else if op == "<="
    then ok le
    else if op == ">"
    then ok gt
    else if op == ">="
    then ok ge
    else err (raised (invalid_operator op))

-- The two arguments of a function.
abbrev pub two {ℓ} : {A : Type ℓ} → String → (String → String → A) → List String → Result Failure A
two name f (x ∷ y ∷ []) = ok (f x y)
two name f _ = fails (String.◌++◌ name " requires 2 arguments")

-- What `parse_condition_expr` does with a trimmed text.
pub data Shape : Type 0 where
  wrapped negated : String → Shape
  either both : String → String → Shape
  atom : Shape

abbrev pub called :
    String
    → (String → Result Failure ConditionOp)
    → Option String
    → Result Failure ConditionOp
    → Result Failure ConditionOp
called name f none next = next
called name f (some inner) next = f inner

module _ (patterns : Patterns) where
  abbrev pub key_prefix : String → String → KeyCondition
  key_prefix attribute value = record {
    attribute = attribute;
    op = eq;
    values = String.◌++◌ "BEGINS_WITH:" value ∷ [];
  }

  -- the alternatives of `parse_single_key_condition`, the last one first
  abbrev pub key_compared : String → Option (String × String × String) → Result Failure KeyCondition
  key_compared expr none = fails (String.◌++◌ "Could not parse key condition: " expr)
  key_compared expr (some (attribute, op_text, value)) = do
    op ← comparison_op op_text
    ok (record { attribute = attribute; op = op; values = value ∷ [] })

  abbrev pub key_ranged : String → Option (String × String × String) → Result Failure KeyCondition
  key_ranged expr none = key_compared expr (patterns.key_comparison expr)
  key_ranged expr (some (attribute, low, high)) =
      ok (record { attribute = attribute; op = between; values = low ∷ high ∷ [] })

  abbrev pub key_called : String → Option String → Result Failure KeyCondition
  key_called expr none = key_ranged expr (patterns.key_between expr)
  key_called expr (some inner) = two "begins_with" key_prefix (split_trimmed comma inner)

  unfoldable pub parse_single_key_condition : String → Result Failure KeyCondition
  unfolding comparison_op trim extract_function_args split_trimmed
  parse_single_key_condition text =
      let expr = trim text in key_called expr (extract_function_args expr "begins_with")

  unfoldable pub parse_parts : List String → Result Failure (List KeyCondition)
  unfolding parse_single_key_condition
  parse_parts [] = ok []
  parse_parts (part ∷ parts) = do
    condition ← parse_single_key_condition (trim part)
    conditions ← parse_parts parts
    ok (condition ∷ conditions)

  unfoldable pub parse_key_condition : String → Result Failure (List KeyCondition)
  unfolding parse_parts split_by_and
  parse_key_condition text =
      let expression = trim text in
      if expression == "" then ok [] else parse_parts (split_by_and expression)

  -- A text that no rule of `parse_condition_expr` splits, its rules last one first.
  abbrev pub compared : String → Option (String × String × String) → Result Failure ConditionOp
  compared expr none = fails (String.◌++◌ "Could not parse condition: " expr)
  compared expr (some (path, op_text, value)) = do
    op ← comparison_op op_text
    ok (comparison path op (value ∷ []))

  abbrev pub listed : String → Option (String × String) → Result Failure ConditionOp
  listed expr none = compared expr (patterns.condition_comparison expr)
  listed expr (some (path, values)) = ok (comparison path in_values (split_trimmed comma values))

  abbrev pub ranged : String → Option (String × String × String) → Result Failure ConditionOp
  ranged expr none = listed expr (patterns.condition_in expr)
  ranged expr (some (path, low, high)) = ok (comparison path between (low ∷ high ∷ []))

  unfoldable pub parse_atom : String → Result Failure ConditionOp
  unfolding comparison_op trim extract_function_args split_trimmed
  parse_atom expr =
      called "attribute_exists" (λ inner. ok (attribute_exists (trim inner)))
        (extract_function_args expr "attribute_exists")
        (called "attribute_not_exists" (λ inner. ok (attribute_not_exists (trim inner)))
          (extract_function_args expr "attribute_not_exists")
          (called "attribute_type"
            (λ inner. two "attribute_type" attribute_type (split_trimmed comma inner))
            (extract_function_args expr "attribute_type")
            (called "begins_with"
              (λ inner. two "begins_with" begins_with (split_trimmed comma inner))
              (extract_function_args expr "begins_with")
              (called "contains"
                (λ inner. two "contains" contains_value (split_trimmed comma inner))
                (extract_function_args expr "contains")
                (ranged expr (patterns.condition_between expr))))))

abbrev pub is_last : ℕ → Option ℕ → Bool
is_last last none = false
is_last last (some i) = eqb i last

-- Parentheses around the whole text.
unfoldable pub is_wrapped : String → Bool
unfolding starts_with ends_with find_matching_paren text_len
is_wrapped expr =
    starts_with expr "("
    && ends_with expr ")"
    && is_last (text_len expr - 1) (find_matching_paren expr 0)

abbrev pub operated : (String → String → Shape) → Option (String × String) → Shape → Shape
operated f none next = next
operated f (some (left, right)) next = f left right

unfoldable pub shape_of : String → Shape
unfolding is_wrapped split_by_operator starts_with_word text_len take_text drop_text
shape_of expr =
    let simple = if starts_with_word expr "NOT " then negated (drop_text 4 expr) else atom in
    if is_wrapped expr
    then wrapped (take_text (text_len expr - 2) (drop_text 1 expr))
    else operated either (split_by_operator expr "OR")
        (operated both (split_by_operator expr "AND") simple)

-- Results of runs on fuel: `none` where it is spent.
abbrev pub and_right :
    (ConditionOp → ConditionOp)
    → Option (Result Failure ConditionOp)
    → Option (Result Failure ConditionOp)
and_right f none = none
and_right f (some (err e)) = some (err e)
and_right f (some (ok right)) = some (ok (f right))

abbrev pub combine :
    (ConditionOp → ConditionOp → ConditionOp)
    → Option (Result Failure ConditionOp)
    → Option (Result Failure ConditionOp)
    → Option (Result Failure ConditionOp)
combine f none right = none
combine f (some (err e)) right = some (err e)
combine f (some (ok left)) right = and_right (f left) right

abbrev pub settled : Option (Result Failure ConditionOp) → Result Failure (Option ConditionOp)
settled none = err panicked
settled (some (err e)) = err e
settled (some (ok condition)) = ok (some condition)

module _ (patterns : Patterns) where
  -- What a shape parses to, with the recursive calls as an argument.
  abbrev pub parse_shape :
      (String → Option (Result Failure ConditionOp))
      → String
      → Shape
      → Option (Result Failure ConditionOp)
  parse_shape again expr (wrapped inner) = again inner
  parse_shape again expr (negated inner) = and_right not (again inner)
  parse_shape again expr (either left right) = combine or (again left) (again right)
  parse_shape again expr (both left right) = combine and (again left) (again right)
  parse_shape again expr atom = some (parse_atom patterns expr)

  unfoldable pub parse_condition_expr : ℕ → String → Option (Result Failure ConditionOp)
  unfolding shape_of parse_atom trim
  parse_condition_expr zero text = none
  parse_condition_expr (suc fuel) text =
      parse_shape (parse_condition_expr fuel) (trim text) (shape_of (trim text))

  unfoldable pub parse_condition : String → Result Failure (Option ConditionOp)
  unfolding parse_condition_expr text_len
  parse_condition text =
      let expression = trim text in
      if expression == ""
      then ok none
      else settled (parse_condition_expr (suc (text_len expression)) expression)
