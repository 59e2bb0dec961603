-- ===== src/DynamoDb/Parser/Safety.antt =====
-- The conditions that ruststack-dynamodb/src/expression.rs parses, and the values that they need.
use ruststack.Prelude.{
  ℕ, zero, suc, ◌≤◌, ◌≢◌, refl, String, Bool, true, false, Option, none, some, List, [], ◌∷◌, arith,
  ◌==◌, string_eq, if◌then◌else◌,
}
use ruststack.Result.{Result, ok, err, ◌>>=◌}
use ruststack.Text.Words.{trim, split_trimmed}
use ruststack.Text.Slices.{text_len}
use ruststack.DynamoDb.Conditions.{
  Failure, panicked, ComparisonOp, ConditionOp, attribute_type, begins_with, contains_value, and,
  or, not,
}
use ruststack.DynamoDb.Conditions.Panics.{HasValues, needed}
use ruststack.DynamoDb.Parser.Splits.{comma, extract_function_args}
use ruststack.DynamoDb.Parser.{
  Patterns, Shape, wrapped, negated, either, both, atom, shape_of, combine, and_right, parse_shape,
  parse_atom, parse_condition_expr, parse_condition, settled, comparison_op, compared, listed,
  ranged, called, two, fails,
}
use ruststack.DynamoDb.Parser.Totals.{IsDone, parse_condition_expr-IsDone}

-- A result that holds of what it answers, and is no panic.
abbrev pub Answers : {A : Type 0} → (A → Type 0) → Result Failure A → Type 0
Answers P (ok a) = P a
Answers P (err e) = e ≢ panicked

pub Answers-bind :
    {A B : Type 0} (P : A → Type 0) (Q : B → Type 0) (r : Result Failure A)
    (f : A → Result Failure B)
    → Answers P r
    → ((a : A) → P a → Answers Q (f a))
    → Answers Q (r >>= f)
Answers-bind P Q (ok a) f h k = k a h
Answers-bind P Q (err e) f h k = h

pub fails-Answers : {A : Type 0} (P : A → Type 0) (text : String) → Answers P (fails text)
fails-Answers P text = λ p. ground arith

pub if-Answers :
    {A : Type 0} (P : A → Type 0) (test : Bool) (r q : Result Failure A)
    → Answers P r
    → Answers P q
    → Answers P (if test then r else q)
if-Answers P true r q h k = h
if-Answers P false r q h k = k

pub two-Answers :
    {A : Type 0} (P : A → Type 0) (name : String) (f : String → String → A) (parts : List String)
    → ((x y : String) → P (f x y))
    → Answers P (two name f parts)
two-Answers P name f [] h = fails-Answers P _
two-Answers P name f (x ∷ []) h = fails-Answers P _
two-Answers P name f (x ∷ y ∷ []) h = h x y
two-Answers P name f (x ∷ y ∷ z ∷ parts) h = fails-Answers P _

-- The operators that a pattern captures read one value.
abbrev pub ReadsOne : ComparisonOp → Type 0
ReadsOne op = needed op ≤ 1

pub comparison_op-Answers : (text : String) → Answers ReadsOne (comparison_op text)
unfolding comparison_op
comparison_op-Answers text = if-Answers ReadsOne (text == "=") _ _ (omega arith) (
    if-Answers ReadsOne (text == "<>") _ _ (omega arith) (
      if-Answers ReadsOne (text == "<") _ _ (omega arith) (
        if-Answers ReadsOne (text == "<=") _ _ (omega arith) (
          if-Answers ReadsOne (text == ">") _ _ (omega arith)
            (if-Answers ReadsOne (text == ">=") _ _ (omega arith) (λ p. ground arith))))))

called-Answers :
    (name : String) (f : String → Result Failure ConditionOp) (arguments : Option String)
    (next : Result Failure ConditionOp)
    → ((inner : String) → Answers HasValues (f inner))
    → Answers HasValues next
    → Answers HasValues (called name f arguments next)
called-Answers name f none next h k = k
called-Answers name f (some inner) next h k = h inner

module _ (patterns : Patterns) where
  compared-Answers :
      (expr : String) (captured : Option (String × String × String))
      → Answers HasValues (compared patterns expr captured)
  unfolding HasValues
  compared-Answers expr none = fails-Answers HasValues _
  compared-Answers expr (some (path, op_text, value)) =
      Answers-bind ReadsOne HasValues (comparison_op op_text) _ (comparison_op-Answers op_text)
        (λ op h. h)

  listed-Answers :
      (expr : String) (captured : Option (String × String))
      → Answers HasValues (listed patterns expr captured)
  unfolding HasValues
  listed-Answers expr none = compared-Answers expr (patterns.condition_comparison expr)
  listed-Answers expr (some (path, values)) = omega arith

  ranged-Answers :
      (expr : String) (captured : Option (String × String × String))
      → Answers HasValues (ranged patterns expr captured)
  unfolding HasValues
  ranged-Answers expr none = listed-Answers expr (patterns.condition_in expr)
  ranged-Answers expr (some (path, low, high)) = omega arith

  parse_atom-Answers : (expr : String) → Answers HasValues (parse_atom patterns expr)
  unfolding parse_atom HasValues
  parse_atom-Answers expr =
      called-Answers "attribute_exists" _ (extract_function_args expr "attribute_exists") _
        (λ inner. tt)
        (called-Answers "attribute_not_exists" _ (extract_function_args expr "attribute_not_exists")
          _ (λ inner. tt)
          (called-Answers "attribute_type" _ (extract_function_args expr "attribute_type") _
            (λ inner.
              two-Answers HasValues "attribute_type" attribute_type (split_trimmed comma inner)
                (λ x y. tt))
            (called-Answers "begins_with" _ (extract_function_args expr "begins_with") _
              (λ inner.
                two-Answers HasValues "begins_with" begins_with (split_trimmed comma inner)
                  (λ x y. tt))
              (called-Answers "contains" _ (extract_function_args expr "contains") _
                (λ inner.
                  two-Answers HasValues "contains" contains_value (split_trimmed comma inner)
                    (λ x y. tt))
                (ranged-Answers expr (patterns.condition_between expr))))))

  -- A finished run that answers with the values it needs.
  abbrev IsGood : Option (Result Failure ConditionOp) → Type 0
  IsGood none = Unit {0}
  IsGood (some r) = Answers HasValues r

  and_right-IsGood :
      (f : ConditionOp → ConditionOp) (r : Option (Result Failure ConditionOp))
      → ((c : ConditionOp) → HasValues c → HasValues (f c))
      → IsGood r
      → IsGood (and_right f r)
  and_right-IsGood f none k h = tt
  and_right-IsGood f (some (ok c)) k h = k c h
  and_right-IsGood f (some (err e)) k h = h

  combine-IsGood :
      (f : ConditionOp → ConditionOp → ConditionOp)
      (left right : Option (Result Failure ConditionOp))
      → ((c d : ConditionOp) → HasValues c → HasValues d → HasValues (f c d))
      → IsGood left
      → IsGood right
      → IsGood (combine f left right)
  combine-IsGood f none right k h j = tt
  combine-IsGood f (some (ok c)) right k h j = and_right-IsGood (f c) right (λ d v. k c d h v) j
  combine-IsGood f (some (err e)) right k h j = h

  parse_shape-IsGood :
      (again : String → Option (Result Failure ConditionOp)) (expr : String) (shape : Shape)
      → ((text : String) → IsGood (again text))
      → IsGood (parse_shape patterns again expr shape)
  unfolding HasValues
  parse_shape-IsGood again expr (wrapped inner) h = h inner
  parse_shape-IsGood again expr (negated inner) h =
      and_right-IsGood not (again inner) (λ c v. v) (h inner)
  parse_shape-IsGood again expr (either left right) h =
      combine-IsGood or (again left) (again right) (λ c d v w. (v, w)) (h left) (h right)
  parse_shape-IsGood again expr (both left right) h =
      combine-IsGood and (again left) (again right) (λ c d v w. (v, w)) (h left) (h right)
  parse_shape-IsGood again expr atom h = parse_atom-Answers expr

  parse_condition_expr-IsGood :
      (fuel : ℕ) (text : String) → IsGood (parse_condition_expr patterns fuel text)
  unfolding parse_condition_expr
  parse_condition_expr-IsGood zero text = tt
  parse_condition_expr-IsGood (suc fuel) text =
      parse_shape-IsGood (parse_condition_expr patterns fuel) (trim text) (shape_of (trim text))
        (parse_condition_expr-IsGood fuel)

  -- The condition, if any, has the values that it needs.
  abbrev pub AllValues : Option ConditionOp → Type 0
  AllValues none = Unit {0}
  AllValues (some condition) = HasValues condition

  settled-Answers :
      (r : Option (Result Failure ConditionOp))
      → IsDone r
      → IsGood r
      → Answers AllValues (settled r)
  settled-Answers none h k = absurd (h refl)
  settled-Answers (some (ok c)) h k = k
  settled-Answers (some (err e)) h k = k

  pub parse_condition-Answers : (text : String) → Answers AllValues (parse_condition patterns text)
  unfolding parse_condition
  parse_condition-Answers text =
      let expression : String = trim text in
      if-Answers AllValues (expression == "") _ _ tt (
        settled-Answers _
          (parse_condition_expr-IsDone patterns (suc (text_len expression)) expression
            (omega arith))
          (parse_condition_expr-IsGood (suc (text_len expression)) expression))
