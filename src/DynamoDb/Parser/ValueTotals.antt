-- ===== src/DynamoDb/Parser/ValueTotals.antt =====
-- The recursion of parse_update_value in ruststack-dynamodb/src/expression.rs, by the lengths of the
-- texts.
use ruststack.Prelude.{
  ℕ, zero, suc, ◌+◌, ◌≤◌, ◌<◌, ◌≢◌, refl, String, Bool, true, false, Option, none, some, List, [],
  ◌∷◌, All, arith, if◌then◌else◌, Option-cases, inl, inr,
}
use ruststack.Prelude.Int.{pos}
use ruststack.Result.{Result, ok, err}
use ruststack.Text.{starts_with}
use ruststack.Text.Words.{trim}
use ruststack.Text.Slices.{text_len, text_len-take_text, text_len-drop_text}
use ruststack.DynamoDb.Conditions.{Failure}
use ruststack.DynamoDb.Updates.{UpdateValue, list_append, plus, minus}
use ruststack.DynamoDb.Parser.{Patterns, parse_condition_expr}
use ruststack.DynamoDb.Parser.Splits.{
  extract_function_args, comma_parts, split_function_args, find_operator,
}
use ruststack.DynamoDb.Parser.Lengths.{
  IsUpTo, extract_function_args-shorter, find_operator-bounds, comma_parts-All,
}
use ruststack.DynamoDb.Parser.Actions.{
  ValueShape, fallback, appended, added, subtracted, placeholder, attribute, malformed, two_parts,
  called_with, operated_at, value_shape, and_value, both_values, parse_value_shape,
  parse_update_value,
}
use ruststack.DynamoDb.Parser.Totals.{
  IsDone, some-IsDone, text_len-trim, parse_condition_expr-IsDone,
}

-- The texts inside a shape are shorter than a bound.
IsValueShorter : ℕ → ValueShape → Type 0
IsValueShorter n (fallback left right) = text_len right < n
IsValueShorter n (appended left right) = (text_len left < n) × (text_len right < n)
IsValueShorter n (added left right) = (text_len left < n) × (text_len right < n)
IsValueShorter n (subtracted left right) = (text_len left < n) × (text_len right < n)
IsValueShorter n placeholder = Unit {0}
IsValueShorter n attribute = Unit {0}
IsValueShorter n (malformed what) = Unit {0}

two_parts-IsValueShorter :
    (n m : ℕ) (name : String) (f : String → String → ValueShape) (parts : List String)
    → n < m
    → All (IsUpTo n) parts
    → ((x y : String) → text_len x < m → text_len y < m → IsValueShorter m (f x y))
    → IsValueShorter m (two_parts name f parts)
unfolding IsUpTo IsValueShorter
two_parts-IsValueShorter n m name f [] p h k = tt
two_parts-IsValueShorter n m name f (x ∷ []) p h k = tt
two_parts-IsValueShorter n m name f (x ∷ y ∷ []) p (h, (j, _)) k =
    k x y (omega (arith, p, h)) (omega (arith, p, j))
two_parts-IsValueShorter n m name f (x ∷ y ∷ z ∷ parts) p h k = tt

module _ (expr : String) (nonempty : 1 ≤ text_len expr) where
  called_with-IsValueShorter :
      (name : String) (f : String → String → ValueShape) (next : ValueShape)
      → ((x y : String)
          → text_len x < text_len expr
          → text_len y < text_len expr
          → IsValueShorter (text_len expr) (f x y))
      → IsValueShorter (text_len expr) next
      → IsValueShorter (text_len expr) (called_with name f (extract_function_args expr name) next)
  unfolding split_function_args
  called_with-IsValueShorter name f next h k =
      elim (Option-cases (extract_function_args expr name)) [
        | inl e ↦ rw e k
        | inr (inner, e) ↦ rw e (
            two_parts-IsValueShorter (text_len inner) (text_len expr) name f
              (comma_parts (pos 0) inner) (extract_function_args-shorter expr name inner nonempty e)
              (comma_parts-All (pos 0) inner) h)
      ]

  operated_at-IsValueShorter :
      (op : ℕ) (f : String → String → ValueShape) (next : ValueShape)
      → ((x y : String)
          → text_len x < text_len expr
          → text_len y < text_len expr
          → IsValueShorter (text_len expr) (f x y))
      → IsValueShorter (text_len expr) next
      → IsValueShorter (text_len expr) (operated_at expr f (find_operator op (pos 0) 0 expr) next)
  operated_at-IsValueShorter op f next h k = elim (Option-cases (find_operator op (pos 0) 0 expr)) [
    | inl e ↦ rw e k
    | inr (p, e) ↦
        let bounds = find_operator-bounds op (pos 0) 0 expr p e in
        rw e (
          h _ _ (omega (arith, bounds.1, text_len-take_text p expr))
            (omega (arith, text_len-drop_text (p + 1) expr (omega (arith, bounds.1)))))
  ]

  simple-IsValueShorter :
      (test : Bool) → IsValueShorter (text_len expr) (if test then placeholder else attribute)
  unfolding IsValueShorter
  simple-IsValueShorter true = tt
  simple-IsValueShorter false = tt

  value_shape-IsValueShorter_nonempty : IsValueShorter (text_len expr) (value_shape expr)
  unfolding value_shape IsValueShorter
  value_shape-IsValueShorter_nonempty =
      called_with-IsValueShorter "if_not_exists" fallback _ (λ x y h k. k)
        (called_with-IsValueShorter "list_append" appended _ (λ x y h k. (h, k))
          (operated_at-IsValueShorter 43 added _ (λ x y h k. (h, k))
            (operated_at-IsValueShorter 45 subtracted _ (λ x y h k. (h, k))
              (simple-IsValueShorter (starts_with expr ":")))))

value_shape-IsValueShorter : (expr : String) → IsValueShorter (text_len expr) (value_shape expr)
unfolding value_shape IsValueShorter text_len
value_shape-IsValueShorter String.[] = tt
value_shape-IsValueShorter (String.◌∷◌ c s) =
    value_shape-IsValueShorter_nonempty (String.◌∷◌ c s) (omega arith)

and_value-IsDone :
    (f : UpdateValue → UpdateValue) (r : Option (Result Failure UpdateValue))
    → IsDone r
    → IsDone (and_value f r)
and_value-IsDone f none h = λ p. h refl
and_value-IsDone f (some (ok v)) h = some-IsDone _
and_value-IsDone f (some (err e)) h = some-IsDone _

both_values-IsDone :
    (f : UpdateValue → UpdateValue → UpdateValue) (left right : Option (Result Failure UpdateValue))
    → IsDone left
    → IsDone right
    → IsDone (both_values f left right)
both_values-IsDone f none right h k = λ p. h refl
both_values-IsDone f (some (ok v)) right h k = and_value-IsDone (f v) right k
both_values-IsDone f (some (err e)) right h k = some-IsDone _

parse_value_shape-IsDone :
    (n fuel : ℕ) (expr : String) (shape : ValueShape)
    → n ≤ fuel
    → ((text : String) → text_len text < fuel → IsDone (parse_update_value fuel text))
    → IsValueShorter n shape
    → IsDone (parse_value_shape (parse_update_value fuel) expr shape)
unfolding IsValueShorter
parse_value_shape-IsDone n fuel expr (fallback left right) p again h =
    and_value-IsDone _ _ (again right (omega (arith, p, h)))
parse_value_shape-IsDone n fuel expr (appended left right) p again (h, k) =
    both_values-IsDone list_append _ _ (again left (omega (arith, p, h)))
      (again right (omega (arith, p, k)))
parse_value_shape-IsDone n fuel expr (added left right) p again (h, k) =
    both_values-IsDone plus _ _ (again left (omega (arith, p, h)))
      (again right (omega (arith, p, k)))
parse_value_shape-IsDone n fuel expr (subtracted left right) p again (h, k) =
    both_values-IsDone minus _ _ (again left (omega (arith, p, h)))
      (again right (omega (arith, p, k)))
parse_value_shape-IsDone n fuel expr placeholder p again h = some-IsDone _
parse_value_shape-IsDone n fuel expr attribute p again h = some-IsDone _
parse_value_shape-IsDone n fuel expr (malformed what) p again h = some-IsDone _

parse_update_value-IsDone :
    (fuel : ℕ) (text : String) → text_len text < fuel → parse_update_value fuel text ≢ none
unfolding parse_update_value
parse_update_value-IsDone zero text h = absurd (omega arith)
parse_update_value-IsDone (suc fuel) text h =
    parse_value_shape-IsDone (text_len (trim text)) fuel (trim text) (value_shape (trim text))
      (omega (arith, text_len-trim text, h)) (λ inner k. parse_update_value-IsDone fuel inner k)
      (value_shape-IsValueShorter (trim text))

-- The parsers of conditions and of the values of updates come to an end on every text: fuel above
-- the length of the text is enough, since every recursive call (inside parentheses, on the sides of
-- an operator, behind NOT, on the arguments of a function) is on a shorter text.
pub parsers-IsDone :
    (patterns : Patterns) (fuel : ℕ) (text : String)
    → text_len text < fuel
    → (parse_condition_expr patterns fuel text ≢ none) × (parse_update_value fuel text ≢ none)
parsers-IsDone patterns fuel text h =
    (parse_condition_expr-IsDone patterns fuel text h, parse_update_value-IsDone fuel text h)
