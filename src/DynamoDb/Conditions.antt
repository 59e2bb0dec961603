-- ===== src/DynamoDb/Conditions.antt =====
-- ruststack-dynamodb/src/expression.rs: the evaluation of conditions. An index out of range of
-- `values`, on which the code panics, is the failure `panicked`.
pub mod Logic
pub mod Keys
pub mod Kinds
pub mod Panics
use Prim.Native.Nat.{Ordering}
use Prim.Native.String
use ruststack.Prelude.{
  ℕ, zero, suc, String, Bool, true, false, ◌&&◌, ◌||◌, not as negated, Option, none, some, List, [],
  ◌∷◌, eqb, length, contains, is_some, if◌then◌else◌, ◌==◌, string_eq,
}
use ruststack.Dict.{Dict, get}
use ruststack.Result.{Result, ok, err, ok_or, ◌>>=◌}
use ruststack.Text.{strip_prefix, strip_prefix_code, starts_with}
use ruststack.DynamoDb.Values.{
  AttributeValue, s, n, b, bool, null, l, m, ss, ns, bs, Values, nil, cons, Item, Float,
  compare_attribute_values,
}
use ruststack.DynamoDb.Paths.{get_nested_attribute}

pub data ExpressionError : Type 0 where
  invalid missing_attribute_name missing_attribute_value invalid_operator : String → ExpressionError
  type_mismatch : ExpressionError

pub data Failure : Type 0 where
  raised : ExpressionError → Failure
  panicked : Failure

pub data ComparisonOp : Type 0 where
  eq ne lt le gt ge between in_values : ComparisonOp

pub data ConditionOp : Type 0 where
  comparison : String → ComparisonOp → List String → ConditionOp
  attribute_exists attribute_not_exists : String → ConditionOp
  attribute_type begins_with contains_value : String → String → ConditionOp
  size : String → ConditionOp
  and or : ConditionOp → ConditionOp → ConditionOp
  not : ConditionOp → ConditionOp

pub record KeyCondition : Type 0 where
  pub attribute : String
  pub op : ComparisonOp
  pub values : List String

pub record ExpressionContext : Type 0 where
  pub attribute_names : Option (Dict String String)
  pub attribute_values : Option (Dict String AttributeValue)

-- `self.attribute_names.and_then(|m| m.get(name))`
abbrev pub look_up {ℓ} : {A : Type ℓ} → String → Option (Dict String A) → Option A
look_up name none = none
look_up name (some map) = get name map

-- the code of `#`
abbrev pub hash : ℕ
hash = 35

unfoldable pub resolve_name : ExpressionContext → String → Result Failure String
resolve_name ctx name =
    if is_some (strip_prefix_code hash name)
    then ok_or (look_up name ctx.attribute_names) (raised (missing_attribute_name name))
    else ok name

unfoldable pub resolve_value : ExpressionContext → String → Result Failure AttributeValue
resolve_value ctx placeholder =
    ok_or (look_up placeholder ctx.attribute_values) (raised (missing_attribute_value placeholder))

-- `values[i]`
abbrev pub value_at : ℕ → List String → Result Failure String
value_at i [] = err panicked
value_at zero (v ∷ values) = ok v
value_at (suc i) (v ∷ values) = value_at i values

unfoldable pub resolve_at : ExpressionContext → ℕ → List String → Result Failure AttributeValue
resolve_at ctx i values = value_at i values >>= resolve_value ctx

-- `.map(f).unwrap_or(d)`
abbrev pub map_or {ℓ κ} : {A : Type ℓ} {B : Type κ} → (A → B) → B → Option A → B
map_or f d none = d
map_or f d (some a) = f a

abbrev pub is_equal : Ordering → Bool
is_equal Ordering.eq = true
is_equal _ = false

abbrev pub is_less : Ordering → Bool
is_less Ordering.lt = true
is_less _ = false

abbrev pub is_greater : Ordering → Bool
is_greater Ordering.gt = true
is_greater _ = false

-- the names of the types
abbrev pub type_str : AttributeValue → String
type_str (s _) = "S"
type_str (n _) = "N"
type_str (b _) = "B"
type_str (bool _) = "BOOL"
type_str (null _) = "NULL"
type_str (l _) = "L"
type_str (m _) = "M"
type_str (ss _) = "SS"
type_str (ns _) = "NS"
type_str (bs _) = "BS"

abbrev pub has_type : Option AttributeValue → AttributeValue → Bool
has_type (some v) (s expected) = type_str v == expected
has_type _ _ = false

abbrev pub begins : Option AttributeValue → AttributeValue → Bool
begins (some (s item_str)) (s prefix_str) = starts_with item_str prefix_str
begins _ _ = false

-- `haystack.contains(needle)`
unfoldable pub contains_text : String → String → Bool
contains_text String.[] needle = starts_with String.[] needle
contains_text (String.◌∷◌ c haystack) needle =
    starts_with (String.◌∷◌ c haystack) needle || contains_text haystack needle

module _ (float : Float) where
  abbrev pub compared : AttributeValue → AttributeValue → Ordering
  compared = compare_attribute_values float

  unfoldable pub list_contains : Values → AttributeValue → Bool
  list_contains nil search = false
  list_contains (cons elem list) search =
      is_equal (compared elem search) || list_contains list search

  abbrev pub value_contains : Option AttributeValue → AttributeValue → Bool
  value_contains (some (s haystack)) (s needle) = contains_text haystack needle
  value_contains (some (l list)) search = list_contains list search
  value_contains (some (ss set)) (s needle) = contains set needle
  value_contains (some (ns set)) (n needle) = contains set needle
  value_contains _ _ = false

  -- The comparisons that `evaluate_condition` and `evaluate_key_conditions` share, each with the
  -- answer for a missing attribute.
  abbrev pub compares : ComparisonOp → AttributeValue → AttributeValue → Bool
  compares eq v expected = is_equal (compared v expected)
  compares ne v expected = negated (is_equal (compared v expected))
  compares lt v expected = is_less (compared v expected)
  compares le v expected = is_less (compared v expected) || is_equal (compared v expected)
  compares gt v expected = is_greater (compared v expected)
  compares ge v expected = is_greater (compared v expected) || is_equal (compared v expected)
  compares _ v expected = false

  abbrev pub lies_between : AttributeValue → AttributeValue → AttributeValue → Bool
  lies_between low high v =
      (is_greater (compared v low) || is_equal (compared v low))
      && (is_less (compared v high) || is_equal (compared v high))

  module _ (ctx : ExpressionContext) where
    -- the loop of `IN`
    unfoldable pub in_loop : AttributeValue → List String → Result Failure Bool
    in_loop val [] = ok false
    in_loop val (v ∷ values) = do
      let rest = in_loop val values
      expected ← resolve_value ctx v
      if is_equal (compared val expected) then ok true else rest

    unfoldable pub evaluate_in : Option AttributeValue → List String → Result Failure Bool
    evaluate_in none values = ok false
    evaluate_in (some val) values = in_loop val values

    unfoldable pub compare_with :
        (AttributeValue → AttributeValue → Bool)
        → Bool
        → Option AttributeValue
        → List String
        → Result Failure Bool
    unfolding resolve_at
    compare_with test missing item_value values = do
      expected ← resolve_at ctx 0 values
      ok (map_or (λ v. test v expected) missing item_value)

    unfoldable pub evaluate_between : Option AttributeValue → List String → Result Failure Bool
    unfolding resolve_at
    evaluate_between item_value values = do
      low ← resolve_at ctx 0 values
      high ← resolve_at ctx 1 values
      ok (map_or (lies_between low high) false item_value)

    unfoldable pub evaluate_comparison :
        ComparisonOp → Option AttributeValue → List String → Result Failure Bool
    unfolding compare_with evaluate_between evaluate_in
    evaluate_comparison between item_value values = evaluate_between item_value values
    evaluate_comparison in_values item_value values = evaluate_in item_value values
    evaluate_comparison ne item_value values = compare_with (compares ne) true item_value values
    evaluate_comparison op item_value values = compare_with (compares op) false item_value values

    unfoldable pub evaluate_condition : ConditionOp → Item → Result Failure Bool
    unfolding evaluate_comparison
    evaluate_condition (comparison path op values) item = do
      resolved_path ← resolve_name ctx path
      evaluate_comparison op (get_nested_attribute item resolved_path) values
    evaluate_condition (attribute_exists path) item = do
      resolved_path ← resolve_name ctx path
      ok (is_some (get_nested_attribute item resolved_path))
    evaluate_condition (attribute_not_exists path) item = do
      resolved_path ← resolve_name ctx path
      ok (negated (is_some (get_nested_attribute item resolved_path)))
    evaluate_condition (attribute_type path type_val) item = do
      resolved_path ← resolve_name ctx path
      expected_type ← resolve_value ctx type_val
      ok (has_type (get_nested_attribute item resolved_path) expected_type)
    evaluate_condition (begins_with path value) item = do
      resolved_path ← resolve_name ctx path
      prefix ← resolve_value ctx value
      ok (begins (get_nested_attribute item resolved_path) prefix)
    evaluate_condition (contains_value path value) item = do
      resolved_path ← resolve_name ctx path
      search ← resolve_value ctx value
      ok (value_contains (get_nested_attribute item resolved_path) search)
    evaluate_condition (size path) item =
        err (raised (invalid "size() must be used in a comparison"))
    evaluate_condition (and left right) item = do
      let other = evaluate_condition right item
      holds ← evaluate_condition left item
      if holds then other else ok false
    evaluate_condition (or left right) item = do
      let other = evaluate_condition right item
      holds ← evaluate_condition left item
      if holds then ok true else other
    evaluate_condition (not inner) item = do
      holds ← evaluate_condition inner item
      ok (negated holds)

    -- The case of `Eq`: a value that starts with `BEGINS_WITH:` names a prefix.
    unfoldable pub key_equal :
        Option AttributeValue → List String → Option String → Result Failure Bool
    unfolding compare_with
    key_equal item_value values none = compare_with (compares eq) false item_value values
    key_equal item_value values (some placeholder) = do
      prefix ← resolve_value ctx placeholder
      ok (begins item_value prefix)

    -- `values.len() == 1 && values[0].starts_with("BEGINS_WITH:")`, with the rest of the text
    unfoldable pub prefix_placeholder : List String → Option String
    prefix_placeholder (value ∷ []) = strip_prefix value "BEGINS_WITH:"
    prefix_placeholder _ = none

    unfoldable pub evaluate_key :
        ComparisonOp → Option AttributeValue → List String → Result Failure Bool
    unfolding key_equal compare_with evaluate_between
    evaluate_key eq item_value values = key_equal item_value values (prefix_placeholder values)
    evaluate_key ne item_value values = ok false
    evaluate_key in_values item_value values = ok false
    evaluate_key between item_value values = evaluate_between item_value values
    evaluate_key op item_value values = compare_with (compares op) false item_value values

    unfoldable pub evaluate_key_conditions : List KeyCondition → Item → Result Failure Bool
    unfolding evaluate_key
    evaluate_key_conditions [] item = ok true
    evaluate_key_conditions (cond ∷ conditions) item = do
      let rest = evaluate_key_conditions conditions item
      resolved_attr ← resolve_name ctx cond.attribute
      matches ← evaluate_key cond.op (get resolved_attr item) cond.values
      if matches then rest else ok false
