-- ===== src/DynamoDb/Conditions/Panics.antt =====
-- Conditions with enough values never run out of them.
use ruststack.Prelude.{
  ℕ, ◌≢◌, String, Bool, true, false, Option, none, some, List, [], ◌∷◌, ◌≤◌, arith, length,
  if◌then◌else◌,
}
use ruststack.Result.{Result, ok, err, ok_or, ◌>>=◌}
use ruststack.DynamoDb.Values.{AttributeValue, Item, Float}
use ruststack.DynamoDb.Conditions.{
  ConditionOp, and, or, not, comparison, attribute_exists, attribute_not_exists, attribute_type,
  begins_with, contains_value, size, ComparisonOp, eq, ne, lt, le, gt, ge, between, in_values,
  ExpressionContext, Failure, panicked, evaluate_condition, evaluate_comparison, resolve_name,
  resolve_value, evaluate_between, compare_with, in_loop, evaluate_in, look_up,
}

-- How many values the operator reads at fixed positions.
abbrev pub needed : ComparisonOp → ℕ
needed between = 2
needed in_values = 0
needed _ = 1

-- Every comparison in the condition has the values that it reads.
unfoldable pub HasValues : ConditionOp → Type 0
HasValues (comparison path op values) = needed op ≤ length values
HasValues (and left right) = HasValues left × HasValues right
HasValues (or left right) = HasValues left × HasValues right
HasValues (not inner) = HasValues inner
HasValues _ = Unit {0}

-- The result is no panic.
abbrev pub IsSafe : {A : Type 0} → Result Failure A → Type 0
IsSafe r = r ≢ err panicked

pub bind-IsSafe :
    {A B : Type 0} (r : Result Failure A) (f : A → Result Failure B)
    → IsSafe r
    → ((a : A) → IsSafe (f a))
    → IsSafe (r >>= f)
bind-IsSafe (ok a) f h k = k a
bind-IsSafe (err e) f h k = λ p. h (ground arith)

pub ok-IsSafe : {A : Type 0} (a : A) → IsSafe (ok a)
ok-IsSafe a = λ p. ground arith

pub if-IsSafe :
    {A : Type 0} (b : Bool) (r q : Result Failure A)
    → IsSafe r
    → IsSafe q
    → IsSafe (if b then r else q)
if-IsSafe true r q h k = h
if-IsSafe false r q h k = k

ok_or-IsSafe : {A : Type 0} (o : Option A) (e : Failure) → e ≢ panicked → IsSafe (ok_or o e)
ok_or-IsSafe none e h = λ p. h (ground arith)
ok_or-IsSafe (some a) e h = ok-IsSafe a

module _ (float : Float) (ctx : ExpressionContext) where
  pub resolve_name-IsSafe : (name : String) → IsSafe (resolve_name ctx name)
  unfolding resolve_name
  resolve_name-IsSafe name =
      if-IsSafe _ _ _ (ok_or-IsSafe (look_up name ctx.attribute_names) _ (λ p. ground arith))
        (ok-IsSafe name)

  pub resolve_value-IsSafe : (name : String) → IsSafe (resolve_value ctx name)
  unfolding resolve_value
  resolve_value-IsSafe name = ok_or-IsSafe (look_up name ctx.attribute_values) _ (λ p. ground arith)

  pub compare_with-IsSafe :
      (test : AttributeValue → AttributeValue → Bool) (missing : Bool)
      (found : Option AttributeValue) (values : List String)
      → 1 ≤ length values
      → IsSafe (compare_with float ctx test missing found values)
  unfolding compare_with
  compare_with-IsSafe test missing found [] h = absurd (ground arith)
  compare_with-IsSafe test missing found (v ∷ values) h =
      bind-IsSafe (resolve_value ctx v) _ (resolve_value-IsSafe v) (λ a. ok-IsSafe _)

  pub evaluate_between-IsSafe :
      (found : Option AttributeValue) (values : List String)
      → 2 ≤ length values
      → IsSafe (evaluate_between float ctx found values)
  unfolding evaluate_between
  evaluate_between-IsSafe found [] h = absurd (ground arith)
  evaluate_between-IsSafe found (v ∷ []) h = absurd (ground arith)
  evaluate_between-IsSafe found (v ∷ w ∷ values) h =
      bind-IsSafe (resolve_value ctx v) _ (resolve_value-IsSafe v)
        (λ a. bind-IsSafe (resolve_value ctx w) _ (resolve_value-IsSafe w) (λ b. ok-IsSafe _))

  in_loop-IsSafe :
      (val : AttributeValue) (values : List String) → IsSafe (in_loop float ctx val values)
  unfolding in_loop
  in_loop-IsSafe val [] = ok-IsSafe false
  in_loop-IsSafe val (v ∷ values) =
      bind-IsSafe (resolve_value ctx v) _ (resolve_value-IsSafe v)
        (λ a. if-IsSafe _ _ _ (ok-IsSafe true) (in_loop-IsSafe val values))

  evaluate_in-IsSafe :
      (found : Option AttributeValue) (values : List String)
      → IsSafe (evaluate_in float ctx found values)
  unfolding evaluate_in
  evaluate_in-IsSafe none values = ok-IsSafe false
  evaluate_in-IsSafe (some val) values = in_loop-IsSafe val values

  evaluate_comparison-IsSafe :
      (op : ComparisonOp) (found : Option AttributeValue) (values : List String)
      → needed op ≤ length values
      → IsSafe (evaluate_comparison float ctx op found values)
  unfolding evaluate_comparison
  evaluate_comparison-IsSafe between found values h = evaluate_between-IsSafe found values h
  evaluate_comparison-IsSafe in_values found values h = evaluate_in-IsSafe found values
  evaluate_comparison-IsSafe eq found values h = compare_with-IsSafe _ false found values h
  evaluate_comparison-IsSafe ne found values h = compare_with-IsSafe _ true found values h
  evaluate_comparison-IsSafe lt found values h = compare_with-IsSafe _ false found values h
  evaluate_comparison-IsSafe le found values h = compare_with-IsSafe _ false found values h
  evaluate_comparison-IsSafe gt found values h = compare_with-IsSafe _ false found values h
  evaluate_comparison-IsSafe ge found values h = compare_with-IsSafe _ false found values h

  both-IsSafe :
      (path value : String) (f : String → AttributeValue → Result Failure Bool)
      → ((name : String) (v : AttributeValue) → IsSafe (f name v))
      → IsSafe (resolve_name ctx path >>= λ name. resolve_value ctx value >>= λ v. f name v)
  both-IsSafe path value f h =
      bind-IsSafe (resolve_name ctx path) _ (resolve_name-IsSafe path)
        (λ name. bind-IsSafe (resolve_value ctx value) _ (resolve_value-IsSafe value) (h name))

  -- A condition in which every comparison has the values that it reads (two for BETWEEN, any number
  -- for IN, one for the others) evaluates to an answer or to an error, never to a panic.
  pub evaluate_condition-HasValues :
      (condition : ConditionOp) (item : Item)
      → HasValues condition
      → evaluate_condition float ctx condition item ≢ err panicked
  unfolding evaluate_condition HasValues
  evaluate_condition-HasValues (comparison path op values) item h =
      bind-IsSafe (resolve_name ctx path) _ (resolve_name-IsSafe path)
        (λ name. evaluate_comparison-IsSafe op _ values h)
  evaluate_condition-HasValues (attribute_exists path) item h =
      bind-IsSafe (resolve_name ctx path) _ (resolve_name-IsSafe path) (λ name. ok-IsSafe _)
  evaluate_condition-HasValues (attribute_not_exists path) item h =
      bind-IsSafe (resolve_name ctx path) _ (resolve_name-IsSafe path) (λ name. ok-IsSafe _)
  evaluate_condition-HasValues (attribute_type path value) item h =
      both-IsSafe path value _ (λ name v. ok-IsSafe _)
  evaluate_condition-HasValues (begins_with path value) item h =
      both-IsSafe path value _ (λ name v. ok-IsSafe _)
  evaluate_condition-HasValues (contains_value path value) item h =
      both-IsSafe path value _ (λ name v. ok-IsSafe _)
  evaluate_condition-HasValues (size path) item h = λ p. ground arith
  evaluate_condition-HasValues (and left right) item (h, k) =
      bind-IsSafe (evaluate_condition float ctx left item) _
        (evaluate_condition-HasValues left item h)
        (λ b. if-IsSafe b _ _ (evaluate_condition-HasValues right item k) (ok-IsSafe false))
  evaluate_condition-HasValues (or left right) item (h, k) =
      bind-IsSafe (evaluate_condition float ctx left item) _
        (evaluate_condition-HasValues left item h)
        (λ b. if-IsSafe b _ _ (ok-IsSafe true) (evaluate_condition-HasValues right item k))
  evaluate_condition-HasValues (not inner) item h =
      bind-IsSafe (evaluate_condition float ctx inner item) _
        (evaluate_condition-HasValues inner item h) (λ b. ok-IsSafe _)
