-- ===== src/DynamoDb/Conditions/Keys.antt =====
-- Key conditions evaluate as the conjunction of conditions that they abbreviate.
use ruststack.Prelude.{
  ◌≡◌, refl, ap, ◌∙◌, Option-cases, Bool-cases, is_some, inl, inr, if◌then◌else◌, String, Bool,
  true, false, Option, none, some, List, [], ◌∷◌, string_eq, All,
}
use ruststack.Dict.{get}
use ruststack.Result.{Result, ok, err, ◌>>=◌}
use ruststack.DynamoDb.Values.{Item, Float}
use ruststack.DynamoDb.Paths.{split_path, get_nested_attribute}
use ruststack.DynamoDb.Conditions.Logic.{Result-cases}
use ruststack.DynamoDb.Conditions.{
  ConditionOp, and, comparison, begins_with, attribute_exists, attribute_not_exists, ComparisonOp,
  eq, ne, lt, le, gt, ge, between, in_values, KeyCondition, ExpressionContext, Failure,
  evaluate_condition, evaluate_key_conditions, evaluate_key, resolve_name, prefix_placeholder,
}

bind_assoc :
    {A B C : Type 0} (r : Result Failure A) (f : A → Result Failure B) (g : B → Result Failure C)
    → (r >>= λ a. f a >>= g) ≡ ((r >>= f) >>= g)
bind_assoc (ok a) f g = refl
bind_assoc (err e) f g = refl

bind_true : (r : Result Failure Bool) → (r >>= λ holds. if holds then ok true else ok false) ≡ r
bind_true (ok true) = refl
bind_true (ok false) = refl
bind_true (err e) = refl

module _ (float : Float) (ctx : ExpressionContext) where
  abbrev pub equal_as_condition : String → List String → Option String → ConditionOp
  equal_as_condition attribute values none = comparison attribute eq values
  equal_as_condition attribute values (some placeholder) = begins_with attribute placeholder

  -- A condition that holds of no item.
  abbrev pub never : String → ConditionOp
  never attribute = and (attribute_exists attribute) (attribute_not_exists attribute)

  -- The condition that a key condition abbreviates. With `<>`, which the parser of key conditions
  -- makes, and with IN, which it does not make, a key condition holds of no item.
  abbrev pub as_condition : String → ComparisonOp → List String → ConditionOp
  as_condition attribute eq values =
      equal_as_condition attribute values (prefix_placeholder float ctx values)
  as_condition attribute ne values = never attribute
  as_condition attribute in_values values = never attribute
  as_condition attribute op values = comparison attribute op values

  -- The condition of each key condition, joined by AND.
  abbrev pub conjunction : KeyCondition → List KeyCondition → ConditionOp
  conjunction cond [] = as_condition cond.attribute cond.op cond.values
  conjunction cond (next ∷ conditions) =
      and (as_condition cond.attribute cond.op cond.values) (conjunction next conditions)

  -- A key condition names an attribute of the item itself, not a path into it.
  abbrev pub IsTopLevel : KeyCondition → Type 0
  IsTopLevel cond =
      (name : String) → resolve_name ctx cond.attribute ≡ ok name → split_path name ≡ (name, [])

  get_nested_top :
      (item : Item) (name : String)
      → split_path name ≡ (name, [])
      → get_nested_attribute item name ≡ get name item
  unfolding get_nested_attribute
  get_nested_top item name e = rw e refl

  evaluate_never :
      (attribute : String) (item : Item) (name : String)
      → resolve_name ctx attribute ≡ ok name
      → evaluate_condition float ctx (never attribute) item ≡ ok false
  unfolding evaluate_condition
  evaluate_never attribute item name e =
      elim (Bool-cases (is_some (get_nested_attribute item name))) [
        | inl f ↦ rw (e, f) refl
        | inr f ↦ rw (e, f) refl
      ]

  -- an attribute whose name resolves
  evaluate_key-resolved :
      (attribute : String) (op : ComparisonOp) (values : List String) (item : Item) (name : String)
      → resolve_name ctx attribute ≡ ok name
      → split_path name ≡ (name, [])
      → evaluate_condition float ctx (as_condition attribute op values) item
        ≡ evaluate_key float ctx op (get name item) values
  unfolding evaluate_condition evaluate_key
  evaluate_key-resolved attribute eq values item name e t =
      elim (Option-cases (prefix_placeholder float ctx values)) [
        | inl f ↦ rw (f, e, get_nested_top item name t) refl
        | inr (placeholder, f) ↦ rw (f, e, get_nested_top item name t) refl
      ]
  evaluate_key-resolved attribute lt values item name e t = rw (e, get_nested_top item name t) refl
  evaluate_key-resolved attribute le values item name e t = rw (e, get_nested_top item name t) refl
  evaluate_key-resolved attribute gt values item name e t = rw (e, get_nested_top item name t) refl
  evaluate_key-resolved attribute ge values item name e t = rw (e, get_nested_top item name t) refl
  evaluate_key-resolved attribute between values item name e t =
      rw (e, get_nested_top item name t) refl
  evaluate_key-resolved attribute ne values item name e t = evaluate_never attribute item name e
  evaluate_key-resolved attribute in_values values item name e t =
      evaluate_never attribute item name e

  -- an attribute whose name does not resolve
  evaluate_key-unresolved :
      (attribute : String) (op : ComparisonOp) (values : List String) (item : Item) (f : Failure)
      → resolve_name ctx attribute ≡ err f
      → evaluate_condition float ctx (as_condition attribute op values) item ≡ err f
  unfolding evaluate_condition
  evaluate_key-unresolved attribute eq values item f e =
      elim (Option-cases (prefix_placeholder float ctx values)) [
        | inl g ↦ rw (g, e) refl
        | inr (placeholder, g) ↦ rw (g, e) refl
      ]
  evaluate_key-unresolved attribute op values item f e = rw e refl

  evaluate_key-condition :
      (cond : KeyCondition) (item : Item)
      → IsTopLevel cond
      → (resolve_name ctx cond.attribute >>= λ name.
          evaluate_key float ctx cond.op (get name item) cond.values)
        ≡ evaluate_condition float ctx (as_condition cond.attribute cond.op cond.values) item
  evaluate_key-condition cond item t = elim (Result-cases (resolve_name ctx cond.attribute)) [
    | inl (name, e) ↦
        rw (evaluate_key-resolved cond.attribute cond.op cond.values item name e (t name e), e) refl
    | inr (f, e) ↦ rw (evaluate_key-unresolved cond.attribute cond.op cond.values item f e, e) refl
  ]

  -- Key conditions with any operators, on attributes of the item itself, evaluate as the conjunction
  -- of the conditions that they abbreviate does, errors included. What a key condition abbreviates
  -- is the comparison with its operator, or a begins_with; with `<>` and IN it is a condition that
  -- holds of no item.
  pub evaluate_key_conditions-conjunction :
      (cond : KeyCondition) (conditions : List KeyCondition) (item : Item)
      → All IsTopLevel (cond ∷ conditions)
      → evaluate_key_conditions float ctx (cond ∷ conditions) item
        ≡ evaluate_condition float ctx (conjunction cond conditions) item
  unfolding evaluate_key_conditions evaluate_condition
  evaluate_key_conditions-conjunction cond [] item (h, _) =
      bind_assoc (resolve_name ctx cond.attribute) _ _
      ∙ ap (λ r. r >>= λ holds. if holds then ok true else ok false)
          (evaluate_key-condition cond item h)
      ∙ bind_true _
  evaluate_key_conditions-conjunction cond (next ∷ conditions) item (h, hs) =
      bind_assoc (resolve_name ctx cond.attribute) _ _
      ∙ ap
          (λ r. r >>= λ holds.
            if holds then evaluate_key_conditions float ctx (next ∷ conditions) item else ok false)
          (evaluate_key-condition cond item h)
      ∙ ap
          (λ rest.
            evaluate_condition float ctx (as_condition cond.attribute cond.op cond.values) item
            >>= λ holds. if holds then rest else ok false)
          (evaluate_key_conditions-conjunction next conditions item hs)
