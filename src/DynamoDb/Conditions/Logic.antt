-- ===== src/DynamoDb/Conditions/Logic.antt =====
-- The connectives of conditions, and when an evaluation answers at all.
use ruststack.Prelude.{
  ◌≡◌, refl, String, Bool, true, false, Option, none, some, [], ◌∷◌, arith, if◌then◌else◌,
  not as negated, inl, inr, ◌⊎◌,
}
use ruststack.Result.{Result, ok, err, ◌>>=◌}
use ruststack.DynamoDb.Values.{AttributeValue, Item, Float}
use ruststack.DynamoDb.Paths.{get_nested_attribute}
use ruststack.DynamoDb.Conditions.{
  ConditionOp, and, or, not, comparison, between, ge, le, ExpressionContext, Failure,
  evaluate_condition, evaluate_comparison, resolve_name, resolve_value, evaluate_between,
  resolve_at,
}

pub Result-cases :
    {A : Type 0} (r : Result Failure A) → ((a : A) × (r ≡ ok a)) ⊎ ((e : Failure) × (r ≡ err e))
Result-cases (ok a) = inl (a, refl)
Result-cases (err e) = inr (e, refl)

-- the two laws on results
negated_connectives :
    (a b : Result Failure Bool)
    → (((a >>= λ h. if h then b else ok false) >>= λ h. ok (negated h))
        ≡ ((a >>= λ h. ok (negated h)) >>= λ h. if h then ok true else (b >>= λ k. ok (negated k))))
      × (((a >>= λ h. if h then ok true else b) >>= λ h. ok (negated h)) ≡ (
          (a >>= λ h. ok (negated h)) >>= λ h. if h then (b >>= λ k. ok (negated k)) else ok false))
negated_connectives (ok true) b = (refl, refl)
negated_connectives (ok false) b = (refl, refl)
negated_connectives (err e) b = (refl, refl)

module _ (float : Float) (ctx : ExpressionContext) where
  -- A negated conjunction evaluates as the disjunction of the negations does, errors and the
  -- order in which placeholders are resolved included; and a negated disjunction as the conjunction.
  pub evaluate_condition-de_morgan :
      (left right : ConditionOp) (item : Item)
      → (evaluate_condition float ctx (not (and left right)) item
          ≡ evaluate_condition float ctx (or (not left) (not right)) item)
        × (evaluate_condition float ctx (not (or left right)) item
            ≡ evaluate_condition float ctx (and (not left) (not right)) item)
  unfolding evaluate_condition
  evaluate_condition-de_morgan left right item =
      negated_connectives (evaluate_condition float ctx left item)
        (evaluate_condition float ctx right item)

  evaluate_between-and :
      (found : Option AttributeValue) (low high : String) (v : AttributeValue)
      → resolve_value ctx high ≡ ok v
      → evaluate_between float ctx found (low ∷ high ∷ []) ≡ (
          evaluate_comparison float ctx ge found (low ∷ []) >>= λ holds.
          if holds then evaluate_comparison float ctx le found (high ∷ []) else ok false)
  unfolding evaluate_comparison resolve_at
  evaluate_between-and none low high v h = elim (Result-cases (resolve_value ctx low)) [
    | inl (w, e) ↦ rw (e, h) refl
    | inr (w, e) ↦ rw e refl
  ]
  evaluate_between-and (some found) low high v h = elim (Result-cases (resolve_value ctx low)) [
    | inl (w, e) ↦ rw (e, h) (ground arith)
    | inr (w, e) ↦ rw e refl
  ]

  -- When the second placeholder resolves, BETWEEN evaluates as the conjunction of >= and <= does,
  -- errors included.
  evaluate_condition-between :
      (path low high : String) (item : Item) (v : AttributeValue)
      → resolve_value ctx high ≡ ok v
      → evaluate_condition float ctx (comparison path between (low ∷ high ∷ [])) item
        ≡ evaluate_condition float ctx
            (and (comparison path ge (low ∷ [])) (comparison path le (high ∷ [])))
            item
  unfolding evaluate_condition
  evaluate_condition-between path low high item v h = elim (Result-cases (resolve_name ctx path)) [
    | inl (resolved, e) ↦ rw e (
        unfold evaluate_comparison in
        evaluate_between-and (get_nested_attribute item resolved) low high v h)
    | inr (f, e) ↦ rw e refl
  ]
