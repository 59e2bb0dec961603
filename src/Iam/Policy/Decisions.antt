-- ===== src/Iam/Policy/Decisions.antt =====
-- What the decision of the engine says about the statements of the policies.
use ruststack.Prelude.{◌≡◌, refl, ◌↔◌, ◌⊎◌, inl, Bool, true, false, List, [], ◌∷◌, arith, Any}
use ruststack.Iam.Policy.{
  Effect, Statement, PolicyDocument, Decision, EvaluationContext, matches_action, matches_resource,
  single_loop, evaluate_single, loop, evaluate,
}

-- The statement names the requested action and resource, and has the effect.
abbrev pub Applies : EvaluationContext → Effect → Statement → Type 0
Applies context effect s =
    (matches_action s.action context.action ≡ true)
    × (matches_resource s.resource context.resource ≡ true)
    × (s.effect ≡ effect)

-- Some statement of some policy applies with the effect.
abbrev pub SomeApplies : EvaluationContext → Effect → List PolicyDocument → Type 0
SomeApplies context effect = Any (λ policy. Any (Applies context effect) policy.statements)

module _ (context : EvaluationContext) where
  single_loop-deny_iff :
      (b : Bool) (statements : List Statement)
      → (single_loop b statements context ≡ Decision.deny)
        ↔ Any (Applies context Effect.deny) statements
  unfolding single_loop
  single_loop-deny_iff true [] = (cc, λ x. absurd x)
  single_loop-deny_iff false [] = (cc, λ x. absurd x)
  single_loop-deny_iff b (s ∷ statements) =
      ground (arith, single_loop-deny_iff b statements, single_loop-deny_iff true statements)

  single_loop-allow_iff :
      (b : Bool) (statements : List Statement)
      → (single_loop b statements context ≡ Decision.allow)
        ↔ (¬ Any (Applies context Effect.deny) statements)
          × ((b ≡ true) ⊎ Any (Applies context Effect.allow) statements)
  unfolding single_loop
  single_loop-allow_iff true [] = (λ _. (λ x. x, inl refl), λ _. refl)
  single_loop-allow_iff false [] = (cc, λ h. ground arith)
  single_loop-allow_iff b (s ∷ statements) =
      ground (arith, single_loop-allow_iff b statements, single_loop-allow_iff true statements)

  loop-deny_iff :
      (b : Bool) (policies : List PolicyDocument)
      → (loop b policies context ≡ Decision.deny) ↔ SomeApplies context Effect.deny policies
  unfolding loop evaluate_single
  loop-deny_iff true [] = (cc, λ x. absurd x)
  loop-deny_iff false [] = (cc, λ x. absurd x)
  loop-deny_iff b (p ∷ policies) = ground (
    arith,
    single_loop-deny_iff false p.statements,
    loop-deny_iff b policies,
    loop-deny_iff true policies,
  )

  loop-allow_iff :
      (b : Bool) (policies : List PolicyDocument)
      → (loop b policies context ≡ Decision.allow)
        ↔ (¬ SomeApplies context Effect.deny policies)
          × ((b ≡ true) ⊎ SomeApplies context Effect.allow policies)
  unfolding loop evaluate_single
  loop-allow_iff true [] = (λ _. (λ x. x, inl refl), λ _. refl)
  loop-allow_iff false [] = (cc, λ h. ground arith)
  loop-allow_iff b (p ∷ policies) = ground (
    arith,
    single_loop-deny_iff false p.statements,
    single_loop-allow_iff false p.statements,
    loop-allow_iff b policies,
    loop-allow_iff true policies,
  )

-- The engine denies explicitly exactly when some statement of some policy that names the action
-- and the resource has the effect Deny.
pub evaluate-deny_iff :
    (policies : List PolicyDocument) (context : EvaluationContext)
    → (evaluate policies context ≡ Decision.deny) ↔ SomeApplies context Effect.deny policies
unfolding evaluate
evaluate-deny_iff policies context = loop-deny_iff context false policies

-- The engine allows exactly when no applicable statement denies and some applicable one allows.
pub evaluate-allow_iff :
    (policies : List PolicyDocument) (context : EvaluationContext)
    → (evaluate policies context ≡ Decision.allow)
      ↔ ((¬ SomeApplies context Effect.deny policies) × SomeApplies context Effect.allow policies)
unfolding evaluate
evaluate-allow_iff policies context = ground (arith, loop-allow_iff context false policies)
