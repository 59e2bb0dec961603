-- ===== src/Iam/Policy/Order.antt =====
-- The decision does not depend on the order of the policies.
use mathlib.Core.List.{Perm, Permᴰ}
use ruststack.Prelude.{◌≡◌, refl, ◌∙◌, Bool, true, false, List, ◌∷◌, arith}
use ruststack.Iam.Policy.{PolicyDocument, Decision, EvaluationContext, loop, evaluate}
use mathlib.Core.Logic.{∥∥₁_elim}

Decision-discrete : Discrete Decision
Decision-discrete = hlevel

Decision-set : IsSet Decision
Decision-set = hlevel

module _ (context : EvaluationContext) where
  loop_swap :
      (b : Bool) (p q : PolicyDocument) (policies : List PolicyDocument)
      → loop b (p ∷ q ∷ policies) context ≡ loop b (q ∷ p ∷ policies) context
  unfolding loop
  loop_swap b p q policies = ground arith

  loop_head :
      (b : Bool) (p : PolicyDocument) (ps qs : List PolicyDocument)
      → ((c : Bool) → loop c ps context ≡ loop c qs context)
      → loop b (p ∷ ps) context ≡ loop b (p ∷ qs) context
  unfolding loop
  loop_head b p ps qs h = ground (arith, h b, h true)

  loop-perm :
      {ps qs : List PolicyDocument}
      → Permᴰ ps qs
      → (b : Bool) → loop b ps context ≡ loop b qs context
  loop-perm Permᴰ.nil b = refl
  loop-perm (Permᴰ.cons {a = p} {l₁ = ps} {l₂ = qs} e d) b =
      rw (← e) (loop_head b p ps qs (loop-perm d))
  loop-perm (Permᴰ.swap {a = p} {b = q} {l = ps} e f) b = rw (← e, ← f) (loop_swap b p q ps)
  loop-perm (Permᴰ.trans d d') b = loop-perm d b ∙ loop-perm d' b

-- Policies in another order give the same decision, although the engine stops at the first policy
-- that denies.
pub evaluate-perm :
    (ps qs : List PolicyDocument) (context : EvaluationContext)
    → Perm ps qs
    → evaluate ps context ≡ evaluate qs context
unfolding evaluate
evaluate-perm ps qs context h = ∥∥₁_elim h (Decision-set _ _) (λ d. loop-perm context d false)
