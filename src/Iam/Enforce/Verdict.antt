-- ===== src/Iam/Enforce/Verdict.antt =====
-- Which requests ruststack-iam/src/middleware.rs lets through.
use ruststack.Prelude.{
  ◌≡◌, ◌↔◌, String, Bool, true, false, not, ◌&&◌, ◌||◌, Option, none, some, arith, ◌==◌, string_eq,
}
use ruststack.Iam.Policy.{PolicyDocument, EvaluationContext, Decision, Effect}
use ruststack.Iam.Policy.Decisions.{SomeApplies, evaluate-allow_iff}
use ruststack.Iam.Storage.{Role, IamStorage, list_roles}
use ruststack.Iam.Enforce.{
  Request, forwarded, access_key_of, action_of, resource_of, determined_action, find_role,
  documents_of, context_of, evaluate_role, evaluate_request, outcome, enforce_iam,
}

module _ (from_json : String → Option PolicyDocument) (s : IamStorage) (request : Request) where
  -- the context of the request for a role
  abbrev pub request_context : Role → EvaluationContext
  request_context role =
      context_of from_json role (determined_action request (action_of request.amz_target))
        (resource_of request.host)

  -- Some role has the name or identifier, and its attached policies allow and do not deny.
  abbrev pub IsAllowed : Option Role → Type 0
  IsAllowed none = ⊥
  IsAllowed (some role) =
      (¬ SomeApplies (request_context role) Effect.deny
        (documents_of from_json s role.attached_policies))
      × SomeApplies (request_context role) Effect.allow
          (documents_of from_json s role.attached_policies)

  outcome-forwarded_iff : (d : Decision) → (outcome from_json d ≡ forwarded) ↔ (d ≡ Decision.allow)
  outcome-forwarded_iff Decision.allow = ground arith
  outcome-forwarded_iff Decision.deny = ground arith
  outcome-forwarded_iff Decision.implicit_deny = ground arith

  evaluate_role-allow_iff :
      (found : Option Role)
      → (evaluate_role from_json s
            (determined_action request (action_of request.amz_target))
            (resource_of request.host)
            found
          ≡ Decision.allow)
        ↔ IsAllowed found
  evaluate_role-allow_iff none = ((λ p. ground arith), (λ e. absurd e))
  evaluate_role-allow_iff (some role) =
      evaluate-allow_iff (documents_of from_json s role.attached_policies) (request_context role)

  -- Where policies are enforced, a request that is no health check and is signed with the key of no
  -- root user goes on exactly when the first role of the store with that name or identifier is
  -- there, and among the documents of its attached policies that are there and parse no applicable
  -- statement denies the action of the request on its resource and some applicable one allows it.
  pub enforce_iam-forwarded_iff :
      (strict : Bool) (access_key : String)
      → (request.path == "/health" || request.path == "/_localstack/health") ≡ false
      → access_key_of request.authorization ≡ some access_key
      → (access_key == "test" && not strict) ≡ false
      → (enforce_iam from_json true strict (some s) request ≡ forwarded)
        ↔ IsAllowed (find_role access_key (list_roles s))
  unfolding enforce_iam evaluate_request
  enforce_iam-forwarded_iff strict access_key h k j =
      rw (enforce_iam, h, k, j)
        (
          (λ p.
              (evaluate_role-allow_iff (find_role access_key (list_roles s))).0
                ((outcome-forwarded_iff _).0 p)),
          (λ q.
              (outcome-forwarded_iff _).1
                ((evaluate_role-allow_iff (find_role access_key (list_roles s))).1 q)),
        )
