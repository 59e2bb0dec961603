-- ===== src/Iam/Enforce.antt =====
-- ruststack-iam/src/middleware.rs: the enforcement of policies on a request. The environment
-- variables, the headers (whose text is ASCII) and the store are arguments; the parser of policy
-- documents (serde_json) is the parameter `from_json`. A request that goes on is `forwarded`.
pub mod Verdict
mod Tests
use Prim.Native.Char.{Char, code}
use Prim.Native.String
use ruststack.Prelude.{
  ℕ, String, Bool, true, false, not, ◌&&◌, ◌||◌, Option, none, some, List, [], ◌∷◌, if◌then◌else◌,
  ◌==◌, string_eq, leb, is_some,
}
use ruststack.Dict.{empty}
use ruststack.Result.{Result, ok, err}
use ruststack.Text.{strip_prefix, starts_with, eq_ignore_ascii_case}
use ruststack.Text.Words.{split_at_each, split_text, lower}
use ruststack.Iam.Policy.{PolicyDocument, EvaluationContext, Decision, evaluate}
use ruststack.Iam.Storage.{Role, Policy, IamStorage, IamError, list_roles, get_policy}

abbrev pub or_else : Option String → Option String → Option String
or_else none o = o
or_else (some v) o = some v

abbrev pub is_true : Option String → Bool
is_true none = false
is_true (some v) = v == "1" || eq_ignore_ascii_case v "true"

-- the variables RUSTSTACK_ENFORCE_IAM and ENFORCE_IAM
unfoldable pub is_iam_enforced : Option String → Option String → Bool
is_iam_enforced ruststack_enforce_iam enforce_iam =
    is_true (or_else ruststack_enforce_iam enforce_iam)

pub record Request : Type 0 where
  pub method : String
  pub path : String
  pub authorization : Option String
  pub amz_target : Option String
  pub host : Option String

abbrev pub first_part : List String → String
first_part [] = ""
first_part (part ∷ parts) = part

-- `auth.split("Credential=").nth(1)`, up to the first slash
abbrev pub credential : List String → Option String
credential (before ∷ cred_part ∷ parts) = some (first_part (split_at_each 47 cred_part))
credential _ = none

unfoldable pub access_key_of : Option String → Option String
unfolding starts_with split_text split_at_each
access_key_of none = none
access_key_of (some auth) =
    if starts_with auth "AWS4-HMAC-SHA256 "
    then credential (split_text "Credential=" auth)
    else none

abbrev pub target_action : List String → Option String
target_action (service ∷ op ∷ []) =
    some (String.◌++◌ (lower (first_part (split_at_each 95 service))) (String.◌++◌ ":" op))
target_action _ = none

unfoldable pub action_of : Option String → Option String
unfolding split_at_each lower
action_of none = none
action_of (some target) = target_action (split_at_each 46 target)

-- `text.contains(part)`
unfoldable pub has_text : String → String → Bool
unfolding starts_with
has_text String.[] part = starts_with String.[] part
has_text (String.◌∷◌ c text) part = starts_with (String.◌∷◌ c text) part || has_text text part

unfoldable pub resource_of : Option String → String
unfolding has_text split_at_each
resource_of none = "*"
resource_of (some host) =
    let bucket = first_part (split_at_each 46 host) in
    if (has_text host ".localhost" || has_text host ".s3.localstack") && not (bucket == "")
    then String.◌++◌ "arn:aws:s3:::" bucket
    else "*"

unfoldable pub guess_action_from_uri : String → String → String
unfolding starts_with
guess_action_from_uri method uri =
    let function =
      if method == "POST"
      then "CreateFunction"
      else if method == "GET"
      then "GetFunction"
      else if method == "DELETE"
      then "DeleteFunction"
      else if method == "PUT"
      then "UpdateFunctionCode"
      else "Invoke" in
    let verb =
      if method == "GET"
      then "Get"
      else if method == "PUT"
      then "Put"
      else if method == "DELETE"
      then "Delete"
      else "List" in
    if starts_with uri "/2015-03-31/functions"
    then String.◌++◌ "lambda:" function
    else if starts_with uri "/v2/apis"
    then "apigateway:*"
    else String.◌++◌ "s3:" (String.◌++◌ verb "Object")

abbrev pub determined_action : Request → Option String → String
determined_action request (some action) = action
determined_action request none = guess_action_from_uri request.method request.path

-- the first role with that name or identifier
unfoldable pub find_role : String → List Role → Option Role
find_role access_key [] = none
find_role access_key (role ∷ roles) =
    let rest = find_role access_key roles in
    if role.role_name == access_key || role.role_id == access_key then some role else rest

pub data Outcome : Type 0 where
  forwarded : Outcome
  access_denied : String → Outcome

module _ (from_json : String → Option PolicyDocument) where
  abbrev pub push_document : Option PolicyDocument → List PolicyDocument → List PolicyDocument
  push_document none documents = documents
  push_document (some document) documents = document ∷ documents

  abbrev pub push_policy : Result IamError Policy → List PolicyDocument → List PolicyDocument
  push_policy (err e) documents = documents
  push_policy (ok policy) documents = push_document (from_json policy.policy_document) documents

  -- The documents of the attached policies that are there and parse.
  unfoldable pub documents_of : IamStorage → List String → List PolicyDocument
  unfolding get_policy
  documents_of s [] = []
  documents_of s (arn ∷ arns) = push_policy (get_policy arn s) (documents_of s arns)

  abbrev pub context_of : Role → String → String → EvaluationContext
  context_of role action resource = record {
    action = action;
    resource = resource;
    principal_arn = some role.arn;
    conditions = empty;
  }

  abbrev pub evaluate_role : IamStorage → String → String → Option Role → Decision
  evaluate_role s action resource none = Decision.implicit_deny
  evaluate_role s action resource (some role) =
      evaluate (documents_of s role.attached_policies) (context_of role action resource)

  -- `strict` says whether RUSTSTACK_STRICT_IAM is "1".
  unfoldable pub evaluate_request : Bool → IamStorage → String → String → String → Decision
  unfolding find_role list_roles documents_of evaluate
  evaluate_request strict s access_key action resource =
      if access_key == "test" && not strict
      then Decision.allow
      else evaluate_role s action resource (find_role access_key (list_roles s))

  abbrev pub outcome : Decision → Outcome
  outcome Decision.allow = forwarded
  outcome _ = access_denied "Access Denied: Explicit Deny or Implicit Deny in policy eval"

  abbrev pub judge : Bool → Option IamStorage → Option String → String → String → Outcome
  judge strict state none action resource =
      access_denied "Access Denied: Make sure to sign your request with SigV4"
  judge strict none (some ak) action resource = forwarded
  judge strict (some s) (some ak) action resource =
      outcome (evaluate_request strict s ak action resource)

  unfoldable pub enforce_iam : Bool → Bool → Option IamStorage → Request → Outcome
  unfolding evaluate_request access_key_of action_of resource_of guess_action_from_uri
  enforce_iam enforced strict state request =
      if not enforced || request.path == "/health" || request.path == "/_localstack/health"
      then forwarded
      else judge strict state (access_key_of request.authorization)
          (determined_action request (action_of request.amz_target)) (resource_of request.host)
