-- ===== src/Iam/Policy.antt =====
-- ruststack-iam/src/policy.rs: policy documents and the evaluation engine. The deserialiser
-- (`from_json`, serde) is not modelled; a document is the record that it yields.
pub mod Decisions
pub mod Glob
pub mod Overlap
pub mod Order
use ruststack.Prelude.{
  ℕ, String, Bool, true, false, ◌||◌, ◌&&◌, Option, none, some, List, [], ◌∷◌, eqb, if◌then◌else◌,
  not, ◌==◌, string_eq, nat_eq, is_some,
}
use ruststack.Dict.{Dict}
use ruststack.Text.{
  starts_with, ends_with, strip_suffix_code, strip_prefix_code, has_code, split_at_code, byte_len,
  eq_ignore_ascii_case,
}
use Prim.Native.Char.{code}
use Prim.Native.String

pub data Effect : Type 0 where
  allow deny : Effect

-- The engine never reads `principal` and `condition`; the JSON value of a principal is a text.
pub data Principal : Type 0 where
  all aws service federated : String → Principal

pub record Statement : Type 0 where
  pub sid : Option String
  pub effect : Effect
  pub principal : Option Principal
  pub action : List String
  pub resource : List String
  pub condition : Option (Dict String (Dict String (List String)))

pub record PolicyDocument : Type 0 where
  pub version : Option String
  pub statements : List Statement

pub data Decision : Type 0 where
  allow deny implicit_deny : Decision

pub record EvaluationContext : Type 0 where
  pub action : String
  pub resource : String
  pub principal_arn : Option String
  pub conditions : Dict String String

abbrev pub star : ℕ
star = b'*'

abbrev pub question : ℕ
question = b'?'

-- the trailing wildcard of an action, `s3:Get*`
unfoldable pub action_prefix_matches : Option String → String → Bool
action_prefix_matches none requested = false
action_prefix_matches (some prefix) requested = starts_with requested prefix

unfoldable pub action_matches : String → String → Bool
unfolding action_prefix_matches
action_matches action requested =
    action == "*"
    || action_prefix_matches (strip_suffix_code star action) requested
    || eq_ignore_ascii_case action requested

unfoldable pub matches_action : List String → String → Bool
matches_action [] requested = false
matches_action (action ∷ actions) requested =
    action_matches action requested || matches_action actions requested

-- the loop over `pattern.chars().zip(target.chars())`
unfoldable pub zip_matches : String → String → Bool
zip_matches String.[] target = true
zip_matches (String.◌∷◌ pc pattern) String.[] = true
zip_matches (String.◌∷◌ pc pattern) (String.◌∷◌ tc target) =
    if not (eqb (code pc) question) && not (eqb (code pc) (code tc))
    then false
    else zip_matches pattern target

-- the branch for patterns with `?` and without `*`
unfoldable pub single_matches : String → String → Bool
single_matches pattern target =
    if not (byte_len pattern == byte_len target) then false else zip_matches pattern target

-- the branch for a `*` in the middle
unfoldable pub middle_matches : Option (String × String) → String → Bool
middle_matches none target = false
middle_matches (some (prefix, suffix)) target =
    if not (has_code star suffix) && not (has_code question suffix)
    then starts_with target prefix && ends_with target suffix
    else false

-- what follows the two early returns for a wildcard at an end
unfoldable pub inner_matches : String → String → Bool
inner_matches pattern target =
    if pattern == target
    then true
    else if has_code question pattern && not (has_code star pattern)
    then single_matches pattern target
    else middle_matches (split_at_code star pattern) target

unfoldable pub leading_matches : Option String → String → String → Bool
leading_matches (some suffix) pattern target = ends_with target suffix
leading_matches none pattern target = inner_matches pattern target

unfoldable pub trailing_matches : Option String → String → String → Bool
trailing_matches (some prefix) pattern target = starts_with target prefix
trailing_matches none pattern target =
    leading_matches (strip_prefix_code star pattern) pattern target

unfoldable pub matches_glob : String → String → Bool
matches_glob pattern target = trailing_matches (strip_suffix_code star pattern) pattern target

unfoldable pub resource_matches : String → String → Bool
resource_matches resource requested =
    resource == "*"
    || (has_code star resource || has_code question resource) && matches_glob resource requested
    || resource == requested

unfoldable pub matches_resource : List String → String → Bool
matches_resource [] requested = false
matches_resource (resource ∷ resources) requested =
    resource_matches resource requested || matches_resource resources requested

-- The loop of `evaluate_single`; the first argument is `has_allow`.
unfoldable pub single_loop : Bool → List Statement → EvaluationContext → Decision
single_loop has_allow [] context = if has_allow then Decision.allow else Decision.implicit_deny
single_loop has_allow (statement ∷ statements) context =
    let skip = single_loop has_allow statements context in
    let allowed = single_loop true statements context in
    if not (matches_action statement.action context.action)
    then skip
    else if not (matches_resource statement.resource context.resource)
    then skip
    else elim statement.effect [ Effect.deny ↦ Decision.deny | Effect.allow ↦ allowed ]

unfoldable pub evaluate_single : PolicyDocument → EvaluationContext → Decision
evaluate_single policy context = single_loop false policy.statements context

-- The loop of `evaluate`.
unfoldable pub loop : Bool → List PolicyDocument → EvaluationContext → Decision
loop has_allow [] context = if has_allow then Decision.allow else Decision.implicit_deny
loop has_allow (policy ∷ policies) context =
    let allowed = loop true policies context in
    let skip = loop has_allow policies context in
    elim (evaluate_single policy context) [
      | Decision.deny ↦ Decision.deny
      | Decision.allow ↦ allowed
      | Decision.implicit_deny ↦ skip
    ]

unfoldable pub evaluate : List PolicyDocument → EvaluationContext → Decision
evaluate policies context = loop false policies context
