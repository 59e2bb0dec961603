-- ===== src/Iam/Tests.antt =====
-- Runs of the policy engine and of the role store, and the theorems at concrete inputs.
use mathlib.Core.List.Perm
use ruststack.Prelude.{
  ℕ, ◌≡◌, ◌↔◌, refl, String, true, false, none, some, List, [], ◌∷◌, arith, string_eq, eq_iff,
  contains,
}
use ruststack.Prelude.Int.{pos}
use ruststack.Dict.{get}
use ruststack.Result.{state}
use ruststack.Reach.{Reach, here, next}
use ruststack.Text.{
  starts_with, ends_with, has_code, strip_suffix_code, strip_prefix_code, split_at_code, byte_len,
  eq_ignore_ascii_case,
}
use ruststack.Iam.Policy.{
  Effect, Statement, PolicyDocument, Decision, EvaluationContext, evaluate, evaluate_single,
  matches_action, matches_resource, matches_glob, loop, single_loop, action_matches,
  action_prefix_matches, resource_matches, trailing_matches, leading_matches, inner_matches,
  middle_matches, single_matches, zip_matches,
}
use ruststack.Iam.Policy.Decisions.{SomeApplies, evaluate-deny_iff, evaluate-allow_iff}
use ruststack.Iam.Policy.Order.{evaluate-perm}
use ruststack.Iam.Policy.Glob.{Matches, matches_glob-Matches}
use ruststack.Iam.Policy.Overlap.{matches_glob_overlap}
use ruststack.Iam.Storage.{
  Role, Policy, IamStorage, new, create_role, create_policy, attach_role_policy, detach_role_policy,
}
use ruststack.Iam.Storage.Invariant.{
  IsValid, Step, makes_role, makes_policy, attaches, reached_iam-IsValid,
}
use ruststack.Iam.Storage.Attach.{IsUnattached, detach-attach, detach_unattached}

abbrev statement : Effect → String → String → Statement
statement effect action resource = record {
  sid = none;
  effect = effect;
  principal = none;
  action = action ∷ [];
  resource = resource ∷ [];
  condition = none;
}

abbrev document : List Statement → PolicyDocument
document statements = record { version = none; statements = statements }

abbrev pub readers : PolicyDocument
readers = document (statement Effect.allow "s3:Get*" "arn:aws:s3:::bucket/*" ∷ [])

abbrev pub secrets : PolicyDocument
secrets = document (statement Effect.deny "*" "*/secret.txt" ∷ [])

abbrev asks : String → EvaluationContext
asks resource = record {
  action = "s3:GetObject";
  resource = resource;
  principal_arn = none;
  conditions = [];
}

engine : Unit {0}
unfolding evaluate loop evaluate_single single_loop matches_action action_matches
    action_prefix_matches matches_resource resource_matches matches_glob trailing_matches
    leading_matches inner_matches middle_matches single_matches zip_matches starts_with ends_with
    strip_suffix_code strip_prefix_code has_code split_at_code byte_len eq_ignore_ascii_case
engine = tt

evaluate_tests :
    (evaluate (readers ∷ secrets ∷ []) (asks "arn:aws:s3:::bucket/a") ≡ Decision.allow)
    × (evaluate (readers ∷ secrets ∷ []) (asks "arn:aws:s3:::bucket/secret.txt") ≡ Decision.deny)
    × (evaluate (readers ∷ secrets ∷ []) (asks "arn:aws:s3:::other/a") ≡ Decision.implicit_deny)
    × (matches_glob "a?c" "abc" ≡ true)
    × (matches_glob "a*c" "abbbc" ≡ true)
    × (matches_glob "a*b*c" "aXbYc" ≡ false)
    × (matches_glob "??" "é" ≡ true)
unfolding engine
evaluate_tests = (refl, refl, refl, refl, refl, refl, refl)

evaluate-deny_iff_example :
    (evaluate (readers ∷ secrets ∷ []) (asks "arn:aws:s3:::bucket/secret.txt") ≡ Decision.deny)
    ↔ SomeApplies (asks "arn:aws:s3:::bucket/secret.txt") Effect.deny (readers ∷ secrets ∷ [])
evaluate-deny_iff_example =
    evaluate-deny_iff (readers ∷ secrets ∷ []) (asks "arn:aws:s3:::bucket/secret.txt")

evaluate-allow_iff_example :
    (evaluate (readers ∷ secrets ∷ []) (asks "arn:aws:s3:::bucket/a") ≡ Decision.allow) ↔ (
      (¬ SomeApplies (asks "arn:aws:s3:::bucket/a") Effect.deny (readers ∷ secrets ∷ []))
      × SomeApplies (asks "arn:aws:s3:::bucket/a") Effect.allow (readers ∷ secrets ∷ []))
evaluate-allow_iff_example =
    evaluate-allow_iff (readers ∷ secrets ∷ []) (asks "arn:aws:s3:::bucket/a")

evaluate-perm_example :
    evaluate (readers ∷ secrets ∷ []) (asks "arn:aws:s3:::bucket/secret.txt")
    ≡ evaluate (secrets ∷ readers ∷ []) (asks "arn:aws:s3:::bucket/secret.txt")
evaluate-perm_example =
    evaluate-perm (readers ∷ secrets ∷ []) (secrets ∷ readers ∷ [])
      (asks "arn:aws:s3:::bucket/secret.txt") (Perm.swap secrets readers [])

middle_matches_run : matches_glob "ab*d" "abcd" ≡ true
unfolding engine
middle_matches_run = refl

matches_glob-Matches_example : Matches "ab*d" "abcd"
matches_glob-Matches_example =
    matches_glob-Matches "ab*d" "abcd" middle_matches_run (omega arith) (omega arith) (omega arith)

overlap_starts : starts_with "abc" "ab" ≡ true
unfolding starts_with
overlap_starts = refl

overlap_ends : ends_with "abc" "bc" ≡ true
unfolding ends_with
overlap_ends = refl

matches_glob_overlap_example : (matches_glob "ab*bc" "abc" ≡ true) × (¬ Matches "ab*bc" "abc")
unfolding has_code
matches_glob_overlap_example =
    matches_glob_overlap "ab" "bc" "abc"
      (record {
        left = ground (arith, eq_iff "ab" "");
        right = ground (arith, eq_iff "bc" "");
        no_star_left = refl;
        no_star_right = refl;
        no_question_left = refl;
        no_question_right = refl;
      })
      overlap_starts overlap_ends (omega arith)

-- A store with one role and one policy, reached by two operations.
abbrev with_role : IamStorage
with_role = state (create_role "0123" 7 "dev" "{}" none none new)

abbrev with_both : IamStorage
with_both = state (create_policy "4567" 8 "read" "{}" none none with_role)

with_both-Reach : Reach Step new with_both
with_both-Reach =
    next (next here (makes_role "0123" 7 "dev" "{}" none none))
      (makes_policy "4567" 8 "read" "{}" none none)

abbrev read_arn : String
read_arn = "arn:aws:iam::000000000000:policy/read"

reached_iam-IsValid_example : IsValid (state (attach_role_policy "dev" read_arn with_both))
reached_iam-IsValid_example =
    reached_iam-IsValid (state (attach_role_policy "dev" read_arn with_both))
      (next with_both-Reach (attaches "dev" read_arn))

abbrev dev : Role
dev = record {
  role_name = "dev";
  role_id = "AROA0";
  arn = "arn:aws:iam::000000000000:role/dev";
  path = "/";
  assume_role_policy_document = "{}";
  description = none;
  create_date = 7;
  attached_policies = [];
}

abbrev read : ℕ → Policy
read n = record {
  policy_name = "read";
  policy_id = "ANPA0";
  arn = read_arn;
  path = "/";
  policy_document = "{}";
  description = none;
  create_date = 8;
  attachment_count = pos n;
}

abbrev store : ℕ → IamStorage
store n = record { roles = ("dev", dev) ∷ []; policies = (read_arn, read n) ∷ [] }

store-IsUnattached : (n : ℕ) → IsUnattached (store n) "dev" read_arn dev (read n) n
unfolding get contains
store-IsUnattached n = record { role = refl; absent = refl; policy = refl; count = refl }

detach-attach_example :
    let t : IamStorage =
      state
        (detach_role_policy "dev" read_arn (state (attach_role_policy "dev" read_arn (store 2)))) in
    ((k : String) → get k t.roles ≡ get k (store 2).roles)
    × ((k : String) → get k t.policies ≡ get k (store 2).policies)
detach-attach_example =
    detach-attach (store 2) "dev" read_arn dev (read 2) 2 (store-IsUnattached 2) (omega arith)

detach_unattached_example :
    let t : IamStorage = state (detach_role_policy "dev" read_arn (store 3)) in
    ((k : String) → get k t.roles ≡ get k (store 3).roles)
    × (get read_arn t.policies ≡ some (record (read 3) { attachment_count = pos 2 }))
detach_unattached_example =
    detach_unattached (store 3) "dev" read_arn dev (read 3) 2 (store-IsUnattached 3)
