-- ===== src/Iam/Storage.antt =====
-- ruststack-iam/src/storage.rs: roles and policies in two concurrent maps. An operation takes the
-- time and the part of a new UUID that it uses as arguments (`chrono`, `uuid`).
pub mod Invariant
pub mod Attach
use Prim.Native.String.{◌++◌}
use ruststack.Prelude.{
  ℕ, String, Bool, Option, none, some, List, [], ◌∷◌, if◌then◌else◌, string_eq, contains, without,
}
use ruststack.Prelude.Int.{ℤ, pos, i32_increment, i32_decrement_to_zero}
use mathlib.Core.List.{◌++◌ as append}
use ruststack.Dict.{Dict, get, put, remove, contains_key, values}
use ruststack.Result.{Result, ok, err, ok_or, ◌>>=◌}

pub record Role : Type 0 where
  pub role_name : String
  pub role_id : String
  pub arn : String
  pub path : String
  pub assume_role_policy_document : String
  pub description : Option String
  pub create_date : ℕ
  pub attached_policies : List String

pub record Policy : Type 0 where
  pub policy_name : String
  pub policy_id : String
  pub arn : String
  pub path : String
  pub policy_document : String
  pub description : Option String
  pub create_date : ℕ
  pub attachment_count : ℤ

pub record IamStorage : Type 0 where
  pub roles : Dict String Role
  pub policies : Dict String Policy

pub data IamError : Type 0 where
  entity_already_exists no_such_entity invalid_input : String → IamError

abbrev pub new : IamStorage
new = record { roles = []; policies = [] }

-- `path.unwrap_or_else(|| "/".to_string())`
abbrev path_or_root : Option String → String
path_or_root none = "/"
path_or_root (some path) = path

module _ (uuid17 : String) (now : ℕ) where
  abbrev pub new_role : String → String → Option String → Option String → Role
  new_role role_name document description path = record {
    role_name = role_name;
    role_id = "AROA" ++ uuid17;
    arn = "arn:aws:iam::000000000000:role" ++ path_or_root path ++ role_name;
    path = path_or_root path;
    assume_role_policy_document = document;
    description = description;
    create_date = now;
    attached_policies = [];
  }

  unfoldable pub create_role :
      String
      → String
      → Option String
      → Option String
      → IamStorage
      → Result IamError Role × IamStorage
  create_role role_name document description path s =
      if contains_key role_name s.roles
      then (err (entity_already_exists role_name), s)
      else (let role = new_role role_name document description path in
          (ok role, record s { roles = put role_name role s.roles }))

  abbrev pub policy_arn_of : String → Option String → String
  policy_arn_of policy_name path =
      "arn:aws:iam::000000000000:policy" ++ path_or_root path ++ policy_name

  abbrev pub new_policy : String → String → Option String → Option String → Policy
  new_policy policy_name document description path = record {
    policy_name = policy_name;
    policy_id = "ANPA" ++ uuid17;
    arn = policy_arn_of policy_name path;
    path = path_or_root path;
    policy_document = document;
    description = description;
    create_date = now;
    attachment_count = pos 0;
  }

  unfoldable pub create_policy :
      String
      → String
      → Option String
      → Option String
      → IamStorage
      → Result IamError Policy × IamStorage
  create_policy policy_name document description path s =
      let arn = policy_arn_of policy_name path in
      if contains_key arn s.policies
      then (err (entity_already_exists policy_name), s)
      else (let policy = new_policy policy_name document description path in
          (ok policy, record s { policies = put arn policy s.policies }))

unfoldable pub get_role : String → IamStorage → Result IamError Role
get_role role_name s = ok_or (get role_name s.roles) (no_such_entity role_name)

unfoldable pub delete_role : String → IamStorage → Result IamError (Unit {0}) × IamStorage
delete_role role_name s =
    if contains_key role_name s.roles
    then (ok tt, record s { roles = remove role_name s.roles })
    else (err (no_such_entity role_name), s)

unfoldable pub list_roles : IamStorage → List Role
list_roles s = values s.roles

unfoldable pub get_policy : String → IamStorage → Result IamError Policy
get_policy policy_arn s = ok_or (get policy_arn s.policies) (no_such_entity policy_arn)

unfoldable pub delete_policy : String → IamStorage → Result IamError (Unit {0}) × IamStorage
delete_policy policy_arn s =
    if contains_key policy_arn s.policies
    then (ok tt, record s { policies = remove policy_arn s.policies })
    else (err (no_such_entity policy_arn), s)

-- `if let Some(mut policy) = self.policies.get_mut(arn)` with a change of the count
unfoldable pub recount : (ℤ → ℤ) → String → Dict String Policy → Option Policy → Dict String Policy
recount f arn policies none = policies
recount f arn policies (some policy) =
    put arn (record policy { attachment_count = f policy.attachment_count }) policies

unfoldable pub attach_to :
    String → String → IamStorage → Option Role → Result IamError (Unit {0}) × IamStorage
unfolding recount
attach_to role_name policy_arn s none = (err (no_such_entity role_name), s)
attach_to role_name policy_arn s (some role) =
    if contains role.attached_policies policy_arn then (ok tt, s) else (
      ok tt,
      record {
        roles =
            put role_name
              (record role { attached_policies = append role.attached_policies (policy_arn ∷ []) })
              s.roles;
        policies = recount i32_increment policy_arn s.policies (get policy_arn s.policies);
      },
    )

unfoldable pub attach_role_policy :
    String → String → IamStorage → Result IamError (Unit {0}) × IamStorage
unfolding attach_to
attach_role_policy role_name policy_arn s = attach_to role_name policy_arn s (get role_name s.roles)

unfoldable pub detach_from :
    String → String → IamStorage → Option Role → Result IamError (Unit {0}) × IamStorage
unfolding recount
detach_from role_name policy_arn s none = (err (no_such_entity role_name), s)
detach_from role_name policy_arn s (some role) = (
  ok tt,
  record {
    roles =
        put role_name
          (record role { attached_policies = without policy_arn role.attached_policies }) s.roles;
    policies = recount i32_decrement_to_zero policy_arn s.policies (get policy_arn s.policies);
  },
)

unfoldable pub detach_role_policy :
    String → String → IamStorage → Result IamError (Unit {0}) × IamStorage
unfolding detach_from
detach_role_policy role_name policy_arn s =
    detach_from role_name policy_arn s (get role_name s.roles)

unfoldable pub list_attached_role_policies : String → IamStorage → Result IamError (List String)
list_attached_role_policies role_name s = do
  role ← ok_or (get role_name s.roles) (no_such_entity role_name)
  ok role.attached_policies
