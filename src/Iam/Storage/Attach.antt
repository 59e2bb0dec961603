-- ===== src/Iam/Storage/Attach.antt =====
-- Attaching and detaching a policy, seen through the lookups of the store.
use ruststack.Prelude.{
  ℕ, suc, ◌≡◌, ◌<◌, ◌+◌, String, false, some, string_eq, eq_iff, arith, contains, without-eq_self,
  without-append_self, ◌++◌, [], ◌∷◌, eq_refl,
}
use ruststack.Prelude.Int.{pos, i32_increment, i32_decrement_to_zero}
use ruststack.Dict.{get, put, get-put}
use ruststack.Result.{state}
use ruststack.Iam.Storage.{Role, Policy, IamStorage, attach_role_policy, detach_role_policy}

-- A role without the policy, and the policy with its count.
pub record IsUnattached (s : IamStorage) (name arn : String) (r : Role) (p : Policy) (n : ℕ)
    : Type 0 where
  pub role : get name s.roles ≡ some r
  pub absent : contains r.attached_policies arn ≡ false
  pub policy : get arn s.policies ≡ some p
  pub count : p.attachment_count ≡ pos n

module _ (s : IamStorage) (name arn : String) (r : Role) (p : Policy) (n : ℕ) where
  abbrev attached : Role
  attached = record r { attached_policies = r.attached_policies ++ arn ∷ [] }

  abbrev counted : ℕ → Policy
  counted m = record p { attachment_count = pos m }

  abbrev updated : Role → Policy → IamStorage
  updated r' p' = record { roles = put name r' s.roles; policies = put arn p' s.policies }

  attach-updated :
      IsUnattached s name arn r p n
      → n < 2147483647
      → state (attach_role_policy name arn s) ≡ updated attached (counted (n + 1))
  unfolding attach_role_policy i32_increment
  attach-updated h bound = ground arith

  detach-updated :
      IsUnattached s name arn r p (suc n)
      → state (detach_role_policy name arn s) ≡ updated r (counted n)
  unfolding detach_role_policy i32_decrement_to_zero
  detach-updated h = ground (arith, without-eq_self arn r.attached_policies)

  detach-attached :
      IsUnattached s name arn r p n
      → state (detach_role_policy name arn (updated attached (counted (n + 1)))) ≡ record {
        roles = put name r (put name attached s.roles);
        policies = put arn (counted n) (put arn (counted (n + 1)) s.policies);
      }
  unfolding detach_role_policy i32_decrement_to_zero
  detach-attached h = ground (
    arith,
    get-put name name attached s.roles,
    get-put arn arn (counted (n + 1)) s.policies,
    eq_refl name,
    eq_refl arn,
    without-append_self arn r.attached_policies h.absent,
  )

-- Attaching a policy that the role does not have and detaching it again restores every role and
-- every policy, the attachment count included, unless that count is the largest `i32`.
pub detach-attach :
    (s : IamStorage) (name arn : String) (r : Role) (p : Policy) (n : ℕ)
    → IsUnattached s name arn r p n
    → n < 2147483647
    → let t : IamStorage =
        state (detach_role_policy name arn (state (attach_role_policy name arn s))) in
      ((k : String) → get k t.roles ≡ get k s.roles)
      × ((k : String) → get k t.policies ≡ get k s.policies)
detach-attach s name arn r p n h bound =
    rw (attach-updated s name arn r p n h bound, detach-attached s name arn r p n h)
      (
        λ k. ground (
          arith,
          get-put name k r (put name (attached s name arn r p n) s.roles),
          get-put name k (attached s name arn r p n) s.roles,
          eq_iff name k,
          h.role,
        ),
        λ k. ground (
          arith,
          get-put arn k (counted s name arn r p n n)
              (put arn (counted s name arn r p n (n + 1)) s.policies),
          get-put arn k (counted s name arn r p n (n + 1)) s.policies,
          eq_iff arn k,
          h.policy,
          h.count,
        ),
      )

-- Detaching a policy that the role does not have leaves every role as it is, and still lowers the
-- policy's attachment count when that is positive.
pub detach_unattached :
    (s : IamStorage) (name arn : String) (r : Role) (p : Policy) (n : ℕ)
    → IsUnattached s name arn r p (suc n)
    → let t : IamStorage = state (detach_role_policy name arn s) in
      ((k : String) → get k t.roles ≡ get k s.roles)
      × (get arn t.policies ≡ some (record p { attachment_count = pos n }))
detach_unattached s name arn r p n h = rw (detach-updated s name arn r p n h) (
  λ k. ground (arith, get-put name k r s.roles, eq_iff name k, h.role),
  ground (arith, get-put arn arn (record p { attachment_count = pos n }) s.policies, eq_refl arn),
)
