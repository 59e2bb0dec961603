-- ===== src/Iam/Storage/Invariant.antt =====
-- What every sequence of operations keeps of the role and policy store.
use ruststack.Prelude.{
  ℕ, String, ◌≡◌, refl, Bool, Option, some, string_eq, eq_iff, arith, IsDistinct, IsDistinct-append,
  IsDistinct-without, Bool-cases, Option-cases, inl, inr, contains, without, ◌++◌, [], ◌∷◌, true,
  false, if◌then◌else◌,
}
use ruststack.Prelude.Int.{ℤ, i32_increment, i32_decrement_to_zero}
use ruststack.Dict.{get, put, remove, get-put, get-remove}
use ruststack.Result.{state}
use ruststack.Reach.{Reach, Reach_induction}
use ruststack.Iam.Storage.{
  Role, Policy, IamStorage, new, create_role, create_policy, delete_role, delete_policy, attach_to,
  attach_role_policy, detach_from, detach_role_policy, new_role, new_policy, policy_arn_of, recount,
}

-- A role that stands at a name.
abbrev pub RoleIsValid : String → Role → Type 0
RoleIsValid name r = (r.role_name ≡ name) × IsDistinct r.attached_policies

-- Each role is stored at its own name with no policy attached twice, each policy at its own ARN.
pub record IsValid (s : IamStorage) : Type 0 where
  pub roles : (k : String) (r : Role) → get k s.roles ≡ some r → RoleIsValid k r
  pub policies : (k : String) (p : Policy) → get k s.policies ≡ some p → p.arn ≡ k

-- One operation that changes the state, whether it succeeds or not.
pub data Step (s : IamStorage) : IamStorage → Type 0 where
  makes_role :
      (uuid17 : String) (now : ℕ) (name document : String) (description path : Option String)
      → Step s (state (create_role uuid17 now name document description path s))
  drops_role : (name : String) → Step s (state (delete_role name s))
  makes_policy :
      (uuid17 : String) (now : ℕ) (name document : String) (description path : Option String)
      → Step s (state (create_policy uuid17 now name document description path s))
  drops_policy : (arn : String) → Step s (state (delete_policy arn s))
  attaches : (name arn : String) → Step s (state (attach_role_policy name arn s))
  detaches : (name arn : String) → Step s (state (detach_role_policy name arn s))

module _ (s : IamStorage) (v : IsValid s) where
  put_role-IsValid :
      (k : String) (r : Role) → RoleIsValid k r → IsValid (record s { roles = put k r s.roles })
  put_role-IsValid k r h = record {
    roles = λ j x p. ground (arith, get-put k j r s.roles, eq_iff k j, v.roles j x);
    policies = v.policies;
  }

  put_policy-IsValid :
      (k : String) (p : Policy) → p.arn ≡ k → IsValid (record s { policies = put k p s.policies })
  put_policy-IsValid k p h = record {
    roles = v.roles;
    policies = λ j x q. ground (arith, get-put k j p s.policies, eq_iff k j, v.policies j x);
  }

  remove_role-IsValid : (k : String) → IsValid (record s { roles = remove k s.roles })
  remove_role-IsValid k = record {
    roles = λ j x p. ground (arith, get-remove k j s.roles, v.roles j x);
    policies = v.policies;
  }

  remove_policy-IsValid : (k : String) → IsValid (record s { policies = remove k s.policies })
  remove_policy-IsValid k = record {
    roles = v.roles;
    policies = λ j x q. ground (arith, get-remove k j s.policies, v.policies j x);
  }

  recount-IsValid :
      (f : ℤ → ℤ) (arn : String)
      → IsValid (record s { policies = recount f arn s.policies (get arn s.policies) })
  unfolding recount
  recount-IsValid f arn = elim (Option-cases (get arn s.policies)) [
    | inl e ↦ rw e v
    | inr (p, e) ↦ rw e (
        put_policy-IsValid arn (record p { attachment_count = f p.attachment_count })
          (v.policies arn p e))
  ]

attach_to-IsValid :
    (s : IamStorage) (name arn : String) (r : Role)
    → IsValid s
    → RoleIsValid name r
    → IsValid (state (attach_to name arn s (some r)))
unfolding attach_to
attach_to-IsValid s name arn r v h = elim (Bool-cases (contains r.attached_policies arn)) [
  | inl old ↦ rw old v
  | inr fresh ↦
      let r' : Role = record r { attached_policies = r.attached_policies ++ arn ∷ [] } in
      let s' : IamStorage = record s { roles = put name r' s.roles } in
      rw fresh (
        recount-IsValid s'
          (put_role-IsValid s v name r' (h.0, IsDistinct-append arn r.attached_policies fresh h.1))
          i32_increment arn)
]

attach-IsValid :
    (s : IamStorage) (name arn : String)
    → IsValid s
    → IsValid (state (attach_role_policy name arn s))
unfolding attach_role_policy
attach-IsValid s name arn v = elim (Option-cases (get name s.roles)) [
  | inl e ↦ rw e v
  | inr (r, e) ↦ rw e (attach_to-IsValid s name arn r v (v.roles name r e))
]

detach_from-IsValid :
    (s : IamStorage) (name arn : String) (r : Role)
    → IsValid s
    → RoleIsValid name r
    → IsValid (state (detach_from name arn s (some r)))
unfolding detach_from
detach_from-IsValid s name arn r v h =
    let r' : Role = record r { attached_policies = without arn r.attached_policies } in
    let s' : IamStorage = record s { roles = put name r' s.roles } in
    recount-IsValid s'
      (put_role-IsValid s v name r' (h.0, IsDistinct-without arn r.attached_policies h.1))
      i32_decrement_to_zero arn

detach-IsValid :
    (s : IamStorage) (name arn : String)
    → IsValid s
    → IsValid (state (detach_role_policy name arn s))
unfolding detach_role_policy
detach-IsValid s name arn v = elim (Option-cases (get name s.roles)) [
  | inl e ↦ rw e v
  | inr (r, e) ↦ rw e (detach_from-IsValid s name arn r v (v.roles name r e))
]

make-IsValid :
    (b : Bool) (s t : IamStorage) {R : Type 0} (r r' : R)
    → IsValid s
    → IsValid t
    → IsValid (state (if b then (r, s) else (r', t)))
make-IsValid true s t r r' v w = v
make-IsValid false s t r r' v w = w

Step-IsValid : (s t : IamStorage) → Step s t → IsValid s → IsValid t
unfolding create_role create_policy delete_role delete_policy
Step-IsValid s t (makes_role uuid17 now name document description path) v =
    make-IsValid _ s _ _ _ v
      (put_role-IsValid s v name (new_role uuid17 now name document description path) (refl, tt))
Step-IsValid s t (drops_role name) v = make-IsValid _ _ s _ _ (remove_role-IsValid s v name) v
Step-IsValid s t (makes_policy uuid17 now name document description path) v =
    make-IsValid _ s _ _ _ v (
      put_policy-IsValid s v (policy_arn_of uuid17 now name path)
        (new_policy uuid17 now name document description path) refl)
Step-IsValid s t (drops_policy arn) v = make-IsValid _ _ s _ _ (remove_policy-IsValid s v arn) v
Step-IsValid s t (attaches name arn) v = attach-IsValid s name arn v
Step-IsValid s t (detaches name arn) v = detach-IsValid s name arn v

new-IsValid : IsValid new
unfolding get
new-IsValid = record { roles = λ k r p. cc; policies = λ k p q. cc }

-- After any sequence of operations on a new store, each role is stored at its own name with no
-- policy attached twice, and each policy at its own ARN.
pub reached_iam-IsValid : (s : IamStorage) → Reach Step new s → IsValid s
reached_iam-IsValid s r = Reach_induction Step IsValid Step-IsValid new s new-IsValid r
