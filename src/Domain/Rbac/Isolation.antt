-- ===== src/Domain/Rbac/Isolation.antt =====
-- `authorize` and `role_can_apply_at`: the roles of one account reach no other.
use pvlog.Common.{
  ℕ, ◌≡◌, ap, ◌∙◌, true, List, [], ◌∷◌, Option, none, some, lookup, All, Any, inl, inr, arith,
}
use pvlog.Domain.Rbac.{
  Role, Roles, RoleScope, instance_wide, account, system, RoleAssignment, AccessRequest, allowed,
  authorize, role_can_apply_at, account_applies,
}
use pvlog.Domain.Rbac.Decide.{
  Within, in_instance, same_account, in_account, same_system, Justifies, authorize-Justifies,
}

-- The account that a scope lies in.
abbrev pub account_of : RoleScope → Option ℕ
account_of instance_wide = none
account_of (account a) = some a
account_of (system a s) = some a

applies-account :
    (x : ℕ) (o : Option ℕ) (scope : RoleScope)
    → o ≡ some x
    → account_applies o scope ≡ true
    → account_of scope ≡ some x
applies-account x none scope e h = cc
applies-account x (some y) instance_wide e h = cc
applies-account x (some y) (account a) e h = ground arith
applies-account x (some y) (system a s) e h = ground arith

Within-account :
    (x : ℕ) {r s : RoleScope} → Within r s → account_of s ≡ some x → account_of r ≡ some x
Within-account x in_instance h = cc
Within-account x (same_account e) h = ap some e ∙ h
Within-account x (in_account e) h = ap some e ∙ h
Within-account x (same_system e f) h = ap some e ∙ h

-- What an assignment that some request rests on leads to, the property holding of all of them.
Any-All :
    {P Q : RoleAssignment → Type 0} {C : Type 0} (xs : List RoleAssignment)
    → Any P xs
    → All Q xs
    → ((a : RoleAssignment) → P a → Q a → C)
    → C
Any-All [] p q f = absurd p
Any-All (x ∷ xs) (inl p) q f = f x p q.0
Any-All (x ∷ xs) (inr p) q f = Any-All xs p q.1 f

-- The assignment's role, if it is the principal's and names a known one, belongs to the account.
abbrev pub NamesRoleOf : ℕ → Roles → AccessRequest → RoleAssignment → Type 0
NamesRoleOf x roles request a =
    a.principal ≡ request.principal
    → (role : Role) → lookup a.role_id roles ≡ some role
    → role.account_id ≡ some x

-- A principal whose roles all belong to one account is allowed nothing outside that account.
pub account_isolation :
    (x : ℕ) (roles : Roles) (request : AccessRequest)
    → All (NamesRoleOf x roles request) request.assignments
    → authorize roles request ≡ allowed
    → account_of request.scope ≡ some x
account_isolation x roles request bound h =
    Any-All request.assignments ((authorize-Justifies roles request).0 h) bound reach
  where
    reach :
        (a : RoleAssignment)
        → Justifies roles request a
        → NamesRoleOf x roles request a
        → account_of request.scope ≡ some x
    reach a j n = Within-account x j.covers (
        applies-account x j.role.account_id a.scope (n j.same_principal j.role j.known)
          (unfold role_can_apply_at in j.applies))
