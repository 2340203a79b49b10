-- ===== src/Domain/Rbac/Escalation.antt =====
-- `authorize_delegation`: who may hand on a role cannot hand on a permission that they lack.
use pvlog.Common.{
  ℕ, ◌≡◌, refl, ◌∙◌, sym, ap, ◌⊎◌, inl, inr, Bool, true, List, [], ◌∷◌, some, ◌==◌, lookup, all,
  Any-map, arith, subst, Option-cases, if◌then◌else◌,
}
use pvlog.Domain.Rbac.{
  Permission, instance_read, instance_manage, account_read, account_manage, membership_manage,
  role_manage, system_read, system_manage, telemetry_read, telemetry_write, credential_manage,
  integration_manage, audit_read, permission_index, permission_eq, holds, Role, Roles, PrincipalId,
  RoleScope, RoleAssignment, AccessRequest, AccessDecision, allowed, denied, is_allowed,
  effective_permissions, authorize, request_for, may, authorize_delegation,
}
use pvlog.Domain.Rbac.Inherit.{Grants, effective-Grants}
use pvlog.Domain.Rbac.Decide.{
  Within, in_instance, same_account, in_account, same_system, Justifies, authorize-Justifies,
}

permission_of : ℕ → Permission
permission_of i =
    if i == 0
    then instance_read
    else if i == 1
    then instance_manage
    else if i == 2
    then account_read
    else if i == 3
    then account_manage
    else if i == 4
    then membership_manage
    else if i == 5
    then role_manage
    else if i == 6
    then system_read
    else if i == 7
    then system_manage
    else if i == 8
    then telemetry_read
    else if i == 9
    then telemetry_write
    else if i == 10
    then credential_manage
    else if i == 11
    then integration_manage
    else audit_read

permission_of-index : (p : Permission) → permission_of (permission_index p) ≡ p
unfolding permission_of
permission_of-index instance_read = refl
permission_of-index instance_manage = refl
permission_of-index account_read = refl
permission_of-index account_manage = refl
permission_of-index membership_manage = refl
permission_of-index role_manage = refl
permission_of-index system_read = refl
permission_of-index system_manage = refl
permission_of-index telemetry_read = refl
permission_of-index telemetry_write = refl
permission_of-index credential_manage = refl
permission_of-index integration_manage = refl
permission_of-index audit_read = refl

same_index : (m n : ℕ) → (m == n) ≡ true → m ≡ n
same_index m n h = ground arith

permission_eq→eq : (p q : Permission) → permission_eq p q ≡ true → p ≡ q
unfolding permission_eq
permission_eq→eq p q h =
    sym (permission_of-index p)
    ∙ ap permission_of (same_index (permission_index p) (permission_index q) h)
    ∙ permission_of-index q

all-holds :
    (f : Permission → Bool) (p : Permission) (ps : List Permission)
    → all f ps ≡ true
    → holds p ps ≡ true
    → f p ≡ true
all-holds f p [] a h = cc
all-holds f p (q ∷ ps) a h = ground (arith, permission_eq→eq p q, all-holds f p ps)

pub Within-trans : {r s t : RoleScope} → Within r s → Within s t → Within r t
Within-trans v in_instance = in_instance
Within-trans (same_account e) (same_account f) = same_account (e ∙ f)
Within-trans (in_account e) (same_account f) = in_account (e ∙ f)
Within-trans (same_system e g) (in_account f) = in_account (e ∙ f)
Within-trans (same_system e g) (same_system f h) = same_system (e ∙ f) (g ∙ h)

-- What a granted delegation has been checked for.
record Delegated (roles : Roles) (granter : PrincipalId) (role_id : ℕ) (scope : RoleScope) (now : ℕ)
    (assignments : List RoleAssignment) : Type 0 where
  role : Role
  known : lookup role_id roles ≡ some role
  proposed : List Permission
  resolves : effective_permissions roles role_id ≡ some proposed
  holds_all : all (may roles granter scope now assignments) proposed ≡ true

authorize_delegation-Delegated :
    (roles : Roles) (granter : PrincipalId) (role_id : ℕ) (scope : RoleScope) (now : ℕ)
    (assignments : List RoleAssignment)
    → authorize_delegation roles granter role_id scope now assignments ≡ allowed
    → Delegated roles granter role_id scope now assignments
unfolding authorize_delegation
authorize_delegation-Delegated roles granter role_id scope now assignments h =
    elim (Option-cases (lookup role_id roles)) [
      | inl unknown ↦ absurd (ground arith)
      | inr (role, known) ↦ elim (Option-cases (effective_permissions roles role_id)) [
        | inl unresolved ↦ absurd (ground arith)
        | inr (proposed, resolves) ↦ record {
          role = role;
          known = known;
          proposed = proposed;
          resolves = resolves;
          holds_all = ground arith;
        }
      ]
    ]

allowed_of_is_allowed : (d : AccessDecision) → is_allowed d ≡ true → d ≡ allowed
allowed_of_is_allowed allowed h = refl
allowed_of_is_allowed (denied r) h = cc

-- A snapshot's roles stand under their own identifiers.
abbrev pub IsKeyed : Roles → Type 0
IsKeyed roles = (k : ℕ) (role : Role) → lookup k roles ≡ some role → role.id ≡ k

-- Nobody gains by a delegation what the granter lacks: if the assignment of a delegated role lets
-- its holder do something, at any scope, then the holder could do it before, or the granter can.
pub delegation_never_escalates :
    (roles : Roles) (granter : PrincipalId) (given : RoleAssignment) (request : AccessRequest)
    → IsKeyed roles
    → authorize_delegation roles granter given.role_id given.scope request.evaluated_at
        request.assignments
      ≡ allowed
    → authorize roles (record request { assignments = given ∷ request.assignments }) ≡ allowed
    → (authorize roles request ≡ allowed)
      ⊎ (authorize roles (record request { principal = granter }) ≡ allowed)
delegation_never_escalates roles granter given request keyed delegated now_allowed =
    elim ((authorize-Justifies roles
        (record request { assignments = given ∷ request.assignments })).0
      now_allowed) [
        | inl by_given ↦ inr (granter_could by_given)
        | inr by_other ↦ inl (
            (authorize-Justifies roles request).1
              (Any-map (λ a j. same_for_less a j) request.assignments by_other))
      ]
  where
    d : Delegated roles granter given.role_id given.scope request.evaluated_at request.assignments
    d =
        authorize_delegation-Delegated roles granter given.role_id given.scope request.evaluated_at
          request.assignments delegated

    same_for_less :
        (a : RoleAssignment)
        → Justifies roles (record request { assignments = given ∷ request.assignments }) a
        → Justifies roles request a
    same_for_less a j = record {
      same_principal = j.same_principal;
      live = j.live;
      covers = j.covers;
      role = j.role;
      known = j.known;
      applies = j.applies;
      permissions = j.permissions;
      resolves = j.resolves;
      grants = j.grants;
    }

    at_given : AccessRequest
    at_given =
        request_for granter request.permission given.scope request.evaluated_at request.assignments

    widen :
        Within request.scope given.scope
        → (a : RoleAssignment) → Justifies roles at_given a
        → Justifies roles (record request { principal = granter }) a
    widen inside a j = record {
      same_principal = j.same_principal;
      live = j.live;
      covers = Within-trans inside j.covers;
      role = j.role;
      known = j.known;
      applies = j.applies;
      permissions = j.permissions;
      resolves = j.resolves;
      grants = j.grants;
    }

    granter_could :
        Justifies roles (record request { assignments = given ∷ request.assignments }) given
        → authorize roles (record request { principal = granter }) ≡ allowed
    granter_could j =
        let same_id : j.role.id ≡ given.role_id = keyed given.role_id j.role j.known in
        let proposed =
          (effective-Grants roles given.role_id request.permission d.proposed d.resolves).1
            (subst (Grants roles request.permission) same_id j.grants) in
        let granter_may =
          all-holds (may roles granter given.scope request.evaluated_at request.assignments)
            request.permission d.proposed d.holds_all proposed in
        (authorize-Justifies roles (record request { principal = granter })).1 (
          Any-map (widen j.covers) request.assignments (
            (authorize-Justifies roles at_given).0
              (allowed_of_is_allowed _ (unfold may in granter_may))))
