-- ===== src/Domain/Rbac/Samples.antt =====
-- The theorems on access control at a concrete snapshot: an administrator of an account, and a role
-- of that account that inherits from the built-in viewer.
use pvlog.Common.{◌≡◌, refl, true, [], ◌∷◌, none, some, ◌↔◌, ◌⊎◌, Any, arith, length, suc, ◌≢◌, err}
use pvlog.Domain.Rbac.{
  system_read, account_read, telemetry_read, telemetry_write, Role, Roles, built_in, custom,
  account_administrator, viewer, user, account, system, RoleAssignment, AccessRequest, allowed,
  authorize, authorize_delegation, effective_permissions, resolve_permissions, holds, out_of_fuel,
  permission_eq, own_permissions, built_in_permissions, resolve_parents, foreign_parent, remove,
  concerns, expired, principal_eq, scope_covers, role_can_apply_at, may, authorize_loop,
}
use pvlog.Domain.Rbac.Inherit.{Grants, effective-Grants}
use pvlog.Domain.Rbac.Cycles.{Ancestor, parent, beyond, effective_cycle}
use pvlog.Domain.Rbac.Decide.{Justifies, authorize-Justifies}
use pvlog.Domain.Rbac.Escalation.{IsKeyed, delegation_never_escalates}
use pvlog.Domain.Rbac.Isolation.{account_of, account_isolation}
use pvlog.Domain.Rbac.Resolve.{effective-ends}

abbrev administrator_role : Role
administrator_role = record {
  id = 1;
  account_id = some 7;
  kind = built_in account_administrator;
  parent_role_ids = [];
  permissions = [];
}

abbrev viewer_role : Role
viewer_role = record {
  id = 2;
  account_id = none;
  kind = built_in viewer;
  parent_role_ids = [];
  permissions = [];
}

abbrev writer_role : Role
writer_role = record {
  id = 3;
  account_id = some 7;
  kind = custom;
  parent_role_ids = 2 ∷ [];
  permissions = telemetry_write ∷ [];
}

abbrev roles : Roles
roles = (1, administrator_role) ∷ (2, viewer_role) ∷ (3, writer_role) ∷ []

-- A pair of roles that inherit from each other.
abbrev looped : Roles
looped =
    (1, record writer_role { id = 1; parent_role_ids = 2 ∷ [] })
    ∷ (2, record writer_role { id = 2; parent_role_ids = 1 ∷ [] })
    ∷ []

abbrev by_administrator : RoleAssignment
by_administrator = record { principal = user 10; role_id = 1; scope = account 7; expires_at = none }

abbrev to_writer : RoleAssignment
to_writer = record { principal = user 11; role_id = 3; scope = system 7 4; expires_at = some 900 }

abbrev reading : AccessRequest
reading = record {
  principal = user 11;
  permission = telemetry_read;
  scope = system 7 4;
  evaluated_at = 500;
  assignments = by_administrator ∷ [];
}

abbrev reading_then : AccessRequest
reading_then = record reading { assignments = to_writer ∷ by_administrator ∷ [] }

writer_permissions :
    effective_permissions roles 3
    ≡ some (telemetry_write ∷ account_read ∷ system_read ∷ telemetry_read ∷ [])
unfolding effective_permissions resolve_permissions resolve_parents own_permissions
    built_in_permissions foreign_parent remove permission_eq
writer_permissions = refl

effective-Grants_example :
    (holds telemetry_read (telemetry_write ∷ account_read ∷ system_read ∷ telemetry_read ∷ [])
      ≡ true)
    ↔ Grants roles telemetry_read 3
effective-Grants_example =
    effective-Grants roles 3 telemetry_read
      (telemetry_write ∷ account_read ∷ system_read ∷ telemetry_read ∷ []) writer_permissions

looped-Ancestor : Ancestor looped 1 1
looped-Ancestor =
    beyond 2 (record writer_role { id = 1; parent_role_ids = 2 ∷ [] }) refl refl
      (parent (record writer_role { id = 2; parent_role_ids = 1 ∷ [] }) refl refl)

effective_cycle_example : effective_permissions looped 1 ≡ none
effective_cycle_example = effective_cycle looped 1 looped-Ancestor

effective-ends_example : resolve_permissions (suc (length looped)) looped 1 [] ≢ err out_of_fuel
effective-ends_example = effective-ends looped 1

authorize-Justifies_example :
    (authorize roles reading_then ≡ allowed)
    ↔ Any (Justifies roles reading_then) reading_then.assignments
authorize-Justifies_example = authorize-Justifies roles reading_then

roles-IsKeyed : IsKeyed roles
roles-IsKeyed k role found = ground arith

writer_delegated :
    authorize_delegation roles (user 10) 3 (system 7 4) 500 (by_administrator ∷ []) ≡ allowed
unfolding authorize_delegation authorize authorize_loop may concerns expired principal_eq
    scope_covers role_can_apply_at effective_permissions resolve_permissions resolve_parents
    own_permissions built_in_permissions foreign_parent remove permission_eq
writer_delegated = refl

writer_reads : authorize roles reading_then ≡ allowed
unfolding authorize authorize_loop concerns expired principal_eq scope_covers role_can_apply_at
    effective_permissions resolve_permissions resolve_parents own_permissions built_in_permissions
    foreign_parent remove permission_eq
writer_reads = refl

delegation_never_escalates_example :
    (authorize roles reading ≡ allowed)
    ⊎ (authorize roles (record reading { principal = user 10 }) ≡ allowed)
delegation_never_escalates_example =
    delegation_never_escalates roles (user 10) to_writer reading roles-IsKeyed writer_delegated
      writer_reads

account_isolation_example : account_of reading_then.scope ≡ some 7
account_isolation_example =
    account_isolation 7 roles reading_then
      ((λ e role found. ground arith), ((λ e role found. ground arith), tt)) writer_reads
