-- ===== src/Domain/Rbac.antt =====
-- src/crates/domain/src/rbac.rs and the types of identity.rs that it uses: role-based access control.
-- An identifier is a number, a timestamp its epoch milliseconds from any fixed start. A set is a
-- list of which only the members count, and the role snapshot an association list. A role's name,
-- and who made an assignment and when, are left out: no function of the module reads them.
pub mod Resolve
pub mod Inherit
pub mod Cycles
pub mod Decide
pub mod Escalation
pub mod Isolation
mod Samples
use pvlog.Common.{
  ℕ, Bool, true, false, not, ◌&&◌, ◌||◌, List, [], ◌∷◌, ◌++◌, Option, none, some, ◌==◌, leb,
  if◌then◌else◌, contains, lookup, Result, ok, err, ◌>>=◌, ◌>>◌, ok_or, fail_if, zero, suc, length,
  all,
}

pub data Permission : Type 0 where
  instance_read instance_manage account_read account_manage membership_manage : Permission
  role_manage system_read system_manage telemetry_read telemetry_write : Permission
  credential_manage integration_manage audit_read : Permission

-- The position in the declaration, which the derived equality compares.
abbrev pub permission_index : Permission → ℕ
permission_index instance_read = 0
permission_index instance_manage = 1
permission_index account_read = 2
permission_index account_manage = 3
permission_index membership_manage = 4
permission_index role_manage = 5
permission_index system_read = 6
permission_index system_manage = 7
permission_index telemetry_read = 8
permission_index telemetry_write = 9
permission_index credential_manage = 10
permission_index integration_manage = 11
permission_index audit_read = 12

abbrev pub all_permissions : List Permission
all_permissions =
    instance_read ∷ instance_manage ∷ account_read ∷ account_manage ∷ membership_manage
    ∷ role_manage ∷ system_read ∷ system_manage ∷ telemetry_read ∷ telemetry_write
    ∷ credential_manage ∷ integration_manage ∷ audit_read ∷ []

unfoldable pub permission_eq : Permission → Permission → Bool
permission_eq p q = permission_index p == permission_index q

-- `BTreeSet::contains`.
abbrev pub holds : Permission → List Permission → Bool
holds p [] = false
holds p (q ∷ qs) = permission_eq p q || holds p qs

pub data BuiltInRole : Type 0 where
  instance_administrator account_owner account_administrator manager contributor : BuiltInRole
  operator analyst viewer auditor uploader : BuiltInRole

pub data RoleKind : Type 0 where
  built_in : BuiltInRole → RoleKind
  custom : RoleKind

pub record Role : Type 0 where
  pub id : ℕ
  pub account_id : Option ℕ
  pub kind : RoleKind
  pub parent_role_ids : List ℕ
  pub permissions : List Permission

pub data PrincipalId : Type 0 where
  user : ℕ → PrincipalId
  api_credential : ℕ → PrincipalId

-- `RoleScope::{Instance, Account, System}`; the first two fields of a system are in this order.
pub data RoleScope : Type 0 where
  instance_wide : RoleScope
  account : ℕ → RoleScope
  system : ℕ → ℕ → RoleScope

pub record RoleAssignment : Type 0 where
  pub principal : PrincipalId
  pub role_id : ℕ
  pub scope : RoleScope
  pub expires_at : Option ℕ

pub data AccessDenial : Type 0 where
  no_applicable_assignment permission_missing : AccessDenial
  invalid_role_hierarchy delegation_would_escalate : AccessDenial

pub data AccessDecision : Type 0 where
  allowed : AccessDecision
  denied : AccessDenial → AccessDecision

abbrev pub is_allowed : AccessDecision → Bool
is_allowed allowed = true
is_allowed (denied reason) = false

pub record AccessRequest : Type 0 where
  pub principal : PrincipalId
  pub permission : Permission
  pub scope : RoleScope
  pub evaluated_at : ℕ
  pub assignments : List RoleAssignment

abbrev pub Roles : Type 0
Roles = List (ℕ × Role)

unfoldable pub principal_eq : PrincipalId → PrincipalId → Bool
principal_eq (user a) (user b) = a == b
principal_eq (api_credential a) (api_credential b) = a == b
principal_eq _ _ = false

unfoldable pub scope_covers : RoleScope → RoleScope → Bool
scope_covers instance_wide requested = true
scope_covers (account granted) (account requested) = granted == requested
scope_covers (account granted) (system requested s) = granted == requested
scope_covers (system granted s) (system requested t) = (granted == requested) && (s == t)
scope_covers _ _ = false

abbrev pub account_applies : Option ℕ → RoleScope → Bool
account_applies none scope = true
account_applies (some a) instance_wide = false
account_applies (some a) (account b) = a == b
account_applies (some a) (system b s) = a == b

unfoldable pub role_can_apply_at : Role → RoleScope → Bool
role_can_apply_at role scope = account_applies role.account_id scope

-- What the owner and the administrator of an account may do.
abbrev pub account_permissions : List Permission
account_permissions =
    account_read ∷ account_manage ∷ membership_manage ∷ role_manage ∷ system_read ∷ system_manage
    ∷ telemetry_read ∷ telemetry_write ∷ credential_manage ∷ integration_manage ∷ audit_read ∷ []

unfoldable pub built_in_permissions : BuiltInRole → List Permission
built_in_permissions instance_administrator = all_permissions
built_in_permissions account_owner = account_permissions
built_in_permissions account_administrator = account_permissions
built_in_permissions manager =
    account_read ∷ membership_manage ∷ role_manage ∷ system_read ∷ system_manage ∷ telemetry_read
    ∷ telemetry_write ∷ credential_manage ∷ integration_manage ∷ []
built_in_permissions operator =
    account_read ∷ system_read ∷ system_manage ∷ telemetry_read ∷ telemetry_write
    ∷ integration_manage ∷ []
built_in_permissions contributor =
    account_read ∷ system_read ∷ telemetry_read ∷ telemetry_write ∷ []
built_in_permissions uploader = account_read ∷ system_read ∷ telemetry_read ∷ telemetry_write ∷ []
built_in_permissions analyst = account_read ∷ system_read ∷ telemetry_read ∷ []
built_in_permissions viewer = account_read ∷ system_read ∷ telemetry_read ∷ []
built_in_permissions auditor = account_read ∷ system_read ∷ telemetry_read ∷ audit_read ∷ []

-- `None` of the source, and the end of the fuel, which is no outcome of the source.
pub data Failure : Type 0 where
  invalid out_of_fuel : Failure

abbrev pub kind_permissions : RoleKind → List Permission → List Permission
kind_permissions (built_in template) permissions = built_in_permissions template
kind_permissions custom permissions = permissions

unfoldable pub own_permissions : Role → List Permission
own_permissions role = kind_permissions role.kind role.permissions

-- `parent.account_id != role.account_id && parent.account_id.is_some()`.
abbrev pub foreign_account : Option ℕ → Option ℕ → Bool
foreign_account none r = false
foreign_account (some p) none = true
foreign_account (some p) (some r) = not (p == r)

unfoldable pub foreign_parent : Role → Role → Bool
foreign_parent role parent = foreign_account parent.account_id role.account_id

-- `HashSet::remove`.
unfoldable pub remove : ℕ → List ℕ → List ℕ
remove a [] = []
remove a (b ∷ bs) = let rest = remove a bs in if a == b then rest else b ∷ rest

-- The loop over the parents; `resolve` is the recursive call. The set `visiting` is passed on.
unfoldable pub resolve_parents :
    (ℕ → List ℕ → Result Failure (List Permission × List ℕ))
    → Roles
    → Role
    → List ℕ
    → List Permission
    → List ℕ
    → Result Failure (List Permission × List ℕ)
resolve_parents resolve roles role [] permissions visiting = ok (permissions, visiting)
resolve_parents resolve roles role (parent_id ∷ rest) permissions visiting = do
  parent ← ok_or (lookup parent_id roles) invalid
  fail_if (foreign_parent role parent) invalid
  (inherited, visiting') ← resolve parent_id visiting
  resolve_parents resolve roles role rest (permissions ++ inherited) visiting'

unfoldable pub resolve_permissions :
    ℕ → Roles → ℕ → List ℕ → Result Failure (List Permission × List ℕ)
resolve_permissions zero roles role_id visiting = err out_of_fuel
resolve_permissions (suc fuel) roles role_id visiting = do
  fail_if (contains role_id visiting) invalid
  role ← ok_or (lookup role_id roles) invalid
  (permissions, visiting') ←
      resolve_parents (resolve_permissions fuel roles) roles role role.parent_role_ids
        (own_permissions role) (role_id ∷ visiting)
  ok (permissions, remove role_id visiting')

-- One round more than there are roles: each nested call visits another role.
unfoldable pub effective_permissions : Roles → ℕ → Option (List Permission)
effective_permissions roles role_id =
    elim (resolve_permissions (suc (length roles)) roles role_id []) [
      | ok (permissions, visiting) ↦ some permissions
      | err failure ↦ none
    ]

abbrev pub past : Option ℕ → ℕ → Bool
past none now = false
past (some t) now = leb t now

unfoldable pub expired : RoleAssignment → ℕ → Bool
expired a now = past a.expires_at now

-- The assignments that the loop does not skip at once.
unfoldable pub concerns : AccessRequest → RoleAssignment → Bool
concerns request a =
    principal_eq a.principal request.principal
    && not (expired a request.evaluated_at)
    && scope_covers a.scope request.scope

-- The loop over the assignments, with its two flags.
unfoldable pub authorize_loop :
    Roles → AccessRequest → List RoleAssignment → Bool → Bool → AccessDecision
authorize_loop roles request [] applicable invalid_hierarchy =
    if invalid_hierarchy
    then denied invalid_role_hierarchy
    else if applicable
    then denied permission_missing
    else denied no_applicable_assignment
authorize_loop roles request (a ∷ rest) applicable invalid_hierarchy = elim (concerns request a) [
  | false ↦ authorize_loop roles request rest applicable invalid_hierarchy
  | true ↦ elim (lookup a.role_id roles) [
    | none ↦ authorize_loop roles request rest applicable true
    | some role ↦ elim (role_can_apply_at role a.scope) [
      | false ↦ authorize_loop roles request rest applicable invalid_hierarchy
      | true ↦ elim (effective_permissions roles role.id) [
        | none ↦ authorize_loop roles request rest true true
        | some permissions ↦ elim (holds request.permission permissions) [
          | true ↦ allowed
          | false ↦ authorize_loop roles request rest true invalid_hierarchy
        ]
      ]
    ]
  ]
]

unfoldable pub authorize : Roles → AccessRequest → AccessDecision
authorize roles request = authorize_loop roles request request.assignments false false

-- The request for one permission at the delegation's scope.
abbrev pub request_for :
    PrincipalId → Permission → RoleScope → ℕ → List RoleAssignment → AccessRequest
request_for principal permission scope evaluated_at assignments = record {
  principal = principal;
  permission = permission;
  scope = scope;
  evaluated_at = evaluated_at;
  assignments = assignments;
}

-- Whether the granter has one permission at the delegation's scope.
unfoldable pub may : Roles → PrincipalId → RoleScope → ℕ → List RoleAssignment → Permission → Bool
may roles principal scope evaluated_at assignments permission =
    is_allowed (authorize roles (request_for principal permission scope evaluated_at assignments))

unfoldable pub authorize_delegation :
    Roles → PrincipalId → ℕ → RoleScope → ℕ → List RoleAssignment → AccessDecision
authorize_delegation roles principal role_id scope evaluated_at assignments =
    elim (lookup role_id roles) [
      | none ↦ denied invalid_role_hierarchy
      | some role ↦ elim (role_can_apply_at role scope) [
        | false ↦ denied delegation_would_escalate
        | true ↦ elim (effective_permissions roles role_id) [
          | none ↦ denied invalid_role_hierarchy
          | some proposed ↦
              if may roles principal scope evaluated_at assignments role_manage
                && all (may roles principal scope evaluated_at assignments) proposed
              then allowed
              else denied delegation_would_escalate
        ]
      ]
    ]
