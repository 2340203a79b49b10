-- ===== src/Domain/Rbac/Decide.antt =====
-- `authorize`: a request is allowed exactly when one assignment justifies it.
use pvlog.Common.{
  ℕ, ◌<◌, ◌≡◌, refl, inl, inr, ◌↔◌, Option, Bool, true, false, ◌&&◌, List, [], ◌∷◌, none, some,
  lookup, any, any-Any, Any, arith, Option-cases,
}
use pvlog.Domain.Rbac.{
  Permission, holds, Role, Roles, PrincipalId, user, api_credential, RoleScope, instance_wide,
  account, system, RoleAssignment, AccessRequest, allowed, principal_eq, scope_covers,
  role_can_apply_at, expired, past, concerns, effective_permissions, authorize_loop, authorize,
}
use pvlog.Domain.Rbac.Inherit.{Grants, effective-Grants}

-- A scope that lies within another: anything within the instance, an account and its systems within
-- the account, a system within itself.
pub data Within : RoleScope → RoleScope → Type 0 where
  in_instance : {s : RoleScope} → Within s instance_wide
  same_account : {a b : ℕ} → a ≡ b → Within (account a) (account b)
  in_account : {a b s : ℕ} → a ≡ b → Within (system a s) (account b)
  same_system : {a b s t : ℕ} → a ≡ b → s ≡ t → Within (system a s) (system b t)

pub scope_covers-Within :
    (granted requested : RoleScope)
    → scope_covers granted requested ≡ true
    → Within requested granted
unfolding scope_covers
scope_covers-Within instance_wide requested h = in_instance
scope_covers-Within (account a) instance_wide h = absurd (ground arith)
scope_covers-Within (account a) (account b) h = same_account (ground arith)
scope_covers-Within (account a) (system b t) h = in_account (ground arith)
scope_covers-Within (system a s) instance_wide h = absurd (ground arith)
scope_covers-Within (system a s) (account b) h = absurd (ground arith)
scope_covers-Within (system a s) (system b t) h = same_system (ground arith) (ground arith)

pub Within-scope_covers :
    {granted requested : RoleScope}
    → Within requested granted
    → scope_covers granted requested ≡ true
unfolding scope_covers
Within-scope_covers in_instance = refl
Within-scope_covers (same_account e) = ground arith
Within-scope_covers (in_account e) = ground arith
Within-scope_covers (same_system e f) = ground arith

pub principal_eq→eq : (a b : PrincipalId) → principal_eq a b ≡ true → a ≡ b
unfolding principal_eq
principal_eq→eq (user a) (user b) h = ground arith
principal_eq→eq (user a) (api_credential b) h = cc
principal_eq→eq (api_credential a) (user b) h = cc
principal_eq→eq (api_credential a) (api_credential b) h = ground arith

pub principal_eq_refl : (a : PrincipalId) → principal_eq a a ≡ true
unfolding principal_eq
principal_eq_refl (user a) = ground arith
principal_eq_refl (api_credential a) = ground arith

-- An assignment without an end, or one that ends after the instant.
abbrev pub Live : Option ℕ → ℕ → Type 0
Live none now = Unit {0}
Live (some end) now = now < end

not_past-Live : (end : Option ℕ) (now : ℕ) → past end now ≡ false → Live end now
not_past-Live none now h = tt
not_past-Live (some end) now h = ground arith

Live-not_past : (end : Option ℕ) (now : ℕ) → Live end now → past end now ≡ false
Live-not_past none now h = refl
Live-not_past (some end) now h = ground arith

-- The assignment is the principal's, has not expired, covers the requested scope, and names a known
-- role that applies at its scope, resolves, and grants the permission.
pub record Justifies (roles : Roles) (request : AccessRequest) (a : RoleAssignment) : Type 0 where
  pub same_principal : a.principal ≡ request.principal
  pub live : Live a.expires_at request.evaluated_at
  pub covers : Within request.scope a.scope
  pub role : Role
  pub known : lookup a.role_id roles ≡ some role
  pub applies : role_can_apply_at role a.scope ≡ true
  pub permissions : List Permission
  pub resolves : effective_permissions roles role.id ≡ some permissions
  pub grants : Grants roles request.permission role.id

-- The tests that the loop makes on one assignment before it returns `Allowed`.
abbrev justifies : Roles → AccessRequest → RoleAssignment → Bool
justifies roles request a = concerns request a && (elim (lookup a.role_id roles) [
  | none ↦ false
  | some role ↦ role_can_apply_at role a.scope && (elim (effective_permissions roles role.id) [
    | none ↦ false
    | some permissions ↦ holds request.permission permissions
  ])
])

authorize_loop-justifies :
    (roles : Roles) (request : AccessRequest) (rest : List RoleAssignment) (f g : Bool)
    → (authorize_loop roles request rest f g ≡ allowed)
      ↔ (any (justifies roles request) rest ≡ true)
unfolding authorize_loop
authorize_loop-justifies roles request [] f g = ((λ h. ground arith), (λ h. ground arith))
authorize_loop-justifies roles request (a ∷ rest) f g =
    let skipped = authorize_loop-justifies roles request rest f g in
    let unknown = authorize_loop-justifies roles request rest f true in
    let unresolved = authorize_loop-justifies roles request rest true true in
    let missing = authorize_loop-justifies roles request rest true g in
    (
      (λ h. ground (arith, skipped.0, unknown.0, unresolved.0, missing.0)),
      (λ h. ground (arith, skipped.1, unknown.1, unresolved.1, missing.1)),
    )

concerns_tests :
    (request : AccessRequest) (a : RoleAssignment)
    → concerns request a ≡ true
    → (principal_eq a.principal request.principal ≡ true)
      × (past a.expires_at request.evaluated_at ≡ false)
      × (scope_covers a.scope request.scope ≡ true)
unfolding concerns expired
concerns_tests request a h = ground arith

justifies→Justifies :
    (roles : Roles) (request : AccessRequest) (a : RoleAssignment)
    → justifies roles request a ≡ true
    → Justifies roles request a
justifies→Justifies roles request a h = elim (Option-cases (lookup a.role_id roles)) [
  | inl unknown ↦ absurd (ground arith)
  | inr (role, known) ↦ elim (Option-cases (effective_permissions roles role.id)) [
    | inl unresolved ↦ absurd (ground arith)
    | inr (permissions, resolves) ↦
        let (same, live, covers) = concerns_tests request a (ground arith) in
        record {
          same_principal = principal_eq→eq a.principal request.principal same;
          live = not_past-Live a.expires_at request.evaluated_at live;
          covers = scope_covers-Within a.scope request.scope covers;
          role = role;
          known = known;
          applies = ground arith;
          permissions = permissions;
          resolves = resolves;
          grants =
              (effective-Grants roles role.id request.permission permissions resolves).0
                (ground arith);
        }
  ]
]

Justifies→justifies :
    (roles : Roles) (request : AccessRequest) (a : RoleAssignment)
    → Justifies roles request a
    → justifies roles request a ≡ true
unfolding concerns expired
Justifies→justifies roles request a j = ground (
  arith,
  j.same_principal,
  principal_eq_refl request.principal,
  Live-not_past a.expires_at request.evaluated_at j.live,
  Within-scope_covers j.covers,
  j.known,
  j.applies,
  j.resolves,
  (effective-Grants roles j.role.id request.permission j.permissions j.resolves).1 j.grants,
)

-- A request is allowed exactly when some assignment justifies it.
pub authorize-Justifies :
    (roles : Roles) (request : AccessRequest)
    → (authorize roles request ≡ allowed) ↔ Any (Justifies roles request) request.assignments
unfolding authorize
authorize-Justifies roles request =
    let loop = authorize_loop-justifies roles request request.assignments false false in
    let found =
      any-Any (justifies roles request) (Justifies roles request)
        (λ a. (justifies→Justifies roles request a, Justifies→justifies roles request a))
        request.assignments in
    ((λ h. found.0 (loop.0 h)), (λ h. loop.1 (found.1 h)))
