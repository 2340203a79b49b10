-- ===== src/Domain/Rbac/Cycles.antt =====
-- A role that inherits from itself.
use pvlog.Common.{
  ℕ, zero, suc, ◌≡◌, inl, inr, true, false, List, [], ◌∷◌, none, some, contains, lookup, length,
  arith, ok, Option-cases,
}
use pvlog.Domain.Rbac.{
  Permission, account_read, Role, Roles, own_permissions, resolve_permissions,
  effective_permissions,
}
use pvlog.Domain.Rbac.Resolve.{resolve_permissions-Resolved, resolve_permissions-Restores}
use pvlog.Domain.Rbac.Inherit.{resolve_parents_collects, effective-resolve}

contains_tail : (j i : ℕ) (v : List ℕ) → contains j (i ∷ v) ≡ false → contains j v ≡ false
contains_tail j i v h = ground arith

resolve_unvisited :
    (fuel : ℕ) (roles : Roles) (id : ℕ) (v : List ℕ) (r : List Permission × List ℕ)
    → resolve_permissions fuel roles id v ≡ ok r
    → contains id v ≡ false
resolve_unvisited zero roles id v r e = unfold resolve_permissions in cc
resolve_unvisited (suc fuel) roles id v r e = (resolve_permissions-Resolved fuel roles id v r e).new

-- The roles above a role, by one parent link or more.
pub data Ancestor (roles : Roles) : ℕ → ℕ → Type 0 where
  parent :
      {id i : ℕ} (role : Role)
      → lookup id roles ≡ some role
      → contains i role.parent_role_ids ≡ true
      → Ancestor roles id i
  beyond :
      {id j : ℕ} (i : ℕ) (role : Role)
      → lookup id roles ≡ some role
      → contains i role.parent_role_ids ≡ true
      → Ancestor roles i j
      → Ancestor roles id j

-- No role above one that resolves is among the visited ones.
Ancestor-unvisited :
    (fuel : ℕ) (roles : Roles) (id j : ℕ) (v : List ℕ) (r : List Permission × List ℕ)
    → resolve_permissions fuel roles id v ≡ ok r
    → Ancestor roles id j
    → contains j (id ∷ v) ≡ false
Ancestor-unvisited zero roles id j v r e a = unfold resolve_permissions in cc
Ancestor-unvisited (suc fuel) roles id j v r e (parent role found member) =
    let c = resolve_permissions-Resolved fuel roles id v r e in
    let same : c.role ≡ role = ground (arith, c.found) in
    let (q, eq, _) =
      resolve_parents_collects (resolve_permissions fuel roles)
        (resolve_permissions-Restores fuel roles) roles c.role account_read c.role.parent_role_ids
        (own_permissions c.role) (id ∷ v) c.inner j c.parents (rw same member) in
    resolve_unvisited fuel roles j (id ∷ v) q eq
Ancestor-unvisited (suc fuel) roles id j v r e (beyond i role found member a) =
    let c = resolve_permissions-Resolved fuel roles id v r e in
    let same : c.role ≡ role = ground (arith, c.found) in
    let (q, eq, _) =
      resolve_parents_collects (resolve_permissions fuel roles)
        (resolve_permissions-Restores fuel roles) roles c.role account_read c.role.parent_role_ids
        (own_permissions c.role) (id ∷ v) c.inner i c.parents (rw same member) in
    contains_tail j i (id ∷ v) (Ancestor-unvisited fuel roles i j (id ∷ v) q eq a)

-- A role that inherits from itself, however far up, has no effective permissions.
pub effective_cycle :
    (roles : Roles) (id : ℕ) → Ancestor roles id id → effective_permissions roles id ≡ none
effective_cycle roles id a = elim (Option-cases (effective_permissions roles id)) [
  | inl invalid_there ↦ invalid_there
  | inr (ps, e) ↦
      let (r, er, same) = effective-resolve roles id e in
      absurd (ground (arith, Ancestor-unvisited (suc (length roles)) roles id id [] r er a))
]
