-- ===== src/Domain/Rbac/Inherit.antt =====
-- The permissions that resolving collects are exactly those of the roles that are inherited from.
use pvlog.Common.{
  ℕ, zero, suc, ◌≡◌, refl, sym, ◌⊎◌, inl, inr, Bool, true, false, ◌||◌, List, [], ◌∷◌, ◌++◌, some,
  contains, lookup, length, subst, arith, ok, >>=-eq-ok, ok_or-eq-ok, fail_if-eq-ok, Result-cases,
  ◌↔◌,
}
use pvlog.Domain.Rbac.{
  Permission, holds, Role, Roles, invalid, own_permissions, foreign_parent, resolve_parents,
  resolve_permissions, effective_permissions,
}
use pvlog.Domain.Rbac.Resolve.{
  Resolver, Restores, resolve_permissions-Resolved, resolve_permissions-Restores,
}

-- A role grants a permission that is its own or that a parent grants. A parent is a known role, of
-- the same account or of none.
pub data Grants (roles : Roles) (p : Permission) : ℕ → Type 0 where
  own :
      {id : ℕ} (role : Role)
      → lookup id roles ≡ some role
      → holds p (own_permissions role) ≡ true
      → Grants roles p id
  inherited :
      {id : ℕ} (role : Role) (parent_id : ℕ) (parent : Role)
      → lookup id roles ≡ some role
      → contains parent_id role.parent_role_ids ≡ true
      → lookup parent_id roles ≡ some parent
      → foreign_parent role parent ≡ false
      → Grants roles p parent_id
      → Grants roles p id

holds-append :
    (p : Permission) (xs ys : List Permission) → holds p (xs ++ ys) ≡ (holds p xs || holds p ys)
holds-append p [] ys = refl
holds-append p (x ∷ xs) ys = ground (arith, holds-append p xs ys)

-- Where a permission of the parents' loop comes from.
data Source (resolve : Resolver) (roles : Roles) (role : Role) (p : Permission) (parents : List ℕ)
    (permissions : List Permission) : Type 0 where
  before : holds p permissions ≡ true → Source resolve roles role p parents permissions
  from_parent :
      (parent_id : ℕ) (parent : Role) (v : List ℕ) (r : List Permission × List ℕ)
      → contains parent_id parents ≡ true
      → lookup parent_id roles ≡ some parent
      → foreign_parent role parent ≡ false
      → resolve parent_id v ≡ ok r
      → holds p r.0 ≡ true
      → Source resolve roles role p parents permissions

Source-later :
    (resolve : Resolver) (roles : Roles) (role : Role) (p : Permission) (id : ℕ) (parent : Role)
    (v : List ℕ) (q : List Permission × List ℕ) (rest : List ℕ) (permissions : List Permission)
    → lookup id roles ≡ some parent
    → foreign_parent role parent ≡ false
    → resolve id v ≡ ok q
    → Source resolve roles role p rest (permissions ++ q.0)
    → Source resolve roles role p (id ∷ rest) permissions
Source-later resolve roles role p id parent v q rest permissions found own_account e (before h) =
    elim (Bool-or (holds p permissions) (holds p q.0) (rw (holds-append p permissions q.0) at h)) [
      | inl old ↦ before old
      | inr new ↦ from_parent id parent v q (ground arith) found own_account e new
    ]
  where
    Bool-or : (a b : Bool) → (a || b) ≡ true → (a ≡ true) ⊎ (b ≡ true)
    Bool-or a b h = ground arith
Source-later resolve roles role p id parent v q rest permissions found own_account e
      (from_parent i r w s c l f er h) =
    from_parent i r w s (ground arith) l f er h

resolve_parents-Source :
    (resolve : Resolver) (roles : Roles) (role : Role) (p : Permission) (parents : List ℕ)
    (permissions : List Permission) (v : List ℕ) (r : List Permission × List ℕ)
    → resolve_parents resolve roles role parents permissions v ≡ ok r
    → holds p r.0 ≡ true
    → Source resolve roles role p parents permissions
unfolding resolve_parents
resolve_parents-Source resolve roles role p [] permissions v r e h = before (ground arith)
resolve_parents-Source resolve roles role p (id ∷ rest) permissions v r e h =
    let (parent, found, e2) = ok_or-eq-ok (lookup id roles) invalid _ e in
    let (same, e3) = fail_if-eq-ok (foreign_parent role parent) invalid _ e2 in
    let (q, eq, e4) = >>=-eq-ok (resolve id v) _ e3 in
    Source-later resolve roles role p id parent v q rest permissions found same eq
      (resolve_parents-Source resolve roles role p rest _ q.1 r e4 h)

-- Every permission that is collected is granted.
resolve-Grants :
    (fuel : ℕ) (roles : Roles) (p : Permission) (id : ℕ) (v : List ℕ) (r : List Permission × List ℕ)
    → resolve_permissions fuel roles id v ≡ ok r
    → holds p r.0 ≡ true
    → Grants roles p id
resolve-Grants zero roles p id v r e h = unfold resolve_permissions in cc
resolve-Grants (suc fuel) roles p id v r e h =
    let c = resolve_permissions-Resolved fuel roles id v r e in
    elim (resolve_parents-Source (resolve_permissions fuel roles) roles c.role p
      c.role.parent_role_ids (own_permissions c.role) (id ∷ v) c.inner c.parents
      (ground (arith, c.result))) [
        | before mine ↦ own c.role c.found mine
        | from_parent i parent w q member found same eq hq ↦
            inherited c.role i parent c.found member found same
              (resolve-Grants fuel roles p i w q eq hq)
      ]

-- Every parent's permissions are in the result, and so are those from before.
resolve_parents_keeps :
    (resolve : Resolver) (roles : Roles) (role : Role) (p : Permission) (parents : List ℕ)
    (permissions : List Permission) (v : List ℕ) (r : List Permission × List ℕ)
    → resolve_parents resolve roles role parents permissions v ≡ ok r
    → holds p permissions ≡ true
    → holds p r.0 ≡ true
unfolding resolve_parents
resolve_parents_keeps resolve roles role p [] permissions v r e h = ground arith
resolve_parents_keeps resolve roles role p (id ∷ rest) permissions v r e h =
    let (parent, found, e2) = ok_or-eq-ok (lookup id roles) invalid _ e in
    let (same, e3) = fail_if-eq-ok (foreign_parent role parent) invalid _ e2 in
    let (q, eq, e4) = >>=-eq-ok (resolve id v) _ e3 in
    resolve_parents_keeps resolve roles role p rest _ q.1 r e4
      (rw (holds-append p permissions q.0) (ground arith))

pub resolve_parents_collects :
    (resolve : Resolver)
    → Restores resolve
    → (roles : Roles) (role : Role) (p : Permission) (parents : List ℕ)
      (permissions : List Permission) (v : List ℕ) (r : List Permission × List ℕ) (i : ℕ)
    → resolve_parents resolve roles role parents permissions v ≡ ok r
    → contains i parents ≡ true
    → (q : List Permission × List ℕ) × (resolve i v ≡ ok q)
      × (holds p q.0 ≡ true → holds p r.0 ≡ true)
unfolding resolve_parents
resolve_parents_collects resolve restores roles role p [] permissions v r i e m = cc
resolve_parents_collects resolve restores roles role p (id ∷ rest) permissions v r i e m =
    let (parent, found, e2) = ok_or-eq-ok (lookup id roles) invalid _ e in
    let (same, e3) = fail_if-eq-ok (foreign_parent role parent) invalid _ e2 in
    let (q, eq, e4) = >>=-eq-ok (resolve id v) _ e3 in
    elim (head_or_rest m) [
      | inl here ↦ (
        q,
        subst (λ j. resolve j v ≡ ok q) (sym here) eq,
        λ h.
            resolve_parents_keeps resolve roles role p rest _ q.1 r e4
              (rw (holds-append p permissions q.0) (ground arith)),
      )
      | inr later ↦
          let (q', eq', keeps) =
            resolve_parents_collects resolve restores roles role p rest _ q.1 r i e4 later in
          (q', subst (λ w. resolve i w ≡ ok q') (restores id v q eq) eq', keeps)
    ]
  where
    head_or_rest : contains i (id ∷ rest) ≡ true → (i ≡ id) ⊎ (contains i rest ≡ true)
    head_or_rest h = ground arith

-- Every permission that is granted is collected.
Grants-resolve :
    (fuel : ℕ) (roles : Roles) (p : Permission) (id : ℕ) (v : List ℕ) (r : List Permission × List ℕ)
    → resolve_permissions fuel roles id v ≡ ok r
    → Grants roles p id
    → holds p r.0 ≡ true
Grants-resolve zero roles p id v r e g = unfold resolve_permissions in cc
Grants-resolve (suc fuel) roles p id v r e (own role found h) =
    let c = resolve_permissions-Resolved fuel roles id v r e in
    let same : c.role ≡ role = ground (arith, c.found) in
    rw c.result (
      resolve_parents_keeps (resolve_permissions fuel roles) roles c.role p c.role.parent_role_ids
        (own_permissions c.role) (id ∷ v) c.inner c.parents (rw same h))
Grants-resolve (suc fuel) roles p id v r e (inherited role i parent found member _ _ g) =
    let c = resolve_permissions-Resolved fuel roles id v r e in
    let same : c.role ≡ role = ground (arith, c.found) in
    let (q, eq, keeps) =
      resolve_parents_collects (resolve_permissions fuel roles)
        (resolve_permissions-Restores fuel roles) roles c.role p c.role.parent_role_ids
        (own_permissions c.role) (id ∷ v) c.inner i c.parents (rw same member) in
    rw c.result (keeps (Grants-resolve fuel roles p i (id ∷ v) q eq g))

pub effective-resolve :
    (roles : Roles) (id : ℕ) {ps : List Permission}
    → effective_permissions roles id ≡ some ps
    → (r : List Permission × List ℕ) × (resolve_permissions (suc (length roles)) roles id [] ≡ ok r)
      × (r.0 ≡ ps)
unfolding effective_permissions
effective-resolve roles id {ps} e =
    elim (Result-cases (resolve_permissions (suc (length roles)) roles id [])) [
      | inl (r, er) ↦ (r, er, ground arith)
      | inr (x, ex) ↦ absurd (ground arith)
    ]

-- Where a role's permissions can be resolved, they are exactly the permissions that the role or a
-- role that it inherits from has of its own, each parent being of the child's account or of none.
pub effective-Grants :
    (roles : Roles) (id : ℕ) (p : Permission) (ps : List Permission)
    → effective_permissions roles id ≡ some ps
    → (holds p ps ≡ true) ↔ Grants roles p id
effective-Grants roles id p ps e =
    let (r, er, same) = effective-resolve roles id e in
    (
      (λ h. resolve-Grants (suc (length roles)) roles p id [] r er (rw same h)),
      (λ g. rw (← same) (Grants-resolve (suc (length roles)) roles p id [] r er g)),
    )
