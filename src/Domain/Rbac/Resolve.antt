-- ===== src/Domain/Rbac/Resolve.antt =====
-- Resolving a role's permissions through its parents: it ends, leaves the set of visited roles as it
-- was, and gives exactly the permissions of the roles that are inherited from.
use pvlog.Common.{
  ℕ, zero, suc, ◌≤◌, ◌<◌, ◌≡◌, ◌≢◌, refl, ◌∙◌, sym, inl, inr, false, List, [], ◌∷◌, some,
  if◌then◌else◌, contains, lookup, length, arith, subst, Result, ok, err, ok_or, fail_if, >>=-eq-ok,
  ok_or-eq-ok, fail_if-eq-ok, Bool-cases, Option-cases, Result-cases, >>=-ne-err,
}
use pvlog.Domain.Rbac.{
  Permission, Role, Roles, Failure, invalid, out_of_fuel, own_permissions, foreign_parent, remove,
  resolve_parents, resolve_permissions,
}

abbrev pub Resolver : Type 0
Resolver = ℕ → List ℕ → Result Failure (List Permission × List ℕ)

remove_absent : (a : ℕ) (bs : List ℕ) → contains a bs ≡ false → remove a bs ≡ bs
unfolding remove
remove_absent a [] h = refl
remove_absent a (b ∷ bs) h = ground (arith, remove_absent a bs)

remove_head : (a : ℕ) (bs : List ℕ) → contains a bs ≡ false → remove a (a ∷ bs) ≡ bs
unfolding remove
remove_head a bs h = ground (arith, remove_absent a bs h)

-- A resolver that leaves the visited set as it was.
abbrev pub Restores : Resolver → Type 0
Restores resolve =
    (id : ℕ) (v : List ℕ) (r : List Permission × List ℕ) → resolve id v ≡ ok r → r.1 ≡ v

resolve_parents-Restores :
    (resolve : Resolver)
    → Restores resolve
    → (roles : Roles) (role : Role) (parents : List ℕ) (permissions : List Permission) (v : List ℕ)
      (r : List Permission × List ℕ)
    → resolve_parents resolve roles role parents permissions v ≡ ok r
    → r.1 ≡ v
unfolding resolve_parents
resolve_parents-Restores resolve restores roles role [] permissions v r e = ground arith
resolve_parents-Restores resolve restores roles role (p ∷ rest) permissions v r e =
    let (parent, e1, e2) = ok_or-eq-ok (lookup p roles) invalid _ e in
    let (own, e3) = fail_if-eq-ok (foreign_parent role parent) invalid _ e2 in
    let (q, eq, e4) = >>=-eq-ok (resolve p v) _ e3 in
    resolve_parents-Restores resolve restores roles role rest _ q.1 r e4 ∙ restores p v q eq

-- One call of `resolve_permissions` that succeeds, taken apart.
pub record Resolved (fuel : ℕ) (roles : Roles) (id : ℕ) (v : List ℕ) (r : List Permission × List ℕ)
    : Type 0 where
  pub new : contains id v ≡ false
  pub role : Role
  pub found : lookup id roles ≡ some role
  pub inner : List Permission × List ℕ
  pub parents :
      resolve_parents
        (resolve_permissions fuel roles)
        roles
        role
        role.parent_role_ids
        (own_permissions role)
        (id ∷ v)
      ≡ ok inner
  pub result : r ≡ (inner.0, remove id inner.1)

pub resolve_permissions-Resolved :
    (fuel : ℕ) (roles : Roles) (id : ℕ) (v : List ℕ) (r : List Permission × List ℕ)
    → resolve_permissions (suc fuel) roles id v ≡ ok r
    → Resolved fuel roles id v r
unfolding resolve_permissions
resolve_permissions-Resolved fuel roles id v r e =
    let (new, e1) = fail_if-eq-ok (contains id v) invalid _ e in
    let (role, found, e2) = ok_or-eq-ok (lookup id roles) invalid _ e1 in
    let (inner, parents, e3) =
      >>=-eq-ok
        (resolve_parents (resolve_permissions fuel roles) roles role role.parent_role_ids
          (own_permissions role) (id ∷ v))
        _ e2 in
    record {
      new = new;
      role = role;
      found = found;
      inner = inner;
      parents = parents;
      result = ground arith;
    }

pub resolve_permissions-Restores :
    (fuel : ℕ) (roles : Roles) → Restores (resolve_permissions fuel roles)
resolve_permissions-Restores zero roles id v r e = unfold resolve_permissions in cc
resolve_permissions-Restores (suc fuel) roles id v r e =
    let c = resolve_permissions-Resolved fuel roles id v r e in
    let same =
      resolve_parents-Restores (resolve_permissions fuel roles)
        (resolve_permissions-Restores fuel roles) roles c.role c.role.parent_role_ids
        (own_permissions c.role) (id ∷ v) c.inner c.parents in
    rw (c.result, same) (remove_head id v c.new)

-- The roles that have not been visited.
pub unvisited : Roles → List ℕ → ℕ
unvisited [] v = 0
unvisited ((k, role) ∷ roles) v =
    if contains k v then unvisited roles v else suc (unvisited roles v)

unvisited_mono :
    (roles : Roles) (id : ℕ) (v : List ℕ) → unvisited roles (id ∷ v) ≤ unvisited roles v
unfolding unvisited
unvisited_mono [] id v = omega arith
unvisited_mono ((k, role) ∷ roles) id v = ground (arith, unvisited_mono roles id v)

unvisited-lt :
    (roles : Roles) (id : ℕ) (v : List ℕ) (role : Role)
    → lookup id roles ≡ some role
    → contains id v ≡ false
    → unvisited roles (id ∷ v) < unvisited roles v
unfolding unvisited
unvisited-lt [] id v role e h = cc
unvisited-lt ((k, other) ∷ roles) id v role e h =
    ground (arith, unvisited-lt roles id v role, unvisited_mono roles id v)

unvisited-le-length : (roles : Roles) (v : List ℕ) → unvisited roles v ≤ length roles
unfolding unvisited
unvisited-le-length [] v = omega arith
unvisited-le-length ((k, role) ∷ roles) v = ground (arith, unvisited-le-length roles v)

resolve_parents-ne-out_of_fuel :
    (resolve : Resolver)
    → Restores resolve
    → (roles : Roles) (role : Role) (parents : List ℕ) (permissions : List Permission) (v : List ℕ)
    → ((id : ℕ) → resolve id v ≢ err out_of_fuel)
    → resolve_parents resolve roles role parents permissions v ≢ err out_of_fuel
unfolding resolve_parents
resolve_parents-ne-out_of_fuel resolve restores roles role [] permissions v h = λ e. cc
resolve_parents-ne-out_of_fuel resolve restores roles role (p ∷ rest) permissions v h =
    >>=-ne-err (ok_or (lookup p roles) invalid) _ out_of_fuel (λ e. ground arith)
      λ parent.
        >>=-ne-err (fail_if (foreign_parent role parent) invalid) _ out_of_fuel (λ e. ground arith)
          λ _. elim (Result-cases (resolve p v)) [
            | inl (q, eq) ↦ rw eq (
                resolve_parents-ne-out_of_fuel resolve restores roles role rest _ q.1 (
                  subst (λ w. (id : ℕ) → resolve id w ≢ err out_of_fuel) (sym (restores p v q eq))
                    h))
            | inr (x, ex) ↦ rw ex (λ e. h p (cc))
          ]

resolve_step-ne-out_of_fuel :
    (fuel : ℕ) (roles : Roles) (id : ℕ) (v : List ℕ)
    → ((role : Role)
        → lookup id roles ≡ some role
        → contains id v ≡ false
        → (p : ℕ) → resolve_permissions fuel roles p (id ∷ v) ≢ err out_of_fuel)
    → resolve_permissions (suc fuel) roles id v ≢ err out_of_fuel
unfolding resolve_permissions
resolve_step-ne-out_of_fuel fuel roles id v h = elim (Bool-cases (contains id v)) [
  | inl seen ↦ rw seen (λ e. cc)
  | inr new ↦ elim (Option-cases (lookup id roles)) [
    | inl missing ↦ rw (new, missing) (λ e. cc)
    | inr (role, found) ↦
        rw (new, found)
          (>>=-ne-err
            (resolve_parents (resolve_permissions fuel roles) roles role role.parent_role_ids
              (own_permissions role) (id ∷ v))
            _ out_of_fuel
            (resolve_parents-ne-out_of_fuel (resolve_permissions fuel roles)
              (resolve_permissions-Restores fuel roles) roles role role.parent_role_ids
              (own_permissions role) (id ∷ v) (h role found new))
            (λ r e. cc))
  ]
]

-- With more fuel than unvisited roles the recursion ends by itself.
pub resolve_permissions-ne-out_of_fuel :
    (fuel : ℕ) (roles : Roles) (id : ℕ) (v : List ℕ)
    → unvisited roles v < fuel
    → resolve_permissions fuel roles id v ≢ err out_of_fuel
resolve_permissions-ne-out_of_fuel zero roles id v h = absurd (omega arith)
resolve_permissions-ne-out_of_fuel (suc fuel) roles id v h =
    resolve_step-ne-out_of_fuel fuel roles id v λ role found new p.
      resolve_permissions-ne-out_of_fuel fuel roles p (id ∷ v)
        (omega (arith, unvisited-lt roles id v role found new))

-- The permissions of a role are always found, or found to be invalid, within the fuel.
pub effective-ends :
    (roles : Roles) (id : ℕ)
    → resolve_permissions (suc (length roles)) roles id [] ≢ err out_of_fuel
effective-ends roles id =
    resolve_permissions-ne-out_of_fuel (suc (length roles)) roles id []
      (omega (arith, unvisited-le-length roles []))
