-- ===== src/Application/Sessions/Ends.antt =====
-- Who a session lets in, and that logging out ends it.
use pvlog.Common.{
  some_injective, ℕ, ◌≡◌, ◌≢◌, refl, sym, subst, ◌∙◌, inl, inr, Bool, true, false, List, [], ◌∷◌,
  map, Option, none, some, ◌==◌, ==_refl, Bool-cases, Option-cases, All, All-map, ℤ, ◌≤ℤ◌, ok, err,
  arith,
}
use pvlog.Application.Pagination.{bytes_eq}
use pvlog.Application.Sessions.{
  BrowserSessionPolicy, BrowserSessionRecord, invalid_session, of_repository, authenticate,
  revoke_found, logout,
}
use pvlog.Application.Sessions.Table.{
  Table, is_null, coalesce, revoke_row, revoke_session, is_active, active_session, table_repository,
}

pub bytes_eq-eq : (xs ys : List ℕ) → bytes_eq xs ys ≡ true → xs ≡ ys
unfolding bytes_eq
bytes_eq-eq [] [] h = refl
bytes_eq-eq [] (y ∷ ys) h = cc
bytes_eq-eq (x ∷ xs) [] h = cc
bytes_eq-eq (x ∷ xs) (y ∷ ys) h =
    let head : x ≡ y = ground arith in
    let tail = bytes_eq-eq xs ys (ground arith) in rw (head, tail) refl

coalesce-set : (o : Option ℤ) (at : ℤ) → is_null (coalesce o at) ≡ false
coalesce-set none at = refl
coalesce-set (some t) at = refl

-- The digests of the rows differ, as the schema asks.
abbrev pub IsUnique : Table → Type 0
IsUnique [] = Unit {0}
IsUnique (s ∷ table) = All (λ t. t.session_digest ≢ s.session_digest) table × IsUnique table

module _ (user_active : ℕ → Bool) (digest : List ℕ) where
  abbrev Inactive : ℤ → Table → Type 0
  Inactive now = All (λ s. is_active user_active digest now s ≡ false)

  active_session-none :
      (now : ℤ) (table : Table)
      → Inactive now table
      → active_session user_active digest now table ≡ none
  unfolding active_session
  active_session-none now [] h = refl
  active_session-none now (s ∷ table) h = rw h.0 (active_session-none now table h.1)

  none-Inactive :
      (now : ℤ) (table : Table)
      → active_session user_active digest now table ≡ none
      → Inactive now table
  unfolding active_session
  none-Inactive now [] e = tt
  none-Inactive now (s ∷ table) e = elim (Bool-cases (is_active user_active digest now s)) [
    | inl active ↦ cc (rw active at e)
    | inr idle ↦ (idle, none-Inactive now table (rw idle at e))
  ]

  inactive_later :
      (now later : ℤ) (s : BrowserSessionRecord)
      → now ≤ℤ later
      → is_active user_active digest now s ≡ false
      → is_active user_active digest later s ≡ false
  unfolding is_active
  inactive_later now later s h k = ground arith

  revoked_inactive :
      (now at : ℤ) (id : ℕ) (s : BrowserSessionRecord)
      → is_active user_active digest now s ≡ false
      → is_active user_active digest now (revoke_row id at s) ≡ false
  unfolding is_active revoke_row
  revoked_inactive now at id s k = elim (Bool-cases (s.id == id)) [
    | inl own ↦ (let set = coalesce-set s.revoked_at at in rw own (ground arith))
    | inr other ↦ rw other k
  ]

  -- What carries another digest is not active, revoked or not.
  other_digest :
      (now at : ℤ) (id : ℕ) (s : BrowserSessionRecord)
      → s.session_digest ≢ digest
      → is_active user_active digest now (revoke_row id at s) ≡ false
  other_digest now at id s n = revoked_inactive now at id s (unfold is_active in differs)
    where
      unmatched : bytes_eq s.session_digest digest ≡ false
      unmatched = elim (Bool-cases (bytes_eq s.session_digest digest)) [
        | inl same ↦ absurd (n (bytes_eq-eq s.session_digest digest same))
        | inr other ↦ other
      ]

      differs : is_active user_active digest now s ≡ false
      differs = unfold is_active in ground (arith, unmatched)

  revoked_self :
      (now at : ℤ) (s : BrowserSessionRecord)
      → is_active user_active digest now (revoke_row s.id at s) ≡ false
  unfolding is_active revoke_row
  revoked_self now at s = let set = coalesce-set s.revoked_at at in rw (==_refl s.id) (ground arith)

  active-digest :
      (now : ℤ) (s : BrowserSessionRecord)
      → is_active user_active digest now s ≡ true
      → s.session_digest ≡ digest
  unfolding is_active
  active-digest now s h = bytes_eq-eq s.session_digest digest (ground arith)

  revoke-Inactive :
      (now later at : ℤ) (table : Table) (r : BrowserSessionRecord)
      → now ≤ℤ later
      → IsUnique table
      → active_session user_active digest now table ≡ some r
      → Inactive later (revoke_session r.id at table)
  unfolding active_session revoke_session
  revoke-Inactive now later at [] r h u e = tt
  revoke-Inactive now later at (s ∷ table) r h u e =
      elim (Bool-cases (is_active user_active digest now s)) [
        | inl active ↦
            let same : s ≡ r = some_injective s r (rw active at e) in
            let own = active-digest now s active in
            subst (λ x. Inactive later (map (revoke_row x.id at) (s ∷ table))) same
              (revoked_self later at s, others table (All-map (λ t n k. n (k ∙ sym own)) table u.0))
        | inr idle ↦ (
          revoked_inactive later at r.id s (inactive_later now later s h idle),
          revoke-Inactive now later at table r h u.1 (rw idle at e),
        )
      ]
    where
      others :
          (rest : Table)
          → All (λ t. t.session_digest ≢ digest) rest
          → Inactive later (map (revoke_row s.id at) rest)
      others [] n = tt
      others (t ∷ rest) n = (other_digest later at s.id t n.0, others rest n.1)

module _ (user_active : ℕ → Bool) (digest : List ℕ → List ℕ) (policy : BrowserSessionPolicy) where
  authenticate-none :
      (token : List ℕ) (csrf_token : Option (List ℕ)) (state_changing : Bool) (now : ℤ)
      (table : Table)
      → active_session user_active (digest token) now table ≡ none
      → (authenticate
          (table_repository user_active)
          digest
          policy
          token
          csrf_token
          state_changing
          now
          table).0
        ≡ err invalid_session
  unfolding authenticate of_repository table_repository
  authenticate-none token csrf_token state_changing now table h = rw h refl

  -- Over a table whose digests are unique, logging out succeeds, and from then on the session's token is
  -- refused as invalid at every instant that is not before the one at which the session was looked up.
  pub logout-ends :
      (token : List ℕ) (csrf_token : Option (List ℕ)) (state_changing : Bool) (now at later : ℤ)
      (table : Table)
      → IsUnique table
      → now ≤ℤ later
      → ((logout (table_repository user_active) digest policy token now at table).0 ≡ ok tt)
        × ((authenticate
              (table_repository user_active)
              digest
              policy
              token
              csrf_token
              state_changing
              later
              (logout (table_repository user_active) digest policy token now at table).1).0
            ≡ err invalid_session)
  unfolding logout of_repository table_repository revoke_found
  logout-ends token csrf_token state_changing now at later table unique h =
      elim (Option-cases (active_session user_active (digest token) now table)) [
        | inl idle ↦ rw idle (
          refl,
          authenticate-none token csrf_token state_changing later table (
              active_session-none user_active (digest token) later table (
                All-map (λ s k. inactive_later user_active (digest token) now later s h k) table
                  (none-Inactive user_active (digest token) now table idle))),
        )
        | inr (r, active) ↦ rw active (
          refl,
          authenticate-none token csrf_token state_changing later (revoke_session r.id at table) (
              active_session-none user_active (digest token) later (revoke_session r.id at table)
                (revoke-Inactive user_active (digest token) now later at table r h unique active)),
        )
      ]
