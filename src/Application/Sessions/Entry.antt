-- ===== src/Application/Sessions/Entry.antt =====
-- Whom a session lets in.
use pvlog.Common.{
  ℕ, ◌≡◌, refl, sym, subst, ◌⊎◌, inl, inr, Bool, true, false, not, ◌&&◌, List, [], ◌∷◌, length,
  Option, none, some, Bool-cases, All, Any, ℤ, ◌<ℤ◌, ok, ok_or, ok_or-ok, fail_if, fail_if-passed,
  ok_injective, some_injective, arith,
}
use pvlog.Common.Stateful.{and_then-eq-ok}
use pvlog.Application.Pagination.Hex.{difference_from-eq-zero}
use pvlog.Application.Sessions.{
  BrowserSessionPolicy, BrowserSessionRecord, invalid_session, invalid_csrf, constant_time_eq,
  of_repository, proves, authenticate,
}
use pvlog.Application.Sessions.Table.{Table, is_null, is_active, active_session, table_repository}
use pvlog.Application.Sessions.Ends.{bytes_eq-eq}

-- The session is a row of the table: of an active user, with the token's digest, not revoked, not expired.
pub record IsLive (user_active : ℕ → Bool) (digest : List ℕ) (now : ℤ) (table : Table)
    (s : BrowserSessionRecord) : Type 0 where
  pub row : Any (λ t. t ≡ s) table
  pub user : user_active s.user_id ≡ true
  pub own : s.session_digest ≡ digest
  pub unrevoked : s.revoked_at ≡ none
  pub not_idle : now <ℤ s.idle_expires_at
  pub not_over : now <ℤ s.absolute_expires_at

null-none : (o : Option ℤ) → is_null o ≡ true → o ≡ none
null-none none h = refl
null-none (some at) h = cc

active-IsLive :
    (user_active : ℕ → Bool) (digest : List ℕ) (now : ℤ) (s : BrowserSessionRecord) (table : Table)
    → is_active user_active digest now s ≡ true
    → Any (λ t. t ≡ s) table
    → IsLive user_active digest now table s
unfolding is_active
active-IsLive user_active digest now s table h there = record {
  row = there;
  user = ground arith;
  own = bytes_eq-eq s.session_digest digest (ground arith);
  unrevoked = null-none s.revoked_at (ground arith);
  not_idle = ground arith;
  not_over = ground arith;
}

later_row :
    (user_active : ℕ → Bool) (digest : List ℕ) (now : ℤ) (s t : BrowserSessionRecord)
    (table : Table)
    → IsLive user_active digest now table s
    → IsLive user_active digest now (t ∷ table) s
later_row user_active digest now s t table l = record {
  row = inr l.row;
  user = l.user;
  own = l.own;
  unrevoked = l.unrevoked;
  not_idle = l.not_idle;
  not_over = l.not_over;
}

active_session-IsLive :
    (user_active : ℕ → Bool) (digest : List ℕ) (now : ℤ) (table : Table) (s : BrowserSessionRecord)
    → active_session user_active digest now table ≡ some s
    → IsLive user_active digest now table s
unfolding active_session
active_session-IsLive user_active digest now [] s e = cc
active_session-IsLive user_active digest now (t ∷ table) s e =
    elim (Bool-cases (is_active user_active digest now t)) [
      | inl active ↦
          subst (IsLive user_active digest now (t ∷ table)) (some_injective t s (rw active at e))
            (active-IsLive user_active digest now t (t ∷ table) active (inl refl))
      | inr idle ↦
          later_row user_active digest now s t table
            (active_session-IsLive user_active digest now table s (rw idle at e))
    ]

-- A token whose digest is the session's.
abbrev pub Proof : (List ℕ → List ℕ) → Option (List ℕ) → BrowserSessionRecord → Type 0
Proof digest csrf_token s =
    (token : List ℕ) × (csrf_token ≡ some token) × (digest token ≡ s.csrf_digest)

proves-Proof :
    (digest : List ℕ → List ℕ) (csrf_token : Option (List ℕ)) (s : BrowserSessionRecord)
    → ((token : List ℕ) → length (digest token) ≡ 32)
    → length s.csrf_digest ≡ 32
    → proves digest csrf_token s ≡ true
    → Proof digest csrf_token s
unfolding proves constant_time_eq
proves-Proof digest none s long own h = cc
proves-Proof digest (some token) s long own h =
    let equal =
      difference_from-eq-zero 0 s.csrf_digest (digest token) (omega (arith, own, long token))
        (ground arith) in
    (token, refl, sym equal.1)

pub All-Any :
    {A : Type 0} (P : A → Type 0) (x : A) (xs : List A) → All P xs → Any (λ y. y ≡ x) xs → P x
All-Any P x [] h k = elim k [ ]
All-Any P x (y ∷ xs) h (inl e) = subst P e h.0
All-Any P x (y ∷ xs) h (inr k) = All-Any P x xs h.1 k

-- If digests have thirty-two bytes, then whoever is let in by a token has a row of an active user with the
-- token's digest that is neither revoked nor expired, and, to change something, a second token whose
-- digest is the row's proof of origin.
pub authenticate-IsLive :
    (user_active : ℕ → Bool) (digest : List ℕ → List ℕ) (policy : BrowserSessionPolicy)
    (token : List ℕ) (csrf_token : Option (List ℕ)) (state_changing : Bool) (now : ℤ)
    (table : Table) (s : BrowserSessionRecord)
    → ((t : List ℕ) → length (digest t) ≡ 32)
    → All (λ (t : BrowserSessionRecord). length t.csrf_digest ≡ 32) table
    → (authenticate
        (table_repository user_active)
        digest
        policy
        token
        csrf_token
        state_changing
        now
        table).0
      ≡ ok s
    → IsLive user_active (digest token) now table s
      × ((state_changing ≡ false) ⊎ Proof digest csrf_token s)
unfolding authenticate of_repository table_repository
authenticate-IsLive user_active digest policy token csrf_token state_changing now table s long rows
      e =
    let (r, found, e1) =
      and_then-eq-ok _
        (ok_or (active_session user_active (digest token) now table) invalid_session, table) e in
    let (done, passed, e2) =
      and_then-eq-ok _
        (fail_if (state_changing && not (proves digest csrf_token r)) invalid_csrf, table) e1 in
    let live : IsLive user_active (digest token) now table r =
      active_session-IsLive user_active (digest token) now table r
        (ok_or-ok _ invalid_session found) in
    let fine =
      fail_if-passed (state_changing && not (proves digest csrf_token r)) invalid_csrf passed in
    let own : length r.csrf_digest ≡ 32 =
      All-Any (λ (t : BrowserSessionRecord). length t.csrf_digest ≡ 32) r table rows live.row in
    subst
      (λ x.
        IsLive user_active (digest token) now table x
        × ((state_changing ≡ false) ⊎ Proof digest csrf_token x))
      (ok_injective r s e2)
      (
        live,
        elim (Bool-cases state_changing) [
          | inr reading ↦ inl reading
          | inl changing ↦ inr (proves-Proof digest csrf_token r long own (ground arith))
        ],
      )
