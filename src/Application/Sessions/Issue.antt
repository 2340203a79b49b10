-- ===== src/Application/Sessions/Issue.antt =====
-- A login leaves a user with at most as many sessions as the policy allows.
use pvlog.Common.{
  ℕ, ◌*◌, ◌≤◌, ◌≡◌, ◌≢◌, refl, sym, ◌∙◌, inl, inr, Bool, List, [], ◌∷◌, map, any, ◌==◌, ltb_ℤ,
  Bool-cases, All, ℤ, pos, checked_add, Result, ok, err, ok_or, map_err, ◌&&◌, leb, any-All, arith,
}
use pvlog.Common.Stateful.{Stateful, returning, ◌>>=◌, ◌>>◌, Ends, Ends-and_then}
use pvlog.Application.Sessions.{
  BrowserSessionPolicy, BrowserSessionRecord, BrowserSession, BrowserSessionError, Fresh, time,
  of_repository, new_record, new_session, issue_at, repository,
}
use pvlog.Application.Sessions.Table.{
  PortError, Table, is_null, count_before, update_row, clashes, save_session, revoke_above,
  revoke_oldest_sessions, table_repository,
}
use pvlog.Application.Sessions.Limit.{count_of, is_kept, HasDistinctIds, revoke_oldest-limit}

-- Rows that keep their identifiers.
mapped_ids :
    (f : BrowserSessionRecord → BrowserSessionRecord)
    → ((s : BrowserSessionRecord) → (f s).id ≡ s.id)
    → (table : Table) → HasDistinctIds table
    → HasDistinctIds (map f table)
mapped_ids f same [] d = tt
mapped_ids f same (s ∷ table) d = (apart table d.0, mapped_ids f same table d.1)
  where
    apart : (rest : Table) → All (λ t. t.id ≢ s.id) rest → All (λ t. t.id ≢ (f s).id) (map f rest)
    apart [] h = tt
    apart (t ∷ rest) h = ((λ e. h.0 (sym (same t) ∙ e ∙ same s)), apart rest h.1)

update_row-id : (new s : BrowserSessionRecord) → (update_row new s).id ≡ s.id
unfolding update_row
update_row-id new s = elim (Bool-cases (s.id == new.id)) [
  | inl own ↦ rw own refl
  | inr other ↦ rw other refl
]

save_session-distinct :
    (new : BrowserSessionRecord) (table : Table)
    → HasDistinctIds table
    → Ends (λ v. HasDistinctIds v) (λ done v. HasDistinctIds v) (save_session new table)
unfolding save_session Ends
save_session-distinct new table d =
    elim (Bool-cases (ltb_ℤ new.absolute_expires_at new.idle_expires_at)) [
      | inl bad ↦ rw bad d
      | inr fine ↦ elim (Bool-cases (any (clashes new) table)) [
        | inl clash ↦ rw (fine, clash) d
        | inr free ↦ elim (Bool-cases (any (λ (s : BrowserSessionRecord). s.id == new.id) table)) [
          | inl present ↦
              rw (fine, free, present) (mapped_ids (update_row new) (update_row-id new) table d)
          | inr absent ↦
              rw (fine, free, absent)
                (
                  any-All (λ (s : BrowserSessionRecord). s.id == new.id) (λ s. s.id ≢ new.id) table
                      (λ s h e. ground (arith, e)) absent,
                  d,
                )
        ]
      ]
    ]

passed_on :
    {W A : Type 0} (P : W → Type 0) (Q : A → W → Type 0) (r : Result PortError A × W)
    → Ends P Q r
    → Ends P Q (map_err repository r.0, r.1)
unfolding Ends
passed_on P Q (err e, v) h = h
passed_on P Q (ok a, v) h = h

of_repository-Ends :
    {W A : Type 0} (P : W → Type 0) (Q : A → W → Type 0) (call : Stateful W PortError A) (w : W)
    → Ends P Q (call w)
    → Ends P Q (of_repository call w)
unfolding of_repository
of_repository-Ends P Q call w h = passed_on P Q (call w) h

returning-Ends :
    {W E A : Type 0} (P : W → Type 0) (r : Result E A) (w : W)
    → P w
    → Ends P (λ a v. P v) (returning r w)
unfolding Ends
returning-Ends P (ok a) w h = h
returning-Ends P (err e) w h = h

revoke_above-id :
    (table : Table) (user_id keep : ℕ) (now : ℤ) (s : BrowserSessionRecord)
    → (revoke_above table user_id keep now s).id ≡ s.id
unfolding revoke_above
revoke_above-id table user_id keep now s =
    elim (Bool-cases
      ((s.user_id == user_id) && is_null s.revoked_at && leb keep (count_before s table))) [
        | inl above ↦ rw above refl
        | inr below ↦ rw below refl
      ]

module _ (user_active : ℕ → Bool) (digest : List ℕ → List ℕ) (policy : BrowserSessionPolicy)
    (fresh : Fresh) (user_id : ℕ) (now : ℤ) where
  -- The identifiers differ, and no more rows than the policy allows are kept.
  Within : BrowserSession → Table → Type 0
  Within session v =
      HasDistinctIds v × (count_of (is_kept user_id) v ≤ policy.max_concurrent_sessions)

  -- What follows the two sums of times.
  abbrev revoking : ℤ → ℤ → Stateful Table (BrowserSessionError PortError) BrowserSession
  revoking idle absolute = do
    of_repository (
        (table_repository user_active).revoke_oldest_above_limit user_id
          policy.max_concurrent_sessions now)
    returning
        (ok (new_session (table_repository user_active) digest policy fresh user_id idle absolute))

  abbrev saving : ℤ → ℤ → Stateful Table (BrowserSessionError PortError) BrowserSession
  saving idle absolute = do
    of_repository (
        (table_repository user_active).save
          (new_record (table_repository user_active) digest policy fresh user_id now idle absolute))
    revoking idle absolute

  abbrev dating : ℤ → Stateful Table (BrowserSessionError PortError) BrowserSession
  dating idle = do
    absolute ←
        returning (ok_or (checked_add now (pos (policy.absolute_lifetime_seconds * 1000))) time)
    saving idle absolute

  revoking-Ends :
      (idle absolute : ℤ) (v : Table)
      → HasDistinctIds v
      → Ends HasDistinctIds Within (revoking idle absolute v)
  unfolding of_repository table_repository revoke_oldest_sessions Ends Within
  revoking-Ends idle absolute v d = (
    mapped_ids (revoke_above v user_id policy.max_concurrent_sessions now)
        (revoke_above-id v user_id policy.max_concurrent_sessions now) v d,
    revoke_oldest-limit user_id policy.max_concurrent_sessions now v d,
  )

  saving-Ends :
      (idle absolute : ℤ) (v : Table)
      → HasDistinctIds v
      → Ends HasDistinctIds Within (saving idle absolute v)
  unfolding table_repository
  saving-Ends idle absolute v d =
      let new =
        new_record (table_repository user_active) digest policy fresh user_id now idle absolute in
      Ends-and_then HasDistinctIds (λ a v. HasDistinctIds v) Within (λ done. revoking idle absolute)
        (of_repository (save_session new) v)
        (of_repository-Ends HasDistinctIds (λ a v. HasDistinctIds v) (save_session new) v
          (save_session-distinct new v d))
        (λ done u du. revoking-Ends idle absolute u du)

  dating-Ends :
      (idle : ℤ) (v : Table) → HasDistinctIds v → Ends HasDistinctIds Within (dating idle v)
  dating-Ends idle v d =
      let sum = ok_or (checked_add now (pos (policy.absolute_lifetime_seconds * 1000))) time in
      Ends-and_then HasDistinctIds (λ a v. HasDistinctIds v) Within (saving idle) (returning sum v)
        (returning-Ends HasDistinctIds sum v d) (saving-Ends idle)

-- Over a table with distinct identifiers, issuing a session keeps the identifiers distinct, whether it
-- succeeds or not, and if it succeeds, at most as many sessions of the user as the policy allows are not
-- revoked.
pub issue_at-limit :
    (user_active : ℕ → Bool) (digest : List ℕ → List ℕ) (policy : BrowserSessionPolicy)
    (fresh : Fresh) (user_id : ℕ) (now : ℤ) (table : Table)
    → HasDistinctIds table
    → Ends HasDistinctIds
        (λ session v.
          HasDistinctIds v × (count_of (is_kept user_id) v ≤ policy.max_concurrent_sessions))
        (issue_at (table_repository user_active) digest policy fresh user_id now table)
unfolding issue_at table_repository Within
issue_at-limit user_active digest policy fresh user_id now table d =
    let sum = ok_or (checked_add now (pos (policy.idle_lifetime_seconds * 1000))) time in
    Ends-and_then HasDistinctIds (λ a v. HasDistinctIds v)
      (Within user_active digest policy fresh user_id now)
      (dating user_active digest policy fresh user_id now) (returning sum table)
      (returning-Ends HasDistinctIds sum table d)
      (dating-Ends user_active digest policy fresh user_id now)
