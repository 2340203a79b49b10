-- ===== src/Application/Sessions/Samples.antt =====
-- src/crates/application/src/browser_session.rs: a table of one session.
use pvlog.Common.{
  ℕ, ◌≡◌, ◌≤◌, refl, inl, inr, ◌⊎◌, Bool, true, false, List, [], ◌∷◌, length, replicate,
  length-replicate, Option, none, some, ℤ, pos, ◌≤ℤ◌, All, Result, ok, err, arith,
}
use pvlog.Application.Sessions.{
  BrowserSessionPolicy, BrowserSessionRecord, Fresh, invalid_session, issue_at, authenticate,
  rotate, logout,
}
use pvlog.Application.Sessions.Table.{Table, table_repository}
use pvlog.Application.Sessions.Ends.{logout-ends}
use pvlog.Application.Sessions.Limit.{count_of, is_kept, HasDistinctIds}
use pvlog.Application.Sessions.Issue.{issue_at-limit}
use pvlog.Common.Stateful.{Ends}
use pvlog.Application.Sessions.Entry.{IsLive, Proof, authenticate-IsLive}

abbrev everyone : ℕ → Bool
everyone user = true

-- A hash of the first byte only.
abbrev hash : List ℕ → List ℕ
hash [] = replicate 32 0
hash (b ∷ bytes) = replicate 32 b

long : (t : List ℕ) → length (hash t) ≡ 32
long [] = length-replicate {A = ℕ} 32 0
long (b ∷ bytes) = length-replicate {A = ℕ} 32 b

abbrev policy : BrowserSessionPolicy
policy = record {
  idle_lifetime_seconds = 60;
  absolute_lifetime_seconds = 600;
  max_concurrent_sessions = 1;
  secure_cookies = true;
}

abbrev session : BrowserSessionRecord
session = record {
  id = 1;
  user_id = 9;
  session_digest = hash (5 ∷ []);
  csrf_digest = hash (6 ∷ []);
  created_at = pos 0;
  last_seen_at = pos 0;
  idle_expires_at = pos 60000;
  absolute_expires_at = pos 600000;
  revoked_at = none;
}

abbrev fresh : Fresh
fresh = record { id = 1; session_token = 5 ∷ []; csrf_token = 6 ∷ [] }

issued : (issue_at (table_repository everyone) hash policy fresh 9 (pos 0) []).1 ≡ session ∷ []
unfolding issue_at pvlog.Common.checked_add pvlog.Common.◌+ℤ◌
    pvlog.Application.Sessions.of_repository table_repository
    pvlog.Application.Sessions.Table.save_session
    pvlog.Application.Sessions.Table.revoke_oldest_sessions
    pvlog.Application.Sessions.Table.revoke_above pvlog.Application.Sessions.Table.count_before
    pvlog.Application.Sessions.Table.precedes
issued = refl

let_in :
    (authenticate
      (table_repository everyone)
      hash
      policy
      (5 ∷ [])
      (some (6 ∷ []))
      true
      (pos 59999)
      (session ∷ [])).0
    ≡ ok session
unfolding authenticate pvlog.Application.Sessions.Table.active_session
    pvlog.Application.Sessions.Table.is_active pvlog.Application.Pagination.bytes_eq
    pvlog.Application.Sessions.of_repository table_repository pvlog.Application.Sessions.proves
    pvlog.Application.Sessions.constant_time_eq pvlog.Application.Pagination.difference_from
let_in = refl

-- A second login ends the first where one is allowed.
second_login :
    (authenticate
      (table_repository everyone)
      hash
      policy
      (5 ∷ [])
      none
      false
      (pos 20)
      (issue_at
        (table_repository everyone)
        hash
        policy
        (record { id = 2; session_token = 7 ∷ []; csrf_token = 8 ∷ [] })
        9
        (pos 10)
        (session ∷ [])).1).0
    ≡ err invalid_session
unfolding issue_at pvlog.Common.checked_add pvlog.Common.◌+ℤ◌
    pvlog.Application.Sessions.of_repository table_repository
    pvlog.Application.Sessions.Table.save_session
    pvlog.Application.Sessions.Table.revoke_oldest_sessions
    pvlog.Application.Sessions.Table.revoke_above pvlog.Application.Sessions.Table.count_before
    pvlog.Application.Sessions.Table.precedes authenticate
    pvlog.Application.Sessions.Table.active_session pvlog.Application.Sessions.Table.is_active
    pvlog.Application.Pagination.bytes_eq
second_login = refl

authenticate-IsLive_example :
    IsLive everyone (hash (5 ∷ [])) (pos 59999) (session ∷ []) session
    × ((true ≡ false) ⊎ Proof hash (some (6 ∷ [])) session)
authenticate-IsLive_example =
    authenticate-IsLive everyone hash policy (5 ∷ []) (some (6 ∷ [])) true (pos 59999)
      (session ∷ []) session long (length-replicate {A = ℕ} 32 6, tt) let_in

logout-ends_example :
    ((logout (table_repository everyone) hash policy (5 ∷ []) (pos 10) (pos 11) (session ∷ [])).0
      ≡ ok tt)
    × ((authenticate
          (table_repository everyone)
          hash
          policy
          (5 ∷ [])
          none
          false
          (pos 12)
          (logout
            (table_repository everyone)
            hash
            policy
            (5 ∷ [])
            (pos 10)
            (pos 11)
            (session ∷ [])).1).0
        ≡ err invalid_session)
logout-ends_example =
    logout-ends everyone hash policy (5 ∷ []) none false (pos 10) (pos 11) (pos 12) (session ∷ [])
      (tt, tt) (omega arith)

-- A second login, at a limit of one session.
abbrev again : Fresh
again = record { id = 2; session_token = 7 ∷ []; csrf_token = 8 ∷ [] }

issue_at-limit_example :
    Ends HasDistinctIds
      (λ created v. HasDistinctIds v × (count_of (is_kept 9) v ≤ 1))
      (issue_at (table_repository everyone) hash policy again 9 (pos 5) (session ∷ []))
issue_at-limit_example = issue_at-limit everyone hash policy again 9 (pos 5) (session ∷ []) (tt, tt)
