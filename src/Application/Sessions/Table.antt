-- ===== src/Application/Sessions/Table.antt =====
-- src/crates/storage/src/management_repository.rs and browser_session_repository.rs: the table of sessions,
-- by what the statements of the SQLite repository say of its rows. `SessionRecord` has the fields of
-- `BrowserSessionRecord`, and one record stands for both. Which users are active is a parameter; that a
-- row's user exists is left out, as are connections that fail.
use Prim.Native.String.{String}
use pvlog.Common.{
  ℕ, suc, Bool, true, false, not, ◌&&◌, ◌||◌, List, [], ◌∷◌, map, any, Option, none, some, ◌==◌,
  ltb, leb, if◌then◌else◌, ℤ, ltb_ℤ, ◌==ℤ◌, Result, ok, err,
}
use pvlog.Application.Pagination.{bytes_eq}
use pvlog.Application.Sessions.{BrowserSessionRecord, BrowserSessionRepository}

pub data PortError : Type 0 where
  not_found conflict unavailable : PortError
  rejected : String → PortError

abbrev pub Table : Type 0
Table = List BrowserSessionRecord

abbrev pub is_null : Option ℤ → Bool
is_null none = true
is_null (some at) = false

-- The row with another expiry and another revocation.
abbrev pub with_times : BrowserSessionRecord → ℤ → ℤ → ℤ → Option ℤ → BrowserSessionRecord
with_times s last_seen_at idle_expires_at absolute_expires_at revoked_at = record {
  id = s.id;
  user_id = s.user_id;
  session_digest = s.session_digest;
  csrf_digest = s.csrf_digest;
  created_at = s.created_at;
  last_seen_at = last_seen_at;
  idle_expires_at = idle_expires_at;
  absolute_expires_at = absolute_expires_at;
  revoked_at = revoked_at;
}

abbrev pub with_revoked : BrowserSessionRecord → Option ℤ → BrowserSessionRecord
with_revoked s = with_times s s.last_seen_at s.idle_expires_at s.absolute_expires_at

-- `COALESCE(revoked_at, ?)`.
abbrev pub coalesce : Option ℤ → ℤ → Option ℤ
coalesce none now = some now
coalesce (some at) now = some at

unfoldable pub revoke_row : ℕ → ℤ → BrowserSessionRecord → BrowserSessionRecord
revoke_row id now s = if s.id == id then with_revoked s (coalesce s.revoked_at now) else s

unfoldable pub revoke_session : ℕ → ℤ → Table → Table
revoke_session id now = map (revoke_row id now)

-- `ON CONFLICT(id) DO UPDATE`.
unfoldable pub update_row : BrowserSessionRecord → BrowserSessionRecord → BrowserSessionRecord
update_row new s =
    if s.id == new.id
    then with_times s new.last_seen_at new.idle_expires_at new.absolute_expires_at new.revoked_at
    else s

-- Another row has the digest, which is unique.
abbrev pub clashes : BrowserSessionRecord → BrowserSessionRecord → Bool
clashes new s = not (s.id == new.id) && bytes_eq s.session_digest new.session_digest

unfoldable pub save_session : BrowserSessionRecord → Table → Result PortError (Unit {0}) × Table
save_session new table =
    if ltb_ℤ new.absolute_expires_at new.idle_expires_at
    then (err unavailable, table)
    else if any (clashes new) table
    then (err unavailable, table)
    else if any (λ s. s.id == new.id) table
    then (ok tt, map (update_row new) table)
    else (ok tt, new ∷ table)

-- The other session is an unrevoked one of the user that comes before in `created_at DESC, id DESC`.
unfoldable pub precedes : BrowserSessionRecord → BrowserSessionRecord → Bool
precedes s other =
    (other.user_id == s.user_id)
    && is_null other.revoked_at
    && (ltb_ℤ s.created_at other.created_at
        || ((s.created_at ==ℤ other.created_at) && ltb s.id other.id))

unfoldable pub count_before : BrowserSessionRecord → Table → ℕ
count_before s [] = 0
count_before s (other ∷ table) =
    let rest = count_before s table in if precedes s other then suc rest else rest

unfoldable pub revoke_above : Table → ℕ → ℕ → ℤ → BrowserSessionRecord → BrowserSessionRecord
revoke_above table user_id keep now s =
    if (s.user_id == user_id) && is_null s.revoked_at && leb keep (count_before s table)
    then with_revoked s (some now)
    else s

unfoldable pub revoke_oldest_sessions : ℕ → ℕ → ℤ → Table → Table
revoke_oldest_sessions user_id keep now table = map (revoke_above table user_id keep now) table

module _ (user_active : ℕ → Bool) where
  unfoldable pub is_active : List ℕ → ℤ → BrowserSessionRecord → Bool
  is_active digest now s =
      user_active s.user_id
      && bytes_eq s.session_digest digest
      && is_null s.revoked_at
      && ltb_ℤ now s.idle_expires_at
      && ltb_ℤ now s.absolute_expires_at

  unfoldable pub active_session : List ℕ → ℤ → Table → Option BrowserSessionRecord
  active_session digest now [] = none
  active_session digest now (s ∷ table) =
      let rest = active_session digest now table in if is_active digest now s then some s else rest

  unfoldable pub table_repository : BrowserSessionRepository PortError Table
  table_repository = record {
    save = save_session;
    active_by_digest = λ digest now table. (ok (active_session digest now table), table);
    revoke = λ id now table. (ok tt, revoke_session id now table);
    revoke_oldest_above_limit =
        λ user_id keep now table. (ok tt, revoke_oldest_sessions user_id keep now table);
  }
