-- ===== src/Application/Sessions.antt =====
-- src/crates/application/src/browser_session.rs: the sessions of browsers.
-- The repository is the trait's operations on a world. The keyed hash is a parameter, the random tokens and
-- identifiers and the readings of the clock are arguments; a digest or a token is its bytes.
pub mod Table
pub mod Ends
pub mod Entry
pub mod Limit
pub mod Issue
mod Samples
use Prim.Native.String.{String}
use pvlog.Common.{
  ℕ, ◌*◌, Bool, true, false, not, ◌&&◌, List, Option, none, some, ◌==◌, if◌then◌else◌, ℤ, pos,
  checked_add, Result, ok, err, ok_or, fail_if, map_err,
}
use pvlog.Common.Stateful.{Stateful, ◌>>=◌, ◌>>◌, returning}
use pvlog.Application.Pagination.{difference_from}

pub record BrowserSessionPolicy : Type 0 where
  pub idle_lifetime_seconds : ℕ
  pub absolute_lifetime_seconds : ℕ
  pub max_concurrent_sessions : ℕ
  pub secure_cookies : Bool

pub record BrowserSessionRecord : Type 0 where
  pub id : ℕ
  pub user_id : ℕ
  pub session_digest : List ℕ
  pub csrf_digest : List ℕ
  pub created_at : ℤ
  pub last_seen_at : ℤ
  pub idle_expires_at : ℤ
  pub absolute_expires_at : ℤ
  pub revoked_at : Option ℤ

pub record SessionCookie : Type 0 where
  pub name : String
  pub value : List ℕ
  pub http_only : Bool
  pub secure : Bool
  pub same_site : String
  pub path : String
  pub max_age_seconds : ℕ

pub record BrowserSession : Type 0 where
  pub user_id : ℕ
  pub session_cookie : SessionCookie
  pub csrf_token : List ℕ
  pub idle_expires_at : ℤ
  pub absolute_expires_at : ℤ

pub record BrowserSessionRepository (PortError W : Type 0) : Type 0 where
  pub save : BrowserSessionRecord → Stateful W PortError (Unit {0})
  pub active_by_digest : List ℕ → ℤ → Stateful W PortError (Option BrowserSessionRecord)
  pub revoke : ℕ → ℤ → Stateful W PortError (Unit {0})
  pub revoke_oldest_above_limit : ℕ → ℕ → ℤ → Stateful W PortError (Unit {0})

pub data BrowserSessionError (PortError : Type 0) : Type 0 where
  invalid_session invalid_csrf time : BrowserSessionError PortError
  repository : PortError → BrowserSessionError PortError

-- Digests have thirty-two bytes each, so that no byte is left over.
unfoldable pub constant_time_eq : List ℕ → List ℕ → Bool
constant_time_eq left right = difference_from 0 left right == 0

-- `map_err(BrowserSessionError::Repository)`.
unfoldable pub of_repository :
    {PortError W A : Type 0} → Stateful W PortError A → Stateful W (BrowserSessionError PortError) A
of_repository call w = let (r, v) = call w in (map_err repository r, v)

-- The tokens and the identifier of a new session.
pub record Fresh : Type 0 where
  pub id : ℕ
  pub session_token : List ℕ
  pub csrf_token : List ℕ

-- The token of a request that changes something proves its origin.
unfoldable pub proves : (List ℕ → List ℕ) → Option (List ℕ) → BrowserSessionRecord → Bool
proves digest none session = false
proves digest (some token) session = constant_time_eq session.csrf_digest (digest token)

module _ {PortError W : Type 0} (storage : BrowserSessionRepository PortError W)
    (digest : List ℕ → List ℕ) (policy : BrowserSessionPolicy) where
  abbrev pub new_record : Fresh → ℕ → ℤ → ℤ → ℤ → BrowserSessionRecord
  new_record fresh user_id now idle_expires_at absolute_expires_at = record {
    id = fresh.id;
    user_id = user_id;
    session_digest = digest fresh.session_token;
    csrf_digest = digest fresh.csrf_token;
    created_at = now;
    last_seen_at = now;
    idle_expires_at = idle_expires_at;
    absolute_expires_at = absolute_expires_at;
    revoked_at = none;
  }

  abbrev pub new_session : Fresh → ℕ → ℤ → ℤ → BrowserSession
  new_session fresh user_id idle_expires_at absolute_expires_at = record {
    user_id = user_id;
    session_cookie = record {
      name = if policy.secure_cookies then "__Host-pvlog_session" else "pvlog_session";
      value = fresh.session_token;
      http_only = true;
      secure = policy.secure_cookies;
      same_site = "Lax";
      path = "/";
      max_age_seconds = policy.absolute_lifetime_seconds;
    };
    csrf_token = fresh.csrf_token;
    idle_expires_at = idle_expires_at;
    absolute_expires_at = absolute_expires_at;
  }

  unfoldable pub issue_at :
      Fresh → ℕ → ℤ → Stateful W (BrowserSessionError PortError) BrowserSession
  issue_at fresh user_id now = do
    idle_expires_at ←
        returning (ok_or (checked_add now (pos (policy.idle_lifetime_seconds * 1000))) time)
    absolute_expires_at ←
        returning (ok_or (checked_add now (pos (policy.absolute_lifetime_seconds * 1000))) time)
    of_repository (storage.save (new_record fresh user_id now idle_expires_at absolute_expires_at))
    of_repository (storage.revoke_oldest_above_limit user_id policy.max_concurrent_sessions now)
    returning (ok (new_session fresh user_id idle_expires_at absolute_expires_at))

  unfoldable pub authenticate :
      List ℕ
      → Option (List ℕ)
      → Bool
      → ℤ
      → Stateful W (BrowserSessionError PortError) BrowserSessionRecord
  authenticate session_token csrf_token state_changing now = do
    found ← of_repository (storage.active_by_digest (digest session_token) now)
    session ← returning (ok_or found invalid_session)
    returning (fail_if (state_changing && not (proves digest csrf_token session)) invalid_csrf)
    returning (ok session)

  unfoldable pub rotate :
      Fresh → List ℕ → ℤ → ℤ → Stateful W (BrowserSessionError PortError) BrowserSession
  rotate fresh session_token now then_now = do
    session ← authenticate session_token none false now
    of_repository (storage.revoke session.id then_now)
    issue_at fresh session.user_id then_now

  unfoldable pub revoke_found :
      Option BrowserSessionRecord → ℤ → Stateful W (BrowserSessionError PortError) (Unit {0})
  revoke_found none then_now = returning (ok tt)
  revoke_found (some session) then_now = of_repository (storage.revoke session.id then_now)

  unfoldable pub logout : List ℕ → ℤ → ℤ → Stateful W (BrowserSessionError PortError) (Unit {0})
  logout session_token now then_now = do
    found ← of_repository (storage.active_by_digest (digest session_token) now)
    revoke_found found then_now
