-- ===== src/Application/Webhooks.antt =====
-- src/crates/application/src/webhook_delivery.rs, with the types of operations.rs of the domain crate that
-- it reads. A timestamp is its epoch milliseconds, and which of them the calendar has is a parameter. The
-- repository, the sender, of whose answer only the status is read, and the source of jitter are parameters
-- too; the readings of the clock are arguments. The metrics stand beside the world; their lock, which no
-- code panics under, is left out. `elapsed` is the function of the same text in alert_evaluator.rs.
pub mod Service
pub mod Retry
pub mod Ending
pub mod Follows
mod Samples
use Prim.Native.String.{String}
use pvlog.Common.{
  ℕ, ◌+◌, ◌-◌, ◌*◌, ◌/◌, ◌^◌, min, Bool, true, false, not, ◌&&◌, List, [], ◌∷◌, ◌++◌, Option, none,
  some, ltb, leb, length, if◌then◌else◌, ℤ, pos, ◌+ℤ◌, in_i64, Result, ok, err, ◌>>=◌,
}
use pvlog.Common.Stateful.{Stateful}
use pvlog.Application.Alerts.{elapsed}

pub record DeliveryAttempt : Type 0 where
  pub attempted_at : ℤ
  pub response_status : Option ℕ
  pub error_class : Option String
  pub duration_milliseconds : ℕ

pub data WebhookDeliveryState : Type 0 where
  pending delivered retrying dead_letter : WebhookDeliveryState

pub record WebhookDelivery : Type 0 where
  pub id : ℕ
  pub subscription_id : ℕ
  pub event_id : String
  pub schema_version : ℕ
  pub state : WebhookDeliveryState
  pub attempts : List DeliveryAttempt
  pub next_attempt_at : Option ℤ

pub record DeliveryWorkItem (Request : Type 0) : Type 0 where
  pub delivery : WebhookDelivery
  pub request : Request
  pub maximum_attempts : ℕ
  pub lease_expires_at : ℤ

pub data DeliveryServiceError : Type 0 where
  not_found not_dead_letter unavailable : DeliveryServiceError

pub record DeliveryMetrics : Type 0 where
  pub attempts : ℕ
  pub delivered : ℕ
  pub retries : ℕ
  pub dead_letters : ℕ
  pub replays : ℕ

pub record DeliveryRepository (Request W : Type 0) : Type 0 where
  pub claim : String → ℤ → ℤ → Stateful W DeliveryServiceError (Option (DeliveryWorkItem Request))
  pub save : DeliveryWorkItem Request → Stateful W DeliveryServiceError (Unit {0})
  pub find : ℕ → Stateful W DeliveryServiceError (Option (DeliveryWorkItem Request))

abbrev pub u64_max : ℕ
u64_max = 2 ^ 64 - 1

-- `u32::try_from(n).unwrap_or(u32::MAX)`.
abbrev pub to_u32_or_max : ℕ → ℕ
to_u32_or_max n = min n (2 ^ 32 - 1)

abbrev pub attempt_of : ℤ → ℤ → Option ℕ → DeliveryAttempt
attempt_of started finished none = record {
  attempted_at = started;
  response_status = none;
  error_class = some "delivery_error";
  duration_milliseconds = to_u32_or_max (elapsed started finished);
}
attempt_of started finished (some status) = record {
  attempted_at = started;
  response_status = some status;
  error_class = none;
  duration_milliseconds = to_u32_or_max (elapsed started finished);
}

abbrev pub is_success : Option ℕ → Bool
is_success none = false
is_success (some status) = leb 200 status && ltb status 300

-- By the number of attempts made, with the base and the maximum that `new` sets.
unfoldable pub backoff : ℕ → ℕ
backoff attempts = min (min (1000 * 2 ^ min (to_u32_or_max (attempts - 1)) 31) u64_max) 3600000

module _ (in_calendar : ℤ → Bool) where
  unfoldable pub add : ℤ → ℕ → Result DeliveryServiceError ℤ
  add value milliseconds =
      let target = value +ℤ pos milliseconds in
      if in_i64 target && in_calendar target then ok target else err unavailable

abbrev pub with_state :
    WebhookDelivery → WebhookDeliveryState → List DeliveryAttempt → Option ℤ → WebhookDelivery
with_state delivery state attempts next_attempt_at = record {
  id = delivery.id;
  subscription_id = delivery.subscription_id;
  event_id = delivery.event_id;
  schema_version = delivery.schema_version;
  state = state;
  attempts = attempts;
  next_attempt_at = next_attempt_at;
}

-- `backoff.saturating_add(jitter)`.
abbrev pub delay : (ℕ → ℕ) → ℕ → ℕ
delay jitter attempts = min (backoff attempts + jitter (backoff attempts / 4 + 1)) u64_max

module _ (in_calendar : ℤ → Bool) (jitter : ℕ → ℕ) where
  -- The branches after an attempt, by the attempts with this one and whether it was a success.
  unfoldable pub settle :
      WebhookDelivery
      → List DeliveryAttempt
      → Bool
      → ℕ
      → ℤ
      → Result DeliveryServiceError WebhookDelivery
  settle delivery attempts success maximum_attempts finished =
      if success
      then ok (with_state delivery delivered attempts none)
      else if leb maximum_attempts (length attempts)
      then ok (with_state delivery dead_letter attempts none)
      else (add in_calendar finished (delay jitter (length attempts)) >>= λ at.
          ok (with_state delivery retrying attempts (some at)))

abbrev pub with_delivery :
    {Request : Type 0} → DeliveryWorkItem Request → WebhookDelivery → DeliveryWorkItem Request
with_delivery item delivery = record {
  delivery = delivery;
  request = item.request;
  maximum_attempts = item.maximum_attempts;
  lease_expires_at = item.lease_expires_at;
}

abbrev pub more : ℕ → ℕ
more count = min (count + 1) u64_max

abbrev pub count_attempt : DeliveryMetrics → DeliveryMetrics
count_attempt m = record {
  attempts = more m.attempts;
  delivered = m.delivered;
  retries = m.retries;
  dead_letters = m.dead_letters;
  replays = m.replays;
}

abbrev pub count_outcome : WebhookDeliveryState → DeliveryMetrics → DeliveryMetrics
count_outcome delivered m = record {
  attempts = m.attempts;
  delivered = more m.delivered;
  retries = m.retries;
  dead_letters = m.dead_letters;
  replays = m.replays;
}
count_outcome dead_letter m = record {
  attempts = m.attempts;
  delivered = m.delivered;
  retries = m.retries;
  dead_letters = more m.dead_letters;
  replays = m.replays;
}
count_outcome retrying m = record {
  attempts = m.attempts;
  delivered = m.delivered;
  retries = more m.retries;
  dead_letters = m.dead_letters;
  replays = m.replays;
}
count_outcome pending m = m

abbrev pub count_replay : DeliveryMetrics → DeliveryMetrics
count_replay m = record {
  attempts = m.attempts;
  delivered = m.delivered;
  retries = m.retries;
  dead_letters = m.dead_letters;
  replays = more m.replays;
}
