-- ===== src/Application/Alerts.antt =====
-- src/crates/application/src/alert_rules.rs and alert_evaluator.rs, with the types of operations.rs of the
-- domain crate that they read. A timestamp is its epoch milliseconds, an identifier a number; a text that
-- is tested is its code points, and a set is a list of which only membership counts. The calendar is a
-- parameter: the weekday, from Monday as 1, and the minute of an instant in a zone, if the zone is known.
-- A random identifier is an argument. A deduplication key is its template with what stands in it; the
-- context of an event is the rule's name, which is all that it holds. `is_open` is the
-- state `Open`, and `unchanged` the transition `None`.
pub mod Machine
pub mod Cooldown
pub mod Timing
pub mod Liveness
pub mod Evaluator
pub mod Rules
mod Samples
use Prim.Native.String.{String}
use mathlib.Core.Option
use pvlog.Common.{
  ℕ, ◌*◌, ◌^◌, Bool, true, false, not, ◌&&◌, ◌||◌, List, [], ◌∷◌, Option, none, some, ◌==◌, ltb,
  leb, if◌then◌else◌, ℤ, pos, negsuc, ◌-ℤ◌, ltb_ℤ, contains,
}

pub data AlertKind : Type 0 where
  idle missing_generation : ℕ → AlertKind
  generation_below consumption_above net_power_above standby_cost_above : ℤ → AlertKind
  performance_below battery_state_below : ℤ → AlertKind
  daily_energy_below : ℤ → AlertKind
  extended_below extended_above : String → ℤ → AlertKind

pub record AlertSchedule : Type 0 where
  pub timezone : String
  pub weekdays : List ℕ
  pub start_minute_local : ℕ
  pub end_minute_local : ℕ

pub record AlertRule : Type 0 where
  pub id : ℕ
  pub account_id : ℕ
  pub system_id : ℕ
  pub name : List ℕ
  pub kind : AlertKind
  pub schedule : AlertSchedule
  pub debounce_seconds : ℕ
  pub cooldown_seconds : ℕ
  pub delivery_channels : List String
  pub enabled : Bool

pub data AlertEventState : Type 0 where
  is_open acknowledged resolved : AlertEventState

pub data DeduplicationKey : Type 0 where
  opened : ℕ → DeduplicationKey
  resolved : ℕ → ℕ → DeduplicationKey

pub record AlertEvent : Type 0 where
  pub id : ℕ
  pub rule_id : ℕ
  pub system_id : ℕ
  pub opened_at : ℤ
  pub resolved_at : Option ℤ
  pub state : AlertEventState
  pub deduplication_key : DeduplicationKey
  pub safe_context : List ℕ

pub record AlertMetrics : Type 0 where
  pub idle_seconds : Option ℕ
  pub generation_watts : Option ℤ
  pub consumption_watts : Option ℤ
  pub net_power_watts : Option ℤ
  pub standby_cost_milli_cents : Option ℤ
  pub performance_basis_points : Option ℕ
  pub battery_basis_points : Option ℕ
  pub daily_energy_wh : Option ℤ
  pub extended_scaled : String → Option ℤ

pub data AlertEvaluation : Type 0 where
  triggered clear outside_schedule insufficient_data : AlertEvaluation

abbrev pub i64_above : ℤ → Option ℤ → Option Bool
i64_above threshold = Option.map (λ value. ltb_ℤ threshold value)

abbrev pub i64_below : ℤ → Option ℤ → Option Bool
i64_below threshold = Option.map (λ value. ltb_ℤ value threshold)

-- The condition of a rule on the metrics, if they have what it reads.
unfoldable pub condition : AlertKind → AlertMetrics → Option Bool
condition (idle after_seconds) metrics =
    Option.map (λ value. leb after_seconds value) metrics.idle_seconds
condition (missing_generation after_seconds) metrics =
    Option.map (λ value. leb after_seconds value) metrics.idle_seconds
condition (generation_below threshold) metrics = i64_below threshold metrics.generation_watts
condition (consumption_above threshold) metrics = i64_above threshold metrics.consumption_watts
condition (net_power_above threshold) metrics = i64_above threshold metrics.net_power_watts
condition (standby_cost_above threshold) metrics =
    i64_above threshold metrics.standby_cost_milli_cents
condition (performance_below threshold) metrics =
    Option.map (λ value. ltb_ℤ (pos value) threshold) metrics.performance_basis_points
condition (battery_state_below threshold) metrics =
    Option.map (λ value. ltb_ℤ (pos value) threshold) metrics.battery_basis_points
condition (daily_energy_below threshold) metrics = i64_below threshold metrics.daily_energy_wh
condition (extended_below channel_key scaled_value) metrics =
    i64_below scaled_value (metrics.extended_scaled channel_key)
condition (extended_above channel_key scaled_value) metrics =
    i64_above scaled_value (metrics.extended_scaled channel_key)

abbrev pub outcome : Option Bool → AlertEvaluation
outcome (some true) = triggered
outcome (some false) = clear
outcome none = insufficient_data

-- The window of the day; one that ends before it starts goes past midnight.
unfoldable pub in_window : ℕ → ℕ → ℕ → Bool
in_window start end minute =
    if leb start end then leb start minute && ltb minute end else leb start minute || ltb minute end

module _ (calendar : String → ℤ → Option (ℕ × ℕ)) where
  unfoldable pub within_schedule : AlertSchedule → ℤ → Bool
  within_schedule schedule at = elim (calendar schedule.timezone at) [
    | none ↦ false
    | some (weekday, minute) ↦
        contains weekday schedule.weekdays
        && in_window schedule.start_minute_local schedule.end_minute_local minute
  ]

  unfoldable pub evaluate_alert : AlertRule → AlertMetrics → ℤ → AlertEvaluation
  evaluate_alert rule metrics at =
      if not rule.enabled || not (within_schedule rule.schedule at)
      then outside_schedule
      else outcome (condition rule.kind metrics)

-- The milliseconds from one instant to a later one, if they are a u64; the instants of the calendar are so
-- few that the saturating difference of their i128s is exact.
abbrev pub u64_or_zero : ℤ → ℕ
u64_or_zero (pos n) = if ltb n (2 ^ 64) then n else 0
u64_or_zero (negsuc n) = 0

unfoldable pub elapsed : ℤ → ℤ → ℕ
elapsed start end = u64_or_zero (end -ℤ start)

pub record AlertEvaluationState : Type 0 where
  pub pending_since : Option ℤ
  pub open_event : Option AlertEvent
  pub last_resolved_at : Option ℤ

pub data AlertTransition : Type 0 where
  unchanged : AlertTransition
  opened : AlertEvent → AlertTransition
  recovered : AlertEvent → AlertTransition

abbrev pub default_state : AlertEvaluationState
default_state = record { pending_since = none; open_event = none; last_resolved_at = none }

-- The cooldown after a resolution is over.
unfoldable pub cooling : AlertRule → Option ℤ → ℤ → Bool
cooling rule none now = false
cooling rule (some resolved_at) now = ltb (elapsed resolved_at now) (rule.cooldown_seconds * 1000)

abbrev pub get_or_insert : Option ℤ → ℤ → ℤ
get_or_insert none now = now
get_or_insert (some since) now = since

abbrev pub new_event : AlertRule → ℕ → ℤ → AlertEvent
new_event rule id now = record {
  id = id;
  rule_id = rule.id;
  system_id = rule.system_id;
  opened_at = now;
  resolved_at = none;
  state = AlertEventState.is_open;
  deduplication_key = DeduplicationKey.opened rule.id;
  safe_context = rule.name;
}

-- No event is open: `triggered` after its first test.
unfoldable pub trigger_closed :
    AlertRule → ℕ → ℤ → AlertEvaluationState → AlertTransition × AlertEvaluationState
trigger_closed rule id now state =
    let since = get_or_insert state.pending_since now in
    if cooling rule state.last_resolved_at now
    then (unchanged, state)
    else if ltb (elapsed since now) (rule.debounce_seconds * 1000)
    then (
      unchanged,
      record {
        pending_since = some since;
        open_event = state.open_event;
        last_resolved_at = state.last_resolved_at;
      },
    )
    else (
      AlertTransition.opened (new_event rule id now),
      record {
        pending_since = none;
        open_event = some (new_event rule id now);
        last_resolved_at = state.last_resolved_at;
      },
    )

-- `triggered`, by the event that is open.
unfoldable pub on_triggered :
    AlertRule
    → ℕ
    → ℤ
    → Option AlertEvent
    → AlertEvaluationState
    → AlertTransition × AlertEvaluationState
on_triggered rule id now (some event) state = (unchanged, state)
on_triggered rule id now none state = trigger_closed rule id now state

abbrev pub resolve_event : ℤ → AlertEvent → AlertEvent
resolve_event now event = record {
  id = event.id;
  rule_id = event.rule_id;
  system_id = event.system_id;
  opened_at = event.opened_at;
  resolved_at = some now;
  state = AlertEventState.resolved;
  deduplication_key = DeduplicationKey.resolved event.rule_id event.id;
  safe_context = event.safe_context;
}

-- `recovered`, by the event that is open.
unfoldable pub on_recovered :
    ℤ → Option AlertEvent → AlertEvaluationState → AlertTransition × AlertEvaluationState
on_recovered now none state = (
  unchanged,
  record { pending_since = none; open_event = none; last_resolved_at = state.last_resolved_at },
)
on_recovered now (some event) state = (
  AlertTransition.recovered (resolve_event now event),
  record { pending_since = none; open_event = none; last_resolved_at = some now },
)

-- The match on the evaluation.
unfoldable pub transition :
    AlertRule
    → ℕ
    → ℤ
    → AlertEvaluation
    → AlertEvaluationState
    → AlertTransition × AlertEvaluationState
transition rule id now triggered state = on_triggered rule id now state.open_event state
transition rule id now clear state = on_recovered now state.open_event state
transition rule id now outside_schedule state = (unchanged, state)
transition rule id now insufficient_data state = (unchanged, state)
