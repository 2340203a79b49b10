-- ===== src/Application/Alerts/Machine.antt =====
-- The alerts of a rule as a state machine. A history is the evaluations of the rule with the latest first.
use pvlog.Common.{
  ℕ, ◌≡◌, refl, inl, inr, List, [], ◌∷◌, Option, none, some, ltb, ◌*◌, Bool-cases, ℤ,
}
use pvlog.Application.Alerts.{
  AlertRule, AlertEvent, AlertEventState, DeduplicationKey, AlertEvaluation, triggered, clear,
  outside_schedule, insufficient_data, AlertEvaluationState, AlertTransition, unchanged, opened,
  recovered, elapsed, cooling, get_or_insert, new_event, resolve_event, default_state,
  trigger_closed, on_triggered, on_recovered, transition,
}

-- An evaluation at an instant, with the identifier that a new event would get.
pub record Input : Type 0 where
  pub id : ℕ
  pub now : ℤ
  pub evaluation : AlertEvaluation

abbrev pub step : AlertRule → Input → AlertEvaluationState → AlertTransition × AlertEvaluationState
step rule i state = transition rule i.id i.now i.evaluation state

-- The state that a history leads to, from the default one, and the transitions on the way, latest first.
unfoldable pub state_after : AlertRule → List Input → AlertEvaluationState
state_after rule [] = default_state
state_after rule (i ∷ history) = (step rule i (state_after rule history)).1

unfoldable pub transitions : AlertRule → List Input → List AlertTransition
transitions rule [] = []
transitions rule (i ∷ history) =
    (step rule i (state_after rule history)).0 ∷ transitions rule history

-- An event that opens at an evaluation: of the rule, from its instant on, and not resolved.
pub record Opens (rule : AlertRule) (i : Input) (event : AlertEvent) : Type 0 where
  pub own_id : event.id ≡ i.id
  pub of_rule : event.rule_id ≡ rule.id
  pub of_system : event.system_id ≡ rule.system_id
  pub from_now : event.opened_at ≡ i.now
  pub unresolved : event.resolved_at ≡ none
  pub is_new : event.state ≡ AlertEventState.is_open
  pub key : event.deduplication_key ≡ DeduplicationKey.opened rule.id
  pub context : event.safe_context ≡ rule.name

-- An event as it is after it recovered at an evaluation: resolved at its instant, and else the same.
pub record Resolves (i : Input) (event after : AlertEvent) : Type 0 where
  pub same_id : after.id ≡ event.id
  pub same_rule : after.rule_id ≡ event.rule_id
  pub same_system : after.system_id ≡ event.system_id
  pub same_start : after.opened_at ≡ event.opened_at
  pub same_context : after.safe_context ≡ event.safe_context
  pub resolved_now : after.resolved_at ≡ some i.now
  pub is_resolved : after.state ≡ AlertEventState.resolved
  pub key : after.deduplication_key ≡ DeduplicationKey.resolved event.rule_id event.id

-- What a transition makes of the event that is open: an event opens where none is open, and what recovers
-- is the event that is open.
pub data Moves (rule : AlertRule) (i : Input)
    : Option AlertEvent → AlertTransition → Option AlertEvent → Type 0 where
  stays : {event : Option AlertEvent} → Moves rule i event unchanged event
  opens : {event : AlertEvent} → Opens rule i event → Moves rule i none (opened event) (some event)
  recovers :
      {event after : AlertEvent}
      → Resolves i event after
      → Moves rule i (some event) (recovered after) none

-- The transitions of a history, latest first, lead from no event to the event that is open at the end.
pub data Alternates (rule : AlertRule)
    : List Input → List AlertTransition → Option AlertEvent → Type 0 where
  start : Alternates rule [] [] none
  next :
      {i : Input} {history : List Input} {t : AlertTransition} {ts : List AlertTransition}
      {before after : Option AlertEvent}
      → Moves rule i before t after
      → Alternates rule history ts before
      → Alternates rule (i ∷ history) (t ∷ ts) after

pub new_event-Opens : (rule : AlertRule) (i : Input) → Opens rule i (new_event rule i.id i.now)
new_event-Opens rule i = record {
  own_id = refl;
  of_rule = refl;
  of_system = refl;
  from_now = refl;
  unresolved = refl;
  is_new = refl;
  key = refl;
  context = refl;
}

resolve_event-Resolves :
    (i : Input) (event : AlertEvent) → Resolves i event (resolve_event i.now event)
resolve_event-Resolves i event = record {
  same_id = refl;
  same_rule = refl;
  same_system = refl;
  same_start = refl;
  same_context = refl;
  resolved_now = refl;
  is_resolved = refl;
  key = refl;
}

trigger_closed-Moves :
    (rule : AlertRule) (i : Input) (state : AlertEvaluationState)
    → state.open_event ≡ none
    → Moves rule i none
        (trigger_closed rule i.id i.now state).0
        (trigger_closed rule i.id i.now state).1.open_event
unfolding trigger_closed
trigger_closed-Moves rule i state h =
    elim (Bool-cases (cooling rule state.last_resolved_at i.now)) [
      | inl cool ↦ rw (cool, h) stays
      | inr over ↦
          elim (Bool-cases (
            ltb (elapsed (get_or_insert state.pending_since i.now) i.now)
              (rule.debounce_seconds * 1000))) [
                | inl early ↦ rw (over, early, h) stays
                | inr due ↦ rw (over, due) (opens (new_event-Opens rule i))
              ]
    ]

on_triggered-Moves :
    (rule : AlertRule) (i : Input) (event : Option AlertEvent) (state : AlertEvaluationState)
    → state.open_event ≡ event
    → Moves rule i event
        (on_triggered rule i.id i.now event state).0
        (on_triggered rule i.id i.now event state).1.open_event
unfolding on_triggered
on_triggered-Moves rule i none state h = trigger_closed-Moves rule i state h
on_triggered-Moves rule i (some event) state h = rw h stays

on_recovered-Moves :
    (rule : AlertRule) (i : Input) (event : Option AlertEvent) (state : AlertEvaluationState)
    → Moves rule i event
        (on_recovered i.now event state).0
        (on_recovered i.now event state).1.open_event
unfolding on_recovered
on_recovered-Moves rule i none state = stays
on_recovered-Moves rule i (some event) state = recovers (resolve_event-Resolves i event)

transition-Moves :
    (rule : AlertRule) (i : Input) (evaluation : AlertEvaluation) (state : AlertEvaluationState)
    → Moves rule i state.open_event
        (transition rule i.id i.now evaluation state).0
        (transition rule i.id i.now evaluation state).1.open_event
unfolding transition
transition-Moves rule i triggered state = on_triggered-Moves rule i state.open_event state refl
transition-Moves rule i clear state = on_recovered-Moves rule i state.open_event state
transition-Moves rule i outside_schedule state = stays
transition-Moves rule i insufficient_data state = stays

-- Over any history of a rule, an event opens only where none is open, of the rule and from the instant of
-- its evaluation on, only the event that is open recovers, as it was but resolved at the instant of that
-- evaluation, and the state holds the event that is open.
pub history-Alternates :
    (rule : AlertRule) (history : List Input)
    → Alternates rule history (transitions rule history) (state_after rule history).open_event
unfolding state_after transitions
history-Alternates rule [] = start
history-Alternates rule (i ∷ history) =
    next (transition-Moves rule i i.evaluation (state_after rule history))
      (history-Alternates rule history)
