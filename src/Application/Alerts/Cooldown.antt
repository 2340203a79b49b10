-- ===== src/Application/Alerts/Cooldown.antt =====
-- When an event of a rule recovered last, and whether the cooldown since then is over.
use pvlog.Common.{
  ℕ, ◌^◌, pos, negsuc, ◌-ℤ◌, ◌≤ℤ◌, ◌⊎◌, ◌*◌, ◌≤◌, ◌≡◌, ◌≢◌, refl, inl, inr, false, List, [], ◌∷◌,
  Option, none, some, ltb, Bool-cases, ℤ, arith,
}
use pvlog.Application.Alerts.{
  AlertRule, AlertEvent, AlertEvaluation, triggered, clear, outside_schedule, insufficient_data,
  AlertEvaluationState, AlertTransition, elapsed, u64_or_zero, cooling, get_or_insert,
  resolve_event, trigger_closed, on_triggered, on_recovered, transition,
}
use pvlog.Application.Alerts.Machine.{Input, step, state_after}

-- At least so many milliseconds lie between two instants, if any are asked for.
pub Lasted : ℕ → ℤ → ℤ → Type 0
Lasted n since now = (n ≡ 0) ⊎ (pos n ≤ℤ (now -ℤ since))

long_enough : (n : ℕ) (d : ℤ) → n ≤ u64_or_zero d → (n ≡ 0) ⊎ (pos n ≤ℤ d)
long_enough n (negsuc m) h = inl (omega (arith, h))
long_enough n (pos m) h = elim (Bool-cases (ltb m (2 ^ 64))) [
  | inl small ↦ let k : n ≤ m = rw small at h in inr (omega (arith, k))
  | inr large ↦ let k : n ≤ 0 = rw large at h in inl (omega (arith, k))
]

pub elapsed-Lasted : (n : ℕ) (since now : ℤ) → n ≤ elapsed since now → Lasted n since now
unfolding elapsed Lasted
elapsed-Lasted n since now h = long_enough n (now -ℤ since) h

-- The instant of the latest evaluation of a history at which an event recovered, if there is one.
pub data LastRecovery (rule : AlertRule) : List Input → Option ℤ → Type 0 where
  never : LastRecovery rule [] none
  here :
      {i : Input} {older : List Input} {event : AlertEvent}
      → (step rule i (state_after rule older)).0 ≡ AlertTransition.recovered event
      → LastRecovery rule (i ∷ older) (some i.now)
  before :
      {i : Input} {older : List Input} {at : Option ℤ}
      → ((event : AlertEvent)
          → (step rule i (state_after rule older)).0 ≢ AlertTransition.recovered event)
      → LastRecovery rule older at
      → LastRecovery rule (i ∷ older) at

-- The cooldown of a rule after its latest recovery is over.
pub Cooled : AlertRule → Option ℤ → ℤ → Type 0
Cooled rule none now = Unit {0}
Cooled rule (some at) now = Lasted (rule.cooldown_seconds * 1000) at now

pub cooling-Cooled :
    (rule : AlertRule) (last : Option ℤ) (now : ℤ)
    → cooling rule last now ≡ false
    → Cooled rule last now
unfolding cooling Cooled
cooling-Cooled rule none now h = tt
cooling-Cooled rule (some at) now h = elapsed-Lasted _ at now (ground arith)

-- A transition recovers an event and records its instant, or does neither.
Keeps : ℤ → Option ℤ → AlertTransition × AlertEvaluationState → Type 0
Keeps now last r =
    ((event : AlertEvent) × (r.0 ≡ AlertTransition.recovered event)
      × (r.1.last_resolved_at ≡ some now))
    ⊎ (((event : AlertEvent) → r.0 ≢ AlertTransition.recovered event)
        × (r.1.last_resolved_at ≡ last))

trigger_closed-Keeps :
    (rule : AlertRule) (id : ℕ) (now : ℤ) (state : AlertEvaluationState)
    → Keeps now state.last_resolved_at (trigger_closed rule id now state)
unfolding trigger_closed Keeps
trigger_closed-Keeps rule id now state =
    elim (Bool-cases (cooling rule state.last_resolved_at now)) [
      | inl cool ↦ rw cool (inr ((λ event e. cc), refl))
      | inr over ↦
          elim (Bool-cases (
            ltb (elapsed (get_or_insert state.pending_since now) now)
              (rule.debounce_seconds * 1000))) [
                | inl early ↦ rw (over, early) (inr ((λ event e. cc), refl))
                | inr due ↦ rw (over, due) (inr ((λ event e. cc), refl))
              ]
    ]

transition-Keeps :
    (rule : AlertRule) (id : ℕ) (now : ℤ) (evaluation : AlertEvaluation)
    (open_event : Option AlertEvent) (state : AlertEvaluationState)
    → state.open_event ≡ open_event
    → Keeps now state.last_resolved_at (transition rule id now evaluation state)
unfolding transition on_triggered on_recovered Keeps
transition-Keeps rule id now triggered none state o =
    simp o (trigger_closed-Keeps rule id now state)
transition-Keeps rule id now triggered (some event) state o = simp o (inr ((λ event e. cc), refl))
transition-Keeps rule id now clear none state o = simp o (inr ((λ event e. cc), refl))
transition-Keeps rule id now clear (some event) state o =
    simp o (inl (resolve_event now event, refl, refl))
transition-Keeps rule id now outside_schedule open_event state o = inr ((λ event e. cc), refl)
transition-Keeps rule id now insufficient_data open_event state o = inr ((λ event e. cc), refl)

pub last-LastRecovery :
    (rule : AlertRule) (history : List Input)
    → LastRecovery rule history (state_after rule history).last_resolved_at
unfolding state_after Keeps
last-LastRecovery rule [] = never
last-LastRecovery rule (i ∷ history) =
    elim (transition-Keeps rule i.id i.now i.evaluation _ (state_after rule history) refl) [
      | inl (event, recovers, e) ↦ rw e (here recovers)
      | inr (other, e) ↦ rw e (before other (last-LastRecovery rule history))
    ]
