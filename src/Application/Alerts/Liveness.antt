-- ===== src/Application/Alerts/Liveness.antt =====
-- A condition that goes on being met opens an alert.
use pvlog.Common.{
  ℕ, ◌*◌, ◌≤◌, ◌≡◌, ◌≢◌, refl, sym, ap, subst, ◌⊎◌, inl, inr, false, List, [], ◌∷◌, ◌++◌, Option,
  none, some, ltb, Bool-cases, ℤ, All, arith,
}
use pvlog.Application.Alerts.{
  AlertRule, AlertEvent, AlertEvaluation, triggered, clear, outside_schedule, insufficient_data,
  AlertEvaluationState, elapsed, cooling, get_or_insert, new_event, trigger_closed, on_triggered,
  on_recovered, transition,
}
use pvlog.Application.Alerts.Machine.{Input, state_after}

-- While an alert is awaited: it is open, or pending since the instant with the cooldown over.
data Awaits (since : ℤ) (last : Option ℤ) (state : AlertEvaluationState) : Type 0 where
  raised : (event : AlertEvent) → state.open_event ≡ some event → Awaits since last state
  pending :
      state.open_event ≡ none
      → state.pending_since ≡ some since
      → state.last_resolved_at ≡ last
      → Awaits since last state

trigger_closed-Awaits :
    (rule : AlertRule) (id : ℕ) (now since : ℤ) (state : AlertEvaluationState)
    → state.open_event ≡ none
    → get_or_insert state.pending_since now ≡ since
    → (cooling rule state.last_resolved_at now ≡ false) ⊎ (state.pending_since ≡ some since)
    → Awaits since state.last_resolved_at (trigger_closed rule id now state).1
unfolding trigger_closed
trigger_closed-Awaits rule id now since state o g c =
    elim (Bool-cases (cooling rule state.last_resolved_at now)) [
      | inl cool ↦ rw cool (pending o (elim c [ inl over ↦ cc | inr p ↦ p ]) refl)
      | inr over ↦
          elim (Bool-cases (
            ltb (elapsed (get_or_insert state.pending_since now) now)
              (rule.debounce_seconds * 1000))) [
                | inl early ↦ rw (over, early) (pending o (ap some g) refl)
                | inr due ↦ rw (over, due) (raised (new_event rule id now) refl)
              ]
    ]

transition-Awaits :
    (rule : AlertRule) (id : ℕ) (now since : ℤ) (last : Option ℤ) (evaluation : AlertEvaluation)
    (event : Option AlertEvent) (state : AlertEvaluationState)
    → state.open_event ≡ event
    → evaluation ≢ clear
    → Awaits since last state
    → Awaits since last (transition rule id now evaluation state).1
unfolding transition on_triggered on_recovered
transition-Awaits rule id now since last triggered (some event) state o n a = simp o a
transition-Awaits rule id now since last triggered none state o n a = simp o (elim a [
  | raised event r ↦ cc
  | pending closed p l ↦
      subst (λ x. Awaits since x (trigger_closed rule id now state).1) l
        (trigger_closed-Awaits rule id now since state closed (rw p refl) (inr p))
])
transition-Awaits rule id now since last clear event state o n a = absurd (n refl)
transition-Awaits rule id now since last outside_schedule event state o n a = a
transition-Awaits rule id now since last insufficient_data event state o n a = a

kept-Awaits :
    (rule : AlertRule) (since : ℤ) (last : Option ℤ) (middle older : List Input)
    → All (λ i. i.evaluation ≢ clear) middle
    → Awaits since last (state_after rule older)
    → Awaits since last (state_after rule (middle ++ older))
unfolding state_after
kept-Awaits rule since last [] older h a = a
kept-Awaits rule since last (i ∷ middle) older h a =
    transition-Awaits rule i.id i.now since last i.evaluation _ (state_after rule (middle ++ older))
      refl h.0 (kept-Awaits rule since last middle older h.1 a)

first-Awaits :
    (rule : AlertRule) (id : ℕ) (now : ℤ) (state : AlertEvaluationState)
    → state.open_event ≡ none
    → state.pending_since ≡ none
    → cooling rule state.last_resolved_at now ≡ false
    → Awaits now state.last_resolved_at (transition rule id now triggered state).1
unfolding transition on_triggered
first-Awaits rule id now state closed idle over =
    simp closed (trigger_closed-Awaits rule id now now state closed (rw idle refl) (inl over))

trigger_closed-opens :
    (rule : AlertRule) (id : ℕ) (now since : ℤ) (state : AlertEvaluationState)
    → state.pending_since ≡ some since
    → cooling rule state.last_resolved_at now ≡ false
    → rule.debounce_seconds * 1000 ≤ elapsed since now
    → (event : AlertEvent) × ((trigger_closed rule id now state).1.open_event ≡ some event)
unfolding trigger_closed
trigger_closed-opens rule id now since state p over long =
    let due : ltb (elapsed since now) (rule.debounce_seconds * 1000) ≡ false = ground arith in
    simp (p, over, due) (new_event rule id now, refl)

final_opens :
    (rule : AlertRule) (id : ℕ) (now since : ℤ) (last : Option ℤ) (state : AlertEvaluationState)
    → cooling rule last now ≡ false
    → rule.debounce_seconds * 1000 ≤ elapsed since now
    → Awaits since last state
    → (event : AlertEvent) × ((transition rule id now triggered state).1.open_event ≡ some event)
unfolding transition on_triggered
final_opens rule id now since last state over long (raised event r) = simp r (event, refl)
final_opens rule id now since last state over long (pending closed p l) =
    simp closed (trigger_closed-opens rule id now since state p (rw l over) long)

-- If no event is open and none is pending, the cooldown is over when the condition is met, and again when
-- it is met at least the debounce later, and no evaluation between found it cleared, then an event is open.
pub persistent_opens :
    (rule : AlertRule) (final first : Input) (middle older : List Input)
    → (state_after rule older).open_event ≡ none
    → (state_after rule older).pending_since ≡ none
    → first.evaluation ≡ triggered
    → final.evaluation ≡ triggered
    → All (λ i. i.evaluation ≢ clear) middle
    → cooling rule (state_after rule older).last_resolved_at first.now ≡ false
    → cooling rule (state_after rule older).last_resolved_at final.now ≡ false
    → rule.debounce_seconds * 1000 ≤ elapsed first.now final.now
    → (event : AlertEvent) × ((state_after rule (final ∷ (middle ++ (first ∷ older)))).open_event
        ≡ some event)
persistent_opens rule final first middle older closed idle met again kept cooled cooled_again long =
    let state = state_after rule older in
    let last = state.last_resolved_at in
    let begun : Awaits first.now last (state_after rule (first ∷ older)) =
      unfold state_after in
      subst (λ v. Awaits first.now last (transition rule first.id first.now v state).1) (sym met)
        (first-Awaits rule first.id first.now state closed idle cooled) in
    let waiting = kept-Awaits rule first.now last middle (first ∷ older) kept begun in
    unfold state_after in
    subst
      (λ v.
        (event : AlertEvent) × ((transition rule final.id final.now v
            (state_after rule (middle ++ (first ∷ older)))).1.open_event
          ≡ some event))
      (sym again) (final_opens rule final.id final.now first.now last _ cooled_again long waiting)
