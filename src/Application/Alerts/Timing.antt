-- ===== src/Application/Alerts/Timing.antt =====
-- An alert opens after its debounce and its cooldown, and not before.
use pvlog.Common.{
  subst, some_injective, ◌*◌, ◌≡◌, ◌≢◌, refl, sym, ap, ◌∙◌, inl, inr, List, [], ◌∷◌, Option, none,
  some, ltb, Bool-cases, ℤ, arith,
}
use pvlog.Application.Alerts.{
  AlertRule, AlertEvent, AlertEvaluation, triggered, clear, outside_schedule, insufficient_data,
  AlertEvaluationState, AlertTransition, elapsed, cooling, get_or_insert, trigger_closed,
  on_triggered, on_recovered, transition,
}
use pvlog.Application.Alerts.Machine.{Input, step, state_after, Opens, new_event-Opens}
use pvlog.Application.Alerts.Cooldown.{
  Lasted, elapsed-Lasted, LastRecovery, Cooled, cooling-Cooled, last-LastRecovery,
}

-- The condition was met at an instant, and no evaluation since then found it cleared.
pub data Held (since : ℤ) : List Input → Type 0 where
  met :
      {i : Input} {older : List Input}
      → i.evaluation ≡ triggered
      → i.now ≡ since
      → Held since (i ∷ older)
  kept :
      {i : Input} {older : List Input}
      → i.evaluation ≢ clear
      → Held since older
      → Held since (i ∷ older)

abbrev HeldBy : AlertEvaluationState → List Input → Type 0
HeldBy state history = (since : ℤ) → state.pending_since ≡ some since → Held since history

inserted-Held :
    (since : ℤ) (pending : Option ℤ) (i : Input) (history : List Input)
    → i.evaluation ≡ triggered
    → ((s : ℤ) → pending ≡ some s → Held s history)
    → get_or_insert pending i.now ≡ since
    → Held since (i ∷ history)
inserted-Held since none i history t h e = met t e
inserted-Held since (some s) i history t h e =
    kept (λ c. absurd (clash (sym t ∙ c))) (h since (ap some e))
  where
    clash : triggered ≡ clear → ⊥
    clash p = cc

trigger_closed-Held :
    (rule : AlertRule) (i : Input) (state : AlertEvaluationState) (history : List Input)
    → i.evaluation ≡ triggered
    → HeldBy state history
    → HeldBy state (i ∷ history)
    → HeldBy (trigger_closed rule i.id i.now state).1 (i ∷ history)
unfolding trigger_closed
trigger_closed-Held rule i state history t h k since =
    elim (Bool-cases (cooling rule state.last_resolved_at i.now)) [
      | inl cool ↦ rw cool (k since)
      | inr over ↦
          elim (Bool-cases (
            ltb (elapsed (get_or_insert state.pending_since i.now) i.now)
              (rule.debounce_seconds * 1000))) [
                | inl early ↦
                    rw (over, early)
                      (λ e.
                        inserted-Held since state.pending_since i history t h
                          (some_injective _ since e))
                | inr due ↦ rw (over, due) (λ e. cc)
              ]
    ]

transition-Held :
    (rule : AlertRule) (i : Input) (evaluation : AlertEvaluation) (event : Option AlertEvent)
    (state : AlertEvaluationState) (history : List Input)
    → i.evaluation ≡ evaluation
    → state.open_event ≡ event
    → HeldBy state history
    → HeldBy (transition rule i.id i.now evaluation state).1 (i ∷ history)
unfolding transition on_triggered on_recovered
transition-Held rule i triggered none state history t o h =
    simp o (trigger_closed-Held rule i state history t h (λ s e. kept (λ c. cc) (h s e)))
transition-Held rule i triggered (some event) state history t o h =
    simp o (λ s e. kept (λ c. cc) (h s e))
transition-Held rule i clear none state history t o h = simp o (λ s e. cc)
transition-Held rule i clear (some event) state history t o h = simp o (λ s e. cc)
transition-Held rule i outside_schedule event state history t o h = λ s e. kept (λ c. cc) (h s e)
transition-Held rule i insufficient_data event state history t o h = λ s e. kept (λ c. cc) (h s e)

pending-Held : (rule : AlertRule) (history : List Input) → HeldBy (state_after rule history) history
unfolding state_after
pending-Held rule [] = λ since e. cc
pending-Held rule (i ∷ history) =
    transition-Held rule i i.evaluation _ (state_after rule history) history refl refl
      (pending-Held rule history)

-- An opening is due: the cooldown since the latest recovery is over, and so is the debounce since an
-- instant at which the condition was met and has not been found cleared since.
pub record Due (rule : AlertRule) (i : Input) (history : List Input) (event : AlertEvent)
    : Type 0 where
  pub event_of : Opens rule i event
  pub met_now : i.evaluation ≡ triggered
  pub none_open : (state_after rule history).open_event ≡ none
  pub last : Option ℤ
  pub recovered_last : LastRecovery rule history last
  pub cooled : Cooled rule last i.now
  pub since : ℤ
  pub held : Held since (i ∷ history)
  pub debounced : Lasted (rule.debounce_seconds * 1000) since i.now

opened_injective : (a b : AlertEvent) → AlertTransition.opened a ≡ AlertTransition.opened b → a ≡ b
opened_injective a b e = ap (λ t. elim t [ AlertTransition.opened c ↦ c | _ ↦ a ]) e

trigger_closed-Due :
    (rule : AlertRule) (i : Input) (history : List Input) (event : AlertEvent)
    → i.evaluation ≡ triggered
    → (state_after rule history).open_event ≡ none
    → (trigger_closed rule i.id i.now (state_after rule history)).0 ≡ AlertTransition.opened event
    → Due rule i history event
unfolding trigger_closed
trigger_closed-Due rule i history event t o =
    let state = state_after rule history in
    let since = get_or_insert state.pending_since i.now in
    elim (Bool-cases (cooling rule state.last_resolved_at i.now)) [
      | inl cool ↦ rw cool (λ e. cc)
      | inr over ↦ elim (Bool-cases (ltb (elapsed since i.now) (rule.debounce_seconds * 1000))) [
        | inl early ↦ rw (over, early) (λ e. cc)
        | inr due ↦
            rw (over, due)
              (λ e. record {
                event_of =
                    subst (Opens rule i) (opened_injective _ event e) (new_event-Opens rule i);
                met_now = t;
                none_open = o;
                last = state.last_resolved_at;
                recovered_last = last-LastRecovery rule history;
                cooled = cooling-Cooled rule state.last_resolved_at i.now over;
                since = since;
                held =
                    inserted-Held since state.pending_since i history t (pending-Held rule history)
                      refl;
                debounced = elapsed-Lasted _ since i.now (ground arith);
              })
      ]
    ]

transition-Due :
    (rule : AlertRule) (i : Input) (evaluation : AlertEvaluation) (open_event : Option AlertEvent)
    (history : List Input) (event : AlertEvent)
    → i.evaluation ≡ evaluation
    → (state_after rule history).open_event ≡ open_event
    → (transition rule i.id i.now evaluation (state_after rule history)).0
      ≡ AlertTransition.opened event
    → Due rule i history event
unfolding transition on_triggered on_recovered
transition-Due rule i triggered none history event t o =
    simp o (trigger_closed-Due rule i history event t o)
transition-Due rule i triggered (some e) history event t o = simp o (λ e. cc)
transition-Due rule i clear none history event t o = simp o (λ e. cc)
transition-Due rule i clear (some e) history event t o = simp o (λ e. cc)
transition-Due rule i outside_schedule e history event t o = λ e. cc
transition-Due rule i insufficient_data e history event t o = λ e. cc

-- After any history, if an evaluation opens an event, then the event is of the rule and from that instant
-- on, the evaluation met the condition with no event open, the cooldown has passed since the latest
-- evaluation at which an event recovered, if there is one, and the condition was met at an instant that
-- lies at least the debounce back and was found cleared at no evaluation since. A cooldown or debounce of
-- zero asks nothing of the instants.
pub step-Due :
    (rule : AlertRule) (i : Input) (history : List Input) (event : AlertEvent)
    → (step rule i (state_after rule history)).0 ≡ AlertTransition.opened event
    → Due rule i history event
step-Due rule i history event = transition-Due rule i i.evaluation _ history event refl refl
