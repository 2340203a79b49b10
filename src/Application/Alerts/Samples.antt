-- ===== src/Application/Alerts/Samples.antt =====
-- src/crates/application/src/alert_rules.rs and alert_evaluator.rs: a rule with a debounce of one minute.
use Prim.Native.String.{String}
use pvlog.Common.{
  ℕ, ◌≡◌, ◌≢◌, refl, ap, ◌*◌, ◌≤◌, inl, inr, Bool, true, false, not, ◌&&◌, List, [], ◌∷◌, ◌++◌,
  Option, none, some, ◌==◌, if◌then◌else◌, Bool-cases, ℤ, pos, All, Result, ok, err, arith, ==_refl,
  ==_iff,
}
use pvlog.Common.Stateful.{Outcome, Ends}
use pvlog.Application.Alerts.{
  AlertRule, AlertEvent, AlertMetrics, generation_below, AlertEvaluation, triggered, clear,
  insufficient_data, AlertEvaluationState, AlertTransition, opened, new_event, default_state,
  elapsed, cooling,
}
use pvlog.Application.Alerts.Machine.{
  Input, step, state_after, transitions, Alternates, history-Alternates,
}
use pvlog.Application.Alerts.Timing.{Due, step-Due}
use pvlog.Application.Alerts.Liveness.{persistent_opens}
use pvlog.Application.Alerts.Evaluator.{
  AlertEvaluatorMetrics, AlertEvaluatorRepository, EvaluatorLaws, input_of, evaluate,
  evaluate-state_after,
}
use pvlog.Application.Alerts.Rules.{
  CreateAlertRule, UpdateAlertRule, AlertRuleRepository, create, get, update_rule, delete_rule,
}
use pvlog.Application.Alerts.Rules.Fields.{Gives, Changes}
use pvlog.Application.Alerts.Rules.Validity.{IsValid, RuleLaws, rules_stay-IsValid}

abbrev rule : AlertRule
rule = record {
  id = 1;
  account_id = 2;
  system_id = 3;
  name = 65 ∷ [];
  kind = generation_below (pos 100);
  schedule = record {
    timezone = "UTC";
    weekdays = 1 ∷ [];
    start_minute_local = 360;
    end_minute_local = 1200;
  };
  debounce_seconds = 60;
  cooldown_seconds = 300;
  delivery_channels = [];
  enabled = true;
}

abbrev at : ℕ → AlertEvaluation → Input
at seconds evaluation = record { id = seconds; now = pos (seconds * 1000); evaluation = evaluation }

-- Met at ten seconds, without data at forty.
abbrev waiting : List Input
waiting = at 40 insufficient_data ∷ at 10 triggered ∷ []

-- Opened at seventy seconds, cleared at eighty.
abbrev earlier : List Input
earlier = at 80 clear ∷ at 70 triggered ∷ waiting

history-Alternates_example :
    Alternates rule earlier (transitions rule earlier) (state_after rule earlier).open_event
history-Alternates_example = history-Alternates rule earlier

-- Met again at four hundred seconds, after the cooldown of three hundred.
abbrev recovered_before : List Input
recovered_before = at 400 triggered ∷ earlier

opens_again :
    (step rule (at 460 triggered) (state_after rule recovered_before)).0
    ≡ opened (new_event rule 460 (pos 460000))
unfolding state_after pvlog.Application.Alerts.transition pvlog.Application.Alerts.on_triggered
    pvlog.Application.Alerts.trigger_closed pvlog.Application.Alerts.cooling elapsed
    pvlog.Common.◌-ℤ◌ pvlog.Application.Alerts.on_recovered
opens_again = refl

step-Due_example : Due rule (at 460 triggered) recovered_before (new_event rule 460 (pos 460000))
step-Due_example =
    step-Due rule (at 460 triggered) recovered_before (new_event rule 460 (pos 460000)) opens_again

no_event : (state_after rule []).open_event ≡ none
unfolding state_after
no_event = refl

none_pending : (state_after rule []).pending_since ≡ none
unfolding state_after
none_pending = refl

cooled : (now : ℤ) → cooling rule (state_after rule []).last_resolved_at now ≡ false
unfolding state_after cooling
cooled now = refl

a_minute : 60 * 1000 ≤ elapsed (pos 10000) (pos 70000)
unfolding elapsed pvlog.Common.◌-ℤ◌
a_minute = ground arith

persistent_opens_example :
    (event : AlertEvent) × ((state_after rule
        (at 70 triggered ∷ ((at 40 insufficient_data ∷ []) ++ (at 10 triggered ∷ [])))).open_event
      ≡ some event)
persistent_opens_example =
    persistent_opens rule (at 70 triggered) (at 10 triggered) (at 40 insufficient_data ∷ []) []
      no_event none_pending refl refl ((λ e. cc), tt) (cooled (pos 10000)) (cooled (pos 70000))
      a_minute

abbrev calendar : String → ℤ → Option (ℕ × ℕ)
calendar zone instant = some (1, 600)

-- A repository whose world is the table of states.
abbrev States : Type 0
States = ℕ → AlertEvaluationState

abbrev table : AlertEvaluatorRepository States
table = record {
  state = λ id w. (ok (w id), w);
  commit = λ id s t w. (ok tt, λ other. if other == id then s else w other);
}

other_test : (a b : ℕ) → a ≢ b → (a == b) ≡ false
other_test a b n = ground (arith, n)

table_laws : EvaluatorLaws States table (λ w. w)
table_laws = record {
  reads = λ id w. unfold Ends in (refl, refl);
  commits =
      λ id s t w. unfold Ends in (rw (==_refl id) refl, λ other n. rw (other_test other id n) refl);
}

abbrev low : AlertMetrics
low = record {
  idle_seconds = none;
  generation_watts = some (pos 5);
  consumption_watts = none;
  net_power_watts = none;
  standby_cost_milli_cents = none;
  performance_basis_points = none;
  battery_basis_points = none;
  daily_energy_wh = none;
  extended_scaled = λ key. none;
}

abbrev nothing_counted : AlertEvaluatorMetrics
nothing_counted = record { evaluations = 0; maximum_lag_milliseconds = 0 }

evaluate-state_after_example :
    Ends
      (λ (u : AlertEvaluatorMetrics × States). u.1 ≡ (λ id. default_state))
      (λ t (u : AlertEvaluatorMetrics × States).
        (t
          ≡ (step rule
              (input_of calendar rule low (pos 9000) (pos 10000) 7)
              (state_after rule [])).0)
        × (u.1 1 ≡ state_after rule (input_of calendar rule low (pos 9000) (pos 10000) 7 ∷ []))
        × ((other : ℕ) → other ≢ 1 → u.1 other ≡ default_state))
      (evaluate calendar States table rule low
        (pos 9000)
        (pos 10000)
        7
        (nothing_counted, λ id. default_state))
evaluate-state_after_example =
    evaluate-state_after calendar table (λ w. w) table_laws rule low (pos 9000) (pos 10000) 7
      nothing_counted (λ id. default_state) [] begins
  where
    begins : default_state ≡ state_after rule []
    begins = unfold state_after in refl

-- A repository that holds at most one rule.
abbrev holds : ℕ → ℕ → Option AlertRule → Option AlertRule
holds account_id id none = none
holds account_id id (some r) = if (r.id == id) && (r.account_id == account_id) then some r else none

abbrev one_rule : AlertRuleRepository (Option AlertRule)
one_rule = record {
  save = λ r w. (ok tt, some r);
  find = λ account_id id w. (ok (holds account_id id w), w);
  list = λ account_id system_id w. (ok [], w);
  delete = λ account_id id w. (ok true, none);
}

abbrev AllValid : Option AlertRule → Type 0
AllValid none = Unit {0}
AllValid (some r) = IsValid r

holds_own :
    (account_id id : ℕ) (w : Option AlertRule) (r : AlertRule)
    → holds account_id id w ≡ some r
    → (r.id ≡ id) × (r.account_id ≡ account_id)
holds_own account_id id none r e = cc
holds_own account_id id (some s) r e =
    elim (Bool-cases ((s.id == id) && (s.account_id == account_id))) [
      | inr other ↦ absurd (clash (rw other at e))
      | inl same ↦
          let kept : s ≡ r = ap (λ o. elim o [ none ↦ s | some x ↦ x ]) (rw same at e) in
          (rw (← kept) (ground arith), rw (← kept) (ground arith))
    ]
  where
    clash : none ≡ some r → ⊥
    clash p = cc

one_rule_laws : RuleLaws (Option AlertRule) one_rule AllValid
one_rule_laws = record {
  saves = λ r w v h. unfold Outcome in (v, tt);
  finds = λ account_id id w h. unfold Outcome in (h, (λ r e. holds_own account_id id w r e));
  deletes = λ account_id id w h. unfold Outcome in (tt, tt);
}

abbrev new_rule : CreateAlertRule
new_rule = record {
  account_id = 2;
  system_id = 3;
  name = 65 ∷ [];
  kind = generation_below (pos 100);
  schedule = record {
    timezone = "UTC";
    weekdays = 1 ∷ [];
    start_minute_local = 360;
    end_minute_local = 1200;
  };
  debounce_seconds = 60;
  cooldown_seconds = 300;
  delivery_channels = [];
  enabled = true;
}

abbrev switch_off : UpdateAlertRule
switch_off = record { name = none; kind = none; schedule = none; enabled = some false }

rule-IsValid : IsValid rule
unfolding pvlog.Common.Text.trims_to_empty
rule-IsValid = record {
  named = refl;
  weekdays = ((omega arith, omega arith), tt);
  start = omega arith;
  end = omega arith;
}

rules_stay-IsValid_example :
    Outcome AllValid
      (λ saved v. Gives 1 new_rule saved × IsValid saved)
      (create (Option AlertRule) one_rule 1 new_rule (some rule))
    × Outcome AllValid
        (λ r v. (r.id ≡ 1) × (r.account_id ≡ 2) × ((one_rule.find 2 1 (some rule)).0 ≡ ok (some r)))
        (get (Option AlertRule) one_rule 2 1 (some rule))
    × Outcome AllValid
        (λ saved v.
          (r : AlertRule) × Changes switch_off r saved
          × (r.id ≡ 1)
          × (r.account_id ≡ 2)
          × ((one_rule.find 2 1 (some rule)).0 ≡ ok (some r))
          × IsValid saved)
        (update_rule (Option AlertRule) one_rule 2 1 switch_off (some rule))
    × Outcome AllValid
        (λ done v. Unit {0})
        (delete_rule (Option AlertRule) one_rule 2 1 (some rule))
rules_stay-IsValid_example =
    rules_stay-IsValid one_rule AllValid one_rule_laws 2 1 new_rule switch_off (some rule)
      rule-IsValid
