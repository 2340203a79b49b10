-- ===== src/Application/Alerts/Evaluator.antt =====
-- src/crates/application/src/alert_evaluator.rs: the evaluator over its repository.
-- The repository is the trait's operations on a world; the evaluator's metrics stand beside the world. The
-- lock of the metrics, which no code panics under, is left out.
use Prim.Native.String.{String}
use pvlog.Common.{
  ℕ, ◌+◌, ◌-◌, ◌^◌, ◌≡◌, ◌≢◌, ap, subst, ◌∙◌, min, max, List, ◌∷◌, Option, ℤ, Result, ok, err,
}
use pvlog.Common.Stateful.{
  Stateful, ◌>>=◌, ◌>>◌, and_then, returning, Ends, Ends-and_then, Ends-map,
}
use pvlog.Application.Alerts.{
  AlertRule, AlertMetrics, AlertEvaluationState, AlertTransition, elapsed, evaluate_alert,
}
use pvlog.Application.Alerts.Machine.{Input, step, state_after}

pub data AlertEvaluatorError : Type 0 where
  unavailable : AlertEvaluatorError

pub record AlertEvaluatorMetrics : Type 0 where
  pub evaluations : ℕ
  pub maximum_lag_milliseconds : ℕ

pub record AlertEvaluatorRepository (W : Type 0) : Type 0 where
  pub state : ℕ → Stateful W AlertEvaluatorError AlertEvaluationState
  pub commit :
      ℕ → AlertEvaluationState → AlertTransition → Stateful W AlertEvaluatorError (Unit {0})

unfoldable pub observe_lag : ℤ → ℤ → AlertEvaluatorMetrics → AlertEvaluatorMetrics
observe_lag now through metrics = record {
  evaluations = min (metrics.evaluations + 1) (2 ^ 64 - 1);
  maximum_lag_milliseconds = max metrics.maximum_lag_milliseconds (elapsed through now);
}

-- The repository's part of an evaluation.
module _ (W : Type 0) (repository : AlertEvaluatorRepository W) (rule : AlertRule) where
  unfoldable pub evaluate_stored : Input → Stateful W AlertEvaluatorError AlertTransition
  evaluate_stored input = do
    state ← repository.state rule.id
    repository.commit rule.id (step rule input state).1 (step rule input state).0
    returning (ok (step rule input state).0)

-- What the state machine takes of an evaluation.
abbrev pub input_of : (String → ℤ → Option (ℕ × ℕ)) → AlertRule → AlertMetrics → ℤ → ℤ → ℕ → Input
input_of calendar rule values evaluated_through now id = record {
  id = id;
  now = now;
  evaluation = evaluate_alert calendar rule values evaluated_through;
}

module _ (calendar : String → ℤ → Option (ℕ × ℕ)) (W : Type 0)
    (repository : AlertEvaluatorRepository W) where
  unfoldable pub evaluate :
      AlertRule
      → AlertMetrics
      → ℤ
      → ℤ
      → ℕ
      → Stateful (AlertEvaluatorMetrics × W) AlertEvaluatorError AlertTransition
  evaluate rule values evaluated_through now id (metrics, w) =
      let (result, after) =
        evaluate_stored W repository rule (input_of calendar rule values evaluated_through now id)
          w in
      (result, (observe_lag now evaluated_through metrics, after))

-- What the trait promises: a repository records a state for each rule, `state` reads it, and `commit`
-- replaces the one of its rule or, if it fails, nothing.
pub record EvaluatorLaws (W : Type 0) (repository : AlertEvaluatorRepository W)
    (recorded : W → ℕ → AlertEvaluationState) : Type 0 where
  pub reads :
      (rule : ℕ) (w : W)
      → Ends
          (λ v. recorded v ≡ recorded w)
          (λ s v. (recorded v ≡ recorded w) × (s ≡ recorded w rule))
          (repository.state rule w)
  pub commits :
      (rule : ℕ) (s : AlertEvaluationState) (t : AlertTransition) (w : W)
      → Ends
          (λ v. recorded v ≡ recorded w)
          (λ done v.
            (recorded v rule ≡ s)
            × ((other : ℕ) → other ≢ rule → recorded v other ≡ recorded w other))
          (repository.commit rule s t w)

module _ {W : Type 0} (repository : AlertEvaluatorRepository W)
    (recorded : W → ℕ → AlertEvaluationState) (laws : EvaluatorLaws W repository recorded)
    (rule : AlertRule) where
  -- A step of the state machine has been recorded, and its transition returned.
  abbrev pub Stepped : Input → W → AlertTransition → W → Type 0
  Stepped input w t v =
      (t ≡ (step rule input (recorded w rule.id)).0)
      × (recorded v rule.id ≡ (step rule input (recorded w rule.id)).1)
      × ((other : ℕ) → other ≢ rule.id → recorded v other ≡ recorded w other)

  evaluate_stored-Stepped :
      (input : Input) (w : W)
      → Ends
          (λ v. recorded v ≡ recorded w)
          (Stepped input w)
          (evaluate_stored W repository rule input w)
  unfolding evaluate_stored
  evaluate_stored-Stepped input w =
      Ends-and_then _ (λ s v. (recorded v ≡ recorded w) × (s ≡ recorded w rule.id))
        (Stepped input w) _ _ (laws.reads rule.id w) (λ s v h. committed s v h)
    where
      committed :
          (s : AlertEvaluationState) (v : W)
          → (recorded v ≡ recorded w) × (s ≡ recorded w rule.id)
          → Ends
              (λ v. recorded v ≡ recorded w)
              (Stepped input w)
              (and_then
                (λ done. returning (ok (step rule input s).0))
                (repository.commit rule.id (step rule input s).1 (step rule input s).0 v))
      committed s v h =
          Ends-and_then _
            (λ done u.
              (recorded u rule.id ≡ (step rule input s).1)
              × ((other : ℕ) → other ≢ rule.id → recorded u other ≡ recorded w other))
            (Stepped input w) _ _
            (Ends-map _ _ _ _
              (repository.commit rule.id (step rule input s).1 (step rule input s).0 v)
              (laws.commits rule.id (step rule input s).1 (step rule input s).0 v) (λ u k. k ∙ h.0)
              (λ done u k. (k.0, λ other n. k.1 other n ∙ ap (λ r. r other) h.0)))
            (λ done u k.
              unfold Ends in
              (ap (λ x. (step rule input x).0) h.1, k.0 ∙ ap (λ x. (step rule input x).1) h.1, k.1))

Ends-beside :
    {M W E A : Type 0} (m : M) (P : W → Type 0) (Q : A → W → Type 0) (r : Result E A × W)
    → Ends P Q r
    → Ends (λ (u : M × W). P u.1) (λ a (u : M × W). Q a u.1) (r.0, (m, r.1))
unfolding Ends
Ends-beside m P Q (err e, w) h = h
Ends-beside m P Q (ok a, w) h = h

-- Over a repository that keeps the laws, if the state recorded for a rule is the one that a history leads
-- to, then an evaluation that succeeds returns the state machine's transition and records the state that
-- the history with this evaluation leads to, and one that fails changes no recorded state; the state of no
-- other rule changes.
pub evaluate-state_after :
    (calendar : String → ℤ → Option (ℕ × ℕ)) {W : Type 0} (repository : AlertEvaluatorRepository W)
    (recorded : W → ℕ → AlertEvaluationState)
    → EvaluatorLaws W repository recorded
    → (rule : AlertRule) (values : AlertMetrics) (through now : ℤ) (id : ℕ)
      (metrics : AlertEvaluatorMetrics) (w : W) (history : List Input)
    → recorded w rule.id ≡ state_after rule history
    → Ends
        (λ u. recorded u.1 ≡ recorded w)
        (λ t u.
          (t
            ≡ (step rule
                (input_of calendar rule values through now id)
                (state_after rule history)).0)
          × (recorded u.1 rule.id
              ≡ state_after rule (input_of calendar rule values through now id ∷ history))
          × ((other : ℕ) → other ≢ rule.id → recorded u.1 other ≡ recorded w other))
        (evaluate calendar W repository rule values through now id (metrics, w))
unfolding evaluate state_after
evaluate-state_after calendar repository recorded laws rule values through now id metrics w history
      same =
    Ends-beside (observe_lag now through metrics) _ _
      (evaluate_stored _ repository rule (input_of calendar rule values through now id) w)
      (Ends-map _ _ _ _ _
        (evaluate_stored-Stepped repository recorded laws rule
          (input_of calendar rule values through now id) w)
        (λ u k. k)
        (λ t u k.
          subst
            (λ s.
              (t ≡ (step rule (input_of calendar rule values through now id) s).0)
              × (recorded u rule.id
                  ≡ (step rule (input_of calendar rule values through now id) s).1)
              × ((other : ℕ) → other ≢ rule.id → recorded u other ≡ recorded w other))
            same k))
