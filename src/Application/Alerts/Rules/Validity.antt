-- ===== src/Application/Alerts/Rules/Validity.antt =====
-- The rules that are stored are valid.
use pvlog.Common.{
  ℕ, any-All, ◌≤◌, ◌<◌, ◌≡◌, refl, sym, subst, Bool, true, false, not, ◌&&◌, Option, none, some,
  leb, Result, ok, err, fail_if, ok_or, All, arith, fail_if-passed, Bool-cases, inl, inr, err_ne_ok,
}
use pvlog.Common.Text.{trims_to_empty}
use pvlog.Common.Stateful.{◌>>=◌, and_then, returning, Outcome, Outcome-and_then, Outcome-map}
use pvlog.Application.Alerts.{AlertRule}
use pvlog.Application.Alerts.Rules.{
  CreateAlertRule, UpdateAlertRule, AlertRuleServiceError, not_found, invalid, AlertRuleRepository,
  bad_schedule, validate, updated, created, create, get, update_rule, delete_rule,
}
use pvlog.Application.Alerts.Rules.Fields.{Gives, Changes, created-Gives, updated-Changes}

-- A rule with a name that is not blank and a schedule of weekdays and minutes of a day.
pub record IsValid (rule : AlertRule) : Type 0 where
  pub named : trims_to_empty rule.name ≡ false
  pub weekdays : All (λ day. (1 ≤ day) × (day ≤ 7)) rule.schedule.weekdays
  pub start : rule.schedule.start_minute_local < 1440
  pub end : rule.schedule.end_minute_local ≤ 1440

validate-IsValid :
    (rule : AlertRule) {u : Unit {0}} → validate rule.name rule.schedule ≡ ok u → IsValid rule
unfolding validate bad_schedule
validate-IsValid rule e = elim (Bool-cases (trims_to_empty rule.name)) [
  | inl blank ↦ absurd (err_ne_ok (rw blank at e))
  | inr named ↦
      let fine =
        fail_if-passed (bad_schedule rule.schedule) (invalid "schedule is invalid")
          (rw named at e) in
      record {
        named = named;
        weekdays =
            any-All (λ day. not (leb 1 day && leb day 7)) _ rule.schedule.weekdays
              (λ day h. (ground arith, ground arith)) (ground arith);
        start = ground arith;
        end = ground arith;
      }
]

-- The operations of a repository keep a property of its world, `save` for valid rules, and what `find`
-- finds is of the account and the identifier.
pub record RuleLaws (W : Type 0) (repository : AlertRuleRepository W) (I : W → Type 0)
    : Type 0 where
  pub saves :
      (rule : AlertRule) (w : W)
      → IsValid rule
      → I w
      → Outcome I (λ done v. Unit {0}) (repository.save rule w)
  pub finds :
      (account_id id : ℕ) (w : W)
      → I w
      → Outcome I
          (λ found v.
            (rule : AlertRule)
            → found ≡ some rule
            → (rule.id ≡ id) × (rule.account_id ≡ account_id))
          (repository.find account_id id w)
  pub deletes :
      (account_id id : ℕ) (w : W)
      → I w
      → Outcome I (λ deleted v. Unit {0}) (repository.delete account_id id w)

-- A result in a statement of what it is a result of.
Outcome-own :
    {W E A : Type 0} (P : W → Type 0) (Q : A → W → Type 0) (r : Result E A × W)
    → Outcome P Q r
    → Outcome P (λ a v. Q a v × (r.0 ≡ ok a)) r
unfolding Outcome
Outcome-own P Q (err e, v) h = h
Outcome-own P Q (ok a, v) h = (h.0, (h.1, refl))

module _ {W : Type 0} (repository : AlertRuleRepository W) (I : W → Type 0)
    (laws : RuleLaws W repository I) where
  save_returns :
      (rule : AlertRule) (w : W)
      → IsValid rule
      → I w
      → Outcome I
          (λ saved v. (saved ≡ rule) × IsValid saved)
          (and_then (λ done. returning (ok rule)) (repository.save rule w))
  save_returns rule w valid h =
      Outcome-and_then I (λ done v. Unit {0}) (λ saved v. (saved ≡ rule) × IsValid saved) _ _
        (laws.saves rule w valid h) (λ done v k u. unfold Outcome in (k, (refl, valid)))

  checked_save :
      (rule : AlertRule) (w : W) (r : Result AlertRuleServiceError (Unit {0}))
      → validate rule.name rule.schedule ≡ r
      → I w
      → Outcome I
          (λ saved v. (saved ≡ rule) × IsValid saved)
          (and_then (λ done. repository.save rule >>= (λ saved. returning (ok rule))) (r, w))
  checked_save rule w (err e) v h = unfold Outcome in h
  checked_save rule w (ok u) v h = save_returns rule w (validate-IsValid rule v) h

  create-IsValid :
      (id : ℕ) (input : CreateAlertRule) (w : W)
      → I w
      → Outcome I (λ saved v. Gives id input saved × IsValid saved) (create W repository id input w)
  unfolding create created
  create-IsValid id input w h =
      Outcome-map I I (λ saved v. (saved ≡ created id input) × IsValid saved)
        (λ saved v. Gives id input saved × IsValid saved) _
        (checked_save (created id input) w _ refl h) (λ x i. i)
        (λ saved x i q. (subst (Gives id input) (sym q.0) (created-Gives id input), q.1))

  -- The rule that is found, of the account and the identifier.
  abbrev Found : ℕ → ℕ → W → AlertRule → Type 0
  Found account_id id w rule =
      (rule.id ≡ id)
      × (rule.account_id ≡ account_id)
      × ((repository.find account_id id w).0 ≡ ok (some rule))

  get-keeps :
      (account_id id : ℕ) (w : W)
      → I w
      → Outcome I (λ rule v. Found account_id id w rule) (get W repository account_id id w)
  unfolding get
  get-keeps account_id id w h =
      Outcome-and_then I
        (λ found v.
          ((rule : AlertRule) → found ≡ some rule → (rule.id ≡ id) × (rule.account_id ≡ account_id))
          × ((repository.find account_id id w).0 ≡ ok found))
        (λ rule v. Found account_id id w rule) _ _
        (Outcome-own I _ (repository.find account_id id w) (laws.finds account_id id w h))
        (λ found v k u. found_or found v k u.0 u.1)
    where
      found_or :
          (found : Option AlertRule) (v : W)
          → I v
          → ((rule : AlertRule)
              → found ≡ some rule
              → (rule.id ≡ id) × (rule.account_id ≡ account_id))
          → (repository.find account_id id w).0 ≡ ok found
          → Outcome I (λ rule v. Found account_id id w rule) (ok_or found not_found, v)
      found_or none v k u e = unfold Outcome in k
      found_or (some rule) v k u e = unfold Outcome in (k, ((u rule refl).0, (u rule refl).1, e))

  -- What a change comes to: the rule that is found with the given fields replaced, and valid.
  abbrev Changed : ℕ → ℕ → UpdateAlertRule → W → AlertRule → Type 0
  Changed account_id id update w saved =
      (rule : AlertRule) × Changes update rule saved
      × (rule.id ≡ id)
      × (rule.account_id ≡ account_id)
      × ((repository.find account_id id w).0 ≡ ok (some rule))
      × IsValid saved

  update_rule-IsValid :
      (account_id id : ℕ) (update : UpdateAlertRule) (w : W)
      → I w
      → Outcome I
          (λ saved v. Changed account_id id update w saved)
          (update_rule W repository account_id id update w)
  unfolding update_rule
  update_rule-IsValid account_id id update w h =
      Outcome-and_then I (λ rule v. Found account_id id w rule)
        (λ saved v. Changed account_id id update w saved) _ _ (get-keeps account_id id w h)
        (λ rule v k u.
          Outcome-map I I (λ saved x. (saved ≡ updated update rule) × IsValid saved)
            (λ saved x. Changed account_id id update w saved) _
            (checked_save (updated update rule) v _ refl k) (λ x i. i)
            (λ saved x i q. (
              rule,
              subst (Changes update rule) (sym q.0) (updated-Changes update rule),
              u.0,
              u.1,
              u.2,
              q.1,
            )))

  delete_rule-keeps :
      (account_id id : ℕ) (w : W)
      → I w
      → Outcome I (λ done v. Unit {0}) (delete_rule W repository account_id id w)
  unfolding delete_rule
  delete_rule-keeps account_id id w h =
      Outcome-and_then I (λ deleted v. Unit {0}) (λ done v. Unit {0}) _ _
        (laws.deletes account_id id w h) (λ deleted v k u. found_or deleted v k)
    where
      found_or :
          (deleted : Bool) (v : W)
          → I v
          → Outcome I (λ done v. Unit {0}) (fail_if (not deleted) not_found, v)
      found_or true v k = unfold Outcome in (k, tt)
      found_or false v k = unfold Outcome in k

-- If a repository keeps a property of its world in `save` for rules with a name that is not blank and a
-- schedule of weekdays and minutes of a day, and in `find`, which finds by account and identifier, and
-- `delete`, then creating, reading, changing and deleting a rule keep it, failures included; a rule that is
-- created has the given fields, one that is read is the one found, one that is changed is the one found
-- with the given of name, kind, schedule and enabling replaced and all else kept, and the created and the
-- changed one are valid.
pub rules_stay-IsValid :
    {W : Type 0} (repository : AlertRuleRepository W) (I : W → Type 0)
    → RuleLaws W repository I
    → (account_id id : ℕ) (input : CreateAlertRule) (update : UpdateAlertRule) (w : W) → I w
    → Outcome I (λ saved v. Gives id input saved × IsValid saved) (create W repository id input w)
      × Outcome I
          (λ rule v.
            (rule.id ≡ id)
            × (rule.account_id ≡ account_id)
            × ((repository.find account_id id w).0 ≡ ok (some rule)))
          (get W repository account_id id w)
      × Outcome I
          (λ saved v.
            (rule : AlertRule) × Changes update rule saved
            × (rule.id ≡ id)
            × (rule.account_id ≡ account_id)
            × ((repository.find account_id id w).0 ≡ ok (some rule))
            × IsValid saved)
          (update_rule W repository account_id id update w)
      × Outcome I (λ done v. Unit {0}) (delete_rule W repository account_id id w)
rules_stay-IsValid repository I laws account_id id input update w h = (
  create-IsValid repository I laws id input w h,
  get-keeps repository I laws account_id id w h,
  update_rule-IsValid repository I laws account_id id update w h,
  delete_rule-keeps repository I laws account_id id w h,
)
