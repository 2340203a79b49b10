-- ===== src/Application/Alerts/Rules.antt =====
-- src/crates/application/src/alert_rules.rs: the management of alert rules over their repository.
-- The repository is the trait's operations on a world. A random identifier is an argument.
pub mod Fields
pub mod Validity
use Prim.Native.String.{String}
use pvlog.Common.{
  ℕ, any-All, ◌≤◌, ◌<◌, ◌≡◌, refl, Bool, true, false, not, ◌&&◌, ◌||◌, List, Option, none, some,
  leb, ltb, any, Result, ok, err, fail_if, ok_or, if◌then◌else◌, All, arith, fail_if-passed,
  Bool-cases, inl, inr, err_ne_ok,
}
use pvlog.Common.Text.{trims_to_empty}
use pvlog.Common.Stateful.{
  Stateful, ◌>>=◌, ◌>>◌, and_then, returning, Outcome, Outcome-and_then, Outcome-map,
}
use pvlog.Application.Alerts.{AlertKind, AlertSchedule, AlertRule}

pub record CreateAlertRule : Type 0 where
  pub account_id : ℕ
  pub system_id : ℕ
  pub name : List ℕ
  pub kind : AlertKind
  pub schedule : AlertSchedule
  pub debounce_seconds : ℕ
  pub cooldown_seconds : ℕ
  pub delivery_channels : List String
  pub enabled : Bool

pub record UpdateAlertRule : Type 0 where
  pub name : Option (List ℕ)
  pub kind : Option AlertKind
  pub schedule : Option AlertSchedule
  pub enabled : Option Bool

pub data AlertRuleServiceError : Type 0 where
  not_found unavailable : AlertRuleServiceError
  invalid : String → AlertRuleServiceError

pub record AlertRuleRepository (W : Type 0) : Type 0 where
  pub save : AlertRule → Stateful W AlertRuleServiceError (Unit {0})
  pub find : ℕ → ℕ → Stateful W AlertRuleServiceError (Option AlertRule)
  pub list : ℕ → ℕ → Stateful W AlertRuleServiceError (List AlertRule)
  pub delete : ℕ → ℕ → Stateful W AlertRuleServiceError Bool

unfoldable pub bad_schedule : AlertSchedule → Bool
bad_schedule schedule =
    any (λ day. not (leb 1 day && leb day 7)) schedule.weekdays
    || leb 1440 schedule.start_minute_local
    || ltb 1440 schedule.end_minute_local

unfoldable pub validate : List ℕ → AlertSchedule → Result AlertRuleServiceError (Unit {0})
validate name schedule =
    if trims_to_empty name
    then err (invalid "name is required")
    else fail_if (bad_schedule schedule) (invalid "schedule is invalid")

abbrev pub given : {A : Type 0} → Option A → A → A
given none old = old
given (some new) old = new

unfoldable pub updated : UpdateAlertRule → AlertRule → AlertRule
updated update rule = record {
  id = rule.id;
  account_id = rule.account_id;
  system_id = rule.system_id;
  name = given update.name rule.name;
  kind = given update.kind rule.kind;
  schedule = given update.schedule rule.schedule;
  debounce_seconds = rule.debounce_seconds;
  cooldown_seconds = rule.cooldown_seconds;
  delivery_channels = rule.delivery_channels;
  enabled = given update.enabled rule.enabled;
}

unfoldable pub created : ℕ → CreateAlertRule → AlertRule
created id input = record {
  id = id;
  account_id = input.account_id;
  system_id = input.system_id;
  name = input.name;
  kind = input.kind;
  schedule = input.schedule;
  debounce_seconds = input.debounce_seconds;
  cooldown_seconds = input.cooldown_seconds;
  delivery_channels = input.delivery_channels;
  enabled = input.enabled;
}

module _ (W : Type 0) (repository : AlertRuleRepository W) where
  unfoldable pub create : ℕ → CreateAlertRule → Stateful W AlertRuleServiceError AlertRule
  create id input = do
    returning (validate input.name input.schedule)
    repository.save (created id input)
    returning (ok (created id input))

  unfoldable pub get : ℕ → ℕ → Stateful W AlertRuleServiceError AlertRule
  get account_id id = do found ← repository.find account_id id; returning (ok_or found not_found)

  unfoldable pub list_rules : ℕ → ℕ → Stateful W AlertRuleServiceError (List AlertRule)
  list_rules account_id system_id = repository.list account_id system_id

  unfoldable pub update_rule : ℕ → ℕ → UpdateAlertRule → Stateful W AlertRuleServiceError AlertRule
  update_rule account_id id update = do
    rule ← get account_id id
    returning (validate (updated update rule).name (updated update rule).schedule)
    repository.save (updated update rule)
    returning (ok (updated update rule))

  unfoldable pub delete_rule : ℕ → ℕ → Stateful W AlertRuleServiceError (Unit {0})
  delete_rule account_id id = do
    deleted ← repository.delete account_id id
    returning (fail_if (not deleted) not_found)
