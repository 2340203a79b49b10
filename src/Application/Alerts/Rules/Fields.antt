-- ===== src/Application/Alerts/Rules/Fields.antt =====
-- The fields of a rule that is created or changed.
use pvlog.Common.{ℕ, ◌≡◌, refl, Option, none, some}
use pvlog.Application.Alerts.{AlertRule}
use pvlog.Application.Alerts.Rules.{CreateAlertRule, UpdateAlertRule, given, updated, created}

-- The fields of a rule that was created are the given ones.
pub record Gives (id : ℕ) (input : CreateAlertRule) (rule : AlertRule) : Type 0 where
  pub own_id : rule.id ≡ id
  pub account : rule.account_id ≡ input.account_id
  pub system : rule.system_id ≡ input.system_id
  pub name : rule.name ≡ input.name
  pub kind : rule.kind ≡ input.kind
  pub schedule : rule.schedule ≡ input.schedule
  pub debounce : rule.debounce_seconds ≡ input.debounce_seconds
  pub cooldown : rule.cooldown_seconds ≡ input.cooldown_seconds
  pub channels : rule.delivery_channels ≡ input.delivery_channels
  pub enabled : rule.enabled ≡ input.enabled

-- The new value if one is given, and the old one otherwise.
pub data Takes {A : Type 0} : Option A → A → A → Type 0 where
  replaced : {new old : A} → Takes (some new) old new
  kept : {old : A} → Takes none old old

-- What an update makes of a rule: name, kind, schedule and enabling where they are given, and no more.
pub record Changes (update : UpdateAlertRule) (old new : AlertRule) : Type 0 where
  pub same_id : new.id ≡ old.id
  pub same_account : new.account_id ≡ old.account_id
  pub same_system : new.system_id ≡ old.system_id
  pub name : Takes update.name old.name new.name
  pub kind : Takes update.kind old.kind new.kind
  pub schedule : Takes update.schedule old.schedule new.schedule
  pub same_debounce : new.debounce_seconds ≡ old.debounce_seconds
  pub same_cooldown : new.cooldown_seconds ≡ old.cooldown_seconds
  pub same_channels : new.delivery_channels ≡ old.delivery_channels
  pub enabled : Takes update.enabled old.enabled new.enabled

pub created-Gives : (id : ℕ) (input : CreateAlertRule) → Gives id input (created id input)
unfolding created
created-Gives id input = record {
  own_id = refl;
  account = refl;
  system = refl;
  name = refl;
  kind = refl;
  schedule = refl;
  debounce = refl;
  cooldown = refl;
  channels = refl;
  enabled = refl;
}

given-Takes : {A : Type 0} (o : Option A) (old : A) → Takes o old (given o old)
given-Takes none old = kept
given-Takes (some new) old = replaced

pub updated-Changes :
    (update : UpdateAlertRule) (rule : AlertRule) → Changes update rule (updated update rule)
unfolding updated
updated-Changes update rule = record {
  same_id = refl;
  same_account = refl;
  same_system = refl;
  name = given-Takes update.name rule.name;
  kind = given-Takes update.kind rule.kind;
  schedule = given-Takes update.schedule rule.schedule;
  same_debounce = refl;
  same_cooldown = refl;
  same_channels = refl;
  enabled = given-Takes update.enabled rule.enabled;
}
