-- ===== src/Application/Validation.antt =====
-- src/crates/application/src/ingestion_validation.rs, with the types of telemetry.rs and systems.rs of
-- the domain crate that it reads. A timestamp is its epoch milliseconds, an identifier a number; the
-- subtraction of two counters is unchecked in the source, so it wraps as in a release build.
pub mod Checks
pub mod Energy
pub mod Derivation
pub mod Accepted
mod Samples
use pvlog.Common.{
  ℕ, suc, zero, ◌+◌, ◌*◌, ◌/◌, ◌^◌, Bool, true, false, not, ◌&&◌, ◌||◌, List, Option, none, some,
  bit_or, min, ◌==◌, ltb, leb, Result, ok, err, ◌>>=◌, ◌>>◌, ok_or, fail_if, ℤ, pos, negsuc, ◌-ℤ◌,
  ◌*ℤ◌, abs, ltb_ℤ, leb_ℤ, in_i64, wrap_i64, if◌then◌else◌,
}

pub data EnergyReading : Type 0 where
  interval : ℤ → EnergyReading
  cumulative : ℤ → ℕ → EnergyReading

pub data NetPositiveDirection : Type 0 where
  import export : NetPositiveDirection

pub data GridFlow : Type 0 where
  net : ℤ → NetPositiveDirection → GridFlow
  split : ℤ → ℤ → GridFlow

pub record BatteryReading : Type 0 where
  pub energy : Option ℤ
  pub power : Option ℤ
  pub state_of_charge : Option ℕ

pub data PowerCalculationMode : Type 0 where
  measured_only derive_from_energy : PowerCalculationMode

pub data NetCalculationMode : Type 0 where
  measured import_positive export_positive : NetCalculationMode

pub record MeasurementValues : Type 0 where
  pub generation_power : Option ℤ
  pub generation_energy : Option EnergyReading
  pub consumption_power : Option ℤ
  pub consumption_energy : Option EnergyReading
  pub grid : Option GridFlow
  pub battery : Option BatteryReading

-- `Rest` is the type of the fields that validation passes on unread, the ones of the measurement values
-- and the battery's flow direction among them.
pub record CanonicalObservation (Rest : Type 0) : Type 0 where
  pub system_id : ℕ
  pub observed_at : ℤ
  pub values : MeasurementValues
  pub quality : ℕ
  pub rest : Rest

pub record IngestionValidationPolicy : Type 0 where
  pub effective_capacity_watts : ℕ
  pub maximum_power_basis_points : ℕ
  pub earliest_timestamp_millis : ℤ
  pub latest_timestamp_millis : ℤ
  pub power_mode : PowerCalculationMode
  pub net_mode : NetCalculationMode

pub data IngestionValidationError : Type 0 where
  timestamp physical_limit dependent_field : IngestionValidationError
  grid_semantics counter_transition derivation : IngestionValidationError

abbrev Checked : Type 0 → Type 0
Checked A = Result IngestionValidationError A

unfoldable pub elapsed_millis : ℤ → ℤ → Checked ℤ
elapsed_millis previous current =
    let elapsed = current -ℤ previous in
    if in_i64 elapsed && ltb_ℤ (pos 0) elapsed then ok elapsed else err derivation

-- `u32::saturating_add(1)`.
abbrev pub next_sequence : ℕ → ℕ
next_sequence prior = min (prior + 1) 4294967295

unfoldable pub energy_delta : EnergyReading → EnergyReading → Checked ℤ
energy_delta (interval value) previous = ok value
energy_delta (cumulative total reset_sequence) (interval value) = err counter_transition
energy_delta (cumulative total reset_sequence) (cumulative previous prior) =
    if (reset_sequence == prior) && leb_ℤ previous total
    then ok (wrap_i64 (total -ℤ previous))
    else if reset_sequence == next_sequence prior
    then ok total
    else err counter_transition

-- The quotient of an i64 by a positive one, toward zero.
abbrev pub divide : ℤ → ℕ → ℤ
divide (pos n) d = pos (n / d)
divide (negsuc n) d = pos 0 -ℤ pos (suc n / d)

-- `i64::checked_div`; the elapsed time is positive.
unfoldable pub checked_div : ℤ → ℤ → Option ℤ
checked_div a (pos zero) = none
checked_div a (pos (suc d)) = some (divide a (suc d))
checked_div a (negsuc d) = let q = pos 0 -ℤ divide a (suc d) in if in_i64 q then some q else none

abbrev pub checked_mul : ℤ → ℤ → Option ℤ
checked_mul a b = let m = a *ℤ b in if in_i64 m then some m else none

unfoldable pub derive_power : EnergyReading → EnergyReading → ℤ → Checked ℤ
derive_power current previous elapsed = do
  delta ← energy_delta current previous
  scaled ← ok_or (checked_mul delta (pos 3600000)) derivation
  ok_or (checked_div scaled elapsed) derivation

unfoldable pub validate_counter : Option EnergyReading → Option EnergyReading → Checked (Unit {0})
validate_counter (some (cumulative total s)) (some previous) =
    energy_delta (cumulative total s) previous >>= λ _. ok tt
validate_counter _ _ = ok tt

unfoldable pub validate_grid : Option GridFlow → NetCalculationMode → Checked (Unit {0})
validate_grid (some (net power import)) export_positive = err grid_semantics
validate_grid (some (net power export)) import_positive = err grid_semantics
validate_grid (some (split import_power export_power)) mode =
    fail_if (ltb_ℤ import_power (pos 0) || ltb_ℤ export_power (pos 0)) dependent_field
validate_grid _ _ = ok tt

unfoldable pub maximum_power : IngestionValidationPolicy → Checked ℕ
maximum_power policy =
    let product = policy.effective_capacity_watts * policy.maximum_power_basis_points in
    if ltb product (2 ^ 64) && ltb (product / 10000) (2 ^ 63)
    then ok (product / 10000)
    else err physical_limit

abbrev pub exceeds : ℕ → Option ℤ → Bool
exceeds maximum none = false
exceeds maximum (some power) = ltb maximum (abs power)

abbrev pub is_none {ℓ} : {A : Type ℓ} → Option A → Bool
is_none none = true
is_none (some a) = false

abbrev pub empty_battery : Option BatteryReading → Bool
empty_battery none = false
empty_battery (some b) = is_none b.energy && (is_none b.power && is_none b.state_of_charge)

module _ {Rest : Type 0} where
  abbrev pub other_system : Option (CanonicalObservation Rest) → CanonicalObservation Rest → Bool
  other_system none o = false
  other_system (some previous) o = not (previous.system_id == o.system_id)

  -- The two readings and the earlier time that a power is derived from, if one is to be derived.
  unfoldable pub derivable :
      Option ℤ
      → PowerCalculationMode
      → Option EnergyReading
      → Option (CanonicalObservation Rest)
      → Option (EnergyReading × (EnergyReading × ℤ))
  derivable none derive_from_energy (some current) (some previous) =
      elim previous.values.generation_energy [
        | none ↦ none
        | some old ↦ some (current, (old, previous.observed_at))
      ]
  derivable _ _ _ _ = none

  -- The observation with the derived power. `QualityFlags::DERIVED` is the bit 2.
  abbrev pub with_power : CanonicalObservation Rest → ℤ → CanonicalObservation Rest
  with_power o power = record o {
    values = record o.values { generation_power = some power };
    quality = bit_or o.quality 2;
  }

  unfoldable pub derive_missing :
      CanonicalObservation Rest
      → Option (EnergyReading × (EnergyReading × ℤ))
      → Checked (CanonicalObservation Rest)
  derive_missing o none = ok o
  derive_missing o (some (current, (old, earlier))) = do
    elapsed ← elapsed_millis earlier o.observed_at
    power ← derive_power current old elapsed
    ok (with_power o power)

  abbrev pub previous_energy :
      (MeasurementValues → Option EnergyReading)
      → Option (CanonicalObservation Rest)
      → Option EnergyReading
  previous_energy field none = none
  previous_energy field (some previous) = field previous.values

  unfoldable pub validate_observation :
      CanonicalObservation Rest
      → Option (CanonicalObservation Rest)
      → IngestionValidationPolicy
      → Checked (CanonicalObservation Rest)
  validate_observation o previous policy = do
    fail_if (other_system previous o) dependent_field
    fail_if (not (in_i64 o.observed_at)) timestamp
    fail_if
        (ltb_ℤ o.observed_at policy.earliest_timestamp_millis
          || ltb_ℤ policy.latest_timestamp_millis o.observed_at)
        timestamp
    maximum ← maximum_power policy
    fail_if (exceeds maximum o.values.generation_power) physical_limit
    fail_if (exceeds maximum o.values.consumption_power) physical_limit
    validate_grid o.values.grid policy.net_mode
    fail_if (empty_battery o.values.battery) dependent_field
    derived ←
        derive_missing o (
          derivable o.values.generation_power policy.power_mode o.values.generation_energy previous)
    validate_counter o.values.generation_energy
        (previous_energy (λ v. v.generation_energy) previous)
    validate_counter o.values.consumption_energy
        (previous_energy (λ v. v.consumption_energy) previous)
    ok derived
