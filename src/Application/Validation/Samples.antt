-- ===== src/Application/Validation/Samples.antt =====
-- The theorem on validation at an hour's worth of a counter, and a derived power beyond the limit.
use pvlog.Common.{◌≡◌, refl, none, some, ok, err, pos, ◌-ℤ◌, ◌*ℤ◌, wrap_i64, ℕ}
use pvlog.Application.Validation.{
  CanonicalObservation, IngestionValidationPolicy, cumulative, net, import, derive_from_energy,
  import_positive, validate_observation, derivable, maximum_power, validate_grid, derive_missing,
  validate_counter, elapsed_millis, derive_power, energy_delta, checked_div, with_power,
  physical_limit,
}
use pvlog.Application.Validation.Derivation.{Added}
use pvlog.Application.Validation.Accepted.{Accepted, validate_observation-Accepted}

abbrev before : CanonicalObservation ℕ
before = record {
  system_id = 3;
  observed_at = pos 3600000;
  values = record {
    generation_power = none;
    generation_energy = some (cumulative (pos 1000) 0);
    consumption_power = some (pos 400);
    consumption_energy = none;
    grid = some (net (pos 100) import);
    battery = none;
  };
  quality = 0;
  rest = 0;
}

abbrev now : CanonicalObservation ℕ
now = record before {
  observed_at = pos 7200000;
  values = record before.values { generation_energy = some (cumulative (pos 3000) 0) };
}

abbrev policy : IngestionValidationPolicy
policy = record {
  effective_capacity_watts = 5000;
  maximum_power_basis_points = 12000;
  earliest_timestamp_millis = pos 0;
  latest_timestamp_millis = pos 10000000;
  power_mode = derive_from_energy;
  net_mode = import_positive;
}

accepted_now : validate_observation now (some before) policy ≡ ok (with_power now (pos 2000))
unfolding validate_observation derivable maximum_power validate_grid derive_missing validate_counter
    elapsed_millis derive_power energy_delta checked_div ◌-ℤ◌ ◌*ℤ◌ wrap_i64
accepted_now = refl

validate_observation-Accepted_example :
    Accepted now (some before) policy × Added now (some before) policy (with_power now (pos 2000))
validate_observation-Accepted_example =
    validate_observation-Accepted now (with_power now (pos 2000)) (some before) policy accepted_now

-- A derived power is not held against the limit that a measured one is.
abbrev jump : CanonicalObservation ℕ
jump = record now {
  values = record now.values { generation_energy = some (cumulative (pos 91000) 0) };
}

derived_over_limit :
    validate_observation jump (some before) policy ≡ ok (with_power jump (pos 90000))
unfolding validate_observation derivable maximum_power validate_grid derive_missing validate_counter
    elapsed_millis derive_power energy_delta checked_div ◌-ℤ◌ ◌*ℤ◌ wrap_i64
derived_over_limit = refl

measured_over_limit :
    validate_observation (with_power jump (pos 90000)) (some before) policy ≡ err physical_limit
unfolding validate_observation maximum_power
measured_over_limit = refl
