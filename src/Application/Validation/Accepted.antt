-- ===== src/Application/Validation/Accepted.antt =====
-- `validate_observation`: what an accepted observation has been checked for, and what was added to it.
use pvlog.Common.{
  ◌≡◌, refl, subst, ok_injective, false, not, ◌||◌, Option, some, ◌==◌, ok, fail_if-eq-ok,
  >>=-eq-ok, ltb_ℤ, ◌≤ℤ◌, in_i64, arith,
}
use pvlog.Application.Validation.{
  CanonicalObservation, IngestionValidationPolicy, timestamp, physical_limit, dependent_field,
  validate_counter, validate_grid, maximum_power, exceeds, empty_battery, other_system, derivable,
  derive_missing, previous_energy, validate_observation,
}
use pvlog.Application.Validation.Checks.{
  CounterFits, GridFits, Within, Measured, counter-CounterFits, grid-GridFits, maximum_power-eq-ok,
  exceeds-Within, in_order, battery-Measured,
}
use pvlog.Application.Validation.Derivation.{Added, derive_missing-Added}

module _ {Rest : Type 0} where
  -- What an accepted observation and the one before it have been checked for.
  pub record Accepted (o : CanonicalObservation Rest)
      (previous : Option (CanonicalObservation Rest)) (policy : IngestionValidationPolicy)
      : Type 0 where
    pub own_system : (p : CanonicalObservation Rest) → previous ≡ some p → p.system_id ≡ o.system_id
    pub from_earliest : policy.earliest_timestamp_millis ≤ℤ o.observed_at
    pub to_latest : o.observed_at ≤ℤ policy.latest_timestamp_millis
    pub generation_within : Within policy o.values.generation_power
    pub consumption_within : Within policy o.values.consumption_power
    pub grid_fits : GridFits o.values.grid policy.net_mode
    pub battery_measured : Measured o.values.battery
    pub generation_counter :
        (p : CanonicalObservation Rest)
        → previous ≡ some p
        → CounterFits o.values.generation_energy p.values.generation_energy
    pub consumption_counter :
        (p : CanonicalObservation Rest)
        → previous ≡ some p
        → CounterFits o.values.consumption_energy p.values.consumption_energy

  -- An accepted observation is of the system of the one before it, in the policy's times, its powers are
  -- within the policy's share of the capacity, its grid values have the configured sign, a battery reading
  -- has something in it, and its two counters go on from those before. Where no power is given, the policy
  -- asks for one, and both observations have a generated energy, it comes back marked as derived with the
  -- energy since the one before, per hour of the time since then, cut toward zero, as the power; otherwise
  -- it comes back as it was.
  pub validate_observation-Accepted :
      (o result : CanonicalObservation Rest) (previous : Option (CanonicalObservation Rest))
      (policy : IngestionValidationPolicy)
      → validate_observation o previous policy ≡ ok result
      → Accepted o previous policy × Added o previous policy result
  unfolding validate_observation
  validate_observation-Accepted o result previous policy e =
      let (own, e1) = fail_if-eq-ok (other_system previous o) dependent_field _ e in
      let (_, e2) = fail_if-eq-ok (not (in_i64 o.observed_at)) timestamp _ e1 in
      let (in_time, e3) =
        fail_if-eq-ok
          (ltb_ℤ o.observed_at policy.earliest_timestamp_millis
            || ltb_ℤ policy.latest_timestamp_millis o.observed_at)
          timestamp _ e2 in
      let (m, limit, e4) = >>=-eq-ok (maximum_power policy) _ e3 in
      let (generated, e5) =
        fail_if-eq-ok (exceeds m o.values.generation_power) physical_limit _ e4 in
      let (consumed, e6) =
        fail_if-eq-ok (exceeds m o.values.consumption_power) physical_limit _ e5 in
      let (g, grid, e7) = >>=-eq-ok (validate_grid o.values.grid policy.net_mode) _ e6 in
      let (battery, e8) = fail_if-eq-ok (empty_battery o.values.battery) dependent_field _ e7 in
      let (derived, added, e9) =
        >>=-eq-ok
          (derive_missing o (
            derivable o.values.generation_power policy.power_mode o.values.generation_energy
              previous))
          _ e8 in
      let (c, first_counter, e10) =
        >>=-eq-ok
          (validate_counter o.values.generation_energy
            (previous_energy (λ v. v.generation_energy) previous))
          _ e9 in
      let (d, second_counter, e11) =
        >>=-eq-ok
          (validate_counter o.values.consumption_energy
            (previous_energy (λ v. v.consumption_energy) previous))
          _ e10 in
      let maximum = maximum_power-eq-ok policy m limit in
      let times =
        in_order policy.earliest_timestamp_millis o.observed_at policy.latest_timestamp_millis
          in_time in
      (
        record {
          own_system = λ p same. of_system p (subst (λ x. other_system x o ≡ false) same own);
          from_earliest = times.0;
          to_latest = times.1;
          generation_within = exceeds-Within policy o.values.generation_power m maximum generated;
          consumption_within = exceeds-Within policy o.values.consumption_power m maximum consumed;
          grid_fits = grid-GridFits o.values.grid policy.net_mode g grid;
          battery_measured = battery-Measured o.values.battery battery;
          generation_counter = λ p same.
              subst
                (λ x.
                  CounterFits o.values.generation_energy
                    (previous_energy (λ v. v.generation_energy) x))
                same (counter-CounterFits o.values.generation_energy _ c first_counter);
          consumption_counter = λ p same.
              subst
                (λ x.
                  CounterFits o.values.consumption_energy
                    (previous_energy (λ v. v.consumption_energy) x))
                same (counter-CounterFits o.values.consumption_energy _ d second_counter);
        },
        subst (Added o previous policy) (ok_injective derived result e11)
            (derive_missing-Added o derived previous policy _ refl added),
      )
    where
      of_system :
          (p : CanonicalObservation Rest)
          → not (p.system_id == o.system_id) ≡ false
          → p.system_id ≡ o.system_id
      of_system p h = ground arith
