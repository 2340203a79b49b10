-- ===== src/Application/Validation/Derivation.antt =====
-- The step of `validate_observation` that adds a missing power.
use pvlog.Common.{
  ℕ, ◌<◌, ◌≡◌, refl, sym, ap, subst, ◌∙◌, ok_injective, some_injective, Option, none, some, ok,
  >>=-eq-ok, ℤ, pos, ◌-ℤ◌, ◌*ℤ◌, bit_or,
}
use pvlog.Application.Validation.{
  EnergyReading, PowerCalculationMode, measured_only, derive_from_energy, CanonicalObservation,
  IngestionValidationPolicy, elapsed_millis, checked_div, derive_power, derivable, with_power,
  derive_missing,
}
use pvlog.Application.Validation.Energy.{
  Delta, Quotient, energy_delta-Delta, checked_div-Quotient, elapsed_millis-eq-ok,
  derive_power-eq-ok, positive_pos,
}

module _ {Rest : Type 0} where
  -- A power is to be derived: none is given, the policy asks for it, and both observations have an energy.
  pub record Derives (o : CanonicalObservation Rest) (previous : Option (CanonicalObservation Rest))
      (policy : IngestionValidationPolicy) (before : CanonicalObservation Rest)
      (current old : EnergyReading) : Type 0 where
    pub no_power : o.values.generation_power ≡ none
    pub asked_for : policy.power_mode ≡ derive_from_energy
    pub energy_now : o.values.generation_energy ≡ some current
    pub one_before : previous ≡ some before
    pub energy_before : before.values.generation_energy ≡ some old

  -- The observation as it was where no power is to be derived, and else with the power that the energy
  -- since the one before comes to, in watts from watt-hours over milliseconds, and the quality bit of
  -- derived values.
  pub data Added (o : CanonicalObservation Rest) (previous : Option (CanonicalObservation Rest))
      (policy : IngestionValidationPolicy) : CanonicalObservation Rest → Type 0 where
    nothing :
        ((before : CanonicalObservation Rest) (current old : EnergyReading)
          → Derives o previous policy before current old
          → ⊥)
        → Added o previous policy o
    power_of :
        (before : CanonicalObservation Rest) (current old : EnergyReading) (delta power : ℤ)
        (millis : ℕ)
        → Derives o previous policy before current old
        → Delta current old delta
        → (o.observed_at -ℤ before.observed_at) ≡ pos millis
        → 0 < millis
        → Quotient (delta *ℤ pos 3600000) millis power
        → Added o previous policy (record o {
          values = record o.values { generation_power = some power };
          quality = bit_or o.quality 2;
        })

  derivable_from :
      (gp : Option ℤ) (mode : PowerCalculationMode) (ge : Option EnergyReading)
      (previous : Option (CanonicalObservation Rest)) (before : CanonicalObservation Rest)
      (current old : EnergyReading)
      → gp ≡ none
      → mode ≡ derive_from_energy
      → ge ≡ some current
      → previous ≡ some before
      → before.values.generation_energy ≡ some old
      → derivable gp mode ge previous ≡ some (current, (old, before.observed_at))
  unfolding derivable
  derivable_from gp mode ge previous before current old a b c d e =
      rw (a, b, c, d) (energy before.values.generation_energy e)
    where
      energy :
          (x : Option EnergyReading)
          → x ≡ some old
          → ◌≡◌ {A = Option (EnergyReading × (EnergyReading × ℤ))}
              (elim x [ none ↦ none | some y ↦ some (current, (y, before.observed_at)) ])
              (some (current, (old, before.observed_at)))
      energy x h = rw h refl

  -- The observation before and its energy, where a power is to be derived.
  abbrev Sources :
      Option ℤ
      → PowerCalculationMode
      → Option EnergyReading
      → Option (CanonicalObservation Rest)
      → EnergyReading
      → EnergyReading
      → ℤ
      → Type 0
  Sources gp mode ge previous current old earlier =
      (before : CanonicalObservation Rest) × (gp ≡ none)
      × (mode ≡ derive_from_energy)
      × (ge ≡ some current)
      × (previous ≡ some before)
      × (before.values.generation_energy ≡ some old)
      × (before.observed_at ≡ earlier)

  derivable-eq-some :
      (gp : Option ℤ) (mode : PowerCalculationMode) (ge : Option EnergyReading)
      (previous : Option (CanonicalObservation Rest)) (current old : EnergyReading) (earlier : ℤ)
      → derivable gp mode ge previous ≡ some (current, (old, earlier))
      → Sources gp mode ge previous current old earlier
  unfolding derivable
  derivable-eq-some (some p) mode ge previous current old earlier e = cc
  derivable-eq-some none measured_only ge previous current old earlier e = cc
  derivable-eq-some none derive_from_energy none previous current old earlier e = cc
  derivable-eq-some none derive_from_energy (some c) none current old earlier e = cc
  derivable-eq-some none derive_from_energy (some c) (some p) current old earlier e =
      from p.values.generation_energy refl e
    where
      triple :
          (y : EnergyReading)
          → ◌≡◌ {A = Option (EnergyReading × (EnergyReading × ℤ))}
              (some (c, (y, p.observed_at)))
              (some (current, (old, earlier)))
          → (c ≡ current) × (y ≡ old) × (p.observed_at ≡ earlier)
      triple y h =
          let same = some_injective (c, (y, p.observed_at)) (current, (old, earlier)) h in
          (
            ap (λ (t : EnergyReading × (EnergyReading × ℤ)). t.0) same,
            ap (λ (t : EnergyReading × (EnergyReading × ℤ)). t.1.0) same,
            ap (λ (t : EnergyReading × (EnergyReading × ℤ)). t.1.1) same,
          )

      from :
          (x : Option EnergyReading)
          → p.values.generation_energy ≡ x
          → ◌≡◌ {A = Option (EnergyReading × (EnergyReading × ℤ))}
              (elim x [ none ↦ none | some y ↦ some (c, (y, p.observed_at)) ])
              (some (current, (old, earlier)))
          → Sources none derive_from_energy (some c) (some p) current old earlier
      from none at h = cc
      from (some y) at h =
          let (one, two, three) = triple y h in
          (p, refl, refl, ap some one, refl, at ∙ ap some two, three)

  -- The two readings and the instant between which a power is derived.
  abbrev pub power_sources :
      CanonicalObservation Rest
      → Option (CanonicalObservation Rest)
      → IngestionValidationPolicy
      → Option (EnergyReading × (EnergyReading × ℤ))
  power_sources o previous policy =
      derivable o.values.generation_power policy.power_mode o.values.generation_energy previous

  pub derive_missing-Added :
      (o result : CanonicalObservation Rest) (previous : Option (CanonicalObservation Rest))
      (policy : IngestionValidationPolicy) (from : Option (EnergyReading × (EnergyReading × ℤ)))
      → power_sources o previous policy ≡ from
      → derive_missing o from ≡ ok result
      → Added o previous policy result
  unfolding derive_missing
  derive_missing-Added o result previous policy none f e =
      subst (Added o previous policy) (ok_injective o result e) (
        nothing (λ before current old d. absurd (
          clash _ (
            sym f
            ∙ derivable_from _ _ _ previous before current old d.no_power d.asked_for d.energy_now
                d.one_before d.energy_before))))
    where
      clash : (t : EnergyReading × (EnergyReading × ℤ)) → none ≡ some t → ⊥
      clash t p = cc
  derive_missing-Added o result previous policy (some (current, (old, earlier))) f e =
      let (elapsed, since, e1) = >>=-eq-ok (elapsed_millis earlier o.observed_at) _ e in
      let (power, comes, e2) = >>=-eq-ok (derive_power current old elapsed) _ e1 in
      let (same, positive) = elapsed_millis-eq-ok earlier o.observed_at elapsed since in
      let (delta, energy, quotient) = derive_power-eq-ok current old elapsed power comes in
      let (millis, measure, some_time) = positive_pos elapsed positive in
      let (before, no_power, mode, now, one, then_, at) =
        derivable-eq-some _ _ _ previous current old earlier f in
      subst (Added o previous policy) (ok_injective (with_power o power) result e2) (
        power_of before current old delta power millis
          (record {
            no_power = no_power;
            asked_for = mode;
            energy_now = now;
            one_before = one;
            energy_before = then_;
          })
          (energy_delta-Delta current old delta energy)
          (ap (λ (t : ℤ). o.observed_at -ℤ t) at ∙ sym same ∙ measure) some_time
          (checked_div-Quotient (delta *ℤ pos 3600000) millis power (
            subst (λ (t : ℤ). checked_div (delta *ℤ pos 3600000) t ≡ some power) measure quotient)))
