-- ===== src/Application/Validation/Checks.antt =====
-- The single checks of `validate_observation`, each by what it leaves true.
use pvlog.Common.{
  ℕ, min, ◌+◌, ◌*◌, ◌/◌, ◌^◌, ◌≤◌, ◌≡◌, ◌≢◌, ◌⊎◌, inl, inr, false, ◌&&◌, ◌||◌, Option, none, some,
  ◌==◌, ltb, ok, err, >>=-eq-ok, ℤ, pos, abs, ltb_ℤ, leb_ℤ, ◌≤ℤ◌, if◌then◌else◌, arith, Bool-cases,
}
use pvlog.Application.Validation.{
  EnergyReading, interval, cumulative, GridFlow, net, split, import, export, NetCalculationMode,
  measured, import_positive, export_positive, BatteryReading, is_none, IngestionValidationPolicy,
  physical_limit, energy_delta, validate_counter, validate_grid, maximum_power, exceeds,
  empty_battery,
}

-- A counter goes on from another one: not lower under the same reset sequence, or anew under the
-- next, which stays at the largest u32.
pub data Continues : EnergyReading → EnergyReading → Type 0 where
  same_sequence :
      {total previous : ℤ} {s r : ℕ}
      → s ≡ r
      → previous ≤ℤ total
      → Continues (cumulative total s) (cumulative previous r)
  reset :
      {total previous : ℤ} {s r : ℕ}
      → s ≡ min (r + 1) 4294967295
      → Continues (cumulative total s) (cumulative previous r)

-- Nothing is asked of an interval, nor of a first reading.
pub data CounterFits : Option EnergyReading → Option EnergyReading → Type 0 where
  absent : {p : Option EnergyReading} → CounterFits none p
  first : {c : Option EnergyReading} → CounterFits c none
  over_interval : {value : ℤ} {p : Option EnergyReading} → CounterFits (some (interval value)) p
  counted : {c p : EnergyReading} → Continues c p → CounterFits (some c) (some p)

-- The sign convention is the configured one, and separate meters are not negative.
pub data GridFits : Option GridFlow → NetCalculationMode → Type 0 where
  no_grid : {mode : NetCalculationMode} → GridFits none mode
  any_sign : {power : ℤ} (d : _) → GridFits (some (net power d)) measured
  imports : {power : ℤ} → GridFits (some (net power import)) import_positive
  exports : {power : ℤ} → GridFits (some (net power export)) export_positive
  meters :
      {i e : ℤ} {mode : NetCalculationMode}
      → pos 0 ≤ℤ i
      → pos 0 ≤ℤ e
      → GridFits (some (split i e)) mode

counter-Continues :
    (total : ℤ) (s : ℕ) (previous : ℤ) (r : ℕ) (delta : ℤ)
    → energy_delta (cumulative total s) (cumulative previous r) ≡ ok delta
    → Continues (cumulative total s) (cumulative previous r)
unfolding energy_delta
counter-Continues total s previous r delta e =
    elim (Bool-cases ((s == r) && leb_ℤ previous total)) [
      | inl on ↦ same_sequence (ground arith) (ground arith)
      | inr off ↦ reset (ground arith)
    ]

pub counter-CounterFits :
    (current previous : Option EnergyReading) (done : Unit {0})
    → validate_counter current previous ≡ ok done
    → CounterFits current previous
unfolding validate_counter
counter-CounterFits none p d e = absent
counter-CounterFits (some (interval v)) p d e = over_interval
counter-CounterFits (some (cumulative t s)) none d e = first
counter-CounterFits (some (cumulative t s)) (some (interval v)) d e =
    absurd (unfold energy_delta in cc)
counter-CounterFits (some (cumulative t s)) (some (cumulative p r)) d e =
    let (delta, from, _) = >>=-eq-ok (energy_delta (cumulative t s) (cumulative p r)) _ e in
    counted (counter-Continues t s p r delta from)

pub grid-GridFits :
    (grid : Option GridFlow) (mode : NetCalculationMode) (done : Unit {0})
    → validate_grid grid mode ≡ ok done
    → GridFits grid mode
unfolding validate_grid
grid-GridFits none mode d e = no_grid
grid-GridFits (some (net p i)) measured d e = any_sign i
grid-GridFits (some (net p import)) import_positive d e = imports
grid-GridFits (some (net p export)) import_positive d e = cc
grid-GridFits (some (net p import)) export_positive d e = cc
grid-GridFits (some (net p export)) export_positive d e = exports
grid-GridFits (some (split i x)) mode d e = meters (ground arith) (ground arith)

-- The power, if there is one, is within the policy's share of the capacity.
abbrev pub Within : IngestionValidationPolicy → Option ℤ → Type 0
Within policy none = Unit {0}
Within policy (some power) =
    abs power ≤ policy.effective_capacity_watts * policy.maximum_power_basis_points / 10000

pub maximum_power-eq-ok :
    (policy : IngestionValidationPolicy) (m : ℕ)
    → maximum_power policy ≡ ok m
    → m ≡ policy.effective_capacity_watts * policy.maximum_power_basis_points / 10000
unfolding maximum_power
maximum_power-eq-ok policy m e =
    choose (policy.effective_capacity_watts * policy.maximum_power_basis_points) m e
  where
    choose :
        (product m : ℕ)
        → (if ltb product (2 ^ 64) && ltb (product / 10000) (2 ^ 63)
            then ok (product / 10000)
            else err physical_limit)
          ≡ ok m
        → m ≡ product / 10000
    choose product m e = ground arith

pub exceeds-Within :
    (policy : IngestionValidationPolicy) (power : Option ℤ) (m : ℕ)
    → m ≡ policy.effective_capacity_watts * policy.maximum_power_basis_points / 10000
    → exceeds m power ≡ false
    → Within policy power
exceeds-Within policy none m h e = tt
exceeds-Within policy (some power) m h e = rw (← h) (ground arith)

pub in_order : (a t b : ℤ) → (ltb_ℤ t a || ltb_ℤ b t) ≡ false → (a ≤ℤ t) × (t ≤ℤ b)
in_order a t b h = (ground arith, ground arith)

some_is_there : {A : Type 0} (x : Option A) → is_none x ≡ false → x ≢ none
some_is_there none h e = cc
some_is_there (some x) h e = cc

-- A battery reading, if there is one, has an energy, a power or a state of charge.
abbrev pub Measured : Option BatteryReading → Type 0
Measured none = Unit {0}
Measured (some b) = (b.energy ≢ none) ⊎ ((b.power ≢ none) ⊎ (b.state_of_charge ≢ none))

pub battery-Measured :
    (battery : Option BatteryReading) → empty_battery battery ≡ false → Measured battery
battery-Measured none h = tt
battery-Measured (some b) h = elim (Bool-cases (is_none b.energy)) [
  | inr energy ↦ inl (some_is_there b.energy energy)
  | inl no_energy ↦ elim (Bool-cases (is_none b.power)) [
    | inr power ↦ inr (inl (some_is_there b.power power))
    | inl no_power ↦ inr (inr (some_is_there b.state_of_charge (rw (no_energy, no_power) at h)))
  ]
]
