-- ===== src/Application/Validation/Energy.antt =====
-- `energy_delta` and `derive_power`: the energy between two readings and the power that it comes to.
use pvlog.Common.{
  ℕ, zero, suc, min, ◌+◌, ◌/◌, ◌≤◌, ◌<◌, ◌≡◌, refl, sym, ap, subst, ◌∙◌, ok_injective,
  some_injective, err_ne_ok, inl, inr, ◌&&◌, Option, none, some, ◌==◌, ok, err, ok_or, ok_or-eq-ok,
  >>=-eq-ok, ℤ, pos, negsuc, ◌-ℤ◌, ◌*ℤ◌, abs, wrap_i64, ltb_ℤ, leb_ℤ, ◌≤ℤ◌, ◌<ℤ◌, in_i64,
  if◌then◌else◌, arith, Bool-cases,
}
use pvlog.Application.Validation.{
  EnergyReading, interval, cumulative, derivation, elapsed_millis, next_sequence, energy_delta,
  checked_div, checked_mul, derive_power,
}

-- The energy between two readings: an interval's own, the difference of two counts of one sequence, as an
-- i64, or the whole count after a reset.
pub data Delta : EnergyReading → EnergyReading → ℤ → Type 0 where
  of_interval : {value : ℤ} {previous : EnergyReading} → Delta (interval value) previous value
  counted_further :
      {total previous difference : ℤ} {s r : ℕ}
      → s ≡ r
      → previous ≤ℤ total
      → difference ≡ wrap_i64 (total -ℤ previous)
      → Delta (cumulative total s) (cumulative previous r) difference
  counted_anew :
      {total previous : ℤ} {s r : ℕ}
      → ((s ≡ r) → total <ℤ previous)
      → s ≡ min (r + 1) 4294967295
      → Delta (cumulative total s) (cumulative previous r) total

-- The quotient by a number of milliseconds, toward zero.
pub record Quotient (a : ℤ) (d : ℕ) (q : ℤ) : Type 0 where
  pub size : abs q ≡ abs a / d
  pub up : pos 0 ≤ℤ a → pos 0 ≤ℤ q
  pub down : a ≤ℤ pos 0 → q ≤ℤ pos 0

pub energy_delta-Delta :
    (current old : EnergyReading) (delta : ℤ)
    → energy_delta current old ≡ ok delta
    → Delta current old delta
unfolding energy_delta
energy_delta-Delta (interval value) old delta e =
    subst (Delta (interval value) old) (ok_injective value delta e) of_interval
energy_delta-Delta (cumulative total s) (interval value) delta e = cc
energy_delta-Delta (cumulative total s) (cumulative previous r) delta e =
    elim (Bool-cases ((s == r) && leb_ℤ previous total)) [
      | inl on ↦
          counted_further (ground arith) (ground arith)
            (sym (ok_injective (wrap_i64 (total -ℤ previous)) delta (rw on at e)))
      | inr off ↦ elim (Bool-cases (s == next_sequence r)) [
        | inl anew ↦
            subst (Delta (cumulative total s) (cumulative previous r))
              (ok_injective total delta (rw (off, anew) at e))
              (counted_anew (λ same. ground (arith, same)) (ground arith))
        | inr gap ↦ absurd (err_ne_ok (rw (off, gap) at e))
      ]
    ]

div_small : (n d : ℕ) → n ≤ 0 → n / suc d ≡ 0
div_small n d h = grind arith

negated : (m : ℕ) → (abs (pos 0 -ℤ pos m) ≡ m) × ((pos 0 -ℤ pos m) ≤ℤ pos 0)
unfolding ◌-ℤ◌
negated zero = (refl, omega arith)
negated (suc m) = (ground arith, ground arith)

pub checked_div-Quotient : (a : ℤ) (d : ℕ) (q : ℤ) → checked_div a (pos d) ≡ some q → Quotient a d q
unfolding checked_div
checked_div-Quotient a zero q e = cc
checked_div-Quotient (pos n) (suc d) q e =
    subst (Quotient (pos n) (suc d)) (some_injective (pos (n / suc d)) q e) (record {
      size = plus_zero (n / suc d) ∙ ap (λ (m : ℕ). m / suc d) (sym (plus_zero n));
      up = λ h. omega arith;
      down = λ h. omega (arith, div_small n d (omega (arith, h)));
    })
  where
    plus_zero : (m : ℕ) → m + 0 ≡ m
    plus_zero m = omega arith
checked_div-Quotient (negsuc n) (suc d) q e =
    let k = suc n / suc d in
    subst (Quotient (negsuc n) (suc d)) (some_injective (pos 0 -ℤ pos k) q e) (record {
      size = (negated k).0 ∙ ap (λ (m : ℕ). m / suc d) (sym zero_plus);
      up = λ h. omega (arith, h);
      down = λ h. (negated k).1;
    })
  where
    zero_plus : 0 + suc n ≡ suc n
    zero_plus = omega arith

pub elapsed_millis-eq-ok :
    (earlier now elapsed : ℤ)
    → elapsed_millis earlier now ≡ ok elapsed
    → (elapsed ≡ now -ℤ earlier) × (pos 0 <ℤ elapsed)
unfolding elapsed_millis
elapsed_millis-eq-ok earlier now elapsed e = choose (now -ℤ earlier) elapsed e
  where
    choose :
        (d elapsed : ℤ)
        → (if in_i64 d && ltb_ℤ (pos 0) d then ok d else err derivation) ≡ ok elapsed
        → (elapsed ≡ d) × (pos 0 <ℤ elapsed)
    choose d elapsed e = ground arith

checked_mul-eq-some : (a b m : ℤ) → checked_mul a b ≡ some m → m ≡ a *ℤ b
checked_mul-eq-some a b m e = choose (a *ℤ b) m e
  where
    choose : (p m : ℤ) → (if in_i64 p then some p else none) ≡ some m → m ≡ p
    choose p m e = ground arith

pub derive_power-eq-ok :
    (current old : EnergyReading) (elapsed power : ℤ)
    → derive_power current old elapsed ≡ ok power
    → (delta : ℤ) × (energy_delta current old ≡ ok delta)
      × (checked_div (delta *ℤ pos 3600000) elapsed ≡ some power)
unfolding derive_power
derive_power-eq-ok current old elapsed power e =
    let (delta, counted_on, e1) = >>=-eq-ok (energy_delta current old) _ e in
    let (scaled, product, e2) = ok_or-eq-ok (checked_mul delta (pos 3600000)) derivation _ e1 in
    (
      delta,
      counted_on,
      rw (← checked_mul-eq-some delta (pos 3600000) scaled product)
          (ok_or-some (checked_div scaled elapsed) power e2),
    )
  where
    ok_or-some : (q : Option ℤ) (power : ℤ) → ok_or q derivation ≡ ok power → q ≡ some power
    ok_or-some q power e = ground arith

pub positive_pos : (a : ℤ) → pos 0 <ℤ a → (n : ℕ) × (a ≡ pos n) × (0 < n)
positive_pos (pos n) h = (n, refl, omega (arith, h))
positive_pos (negsuc n) h = absurd (omega (arith, h))
