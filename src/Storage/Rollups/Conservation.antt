-- ===== src/Storage/Rollups/Conservation.antt =====
-- `build_rollups` counts every sample once.
use pvlog.Common.{
  ℕ, ◌+◌, ◌≡◌, refl, sym, ap, ◌∙◌, inl, inr, false, not, List, [], ◌∷◌, Option, none, some, length,
  ℤ, pos, ◌+ℤ◌, ◌-ℤ◌, ltb_ℤ, wrap_i64, to_u64, int_laws, ok_or-eq-ok, ok, >>=-eq-ok, fail_if-eq-ok,
  ok_injective, err_ne_ok, arith, Bool-cases, subst,
}
use pvlog.Storage.Rollups.{
  RollupGranularity, RollupWindow, RollupSample, TelemetryRollup, sample_ordering,
  sample_outside_windows, validate_windows, unordered, take_bucket, sum_values, rollup_of, push,
  total_covered, coverage, overflow, roll_windows, is_empty, build_rollups,
}
use pvlog.Storage.Rollups.Values.{sum_values-add_up}
use pvlog.Storage.Rollups.Aggregate.{rollup_of-Aggregates}

unfoldable pub counted : List TelemetryRollup → ℕ
counted [] = 0
counted (r ∷ rollups) = r.count + counted rollups

unfoldable pub summed : List TelemetryRollup → ℤ
summed [] = pos 0
summed (r ∷ rollups) = r.sum +ℤ summed rollups

-- Two parts of the samples, as to number and sum.
record Parts (n m all : ℕ) (a b total : ℤ) : Type 0 where
  number : n + m ≡ all
  amount : a +ℤ b ≡ total

Parts-regroup :
    (n m k rest all : ℕ) (a b c d total : ℤ)
    → Parts n m all a b total
    → Parts k rest m c d b
    → Parts (n + k) rest all (a +ℤ c) d total
Parts-regroup n m k rest all a b c d total p q = record {
  number = omega (arith, p.number, q.number);
  amount = rw (← p.amount, ← q.amount) (omega int_laws);
}

Parts-cons :
    (w : RollupWindow) (s : RollupSample) (samples bucket left : List RollupSample)
    → Parts
        (length bucket)
        (length left)
        (length samples)
        (sum_values bucket)
        (sum_values left)
        (sum_values samples)
    → Parts
        (length (s ∷ bucket))
        (length left)
        (length (s ∷ samples))
        (sum_values (s ∷ bucket))
        (sum_values left)
        (sum_values (s ∷ samples))
unfolding sum_values
Parts-cons w s samples bucket left p = record {
  number = omega (arith, p.number);
  amount = rw (← p.amount) (omega int_laws);
}

abbrev Divides : List RollupSample → List RollupSample × List RollupSample → Type 0
Divides samples split =
    Parts (length split.0) (length split.1) (length samples) (sum_values split.0)
      (sum_values split.1) (sum_values samples)

take_bucket-Parts :
    (w : RollupWindow) (samples : List RollupSample) (split : List RollupSample × List RollupSample)
    → take_bucket w samples ≡ ok split
    → Divides samples split
unfolding take_bucket
take_bucket-Parts w [] split e =
    subst (Divides []) (ok_injective ([], []) split e)
      (record { number = omega arith; amount = unfold sum_values in omega int_laws })
take_bucket-Parts w (s ∷ samples) split e =
    elim (Bool-cases (ltb_ℤ s.timestamp_epoch_millis w.end_epoch_millis)) [
      | inl before_end ↦ elim (Bool-cases (ltb_ℤ s.timestamp_epoch_millis w.start_epoch_millis)) [
        | inl early ↦ absurd (err_ne_ok (rw (before_end, early) at e))
        | inr inside ↦
            let (rest, taken, e1) =
              >>=-eq-ok (take_bucket w samples) _ (rw (before_end, inside) at e) in
            subst (Divides (s ∷ samples)) (ok_injective (s ∷ rest.0, rest.1) split e1)
              (Parts-cons w s samples rest.0 rest.1 (take_bucket-Parts w samples rest taken))
      ]
      | inr past ↦
          subst (Divides (s ∷ samples)) (ok_injective ([], s ∷ samples) split (rw past at e))
            (record { number = omega arith; amount = unfold sum_values in omega int_laws })
    ]

rollup_of-some :
    (w : RollupWindow) (s : RollupSample) (samples : List RollupSample)
    (rollup : Option TelemetryRollup)
    → rollup_of w (s ∷ samples) ≡ ok rollup
    → (r : TelemetryRollup) × (rollup ≡ some r)
unfolding rollup_of
rollup_of-some w s samples rollup e =
    let (_, _, e1) =
      ok_or-eq-ok (to_u64 (wrap_i64 (w.end_epoch_millis -ℤ w.start_epoch_millis))) overflow _ e in
    let (_, _, e2) = >>=-eq-ok (total_covered 0 (s ∷ samples)) _ e1 in
    let (_, _, e3) = >>=-eq-ok (coverage _ _) _ e2 in (_, sym (ok_injective _ rollup e3))

rollup_of-counted :
    (w : RollupWindow) (bucket : List RollupSample) (rollup : Option TelemetryRollup)
    (rest : List TelemetryRollup)
    → rollup_of w bucket ≡ ok rollup
    → (counted (push rollup rest) ≡ length bucket + counted rest)
      × (summed (push rollup rest) ≡ sum_values bucket +ℤ summed rest)
unfolding counted summed
rollup_of-counted w [] none rest e = (omega arith, unfold sum_values in omega int_laws)
rollup_of-counted w (s ∷ samples) none rest e =
    let (r, absent) = rollup_of-some w s samples none e in cc
rollup_of-counted w bucket (some r) rest e =
    let a = rollup_of-Aggregates w bucket r e in
    (omega (arith, a.count), rw (a.sum, ← sum_values-add_up bucket) refl)

-- What the rollups count and what is left make up the samples.
roll_windows-Parts :
    (windows : List RollupWindow) (samples : List RollupSample)
    (rolled : List TelemetryRollup × List RollupSample)
    → roll_windows windows samples ≡ ok rolled
    → Parts
        (counted rolled.0)
        (length rolled.1)
        (length samples)
        (summed rolled.0)
        (sum_values rolled.1)
        (sum_values samples)
unfolding roll_windows
roll_windows-Parts [] samples rolled e =
    subst
      (λ r.
        Parts (counted r.0) (length r.1) (length samples) (summed r.0) (sum_values r.1)
          (sum_values samples))
      (ok_injective ([], samples) rolled e)
      (unfold counted summed in record { number = omega arith; amount = omega int_laws })
roll_windows-Parts (w ∷ windows) samples rolled e =
    let (split, taken, e1) = >>=-eq-ok (take_bucket w samples) _ e in
    let (rollup, rolled_up, e2) = >>=-eq-ok (rollup_of w split.0) _ e1 in
    let (rest, others, e3) = >>=-eq-ok (roll_windows windows split.1) _ e2 in
    let (number, amount) = rollup_of-counted w split.0 rollup rest.0 rolled_up in
    subst
      (λ r.
        Parts (counted r.0) (length r.1) (length samples) (summed r.0) (sum_values r.1)
          (sum_values samples))
      (ok_injective (push rollup rest.0, rest.1) rolled e3)
      (rw (number, amount)
        (Parts-regroup _ _ _ _ _ _ _ _ _ _ (take_bucket-Parts w samples split taken)
          (roll_windows-Parts windows split.1 rest others)))

nothing_left : (samples : List RollupSample) → not (is_empty samples) ≡ false → samples ≡ []
nothing_left [] e = refl
nothing_left (s ∷ samples) e = cc

-- If the rollups are built, their counts add up to the number of the samples, and their sums to the sum of
-- the samples' values: no sample is lost or counted twice.
pub build_rollups-conserves :
    (granularity : RollupGranularity) (samples : List RollupSample) (windows : List RollupWindow)
    (rollups : List TelemetryRollup)
    → build_rollups granularity samples windows ≡ ok rollups
    → (counted rollups ≡ length samples) × (summed rollups ≡ sum_values samples)
unfolding build_rollups
build_rollups-conserves granularity samples windows rollups e =
    let (_, _, e1) = >>=-eq-ok (validate_windows granularity none windows) _ e in
    let (_, e2) = fail_if-eq-ok (unordered samples) sample_ordering _ e1 in
    let (rolled, rolled_up, e3) = >>=-eq-ok (roll_windows windows samples) _ e2 in
    let (all_used, e4) = fail_if-eq-ok (not (is_empty rolled.1)) sample_outside_windows _ e3 in
    let parts = roll_windows-Parts windows samples rolled rolled_up in
    let left = nothing_left rolled.1 all_used in
    subst (λ r. (counted r ≡ length samples) × (summed r ≡ sum_values samples))
      (ok_injective rolled.0 rollups e4)
      (
        omega (arith, parts.number, ap length left),
        all_of (summed rolled.0) (sum_values rolled.1) (sum_values samples)
            (rw left (unfold sum_values in refl)) parts.amount,
      )
  where
    all_of : (a b total : ℤ) → b ≡ pos 0 → a +ℤ b ≡ total → a ≡ total
    all_of a b total h k = (omega int_laws) ∙ rw h at k
