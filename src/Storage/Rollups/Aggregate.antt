-- ===== src/Storage/Rollups/Aggregate.antt =====
-- What a rollup says of the samples in its window.
use pvlog.Common.{
  some_injective, ℕ, ◌*◌, map, ap, ok, ◌/◌, ◌≤◌, ◌<◌, ◌^◌, min, ◌≡◌, refl, sym, inl, inr, not, List,
  [], ◌∷◌, Option, none, some, ltb, length, All, Any, pos, ◌≤ℤ◌, ◌-ℤ◌, wrap_i64, to_u64,
  to_u64-eq-some, >>=-eq-ok, ok_or-eq-ok, fail_if-eq-ok, ok_injective, arith, subst,
}
use pvlog.Storage.Rollups.{
  RollupGranularity, RollupWindow, RollupSample, TelemetryRollup, overflow, total_covered,
  sum_values, min_value, max_value, last_value, coverage, rollup_of, push, build_rollups,
}
use pvlog.Storage.Rollups.Buckets.{within, roll_each, build_rollups-roll_each}
use pvlog.Storage.Rollups.Values.{
  min_value-Least, max_value-Greatest, add_up, add_up_ℕ, value_of, covered_of, sum_values-add_up,
  covered_in_all, IsLast, last_value-IsLast,
}

share-le : (c d : ℕ) → c ≤ d → c * 10000 / d ≤ 10000
share-le c d h = grind arith

-- A rollup sums up a bucket: its window, how many samples, the sum, the least, the greatest, the first
-- and the last value, and the share of the window's length that the samples cover, capped.
pub record Aggregates (w : RollupWindow) (bucket : List RollupSample) (r : TelemetryRollup)
    : Type 0 where
  pub window : r.window ≡ w
  pub count : r.count ≡ length bucket
  pub inhabited : 0 < r.count
  pub sum : r.sum ≡ add_up (map value_of bucket)
  pub below : All (λ s. r.minimum ≤ℤ s.value) bucket
  pub least : Any (λ s. s.value ≡ r.minimum) bucket
  pub above : All (λ s. s.value ≤ℤ r.maximum) bucket
  pub greatest : Any (λ s. s.value ≡ r.maximum) bucket
  pub first :
      (rest : List RollupSample) × (s : RollupSample) × (bucket ≡ s ∷ rest) × (r.first ≡ s.value)
  pub last : IsLast r.last bucket
  pub duration : ℕ
  pub length_of : wrap_i64 (w.end_epoch_millis -ℤ w.start_epoch_millis) ≡ pos duration
  pub capped : r.covered_millis ≡ min (add_up_ℕ (map covered_of bucket)) duration
  pub share : r.coverage_basis_points ≡ r.covered_millis * 10000 / duration
  pub at_most_all : r.coverage_basis_points ≤ 10000

coverage-eq-ok : (c d p : ℕ) → coverage c d ≡ ok p → p ≡ c * 10000 / d
unfolding coverage
coverage-eq-ok c d p e =
    let (_, e1) = fail_if-eq-ok (not (ltb (c * 10000) (2 ^ 64))) overflow _ e in
    let (_, e2) = fail_if-eq-ok (not (ltb (c * 10000 / d) (2 ^ 16))) overflow _ e1 in
    sym (ok_injective (c * 10000 / d) p e2)

pub rollup_of-Aggregates :
    (w : RollupWindow) (bucket : List RollupSample) (r : TelemetryRollup)
    → rollup_of w bucket ≡ ok (some r)
    → Aggregates w bucket r
unfolding rollup_of
rollup_of-Aggregates w [] r e = let same : none ≡ some r = ok_injective none (some r) e in cc
rollup_of-Aggregates w (s ∷ samples) r e =
    let (duration, d, e1) =
      ok_or-eq-ok (to_u64 (wrap_i64 (w.end_epoch_millis -ℤ w.start_epoch_millis))) overflow _ e in
    let (total, t, e2) = >>=-eq-ok (total_covered 0 (s ∷ samples)) _ e1 in
    let (points, p, e3) = >>=-eq-ok (coverage (min total duration) duration) _ e2 in
    let least = min_value-Least s.value samples in
    let most = max_value-Greatest s.value samples in
    let share = coverage-eq-ok (min total duration) duration points p in
    let result : TelemetryRollup = record {
      window = w;
      sum = sum_values (s ∷ samples);
      minimum = min_value s.value samples;
      maximum = max_value s.value samples;
      count = length (s ∷ samples);
      first = s.value;
      last = last_value s.value samples;
      covered_millis = min total duration;
      coverage_basis_points = points;
    } in
    subst (Aggregates w (s ∷ samples))
      (some_injective result r (ok_injective (some result) (some r) e3))
      (record {
        window = refl;
        count = refl;
        inhabited = omega arith;
        sum = sum_values-add_up (s ∷ samples);
        below = (least.below_first, least.below);
        least = elim least.reached [ inl x ↦ inl x | inr y ↦ inr y ];
        above = (most.above_first, most.above);
        greatest = elim most.reached [ inl x ↦ inl x | inr y ↦ inr y ];
        first = (samples, s, refl, refl);
        last = last_value-IsLast s samples;
        duration = duration;
        length_of = to_u64-eq-some _ duration d;
        capped = ap (λ (n : ℕ). min n duration) (covered_in_all (s ∷ samples) total t);
        share = share;
        at_most_all = omega (arith, share, share-le (min total duration) duration (omega arith));
      })

roll_each-Aggregates :
    (windows : List RollupWindow) (samples : List RollupSample) (rollups : List TelemetryRollup)
    → roll_each windows samples ≡ ok rollups
    → All (λ r. Aggregates r.window (within r.window samples) r) rollups
unfolding roll_each
roll_each-Aggregates [] samples rollups e =
    subst (All (λ r. Aggregates r.window (within r.window samples) r)) (ok_injective [] rollups e)
      tt
roll_each-Aggregates (w ∷ windows) samples rollups e =
    let (rollup, one, e1) = >>=-eq-ok (rollup_of w (within w samples)) _ e in
    let (rest, others, e2) = >>=-eq-ok (roll_each windows samples) _ e1 in
    subst (All (λ r. Aggregates r.window (within r.window samples) r))
      (ok_injective (push rollup rest) rollups e2)
      (push-All rollup rest one (roll_each-Aggregates windows samples rest others))
  where
    own :
        (r : TelemetryRollup)
        → Aggregates w (within w samples) r
        → Aggregates r.window (within r.window samples) r
    own r a = subst (λ v. Aggregates v (within v samples) r) (sym a.window) a

    push-All :
        (rollup : Option TelemetryRollup) (rest : List TelemetryRollup)
        → rollup_of w (within w samples) ≡ ok rollup
        → All (λ r. Aggregates r.window (within r.window samples) r) rest
        → All (λ r. Aggregates r.window (within r.window samples) r) (push rollup rest)
    push-All none rest one h = h
    push-All (some r) rest one h = (own r (rollup_of-Aggregates w (within w samples) r one), h)

-- Every rollup that is built has the number, the sum, the least, the greatest, the first and the last value
-- of the samples that lie in its window, of which there are some, and says what share of the window's
-- length they cover, at most all of it.
pub build_rollups-Aggregates :
    (granularity : RollupGranularity) (samples : List RollupSample) (windows : List RollupWindow)
    (rollups : List TelemetryRollup)
    → build_rollups granularity samples windows ≡ ok rollups
    → All (λ r. Aggregates r.window (within r.window samples) r) rollups
build_rollups-Aggregates granularity samples windows rollups e =
    roll_each-Aggregates windows samples rollups
      (build_rollups-roll_each granularity samples windows rollups e)
