-- ===== src/Application/Series/Proper.antt =====
-- The checks of one series.
use Prim.Native.String.{String}
use pvlog.Common.{
  ℕ, any-All, ◌+◌, ◌≤◌, ◌≡◌, refl, sym, ap, ◌∙◌, ◌⊎◌, inl, inr, Bool, true, false, not, ◌&&◌, ◌||◌,
  List, [], ◌∷◌, Option, none, some, ◌==◌, ltb, length, any, get_or, All, All-map, Bool-cases, ℤ,
  ◌≤ℤ◌, ◌<ℤ◌, ok, fail_if-eq-ok, fail_if-passed, arith,
}
use pvlog.Application.Planner.{SeriesField, QueryResolution}
use pvlog.Application.Series.{
  SeriesUnit, watts, watt_hours, basis_points, milli_degrees_celsius, integer, SeriesPoint,
  PlannedSeries, unexpected_series, unit_mismatch, result_bound_exceeded, invalid_point,
  aggregate_has_raw_provenance, invalid_gap, unit_index, unit_for, is_some, is_raw,
  unordered_points, result_bound, bad_point, bad_gap, check_series,
}

abbrev pub IsRising : List SeriesPoint → Type 0
IsRising [] = Unit {0}
IsRising (p ∷ points) =
    All (λ q. p.timestamp_epoch_millis <ℤ q.timestamp_epoch_millis) points × IsRising points

-- A series as the request asks for it: its points are few enough, rise, lie in the range and say that they
-- cover at most all of their bucket; its gaps are not empty and lie in the range.
pub record IsProper (resolution : QueryResolution) (start end : ℤ) (maximum_points : ℕ)
    (item : PlannedSeries) : Type 0 where
  pub unit : item.unit ≡ unit_for item.field
  pub few : length item.points ≤ maximum_points + 2
  pub rising : IsRising item.points
  pub points_inside :
      All (λ p. (start ≤ℤ p.timestamp_epoch_millis) × (p.timestamp_epoch_millis <ℤ end)) item.points
  pub covered : All (λ p. p.coverage_basis_points ≤ 10000) item.points
  pub aggregated : (resolution ≡ QueryResolution.raw) ⊎ All (λ p. p.provenance ≡ none) item.points
  pub gaps_inside :
      All
        (λ g.
          (start ≤ℤ g.start_epoch_millis)
          × (g.start_epoch_millis <ℤ g.end_epoch_millis)
          × (g.end_epoch_millis ≤ℤ end))
        item.gaps

rising_from :
    (p q : SeriesPoint) (points : List SeriesPoint)
    → p.timestamp_epoch_millis <ℤ q.timestamp_epoch_millis
    → All (λ r. q.timestamp_epoch_millis <ℤ r.timestamp_epoch_millis) points
    → All (λ r. p.timestamp_epoch_millis <ℤ r.timestamp_epoch_millis) points
rising_from p q points h = All-map (λ r k. omega arith) points

ordered-IsRising : (points : List SeriesPoint) → unordered_points points ≡ false → IsRising points
unfolding unordered_points
ordered-IsRising [] h = tt
ordered-IsRising (p ∷ []) h = (tt, tt)
ordered-IsRising (p ∷ q ∷ points) h =
    let rest = ordered-IsRising (q ∷ points) (ground arith) in
    let rises : p.timestamp_epoch_millis <ℤ q.timestamp_epoch_millis = ground arith in
    ((rises, rising_from p q points rises rest.0), rest)

unit_index_injective : (u v : SeriesUnit) → unit_index u ≡ unit_index v → u ≡ v
unit_index_injective u v e = sym (unit_at u) ∙ ap (λ i. get_or all_units i watts) e ∙ unit_at v
  where
    all_units : List SeriesUnit
    all_units = watts ∷ watt_hours ∷ basis_points ∷ milli_degrees_celsius ∷ integer ∷ []

    unit_at : (u : SeriesUnit) → get_or all_units (unit_index u) watts ≡ u
    unit_at watts = refl
    unit_at watt_hours = refl
    unit_at basis_points = refl
    unit_at milli_degrees_celsius = refl
    unit_at integer = refl

is_raw-eq : (r : QueryResolution) → is_raw r ≡ true → r ≡ QueryResolution.raw
is_raw-eq QueryResolution.raw e = refl
is_raw-eq QueryResolution.fifteen_minutes e = cc
is_raw-eq QueryResolution.hourly e = cc
is_raw-eq QueryResolution.daily e = cc
is_raw-eq QueryResolution.monthly e = cc
is_raw-eq QueryResolution.yearly e = cc

is_some-none : (o : Option String) → is_some o ≡ false → o ≡ none
is_some-none none e = refl
is_some-none (some s) e = cc

pub check_series-IsProper :
    (fields : SeriesField → Bool) (resolution : QueryResolution) (start end : ℤ)
    (maximum_points : ℕ) (seen : SeriesField → Bool) (item : PlannedSeries) (done : Unit {0})
    → check_series fields resolution start end maximum_points seen item ≡ ok done
    → (fields item.field ≡ true)
      × (seen item.field ≡ false)
      × IsProper resolution start end maximum_points item
unfolding check_series bad_point bad_gap
check_series-IsProper fields resolution start end maximum_points seen item done e =
    let (fresh, e1) =
      fail_if-eq-ok (not (fields item.field) || seen item.field) unexpected_series _ e in
    let (same_unit, e2) =
      fail_if-eq-ok (not (unit_index item.unit == unit_index (unit_for item.field))) unit_mismatch _
        e1 in
    let (few, e3) =
      fail_if-eq-ok (ltb (result_bound maximum_points) (length item.points)) result_bound_exceeded _
        e2 in
    let (fine, e4) =
      fail_if-eq-ok (any (bad_point start end) item.points || unordered_points item.points)
        invalid_point _ e3 in
    let (plain, e5) =
      fail_if-eq-ok (not (is_raw resolution) && any (λ p. is_some p.provenance) item.points)
        aggregate_has_raw_provenance _ e4 in
    let closed = fail_if-passed (any (bad_gap start end) item.gaps) invalid_gap e5 in
    (
      ground arith,
      ground arith,
      record {
        unit = unit_index_injective item.unit (unit_for item.field) (ground arith);
        few = ground arith;
        rising = ordered-IsRising item.points (ground arith);
        points_inside =
            any-All (bad_point start end) _ item.points (λ p h. ground arith) (ground arith);
        covered = any-All (bad_point start end) _ item.points (λ p h. ground arith) (ground arith);
        aggregated = elim (Bool-cases (is_raw resolution)) [
          | inl r ↦ inl (is_raw-eq resolution r)
          | inr a ↦ inr (
              any-All (λ p. is_some p.provenance) _ item.points (λ p h. is_some-none p.provenance h)
                (ground arith))
        ];
        gaps_inside = any-All (bad_gap start end) _ item.gaps (λ g h. ground arith) closed;
      },
    )
