-- ===== src/Application/Planner/Bounds.antt =====
-- A plan stays within the budget of points, and what its estimate is.
use Prim.Native.String.{String}
use native.Mathlib.Nat.{mul-div-le, lt-mul-div-succ}
use pvlog.Common.{
  ℕ, zero, suc, subst, ◌+◌, ◌-◌, ◌*◌, ◌/◌, ◌≤◌, ◌<◌, ◌^◌, ◌≡◌, sym, ◌∙◌, inl, inr, Option, some,
  ltb, ◌==◌, Bool-cases, pos, ◌<ℤ◌, leb_ℤ, InI64, ok, fail_if-eq-ok, ok_injective, err_ne_ok, arith,
  ◌+ℤ◌, range_length,
}
use pvlog.Application.Planner.{
  QueryResolution, QueryPlan, QueryPlanRequest, invalid_range, no_fields, invalid_point_budget,
  invalid_raw_interval, no_field, validate_request, points_for_interval, points_for_resolution,
  plan_query,
}
use pvlog.Application.Planner.Budget.{
  estimate, plan_query-Stages, choose-Affordable, source_of-estimate,
}

-- The milliseconds that a point is estimated to stand for: the expected interval of raw points, a quarter
-- of an hour, an hour, a day, thirty days, or three hundred and sixty-five days.
unfoldable pub nominal_millis : QueryPlanRequest → QueryResolution → ℕ
nominal_millis request QueryResolution.raw = request.expected_raw_interval_millis
nominal_millis request QueryResolution.fifteen_minutes = 900000
nominal_millis request QueryResolution.hourly = 3600000
nominal_millis request QueryResolution.daily = 86400000
nominal_millis request QueryResolution.monthly = 2592000000
nominal_millis request QueryResolution.yearly = 31536000000

-- The points are one more than the least number of intervals that are together as long as a range.
pub record OneMoreThanCover (interval duration points : ℕ) : Type 0 where
  pub several : 2 ≤ points
  pub cover : duration ≤ interval * (points - 1)
  pub least : interval * (points - 2) < duration

div_cover :
    (i d : ℕ)
    → 0 < i
    → 0 < d
    → (1 ≤ (d + (i - 1)) / i) × (d ≤ i * ((d + (i - 1)) / i)) × (i * ((d + (i - 1)) / i - 1) < d)
div_cover i d h k =
    let q = (d + (i - 1)) / i in
    let low : i * q ≤ d + (i - 1) = mul-div-le (d + (i - 1)) i in
    let high : d + (i - 1) < i * (q + 1) = lt-mul-div-succ (d + (i - 1)) h in
    let next : i * (q + 1) ≡ i * q + i = grind arith in
    let some_one : 1 ≤ q = at_least_one q (omega (arith, high, next)) in
    let before : i * q ≡ i * (q - 1) + i = step q some_one in
    (some_one, omega (arith, high, next), omega (arith, low, before, h))
  where
    at_least_one : (q : ℕ) → 0 < i * q → 1 ≤ q
    at_least_one zero p = grind (arith, p)
    at_least_one (suc q) p = omega arith

    step : (q : ℕ) → 1 ≤ q → i * q ≡ i * (q - 1) + i
    step zero p = omega (arith, p)
    step (suc q) p = grind arith

points_for_interval-Cover :
    (duration interval points : ℕ)
    → 0 < interval
    → 0 < duration
    → points_for_interval duration interval ≡ ok points
    → OneMoreThanCover interval duration points
unfolding points_for_interval
points_for_interval-Cover duration interval points h k e =
    elim (Bool-cases (ltb (duration + (interval - 1)) (2 ^ 64))) [
      | inr over ↦ absurd (err_ne_ok (rw over at e))
      | inl fits ↦
          let q = (duration + (interval - 1)) / interval in
          let own : q + 1 ≡ points = ok_injective (q + 1) points (rw fits at e) in
          let c = div_cover interval duration h k in
          subst (OneMoreThanCover interval duration) own (record {
            several = omega (arith, c.0);
            cover = rw (one_less q) c.1;
            least = rw (two_less q) c.2;
          })
    ]
  where
    one_less : (q : ℕ) → q + 1 - 1 ≡ q
    one_less q = omega arith

    two_less : (q : ℕ) → q + 1 - 2 ≡ q - 1
    two_less q = omega arith

estimate-Cover :
    (request : QueryPlanRequest) (duration raw_points points : ℕ) (r : QueryResolution)
    → 0 < request.expected_raw_interval_millis
    → 0 < duration
    → points_for_interval duration request.expected_raw_interval_millis ≡ ok raw_points
    → estimate duration raw_points r ≡ ok points
    → OneMoreThanCover (nominal_millis request r) duration points
unfolding estimate nominal_millis points_for_resolution
estimate-Cover request duration raw_points points QueryResolution.raw h k raw_e e =
    points_for_interval-Cover duration _ points h k (raw_e ∙ e)
estimate-Cover request duration raw_points points QueryResolution.fifteen_minutes h k raw_e e =
    points_for_interval-Cover duration 900000 points (omega arith) k e
estimate-Cover request duration raw_points points QueryResolution.hourly h k raw_e e =
    points_for_interval-Cover duration 3600000 points (omega arith) k e
estimate-Cover request duration raw_points points QueryResolution.daily h k raw_e e =
    points_for_interval-Cover duration 86400000 points (omega arith) k e
estimate-Cover request duration raw_points points QueryResolution.monthly h k raw_e e =
    points_for_interval-Cover duration 2592000000 points (omega arith) k e
estimate-Cover request duration raw_points points QueryResolution.yearly h k raw_e e =
    points_for_interval-Cover duration 31536000000 points (omega arith) k e

-- What an accepted request keeps.
pub valid-tests :
    (request : QueryPlanRequest)
    → validate_request request ≡ ok tt
    → (request.start_epoch_millis <ℤ request.end_epoch_millis)
      × (0 < request.expected_raw_interval_millis)
unfolding validate_request
valid-tests request e =
    let (rising, e1) =
      fail_if-eq-ok (leb_ℤ request.end_epoch_millis request.start_epoch_millis) invalid_range _ e in
    let (_, e2) = fail_if-eq-ok (no_field request.fields) no_fields _ e1 in
    let (_, e3) = fail_if-eq-ok (request.maximum_points == 0) invalid_point_budget _ e2 in
    let (paced, _) =
      fail_if-eq-ok (request.expected_raw_interval_millis == 0) invalid_raw_interval _ e3 in
    (ground arith, ground arith)

-- If planning succeeds and the ends of the range are i64s, then the plan's estimate is within the budget
-- and is one more than the least number of intervals that are together as long as the range, where the
-- interval of the resolution is the expected one of raw points, a quarter of an hour, an hour, a day, thirty
-- days or three hundred and sixty-five days; and the fields and the zone are those of the request.
pub plan_query-within_budget :
    (Tz : Type 0) (parse : String → Option Tz) (request : QueryPlanRequest) (plan : QueryPlan Tz)
    → InI64 request.start_epoch_millis
    → InI64 request.end_epoch_millis
    → plan_query Tz parse request ≡ ok plan
    → (plan.estimated_points ≤ request.maximum_points)
      × (plan.fields ≡ request.fields)
      × (parse request.timezone ≡ some plan.timezone)
      × ((duration : ℕ) × (request.end_epoch_millis ≡ request.start_epoch_millis +ℤ pos duration)
          × OneMoreThanCover
              (nominal_millis request plan.actual_resolution)
              duration
              plan.estimated_points)
plan_query-within_budget Tz parse request plan i j e =
    let s = plan_query-Stages Tz parse request plan e in
    let (points, cost, fits) =
      choose-Affordable request.requested_resolution request s.duration s.raw_points _ _ s.chosen in
    let own =
      source_of-estimate request s.duration s.raw_points plan.actual_resolution
        (plan.source, plan.estimated_points) s.sourced in
    let same : points ≡ plan.estimated_points = ok_injective _ _ (sym cost ∙ own) in
    let (rising, paced) = valid-tests request s.valid in
    let (measured, long) =
      range_length request.start_epoch_millis request.end_epoch_millis s.duration rising i j
        s.length_of in
    (
      omega (arith, same, fits),
      s.fields,
      s.zone,
      (
        s.duration,
        measured,
        estimate-Cover request s.duration s.raw_points _ plan.actual_resolution paced long
            s.raw_estimate own,
      ),
    )
