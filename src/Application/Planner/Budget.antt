-- ===== src/Application/Planner/Budget.antt =====
-- What the steps of a plan are estimated at: a resolution that is chosen stays within the budget.
use Prim.Native.String.{String}
use pvlog.Common.{
  ℕ, ◌≤◌, ◌≡◌, refl, ap, subst, ◌∙◌, inl, inr, Bool, true, false, not, List, [], ◌∷◌, Option, some,
  leb, Bool-cases, ◌-ℤ◌, wrap_i64, to_u64, ok, ◌>>=◌, ok_or, >>=-eq-ok, ok_or-eq-ok, fail_if-eq-ok,
  ok_injective, err_ne_ok, arith,
}
use pvlog.Application.Planner.{
  supports_rollups, RequestedResolution, QueryResolution, QuerySource, raw, rollup, QueryPlan,
  QueryPlanRequest, Planned, invalid_range, invalid_timezone, resolution_unavailable,
  field_requires_raw, point_budget_exceeded, all_of, validate_request, points_for_interval,
  points_for_resolution, bounded_raw, select_from, aggregates, select_automatic_resolution,
  explicit, choose_resolution, raw_sources, source_of, plan_query,
}

-- The points of a read at a resolution.
unfoldable pub estimate : ℕ → ℕ → QueryResolution → Planned ℕ
estimate duration raw_points QueryResolution.raw = ok raw_points
estimate duration raw_points resolution = points_for_resolution duration resolution

-- The same from the request.
unfoldable pub estimate_of : QueryPlanRequest → QueryResolution → Planned ℕ
estimate_of request resolution = do
  duration ←
      ok_or (to_u64 (wrap_i64 (request.end_epoch_millis -ℤ request.start_epoch_millis)))
        invalid_range
  raw_points ← points_for_interval duration request.expected_raw_interval_millis
  estimate duration raw_points resolution

abbrev pub Affordable : QueryPlanRequest → ℕ → ℕ → QueryResolution → Type 0
Affordable request duration raw_points resolution =
    (points : ℕ) × (estimate duration raw_points resolution ≡ ok points)
    × (points ≤ request.maximum_points)

pub points-estimate :
    (duration raw_points points : ℕ) (r : QueryResolution)
    → points_for_resolution duration r ≡ ok points
    → estimate duration raw_points r ≡ ok points
unfolding points_for_resolution estimate
points-estimate duration raw_points points QueryResolution.raw e = absurd (err_ne_ok e)
points-estimate duration raw_points points QueryResolution.fifteen_minutes e = e
points-estimate duration raw_points points QueryResolution.hourly e = e
points-estimate duration raw_points points QueryResolution.daily e = e
points-estimate duration raw_points points QueryResolution.monthly e = e
points-estimate duration raw_points points QueryResolution.yearly e = e

pub bounded_raw-Affordable :
    (request : QueryPlanRequest) (duration raw_points : ℕ) (r : QueryResolution)
    → bounded_raw raw_points request.maximum_points ≡ ok r
    → Affordable request duration raw_points r
unfolding bounded_raw
bounded_raw-Affordable request duration raw_points r e =
    let (fits, e1) =
      fail_if-eq-ok (not (leb raw_points request.maximum_points)) point_budget_exceeded _ e in
    subst (Affordable request duration raw_points) (ok_injective QueryResolution.raw r e1)
      (raw_points, unfold estimate in refl, ground arith)

select_from-Affordable :
    (request : QueryPlanRequest) (duration raw_points : ℕ) (rs : List QueryResolution)
    (r : QueryResolution)
    → select_from request duration rs ≡ ok r
    → Affordable request duration raw_points r
unfolding select_from
select_from-Affordable request duration raw_points [] r e = absurd (err_ne_ok e)
select_from-Affordable request duration raw_points (q ∷ rs) r e =
    elim (Bool-cases (request.available_rollups q)) [
      | inr missing ↦ select_from-Affordable request duration raw_points rs r (simp missing at e)
      | inl available ↦
          let (points, cost, e1) =
            >>=-eq-ok (points_for_resolution duration q) _ (simp available at e) in
          elim (Bool-cases (leb points request.maximum_points)) [
            | inl fits ↦
                subst (Affordable request duration raw_points) (ok_injective q r (rw fits at e1))
                  (points, points-estimate duration raw_points points q cost, ground arith)
            | inr over ↦ select_from-Affordable request duration raw_points rs r (rw over at e1)
          ]
    ]

automatic-Affordable :
    (request : QueryPlanRequest) (duration raw_points : ℕ) (r : QueryResolution)
    → select_automatic_resolution request duration raw_points ≡ ok r
    → Affordable request duration raw_points r
unfolding select_automatic_resolution
automatic-Affordable request duration raw_points r e =
    elim (Bool-cases (leb raw_points request.maximum_points)) [
      | inl fits ↦
          subst (Affordable request duration raw_points)
            (ok_injective QueryResolution.raw r (rw fits at e))
            (raw_points, unfold estimate in refl, ground arith)
      | inr over ↦ select_from-Affordable request duration raw_points aggregates r (rw over at e)
    ]

explicit-Affordable :
    (request : QueryPlanRequest) (duration raw_points : ℕ) (supported : Bool)
    (q r : QueryResolution)
    → explicit request duration supported q ≡ ok r
    → Affordable request duration raw_points r
unfolding explicit
explicit-Affordable request duration raw_points supported q r e =
    let (_, e1) = fail_if-eq-ok (not supported) field_requires_raw _ e in
    let (_, e2) = fail_if-eq-ok (not (request.available_rollups q)) resolution_unavailable _ e1 in
    let (points, cost, e3) = >>=-eq-ok (points_for_resolution duration q) _ e2 in
    let (fits, e4) =
      fail_if-eq-ok (not (leb points request.maximum_points)) point_budget_exceeded _ e3 in
    subst (Affordable request duration raw_points) (ok_injective q r e4)
      (points, points-estimate duration raw_points points q cost, ground arith)

pub choose-Affordable :
    (requested : RequestedResolution) (request : QueryPlanRequest) (duration raw_points : ℕ)
    (supported : Bool) (r : QueryResolution)
    → choose_resolution requested request duration raw_points supported ≡ ok r
    → Affordable request duration raw_points r
unfolding choose_resolution
choose-Affordable RequestedResolution.raw request duration raw_points supported r e =
    bounded_raw-Affordable request duration raw_points r e
choose-Affordable RequestedResolution.auto request duration raw_points true r e =
    automatic-Affordable request duration raw_points r e
choose-Affordable RequestedResolution.auto request duration raw_points false r e =
    bounded_raw-Affordable request duration raw_points r e
choose-Affordable RequestedResolution.fifteen_minutes request duration raw_points s r e =
    explicit-Affordable request duration raw_points s _ r e
choose-Affordable RequestedResolution.hourly request duration raw_points s r e =
    explicit-Affordable request duration raw_points s _ r e
choose-Affordable RequestedResolution.daily request duration raw_points s r e =
    explicit-Affordable request duration raw_points s _ r e
choose-Affordable RequestedResolution.monthly request duration raw_points s r e =
    explicit-Affordable request duration raw_points s _ r e
choose-Affordable RequestedResolution.yearly request duration raw_points s r e =
    explicit-Affordable request duration raw_points s _ r e

rollup_source :
    (duration : ℕ) (r : QueryResolution) (s : QuerySource × ℕ)
    → (points_for_resolution duration r >>= λ points. ok (rollup r, points)) ≡ ok s
    → points_for_resolution duration r ≡ ok s.1
rollup_source duration r s e =
    let (points, cost, e1) = >>=-eq-ok (points_for_resolution duration r) _ e in
    cost ∙ ap ok (ap (λ x. x.1) (ok_injective (rollup r, points) s e1))

pub source_of-estimate :
    (request : QueryPlanRequest) (duration raw_points : ℕ) (r : QueryResolution)
    (s : QuerySource × ℕ)
    → source_of request duration raw_points r ≡ ok s
    → estimate duration raw_points r ≡ ok s.1
unfolding source_of estimate
source_of-estimate request duration raw_points QueryResolution.raw s e =
    ap ok (ap (λ x. x.1) (ok_injective (raw (raw_sources request), raw_points) s e))
source_of-estimate request duration raw_points QueryResolution.fifteen_minutes s e =
    rollup_source duration _ s e
source_of-estimate request duration raw_points QueryResolution.hourly s e =
    rollup_source duration _ s e
source_of-estimate request duration raw_points QueryResolution.daily s e =
    rollup_source duration _ s e
source_of-estimate request duration raw_points QueryResolution.monthly s e =
    rollup_source duration _ s e
source_of-estimate request duration raw_points QueryResolution.yearly s e =
    rollup_source duration _ s e

-- The steps that a plan comes from.
pub record Stages (Tz : Type 0) (parse : String → Option Tz) (request : QueryPlanRequest)
    (plan : QueryPlan Tz) : Type 0 where
  pub valid : validate_request request ≡ ok tt
  pub zone : parse request.timezone ≡ some plan.timezone
  pub duration : ℕ
  pub length_of :
      to_u64 (wrap_i64 (request.end_epoch_millis -ℤ request.start_epoch_millis)) ≡ some duration
  pub raw_points : ℕ
  pub raw_estimate :
      points_for_interval duration request.expected_raw_interval_millis ≡ ok raw_points
  pub chosen :
      choose_resolution request.requested_resolution request duration raw_points
        (all_of request.fields supports_rollups)
      ≡ ok plan.actual_resolution
  pub sourced :
      source_of request duration raw_points plan.actual_resolution
      ≡ ok (plan.source, plan.estimated_points)
  pub fields : plan.fields ≡ request.fields

pub plan_query-Stages :
    (Tz : Type 0) (parse : String → Option Tz) (request : QueryPlanRequest) (plan : QueryPlan Tz)
    → plan_query Tz parse request ≡ ok plan
    → Stages Tz parse request plan
unfolding plan_query
plan_query-Stages Tz parse request plan e =
    let (done, valid, e1) = >>=-eq-ok (validate_request request) _ e in
    let (zone, parsed, e2) = ok_or-eq-ok (parse request.timezone) invalid_timezone _ e1 in
    let (duration, length_of, e3) =
      ok_or-eq-ok (to_u64 (wrap_i64 (request.end_epoch_millis -ℤ request.start_epoch_millis)))
        invalid_range _ e2 in
    let (raw_points, raw_estimate, e4) =
      >>=-eq-ok (points_for_interval duration request.expected_raw_interval_millis) _ e3 in
    let (r, chosen, e5) =
      >>=-eq-ok
        (choose_resolution request.requested_resolution request duration raw_points
          (all_of request.fields supports_rollups))
        _ e4 in
    let (source, sourced, e6) = >>=-eq-ok (source_of request duration raw_points r) _ e5 in
    subst (Stages Tz parse request) (ok_injective _ plan e6) (record {
      valid = valid;
      zone = parsed;
      duration = duration;
      length_of = length_of;
      raw_points = raw_points;
      raw_estimate = raw_estimate;
      chosen = chosen;
      sourced = sourced;
      fields = refl;
    })

pub plan_query-estimate :
    (Tz : Type 0) (parse : String → Option Tz) (request : QueryPlanRequest) (plan : QueryPlan Tz)
    (s : Stages Tz parse request plan) (resolution : QueryResolution)
    → estimate_of request resolution ≡ estimate s.duration s.raw_points resolution
unfolding estimate_of
plan_query-estimate Tz parse request plan s resolution = simp (s.length_of, s.raw_estimate)
