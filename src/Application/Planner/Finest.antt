-- ===== src/Application/Planner/Finest.antt =====
-- Automatic planning takes the finest resolution that the request admits.
use Prim.Native.String.{String}
use pvlog.Common.{
  ℕ, ◌<◌, ◌≡◌, refl, sym, subst, ◌⊎◌, inl, inr, Bool, true, false, not, List, [], ◌∷◌, Option, leb,
  Bool-cases, All, ok, >>=-eq-ok, fail_if-eq-ok, ok_injective, err_ne_ok, arith,
}
use pvlog.Application.Planner.{
  supports_rollups, RequestedResolution, QueryResolution, QueryPlan, QueryPlanRequest, Planned,
  field_requires_raw, resolution_unavailable, point_budget_exceeded, all_of, points_for_resolution,
  select_from, aggregates, select_automatic_resolution, explicit, bounded_raw, choose_resolution,
  plan_query,
}
use pvlog.Application.Planner.Budget.{
  estimate, estimate_of, plan_query-Stages, plan_query-estimate, points-estimate,
}

-- From the finest to the coarsest.
abbrev pub rank : QueryResolution → ℕ
rank QueryResolution.raw = 0
rank QueryResolution.fifteen_minutes = 1
rank QueryResolution.hourly = 2
rank QueryResolution.daily = 3
rank QueryResolution.monthly = 4
rank QueryResolution.yearly = 5

-- The resolution is estimated at more points than the budget has.
pub record OverBudget (request : QueryPlanRequest) (estimated : Planned ℕ) : Type 0 where
  pub points : ℕ
  pub cost : estimated ≡ ok points
  pub over : request.maximum_points < points

abbrev Ascending : List QueryResolution → Type 0
Ascending [] = Unit {0}
Ascending (q ∷ rs) = All (λ r. rank q < rank r) rs × Ascending rs

abbrev Passed : QueryPlanRequest → ℕ → QueryResolution → QueryResolution → Type 0
Passed request duration r q =
    rank q < rank r
    → request.available_rollups q ≡ true
    → OverBudget request (points_for_resolution duration q)

coarser-Passed :
    (request : QueryPlanRequest) (duration : ℕ) (r : QueryResolution) (rs : List QueryResolution)
    → All (λ q. rank r < rank q) rs
    → All (Passed request duration r) rs
coarser-Passed request duration r [] h = tt
coarser-Passed request duration r (q ∷ rs) h =
    ((λ k available. absurd (omega (arith, h.0, k))), coarser-Passed request duration r rs h.1)

select_from-Passed :
    (request : QueryPlanRequest) (duration : ℕ) (rs : List QueryResolution) (r : QueryResolution)
    → Ascending rs
    → select_from request duration rs ≡ ok r
    → All (Passed request duration r) rs × (request.available_rollups r ≡ true)
unfolding select_from
select_from-Passed request duration [] r h e = absurd (err_ne_ok e)
select_from-Passed request duration (q ∷ rs) r h e =
    elim (Bool-cases (request.available_rollups q)) [
      | inr missing ↦
          let (passed, there) = select_from-Passed request duration rs r h.1 (simp missing at e) in
          (((λ k available. cc), passed), there)
      | inl available ↦
          let (points, cost, e1) =
            >>=-eq-ok (points_for_resolution duration q) _ (simp available at e) in
          elim (Bool-cases (leb points request.maximum_points)) [
            | inl fits ↦
                subst
                  (λ x.
                    All (Passed request duration x) (q ∷ rs) × (request.available_rollups x ≡ true))
                  (ok_injective q r (rw fits at e1))
                  (
                    (
                      (λ k there. absurd (omega (arith, k))),
                      coarser-Passed request duration q rs h.0,
                    ),
                    available,
                  )
            | inr over ↦
                let (passed, there) =
                  select_from-Passed request duration rs r h.1 (rw over at e1) in
                (
                  ((λ k _. record { points = points; cost = cost; over = ground arith }), passed),
                  there,
                )
          ]
    ]

-- A resolution that the request admits: the observations themselves, or an aggregate that is there.
abbrev pub Admits : QueryPlanRequest → QueryResolution → Type 0
Admits request r = (r ≡ QueryResolution.raw) ⊎ (request.available_rollups r ≡ true)

abbrev pub FinerOver : QueryPlanRequest → ℕ → ℕ → QueryResolution → Type 0
FinerOver request duration raw_points r =
    (q : QueryResolution)
    → rank q < rank r
    → Admits request q
    → OverBudget request (estimate duration raw_points q)

aggregate-over :
    (request : QueryPlanRequest) (duration raw_points : ℕ) (q : QueryResolution)
    → OverBudget request (points_for_resolution duration q)
    → OverBudget request (estimate duration raw_points q)
aggregate-over request duration raw_points q o = record {
  points = o.points;
  cost = points-estimate duration raw_points o.points q o.cost;
  over = o.over;
}

select_from-FinerOver :
    (request : QueryPlanRequest) (duration raw_points : ℕ) (r : QueryResolution)
    → request.maximum_points < raw_points
    → All (Passed request duration r) aggregates
    → FinerOver request duration raw_points r
select_from-FinerOver request duration raw_points r h passed QueryResolution.raw k admitted =
    record { points = raw_points; cost = unfold estimate in refl; over = h }
select_from-FinerOver request duration raw_points r h passed QueryResolution.fifteen_minutes k
      (inr there) =
    aggregate-over request duration raw_points _ (passed.0 k there)
select_from-FinerOver request duration raw_points r h passed QueryResolution.hourly k (inr there) =
    aggregate-over request duration raw_points _ (passed.1.0 k there)
select_from-FinerOver request duration raw_points r h passed QueryResolution.daily k (inr there) =
    aggregate-over request duration raw_points _ (passed.1.1.0 k there)
select_from-FinerOver request duration raw_points r h passed QueryResolution.monthly k (inr there) =
    aggregate-over request duration raw_points _ (passed.1.1.1.0 k there)
select_from-FinerOver request duration raw_points r h passed QueryResolution.yearly k (inr there) =
    aggregate-over request duration raw_points _ (passed.1.1.1.1.0 k there)
select_from-FinerOver request duration raw_points r h passed q k (inl same) =
    subst (λ x. OverBudget request (estimate duration raw_points x)) (sym same)
      (record { points = raw_points; cost = unfold estimate in refl; over = h })

automatic-FinerOver :
    (request : QueryPlanRequest) (duration raw_points : ℕ) (r : QueryResolution)
    → select_automatic_resolution request duration raw_points ≡ ok r
    → FinerOver request duration raw_points r × Admits request r
unfolding select_automatic_resolution
automatic-FinerOver request duration raw_points r e =
    elim (Bool-cases (leb raw_points request.maximum_points)) [
      | inl fits ↦
          subst (λ x. FinerOver request duration raw_points x × Admits request x)
            (ok_injective QueryResolution.raw r (rw fits at e))
            ((λ q k _. absurd (omega (arith, k))), inl refl)
      | inr over ↦
          let (passed, there) =
            select_from-Passed request duration aggregates r (omega arith) (rw over at e) in
          (select_from-FinerOver request duration raw_points r (ground arith) passed, inr there)
    ]

bounded_raw-raw :
    (raw_points maximum : ℕ) (r : QueryResolution)
    → bounded_raw raw_points maximum ≡ ok r
    → r ≡ QueryResolution.raw
unfolding bounded_raw
bounded_raw-raw raw_points maximum r e =
    let (_, e1) = fail_if-eq-ok (not (leb raw_points maximum)) point_budget_exceeded _ e in
    sym (ok_injective QueryResolution.raw r e1)

explicit-Admits :
    (request : QueryPlanRequest) (duration : ℕ) (supported : Bool) (q r : QueryResolution)
    → explicit request duration supported q ≡ ok r
    → (r ≡ q) × (request.available_rollups r ≡ true) × (supported ≡ true)
unfolding explicit
explicit-Admits request duration supported q r e =
    let (fine, e1) = fail_if-eq-ok (not supported) field_requires_raw _ e in
    let (there, e2) =
      fail_if-eq-ok (not (request.available_rollups q)) resolution_unavailable _ e1 in
    let (points, cost, e3) = >>=-eq-ok (points_for_resolution duration q) _ e2 in
    let (fits, e4) =
      fail_if-eq-ok (not (leb points request.maximum_points)) point_budget_exceeded _ e3 in
    subst (λ x. (x ≡ q) × (request.available_rollups x ≡ true) × (supported ≡ true))
      (ok_injective q r e4) (refl, ground arith, ground arith)

-- A resolution that was asked for is available, and rollups hold the fields.
abbrev pub Explicitly : QueryResolution → QueryPlanRequest → Bool → QueryResolution → Type 0
Explicitly asked request supported r =
    (r ≡ asked) × (request.available_rollups r ≡ true) × (supported ≡ true)

-- What a choice of a resolution owes to the request for it.
abbrev pub Resolves :
    RequestedResolution
    → QueryPlanRequest
    → (QueryResolution → Planned ℕ)
    → Bool
    → QueryResolution
    → Type 0
Resolves RequestedResolution.auto request cost false r = r ≡ QueryResolution.raw
Resolves RequestedResolution.auto request cost true r =
    Admits request r
    × ((q : QueryResolution) → rank q < rank r → Admits request q → OverBudget request (cost q))
Resolves RequestedResolution.raw request cost supported r = r ≡ QueryResolution.raw
Resolves RequestedResolution.fifteen_minutes request cost supported r =
    Explicitly QueryResolution.fifteen_minutes request supported r
Resolves RequestedResolution.hourly request cost supported r =
    Explicitly QueryResolution.hourly request supported r
Resolves RequestedResolution.daily request cost supported r =
    Explicitly QueryResolution.daily request supported r
Resolves RequestedResolution.monthly request cost supported r =
    Explicitly QueryResolution.monthly request supported r
Resolves RequestedResolution.yearly request cost supported r =
    Explicitly QueryResolution.yearly request supported r

choose-Resolves :
    (requested : RequestedResolution) (request : QueryPlanRequest) (duration raw_points : ℕ)
    (supported : Bool) (r : QueryResolution)
    → choose_resolution requested request duration raw_points supported ≡ ok r
    → Resolves requested request (estimate duration raw_points) supported r
unfolding choose_resolution
choose-Resolves RequestedResolution.auto request duration raw_points true r e =
    let (finer, admitted) = automatic-FinerOver request duration raw_points r e in (admitted, finer)
choose-Resolves RequestedResolution.auto request duration raw_points false r e =
    bounded_raw-raw raw_points _ r e
choose-Resolves RequestedResolution.raw request duration raw_points supported r e =
    bounded_raw-raw raw_points _ r e
choose-Resolves RequestedResolution.fifteen_minutes request duration raw_points s r e =
    explicit-Admits request duration s _ r e
choose-Resolves RequestedResolution.hourly request duration raw_points s r e =
    explicit-Admits request duration s _ r e
choose-Resolves RequestedResolution.daily request duration raw_points s r e =
    explicit-Admits request duration s _ r e
choose-Resolves RequestedResolution.monthly request duration raw_points s r e =
    explicit-Admits request duration s _ r e
choose-Resolves RequestedResolution.yearly request duration raw_points s r e =
    explicit-Admits request duration s _ r e

-- If planning succeeds, an explicit resolution is the plan's and is available, with fields that rollups
-- hold; a request for the observations, or an automatic one with a field that no rollup holds, gets them;
-- any other automatic request gets an admitted resolution such that all finer ones that it admits are
-- estimated over the budget.
pub plan_query-Resolves :
    (Tz : Type 0) (parse : String → Option Tz) (request : QueryPlanRequest) (plan : QueryPlan Tz)
    → plan_query Tz parse request ≡ ok plan
    → Resolves request.requested_resolution request
        (estimate_of request)
        (all_of request.fields supports_rollups)
        plan.actual_resolution
plan_query-Resolves Tz parse request plan e =
    let s = plan_query-Stages Tz parse request plan e in
    from_stages s.duration s.raw_points request.requested_resolution
      (all_of request.fields supports_rollups)
      (λ q. sym (plan_query-estimate Tz parse request plan s q))
      (choose-Resolves request.requested_resolution request s.duration s.raw_points _ _ s.chosen)
  where
    from_stages :
        (duration raw_points : ℕ) (requested : RequestedResolution) (supported : Bool)
        → ((q : QueryResolution) → estimate duration raw_points q ≡ estimate_of request q)
        → Resolves requested request (estimate duration raw_points) supported plan.actual_resolution
        → Resolves requested request (estimate_of request) supported plan.actual_resolution
    from_stages duration raw_points requested supported same h =
        subst (λ cost. Resolves requested request cost supported plan.actual_resolution)
          (λ i q. same q i) h
