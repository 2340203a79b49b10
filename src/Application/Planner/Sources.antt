-- ===== src/Application/Planner/Sources.antt =====
-- The stores that a plan reads hold exactly the instants of the range.
use Prim.Native.String.{String}
use pvlog.Common.{
  ◌≡◌, ap, ◌⊎◌, inl, inr, ◌↔◌, Option, ok, Bool-cases, true, ℤ, ◌≤ℤ◌, ◌<ℤ◌, leb_ℤ, ◌-ℤ◌, -ℤ_parts,
  pos, false, Bool, ◌≢◌, ℕ, arith, ok_injective, ◌>>=◌, >>=-eq-ok, sym, refl,
}
use pvlog.Application.Planner.{
  QueryResolution, RawSources, hot, archived_segments, QuerySource, raw, rollup, QueryPlan,
  QueryPlanRequest, raw_sources, points_for_resolution, source_of, plan_query,
}
use pvlog.Application.Planner.Budget.{plan_query-Stages}
use pvlog.Application.Planner.Bounds.{valid-tests}

-- The instant lies in the range and in the part of the time that is kept in the store.
abbrev pub Recent : QueryPlanRequest → ℤ → Type 0
Recent request t =
    (request.start_epoch_millis ≤ℤ t)
    × (t <ℤ request.end_epoch_millis)
    × (request.hot_data_start_epoch_millis ≤ℤ t)

abbrev pub Compacted : QueryPlanRequest → ℤ → Type 0
Compacted request t =
    (request.start_epoch_millis ≤ℤ t)
    × (t <ℤ request.end_epoch_millis)
    × (t <ℤ request.hot_data_start_epoch_millis)

abbrev pub reads_hot : RawSources → Bool
reads_hot archived_segments = false
reads_hot sources = true

abbrev pub reads_segments : RawSources → Bool
reads_segments hot = false
reads_segments sources = true

pub record Covers (request : QueryPlanRequest) (sources : RawSources) : Type 0 where
  pub recent : (reads_hot sources ≡ true) ↔ ((t : ℤ) × Recent request t)
  pub compacted : (reads_segments sources ≡ true) ↔ ((t : ℤ) × Compacted request t)

-- The instant before.
abbrev before : ℤ → ℤ
before t = t -ℤ pos 1

raw_sources-Covers :
    (request : QueryPlanRequest)
    → request.start_epoch_millis <ℤ request.end_epoch_millis
    → Covers request (raw_sources request)
unfolding raw_sources
raw_sources-Covers request rising =
    elim (Bool-cases (leb_ℤ request.end_epoch_millis request.hot_data_start_epoch_millis)) [
      | inl old ↦ rw old (record {
        recent = ((λ r. cc), (λ t. absurd (ground (arith, t.1))));
        compacted = ((λ r. (request.start_epoch_millis, ground arith)), (λ t. refl));
      })
      | inr late ↦
          elim (Bool-cases (leb_ℤ request.hot_data_start_epoch_millis request.start_epoch_millis)) [
            | inl young ↦
                rw (late, young)
                  (record {
                    recent = ((λ r. (request.start_epoch_millis, ground arith)), (λ t. refl));
                    compacted = ((λ r. cc), (λ t. absurd (ground (arith, t.1))));
                  })
            | inr spread ↦
                rw (late, spread)
                  (record {
                    recent = (
                      (λ r. (
                        before request.end_epoch_millis,
                        ground (arith, -ℤ_parts request.end_epoch_millis (pos 1)),
                      )),
                      (λ t. refl),
                    );
                    compacted = ((λ r. (request.start_epoch_millis, ground arith)), (λ t. refl));
                  })
          ]
    ]

abbrev pub Stored : QueryPlanRequest → QueryResolution → QuerySource → Type 0
Stored request r source =
    ((r ≡ QueryResolution.raw)
      × ((sources : RawSources) × (source ≡ raw sources) × Covers request sources))
    ⊎ ((r ≢ QueryResolution.raw) × (source ≡ rollup r))

rollup-Stored :
    (request : QueryPlanRequest) (duration : ℕ) (r : QueryResolution) (source : QuerySource × ℕ)
    → r ≢ QueryResolution.raw
    → (points_for_resolution duration r >>= λ points. ok (rollup r, points)) ≡ ok source
    → Stored request r source.0
rollup-Stored request duration r source h e =
    let (points, cost, e1) = >>=-eq-ok (points_for_resolution duration r) _ e in
    inr (h, sym (ap (λ x. x.0) (ok_injective (rollup r, points) source e1)))

stored :
    (request : QueryPlanRequest) (duration raw_points : ℕ) (r : QueryResolution)
    (source : QuerySource × ℕ)
    → Covers request (raw_sources request)
    → source_of request duration raw_points r ≡ ok source
    → Stored request r source.0
unfolding source_of
stored request duration raw_points QueryResolution.raw source covers e = inl (
  refl,
  (
    raw_sources request,
    sym (ap (λ x. x.0) (ok_injective (raw (raw_sources request), raw_points) source e)),
    covers,
  ),
)
stored request duration raw_points QueryResolution.fifteen_minutes source covers e =
    rollup-Stored request duration _ source (λ p. cc) e
stored request duration raw_points QueryResolution.hourly source covers e =
    rollup-Stored request duration _ source (λ p. cc) e
stored request duration raw_points QueryResolution.daily source covers e =
    rollup-Stored request duration _ source (λ p. cc) e
stored request duration raw_points QueryResolution.monthly source covers e =
    rollup-Stored request duration _ source (λ p. cc) e
stored request duration raw_points QueryResolution.yearly source covers e =
    rollup-Stored request duration _ source (λ p. cc) e

-- If planning succeeds, a plan for observations reads the store for recent data if and only if some instant
-- of the range is that recent, and archived segments if and only if some instant of the range is older;
-- a plan for an aggregate reads the rollups of its own resolution.
pub plan_query-Covers :
    (Tz : Type 0) (parse : String → Option Tz) (request : QueryPlanRequest) (plan : QueryPlan Tz)
    → plan_query Tz parse request ≡ ok plan
    → Stored request plan.actual_resolution plan.source
plan_query-Covers Tz parse request plan e =
    let s = plan_query-Stages Tz parse request plan e in
    let covers = raw_sources-Covers request (valid-tests request s.valid).0 in
    stored request s.duration s.raw_points plan.actual_resolution
      (plan.source, plan.estimated_points) covers s.sourced
