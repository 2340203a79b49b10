-- ===== src/Application/Series/Query.antt =====
-- src/crates/application/src/series_query.rs: a query is planned, run and checked.
-- The repository is the trait's operation on a world.
use Prim.Native.String.{String}
use pvlog.Common.{ℕ, List, Option, ok, map_err}
use pvlog.Common.Stateful.{Stateful, ◌>>=◌, returning}
use pvlog.Application.Planner.{QueryPlan, QueryPlanRequest, plan_query}
use pvlog.Application.Series.{
  PlannedSeries, SeriesQueryResult, SeriesQueryRepositoryError, SeriesQueryError, plan, repository,
  validate_series,
}

pub record SeriesQueryRepository (Tz W : Type 0) : Type 0 where
  pub execute_plan : ℕ → QueryPlan Tz → Stateful W SeriesQueryRepositoryError (List PlannedSeries)

-- The error of the storage, as one of the service.
unfoldable pub execute :
    {Tz W : Type 0}
    → SeriesQueryRepository Tz W
    → ℕ
    → QueryPlan Tz
    → Stateful W SeriesQueryError (List PlannedSeries)
execute storage system_id planned w =
    let answer = storage.execute_plan system_id planned w in (map_err repository answer.0, answer.1)

module _ (Tz W : Type 0) (parse : String → Option Tz) (storage : SeriesQueryRepository Tz W) where
  unfoldable pub query : ℕ → QueryPlanRequest → Stateful W SeriesQueryError SeriesQueryResult
  query system_id request = do
    planned ← returning (map_err plan (plan_query Tz parse request))
    series ← execute storage system_id planned
    checked ← returning (
        validate_series series planned.fields planned.actual_resolution request.start_epoch_millis
          request.end_epoch_millis request.maximum_points)
    returning (
        ok (record {
          actual_resolution = planned.actual_resolution;
          timezone = request.timezone;
          series = checked;
        }))
