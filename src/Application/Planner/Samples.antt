-- ===== src/Application/Planner/Samples.antt =====
-- src/crates/application/src/query_planner.rs: a year read with a budget of five hundred points.
use Prim.Native.String.{String}
use pvlog.Common.{
  ℕ, ◌≤◌, ◌≡◌, refl, Bool, true, false, Option, some, ℤ, pos, ◌+ℤ◌, InI64, Result, ok, arith,
}
use pvlog.Application.Planner.{
  SeriesField, generation_power, supports_rollups, RequestedResolution, auto, QueryResolution,
  QuerySource, rollup, QueryPlan, QueryPlanRequest, all_of, plan_query,
}
use pvlog.Application.Planner.Budget.{estimate_of}
use pvlog.Application.Planner.Bounds.{nominal_millis, OneMoreThanCover, plan_query-within_budget}
use pvlog.Application.Planner.Finest.{Resolves, plan_query-Resolves}
use pvlog.Application.Planner.Sources.{Stored, plan_query-Covers}

abbrev zone : String → Option (Unit {0})
zone name = some tt

abbrev power_only : SeriesField → Bool
power_only generation_power = true
power_only field = false

abbrev aggregated : QueryResolution → Bool
aggregated QueryResolution.raw = false
aggregated r = true

abbrev year : QueryPlanRequest
year = record {
  start_epoch_millis = pos 0;
  end_epoch_millis = pos 31536000000;
  requested_resolution = RequestedResolution.auto;
  fields = power_only;
  timezone = "Europe/Berlin";
  maximum_points = 500;
  expected_raw_interval_millis = 300000;
  hot_data_start_epoch_millis = pos 31000000000;
  available_rollups = aggregated;
}

abbrev by_day : QueryPlan (Unit {0})
by_day = record {
  source = rollup QueryResolution.daily;
  actual_resolution = QueryResolution.daily;
  estimated_points = 366;
  timezone = tt;
  fields = power_only;
}

year-planned : plan_query (Unit {0}) zone year ≡ ok by_day
unfolding plan_query pvlog.Application.Planner.validate_request pvlog.Common.wrap_i64
    pvlog.Common.◌-ℤ◌ pvlog.Application.Planner.points_for_interval
    pvlog.Application.Planner.choose_resolution
    pvlog.Application.Planner.select_automatic_resolution pvlog.Application.Planner.select_from
    pvlog.Application.Planner.points_for_resolution pvlog.Application.Planner.source_of
year-planned = refl

plan_query-within_budget_example :
    (366 ≤ 500)
    × (power_only ≡ power_only)
    × (zone "Europe/Berlin" ≡ some tt)
    × ((duration : ℕ) × (pos 31536000000 ≡ pos 0 +ℤ pos duration)
        × OneMoreThanCover (nominal_millis year QueryResolution.daily) duration 366)
plan_query-within_budget_example =
    plan_query-within_budget (Unit {0}) zone year by_day (ground arith) (ground arith) year-planned

plan_query-Resolves_example :
    Resolves RequestedResolution.auto year
      (estimate_of year)
      (all_of power_only supports_rollups)
      QueryResolution.daily
plan_query-Resolves_example = plan_query-Resolves (Unit {0}) zone year by_day year-planned

plan_query-Covers_example : Stored year QueryResolution.daily (rollup QueryResolution.daily)
plan_query-Covers_example = plan_query-Covers (Unit {0}) zone year by_day year-planned
