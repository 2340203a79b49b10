-- ===== src/Application/Series/Samples.antt =====
-- src/crates/application/src/series_query.rs: the storage answers a query for a year's power by days.
use Prim.Native.String.{String}
use pvlog.Common.{
  ℕ, ◌+◌, ◌≡◌, refl, Bool, true, false, List, [], ◌∷◌, Option, none, some, ℤ, pos, Result, ok,
}
use pvlog.Application.Planner.{
  SeriesField, QueryResolution, QueryPlan, QueryPlanRequest, RequestedResolution, plan_query,
}
use pvlog.Application.Series.{PlannedSeries, SeriesQueryResult, watts, missing}
use pvlog.Application.Series.Query.{SeriesQueryRepository, query}
use pvlog.Application.Series.Conforms.{Answers, query-Answers}

abbrev zone : String → Option (Unit {0})
zone name = some tt

abbrev two_fields : SeriesField → Bool
two_fields SeriesField.generation_power = true
two_fields SeriesField.grid_power = true
two_fields field = false

abbrev aggregated : QueryResolution → Bool
aggregated QueryResolution.raw = false
aggregated r = true

abbrev request : QueryPlanRequest
request = record {
  start_epoch_millis = pos 0;
  end_epoch_millis = pos 31536000000;
  requested_resolution = RequestedResolution.daily;
  fields = two_fields;
  timezone = "Europe/Berlin";
  maximum_points = 500;
  expected_raw_interval_millis = 300000;
  hot_data_start_epoch_millis = pos 31000000000;
  available_rollups = aggregated;
}

abbrev grid_series : PlannedSeries
grid_series = record {
  field = SeriesField.grid_power;
  unit = watts;
  points = [];
  gaps =
      record { start_epoch_millis = pos 0; end_epoch_millis = pos 86400000; kind = missing } ∷ [];
}

abbrev power_series : PlannedSeries
power_series = record {
  field = SeriesField.generation_power;
  unit = watts;
  points =
      record {
        timestamp_epoch_millis = pos 0;
        value = pos 5;
        coverage_basis_points = 9000;
        quality_flags = 0;
        provenance = none;
      }
      ∷ record {
        timestamp_epoch_millis = pos 86400000;
        value = pos 7;
        coverage_basis_points = 10000;
        quality_flags = 0;
        provenance = none;
      }
      ∷ [];
  gaps = [];
}

-- The storage counts the queries, and answers in the other order.
abbrev storage : SeriesQueryRepository (Unit {0}) ℕ
storage = record { execute_plan = λ id p w. (ok (grid_series ∷ power_series ∷ []), w + 1) }

abbrev answer : SeriesQueryResult
answer = record {
  actual_resolution = QueryResolution.daily;
  timezone = "Europe/Berlin";
  series = power_series ∷ grid_series ∷ [];
}

answered : (query (Unit {0}) ℕ zone storage 7 request 0).0 ≡ ok answer
unfolding query plan_query pvlog.Application.Planner.validate_request pvlog.Common.wrap_i64
    pvlog.Common.◌-ℤ◌ pvlog.Application.Planner.points_for_interval
    pvlog.Application.Planner.choose_resolution pvlog.Application.Planner.explicit
    pvlog.Application.Planner.points_for_resolution pvlog.Application.Planner.source_of
    pvlog.Application.Series.Query.execute pvlog.Application.Series.validate_series
    pvlog.Application.Series.check_all pvlog.Application.Series.check_series
    pvlog.Application.Series.unordered_points pvlog.Application.Series.bad_gap
    pvlog.Application.Series.bad_point pvlog.Application.Series.insert_field
    pvlog.Application.Series.count_in pvlog.Application.Series.sort_by_field
    pvlog.Application.Series.insert_by_field
answered = refl

query-Answers_example :
    (planned : QueryPlan (Unit {0})) × (plan_query (Unit {0}) zone request ≡ ok planned)
    × (QueryResolution.daily ≡ planned.actual_resolution)
    × (answer.timezone ≡ request.timezone)
    × Answers request planned.actual_resolution (power_series ∷ grid_series ∷ [])
query-Answers_example = query-Answers (Unit {0}) ℕ zone storage 7 request 0 answer answered
