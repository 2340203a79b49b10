-- ===== src/Application/Planner.antt =====
-- src/crates/application/src/query_planner.rs: the physical plan of a telemetry read.
-- A BTreeSet of an enum is its membership test. The time zone database is a parameter: the type of its
-- zones and the parser of their names. The subtraction of the range's ends is unchecked in the source,
-- so it wraps as in a release build.
pub mod Budget
pub mod Bounds
pub mod Finest
pub mod Sources
mod Samples
use Prim.Native.String.{String}
use pvlog.Common.{
  ℕ, suc, ◌+◌, ◌-◌, ◌*◌, ◌/◌, ◌^◌, Bool, true, false, not, ◌||◌, List, [], ◌∷◌, Option, none, some,
  ◌==◌, ltb, leb, all, if◌then◌else◌, ℤ, ◌-ℤ◌, leb_ℤ, wrap_i64, to_u64, Result, ok, err, ◌>>=◌,
  ◌>>◌, ok_or, fail_if,
}

pub data SeriesField : Type 0 where
  generation_power generation_energy forecast_power forecast_energy : SeriesField
  expected_energy generation_performance forecast_realization : SeriesField
  consumption_power consumption_energy grid_power battery_power : SeriesField
  battery_state_of_charge temperature extended provenance : SeriesField

abbrev pub supports_rollups : SeriesField → Bool
supports_rollups provenance = false
supports_rollups field = true

pub data RequestedResolution : Type 0 where
  auto raw fifteen_minutes hourly daily monthly yearly : RequestedResolution

pub data QueryResolution : Type 0 where
  raw fifteen_minutes hourly daily monthly yearly : QueryResolution

abbrev pub approximate_bucket_millis : QueryResolution → Option ℕ
approximate_bucket_millis raw = none
approximate_bucket_millis fifteen_minutes = some (15 * 60000)
approximate_bucket_millis hourly = some 3600000
approximate_bucket_millis daily = some 86400000
approximate_bucket_millis monthly = some (30 * 86400000)
approximate_bucket_millis yearly = some (365 * 86400000)

pub data RawSources : Type 0 where
  hot archived_segments hot_and_archived_segments : RawSources

pub data QuerySource : Type 0 where
  raw : RawSources → QuerySource
  rollup : QueryResolution → QuerySource

pub record QueryPlan (Tz : Type 0) : Type 0 where
  pub source : QuerySource
  pub actual_resolution : QueryResolution
  pub estimated_points : ℕ
  pub timezone : Tz
  pub fields : SeriesField → Bool

pub record QueryPlanRequest : Type 0 where
  pub start_epoch_millis : ℤ
  pub end_epoch_millis : ℤ
  pub requested_resolution : RequestedResolution
  pub fields : SeriesField → Bool
  pub timezone : String
  pub maximum_points : ℕ
  pub expected_raw_interval_millis : ℕ
  pub hot_data_start_epoch_millis : ℤ
  pub available_rollups : QueryResolution → Bool

pub data QueryPlanError : Type 0 where
  invalid_range invalid_timezone no_fields invalid_point_budget : QueryPlanError
  invalid_raw_interval invalid_available_resolution : QueryPlanError
  resolution_unavailable field_requires_raw point_budget_exceeded : QueryPlanError
  point_estimate_overflow : QueryPlanError

abbrev pub Planned : Type 0 → Type 0
Planned A = Result QueryPlanError A

abbrev pub all_fields : List SeriesField
all_fields =
    generation_power ∷ generation_energy ∷ forecast_power ∷ forecast_energy ∷ expected_energy
    ∷ generation_performance ∷ forecast_realization ∷ consumption_power ∷ consumption_energy
    ∷ grid_power ∷ battery_power ∷ battery_state_of_charge ∷ temperature ∷ extended ∷ provenance
    ∷ []

-- `fields.iter().all(test)` and `fields.is_empty()`.
abbrev pub all_of : (SeriesField → Bool) → (SeriesField → Bool) → Bool
all_of fields test = all (λ f. not (fields f) || test f) all_fields

abbrev pub no_field : (SeriesField → Bool) → Bool
no_field fields = all_of fields (λ _. false)

unfoldable pub validate_request : QueryPlanRequest → Planned (Unit {0})
validate_request request = do
  fail_if (leb_ℤ request.end_epoch_millis request.start_epoch_millis) invalid_range
  fail_if (no_field request.fields) no_fields
  fail_if (request.maximum_points == 0) invalid_point_budget
  fail_if (request.expected_raw_interval_millis == 0) invalid_raw_interval
  fail_if (request.available_rollups QueryResolution.raw) invalid_available_resolution

unfoldable pub points_for_interval : ℕ → ℕ → Planned ℕ
points_for_interval duration interval =
    let value = duration + (interval - 1) in
    if ltb value (2 ^ 64) then ok (value / interval + 1) else err point_estimate_overflow

unfoldable pub points_for_resolution : ℕ → QueryResolution → Planned ℕ
points_for_resolution duration resolution = do
  interval ← ok_or (approximate_bucket_millis resolution) invalid_available_resolution
  points_for_interval duration interval

abbrev pub ensure_budget : ℕ → ℕ → Planned (Unit {0})
ensure_budget points maximum_points =
    fail_if (not (leb points maximum_points)) point_budget_exceeded

unfoldable pub bounded_raw : ℕ → ℕ → Planned QueryResolution
bounded_raw raw_points maximum_points = do
  ensure_budget raw_points maximum_points
  ok QueryResolution.raw

-- The loop over the aggregate resolutions, from the finest to the coarsest.
unfoldable pub select_from : QueryPlanRequest → ℕ → List QueryResolution → Planned QueryResolution
select_from request duration [] = err point_budget_exceeded
select_from request duration (resolution ∷ coarser) =
    let rest = select_from request duration coarser in
    if request.available_rollups resolution
    then (points_for_resolution duration resolution >>= λ points.
        if leb points request.maximum_points then ok resolution else rest)
    else rest

abbrev pub aggregates : List QueryResolution
aggregates =
    QueryResolution.fifteen_minutes ∷ QueryResolution.hourly ∷ QueryResolution.daily
    ∷ QueryResolution.monthly ∷ QueryResolution.yearly ∷ []

unfoldable pub select_automatic_resolution : QueryPlanRequest → ℕ → ℕ → Planned QueryResolution
select_automatic_resolution request duration raw_points =
    if leb raw_points request.maximum_points
    then ok QueryResolution.raw
    else select_from request duration aggregates

abbrev pub explicit_resolution : RequestedResolution → QueryResolution
explicit_resolution auto = QueryResolution.raw
explicit_resolution raw = QueryResolution.raw
explicit_resolution fifteen_minutes = QueryResolution.fifteen_minutes
explicit_resolution hourly = QueryResolution.hourly
explicit_resolution daily = QueryResolution.daily
explicit_resolution monthly = QueryResolution.monthly
explicit_resolution yearly = QueryResolution.yearly

unfoldable pub explicit : QueryPlanRequest → ℕ → Bool → QueryResolution → Planned QueryResolution
explicit request duration rollups_supported resolution = do
  fail_if (not rollups_supported) field_requires_raw
  fail_if (not (request.available_rollups resolution)) resolution_unavailable
  points ← points_for_resolution duration resolution
  ensure_budget points request.maximum_points
  ok resolution

-- The match on the requested resolution.
unfoldable pub choose_resolution :
    RequestedResolution → QueryPlanRequest → ℕ → ℕ → Bool → Planned QueryResolution
choose_resolution raw request duration raw_points supported =
    bounded_raw raw_points request.maximum_points
choose_resolution auto request duration raw_points supported =
    if supported
    then select_automatic_resolution request duration raw_points
    else bounded_raw raw_points request.maximum_points
choose_resolution requested request duration raw_points supported =
    explicit request duration supported (explicit_resolution requested)

unfoldable pub raw_sources : QueryPlanRequest → RawSources
raw_sources request =
    if leb_ℤ request.end_epoch_millis request.hot_data_start_epoch_millis
    then archived_segments
    else if leb_ℤ request.hot_data_start_epoch_millis request.start_epoch_millis
    then hot
    else hot_and_archived_segments

unfoldable pub source_of : QueryPlanRequest → ℕ → ℕ → QueryResolution → Planned (QuerySource × ℕ)
source_of request duration raw_points raw = ok (raw (raw_sources request), raw_points)
source_of request duration raw_points resolution = do
  points ← points_for_resolution duration resolution
  ok (rollup resolution, points)

module _ (Tz : Type 0) (parse : String → Option Tz) where
  unfoldable pub plan_query : QueryPlanRequest → Planned (QueryPlan Tz)
  plan_query request = do
    validate_request request
    timezone ← ok_or (parse request.timezone) invalid_timezone
    duration ←
        ok_or (to_u64 (wrap_i64 (request.end_epoch_millis -ℤ request.start_epoch_millis)))
          invalid_range
    raw_points ← points_for_interval duration request.expected_raw_interval_millis
    resolution ←
        choose_resolution request.requested_resolution request duration raw_points
          (all_of request.fields supports_rollups)
    source ← source_of request duration raw_points resolution
    ok (record {
      source = source.0;
      actual_resolution = resolution;
      estimated_points = source.1;
      timezone = timezone;
      fields = request.fields;
    })
