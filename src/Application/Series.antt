-- ===== src/Application/Series.antt =====
-- src/crates/application/src/series_query.rs: the check of what the storage answers to a query.
-- A BTreeSet of fields is its membership test. An
-- unstable sort by keys that are distinct has one result, so that the sort is an insertion sort.
pub mod Fields
pub mod Query
pub mod Proper
pub mod Order
pub mod Conforms
mod Samples
use Prim.Native.String.{String}
use pvlog.Common.{
  ℕ, zero, suc, ◌+◌, ◌-◌, ◌^◌, min, Bool, true, false, not, ◌&&◌, ◌||◌, List, [], ◌∷◌, Option, none,
  some, ◌==◌, ltb, length, any, if◌then◌else◌, ℤ, ltb_ℤ, leb_ℤ, Result, ok, err, ◌>>=◌, ◌>>◌,
  fail_if,
}
use pvlog.Application.Planner.{SeriesField, QueryResolution, QueryPlanError, all_fields}

pub data SeriesUnit : Type 0 where
  watts watt_hours basis_points milli_degrees_celsius integer : SeriesUnit

pub data GapKind : Type 0 where
  missing suspect incomplete_coverage : GapKind

pub record SeriesGap : Type 0 where
  pub start_epoch_millis : ℤ
  pub end_epoch_millis : ℤ
  pub kind : GapKind

pub record SeriesPoint : Type 0 where
  pub timestamp_epoch_millis : ℤ
  pub value : ℤ
  pub coverage_basis_points : ℕ
  pub quality_flags : ℕ
  pub provenance : Option String

pub record PlannedSeries : Type 0 where
  pub field : SeriesField
  pub unit : SeriesUnit
  pub points : List SeriesPoint
  pub gaps : List SeriesGap

pub record SeriesQueryResult : Type 0 where
  pub actual_resolution : QueryResolution
  pub timezone : String
  pub series : List PlannedSeries

pub data SeriesQueryRepositoryError : Type 0 where
  unavailable : SeriesQueryRepositoryError

pub data SeriesQueryError : Type 0 where
  plan : QueryPlanError → SeriesQueryError
  repository : SeriesQueryRepositoryError → SeriesQueryError
  unexpected_series missing_series unit_mismatch result_bound_exceeded : SeriesQueryError
  invalid_point aggregate_has_raw_provenance invalid_gap : SeriesQueryError

abbrev pub Queried : Type 0 → Type 0
Queried A = Result SeriesQueryError A

-- The order in which the fields are declared.
abbrev pub field_index : SeriesField → ℕ
field_index SeriesField.generation_power = 0
field_index SeriesField.generation_energy = 1
field_index SeriesField.forecast_power = 2
field_index SeriesField.forecast_energy = 3
field_index SeriesField.expected_energy = 4
field_index SeriesField.generation_performance = 5
field_index SeriesField.forecast_realization = 6
field_index SeriesField.consumption_power = 7
field_index SeriesField.consumption_energy = 8
field_index SeriesField.grid_power = 9
field_index SeriesField.battery_power = 10
field_index SeriesField.battery_state_of_charge = 11
field_index SeriesField.temperature = 12
field_index SeriesField.extended = 13
field_index SeriesField.provenance = 14

abbrev pub unit_index : SeriesUnit → ℕ
unit_index watts = 0
unit_index watt_hours = 1
unit_index basis_points = 2
unit_index milli_degrees_celsius = 3
unit_index integer = 4

abbrev pub unit_for : SeriesField → SeriesUnit
unit_for SeriesField.generation_power = watts
unit_for SeriesField.forecast_power = watts
unit_for SeriesField.consumption_power = watts
unit_for SeriesField.grid_power = watts
unit_for SeriesField.battery_power = watts
unit_for SeriesField.generation_energy = watt_hours
unit_for SeriesField.forecast_energy = watt_hours
unit_for SeriesField.expected_energy = watt_hours
unit_for SeriesField.consumption_energy = watt_hours
unit_for SeriesField.battery_state_of_charge = basis_points
unit_for SeriesField.generation_performance = basis_points
unit_for SeriesField.forecast_realization = basis_points
unit_for SeriesField.temperature = milli_degrees_celsius
unit_for SeriesField.extended = integer
unit_for SeriesField.provenance = integer

-- `insert` and `len` of a set of fields.
unfoldable pub insert_field : (SeriesField → Bool) → SeriesField → SeriesField → Bool
insert_field seen field f = (field_index f == field_index field) || seen f

unfoldable pub count_in : (SeriesField → Bool) → List SeriesField → ℕ
count_in seen [] = 0
count_in seen (f ∷ fields) = let rest = count_in seen fields in if seen f then suc rest else rest

abbrev pub is_some : Option String → Bool
is_some none = false
is_some (some s) = true

abbrev pub is_raw : QueryResolution → Bool
is_raw QueryResolution.raw = true
is_raw resolution = false

-- Some pair of neighbours does not rise.
unfoldable pub unordered_points : List SeriesPoint → Bool
unordered_points [] = false
unordered_points (p ∷ []) = false
unordered_points (p ∷ q ∷ points) =
    leb_ℤ q.timestamp_epoch_millis p.timestamp_epoch_millis || unordered_points (q ∷ points)

-- `usize::try_from(maximum_points)` and `saturating_add(2)` where a usize has 64 bits.
abbrev pub result_bound : ℕ → ℕ
result_bound maximum_points = min (maximum_points + 2) (2 ^ 64 - 1)

module _ (start end : ℤ) where
  unfoldable pub bad_point : SeriesPoint → Bool
  bad_point point =
      ltb_ℤ point.timestamp_epoch_millis start
      || leb_ℤ end point.timestamp_epoch_millis
      || ltb 10000 point.coverage_basis_points

  unfoldable pub bad_gap : SeriesGap → Bool
  bad_gap gap =
      ltb_ℤ gap.start_epoch_millis start
      || ltb_ℤ end gap.end_epoch_millis
      || leb_ℤ gap.end_epoch_millis gap.start_epoch_millis

module _ (fields : SeriesField → Bool) (resolution : QueryResolution) (start end : ℤ)
    (maximum_points : ℕ) where
  -- The body of the loop over the series.
  unfoldable pub check_series : (SeriesField → Bool) → PlannedSeries → Queried (Unit {0})
  check_series seen item = do
    fail_if (not (fields item.field) || seen item.field) unexpected_series
    fail_if (not (unit_index item.unit == unit_index (unit_for item.field))) unit_mismatch
    fail_if (ltb (result_bound maximum_points) (length item.points)) result_bound_exceeded
    fail_if (any (bad_point start end) item.points || unordered_points item.points) invalid_point
    fail_if (not (is_raw resolution) && any (λ p. is_some p.provenance) item.points)
        aggregate_has_raw_provenance
    fail_if (any (bad_gap start end) item.gaps) invalid_gap

  unfoldable pub check_all :
      (SeriesField → Bool) → List PlannedSeries → Queried (SeriesField → Bool)
  check_all seen [] = ok seen
  check_all seen (item ∷ series) = do
    check_series seen item
    check_all (insert_field seen item.field) series

unfoldable pub insert_by_field : PlannedSeries → List PlannedSeries → List PlannedSeries
insert_by_field item [] = item ∷ []
insert_by_field item (other ∷ series) =
    let rest = insert_by_field item series in
    if ltb (field_index other.field) (field_index item.field)
    then other ∷ rest
    else item ∷ other ∷ series

unfoldable pub sort_by_field : List PlannedSeries → List PlannedSeries
sort_by_field [] = []
sort_by_field (item ∷ series) = insert_by_field item (sort_by_field series)

-- The checks, and the series in the order of the fields.
unfoldable pub validate_series :
    List PlannedSeries
    → (SeriesField → Bool)
    → QueryResolution
    → ℤ
    → ℤ
    → ℕ
    → Queried (List PlannedSeries)
validate_series series fields resolution start end maximum_points = do
  seen ← check_all fields resolution start end maximum_points (λ _. false) series
  fail_if (not (count_in seen all_fields == count_in fields all_fields)) missing_series
  ok (sort_by_field series)
