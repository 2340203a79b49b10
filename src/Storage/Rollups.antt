-- ===== src/Storage/Rollups.antt =====
-- src/crates/storage/src/rollup_builder.rs: telemetry rolled up over windows of the local calendar.
-- The index into the samples is the list of the samples that are left. The subtraction of a window's
-- ends is unchecked in the source, so it wraps as in a release build.
pub mod Buckets
pub mod Values
pub mod Aggregate
pub mod Conservation
mod Samples
use Prim.Native.String.{String}
use pvlog.Common.{
  ℕ, suc, ◌+◌, ◌*◌, ◌/◌, ◌^◌, min, Bool, true, false, not, ◌||◌, List, [], ◌∷◌, Option, none, some,
  ◌==◌, ltb, length, if◌then◌else◌, ℤ, pos, negsuc, ◌+ℤ◌, ◌-ℤ◌, ltb_ℤ, leb_ℤ, wrap_i64, to_u64,
  Result, ok, err, ◌>>=◌, ◌>>◌, ok_or, fail_if,
}

pub data RollupGranularity : Type 0 where
  fifteen_minutes hourly daily monthly yearly : RollupGranularity

abbrev pub granularity_index : RollupGranularity → ℕ
granularity_index fifteen_minutes = 0
granularity_index hourly = 1
granularity_index daily = 2
granularity_index monthly = 3
granularity_index yearly = 4

pub record RollupWindow : Type 0 where
  pub granularity : RollupGranularity
  pub start_epoch_millis : ℤ
  pub end_epoch_millis : ℤ
  pub local_label : String

pub record RollupSample : Type 0 where
  pub timestamp_epoch_millis : ℤ
  pub value : ℤ
  pub covered_millis : ℕ

pub record TelemetryRollup : Type 0 where
  pub window : RollupWindow
  pub sum : ℤ
  pub minimum : ℤ
  pub maximum : ℤ
  pub count : ℕ
  pub first : ℤ
  pub last : ℤ
  pub covered_millis : ℕ
  pub coverage_basis_points : ℕ

pub data RollupBuildError : Type 0 where
  invalid_window sample_ordering sample_outside_windows overflow : RollupBuildError

abbrev pub Rolled : Type 0 → Type 0
Rolled A = Result RollupBuildError A

-- The window before, if there is one, ends after this one's start.
abbrev pub overlaps : Option RollupWindow → RollupWindow → Bool
overlaps none w = false
overlaps (some before) w = ltb_ℤ w.start_epoch_millis before.end_epoch_millis

unfoldable pub invalid : RollupGranularity → Option RollupWindow → RollupWindow → Bool
invalid granularity before w =
    not (granularity_index w.granularity == granularity_index granularity)
    || leb_ℤ w.end_epoch_millis w.start_epoch_millis
    || overlaps before w

unfoldable pub validate_windows :
    RollupGranularity → Option RollupWindow → List RollupWindow → Rolled (Unit {0})
validate_windows granularity before [] = ok tt
validate_windows granularity before (w ∷ windows) = do
  fail_if (invalid granularity before w) invalid_window
  validate_windows granularity (some w) windows

-- Some pair of neighbours does not rise.
unfoldable pub unordered : List RollupSample → Bool
unordered [] = false
unordered (s ∷ []) = false
unordered (s ∷ t ∷ samples) =
    leb_ℤ t.timestamp_epoch_millis s.timestamp_epoch_millis || unordered (t ∷ samples)

-- The `while` loop: the bucket of a window, and the samples that are left.
unfoldable pub take_bucket :
    RollupWindow → List RollupSample → Rolled (List RollupSample × List RollupSample)
take_bucket w [] = ok ([], [])
take_bucket w (s ∷ samples) =
    let rest = take_bucket w samples in
    if ltb_ℤ s.timestamp_epoch_millis w.end_epoch_millis
    then (if ltb_ℤ s.timestamp_epoch_millis w.start_epoch_millis
        then err sample_outside_windows
        else (rest >>= λ split. ok (s ∷ split.0, split.1)))
    else ok ([], s ∷ samples)

unfoldable pub total_covered : ℕ → List RollupSample → Rolled ℕ
total_covered total [] = ok total
total_covered total (s ∷ samples) =
    let sum = total + s.covered_millis in
    let rest = total_covered sum samples in if ltb sum (2 ^ 64) then rest else err overflow

unfoldable pub sum_values : List RollupSample → ℤ
sum_values [] = pos 0
sum_values (s ∷ samples) = s.value +ℤ sum_values samples

-- `min` and `max` of a bucket that begins with the first argument.
unfoldable pub min_value : ℤ → List RollupSample → ℤ
min_value least [] = least
min_value least (s ∷ samples) = min_value (if ltb_ℤ s.value least then s.value else least) samples

unfoldable pub max_value : ℤ → List RollupSample → ℤ
max_value most [] = most
max_value most (s ∷ samples) = max_value (if ltb_ℤ s.value most then most else s.value) samples

unfoldable pub last_value : ℤ → List RollupSample → ℤ
last_value last [] = last
last_value last (s ∷ samples) = last_value s.value samples

-- `checked_mul(10_000)` and the division by the window's length.
unfoldable pub coverage : ℕ → ℕ → Rolled ℕ
coverage covered duration = do
  fail_if (not (ltb (covered * 10000) (2 ^ 64))) overflow
  fail_if (not (ltb (covered * 10000 / duration) (2 ^ 16))) overflow
  ok (covered * 10000 / duration)

-- The rollup of a window with its bucket, and none of an empty one.
unfoldable pub rollup_of : RollupWindow → List RollupSample → Rolled (Option TelemetryRollup)
rollup_of w [] = ok none
rollup_of w (s ∷ samples) = do
  duration ← ok_or (to_u64 (wrap_i64 (w.end_epoch_millis -ℤ w.start_epoch_millis))) overflow
  total ← total_covered 0 (s ∷ samples)
  basis_points ← coverage (min total duration) duration
  ok (
      some (record {
        window = w;
        sum = sum_values (s ∷ samples);
        minimum = min_value s.value samples;
        maximum = max_value s.value samples;
        count = length (s ∷ samples);
        first = s.value;
        last = last_value s.value samples;
        covered_millis = min total duration;
        coverage_basis_points = basis_points;
      }))

abbrev pub push : Option TelemetryRollup → List TelemetryRollup → List TelemetryRollup
push none rollups = rollups
push (some r) rollups = r ∷ rollups

-- The loop over the windows, with the samples that are left at the end.
unfoldable pub roll_windows :
    List RollupWindow → List RollupSample → Rolled (List TelemetryRollup × List RollupSample)
roll_windows [] samples = ok ([], samples)
roll_windows (w ∷ windows) samples = do
  split ← take_bucket w samples
  rollup ← rollup_of w split.0
  rest ← roll_windows windows split.1
  ok (push rollup rest.0, rest.1)

abbrev pub is_empty : List RollupSample → Bool
is_empty [] = true
is_empty (s ∷ samples) = false

unfoldable pub build_rollups :
    RollupGranularity → List RollupSample → List RollupWindow → Rolled (List TelemetryRollup)
build_rollups granularity samples windows = do
  validate_windows granularity none windows
  fail_if (unordered samples) sample_ordering
  rolled ← roll_windows windows samples
  fail_if (not (is_empty rolled.1)) sample_outside_windows
  ok rolled.0
