-- ===== src/Storage/Rollups/Samples.antt =====
-- src/crates/storage/src/rollup_builder.rs: three samples rolled up over two hours.
use pvlog.Common.{ℕ, ◌≡◌, refl, List, [], ◌∷◌, All, length, pos, ok}
use pvlog.Storage.Rollups.{
  hourly, RollupWindow, RollupSample, TelemetryRollup, sum_values, validate_windows, invalid,
  unordered, take_bucket, total_covered, min_value, max_value, last_value, coverage, rollup_of,
  roll_windows, build_rollups,
}
use pvlog.Storage.Rollups.Buckets.{within, roll_each, build_rollups-roll_each}
use pvlog.Storage.Rollups.Aggregate.{Aggregates, build_rollups-Aggregates}
use pvlog.Storage.Rollups.Conservation.{counted, summed, build_rollups-conserves}

abbrev hours : List RollupWindow
hours =
    record {
      granularity = hourly;
      start_epoch_millis = pos 0;
      end_epoch_millis = pos 3600000;
      local_label = "00";
    }
    ∷ record {
      granularity = hourly;
      start_epoch_millis = pos 3600000;
      end_epoch_millis = pos 7200000;
      local_label = "01";
    }
    ∷ []

abbrev three : List RollupSample
three =
    record { timestamp_epoch_millis = pos 100; value = pos 40; covered_millis = 1800000 }
    ∷ record { timestamp_epoch_millis = pos 1900000; value = pos 20; covered_millis = 900000 }
    ∷ record { timestamp_epoch_millis = pos 3600000; value = pos 70; covered_millis = 4000000 }
    ∷ []

abbrev first_hour : TelemetryRollup
first_hour = record {
  window = record {
    granularity = hourly;
    start_epoch_millis = pos 0;
    end_epoch_millis = pos 3600000;
    local_label = "00";
  };
  sum = pos 60;
  minimum = pos 20;
  maximum = pos 40;
  count = 2;
  first = pos 40;
  last = pos 20;
  covered_millis = 2700000;
  coverage_basis_points = 7500;
}

abbrev second_hour : TelemetryRollup
second_hour = record {
  window = record {
    granularity = hourly;
    start_epoch_millis = pos 3600000;
    end_epoch_millis = pos 7200000;
    local_label = "01";
  };
  sum = pos 70;
  minimum = pos 70;
  maximum = pos 70;
  count = 1;
  first = pos 70;
  last = pos 70;
  covered_millis = 3600000;
  coverage_basis_points = 10000;
}

three-rolled : build_rollups hourly three hours ≡ ok (first_hour ∷ second_hour ∷ [])
unfolding build_rollups validate_windows invalid unordered roll_windows take_bucket rollup_of
    pvlog.Common.wrap_i64 pvlog.Common.◌-ℤ◌ total_covered coverage sum_values min_value max_value
    last_value pvlog.Common.◌+ℤ◌
three-rolled = refl

build_rollups-roll_each_example : roll_each hours three ≡ ok (first_hour ∷ second_hour ∷ [])
build_rollups-roll_each_example =
    build_rollups-roll_each hourly three hours (first_hour ∷ second_hour ∷ []) three-rolled

build_rollups-Aggregates_example :
    All (λ r. Aggregates r.window (within r.window three) r) (first_hour ∷ second_hour ∷ [])
build_rollups-Aggregates_example =
    build_rollups-Aggregates hourly three hours (first_hour ∷ second_hour ∷ []) three-rolled

build_rollups-conserves_example :
    (counted (first_hour ∷ second_hour ∷ []) ≡ length three)
    × (summed (first_hour ∷ second_hour ∷ []) ≡ sum_values three)
build_rollups-conserves_example =
    build_rollups-conserves hourly three hours (first_hour ∷ second_hour ∷ []) three-rolled
