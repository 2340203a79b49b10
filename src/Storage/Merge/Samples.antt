-- ===== src/Storage/Merge/Samples.antt =====
-- The theorems on the merge at a row that was archived, read again, corrected and deleted.
use pvlog.Common.{◌≡◌, refl, inl, inr, ◌↔◌, true, false, List, [], ◌∷◌, none, some, All, ok, pos}
use pvlog.Storage.Merge.{
  RawObservation, segment, hot, overlay, merge_raw_observations, select_all, select, unsupported,
  origin_eq, supersedes, live_values, sort_by_key, insert_by_key, precedes,
}
use pvlog.Storage.Merge.Best.{Best, Mem}
use pvlog.Storage.Merge.Order.{Candidate, merge-Best, IsStrictlyOrdered, merge-IsStrictlyOrdered}
use pvlog.Storage.Merge.Errors.{Fits, merge-succeeds}
use pvlog.Common.{insert}

abbrev archived_row : RawObservation
archived_row = record {
  observation_id = 5;
  timestamp_epoch_millis = pos 1000;
  generation_power_watts = some (pos 300);
  extended = [];
  source_kind = "api";
  source_reference = "a";
  received_at_epoch_millis = pos 1001;
  quality_flags = 0;
  revision = 9;
  deleted = false;
  origin = segment;
  segment_version = some 1;
}

abbrev hot_row : RawObservation
hot_row = record archived_row { revision = 1; origin = hot; segment_version = none }

abbrev later_row : RawObservation
later_row = record hot_row { observation_id = 4; timestamp_epoch_millis = pos 2000 }

abbrev tombstone : RawObservation
tombstone = record later_row { deleted = true; origin = overlay }

abbrev other_row : RawObservation
other_row = record archived_row { observation_id = 6; timestamp_epoch_millis = pos 400 }

merged_rows :
    merge_raw_observations
      (archived_row ∷ other_row ∷ [])
      (hot_row ∷ later_row ∷ [])
      (tombstone ∷ [])
    ≡ ok (other_row ∷ hot_row ∷ [])
unfolding merge_raw_observations select_all select unsupported origin_eq supersedes live_values
    sort_by_key insert_by_key precedes insert
merged_rows = refl

abbrev Candidates : RawObservation → Type 0
Candidates = Candidate (archived_row ∷ other_row ∷ []) (hot_row ∷ later_row ∷ []) (tombstone ∷ [])

merge-Best_example :
    (o : RawObservation) × (o.observation_id ≡ 5)
    × Best Candidates o
    × ((m : RawObservation)
        → (Mem m (other_row ∷ hot_row ∷ []) × (m.observation_id ≡ 5))
          ↔ ((m ≡ o) × (m.deleted ≡ false)))
merge-Best_example =
    merge-Best (archived_row ∷ other_row ∷ []) (hot_row ∷ later_row ∷ []) (tombstone ∷ [])
      (other_row ∷ hot_row ∷ []) archived_row merged_rows (inl (inl (inr (inl refl))))

merge-IsStrictlyOrdered_example : IsStrictlyOrdered (other_row ∷ hot_row ∷ [])
merge-IsStrictlyOrdered_example =
    merge-IsStrictlyOrdered (archived_row ∷ other_row ∷ []) (hot_row ∷ later_row ∷ [])
      (tombstone ∷ []) (other_row ∷ hot_row ∷ []) merged_rows

merge-succeeds_example :
    ((merged : List RawObservation) × (merge_raw_observations
          (archived_row ∷ [])
          (hot_row ∷ [])
          (tombstone ∷ [])
        ≡ ok merged))
    ↔ (All (Fits segment) (archived_row ∷ [])
        × All (Fits hot) (hot_row ∷ [])
        × All (Fits overlay) (tombstone ∷ []))
merge-succeeds_example = merge-succeeds (archived_row ∷ []) (hot_row ∷ []) (tombstone ∷ [])
