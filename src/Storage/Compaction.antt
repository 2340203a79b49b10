-- ===== src/Storage/Compaction.antt =====
-- src/crates/storage/src/compaction.rs: leased, resumable compaction of one interval. The repository
-- is the record of the trait's operations on a world of its own; the mutable `phase` of the source is
-- what each stage takes and returns.
pub mod Laws
pub mod Phases
pub mod Resumable
mod Samples
use Prim.Native.String.{String}
use pvlog.Common.{
  ℕ, Bool, true, false, ◌||◌, List, Option, none, some, Result, ok, err, map_err, fail_if, not, ℤ,
  leb_ℤ, checked_add, if◌then◌else◌,
}
use pvlog.Common.Stateful.{Stateful, and_then, ◌>>=◌, ◌>>◌, returning}
use pvlog.Common.Text.{trims_to_empty}
use pvlog.Storage.Segment.{Libraries, SegmentPoint, SegmentCodecError, ArchivedSegmentBytes}
use pvlog.Storage.Segment.Encode.{encode_segment_v1}

pub record CompactionKey : Type 0 where
  pub system_id : ℕ
  pub range_start : ℤ
  pub range_end : ℤ

pub data CompactionPhase : Type 0 where
  pending segment_written rollups_written verified hot_rows_deleted completed : CompactionPhase

pub data CompactionError : Type 0 where
  invalid_request lease_unavailable verification : CompactionError
  codec : SegmentCodecError → CompactionError
  persistence : String → CompactionError

pub record CompactionRepository (lib : Libraries) (W : Type 0) : Type 0 where
  pub acquire_lease :
      CompactionKey → List ℕ → ℤ → Stateful W CompactionError (Option CompactionPhase)
  pub stable_points : CompactionKey → Stateful W CompactionError (List SegmentPoint)
  pub write_segment :
      CompactionKey → ArchivedSegmentBytes lib → Stateful W CompactionError (Unit {0})
  pub write_rollups : CompactionKey → Stateful W CompactionError (Unit {0})
  pub verify_segment_and_rollups : CompactionKey → Stateful W CompactionError Bool
  pub delete_redundant_hot_rows : CompactionKey → Stateful W CompactionError (Unit {0})
  pub advance : CompactionKey → CompactionPhase → Stateful W CompactionError (Unit {0})
  pub release_lease : CompactionKey → List ℕ → Stateful W CompactionError (Unit {0})

module _ (lib : Libraries) (W : Type 0) (repository : CompactionRepository lib W)
    (key : CompactionKey) where
  -- Each `if phase == ...` of the source: the next phase is recorded after the phase's work.
  unfoldable pub write_stage : CompactionPhase → Stateful W CompactionError CompactionPhase
  write_stage pending = do
    points ← repository.stable_points key
    archived ← returning (map_err codec (encode_segment_v1 lib key.system_id points))
    repository.write_segment key archived
    repository.advance key segment_written
    returning (ok segment_written)
  write_stage phase = returning (ok phase)

  unfoldable pub rollup_stage : CompactionPhase → Stateful W CompactionError CompactionPhase
  rollup_stage segment_written = do
    repository.write_rollups key
    repository.advance key rollups_written
    returning (ok rollups_written)
  rollup_stage phase = returning (ok phase)

  unfoldable pub verify_stage : CompactionPhase → Stateful W CompactionError CompactionPhase
  verify_stage rollups_written = do
    sound ← repository.verify_segment_and_rollups key
    returning (fail_if (not sound) verification)
    repository.advance key verified
    returning (ok verified)
  verify_stage phase = returning (ok phase)

  unfoldable pub delete_stage : CompactionPhase → Stateful W CompactionError CompactionPhase
  delete_stage verified = do
    repository.delete_redundant_hot_rows key
    repository.advance key hot_rows_deleted
    returning (ok hot_rows_deleted)
  delete_stage phase = returning (ok phase)

  unfoldable pub complete_stage : CompactionPhase → Stateful W CompactionError CompactionPhase
  complete_stage hot_rows_deleted = do repository.advance key completed; returning (ok completed)
  complete_stage phase = returning (ok phase)

  -- The async block.
  unfoldable pub run_phases : CompactionPhase → Stateful W CompactionError CompactionPhase
  run_phases phase = do
    phase1 ← write_stage phase
    phase2 ← rollup_stage phase1
    phase3 ← verify_stage phase2
    phase4 ← delete_stage phase3
    complete_stage phase4

  -- `result.and(release.map(|()| phase))`.
  abbrev pub and_release :
      Result CompactionError CompactionPhase
      → Result CompactionError (Unit {0})
      → Result CompactionError CompactionPhase
  and_release (err e) released = err e
  and_release (ok phase) (err e) = err e
  and_release (ok phase) (ok _) = ok phase

  -- The lease is released whatever the phases came to.
  unfoldable pub release_after :
      List ℕ
      → Result CompactionError CompactionPhase × W
      → Result CompactionError CompactionPhase × W
  release_after owner (result, w) =
      let (released, after) = repository.release_lease key owner w in
      (and_release result released, after)

  unfoldable pub run_leased :
      List ℕ → Option CompactionPhase → Stateful W CompactionError CompactionPhase
  run_leased owner none w = (err lease_unavailable, w)
  run_leased owner (some phase) w = release_after owner (run_phases phase w)

  unfoldable pub with_lease : List ℕ → Option ℤ → Stateful W CompactionError CompactionPhase
  with_lease owner none = returning (err invalid_request)
  with_lease owner (some lease_expires_at) = do
    leased ← repository.acquire_lease key owner lease_expires_at
    run_leased owner leased

  -- An owner's name is the list of its code points.
  unfoldable pub compact : ℤ → List ℕ → ℤ → Stateful W CompactionError CompactionPhase
  compact lease_millis owner now =
      if leb_ℤ key.range_end key.range_start || trims_to_empty owner
      then returning (err invalid_request)
      else with_lease owner (checked_add now lease_millis)
