-- ===== src/Storage/Compaction/Laws.antt =====
-- The repository of compaction.rs: what the trait's operations promise, with what is seen of its world.
use pvlog.Common.{◌≡◌, true, List, some, ℤ, ℕ}
use pvlog.Common.Stateful.{Outcome}
use pvlog.Storage.Segment.{Libraries, ArchivedSegmentBytes}
use pvlog.Storage.Compaction.{
  CompactionKey, CompactionPhase, pending, segment_written, rollups_written, verified,
  hot_rows_deleted, completed, CompactionRepository,
}

-- The phases in which the hot rows may be gone.
pub data Late : CompactionPhase → Type 0 where
  at_verified : Late verified
  at_deleted : Late hot_rows_deleted
  at_completed : Late completed

-- What is seen of a repository's world for one interval: the recorded phase, whether every
-- observation of the interval can be read, and whether segment and rollups stand verified.
pub record View (W : Type 0) : Type 1 where
  pub recorded : W → CompactionPhase
  pub IsReadable : W → Type 0
  pub IsArchived : W → Type 0

-- Nothing is lost, and a phase from `Verified` on is only recorded over verified archives.
pub record Consistent {W : Type 0} (view : View W) (w : W) : Type 0 where
  pub readable : view.IsReadable w
  pub archived : Late (view.recorded w) → view.IsArchived w

-- A consistent world at a phase.
pub record At {W : Type 0} (view : View W) (phase : CompactionPhase) (w : W) : Type 0 where
  pub consistent : Consistent view w
  pub phase_recorded : view.recorded w ≡ phase

-- What the trait's operations promise. Writing keeps what is readable, whether it fails or not; the
-- check tells the truth; hot rows that the archives hold may go; `advance` records the phase, and
-- one that fails has recorded it or has not.
pub record CompactionLaws (lib : Libraries) (W : Type 0) (repository : CompactionRepository lib W)
    (key : CompactionKey) (view : View W) : Type 0 where
  pub acquire_lease-At :
      (w : W) (owner : List ℕ) (until : ℤ)
      → Consistent view w
      → Outcome
          (Consistent view)
          (λ leased v. (phase : CompactionPhase) → leased ≡ some phase → view.recorded v ≡ phase)
          (repository.acquire_lease key owner until w)
  pub stable_points-At :
      (w : W) (phase : CompactionPhase)
      → At view phase w
      → Outcome (At view phase) (λ points v. Unit {0}) (repository.stable_points key w)
  pub write_segment-At :
      (w : W) (archived : ArchivedSegmentBytes lib)
      → At view pending w
      → Outcome (At view pending) (λ done v. Unit {0}) (repository.write_segment key archived w)
  pub write_rollups-At :
      (w : W)
      → At view segment_written w
      → Outcome (At view segment_written) (λ done v. Unit {0}) (repository.write_rollups key w)
  pub verify-IsArchived :
      (w : W)
      → At view rollups_written w
      → Outcome
          (At view rollups_written)
          (λ sound v. sound ≡ true → view.IsArchived v)
          (repository.verify_segment_and_rollups key w)
  pub delete-At :
      (w : W)
      → At view verified w
      → view.IsArchived w
      → Outcome (At view verified) (λ done v. Unit {0}) (repository.delete_redundant_hot_rows key w)
  pub advance-At :
      (w : W) (before after : CompactionPhase)
      → At view before w
      → (Late after → view.IsArchived w)
      → Outcome
          (Consistent view)
          (λ done v. view.recorded v ≡ after)
          (repository.advance key after w)
  pub release_lease-Consistent :
      (w : W) (owner : List ℕ)
      → Consistent view w
      → Consistent view (repository.release_lease key owner w).1
