-- ===== src/Storage/Folding.antt =====
-- src/crates/storage/src/overlay_folding.rs: corrections folded into a replacement of their segment.
-- As in the compaction, the repository is the record of the trait's operations on a world, and each
-- stage takes and returns the mutable `phase` of the source.
pub mod Laws
pub mod Resumable
mod Samples
use Prim.Native.String.{String}
use pvlog.Common.{
  ℕ, Bool, true, false, not, List, Result, ok, err, map_err, fail_if, ℤ, leb_ℤ, if◌then◌else◌,
}
use pvlog.Common.Stateful.{Stateful, and_then, ◌>>=◌, ◌>>◌, returning}
use pvlog.Storage.Segment.{Libraries, SegmentPoint, SegmentCodecError, ArchivedSegmentBytes}
use pvlog.Storage.Segment.Encode.{encode_segment_v1}

pub record OverlayFoldKey : Type 0 where
  pub system_id : ℕ
  pub range_start : ℤ
  pub range_end : ℤ

pub data OverlayFoldPhase : Type 0 where
  pending segment_replaced overlays_deleted completed : OverlayFoldPhase

pub record OverlayFoldState : Type 0 where
  pub phase : OverlayFoldPhase
  pub expected_generation : ℕ
  pub overlay_revision_watermark : ℕ

pub data OverlayFoldError : Type 0 where
  invalid_range generation_conflict : OverlayFoldError
  codec : SegmentCodecError → OverlayFoldError
  persistence : String → OverlayFoldError

pub record OverlayFoldRepository (lib : Libraries) (W : Type 0) : Type 0 where
  pub prepare : OverlayFoldKey → Stateful W OverlayFoldError OverlayFoldState
  pub merged_points : OverlayFoldKey → ℕ → Stateful W OverlayFoldError (List SegmentPoint)
  pub replace_segment :
      OverlayFoldKey → ℕ → ArchivedSegmentBytes lib → Stateful W OverlayFoldError Bool
  pub delete_overlays_through : OverlayFoldKey → ℕ → Stateful W OverlayFoldError (Unit {0})
  pub advance : OverlayFoldKey → OverlayFoldPhase → Stateful W OverlayFoldError (Unit {0})

module _ (lib : Libraries) (W : Type 0) (repository : OverlayFoldRepository lib W)
    (key : OverlayFoldKey) where
  unfoldable pub replace_stage :
      OverlayFoldState → OverlayFoldPhase → Stateful W OverlayFoldError OverlayFoldPhase
  replace_stage state pending = do
    points ← repository.merged_points key state.overlay_revision_watermark
    replacement ← returning (map_err codec (encode_segment_v1 lib key.system_id points))
    replaced ← repository.replace_segment key state.expected_generation replacement
    returning (fail_if (not replaced) generation_conflict)
    repository.advance key segment_replaced
    returning (ok segment_replaced)
  replace_stage state phase = returning (ok phase)

  unfoldable pub clear_stage :
      OverlayFoldState → OverlayFoldPhase → Stateful W OverlayFoldError OverlayFoldPhase
  clear_stage state segment_replaced = do
    repository.delete_overlays_through key state.overlay_revision_watermark
    repository.advance key overlays_deleted
    returning (ok overlays_deleted)
  clear_stage state phase = returning (ok phase)

  unfoldable pub close_stage : OverlayFoldPhase → Stateful W OverlayFoldError OverlayFoldPhase
  close_stage overlays_deleted = do repository.advance key completed; returning (ok completed)
  close_stage phase = returning (ok phase)

  -- The three stages, from the phase that was prepared.
  unfoldable pub fold_from : OverlayFoldState → Stateful W OverlayFoldError OverlayFoldPhase
  fold_from state = do
    phase1 ← replace_stage state state.phase
    phase2 ← clear_stage state phase1
    close_stage phase2

  unfoldable pub fold : Stateful W OverlayFoldError OverlayFoldPhase
  fold =
      if leb_ℤ key.range_end key.range_start
      then returning (err invalid_range)
      else repository.prepare key >>= fold_from
