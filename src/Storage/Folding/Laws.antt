-- ===== src/Storage/Folding/Laws.antt =====
-- What is seen of a repository of folds, and what it promises of each call.
use pvlog.Common.{◌≡◌, true, List, ok, map_err, ℕ}
use pvlog.Common.Stateful.{Outcome}
use pvlog.Storage.Segment.{Libraries, SegmentPoint, ArchivedSegmentBytes}
use pvlog.Storage.Segment.Encode.{encode_segment_v1}
use pvlog.Storage.Folding.{
  OverlayFoldKey, OverlayFoldPhase, pending, segment_replaced, overlays_deleted, completed,
  OverlayFoldState, codec, OverlayFoldRepository,
}

-- The phases in which the overlays may be gone.
pub data Late : OverlayFoldPhase → Type 0 where
  at_replaced : Late segment_replaced
  at_deleted : Late overlays_deleted
  at_completed : Late completed

-- The state of a fold in another phase.
abbrev pub in_phase : OverlayFoldState → OverlayFoldPhase → OverlayFoldState
in_phase state phase = record {
  phase = phase;
  expected_generation = state.expected_generation;
  overlay_revision_watermark = state.overlay_revision_watermark;
}

-- What is seen of a repository's world for one key: the recorded fold, whether reads of the range
-- show every correction, whether the segment holds the corrections of the prepared snapshot, and
-- which points the segment and the overlays through a revision come to.
pub record View (W : Type 0) : Type 1 where
  pub recorded : W → OverlayFoldState
  pub IsCorrected : W → Type 0
  pub IsFolded : W → Type 0
  pub AreMerged : ℕ → List SegmentPoint → W → Type 0

-- Every correction shows, and a phase after the first is only recorded over a segment that has them.
pub record Consistent {W : Type 0} (view : View W) (w : W) : Type 0 where
  pub corrected : view.IsCorrected w
  pub folded : Late (view.recorded w).phase → view.IsFolded w

pub record At {W : Type 0} (view : View W) (state : OverlayFoldState) (w : W) : Type 0 where
  pub consistent : Consistent view w
  pub state_recorded : view.recorded w ≡ state

-- What the trait promises: `prepare` gives the recorded fold; the points are the merged ones of the
-- watermark asked for; a replacement that is installed at the prepared generation, from the points of the
-- prepared watermark, holds the snapshot; overlays of the prepared snapshot, and no others, may go once the
-- segment holds it; and `advance` records the phase. Nothing is promised of another watermark or
-- generation.
pub record FoldLaws (lib : Libraries) (W : Type 0) (repository : OverlayFoldRepository lib W)
    (key : OverlayFoldKey) (view : View W) : Type 0 where
  pub prepare-At :
      (w : W)
      → Consistent view w
      → Outcome (Consistent view) (λ state v. view.recorded v ≡ state) (repository.prepare key w)
  pub merged_points-AreMerged :
      (state : OverlayFoldState) (w : W) (watermark : ℕ)
      → At view (in_phase state pending) w
      → Outcome
          (At view (in_phase state pending))
          (view.AreMerged watermark)
          (repository.merged_points key watermark w)
  pub replace_segment-IsFolded :
      (state : OverlayFoldState) (w : W) (points : List SegmentPoint)
      (replacement : ArchivedSegmentBytes lib)
      → At view (in_phase state pending) w
      → view.AreMerged state.overlay_revision_watermark points w
      → map_err codec (encode_segment_v1 lib key.system_id points) ≡ ok replacement
      → Outcome
          (At view (in_phase state pending))
          (λ replaced v. replaced ≡ true → view.IsFolded v)
          (repository.replace_segment key state.expected_generation replacement w)
  pub delete-At :
      (state : OverlayFoldState) (w : W)
      → At view (in_phase state segment_replaced) w
      → view.IsFolded w
      → Outcome
          (At view (in_phase state segment_replaced))
          (λ done v. Unit {0})
          (repository.delete_overlays_through key state.overlay_revision_watermark w)
  pub advance-At :
      (state : OverlayFoldState) (w : W) (after : OverlayFoldPhase)
      → At view state w
      → (Late after → view.IsFolded w)
      → Outcome
          (Consistent view)
          (λ done v. view.recorded v ≡ in_phase state after)
          (repository.advance key after w)
