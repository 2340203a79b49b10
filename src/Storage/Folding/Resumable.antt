-- ===== src/Storage/Folding/Resumable.antt =====
-- `OverlayFoldService::fold` loses no correction, whatever call fails, and can be resumed.
use pvlog.Common.{
  ◌≡◌, refl, sym, ap, subst, inl, inr, Bool, true, false, not, Result, ok, err, map_err, fail_if,
  leb_ℤ, Bool-cases,
}
use pvlog.Common.Stateful.{Stateful, and_then, Outcome, Outcome-and_then, Outcome-map, returning}
use pvlog.Storage.Segment.{Libraries}
use pvlog.Storage.Segment.Encode.{encode_segment_v1}
use pvlog.Storage.Folding.{
  OverlayFoldKey, OverlayFoldPhase, pending, segment_replaced, overlays_deleted, completed,
  OverlayFoldState, OverlayFoldError, generation_conflict, codec, OverlayFoldRepository,
  replace_stage, clear_stage, close_stage, fold_from, fold,
}
use pvlog.Storage.Folding.Laws.{
  Late, in_phase, View, Consistent, At, FoldLaws, at_replaced, at_deleted,
}

module _ (lib : Libraries) (W : Type 0) (repository : OverlayFoldRepository lib W)
    (key : OverlayFoldKey) (view : View W) (laws : FoldLaws lib W repository key view) where
  -- A consistent world with the fold recorded at the phase that is returned, or a consistent one with an
  -- error.
  abbrev Sound : OverlayFoldState → Result OverlayFoldError OverlayFoldPhase × W → Type 0
  Sound state = Outcome (Consistent view) (λ next v. view.recorded v ≡ in_phase state next)

  skip :
      (state : OverlayFoldState) (phase : OverlayFoldPhase) (w : W)
      → At view (in_phase state phase) w
      → Sound state (ok phase, w)
  unfolding Outcome
  skip state phase w a = (a.consistent, a.state_recorded)

  advance_to :
      (state : OverlayFoldState) (before after : OverlayFoldPhase) (w : W)
      → At view (in_phase state before) w
      → (Late after → view.IsFolded w)
      → Sound state (and_then (λ _. returning (ok after)) (repository.advance key after w))
  advance_to state before after w a late =
      Outcome-and_then (Consistent view) (λ done v. view.recorded v ≡ in_phase state after)
        (λ next v. view.recorded v ≡ in_phase state next) _ (repository.advance key after w)
        (laws.advance-At (in_phase state before) w after a late)
        λ done v c r. unfold Outcome in (c, r)

  stay :
      {A : Type 0} (state : OverlayFoldState) (phase : OverlayFoldPhase) (Q : A → W → Type 0)
      (next : A → Stateful W OverlayFoldError OverlayFoldPhase) (r : Result OverlayFoldError A × W)
      → Outcome (At view (in_phase state phase)) Q r
      → ((a : A) (v : W) → At view (in_phase state phase) v → Q a v → Sound state (next a v))
      → Sound state (and_then next r)
  unfolding Outcome
  stay state phase Q next (err e, v) h k = h.consistent
  stay state phase Q next (ok a, v) h k = k a v h.0 h.1

  pure_result :
      {A : Type 0} (r : Result OverlayFoldError A) (state : OverlayFoldState) (Kept : W → Type 0)
      (v : W)
      → At view state v
      → Kept v
      → Outcome (At view state) (λ a u. (r ≡ ok a) × Kept u) (r, v)
  unfolding Outcome
  pure_result (err e) state Kept v a k = a
  pure_result (ok b) state Kept v a k = (a, (refl, k))

  replaced_true :
      (state : OverlayFoldState) (replaced : Bool) (v : W)
      → At view state v
      → (replaced ≡ true → view.IsFolded v)
      → Outcome
          (At view state)
          (λ (_ : Unit {0}) u. view.IsFolded u)
          (fail_if (not replaced) generation_conflict, v)
  unfolding Outcome
  replaced_true state true v a h = (a, h refl)
  replaced_true state false v a h = a

  replace_stage-Sound :
      (state : OverlayFoldState) (phase : OverlayFoldPhase) (w : W)
      → At view (in_phase state phase) w
      → Sound state (replace_stage lib W repository key state phase w)
  unfolding replace_stage
  replace_stage-Sound state pending w a =
      let mark = state.overlay_revision_watermark in
      stay state pending (view.AreMerged mark) _ (repository.merged_points key mark w)
        (laws.merged_points-AreMerged state w mark a)
        λ points v b merged.
          let encoded = map_err codec (encode_segment_v1 lib key.system_id points) in
          stay state pending
            (λ replacement u. (encoded ≡ ok replacement) × view.AreMerged mark points u) _
            (encoded, v)
            (pure_result encoded (in_phase state pending) (view.AreMerged mark points) v b merged)
            λ replacement u c kept.
              stay state pending (λ replaced t. replaced ≡ true → view.IsFolded t) _
                (repository.replace_segment key state.expected_generation replacement u)
                (laws.replace_segment-IsFolded state u points replacement c kept.1 kept.0)
                λ replaced t d folded.
                  stay state pending (λ _ x. view.IsFolded x) _
                    (fail_if (not replaced) generation_conflict, t)
                    (replaced_true (in_phase state pending) replaced t d folded)
                    λ _ x e i. advance_to state pending segment_replaced x e (λ _. i)
  replace_stage-Sound state segment_replaced w a = skip state segment_replaced w a
  replace_stage-Sound state overlays_deleted w a = skip state overlays_deleted w a
  replace_stage-Sound state completed w a = skip state completed w a

  folded_at :
      (state : OverlayFoldState) (phase : OverlayFoldPhase) (w : W)
      → At view (in_phase state phase) w
      → Late phase
      → view.IsFolded w
  folded_at state phase w a l =
      a.consistent.folded (subst (λ (r : OverlayFoldState). Late r.phase) (sym a.state_recorded) l)

  clear_stage-Sound :
      (state : OverlayFoldState) (phase : OverlayFoldPhase) (w : W)
      → At view (in_phase state phase) w
      → Sound state (clear_stage lib W repository key state phase w)
  unfolding clear_stage
  clear_stage-Sound state segment_replaced w a =
      stay state segment_replaced (λ done v. Unit {0}) _
        (repository.delete_overlays_through key state.overlay_revision_watermark w)
        (laws.delete-At state w a (folded_at state segment_replaced w a at_replaced))
        λ _ v b _.
          advance_to state segment_replaced overlays_deleted v b
            (λ _. folded_at state segment_replaced v b at_replaced)
  clear_stage-Sound state pending w a = skip state pending w a
  clear_stage-Sound state overlays_deleted w a = skip state overlays_deleted w a
  clear_stage-Sound state completed w a = skip state completed w a

  close_stage-Sound :
      (state : OverlayFoldState) (phase : OverlayFoldPhase) (w : W)
      → At view (in_phase state phase) w
      → Sound state (close_stage lib W repository key phase w)
  unfolding close_stage
  close_stage-Sound state overlays_deleted w a =
      advance_to state overlays_deleted completed w a
        (λ _. folded_at state overlays_deleted w a at_deleted)
  close_stage-Sound state pending w a = skip state pending w a
  close_stage-Sound state segment_replaced w a = skip state segment_replaced w a
  close_stage-Sound state completed w a = skip state completed w a

  follow :
      (state : OverlayFoldState)
      (stage : OverlayFoldPhase → Stateful W OverlayFoldError OverlayFoldPhase)
      (r : Result OverlayFoldError OverlayFoldPhase × W)
      → ((phase : OverlayFoldPhase) (w : W)
          → At view (in_phase state phase) w
          → Sound state (stage phase w))
      → Sound state r
      → Sound state (and_then stage r)
  follow state stage r s h =
      Outcome-and_then (Consistent view) (λ next v. view.recorded v ≡ in_phase state next)
        (λ next v. view.recorded v ≡ in_phase state next) stage r h
        (λ next v c e. s next v (record { consistent = c; state_recorded = e }))

  fold_from-Sound :
      (state : OverlayFoldState) (w : W)
      → Consistent view w
      → view.recorded w ≡ state
      → Sound state (fold_from lib W repository key state w)
  unfolding fold_from
  fold_from-Sound state w c e =
      follow state _ (replace_stage lib W repository key state state.phase w)
        (λ p1 w1 a1.
          follow state _ (clear_stage lib W repository key state p1 w1) (close_stage-Sound state)
            (clear_stage-Sound state p1 w1 a1))
        (replace_stage-Sound state state.phase w (record { consistent = c; state_recorded = e }))

  -- Over a repository that keeps the laws, from a world in which every correction shows and late
  -- phases stand over segments that hold the prepared snapshot, a fold leaves such a world, whatever call
  -- fails, and the phase that it returns is the recorded one.
  pub fold-Sound :
      (w : W)
      → Consistent view w
      → Outcome
          (Consistent view)
          (λ phase v. (view.recorded v).phase ≡ phase)
          (fold lib W repository key w)
  unfolding fold
  fold-Sound w c = elim (Bool-cases (leb_ℤ key.range_end key.range_start)) [
    | inl refused ↦ rw refused (unfold Outcome in c)
    | inr fine ↦ rw fine (
        Outcome-and_then (Consistent view) (λ state v. view.recorded v ≡ state)
          (λ next v. (view.recorded v).phase ≡ next) (fold_from lib W repository key)
          (repository.prepare key w) (laws.prepare-At w c)
          (λ state v d e.
            Outcome-map (Consistent view) (Consistent view)
              (λ next u. view.recorded u ≡ in_phase state next)
              (λ next u. (view.recorded u).phase ≡ next) _ (fold_from-Sound state v d e) (λ u k. k)
              (λ next u k r. ap (λ (x : OverlayFoldState). x.phase) r)))
  ]
