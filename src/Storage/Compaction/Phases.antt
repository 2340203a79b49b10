-- ===== src/Storage/Compaction/Phases.antt =====
-- `CompactionService::compact`: a result is the last phase, and the lease is given back.
use pvlog.Common.{
  ◌≡◌, refl, ap, inl, inr, not, ◌||◌, List, Option, none, some, Result, ok, err, map_err,
  Bool-cases, ℕ, ◌≤◌, fail_if, ℤ, checked_add, leb_ℤ, arith,
}
use pvlog.Common.Text.{trims_to_empty}
use pvlog.Common.Stateful.{Stateful, and_then, Outcome, Outcome-and_then}
use pvlog.Storage.Segment.{Libraries}
use pvlog.Storage.Segment.Encode.{encode_segment_v1}
use pvlog.Storage.Compaction.{
  CompactionKey, CompactionPhase, pending, segment_written, rollups_written, verified,
  hot_rows_deleted, completed, CompactionError, codec, verification, lease_unavailable,
  invalid_request, CompactionRepository, write_stage, rollup_stage, verify_stage, delete_stage,
  complete_stage, run_phases, release_after, run_leased, with_lease, compact, and_release,
}

-- The position in the declaration.
abbrev phase_index : CompactionPhase → ℕ
phase_index pending = 0
phase_index segment_written = 1
phase_index rollups_written = 2
phase_index verified = 3
phase_index hot_rows_deleted = 4
phase_index completed = 5

last_phase : (p : CompactionPhase) → 5 ≤ phase_index p → p ≡ completed
last_phase pending h = absurd (omega arith)
last_phase segment_written h = absurd (omega arith)
last_phase rollups_written h = absurd (omega arith)
last_phase verified h = absurd (omega arith)
last_phase hot_rows_deleted h = absurd (omega arith)
last_phase completed h = refl

module _ (lib : Libraries) (W : Type 0) (repository : CompactionRepository lib W)
    (key : CompactionKey) where
  -- A result of at least the given position.
  abbrev Reaches : ℕ → Result CompactionError CompactionPhase × W → Type 0
  Reaches n = Outcome (λ w. Unit {0}) (λ phase w. n ≤ phase_index phase)

  anything :
      {A : Type 0} (r : Result CompactionError A × W) → Outcome (λ w. Unit {0}) (λ a w. Unit {0}) r
  unfolding Outcome
  anything (ok a, w) = (tt, tt)
  anything (err e, w) = tt

  after_any :
      {A : Type 0} (n : ℕ) (next : A → Stateful W CompactionError CompactionPhase)
      (r : Result CompactionError A × W)
      → ((a : A) (w : W) → Reaches n (next a w))
      → Reaches n (and_then next r)
  after_any n next r h =
      Outcome-and_then (λ w. Unit {0}) (λ a w. Unit {0}) (λ phase w. n ≤ phase_index phase) next r
        (anything r) (λ a w _ _. h a w)

  reached : (n : ℕ) (p : CompactionPhase) (w : W) → n ≤ phase_index p → Reaches n (ok p, w)
  unfolding Outcome
  reached n p w h = (tt, h)

  then_stage :
      (m n : ℕ) (stage : CompactionPhase → Stateful W CompactionError CompactionPhase)
      (r : Result CompactionError CompactionPhase × W)
      → ((p : CompactionPhase) (w : W) → m ≤ phase_index p → Reaches n (stage p w))
      → Reaches m r
      → Reaches n (and_then stage r)
  then_stage m n stage r h b =
      Outcome-and_then (λ w. Unit {0}) (λ p w. m ≤ phase_index p) (λ phase w. n ≤ phase_index phase)
        stage r b (λ p w _ i. h p w i)

  write_stage-Reaches :
      (p : CompactionPhase) (w : W) → Reaches 1 (write_stage lib W repository key p w)
  unfolding write_stage
  write_stage-Reaches pending w = after_any 1 _ (repository.stable_points key w) λ points v.
      after_any 1 _ (map_err codec (encode_segment_v1 lib key.system_id points), v)
        λ archived u. after_any 1 _ (repository.write_segment key archived u) λ _ t.
          after_any 1 _ (repository.advance key segment_written t)
            λ _ x. reached 1 segment_written x (omega arith)
  write_stage-Reaches segment_written w = reached 1 segment_written w (omega arith)
  write_stage-Reaches rollups_written w = reached 1 rollups_written w (omega arith)
  write_stage-Reaches verified w = reached 1 verified w (omega arith)
  write_stage-Reaches hot_rows_deleted w = reached 1 hot_rows_deleted w (omega arith)
  write_stage-Reaches completed w = reached 1 completed w (omega arith)

  rollup_stage-Reaches :
      (p : CompactionPhase) (w : W)
      → 1 ≤ phase_index p
      → Reaches 2 (rollup_stage lib W repository key p w)
  unfolding rollup_stage
  rollup_stage-Reaches segment_written w h = after_any 2 _ (repository.write_rollups key w) λ _ v.
      after_any 2 _ (repository.advance key rollups_written v)
        λ _ x. reached 2 rollups_written x (omega arith)
  rollup_stage-Reaches pending w h = reached 2 pending w (omega arith)
  rollup_stage-Reaches rollups_written w h = reached 2 rollups_written w (omega arith)
  rollup_stage-Reaches verified w h = reached 2 verified w (omega arith)
  rollup_stage-Reaches hot_rows_deleted w h = reached 2 hot_rows_deleted w (omega arith)
  rollup_stage-Reaches completed w h = reached 2 completed w (omega arith)

  verify_stage-Reaches :
      (p : CompactionPhase) (w : W)
      → 2 ≤ phase_index p
      → Reaches 3 (verify_stage lib W repository key p w)
  unfolding verify_stage
  verify_stage-Reaches rollups_written w h =
      after_any 3 _ (repository.verify_segment_and_rollups key w) λ sound v.
        after_any 3 _ (fail_if (not sound) verification, v)
          λ _ u.
            after_any 3 _ (repository.advance key verified u)
              λ _ x. reached 3 verified x (omega arith)
  verify_stage-Reaches pending w h = reached 3 pending w (omega arith)
  verify_stage-Reaches segment_written w h = reached 3 segment_written w (omega arith)
  verify_stage-Reaches verified w h = reached 3 verified w (omega arith)
  verify_stage-Reaches hot_rows_deleted w h = reached 3 hot_rows_deleted w (omega arith)
  verify_stage-Reaches completed w h = reached 3 completed w (omega arith)

  delete_stage-Reaches :
      (p : CompactionPhase) (w : W)
      → 3 ≤ phase_index p
      → Reaches 4 (delete_stage lib W repository key p w)
  unfolding delete_stage
  delete_stage-Reaches verified w h =
      after_any 4 _ (repository.delete_redundant_hot_rows key w) λ _ v.
        after_any 4 _ (repository.advance key hot_rows_deleted v)
          λ _ x. reached 4 hot_rows_deleted x (omega arith)
  delete_stage-Reaches pending w h = reached 4 pending w (omega arith)
  delete_stage-Reaches segment_written w h = reached 4 segment_written w (omega arith)
  delete_stage-Reaches rollups_written w h = reached 4 rollups_written w (omega arith)
  delete_stage-Reaches hot_rows_deleted w h = reached 4 hot_rows_deleted w (omega arith)
  delete_stage-Reaches completed w h = reached 4 completed w (omega arith)

  complete_stage-Reaches :
      (p : CompactionPhase) (w : W)
      → 4 ≤ phase_index p
      → Reaches 5 (complete_stage lib W repository key p w)
  unfolding complete_stage
  complete_stage-Reaches hot_rows_deleted w h =
      after_any 5 _ (repository.advance key completed w) λ _ x. reached 5 completed x (omega arith)
  complete_stage-Reaches pending w h = reached 5 pending w (omega arith)
  complete_stage-Reaches segment_written w h = reached 5 segment_written w (omega arith)
  complete_stage-Reaches rollups_written w h = reached 5 rollups_written w (omega arith)
  complete_stage-Reaches verified w h = reached 5 verified w (omega arith)
  complete_stage-Reaches completed w h = reached 5 completed w (omega arith)

  run_phases-Reaches :
      (p : CompactionPhase) (w : W) → Reaches 5 (run_phases lib W repository key p w)
  unfolding run_phases
  run_phases-Reaches p w =
      then_stage 1 5 _ (write_stage lib W repository key p w)
        (λ p1 w1 h1.
          then_stage 2 5 _ (rollup_stage lib W repository key p1 w1)
            (λ p2 w2 h2.
              then_stage 3 5 _ (verify_stage lib W repository key p2 w2)
                (λ p3 w3 h3.
                  then_stage 4 5 _ (delete_stage lib W repository key p3 w3) complete_stage-Reaches
                    (delete_stage-Reaches p3 w3 h3))
                (verify_stage-Reaches p2 w2 h2))
            (rollup_stage-Reaches p1 w1 h1))
        (write_stage-Reaches p w)

  -- The release of the lease is the last call, and has succeeded.
  abbrev pub Released : List ℕ → W → Type 0
  Released owner after = (w : W) × (repository.release_lease key owner w ≡ (ok tt, after))

  Released-last :
      (owner : List ℕ) (phase p : CompactionPhase) (w after : W)
      (released : Result CompactionError (Unit {0}) × W)
      → 5 ≤ phase_index phase
      → repository.release_lease key owner w ≡ released
      → and_release lib W repository key (ok phase) released.0 ≡ ok p
      → released.1 ≡ after
      → (p ≡ completed) × Released owner after
  Released-last owner phase p w after (err e, v) h c t u = absurd (cc)
  Released-last owner phase p w after (ok _, v) h c t u =
      let same : phase ≡ p = ground (arith, t) in (last_phase p (rw (← same) h), (w, cc))

  not_both :
      (r : Result CompactionError CompactionPhase × W) (e : CompactionError) (p : CompactionPhase)
      (after : W)
      → r.0 ≡ err e
      → r ≡ (ok p, after)
      → ⊥
  not_both r e p after h q = let done : r.0 ≡ ok p = ap (λ x. x.0) q in cc

  release_after-completed :
      (owner : List ℕ) (r : Result CompactionError CompactionPhase × W) (p : CompactionPhase)
      (after : W)
      → Reaches 5 r
      → release_after lib W repository key owner r ≡ (ok p, after)
      → (p ≡ completed) × Released owner after
  unfolding release_after Outcome
  release_after-completed owner (err e, w) p after h q =
      absurd (not_both (err e, (repository.release_lease key owner w).1) e p after refl q)
  release_after-completed owner (ok phase, w) p after h q =
      Released-last owner phase p w after (repository.release_lease key owner w) h.1 refl
        (ap (λ x. x.0) q) (ap (λ x. x.1) q)

  run_leased-completed :
      (owner : List ℕ) (leased : Option CompactionPhase) (w : W) (p : CompactionPhase) (after : W)
      → run_leased lib W repository key owner leased w ≡ (ok p, after)
      → (p ≡ completed) × Released owner after
  unfolding run_leased
  run_leased-completed owner none w p after q =
      absurd (not_both (err lease_unavailable, w) lease_unavailable p after refl q)
  run_leased-completed owner (some phase) w p after q =
      release_after-completed owner (run_phases lib W repository key phase w) p after
        (run_phases-Reaches phase w) q

  acquired-completed :
      (owner : List ℕ) (r : Result CompactionError (Option CompactionPhase) × W)
      (p : CompactionPhase) (after : W)
      → and_then (run_leased lib W repository key owner) r ≡ (ok p, after)
      → (p ≡ completed) × Released owner after
  acquired-completed owner (err e, w) p after q = absurd (not_both (err e, w) e p after refl q)
  acquired-completed owner (ok leased, w) p after q = run_leased-completed owner leased w p after q

  with_lease-completed :
      (owner : List ℕ) (until : Option ℤ) (w : W) (p : CompactionPhase) (after : W)
      → with_lease lib W repository key owner until w ≡ (ok p, after)
      → (p ≡ completed) × Released owner after
  unfolding with_lease
  with_lease-completed owner none w p after q =
      absurd (not_both (err invalid_request, w) invalid_request p after refl q)
  with_lease-completed owner (some t) w p after q =
      acquired-completed owner (repository.acquire_lease key owner t w) p after q

  -- The only phase that a compaction returns is the last, and then its last call was a release of the
  -- lease that succeeded.
  pub compact-completed :
      (lease_millis : ℤ) (owner : List ℕ) (now : ℤ) (w : W) (p : CompactionPhase) (after : W)
      → compact lib W repository key lease_millis owner now w ≡ (ok p, after)
      → (p ≡ completed) × Released owner after
  unfolding compact
  compact-completed lease_millis owner now w p after q =
      elim (Bool-cases (leb_ℤ key.range_end key.range_start || trims_to_empty owner)) [
        | inl refused ↦
            absurd
              (not_both (err invalid_request, w) invalid_request p after refl (rw refused at q))
        | inr fine ↦
            with_lease-completed owner (checked_add now lease_millis) w p after (rw fine at q)
      ]
