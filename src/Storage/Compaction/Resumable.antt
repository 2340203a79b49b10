-- ===== src/Storage/Compaction/Resumable.antt =====
-- `CompactionService::compact` loses nothing, whatever call fails, and can be resumed from where it
-- was.
use pvlog.Common.{
  ◌≡◌, refl, sym, subst, Bool-cases, inl, inr, Bool, true, false, not, ◌||◌, List, Option, none,
  some, Result, ok, err, map_err, fail_if, ℤ, ℕ, checked_add, leb_ℤ,
}
use pvlog.Common.Text.{trims_to_empty}
use pvlog.Common.Stateful.{Stateful, and_then, Outcome, Outcome-and_then, returning}
use pvlog.Storage.Segment.{Libraries}
use pvlog.Storage.Segment.Encode.{encode_segment_v1}
use pvlog.Storage.Compaction.{
  CompactionKey, CompactionPhase, pending, segment_written, rollups_written, verified,
  hot_rows_deleted, completed, CompactionError, codec, verification, CompactionRepository,
  write_stage, rollup_stage, verify_stage, delete_stage, complete_stage, run_phases, release_after,
  run_leased, with_lease, compact,
}
use pvlog.Storage.Compaction.Laws.{
  Late, at_verified, at_deleted, View, Consistent, At, CompactionLaws,
}

module _ (lib : Libraries) (W : Type 0) (repository : CompactionRepository lib W)
    (key : CompactionKey) (view : View W) (laws : CompactionLaws lib W repository key view) where
  -- A stage from a phase that is recorded ends in one that is.
  abbrev Stage : (CompactionPhase → Stateful W CompactionError CompactionPhase) → Type 0
  Stage stage =
      (phase : CompactionPhase) (w : W)
      → At view phase w
      → Outcome (Consistent view) (λ next v. view.recorded v ≡ next) (stage phase w)

  skip :
      (phase : CompactionPhase) (w : W)
      → At view phase w
      → Outcome {E = CompactionError}
          (Consistent view)
          (λ next v. view.recorded v ≡ next)
          (ok phase, w)
  unfolding Outcome
  skip phase w a = (a.consistent, a.phase_recorded)

  -- What a stage leaves.
  abbrev Next : CompactionPhase → W → Type 0
  Next next v = view.recorded v ≡ next

  -- The last call of every stage.
  advance_to :
      (before after : CompactionPhase) (w : W)
      → At view before w
      → (Late after → view.IsArchived w)
      → Outcome
          (Consistent view)
          Next
          (and_then (λ _. returning (ok after)) (repository.advance key after w))
  advance_to before after w a late =
      Outcome-and_then (Consistent view) (λ done v. view.recorded v ≡ after) Next _
        (repository.advance key after w) (laws.advance-At w before after a late)
        λ done v c r. unfold Outcome in (c, r)

  -- A call that stays at its phase, and what follows it.
  then-At :
      {A : Type 0} (phase : CompactionPhase) (Q : A → W → Type 0)
      (next : A → Stateful W CompactionError CompactionPhase) (r : Result CompactionError A × W)
      → Outcome (At view phase) Q r
      → ((a : A) (v : W) → At view phase v → Q a v → Outcome (Consistent view) Next (next a v))
      → Outcome (Consistent view) Next (and_then next r)
  unfolding Outcome
  then-At phase Q next (err e, v) h k = h.consistent
  then-At phase Q next (ok a, v) h k = k a v h.0 h.1

  encoded :
      {A : Type 0} (r : Result CompactionError A) (phase : CompactionPhase) (v : W)
      → At view phase v
      → Outcome (At view phase) (λ a u. Unit {0}) (r, v)
  unfolding Outcome
  encoded (err e) phase v a = a
  encoded (ok b) phase v a = (a, tt)

  write_stage-At : Stage (write_stage lib W repository key)
  unfolding write_stage
  write_stage-At pending w a =
      then-At pending (λ points v. Unit {0}) _ (repository.stable_points key w)
        (laws.stable_points-At w pending a)
        λ points v b _.
          then-At pending (λ s u. Unit {0}) _
            (map_err codec (encode_segment_v1 lib key.system_id points), v)
            (encoded (map_err codec (encode_segment_v1 lib key.system_id points)) pending v b)
            λ archived u c _.
              then-At pending (λ done v. Unit {0}) _ (repository.write_segment key archived u)
                (laws.write_segment-At u archived c)
                λ _ t d _. advance_to pending segment_written t d (λ l. elim l [ ])
  write_stage-At segment_written w a = skip segment_written w a
  write_stage-At rollups_written w a = skip rollups_written w a
  write_stage-At verified w a = skip verified w a
  write_stage-At hot_rows_deleted w a = skip hot_rows_deleted w a
  write_stage-At completed w a = skip completed w a

  rollup_stage-At : Stage (rollup_stage lib W repository key)
  unfolding rollup_stage
  rollup_stage-At segment_written w a =
      then-At segment_written (λ done v. Unit {0}) _ (repository.write_rollups key w)
        (laws.write_rollups-At w a)
        λ _ v b _. advance_to segment_written rollups_written v b (λ l. elim l [ ])
  rollup_stage-At pending w a = skip pending w a
  rollup_stage-At rollups_written w a = skip rollups_written w a
  rollup_stage-At verified w a = skip verified w a
  rollup_stage-At hot_rows_deleted w a = skip hot_rows_deleted w a
  rollup_stage-At completed w a = skip completed w a

  checked :
      (sound : Bool) (v : W)
      → At view rollups_written v
      → (sound ≡ true → view.IsArchived v)
      → Outcome
          (At view rollups_written)
          (λ (_ : Unit {0}) u. view.IsArchived u)
          (fail_if (not sound) verification, v)
  unfolding Outcome
  checked true v a h = (a, h refl)
  checked false v a h = a

  verify_stage-At : Stage (verify_stage lib W repository key)
  unfolding verify_stage
  verify_stage-At rollups_written w a =
      then-At rollups_written (λ sound v. sound ≡ true → view.IsArchived v) _
        (repository.verify_segment_and_rollups key w) (laws.verify-IsArchived w a)
        λ sound v b h.
          then-At rollups_written (λ _ u. view.IsArchived u) _ (fail_if (not sound) verification, v)
            (checked sound v b h) λ _ u c i. advance_to rollups_written verified u c (λ _. i)
  verify_stage-At pending w a = skip pending w a
  verify_stage-At segment_written w a = skip segment_written w a
  verify_stage-At verified w a = skip verified w a
  verify_stage-At hot_rows_deleted w a = skip hot_rows_deleted w a
  verify_stage-At completed w a = skip completed w a

  archived_at : (phase : CompactionPhase) (w : W) → At view phase w → Late phase → view.IsArchived w
  archived_at phase w a l = a.consistent.archived (subst Late (sym a.phase_recorded) l)

  delete_stage-At : Stage (delete_stage lib W repository key)
  unfolding delete_stage
  delete_stage-At verified w a =
      then-At verified (λ done v. Unit {0}) _ (repository.delete_redundant_hot_rows key w)
        (laws.delete-At w a (archived_at verified w a at_verified))
        λ _ v b _.
          advance_to verified hot_rows_deleted v b (λ _. archived_at verified v b at_verified)
  delete_stage-At pending w a = skip pending w a
  delete_stage-At segment_written w a = skip segment_written w a
  delete_stage-At rollups_written w a = skip rollups_written w a
  delete_stage-At hot_rows_deleted w a = skip hot_rows_deleted w a
  delete_stage-At completed w a = skip completed w a

  complete_stage-At : Stage (complete_stage lib W repository key)
  unfolding complete_stage
  complete_stage-At hot_rows_deleted w a =
      advance_to hot_rows_deleted completed w a (λ _. archived_at hot_rows_deleted w a at_deleted)
  complete_stage-At pending w a = skip pending w a
  complete_stage-At segment_written w a = skip segment_written w a
  complete_stage-At rollups_written w a = skip rollups_written w a
  complete_stage-At verified w a = skip verified w a
  complete_stage-At completed w a = skip completed w a

  -- One stage after another.
  chain :
      (stage : CompactionPhase → Stateful W CompactionError CompactionPhase)
      (r : Result CompactionError CompactionPhase × W)
      → Stage stage
      → Outcome (Consistent view) Next r
      → Outcome (Consistent view) Next (and_then stage r)
  chain stage r s h =
      Outcome-and_then (Consistent view) Next Next stage r h
        (λ next v c e. s next v (record { consistent = c; phase_recorded = e }))

  run_phases-At : Stage (run_phases lib W repository key)
  unfolding run_phases
  run_phases-At phase w a =
      chain _ ((write_stage lib W repository key) phase w)
        (λ p1 w1 a1.
          chain _ ((rollup_stage lib W repository key) p1 w1)
            (λ p2 w2 a2.
              chain _ ((verify_stage lib W repository key) p2 w2)
                (λ p3 w3 a3.
                  chain _ ((delete_stage lib W repository key) p3 w3) complete_stage-At
                    (delete_stage-At p3 w3 a3))
                (verify_stage-At p2 w2 a2))
            (rollup_stage-At p1 w1 a1))
        (write_stage-At phase w a)

  Outcome-world :
      (r : Result CompactionError CompactionPhase × W)
      → Outcome (Consistent view) Next r
      → Consistent view r.1
  unfolding Outcome
  Outcome-world (ok p, w) h = h.0
  Outcome-world (err e, w) h = h

  run_leased-Consistent :
      (owner : List ℕ) (leased : Option CompactionPhase) (w : W)
      → Consistent view w
      → ((phase : CompactionPhase) → leased ≡ some phase → view.recorded w ≡ phase)
      → Consistent view (run_leased lib W repository key owner leased w).1
  unfolding run_leased release_after
  run_leased-Consistent owner none w c h = c
  run_leased-Consistent owner (some phase) w c h =
      laws.release_lease-Consistent ((run_phases lib W repository key) phase w).1 owner (
        Outcome-world ((run_phases lib W repository key) phase w)
          (run_phases-At phase w (record { consistent = c; phase_recorded = h phase refl })))

  acquired-Consistent :
      (owner : List ℕ) (r : Result CompactionError (Option CompactionPhase) × W)
      → Outcome
          (Consistent view)
          (λ leased v. (phase : CompactionPhase) → leased ≡ some phase → view.recorded v ≡ phase)
          r
      → Consistent view (and_then (run_leased lib W repository key owner) r).1
  unfolding Outcome
  acquired-Consistent owner (err e, w) h = h
  acquired-Consistent owner (ok leased, w) h = run_leased-Consistent owner leased w h.0 h.1

  with_lease-Consistent :
      (owner : List ℕ) (until : Option ℤ) (w : W)
      → Consistent view w
      → Consistent view (with_lease lib W repository key owner until w).1
  unfolding with_lease
  with_lease-Consistent owner none w c = c
  with_lease-Consistent owner (some t) w c =
      acquired-Consistent owner (repository.acquire_lease key owner t w)
        (laws.acquire_lease-At w owner t c)

  -- Over a repository that keeps the laws, from a world in which nothing is lost and late phases
  -- stand over verified archives, a compaction leaves such a world, whatever it returns and
  -- whichever call fails.
  pub compact-Consistent :
      (lease_millis : ℤ) (owner : List ℕ) (now : ℤ) (w : W)
      → Consistent view w
      → Consistent view (compact lib W repository key lease_millis owner now w).1
  unfolding compact
  compact-Consistent lease_millis owner now w c =
      elim (Bool-cases (leb_ℤ key.range_end key.range_start || trims_to_empty owner)) [
        | inl refused ↦ rw refused c
        | inr fine ↦ rw fine (with_lease-Consistent owner (checked_add now lease_millis) w c)
      ]
