-- ===== src/Storage/Compaction/Samples.antt =====
-- The theorems on compaction over a repository in memory.
use pvlog.Common.{
  ◌≡◌, refl, ◌∙◌, Bool, true, false, List, [], ◌∷◌, none, some, ok, pos, if◌then◌else◌, ◌+ℤ◌, ◌-ℤ◌,
  checked_add, checked_sub, arith, ◌⊎◌, inl, inr, Bool-cases,
}
use pvlog.Common.Text.{trims_to_empty}
use pvlog.Common.Stateful.{Outcome}
use pvlog.Storage.Segment.{Libraries, Envelope, SegmentPoint}
use pvlog.Storage.Segment.Encode
use pvlog.Storage.Segment.Encode.{encode_segment_v1}
use pvlog.Storage.Compaction.{
  CompactionKey, CompactionPhase, pending, completed, CompactionRepository, compact, with_lease,
  run_leased, release_after, run_phases, write_stage, rollup_stage, verify_stage, delete_stage,
  complete_stage,
}
use pvlog.Storage.Compaction.Laws.{View, Consistent, CompactionLaws}
use pvlog.Storage.Compaction.Resumable.{compact-Consistent}
use pvlog.Storage.Compaction.Phases.{Released, compact-completed}

abbrev keeping : Libraries
keeping = record {
  Bytes = Envelope;
  len = λ e. e.row_count;
  encode_to_vec = λ e. e;
  decode = λ e. some e;
  hash = λ e. e.row_count;
  compress = λ e. some e;
  decode_all = λ e. some e;
  as_bytes = λ u. u ∷ [];
  from_slice = λ bytes. none;
}

-- The hot rows of one interval, whether its archives stand, and its job.
record Memory : Type 0 where
  phase : CompactionPhase
  hot : List SegmentPoint
  archived : Bool
  leased : Bool

abbrev in_memory : CompactionRepository keeping Memory
in_memory = record {
  acquire_lease = λ key owner until w.
      if w.leased then (ok none, w) else (ok (some w.phase), record w { leased = true });
  stable_points = λ key w. (ok w.hot, w);
  write_segment = λ key archived w. (ok tt, w);
  write_rollups = λ key w. (ok tt, record w { archived = true });
  verify_segment_and_rollups = λ key w. (ok w.archived, w);
  delete_redundant_hot_rows = λ key w. (ok tt, record w { hot = [] });
  advance = λ key phase w. (ok tt, record w { phase = phase });
  release_lease = λ key owner w. (ok tt, record w { leased = false });
}

abbrev row : SegmentPoint
row = record {
  timestamp_epoch_millis = pos 1000;
  generation_power_watts = some (pos 250);
  extended = [];
  source_kind = "api";
  source_reference = "a";
  received_at_epoch_millis = pos 1200;
  quality_flags = 0;
}

abbrev day : CompactionKey
day = record { system_id = 3; range_start = pos 0; range_end = pos 86400000 }

-- What is read back of the interval: the one row, from the hot rows or the archives.
abbrev seen : View Memory
seen = record {
  recorded = λ w. w.phase;
  IsReadable = λ w. (w.archived ≡ true) ⊎ (w.hot ≡ row ∷ []);
  IsArchived = λ w. w.archived ≡ true;
}

abbrev start : Memory
start = record { phase = pending; hot = row ∷ []; archived = false; leased = false }

still_readable :
    (w v : Memory)
    → (w.archived ≡ true → v.archived ≡ true)
    → v.hot ≡ w.hot
    → seen.IsReadable w
    → seen.IsReadable v
still_readable w v g f (inl archived) = inl (g archived)
still_readable w v g f (inr hot) = inr (f ∙ hot)

in_memory-CompactionLaws : CompactionLaws keeping Memory in_memory day seen
unfolding Outcome
in_memory-CompactionLaws = record {
  acquire_lease-At = λ w owner until c. acquire w c;
  stable_points-At = λ w phase a. (a, tt);
  write_segment-At = λ w archived a. (a, tt);
  write_rollups-At = λ w a. (
    record {
      consistent = record { readable = inl refl; archived = λ l. refl };
      phase_recorded = a.phase_recorded;
    },
    tt,
  );
  verify-IsArchived = λ w a. (a, λ e. e);
  delete-At = λ w a h. (
    record {
      consistent = record { readable = inl h; archived = λ l. h };
      phase_recorded = a.phase_recorded;
    },
    tt,
  );
  advance-At = λ w before after a h. (
    record {
      readable = still_readable w (record w { phase = after }) (λ e. e) refl a.consistent.readable;
      archived = h;
    },
    refl,
  );
  release_lease-Consistent = λ w owner c. released w c;
}
  where
    released : (w : Memory) → Consistent seen w → Consistent seen (record w { leased = false })
    released w c = record {
      readable = still_readable w (record w { leased = false }) (λ e. e) refl c.readable;
      archived = c.archived;
    }

    acquire :
        (w : Memory)
        → Consistent seen w
        → Outcome
            (Consistent seen)
            (λ leased v. (phase : CompactionPhase) → leased ≡ some phase → v.phase ≡ phase)
            (in_memory.acquire_lease day [] (pos 0) w)
    acquire w c = elim (Bool-cases w.leased) [
      | inl held ↦ simp held (c, λ phase e. cc)
      | inr free ↦ simp free (
        record {
          readable = still_readable w (record w { leased = true }) (λ e. e) refl c.readable;
          archived = c.archived;
        },
        λ phase e. ground (arith, e),
      )
    ]

start-Consistent : Consistent seen start
start-Consistent = record { readable = inr refl; archived = λ l. elim l [ ] }

abbrev finished : Memory
finished = record { phase = completed; hot = []; archived = true; leased = false }

compacts :
    compact keeping Memory in_memory day (pos 60000) (119 ∷ []) (pos 0) start
    ≡ (ok completed, finished)
unfolding compact with_lease run_leased release_after run_phases write_stage rollup_stage
    verify_stage delete_stage complete_stage trims_to_empty encode_segment_v1 checked_add ◌+ℤ◌
    Encode.unordered Encode.timestamp_deltas_from Encode.provenance_loop checked_sub ◌-ℤ◌
    Encode.intern Encode.position Encode.last_timestamp Encode.seal
compacts = refl

compact-Consistent_example :
    Consistent seen (compact keeping Memory in_memory day (pos 60000) (119 ∷ []) (pos 0) start).1
compact-Consistent_example =
    compact-Consistent keeping Memory in_memory day seen in_memory-CompactionLaws (pos 60000)
      (119 ∷ []) (pos 0) start start-Consistent

compact-completed_example :
    (completed ≡ completed) × Released keeping Memory in_memory day (119 ∷ []) finished
compact-completed_example =
    compact-completed keeping Memory in_memory day (pos 60000) (119 ∷ []) (pos 0) start completed
      finished compacts
