-- ===== src/Storage/Folding/Samples.antt =====
-- The theorem on folding over a repository in memory, with a corrected point and a later correction.
use pvlog.Common.{
  ℕ, ◌≡◌, refl, ap, subst, ◌⊎◌, inl, inr, Bool, true, false, not, ◌&&◌, ◌||◌, List, [], ◌∷◌, ◌++◌,
  none, some, ◌==◌, leb, if◌then◌else◌, ok, pos,
}
use pvlog.Common.Stateful.{Outcome}
use pvlog.Storage.Segment.{Libraries, Envelope, SegmentPoint, ArchivedSegmentBytes}
use pvlog.Storage.Folding.{
  OverlayFoldKey, OverlayFoldPhase, pending, segment_replaced, OverlayFoldState,
  OverlayFoldRepository, fold,
}
use pvlog.Storage.Folding.Laws.{in_phase, View, Consistent, At, FoldLaws}
use pvlog.Storage.Folding.Resumable.{fold-Sound}

abbrev keeping : Libraries
keeping = record {
  Bytes = Envelope;
  len = λ e. e.row_count;
  encode_to_vec = λ e. e;
  decode = λ e. some e;
  hash = λ e. e.row_count;
  compress = λ e. some e;
  decode_all = λ e. some e;
  as_bytes = λ u. u ∷ [];
  from_slice = λ bytes. none;
}

abbrev row : SegmentPoint
row = record {
  timestamp_epoch_millis = pos 1000;
  generation_power_watts = some (pos 250);
  extended = [];
  source_kind = "correction";
  source_reference = "a";
  received_at_epoch_millis = pos 1200;
  quality_flags = 4;
}

abbrev later_row : SegmentPoint
later_row = record row { timestamp_epoch_millis = pos 2000; source_reference = "b" }

abbrev day : OverlayFoldKey
day = record { system_id = 3; range_start = pos 0; range_end = pos 86400000 }

-- The recorded phase, whether the segment holds the correction of revision one, whether its overlay is
-- left, and whether the one of revision two is, which came after the snapshot.
record Memory : Type 0 where
  phase : OverlayFoldPhase
  folded : Bool
  first_overlay : Bool
  second_overlay : Bool

-- What the segment and the overlays through a revision come to.
abbrev read : ℕ → Memory → List SegmentPoint
read watermark w =
    (if w.folded || (w.first_overlay && leb 1 watermark) then row ∷ [] else [])
    ++ (if w.second_overlay && leb 2 watermark then later_row ∷ [] else [])

abbrev prepared : Memory → OverlayFoldState
prepared w = record { phase = w.phase; expected_generation = 7; overlay_revision_watermark = 1 }

abbrev in_memory : OverlayFoldRepository keeping Memory
in_memory = record {
  prepare = λ key w. (ok (prepared w), w);
  merged_points = λ key watermark w. (ok (read watermark w), w);
  replace_segment = λ key generation replacement w.
      if generation == 7 then (ok true, record w { folded = true }) else (ok false, w);
  delete_overlays_through = λ key watermark w. (
    ok tt,
    record w {
      first_overlay = w.first_overlay && not (leb 1 watermark);
      second_overlay = w.second_overlay && not (leb 2 watermark);
    },
  );
  advance = λ key phase w. (ok tt, record w { phase = phase });
}

abbrev seen : View Memory
seen = record {
  recorded = prepared;
  IsCorrected = λ w. ((w.folded ≡ true) ⊎ (w.first_overlay ≡ true)) × (w.second_overlay ≡ true);
  IsFolded = λ w. w.folded ≡ true;
  AreMerged = λ watermark points w. points ≡ read watermark w;
}

replaces :
    (state : OverlayFoldState) (w : Memory) (replacement : ArchivedSegmentBytes keeping)
    (generation : ℕ)
    → 7 ≡ generation
    → At seen state w
    → Outcome
        (At seen state)
        (λ replaced v. replaced ≡ true → seen.IsFolded v)
        (in_memory.replace_segment day generation replacement w)
unfolding Outcome
replaces state w replacement generation e a =
    subst
      (λ g.
        Outcome (At seen state) (λ replaced v. replaced ≡ true → seen.IsFolded v)
          (in_memory.replace_segment day g replacement w))
      e
      (
        record {
          consistent = record {
            corrected = (inl refl, a.consistent.corrected.1);
            folded = λ l. refl;
          };
          state_recorded = a.state_recorded;
        },
        λ done. refl,
      )

deletes :
    (state : OverlayFoldState) (w : Memory) (watermark : ℕ)
    → 1 ≡ watermark
    → At seen state w
    → seen.IsFolded w
    → Outcome
        (At seen state)
        (λ done v. Unit {0})
        (in_memory.delete_overlays_through day watermark w)
unfolding Outcome
deletes state w watermark e a h =
    subst
      (λ m.
        Outcome (At seen state) (λ (done : Unit {0}) v. Unit {0})
          (in_memory.delete_overlays_through day m w))
      e
      (
        record {
          consistent = record {
            corrected = (inl h, kept w.second_overlay a.consistent.corrected.1);
            folded = λ l. h;
          };
          state_recorded = a.state_recorded;
        },
        tt,
      )
  where
    kept : (b : Bool) → b ≡ true → (b && not (leb 2 1)) ≡ true
    kept true k = refl
    kept false k = k

in_memory-FoldLaws : FoldLaws keeping Memory in_memory day seen
unfolding Outcome
in_memory-FoldLaws = record {
  prepare-At = λ w c. (c, refl);
  merged_points-AreMerged = λ state w watermark a. (a, refl);
  replace_segment-IsFolded = λ state w points replacement a merged e.
      replaces (in_phase state pending) w replacement state.expected_generation
        (ap (λ (x : OverlayFoldState). x.expected_generation) a.state_recorded) a;
  delete-At = λ state w a h.
      deletes (in_phase state segment_replaced) w state.overlay_revision_watermark
        (ap (λ (x : OverlayFoldState). x.overlay_revision_watermark) a.state_recorded) a h;
  advance-At = λ state w after a h. (
    record { corrected = a.consistent.corrected; folded = h },
    ap (λ (x : OverlayFoldState). in_phase x after) a.state_recorded,
  );
}

abbrev start : Memory
start = record { phase = pending; folded = false; first_overlay = true; second_overlay = true }

start-Consistent : Consistent seen start
start-Consistent = record { corrected = (inr refl, refl); folded = λ l. elim l [ ] }

fold-Sound_example :
    Outcome (Consistent seen) (λ phase v. v.phase ≡ phase) (fold keeping Memory in_memory day start)
fold-Sound_example =
    fold-Sound keeping Memory in_memory day seen in_memory-FoldLaws start start-Consistent
