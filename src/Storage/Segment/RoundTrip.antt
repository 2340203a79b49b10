-- ===== src/Storage/Segment/RoundTrip.antt =====
-- Decoding an encoded segment.
pub mod Provenances
pub mod Rows
pub mod Columns
use pvlog.Common.{
  ℕ, zero, suc, ◌+◌, ◌≡◌, refl, ap, ◌∙◌, sym, Bool, true, false, not, ◌&&◌, ◌||◌, List, [], ◌∷◌,
  map, Option, none, some, arith, ltb, ◌^◌, ◌==◌, ==_refl, if◌then◌else◌, length, length-map,
  replicate, All, All-map, ℤ, pos, InI64, lookup, IsSorted, checked_add, Result, ok, err, ◌>>=◌,
  >>=-eq-ok, ok_or-eq-ok, fail_if-eq-ok, ok_or,
}
use pvlog.Storage.Segment.{
  SegmentPoint, SegmentCodecError, overflow, ordering, compression, Provenance, Envelope, Libraries,
  LibraryLaws, ArchivedSegmentBytes,
}
use pvlog.Storage.Segment.Column.RoundTrip.{OptionInI64, steps_fit}
use pvlog.Storage.Segment.Encode.{
  unordered, to_u32, timestamp_deltas_from, provenance_loop, last_timestamp, channel_ids,
  channel_values, generation_values, generation_columns, envelope, seal, encode_segment_v1,
}
use pvlog.Storage.Segment.Decode.{
  build_points, timestamps_from, generation, extended_rows, open_envelope, decode_segment_v1,
}
use Provenances.{rebuilt, build_points-provenance_loop}
use Rows.{channels_fit, extended_rows-channel_ids}
use Columns.{timestamps_from-deltas, generation-columns}

abbrev pub ValuesInI64 : List (ℕ × ℤ) → Type 0
ValuesInI64 [] = Unit {0}
ValuesInI64 ((k, v) ∷ m) = InI64 v × ValuesInI64 m

-- What the types of the source say of a point: its numbers are i64s, its map is ordered.
abbrev pub IsTyped : SegmentPoint → Type 0
IsTyped p =
    InI64 p.timestamp_epoch_millis
    × InI64 p.received_at_epoch_millis
    × OptionInI64 p.generation_power_watts
    × IsSorted p.extended
    × ValuesInI64 p.extended

-- In every column, neighbouring values differ by an i64, and the first is measured from 0.
unfoldable pub columns_fit : List SegmentPoint → Bool
columns_fit points =
    steps_fit (pos 0) (generation_values points) && channels_fit (channel_ids points) points

lookup-InI64 : (k : ℕ) (m : List (ℕ × ℤ)) → ValuesInI64 m → OptionInI64 (lookup k m)
lookup-InI64 k [] h = tt
lookup-InI64 k ((j, v) ∷ m) h = ground (arith, lookup-InI64 k m h.1)

All-field {ℓ} :
    {A : Type ℓ} (P : A → Type 0) (f : SegmentPoint → A) (points : List SegmentPoint)
    → All (λ p. P (f p)) points
    → All P (map f points)
All-field P f [] h = tt
All-field P f (p ∷ points) h = (h.0, All-field P f points h.1)

module _ (lib : Libraries) (laws : LibraryLaws lib) where
  open_envelope-envelope :
      (system_id : ℕ) (first : SegmentPoint) (rest : List SegmentPoint) (deltas : List ℤ)
      (range_end : ℤ) (table : List Provenance) (indices : List ℕ)
      → All IsTyped (first ∷ rest)
      → timestamp_deltas_from first.timestamp_epoch_millis rest ≡ ok deltas
      → provenance_loop (first ∷ rest) [] [] ≡ ok (table, indices)
      → open_envelope lib
          (envelope lib system_id first rest (length (first ∷ rest)) deltas range_end table indices)
        ≡ (if columns_fit (first ∷ rest) then ok (system_id, first ∷ rest) else err overflow)
  unfolding open_envelope envelope columns_fit
  open_envelope-envelope system_id first rest deltas range_end table indices typed ed ep =
      let points : List SegmentPoint = first ∷ rest in
      let (et, el) =
        timestamps_from-deltas first.timestamp_epoch_millis rest {deltas = deltas}
          (All-map (λ p t. t.0) rest typed.1) ed in
      let (ec, eb) =
        build_points-provenance_loop points {table = table} {indices = indices}
          (All-map (λ p t. t.1) points typed) ep in
      ground (
        arith,
        laws.from_slice-as_bytes system_id,
        et,
        el,
        ec,
        eb,
        length-map points (λ (p : SegmentPoint). p.quality_flags),
        length-map points (λ (p : SegmentPoint). p.generation_power_watts),
        generation-columns (generation_values points)
            (All-field OptionInI64 _ points (All-map (λ p t. t.2) points typed)),
        extended_rows-channel_ids lib laws points
            (λ c.
              All-field OptionInI64 _ points
                (All-map (λ p t. lookup-InI64 c p.extended t.4) points typed))
            (All-map (λ p t. t.3) points typed),
      )

  -- The checks around the envelope pass on what `seal` wrote.
  decode-seal :
      (e : Envelope) {artifact : ArchivedSegmentBytes lib}
      → e.schema_version ≡ 1
      → seal lib e.row_count e ≡ ok artifact
      → decode_segment_v1 lib artifact ≡ open_envelope lib e
  unfolding seal decode_segment_v1
  decode-seal e {artifact} version es =
      let (c, ec, ea) = ok_or-eq-ok (lib.compress (lib.encode_to_vec e)) compression _ es in
      ground (
        arith,
        laws.decode_all-compress (lib.encode_to_vec e) c ec,
        laws.decode-encode_to_vec e,
        ==_refl (lib.len c),
        ==_refl (lib.len (lib.encode_to_vec e)),
        ==_refl (lib.hash (lib.encode_to_vec e)),
        ==_refl e.row_count,
      )

  to_u32_value : (n : ℕ) {m : ℕ} → to_u32 n ≡ ok m → n ≡ m
  to_u32_value n e = ground arith

  decode_of_parts :
      (system_id : ℕ) (first : SegmentPoint) (rest : List SegmentPoint) (n : ℕ) (deltas : List ℤ)
      (table : List Provenance) (indices : List ℕ) (range_end : ℤ)
      (artifact : ArchivedSegmentBytes lib)
      → All IsTyped (first ∷ rest)
      → to_u32 (length (first ∷ rest)) ≡ ok n
      → timestamp_deltas_from first.timestamp_epoch_millis rest ≡ ok deltas
      → provenance_loop (first ∷ rest) [] [] ≡ ok (table, indices)
      → seal lib n (envelope lib system_id first rest n deltas range_end table indices)
        ≡ ok artifact
      → decode_segment_v1 lib artifact
        ≡ (if columns_fit (first ∷ rest) then ok (system_id, first ∷ rest) else err overflow)
  decode_of_parts system_id first rest n deltas table indices range_end artifact typed en ed ep es =
      unfold envelope in
      decode-seal (envelope lib system_id first rest n deltas range_end table indices) refl es
      ∙ rw (← to_u32_value (length (first ∷ rest)) en)
          (open_envelope-envelope system_id first rest deltas range_end table indices typed ed ep)

  -- Decoding what was encoded gives back the system and the points, when in every column the
  -- differences of neighbouring values are i64s; otherwise it fails with `Overflow`.
  pub decode-encode :
      (system_id : ℕ) (points : List SegmentPoint) (artifact : ArchivedSegmentBytes lib)
      → All IsTyped points
      → encode_segment_v1 lib system_id points ≡ ok artifact
      → decode_segment_v1 lib artifact
        ≡ (if columns_fit points then ok (system_id, points) else err overflow)
  unfolding encode_segment_v1
  decode-encode system_id [] artifact typed e = cc
  decode-encode system_id (first ∷ rest) artifact typed e =
      let (eo, e1) = fail_if-eq-ok (unordered (first ∷ rest)) ordering _ e in
      let (n, en, e2) = >>=-eq-ok (to_u32 (length (first ∷ rest))) _ e1 in
      let (deltas, ed, e3) =
        >>=-eq-ok (timestamp_deltas_from first.timestamp_epoch_millis rest) _ e2 in
      let (t, ep, e4) = >>=-eq-ok (provenance_loop (first ∷ rest) [] []) _ e3 in
      let (range_end, er, e5) =
        ok_or-eq-ok (checked_add (last_timestamp first.timestamp_epoch_millis rest) (pos 1))
          overflow _ e4 in
      decode_of_parts system_id first rest n deltas t.0 t.1 range_end artifact typed en ed ep e5
