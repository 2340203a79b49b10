-- ===== src/Storage/Segment/Archive.antt =====
-- A segment is written, and read back, for every ordered run of points whose numbers stay below 2^62.
use pvlog.Common.{
  ℕ, ◌^◌, ◌<◌, ◌≡◌, ◌≢◌, refl, List, [], ◌∷◌, some, arith, lt→ltb, length, All, All-map, ℤ, pos,
  ◌+ℤ◌, int_laws, one_part, checked_add, checked_add_fits, ok,
}
use pvlog.Storage.Segment.{SegmentPoint, Envelope, Libraries, LibraryLaws, ArchivedSegmentBytes}
use pvlog.Storage.Segment.Encode.{last_timestamp, envelope, seal, encode_segment_v1}
use pvlog.Storage.Segment.Decode.{decode_segment_v1}
use pvlog.Storage.Segment.RoundTrip.{decode-encode}
use pvlog.Storage.Segment.Totality.{
  PointIsModest, IsModest, IsAscending, unordered-IsAscending, timestamp_deltas_total,
  provenance_loop_total, last_timestamp-IsModest, columns_fit_modest, IsTyped-modest,
}

checked_add_modest : (a : ℤ) → IsModest a → checked_add a (pos 1) ≡ some (a +ℤ pos 1)
checked_add_modest a h = checked_add_fits a (pos 1) refl (omega (int_laws, one_part (a +ℤ pos 1)))

module _ (lib : Libraries)
    (compresses : (b : lib.Bytes) → (c : lib.Bytes) × (lib.compress b ≡ some c)) where
  seal_total : (n : ℕ) (e : Envelope) → (a : ArchivedSegmentBytes lib) × (seal lib n e ≡ ok a)
  unfolding seal
  seal_total n e =
      let bytes = lib.encode_to_vec e in
      let (compressed, ec) = compresses bytes in
      (
        record {
          schema_version = 1;
          row_count = n;
          uncompressed_length = lib.len bytes;
          compressed_length = lib.len compressed;
          content_hash = lib.hash bytes;
          compressed_bytes = compressed;
        },
        rw ec,
      )

  encode_total :
      (system_id : ℕ) (first : SegmentPoint) (rest : List SegmentPoint)
      → IsAscending (first ∷ rest)
      → length (first ∷ rest) < 2 ^ 32
      → All PointIsModest (first ∷ rest)
      → (a : ArchivedSegmentBytes lib) × (encode_segment_v1 lib system_id (first ∷ rest) ≡ ok a)
  unfolding encode_segment_v1
  encode_total system_id first rest rising short modest =
      let (ds, ed) = timestamp_deltas_total first.timestamp_epoch_millis rest modest.0.0 modest.1 in
      let (t, et) = provenance_loop_total (first ∷ rest) [] [] (omega arith) modest in
      let last = last_timestamp first.timestamp_epoch_millis rest in
      let (a, ea) =
        seal_total (length (first ∷ rest))
          (envelope lib system_id first rest (length (first ∷ rest)) ds (last +ℤ pos 1) t.0 t.1) in
      (
        a,
        rw
            (
              unordered-IsAscending (first ∷ rest) rising,
              lt→ltb (length (first ∷ rest)) (2 ^ 32) short,
              ed,
              et,
              checked_add_modest last (last_timestamp-IsModest _ rest modest.0.0 modest.1),
            )
            ea,
      )

  -- If compression succeeds, a non-empty run of fewer than 2^32 points with strictly rising
  -- timestamps, whose numbers are all within 2^62 of zero, is encoded, and decoding the result gives
  -- back the system and the points.
  pub archive_round_trip :
      LibraryLaws lib
      → (system_id : ℕ) (points : List SegmentPoint) → points ≢ []
      → IsAscending points
      → length points < 2 ^ 32
      → All PointIsModest points
      → (a : ArchivedSegmentBytes lib) × (encode_segment_v1 lib system_id points ≡ ok a)
        × (decode_segment_v1 lib a ≡ ok (system_id, points))
  archive_round_trip laws system_id [] full rising short modest = absurd (full refl)
  archive_round_trip laws system_id (first ∷ rest) full rising short modest =
      let (a, ea) = encode_total system_id first rest rising short modest in
      (
        a,
        ea,
        ground (
          arith,
          decode-encode lib laws system_id (first ∷ rest) a
              (All-map IsTyped-modest (first ∷ rest) modest) ea,
          columns_fit_modest (first ∷ rest) modest,
        ),
      )
