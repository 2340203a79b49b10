-- ===== src/Storage/Segment/Decode.antt =====
-- `decode_segment_v1` of src/crates/storage/src/segment_codec.rs.
use pvlog.Common.{
  ℕ, ◌+◌, not, ◌||◌, List, [], ◌∷◌, Option, none, some, ◌==◌, if◌then◌else◌, length, get_elem?,
  replicate, ℤ, checked_add, insert, Result, ok, ◌>>=◌, ◌>>◌, ok_or, fail_if,
}
use pvlog.Storage.Segment.{
  SegmentCodecError, integrity, overflow, compression, protobuf, SegmentPoint, IntegerColumn,
  ExtendedColumn, Provenance, Envelope, Libraries, ArchivedSegmentBytes,
}
use pvlog.Storage.Segment.Column.{expand}

-- The timestamps after `last`, which is the one pushed before.
unfoldable pub timestamps_from : ℤ → List ℤ → Result SegmentCodecError (List ℤ)
timestamps_from last [] = ok []
timestamps_from last (delta ∷ deltas) = do
  next ← ok_or (checked_add last delta) overflow
  rest ← timestamps_from next deltas
  ok (next ∷ rest)

-- `columns.iter().find(|column| column.field == 1)`.
unfoldable pub find_generation : List IntegerColumn → Option IntegerColumn
find_generation [] = none
find_generation (c ∷ columns) = if c.field == 1 then some c else find_generation columns

unfoldable pub generation : List IntegerColumn → ℕ → Result SegmentCodecError (List (Option ℤ))
generation columns count = elim (find_generation columns) [
  | some c ↦ expand c.presence c.deltas count
  | none ↦ ok (replicate count none)
]

-- Row `index` gets the channel's value, if there is one. `expand` returns one value for each row.
unfoldable pub insert_values : ℕ → List (Option ℤ) → List (List (ℕ × ℤ)) → List (List (ℕ × ℤ))
insert_values channel [] rows = rows
insert_values channel (value ∷ values) [] = []
insert_values channel (none ∷ values) (row ∷ rows) = row ∷ insert_values channel values rows
insert_values channel (some value ∷ values) (row ∷ rows) =
    insert channel value row ∷ insert_values channel values rows

-- The loop over `index`. The sequences that it reads by the index have one element for each row.
unfoldable pub build_points :
    List Provenance
    → List ℤ
    → List (Option ℤ)
    → List (List (ℕ × ℤ))
    → List ℕ
    → List ℕ
    → Result SegmentCodecError (List SegmentPoint)
build_points table (t ∷ ts) (g ∷ gs) (row ∷ rows) (i ∷ indices) (q ∷ qs) = do
  provenance ← ok_or (get_elem? table i) integrity
  received_at ← ok_or (checked_add t provenance.received_delta) overflow
  let point : SegmentPoint = record {
    timestamp_epoch_millis = t;
    generation_power_watts = g;
    extended = row;
    source_kind = provenance.source_kind;
    source_reference = provenance.source_reference;
    received_at_epoch_millis = received_at;
    quality_flags = q;
  }
  rest ← build_points table ts gs rows indices qs
  ok (point ∷ rest)
build_points table _ _ _ _ _ = ok []

module _ (lib : Libraries) where
  unfoldable pub extended_rows :
      List ExtendedColumn → ℕ → List (List (ℕ × ℤ)) → Result SegmentCodecError (List (List (ℕ × ℤ)))
  extended_rows [] count rows = ok rows
  extended_rows (c ∷ columns) count rows = do
    channel ← ok_or (lib.from_slice c.channel_id) protobuf
    values ← expand c.presence c.deltas count
    extended_rows columns count (insert_values channel values rows)

  -- The part of the function after the envelope's version and row count are checked.
  unfoldable pub open_envelope : Envelope → Result SegmentCodecError (ℕ × List SegmentPoint)
  open_envelope e = do
    system_id ← ok_or (lib.from_slice e.system_id_uuid) protobuf
    let count = e.row_count
    fail_if
        ((count == 0)
          || not (length e.timestamp_deltas + 1 == count)
          || not (length e.provenance_index == count)
          || not (length e.quality_flags == count))
        integrity
    timestamps ← timestamps_from e.base_timestamp e.timestamp_deltas
    powers ← generation e.columns count
    rows ← extended_rows e.extended count (replicate count [])
    points ←
        build_points e.provenance (e.base_timestamp ∷ timestamps) powers rows e.provenance_index
          e.quality_flags
    ok (system_id, points)

  unfoldable pub decode_segment_v1 :
      ArchivedSegmentBytes lib → Result SegmentCodecError (ℕ × List SegmentPoint)
  decode_segment_v1 artifact = do
    fail_if
        (not (artifact.schema_version == 1)
          || not (artifact.compressed_length == lib.len artifact.compressed_bytes))
        integrity
    uncompressed ← ok_or (lib.decode_all artifact.compressed_bytes) compression
    fail_if
        (not (artifact.uncompressed_length == lib.len uncompressed)
          || not (lib.hash uncompressed == artifact.content_hash))
        integrity
    e ← ok_or (lib.decode uncompressed) protobuf
    fail_if (not (e.schema_version == 1) || not (e.row_count == artifact.row_count)) integrity
    open_envelope e
