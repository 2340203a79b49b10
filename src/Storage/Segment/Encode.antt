-- ===== src/Storage/Segment/Encode.antt =====
-- `encode_segment_v1` of src/crates/storage/src/segment_codec.rs. A usize is a u64 there, so the
-- conversions of lengths to u64 do not fail.
use text.Mathlib.Text.{◌==◌ as str_eq}
use pvlog.Common.{
  ℕ, suc, ◌^◌, Bool, false, ◌&&◌, ◌||◌, List, [], ◌∷◌, ◌++◌, map, Option, none, some, ltb, ◌==◌,
  if◌then◌else◌, length, all, ℤ, pos, leb_ℤ, ◌==ℤ◌, checked_add, checked_sub, lookup, keys, Result,
  ok, err, ◌>>=◌, ◌>>◌, ok_or, fail_if,
}
use pvlog.Storage.Segment.{
  SegmentCodecError, ordering, size, overflow, compression, SegmentPoint, IntegerColumn,
  ExtendedColumn, Provenance, Envelope, Libraries, ArchivedSegmentBytes,
}
use pvlog.Storage.Segment.Column.{column}

-- `points.windows(2).any(|pair| pair[0].timestamp >= pair[1].timestamp)`.
unfoldable pub unordered : List SegmentPoint → Bool
unordered [] = false
unordered (p ∷ []) = false
unordered (p ∷ q ∷ points) =
    leb_ℤ q.timestamp_epoch_millis p.timestamp_epoch_millis || unordered (q ∷ points)

-- `u32::try_from(n)`.
abbrev pub to_u32 : ℕ → Result SegmentCodecError ℕ
to_u32 n = if ltb n (2 ^ 32) then ok n else err size

-- The differences of neighbouring timestamps; the first argument is the one before.
unfoldable pub timestamp_deltas_from : ℤ → List SegmentPoint → Result SegmentCodecError (List ℤ)
timestamp_deltas_from previous [] = ok []
timestamp_deltas_from previous (p ∷ points) = do
  delta ← ok_or (checked_sub p.timestamp_epoch_millis previous) overflow
  rest ← timestamp_deltas_from p.timestamp_epoch_millis points
  ok (delta ∷ rest)

unfoldable pub generation_columns : List ℕ × List ℤ → List IntegerColumn
generation_columns (presence, deltas) =
    if all (λ byte. byte == 0) presence
    then []
    else record { field = 1; presence = presence; scale = 0; deltas = deltas } ∷ []

-- `sort_unstable_by_key` of the channels' bytes, which are in the order of the numbers.
unfoldable pub insert_sorted : ℕ → List ℕ → List ℕ
insert_sorted k [] = k ∷ []
insert_sorted k (j ∷ js) = if ltb k j then k ∷ j ∷ js else j ∷ insert_sorted k js

unfoldable pub sort_channels : List ℕ → List ℕ
sort_channels [] = []
sort_channels (k ∷ ks) = insert_sorted k (sort_channels ks)

-- `dedup`: an element that is equal to the one before it goes.
unfoldable pub dedup : List ℕ → List ℕ
dedup [] = []
dedup (k ∷ []) = k ∷ []
dedup (k ∷ j ∷ ks) = let rest = dedup (j ∷ ks) in if k == j then rest else k ∷ rest

unfoldable pub flat_map_keys : List SegmentPoint → List ℕ
flat_map_keys [] = []
flat_map_keys (p ∷ points) = keys p.extended ++ flat_map_keys points

unfoldable pub channel_ids : List SegmentPoint → List ℕ
channel_ids points = dedup (sort_channels (flat_map_keys points))

-- The values of one channel, one for each point.
abbrev pub channel_values : ℕ → List SegmentPoint → List (Option ℤ)
channel_values channel points = map (λ p. lookup channel p.extended) points

abbrev pub generation_values : List SegmentPoint → List (Option ℤ)
generation_values points = map (λ p. p.generation_power_watts) points

unfoldable pub provenance_eq : Provenance → Provenance → Bool
provenance_eq a b =
    str_eq a.source_kind b.source_kind
    && str_eq a.source_reference b.source_reference
    && (a.received_delta ==ℤ b.received_delta)

-- `provenance.iter().position(|candidate| candidate == &entry)`.
unfoldable pub position : Provenance → List Provenance → Option ℕ
position entry [] = none
position entry (candidate ∷ rest) =
    let later = position entry rest in
    if provenance_eq candidate entry
    then some 0
    else elim later [ none ↦ none | some i ↦ some (suc i) ]

-- The index of the entry, and the table, to which it is added if it is new.
unfoldable pub intern : Provenance → List Provenance → ℕ × List Provenance
intern entry table = elim (position entry table) [
  | some i ↦ (i, table)
  | none ↦ (length table, table ++ (entry ∷ []))
]

unfoldable pub provenance_loop :
    List SegmentPoint
    → List Provenance
    → List ℕ
    → Result SegmentCodecError (List Provenance × List ℕ)
provenance_loop [] table indices = ok (table, indices)
provenance_loop (p ∷ points) table indices = do
  received_delta ← ok_or (checked_sub p.received_at_epoch_millis p.timestamp_epoch_millis) overflow
  let entry : Provenance = record {
    source_kind = p.source_kind;
    source_reference = p.source_reference;
    received_delta = received_delta;
  }
  let interned = intern entry table
  index ← to_u32 interned.0
  provenance_loop points interned.1 (indices ++ (index ∷ []))

-- `points.last()`, of a list that begins with the first argument.
unfoldable pub last_timestamp : ℤ → List SegmentPoint → ℤ
last_timestamp last [] = last
last_timestamp last (p ∷ points) = last_timestamp p.timestamp_epoch_millis points

module _ (lib : Libraries) where
  unfoldable pub extended_column : List SegmentPoint → ℕ → ExtendedColumn
  extended_column points channel =
      let values = column (channel_values channel points) in
      record {
        channel_id = lib.as_bytes channel;
        value_type = 1;
        presence = values.0;
        scale = 0;
        deltas = values.1;
        booleans = [];
      }

  unfoldable pub envelope :
      ℕ → SegmentPoint → List SegmentPoint → ℕ → List ℤ → ℤ → List Provenance → List ℕ → Envelope
  envelope system_id first rest row_count deltas range_end table indices = record {
    schema_version = 1;
    system_id_uuid = lib.as_bytes system_id;
    range_start = first.timestamp_epoch_millis;
    range_end = range_end;
    row_count = row_count;
    base_timestamp = first.timestamp_epoch_millis;
    timestamp_deltas = deltas;
    columns = generation_columns (column (generation_values (first ∷ rest)));
    extended = map (extended_column (first ∷ rest)) (channel_ids (first ∷ rest));
    provenance = table;
    provenance_index = indices;
    quality_flags = map (λ p. p.quality_flags) (first ∷ rest);
  }

  unfoldable pub seal : ℕ → Envelope → Result SegmentCodecError (ArchivedSegmentBytes lib)
  seal row_count e = do
    let uncompressed = lib.encode_to_vec e
    compressed ← ok_or (lib.compress uncompressed) compression
    ok (record {
      schema_version = 1;
      row_count = row_count;
      uncompressed_length = lib.len uncompressed;
      compressed_length = lib.len compressed;
      content_hash = lib.hash uncompressed;
      compressed_bytes = compressed;
    })

  unfoldable pub encode_segment_v1 :
      ℕ → List SegmentPoint → Result SegmentCodecError (ArchivedSegmentBytes lib)
  encode_segment_v1 system_id [] = err ordering
  encode_segment_v1 system_id (first ∷ rest) = do
    fail_if (unordered (first ∷ rest)) ordering
    row_count ← to_u32 (length (first ∷ rest))
    deltas ← timestamp_deltas_from first.timestamp_epoch_millis rest
    (table, indices) ← provenance_loop (first ∷ rest) [] []
    range_end ←
        ok_or (checked_add (last_timestamp first.timestamp_epoch_millis rest) (pos 1)) overflow
    seal row_count (envelope system_id first rest row_count deltas range_end table indices)
