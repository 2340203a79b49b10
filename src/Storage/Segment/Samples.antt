-- ===== src/Storage/Segment/Samples.antt =====
-- Runs of the segment codec, and its theorems at concrete inputs. The libraries are stood in for by
-- functions that keep the value.
use pvlog.Common.{
  ℕ, ◌≡◌, refl, List, [], ◌∷◌, some, none, Option, ℤ, pos, negsuc, ok, err, arith, ◌-ℤ◌, ◌+ℤ◌,
  checked_add, checked_sub, wrap_i64,
}
use pvlog.Storage.Segment.{
  SegmentPoint, Envelope, Libraries, LibraryLaws, ArchivedSegmentBytes, overflow,
}
use pvlog.Storage.Segment.Column.{column, column_loop, expand, set_bit}
use pvlog.Storage.Segment.Column.RoundTrip.{expand-column}
use pvlog.Storage.Segment.Encode
use pvlog.Storage.Segment.Encode.{encode_segment_v1}
use pvlog.Storage.Segment.Decode.{decode_segment_v1}
use pvlog.Storage.Segment.RoundTrip.{decode-encode, columns_fit}
use pvlog.Storage.Segment.Archive.{archive_round_trip}
use pvlog.Common.{◌↔◌, ◌⊎◌}
use pvlog.Storage.Segment.{ordering}
use pvlog.Storage.Segment.Totality.{IsAscending}
use pvlog.Storage.Segment.Errors.{encode-ordering}

abbrev first_byte : List ℕ → Option ℕ
first_byte [] = none
first_byte (b ∷ bs) = some b

abbrev keeping : Libraries
keeping = record {
  Bytes = Envelope;
  len = λ e. e.row_count;
  encode_to_vec = λ e. e;
  decode = λ e. some e;
  hash = λ e. e.row_count;
  compress = λ e. some e;
  decode_all = λ e. some e;
  as_bytes = λ u. u ∷ [];
  from_slice = first_byte;
}

keeping-LibraryLaws : LibraryLaws keeping
keeping-LibraryLaws = record {
  decode-encode_to_vec = λ e. refl;
  decode_all-compress = λ b c e. cc;
  from_slice-as_bytes = λ u. refl;
}

abbrev values : List (Option ℤ)
values = none ∷ some (pos 5) ∷ some (pos 3) ∷ []

-- -2^63 and then 2^63 - 1: the difference is no i64.
abbrev far_values : List (Option ℤ)
far_values = some (negsuc 9223372036854775807) ∷ some (pos 9223372036854775807) ∷ []

expand-column_example : expand (column values).0 (column values).1 3 ≡ ok values
unfolding ◌-ℤ◌
expand-column_example = expand-column values (omega arith)

expand-column_far : expand (column far_values).0 (column far_values).1 2 ≡ err overflow
unfolding ◌-ℤ◌
expand-column_far = expand-column far_values (omega arith)

abbrev morning : SegmentPoint
morning = record {
  timestamp_epoch_millis = pos 1000;
  generation_power_watts = some (pos 250);
  extended = (4, pos 7) ∷ (9, negsuc 2) ∷ [];
  source_kind = "api";
  source_reference = "a";
  received_at_epoch_millis = pos 1200;
  quality_flags = 0;
}

abbrev noon : SegmentPoint
noon = record morning {
  timestamp_epoch_millis = pos 2000;
  generation_power_watts = none;
  extended = (4, pos 8) ∷ [];
  received_at_epoch_millis = pos 2200;
}

archive_round_trip_example :
    (a : ArchivedSegmentBytes keeping) × (encode_segment_v1 keeping 77 (morning ∷ noon ∷ []) ≡ ok a)
    × (decode_segment_v1 keeping a ≡ ok (77, morning ∷ noon ∷ []))
archive_round_trip_example =
    archive_round_trip keeping (λ b. (b, refl)) keeping-LibraryLaws 77 (morning ∷ noon ∷ [])
      (λ e. cc) (omega arith) (omega arith) (omega arith)

-- Points whose generation column cannot be read back.
abbrev far_points : List SegmentPoint
far_points =
    record morning { generation_power_watts = some (negsuc 9223372036854775807) }
    ∷ record noon { generation_power_watts = some (pos 9223372036854775807) }
    ∷ []

abbrev far_artifact : ArchivedSegmentBytes keeping
unfolding Encode.envelope column column_loop Encode.generation_columns Encode.extended_column
    Encode.channel_ids Encode.dedup Encode.sort_channels Encode.insert_sorted Encode.flat_map_keys
    set_bit wrap_i64 ◌-ℤ◌
far_artifact =
    let e =
      Encode.envelope keeping 77
        (record morning { generation_power_watts = some (negsuc 9223372036854775807) })
        (record noon { generation_power_watts = some (pos 9223372036854775807) } ∷ []) 2
        (pos 1000 ∷ []) (pos 2001)
        (record { source_kind = "api"; source_reference = "a"; received_delta = pos 200 } ∷ [])
        (0 ∷ 0 ∷ []) in
    record {
      schema_version = 1;
      row_count = 2;
      uncompressed_length = 2;
      compressed_length = 2;
      content_hash = 2;
      compressed_bytes = e;
    }

far_artifact_lem : encode_segment_v1 keeping 77 far_points ≡ ok far_artifact
unfolding encode_segment_v1 Encode.seal Encode.envelope Encode.unordered
    Encode.timestamp_deltas_from Encode.provenance_loop Encode.intern Encode.position
    Encode.provenance_eq Encode.last_timestamp checked_add checked_sub ◌-ℤ◌ ◌+ℤ◌ far_artifact
far_artifact_lem = refl

decode-encode_example : decode_segment_v1 keeping far_artifact ≡ err overflow
unfolding columns_fit ◌-ℤ◌
decode-encode_example =
    decode-encode keeping keeping-LibraryLaws 77 far_points far_artifact (omega arith)
      far_artifact_lem

encode-ordering_example :
    (encode_segment_v1 keeping 77 (noon ∷ morning ∷ []) ≡ err ordering)
    ↔ (((noon ∷ morning ∷ []) ≡ []) ⊎ (¬ IsAscending (noon ∷ morning ∷ [])))
encode-ordering_example = encode-ordering keeping 77 (noon ∷ morning ∷ [])
