-- ===== src/Storage/Segment.antt =====
-- src/crates/storage/src/segment_codec.rs: the archived telemetry segment, version 1. The types of
-- the file, and what it takes from the crates prost, zstd, blake3 and uuid, as a record of
-- operations and the laws that they document. A UUID is its 128-bit number, a byte a number.
pub mod Column
pub mod Encode
pub mod Decode
pub mod RoundTrip
pub mod Totality
pub mod Archive
pub mod Errors
mod Samples
use Prim.Native.String.{String}
use pvlog.Common.{ℕ, ◌≡◌, List, Option, some, ℤ}

pub data SegmentCodecError : Type 0 where
  ordering size overflow compression protobuf integrity : SegmentCodecError

-- `extended` is a BTreeMap: pairs of a channel and a value, in the order of the channels.
pub record SegmentPoint : Type 0 where
  pub timestamp_epoch_millis : ℤ
  pub generation_power_watts : Option ℤ
  pub extended : List (ℕ × ℤ)
  pub source_kind : String
  pub source_reference : String
  pub received_at_epoch_millis : ℤ
  pub quality_flags : ℕ

pub record IntegerColumn : Type 0 where
  pub field : ℕ
  pub presence : List ℕ
  pub scale : ℕ
  pub deltas : List ℤ

pub record ExtendedColumn : Type 0 where
  pub channel_id : List ℕ
  pub value_type : ℕ
  pub presence : List ℕ
  pub scale : ℕ
  pub deltas : List ℤ
  pub booleans : List ℕ

pub record Provenance : Type 0 where
  pub source_kind : String
  pub source_reference : String
  pub received_delta : ℤ

pub record Envelope : Type 0 where
  pub schema_version : ℕ
  pub system_id_uuid : List ℕ
  pub range_start : ℤ
  pub range_end : ℤ
  pub row_count : ℕ
  pub base_timestamp : ℤ
  pub timestamp_deltas : List ℤ
  pub columns : List IntegerColumn
  pub extended : List ExtendedColumn
  pub provenance : List Provenance
  pub provenance_index : List ℕ
  pub quality_flags : List ℕ

-- `Bytes` is a byte vector of which the code only takes the length.
pub record Libraries : Type 1 where
  pub Bytes : Type 0
  pub len : Bytes → ℕ
  pub encode_to_vec : Envelope → Bytes
  pub decode : Bytes → Option Envelope
  pub hash : Bytes → ℕ
  pub compress : Bytes → Option Bytes
  pub decode_all : Bytes → Option Bytes
  pub as_bytes : ℕ → List ℕ
  pub from_slice : List ℕ → Option ℕ

-- Each pair of the libraries' functions reads back what it wrote.
pub record LibraryLaws (lib : Libraries) : Type 0 where
  pub decode-encode_to_vec : (e : Envelope) → lib.decode (lib.encode_to_vec e) ≡ some e
  pub decode_all-compress : (b c : lib.Bytes) → lib.compress b ≡ some c → lib.decode_all c ≡ some b
  pub from_slice-as_bytes : (u : ℕ) → lib.from_slice (lib.as_bytes u) ≡ some u

pub record ArchivedSegmentBytes (lib : Libraries) : Type 0 where
  pub schema_version : ℕ
  pub row_count : ℕ
  pub uncompressed_length : ℕ
  pub compressed_length : ℕ
  pub content_hash : ℕ
  pub compressed_bytes : lib.Bytes
