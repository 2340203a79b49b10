-- ===== src/Storage/Segment/Column.antt =====
-- `column` and `expand` of src/crates/storage/src/segment_codec.rs: a column of optional i64 values
-- as a bit for each row and the differences of the values that are there. A byte is a number below
-- 256. The subtraction of `column` is unchecked in the source, so it wraps as in a release build.
pub mod Bits
pub mod RoundTrip
use pvlog.Storage.Segment.{SegmentCodecError, overflow, integrity}
use pvlog.Common.{
  ℕ, zero, suc, ◌+◌, ◌/◌, ◌%◌, ◌^◌, Bool, true, false, not, List, [], ◌∷◌, ◌++◌, Option, none, some,
  bit_and, bit_or, ◌==◌, length, get_elem?, get_or, set, replicate, ℤ, pos, ◌-ℤ◌, checked_add,
  wrap_i64, Result, ok, err, ◌>>=◌, ◌>>◌, ok_or, fail_if,
}

-- `n.div_ceil(8)`.
abbrev pub div_ceil_8 : ℕ → ℕ
div_ceil_8 n = (n + 7) / 8

-- `presence[index / 8] & (1 << (index % 8)) != 0`.
unfoldable pub has_bit : List ℕ → ℕ → Bool
has_bit presence index = not (bit_and (get_or presence (index / 8) 0) (2 ^ (index % 8)) == 0)

-- `presence[index / 8] |= 1 << (index % 8)`.
unfoldable pub set_bit : List ℕ → ℕ → List ℕ
set_bit presence index =
    set presence (index / 8) (bit_or (get_or presence (index / 8) 0) (2 ^ (index % 8)))

unfoldable pub column_loop : ℕ → List ℕ → List ℤ → ℤ → List (Option ℤ) → List ℕ × List ℤ
column_loop index presence deltas previous [] = (presence, deltas)
column_loop index presence deltas previous (none ∷ values) =
    column_loop (suc index) presence deltas previous values
column_loop index presence deltas previous (some value ∷ values) =
    column_loop (suc index) (set_bit presence index) (deltas ++ (wrap_i64 (value -ℤ previous) ∷ []))
      value values

unfoldable pub column : List (Option ℤ) → List ℕ × List ℤ
column values = column_loop 0 (replicate (div_ceil_8 (length values)) 0) [] (pos 0) values

-- The first argument is the rounds that are left.
unfoldable pub expand_loop :
    ℕ
    → ℕ
    → List ℕ
    → List ℤ
    → ℕ
    → ℤ
    → List (Option ℤ)
    → Result SegmentCodecError (List (Option ℤ) × ℕ)
expand_loop zero index presence deltas delta_index previous values = ok (values, delta_index)
expand_loop (suc rounds) index presence deltas delta_index previous values =
    elim (has_bit presence index) [
      | false ↦
          expand_loop rounds (suc index) presence deltas delta_index previous
            (values ++ (none ∷ []))
      | true ↦ do
        delta ← ok_or (get_elem? deltas delta_index) integrity
        next ← ok_or (checked_add previous delta) overflow
        expand_loop rounds (suc index) presence deltas (suc delta_index) next
            (values ++ (some next ∷ []))
    ]

unfoldable pub expand : List ℕ → List ℤ → ℕ → Result SegmentCodecError (List (Option ℤ))
expand presence deltas count = do
  fail_if (not (length presence == div_ceil_8 count)) integrity
  (values, delta_index) ← expand_loop count 0 presence deltas 0 (pos 0) []
  fail_if (not (delta_index == length deltas)) integrity
  ok values
