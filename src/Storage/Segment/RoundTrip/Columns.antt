-- ===== src/Storage/Segment/RoundTrip/Columns.antt =====
-- The timestamps and the generation column of a decoded segment.
use pvlog.Common.{
  ℕ, zero, suc, ◌≡◌, refl, true, false, List, [], ◌∷◌, map, Option, none, some, arith, inl, inr,
  ◌/◌, ◌%◌, get_or, ◌==◌, if◌then◌else◌, length, all, replicate, All, ℤ, pos, InI64, checked_sub,
  checked_add-checked_sub, ok, err, >>=-eq-ok, ok_or-eq-ok, Bool-cases,
}
use pvlog.Storage.Segment.{SegmentPoint, overflow}
use pvlog.Storage.Segment.Column.{column, has_bit}
use pvlog.Storage.Segment.Column.Bits.{byte_bit-zero}
use pvlog.Storage.Segment.Column.RoundTrip.{
  OptionInI64, steps_fit, Marks, column-Marks, expand-column,
}
use pvlog.Storage.Segment.Encode.{timestamp_deltas_from, generation_columns}
use pvlog.Storage.Segment.Decode.{timestamps_from, find_generation, generation}

abbrev pub timestamps : List SegmentPoint → List ℤ
timestamps points = map (λ p. p.timestamp_epoch_millis) points

abbrev pub TimestampInI64 : SegmentPoint → Type 0
TimestampInI64 p = InI64 p.timestamp_epoch_millis

pub timestamps_from-deltas :
    (previous : ℤ) (points : List SegmentPoint) {deltas : List ℤ}
    → All TimestampInI64 points
    → timestamp_deltas_from previous points ≡ ok deltas
    → (timestamps_from previous deltas ≡ ok (timestamps points)) × (length deltas ≡ length points)
unfolding timestamp_deltas_from timestamps_from
timestamps_from-deltas previous [] h e = ground arith
timestamps_from-deltas previous (p ∷ points) {deltas} h e =
    let (d, ed, e1) = ok_or-eq-ok (checked_sub p.timestamp_epoch_millis previous) overflow _ e in
    let (rest, er, e2) = >>=-eq-ok (timestamp_deltas_from p.timestamp_epoch_millis points) _ e1 in
    let ih = timestamps_from-deltas p.timestamp_epoch_millis points {deltas = rest} h.1 er in
    ground (arith, checked_add-checked_sub p.timestamp_epoch_millis previous h.0 ed, ih)

all_zero_bit : (p : List ℕ) (i : ℕ) → all (λ byte. byte == 0) p ≡ true → get_or p i 0 ≡ 0
all_zero_bit [] i h = refl
all_zero_bit (b ∷ p) zero h = ground arith
all_zero_bit (b ∷ p) (suc i) h = all_zero_bit p i (ground arith)

has_bit-all_zero : (p : List ℕ) (i : ℕ) → all (λ byte. byte == 0) p ≡ true → has_bit p i ≡ false
unfolding has_bit
has_bit-all_zero p i h = rw (all_zero_bit p (i / 8) h) (byte_bit-zero (i % 8) (omega arith))

-- A column whose presence bytes are all zero has no value.
absent_of_zero :
    (vs : List (Option ℤ)) (i : ℕ) (p : List ℕ)
    → all (λ byte. byte == 0) p ≡ true
    → Marks p i vs
    → (vs ≡ replicate (length vs) none) × (steps_fit (pos 0) vs ≡ true)
absent_of_zero [] i p z m = (refl, refl)
absent_of_zero (none ∷ vs) i p z m = ground (arith, absent_of_zero vs (suc i) p z m.1)
absent_of_zero (some v ∷ vs) i p z m = cc (m.0, has_bit-all_zero p i z)

-- Leaving out the column that has no value loses nothing.
pub generation-columns :
    (vs : List (Option ℤ))
    → All OptionInI64 vs
    → generation (generation_columns (column vs)) (length vs)
      ≡ (if steps_fit (pos 0) vs then ok vs else err overflow)
unfolding generation find_generation generation_columns
generation-columns vs h = elim (Bool-cases (all (λ byte. byte == 0) (column vs).0)) [
  | inl zeros ↦
      let absent = absent_of_zero vs 0 _ zeros (column-Marks vs) in
      rw (zeros, absent.1) (ground (arith, absent.0))
  | inr more ↦ rw more (expand-column vs h)
]
