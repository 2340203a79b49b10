-- ===== src/Storage/Segment/Totality.antt =====
-- When encoding succeeds.
use pvlog.Common.{
  ℕ, ◌+◌, ◌^◌, ◌≤◌, ◌<◌, ◌≡◌, refl, true, false, List, [], ◌∷◌, ◌++◌, Option, none, some, arith,
  inl, inr, lt→ltb, length, length-append, all, All, ℤ, pos, ◌-ℤ◌, ◌<ℤ◌, abs, InI64→in_i64,
  int_laws, one_part, lookup, IsSorted, checked_sub, ok, Option-cases,
}
use pvlog.Storage.Segment.{SegmentPoint, Provenance}
use pvlog.Storage.Segment.Column.RoundTrip.{OptionInI64, steps_fit}
use pvlog.Storage.Segment.Encode.{
  unordered, timestamp_deltas_from, position, intern, provenance_loop, last_timestamp, channel_ids,
  channel_values, generation_values,
}
use pvlog.Storage.Segment.RoundTrip.{IsTyped, ValuesInI64, columns_fit}

-- Less than 2^62 from zero, so that a difference of two is an i64.
abbrev pub IsModest : ℤ → Type 0
IsModest a = abs a < 2 ^ 62

abbrev pub AllModest : List (ℕ × ℤ) → Type 0
AllModest [] = Unit {0}
AllModest ((k, v) ∷ m) = IsModest v × AllModest m

abbrev pub OptionIsModest : Option ℤ → Type 0
OptionIsModest none = Unit {0}
OptionIsModest (some v) = IsModest v

-- A point whose numbers are all modest, with its map in order.
abbrev pub PointIsModest : SegmentPoint → Type 0
PointIsModest p =
    IsModest p.timestamp_epoch_millis
    × IsModest p.received_at_epoch_millis
    × OptionIsModest p.generation_power_watts
    × IsSorted p.extended
    × AllModest p.extended

-- The timestamps rise strictly.
abbrev pub IsAscending : List SegmentPoint → Type 0
IsAscending [] = Unit {0}
IsAscending (p ∷ []) = Unit {0}
IsAscending (p ∷ q ∷ points) =
    (p.timestamp_epoch_millis <ℤ q.timestamp_epoch_millis) × IsAscending (q ∷ points)

pub unordered-IsAscending :
    (points : List SegmentPoint) → IsAscending points → unordered points ≡ false
unfolding unordered
unordered-IsAscending [] h = refl
unordered-IsAscending (p ∷ []) h = refl
unordered-IsAscending (p ∷ q ∷ points) h = ground (arith, unordered-IsAscending (q ∷ points) h.1)

checked_sub_modest : (a b : ℤ) → IsModest a → IsModest b → checked_sub a b ≡ some (a -ℤ b)
unfolding checked_sub
checked_sub_modest a b h k = rw (InI64→in_i64 (a -ℤ b) (omega (int_laws, one_part (a -ℤ b))))

pub timestamp_deltas_total :
    (previous : ℤ) (points : List SegmentPoint)
    → IsModest previous
    → All PointIsModest points
    → (ds : List ℤ) × (timestamp_deltas_from previous points ≡ ok ds)
unfolding timestamp_deltas_from
timestamp_deltas_total previous [] h k = ([], refl)
timestamp_deltas_total previous (p ∷ points) h k =
    let (ds, e) = timestamp_deltas_total p.timestamp_epoch_millis points k.0.0 k.1 in
    (
      (p.timestamp_epoch_millis -ℤ previous) ∷ ds,
      ground (arith, checked_sub_modest p.timestamp_epoch_millis previous k.0.0 h, e),
    )

position-lt-length :
    (entry : Provenance) (table : List Provenance) (i : ℕ)
    → position entry table ≡ some i
    → i < length table
unfolding position
position-lt-length entry [] i e = cc
position-lt-length entry (c ∷ table) i e = elim (Option-cases (position entry table)) [
  | inl missing ↦ ground arith
  | inr (j, found) ↦ ground (arith, position-lt-length entry table j found)
]

-- An index is at most the table's length, which grows by at most one.
intern_bounds :
    (entry : Provenance) (table : List Provenance)
    → ((intern entry table).0 ≤ length table) × (length (intern entry table).1 ≤ length table + 1)
unfolding intern
intern_bounds entry table = elim (Option-cases (position entry table)) [
  | inl new ↦ rw (new, intern) (omega (arith, length-append table (entry ∷ [])))
  | inr (i, old) ↦ rw (old, intern) (omega (arith, position-lt-length entry table i old))
]

pub provenance_loop_total :
    (points : List SegmentPoint) (table : List Provenance) (indices : List ℕ)
    → length table + length points < 2 ^ 32
    → All PointIsModest points
    → (t : List Provenance × List ℕ) × (provenance_loop points table indices ≡ ok t)
unfolding provenance_loop
provenance_loop_total [] table indices h k = ((table, indices), refl)
provenance_loop_total (p ∷ points) table indices h k =
    let entry : Provenance = record {
      source_kind = p.source_kind;
      source_reference = p.source_reference;
      received_delta = p.received_at_epoch_millis -ℤ p.timestamp_epoch_millis;
    } in
    let (small, grown) = intern_bounds entry table in
    let (t, e) =
      provenance_loop_total points (intern entry table).1 (indices ++ ((intern entry table).0 ∷ []))
        (omega arith) k.1 in
    (
      t,
      rw
          (
            checked_sub_modest p.received_at_epoch_millis p.timestamp_epoch_millis k.0.1 k.0.0,
            lt→ltb (intern entry table).0 (2 ^ 32) (omega arith),
          )
          e,
    )

pub last_timestamp-IsModest :
    (last : ℤ) (points : List SegmentPoint)
    → IsModest last
    → All PointIsModest points
    → IsModest (last_timestamp last points)
unfolding last_timestamp
last_timestamp-IsModest last [] h k = h
last_timestamp-IsModest last (p ∷ points) h k =
    last_timestamp-IsModest p.timestamp_epoch_millis points k.0.0 k.1

steps_fit_modest :
    (previous : ℤ) (vs : List (Option ℤ))
    → IsModest previous
    → All OptionIsModest vs
    → steps_fit previous vs ≡ true
steps_fit_modest previous [] h k = refl
steps_fit_modest previous (none ∷ vs) h k = steps_fit_modest previous vs h k.1
steps_fit_modest previous (some v ∷ vs) h k =
    rw (InI64→in_i64 (v -ℤ previous) (omega (int_laws, one_part (v -ℤ previous))))
      (steps_fit_modest v vs k.0 k.1)

lookup-IsModest : (k : ℕ) (m : List (ℕ × ℤ)) → AllModest m → OptionIsModest (lookup k m)
lookup-IsModest k [] h = tt
lookup-IsModest k ((j, v) ∷ m) h = ground (arith, lookup-IsModest k m h.1)

channel_values-IsModest :
    (c : ℕ) (points : List SegmentPoint)
    → All PointIsModest points
    → All OptionIsModest (channel_values c points)
channel_values-IsModest c [] h = tt
channel_values-IsModest c (p ∷ points) h =
    (lookup-IsModest c p.extended h.0.4, channel_values-IsModest c points h.1)

generation_values-IsModest :
    (points : List SegmentPoint)
    → All PointIsModest points
    → All OptionIsModest (generation_values points)
generation_values-IsModest [] h = tt
generation_values-IsModest (p ∷ points) h = (h.0.2, generation_values-IsModest points h.1)

all_channels_fit :
    (channels : List ℕ) (points : List SegmentPoint)
    → All PointIsModest points
    → all (λ c. steps_fit (pos 0) (channel_values c points)) channels ≡ true
all_channels_fit [] points h = refl
all_channels_fit (c ∷ channels) points h =
    rw
      (steps_fit_modest (pos 0) (channel_values c points) (omega arith)
        (channel_values-IsModest c points h))
      (all_channels_fit channels points h)

pub columns_fit_modest :
    (points : List SegmentPoint) → All PointIsModest points → columns_fit points ≡ true
unfolding columns_fit
columns_fit_modest points h =
    rw
      (steps_fit_modest (pos 0) (generation_values points) (omega arith)
        (generation_values-IsModest points h))
      (all_channels_fit (channel_ids points) points h)

ValuesInI64-modest : (m : List (ℕ × ℤ)) → AllModest m → ValuesInI64 m
ValuesInI64-modest [] h = tt
ValuesInI64-modest ((k, v) ∷ m) h = (omega arith, ValuesInI64-modest m h.1)

OptionInI64-modest : (v : Option ℤ) → OptionIsModest v → OptionInI64 v
OptionInI64-modest none h = tt
OptionInI64-modest (some v) h = omega arith

pub IsTyped-modest : (p : SegmentPoint) → PointIsModest p → IsTyped p
IsTyped-modest p h = (
  omega arith,
  omega arith,
  OptionInI64-modest p.generation_power_watts h.2,
  h.3,
  ValuesInI64-modest p.extended h.4,
)
