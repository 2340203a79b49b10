-- ===== src/Storage/Segment/RoundTrip/Provenances.antt =====
-- The shared table of provenances: an index that encoding gave out still names the same entry when
-- the whole table is known.
use text.Mathlib.TextEquality.{eq_iff}
use pvlog.Common.{
  ℕ, zero, suc, ◌≡◌, refl, ap, ◌∙◌, sym, true, List, [], ◌∷◌, ◌++◌, map, some, arith, inl, inr,
  ◌==ℤ◌, length, get_elem?, get_elem?-append_length, All, ℤ, InI64, Result, ok, Bool-cases,
  Option-cases, >>=-eq-ok, ok_or-eq-ok, checked_sub, checked_add-checked_sub,
}
use mathlib.Core.List.{append_assoc, append-nil}
use pvlog.Storage.Segment.{SegmentPoint, SegmentCodecError, overflow, Provenance}
use pvlog.Storage.Segment.Encode.{provenance_eq, position, intern, provenance_loop, to_u32}
use pvlog.Storage.Segment.Decode.{build_points}

eq_of_==ℤ : (a b : ℤ) → (a ==ℤ b) ≡ true → a ≡ b
eq_of_==ℤ a b h = ground arith

provenance_eq→eq : (a b : Provenance) → provenance_eq a b ≡ true → a ≡ b
unfolding provenance_eq
provenance_eq→eq a b h = ground (
  arith,
  eq_iff a.source_kind b.source_kind,
  eq_iff a.source_reference b.source_reference,
  eq_of_==ℤ a.received_delta b.received_delta,
)

get_elem?-position :
    (entry : Provenance) (table : List Provenance) (i : ℕ)
    → position entry table ≡ some i
    → get_elem? table i ≡ some entry
unfolding position
get_elem?-position entry [] i e = cc
get_elem?-position entry (c ∷ table) i e = elim (Bool-cases (provenance_eq c entry)) [
  | inl same ↦ ground (arith, provenance_eq→eq c entry)
  | inr other ↦ elim (Option-cases (position entry table)) [
    | inl missing ↦ ground arith
    | inr (j, found) ↦ ground (arith, get_elem?-position entry table j found)
  ]
]

get_elem?-append {ℓ} :
    {A : Type ℓ} (xs ys : List A) (i : ℕ) {a : A}
    → get_elem? xs i ≡ some a
    → get_elem? (xs ++ ys) i ≡ some a
get_elem?-append [] ys i e = cc
get_elem?-append (x ∷ xs) ys zero e = e
get_elem?-append (x ∷ xs) ys (suc i) e = get_elem?-append xs ys i e

-- The entry stands in the new table at the index that it gets, and the table only grows.
intern_lem :
    (entry : Provenance) (table : List Provenance)
    → (more : List Provenance) × ((intern entry table).1 ≡ table ++ more)
      × (get_elem? (intern entry table).1 (intern entry table).0 ≡ some entry)
unfolding intern
intern_lem entry table = elim (Option-cases (position entry table)) [
  | inl new ↦
      (entry ∷ [], rw (new, intern), rw (new, intern) (get_elem?-append_length table [] entry))
  | inr (i, old) ↦ (
    [],
    rw (old, intern) (sym (append-nil table)),
    rw (old, intern) (get_elem?-position entry table i old),
  )
]

abbrev pub ReceivedInI64 : SegmentPoint → Type 0
ReceivedInI64 p = InI64 p.received_at_epoch_millis

-- The points that are built from their own columns, a table and the indices into it.
abbrev pub rebuilt :
    List Provenance → List SegmentPoint → List ℕ → Result SegmentCodecError (List SegmentPoint)
rebuilt table points indices =
    build_points table (map (λ p. p.timestamp_epoch_millis) points)
      (map (λ p. p.generation_power_watts) points) (map (λ p. p.extended) points) indices
      (map (λ p. p.quality_flags) points)

abbrev entry_of : SegmentPoint → ℤ → Provenance
entry_of p d = record {
  source_kind = p.source_kind;
  source_reference = p.source_reference;
  received_delta = d;
}

rebuilt_step :
    (p : SegmentPoint) (points : List SegmentPoint) (table : List Provenance) (i : ℕ) (new : List ℕ)
    (d : ℤ)
    → InI64 p.received_at_epoch_millis
    → checked_sub p.received_at_epoch_millis p.timestamp_epoch_millis ≡ some d
    → get_elem? table i ≡ some (entry_of p d)
    → rebuilt table points new ≡ ok points
    → rebuilt table (p ∷ points) (i ∷ new) ≡ ok (p ∷ points)
unfolding build_points
rebuilt_step p points table i new d h ed found rest =
    ground (arith, checked_add-checked_sub p.received_at_epoch_millis p.timestamp_epoch_millis h ed)

-- What the loop adds to the table and to the indices, and what is built from these.
record Adds (points : List SegmentPoint) (table table' : List Provenance)
    (indices indices' : List ℕ) : Type 0 where
  more : List Provenance
  new : List ℕ
  grows : table' ≡ table ++ more
  indexed : indices' ≡ indices ++ new
  counted : length new ≡ length points
  built : rebuilt table' points new ≡ ok points

Adds-step :
    (p : SegmentPoint) (points : List SegmentPoint) (table middle table' : List Provenance)
    (indices indices' : List ℕ) (d : ℤ) (i j : ℕ)
    → InI64 p.received_at_epoch_millis
    → checked_sub p.received_at_epoch_millis p.timestamp_epoch_millis ≡ some d
    → to_u32 j ≡ ok i
    → (grown : List Provenance) → middle ≡ table ++ grown
    → get_elem? middle j ≡ some (entry_of p d)
    → Adds points middle table' (indices ++ (i ∷ [])) indices'
    → Adds (p ∷ points) table table' indices indices'
Adds-step p points table middle table' indices indices' d i j h ed ei grown eg found a = record {
  more = grown ++ a.more;
  new = i ∷ a.new;
  grows = a.grows ∙ rw (eg, append_assoc);
  indexed = a.indexed ∙ append_assoc indices (i ∷ []) a.new;
  counted = ap suc a.counted;
  built =
      rebuilt_step p points table' i a.new d h ed
        (rw a.grows (get_elem?-append middle a.more i (ground arith))) a.built;
}

provenance_loop-Adds :
    (points : List SegmentPoint) (table : List Provenance) (indices : List ℕ)
    {table' : List Provenance} {indices' : List ℕ}
    → All ReceivedInI64 points
    → provenance_loop points table indices ≡ ok (table', indices')
    → Adds points table table' indices indices'
unfolding provenance_loop
provenance_loop-Adds [] table indices {table'} {indices'} h e = record {
  more = [];
  new = [];
  grows = ground (arith, append-nil table);
  indexed = ground (arith, append-nil indices);
  counted = refl;
  built = unfold build_points in refl;
}
provenance_loop-Adds (p ∷ points) table indices {table'} {indices'} h e =
    let (d, ed, e1) =
      ok_or-eq-ok (checked_sub p.received_at_epoch_millis p.timestamp_epoch_millis) overflow _ e in
    let (i, ei, e2) = >>=-eq-ok (to_u32 (intern (entry_of p d) table).0) _ e1 in
    let (grown, eg, found) = intern_lem (entry_of p d) table in
    Adds-step p points table _ table' indices indices' d i _ h.0 ed ei grown eg found (
      provenance_loop-Adds points _ (indices ++ (i ∷ [])) {table' = table'} {indices' = indices'}
        h.1 e2)

-- From the table and the indices of the loop the points are built again.
pub build_points-provenance_loop :
    (points : List SegmentPoint) {table : List Provenance} {indices : List ℕ}
    → All ReceivedInI64 points
    → provenance_loop points [] [] ≡ ok (table, indices)
    → (length indices ≡ length points) × (rebuilt table points indices ≡ ok points)
build_points-provenance_loop points {table} {indices} h e =
    let a = provenance_loop-Adds points [] [] {table' = table} {indices' = indices} h e in
    (rw a.indexed a.counted, rw a.indexed a.built)
