-- ===== src/Storage/Segment/RoundTrip/Rows.antt =====
-- The extended channels: the rows that decoding collects, column after column, are the points' maps.
use pvlog.Common.{
  ℕ, ◌≡◌, refl, ap, ◌∙◌, Bool, true, ◌||◌, List, [], ◌∷◌, ◌++◌, map, Option, none, some, arith,
  ◌==◌, if◌then◌else◌, length, length-map, all, replicate, All, All-map, ℤ, pos, ok, err, contains,
  keys, lookup, insert, IsSorted, lookup-insert, insert-IsSorted, lookup-eq-none, IsSorted-ext,
}
use pvlog.Storage.Segment.{SegmentPoint, overflow, Libraries, LibraryLaws}
use pvlog.Storage.Segment.Column.RoundTrip.{OptionInI64, steps_fit, expand-column}
use pvlog.Storage.Segment.Encode.{
  insert_sorted, sort_channels, dedup, flat_map_keys, channel_ids, channel_values, extended_column,
}
use pvlog.Storage.Segment.Decode.{insert_values, extended_rows}

abbrev pub channels_of : SegmentPoint → List (ℕ × ℤ)
channels_of p = p.extended

-- Sorting and removing repetitions keeps the members.
contains-insert_sorted :
    (k j : ℕ) (js : List ℕ) → contains k (insert_sorted j js) ≡ ((k == j) || contains k js)
unfolding insert_sorted
contains-insert_sorted k j [] = refl
contains-insert_sorted k j (i ∷ js) = ground (arith, contains-insert_sorted k j js)

contains-sort : (k : ℕ) (js : List ℕ) → contains k (sort_channels js) ≡ contains k js
unfolding sort_channels
contains-sort k [] = refl
contains-sort k (j ∷ js) =
    contains-insert_sorted k j (sort_channels js) ∙ ap (λ b. (k == j) || b) (contains-sort k js)

contains-dedup : (k : ℕ) (js : List ℕ) → contains k (dedup js) ≡ contains k js
unfolding dedup
contains-dedup k [] = refl
contains-dedup k (j ∷ []) = refl
contains-dedup k (j ∷ i ∷ js) = ground (arith, contains-dedup k (i ∷ js))

contains-append :
    (k : ℕ) (is js : List ℕ) → contains k (is ++ js) ≡ (contains k is || contains k js)
contains-append k [] js = refl
contains-append k (i ∷ is) js = ground (arith, contains-append k is js)

-- Each channel of each point has a column.
abbrev Covers : List ℕ → SegmentPoint → Type 0
Covers channels p = (k : ℕ) → contains k (keys p.extended) ≡ true → contains k channels ≡ true

flat_map_keys-Covers : (points : List SegmentPoint) → All (Covers (flat_map_keys points)) points
unfolding flat_map_keys
flat_map_keys-Covers [] = tt
flat_map_keys-Covers (p ∷ points) = (
  (λ k h. rw (contains-append k (keys p.extended) (flat_map_keys points), h)),
  All-map
      (λ q c k h.
        rw (contains-append k (keys p.extended) (flat_map_keys points), c k h) (ground arith))
      points (flat_map_keys-Covers points),
)

channel_ids-Covers : (points : List SegmentPoint) → All (Covers (channel_ids points)) points
unfolding channel_ids
channel_ids-Covers points =
    All-map (λ q c k h. contains-dedup k _ ∙ contains-sort k _ ∙ c k h) points
      (flat_map_keys-Covers points)

-- What the columns of the channels make of the row of one point.
abbrev put : ℕ → Option ℤ → List (ℕ × ℤ) → List (ℕ × ℤ)
put channel none row = row
put channel (some v) row = insert channel v row

row_after : List ℕ → SegmentPoint → List (ℕ × ℤ) → List (ℕ × ℤ)
row_after [] p row = row
row_after (c ∷ channels) p row = row_after channels p (put c (lookup c p.extended) row)

rows_after : List ℕ → List SegmentPoint → List (List (ℕ × ℤ)) → List (List (ℕ × ℤ))
rows_after channels [] rows = rows
rows_after channels (p ∷ points) [] = []
rows_after channels (p ∷ points) (row ∷ rows) =
    row_after channels p row ∷ rows_after channels points rows

rows_after-nil :
    (points : List SegmentPoint) (rows : List (List (ℕ × ℤ))) → rows_after [] points rows ≡ rows
unfolding rows_after row_after
rows_after-nil [] rows = refl
rows_after-nil (p ∷ points) [] = refl
rows_after-nil (p ∷ points) (row ∷ rows) = ap (◌∷◌ row) (rows_after-nil points rows)

rows_after-insert_values :
    (c : ℕ) (channels : List ℕ) (points : List SegmentPoint) (rows : List (List (ℕ × ℤ)))
    → rows_after channels points (insert_values c (channel_values c points) rows)
      ≡ rows_after (c ∷ channels) points rows
unfolding rows_after row_after insert_values
rows_after-insert_values c channels [] rows = refl
rows_after-insert_values c channels (p ∷ points) [] = refl
rows_after-insert_values c channels (p ∷ points) (row ∷ rows) =
    ground (arith, rows_after-insert_values c channels points rows)

lookup-put :
    (k c : ℕ) (v : Option ℤ) (row : List (ℕ × ℤ))
    → lookup k (put c v row)
      ≡ (if k == c then (elim v [ none ↦ lookup k row | some x ↦ some x ]) else lookup k row)
lookup-put k c none row = ground arith
lookup-put k c (some v) row = lookup-insert k c v row

lookup-row_after :
    (k : ℕ) (channels : List ℕ) (p : SegmentPoint) (row : List (ℕ × ℤ))
    → lookup k (row_after channels p row) ≡ (
        if contains k channels
        then (elim (lookup k p.extended) [ none ↦ lookup k row | some x ↦ some x ])
        else lookup k row)
unfolding row_after
lookup-row_after k [] p row = refl
lookup-row_after k (c ∷ channels) p row = ground (
  arith,
  lookup-row_after k channels p (put c (lookup c p.extended) row),
  lookup-put k c (lookup c p.extended) row,
)

put-IsSorted : (c : ℕ) (v : Option ℤ) (row : List (ℕ × ℤ)) → IsSorted row → IsSorted (put c v row)
put-IsSorted c none row s = s
put-IsSorted c (some v) row s = insert-IsSorted c v row s

row_after-IsSorted :
    (channels : List ℕ) (p : SegmentPoint) (row : List (ℕ × ℤ))
    → IsSorted row
    → IsSorted (row_after channels p row)
unfolding row_after
row_after-IsSorted [] p row s = s
row_after-IsSorted (c ∷ channels) p row s =
    row_after-IsSorted channels p _ (put-IsSorted c (lookup c p.extended) row s)

row_after-Covers :
    (channels : List ℕ) (p : SegmentPoint)
    → IsSorted p.extended
    → Covers channels p
    → row_after channels p [] ≡ p.extended
row_after-Covers channels p s covers =
    IsSorted-ext (row_after channels p []) p.extended (row_after-IsSorted channels p [] tt) s
      λ k. ground (arith, lookup-row_after k channels p [], covers k, lookup-eq-none k p.extended)

rows_after-Covers :
    (channels : List ℕ) (points : List SegmentPoint)
    → All (λ p. IsSorted p.extended) points
    → All (Covers channels) points
    → rows_after channels points (replicate (length points) []) ≡ map channels_of points
unfolding rows_after
rows_after-Covers channels [] s covers = refl
rows_after-Covers channels (p ∷ points) s covers =
    rw (row_after-Covers channels p s.0 covers.0, rows_after-Covers channels points s.1 covers.1)

abbrev pub channels_fit : List ℕ → List SegmentPoint → Bool
channels_fit channels points = all (λ c. steps_fit (pos 0) (channel_values c points)) channels

module _ (lib : Libraries) (laws : LibraryLaws lib) (points : List SegmentPoint)
    (typed : (c : ℕ) → All OptionInI64 (channel_values c points)) where
  extended_rows-after :
      (channels : List ℕ) (rows : List (List (ℕ × ℤ)))
      → extended_rows lib (map (extended_column lib points) channels) (length points) rows ≡ (
          if channels_fit channels points
          then ok (rows_after channels points rows)
          else err overflow)
  unfolding extended_rows extended_column
  extended_rows-after [] rows = rw (rows_after-nil points rows)
  extended_rows-after (c ∷ channels) rows = ground (
    arith,
    laws.from_slice-as_bytes c,
    length-map points (λ (p : SegmentPoint). lookup c p.extended),
    expand-column (channel_values c points) (typed c),
    extended_rows-after channels (insert_values c (channel_values c points) rows),
    rows_after-insert_values c channels points rows,
  )

  -- The columns of the extended channels give back each point's map, if every column's differences
  -- are i64s.
  pub extended_rows-channel_ids :
      All (λ p. IsSorted p.extended) points
      → extended_rows lib
          (map (extended_column lib points) (channel_ids points))
          (length points)
          (replicate (length points) [])
        ≡ (if channels_fit (channel_ids points) points
            then ok (map channels_of points)
            else err overflow)
  extended_rows-channel_ids sorted = rw (
    extended_rows-after (channel_ids points) (replicate (length points) []),
    rows_after-Covers (channel_ids points) points sorted (channel_ids-Covers points),
  )
