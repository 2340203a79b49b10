-- ===== src/Application/Series/Order.antt =====
-- Series sorted by their fields.
use pvlog.Common.{
  ℕ, ◌<◌, ◌≡◌, ◌≢◌, inl, inr, ◌↔◌, List, [], ◌∷◌, ltb, All, Any, All-map, Bool-cases, arith,
}
use pvlog.Application.Planner.{SeriesField}
use pvlog.Application.Series.{PlannedSeries, field_index, insert_by_field, sort_by_field}

-- The series stand in the order of their fields, each once.
abbrev pub IsInOrder : List PlannedSeries → Type 0
IsInOrder [] = Unit {0}
IsInOrder (item ∷ series) =
    All (λ i. field_index item.field < field_index i.field) series × IsInOrder series

abbrev pub Shows : SeriesField → List PlannedSeries → Type 0
Shows f = Any (λ i. i.field ≡ f)

abbrev pub Apart : ℕ → List PlannedSeries → Type 0
Apart n = All (λ i. field_index i.field ≢ n)

abbrev pub Distinct : List PlannedSeries → Type 0
Distinct [] = Unit {0}
Distinct (item ∷ series) = Apart (field_index item.field) series × Distinct series

insert_by_field-All :
    (P : PlannedSeries → Type 0) (item : PlannedSeries) (series : List PlannedSeries)
    → P item
    → All P series
    → All P (insert_by_field item series)
unfolding insert_by_field
insert_by_field-All P item [] p h = (p, tt)
insert_by_field-All P item (other ∷ series) p h =
    elim (Bool-cases (ltb (field_index other.field) (field_index item.field))) [
      | inl after ↦ rw after (h.0, insert_by_field-All P item series p h.1)
      | inr before ↦ rw before (p, h)
    ]

insert_by_field-IsInOrder :
    (item : PlannedSeries) (series : List PlannedSeries)
    → Apart (field_index item.field) series
    → IsInOrder series
    → IsInOrder (insert_by_field item series)
unfolding insert_by_field
insert_by_field-IsInOrder item [] a h = (tt, tt)
insert_by_field-IsInOrder item (other ∷ series) a h =
    elim (Bool-cases (ltb (field_index other.field) (field_index item.field))) [
      | inl after ↦ rw after (
        insert_by_field-All (λ i. field_index other.field < field_index i.field) item series
            (ground arith) h.0,
        insert_by_field-IsInOrder item series a.1 h.1,
      )
      | inr before ↦
          let least : field_index item.field < field_index other.field = ground (arith, a.0) in
          rw before ((least, All-map (λ i k. omega arith) series h.0), h)
    ]

pub sort_by_field-All :
    (P : PlannedSeries → Type 0) (series : List PlannedSeries)
    → All P series
    → All P (sort_by_field series)
unfolding sort_by_field
sort_by_field-All P [] h = tt
sort_by_field-All P (item ∷ series) h =
    insert_by_field-All P item _ h.0 (sort_by_field-All P series h.1)

pub sort_by_field-IsInOrder :
    (series : List PlannedSeries) → Distinct series → IsInOrder (sort_by_field series)
unfolding sort_by_field
sort_by_field-IsInOrder [] h = tt
sort_by_field-IsInOrder (item ∷ series) h =
    insert_by_field-IsInOrder item _ (sort_by_field-All _ series h.0)
      (sort_by_field-IsInOrder series h.1)

insert_by_field-Shows :
    (f : SeriesField) (item : PlannedSeries) (series : List PlannedSeries)
    → Shows f (insert_by_field item series) ↔ Shows f (item ∷ series)
unfolding insert_by_field
insert_by_field-Shows f item [] = ((λ h. h), (λ h. h))
insert_by_field-Shows f item (other ∷ series) =
    let (there, back) = insert_by_field-Shows f item series in
    elim (Bool-cases (ltb (field_index other.field) (field_index item.field))) [
      | inl after ↦ rw after (
        (λ h. elim h [
          | inl o ↦ inr (inl o)
          | inr r ↦ elim (there r) [ inl i ↦ inl i | inr s ↦ inr (inr s) ]
        ]),
        (λ h. elim h [
          | inl i ↦ inr (back (inl i))
          | inr r ↦ elim r [ inl o ↦ inl o | inr s ↦ inr (back (inr s)) ]
        ]),
      )
      | inr before ↦ rw before ((λ h. h), (λ h. h))
    ]

pub sort_by_field-Shows :
    (f : SeriesField) (series : List PlannedSeries)
    → Shows f (sort_by_field series) ↔ Shows f series
unfolding sort_by_field
sort_by_field-Shows f [] = ((λ h. h), (λ h. h))
sort_by_field-Shows f (item ∷ series) =
    let (there, back) = sort_by_field-Shows f series in
    let (off, on) = insert_by_field-Shows f item (sort_by_field series) in
    (
      (λ h. elim (off h) [ inl i ↦ inl i | inr s ↦ inr (there s) ]),
      (λ h. on (elim h [ inl i ↦ inl i | inr s ↦ inr (back s) ])),
    )
