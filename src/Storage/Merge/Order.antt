-- ===== src/Storage/Merge/Order.antt =====
-- `merge_raw_observations`: what it returns, and in which order.
use pvlog.Common.{
  ℕ, ◌<◌, ◌≡◌, refl, sym, ap, ◌≢◌, ◌⊎◌, inl, inr, ◌↔◌, true, false, ◌||◌, ◌&&◌, List, [], ◌∷◌, some,
  ◌==◌, ltb, lookup, IsSorted, Above, lookup_not-Above, All, All-map, ok, arith, >>=-eq-ok,
  Bool-cases, ℤ, ltb_ℤ, ◌==ℤ◌,
}
use pvlog.Storage.Merge.{
  RawObservation, segment, hot, overlay, select_all, Selection, live_values, precedes,
  insert_by_key, sort_by_key, merge_raw_observations,
}
use pvlog.Storage.Merge.Best.{Best, Chosen, Mem, select_all-Chosen}

Mem-insert_by_key :
    (x c : RawObservation) (ds : List RawObservation)
    → Mem x (insert_by_key c ds) ↔ ((c ≡ x) ⊎ Mem x ds)
unfolding insert_by_key
Mem-insert_by_key x c [] = ((λ m. m), (λ m. m))
Mem-insert_by_key x c (d ∷ ds) = elim (Bool-cases (precedes d c)) [
  | inl t ↦
      let r = Mem-insert_by_key x c ds in
      rw t (
        (λ m. elim m [
          | inl h ↦ inr (inl h)
          | inr n ↦ elim (r.0 n) [ inl h ↦ inl h | inr k ↦ inr (inr k) ]
        ]),
        (λ m. elim m [
          | inl h ↦ inr (r.1 (inl h))
          | inr (inl h) ↦ inl h
          | inr (inr k) ↦ inr (r.1 (inr k))
        ]),
      )
  | inr f ↦ rw f ((λ m. m), (λ m. m))
]

Mem-sort_by_key :
    (x : RawObservation) (cs : List RawObservation) → Mem x (sort_by_key cs) ↔ Mem x cs
unfolding sort_by_key
Mem-sort_by_key x [] = ((λ m. m), (λ m. m))
Mem-sort_by_key x (c ∷ cs) =
    let i = Mem-insert_by_key x c (sort_by_key cs) in
    let r = Mem-sort_by_key x cs in
    (
      (λ m. elim (i.0 m) [ inl h ↦ inl h | inr n ↦ inr (r.0 n) ]),
      (λ m. elim m [ inl h ↦ i.1 (inl h) | inr n ↦ i.1 (inr (r.1 n)) ]),
    )

later_entry :
    (x : RawObservation) (k : ℕ) (c : RawObservation) (rest : Selection)
    → Above k rest
    → ((j : ℕ) × (lookup j rest ≡ some x) × (x.deleted ≡ false))
    → (j : ℕ) × (lookup j ((k, c) ∷ rest) ≡ some x) × (x.deleted ≡ false)
later_entry x k c rest above (j, found, live) =
    (j, ground (arith, lookup_not-Above k j rest above), live)

-- A live value is the live one that stands under some key.
live_values-lookup :
    (x : RawObservation) (selected : Selection)
    → IsSorted selected
    → Mem x (live_values selected)
    → (k : ℕ) × (lookup k selected ≡ some x) × (x.deleted ≡ false)
unfolding live_values
live_values-lookup x [] s m = absurd m
live_values-lookup x ((k, c) ∷ rest) s m = elim (Bool-cases c.deleted) [
  | inl gone ↦ later_entry x k c rest s.0 (live_values-lookup x rest s.1 (rw gone at m))
  | inr live ↦ elim (rw live at m) [
    | inl here ↦ (k, rw (← here) (ground arith), ap (λ y. y.deleted) (sym here))
    | inr there ↦ later_entry x k c rest s.0 (live_values-lookup x rest s.1 there)
  ]
]

lookup-live_values :
    (x : RawObservation) (k : ℕ) (selected : Selection)
    → lookup k selected ≡ some x
    → x.deleted ≡ false
    → Mem x (live_values selected)
unfolding live_values
lookup-live_values x k [] e d = absurd (cc)
lookup-live_values x k ((j, c) ∷ rest) e d = elim (Bool-cases (k == j)) [
  | inl here ↦ let same : c ≡ x = ground arith in rw (same, d) (inl refl)
  | inr elsewhere ↦ elim (Bool-cases c.deleted) [
    | inl gone ↦ rw gone (lookup-live_values x k rest (ground arith) d)
    | inr live ↦ rw live (inr (lookup-live_values x k rest (ground arith) d))
  ]
]

-- A member of one of the three collections.
abbrev pub Candidate :
    List RawObservation → List RawObservation → List RawObservation → RawObservation → Type 0
Candidate segments hots overlays x = ((⊥ ⊎ Mem x segments) ⊎ Mem x hots) ⊎ Mem x overlays

-- The selection that a successful merge comes from.
record Merged (segments hots overlays merged : List RawObservation) : Type 0 where
  selected : Selection
  chosen : Chosen (Candidate segments hots overlays) selected
  shown : merged ≡ sort_by_key (live_values selected)

merge-Merged :
    (segments hots overlays merged : List RawObservation)
    → merge_raw_observations segments hots overlays ≡ ok merged
    → Merged segments hots overlays merged
unfolding merge_raw_observations
merge-Merged segments hots overlays merged e =
    let (s1, e1, r1) = >>=-eq-ok (select_all segment segments []) _ e in
    let (s2, e2, r2) = >>=-eq-ok (select_all hot hots s1) _ r1 in
    let (s3, e3, r3) = >>=-eq-ok (select_all overlay overlays s2) _ r2 in
    record {
      selected = s3;
      chosen =
          select_all-Chosen overlay overlays _ s2 s3
            (select_all-Chosen hot hots _ s1 s2
              (select_all-Chosen segment segments (λ x. ⊥) [] s1 nothing e1) e2)
            e3;
      shown = ground arith;
    }
  where
    nothing : Chosen (λ x. ⊥) []
    nothing = record { sorted = tt; best = λ id o h. absurd (cc); known = λ x p. absurd p }

-- If the merge succeeds, then for every candidate there is a best one of its identifier, and of the
-- observations with that identifier the merge returns this one if it is no tombstone, and no other.
pub merge-Best :
    (segments hots overlays merged : List RawObservation) (x : RawObservation)
    → merge_raw_observations segments hots overlays ≡ ok merged
    → Candidate segments hots overlays x
    → (o : RawObservation) × (o.observation_id ≡ x.observation_id)
      × Best (Candidate segments hots overlays) o
      × ((m : RawObservation)
          → (Mem m merged × (m.observation_id ≡ x.observation_id))
            ↔ ((m ≡ o) × (m.deleted ≡ false)))
merge-Best segments hots overlays merged x e candidate =
    let g = merge-Merged segments hots overlays merged e in
    let (o, found) = g.chosen.known x candidate in
    let (same, best) = g.chosen.best x.observation_id o found in
    (
      o,
      same,
      best,
      λ m. (
        (λ q.
            let (k, at_k, live) =
              live_values-lookup m g.selected g.chosen.sorted
                ((Mem-sort_by_key m (live_values g.selected)).0 (rw g.shown at q.0)) in
            let key : m.observation_id ≡ k = (g.chosen.best k m at_k).0 in (ground arith, live)),
        (λ q. (
          rw g.shown (
              (Mem-sort_by_key m (live_values g.selected)).1
                (lookup-live_values m x.observation_id g.selected (rw (q.0) found) q.1)),
          rw q.0 same,
        )),
      ),
    )

-- Every element precedes all the later ones.
abbrev pub IsStrictlyOrdered : List RawObservation → Type 0
IsStrictlyOrdered [] = Unit {0}
IsStrictlyOrdered (c ∷ cs) = All (λ d. precedes c d ≡ true) cs × IsStrictlyOrdered cs

precedes_trans :
    (a b c : RawObservation) → precedes a b ≡ true → precedes b c ≡ true → precedes a c ≡ true
unfolding precedes
precedes_trans a b c p q =
    times a.timestamp_epoch_millis b.timestamp_epoch_millis c.timestamp_epoch_millis
      a.observation_id b.observation_id c.observation_id p q
  where
    times :
        (s t u : ℤ) (i j k : ℕ)
        → (ltb_ℤ s t || ((s ==ℤ t) && ltb i j)) ≡ true
        → (ltb_ℤ t u || ((t ==ℤ u) && ltb j k)) ≡ true
        → (ltb_ℤ s u || ((s ==ℤ u) && ltb i k)) ≡ true
    times s t u i j k p q = ground arith

precedes-total :
    (a b : RawObservation)
    → a.observation_id ≢ b.observation_id
    → precedes a b ≡ false
    → precedes b a ≡ true
unfolding precedes
precedes-total a b n h =
    times a.timestamp_epoch_millis b.timestamp_epoch_millis a.observation_id b.observation_id n h
  where
    times :
        (s t : ℤ) (i j : ℕ)
        → i ≢ j
        → (ltb_ℤ s t || ((s ==ℤ t) && ltb i j)) ≡ false
        → (ltb_ℤ t s || ((t ==ℤ s) && ltb j i)) ≡ true
    times s t i j n h = ground arith

insert_by_key-All :
    (P : RawObservation → Type 0) (c : RawObservation) (ds : List RawObservation)
    → P c
    → All P ds
    → All P (insert_by_key c ds)
unfolding insert_by_key
insert_by_key-All P c [] p h = (p, tt)
insert_by_key-All P c (d ∷ ds) p h = elim (Bool-cases (precedes d c)) [
  | inl t ↦ rw t (h.0, insert_by_key-All P c ds p h.1)
  | inr f ↦ rw f (p, h)
]

sort_by_key-All :
    (P : RawObservation → Type 0) (cs : List RawObservation) → All P cs → All P (sort_by_key cs)
unfolding sort_by_key
sort_by_key-All P [] h = tt
sort_by_key-All P (c ∷ cs) h = insert_by_key-All P c (sort_by_key cs) h.0 (sort_by_key-All P cs h.1)

insert_by_key-IsStrictlyOrdered :
    (c : RawObservation) (ds : List RawObservation)
    → All (λ d. d.observation_id ≢ c.observation_id) ds
    → IsStrictlyOrdered ds
    → IsStrictlyOrdered (insert_by_key c ds)
unfolding insert_by_key
insert_by_key-IsStrictlyOrdered c [] n h = (tt, tt)
insert_by_key-IsStrictlyOrdered c (d ∷ ds) n h = elim (Bool-cases (precedes d c)) [
  | inl t ↦ rw t (
    insert_by_key-All (λ x. precedes d x ≡ true) c ds t h.0,
    insert_by_key-IsStrictlyOrdered c ds n.1 h.1,
  )
  | inr f ↦
      let first = precedes-total d c n.0 f in
      rw f ((first, All-map (λ x p. precedes_trans c d x first p) ds h.0), h)
]

live_values-Above :
    (k : ℕ) (selected : Selection)
    → Above k selected
    → All (λ e. e.1.observation_id ≡ e.0) selected
    → All (λ c. k < c.observation_id) (live_values selected)
unfolding live_values
live_values-Above k [] a s = tt
live_values-Above k ((j, c) ∷ rest) a s = elim (Bool-cases c.deleted) [
  | inl gone ↦ rw gone (live_values-Above k rest a.1 s.1)
  | inr live ↦ rw live (omega (arith, s.0, a.0), live_values-Above k rest a.1 s.1)
]

sort-IsStrictlyOrdered :
    (selected : Selection)
    → IsSorted selected
    → All (λ e. e.1.observation_id ≡ e.0) selected
    → IsStrictlyOrdered (sort_by_key (live_values selected))
unfolding live_values sort_by_key
sort-IsStrictlyOrdered [] a s = tt
sort-IsStrictlyOrdered ((k, c) ∷ rest) a s = elim (Bool-cases c.deleted) [
  | inl gone ↦ rw gone (sort-IsStrictlyOrdered rest a.1 s.1)
  | inr live ↦ simp live (
      insert_by_key-IsStrictlyOrdered c (sort_by_key (live_values rest))
        (sort_by_key-All (λ d. d.observation_id ≢ c.observation_id) (live_values rest)
          (All-map (λ d h e. omega (arith, s.0, h, e)) (live_values rest)
            (live_values-Above k rest a.0 s.1)))
        (sort-IsStrictlyOrdered rest a.1 s.1))
]

keyed :
    (selected : Selection)
    → IsSorted selected
    → ((k : ℕ) (o : RawObservation) → lookup k selected ≡ some o → o.observation_id ≡ k)
    → All (λ e. e.1.observation_id ≡ e.0) selected
keyed [] s h = tt
keyed ((k, c) ∷ rest) s h = (
  h k c (ground arith),
  keyed rest s.1 (λ j o e. h j o (ground (arith, lookup_not-Above k j rest s.0))),
)

-- If the merge succeeds, the observations come in the order of timestamp and identifier, none of
-- them twice.
pub merge-IsStrictlyOrdered :
    (segments hots overlays merged : List RawObservation)
    → merge_raw_observations segments hots overlays ≡ ok merged
    → IsStrictlyOrdered merged
merge-IsStrictlyOrdered segments hots overlays merged e =
    let g = merge-Merged segments hots overlays merged e in
    rw g.shown (
      sort-IsStrictlyOrdered g.selected g.chosen.sorted
        (keyed g.selected g.chosen.sorted (λ k o found. (g.chosen.best k o found).0)))
