-- ===== src/Storage/Merge/Best.antt =====
-- Which observation stands for an identifier: one of the highest rank among its candidates.
use pvlog.Common.{
  ℕ, ◌<◌, ◌≤◌, ◌≡◌, refl, sym, ap, subst, ◌≢◌, ◌∙◌, ◌⊎◌, inl, inr, ◌↔◌, true, false, not, List, [],
  ◌∷◌, some, ◌==◌, ltb, lookup, lookup-insert, insert-IsSorted, IsSorted, Any, ok, arith,
  fail_if-eq-ok, Bool-cases, Option-cases,
}
use pvlog.Storage.Merge.{
  RawObservation, RawObservationOrigin, precedence, origin_eq, supersedes, replaces, select,
  select_all, Selection, origin_mismatch, unsupported, unsupported_segment_version,
}

-- The rank of an observation is its source's precedence, then its revision.
pub data AtMost (c o : RawObservation) : Type 0 where
  lower : precedence c.origin < precedence o.origin → AtMost c o
  older : precedence c.origin ≡ precedence o.origin → c.revision ≤ o.revision → AtMost c o

AtMost-trans : (a b c : RawObservation) → AtMost a b → AtMost b c → AtMost a c
AtMost-trans a b c (lower p) (lower q) = lower (omega arith)
AtMost-trans a b c (lower p) (older q h) = lower (omega arith)
AtMost-trans a b c (older p h) (lower q) = lower (omega arith)
AtMost-trans a b c (older p h) (older q g) = older (omega arith) (omega arith)

supersedes-AtMost : (c o : RawObservation) → supersedes c o ≡ true → AtMost o c
unfolding supersedes origin_eq
supersedes-AtMost c o h = elim (Bool-cases (ltb (precedence o.origin) (precedence c.origin))) [
  | inl t ↦ lower (ground arith)
  | inr f ↦ older (ground arith) (ground arith)
]

not_supersedes-AtMost : (c o : RawObservation) → supersedes c o ≡ false → AtMost c o
unfolding supersedes origin_eq
not_supersedes-AtMost c o h = elim (Bool-cases (ltb (precedence c.origin) (precedence o.origin))) [
  | inl t ↦ lower (ground arith)
  | inr f ↦ older (ground arith) (ground arith)
]

-- One of the candidates that no candidate of the same identifier outranks.
pub record Best (Candidate : RawObservation → Type 0) (o : RawObservation) : Type 0 where
  pub candidate : Candidate o
  pub most : (x : RawObservation) → Candidate x → x.observation_id ≡ o.observation_id → AtMost x o

-- A selection holds a best candidate for each candidate's identifier.
pub record Chosen (Candidate : RawObservation → Type 0) (selected : Selection) : Type 0 where
  pub sorted : IsSorted selected
  pub best :
      (id : ℕ) (o : RawObservation)
      → lookup id selected ≡ some o
      → (o.observation_id ≡ id) × Best Candidate o
  pub known :
      (x : RawObservation)
      → Candidate x
      → (o : RawObservation) × (lookup x.observation_id selected ≡ some o)

pub Chosen-resp :
    {P Q : RawObservation → Type 0} {selected : Selection}
    → ((x : RawObservation) → P x ↔ Q x)
    → Chosen P selected
    → Chosen Q selected
Chosen-resp h c = record {
  sorted = c.sorted;
  best = λ id o e. (
    (c.best id o e).0,
    record {
      candidate = (h o).0 (c.best id o e).1.candidate;
      most = λ x q. (c.best id o e).1.most x ((h x).1 q);
    },
  );
  known = λ x q. c.known x ((h x).1 q);
}

module _ (P : RawObservation → Type 0) (c : RawObservation) (selected : Selection)
    (chosen : Chosen P selected) where
  abbrev With : RawObservation → Type 0
  With x = P x ⊎ (c ≡ x)

  take-Best : replaces c (lookup c.observation_id selected) ≡ true → Best With c
  take-Best h = record {
    candidate = inr refl;
    most = λ x q same. elim q [
      | inl old ↦
          let (o, found) = chosen.known x old in
          let o_best = (chosen.best x.observation_id o found) in
          AtMost-trans x o c (o_best.1.most x old (sym o_best.0))
            (supersedes-AtMost c o (outranks o x.observation_id same found))
      | inr new ↦ older (ap (λ y. precedence y.origin) (sym new)) (new_le x new)
    ];
  }
    where
      new_le : (x : RawObservation) → c ≡ x → x.revision ≤ c.revision
      new_le x e = rw e (omega arith)

      outranks :
          (o : RawObservation) (id : ℕ)
          → id ≡ c.observation_id
          → lookup id selected ≡ some o
          → supersedes c o ≡ true
      outranks o id same found =
          let found_here : lookup c.observation_id selected ≡ some o = rw (← same) found in
          rw found_here at h

  -- The selection before, and the candidate if it was taken.
  select-Best :
      (id : ℕ) (o : RawObservation)
      → lookup id (select c selected) ≡ some o
      → (o.observation_id ≡ id) × Best With o
  unfolding select
  select-Best id o found = elim (Bool-cases (replaces c (lookup c.observation_id selected))) [
    | inl taken ↦ elim (Bool-cases (id == c.observation_id)) [
      | inl here ↦
          let same : o ≡ c = ground (arith, lookup-insert id c.observation_id c selected) in
          (ground arith, rw same (take-Best taken))
      | inr elsewhere ↦
          let old =
            chosen.best id o (ground (arith, lookup-insert id c.observation_id c selected)) in
          let other : c.observation_id ≢ id = (λ e. ground arith) in
          (old.0, keep old.1 λ e. absurd (other (e ∙ old.0)))
    ]
    | inr left ↦
        let old = chosen.best id o (ground arith) in
        (old.0, keep old.1 λ e. outranked left (rw (e ∙ old.0) (ground arith)))
  ]
    where
      keep : Best P o → (c.observation_id ≡ o.observation_id → AtMost c o) → Best With o
      keep b f = record {
        candidate = inl b.candidate;
        most = λ x q same. elim q [
          | inl old ↦ b.most x old same
          | inr new ↦ subst (λ y. AtMost y o) new (f (ap (λ y. y.observation_id) new ∙ same))
        ];
      }

      outranked :
          replaces c (lookup c.observation_id selected) ≡ false
          → lookup c.observation_id selected ≡ some o
          → AtMost c o
      outranked left found_here = not_supersedes-AtMost c o (rw found_here at left)

  select_known :
      (x : RawObservation)
      → With x
      → (o : RawObservation) × (lookup x.observation_id (select c selected) ≡ some o)
  unfolding select
  select_known x q = elim (Bool-cases (replaces c (lookup c.observation_id selected))) [
    | inl taken ↦ elim (Bool-cases (x.observation_id == c.observation_id)) [
      | inl here ↦ (c, ground (arith, lookup-insert x.observation_id c.observation_id c selected))
      | inr elsewhere ↦ elim q [
        | inl old ↦
            let (o, found) = chosen.known x old in
            (o, ground (arith, lookup-insert x.observation_id c.observation_id c selected))
        | inr new ↦ absurd (ground (arith, ap (λ y. y.observation_id) new))
      ]
    ]
    | inr left ↦ elim q [
      | inl old ↦ let (o, found) = chosen.known x old in (o, ground arith)
      | inr new ↦ elim (Option-cases (lookup c.observation_id selected)) [
        | inl missing ↦ absurd (ground arith)
        | inr (o, found) ↦ (o, rw (← new) (ground arith))
      ]
    ]
  ]

  select-IsSorted : IsSorted (select c selected)
  unfolding select
  select-IsSorted = elim (Bool-cases (replaces c (lookup c.observation_id selected))) [
    | inl taken ↦ rw taken (insert-IsSorted c.observation_id c selected chosen.sorted)
    | inr left ↦ rw left chosen.sorted
  ]

  pub select-Chosen : Chosen With (select c selected)
  select-Chosen = record { sorted = select-IsSorted; best = select-Best; known = select_known }

abbrev pub Mem : RawObservation → List RawObservation → Type 0
Mem x = Any (λ c. c ≡ x)

pub select_all-Chosen :
    (expected : RawObservationOrigin) (cs : List RawObservation) (P : RawObservation → Type 0)
    (selected result : Selection)
    → Chosen P selected
    → select_all expected cs selected ≡ ok result
    → Chosen (λ x. P x ⊎ Mem x cs) result
unfolding select_all
select_all-Chosen expected [] P selected result chosen e =
    subst (Chosen (λ x. P x ⊎ ⊥)) (ground arith)
      (Chosen-resp (λ x. (inl, λ q. elim q [ inl p ↦ p | inr n ↦ absurd n ])) chosen)
select_all-Chosen expected (c ∷ cs) P selected result chosen e =
    let (_, e1) = fail_if-eq-ok (not (origin_eq c.origin expected)) origin_mismatch _ e in
    let (_, e2) =
      fail_if-eq-ok (unsupported c) (unsupported_segment_version c.segment_version) _ e1 in
    Chosen-resp shift (
      select_all-Chosen expected cs (λ x. P x ⊎ (c ≡ x)) (select c selected) result
        (select-Chosen P c selected chosen) e2)
  where
    shift : (x : RawObservation) → ((P x ⊎ (c ≡ x)) ⊎ Mem x cs) ↔ (P x ⊎ Mem x (c ∷ cs))
    shift x = (
      (λ q. elim q [ inl (inl p) ↦ inl p | inl (inr h) ↦ inr (inl h) | inr m ↦ inr (inr m) ]),
      (λ q. elim q [ inl p ↦ inl (inl p) | inr (inl h) ↦ inl (inr h) | inr (inr m) ↦ inr m ]),
    )
