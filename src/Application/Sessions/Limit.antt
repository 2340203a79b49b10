-- ===== src/Application/Sessions/Limit.antt =====
-- A user keeps at most as many sessions as the policy allows.
use pvlog.Common.{
  ℕ, suc, ◌+◌, ◌≤◌, ◌<◌, ◌≡◌, ◌≢◌, refl, sym, subst, ◌∙◌, ◌⊎◌, inl, inr, Bool, true, false, ◌&&◌,
  [], ◌∷◌, map, ◌==◌, ltb, leb, if◌then◌else◌, Bool-cases, All, Any, All-map, ==_refl, ℤ, arith,
}
use pvlog.Application.Sessions.{BrowserSessionRecord}
use pvlog.Application.Sessions.Entry.{All-Any}
use pvlog.Application.Sessions.Table.{
  Table, is_null, precedes, count_before, revoke_above, revoke_oldest_sessions,
}

unfoldable pub count_of : (BrowserSessionRecord → Bool) → Table → ℕ
count_of test [] = 0
count_of test (s ∷ table) = let rest = count_of test table in if test s then suc rest else rest

-- The session is one of the user that is not revoked.
unfoldable pub is_kept : ℕ → BrowserSessionRecord → Bool
is_kept user_id s = (s.user_id == user_id) && is_null s.revoked_at

abbrev pub HasDistinctIds : Table → Type 0
HasDistinctIds [] = Unit {0}
HasDistinctIds (s ∷ table) = All (λ t. t.id ≢ s.id) table × HasDistinctIds table

count_of_none :
    (id : ℕ) (table : Table) → All (λ t. t.id ≢ id) table → count_of (λ t. t.id == id) table ≡ 0
unfolding count_of
count_of_none id [] h = refl
count_of_none id (s ∷ table) h = ground (arith, h.0, count_of_none id table h.1)

count_of_id : (id : ℕ) (table : Table) → HasDistinctIds table → count_of (λ t. t.id == id) table ≤ 1
unfolding count_of
count_of_id id [] h = omega arith
count_of_id id (s ∷ table) h = elim (Bool-cases (s.id == id)) [
  | inl own ↦
      let same : s.id ≡ id = ground arith in
      rw own (omega (arith, count_of_none id table (All-map (λ t n k. n (k ∙ sym same)) table h.0)))
  | inr other ↦ rw other (count_of_id id table h.1)
]

count_before-count_of :
    (s : BrowserSessionRecord) (table : Table) → count_before s table ≡ count_of (precedes s) table
unfolding count_before count_of
count_before-count_of s [] = refl
count_before-count_of s (t ∷ table) = rw (count_before-count_of s table) refl

precedes_total :
    (user_id : ℕ) (s t : BrowserSessionRecord)
    → is_kept user_id s ≡ true
    → is_kept user_id t ≡ true
    → (t.id ≡ s.id) ⊎ ((precedes s t ≡ true) ⊎ (precedes t s ≡ true))
unfolding precedes is_kept
precedes_total user_id s t h k = elim (Bool-cases (t.id == s.id)) [
  | inl own ↦ inl (ground arith)
  | inr other ↦ elim (Bool-cases (precedes s t)) [
    | inl before ↦ inr (inl before)
    | inr not_before ↦ inr (inr (ground arith))
  ]
]

precedes_trans :
    (s t u : BrowserSessionRecord) → precedes s t ≡ true → precedes t u ≡ true → precedes s u ≡ true
unfolding precedes
precedes_trans s t u h k = ground arith

-- Of the sessions that pass a test there is one before which all others come.
record Last (passes : BrowserSessionRecord → Bool) (table : Table) (m : BrowserSessionRecord)
    : Type 0 where
  passed : passes m ≡ true
  row : Any (λ t. t ≡ m) table
  before : All (λ t. passes t ≡ true → (t ≡ m) ⊎ (precedes m t ≡ true)) table

vacuous :
    (passes : BrowserSessionRecord → Bool) (m : BrowserSessionRecord) (table : Table)
    → count_of passes table ≡ 0
    → All (λ t. passes t ≡ true → (t ≡ m) ⊎ (precedes m t ≡ true)) table
unfolding count_of
vacuous passes m [] e = tt
vacuous passes m (t ∷ table) e =
    ((λ k. absurd (ground (arith, k))), vacuous passes m table (ground arith))

Last-later :
    (passes : BrowserSessionRecord → Bool) (s m : BrowserSessionRecord) (table : Table)
    → All (λ t. t.id ≢ s.id) table
    → passes s ≡ true
    → Last passes table m
    → (s.id ≡ m.id) ⊎ ((precedes m s ≡ true) ⊎ (precedes s m ≡ true))
    → (l : BrowserSessionRecord) × Last passes (s ∷ table) l
Last-later passes s m table apart p last (inl own) =
    absurd (All-Any (λ (t : BrowserSessionRecord). t.id ≢ s.id) m table apart last.row (sym own))
Last-later passes s m table apart p last (inr (inl first)) = (
  m,
  record { passed = last.passed; row = inr last.row; before = ((λ k. inr first), last.before) },
)
Last-later passes s m table apart p last (inr (inr after)) = (
  s,
  record {
    passed = p;
    row = inl refl;
    before = ((λ k. inl refl), All-map (λ t b k. inr (further t (b k))) table last.before);
  },
)
  where
    further : (t : BrowserSessionRecord) → (t ≡ m) ⊎ (precedes m t ≡ true) → precedes s t ≡ true
    further t (inl same) = subst (λ x. precedes s x ≡ true) (sym same) after
    further t (inr next) = precedes_trans s m t after next

find-Last :
    (user_id : ℕ) (passes : BrowserSessionRecord → Bool)
    → ((s : BrowserSessionRecord) → passes s ≡ true → is_kept user_id s ≡ true)
    → (table : Table) → HasDistinctIds table
    → (count_of passes table ≡ 0) ⊎ ((m : BrowserSessionRecord) × Last passes table m)
unfolding count_of
find-Last user_id passes kept [] d = inl refl
find-Last user_id passes kept (s ∷ table) d = elim (Bool-cases (passes s)) [
  | inr fails ↦ elim (find-Last user_id passes kept table d.1) [
    | inl none_left ↦ inl (rw fails none_left)
    | inr (m, last) ↦
        inr (
          m,
          record { passed = last.passed; row = inr last.row; before = ((λ k. cc), last.before) },
        )
  ]
  | inl passed ↦ elim (find-Last user_id passes kept table d.1) [
    | inl none_left ↦ inr (
      s,
      record {
        passed = passed;
        row = inl refl;
        before = ((λ k. inl refl), vacuous passes s table none_left);
      },
    )
    | inr (m, last) ↦ inr (
        Last-later passes s m table d.0 passed last
          (precedes_total user_id m s (kept m last.passed) (kept s passed)))
  ]
]

count_of-Last :
    (passes : BrowserSessionRecord → Bool) (m : BrowserSessionRecord) (table : Table)
    → All (λ t. passes t ≡ true → (t ≡ m) ⊎ (precedes m t ≡ true)) table
    → count_of passes table ≤ count_of (λ t. t.id == m.id) table + count_of (precedes m) table
unfolding count_of
count_of-Last passes m [] h = omega arith
count_of-Last passes m (t ∷ table) h =
    let rest = count_of-Last passes m table h.1 in
    elim (Bool-cases (passes t)) [
      | inr fails ↦ ground arith
      | inl passed ↦ elim (h.0 passed) [
        | inl same ↦ let own : (t.id == m.id) ≡ true = rw same (==_refl m.id) in ground arith
        | inr before ↦ ground arith
      ]
    ]

-- What is not revoked is live and has fewer than the limit before it.
survives : Table → ℕ → ℕ → BrowserSessionRecord → Bool
survives table user_id keep s = is_kept user_id s && ltb (count_before s table) keep

few_survive :
    (user_id keep : ℕ) (table : Table)
    → HasDistinctIds table
    → count_of (survives table user_id keep) table ≤ keep
unfolding survives
few_survive user_id keep table d =
    elim (find-Last user_id (survives table user_id keep) (λ s h. ground arith) table d) [
      | inl nothing ↦ omega (arith, nothing)
      | inr (m, last) ↦
          let bound = count_of-Last (survives table user_id keep) m table last.before in
          let one = count_of_id m.id table d in
          let here : count_before m table < keep = after_and (is_kept user_id m) _ last.passed in
          omega (arith, bound, one, here, count_before-count_of m table)
    ]
  where
    after_and : (b : Bool) (n : ℕ) → (b && ltb n keep) ≡ true → n < keep
    after_and b n h = ground arith

kept_row :
    (user_id keep : ℕ) (now : ℤ) (table : Table) (s : BrowserSessionRecord)
    → is_kept user_id (revoke_above table user_id keep now s) ≡ survives table user_id keep s
unfolding survives revoke_above is_kept
kept_row user_id keep now table s = elim (Bool-cases (s.user_id == user_id)) [
  | inr other ↦ rw other (rw other refl)
  | inl own ↦ elim (Bool-cases (is_null s.revoked_at)) [
    | inr revoked ↦ rw (own, revoked) (rw (own, revoked) refl)
    | inl live ↦ elim (Bool-cases (leb keep (count_before s table))) [
      | inl above ↦
          let out : ltb (count_before s table) keep ≡ false = ground arith in
          rw (own, live, above, out) (rw own refl)
      | inr below ↦
          let inside : ltb (count_before s table) keep ≡ true = ground arith in
          rw (own, live, below, inside) (rw (own, live) refl)
    ]
  ]
]

revoked_rows :
    (user_id keep : ℕ) (now : ℤ) (table rows : Table)
    → count_of (is_kept user_id) (map (revoke_above table user_id keep now) rows)
      ≡ count_of (survives table user_id keep) rows
unfolding count_of
revoked_rows user_id keep now table [] = refl
revoked_rows user_id keep now table (s ∷ rows) =
    rw (kept_row user_id keep now table s, revoked_rows user_id keep now table rows) refl

-- If the identifiers of the rows differ, then after the revoking of a user's sessions above a limit at
-- most as many sessions of the user as the limit are not revoked.
pub revoke_oldest-limit :
    (user_id keep : ℕ) (now : ℤ) (table : Table)
    → HasDistinctIds table
    → count_of (is_kept user_id) (revoke_oldest_sessions user_id keep now table) ≤ keep
unfolding revoke_oldest_sessions
revoke_oldest-limit user_id keep now table d =
    omega (arith, revoked_rows user_id keep now table table, few_survive user_id keep table d)
