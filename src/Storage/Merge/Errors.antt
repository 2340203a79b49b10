-- ===== src/Storage/Merge/Errors.antt =====
-- `merge_raw_observations`: when it refuses its input.
use pvlog.Common.{
  ◌≡◌, refl, ap, inl, inr, ◌↔◌, true, false, not, List, [], ◌∷◌, Option, none, some, All, ok, arith,
  Bool-cases, >>=-eq-ok, fail_if-eq-ok, ℕ,
}
use pvlog.Storage.Merge.{
  RawObservation, RawObservationOrigin, segment, hot, overlay, origin_eq, is_one, unsupported,
  select_all, select, Selection, sort_by_key, live_values, merge_raw_observations, origin_mismatch,
  unsupported_segment_version,
}

origin_eq→eq : (a b : RawObservationOrigin) → origin_eq a b ≡ true → a ≡ b
unfolding origin_eq
origin_eq→eq segment segment h = refl
origin_eq→eq segment hot h = absurd (ground arith)
origin_eq→eq segment overlay h = absurd (ground arith)
origin_eq→eq hot segment h = absurd (ground arith)
origin_eq→eq hot hot h = refl
origin_eq→eq hot overlay h = absurd (ground arith)
origin_eq→eq overlay segment h = absurd (ground arith)
origin_eq→eq overlay hot h = absurd (ground arith)
origin_eq→eq overlay overlay h = refl

origin_eq_refl : (a : RawObservationOrigin) → origin_eq a a ≡ true
unfolding origin_eq
origin_eq_refl a = ground arith

-- An observation that a collection may hold.
pub record Fits (expected : RawObservationOrigin) (c : RawObservation) : Type 0 where
  pub of_origin : c.origin ≡ expected
  pub first_version : c.origin ≡ segment → c.segment_version ≡ some 1

is_one→eq : (v : Option ℕ) → is_one v ≡ true → v ≡ some 1
is_one→eq none h = cc
is_one→eq (some v) h = ap some (ground arith)

tests-Fits :
    (expected : RawObservationOrigin) (c : RawObservation)
    → not (origin_eq c.origin expected) ≡ false
    → unsupported c ≡ false
    → Fits expected c
unfolding unsupported
tests-Fits expected c h g = record {
  of_origin = origin_eq→eq c.origin expected (ground arith);
  first_version = λ s.
      let archived : origin_eq c.origin segment ≡ true = rw s (origin_eq_refl segment) in
      is_one→eq c.segment_version (ground arith);
}

Fits-tests :
    (expected : RawObservationOrigin) (c : RawObservation)
    → Fits expected c
    → (not (origin_eq c.origin expected) ≡ false) × (unsupported c ≡ false)
unfolding unsupported
Fits-tests expected c f = (
  rw (f.of_origin, origin_eq_refl expected) refl,
  elim (Bool-cases (origin_eq c.origin segment)) [
    | inl archived ↦
        rw (archived, f.first_version (origin_eq→eq c.origin segment archived)) (ground arith)
    | inr other ↦ rw other refl
  ],
)

select_all-Fits :
    (expected : RawObservationOrigin) (cs : List RawObservation) (selected result : Selection)
    → select_all expected cs selected ≡ ok result
    → All (Fits expected) cs
unfolding select_all
select_all-Fits expected [] selected result e = tt
select_all-Fits expected (c ∷ cs) selected result e =
    let (o, e1) = fail_if-eq-ok (not (origin_eq c.origin expected)) origin_mismatch _ e in
    let (v, e2) =
      fail_if-eq-ok (unsupported c) (unsupported_segment_version c.segment_version) _ e1 in
    (tests-Fits expected c o v, select_all-Fits expected cs (select c selected) result e2)

Fits-select_all :
    (expected : RawObservationOrigin) (cs : List RawObservation) (selected : Selection)
    → All (Fits expected) cs
    → (result : Selection) × (select_all expected cs selected ≡ ok result)
unfolding select_all
Fits-select_all expected [] selected h = (selected, refl)
Fits-select_all expected (c ∷ cs) selected h =
    let (o, v) = Fits-tests expected c h.0 in
    let (result, e) = Fits-select_all expected cs (select c selected) h.1 in (result, rw (o, v) e)

-- The merge succeeds exactly when every observation stands in the collection of its origin and every
-- archived one has segment version 1.
pub merge-succeeds :
    (segments hots overlays : List RawObservation)
    → ((merged : List RawObservation) × (merge_raw_observations segments hots overlays ≡ ok merged))
      ↔ (All (Fits segment) segments × All (Fits hot) hots × All (Fits overlay) overlays)
unfolding merge_raw_observations
merge-succeeds segments hots overlays = (
  (λ (merged, e).
      let (s1, e1, r1) = >>=-eq-ok (select_all segment segments []) _ e in
      let (s2, e2, r2) = >>=-eq-ok (select_all hot hots s1) _ r1 in
      let (s3, e3, r3) = >>=-eq-ok (select_all overlay overlays s2) _ r2 in
      (
        select_all-Fits segment segments [] s1 e1,
        select_all-Fits hot hots s1 s2 e2,
        select_all-Fits overlay overlays s2 s3 e3,
      )),
  (λ (f, g, h).
      let (s1, e1) = Fits-select_all segment segments [] f in
      let (s2, e2) = Fits-select_all hot hots s1 g in
      let (s3, e3) = Fits-select_all overlay overlays s2 h in
      (sort_by_key (live_values s3), rw (e1, e2, e3) refl)),
)
