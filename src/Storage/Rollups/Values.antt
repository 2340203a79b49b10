-- ===== src/Storage/Rollups/Values.antt =====
-- The least, the greatest and the last value of a bucket, and its sums.
use pvlog.Common.{
  ℕ, ◌+◌, ◌++◌, map, ap, err_ne_ok, ok, ◌+ℤ◌, ◌^◌, ◌≡◌, refl, inl, inr, ◌⊎◌, List, [], ◌∷◌, ltb,
  if◌then◌else◌, All, Any, ℤ, pos, ◌≤ℤ◌, ltb_ℤ, ok_injective, arith, Bool-cases,
}
use pvlog.Storage.Rollups.{
  RollupSample, total_covered, sum_values, min_value, max_value, last_value,
}

-- The number is the least, or the greatest, of the first argument and the samples' values.
pub record Least (m first : ℤ) (samples : List RollupSample) : Type 0 where
  pub below_first : m ≤ℤ first
  pub below : All (λ s. m ≤ℤ s.value) samples
  pub reached : (first ≡ m) ⊎ Any (λ s. s.value ≡ m) samples

pub record Greatest (m first : ℤ) (samples : List RollupSample) : Type 0 where
  pub above_first : first ≤ℤ m
  pub above : All (λ s. s.value ≤ℤ m) samples
  pub reached : (first ≡ m) ⊎ Any (λ s. s.value ≡ m) samples

Least-step :
    (m first : ℤ) (s : RollupSample) (samples : List RollupSample)
    → Least m (if ltb_ℤ s.value first then s.value else first) samples
    → Least m first (s ∷ samples)
Least-step m first s samples l = elim (Bool-cases (ltb_ℤ s.value first)) [
  | inl smaller ↦
      let r : Least m s.value samples = simp smaller at l in
      record {
        below_first = ground arith;
        below = (r.below_first, r.below);
        reached = elim r.reached [ inl e ↦ inr (inl e) | inr f ↦ inr (inr f) ];
      }
  | inr kept ↦
      let r : Least m first samples = simp kept at l in
      record {
        below_first = r.below_first;
        below = (ground arith, r.below);
        reached = elim r.reached [ inl e ↦ inl e | inr f ↦ inr (inr f) ];
      }
]

Greatest-step :
    (m first : ℤ) (s : RollupSample) (samples : List RollupSample)
    → Greatest m (if ltb_ℤ s.value first then first else s.value) samples
    → Greatest m first (s ∷ samples)
Greatest-step m first s samples l = elim (Bool-cases (ltb_ℤ s.value first)) [
  | inl smaller ↦
      let r : Greatest m first samples = simp smaller at l in
      record {
        above_first = r.above_first;
        above = (ground arith, r.above);
        reached = elim r.reached [ inl e ↦ inl e | inr f ↦ inr (inr f) ];
      }
  | inr kept ↦
      let r : Greatest m s.value samples = simp kept at l in
      record {
        above_first = ground arith;
        above = (r.above_first, r.above);
        reached = elim r.reached [ inl e ↦ inr (inl e) | inr f ↦ inr (inr f) ];
      }
]

pub min_value-Least :
    (first : ℤ) (samples : List RollupSample) → Least (min_value first samples) first samples
unfolding min_value
min_value-Least first [] = record { below_first = omega arith; below = tt; reached = inl refl }
min_value-Least first (s ∷ samples) =
    Least-step _ first s samples
      (min_value-Least (if ltb_ℤ s.value first then s.value else first) samples)

pub max_value-Greatest :
    (first : ℤ) (samples : List RollupSample) → Greatest (max_value first samples) first samples
unfolding max_value
max_value-Greatest first [] = record { above_first = omega arith; above = tt; reached = inl refl }
max_value-Greatest first (s ∷ samples) =
    Greatest-step _ first s samples
      (max_value-Greatest (if ltb_ℤ s.value first then first else s.value) samples)

-- The sum of some integers, and of some numbers.
unfoldable pub add_up : List ℤ → ℤ
add_up [] = pos 0
add_up (a ∷ numbers) = a +ℤ add_up numbers

unfoldable pub add_up_ℕ : List ℕ → ℕ
add_up_ℕ [] = 0
add_up_ℕ (n ∷ numbers) = n + add_up_ℕ numbers

abbrev pub value_of : RollupSample → ℤ
value_of s = s.value

abbrev pub covered_of : RollupSample → ℕ
covered_of s = s.covered_millis

pub sum_values-add_up :
    (samples : List RollupSample) → sum_values samples ≡ add_up (map value_of samples)
unfolding sum_values add_up
sum_values-add_up [] = refl
sum_values-add_up (s ∷ samples) = ap (λ (t : ℤ). s.value +ℤ t) (sum_values-add_up samples)

total_covered-add_up :
    (samples : List RollupSample) (start total : ℕ)
    → total_covered start samples ≡ ok total
    → total ≡ start + add_up_ℕ (map covered_of samples)
unfolding total_covered add_up_ℕ
total_covered-add_up [] start total e = omega (arith, ok_injective start total e)
total_covered-add_up (s ∷ samples) start total e =
    elim (Bool-cases (ltb (start + s.covered_millis) (2 ^ 64))) [
      | inr over ↦ absurd (err_ne_ok (rw over at e))
      | inl fits ↦
          omega
            (arith, total_covered-add_up samples (start + s.covered_millis) total (rw fits at e))
    ]

pub covered_in_all :
    (samples : List RollupSample) (total : ℕ)
    → total_covered 0 samples ≡ ok total
    → total ≡ add_up_ℕ (map covered_of samples)
covered_in_all samples total e = omega (arith, total_covered-add_up samples 0 total e)

-- The value is the one of the last sample.
pub record IsLast (value : ℤ) (samples : List RollupSample) : Type 0 where
  pub before : List RollupSample
  pub sample : RollupSample
  pub at_end : samples ≡ before ++ (sample ∷ [])
  pub own : value ≡ sample.value

pub last_value-IsLast :
    (s : RollupSample) (samples : List RollupSample)
    → IsLast (last_value s.value samples) (s ∷ samples)
unfolding last_value
last_value-IsLast s [] = record { before = []; sample = s; at_end = refl; own = refl }
last_value-IsLast s (t ∷ samples) =
    let l = last_value-IsLast t samples in
    record {
      before = s ∷ l.before;
      sample = l.sample;
      at_end = ap (λ (rest : List RollupSample). s ∷ rest) l.at_end;
      own = l.own;
    }
