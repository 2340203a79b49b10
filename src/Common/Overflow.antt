-- ===== src/Common/Overflow.antt =====
-- Sums and differences of i64s that leave the range.
use Prim.Native.Nat.{ℕ, ◌+◌, ◌^◌, ◌≤◌, ◌<◌}
use mathlib.Core.Path.{◌≡◌, refl, sym, ap, ◌∙◌}
use mathlib.Core.Logic.{◌⊎◌, inl, inr}
use mathlib.Core.Bool.{true, false}
use mathlib.Core.Option.{none, some}
use native.Mathlib.Omega.{arith}
use pvlog.Common.Tests.{if◌then◌else◌, Bool-cases}
use pvlog.Common.Int.{
  ℤ, pos, negsuc, pos_part, neg_part, ◌+ℤ◌, ◌-ℤ◌, InI64, in_i64, in_i64→InI64, InI64→in_i64,
  checked_add, checked_sub, wrap_i64, wrap_i64_of_in, int_laws, add-sub_cancel, -ℤ_parts, to_u64,
  to_u64-eq-some, ◌<ℤ◌,
}

-- Out of range, wrapping moves by 2^64 towards the range.
pub wrap_out :
    (d : ℤ)
    → pos_part d < 2 ^ 64
    → neg_part d ≤ 2 ^ 64
    → ¬ InI64 d
    → ((2 ^ 63 ≤ pos_part d)
        × (neg_part (wrap_i64 d) + pos_part d ≡ 2 ^ 64)
        × (pos_part (wrap_i64 d) ≡ 0))
      ⊎ ((2 ^ 63 < neg_part d)
          × (pos_part (wrap_i64 d) + neg_part d ≡ 2 ^ 64)
          × (neg_part (wrap_i64 d) ≡ 0))
unfolding wrap_i64
wrap_out (pos n) p q out = inl (ground arith)
wrap_out (negsuc n) p q out = inr (ground arith)

pub one_part : (d : ℤ) → (pos_part d ≡ 0) ⊎ (neg_part d ≡ 0)
one_part (pos n) = inr refl
one_part (negsuc n) = inl refl

-- A difference of two i64s that is no i64 is carried out of range again by the sum.
add-wrap_out :
    (previous v : ℤ)
    → InI64 previous
    → InI64 v
    → ¬ InI64 (v -ℤ previous)
    → ¬ InI64 (previous +ℤ wrap_i64 (v -ℤ previous))
add-wrap_out previous v hp hv out sum = omega (
  int_laws,
  one_part previous,
  one_part v,
  one_part (v -ℤ previous),
  wrap_out (v -ℤ previous) (omega (int_laws, one_part (v -ℤ previous)))
      (omega (int_laws, one_part (v -ℤ previous))) out,
)

pub checked_add_fits : (a b : ℤ) {s : ℤ} → a +ℤ b ≡ s → InI64 s → checked_add a b ≡ some s
unfolding checked_add
checked_add_fits a b e h = rw (e, InI64→in_i64 _ h)

pub checked_add_fails : (a b : ℤ) → ¬ InI64 (a +ℤ b) → checked_add a b ≡ none
unfolding checked_add
checked_add_fails a b h = elim (Bool-cases (in_i64 (a +ℤ b))) [
  | inl e ↦ absurd (h (in_i64→InI64 _ e))
  | inr e ↦ rw e
]

-- Where the difference is an i64 the sum gives the value back; where it has wrapped, the sum fails.
pub checked_add_step :
    (previous v : ℤ)
    → InI64 previous
    → InI64 v
    → checked_add previous (wrap_i64 (v -ℤ previous))
      ≡ (if in_i64 (v -ℤ previous) then some v else none)
checked_add_step previous v hp hv = elim (Bool-cases (in_i64 (v -ℤ previous))) [
  | inl e ↦
      rw (wrap_i64_of_in (v -ℤ previous) (in_i64→InI64 _ e), e)
        (checked_add_fits previous (v -ℤ previous) (add-sub_cancel previous v) hv)
  | inr e ↦ rw e (
      checked_add_fails previous _
        (add-wrap_out previous v hp hv (λ h. cc (e, InI64→in_i64 (v -ℤ previous) h))))
]

checked_sub_value : (a b : ℤ) {d : ℤ} → checked_sub a b ≡ some d → a -ℤ b ≡ d
unfolding checked_sub
checked_sub_value a b e = ground arith

-- A checked difference that succeeds is undone by the checked sum.
pub checked_add-checked_sub :
    (a b : ℤ) {d : ℤ} → InI64 a → checked_sub a b ≡ some d → checked_add b d ≡ some a
checked_add-checked_sub a b h e =
    checked_add_fits b _ (rw (← checked_sub_value a b e) (add-sub_cancel b a)) h

-- A range of i64s that rises, whose length is not negative when it has wrapped, has this length.
pub range_length :
    (start end : ℤ) (duration : ℕ)
    → start <ℤ end
    → InI64 start
    → InI64 end
    → to_u64 (wrap_i64 (end -ℤ start)) ≡ some duration
    → (end ≡ start +ℤ pos duration) × (0 < duration)
range_length start end duration h i j e =
    let d = end -ℤ start in
    let wrapped : wrap_i64 d ≡ pos duration = to_u64-eq-some (wrap_i64 d) duration e in
    elim (Bool-cases (in_i64 d)) [
      | inl fits ↦
          let exact : d ≡ pos duration = sym (wrap_i64_of_in d (in_i64→InI64 d fits)) ∙ wrapped in
          (
            sym (rw (← exact) (add-sub_cancel start end)),
            omega (int_laws, -ℤ_parts end start, ap pos_part exact, ap neg_part exact),
          )
      | inr out ↦ absurd (
          omega (
            int_laws,
            one_part start,
            one_part end,
            one_part d,
            -ℤ_parts end start,
            ap pos_part wrapped,
            ap neg_part wrapped,
            wrap_out d (omega (int_laws, one_part d)) (omega (int_laws, one_part d))
                (λ k. true_ne_false (sym (InI64→in_i64 d k) ∙ out)),
          ))
    ]
  where
    true_ne_false : true ≡ false → ⊥
    true_ne_false p = cc
