-- ===== src/Common/Int.antt =====
-- Signed integers over the native numbers, under the library's names, and Rust's i64 on them.
-- An i64 is an integer in range: `in_i64` is the range test, the checked operations fail outside of
-- it, and `wrap_i64` is what the unchecked operations do in a release build.
use Prim.Native.Nat.{ℕ, suc, ◌+◌, ◌-◌, ◌*◌, ◌%◌, ◌^◌, ◌≤◌, ◌<◌}
use mathlib.Core.Path.{◌≡◌}
use mathlib.Core.Bool.{Bool, true, ◌&&◌}
use mathlib.Core.Option.{Option, none, some}
use native.Mathlib.Omega.{arith}
use pvlog.Common.Tests.{ltb, leb, ◌==◌, if◌then◌else◌}

-- `negsuc n` is -(n + 1).
pub data ℤ : Type 0 where
  pos : ℕ → ℤ
  negsuc : ℕ → ℤ

abbrev pub pos_part : ℤ → ℕ
pos_part (pos n) = n
pos_part (negsuc n) = 0

abbrev pub neg_part : ℤ → ℕ
neg_part (pos n) = 0
neg_part (negsuc n) = suc n

-- a - b, as an integer.
abbrev pub sub_ℕ : ℕ → ℕ → ℤ
sub_ℕ a b = if leb b a then pos (a - b) else negsuc (b - a - 1)

infixl 65 ◌+ℤ◌ ◌-ℤ◌
infixl 70 ◌*ℤ◌
infix 50 ◌≤ℤ◌ ◌<ℤ◌ ◌==ℤ◌
unfoldable pub ◌+ℤ◌ : ℤ → ℤ → ℤ
a +ℤ b = sub_ℕ (pos_part a + pos_part b) (neg_part a + neg_part b)

unfoldable pub ◌-ℤ◌ : ℤ → ℤ → ℤ
a -ℤ b = sub_ℕ (pos_part a + neg_part b) (neg_part a + pos_part b)

unfoldable pub ◌*ℤ◌ : ℤ → ℤ → ℤ
a *ℤ b =
    sub_ℕ (pos_part a * pos_part b + neg_part a * neg_part b)
      (pos_part a * neg_part b + neg_part a * pos_part b)

abbrev pub ◌≤ℤ◌ : ℤ → ℤ → Type 0
a ≤ℤ b = pos_part a + neg_part b ≤ pos_part b + neg_part a

abbrev pub ◌<ℤ◌ : ℤ → ℤ → Type 0
a <ℤ b = pos_part a + neg_part b < pos_part b + neg_part a

abbrev pub ltb_ℤ : ℤ → ℤ → Bool
ltb_ℤ a b = ltb (pos_part a + neg_part b) (pos_part b + neg_part a)

abbrev pub leb_ℤ : ℤ → ℤ → Bool
leb_ℤ a b = leb (pos_part a + neg_part b) (pos_part b + neg_part a)

abbrev pub ◌==ℤ◌ : ℤ → ℤ → Bool
a ==ℤ b = (pos_part a == pos_part b) && (neg_part a == neg_part b)

abbrev pub abs : ℤ → ℕ
abs a = pos_part a + neg_part a

pub +ℤ_parts :
    (a b : ℤ)
    → pos_part (a +ℤ b) + neg_part a + neg_part b ≡ neg_part (a +ℤ b) + pos_part a + pos_part b
unfolding ◌+ℤ◌
+ℤ_parts a b = ground arith

pub -ℤ_parts :
    (a b : ℤ)
    → pos_part (a -ℤ b) + neg_part a + pos_part b ≡ neg_part (a -ℤ b) + pos_part a + neg_part b
unfolding ◌-ℤ◌
-ℤ_parts a b = ground arith

pub eq_of_parts : (a b : ℤ) → pos_part a + neg_part b ≡ pos_part b + neg_part a → a ≡ b
eq_of_parts a b h = ground arith

pub ruleset int_laws = (arith, +ℤ_parts, -ℤ_parts, eq_of_parts)

pub add-sub_cancel : (a b : ℤ) → a +ℤ (b -ℤ a) ≡ b
add-sub_cancel a b = omega int_laws

-- -2^63 <= a < 2^63.
abbrev pub InI64 : ℤ → Type 0
InI64 a = (neg_part a ≤ 2 ^ 63) × (pos_part a < 2 ^ 63)

abbrev pub in_i64 : ℤ → Bool
in_i64 a = leb (neg_part a) (2 ^ 63) && ltb (pos_part a) (2 ^ 63)

pub in_i64→InI64 : (a : ℤ) → in_i64 a ≡ true → InI64 a
in_i64→InI64 a h = ground arith

pub InI64→in_i64 : (a : ℤ) → InI64 a → in_i64 a ≡ true
InI64→in_i64 a h = ground arith

unfoldable pub checked_add : ℤ → ℤ → Option ℤ
checked_add a b = let s = a +ℤ b in if in_i64 s then some s else none

unfoldable pub checked_sub : ℤ → ℤ → Option ℤ
checked_sub a b = let d = a -ℤ b in if in_i64 d then some d else none

-- The i64 that has the low 64 bits of an integer.
unfoldable pub wrap_i64 : ℤ → ℤ
wrap_i64 (pos n) =
    let bits = n % 2 ^ 64 in if ltb bits (2 ^ 63) then pos bits else negsuc (2 ^ 64 - 1 - bits)
wrap_i64 (negsuc n) =
    let bits = n % 2 ^ 64 in if ltb bits (2 ^ 63) then negsuc bits else pos (2 ^ 64 - 1 - bits)

pub wrap_i64-InI64 : (a : ℤ) → InI64 (wrap_i64 a)
unfolding wrap_i64
wrap_i64-InI64 (pos n) = ground arith
wrap_i64-InI64 (negsuc n) = ground arith

-- Wrapping changes nothing in range.
pub wrap_i64_of_in : (a : ℤ) → InI64 a → wrap_i64 a ≡ a
unfolding wrap_i64
wrap_i64_of_in (pos n) h = ground arith
wrap_i64_of_in (negsuc n) h = ground arith

-- `u64::try_from` of an i64.
abbrev pub to_u64 : ℤ → Option ℕ
to_u64 (pos n) = some n
to_u64 (negsuc n) = none

pub to_u64-eq-some : (a : ℤ) (n : ℕ) → to_u64 a ≡ some n → a ≡ pos n
to_u64-eq-some (pos m) n e = ground arith
to_u64-eq-some (negsuc m) n e = ground arith
