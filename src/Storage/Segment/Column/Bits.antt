-- ===== src/Storage/Segment/Column/Bits.antt =====
-- The presence bits of a column: setting one bit changes no other.
use pvlog.Common.{
  passes, passes_at, ℕ, ◌/◌, ◌%◌, ◌^◌, ◌<◌, ◌≡◌, refl, Bool, true, false, not, List, bit_and,
  bit_or, ◌==◌, ltb, ltb→lt, length, All, All-set, All-get_or, get_or-set_self, get_or-set_ne,
  if◌then◌else◌, arith, length-set,
}
use native.Mathlib.Decide.{ℕ_discrete}
use pvlog.Storage.Segment.Column.{has_bit, set_bit}

abbrev pub IsByte : ℕ → Type 0
IsByte b = b < 256

abbrev same : Bool → Bool → Bool
same true b = b
same false b = not b

same→eq : (a b : Bool) → same a b ≡ true → a ≡ b
same→eq a b h = ground arith

abbrev byte_bit : ℕ → ℕ → Bool
byte_bit b k = not (bit_and b (2 ^ k) == 0)

abbrev set_agrees : ℕ → ℕ → ℕ → Bool
set_agrees b i j = same (byte_bit (bit_or b (2 ^ i)) j) (if i == j then true else byte_bit b j)

-- A table over the bytes and the positions of two bits.
abbrev at_each_byte : (ℕ → ℕ → ℕ → Bool) → Bool
at_each_byte f = passes (λ b. passes (λ i. passes (λ j. f b i j) 8) 8) 256

at_byte :
    (f : ℕ → ℕ → ℕ → Bool) (b i j : ℕ)
    → at_each_byte f ≡ true
    → b < 256
    → i < 8
    → j < 8
    → f b i j ≡ true
at_byte f b i j table hb hi hj =
    passes_at (λ j. f b i j) 8 j hj
      (passes_at (λ i. passes (λ j. f b i j) 8) 8 i hi
        (passes_at (λ b. passes (λ i. passes (λ j. f b i j) 8) 8) 256 b hb table))

set_table : at_each_byte set_agrees ≡ true
unfolding passes
set_table = refl

byte_bit-set :
    (b i j : ℕ)
    → b < 256
    → i < 8
    → j < 8
    → byte_bit (bit_or b (2 ^ i)) j ≡ (if i == j then true else byte_bit b j)
byte_bit-set b i j hb hi hj = same→eq _ _ (at_byte set_agrees b i j set_table hb hi hj)

byte_table : at_each_byte (λ b i j. ltb (bit_or b (2 ^ i)) 256) ≡ true
unfolding passes
byte_table = refl

byte-set : (b i : ℕ) → b < 256 → i < 8 → bit_or b (2 ^ i) < 256
byte-set b i hb hi =
    ltb→lt _ _ (at_byte (λ b i j. ltb (bit_or b (2 ^ i)) 256) b i 0 byte_table hb hi (omega arith))

byte_zero_table : passes (λ i. not (byte_bit 0 i)) 8 ≡ true
unfolding passes
byte_zero_table = refl

pub byte_bit-zero : (i : ℕ) → i < 8 → byte_bit 0 i ≡ false
byte_bit-zero i h = ground (arith, passes_at (λ i. not (byte_bit 0 i)) 8 i h byte_zero_table)

pub set_bit-IsByte : (p : List ℕ) (i : ℕ) → All IsByte p → All IsByte (set_bit p i)
unfolding set_bit
set_bit-IsByte p i h =
    All-set IsByte p (i / 8) _ h
      (byte-set _ (i % 8) (All-get_or IsByte p (i / 8) 0 h (omega arith)) (omega arith))

pub length-set_bit : (p : List ℕ) (i : ℕ) → length (set_bit p i) ≡ length p
unfolding set_bit
length-set_bit p i = length-set p (i / 8) _

-- Setting bit `i` sets that bit and leaves the others.
pub has_bit-set_bit :
    (p : List ℕ) (i j : ℕ)
    → All IsByte p
    → i / 8 < length p
    → has_bit (set_bit p i) j ≡ (if i == j then true else has_bit p j)
unfolding has_bit set_bit
has_bit-set_bit p i j h fits = elim (ℕ_discrete (i / 8) (j / 8)) [
  | yes e ↦
      rw
        (
          ← e,
          get_or-set_self p (i / 8) _ 0 fits,
          byte_bit-set _ (i % 8) (j % 8) (All-get_or IsByte p (i / 8) 0 h (omega arith))
              (omega arith) (omega arith),
        )
        (ground arith)
  | no ne ↦ rw (get_or-set_ne p (i / 8) (j / 8) _ 0 ne) (ground arith)
]
