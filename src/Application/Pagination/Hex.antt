-- ===== src/Application/Pagination/Hex.antt =====
-- `hex`, `unhex` and `constant_time_eq` of src/crates/application/src/pagination.rs.
use pvlog.Common.{
  ℕ, ◌*◌, ◌/◌, ◌%◌, ◌<◌, ◌≡◌, refl, ap, ◌↔◌, Bool, true, false, List, [], ◌∷◌, bit_or, bit_xor,
  ◌==◌, length, get_or, Result, ok, err, passes, passes_at, arith,
}
use pvlog.Common.Digits.{bit_or-eq-zero, bit_xor-eq-zero, bit_xor_self}
use pvlog.Application.Pagination.{
  IsBytes, digits_table, hex, digit, unhex_pairs, unhex, difference_from, constant_time_eq,
  PaginationError,
}

abbrev is_digit : ℕ → Bool
is_digit n = elim (digit (get_or digits_table n 0)) [ ok m ↦ m == n | err e ↦ false ]

is_digit→eq :
    (n : ℕ) (r : Result PaginationError ℕ)
    → (elim r [ ok m ↦ m == n | err e ↦ false ]) ≡ true
    → r ≡ ok n
is_digit→eq n (ok m) h = ap ok (ground arith)
is_digit→eq n (err e) h = cc

digit-table : (n : ℕ) → n < 16 → digit (get_or digits_table n 0) ≡ ok n
unfolding passes digit
digit-table n h = is_digit→eq n (digit (get_or digits_table n 0)) (passes_at is_digit 16 n h refl)

halves : (b : ℕ) → b < 256 → bit_or (b / 16 * 16) (b % 16) ≡ b
unfolding passes
halves b h =
    same (bit_or (b / 16 * 16) (b % 16))
      (passes_at (λ c. bit_or (c / 16 * 16) (c % 16) == c) 256 b h refl)
  where
    same : (m : ℕ) → (m == b) ≡ true → m ≡ b
    same m e = ground arith

hex-unhex_pairs : (bs : List ℕ) → IsBytes bs → unhex_pairs (hex bs) ≡ ok bs
unfolding hex unhex_pairs
hex-unhex_pairs [] h = refl
hex-unhex_pairs (b ∷ bs) h =
    rw
      (
        digit-table (b / 16) (omega (arith, h.0)),
        digit-table (b % 16) (omega arith),
        hex-unhex_pairs bs h.1,
        halves b h.0,
      )
      refl

length-hex : (bs : List ℕ) → length (hex bs) ≡ 2 * length bs
unfolding hex
length-hex [] = refl
length-hex (b ∷ bs) = omega (arith, length-hex bs)

-- Bytes written in hexadecimal are read back.
pub unhex-hex : (bs : List ℕ) → IsBytes bs → unhex (hex bs) ≡ ok bs
unfolding unhex
unhex-hex bs h =
    let even : (length (hex bs) % 2 == 0) ≡ true = ground (arith, length-hex bs) in
    rw (even, hex-unhex_pairs bs h) refl

pub difference_from-eq-zero :
    (d : ℕ) (left right : List ℕ)
    → length left ≡ length right
    → difference_from d left right ≡ 0
    → (d ≡ 0) × (left ≡ right)
unfolding difference_from
difference_from-eq-zero d [] [] h e = (e, refl)
difference_from-eq-zero d [] (b ∷ right) h e = absurd (omega arith)
difference_from-eq-zero d (a ∷ left) [] h e = absurd (omega arith)
difference_from-eq-zero d (a ∷ left) (b ∷ right) h e =
    let (now, later) =
      difference_from-eq-zero (bit_or d (bit_xor a b)) left right (omega arith) e in
    let (before, here) = bit_or-eq-zero d (bit_xor a b) now in
    (before, cc (bit_xor-eq-zero a b here, later))

difference_from-starts : (d : ℕ) (left right : List ℕ) → difference_from d left right ≡ 0 → d ≡ 0
unfolding difference_from
difference_from-starts d [] right e = e
difference_from-starts d (a ∷ left) [] e = e
difference_from-starts d (a ∷ left) (b ∷ right) e =
    (bit_or-eq-zero d (bit_xor a b)
      (difference_from-starts (bit_or d (bit_xor a b)) left right e)).0

difference_from_self : (bs : List ℕ) → difference_from 0 bs bs ≡ 0
unfolding difference_from
difference_from_self [] = refl
difference_from_self (b ∷ bs) = rw (bit_xor_self b) (difference_from_self bs)

-- The comparison that does not stop early is equality, lengths included.
pub constant_time_eq-eq :
    (left right : List ℕ) → (constant_time_eq left right ≡ true) ↔ (left ≡ right)
unfolding constant_time_eq
constant_time_eq-eq left right = (
  (λ h.
      let none_differ : difference_from (bit_xor (length left) (length right)) left right ≡ 0 =
        ground arith in
      let lengths =
        bit_xor-eq-zero (length left) (length right)
          (difference_from-starts (bit_xor (length left) (length right)) left right none_differ) in
      (difference_from-eq-zero (bit_xor (length left) (length right)) left right lengths
        none_differ).1),
  (λ e. rw (e, bit_xor_self (length right), difference_from_self right) refl),
)
