-- ===== src/Application/Pagination/Samples.antt =====
-- The theorems on cursors with small stand-ins for serialisation and hashing: a payload is written as
-- five bytes where it fits them, a hash is a length, and a signature repeats the key's first byte.
use pvlog.Common.{
  ◌≡◌, refl, ℕ, suc, zero, List, [], ◌∷◌, Option, none, some, ok, ℤ, pos, negsuc, replicate,
  length-replicate, All-replicate, arith, length, ◌<◌, true, ◌↔◌, ◌/◌, ◌%◌, ◌*◌, ◌+◌, ◌&&◌, ltb,
  if◌then◌else◌, get_or, checked_add, ◌+ℤ◌,
}
use pvlog.Application.Pagination.{
  CursorPosition, Payload, PageCursorCodec, CursorLibraries, CursorLibraryLaws, IsBytes, hex, unhex,
  unhex_pairs, digit, constant_time_eq, difference_from, encode, decode, accept, split_once,
  bytes_eq,
}
use pvlog.Application.Pagination.Hex.{unhex-hex, constant_time_eq-eq}
use pvlog.Application.Pagination.Cursor.{decode-encode_cursor, Signed, decode-Signed}

unhex-hex_example : unhex (hex (0 ∷ 171 ∷ 255 ∷ [])) ≡ ok (0 ∷ 171 ∷ 255 ∷ [])
unhex-hex_example = unhex-hex (0 ∷ 171 ∷ 255 ∷ []) (omega arith, (omega arith, (omega arith, tt)))

abbrev one_two : List ℕ
one_two = 1 ∷ 2 ∷ []

abbrev one_three : List ℕ
one_three = 1 ∷ 3 ∷ []

constant_time_eq-eq_example : (constant_time_eq one_two one_three ≡ true) ↔ (one_two ≡ one_three)
constant_time_eq-eq_example = constant_time_eq-eq one_two one_three

abbrev write : List ℕ → ℕ → List ℕ → ℤ → Option (List ℕ)
write (x ∷ []) i (q ∷ []) (pos t) =
    if ltb x 256 && (ltb i 256 && (ltb q 256 && ltb t 65536))
    then some (x ∷ i ∷ q ∷ (t / 256) ∷ (t % 256) ∷ [])
    else none
write sort_value i query_hash expires_at = none

abbrev read : List ℕ → Option Payload
read (x ∷ i ∷ q ∷ high ∷ low ∷ []) = some (record {
  sort_value = x ∷ [];
  id = i;
  query_hash = q ∷ [];
  expires_at = pos (high * 256 + low);
})
read bytes = none

abbrev small : CursorLibraries
small = record {
  to_vec = λ p. write p.sort_value p.id p.query_hash p.expires_at;
  from_slice = read;
  hash = λ text. (length text % 256) ∷ [];
  keyed_hash = λ key bytes. replicate 32 (get_or key 0 0 % 256);
}

read-write :
    (s : List ℕ) (i : ℕ) (q : List ℕ) (t : ℤ) (bytes : List ℕ)
    → write s i q t ≡ some bytes
    → read bytes ≡ some (record { sort_value = s; id = i; query_hash = q; expires_at = t })
read-write (x ∷ []) i (q ∷ []) (pos t) bytes e =
    let quotient : t / 256 * 256 + t % 256 ≡ t = omega arith in ground (arith, quotient)
read-write [] i q t bytes e = cc
read-write (x ∷ y ∷ s) i q t bytes e = cc
read-write (x ∷ []) i [] t bytes e = cc
read-write (x ∷ []) i (q ∷ r ∷ qs) t bytes e = cc
read-write (x ∷ []) i (q ∷ []) (negsuc t) bytes e = cc

write-IsBytes :
    (s : List ℕ) (i : ℕ) (q : List ℕ) (t : ℤ) (bytes : List ℕ)
    → write s i q t ≡ some bytes
    → IsBytes bytes
write-IsBytes (x ∷ []) i (q ∷ []) (pos t) bytes e = ground arith
write-IsBytes [] i q t bytes e = cc
write-IsBytes (x ∷ y ∷ s) i q t bytes e = cc
write-IsBytes (x ∷ []) i [] t bytes e = cc
write-IsBytes (x ∷ []) i (q ∷ r ∷ qs) t bytes e = cc
write-IsBytes (x ∷ []) i (q ∷ []) (negsuc t) bytes e = cc

small-CursorLibraryLaws : CursorLibraryLaws small
small-CursorLibraryLaws = record {
  from_slice-to_vec = λ p bytes e. read-write p.sort_value p.id p.query_hash p.expires_at bytes e;
  to_vec-IsBytes = λ p bytes e. write-IsBytes p.sort_value p.id p.query_hash p.expires_at bytes e;
  length-keyed_hash = λ key bytes. length-replicate 32 (get_or key 0 0 % 256);
  keyed_hash-IsBytes =
      λ key bytes. All-replicate (λ b. b < 256) 32 (get_or key 0 0 % 256) (omega arith);
}

abbrev codec : PageCursorCodec
codec = record { key = 7 ∷ []; lifetime_seconds = 10 }

abbrev here : CursorPosition
here = record { sort_value = 65 ∷ []; id = 9 }

-- The signature in hexadecimal.
abbrev sevens : ℕ → List ℕ
sevens zero = []
sevens (suc n) = 48 ∷ 55 ∷ sevens n

abbrev cursor : List ℕ
cursor = 52 ∷ 49 ∷ 48 ∷ 57 ∷ 48 ∷ 50 ∷ 50 ∷ 57 ∷ 48 ∷ 52 ∷ 46 ∷ sevens 32

written : encode small codec here one_two (pos 500) ≡ ok cursor
unfolding encode hex checked_add ◌+ℤ◌
written = refl

decode-encode_cursor_example : decode small codec cursor one_three (pos 10499) ≡ ok here
unfolding bytes_eq ◌+ℤ◌
decode-encode_cursor_example =
    decode-encode_cursor small small-CursorLibraryLaws codec here one_two (pos 500) cursor written
      one_three (pos 10499)

read_back : decode small codec cursor one_two (pos 600) ≡ ok here
unfolding decode split_once unhex unhex_pairs digit constant_time_eq difference_from accept bytes_eq
read_back = refl

decode-Signed_example : Signed small codec cursor one_two (pos 600) here
decode-Signed_example = decode-Signed small codec cursor one_two (pos 600) here read_back
