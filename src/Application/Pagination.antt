-- ===== src/Application/Pagination.antt =====
-- src/crates/application/src/pagination.rs: signed cursors. A string is the list of its bytes. The
-- crates blake3 and serde_json are a record of operations and the laws that they document.
pub mod Hex
pub mod Cursor
mod Samples
use pvlog.Common.{
  ℕ, suc, zero, ◌+◌, ◌-◌, ◌*◌, ◌/◌, ◌%◌, ◌≡◌, ◌≢◌, Bool, true, false, not, ◌&&◌, List, [], ◌∷◌,
  ◌++◌, Option, none, some, bit_or, bit_xor, ◌==◌, leb, ltb, length, get_or, All, ◌<◌, Result, ok,
  err, ◌>>=◌, ◌>>◌, ok_or, fail_if, ℤ, pos, checked_add, leb_ℤ, if◌then◌else◌,
}

pub record CursorPosition : Type 0 where
  pub sort_value : List ℕ
  pub id : ℕ

pub record Payload : Type 0 where
  pub sort_value : List ℕ
  pub id : ℕ
  pub query_hash : List ℕ
  pub expires_at : ℤ

pub data PaginationError : Type 0 where
  invalid_cursor expired_cursor query_mismatch invalid_page_size : PaginationError

pub record PageCursorCodec : Type 0 where
  pub key : List ℕ
  pub lifetime_seconds : ℕ

pub record CursorLibraries : Type 0 where
  pub to_vec : Payload → Option (List ℕ)
  pub from_slice : List ℕ → Option Payload
  pub hash : List ℕ → List ℕ
  pub keyed_hash : List ℕ → List ℕ → List ℕ

abbrev pub IsBytes : List ℕ → Type 0
IsBytes = All (λ b. b < 256)

-- What is serialised is bytes and is read back; a signature is 32 bytes.
pub record CursorLibraryLaws (lib : CursorLibraries) : Type 0 where
  pub from_slice-to_vec :
      (p : Payload) (bytes : List ℕ) → lib.to_vec p ≡ some bytes → lib.from_slice bytes ≡ some p
  pub to_vec-IsBytes : (p : Payload) (bytes : List ℕ) → lib.to_vec p ≡ some bytes → IsBytes bytes
  pub length-keyed_hash : (key bytes : List ℕ) → length (lib.keyed_hash key bytes) ≡ 32
  pub keyed_hash-IsBytes : (key bytes : List ℕ) → IsBytes (lib.keyed_hash key bytes)

-- `b"0123456789abcdef"`.
abbrev pub digits_table : List ℕ
digits_table = 48 ∷ 49 ∷ 50 ∷ 51 ∷ 52 ∷ 53 ∷ 54 ∷ 55 ∷ 56 ∷ 57 ∷ 97 ∷ 98 ∷ 99 ∷ 100 ∷ 101 ∷ 102 ∷ []

-- `byte >> 4` and `byte & 15` as quotient and remainder.
unfoldable pub hex : List ℕ → List ℕ
hex [] = []
hex (b ∷ bs) = get_or digits_table (b / 16) 0 ∷ get_or digits_table (b % 16) 0 ∷ hex bs

unfoldable pub digit : ℕ → Result PaginationError ℕ
digit value =
    if leb 48 value && leb value 57
    then ok (value - 48)
    else if leb 97 value && leb value 102
    then ok (value - 97 + 10)
    else err invalid_cursor

-- `chunks_exact(2)` and the closure on each pair.
unfoldable pub unhex_pairs : List ℕ → Result PaginationError (List ℕ)
unhex_pairs [] = ok []
unhex_pairs (x ∷ []) = ok []
unhex_pairs (x ∷ y ∷ rest) = do
  high ← digit x
  low ← digit y
  bytes ← unhex_pairs rest
  ok (bit_or (high * 16) low ∷ bytes)

unfoldable pub unhex : List ℕ → Result PaginationError (List ℕ)
unhex value = do fail_if (not (length value % 2 == 0)) invalid_cursor; unhex_pairs value

-- The fold over the zipped bytes.
unfoldable pub difference_from : ℕ → List ℕ → List ℕ → ℕ
difference_from difference [] right = difference
difference_from difference left [] = difference
difference_from difference (a ∷ left) (b ∷ right) =
    difference_from (bit_or difference (bit_xor a b)) left right

unfoldable pub constant_time_eq : List ℕ → List ℕ → Bool
constant_time_eq left right = difference_from (bit_xor (length left) (length right)) left right == 0

-- `str::split_once('.')`.
unfoldable pub split_once : List ℕ → Option (List ℕ × List ℕ)
split_once [] = none
split_once (c ∷ cs) =
    let later = split_once cs in
    if c == 46
    then some ([], cs)
    else elim later [ none ↦ none | some (before, after) ↦ some (c ∷ before, after) ]

-- The derived equality of two hashes.
unfoldable pub bytes_eq : List ℕ → List ℕ → Bool
bytes_eq [] [] = true
bytes_eq (x ∷ xs) (y ∷ ys) = (x == y) && bytes_eq xs ys
bytes_eq _ _ = false

module _ (lib : CursorLibraries) (codec : PageCursorCodec) where
  unfoldable pub encode : CursorPosition → List ℕ → ℤ → Result PaginationError (List ℕ)
  encode position query_shape now = do
    expires_at ← ok_or (checked_add now (pos (codec.lifetime_seconds * 1000))) invalid_cursor
    payload ←
        ok_or
          (lib.to_vec (record {
            sort_value = position.sort_value;
            id = position.id;
            query_hash = lib.hash query_shape;
            expires_at = expires_at;
          }))
          invalid_cursor
    ok (hex payload ++ (46 ∷ hex (lib.keyed_hash codec.key payload)))

  -- The checks on a payload whose signature holds.
  unfoldable pub accept : Payload → List ℕ → ℤ → Result PaginationError CursorPosition
  accept payload query_shape now = do
    fail_if (leb_ℤ payload.expires_at now) expired_cursor
    fail_if (not (bytes_eq payload.query_hash (lib.hash query_shape))) query_mismatch
    ok (record { sort_value = payload.sort_value; id = payload.id })

  unfoldable pub decode : List ℕ → List ℕ → ℤ → Result PaginationError CursorPosition
  decode cursor query_shape now = do
    parts ← ok_or (split_once cursor) invalid_cursor
    bytes ← unhex parts.0
    signature ← unhex parts.1
    fail_if
        (not
          ((length signature == 32) && constant_time_eq signature (lib.keyed_hash codec.key bytes)))
        invalid_cursor
    payload ← ok_or (lib.from_slice bytes) invalid_cursor
    accept payload query_shape now

unfoldable pub page_size : ℕ → ℕ → Result PaginationError ℕ
page_size requested maximum =
    if ltb 0 requested && leb requested maximum then ok requested else err invalid_page_size
