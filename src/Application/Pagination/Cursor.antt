-- ===== src/Application/Pagination/Cursor.antt =====
-- `PageCursorCodec` of src/crates/application/src/pagination.rs: what is written is read back within
-- its life and for its query only, and nothing is read without the key's signature.
use pvlog.Common.{
  ℕ, ◌*◌, ◌/◌, ◌%◌, ◌<◌, ◌≡◌, refl, ◌∙◌, Bool, true, false, not, ◌&&◌, List, [], ◌∷◌, ◌++◌, some,
  ◌==◌, length, get_or, ok, err, passes, passes_at, arith, if◌then◌else◌, ok_or-eq-ok,
  fail_if-eq-ok, >>=-eq-ok, ℤ, pos, leb_ℤ, checked_add, ◌+ℤ◌, Bool-cases, inl, inr,
}
use pvlog.Application.Pagination.{
  CursorPosition, Payload, PageCursorCodec, CursorLibraries, CursorLibraryLaws, IsBytes,
  digits_table, hex, unhex, constant_time_eq, split_once, bytes_eq, encode, decode, accept,
  invalid_cursor, expired_cursor, query_mismatch,
}
use pvlog.Application.Pagination.Hex.{unhex-hex, constant_time_eq-eq}

no_dot : (n : ℕ) → n < 16 → (get_or digits_table n 0 == 46) ≡ false
unfolding passes
no_dot n h =
    not_true (get_or digits_table n 0 == 46)
      (passes_at (λ m. not (get_or digits_table m 0 == 46)) 16 n h refl)
  where
    not_true : (b : Bool) → not b ≡ true → b ≡ false
    not_true b e = ground arith

-- A string in hexadecimal has no dot, so the first one is the separator.
split_once-hex :
    (bs cs : List ℕ) → IsBytes bs → split_once (hex bs ++ (46 ∷ cs)) ≡ some (hex bs, cs)
unfolding hex split_once
split_once-hex [] cs h = refl
split_once-hex (b ∷ bs) cs h =
    rw
      (
        no_dot (b / 16) (omega (arith, h.0)),
        no_dot (b % 16) (omega arith),
        split_once-hex bs cs h.1,
      )
      refl

checked_add-eq-some : (a b s : ℤ) → checked_add a b ≡ some s → s ≡ a +ℤ b
unfolding checked_add
checked_add-eq-some a b s e = ground arith

bytes_eq→eq : (xs ys : List ℕ) → bytes_eq xs ys ≡ true → xs ≡ ys
unfolding bytes_eq
bytes_eq→eq [] [] h = refl
bytes_eq→eq [] (y ∷ ys) h = absurd (cc)
bytes_eq→eq (x ∷ xs) [] h = absurd (cc)
bytes_eq→eq (x ∷ xs) (y ∷ ys) h = ground (arith, bytes_eq→eq xs ys)

module _ (lib : CursorLibraries) (codec : PageCursorCodec) where
  accept_cases :
      (position : CursorPosition) (query_hash : List ℕ) (expires_at : ℤ) (shape : List ℕ) (now : ℤ)
      → accept lib codec
          (record {
            sort_value = position.sort_value;
            id = position.id;
            query_hash = query_hash;
            expires_at = expires_at;
          })
          shape
          now
        ≡ (if leb_ℤ expires_at now
            then err expired_cursor
            else if bytes_eq query_hash (lib.hash shape)
            then ok position
            else err query_mismatch)
  unfolding accept
  accept_cases position query_hash expires_at shape now = elim (Bool-cases (leb_ℤ expires_at now)) [
    | inl over ↦ rw over refl
    | inr live ↦ elim (Bool-cases (bytes_eq query_hash (lib.hash shape))) [
      | inl own ↦ rw (live, own) refl
      | inr other ↦ rw (live, other) refl
    ]
  ]

  accept-eq-ok :
      (payload : Payload) (shape : List ℕ) (now : ℤ) (position : CursorPosition)
      → accept lib codec payload shape now ≡ ok position
      → (leb_ℤ payload.expires_at now ≡ false)
        × (payload.query_hash ≡ lib.hash shape)
        × (position ≡ record { sort_value = payload.sort_value; id = payload.id })
  unfolding accept
  accept-eq-ok payload shape now position e =
      let (live, e1) = fail_if-eq-ok (leb_ℤ payload.expires_at now) expired_cursor _ e in
      let (own, e2) =
        fail_if-eq-ok (not (bytes_eq payload.query_hash (lib.hash shape))) query_mismatch _ e1 in
      (live, bytes_eq→eq payload.query_hash (lib.hash shape) (ground arith), ground (arith, e2))

  -- How a cursor that is read is made up.
  pub record Signed (cursor shape : List ℕ) (now : ℤ) (position : CursorPosition) : Type 0 where
    pub parts : List ℕ × List ℕ
    pub split : split_once cursor ≡ some parts
    pub bytes : List ℕ
    pub first : unhex parts.0 ≡ ok bytes
    pub second : unhex parts.1 ≡ ok (lib.keyed_hash codec.key bytes)
    pub payload : Payload
    pub parsed : lib.from_slice bytes ≡ some payload
    pub live : leb_ℤ payload.expires_at now ≡ false
    pub own : payload.query_hash ≡ lib.hash shape
    pub result : position ≡ record { sort_value = payload.sort_value; id = payload.id }

  -- Whatever is read stands under the key's signature: the cursor is the hexadecimal of a payload and,
  -- after a dot, that of the payload's keyed hash, and the payload has not expired and is of the query.
  pub decode-Signed :
      (cursor shape : List ℕ) (now : ℤ) (position : CursorPosition)
      → decode lib codec cursor shape now ≡ ok position
      → Signed cursor shape now position
  unfolding decode
  decode-Signed cursor shape now position e =
      let (parts, split, e1) = ok_or-eq-ok (split_once cursor) invalid_cursor _ e in
      let (bytes, first, e2) = >>=-eq-ok (unhex parts.0) _ e1 in
      let (signature, second, e3) = >>=-eq-ok (unhex parts.1) _ e2 in
      let (genuine, e4) =
        fail_if-eq-ok
          (not (
            (length signature == 32)
            && constant_time_eq signature (lib.keyed_hash codec.key bytes)))
          invalid_cursor _ e3 in
      let (payload, parsed, e5) = ok_or-eq-ok (lib.from_slice bytes) invalid_cursor _ e4 in
      let (live, own, result) = accept-eq-ok payload shape now position e5 in
      let equal : signature ≡ lib.keyed_hash codec.key bytes =
        (constant_time_eq-eq signature (lib.keyed_hash codec.key bytes)).0 (ground arith) in
      record {
        parts = parts;
        split = split;
        bytes = bytes;
        first = first;
        second = rw (← equal) second;
        payload = payload;
        parsed = parsed;
        live = live;
        own = own;
        result = result;
      }

module _ (lib : CursorLibraries) (laws : CursorLibraryLaws lib) (codec : PageCursorCodec) where
  -- A signed payload goes through to the checks on it.
  signed-accept :
      (p : Payload) (bytes shape : List ℕ) (now : ℤ)
      → lib.to_vec p ≡ some bytes
      → decode lib codec (hex bytes ++ (46 ∷ hex (lib.keyed_hash codec.key bytes))) shape now
        ≡ accept lib codec p shape now
  unfolding decode
  signed-accept p bytes shape now e =
      rw
        (
          split_once-hex bytes (hex (lib.keyed_hash codec.key bytes))
              (laws.to_vec-IsBytes p bytes e),
          unhex-hex bytes (laws.to_vec-IsBytes p bytes e),
          unhex-hex (lib.keyed_hash codec.key bytes) (laws.keyed_hash-IsBytes codec.key bytes),
          laws.length-keyed_hash codec.key bytes,
          (constant_time_eq-eq (lib.keyed_hash codec.key bytes) (lib.keyed_hash codec.key bytes)).1
              refl,
          laws.from_slice-to_vec p bytes e,
        )
        refl

  -- With libraries that keep the laws, a cursor that `encode` wrote is read at any later call: it
  -- is refused as expired from the end of its life on, otherwise as of another query if the
  -- hashes of the query shapes differ, and otherwise gives the position back.
  pub decode-encode_cursor :
      (position : CursorPosition) (shape : List ℕ) (now : ℤ) (cursor : List ℕ)
      → encode lib codec position shape now ≡ ok cursor
      → (later_shape : List ℕ) (later : ℤ)
      → decode lib codec cursor later_shape later ≡ (
          if leb_ℤ (now +ℤ pos (codec.lifetime_seconds * 1000)) later
          then err expired_cursor
          else if bytes_eq (lib.hash shape) (lib.hash later_shape)
          then ok position
          else err query_mismatch)
  unfolding encode
  decode-encode_cursor position shape now cursor e later_shape later =
      let (expires_at, fits, e1) =
        ok_or-eq-ok (checked_add now (pos (codec.lifetime_seconds * 1000))) invalid_cursor _ e in
      let (bytes, written, e2) =
        ok_or-eq-ok
          (lib.to_vec (record {
            sort_value = position.sort_value;
            id = position.id;
            query_hash = lib.hash shape;
            expires_at = expires_at;
          }))
          invalid_cursor _ e1 in
      let same : expires_at ≡ now +ℤ pos (codec.lifetime_seconds * 1000) =
        checked_add-eq-some now (pos (codec.lifetime_seconds * 1000)) expires_at fits in
      let text : hex bytes ++ (46 ∷ hex (lib.keyed_hash codec.key bytes)) ≡ cursor =
        ground (arith, e2) in
      rw (← text, ← same)
        (signed-accept _ bytes later_shape later written
          ∙ accept_cases lib codec position (lib.hash shape) expires_at later_shape later)
