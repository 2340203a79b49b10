-- ===== src/Common/Text.antt =====
-- Strings as lists of code points, and Rust's white space.
use pvlog.Common.{ℕ, Bool, ◌||◌, ◌&&◌, List, ◌==◌, leb, all}

-- `char::is_whitespace`.
abbrev pub is_whitespace : ℕ → Bool
is_whitespace c =
    (leb 9 c && leb c 13)
    || (c == 32)
    || (c == 133)
    || (c == 160)
    || (c == 5760)
    || (leb 8192 c && leb c 8202)
    || (c == 8232)
    || (c == 8233)
    || (c == 8239)
    || (c == 8287)
    || (c == 12288)

-- `trim().is_empty()`.
unfoldable pub trims_to_empty : List ℕ → Bool
trims_to_empty = all is_whitespace
