-- ===== src/Chars.antt =====
-- The tests of Rust's `char` that the code makes. On ASCII, and for white space, they are written out;
-- for all other characters the Unicode tables are a parameter.
use rapsqlite.Prelude.{ℕ, ◌-◌, Bool, ◌||◌, ◌&&◌, [], ◌∷◌, Text, leb, ltb, ◌==◌, if◌then◌else◌}

pub record CharTables : Type 0 where
  pub alphabetic : ℕ → Bool
  pub numeric : ℕ → Bool
  pub upper : ℕ → Text

abbrev within : ℕ → ℕ → ℕ → Bool
within lo hi c = leb lo c && leb c hi

-- `char::is_whitespace`: the property White_Space.
unfoldable pub is_whitespace : ℕ → Bool
is_whitespace c =
    within 0x09 0x0d c
    || c == 0x20
    || c == 0x85
    || c == 0xa0
    || c == 0x1680
    || within 0x2000 0x200a c
    || within 0x2028 0x2029 c
    || c == 0x202f
    || c == 0x205f
    || c == 0x3000

abbrev pub is_ascii : ℕ → Bool
is_ascii c = ltb c 128

unfoldable pub is_alphabetic : CharTables → ℕ → Bool
is_alphabetic tables c =
    if is_ascii c then within b'a' b'z' c || within b'A' b'Z' c else tables.alphabetic c

unfoldable pub is_alphanumeric : CharTables → ℕ → Bool
unfolding is_alphabetic
is_alphanumeric tables c =
    is_alphabetic tables c || (if is_ascii c then within b'0' b'9' c else tables.numeric c)

-- `char::to_uppercase`, which may give several characters.
unfoldable pub to_uppercase : CharTables → ℕ → Text
to_uppercase tables c =
    if is_ascii c then (if within b'a' b'z' c then c - 32 else c) ∷ [] else tables.upper c

-- The number of bytes of a character in UTF-8.
unfoldable pub utf8_width : ℕ → ℕ
utf8_width c = if ltb c 0x80 then 1 else if ltb c 0x800 then 2 else if ltb c 0x10000 then 3 else 4
