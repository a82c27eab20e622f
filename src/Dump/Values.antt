-- ===== src/Dump/Values.antt =====
-- A reader of SQL literals, and that it reads back what `iterdump` writes for a text or a blob.
use rapsqlite.Prelude.{
  ℕ, ◌+◌, ◌-◌, ◌*◌, ◌<◌, ◌/◌, ◌%◌, ◌≡◌, refl, ap, ◌∙◌, false, List, [], ◌∷◌, ◌++◌, Option, none,
  some, Text, ◌==◌, ltb, if◌then◌else◌, arith,
}
use mathlib.Core.List.{append_assoc}
use rapsqlite.Types.{SqliteParam, text, blob}
use rapsqlite.Conversion.{Row}
use rapsqlite.Settings.{quote}
use rapsqlite.Schema.{get_i64, get_f64, get_string, try_get}
use rapsqlite.Schema.Quoting.{
  read_quoted, goes_on, read_quoted-plain, read_quoted-end, after_opening, after_opening-quote,
  prepend,
}
use rapsqlite.Dump.{hex_digit, bytes_to_hex, format_value}

abbrev pub AreBytes : List ℕ → Type 0
AreBytes [] = Unit
AreBytes (b ∷ bs) = (b < 256) × AreBytes bs

abbrev hex_value : ℕ → ℕ
hex_value c = if ltb c 58 then c - 48 else c - 87

unfoldable pub hex_bytes : Text → List ℕ
hex_bytes [] = []
hex_bytes (a ∷ []) = []
hex_bytes (a ∷ b ∷ rest) = (hex_value a * 16 + hex_value b) ∷ hex_bytes rest

byte_digits :
    (b : ℕ) → b < 256 → hex_value (hex_digit (b / 16)) * 16 + hex_value (hex_digit (b % 16)) ≡ b
byte_digits b h = ground arith

-- Every list of bytes is read back from its hexadecimal digits.
pub hex_bytes-bytes_to_hex : (bs : List ℕ) → AreBytes bs → hex_bytes (bytes_to_hex bs) ≡ bs
unfolding bytes_to_hex hex_bytes
hex_bytes-bytes_to_hex [] h = refl
hex_bytes-bytes_to_hex (b ∷ bs) h = ground (arith, byte_digits b h.0, hex_bytes-bytes_to_hex bs h.1)

hex_digit-plain : (n : ℕ) → (hex_digit n == 39) ≡ false
hex_digit-plain n = ground arith

read_quoted-hex :
    (bs : List ℕ) (rest : Text)
    → goes_on 39 rest ≡ false
    → read_quoted 39 (bytes_to_hex bs ++ 39 ∷ rest) ≡ some (bytes_to_hex bs, rest)
unfolding bytes_to_hex
read_quoted-hex [] rest e = read_quoted-end 39 rest e
read_quoted-hex (b ∷ bs) rest e =
    read_quoted-plain 39 (hex_digit (b / 16)) (hex_digit (b % 16) ∷ (bytes_to_hex bs ++ 39 ∷ rest))
      (hex_digit-plain (b / 16))
    ∙ ap (prepend (hex_digit (b / 16))) (
        read_quoted-plain 39 (hex_digit (b % 16)) (bytes_to_hex bs ++ 39 ∷ rest)
          (hex_digit-plain (b % 16))
        ∙ ap (prepend (hex_digit (b % 16))) (read_quoted-hex bs rest e))

as_text : Option (Text × Text) → Option (SqliteParam × Text)
as_text none = none
as_text (some (t, rest)) = some (text t, rest)

as_blob : Option (Text × Text) → Option (SqliteParam × Text)
unfolding hex_bytes
as_blob none = none
as_blob (some (t, rest)) = some (blob (hex_bytes t), rest)

-- A text or a blob at the start, and what follows it.
unfoldable pub read_literal : Text → Option (SqliteParam × Text)
unfolding read_quoted as_text as_blob after_opening
read_literal [] = none
read_literal (c ∷ cs) =
    if c == b'X' then as_blob (after_opening cs) else as_text (after_opening (c ∷ cs))

-- The values of a column that `format_value` writes as a text and as a blob.
pub data IsStored (row : Row) (i : ℕ) : SqliteParam → Type 0 where
  is_text :
      (s : Text)
      → get_i64 row i ≡ none
      → get_f64 row i ≡ none
      → get_string row i ≡ some s
      → IsStored row i (text s)
  is_blob :
      (bs : List ℕ)
      → get_i64 row i ≡ none
      → get_f64 row i ≡ none
      → get_string row i ≡ none
      → try_get (λ c. c.as_bytes) row i ≡ some bs
      → AreBytes bs
      → IsStored row i (blob bs)

format_value-text :
    (float_text : ℕ → Text) (row : Row) (i : ℕ) (s : Text)
    → get_i64 row i ≡ none
    → get_f64 row i ≡ none
    → get_string row i ≡ some s
    → format_value float_text row i ≡ quote s
unfolding format_value
format_value-text float_text row i s no_int no_float string = ground arith

format_value-blob :
    (float_text : ℕ → Text) (row : Row) (i : ℕ) (bs : List ℕ)
    → get_i64 row i ≡ none
    → get_f64 row i ≡ none
    → get_string row i ≡ none
    → try_get (λ c. c.as_bytes) row i ≡ some bs
    → format_value float_text row i ≡ b'X' ∷ (39 ∷ (bytes_to_hex bs ++ 39 ∷ []))
unfolding format_value
format_value-blob float_text row i bs no_int no_float no_string bytes = ground arith

-- A text or a blob that `iterdump` writes is read back by a reader of SQL literals, whatever it
-- contains, unless the text goes on with another quote.
pub format_value_lem :
    (float_text : ℕ → Text) (row : Row) (i : ℕ) (v : SqliteParam) (rest : Text)
    → IsStored row i v
    → goes_on 39 rest ≡ false
    → read_literal (format_value float_text row i ++ rest) ≡ some (v, rest)
unfolding read_literal
format_value_lem float_text row i v rest (is_text s no_int no_float string) e =
    ap (λ (t : Text). read_literal (t ++ rest))
      (format_value-text float_text row i s no_int no_float string)
    ∙ ap as_text (after_opening-quote s rest e)
format_value_lem float_text row i v rest (is_blob bs no_int no_float no_string bytes all) e =
    ap (λ (t : Text). read_literal (t ++ rest))
      (format_value-blob float_text row i bs no_int no_float no_string bytes)
    ∙ ap (λ (t : Text). as_blob (after_opening (39 ∷ t)))
        (append_assoc (bytes_to_hex bs) (39 ∷ []) rest)
    ∙ ap as_blob (read_quoted-hex bs rest e)
    ∙ ap (λ (t : List ℕ). some (blob t, rest)) (hex_bytes-bytes_to_hex bs all)
