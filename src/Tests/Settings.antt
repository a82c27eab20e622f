-- ===== src/Tests/Settings.antt =====
-- Settings and connection strings at concrete values.
use rapsqlite.Prelude.{◌≡◌, refl, [], ◌∷◌, Text, codes, text_eq, starts_with, has_char, arith}
use rapsqlite.Outcome.{ok}
use rapsqlite.Uri.{byte_len, parse_connection_string, decode_path}
use rapsqlite.Uri.RoundTrip.{IsParam, parse_connection_string_lem}

abbrev mode : Text × Text
mode = (codes "mode", codes "ro")

mode-IsParam : IsParam mode
unfolding text_eq has_char byte_len
mode-IsParam = record {
  has_key = refl;
  key_plain = refl;
  no_null = refl;
  no_separator = refl;
  short = ground arith;
}

parse_connection_string_lem_example :
    parse_connection_string (codes "file:///tmp/a.db?mode=ro&mode=ro")
    ≡ ok (codes "/tmp/a.db", mode ∷ mode ∷ [])
unfolding decode_path starts_with has_char byte_len
parse_connection_string_lem_example =
    parse_connection_string_lem (codes "///tmp/a.db") mode (mode ∷ []) refl (ground arith)
      mode-IsParam (mode-IsParam, tt)
