-- ===== src/Tests/Errors.antt =====
-- Queries in error texts at concrete values.
use rapsqlite.Prelude.{◌≡◌, refl, [], ◌∷◌, codes, starts_with}
use rapsqlite.Outcome.{ok, err, PyErr}
use rapsqlite.Chars.{is_whitespace, utf8_width}
use rapsqlite.Uri.{byte_len}
use rapsqlite.Errors.{LowerTable, to_lowercase, sensitive_keywords, sanitize_query}
use rapsqlite.Errors.Bytes.{find_text, find_char, slice_from, replace_range}
use rapsqlite.Errors.Redaction.{OccursAlone, here, sanitize_query_lem}

abbrev lower : LowerTable
lower before c after = c ∷ []

set_password-OccursAlone :
    OccursAlone
      (to_lowercase lower (codes "SET password = hunter2, x"))
      (byte_len (codes "SET "))
      sensitive_keywords
unfolding to_lowercase find_text byte_len starts_with utf8_width
set_password-OccursAlone = here refl (refl, (refl, (refl, (refl, (refl, (refl, (refl, tt)))))))

sanitize_query_lem_example :
    sanitize_query lower (codes "SET password = hunter2, x") ≡ ok (codes "SET password = ***, x")
unfolding is_whitespace
sanitize_query_lem_example =
    sanitize_query_lem lower (codes "SET ") (codes "password ") (codes " ") (codes "hunter2")
      (codes ", x") set_password-OccursAlone refl refl refl refl refl

-- The keyword `token` is also found in `auth_token`: the value is replaced twice, the second time at
-- the offsets of the first text.
auth_token_panics : sanitize_query lower (codes "auth_token=abcdef") ≡ err PyErr.panic
unfolding sanitize_query to_lowercase find_text find_char slice_from replace_range byte_len
    starts_with utf8_width is_whitespace
auth_token_panics = refl

-- A value in quotes stays.
quoted_password : sanitize_query lower (codes "password='abc'") ≡ ok (codes "password='abc'")
unfolding sanitize_query to_lowercase find_text find_char slice_from replace_range byte_len
    starts_with utf8_width is_whitespace
quoted_password = refl
