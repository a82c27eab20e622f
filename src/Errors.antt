-- ===== src/Errors.antt =====
-- src/errors.rs: the texts of errors, with the values of sensitive keywords taken out of the query.
pub mod Bytes
pub mod Redaction
use rapsqlite.Prelude.{
  ℕ, ◌+◌, Bool, true, false, not, ◌||◌, ◌&&◌, List, [], ◌∷◌, ◌++◌, Option, none, some, Text, codes,
  ◌==◌, ltb, leb, if◌then◌else◌, contains,
}
use rapsqlite.Outcome.{Outcome, ok, err, PyErr, SqlxError, ◌>>=◌}
use rapsqlite.Chars.{is_ascii, is_whitespace}
use rapsqlite.Uri.{byte_len}
use rapsqlite.Errors.Bytes.{find_char, find_text, slice_from, replace_range}

-- `to_lowercase` of a character that is not ASCII, from the text before it, the latest first, and the
-- text after it.
abbrev pub LowerTable : Type 0
LowerTable = Text → ℕ → Text → Text

lower_char : LowerTable → Text → ℕ → Text → Text
lower_char lower before c after =
    if is_ascii c
    then (if leb b'A' c && leb c b'Z' then c + 32 else c) ∷ []
    else lower before c after

lower_after : LowerTable → Text → Text → Text
unfolding lower_char
lower_after lower before [] = []
lower_after lower before (c ∷ cs) =
    lower_char lower before c cs ++ lower_after lower (c ∷ before) cs

unfoldable pub to_lowercase : LowerTable → Text → Text
unfolding lower_after
to_lowercase lower = lower_after lower []

abbrev pub sensitive_keywords : List Text
sensitive_keywords =
    codes "password"
    ∷ codes "passwd"
    ∷ codes "secret"
    ∷ codes "token"
    ∷ codes "api_key"
    ∷ codes "api-key"
    ∷ codes "auth_token"
    ∷ codes "auth-token"
    ∷ []

-- What a value ends before.
abbrev pub is_end : ℕ → Bool
is_end c = c == b' ' || c == b',' || c == 39 || c == 34 || c == b';' || c == 10 || c == 13

abbrev pub or_panic {ℓ κ} : {A : Type ℓ} {B : Type κ} → Option A → (A → Outcome B) → Outcome B
or_panic none f = err PyErr.panic
or_panic (some a) f = f a

abbrev pub or_else : ℕ → ℕ → Option ℕ → ℕ
or_else start otherwise none = otherwise
or_else start otherwise (some i) = start + i

abbrev pub stars : Text
stars = codes "***"

-- The offsets are those in the query, also when the text was changed before.
unfoldable pub redact_range : ℕ → ℕ → Text → Outcome Text
unfolding replace_range
redact_range start end sanitized =
    if ltb start end then or_panic (replace_range sanitized start end stars) ok else ok sanitized

unfoldable pub redact_value : Text → ℕ → Text → Outcome Text
unfolding redact_range slice_from find_char byte_len
redact_value query start sanitized =
    or_panic (slice_from query start)
      λ tail. redact_range start (or_else start (byte_len query) (find_char is_end tail)) sanitized

unfoldable pub redact_after : Text → ℕ → Text → Outcome Text
unfolding redact_value slice_from find_char is_whitespace
redact_after query start sanitized = or_panic (slice_from query start) λ tail.
    redact_value query (or_else start start (find_char (λ c. not (is_whitespace c)) tail)) sanitized

unfoldable pub redact_sign : Text → ℕ → Option ℕ → Text → Outcome Text
unfolding redact_after
redact_sign query start none sanitized = ok sanitized
redact_sign query start (some sign) sanitized = redact_after query (start + sign + 1) sanitized

-- The first place of a keyword in the query in lower case is an offset in the query itself.
unfoldable pub redact_at : Text → Option ℕ → Text → Outcome Text
unfolding redact_sign slice_from find_char
redact_at query none sanitized = ok sanitized
redact_at query (some start) sanitized =
    or_panic (slice_from query start)
      λ tail. redact_sign query start (find_char (λ c. c == b'=') tail) sanitized

unfoldable pub redact_all : Text → Text → List Text → Text → Outcome Text
unfolding redact_at find_text
redact_all query lowered [] sanitized = ok sanitized
redact_all query lowered (keyword ∷ keywords) sanitized =
    redact_at query (find_text lowered keyword) sanitized >>= λ text.
    redact_all query lowered keywords text

unfoldable pub sanitize_query : LowerTable → Text → Outcome Text
unfolding redact_all to_lowercase
sanitize_query lower query = redact_all query (to_lowercase lower query) sensitive_keywords query

-- The Python class of the error, by the error of sqlx.
pub data ErrorClass : Type 0 where
  integrity operational database_error programming : ErrorClass

unfoldable pub class_of_message : Text → ErrorClass
unfolding contains
class_of_message msg =
    if contains msg (codes "SQLITE_CONSTRAINT")
      || contains msg (codes "UNIQUE constraint")
      || contains msg (codes "NOT NULL constraint")
      || contains msg (codes "FOREIGN KEY constraint")
    then integrity
    else if contains msg (codes "SQLITE_BUSY") || contains msg (codes "database is locked")
    then operational
    else database_error

unfoldable pub error_class : SqlxError → ErrorClass
unfolding class_of_message
error_class (SqlxError.database msg) = class_of_message msg
error_class (SqlxError.protocol msg) = operational
error_class (SqlxError.too_many_parameters n) = operational
error_class SqlxError.io = operational
error_class (SqlxError.column_not_found name) = programming
error_class SqlxError.column_index_out_of_bounds = programming
error_class SqlxError.decode = programming
error_class SqlxError.other = database_error

-- `Display` of the error of sqlx is a parameter.
module _ (lower : LowerTable) (show : SqlxError → Text) (path : Text) where
  abbrev failed : SqlxError → Text
  failed e = codes "Failed to execute query on database " ++ (path ++ (codes ": " ++ show e))

  unfoldable pub map_sqlx_error_with_query_visibility :
      SqlxError → Text → Bool → Outcome (ErrorClass × Text)
  unfolding sanitize_query error_class
  map_sqlx_error_with_query_visibility e query true = sanitize_query lower query >>= λ text.
      ok (error_class e, failed e ++ (10 ∷ (codes "Query: " ++ text)))
  map_sqlx_error_with_query_visibility e query false = ok (error_class e, failed e)

  unfoldable pub map_sqlx_error : SqlxError → Text → Outcome (ErrorClass × Text)
  unfolding sanitize_query map_sqlx_error_with_query_visibility
  map_sqlx_error e query =
      sanitize_query lower query >>= λ text. map_sqlx_error_with_query_visibility e text true
