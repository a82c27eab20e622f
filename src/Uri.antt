-- ===== src/Uri.antt =====
-- src/utils.rs: `validate_path` and `parse_connection_string`.
pub mod RoundTrip
use rapsqlite.Prelude.{
  ℕ, ◌+◌, Bool, true, false, ◌||◌, List, [], ◌∷◌, ◌++◌, Option, none, some, Text, codes, drop, ◌==◌,
  ltb, if◌then◌else◌, text_eq, starts_with, has_char,
}
use rapsqlite.Outcome.{Outcome, ok, err, PyErr, ◌>>=◌}
use rapsqlite.Chars.{utf8_width}

-- `str::len`, in bytes.
unfoldable pub byte_len : Text → ℕ
unfolding utf8_width
byte_len [] = 0
byte_len (c ∷ cs) = utf8_width c + byte_len cs

-- The tests of `validate_path`; the one on `../` has an empty body.
unfoldable pub validate_path : Text → Outcome (Unit {0})
unfolding byte_len
validate_path [] = err (PyErr.value_error (codes "Database path cannot be empty"))
validate_path (c ∷ cs) =
    if has_char (c ∷ cs) 0
    then err (PyErr.value_error (codes "Database path cannot contain null bytes"))
    else if ltb 4096 (byte_len (c ∷ cs))
    then err (PyErr.path_too_long (byte_len (c ∷ cs)))
    else ok tt

-- `find(k)`, and the parts before and after what it finds.
unfoldable pub split_first : ℕ → Text → Option (Text × Text)
split_first k [] = none
split_first k (c ∷ cs) =
    let rest = split_first k cs in
    if c == k then some ([], cs) else elim rest [ none ↦ none | some (a, b) ↦ some (c ∷ a, b) ]

-- `split(k)`: the first piece, and the others.
unfoldable pub pieces : ℕ → Text → Text × List Text
pieces k [] = ([], [])
pieces k (c ∷ cs) =
    let rest = pieces k cs in if c == k then ([], rest.0 ∷ rest.1) else (c ∷ rest.0, rest.1)

abbrev pub null_bytes : Outcome (Option (Text × Text))
null_bytes = err (PyErr.value_error (codes "URI parameter cannot contain null bytes"))

-- A parameter with a value.
unfoldable pub key_value : Text → Text → Outcome (Option (Text × Text))
key_value [] value = err (PyErr.value_error (codes "URI parameter key cannot be empty"))
key_value (c ∷ cs) value =
    if has_char (c ∷ cs) 0 || has_char value 0 then null_bytes else ok (some (c ∷ cs, value))

-- A parameter without a value; an empty one is skipped.
unfoldable pub flag : Text → Outcome (Option (Text × Text))
flag [] = ok none
flag (c ∷ cs) = if has_char (c ∷ cs) 0 then null_bytes else ok (some (c ∷ cs, []))

-- One round of the loop over the pairs.
unfoldable pub parse_pair : Text → Outcome (Option (Text × Text))
unfolding byte_len split_first key_value flag
parse_pair pair =
    if ltb 512 (byte_len pair)
    then err (PyErr.parameter_too_long (byte_len pair))
    else elim (split_first b'=' pair) [ some (key, value) ↦ key_value key value | none ↦ flag pair ]

abbrev pub push {ℓ} : {A : Type ℓ} → Option A → List A → List A
push none xs = xs
push (some x) xs = x ∷ xs

unfoldable pub parse_pairs : List Text → Outcome (List (Text × Text))
unfolding parse_pair
parse_pairs [] = ok []
parse_pairs (pair ∷ pairs) = do p ← parse_pair pair; ps ← parse_pairs pairs; ok (push p ps)

unfoldable pub parse_query : Text → Outcome (List (Text × Text))
unfolding byte_len pieces parse_pairs
parse_query query =
    if ltb 4096 (byte_len query)
    then err (PyErr.query_too_long (byte_len query))
    else let ps = pieces b'&' query in parse_pairs (ps.0 ∷ ps.1)

-- `file:///path` loses two slashes, and `file://host` keeps them.
unfoldable pub decode_path : Text → Text
unfolding starts_with
decode_path path = if starts_with path (codes "///") then drop 2 path else path

unfoldable pub parse_uri : Text → Outcome (Text × List (Text × Text))
unfolding split_first parse_query decode_path
parse_uri part = elim (split_first b'?' part) [
  | none ↦ ok (decode_path part, [])
  | some (path, query) ↦ parse_query query >>= λ params. ok (decode_path path, params)
]

unfoldable pub parse_connection_string : Text → Outcome (Text × List (Text × Text))
unfolding text_eq starts_with parse_uri
parse_connection_string uri =
    if text_eq uri (codes ":memory:")
    then ok (codes ":memory:", [])
    else if starts_with uri (codes "file:")
    then parse_uri (drop 5 uri)
    else ok (uri, [])
