-- ===== src/Params.antt =====
-- src/parameters.rs: named and positional parameters. The scan works on characters, as the code does,
-- and the replacement on bytes.
pub mod Substitute
pub mod Named
use mathlib.Core.List.{reverse}
use rapsqlite.Prelude.{
  ℕ, zero, suc, ◌+◌, ◌-◌, Bool, true, false, ◌||◌, ◌&&◌, List, [], ◌∷◌, ◌++◌, Option, none, some,
  Text, length, ltb, ◌==◌, if◌then◌else◌, text_eq,
}
use rapsqlite.Chars.{CharTables, is_alphabetic, is_alphanumeric, utf8_width}
use rapsqlite.Outcome.{Outcome, ok, err, PyErr, ◌>>=◌}
use rapsqlite.Types.{PyObject, SqliteParam, PyApi, from_py}

-- A placeholder: where it begins, where it ends, and its name.
pub record Placeholder : Type 0 where
  pub start : ℕ
  pub stop : ℕ
  pub name : Text

unfoldable pub is_prefix : ℕ → Bool
is_prefix c = c == b':' || c == b'@' || c == b'$'

-- `dict.get_item(name)`.
unfoldable pub get_item : Text → List (Text × PyObject) → Option PyObject
get_item n [] = none
get_item n ((k, v) ∷ d) = if text_eq k n then some v else get_item n d

-- `n` bytes into the text: the parts before and after, or nothing inside a character or past the end.
unfoldable pub split_at_byte : ℕ → Text → Option (Text × Text)
unfolding utf8_width
split_at_byte n [] = if n == 0 then some ([], []) else none
split_at_byte n (c ∷ cs) =
    let deeper = split_at_byte (n - utf8_width c) cs in
    if n == 0
    then some ([], c ∷ cs)
    else if ltb n (utf8_width c)
    then none
    else elim deeper [ none ↦ none | some (a, b) ↦ some (c ∷ a, b) ]

-- `replace_range(start..end, "?")`, which panics off a character's boundary.
unfoldable pub replace_range : ℕ → ℕ → Text → Outcome Text
unfolding split_at_byte
replace_range start stop t = elim (split_at_byte stop t) [
  | none ↦ err PyErr.panic
  | some (before, after) ↦ elim (split_at_byte start before) [
    | none ↦ err PyErr.panic
    | some (kept, cut) ↦ ok (kept ++ (b'?' ∷ after))
  ]
]

module _ (tables : CharTables) where
  unfoldable pub starts_name : ℕ → Bool
  unfolding is_alphabetic
  starts_name c = is_alphabetic tables c || c == b'_'

  unfoldable pub continues_name : ℕ → Bool
  unfolding is_alphanumeric
  continues_name c = is_alphanumeric tables c || c == b'_'

  -- A prefix that a name follows.
  unfoldable pub opens : ℕ → Text → Bool
  unfolding is_prefix starts_name
  opens c [] = false
  opens c (d ∷ ds) = is_prefix c && starts_name d

  -- The inner loop: the name, and what follows it.
  unfoldable pub read_name : Text → Text × Text
  unfolding continues_name
  read_name [] = ([], [])
  read_name (c ∷ cs) =
      let (name, rest) = read_name cs in if continues_name c then (c ∷ name, rest) else ([], c ∷ cs)

  abbrev pub note_placeholder : ℕ → Text → List Placeholder → List Placeholder
  note_placeholder i [] found = found
  note_placeholder i (c ∷ cs) found =
      record { start = i; stop = i + suc (length (c ∷ cs)); name = c ∷ cs } ∷ found

  -- The outer loop from character `i` on, with fuel for each of its rounds.
  unfoldable pub scan : ℕ → ℕ → Text → List Placeholder
  unfolding opens read_name
  scan zero i cs = []
  scan (suc fuel) i [] = []
  scan (suc fuel) i (c ∷ cs) = elim (opens c cs) [
    | false ↦ scan fuel (suc i) cs
    | true ↦
        let (name, rest) = read_name cs in
        note_placeholder i name (scan fuel (i + suc (length name)) rest)
  ]

  unfoldable pub placeholders : Text → List Placeholder
  unfolding scan
  placeholders query = scan (length query) 0 query

module _ (py : PyApi) where
  -- One round of the replacing loop.
  unfoldable pub replace_one :
      List (Text × PyObject)
      → Placeholder
      → Text × List SqliteParam
      → Outcome (Text × List SqliteParam)
  unfolding get_item replace_range from_py
  replace_one dict p (query, values) = elim (get_item p.name dict) [
    | none ↦ err (PyErr.missing_parameter p.name)
    | some v ↦ elim (from_py py v) [
      | err e ↦ err e
      | ok value ↦ elim (replace_range p.start p.stop query) [
        | err e ↦ err e
        | ok query' ↦ ok (query', values ++ value ∷ [])
      ]
    ]
  ]

  unfoldable pub replace_loop :
      List (Text × PyObject)
      → List Placeholder
      → Text × List SqliteParam
      → Outcome (Text × List SqliteParam)
  unfolding replace_one
  replace_loop dict [] state = ok state
  replace_loop dict (p ∷ ps) state = replace_one dict p state >>= replace_loop dict ps

  unfoldable pub process_named_parameters :
      CharTables → Text → List (Text × PyObject) → Outcome (Text × List SqliteParam)
  unfolding placeholders replace_loop
  process_named_parameters tables query dict =
      replace_loop dict (reverse (placeholders tables query)) (query, []) >>= λ r.
      ok (r.0, reverse r.1)

  unfoldable pub process_positional_parameters : List PyObject → Outcome (List SqliteParam)
  unfolding from_py
  process_positional_parameters [] = ok []
  process_positional_parameters (item ∷ list) = do
    param ← from_py py item
    params ← process_positional_parameters list
    ok (param ∷ params)

  -- The choice that every query method makes on its `parameters` argument.
  unfoldable pub process_parameters :
      CharTables → Text → Option PyObject → Outcome (Text × List SqliteParam)
  unfolding process_named_parameters process_positional_parameters from_py
  process_parameters tables query none = ok (query, [])
  process_parameters tables query (some params) = elim (py.cast_dict params) [
    | some dict ↦ process_named_parameters tables query dict
    | none ↦ elim (py.cast_list params) [
      | some list ↦ process_positional_parameters list >>= λ vs. ok (query, vs)
      | none ↦ from_py py params >>= λ v. ok (query, v ∷ [])
    ]
  ]
