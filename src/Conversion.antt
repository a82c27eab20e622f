-- ===== src/Conversion.antt =====
-- src/conversion.rs: from the rows of sqlx to Python values, and the row factories.
-- What sqlx answers about a cell is part of the cell; what Python code answers is the record `PyCalls`.
use rapsqlite.Prelude.{
  ℕ, Bool, true, false, ◌&&◌, ◌||◌, List, [], ◌∷◌, ◌-◌, Option, none, some, map, Text, leb,
  if◌then◌else◌, text_eq, codes,
}
use rapsqlite.Prelude.Int.{ℤ}
use rapsqlite.Outcome.{Outcome, ok, err, ◌>>=◌}
use rapsqlite.RapRow.{RapRow}
use rapsqlite.RapRow
use rapsqlite.Types.{PyObject}

-- `try_get::<Option<T>>` per type: `none` for an error, `some none` for NULL.
pub record Cell : Type 0 where
  pub column : Text
  pub declared : Text
  pub as_i64 : Option (Option ℤ)
  pub as_f64 : Option (Option ℕ)
  pub as_string : Option (Option Text)
  pub as_bytes : Option (Option (List ℕ))

abbrev pub Row : Type 0
Row = List Cell

pub data PyValue : Type 0 where
  py_none : PyValue
  py_int : ℤ → PyValue
  py_float : ℕ → PyValue
  py_str : Text → PyValue
  py_bytes : List ℕ → PyValue
  foreign : PyObject → PyValue

pub data PyRow : Type 0 where
  py_list py_tuple : List PyValue → PyRow
  py_dict : List (Text × PyValue) → PyRow
  py_raprow : RapRow PyValue → PyRow
  made : PyObject → PyRow

-- Python objects that stand as factories: the tests that the code makes on them, and calls of them.
-- `has_raprow_metatype f` is `type(f) is type(RapRow)`; `call_text` passes the UTF-8 bytes of the text.
pub record PyCalls : Type 0 where
  pub is_none : PyObject → Bool
  pub cast_string : PyObject → Option (Outcome Text)
  pub has_raprow_metatype : PyObject → Bool
  pub call_text : PyObject → Text → Outcome PyValue
  pub call_row : PyObject → List PyValue → Outcome PyRow

-- `to_ascii_uppercase`.
unfoldable pub to_ascii_uppercase : Text → Text
to_ascii_uppercase = map λ c. if leb b'a' c && leb c b'z' then c - 32 else c

abbrev or_none {ℓ} : {A : Type ℓ} → (A → PyValue) → Option A → PyValue
or_none f none = py_none
or_none f (some a) = f a

-- The declared type is one of those that the arm lists.
abbrev is_one_of : Text → List Text → Bool
is_one_of t [] = false
is_one_of t (x ∷ xs) = text_eq t x || is_one_of t xs

-- The probes in order, for a type that is not known or does not fit.
probe : Cell → PyValue
probe cell = elim cell.as_i64 [
  | some v ↦ or_none py_int v
  | none ↦ elim cell.as_f64 [
    | some v ↦ or_none py_float v
    | none ↦ elim cell.as_string [
      | some v ↦ or_none py_str v
      | none ↦ elim cell.as_bytes [ some v ↦ or_none py_bytes v | none ↦ py_none ]
    ]
  ]
]

abbrev or_probe {ℓ} : {A : Type ℓ} → (A → PyValue) → Option (Option A) → PyValue → PyValue
or_probe f (some v) rest = or_none f v
or_probe f none rest = rest

by_declared_type : Cell → PyValue
unfolding probe to_ascii_uppercase
by_declared_type cell =
    let name = to_ascii_uppercase cell.declared in
    if is_one_of name (codes "INTEGER" ∷ codes "INT" ∷ [])
    then or_probe py_int cell.as_i64 (probe cell)
    else if is_one_of name (codes "REAL" ∷ codes "FLOAT" ∷ codes "DOUBLE" ∷ [])
    then or_probe py_float cell.as_f64 (probe cell)
    else if is_one_of name (codes "TEXT" ∷ codes "VARCHAR" ∷ codes "CHAR" ∷ [])
    then or_probe py_str cell.as_string (probe cell)
    else if is_one_of name (codes "BLOB" ∷ [])
    then or_probe py_bytes cell.as_bytes (probe cell)
    else probe cell

-- `d[key] = value` of a Python dict: a key that is there keeps its place.
unfoldable pub set_item : Text → PyValue → List (Text × PyValue) → List (Text × PyValue)
set_item k v [] = (k, v) ∷ []
set_item k v ((j, w) ∷ d) = if text_eq j k then (j, v) ∷ d else (j, w) ∷ set_item k v d

module _ (py : PyCalls) where
  apply_text_factory : PyObject → Cell → Outcome PyValue
  unfolding by_declared_type
  apply_text_factory f cell = elim (text_eq (to_ascii_uppercase cell.declared) (codes "TEXT")) [
    | false ↦ ok (by_declared_type cell)
    | true ↦ elim cell.as_string [
      | none ↦ ok (by_declared_type cell)
      | some none ↦ ok py_none
      | some (some s) ↦ py.call_text f s
    ]
  ]

  unfoldable pub sqlite_value_to_py : Option PyObject → Cell → Outcome PyValue
  unfolding apply_text_factory
  sqlite_value_to_py none cell = ok (by_declared_type cell)
  sqlite_value_to_py (some f) cell =
      if py.is_none f then ok (by_declared_type cell) else apply_text_factory f cell

  unfoldable pub row_to_py_list : Option PyObject → Row → Outcome (List PyValue)
  unfolding sqlite_value_to_py
  row_to_py_list tf [] = ok []
  row_to_py_list tf (cell ∷ row) = do
    v ← sqlite_value_to_py tf cell
    vs ← row_to_py_list tf row
    ok (v ∷ vs)

  unfoldable pub row_to_py_dict :
      Option PyObject → Row → List (Text × PyValue) → Outcome (List (Text × PyValue))
  unfolding sqlite_value_to_py set_item
  row_to_py_dict tf [] d = ok d
  row_to_py_dict tf (cell ∷ row) d =
      sqlite_value_to_py tf cell >>= λ v. row_to_py_dict tf row (set_item cell.column v d)

  by_name : Text → Option PyObject → Row → Outcome PyRow
  unfolding row_to_py_list row_to_py_dict
  by_name name tf row =
      if text_eq name (codes "dict")
      then (row_to_py_dict tf row [] >>= λ d. ok (py_dict d))
      else if text_eq name (codes "tuple")
      then (row_to_py_list tf row >>= λ vs. ok (py_tuple vs))
      else (row_to_py_list tf row >>= λ vs. ok (py_list vs))

  -- An object of the type that `RapRow` itself has, or a callable.
  by_class : PyObject → Option PyObject → Row → Outcome PyRow
  unfolding row_to_py_list RapRow.new
  by_class f tf row =
      if py.has_raprow_metatype f
      then (do
        vs ← row_to_py_list tf row
        r ← RapRow.new (map (λ c. c.column) row) vs
        ok (py_raprow r))
      else (row_to_py_list tf row >>= λ vs. py.call_row f vs)

  by_factory : PyObject → Option PyObject → Row → Outcome PyRow
  unfolding by_name by_class
  by_factory f tf row = elim (py.cast_string f) [
    | some (ok name) ↦ by_name name tf row
    | some (err e) ↦ err e
    | none ↦ by_class f tf row
  ]

  unfoldable pub row_to_py_with_factory : Option PyObject → Option PyObject → Row → Outcome PyRow
  unfolding row_to_py_list by_factory
  row_to_py_with_factory none tf row = row_to_py_list tf row >>= λ vs. ok (py_list vs)
  row_to_py_with_factory (some f) tf row =
      if py.is_none f
      then (row_to_py_list tf row >>= λ vs. ok (py_list vs))
      else by_factory f tf row

  -- The loop that every fetch ends with.
  unfoldable pub rows_to_py : Option PyObject → Option PyObject → List Row → Outcome (List PyRow)
  unfolding row_to_py_with_factory
  rows_to_py factory tf [] = ok []
  rows_to_py factory tf (row ∷ rows) = do
    r ← row_to_py_with_factory factory tf row
    rs ← rows_to_py factory tf rows
    ok (r ∷ rs)
