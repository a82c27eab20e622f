-- ===== src/Schema.antt =====
-- src/connection.rs: what `get_tables`, `get_views`, `get_table_info`, `get_table_xinfo`,
-- `get_indexes`, `get_index_list`, `get_index_info`, `get_foreign_keys` and `get_schema` ask the
-- database, and the dicts that they make of its rows.
pub mod Methods
pub mod Quoting
pub mod Sending
pub mod Agreement
pub mod Keeping
use rapsqlite.Prelude.{
  ℕ, List, [], ◌∷◌, ◌++◌, Option, none, some, map, Text, codes, contains, get_elem?, if◌then◌else◌,
}
use rapsqlite.Prelude.Int.{ℤ, pos}
use rapsqlite.Chars.{CharTables}
use rapsqlite.Sql.{uppercase}
use rapsqlite.Conversion.{Cell, Row, PyValue, py_none, py_int, py_float, py_str, set_item}
use rapsqlite.Settings.{quote}

abbrev pub PyDict : Type 0
PyDict = List (Text × PyValue)

-- `try_get` of a value that is there: NULL, an index out of range and another type are errors.
abbrev pub try_get {ℓ} : {A : Type ℓ} → (Cell → Option (Option A)) → Row → ℕ → Option A
try_get decode row i = elim (get_elem? row i) [
  | none ↦ none
  | some cell ↦ elim (decode cell) [ none ↦ none | some v ↦ v ]
]

abbrev pub get_i64 : Row → ℕ → Option ℤ
get_i64 = try_get λ c. c.as_i64

abbrev pub get_f64 : Row → ℕ → Option ℕ
get_f64 = try_get λ c. c.as_f64

abbrev pub get_string : Row → ℕ → Option Text
get_string = try_get λ c. c.as_string

-- The names in the first column.
unfoldable pub names : List Row → List Text
names [] = []
names (row ∷ rows) =
    let rest = names rows in elim (get_string row 0) [ none ↦ rest | some s ↦ s ∷ rest ]

-- The texts of the queries.
unfoldable pub tables_query : Option Text → Text
tables_query (some name) =
    codes "SELECT name FROM sqlite_master WHERE type='table' AND name = "
    ++ (quote name ++ codes " AND name NOT LIKE 'sqlite_%'")
tables_query none =
    codes
      "SELECT name FROM sqlite_master WHERE type='table' AND name NOT LIKE 'sqlite_%' ORDER BY name"

unfoldable pub views_query : Option Text → Text
views_query (some name) =
    codes "SELECT name FROM sqlite_master WHERE type='view' AND name = " ++ quote name
views_query none = codes "SELECT name FROM sqlite_master WHERE type='view' ORDER BY name"

unfoldable pub indexes_query : Option Text → Text
indexes_query (some table) =
    codes "SELECT name, tbl_name, sql FROM sqlite_master WHERE type='index' AND tbl_name = "
    ++ (quote table ++ codes " AND name NOT LIKE 'sqlite_%' ORDER BY name")
indexes_query none =
    codes
      "SELECT name, tbl_name, sql FROM sqlite_master WHERE type='index' AND name NOT LIKE 'sqlite_%' ORDER BY name"

-- `PRAGMA pragma('name')`.
unfoldable pub pragma_query : Text → Text → Text
pragma_query pragma name = codes "PRAGMA " ++ (pragma ++ (b'(' ∷ (quote name ++ b')' ∷ [])))

-- `if let Ok(v) = row.try_get(i) { dict.set_item(key, v) }`.
abbrev pub set_i64 : Text → Row → ℕ → PyDict → PyDict
set_i64 key row i d = elim (get_i64 row i) [ none ↦ d | some n ↦ set_item key (py_int n) d ]

abbrev pub set_string : Text → Row → ℕ → PyDict → PyDict
set_string key row i d = elim (get_string row i) [ none ↦ d | some s ↦ set_item key (py_str s) d ]

-- A text that may be NULL, which stands for None.
abbrev pub set_nullable : Text → Row → ℕ → PyDict → PyDict
set_nullable key row i d = elim (get_string row i) [
  | none ↦ set_item key py_none d
  | some s ↦ set_item key (py_str s) d
]

unfoldable pub default_value : Row → PyValue
default_value row = elim (get_string row 4) [
  | some s ↦ py_str s
  | none ↦ elim (get_i64 row 4) [
    | some n ↦ py_int n
    | none ↦ elim (get_f64 row 4) [ some x ↦ py_float x | none ↦ py_none ]
  ]
]

-- A row of `PRAGMA table_info`.
unfoldable pub column_dict : Row → PyDict
unfolding set_item default_value
column_dict row =
    let cid = set_i64 (codes "cid") row 0 [] in
    let name = set_string (codes "name") row 1 cid in
    let type = set_string (codes "type") row 2 name in
    let notnull = set_i64 (codes "notnull") row 3 type in
    set_i64 (codes "pk") row 5 (set_item (codes "dflt_value") (default_value row) notnull)

-- A row of `PRAGMA table_xinfo`.
unfoldable pub column_xdict : Row → PyDict
unfolding column_dict set_item
column_xdict row = set_i64 (codes "hidden") row 6 (column_dict row)

-- Whether the SQL text of an index has the word in it, in any case.
unfoldable pub unique_flag : CharTables → Row → ℤ
unfolding uppercase contains
unique_flag tables row = elim (get_string row 2) [
  | none ↦ pos 0
  | some sql ↦ if contains (uppercase tables sql) (codes "UNIQUE") then pos 1 else pos 0
]

unfoldable pub index_dict : CharTables → Row → PyDict
unfolding set_item unique_flag
index_dict tables row =
    let name = set_string (codes "name") row 0 [] in
    let table = set_string (codes "table") row 1 name in
    set_nullable (codes "sql") row 2
      (set_item (codes "unique") (py_int (unique_flag tables row)) table)

unfoldable pub foreign_key_dict : Row → PyDict
unfolding set_item
foreign_key_dict row =
    let id = set_i64 (codes "id") row 0 [] in
    let seq = set_i64 (codes "seq") row 1 id in
    let table = set_string (codes "table") row 2 seq in
    let from = set_string (codes "from") row 3 table in
    let to = set_string (codes "to") row 4 from in
    let on_update = set_string (codes "on_update") row 5 to in
    let on_delete = set_string (codes "on_delete") row 6 on_update in
    set_string (codes "match") row 7 on_delete

unfoldable pub index_list_dict : Row → PyDict
unfolding set_item
index_list_dict row =
    let seq = set_i64 (codes "seq") row 0 [] in
    let name = set_string (codes "name") row 1 seq in
    let unique = set_i64 (codes "unique") row 2 name in
    set_i64 (codes "partial") row 4 (set_nullable (codes "origin") row 3 unique)

unfoldable pub index_info_dict : Row → PyDict
unfolding set_item
index_info_dict row =
    let seqno = set_i64 (codes "seqno") row 0 [] in
    set_string (codes "name") row 2 (set_i64 (codes "cid") row 1 seqno)
