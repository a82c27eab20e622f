-- ===== src/Dump/Entries.antt =====
-- What `iterdump` is to make of the rows of `sqlite_master`, written without its code.
use rapsqlite.Prelude.{
  ℕ, zero, suc, ◌+◌, ◌≡◌, refl, ap, ◌∙◌, true, false, List, [], ◌∷◌, ◌++◌, some, Text, codes, map,
  length, get_elem?, starts_with, text_eq, arith,
}
use rapsqlite.Outcome.{ok}
use rapsqlite.Types.{is_active}
use rapsqlite.Conversion.{Cell, Row}
use rapsqlite.State.{Connection, Env}
use rapsqlite.Schema.{get_string}
use rapsqlite.Schema.Agreement.{Answers}
use rapsqlite.Dump.{
  Objects, add_object, objects, quote_ident_path, quote_ident_part, join, format_value,
  format_values, insert_statement, insert_statements, master_query, rows_query, iterdump,
}
use rapsqlite.Dump.Contents.{inserts, iterdump-found}

-- An object of the schema with its name and its statement; of a system object, what follows `sqlite_` in
-- its name.
pub data Entry : Type 0 where
  user_table system_table user_index system_index trigger view : Text → Text → Entry

abbrev pub type_of : Entry → Text
type_of (user_table name sql) = codes "table"
type_of (system_table rest sql) = codes "table"
type_of (user_index name sql) = codes "index"
type_of (system_index rest sql) = codes "index"
type_of (trigger name sql) = codes "trigger"
type_of (view name sql) = codes "view"

abbrev pub name_of : Entry → Text
name_of (user_table name sql) = name
name_of (system_table rest sql) = codes "sqlite_" ++ rest
name_of (user_index name sql) = name
name_of (system_index rest sql) = codes "sqlite_" ++ rest
name_of (trigger name sql) = name
name_of (view name sql) = name

abbrev pub sql_of : Entry → Text
sql_of (user_table name sql) = sql
sql_of (system_table rest sql) = sql
sql_of (user_index name sql) = sql
sql_of (system_index rest sql) = sql
sql_of (trigger name sql) = sql
sql_of (view name sql) = sql

-- The name of a user table or index does not start with `sqlite_`.
abbrev pub IsPlain : Entry → Type 0
IsPlain (user_table name sql) = starts_with name (codes "sqlite_") ≡ false
IsPlain (user_index name sql) = starts_with name (codes "sqlite_") ≡ false
IsPlain _ = Unit

-- A row of `sqlite_master` that holds an object: its type, its name and its statement.
pub record IsRowOf (row : Row) (e : Entry) : Type 0 where
  pub type : get_string row 0 ≡ some (type_of e)
  pub name : get_string row 1 ≡ some (name_of e)
  pub cell : Cell
  pub third : get_elem? row 2 ≡ some cell
  pub sql : cell.as_string ≡ some (some (sql_of e))
  pub plain : IsPlain e

abbrev pub AreRowsOf : List Row → List Entry → Type 0
AreRowsOf [] [] = Unit
AreRowsOf (row ∷ rows) (e ∷ es) = IsRowOf row e × AreRowsOf rows es
AreRowsOf [] (e ∷ es) = ⊥
AreRowsOf (row ∷ rows) [] = ⊥

-- The tables whose rows are dumped, and the statements: those of all objects but system indexes.
abbrev pub user_tables : List Entry → List Text
user_tables [] = []
user_tables (user_table name sql ∷ es) = name ∷ user_tables es
user_tables (e ∷ es) = user_tables es

abbrev pub dumped : List Entry → List Text
dumped [] = []
dumped (system_index rest sql ∷ es) = dumped es
dumped (e ∷ es) = (sql_of e ++ b';' ∷ []) ∷ dumped es

-- The INSERT of a row, with the names of the given columns and the value at each of their positions.
abbrev pub positions : ℕ → ℕ → List ℕ
positions i zero = []
positions i (suc n) = i ∷ positions (i + 1) n

abbrev pub insert_text : (ℕ → Text) → Text → Row → Row → Text
insert_text float_text table columns row =
    codes "INSERT INTO "
    ++ (quote_ident_path table
        ++ (codes " ("
            ++ (join (codes ", ") (map (λ (c : Cell). quote_ident_part c.column) columns)
                ++ (codes ") VALUES ("
                    ++ (join (codes ", ")
                          (map (format_value float_text row) (positions 0 (length columns)))
                        ++ codes ");")))))

abbrev pub insert_texts : (ℕ → Text) → Text → List Row → List Text
insert_texts float_text table [] = []
insert_texts float_text table (first ∷ rows) =
    map (insert_text float_text table first) (first ∷ rows)

abbrev pub table_texts : (ℕ → Text) → (Text → List Row) → List Text → List Text
table_texts float_text db [] = []
table_texts float_text db (table ∷ tables) =
    insert_texts float_text table (db (codes "SELECT * FROM " ++ quote_ident_path table))
    ++ table_texts float_text db tables

format_values-positions :
    (float_text : ℕ → Text) (row : Row) (i : ℕ) (columns : Row)
    → format_values float_text row i columns
      ≡ map (format_value float_text row) (positions i (length columns))
unfolding format_values
format_values-positions float_text row i [] = refl
format_values-positions float_text row i (c ∷ columns) =
    ap (λ (ts : List Text). format_value float_text row i ∷ ts)
      (format_values-positions float_text row (i + 1) columns)

insert_statement-text :
    (float_text : ℕ → Text) (table : Text) (columns row : Row)
    → insert_statement float_text table columns row ≡ insert_text float_text table columns row
unfolding insert_statement
insert_statement-text float_text table columns row =
    rw (format_values-positions float_text row 0 columns) refl

map-insert :
    (float_text : ℕ → Text) (table : Text) (columns : Row) (rows : List Row)
    → map (insert_statement float_text table columns) rows
      ≡ map (insert_text float_text table columns) rows
map-insert float_text table columns [] = refl
map-insert float_text table columns (row ∷ rows) =
    rw
      (insert_statement-text float_text table columns row, map-insert float_text table columns rows)
      refl

insert_statements-texts :
    (float_text : ℕ → Text) (table : Text) (rows : List Row)
    → insert_statements float_text table rows ≡ insert_texts float_text table rows
unfolding insert_statements
insert_statements-texts float_text table [] = refl
insert_statements-texts float_text table (first ∷ rows) =
    map-insert float_text table first (first ∷ rows)

inserts-texts :
    (float_text : ℕ → Text) (db : Text → List Row) (tables : List Text)
    → inserts float_text db tables ≡ table_texts float_text db tables
unfolding rows_query
inserts-texts float_text db [] = refl
inserts-texts float_text db (table ∷ tables) =
    rw
      (
        insert_statements-texts float_text table
            (db (codes "SELECT * FROM " ++ quote_ident_path table)),
        inserts-texts float_text db tables,
      )
      refl

abbrev found_in : List Entry → Objects
found_in es = record { tables = user_tables es; statements = dumped es }

add_object-found :
    (e : Entry) (es : List Entry)
    → IsPlain e
    → add_object (type_of e) (name_of e) (sql_of e) (found_in es) ≡ found_in (e ∷ es)
unfolding add_object text_eq starts_with
add_object-found (user_table name sql) es p = rw p refl
add_object-found (system_table rest sql) es p = refl
add_object-found (user_index name sql) es p = rw p refl
add_object-found (system_index rest sql) es p = refl
add_object-found (trigger name sql) es p = refl
add_object-found (view name sql) es p = refl

objects-found :
    (rows : List Row) (es : List Entry) → AreRowsOf rows es → objects rows ≡ ok (found_in es)
unfolding objects
objects-found [] [] a = refl
objects-found [] (e ∷ es) a = absurd a
objects-found (row ∷ rows) [] a = absurd a
objects-found (row ∷ rows) (e ∷ es) (r, a) =
    ground (
      arith,
      r.type,
      r.name,
      r.third,
      r.sql,
      objects-found rows es a,
      add_object-found e es r.plain,
    )

module _ (env : Env) (float_text : ℕ → Text) (h : ℕ) (db : Text → List Row)
    (answers : Answers env h db) where
  -- In a transaction, on a database that answers each query by its text, and whose `sqlite_master` has
  -- tables, indexes, triggers and views: `iterdump` gives the opening of a transaction, the statements of
  -- all objects in their order but those of system indexes, for each table that is not a system table in
  -- turn an INSERT for each of its rows, with its quoted name, the quoted names of the columns of the
  -- first row and the values of the row in order, and the commit. A system object is one whose name
  -- starts with `sqlite_`.
  pub iterdump_lem :
      (c : Connection) (es : List Entry)
      → is_active c.transaction_state ≡ true
      → c.transaction_connection ≡ some h
      → AreRowsOf (db master_query) es
      → (iterdump env float_text c).0
        ≡ ok (
            codes "BEGIN TRANSACTION;"
            ∷ (dumped es ++ (table_texts float_text db (user_tables es) ++ codes "COMMIT;" ∷ [])))
  iterdump_lem c es active held rows =
      (iterdump-found env float_text h db answers c (found_in es) active held
        (objects-found (db master_query) es rows)).0
      ∙ ap
          (λ (ts : List Text).
            ok (codes "BEGIN TRANSACTION;" ∷ (dumped es ++ (ts ++ codes "COMMIT;" ∷ []))))
          (inserts-texts float_text db (user_tables es))
