-- ===== src/Dump.antt =====
-- src/connection.rs: `iterdump`, the statements that build the database anew.
pub mod Values
pub mod Names
pub mod Contents
pub mod Entries
pub mod Keeping
use rapsqlite.Prelude.{
  ℕ, ◌+◌, ◌-◌, ◌/◌, ◌%◌, Bool, List, [], ◌∷◌, ◌++◌, Option, none, some, map, Text, codes, ◌==◌, ltb,
  get_elem?, text_eq, starts_with, length, if◌then◌else◌,
}
use rapsqlite.Outcome.{Outcome, ok, err, PyErr, Statement}
use rapsqlite.Outcome
use rapsqlite.Types.{is_active}
use rapsqlite.Conversion.{Cell, Row}
use rapsqlite.State.{Connection, Env, Event, Target, M, ◌>>=◌, pure, gets, lift, answer, log}
use rapsqlite.Query.{do_fetch}
use rapsqlite.Pool.{has_callbacks}
use rapsqlite.Fetch.{on_route}
use rapsqlite.Settings.{double_char, int_to_string, quote}
use rapsqlite.Schema.{get_i64, get_f64, get_string, try_get}
use rapsqlite.Schema.Methods.{on_route_again}

abbrev pub hex_digit : ℕ → ℕ
hex_digit n = if ltb n 10 then b'0' + n else b'a' + (n - 10)

-- `{b:02x}` of every byte.
unfoldable pub bytes_to_hex : List ℕ → Text
bytes_to_hex [] = []
bytes_to_hex (b ∷ bs) = hex_digit (b / 16) ∷ hex_digit (b % 16) ∷ bytes_to_hex bs

unfoldable pub quote_ident_part : Text → Text
unfolding double_char
quote_ident_part ident = 34 ∷ (double_char 34 ident ++ 34 ∷ [])

-- The pieces of a text between the dots.
unfoldable pub add_char : ℕ → List Text → List Text
add_char c [] = (c ∷ []) ∷ []
add_char c (piece ∷ pieces) = (c ∷ piece) ∷ pieces

unfoldable pub split_dots : Text → List Text
unfolding add_char
split_dots [] = [] ∷ []
split_dots (c ∷ cs) = let rest = split_dots cs in if c == b'.' then [] ∷ rest else add_char c rest

unfoldable pub join : Text → List Text → Text
join sep [] = []
join sep (t ∷ []) = t
join sep (t ∷ u ∷ ts) = t ++ (sep ++ join sep (u ∷ ts))

unfoldable pub quote_ident_path : Text → Text
unfolding quote_ident_part split_dots join
quote_ident_path ident = join (b'.' ∷ []) (map quote_ident_part (split_dots ident))

-- The first type that has a value; `to_string` of a float is not modelled.
unfoldable pub format_value : (ℕ → Text) → Row → ℕ → Text
unfolding bytes_to_hex int_to_string double_char
format_value float_text row i = elim (get_i64 row i) [
  | some n ↦ int_to_string n
  | none ↦ elim (get_f64 row i) [
    | some x ↦ float_text x
    | none ↦ elim (get_string row i) [
      | some s ↦ quote s
      | none ↦ elim (try_get (λ c. c.as_bytes) row i) [
        | some bytes ↦ b'X' ∷ (39 ∷ (bytes_to_hex bytes ++ 39 ∷ []))
        | none ↦ codes "NULL"
      ]
    ]
  ]
]

-- The user tables, and the statements of the schema.
pub record Objects : Type 0 where
  pub tables : List Text
  pub statements : List Text

abbrev statement : Text → Text
statement sql = sql ++ b';' ∷ []

is_system : Text → Bool
unfolding starts_with
is_system name = starts_with name (codes "sqlite_")

-- One row of `sqlite_master`, before those that follow it.
unfoldable pub add_object : Text → Text → Text → Objects → Objects
unfolding text_eq is_system
add_object type name sql rest =
    if text_eq type (codes "table")
    then record {
      tables = if is_system name then rest.tables else name ∷ rest.tables;
      statements = statement sql ∷ rest.statements;
    }
    else if text_eq type (codes "index")
    then record {
      tables = rest.tables;
      statements = if is_system name then rest.statements else statement sql ∷ rest.statements;
    }
    else if text_eq type (codes "trigger")
    then record { tables = rest.tables; statements = statement sql ∷ rest.statements }
    else if text_eq type (codes "view")
    then record { tables = rest.tables; statements = statement sql ∷ rest.statements }
    else rest

-- `row.get`, which panics on NULL and on another type.
abbrev get_text : Row → ℕ → Outcome Text
get_text row i = elim (get_string row i) [ none ↦ err PyErr.panic | some s ↦ ok s ]

-- `row.get` of an `Option`.
abbrev get_nullable : Row → ℕ → Outcome (Option Text)
get_nullable row i = elim (get_elem? row i) [
  | none ↦ err PyErr.panic
  | some cell ↦ elim cell.as_string [ none ↦ err PyErr.panic | some s ↦ ok s ]
]

unfoldable pub objects : List Row → Outcome Objects
unfolding add_object
objects [] = ok (record { tables = []; statements = [] })
objects (row ∷ rows) =
    let rest = objects rows in
    Outcome.◌>>=◌ (get_text row 0) λ type. Outcome.◌>>=◌ (get_text row 1) λ name.
      Outcome.◌>>=◌ (get_nullable row 2) λ sql.
        Outcome.◌>>=◌ rest
          λ found. ok (elim sql [ none ↦ found | some s ↦ add_object type name s found ])

unfoldable pub format_values : (ℕ → Text) → Row → ℕ → Row → List Text
unfolding format_value
format_values float_text row i [] = []
format_values float_text row i (column ∷ columns) =
    format_value float_text row i ∷ format_values float_text row (i + 1) columns

-- One INSERT; the columns are those of the first row.
unfoldable pub insert_statement : (ℕ → Text) → Text → Row → Row → Text
unfolding quote_ident_path quote_ident_part join format_values
insert_statement float_text table columns row =
    codes "INSERT INTO "
    ++ (quote_ident_path table
        ++ (codes " ("
            ++ (join (codes ", ") (map (λ (c : Cell). quote_ident_part c.column) columns)
                ++ (codes ") VALUES ("
                    ++ (join (codes ", ") (format_values float_text row 0 columns)
                        ++ codes ");")))))

unfoldable pub insert_statements : (ℕ → Text) → Text → List Row → List Text
unfolding insert_statement
insert_statements float_text table [] = []
insert_statements float_text table (row ∷ rows) =
    map (insert_statement float_text table row) (row ∷ rows)

abbrev pub master_query : Text
master_query =
    codes "SELECT type, name, sql FROM sqlite_master WHERE sql IS NOT NULL ORDER BY type, name"

unfoldable pub rows_query : Text → Text
unfolding quote_ident_path
rows_query table = codes "SELECT * FROM " ++ quote_ident_path table

module _ (env : Env) (float_text : ℕ → Text) where
  -- The error of the first query names a shorter text.
  unfoldable pub fetch_master : Target → M Connection (List Row)
  unfolding answer
  fetch_master target c =
      let c' = log (Event.fetches target master_query []) c in
      answer (λ e. PyErr.mapped e (Statement.user (codes "SELECT FROM sqlite_master")))
        (env.fetch_all c'.trace) c'

  unfoldable pub dump_tables : Bool → Bool → List Text → M Connection (List Text)
  unfolding do_fetch rows_query insert_statements
  dump_tables in_transaction callbacks [] = pure []
  dump_tables in_transaction callbacks (table ∷ tables) = do
    rows ←
        on_route_again env in_transaction callbacks
          λ t. do_fetch env.fetch_all t (rows_query table) []
    rest ← dump_tables in_transaction callbacks tables
    pure (insert_statements float_text table rows ++ rest)

  unfoldable pub iterdump : M Connection (List Text)
  unfolding fetch_master objects dump_tables
  iterdump = do
    in_transaction ← gets λ c. is_active c.transaction_state
    callbacks ← gets has_callbacks
    rows ← on_route env in_transaction callbacks fetch_master
    found ← lift (objects rows)
    inserts ← dump_tables in_transaction callbacks found.tables
    pure (codes "BEGIN TRANSACTION;" ∷ (found.statements ++ (inserts ++ codes "COMMIT;" ∷ [])))
