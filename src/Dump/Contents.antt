-- ===== src/Dump/Contents.antt =====
-- What `iterdump` gives in a transaction.
use rapsqlite.Prelude.{
  ℕ, ◌+◌, ◌≡◌, refl, ap, ◌∙◌, Bool, true, List, [], ◌∷◌, ◌++◌, some, Text, codes, map, length,
  length-append, arith,
}
use rapsqlite.Outcome.{ok, PyErr, SqlxError, Statement}
use rapsqlite.Types.{is_active}
use rapsqlite.Conversion.{Row}
use rapsqlite.State.{Connection, Env, Reply, answer, effects, and_then}
use rapsqlite.Query.{do_fetch}
use rapsqlite.Pool.{has_callbacks}
use rapsqlite.Fetch.{on_route}
use rapsqlite.Schema.Agreement.{Answers, asked, do_fetch-eq, on_route_again-held, on_route-again}
use rapsqlite.Dump.{
  Objects, objects, insert_statement, insert_statements, master_query, rows_query, fetch_master,
  dump_tables, iterdump,
}

-- The rows of the tables in all.
abbrev pub row_count : (Text → List Row) → List Text → ℕ
row_count db [] = 0
row_count db (table ∷ tables) = length (db (rows_query table)) + row_count db tables

-- The INSERTs of every table in turn.
abbrev pub inserts : (ℕ → Text) → (Text → List Row) → List Text → List Text
inserts float_text db [] = []
inserts float_text db (table ∷ tables) =
    insert_statements float_text table (db (rows_query table)) ++ inserts float_text db tables

length-map : {A B : Type 0} (f : A → B) (xs : List A) → length (map f xs) ≡ length xs
length-map f [] = refl
length-map f (x ∷ xs) = ground (arith, length-map f xs)

length-insert_statements :
    (float_text : ℕ → Text) (table : Text) (rows : List Row)
    → length (insert_statements float_text table rows) ≡ length rows
unfolding insert_statements
length-insert_statements float_text table [] = refl
length-insert_statements float_text table (row ∷ rows) =
    length-map (insert_statement float_text table row) (row ∷ rows)

length-inserts :
    (float_text : ℕ → Text) (db : Text → List Row) (tables : List Text)
    → length (inserts float_text db tables) ≡ row_count db tables
length-inserts float_text db [] = refl
length-inserts float_text db (table ∷ tables) =
    let rows = db (rows_query table) in
    omega (
      arith,
      length-append (insert_statements float_text table rows) (inserts float_text db tables),
      length-insert_statements float_text table rows,
      length-inserts float_text db tables,
    )

-- The error of the first query.
abbrev master_error : SqlxError → PyErr
master_error e = PyErr.mapped e (Statement.user (codes "SELECT FROM sqlite_master"))

module _ (env : Env) (float_text : ℕ → Text) (h : ℕ) (db : Text → List Row)
    (answers : Answers env h db) where
  fetch_master-eq :
      (callbacks : Bool) (c : Connection)
      → c.transaction_connection ≡ some h
      → on_route env true callbacks (fetch_master env float_text) c
        ≡ (ok (db master_query), asked env h db answers master_query c)
  unfolding fetch_master answer
  fetch_master-eq callbacks c held =
      rw (on_route-again env h db answers callbacks (fetch_master env float_text)) (
        on_route_again-held env h db answers callbacks (fetch_master env float_text) c held
        ∙ ap
            (λ (r : Reply (List Row)).
              answer master_error r (asked env h db answers master_query c))
            (answers.settled master_query c.trace))

  after_tables : List Text → Connection → Connection
  after_tables [] c = c
  after_tables (table ∷ tables) c =
      after_tables tables (asked env h db answers (rows_query table) c)

  dump_tables-eq :
      (callbacks : Bool) (tables : List Text) (c : Connection)
      → c.transaction_connection ≡ some h
      → dump_tables env float_text true callbacks tables c
        ≡ (ok (inserts float_text db tables), after_tables tables c)
  unfolding dump_tables after_tables effects and_then
  dump_tables-eq callbacks [] c held = refl
  dump_tables-eq callbacks (table ∷ tables) c held =
      rw
        (
          on_route_again-held env h db answers callbacks
              (λ t. do_fetch env.fetch_all t (rows_query table) []) c held,
          do_fetch-eq env h db answers (rows_query table) c,
          dump_tables-eq callbacks tables (asked env h db answers (rows_query table) c) held,
        )
        refl

  -- The dump of the objects that were found, and the number of its INSERTs.
  pub iterdump-found :
      (c : Connection) (found : Objects)
      → is_active c.transaction_state ≡ true
      → c.transaction_connection ≡ some h
      → objects (db master_query) ≡ ok found
      → ((iterdump env float_text c).0
          ≡ ok (
              codes "BEGIN TRANSACTION;"
              ∷ (found.statements ++ (inserts float_text db found.tables ++ codes "COMMIT;" ∷ []))))
        × (length (inserts float_text db found.tables) ≡ row_count db found.tables)
  unfolding iterdump effects and_then
  iterdump-found c found s held e = (
    rw
        (
          s,
          fetch_master-eq (has_callbacks c) c held,
          e,
          dump_tables-eq (has_callbacks c) found.tables (asked env h db answers master_query c)
              held,
        )
        refl,
    length-inserts float_text db found.tables,
  )
