-- ===== src/Schema/Agreement.antt =====
-- `get_schema` in a transaction, against the methods for one kind of information each.
use rapsqlite.Prelude.{
  ℕ, ◌≡◌, refl, sym, ap, ◌∙◌, Bool, true, List, [], ◌∷◌, Option, none, some, map, Text, codes,
  arith,
}
use rapsqlite.Outcome.{Outcome, ok}
use rapsqlite.Outcome
use rapsqlite.Types.{is_active}
use rapsqlite.Chars.{CharTables}
use rapsqlite.Conversion.{Row}
use rapsqlite.State.{Connection, Env, Event, Target, reply, M, log, answer, effects, and_then, pure}
use rapsqlite.Query.{bind_and_fetch_all, bind_and_fetch, do_fetch}
use rapsqlite.Pool.{has_callbacks}
use rapsqlite.Fetch.{on_route}
use rapsqlite.Fetch.Route.{HookDone}
use rapsqlite.Schema.{
  names, tables_query, indexes_query, pragma_query, column_dict, index_dict, foreign_key_dict,
}
use rapsqlite.Schema.Methods.{
  SchemaDict, no_table, one_table, all_tables, TableRows, fetch_rows, on_route_again, fetch_table,
  fetch_tables, schema_dict, get_schema, get_tables, get_table_info, get_indexes, get_foreign_keys,
}
use rapsqlite.Schema.Sending.{fetch_rows-eq}

-- A database whose answer to a query on connection `h` is settled by the text of the query.
pub record Answers (env : Env) (h : ℕ) (db : Text → List Row) : Type 0 where
  pub settled :
      (query : Text) (t : List Event)
      → env.fetch_all (Event.fetches (Target.on_connection h) query [] ∷ t) ≡ reply (db query)

abbrev table_rows : (Text → List Row) → Text → TableRows
table_rows db table = record {
  name = table;
  info = db (pragma_query (codes "table_info") table);
  indexes = db (indexes_query (some table));
  foreign_keys = db (pragma_query (codes "foreign_key_list") table);
}

names-table_rows :
    (db : Text → List Row) (found : List Text)
    → map (λ (t : TableRows). t.name) (map (table_rows db) found) ≡ found
names-table_rows db [] = refl
names-table_rows db (table ∷ rest) = ap (◌∷◌ table) (names-table_rows db rest)

module _ (env : Env) (h : ℕ) (db : Text → List Row) (answers : Answers env h db) where
  abbrev pub asked : Text → Connection → Connection
  asked query = log (Event.fetches (Target.on_connection h) query [])

  pub do_fetch-eq :
      (query : Text) (c : Connection)
      → do_fetch env.fetch_all (Target.on_connection h) query [] c ≡ (ok (db query), asked query c)
  unfolding do_fetch answer
  do_fetch-eq query c = rw (answers.settled query c.trace) refl

  -- The connection of the transaction is used.
  pub on_route_again-held :
      {A : Type 0} (callbacks : Bool) (op : Target → M Connection A) (c : Connection)
      → c.transaction_connection ≡ some h
      → on_route_again env true callbacks op c ≡ op (Target.on_connection h) c
  unfolding on_route_again effects
  on_route_again-held callbacks op c held = ground arith

  on_route_again-eq :
      (callbacks : Bool) (query : Text) (c : Connection)
      → c.transaction_connection ≡ some h
      → on_route_again env true callbacks (λ t. bind_and_fetch_all env t query []) c
        ≡ (ok (db query), asked query c)
  unfolding bind_and_fetch_all bind_and_fetch
  on_route_again-eq callbacks query c held =
      on_route_again-held callbacks (λ t. bind_and_fetch_all env t query []) c held
      ∙ do_fetch-eq query c

  abbrev asked_table : Text → Connection → Connection
  asked_table table c =
      asked (pragma_query (codes "foreign_key_list") table)
        (asked (indexes_query (some table)) (asked (pragma_query (codes "table_info") table) c))

  fetch_table-eq :
      (callbacks : Bool) (table : Text) (c : Connection)
      → c.transaction_connection ≡ some h
      → fetch_table env true callbacks table c ≡ (ok (table_rows db table), asked_table table c)
  unfolding fetch_table effects and_then
  fetch_table-eq callbacks table c held =
      rw
        (
          on_route_again-eq callbacks (pragma_query (codes "table_info") table) c held,
          on_route_again-eq callbacks (indexes_query (some table))
              (asked (pragma_query (codes "table_info") table) c) held,
          on_route_again-eq callbacks (pragma_query (codes "foreign_key_list") table)
              (asked (indexes_query (some table))
                (asked (pragma_query (codes "table_info") table) c))
              held,
        )
        refl

  asked_tables : List Text → Connection → Connection
  asked_tables [] c = c
  asked_tables (table ∷ tables) c = asked_tables tables (asked_table table c)

  fetch_tables-eq :
      (callbacks : Bool) (tables : List Text) (c : Connection)
      → c.transaction_connection ≡ some h
      → fetch_tables env true callbacks tables c
        ≡ (ok (map (table_rows db) tables), asked_tables tables c)
  unfolding fetch_tables asked_tables effects and_then
  fetch_tables-eq callbacks [] c held = refl
  fetch_tables-eq callbacks (table ∷ tables) c held =
      rw
        (
          fetch_table-eq callbacks table c held,
          fetch_tables-eq callbacks tables (asked_table table c) held,
        )
        refl

  pub on_route-again :
      {A : Type 0} (callbacks : Bool) (op : Target → M Connection A)
      → on_route env true callbacks op ≡ on_route_again env true callbacks op
  unfolding on_route on_route_again
  on_route-again callbacks op = refl

  on_route-first :
      (callbacks : Bool) (query : Text) (c : Connection)
      → c.transaction_connection ≡ some h
      → on_route env true callbacks (λ t. bind_and_fetch_all env t query []) c
        ≡ (ok (db query), asked query c)
  on_route-first callbacks query c held =
      rw (on_route-again callbacks (λ t. bind_and_fetch_all env t query []))
        (on_route_again-eq callbacks query c held)

  get_schema-eq :
      (tables : CharTables) (name : Option Text) (c : Connection)
      → is_active c.transaction_state ≡ true
      → c.transaction_connection ≡ some h
      → get_schema env tables name c ≡ (
        ok (schema_dict env tables name (map (table_rows db) (names (db (tables_query name))))),
        asked_tables (names (db (tables_query name))) (asked (tables_query name) c),
      )
  unfolding get_schema effects and_then
  get_schema-eq tables name c s held =
      rw
        (
          s,
          on_route-first (has_callbacks c) (tables_query name) c held,
          fetch_tables-eq (has_callbacks c) (names (db (tables_query name)))
              (asked (tables_query name) c) held,
        )
        refl

  fetch_rows-answered :
      {A : Type 0} (query : Text) (decode : List Row → A) (c : Connection)
      → is_active c.transaction_state ≡ true
      → c.transaction_connection ≡ some h
      → HookDone c
      → (fetch_rows env query decode c).0 ≡ ok (decode (db query))
  unfolding and_then pure
  fetch_rows-answered query decode c s held d =
      rw (fetch_rows-eq env c h s held d query decode, do_fetch-eq query c) refl

  -- What the other methods answer, put together.
  abbrev pub assembled : CharTables → Option Text → Connection → List Text → Outcome SchemaDict
  assembled tables none c found = ok (all_tables found)
  assembled tables (some name) c [] = ok no_table
  assembled tables (some name) c (table ∷ rest) =
      Outcome.◌>>=◌ (get_table_info env table c).0 λ columns.
        Outcome.◌>>=◌ (get_indexes env tables (some table) c).0 λ indexes.
          Outcome.◌>>=◌ (get_foreign_keys env table c).0
            λ foreign_keys. ok (one_table columns indexes foreign_keys name)

  schema_dict-assembled :
      (tables : CharTables) (name : Option Text) (c : Connection) (found : List Text)
      → is_active c.transaction_state ≡ true
      → c.transaction_connection ≡ some h
      → HookDone c
      → ok (schema_dict env tables name (map (table_rows db) found)) ≡ assembled tables name c found
  unfolding schema_dict get_table_info get_indexes get_foreign_keys
  schema_dict-assembled tables none c found s held d =
      ap (λ (ns : List Text). ok (all_tables ns)) (names-table_rows db found)
  schema_dict-assembled tables (some name) c [] s held d = refl
  schema_dict-assembled tables (some name) c (table ∷ rest) s held d = sym (
      rw
        (
          fetch_rows-answered (pragma_query (codes "table_info") table) (map column_dict) c s held
              d,
          fetch_rows-answered (indexes_query (some table)) (map (index_dict tables)) c s held d,
          fetch_rows-answered (pragma_query (codes "foreign_key_list") table) (map foreign_key_dict)
              c s held d,
        )
        refl)

  -- In a transaction, on a database that answers each query by its text, `get_schema` agrees with the
  -- other methods: for one table it has the columns, indexes and foreign keys that `get_table_info`,
  -- `get_indexes` and `get_foreign_keys` give for the first table that `get_tables` finds by that
  -- name, and is empty if that finds none; for all tables it has the names that `get_tables` gives.
  -- The hook is to be done.
  pub get_schema_lem :
      (tables : CharTables) (name : Option Text) (c : Connection)
      → is_active c.transaction_state ≡ true
      → c.transaction_connection ≡ some h
      → HookDone c
      → (get_schema env tables name c).0
        ≡ Outcome.◌>>=◌ (get_tables env name c).0 (assembled tables name c)
  unfolding get_tables
  get_schema_lem tables name c s held d =
      ap (λ (r : Outcome SchemaDict × Connection). r.0) (get_schema-eq tables name c s held)
      ∙ schema_dict-assembled tables name c (names (db (tables_query name))) s held d
      ∙ ap (λ (r : Outcome (List Text)). Outcome.◌>>=◌ r (assembled tables name c))
          (sym (fetch_rows-answered (tables_query name) names c s held d))
