-- ===== src/Schema/Methods.antt =====
-- src/connection.rs: the methods that describe the schema, each as the fetch of its query and the
-- conversion of the rows; `get_schema` makes three fetches more for each table.
use rapsqlite.Prelude.{Bool, true, false, List, [], ◌∷◌, Option, none, some, map, Text, codes}
use rapsqlite.Outcome.{PyErr}
use rapsqlite.Types.{is_active}
use rapsqlite.Chars.{CharTables}
use rapsqlite.Conversion.{Row}
use rapsqlite.State.{Connection, Env, Target, M, ◌>>=◌, pure, gets, require}
use rapsqlite.Query.{bind_and_fetch_all}
use rapsqlite.Pool.{has_callbacks, get_or_create_pool}
use rapsqlite.Fetch.{fetch_with, on_route}
use rapsqlite.Schema.{
  PyDict, names, tables_query, views_query, indexes_query, pragma_query, column_dict, column_xdict,
  index_dict, foreign_key_dict, index_list_dict, index_info_dict,
}

-- What `get_schema` answers: the dict of one table, which is empty if there is no such table, or the
-- names of all.
pub data SchemaDict : Type 0 where
  no_table : SchemaDict
  one_table : List PyDict → List PyDict → List PyDict → Text → SchemaDict
  all_tables : List Text → SchemaDict

-- The rows about a table: `table_info`, the indexes and `foreign_key_list`.
pub record TableRows : Type 0 where
  pub name : Text
  pub info : List Row
  pub indexes : List Row
  pub foreign_keys : List Row

module _ (env : Env) where
  unfoldable pub fetch_rows : {A : Type 0} → Text → (List Row → A) → M Connection A
  fetch_rows query decode = do
    rows ← fetch_with env λ t. bind_and_fetch_all env t query []
    pure (decode rows)

  unfoldable pub get_tables : Option Text → M Connection (List Text)
  get_tables name = fetch_rows (tables_query name) names

  unfoldable pub get_views : Option Text → M Connection (List Text)
  get_views name = fetch_rows (views_query name) names

  unfoldable pub get_table_info : Text → M Connection (List PyDict)
  get_table_info table = fetch_rows (pragma_query (codes "table_info") table) (map column_dict)

  unfoldable pub get_table_xinfo : Text → M Connection (List PyDict)
  get_table_xinfo table = fetch_rows (pragma_query (codes "table_xinfo") table) (map column_xdict)

  unfoldable pub get_indexes : CharTables → Option Text → M Connection (List PyDict)
  get_indexes tables table = fetch_rows (indexes_query table) (map (index_dict tables))

  unfoldable pub get_index_list : Text → M Connection (List PyDict)
  get_index_list table = fetch_rows (pragma_query (codes "index_list") table) (map index_list_dict)

  unfoldable pub get_index_info : Text → M Connection (List PyDict)
  get_index_info index = fetch_rows (pragma_query (codes "index_info") index) (map index_info_dict)

  unfoldable pub get_foreign_keys : Text → M Connection (List PyDict)
  get_foreign_keys table =
      fetch_rows (pragma_query (codes "foreign_key_list") table) (map foreign_key_dict)

  -- A later fetch of `get_schema` and `iterdump`: like the first, but for the callback connection,
  -- which must be there.
  unfoldable pub on_route_again :
      {A : Type 0} → Bool → Bool → (Target → M Connection A) → M Connection A
  on_route_again true callbacks op = do
    slot ← gets λ c. c.transaction_connection
    h ← require slot PyErr.no_transaction_connection
    op (Target.on_connection h)
  on_route_again false true op = do
    slot ← gets λ c. c.callback_connection
    h ← require slot PyErr.no_callback_connection
    op (Target.on_connection h)
  on_route_again false false op = do p ← get_or_create_pool env; op (Target.on_pool p)

  module _ (in_transaction callbacks : Bool) where
    unfoldable pub fetch_table : Text → M Connection TableRows
    fetch_table table = do
      info ←
          on_route_again in_transaction callbacks
            λ t. bind_and_fetch_all env t (pragma_query (codes "table_info") table) []
      indexes ←
          on_route_again in_transaction callbacks
            λ t. bind_and_fetch_all env t (indexes_query (some table)) []
      foreign_keys ←
          on_route_again in_transaction callbacks
            λ t. bind_and_fetch_all env t (pragma_query (codes "foreign_key_list") table) []
      pure (record { name = table; info = info; indexes = indexes; foreign_keys = foreign_keys })

    -- The loop over the tables.
    unfoldable pub fetch_tables : List Text → M Connection (List TableRows)
    fetch_tables [] = pure []
    fetch_tables (table ∷ tables) = do
      rows ← fetch_table table
      rest ← fetch_tables tables
      pure (rows ∷ rest)

  unfoldable pub schema_dict : CharTables → Option Text → List TableRows → SchemaDict
  schema_dict tables none found = all_tables (map (λ t. t.name) found)
  schema_dict tables (some name) [] = no_table
  schema_dict tables (some name) (t ∷ ts) =
      one_table (map column_dict t.info) (map (index_dict tables) t.indexes)
        (map foreign_key_dict t.foreign_keys) name

  unfoldable pub get_schema : CharTables → Option Text → M Connection SchemaDict
  get_schema tables table_name = do
    in_transaction ← gets λ c. is_active c.transaction_state
    callbacks ← gets has_callbacks
    rows ←
        on_route env in_transaction callbacks
          λ t. bind_and_fetch_all env t (tables_query table_name) []
    found ← fetch_tables in_transaction callbacks (names rows)
    pure (schema_dict tables table_name found)
