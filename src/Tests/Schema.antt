-- ===== src/Tests/Schema.antt =====
-- The schema and the dump of a database with one table.
use rapsqlite.Prelude.{◌≡◌, refl, true, List, [], ◌∷◌, ◌++◌, none, some, Text, codes, length}
use rapsqlite.Outcome.{ok}
use rapsqlite.Outcome
use rapsqlite.Types.{is_active, text}
use rapsqlite.Conversion.{Cell, Row}
use rapsqlite.State.{Env, Target, reply}
use rapsqlite.Fetch.Route.{SentOn}
use rapsqlite.Prelude.{inr, starts_with}
use rapsqlite.Schema.{tables_query, views_query, indexes_query, pragma_query}
use rapsqlite.Schema.Methods.{
  get_schema, get_tables, get_views, get_indexes, get_table_info, get_table_xinfo, get_index_list,
  get_index_info, get_foreign_keys,
}
use rapsqlite.Schema.Quoting.{literal_after, queries-literal}
use rapsqlite.Schema.Sending.{schema_methods_in_transaction}
use rapsqlite.Schema.Agreement.{Answers, assembled, get_schema_lem}
use rapsqlite.Dump.{format_value, quote_ident_path, split_dots, join, master_query, iterdump}
use rapsqlite.Dump.Values.{read_literal, format_value_lem, is_text}
use rapsqlite.Dump.Names.{read_path, quote_ident_path_lem}
use rapsqlite.Dump.Entries.{Entry, user_table, system_table, AreRowsOf, table_texts, iterdump_lem}
use rapsqlite.Tests.{env, tables, opened}

abbrev text_cell : Text → Cell
text_cell t = record {
  column = codes "c";
  declared = codes "TEXT";
  as_i64 = none;
  as_f64 = none;
  as_string = some (some t);
  as_bytes = none;
}

-- The row that stands for the table, in `sqlite_master`; the database answers every query by it.
abbrev users : Row
users =
    text_cell (codes "table")
    ∷ text_cell (codes "users")
    ∷ text_cell (codes "CREATE TABLE users (name)")
    ∷ []

abbrev users_env : Env
users_env = record env { fetch_all = λ t. reply (users ∷ []) }

abbrev users_db : Text → List Row
users_db query = users ∷ []

users-Answers : Answers users_env 1 users_db
users-Answers = record { settled = λ query t. refl }

abbrev odd_name : Text
odd_name = codes "x' OR '1'='1"

queries-literal_example :
    (literal_after
        (codes "SELECT name FROM sqlite_master WHERE type='table' AND name = ")
        (tables_query (some odd_name))
      ≡ some (odd_name, codes " AND name NOT LIKE 'sqlite_%'"))
    × (literal_after
          (codes "SELECT name FROM sqlite_master WHERE type='view' AND name = ")
          (views_query (some odd_name))
        ≡ some (odd_name, []))
    × (literal_after
          (codes "SELECT name, tbl_name, sql FROM sqlite_master WHERE type='index' AND tbl_name = ")
          (indexes_query (some odd_name))
        ≡ some (odd_name, codes " AND name NOT LIKE 'sqlite_%' ORDER BY name"))
    × (literal_after
          (codes "PRAGMA " ++ (codes "table_info" ++ b'(' ∷ []))
          (pragma_query (codes "table_info") odd_name)
        ≡ some (odd_name, b')' ∷ []))
queries-literal_example = queries-literal odd_name (codes "table_info")

opened_is_active : is_active opened.transaction_state ≡ true
unfolding is_active
opened_is_active = refl

schema_methods_in_transaction_example :
    SentOn opened (Target.on_connection 1) (tables_query none) [] (get_tables env none opened).1
    × SentOn opened (Target.on_connection 1) (views_query none) [] (get_views env none opened).1
    × SentOn opened
        (Target.on_connection 1)
        (indexes_query none)
        []
        (get_indexes env tables none opened).1
    × SentOn opened
        (Target.on_connection 1)
        (pragma_query (codes "table_info") odd_name)
        []
        (get_table_info env odd_name opened).1
    × SentOn opened
        (Target.on_connection 1)
        (pragma_query (codes "table_xinfo") odd_name)
        []
        (get_table_xinfo env odd_name opened).1
    × SentOn opened
        (Target.on_connection 1)
        (pragma_query (codes "index_list") odd_name)
        []
        (get_index_list env odd_name opened).1
    × SentOn opened
        (Target.on_connection 1)
        (pragma_query (codes "index_info") odd_name)
        []
        (get_index_info env odd_name opened).1
    × SentOn opened
        (Target.on_connection 1)
        (pragma_query (codes "foreign_key_list") odd_name)
        []
        (get_foreign_keys env odd_name opened).1
schema_methods_in_transaction_example =
    schema_methods_in_transaction env opened 1 opened_is_active refl (inr refl) tables none odd_name

get_schema_lem_example :
    (get_schema users_env tables (some (codes "users")) opened).0
    ≡ Outcome.◌>>=◌
        (get_tables users_env (some (codes "users")) opened).0
        (assembled users_env 1 users_db users-Answers tables (some (codes "users")) opened)
get_schema_lem_example =
    get_schema_lem users_env 1 users_db users-Answers tables (some (codes "users")) opened
      opened_is_active refl (inr refl)

format_value_lem_example :
    read_literal (format_value (λ x. []) users 1 ++ codes ", 'next'")
    ≡ some (text (codes "users"), codes ", 'next'")
format_value_lem_example =
    format_value_lem (λ x. []) users 1 (text (codes "users")) (codes ", 'next'")
      (is_text (codes "users") refl refl refl) refl

quote_ident_path_lem_example :
    (read_path
        (length (split_dots (codes "main.users")))
        (quote_ident_path (codes "main.users") ++ [])
      ≡ some (split_dots (codes "main.users"), []))
    × (join (b'.' ∷ []) (split_dots (codes "main.users")) ≡ codes "main.users")
quote_ident_path_lem_example = quote_ident_path_lem (codes "main.users") [] refl refl

-- A database that answers every query by a row for the table and one for a system table.
abbrev sequence : Row
sequence =
    text_cell (codes "table")
    ∷ text_cell (codes "sqlite_sequence")
    ∷ text_cell (codes "CREATE TABLE sqlite_sequence(name,seq)")
    ∷ []

abbrev dumped_env : Env
dumped_env = record env { fetch_all = λ t. reply (users ∷ sequence ∷ []) }

abbrev dumped_db : Text → List Row
dumped_db query = users ∷ sequence ∷ []

dumped-Answers : Answers dumped_env 1 dumped_db
dumped-Answers = record { settled = λ query t. refl }

abbrev entries : List Entry
entries =
    user_table (codes "users") (codes "CREATE TABLE users (name)")
    ∷ system_table (codes "sequence") (codes "CREATE TABLE sqlite_sequence(name,seq)")
    ∷ []

entries-AreRowsOf : AreRowsOf (dumped_db master_query) entries
unfolding starts_with
entries-AreRowsOf = (
  record { type = refl; name = refl; cell = _; third = refl; sql = refl; plain = refl },
  (record { type = refl; name = refl; cell = _; third = refl; sql = refl; plain = tt }, tt),
)

iterdump_lem_example :
    (iterdump dumped_env (λ x. []) opened).0
    ≡ ok (
        codes "BEGIN TRANSACTION;"
        ∷ codes "CREATE TABLE users (name);"
        ∷ codes "CREATE TABLE sqlite_sequence(name,seq);"
        ∷ (table_texts (λ x. []) dumped_db (codes "users" ∷ []) ++ codes "COMMIT;" ∷ []))
iterdump_lem_example =
    iterdump_lem dumped_env (λ x. []) 1 dumped_db dumped-Answers opened entries opened_is_active
      refl entries-AreRowsOf
