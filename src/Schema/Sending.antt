-- ===== src/Schema/Sending.antt =====
-- Where the queries about the schema go, and what the methods keep.
use rapsqlite.Prelude.{ℕ, ◌≡◌, refl, ap, true, List, [], Option, some, Text, codes}
use rapsqlite.Outcome.{Outcome}
use rapsqlite.Types.{is_active}
use rapsqlite.Chars.{CharTables}
use rapsqlite.Conversion.{Row}
use rapsqlite.State.{Connection, Env, Target, ◌>>=◌, and_then, pure}
use rapsqlite.Query.{bind_and_fetch_all, bind_and_fetch, do_fetch}
use rapsqlite.Fetch.Route.{HookDone, SentOn, fetch_with_in_transaction, do_fetch-SentOn}
use rapsqlite.Schema.{tables_query, views_query, indexes_query, pragma_query}
use rapsqlite.Schema.Methods.{
  fetch_rows, get_tables, get_views, get_table_info, get_table_xinfo, get_indexes, get_index_list,
  get_index_info, get_foreign_keys,
}

decoded_state :
    {A B : Type 0} (r : Outcome A × Connection) (f : A → B) → (and_then r (λ a. pure (f a))).1 ≡ r.1
unfolding and_then pure
decoded_state (Outcome.ok a, c) f = refl
decoded_state (Outcome.err e, c) f = refl

module _ (env : Env) (c : Connection) (h : ℕ) (s : is_active c.transaction_state ≡ true)
    (held : c.transaction_connection ≡ some h) (d : HookDone c) where
  pub fetch_rows-eq :
      {A : Type 0} (query : Text) (decode : List Row → A)
      → fetch_rows env query decode c
        ≡ and_then
            (do_fetch env.fetch_all (Target.on_connection h) query [] c)
            (λ rows. pure (decode rows))
  unfolding fetch_rows ◌>>=◌ bind_and_fetch_all bind_and_fetch
  fetch_rows-eq query decode =
      ap (λ r. and_then r (λ rows. pure (decode rows)))
        (fetch_with_in_transaction env (λ t. bind_and_fetch_all env t query []) c h s held d)

  fetch_rows-SentOn :
      {A : Type 0} (query : Text) (decode : List Row → A)
      → SentOn c (Target.on_connection h) query [] (fetch_rows env query decode c).1
  fetch_rows-SentOn query decode = rw (fetch_rows-eq query decode) (
      rw (decoded_state (do_fetch env.fetch_all (Target.on_connection h) query [] c) decode)
        (do_fetch-SentOn env.fetch_all (Target.on_connection h) query [] c))

  -- Inside a transaction each method that describes the schema makes one call, its own query on the
  -- connection of the transaction, so that it sees what the transaction has changed, and leaves the
  -- transaction as it was. The hook is to be done.
  pub schema_methods_in_transaction :
      (tables : CharTables) (name : Option Text) (table : Text)
      → SentOn c (Target.on_connection h) (tables_query name) [] (get_tables env name c).1
        × SentOn c (Target.on_connection h) (views_query name) [] (get_views env name c).1
        × SentOn c
            (Target.on_connection h)
            (indexes_query name)
            []
            (get_indexes env tables name c).1
        × SentOn c
            (Target.on_connection h)
            (pragma_query (codes "table_info") table)
            []
            (get_table_info env table c).1
        × SentOn c
            (Target.on_connection h)
            (pragma_query (codes "table_xinfo") table)
            []
            (get_table_xinfo env table c).1
        × SentOn c
            (Target.on_connection h)
            (pragma_query (codes "index_list") table)
            []
            (get_index_list env table c).1
        × SentOn c
            (Target.on_connection h)
            (pragma_query (codes "index_info") table)
            []
            (get_index_info env table c).1
        × SentOn c
            (Target.on_connection h)
            (pragma_query (codes "foreign_key_list") table)
            []
            (get_foreign_keys env table c).1
  unfolding get_tables get_views get_indexes get_table_info get_table_xinfo get_index_list
      get_index_info get_foreign_keys
  schema_methods_in_transaction tables name table = (
    fetch_rows-SentOn _ _,
    fetch_rows-SentOn _ _,
    fetch_rows-SentOn _ _,
    fetch_rows-SentOn _ _,
    fetch_rows-SentOn _ _,
    fetch_rows-SentOn _ _,
    fetch_rows-SentOn _ _,
    fetch_rows-SentOn _ _,
  )
