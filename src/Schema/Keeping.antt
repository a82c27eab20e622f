-- ===== src/Schema/Keeping.antt =====
-- What the methods that describe the schema keep.
use rapsqlite.Prelude.{Bool, true, false, List, [], ◌∷◌, Option, Text}
use rapsqlite.Chars.{CharTables}
use rapsqlite.Conversion.{Row}
use rapsqlite.State.{Connection, Env, Target, M}
use rapsqlite.Keeps.{Keeps, Keeps-bind, Keeps-gets, Keeps-require, Keeps-pure}
use rapsqlite.Query.{bind_and_fetch_all}
use rapsqlite.Pool.Steady.{get_or_create_pool-Keeps}
use rapsqlite.Query.{fetches_all}
use rapsqlite.Fetch.Keeping.{QueryKeeps, bind_and_fetch-Keeps, on_route-Keeps, fetch_with-Keeps}
use rapsqlite.Schema.Methods.{fetch_rows, on_route_again, fetch_table, fetch_tables, get_schema}

module _ {P : Connection → Type 0} (env : Env) (k : QueryKeeps P env) where
  asks-Keeps : (query : Text) (t : Target) → Keeps P (bind_and_fetch_all env t query [])
  unfolding bind_and_fetch_all
  asks-Keeps query t = bind_and_fetch-Keeps env k fetches_all env.fetch_all t query []

  pub fetch_rows-Keeps :
      {A : Type 0} (query : Text) (decode : List Row → A) → Keeps P (fetch_rows env query decode)
  unfolding fetch_rows
  fetch_rows-Keeps query decode =
      Keeps-bind _ _ (fetch_with-Keeps env k _ (asks-Keeps query)) λ rows. Keeps-pure (decode rows)

  pub on_route_again-Keeps :
      {A : Type 0} (in_transaction callbacks : Bool) (op : Target → M Connection A)
      → ((t : Target) → Keeps P (op t))
      → Keeps P (on_route_again env in_transaction callbacks op)
  unfolding on_route_again
  on_route_again-Keeps true callbacks op h =
      Keeps-bind _ _ (Keeps-gets _) λ slot. Keeps-bind _ _ (Keeps-require slot _) λ t. h _
  on_route_again-Keeps false true op h =
      Keeps-bind _ _ (Keeps-gets _) λ slot. Keeps-bind _ _ (Keeps-require slot _) λ t. h _
  on_route_again-Keeps false false op h =
      Keeps-bind _ _ (get_or_create_pool-Keeps env k.steady) λ p. h _

  module _ (in_transaction callbacks : Bool) where
    fetch_table-Keeps : (table : Text) → Keeps P (fetch_table env in_transaction callbacks table)
    unfolding fetch_table
    fetch_table-Keeps table =
        Keeps-bind _ _ (on_route_again-Keeps in_transaction callbacks _ (asks-Keeps _)) λ info.
          Keeps-bind _ _ (on_route_again-Keeps in_transaction callbacks _ (asks-Keeps _)) λ indexes.
            Keeps-bind _ _ (on_route_again-Keeps in_transaction callbacks _ (asks-Keeps _))
              λ foreign_keys. Keeps-pure _

    fetch_tables-Keeps :
        (found : List Text) → Keeps P (fetch_tables env in_transaction callbacks found)
    unfolding fetch_tables
    fetch_tables-Keeps [] = Keeps-pure []
    fetch_tables-Keeps (table ∷ rest) =
        Keeps-bind _ _ (fetch_table-Keeps table)
          λ rows. Keeps-bind _ _ (fetch_tables-Keeps rest) λ more. Keeps-pure _

  pub get_schema-Keeps :
      (tables : CharTables) (name : Option Text) → Keeps P (get_schema env tables name)
  unfolding get_schema
  get_schema-Keeps tables name = Keeps-bind _ _ (Keeps-gets _) λ in_transaction.
      Keeps-bind _ _ (Keeps-gets _) λ callbacks.
        Keeps-bind _ _ (on_route-Keeps env k in_transaction callbacks _ (asks-Keeps _)) λ rows.
          Keeps-bind _ _ (fetch_tables-Keeps in_transaction callbacks _) λ found. Keeps-pure _
