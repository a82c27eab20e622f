-- ===== src/Dump/Keeping.antt =====
-- What `iterdump` keeps.
use rapsqlite.Prelude.{ℕ, Bool, List, [], ◌∷◌, Text, arith}
use rapsqlite.State.{Connection, Env, Target, answer}
use rapsqlite.Keeps.{Keeps, Keeps-bind, Keeps-gets, Keeps-lift, Keeps-pure}
use rapsqlite.Fetch.Keeping.{QueryKeeps, do_fetch-Keeps, on_route-Keeps}
use rapsqlite.Schema.Keeping.{on_route_again-Keeps}
use rapsqlite.Dump.{master_query, rows_query, fetch_master, dump_tables, iterdump}

module _ {P : Connection → Type 0} (env : Env) (k : QueryKeeps P env) (float_text : ℕ → Text) where
  fetch_master-Keeps : (t : Target) → Keeps P (fetch_master env float_text t)
  unfolding fetch_master answer
  fetch_master-Keeps t = record { at = λ c p. ground (arith, k.fetches c t master_query [] p) }

  dump_tables-Keeps :
      (in_transaction callbacks : Bool) (found : List Text)
      → Keeps P (dump_tables env float_text in_transaction callbacks found)
  unfolding dump_tables
  dump_tables-Keeps in_transaction callbacks [] = Keeps-pure []
  dump_tables-Keeps in_transaction callbacks (table ∷ rest) =
      Keeps-bind _ _
        (on_route_again-Keeps env k in_transaction callbacks _
          λ t. do_fetch-Keeps env k env.fetch_all t (rows_query table) [])
        λ rows.
          Keeps-bind _ _ (dump_tables-Keeps in_transaction callbacks rest) λ more. Keeps-pure _

  pub iterdump-Keeps : Keeps P (iterdump env float_text)
  unfolding iterdump
  iterdump-Keeps = Keeps-bind _ _ (Keeps-gets _) λ in_transaction.
      Keeps-bind _ _ (Keeps-gets _) λ callbacks.
        Keeps-bind _ _ (on_route-Keeps env k in_transaction callbacks _ fetch_master-Keeps) λ rows.
          Keeps-bind _ _ (Keeps-lift _) λ found.
            Keeps-bind _ _ (dump_tables-Keeps in_transaction callbacks _) λ more. Keeps-pure _
