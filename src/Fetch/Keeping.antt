-- ===== src/Fetch/Keeping.antt =====
-- What the query methods keep: any property that their calls and their bookkeeping leave alone.
use rapsqlite.Prelude.{ℕ, Bool, true, false, List, [], ◌∷◌, Option, none, some, Text, arith}
use rapsqlite.Prelude.Int.{ℤ}
use rapsqlite.Outcome.{PyErr}
use rapsqlite.Types.{PyObject, SqliteParam}
use rapsqlite.Chars.{CharTables}
use rapsqlite.Conversion.{Row}
use rapsqlite.State.{Connection, Env, Event, Target, Reply, Done, M, log, answer, modify}
use rapsqlite.Keeps.{
  Keeps, Keeps-bind, Keeps-gets, Keeps-lift, Keeps-require, Keeps-pure, Keeps-modify,
}
use rapsqlite.Query.{
  Helper, fetches_all, fetches_one, fetches_optional, do_fetch, bind_and_fetch, bind_and_fetch_all,
  bind_and_fetch_one, bind_and_fetch_optional, bind_and_execute, bind_query_multiple,
}
use rapsqlite.Pool.{ensure_callback_connection}
use rapsqlite.Pool.Steady.{
  Steady, HookKeeps, do_execute-Keeps, get_or_create_pool-Keeps, execute_init_hook_if_needed-Keeps,
}
use rapsqlite.Fetch.{
  on_route, with_connection, ensure_pool_unless, fetch_with, convert_rows, convert_row,
  convert_optional, track, fetch_all, fetch_one, fetch_optional, Totals, execute_on_slot,
  execute_sets, execute_many_route, execute_many,
}

pub record QueryKeeps (P : Connection → Type 0) (env : Env) : Type 0 where
  pub steady : Steady P
  pub callback : Keeps P (ensure_callback_connection env)
  pub hook : HookKeeps P env
  pub fetches :
      (c : Connection) (target : Target) (query : Text) (params : List SqliteParam)
      → P c
      → P (log (Event.fetches target query params) c)
  pub tracks :
      (c : Connection) (cache : List (Text × ℕ)) → P c → P (record c { query_cache = cache })
  pub counts :
      (c : Connection) (row_id : ℤ) (changes : ℕ)
      → P c
      → P (record c { last_rowid = row_id; last_changes = changes })

module _ {P : Connection → Type 0} (env : Env) (k : QueryKeeps P env) where
  pub do_fetch-Keeps :
      {A : Type 0} (replies : List Event → Reply A) (target : Target) (query : Text)
      (params : List SqliteParam)
      → Keeps P (do_fetch replies target query params)
  unfolding do_fetch answer
  do_fetch-Keeps replies target query params = record {
    at = λ c p. ground (arith, k.fetches c target query params p);
  }

  pub bind_and_fetch-Keeps :
      {A : Type 0} (how : Helper) (replies : List Event → Reply A) (target : Target) (query : Text)
      (params : List SqliteParam)
      → Keeps P (bind_and_fetch replies how target query params)
  unfolding bind_and_fetch
  bind_and_fetch-Keeps how replies target query [] = do_fetch-Keeps replies target query []
  bind_and_fetch-Keeps how replies target query (p ∷ ps) =
      Keeps-bind _ _ (Keeps-lift _) λ bound. do_fetch-Keeps replies target query bound

  pub bind_and_execute-Keeps :
      (target : Target) (query : Text) (params : List SqliteParam)
      → Keeps P (bind_and_execute env target query params)
  unfolding bind_and_execute bind_query_multiple
  bind_and_execute-Keeps target query [] = do_execute-Keeps env k.steady target _ []
  bind_and_execute-Keeps target query (p ∷ []) = do_execute-Keeps env k.steady target _ (p ∷ [])
  bind_and_execute-Keeps target query (p ∷ q ∷ ps) =
      Keeps-bind _ _ (Keeps-lift _) λ bound. do_execute-Keeps env k.steady target _ bound

  pub on_route-Keeps :
      {A : Type 0} (in_transaction callbacks : Bool) (op : Target → M Connection A)
      → ((t : Target) → Keeps P (op t))
      → Keeps P (on_route env in_transaction callbacks op)
  unfolding on_route
  on_route-Keeps true callbacks op h =
      Keeps-bind _ _ (Keeps-gets _) λ slot. Keeps-bind _ _ (Keeps-require slot _) λ t. h _
  on_route-Keeps false true op h =
      Keeps-bind _ _ k.callback
        λ _. Keeps-bind _ _ (Keeps-gets _) λ slot. Keeps-bind _ _ (Keeps-require slot _) λ t. h _
  on_route-Keeps false false op h = Keeps-bind _ _ (get_or_create_pool-Keeps env k.steady) λ p. h _

  pub with_connection-Keeps :
      {A : Type 0} (in_transaction : Bool) (op : Target → M Connection A)
      → ((t : Target) → Keeps P (op t))
      → Keeps P (with_connection env in_transaction op)
  unfolding with_connection
  with_connection-Keeps in_transaction op h =
      Keeps-bind _ _ (Keeps-gets _) λ callbacks. on_route-Keeps in_transaction callbacks op h

  pub ensure_pool_unless-Keeps : (b : Bool) → Keeps P (ensure_pool_unless env b)
  unfolding ensure_pool_unless
  ensure_pool_unless-Keeps true = Keeps-pure tt
  ensure_pool_unless-Keeps false =
      Keeps-bind _ _ (get_or_create_pool-Keeps env k.steady) λ p. Keeps-pure tt

  pub fetch_with-Keeps :
      {A : Type 0} (op : Target → M Connection A)
      → ((t : Target) → Keeps P (op t))
      → Keeps P (fetch_with env op)
  unfolding fetch_with
  fetch_with-Keeps op h = Keeps-bind _ _ (Keeps-gets _) λ in_transaction.
      Keeps-bind _ _ (ensure_pool_unless-Keeps in_transaction) λ _.
        Keeps-bind _ _ (execute_init_hook_if_needed-Keeps env k.hook)
          λ _. with_connection-Keeps in_transaction op h

  convert_optional-Keeps : (row : Option Row) → Keeps P (convert_optional env row)
  unfolding convert_optional convert_row
  convert_optional-Keeps none = Keeps-pure none
  convert_optional-Keeps (some row) =
      Keeps-bind _ _ (record { at = λ c p. p }) λ r. Keeps-pure (some r)

  pub track-Keeps : (query : Text) → Keeps P (modify (track env query))
  unfolding track
  track-Keeps query = Keeps-modify _ λ c. k.tracks c _

  module _ (tables : CharTables) (query : Text) (parameters : Option PyObject) where
    pub fetch_all-Keeps : Keeps P (fetch_all env tables query parameters)
    unfolding fetch_all bind_and_fetch_all convert_rows
    fetch_all-Keeps = Keeps-bind _ _ (Keeps-lift _) λ q. Keeps-bind _ _ (track-Keeps q.0) λ _.
        Keeps-bind _ _
          (fetch_with-Keeps _ λ t. bind_and_fetch-Keeps fetches_all env.fetch_all t q.0 q.1)
          λ rows. record { at = λ c p. p }

    pub fetch_one-Keeps : Keeps P (fetch_one env tables query parameters)
    unfolding fetch_one bind_and_fetch_one convert_row
    fetch_one-Keeps = Keeps-bind _ _ (Keeps-lift _) λ q.
        Keeps-bind _ _
          (fetch_with-Keeps _ λ t. bind_and_fetch-Keeps fetches_one env.fetch_one t q.0 q.1)
          λ row. record { at = λ c p. p }

    pub fetch_optional-Keeps : Keeps P (fetch_optional env tables query parameters)
    unfolding fetch_optional bind_and_fetch_optional
    fetch_optional-Keeps = Keeps-bind _ _ (Keeps-lift _) λ q.
        Keeps-bind _ _
          (fetch_with-Keeps _
            λ t. bind_and_fetch-Keeps fetches_optional env.fetch_optional t q.0 q.1)
          convert_optional-Keeps

  execute_on_slot-Keeps :
      (slot : Connection → Option ℕ) (missing : PyErr) (query : Text) (params : List SqliteParam)
      → Keeps P (execute_on_slot env slot missing query params)
  unfolding execute_on_slot
  execute_on_slot-Keeps slot missing query params =
      Keeps-bind _ _ (Keeps-gets _)
        λ held. Keeps-bind _ _ (Keeps-require held _) λ h. bind_and_execute-Keeps _ query params

  execute_sets-Keeps :
      (step : List SqliteParam → M Connection Done)
      → ((ps : List SqliteParam) → Keeps P (step ps))
      → (sets : List (List SqliteParam)) (totals : Totals)
      → Keeps P (execute_sets env step sets totals)
  unfolding execute_sets
  execute_sets-Keeps step h [] totals = Keeps-pure totals
  execute_sets-Keeps step h (ps ∷ sets) totals =
      Keeps-bind _ _ (h ps) λ d. execute_sets-Keeps step h sets _

  execute_many_route-Keeps :
      (in_transaction callbacks : Bool) (query : Text) (sets : List (List SqliteParam))
      → Keeps P (execute_many_route env in_transaction callbacks query sets)
  unfolding execute_many_route
  execute_many_route-Keeps true callbacks query sets =
      execute_sets-Keeps _ (execute_on_slot-Keeps _ _ query) sets _
  execute_many_route-Keeps false true query sets =
      Keeps-bind _ _ k.callback λ _. execute_sets-Keeps _ (execute_on_slot-Keeps _ _ query) sets _
  execute_many_route-Keeps false false query sets =
      Keeps-bind _ _ (get_or_create_pool-Keeps env k.steady)
        λ p. execute_sets-Keeps _ (bind_and_execute-Keeps (Target.on_pool p) query) sets _

  pub execute_many-Keeps :
      (query : Text) (parameters : List (List PyObject))
      → Keeps P (execute_many env query parameters)
  unfolding execute_many
  execute_many-Keeps query parameters = Keeps-bind _ _ (Keeps-lift _) λ sets.
      Keeps-bind _ _ (Keeps-gets _) λ in_transaction.
        Keeps-bind _ _ (ensure_pool_unless-Keeps in_transaction) λ _.
          Keeps-bind _ _ (execute_init_hook_if_needed-Keeps env k.hook) λ _.
            Keeps-bind _ _ (Keeps-gets _) λ callbacks.
              Keeps-bind _ _ (execute_many_route-Keeps in_transaction callbacks query sets)
                λ totals. Keeps-modify _ λ c. k.counts c totals.row_id totals.changes
