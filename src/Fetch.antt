-- ===== src/Fetch.antt =====
-- src/connection.rs: `fetch_all`, `fetch_one`, `fetch_optional` and `execute_many`, and the choice of
-- a connection that every query method makes.
pub mod Route
pub mod Keeping
pub mod Many
pub mod Single
use rapsqlite.Prelude.{
  ℕ, ◌+◌, Bool, true, false, List, [], ◌∷◌, Option, none, some, Text, if◌then◌else◌,
}
use rapsqlite.Prelude.Int.{ℤ, pos}
use rapsqlite.Outcome.{Outcome, ok, err, PyErr}
use rapsqlite.Outcome
use rapsqlite.Types.{PyObject, SqliteParam, PyApi, from_py, is_active, is_exactly_active}
use rapsqlite.Chars.{CharTables}
use rapsqlite.Params.{process_parameters, process_positional_parameters}
use rapsqlite.Sql.{track_query_usage}
use rapsqlite.Conversion.{Row, PyValue, PyRow, PyCalls, rows_to_py, row_to_py_with_factory}
use rapsqlite.State.{
  Connection, Env, Target, Done, M, ◌>>=◌, ◌>>◌, pure, throw, gets, modify, lift, require,
}
use rapsqlite.Query.{
  bind_and_execute, bind_and_fetch_all, bind_and_fetch_one, bind_and_fetch_optional,
}
use rapsqlite.Pool.{
  has_callbacks, get_or_create_pool, ensure_callback_connection, execute_init_hook_if_needed,
}

module _ (env : Env) where
  -- Transaction first, then callbacks, then the pool; the first flag is the caller's reading of the
  -- transaction state, the second is `has_callbacks`.
  unfoldable pub on_route : {A : Type 0} → Bool → Bool → (Target → M Connection A) → M Connection A
  on_route true callbacks op = do
    slot ← gets λ c. c.transaction_connection
    h ← require slot PyErr.no_transaction_connection
    op (Target.on_connection h)
  on_route false true op = do
    ensure_callback_connection env
    slot ← gets λ c. c.callback_connection
    h ← require slot PyErr.no_callback_connection
    op (Target.on_connection h)
  on_route false false op = do p ← get_or_create_pool env; op (Target.on_pool p)

  unfoldable pub with_connection : {A : Type 0} → Bool → (Target → M Connection A) → M Connection A
  with_connection in_transaction op = do
    callbacks ← gets has_callbacks
    on_route in_transaction callbacks op

  unfoldable pub ensure_pool_unless : Bool → M Connection (Unit {0})
  ensure_pool_unless true = pure tt
  ensure_pool_unless false = do _ ← get_or_create_pool env; pure tt

  -- The pool, the hook and the call, as the three fetch methods have them.
  unfoldable pub fetch_with : {A : Type 0} → (Target → M Connection A) → M Connection A
  fetch_with op = do
    in_transaction ← gets λ c. is_active c.transaction_state
    ensure_pool_unless in_transaction
    execute_init_hook_if_needed env
    with_connection in_transaction op

  unfoldable pub convert_rows : List Row → M Connection (List PyRow)
  unfolding rows_to_py
  convert_rows rows c = (rows_to_py env.calls c.row_factory c.text_factory rows, c)

  unfoldable pub convert_row : Row → M Connection PyRow
  unfolding row_to_py_with_factory
  convert_row row c = (row_to_py_with_factory env.calls c.row_factory c.text_factory row, c)

  unfoldable pub convert_optional : Option Row → M Connection (Option PyRow)
  convert_optional none = pure none
  convert_optional (some row) = do r ← convert_row row; pure (some r)

  unfoldable pub track : Text → Connection → Connection
  unfolding track_query_usage
  track query c = record c { query_cache = track_query_usage query c.query_cache }

  module _ (tables : CharTables) (query : Text) (parameters : Option PyObject) where
    unfoldable pub fetch_all : M Connection (List PyRow)
    fetch_all = do
      q ← lift (process_parameters env.py tables query parameters)
      modify (track q.0)
      rows ← fetch_with λ t. bind_and_fetch_all env t q.0 q.1
      convert_rows rows

    unfoldable pub fetch_one : M Connection PyRow
    fetch_one = do
      q ← lift (process_parameters env.py tables query parameters)
      row ← fetch_with λ t. bind_and_fetch_one env t q.0 q.1
      convert_row row

    unfoldable pub fetch_optional : M Connection (Option PyRow)
    fetch_optional = do
      q ← lift (process_parameters env.py tables query parameters)
      row ← fetch_with λ t. bind_and_fetch_optional env t q.0 q.1
      convert_optional row

-- `from_py` of every parameter of every set.
unfoldable pub process_sets : PyApi → List (List PyObject) → Outcome (List (List SqliteParam))
unfolding process_positional_parameters
process_sets py [] = ok []
process_sets py (set ∷ sets) =
    Outcome.◌>>=◌ (process_positional_parameters py set)
      λ ps. Outcome.◌>>=◌ (process_sets py sets) λ rest. ok (ps ∷ rest)

-- The sum of the changes, and the last row id, over the sets so far.
pub record Totals : Type 0 where
  pub changes : ℕ
  pub row_id : ℤ

abbrev pub add_done : Totals → Done → Totals
add_done t d = record { changes = t.changes + d.rows_affected; row_id = d.last_insert_rowid }

module _ (env : Env) where
  -- One set on a connection that a slot holds; the slot is read anew for each set.
  unfoldable pub execute_on_slot :
      (Connection → Option ℕ) → PyErr → Text → List SqliteParam → M Connection Done
  execute_on_slot slot missing query params = do
    held ← gets slot
    h ← require held missing
    bind_and_execute env (Target.on_connection h) query params

  -- The loop over the sets, with `step` for one of them.
  unfoldable pub execute_sets :
      (List SqliteParam → M Connection Done)
      → List (List SqliteParam)
      → Totals
      → M Connection Totals
  execute_sets step [] totals = pure totals
  execute_sets step (params ∷ sets) totals = do
    done ← step params
    execute_sets step sets (add_done totals done)

  unfoldable pub execute_many_route :
      Bool → Bool → Text → List (List SqliteParam) → M Connection Totals
  execute_many_route true callbacks query sets =
      execute_sets
        (execute_on_slot (λ c. c.transaction_connection) PyErr.no_transaction_connection query) sets
        (record { changes = 0; row_id = pos 0 })
  execute_many_route false true query sets = do
    ensure_callback_connection env
    execute_sets (execute_on_slot (λ c. c.callback_connection) PyErr.no_callback_connection query)
        sets (record { changes = 0; row_id = pos 0 })
  execute_many_route false false query sets = do
    p ← get_or_create_pool env
    execute_sets (bind_and_execute env (Target.on_pool p) query) sets
        (record { changes = 0; row_id = pos 0 })

  unfoldable pub execute_many : Text → List (List PyObject) → M Connection (Unit {0})
  execute_many query parameters = do
    sets ← lift (process_sets env.py parameters)
    in_transaction ← gets λ c. is_exactly_active c.transaction_state
    ensure_pool_unless env in_transaction
    execute_init_hook_if_needed env
    callbacks ← gets has_callbacks
    totals ← execute_many_route in_transaction callbacks query sets
    modify λ c. record c { last_rowid = totals.row_id; last_changes = totals.changes }
