-- ===== src/Execute.antt =====
-- src/connection.rs: `execute`, `cursor` and `create_cursor_with_query`; src/context_managers.rs:
-- `ExecuteContextManager`, which runs the statement when it is awaited.
pub mod Route
pub mod Keeping
use rapsqlite.Prelude.{ℕ, Bool, true, false, List, [], Option, none, some, Text, if◌then◌else◌}
use rapsqlite.Types.{PyObject, SqliteParam, is_exactly_active}
use rapsqlite.Chars.{CharTables}
use rapsqlite.Params.{process_parameters}
use rapsqlite.Sql.{is_select_query}
use rapsqlite.Conversion.{PyRow}
use rapsqlite.State.{Connection, Env, Done, M, ◌>>=◌, ◌>>◌, pure, gets, modify, lift}
use rapsqlite.Query.{bind_and_execute}
use rapsqlite.Pool.{get_or_create_pool, execute_init_hook_if_needed}
use rapsqlite.Fetch.{with_connection, ensure_pool_unless, track}

-- The fields of `Cursor` that are its own; the others are those of the connection, shared with it.
pub record Cursor : Type 0 where
  pub query : Text
  pub results : Option (List PyRow)
  pub current_index : ℕ
  pub parameters : Option PyObject
  pub processed_query : Option Text
  pub processed_params : Option (List SqliteParam)

pub record ExecuteContextManager : Type 0 where
  pub cursor : Cursor
  pub query : Text
  pub param_values : List SqliteParam
  pub is_select : Bool

-- `Connection::cursor`.
unfoldable pub cursor : Cursor
cursor = record {
  query = [];
  results = none;
  current_index = 0;
  parameters = none;
  processed_query = none;
  processed_params = none;
}

unfoldable pub create_cursor_with_query : Text → Option PyObject → Cursor
create_cursor_with_query query parameters = record {
  query = query;
  results = none;
  current_index = 0;
  parameters = parameters;
  processed_query = none;
  processed_params = none;
}

-- What `execute` makes of the original and the processed query.
unfoldable pub make_context :
    CharTables → Text → Option PyObject → Text → List SqliteParam → ExecuteContextManager
make_context tables original parameters processed params = record {
  cursor = record {
    query = original;
    results = none;
    current_index = 0;
    parameters = parameters;
    processed_query = some processed;
    processed_params = some params;
  };
  query = processed;
  param_values = params;
  is_select = is_select_query tables processed;
}

-- The reading of the state by a statement: nothing counts as a transaction once the hook was called.
unfoldable pub sees_transaction : Bool → Connection → Bool
unfolding is_exactly_active
sees_transaction true c = false
sees_transaction false c = is_exactly_active c.transaction_state

module _ (env : Env) where
  unfoldable pub execute : CharTables → Text → Option PyObject → M Connection ExecuteContextManager
  unfolding make_context
  execute tables query parameters = do
    q ← lift (process_parameters env.py tables query parameters)
    modify (track env q.0)
    pure (make_context tables query parameters q.0 q.1)

  unfoldable pub enter_statement : ExecuteContextManager → M Connection (Unit {0})
  enter_statement ctx = do
    hook_already_called ← gets λ c. c.init_hook_called
    in_transaction ← gets (sees_transaction hook_already_called)
    ensure_pool_unless env in_transaction
    execute_init_hook_if_needed env
    in_transaction_after_hook ← gets (sees_transaction hook_already_called)
    done ←
        with_connection env in_transaction_after_hook
          λ t. bind_and_execute env t ctx.query ctx.param_values
    modify λ c. record c { last_rowid = done.last_insert_rowid; last_changes = done.rows_affected }

  -- A query only makes sure of the pool: it runs at the first fetch.
  unfoldable pub enter_select : M Connection (Unit {0})
  enter_select = do
    in_transaction ← gets λ c. is_exactly_active c.transaction_state
    hook_already_called ← gets λ c. c.init_hook_called
    ensure_pool_unless env (if in_transaction then true else hook_already_called)
    execute_init_hook_if_needed env
    ensure_pool_unless env
        (if in_transaction then true else if hook_already_called then false else true)

  -- `ExecuteContextManager::__aenter__`, which `__await__` calls too.
  unfoldable pub context_enter : ExecuteContextManager → M Connection Cursor
  context_enter ctx = do
    (if ctx.is_select then enter_select else enter_statement ctx)
    pure ctx.cursor
