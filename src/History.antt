-- ===== src/History.antt =====
-- Any sequence of calls of the methods of a connection and of its cursors, each one run to its end,
-- whether it fails or not. `Call` is every method but `backup`, which `Use` adds.
pub mod Plain
pub mod Slots
pub mod Backups
pub mod Refinement
pub mod Soundness
pub mod Settled
pub mod Lifetime
pub mod Stuck
use rapsqlite.Prelude.{ℕ, Bool, List, [], ◌∷◌, Option, none, some, Text}
use rapsqlite.Prelude.Int.{ℤ}
use rapsqlite.Outcome.{Outcome}
use rapsqlite.Types.{PyObject}
use rapsqlite.Chars.{CharTables}
use rapsqlite.State.{Connection, Env}
use rapsqlite.Transaction.{begin, commit, rollback, transaction_enter, transaction_exit, close}
use rapsqlite.Fetch.{fetch_all, fetch_one, fetch_optional, execute_many}
use rapsqlite.Settings.{set_pragma}
use rapsqlite.Callbacks.{
  enable_load_extension, load_extension, create_function, set_trace_callback, set_authorizer,
  set_progress_handler,
}
use rapsqlite.Schema.Methods.{
  get_tables, get_views, get_table_info, get_table_xinfo, get_indexes, get_index_list,
  get_index_info, get_foreign_keys, get_schema,
}
use rapsqlite.Changes.{total_changes}
use rapsqlite.Dump.{iterdump}
use rapsqlite.Execute.{Cursor, ExecuteContextManager, execute, context_enter}
use rapsqlite.Cursor.{
  Session, fetchone, fetchmany, fetchall, anext, cursor_execute, cursor_executemany, executescript,
}
use rapsqlite.Backup.{Backup, backup}

-- The methods of a cursor.
pub data CursorCall : Type 0 where
  fetches_row fetches_rest iterates : CursorCall
  fetches_rows : Option ℕ → CursorCall
  cursor_executes : Text → Option PyObject → CursorCall
  cursor_executes_many : Text → List (List PyObject) → CursorCall
  runs_script : Text → CursorCall

-- The calls that neither open nor end a transaction; a cursor of the connection may be in any state.
pub data PlainCall : Type 0 where
  counts_changes : PlainCall
  fetches_all fetches_one fetches_optional executes : Text → Option PyObject → PlainCall
  executes_many : Text → List (List PyObject) → PlainCall
  awaits : ExecuteContextManager → PlainCall
  sets_pragma : Text → Text → PlainCall
  enables_extensions : Bool → PlainCall
  loads_extension : Text → PlainCall
  creates_function : Text → ℤ → Option PyObject → PlainCall
  sets_trace sets_authorizer : Option PyObject → PlainCall
  sets_progress : ℤ → Option PyObject → PlainCall
  gets_tables gets_views gets_indexes gets_schema : Option Text → PlainCall
  gets_table_info gets_table_xinfo gets_index_list gets_index_info gets_foreign_keys :
      Text → PlainCall
  dumps : (ℕ → Text) → PlainCall
  uses_cursor : Cursor → CursorCall → PlainCall

pub data Call : Type 0 where
  begins commits rolls_back closes enters : Call
  exits : Bool → Call
  plain : PlainCall → Call

-- A call, a backup to another connection or to a foreign object, or a backup from another connection.
pub data Use : Type 0 where
  uses : Call → Use
  backs_up : Option (Outcome (Option ℕ)) → Text → ℤ → Connection → Use
  receives_backup : Text → ℤ → Connection → Use

module _ (env : Env) (tables : CharTables) where
  unfoldable pub cursor_step : CursorCall → Session → Session
  cursor_step fetches_row s = (fetchone env tables s).1
  cursor_step (fetches_rows size) s = (fetchmany env tables size s).1
  cursor_step fetches_rest s = (fetchall env tables s).1
  cursor_step iterates s = (anext s).1
  cursor_step (cursor_executes q p) s = (cursor_execute env tables q p s).1
  cursor_step (cursor_executes_many q ps) s = (cursor_executemany env tables q ps s).1
  cursor_step (runs_script script) s = (executescript env tables script s).1

  unfoldable pub plain_step : PlainCall → Connection → Connection
  unfolding cursor_step
  plain_step counts_changes c = (total_changes env c).1
  plain_step (fetches_all q p) c = (fetch_all env tables q p c).1
  plain_step (fetches_one q p) c = (fetch_one env tables q p c).1
  plain_step (fetches_optional q p) c = (fetch_optional env tables q p c).1
  plain_step (executes q p) c = (execute env tables q p c).1
  plain_step (executes_many q ps) c = (execute_many env q ps c).1
  plain_step (awaits ctx) c = (context_enter env ctx c).1
  plain_step (sets_pragma name value) c = (set_pragma env name value c).1
  plain_step (enables_extensions b) c = (enable_load_extension env b c).1
  plain_step (loads_extension name) c = (load_extension env name c).1
  plain_step (creates_function name n f) c = (create_function env name n f c).1
  plain_step (sets_trace f) c = (set_trace_callback env f c).1
  plain_step (sets_authorizer f) c = (set_authorizer env f c).1
  plain_step (sets_progress n f) c = (set_progress_handler env n f c).1
  plain_step (gets_tables name) c = (get_tables env name c).1
  plain_step (gets_views name) c = (get_views env name c).1
  plain_step (gets_indexes table) c = (get_indexes env tables table c).1
  plain_step (gets_schema table) c = (get_schema env tables table c).1
  plain_step (gets_table_info table) c = (get_table_info env table c).1
  plain_step (gets_table_xinfo table) c = (get_table_xinfo env table c).1
  plain_step (gets_index_list table) c = (get_index_list env table c).1
  plain_step (gets_index_info index) c = (get_index_info env index c).1
  plain_step (gets_foreign_keys table) c = (get_foreign_keys env table c).1
  plain_step (dumps float_text) c = (iterdump env float_text c).1
  plain_step (uses_cursor cur call) c = (cursor_step call (record { conn = c; cur = cur })).conn

  unfoldable pub step : Call → Connection → Connection
  unfolding plain_step
  step begins c = (begin env c).1
  step commits c = (commit env c).1
  step rolls_back c = (rollback env c).1
  step closes c = close env c
  step enters c = (transaction_enter env c).1
  step (exits raised) c = (transaction_exit env raised c).1
  step (plain call) c = plain_step call c

  unfoldable pub run : List Call → Connection → Connection
  unfolding step
  run [] c = c
  run (call ∷ calls) c = run calls (step call c)

  -- With the fuel of a backup.
  unfoldable pub use_step : ℕ → Use → Connection → Connection
  unfolding step
  use_step fuel (uses call) c = step call c
  use_step fuel (backs_up foreign name pages target) c =
      (backup env fuel name pages foreign c target).source
  use_step fuel (receives_backup name pages source) c =
      (backup env fuel name pages none source c).target

  unfoldable pub run_uses : ℕ → List Use → Connection → Connection
  unfolding use_step
  run_uses fuel [] c = c
  run_uses fuel (u ∷ us) c = run_uses fuel us (use_step fuel u c)
