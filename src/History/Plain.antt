-- ===== src/History/Plain.antt =====
-- What the calls that neither open nor end a transaction keep.
use rapsqlite.Prelude.{List, Text}
use rapsqlite.Chars.{CharTables}
use rapsqlite.State.{Connection, Env}
use rapsqlite.Fetch.Keeping.{
  QueryKeeps, fetch_all-Keeps, fetch_one-Keeps, fetch_optional-Keeps, execute_many-Keeps,
}
use rapsqlite.Execute.Keeping.{execute-Keeps, context_enter-Keeps}
use rapsqlite.Settings.Pragmas.{set_pragma-Keeps}
use rapsqlite.Callbacks.Keeping.{
  ExtensionKeeps, enable_load_extension-Keeps, load_extension-Keeps, create_function-Keeps,
  set_trace_callback-Keeps, set_authorizer-Keeps, set_progress_handler-Keeps,
}
use rapsqlite.Schema.Methods.{
  get_tables, get_views, get_table_info, get_table_xinfo, get_indexes, get_index_list,
  get_index_info, get_foreign_keys,
}
use rapsqlite.Schema.Keeping.{fetch_rows-Keeps, get_schema-Keeps}
use rapsqlite.Changes.Keeping.{CountKeeps, total_changes-Keeps}
use rapsqlite.Dump.Keeping.{iterdump-Keeps}
use rapsqlite.Cursor.{Session}
use rapsqlite.Cursor.Keeping.{
  fetchone-Keeps, fetchmany-Keeps, fetchall-Keeps, anext-Keeps, cursor_execute-Keeps,
  cursor_executemany-Keeps, executescript-Keeps,
}
use rapsqlite.History.{
  PlainCall, counts_changes, fetches_all, fetches_one, fetches_optional, executes, executes_many,
  awaits, sets_pragma, enables_extensions, loads_extension, creates_function, sets_trace,
  sets_authorizer, sets_progress, gets_tables, gets_views, gets_indexes, gets_schema,
  gets_table_info, gets_table_xinfo, gets_index_list, gets_index_info, gets_foreign_keys, dumps,
  uses_cursor, CursorCall, fetches_row, fetches_rows, fetches_rest, iterates, cursor_executes,
  cursor_executes_many, runs_script, cursor_step, plain_step,
}

pub record PlainKeeps (P : Connection → Type 0) (env : Env) : Type 0 where
  pub queries : QueryKeeps P env
  pub extensions : ExtensionKeeps P env
  pub counting : CountKeeps P env
  pub stores :
      (c : Connection) (pragmas : List (Text × Text)) → P c → P (record c { pragmas = pragmas })

module _ {P : Connection → Type 0} (env : Env) (k : PlainKeeps P env) (tables : CharTables) where
  cursor_step-Keeps :
      (call : CursorCall) (s : Session) → P s.conn → P (cursor_step env tables call s).conn
  unfolding cursor_step
  cursor_step-Keeps fetches_row s = (fetchone-Keeps env k.queries tables).at s
  cursor_step-Keeps (fetches_rows size) s = (fetchmany-Keeps env k.queries tables size).at s
  cursor_step-Keeps fetches_rest s = (fetchall-Keeps env k.queries tables).at s
  cursor_step-Keeps iterates s = (anext-Keeps P).at s
  cursor_step-Keeps (cursor_executes q p) s = (cursor_execute-Keeps env k.queries tables q p).at s
  cursor_step-Keeps (cursor_executes_many q ps) s =
      (cursor_executemany-Keeps env k.queries tables q ps).at s
  cursor_step-Keeps (runs_script script) s = (executescript-Keeps env k.queries tables script).at s

  pub plain_step-Keeps :
      (call : PlainCall) (c : Connection) → P c → P (plain_step env tables call c)
  unfolding plain_step get_tables get_views get_indexes get_table_info get_table_xinfo
      get_index_list get_index_info get_foreign_keys
  plain_step-Keeps counts_changes c = (total_changes-Keeps env k.counting).at c
  plain_step-Keeps (fetches_all q p) c = (fetch_all-Keeps env k.queries tables q p).at c
  plain_step-Keeps (fetches_one q p) c = (fetch_one-Keeps env k.queries tables q p).at c
  plain_step-Keeps (fetches_optional q p) c = (fetch_optional-Keeps env k.queries tables q p).at c
  plain_step-Keeps (executes q p) c = (execute-Keeps env k.queries tables q p).at c
  plain_step-Keeps (executes_many q ps) c = (execute_many-Keeps env k.queries q ps).at c
  plain_step-Keeps (awaits ctx) c = (context_enter-Keeps env k.queries ctx).at c
  plain_step-Keeps (sets_pragma name value) c =
      (set_pragma-Keeps env k.queries.steady k.queries.hook k.stores name value).at c
  plain_step-Keeps (enables_extensions b) c = (enable_load_extension-Keeps env k.extensions b).at c
  plain_step-Keeps (loads_extension name) c = (load_extension-Keeps env k.extensions name).at c
  plain_step-Keeps (creates_function name n f) c =
      (create_function-Keeps env k.extensions name n f).at c
  plain_step-Keeps (sets_trace f) c = (set_trace_callback-Keeps env k.extensions f).at c
  plain_step-Keeps (sets_authorizer f) c = (set_authorizer-Keeps env k.extensions f).at c
  plain_step-Keeps (sets_progress n f) c = (set_progress_handler-Keeps env k.extensions n f).at c
  plain_step-Keeps (gets_tables x) c = (fetch_rows-Keeps env k.queries _ _).at c
  plain_step-Keeps (gets_views x) c = (fetch_rows-Keeps env k.queries _ _).at c
  plain_step-Keeps (gets_indexes x) c = (fetch_rows-Keeps env k.queries _ _).at c
  plain_step-Keeps (gets_table_info x) c = (fetch_rows-Keeps env k.queries _ _).at c
  plain_step-Keeps (gets_table_xinfo x) c = (fetch_rows-Keeps env k.queries _ _).at c
  plain_step-Keeps (gets_index_list x) c = (fetch_rows-Keeps env k.queries _ _).at c
  plain_step-Keeps (gets_index_info x) c = (fetch_rows-Keeps env k.queries _ _).at c
  plain_step-Keeps (gets_foreign_keys x) c = (fetch_rows-Keeps env k.queries _ _).at c
  plain_step-Keeps (gets_schema x) c = (get_schema-Keeps env k.queries tables x).at c
  plain_step-Keeps (dumps x) c = (iterdump-Keeps env k.queries x).at c
  plain_step-Keeps (uses_cursor cur call) c =
      cursor_step-Keeps call (record { conn = c; cur = cur })
