-- ===== src/Tests.antt =====
-- A small world for the tests: a database that answers every call, and one whose statements fail.
-- Python objects are numbers: 0 is None, 500 a dict, 501 a list, and any other number itself.
mod Transactions
mod Queries
mod Texts
mod Settings
mod Schema
mod Errors
mod Lifetime
mod Backup
mod Tasks
mod Trampolines
use rapsqlite.Prelude.{
  ℕ, Bool, true, false, List, [], ◌∷◌, Option, none, some, Text, codes, ◌==◌, if◌then◌else◌, ltb,
}
use rapsqlite.Prelude.Int.{ℤ, pos}
use rapsqlite.Outcome.{Outcome, ok, err, SqlxError, CCall}
use rapsqlite.Types.{PyObject, PyApi, idle, active}
use rapsqlite.Chars.{CharTables}
use rapsqlite.Conversion.{Cell, Row, PyCalls, PyRow, py_list, py_int}
use rapsqlite.State.{Connection, Env, Event, Done, reply, fail}

abbrev pub py : PyApi
py = record {
  is_none = λ v. v == 0;
  extract_i64 = λ v. some (pos v);
  extract_f64 = λ v. none;
  extract_string = λ v. none;
  extract_str = λ v. none;
  extract_bytes = λ v. none;
  cast_bytes = λ v. none;
  cast_int = λ v. none;
  cast_float = λ v. false;
  cast_string = λ v. none;
  type_name = λ v. ok (codes "int");
  cast_dict = λ v. if v == 500 then some ((codes "id", 7) ∷ (codes "to", 8) ∷ []) else none;
  cast_list = λ v. if v == 501 then some (7 ∷ 8 ∷ []) else none;
}

abbrev pub calls : PyCalls
calls = record {
  is_none = λ v. v == 0;
  cast_string = λ v. none;
  has_raprow_metatype = λ v. false;
  call_text = λ f t. ok (py_int (pos f));
  call_row = λ f vs. ok (py_list vs);
}

abbrev pub tables : CharTables
tables = record { alphabetic = λ c. false; numeric = λ c. false; upper = λ c. c ∷ [] }

abbrev pub cell : ℕ → Cell
cell n = record {
  column = codes "id";
  declared = codes "INTEGER";
  as_i64 = some (some (pos n));
  as_f64 = none;
  as_string = none;
  as_bytes = none;
}

abbrev pub two_rows : List Row
two_rows = (cell 4 ∷ []) ∷ (cell 5 ∷ []) ∷ []

abbrev pub done : Done
done = record { last_insert_rowid = pos 9; rows_affected = 1 }

abbrev pub env : Env
env = record {
  connect = λ t. reply 3;
  acquire = λ t. reply 1;
  execute = λ t. reply done;
  fetch_all = λ t. reply two_rows;
  fetch_one = λ t. reply (cell 4 ∷ []);
  fetch_optional = λ t. reply none;
  lock_handle = λ t. reply tt;
  c_result = λ t. pos 0;
  call_hook = λ hook c. (ok tt, c);
  py = py;
  calls = calls;
}

-- SQLITE_DONE to a step, SQLITE_OK to the end, and no null pointer.
abbrev pub codes_of : List Event → ℤ
codes_of (Event.calls_c h (CCall.steps_backup pages) ∷ t) = pos 101
codes_of (Event.calls_c h CCall.ends_backup ∷ t) = pos 0
codes_of _ = pos 1

abbrev pub backup_env : Env
backup_env = record env { c_result = codes_of }

abbrev pub failing : Env
failing = record env { execute = λ t. fail (SqlxError.database (codes "database is locked")) }

abbrev pub fresh : Connection
fresh = record {
  path = codes "app.db";
  pool = none;
  transaction_state = idle;
  transaction_connection = none;
  last_rowid = pos 0;
  last_changes = 0;
  pragmas = [];
  init_hook = none;
  init_hook_called = false;
  pool_size = none;
  connection_timeout_secs = none;
  row_factory = none;
  text_factory = none;
  query_cache = [];
  callback_connection = none;
  load_extension_enabled = false;
  user_functions = [];
  trace_callback = none;
  authorizer_callback = none;
  progress_handler = none;
  include_query_in_errors = true;
  timeout = 5000000;
  trace = [];
}

-- In a transaction on connection 1 of pool 3.
abbrev pub opened : Connection
opened = record fresh { pool = some 3; transaction_state = active; transaction_connection = some 1 }
