-- ===== src/Construction.antt =====
-- src/connection.rs: `Connection::new`, `timeout`, `pool_size`, `connection_timeout`, `last_insert_rowid` and `changes`.
-- A timeout in seconds is a whole number of microseconds.
use rapsqlite.Prelude.{
  ℕ, ◌-◌, ◌*◌, ◌/◌, ◌^◌, min, List, [], ◌∷◌, ◌++◌, Option, none, some, Text, codes, ltb,
  if◌then◌else◌, false, true,
}
use rapsqlite.Prelude.Int.{ℤ, pos, negsuc}
use rapsqlite.Outcome.{Outcome, ok, err, PyErr, ◌>>=◌, ◌>>◌}
use rapsqlite.Types.{PyObject, PyApi, idle}
use rapsqlite.State.{Connection}
use rapsqlite.Uri.{parse_connection_string, validate_path}

abbrev negative_timeout {ℓ} : {A : Type ℓ} → Outcome A
negative_timeout = err (PyErr.value_error (codes "timeout must be >= 0.0"))

-- PyO3's `extract::<String>` and `to_string` of the keys and values of the dict.
module _ (extract_key : PyObject → Outcome Text) (to_text : PyObject → Text) where
  unfoldable pub dict_pragmas : List (PyObject × PyObject) → Outcome (List (Text × Text))
  dict_pragmas [] = ok []
  dict_pragmas ((key, value) ∷ items) = do
    name ← extract_key key
    rest ← dict_pragmas items
    ok ((name, to_text value) ∷ rest)

  unfoldable pub given_pragmas : Option (List (PyObject × PyObject)) → Outcome (List (Text × Text))
  unfolding dict_pragmas
  given_pragmas none = ok []
  given_pragmas (some items) = dict_pragmas items

  unfoldable pub open_path :
      Text → Option (List (PyObject × PyObject)) → Option PyObject → ℕ → Outcome Connection
  unfolding parse_connection_string validate_path given_pragmas
  open_path path pragmas init_hook timeout = do
    parsed ← parse_connection_string path
    validate_path parsed.0
    given ← given_pragmas pragmas
    ok (record {
      path = parsed.0;
      pool = none;
      transaction_state = idle;
      transaction_connection = none;
      last_rowid = pos 0;
      last_changes = 0;
      pragmas = parsed.1 ++ given;
      init_hook = init_hook;
      init_hook_called = false;
      pool_size = none;
      connection_timeout_secs = none;
      row_factory = none;
      text_factory = none;
      query_cache = [];
      callback_connection = none;
      load_extension_enabled = false;
      user_functions = [];
      trace_callback = none;
      authorizer_callback = none;
      progress_handler = none;
      include_query_in_errors = true;
      timeout = timeout;
      trace = [];
    })

  unfoldable pub new :
      Text → Option (List (PyObject × PyObject)) → Option PyObject → ℤ → Outcome Connection
  unfolding open_path
  new path pragmas init_hook (negsuc n) = negative_timeout
  new path pragmas init_hook (pos n) = open_path path pragmas init_hook n

unfoldable pub set_timeout : ℤ → Connection → Outcome (Unit {0}) × Connection
set_timeout (negsuc n) c = (negative_timeout, c)
set_timeout (pos n) c = (ok tt, record c { timeout = n })

-- `n as i64`.
abbrev pub as_i64 : ℕ → ℤ
as_i64 n = if ltb n (2 ^ 63) then pos n else negsuc (2 ^ 64 - n - 1)

unfoldable pub pool_size : Connection → Option ℤ
pool_size c = elim c.pool_size [ none ↦ none | some n ↦ some (as_i64 n) ]

-- `n as u64` of a number of microseconds as seconds, which saturates.
abbrev pub whole_seconds : ℕ → ℕ
whole_seconds n = min (n / 1000000) (2 ^ 64 - 1)

unfoldable pub store_connection_timeout : ℤ → Connection → Outcome (Unit {0}) × Connection
store_connection_timeout (negsuc n) c =
    (err (PyErr.value_error (codes "connection_timeout must be >= 0")), c)
store_connection_timeout (pos n) c =
    (ok tt, record c { connection_timeout_secs = some (whole_seconds n) })

-- The number that `extract::<f64>` finds; not a number is left out.
unfoldable pub set_connection_timeout :
    PyApi → (PyObject → Option ℤ) → PyObject → Connection → Outcome (Unit {0}) × Connection
unfolding store_connection_timeout
set_connection_timeout py extract_f64 value c = elim (py.is_none value) [
  | true ↦ (ok tt, record c { connection_timeout_secs = none })
  | false ↦ elim (extract_f64 value) [
    | some micros ↦ store_connection_timeout micros c
    | none ↦ elim (py.extract_i64 value) [
      | some (pos n) ↦ store_connection_timeout (pos (n * 1000000)) c
      | some (negsuc n) ↦ store_connection_timeout (negsuc n) c
      | none ↦ (err (PyErr.type_error (codes "connection_timeout must be an int or float")), c)
    ]
  ]
]

unfoldable pub connection_timeout : Connection → Option ℤ
connection_timeout c = elim c.connection_timeout_secs [ none ↦ none | some n ↦ some (as_i64 n) ]

abbrev pub last_insert_rowid : Connection → ℤ
last_insert_rowid c = c.last_rowid

abbrev pub changes : Connection → ℕ
changes c = c.last_changes
