-- ===== src/Callbacks.antt =====
-- src/connection.rs: `enable_load_extension`, `load_extension`, `create_function`,
-- `set_trace_callback`, `set_authorizer` and `set_progress_handler`. The calls of SQLite's C interface
-- are events, answered with a result code; the functions that SQLite calls back are in Trampolines.
pub mod Keeping
pub mod Release
use rapsqlite.Prelude.{
  ℕ, Bool, true, false, not, ◌||◌, List, [], ◌∷◌, Option, none, some, Text, leb, ◌==◌,
  if◌then◌else◌, text_eq, has_char,
}
use rapsqlite.Prelude.Int.{ℤ, pos, negsuc}
use rapsqlite.Outcome.{Outcome, ok, err, PyErr, CCall}
use rapsqlite.Types.{PyObject}
use rapsqlite.State.{
  Connection, Env, Event, M, ◌>>=◌, ◌>>◌, pure, throw, gets, modify, require, answer, log,
  drop_held,
}
use rapsqlite.Pool.{has_callbacks, ensure_callback_connection}

-- `lock_handle()`.
unfoldable pub do_lock : Env → ℕ → M Connection (Unit {0})
do_lock env h c =
    let c' = log (Event.locks h) c in answer PyErr.lock_failed (env.lock_handle c'.trace) c'

-- A call on the raw handle, and its result code.
unfoldable pub do_c_call : Env → ℕ → CCall → M Connection ℤ
do_c_call env h call c = let c' = log (Event.calls_c h call) c in (ok (env.c_result c'.trace), c')

-- `result != SQLITE_OK`.
abbrev pub is_ok : ℤ → Bool
is_ok (pos n) = n == 0
is_ok (negsuc n) = false

unfoldable pub check_code : CCall → ℤ → M Connection (Unit {0})
check_code call code c = if is_ok code then (ok tt, c) else (err (PyErr.c_call_failed call code), c)

-- `CString::new`.
unfoldable pub c_string : Text → M Connection (Unit {0})
c_string name c = if has_char name 0 then (err (PyErr.null_in_name name), c) else (ok tt, c)

-- `(-1..=127).contains(&nargs)`.
abbrev pub is_nargs : ℤ → Bool
is_nargs (pos n) = leb n 127
is_nargs (negsuc n) = n == 0

-- `HashMap::insert` and `HashMap::remove`.
unfoldable pub insert_function :
    Text → ℤ → PyObject → List (Text × ℤ × PyObject) → List (Text × ℤ × PyObject)
insert_function name nargs f [] = (name, nargs, f) ∷ []
insert_function name nargs f ((k, n, g) ∷ rest) =
    let rest' = insert_function name nargs f rest in
    if text_eq k name then (name, nargs, f) ∷ rest else (k, n, g) ∷ rest'

unfoldable pub remove_function : Text → List (Text × ℤ × PyObject) → List (Text × ℤ × PyObject)
remove_function name [] = []
remove_function name ((k, n, g) ∷ rest) =
    let rest' = remove_function name rest in if text_eq k name then rest' else (k, n, g) ∷ rest'

-- `callback_guard.take()`.
abbrev pub release : Connection → Connection
release c = record (drop_held c.callback_connection c) { callback_connection = none }

unfoldable pub release_if_cleared : M Connection (Unit {0})
unfolding has_callbacks
release_if_cleared c = if has_callbacks c then (ok tt, c) else (ok tt, release c)

unfoldable pub release_after : Option PyObject → M Connection (Unit {0})
unfolding release_if_cleared
release_after none = release_if_cleared
release_after (some f) = pure tt

-- `callback_clone.map(|c| (n, c))`.
abbrev pub with_count : ℤ → Option PyObject → Option (ℤ × PyObject)
with_count n none = none
with_count n (some f) = some (n, f)

module _ (env : Env) where
  -- The callback connection, made if need be.
  unfoldable pub callback_handle : M Connection ℕ
  callback_handle = do
    ensure_callback_connection env
    slot ← gets λ c. c.callback_connection
    require slot PyErr.no_callback_connection

  unfoldable pub enable_load_extension : Bool → M Connection (Unit {0})
  unfolding callback_handle do_lock do_c_call check_code
  enable_load_extension enabled = do
    h ← callback_handle
    modify λ c. record c { load_extension_enabled = enabled }
    do_lock env h
    code ← do_c_call env h (CCall.enables enabled)
    check_code (CCall.enables enabled) code

  unfoldable pub load_enabled : Text → M Connection (Unit {0})
  unfolding callback_handle do_lock do_c_call check_code c_string
  load_enabled name = do
    h ← callback_handle
    do_lock env h
    c_string name
    code ← do_c_call env h (CCall.loads name)
    check_code (CCall.loads name) code

  unfoldable pub load_extension : Text → M Connection (Unit {0})
  unfolding load_enabled
  load_extension name c =
      if c.load_extension_enabled then load_enabled name c else (err PyErr.extension_not_enabled, c)

  unfoldable pub remove_registered : ℕ → Text → ℤ → M Connection (Unit {0})
  unfolding do_c_call check_code c_string remove_function release_if_cleared
  remove_registered h name nargs = do
    modify λ c. record c { user_functions = remove_function name c.user_functions }
    c_string name
    code ← do_c_call env h (CCall.creates_function name nargs none)
    check_code (CCall.creates_function name nargs none) code
    release_if_cleared

  -- A failed registration is taken back.
  unfoldable pub end_registration : CCall → Text → ℤ → M Connection (Unit {0})
  unfolding remove_function
  end_registration call name code c = if is_ok code then (ok tt, c) else (
    err (PyErr.c_call_failed call code),
    record c { user_functions = remove_function name c.user_functions },
  )

  unfoldable pub register : ℕ → Text → ℤ → PyObject → M Connection (Unit {0})
  unfolding do_c_call c_string insert_function end_registration
  register h name nargs f = do
    modify λ c. record c { user_functions = insert_function name nargs f c.user_functions }
    c_string name
    code ← do_c_call env h (CCall.creates_function name nargs (some f))
    end_registration (CCall.creates_function name nargs (some f)) name code

  unfoldable pub change_function : ℕ → Text → ℤ → Option PyObject → M Connection (Unit {0})
  unfolding remove_registered register
  change_function h name nargs none = remove_registered h name nargs
  change_function h name nargs (some f) = register h name nargs f

  unfoldable pub create_valid : Text → ℤ → Option PyObject → M Connection (Unit {0})
  unfolding callback_handle do_lock change_function
  create_valid name nargs func = do
    h ← callback_handle
    do_lock env h
    change_function h name nargs func

  unfoldable pub create_function : Text → ℤ → Option PyObject → M Connection (Unit {0})
  unfolding create_valid
  create_function name nargs func c =
      if is_nargs nargs
      then create_valid name nargs func c
      else (err (PyErr.invalid_nargs nargs), c)

  -- A failed `sqlite3_trace_v2` clears the callback.
  unfoldable pub end_trace : Option PyObject → ℤ → M Connection (Unit {0})
  unfolding release_after
  end_trace callback code c = if is_ok code then release_after callback c else (
    err (PyErr.c_call_failed (CCall.traces callback) code),
    record c { trace_callback = none },
  )

  unfoldable pub set_trace_callback : Option PyObject → M Connection (Unit {0})
  unfolding callback_handle do_lock do_c_call end_trace
  set_trace_callback callback = do
    modify λ c. record c { trace_callback = callback }
    h ← callback_handle
    do_lock env h
    code ← do_c_call env h (CCall.traces callback)
    end_trace callback code

  -- The rest of `set_authorizer` and `set_progress_handler`, whose calls give no code.
  unfoldable pub install : CCall → Option PyObject → M Connection (Unit {0})
  unfolding callback_handle do_lock do_c_call release_after
  install call callback = do
    h ← callback_handle
    do_lock env h
    _ ← do_c_call env h call
    release_after callback

  -- Clearing the last callback needs no call.
  unfoldable pub install_or_release : CCall → Option PyObject → M Connection (Unit {0})
  unfolding install
  install_or_release call (some f) c = install call (some f) c
  install_or_release call none c =
      if has_callbacks c then install call none c else (ok tt, release c)

  unfoldable pub set_authorizer : Option PyObject → M Connection (Unit {0})
  unfolding install_or_release
  set_authorizer callback = do
    modify λ c. record c { authorizer_callback = callback }
    install_or_release (CCall.authorizes callback) callback

  -- Without a handler the count is sent as 0.
  abbrev pub progress_call : ℤ → Option PyObject → CCall
  progress_call n none = CCall.watches_progress (pos 0) none
  progress_call n (some f) = CCall.watches_progress n (some f)

  unfoldable pub set_progress_handler : ℤ → Option PyObject → M Connection (Unit {0})
  unfolding install_or_release
  set_progress_handler n callback = do
    modify λ c. record c { progress_handler = with_count n callback }
    install_or_release (progress_call n callback) callback
