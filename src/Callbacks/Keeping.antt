-- ===== src/Callbacks/Keeping.antt =====
-- What the calls for callbacks and extensions keep, on all their paths.
use rapsqlite.Prelude.{ℕ, Bool, Bool-cases, inl, inr, List, Option, none, some, Text, arith}
use rapsqlite.Prelude.Int.{ℤ}
use rapsqlite.Outcome.{CCall}
use rapsqlite.Types.{PyObject}
use rapsqlite.State.{Connection, Env, Event, answer, log}
use rapsqlite.Keeps.{Keeps, Keeps-bind, Keeps-gets, Keeps-require, Keeps-pure, Keeps-modify}
use rapsqlite.Pool.{has_callbacks, ensure_callback_connection}
use rapsqlite.Callbacks.{
  do_lock, do_c_call, check_code, c_string, insert_function, remove_function, release,
  release_if_cleared, release_after, callback_handle, enable_load_extension, load_enabled,
  load_extension, remove_registered, end_registration, register, change_function, create_valid,
  create_function, end_trace, set_trace_callback, install, install_or_release, set_authorizer,
  with_count, set_progress_handler,
}

pub record CallsKeep (P : Connection → Type 0) : Type 0 where
  pub locks : (c : Connection) (h : ℕ) → P c → P (log (Event.locks h) c)
  pub calls_c : (c : Connection) (h : ℕ) (call : CCall) → P c → P (log (Event.calls_c h call) c)

module _ {P : Connection → Type 0} (env : Env) (k : CallsKeep P) where
  pub do_lock-Keeps : (h : ℕ) → Keeps P (do_lock env h)
  unfolding do_lock answer
  do_lock-Keeps h = record { at = λ c p. ground (arith, k.locks c h p) }

  pub do_c_call-Keeps : (h : ℕ) (call : CCall) → Keeps P (do_c_call env h call)
  unfolding do_c_call
  do_c_call-Keeps h call = record { at = λ c p. k.calls_c c h call p }

module _ {P : Connection → Type 0} where
  pub check_code-Keeps : (call : CCall) (code : ℤ) → Keeps P (check_code call code)
  unfolding check_code
  check_code-Keeps call code = record { at = λ c p. ground arith }

  pub c_string-Keeps : (name : Text) → Keeps P (c_string name)
  unfolding c_string
  c_string-Keeps name = record { at = λ c p. ground arith }

pub callback_handle-Keeps :
    {P : Connection → Type 0} (env : Env)
    → Keeps P (ensure_callback_connection env)
    → Keeps P (callback_handle env)
unfolding callback_handle
callback_handle-Keeps env ensures =
    Keeps-bind _ _ ensures λ _. Keeps-bind _ _ (Keeps-gets _) λ slot. Keeps-require slot _

-- What a property is to bear: the calls, the fields that are set, and the release of the connection.
pub record ExtensionKeeps (P : Connection → Type 0) (env : Env) : Type 0 where
  pub ensures : Keeps P (ensure_callback_connection env)
  pub calls : CallsKeep P
  pub enables : (c : Connection) (b : Bool) → P c → P (record c { load_extension_enabled = b })
  pub functions :
      (c : Connection) (fs : List (Text × ℤ × PyObject))
      → P c
      → P (record c { user_functions = fs })
  pub traces : (c : Connection) (f : Option PyObject) → P c → P (record c { trace_callback = f })
  pub authorizes :
      (c : Connection) (f : Option PyObject) → P c → P (record c { authorizer_callback = f })
  pub progresses :
      (c : Connection) (f : Option (ℤ × PyObject)) → P c → P (record c { progress_handler = f })
  pub releases : (c : Connection) → P c → P (release c)

module _ {P : Connection → Type 0} (env : Env) (k : ExtensionKeeps P env) where
  release_if_cleared-Keeps : Keeps P release_if_cleared
  unfolding release_if_cleared
  release_if_cleared-Keeps = record {
    at = λ c p. elim (Bool-cases (has_callbacks c)) [
      | inl e ↦ rw (e, release_if_cleared) p
      | inr e ↦ rw (e, release_if_cleared) (k.releases c p)
    ];
  }

  release_after-Keeps : (f : Option PyObject) → Keeps P (release_after f)
  unfolding release_after
  release_after-Keeps none = release_if_cleared-Keeps
  release_after-Keeps (some f) = Keeps-pure tt

  pub enable_load_extension-Keeps : (enabled : Bool) → Keeps P (enable_load_extension env enabled)
  unfolding enable_load_extension
  enable_load_extension-Keeps enabled = Keeps-bind _ _ (callback_handle-Keeps env k.ensures) λ h.
      Keeps-bind _ _ (Keeps-modify _ λ c. k.enables c enabled) λ _.
        Keeps-bind _ _ (do_lock-Keeps env k.calls h)
          λ _. Keeps-bind _ _ (do_c_call-Keeps env k.calls h _) λ code. check_code-Keeps _ code

  load_enabled-Keeps : (name : Text) → Keeps P (load_enabled env name)
  unfolding load_enabled
  load_enabled-Keeps name = Keeps-bind _ _ (callback_handle-Keeps env k.ensures) λ h.
      Keeps-bind _ _ (do_lock-Keeps env k.calls h) λ _.
        Keeps-bind _ _ (c_string-Keeps name)
          λ _. Keeps-bind _ _ (do_c_call-Keeps env k.calls h _) λ code. check_code-Keeps _ code

  pub load_extension-Keeps : (name : Text) → Keeps P (load_extension env name)
  unfolding load_extension
  load_extension-Keeps name = record {
    at = λ c p. ground (arith, (load_enabled-Keeps name).at c p);
  }

  remove_registered-Keeps :
      (h : ℕ) (name : Text) (nargs : ℤ) → Keeps P (remove_registered env h name nargs)
  unfolding remove_registered
  remove_registered-Keeps h name nargs =
      Keeps-bind _ _ (Keeps-modify _ λ c. k.functions c (remove_function name c.user_functions))
        λ _. Keeps-bind _ _ (c_string-Keeps name) λ _.
          Keeps-bind _ _ (do_c_call-Keeps env k.calls h _)
            λ code. Keeps-bind _ _ (check_code-Keeps _ code) λ _. release_if_cleared-Keeps

  end_registration-Keeps :
      (call : CCall) (name : Text) (code : ℤ) → Keeps P (end_registration env call name code)
  unfolding end_registration
  end_registration-Keeps call name code = record {
    at = λ c p. ground (arith, k.functions c (remove_function name c.user_functions) p);
  }

  register-Keeps :
      (h : ℕ) (name : Text) (nargs : ℤ) (f : PyObject) → Keeps P (register env h name nargs f)
  unfolding register
  register-Keeps h name nargs f =
      Keeps-bind _ _
        (Keeps-modify _ λ c. k.functions c (insert_function name nargs f c.user_functions))
        λ _. Keeps-bind _ _ (c_string-Keeps name) λ _.
          Keeps-bind _ _ (do_c_call-Keeps env k.calls h _)
            λ code. end_registration-Keeps _ name code

  change_function-Keeps :
      (h : ℕ) (name : Text) (nargs : ℤ) (f : Option PyObject)
      → Keeps P (change_function env h name nargs f)
  unfolding change_function
  change_function-Keeps h name nargs none = remove_registered-Keeps h name nargs
  change_function-Keeps h name nargs (some f) = register-Keeps h name nargs f

  create_valid-Keeps :
      (name : Text) (nargs : ℤ) (f : Option PyObject) → Keeps P (create_valid env name nargs f)
  unfolding create_valid
  create_valid-Keeps name nargs f =
      Keeps-bind _ _ (callback_handle-Keeps env k.ensures)
        λ h. Keeps-bind _ _ (do_lock-Keeps env k.calls h) λ _. change_function-Keeps h name nargs f

  pub create_function-Keeps :
      (name : Text) (nargs : ℤ) (f : Option PyObject) → Keeps P (create_function env name nargs f)
  unfolding create_function
  create_function-Keeps name nargs f = record {
    at = λ c p. ground (arith, (create_valid-Keeps name nargs f).at c p);
  }

  end_trace-Keeps : (f : Option PyObject) (code : ℤ) → Keeps P (end_trace env f code)
  unfolding end_trace
  end_trace-Keeps f code = record {
    at = λ c p. ground (arith, (release_after-Keeps f).at c p, k.traces c none p);
  }

  pub set_trace_callback-Keeps : (f : Option PyObject) → Keeps P (set_trace_callback env f)
  unfolding set_trace_callback
  set_trace_callback-Keeps f = Keeps-bind _ _ (Keeps-modify _ λ c. k.traces c f) λ _.
      Keeps-bind _ _ (callback_handle-Keeps env k.ensures) λ h.
        Keeps-bind _ _ (do_lock-Keeps env k.calls h)
          λ _. Keeps-bind _ _ (do_c_call-Keeps env k.calls h _) λ code. end_trace-Keeps f code

  install-Keeps : (call : CCall) (f : Option PyObject) → Keeps P (install env call f)
  unfolding install
  install-Keeps call f = Keeps-bind _ _ (callback_handle-Keeps env k.ensures) λ h.
      Keeps-bind _ _ (do_lock-Keeps env k.calls h)
        λ _. Keeps-bind _ _ (do_c_call-Keeps env k.calls h call) λ _. release_after-Keeps f

  install_or_release-Keeps :
      (call : CCall) (f : Option PyObject) → Keeps P (install_or_release env call f)
  unfolding install_or_release
  install_or_release-Keeps call (some f) = install-Keeps call (some f)
  install_or_release-Keeps call none = record {
    at = λ c p. elim (Bool-cases (has_callbacks c)) [
      | inl e ↦ rw (e, install_or_release) ((install-Keeps call none).at c p)
      | inr e ↦ rw (e, install_or_release) (k.releases c p)
    ];
  }

  pub set_authorizer-Keeps : (f : Option PyObject) → Keeps P (set_authorizer env f)
  unfolding set_authorizer
  set_authorizer-Keeps f =
      Keeps-bind _ _ (Keeps-modify _ λ c. k.authorizes c f) λ _. install_or_release-Keeps _ f

  pub set_progress_handler-Keeps :
      (n : ℤ) (f : Option PyObject) → Keeps P (set_progress_handler env n f)
  unfolding set_progress_handler
  set_progress_handler-Keeps n f =
      Keeps-bind _ _ (Keeps-modify _ λ c. k.progresses c (with_count n f))
        λ _. install_or_release-Keeps _ f
