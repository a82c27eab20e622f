-- ===== src/Callbacks/Release.antt =====
-- When the connection that is kept for callbacks is there, and when it is handed back.
use rapsqlite.Prelude.{
  ℕ, ◌≡◌, refl, ap, sym, ◌∙◌, true, List, [], ◌∷◌, Option, none, some, Text, is_some, if◌then◌else◌,
  arith,
}
use rapsqlite.Prelude.Int.{ℤ}
use rapsqlite.Outcome.{CCall, PyErr}
use rapsqlite.Types.{PyObject}
use rapsqlite.State.{Connection, Env, M, ◌>>=◌, ◌>>◌, and_then, require, gets, modify, effects}
use rapsqlite.Keeps.{OkHolds, Yields, Yields-bind, Keeps-Yields}
use rapsqlite.Pool.{has_callbacks, has_entries}
use rapsqlite.Pool.Callback.{CallbackKeeps, ensure_callback_connection-Keeps}
use rapsqlite.Callbacks.{
  do_lock, do_c_call, release_if_cleared, release_after, callback_handle, enable_load_extension,
  end_registration, insert_function, remove_registered, register, change_function, create_valid,
  create_function, end_trace, set_trace_callback, install, install_or_release, set_authorizer,
  set_progress_handler,
}
use rapsqlite.Callbacks.Keeping.{
  CallsKeep, do_lock-Keeps, do_c_call-Keeps, check_code-Keeps, c_string-Keeps,
}

-- The connection for callbacks is held exactly when a callback is set.
abbrev pub InUse : Connection → Type 0
InUse c = is_some c.callback_connection ≡ has_callbacks c

-- What a callback that was given asks for.
abbrev Needs : Option PyObject → Connection → Type 0
Needs f c = (if is_some f then has_callbacks c else true) ≡ true

abbrev Held : Option PyObject → Connection → Type 0
Held f c = (is_some c.callback_connection ≡ true) × Needs f c

abbrev Any : Connection → Type 0
Any c = Unit

Needs-CallbackKeeps : (f : Option PyObject) → CallbackKeeps (Needs f)
unfolding has_callbacks
Needs-CallbackKeeps f = record {
  steady = record {
    connects = λ c size secs p. p;
    executes = λ c target sql params p. p;
    pools = λ c q p. p;
  };
  acquires = λ c q p. p;
  acquired = λ c h p. p;
  fills = λ c h p. p;
}

Held-CallsKeep : (f : Option PyObject) → CallsKeep (Held f)
unfolding has_callbacks
Held-CallsKeep f = record { locks = λ c h p. p; calls_c = λ c h call p. p }

release_if_cleared-InUse : Yields (Held none) InUse release_if_cleared
unfolding release_if_cleared has_callbacks
release_if_cleared-InUse = record { at = λ c p. ground arith }

release_after-InUse : (f : Option PyObject) → Yields (Held f) InUse (release_after f)
unfolding release_after effects
release_after-InUse none = release_if_cleared-InUse
release_after-InUse (some f) = record { at = λ c p. ground arith }

get_handle-Held :
    (f : Option PyObject) (slot : Option ℕ) (c : Connection)
    → c.callback_connection ≡ slot
    → Needs f c
    → OkHolds (Held f) (require {A = ℕ} slot PyErr.no_callback_connection c)
unfolding require
get_handle-Held f none c e p = tt
get_handle-Held f (some h) c e p = (ap is_some e, p)

callback_handle-Held :
    (env : Env) (f : Option PyObject) → Yields (Needs f) (Held f) (callback_handle env)
unfolding callback_handle gets ◌>>=◌ and_then
callback_handle-Held env f =
    Yields-bind _ _ (Keeps-Yields _ (ensure_callback_connection-Keeps env (Needs-CallbackKeeps f)))
      λ _. record { at = λ c p. get_handle-Held f c.callback_connection c refl p }

insert_function-filled :
    (name : Text) (nargs : ℤ) (f : PyObject) (fs : List (Text × ℤ × PyObject))
    → has_entries (insert_function name nargs f fs) ≡ true
unfolding insert_function
insert_function-filled name nargs f [] = refl
insert_function-filled name nargs f ((k, n, g) ∷ rest) = ground arith

module _ (env : Env) where
  -- Between the handle and the end, the log only.
  called-InUse :
      {A : Type 0} (f : Option PyObject) (h : ℕ) (call : CCall) (rest : ℤ → M Connection A)
      → ((code : ℤ) → Yields (Held f) InUse (rest code))
      → Yields (Held f) InUse (do_lock env h >> (do_c_call env h call >>= rest))
  called-InUse f h call rest r =
      Yields-bind _ _ (Keeps-Yields _ (do_lock-Keeps env (Held-CallsKeep f) h))
        λ _. Yields-bind _ _ (Keeps-Yields _ (do_c_call-Keeps env (Held-CallsKeep f) h call)) r

  end_trace-InUse : (f : Option PyObject) (code : ℤ) → Yields (Held f) InUse (end_trace env f code)
  unfolding end_trace
  end_trace-InUse f code = record { at = λ c p. ground (arith, (release_after-InUse f).at c p) }

  set_trace_callback-InUse : (f : Option PyObject) → Yields Any InUse (set_trace_callback env f)
  unfolding set_trace_callback has_callbacks modify
  set_trace_callback-InUse f =
      Yields-bind {Q = Needs f} _ _ (record { at = λ c p. ground arith })
        λ _.
          Yields-bind _ _ (callback_handle-Held env f) λ h. called-InUse f h _ _ (end_trace-InUse f)

  install-InUse : (call : CCall) (f : Option PyObject) → Yields (Needs f) InUse (install env call f)
  unfolding install
  install-InUse call f =
      Yields-bind _ _ (callback_handle-Held env f)
        λ h. called-InUse f h call _ λ _. release_after-InUse f

  install_or_release-InUse :
      (call : CCall) (f : Option PyObject) → Yields (Needs f) InUse (install_or_release env call f)
  unfolding install_or_release has_callbacks
  install_or_release-InUse call (some f) = install-InUse call (some f)
  install_or_release-InUse call none = record {
    at = λ c p. ground (arith, (install-InUse call none).at c refl);
  }

  set_authorizer-InUse : (f : Option PyObject) → Yields Any InUse (set_authorizer env f)
  unfolding set_authorizer has_callbacks modify
  set_authorizer-InUse f =
      Yields-bind {Q = Needs f} _ _ (record { at = λ c p. ground arith })
        λ _. install_or_release-InUse _ f

  set_progress_handler-InUse :
      (n : ℤ) (f : Option PyObject) → Yields Any InUse (set_progress_handler env n f)
  unfolding set_progress_handler has_callbacks modify
  set_progress_handler-InUse n f =
      Yields-bind {Q = Needs f} _ _ (record { at = λ c p. ground arith })
        λ _. install_or_release-InUse _ f

  remove_registered-InUse :
      (h : ℕ) (name : Text) (nargs : ℤ)
      → Yields (Held none) InUse (remove_registered env h name nargs)
  unfolding remove_registered modify
  remove_registered-InUse h name nargs =
      Yields-bind {Q = Held none} _ _ (record { at = λ c p. p })
        λ _. Yields-bind _ _ (Keeps-Yields _ (c_string-Keeps name)) λ _.
          Yields-bind _ _ (Keeps-Yields _ (do_c_call-Keeps env (Held-CallsKeep none) h _)) λ code.
            Yields-bind _ _ (Keeps-Yields _ (check_code-Keeps _ code)) λ _. release_if_cleared-InUse

  end_registration-InUse :
      (call : CCall) (f : PyObject) (name : Text) (code : ℤ)
      → Yields (Held (some f)) InUse (end_registration env call name code)
  unfolding end_registration
  end_registration-InUse call f name code = record { at = λ c p. ground arith }

  register-InUse :
      (h : ℕ) (name : Text) (nargs : ℤ) (f : PyObject)
      → Yields (Held none) InUse (register env h name nargs f)
  unfolding register has_callbacks modify
  register-InUse h name nargs f =
      Yields-bind {Q = Held (some f)} _ _
        (record {
          at = λ c p. ground (arith, insert_function-filled name nargs f c.user_functions);
        })
        λ _. Yields-bind _ _ (Keeps-Yields _ (c_string-Keeps name)) λ _.
          Yields-bind _ _ (Keeps-Yields _ (do_c_call-Keeps env (Held-CallsKeep (some f)) h _))
            (end_registration-InUse _ f name)

  change_function-InUse :
      (h : ℕ) (name : Text) (nargs : ℤ) (f : Option PyObject)
      → Yields (Held none) InUse (change_function env h name nargs f)
  unfolding change_function
  change_function-InUse h name nargs none = remove_registered-InUse h name nargs
  change_function-InUse h name nargs (some f) = register-InUse h name nargs f

  create_valid-InUse :
      (name : Text) (nargs : ℤ) (f : Option PyObject)
      → Yields Any InUse (create_valid env name nargs f)
  unfolding create_valid
  create_valid-InUse name nargs f =
      Yields-bind _ _ (record { at = λ c p. (callback_handle-Held env none).at c refl })
        λ h.
          Yields-bind _ _ (Keeps-Yields _ (do_lock-Keeps env (Held-CallsKeep none) h))
            λ _. change_function-InUse h name nargs f

  create_function-InUse :
      (name : Text) (nargs : ℤ) (f : Option PyObject)
      → Yields Any InUse (create_function env name nargs f)
  unfolding create_function
  create_function-InUse name nargs f = record {
    at = λ c p. ground (arith, (create_valid-InUse name nargs f).at c p);
  }

  -- `enable_load_extension(true)`; with `false` the connection is kept.
  enable_load_extension-InUse : Yields Any InUse (enable_load_extension env true)
  unfolding enable_load_extension has_callbacks modify
  enable_load_extension-InUse =
      Yields-bind _ _ (record { at = λ c p. (callback_handle-Held env none).at c refl })
        λ h.
          Yields-bind {Q = λ c. (is_some c.callback_connection ≡ true) × (has_callbacks c ≡ true)} _
            _ (record { at = λ c p. ground arith })
            λ _.
              Yields-bind _ _ (Keeps-Yields _ (do_lock-Keeps env (Held-CallsKeep (some 0)) h)) λ _.
                Yields-bind _ _ (Keeps-Yields _ (do_c_call-Keeps env (Held-CallsKeep (some 0)) h _))
                  λ code. record {
                    at = λ c p. ground (
                      arith,
                      (Keeps-Yields _ (check_code-Keeps {P = InUse} _ code)).at c (p.0 ∙ sym p.1),
                    );
                  }

  -- The connection for callbacks is held exactly when some callback is set after any success of
  -- `set_trace_callback`, `set_authorizer`, `set_progress_handler`, `create_function` and
  -- `enable_load_extension(true)`, whether a callback was set or cleared and whatever the state was.
  pub callbacks-InUse :
      (f : Option PyObject) (n nargs : ℤ) (name : Text) (c : Connection)
      → OkHolds InUse (set_trace_callback env f c)
        × OkHolds InUse (set_authorizer env f c)
        × OkHolds InUse (set_progress_handler env n f c)
        × OkHolds InUse (create_function env name nargs f c)
        × OkHolds InUse (enable_load_extension env true c)
  callbacks-InUse f n nargs name c = (
    (set_trace_callback-InUse f).at c tt,
    (set_authorizer-InUse f).at c tt,
    (set_progress_handler-InUse n f).at c tt,
    (create_function-InUse name nargs f).at c tt,
    enable_load_extension-InUse.at c tt,
  )
