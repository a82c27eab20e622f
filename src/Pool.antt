-- ===== src/Pool.antt =====
-- src/pool.rs: the pool, the connection kept for callbacks, and the initialisation hook.
pub mod Steady
pub mod Balance
pub mod Callback
pub mod Filling
pub mod Message
use rapsqlite.Prelude.{
  ℕ, ◌%◌, ◌^◌, max, Bool, true, false, ◌||◌, List, [], ◌∷◌, Option, none, some, Text, is_some,
  unwrap_or,
}
use rapsqlite.Outcome.{Statement}
use rapsqlite.Types.{PyObject}
use rapsqlite.State.{
  Connection, Env, Target, M, ◌>>=◌, ◌>>◌, pure, gets, modify, do_connect, do_acquire, do_execute,
}

-- `(pool_size.unwrap_or(1).max(1)) as u32`: the cast wraps.
unfoldable pub max_connections : Option ℕ → ℕ
max_connections size = max (unwrap_or size 1) 1 % 2 ^ 32

-- `!user_functions.is_empty()`.
abbrev pub has_entries {ℓ} : {A : Type ℓ} → List A → Bool
has_entries [] = false
has_entries (x ∷ xs) = true

-- Whether any callback is set, and so the callback connection is to be used.
unfoldable pub has_callbacks : Connection → Bool
has_callbacks c =
    c.load_extension_enabled
    || has_entries c.user_functions
    || is_some c.trace_callback
    || is_some c.authorizer_callback
    || is_some c.progress_handler

module _ (env : Env) where
  -- Each PRAGMA in turn, on the new pool.
  unfoldable pub apply_pragmas : ℕ → List (Text × Text) → M Connection (Unit {0})
  apply_pragmas p [] = pure tt
  apply_pragmas p ((name, value) ∷ rest) = do
    _ ← do_execute env (Target.on_pool p) (Statement.pragma name value) []
    apply_pragmas p rest

  create_pool : M Connection ℕ
  unfolding apply_pragmas max_connections
  create_pool = do
    size ← gets λ c. max_connections c.pool_size
    secs ← gets λ c. unwrap_or c.connection_timeout_secs 30
    p ← do_connect env size secs
    pragmas ← gets λ c. c.pragmas
    apply_pragmas p pragmas
    modify λ c. record c { pool = some p }
    pure p

  unfoldable pub get_or_create_pool : M Connection ℕ
  unfolding create_pool
  get_or_create_pool c = elim c.pool [ some p ↦ pure p c | none ↦ create_pool c ]

  fill_callback : ℕ → M Connection (Unit {0})
  fill_callback p = do h ← do_acquire env p; modify λ c. record c { callback_connection = some h }

  create_callback_connection : M Connection (Unit {0})
  unfolding get_or_create_pool fill_callback
  create_callback_connection = do p ← get_or_create_pool; fill_callback p

  unfoldable pub ensure_callback_connection : M Connection (Unit {0})
  unfolding create_callback_connection
  ensure_callback_connection c = elim c.callback_connection [
    | some h ↦ pure tt c
    | none ↦ create_callback_connection c
  ]

  -- The flag is set before the hook runs.
  unfoldable pub run_hook : PyObject → M Connection (Unit {0})
  run_hook hook = do modify λ c. record c { init_hook_called = true }; env.call_hook hook

  -- A hook that is not there, or was called, is nothing to do.
  unfoldable pub execute_init_hook_if_needed : M Connection (Unit {0})
  unfolding run_hook
  execute_init_hook_if_needed c = elim c.init_hook_called [
    | true ↦ pure tt c
    | false ↦ elim c.init_hook [ none ↦ pure tt c | some hook ↦ run_hook hook c ]
  ]
