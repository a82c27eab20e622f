-- ===== src/Pool/Steady.antt =====
-- What making the pool leaves alone: any property that its calls and its slot do not touch.
use rapsqlite.Prelude.{
  ℕ, true, Bool-cases, inl, inr, List, [], ◌∷◌, some, Text, Option-cases, arith,
}
use rapsqlite.Outcome.{Statement}
use rapsqlite.Types.{PyObject, SqliteParam}
use rapsqlite.State.{
  Connection, Env, Event, Target, log, do_connect, do_execute, modify, pure, effects,
}
use rapsqlite.Keeps.{Keeps, Keeps-bind, Keeps-modify, keeps_rules}
use rapsqlite.Pool.{
  apply_pragmas, create_pool, get_or_create_pool, run_hook, execute_init_hook_if_needed,
}

pub record Steady (P : Connection → Type 0) : Type 0 where
  pub connects :
      (c : Connection) (size secs : ℕ) → P c → P (log (Event.connects c.path size secs) c)
  pub executes :
      (c : Connection) (target : Target) (sql : Statement) (params : List SqliteParam)
      → P c
      → P (log (Event.executes target sql params) c)
  pub pools : (c : Connection) (p : ℕ) → P c → P (record c { pool = some p })

-- What the initialisation hook, which may use the connection, is to keep.
pub record HookKeeps (P : Connection → Type 0) (env : Env) : Type 0 where
  pub flag : (c : Connection) → P c → P (record c { init_hook_called = true })
  pub call : (hook : PyObject) (c : Connection) → P c → P (env.call_hook hook c).1

module _ (env : Env) {P : Connection → Type 0} (steady : Steady P) where
  pub do_execute-Keeps :
      (target : Target) (sql : Statement) (params : List SqliteParam)
      → Keeps P (do_execute env target sql params)
  unfolding do_execute
  do_execute-Keeps target sql params = record {
    at = λ c p. ground (arith, steady.executes c target sql params p);
  }

  do_connect-Keeps : (size secs : ℕ) → Keeps P (do_connect env size secs)
  unfolding do_connect
  do_connect-Keeps size secs = record { at = λ c p. ground (arith, steady.connects c size secs p) }

  apply_pragmas-Keeps :
      (p : ℕ) (pragmas : List (Text × Text)) → Keeps P (apply_pragmas env p pragmas)
  unfolding apply_pragmas
  apply_pragmas-Keeps p [] = search keeps_rules
  apply_pragmas-Keeps p ((name, value) ∷ rest) =
      Keeps-bind _ _ (do_execute-Keeps (Target.on_pool p) (Statement.pragma name value) [])
        (λ _. apply_pragmas-Keeps p rest)

  store_pool-Keeps : (p : ℕ) → Keeps P (modify λ c. record c { pool = some p })
  store_pool-Keeps p = Keeps-modify _ (λ c. steady.pools c p)

  create_pool-Keeps : Keeps P (create_pool env)
  unfolding create_pool
  create_pool-Keeps =
      search (keeps_rules, do_connect-Keeps, apply_pragmas-Keeps, store_pool-Keeps) depth 12

  pub get_or_create_pool-Keeps : Keeps P (get_or_create_pool env)
  unfolding get_or_create_pool pure
  get_or_create_pool-Keeps = record {
    at = λ c p. elim (Option-cases c.pool) [
      | inl e ↦ rw (e, get_or_create_pool) (create_pool-Keeps.at c p)
      | inr (q, e) ↦ rw (e, get_or_create_pool) p
    ];
  }

pub execute_init_hook_if_needed-Keeps :
    (env : Env) {P : Connection → Type 0}
    → HookKeeps P env
    → Keeps P (execute_init_hook_if_needed env)
unfolding execute_init_hook_if_needed run_hook effects
execute_init_hook_if_needed-Keeps env keeps = record {
  at = λ c p. elim (Bool-cases c.init_hook_called) [
    | inl called ↦ rw (called, execute_init_hook_if_needed) p
    | inr fresh ↦ elim (Option-cases c.init_hook) [
      | inl e ↦ rw (fresh, e, execute_init_hook_if_needed) p
      | inr (hook, e) ↦
          rw (fresh, e, execute_init_hook_if_needed)
            (keeps.call hook (record c { init_hook_called = true }) (keeps.flag c p))
    ]
  ];
}
