-- ===== src/History/Soundness.antt =====
-- What holds of a connection after any history of calls.
use rapsqlite.Prelude.{inl, inr, Option-cases, arith, ℕ, List, [], ◌∷◌}
use rapsqlite.Chars.{CharTables}
use rapsqlite.State.{Connection, Env, Event}
use rapsqlite.Pool.Steady.{HookKeeps}
use rapsqlite.Pool.Balance.{Balanced, Balanced-Steady, ensure_callback_connection-Balanced}
use rapsqlite.Transaction.Balance.{begin-Balanced}
use rapsqlite.Transaction.Release.{
  commit-Balanced, rollback-Balanced, close-Balanced, transaction_enter-Balanced,
  transaction_exit-Balanced,
}
use rapsqlite.Fetch.Keeping.{QueryKeeps}
use rapsqlite.Callbacks.{release}
use rapsqlite.Callbacks.Keeping.{ExtensionKeeps}
use rapsqlite.Changes.Keeping.{CountKeeps, temporary-Balanced}
use rapsqlite.Prelude.Int.{ℤ}
use rapsqlite.Backup.{pages_to_copy}
use rapsqlite.Backup.Loop.{Stops}
use rapsqlite.Backup.Returns.{Balanced-Restores}
use rapsqlite.History.Backups.{use_step-Keeps}
use rapsqlite.History.Plain.{PlainKeeps, plain_step-Keeps}
use rapsqlite.History.{
  Call, begins, commits, rolls_back, closes, enters, exits, plain, step, run, Use, use_step,
  run_uses,
}

Balanced-QueryKeeps : (env : Env) (h : ℕ) → HookKeeps (Balanced h) env → QueryKeeps (Balanced h) env
Balanced-QueryKeeps env h hook = record {
  steady = Balanced-Steady h;
  callback = ensure_callback_connection-Balanced env h;
  hook = hook;
  fetches = λ c target query params b. b;
  tracks = λ c cache b. b;
  counts = λ c row_id changes b. b;
}

-- What is released is dropped once.
release-Balanced : (h : ℕ) (c : Connection) → Balanced h c → Balanced h (release c)
release-Balanced h c b = elim (Option-cases c.callback_connection) [
  | inl e ↦ ground (arith, e)
  | inr (k, e) ↦ ground (arith, e)
]

Balanced-ExtensionKeeps : (env : Env) (h : ℕ) → ExtensionKeeps (Balanced h) env
Balanced-ExtensionKeeps env h = record {
  ensures = ensure_callback_connection-Balanced env h;
  calls = record { locks = λ c k b. b; calls_c = λ c k call b. b };
  enables = λ c enabled b. b;
  functions = λ c fs b. b;
  traces = λ c f b. b;
  authorizes = λ c f b. b;
  progresses = λ c f b. b;
  releases = release-Balanced h;
}

Balanced-CountKeeps : (env : Env) (h : ℕ) → CountKeeps (Balanced h) env
Balanced-CountKeeps env h = record {
  steady = Balanced-Steady h;
  ensures = ensure_callback_connection-Balanced env h;
  calls = record { locks = λ c k b. b; calls_c = λ c k call b. b };
  temporary = temporary-Balanced env h;
}

Balanced-PlainKeeps : (env : Env) (h : ℕ) → HookKeeps (Balanced h) env → PlainKeeps (Balanced h) env
Balanced-PlainKeeps env h hook = record {
  queries = Balanced-QueryKeeps env h hook;
  extensions = Balanced-ExtensionKeeps env h;
  counting = Balanced-CountKeeps env h;
  stores = λ c pragmas b. b;
}

module _ (env : Env) (tables : CharTables) (h : ℕ) (hook : HookKeeps (Balanced h) env) where
  step-Balanced :
      (call : Call) (c : Connection) → Balanced h c → Balanced h (step env tables call c)
  unfolding step
  step-Balanced begins c = (begin-Balanced env h hook).at c
  step-Balanced commits c = (commit-Balanced env h).at c
  step-Balanced rolls_back c = (rollback-Balanced env h).at c
  step-Balanced closes c = close-Balanced env h c
  step-Balanced enters c = (transaction_enter-Balanced env h hook).at c
  step-Balanced (exits raised) c = (transaction_exit-Balanced env h raised).at c
  step-Balanced (plain call) c = plain_step-Keeps env (Balanced-PlainKeeps env h hook) tables call c

  -- If a pooled connection was handed out as often as it was dropped or is in one of the two slots, this
  -- is so after any history of calls of the methods other than `backup`, whatever their errors: no
  -- connection is lost and none is handed back twice. The initialisation hook is to keep this too.
  pub run-Balanced :
      (calls : List Call) (c : Connection) → Balanced h c → Balanced h (run env tables calls c)
  unfolding run
  run-Balanced [] c b = b
  run-Balanced (call ∷ calls) c b =
      run-Balanced calls (step env tables call c) (step-Balanced call c b)

  -- A backup among the uses gives back what it took.
  pub run_uses-Balanced :
      (fuel : ℕ)
      (stops : (pages : ℤ) (k : ℕ) (t : List Event) → Stops env k (pages_to_copy pages) fuel t)
      (us : List Use) (c : Connection)
      → Balanced h c
      → Balanced h (run_uses env tables fuel us c)
  unfolding run_uses
  run_uses-Balanced fuel stops [] c b = b
  run_uses-Balanced fuel stops (u ∷ us) c b =
      run_uses-Balanced fuel stops us (use_step env tables fuel u c) (
        use_step-Keeps env tables fuel (Balanced-Restores env h) stops u c
          (λ call. step-Balanced call c) b)
