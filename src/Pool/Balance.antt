-- ===== src/Pool/Balance.antt =====
-- Every connection that the pool hands out is held or was handed back, as often as it was handed out.
use rapsqlite.Prelude.{ℕ, ◌+◌, ◌≡◌, List, [], ◌∷◌, ◌==◌, if◌then◌else◌, arith}
use rapsqlite.Prelude.Counting.{occurs}
use rapsqlite.Outcome.{Statement}
use rapsqlite.Types.{SqliteParam}
use rapsqlite.State.{Connection, Env, Event, Target, do_execute}
use rapsqlite.Keeps.{Keeps}
use rapsqlite.Pool.{get_or_create_pool, ensure_callback_connection}
use rapsqlite.Pool.Filling.{Fills, ensure_callback_connection-Keeps}
use rapsqlite.Pool.Steady.{Steady, do_execute-Keeps, get_or_create_pool-Keeps}

-- How often the pool handed out a connection, and how often it was dropped.
abbrev pub acquired_count : ℕ → List Event → ℕ
acquired_count h [] = 0
acquired_count h (Event.acquired k ∷ es) = (if k == h then 1 else 0) + acquired_count h es
acquired_count h (_ ∷ es) = acquired_count h es

abbrev pub dropped_count : ℕ → List Event → ℕ
dropped_count h [] = 0
dropped_count h (Event.drops k ∷ es) = (if k == h then 1 else 0) + dropped_count h es
dropped_count h (_ ∷ es) = dropped_count h es

-- The two slots hold what is not handed back.
abbrev pub Balanced : ℕ → Connection → Type 0
Balanced h c =
    acquired_count h c.trace
    ≡ dropped_count h c.trace + occurs h c.transaction_connection + occurs h c.callback_connection

pub Balanced-Steady : (h : ℕ) → Steady (Balanced h)
Balanced-Steady h = record {
  connects = λ c size secs b. b;
  executes = λ c target sql params b. b;
  pools = λ c p b. b;
}

Balanced-Fills : (h : ℕ) (env : Env) → Fills (Balanced h) env
Balanced-Fills h env = record { asks = λ c p b. b; gets = λ c k e v b. ground (arith, v) }

module _ (env : Env) (h : ℕ) where
  pub do_execute-Balanced :
      (target : Target) (sql : Statement) (params : List SqliteParam)
      → Keeps (Balanced h) (do_execute env target sql params)
  do_execute-Balanced = do_execute-Keeps env (Balanced-Steady h)

  pub get_or_create_pool-Balanced : Keeps (Balanced h) (get_or_create_pool env)
  get_or_create_pool-Balanced = get_or_create_pool-Keeps env (Balanced-Steady h)

  pub ensure_callback_connection-Balanced : Keeps (Balanced h) (ensure_callback_connection env)
  ensure_callback_connection-Balanced =
      ensure_callback_connection-Keeps env (Balanced-Steady h) (Balanced-Fills h env)
