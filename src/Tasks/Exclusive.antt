-- ===== src/Tasks/Exclusive.antt =====
-- src/connection.rs: no two tasks use one pooled connection.
use rapsqlite.Prelude.{ℕ, ◌+◌, ◌≡◌, ◌≤◌, List, arith}
use rapsqlite.Prelude.Counting.{occurs}
use rapsqlite.State.{Connection, Env, Event, reply}
use rapsqlite.Pool.Steady.{HookKeeps}
use rapsqlite.Pool.Balance.{Balanced, acquired_count, dropped_count}
use rapsqlite.Transaction.Balance.{Offset}
use rapsqlite.Tasks.Totals.{total}
use rapsqlite.Tasks.Counts.{task_holds}
use rapsqlite.Tasks.Balance.{run_actions-Balanced}
use rapsqlite.Tasks.Keeping.{TaskKeeps, run_actions-Keeps}
use rapsqlite.Tasks.{System, Action, run_actions, at_rest}

-- A pool hands out a connection only when it has it back.
abbrev pub HandsOutIdle : Env → Type 0
HandsOutIdle env =
    (t : List Event) (h : ℕ) → env.acquire t ≡ reply h → acquired_count h t ≡ dropped_count h t

-- At most one copy of a connection is out of the pool.
abbrev pub IsOnce : ℕ → Connection → Type 0
IsOnce h c = acquired_count h c.trace ≤ dropped_count h c.trace + 1

-- How many slots and tasks have a connection.
abbrev pub holders : ℕ → System → ℕ
holders h s =
    occurs h s.conn.transaction_connection
    + occurs h s.conn.callback_connection
    + total (task_holds h) s.tasks

module _ (env : Env) (h : ℕ) (pool : HandsOutIdle env) (once : HookKeeps (IsOnce h) env) where
  IsOnce-TaskKeeps : TaskKeeps (IsOnce h) env
  IsOnce-TaskKeeps = record {
    steady = record {
      connects = λ c size secs b. b;
      executes = λ c target sql params b. b;
      pools = λ c p b. b;
    };
    hook = once;
    asks = λ c p b. b;
    gets = λ c k e b. ground (arith, pool c.trace k e);
    drops = λ c k b. omega arith;
    states = λ c st b. b;
    stores = λ c o b. b;
    clears = λ c b. b;
    shuts = λ c p b. b;
    fills = λ c o b. b;
  }

  -- Whatever calls of `begin`, `commit`, `rollback` and `close` are made and in whatever order they take turns,
  -- a pooled connection is never in two places among the two slots and the tasks: no two tasks run
  -- statements on it at the same time. The pool is to hand out a connection only when it was dropped
  -- as often as handed out, and the initialisation hook is to keep the counts.
  pub run_actions_exclusive :
      (counts : (k : ℕ) → HookKeeps (Offset h k) env) (actions : List Action) (c : Connection)
      → Balanced h c
      → IsOnce h c
      → holders h (run_actions env actions (at_rest c)) ≤ 1
  run_actions_exclusive counts actions c b o = omega (
    arith,
    run_actions-Balanced env h counts actions (at_rest c) (omega arith),
    run_actions-Keeps env (IsOnce h) IsOnce-TaskKeeps actions (at_rest c) o,
  )
