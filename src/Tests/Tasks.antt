-- ===== src/Tests/Tasks.antt =====
-- Calls of `begin` and `commit` that take turns, on a pool of two connections.
use rapsqlite.Prelude.{
  Bool, ℕ, ◌≡◌, ◌≤◌, refl, false, List, [], ◌∷◌, ◌++◌, some, map, length, ◌==◌, if◌then◌else◌,
  arith,
}
use rapsqlite.Outcome.{ok, err, PyErr, SqlxError, Statement}
use rapsqlite.Types.{is_exactly_active, starting, is_active}
use rapsqlite.State.{Connection, Env, Event, Reply, reply, fail, effects}
use rapsqlite.Pool.{get_or_create_pool, execute_init_hook_if_needed, has_callbacks}
use rapsqlite.Transaction.{close, begin, commit, rollback, reserve}
use rapsqlite.Transaction.Balance.{Offset}
use rapsqlite.Pool.Steady.{HookKeeps}
use rapsqlite.Pool.Balance.{acquired_count, dropped_count}
use rapsqlite.Tasks.{Action, calls_begin, calls_end, calls_close, turns, run_actions, at_rest}
use rapsqlite.Tasks.Places.{hooked, reserved, begun, finished}
use rapsqlite.Tasks.Totals.{total}
use rapsqlite.Tasks.Flow.{rank}
use rapsqlite.Tasks.Balance.{SystemBalanced, run_actions-Balanced}
use rapsqlite.Tasks.Exclusive.{HandsOutIdle, IsOnce, holders, run_actions_exclusive}
use rapsqlite.Tasks.Liveness.{AllEnded, run_actions_can_end}
use rapsqlite.Tasks.Alone.{replicate, returned, run_actions_alone}
use rapsqlite.Tasks.Race.{unlocked, IsReset, refused_begin_resets}
use rapsqlite.Tasks.Stuck.{AreStuck}
use rapsqlite.Tasks.Deadlock.{meeting, close_deadlocks}
use rapsqlite.Tests.{env, fresh, opened}

-- Connection 1 if it is in the pool, then connection 2.
abbrev hand_out : List Event → Reply ℕ
hand_out t =
    if acquired_count 1 t == dropped_count 1 t
    then reply 1
    else if acquired_count 2 t == dropped_count 2 t
    then reply 2
    else fail SqlxError.io

abbrev two : Env
two = record env { acquire = hand_out }

two-HandsOutIdle : HandsOutIdle two
two-HandsOutIdle t h e = ground arith

two-Offset : (h k : ℕ) → HookKeeps (Offset h k) two
two-Offset h k = record { flag = λ c b. b; call = λ hook c b. b }

two-IsOnce : (h : ℕ) → HookKeeps (IsOnce h) two
two-IsOnce h = record { flag = λ c b. b; call = λ hook c b. b }

-- Two calls pass the first test, and one of them reserves the slot; the other is refused and resets
-- the state; a third one begins, and both it and the first stand before `BEGIN`.
abbrev race : List Action
race =
    calls_begin
    ∷ calls_begin
    ∷ calls_begin
    ∷ (map turns (0 ∷ 1 ∷ 0 ∷ 1 ∷ 0 ∷ 1 ∷ 0 ∷ [])
        ++ (replicate 4 (turns 1) ++ replicate 7 (turns 2)))

-- The first has the reservation, the second was refused, and the third has begun on connection 1; the
-- first now gets connection 2 and begins too.
overlapping :
    (run_actions two (race ++ replicate 3 (turns 0)) (at_rest fresh)).tasks
    ≡ begun false 2 ∷ finished (err PyErr.transaction_in_progress) ∷ begun false 1 ∷ []
unfolding run_actions get_or_create_pool effects execute_init_hook_if_needed reserve has_callbacks
overlapping = refl

run_actions-Balanced_example : SystemBalanced 1 (run_actions two race (at_rest fresh))
run_actions-Balanced_example = run_actions-Balanced two 1 (two-Offset 1) race (at_rest fresh) refl

run_actions_exclusive_example : holders 1 (run_actions two race (at_rest fresh)) ≤ 1
run_actions_exclusive_example =
    run_actions_exclusive two 1 two-HandsOutIdle (two-IsOnce 1) (two-Offset 1) race fresh refl
      (omega arith)

run_actions_can_end_example :
    (is : List ℕ) × (length is ≤ total rank (run_actions two race (at_rest fresh)).tasks)
    × AllEnded (run_actions two (map turns is) (run_actions two race (at_rest fresh))).tasks
run_actions_can_end_example = run_actions_can_end two race fresh refl

run_actions_alone_example :
    (run_actions two (calls_begin ∷ replicate 12 (turns 0)) (at_rest opened)
      ≡ returned (begin two opened))
    × (run_actions two (calls_end Statement.commit ∷ replicate 4 (turns 0)) (at_rest opened)
        ≡ returned (commit two opened))
    × (run_actions two (calls_end Statement.rollback ∷ replicate 4 (turns 0)) (at_rest opened)
        ≡ returned (rollback two opened))
    × (run_actions two (calls_close ∷ replicate 6 (turns 0)) (at_rest opened)
        ≡ returned (ok tt, close two opened))
run_actions_alone_example = run_actions_alone two opened

abbrev reserving : Connection
reserving = record fresh { pool = some 3; transaction_state = starting }

refused_begin_resets_example :
    IsReset
      (run_actions two (replicate 4 (turns 1)) (unlocked reserving (reserved 3 ∷ hooked 3 ∷ [])))
      0
      1
      (reserved 3)
unfolding is_active
refused_begin_resets_example =
    refused_begin_resets two reserving (reserved 3 ∷ hooked 3 ∷ []) 0 1 3 (reserved 3) refl refl
      refl refl

-- A commit and a close in an open transaction, and ten more turns of each.
close_deadlocks_example :
    (keep : Bool) × AreStuck
      (run_actions two
        (meeting Statement.commit ++ (replicate 10 (turns 0) ++ replicate 10 (turns 1)))
        (at_rest opened))
      0
      1
      Statement.commit
      keep
unfolding is_exactly_active
close_deadlocks_example =
    close_deadlocks two Statement.commit opened 1 (replicate 10 (turns 0) ++ replicate 10 (turns 1))
      refl refl
