-- ===== src/Tasks/Liveness.antt =====
-- src/connection.rs: no deadlock. Some task can always move until all have ended.
use native.Mathlib.Decide.{dec_lt}
use rapsqlite.Prelude.{
  ℕ, zero, suc, ◌≡◌, ◌≤◌, ◌<◌, refl, true, false, inl, inr, List, [], ◌∷◌, some, Option-cases,
  get_elem?, map, length, arith,
}
use rapsqlite.State.{Connection, Env}
use rapsqlite.Tasks.Totals.{total, total-set, total_pos}
use rapsqlite.Tasks.Closing.{
  NoneCloses, without_close, open_task, turn-NoneCloses, run_actions-NoneCloses,
}
use rapsqlite.Tasks.Flow.{of_close, resume-Next, Next-rank, rank}
use rapsqlite.Tasks.Locks.{
  AreLocked, test, turn-AreLocked, run_actions-AreLocked, at_rest-AreLocked,
}
use rapsqlite.Tasks.{
  resume, System, is_blocked, move, turn, act, run_actions, Action, turns, at_rest,
}
use rapsqlite.Tasks.Places.{
  Task, begins, holds_state, holds_connection, wants_state, wants_connection, is_finished,
}

-- All calls have returned.
abbrev pub AllEnded : List Task → Type 0
AllEnded [] = Unit
AllEnded (t ∷ ts) = (is_finished t ≡ true) × AllEnded ts

-- Who holds the second mutex waits for nothing, and who holds the first waits at most for the second.
holder_waits :
    (t : Task) → 0 < test holds_state t → (is_finished t ≡ false) × (wants_state t ≡ false)
holder_waits begins p = absurd (omega arith)
holder_waits _ p = ground arith

holder_runs :
    (t : Task)
    → 0 < test holds_connection t
    → of_close t ≡ false
    → (is_finished t ≡ false) × (wants_state t ≡ false) × (wants_connection t ≡ false)
holder_runs begins p q = absurd (omega arith)
holder_runs _ p q = ground arith

unended : (t : Task) → 0 < rank t → is_finished t ≡ false
unended begins p = refl
unended _ p = ground arith

rank_zero : (t : Task) → rank t ≡ 0 → is_finished t ≡ true
rank_zero begins e = absurd (omega arith)
rank_zero _ e = ground arith

ended_of_rank : (ts : List Task) → total rank ts ≡ 0 → AllEnded ts
ended_of_rank [] e = tt
ended_of_rank (t ∷ ts) e = (rank_zero t (omega arith), ended_of_rank ts (omega arith))

-- A task that can move.
abbrev Mover : System → Type 0
Mover s = (i : ℕ) × (t : Task) × (get_elem? s.tasks i ≡ some t) × (is_blocked s t ≡ false)

mover : (s : System) → AreLocked s → NoneCloses s → 0 < total rank s.tasks → Mover s
mover s l n p = elim (Option-cases s.connection_lock) [
  | inr (k, held) ↦
      let (i, t, e, q) =
        total_pos (test holds_connection) s.tasks (ground (arith, l.connection, held)) in
      (i, t, e, ground (arith, holder_runs t q (open_task s i t e n)))
  | inl free ↦ elim (Option-cases s.state_lock) [
    | inr (k, held) ↦
        let (i, t, e, q) = total_pos (test holds_state) s.tasks (ground (arith, l.state, held)) in
        (i, t, e, ground (arith, holder_waits t q))
    | inl open_state ↦
        let (i, t, e, q) = total_pos rank s.tasks p in (i, t, e, ground (arith, unended t q))
  ]
]

module _ (env : Env) where
  -- A turn of a task that is not blocked brings it nearer to its end.
  turn-rank :
      (s : System) (i : ℕ) (t : Task)
      → get_elem? s.tasks i ≡ some t
      → is_blocked s t ≡ false
      → total rank (turn env i s).tasks < total rank s.tasks
  unfolding turn
  turn-rank s i t e goes =
      let next = resume-Next env s.conn t (ground arith) in
      rw (e, turn)
        (rw (goes, move)
          (omega (arith, total-set rank s.tasks i t (resume env s.conn t).1 e, Next-rank next)))

  finish_from :
      (n : ℕ) (s : System)
      → AreLocked s
      → NoneCloses s
      → total rank s.tasks ≤ n
      → (is : List ℕ) × (length is ≤ n) × AllEnded (run_actions env (map turns is) s).tasks
  unfolding run_actions act
  finish_from zero s l k p = ([], omega arith, ended_of_rank s.tasks (omega arith))
  finish_from (suc n) s l k p = elim (dec_lt 0 (total rank s.tasks)) [
    | no none_left ↦ ([], omega arith, ended_of_rank s.tasks (omega arith))
    | yes some_left ↦
        let (i, t, e, goes) = mover s l k some_left in
        let (is, short, done) =
          finish_from n (turn env i s) (turn-AreLocked env i s l) (turn-NoneCloses env i s k)
            (omega (arith, turn-rank s i t e goes)) in
        (i ∷ is, omega arith, done)
  ]

  -- Whatever calls of `begin`, `commit` and `rollback` were made and however they took turns, if `close`
  -- was not called there is an order of turns in which all of them return: the two mutexes cause no
  -- deadlock. As many turns as the sum of the turns that each call has left at most are enough.
  pub run_actions_can_end :
      (actions : List Action) (c : Connection)
      → without_close actions ≡ true
      → (is : List ℕ) × (length is ≤ total rank (run_actions env actions (at_rest c)).tasks)
        × AllEnded (run_actions env (map turns is) (run_actions env actions (at_rest c))).tasks
  run_actions_can_end actions c no_close =
      finish_from _ _ (run_actions-AreLocked env actions (at_rest c) (at_rest-AreLocked c))
        (run_actions-NoneCloses env actions (at_rest c) no_close refl) (omega arith)
