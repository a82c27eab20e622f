-- ===== src/Tasks/Closing.antt =====
-- src/connection.rs: without a call of `close` no task stands at a place of it.
use rapsqlite.Prelude.{
  ℕ, ◌≡◌, Bool, true, false, Bool-cases, inl, inr, List, [], ◌∷◌, Option-cases, some, get_elem?,
  arith,
}
use rapsqlite.State.{Env}
use rapsqlite.Tasks.Totals.{total, total-append, total-set, le-total}
use rapsqlite.Tasks.Flow.{resume-Next, Next-of_close, of_close}
use rapsqlite.Tasks.Locks.{test}
use rapsqlite.Tasks.{
  resume, System, is_blocked, move, turn, act, run_actions, Action, calls_begin, calls_close,
  calls_end, turns,
}
use rapsqlite.Tasks.Places.{Task, begins, ends}

abbrev pub without_close : List Action → Bool
without_close [] = true
without_close (calls_close ∷ actions) = false
without_close (_ ∷ actions) = without_close actions

abbrev pub NoneCloses : System → Type 0
NoneCloses s = total (test of_close) s.tasks ≡ 0

pub open_task :
    (s : System) (i : ℕ) (t : Task)
    → get_elem? s.tasks i ≡ some t
    → NoneCloses s
    → of_close t ≡ false
open_task s i t e n = ground (arith, le-total (test of_close) s.tasks i t e)

module _ (env : Env) where
  pub turn-NoneCloses : (i : ℕ) (s : System) → NoneCloses s → NoneCloses (turn env i s)
  unfolding turn
  turn-NoneCloses i s n = elim (Option-cases (get_elem? s.tasks i)) [
    | inl e ↦ rw (e, turn) n
    | inr (t, e) ↦
        rw (e, turn)
          (elim (Bool-cases (is_blocked s t)) [
            | inl waits ↦ rw (waits, move) n
            | inr goes ↦
                let next = resume-Next env s.conn t (ground arith) in
                let still = Next-of_close next (open_task s i t e n) in
                rw (goes, move)
                  (ground
                    (arith, still, total-set (test of_close) s.tasks i t (resume env s.conn t).1 e))
          ])
  ]

  pub run_actions-NoneCloses :
      (actions : List Action) (s : System)
      → without_close actions ≡ true
      → NoneCloses s
      → NoneCloses (run_actions env actions s)
  unfolding run_actions act
  run_actions-NoneCloses [] s w n = n
  run_actions-NoneCloses (calls_begin ∷ actions) s w n =
      run_actions-NoneCloses actions _ w
        (omega (arith, total-append (test of_close) s.tasks begins))
  run_actions-NoneCloses (calls_close ∷ actions) s w n = cc
  run_actions-NoneCloses (calls_end sql ∷ actions) s w n =
      run_actions-NoneCloses actions _ w
        (omega (arith, total-append (test of_close) s.tasks (ends sql)))
  run_actions-NoneCloses (turns i ∷ actions) s w n =
      run_actions-NoneCloses actions _ w (turn-NoneCloses i s n)
