-- ===== src/Tasks/Balance.antt =====
-- src/connection.rs: the connections that tasks hold, counted over every order of their turns.
use rapsqlite.Prelude.{
  ℕ, ◌-◌, ◌≡◌, Bool-cases, inl, inr, List, [], ◌∷◌, some, Option-cases, get_elem?, arith,
}
use rapsqlite.State.{Env}
use rapsqlite.Pool.Steady.{HookKeeps}
use rapsqlite.Transaction.Balance.{Offset}
use rapsqlite.Tasks.Totals.{total, total-append, total-set, le-total}
use rapsqlite.Tasks.Counts.{task_holds, resume-Counted}
use rapsqlite.Tasks.{
  resume, System, is_blocked, place, move, turn, act, run_actions, Action, calls_begin, calls_close,
  calls_end, turns,
}
use rapsqlite.Tasks.Places.{Task, begins, ends, closes}

-- The slots of the connection and its tasks hold what the pool handed out and did not get back.
abbrev pub SystemBalanced : ℕ → System → Type 0
SystemBalanced h s = Offset h (total (task_holds h) s.tasks) s.conn

module _ (env : Env) (h : ℕ) (hook : (k : ℕ) → HookKeeps (Offset h k) env) where
  place-Balanced :
      (s : System) (i : ℕ) (t : Task)
      → get_elem? s.tasks i ≡ some t
      → SystemBalanced h s
      → SystemBalanced h (place s i t (resume env s.conn t))
  place-Balanced s i t e b =
      let k = total (task_holds h) s.tasks - task_holds h t in
      let fits = le-total (task_holds h) s.tasks i t e in
      omega (
        arith,
        fits,
        resume-Counted env h hook k s.conn t (omega (arith, fits)),
        total-set (task_holds h) s.tasks i t (resume env s.conn t).1 e,
      )

  move-Balanced :
      (s : System) (i : ℕ) (t : Task)
      → get_elem? s.tasks i ≡ some t
      → SystemBalanced h s
      → SystemBalanced h (move env s i t)
  unfolding move
  move-Balanced s i t e b = elim (Bool-cases (is_blocked s t)) [
    | inl waits ↦ rw (waits, move) b
    | inr goes ↦ rw (goes, move) (place-Balanced s i t e b)
  ]

  turn-Balanced : (i : ℕ) (s : System) → SystemBalanced h s → SystemBalanced h (turn env i s)
  unfolding turn
  turn-Balanced i s b = elim (Option-cases (get_elem? s.tasks i)) [
    | inl e ↦ rw (e, turn) b
    | inr (t, e) ↦ rw (e, turn) (move-Balanced s i t e b)
  ]

  act-Balanced : (a : Action) (s : System) → SystemBalanced h s → SystemBalanced h (act env a s)
  unfolding act
  act-Balanced calls_begin s b = omega (arith, total-append (task_holds h) s.tasks begins)
  act-Balanced calls_close s b = omega (arith, total-append (task_holds h) s.tasks closes)
  act-Balanced (calls_end sql) s b = omega (arith, total-append (task_holds h) s.tasks (ends sql))
  act-Balanced (turns i) s b = turn-Balanced i s b

  -- In whatever order the calls of the four methods are made and take their turns, a
  -- pooled connection was handed out as often as it was dropped or is in a slot or with a task, if this
  -- was so before. The initialisation hook is to change no such count.
  pub run_actions-Balanced :
      (actions : List Action) (s : System)
      → SystemBalanced h s
      → SystemBalanced h (run_actions env actions s)
  unfolding run_actions
  run_actions-Balanced [] s b = b
  run_actions-Balanced (a ∷ actions) s b =
      run_actions-Balanced actions (act env a s) (act-Balanced a s b)
