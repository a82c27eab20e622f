-- ===== src/Tasks/Locks.antt =====
-- src/connection.rs: the two mutexes. A mutex that is held has one task that holds it, and no other has.
use rapsqlite.Prelude.{
  ℕ, ◌+◌, ◌≡◌, ◌≤◌, refl, Bool, true, false, Bool-cases, inl, inr, List, [], ◌∷◌, Option, none,
  some, is_some, Option-cases, get_elem?, set, arith,
}
use rapsqlite.State.{Connection, Env}
use rapsqlite.Tasks.Totals.{total, total-append, total-set, le-total}
use rapsqlite.Tasks.Flow.{resume-Next, Next-gains_state, Next-gains_connection}
use rapsqlite.Tasks.{
  resume, System, is_blocked, place, relock, move, turn, act, run_actions, Action, calls_begin,
  calls_close, calls_end, turns, at_rest,
}
use rapsqlite.Tasks.Places.{
  Task, begins, ends, closes, holds_state, holds_connection, wants_state, wants_connection,
  is_finished,
}

abbrev pub count : Bool → ℕ
count true = 1
count false = 0

-- A test of a task, counted.
abbrev pub test : (Task → Bool) → Task → ℕ
test f t = count (f t)

-- One mutex and its holders.
abbrev pub OneHolder : (Task → Bool) → Option ℕ → List Task → Type 0
OneHolder holds lock tasks = total (test holds) tasks ≡ count (is_some lock)

pub record AreLocked (s : System) : Type 0 where
  pub state : OneHolder holds_state s.state_lock s.tasks
  pub connection : OneHolder holds_connection s.connection_lock s.tasks

-- The count of the holders after a turn, of a task that took the mutex only when it was free.
relock-count :
    (i : ℕ) (before now : Bool) (lock : Option ℕ) (m n : ℕ)
    → (before ≡ false → now ≡ true → is_some lock ≡ false)
    → count before ≤ m
    → m ≡ count (is_some lock)
    → n + count before ≡ m + count now
    → n ≡ count (is_some (relock i before now lock))
relock-count i true true none m n free b e d = omega arith
relock-count i true true (some k) m n free b e d = omega arith
relock-count i true false none m n free b e d = omega arith
relock-count i true false (some k) m n free b e d = omega arith
relock-count i false true none m n free b e d = omega arith
relock-count i false true (some k) m n free b e d = cc (free refl refl)
relock-count i false false lock m n free b e d = omega arith

relock-OneHolder :
    (holds : Task → Bool) (lock : Option ℕ) (tasks : List Task) (i : ℕ) (t u : Task)
    → get_elem? tasks i ≡ some t
    → (holds t ≡ false → holds u ≡ true → is_some lock ≡ false)
    → OneHolder holds lock tasks
    → OneHolder holds (relock i (holds t) (holds u) lock) (set tasks i u)
relock-OneHolder holds lock tasks i t u e free one =
    relock-count i (holds t) (holds u) lock _ _ free (le-total (test holds) tasks i t e) one
      (total-set (test holds) tasks i t u e)

-- What a task waits for is free when it is not blocked.
runs :
    (s : System) (t : Task)
    → is_blocked s t ≡ false
    → (is_finished t ≡ false)
      × (wants_state t ≡ true → is_some s.state_lock ≡ false)
      × (wants_connection t ≡ true → is_some s.connection_lock ≡ false)
runs s t goes = (ground arith, λ w. ground arith, λ w. ground arith)

module _ (env : Env) where
  place-AreLocked :
      (s : System) (i : ℕ) (t : Task)
      → get_elem? s.tasks i ≡ some t
      → is_blocked s t ≡ false
      → AreLocked s
      → AreLocked (place s i t (resume env s.conn t))
  place-AreLocked s i t e goes l =
      let (unfinished, state_free, connection_free) = runs s t goes in
      let next = resume-Next env s.conn t unfinished in
      record {
        state =
            relock-OneHolder holds_state s.state_lock s.tasks i t _ e
              (λ p q. state_free (Next-gains_state next p q)) l.state;
        connection =
            relock-OneHolder holds_connection s.connection_lock s.tasks i t _ e
              (λ p q. connection_free (Next-gains_connection next p q)) l.connection;
      }

  pub turn-AreLocked : (i : ℕ) (s : System) → AreLocked s → AreLocked (turn env i s)
  unfolding turn
  turn-AreLocked i s l = elim (Option-cases (get_elem? s.tasks i)) [
    | inl e ↦ rw (e, turn) l
    | inr (t, e) ↦
        rw (e, turn)
          (elim (Bool-cases (is_blocked s t)) [
            | inl waits ↦ rw (waits, move) l
            | inr goes ↦ rw (goes, move) (place-AreLocked s i t e goes l)
          ])
  ]

  pub act-AreLocked : (a : Action) (s : System) → AreLocked s → AreLocked (act env a s)
  unfolding act
  act-AreLocked calls_begin s l = record {
    state = omega (arith, l.state, total-append (test holds_state) s.tasks begins);
    connection = omega (arith, l.connection, total-append (test holds_connection) s.tasks begins);
  }
  act-AreLocked calls_close s l = record {
    state = omega (arith, l.state, total-append (test holds_state) s.tasks closes);
    connection = omega (arith, l.connection, total-append (test holds_connection) s.tasks closes);
  }
  act-AreLocked (calls_end sql) s l = record {
    state = omega (arith, l.state, total-append (test holds_state) s.tasks (ends sql));
    connection =
        omega (arith, l.connection, total-append (test holds_connection) s.tasks (ends sql));
  }
  act-AreLocked (turns i) s l = turn-AreLocked i s l

  pub run_actions-AreLocked :
      (actions : List Action) (s : System) → AreLocked s → AreLocked (run_actions env actions s)
  unfolding run_actions
  run_actions-AreLocked [] s l = l
  run_actions-AreLocked (a ∷ actions) s l =
      run_actions-AreLocked actions (act env a s) (act-AreLocked a s l)

pub at_rest-AreLocked : (c : Connection) → AreLocked (at_rest c)
at_rest-AreLocked c = record { state = refl; connection = refl }
