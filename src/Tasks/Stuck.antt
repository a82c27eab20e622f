-- ===== src/Tasks/Stuck.antt =====
-- src/connection.rs: two tasks that wait for each other wait for ever.
use rapsqlite.Prelude.{
  ℕ, ◌≡◌, ◌≤◌, refl, ◌∙◌, Bool, true, false, Bool-cases, inl, inr, List, [], ◌∷◌, ◌++◌, some,
  is_some, Option-cases, get_elem?, ◌==◌, arith,
}
use rapsqlite.Outcome.{Statement}
use rapsqlite.State.{Env}
use rapsqlite.Tasks.Totals.{total, le-total_two, get_elem?-set_ne, get_elem?-append_left}
use rapsqlite.Tasks.Flow.{resume-Next, Next-gains_state, Next-gains_connection}
use rapsqlite.Tasks.Locks.{AreLocked, test, act-AreLocked}
use rapsqlite.Tasks.{
  resume, System, is_blocked, place, relock, move, turn, act, run_actions, Action, calls_begin,
  calls_close, calls_end, turns,
}
use rapsqlite.Tasks.Places.{
  Task, begins, ends, locked, closes, rolled, holds_state, holds_connection,
}

-- Task `i` has the state and waits for the connection, task `j` the other way round.
pub record AreStuck (s : System) (i j : ℕ) (sql : Statement) (keep : Bool) : Type 0 where
  pub first : get_elem? s.tasks i ≡ some (locked sql keep)
  pub second : get_elem? s.tasks j ≡ some rolled
  pub state : s.state_lock ≡ some i
  pub connection : s.connection_lock ≡ some j

-- A task that moves is another one than a task that is blocked.
differs :
    (s : System) (i k : ℕ) (t u : Task)
    → get_elem? s.tasks i ≡ some u
    → get_elem? s.tasks k ≡ some t
    → is_blocked s u ≡ true
    → is_blocked s t ≡ false
    → (k == i) ≡ false
differs s i k t u e f stays goes = elim (Bool-cases (k == i)) [
  | inl same ↦ let equal : k ≡ i = ground arith in cc
  | inr other ↦ other
]

-- It holds no mutex that a blocked one holds.
other_holds :
    (holds : Task → Bool) (tasks : List Task) (i k : ℕ) (t u : Task)
    → get_elem? tasks i ≡ some u
    → get_elem? tasks k ≡ some t
    → (k == i) ≡ false
    → holds u ≡ true
    → total (test holds) tasks ≤ 1
    → holds t ≡ false
other_holds holds tasks i k t u e f ne h one =
    ground (arith, le-total_two (test holds) tasks i k u t e f ne)

-- A task that holds neither of two mutexes which are held does not gain one.
keeps_out :
    (env : Env) (s : System) (k : ℕ) (t : Task)
    → is_blocked s t ≡ false
    → is_some s.state_lock ≡ true
    → is_some s.connection_lock ≡ true
    → (holds_state t ≡ false)
    → (holds_connection t ≡ false)
    → (holds_state (resume env s.conn t).1 ≡ false)
      × (holds_connection (resume env s.conn t).1 ≡ false)
keeps_out env s k t goes sl cl hs hc =
    let next = resume-Next env s.conn t (ground arith) in
    let u = (resume env s.conn t).1 in
    (
      elim (Bool-cases (holds_state u)) [
        | inl gained ↦ ground (arith, Next-gains_state next hs gained)
        | inr out ↦ out
      ],
      elim (Bool-cases (holds_connection u)) [
        | inl gained ↦ ground (arith, Next-gains_connection next hc gained)
        | inr out ↦ out
      ],
    )

module _ (env : Env) (i j : ℕ) (sql : Statement) (keep : Bool) where
  place-AreStuck :
      (s : System) (k : ℕ) (t : Task)
      → get_elem? s.tasks k ≡ some t
      → is_blocked s t ≡ false
      → AreLocked s
      → AreStuck s i j sql keep
      → AreStuck (place s k t (resume env s.conn t)) i j sql keep
  place-AreStuck s k t e goes l d =
      let ki = differs s i k t (locked sql keep) d.first e (ground (arith, d.connection)) goes in
      let kj = differs s j k t rolled d.second e (ground (arith, d.state)) goes in
      let hs =
        other_holds holds_state s.tasks i k t (locked sql keep) d.first e ki refl
          (ground (arith, l.state, d.state)) in
      let hc =
        other_holds holds_connection s.tasks j k t rolled d.second e kj refl
          (ground (arith, l.connection, d.connection)) in
      let (ns, nc) =
        keeps_out env s k t goes (ground (arith, d.state)) (ground (arith, d.connection)) hs hc in
      record {
        first = get_elem?-set_ne s.tasks k i _ ki ∙ d.first;
        second = get_elem?-set_ne s.tasks k j _ kj ∙ d.second;
        state = rw (ns, hs, relock) d.state;
        connection = rw (nc, hc, relock) d.connection;
      }

  turn-AreStuck :
      (k : ℕ) (s : System)
      → AreLocked s
      → AreStuck s i j sql keep
      → AreStuck (turn env k s) i j sql keep
  unfolding turn
  turn-AreStuck k s l d = elim (Option-cases (get_elem? s.tasks k)) [
    | inl e ↦ rw (e, turn) d
    | inr (t, e) ↦
        rw (e, turn)
          (elim (Bool-cases (is_blocked s t)) [
            | inl waits ↦ rw (waits, move) d
            | inr goes ↦ rw (goes, move) (place-AreStuck s k t e goes l d)
          ])
  ]

  called-AreStuck :
      (s : System) (t : Task)
      → AreStuck s i j sql keep
      → AreStuck (record s { tasks = s.tasks ++ t ∷ [] }) i j sql keep
  called-AreStuck s t d = record {
    first = get_elem?-append_left s.tasks (t ∷ []) i _ d.first;
    second = get_elem?-append_left s.tasks (t ∷ []) j _ d.second;
    state = d.state;
    connection = d.connection;
  }

  act-AreStuck :
      (a : Action) (s : System)
      → AreLocked s
      → AreStuck s i j sql keep
      → AreStuck (act env a s) i j sql keep
  unfolding act
  act-AreStuck calls_begin s l d = called-AreStuck s begins d
  act-AreStuck calls_close s l d = called-AreStuck s closes d
  act-AreStuck (calls_end q) s l d = called-AreStuck s (ends q) d
  act-AreStuck (turns k) s l d = turn-AreStuck k s l d

  pub run_actions-AreStuck :
      (actions : List Action) (s : System)
      → AreLocked s
      → AreStuck s i j sql keep
      → AreStuck (run_actions env actions s) i j sql keep
  unfolding run_actions
  run_actions-AreStuck [] s l d = d
  run_actions-AreStuck (a ∷ actions) s l d =
      run_actions-AreStuck actions (act env a s) (act-AreLocked env a s l) (act-AreStuck a s l d)
