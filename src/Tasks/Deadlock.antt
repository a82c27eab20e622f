-- ===== src/Tasks/Deadlock.antt =====
-- src/connection.rs: `close` waits for the state while it holds the connection, and `commit` waits for
-- the connection while it holds the state.
use rapsqlite.Prelude.{
  ℕ, ◌≡◌, refl, ap, ◌∙◌, Bool, true, inl, inr, List, [], ◌∷◌, ◌++◌, Option, none, some,
  Option-cases,
}
use rapsqlite.Outcome.{Statement}
use rapsqlite.Types.{is_exactly_active}
use rapsqlite.State.{Connection, Env, Target, do_drop, do_execute}
use rapsqlite.Pool.{has_callbacks}
use rapsqlite.Transaction.{clear_callbacks}
use rapsqlite.Tasks.Stuck.{AreStuck, run_actions-AreStuck}
use rapsqlite.Tasks.Locks.{run_actions-AreLocked, at_rest-AreLocked}
use rapsqlite.Tasks.{
  end_turn, close_turn, resume, System, move, turn, act, run_actions, Action, calls_close,
  calls_end, turns, at_rest, take_open_slot,
}
use rapsqlite.Tasks.Places.{Task, ends, locked, emptied, closing, rolling, rolled}

-- `close` gets as far as its ROLLBACK, the other method locks the state, and the ROLLBACK returns.
abbrev pub meeting : Statement → List Action
meeting sql = calls_end sql ∷ calls_close ∷ turns 1 ∷ turns 1 ∷ turns 1 ∷ turns 0 ∷ turns 1 ∷ []

clear_callbacks-transaction :
    (c : Connection)
    → ((clear_callbacks c).transaction_state ≡ c.transaction_state)
      × ((clear_callbacks c).transaction_connection ≡ c.transaction_connection)
unfolding clear_callbacks
clear_callbacks-transaction c = elim (Option-cases c.callback_connection) [
  | inl e ↦ rw e (refl, refl)
  | inr (k, e) ↦ rw e (refl, refl)
]

abbrev duo : Connection → Option ℕ → Option ℕ → Task → Task → System
duo c state_lock connection_lock t u = record {
  conn = c;
  state_lock = state_lock;
  connection_lock = connection_lock;
  tasks = t ∷ u ∷ [];
}

module _ (env : Env) (sql : Statement) (c : Connection)
    (on : is_exactly_active c.transaction_state ≡ true) where
  finds_active :
      turn env 1 (duo c none none (ends sql) emptied) ≡ duo c none none (ends sql) closing
  unfolding turn move resume
  finds_active = rw (on, close_turn)

  takes_slot :
      (h : ℕ)
      → c.transaction_connection ≡ some h
      → turn env 1 (duo c none none (ends sql) closing)
        ≡ duo (record c { transaction_connection = none }) none (some 1) (ends sql) (rolling h)
  unfolding turn move resume
  takes_slot h e = rw (e, take_open_slot)

  locks_state :
      (h : ℕ)
      → turn env 0 (duo c none (some 1) (ends sql) (rolling h))
        ≡ duo c (some 0) (some 1) (locked sql (has_callbacks c)) (rolling h)
  unfolding turn move resume
  locks_state h = rw (on, end_turn)

-- The connection when `close` has taken the transaction, and when it has rolled it back.
abbrev taken : Connection → Connection
taken c = record (clear_callbacks c) { transaction_connection = none }

abbrev rolled_back : Env → ℕ → Connection → Connection
rolled_back env h c =
    do_drop h (do_execute env (Target.on_connection h) Statement.rollback [] (taken c)).1

run_actions-append :
    (env : Env) (before after : List Action) (s : System)
    → run_actions env (before ++ after) s ≡ run_actions env after (run_actions env before s)
unfolding run_actions
run_actions-append env [] after s = refl
run_actions-append env (a ∷ before) after s = run_actions-append env before after (act env a s)

module _ (env : Env) (sql : Statement) (c : Connection) (h : ℕ) where
  meets :
      is_exactly_active c.transaction_state ≡ true
      → c.transaction_connection ≡ some h
      → run_actions env (meeting sql) (at_rest c)
        ≡ duo (rolled_back env h c) (some 0) (some 1) (locked sql (has_callbacks (taken c))) rolled
  unfolding run_actions act turn move resume
  meets on e =
      let same = clear_callbacks-transaction c in
      let on' = ap is_exactly_active same.0 ∙ on in
      ap (λ s. turn env 1 (turn env 0 (turn env 1 s)))
        (finds_active env sql (clear_callbacks c) on')
      ∙ ap (λ s. turn env 1 (turn env 0 s))
          (takes_slot env sql (clear_callbacks c) on' h (same.1 ∙ e))
      ∙ ap (turn env 1) (locks_state env sql (taken c) on' h)

  -- Deadlock. In an open transaction, let `commit` or `rollback` be called and `close` too; `close` sends
  -- its ROLLBACK while it holds the connection, and the other call locks the state meanwhile. Then
  -- neither returns, whatever calls follow and however all of them take turns: `close` waits for the
  -- state with the connection locked, and the other call for the connection with the state locked.
  pub close_deadlocks :
      (actions : List Action)
      → is_exactly_active c.transaction_state ≡ true
      → c.transaction_connection ≡ some h
      → (keep : Bool) × AreStuck (run_actions env (meeting sql ++ actions) (at_rest c)) 0 1 sql keep
  close_deadlocks actions on e = (
    has_callbacks (taken c),
    rw (run_actions-append env (meeting sql) actions (at_rest c)) (
        run_actions-AreStuck env 0 1 sql (has_callbacks (taken c)) actions _
          (run_actions-AreLocked env (meeting sql) (at_rest c) (at_rest-AreLocked c))
          (rw (meets on e)
            (record { first = refl; second = refl; state = refl; connection = refl }))),
  )
