-- ===== src/Tasks.antt =====
-- src/connection.rs: `begin`, `commit`, `rollback` and `close` of one connection as tasks that take turns. A turn
-- runs from one await at most to the next. `transaction_state` and `transaction_connection` are mutexes that a
-- task may hold across an await; that of the callback connection is held within a turn only.
pub mod Places
pub mod Totals
pub mod Counts
pub mod Balance
pub mod Keeping
pub mod Exclusive
pub mod Flow
pub mod Locks
pub mod Closing
pub mod Liveness
pub mod Solo
pub mod SoloEnd
pub mod Alone
pub mod Race
pub mod Stuck
pub mod Deadlock
use rapsqlite.Prelude.{
  ℕ, Bool, true, false, not, ◌||◌, ◌&&◌, List, [], ◌∷◌, ◌++◌, Option, none, some, is_some,
  if◌then◌else◌, get_elem?, set,
}
use rapsqlite.Outcome.{Outcome, ok, err, PyErr, Statement}
use rapsqlite.Types.{idle, active, is_active, is_exactly_active}
use rapsqlite.State.{Connection, Env, Target, do_acquire, do_execute, do_drop, drop_held}
use rapsqlite.Pool.{
  has_callbacks, get_or_create_pool, ensure_callback_connection, execute_init_hook_if_needed,
}
use rapsqlite.Tasks.Places.{
  Method, Task, begins, begun, checked, cleared, closes, closing, emptied, ended, ending, ends,
  ensured, failing, finished, has_pool, holds_connection, holds_state, hooked, is_finished, locked,
  method, of_begin, of_closing, of_end, pending, reserved, returning, rolled, rolling, shutting,
  stored, tuned, wants_connection, wants_state,
}
use rapsqlite.Transaction.{
  set_transaction, reserve, timeout_ms, give_back, clear_callbacks, close_pool,
}

-- `conn.take().or_else(|| pending_conn.take())`, and what stays in `pending_conn`.
abbrev pub first_of : Option ℕ → Option ℕ → Option ℕ
first_of (some h) held = some h
first_of none held = held

abbrev pub left_over : Option ℕ → Option ℕ → Option ℕ
left_over (some h) held = held
left_over none held = none

abbrev pub give_back_held : Bool → Option ℕ → Connection → Connection
give_back_held from_callback none c = c
give_back_held from_callback (some h) c = give_back from_callback h c

-- The next place after a call that may fail.
abbrev pub proceed :
    {A : Type 0} → (A → Task) → (PyErr → Task) → Outcome A × Connection → Connection × Task
proceed next failed (ok a, c) = (c, next a)
proceed next failed (err e, c) = (c, failed e)

-- When COMMIT or ROLLBACK fails, the connection is dropped.
abbrev pub after_ending : {A : Type 0} → Bool → ℕ → Outcome A × Connection → Connection × Task
after_ending keep h (ok a, c) = (c, ended keep h)
after_ending keep h (err e, c) = (do_drop h c, finished (err e))

unfoldable pub take_callback_slot : Connection → Connection × Task
take_callback_slot c = elim c.callback_connection [
  | none ↦ (c, failing PyErr.no_callback_connection true none)
  | some h ↦ (record c { callback_connection = none }, pending true h)
]

-- The connection that `close` rolls back.
unfoldable pub take_open_slot : Connection → Connection × Task
take_open_slot c = elim c.transaction_connection [
  | none ↦ (c, rolled)
  | some h ↦ (record c { transaction_connection = none }, rolling h)
]

unfoldable pub take_transaction_slot : Statement → Bool → Connection → Connection × Task
take_transaction_slot sql keep c = elim c.transaction_connection [
  | none ↦ (c, finished (err PyErr.no_transaction_connection))
  | some h ↦ (record c { transaction_connection = none }, ending sql keep h)
]

module _ (env : Env) where
  -- The choice of the connection for a transaction.
  unfoldable pub choose : ℕ → Connection → Connection × Task
  choose p c = elim (has_callbacks c) [
    | true ↦ proceed (λ _. ensured) (λ e. failing e true none) (ensure_callback_connection env c)
    | false ↦ proceed (pending false) (λ e. failing e false none) (do_acquire env p c)
  ]

  -- One turn of `begin`, when it does not wait for a mutex.
  abbrev pub begin_turn : Connection → Task → Connection × Task
  begin_turn c begins = elim (is_active c.transaction_state) [
    | true ↦ (c, finished (err PyErr.transaction_in_progress))
    | false ↦ (c, checked)
  ]
  begin_turn c checked = proceed has_pool (λ e. failing e false none) (get_or_create_pool env c)
  begin_turn c (has_pool p) =
      proceed (λ _. hooked p) (λ e. failing e false none) (execute_init_hook_if_needed env c)
  begin_turn c (hooked p) = proceed (λ _. reserved p) (λ e. failing e false none) (reserve c)
  begin_turn c (reserved p) = choose p c
  begin_turn c ensured = take_callback_slot c
  begin_turn c (pending from_callback h) =
      proceed (λ _. tuned from_callback h) (λ e. failing e from_callback (some h))
        (do_execute env (Target.on_connection h) (Statement.busy_timeout (timeout_ms c)) [] c)
  begin_turn c (tuned from_callback h) =
      proceed (λ _. begun from_callback h) (λ e. failing e from_callback (some h))
        (do_execute env (Target.on_connection h) Statement.begin_immediate [] c)
  begin_turn c (begun from_callback h) = (set_transaction (some h) c, stored from_callback)
  begin_turn c (stored from_callback) = (record c { transaction_state = active }, finished (ok tt))
  begin_turn c (failing e from_callback held) =
      (record c { transaction_state = idle }, cleared e from_callback held)
  begin_turn c (cleared e from_callback held) = (
    record c { transaction_connection = none },
    returning e from_callback (first_of c.transaction_connection held)
        (left_over c.transaction_connection held),
  )
  begin_turn c (returning e from_callback conn rest) =
      (drop_held rest (give_back_held from_callback conn c), finished (err e))
  begin_turn c t = (c, t)

  -- One turn of `commit` or `rollback`.
  abbrev pub end_turn : Connection → Task → Connection × Task
  end_turn c (ends sql) = elim (is_exactly_active c.transaction_state) [
    | true ↦ (c, locked sql (has_callbacks c))
    | false ↦ (c, finished (err PyErr.no_transaction))
  ]
  end_turn c (locked sql keep) = take_transaction_slot sql keep c
  end_turn c (ending sql keep h) =
      after_ending keep h (do_execute env (Target.on_connection h) sql [] c)
  end_turn c (ended keep h) =
      (record (give_back keep h c) { transaction_state = idle }, finished (ok tt))
  end_turn c t = (c, t)

  -- One turn of `close`.
  abbrev pub close_turn : Connection → Task → Connection × Task
  close_turn c closes = (clear_callbacks c, emptied)
  close_turn c emptied = elim (is_exactly_active c.transaction_state) [
    | true ↦ (c, closing)
    | false ↦ (c, shutting true)
  ]
  close_turn c closing = take_open_slot c
  close_turn c (rolling h) =
      (do_drop h (do_execute env (Target.on_connection h) Statement.rollback [] c).1, rolled)
  close_turn c rolled = (record c { transaction_state = idle }, shutting false)
  close_turn c (shutting held) = (close_pool c, finished (ok tt))
  close_turn c t = (c, t)

  -- A turn of the method that the task belongs to; one that has finished stays.
  unfoldable pub resume : Connection → Task → Connection × Task
  unfolding choose take_callback_slot take_transaction_slot take_open_slot clear_callbacks
      close_pool is_active is_exactly_active
  resume c t = elim (method t) [
    | of_begin ↦ begin_turn c t
    | of_end ↦ end_turn c t
    | of_closing ↦ close_turn c t
  ]

-- The connection, the task that holds each of the two mutexes, and the tasks by their numbers.
pub record System : Type 0 where
  pub conn : Connection
  pub state_lock : Option ℕ
  pub connection_lock : Option ℕ
  pub tasks : List Task

-- A task that waits for a mutex which is held cannot move, and one that has finished does not.
abbrev pub is_blocked : System → Task → Bool
is_blocked s t =
    is_finished t
    || (wants_state t && is_some s.state_lock)
    || (wants_connection t && is_some s.connection_lock)

-- A mutex after a turn of task `i`, by what it held before and holds now.
abbrev pub relock : ℕ → Bool → Bool → Option ℕ → Option ℕ
relock i before now holder = if now then some i else if before then none else holder

abbrev pub place : System → ℕ → Task → Connection × Task → System
place s i t (c, t') = record {
  conn = c;
  state_lock = relock i (holds_state t) (holds_state t') s.state_lock;
  connection_lock = relock i (holds_connection t) (holds_connection t') s.connection_lock;
  tasks = set s.tasks i t';
}

-- A method is called, or a task gets a turn.
pub data Action : Type 0 where
  calls_begin calls_close : Action
  calls_end : Statement → Action
  turns : ℕ → Action

module _ (env : Env) where
  unfoldable pub move : System → ℕ → Task → System
  unfolding resume
  move s i t = elim (is_blocked s t) [ true ↦ s | false ↦ place s i t (resume env s.conn t) ]

  unfoldable pub turn : ℕ → System → System
  unfolding move
  turn i s = elim (get_elem? s.tasks i) [ none ↦ s | some t ↦ move s i t ]

  unfoldable pub act : Action → System → System
  unfolding turn
  act calls_begin s = record s { tasks = s.tasks ++ begins ∷ [] }
  act calls_close s = record s { tasks = s.tasks ++ closes ∷ [] }
  act (calls_end sql) s = record s { tasks = s.tasks ++ ends sql ∷ [] }
  act (turns i) s = turn i s

  unfoldable pub run_actions : List Action → System → System
  unfolding act
  run_actions [] s = s
  run_actions (a ∷ actions) s = run_actions actions (act a s)

-- A connection that no task uses.
abbrev pub at_rest : Connection → System
at_rest c = record { conn = c; state_lock = none; connection_lock = none; tasks = [] }
