-- ===== src/Transaction.antt =====
-- src/connection.rs: `begin`, `commit`, `rollback`, `in_transaction`, `close` and `__aexit__`;
-- src/context_managers.rs: `TransactionContextManager`. Each method runs here with no other task
-- between its steps.
pub mod Balance
pub mod Release
pub mod Settled
pub mod Phases
pub mod Ending
pub mod Recovery
pub mod Opening
use rapsqlite.Prelude.{ℕ, ◌/◌, Bool, true, false, [], Option, none, some, if◌then◌else◌}
use rapsqlite.Outcome.{Outcome, ok, err, PyErr, Statement}
use rapsqlite.Types.{idle, starting, active, is_active, is_exactly_active}
use rapsqlite.State.{
  Connection, Env, Event, Target, Done, M, ◌>>=◌, ◌>>◌, pure, gets, require, modify, log,
  do_acquire, do_execute, do_drop, drop_held,
}
use rapsqlite.Pool.{
  has_callbacks, get_or_create_pool, ensure_callback_connection, execute_init_hook_if_needed,
}

-- `*callback_connection.lock() = Some(conn)`: what was there is dropped.
unfoldable pub set_callback : ℕ → Connection → Connection
set_callback h c = record (drop_held c.callback_connection c) { callback_connection = some h }

-- `*transaction_connection.lock() = conn`.
unfoldable pub set_transaction : Option ℕ → Connection → Connection
set_transaction conn c = record (drop_held c.transaction_connection c) {
  transaction_connection = conn;
}

-- Reserving the slot: the state is tested again, since the hook may have begun a transaction.
unfoldable pub reserve : M Connection (Unit {0})
unfolding is_active
reserve c = elim (is_active c.transaction_state) [
  | true ↦ (err PyErr.transaction_in_progress, c)
  | false ↦ (ok tt, record c { transaction_state = starting })
]

-- A timeout in microseconds, as SQLite takes it.
unfoldable pub timeout_ms : Connection → ℕ
timeout_ms c = c.timeout / 1000

module _ (env : Env) where
  -- `PRAGMA busy_timeout` and `BEGIN IMMEDIATE`.
  unfoldable pub open_transaction : ℕ → M Connection (Unit {0})
  unfolding timeout_ms
  open_transaction h = do
    ms ← gets timeout_ms
    _ ← do_execute env (Target.on_connection h) (Statement.busy_timeout ms) []
    _ ← do_execute env (Target.on_connection h) Statement.begin_immediate []
    pure tt

-- The connection, and the two local variables of `begin` that its cleanup reads.
pub record Begin : Type 0 where
  pub conn : Connection
  pub from_callback : Bool
  pub pending_conn : Option ℕ

abbrev pub put_back {ℓ} : {A : Type ℓ} → Begin → Outcome A × Connection → Outcome A × Begin
put_back b (r, c) = (r, record b { conn = c })

unfoldable pub within : {A : Type 0} → M Connection A → M Begin A
within m b = put_back b (m b.conn)

-- The callback connection leaves its slot for the transaction.
unfoldable pub take_callback : M Begin (Unit {0})
take_callback b = elim b.conn.callback_connection [
  | none ↦ (err PyErr.no_callback_connection, b)
  | some h ↦ (
    ok tt,
    record b { conn = record b.conn { callback_connection = none }; pending_conn = some h },
  )
]

-- The two assignments that end `begin`.
unfoldable pub store_pending : Begin → Begin
unfolding set_transaction
store_pending b = record b {
  conn = record (set_transaction b.pending_conn b.conn) { transaction_state = active };
  pending_conn = none;
}

module _ (env : Env) where
  unfoldable pub pend_from_callback : M Begin (Unit {0})
  unfolding take_callback
  pend_from_callback = do
    modify λ b. record b { from_callback = true }
    within (ensure_callback_connection env)
    take_callback

  unfoldable pub pend_from_pool : ℕ → M Begin (Unit {0})
  pend_from_pool p = do
    h ← within (do_acquire env p)
    modify λ b. record b { pending_conn = some h }

  unfoldable pub pend : ℕ → M Begin (Unit {0})
  pend p b = elim (has_callbacks b.conn) [
    | true ↦ pend_from_callback b
    | false ↦ pend_from_pool p b
  ]

  -- The statements on the pending connection, then the assignments.
  unfoldable pub begin_on_pending : M Begin (Unit {0})
  begin_on_pending = do
    pending ← gets λ b. b.pending_conn
    h ← require pending PyErr.panic
    within (open_transaction env h)
    modify store_pending

  -- The pool, the hook, and the reservation, in this order.
  unfoldable pub prepare : M Connection ℕ
  prepare = do p ← get_or_create_pool env; execute_init_hook_if_needed env; reserve; pure p

  unfoldable pub begin_body : M Begin (Unit {0})
  begin_body = do p ← within prepare; pend p; begin_on_pending

-- Back to the callback slot if it came from there, and otherwise to the pool.
unfoldable pub give_back : Bool → ℕ → Connection → Connection
unfolding set_callback
give_back true h c = set_callback h c
give_back false h c = do_drop h c

-- `transaction_connection.take().or_else(|| pending_conn.take())`, and the end of the scope.
unfoldable pub clean_up : Begin → Connection
unfolding give_back
clean_up b =
    let c = record b.conn { transaction_state = idle; transaction_connection = none } in
    elim b.conn.transaction_connection [
      | some h ↦ drop_held b.pending_conn (give_back b.from_callback h c)
      | none ↦ elim b.pending_conn [ some h ↦ give_back b.from_callback h c | none ↦ c ]
    ]

abbrev pub start_begin : Connection → Begin
start_begin c = record { conn = c; from_callback = false; pending_conn = none }

unfoldable pub end_begin : Outcome (Unit {0}) × Begin → Outcome (Unit {0}) × Connection
unfolding clean_up
end_begin (ok _, b) = (ok tt, drop_held b.pending_conn b.conn)
end_begin (err e, b) = (err e, clean_up b)

module _ (env : Env) where
  unfoldable pub begin : M Connection (Unit {0})
  unfolding end_begin
  begin c = elim (is_active c.transaction_state) [
    | true ↦ (err PyErr.transaction_in_progress, c)
    | false ↦ end_begin (begin_body env (start_begin c))
  ]

-- What `commit` and `rollback` do when their statement returns: on an error the connection is dropped
-- by the end of its scope, and the state is left.
unfoldable pub end_transaction :
    Bool → ℕ → Outcome Done × Connection → Outcome (Unit {0}) × Connection
unfolding give_back
end_transaction keep h (ok _, c) = (ok tt, record (give_back keep h c) { transaction_state = idle })
end_transaction keep h (err e, c) = (err e, do_drop h c)

module _ (env : Env) where
  -- The body that `commit`, `rollback` and the context manager's exit share.
  unfoldable pub finish_with : Statement → Bool → M Connection (Unit {0})
  unfolding end_transaction is_exactly_active
  finish_with sql keep c = elim (is_exactly_active c.transaction_state) [
    | false ↦ (err PyErr.no_transaction, c)
    | true ↦ elim c.transaction_connection [
      | none ↦ (err PyErr.no_transaction_connection, c)
      | some h ↦ end_transaction keep h (
          do_execute env (Target.on_connection h) sql []
            (record c { transaction_connection = none }))
    ]
  ]

  unfoldable pub commit : M Connection (Unit {0})
  unfolding finish_with
  commit c = finish_with Statement.commit (has_callbacks c) c

  unfoldable pub rollback : M Connection (Unit {0})
  unfolding finish_with
  rollback c = finish_with Statement.rollback (has_callbacks c) c

unfoldable pub in_transaction : Connection → Bool
unfolding is_exactly_active
in_transaction c = is_exactly_active c.transaction_state

-- The local `conn` of `TransactionContextManager::__aenter__`: dropped where a `?` leaves, stored at
-- the end.
unfoldable pub store_opened : ℕ → Outcome (Unit {0}) × Connection → Outcome (Unit {0}) × Connection
unfolding set_transaction
store_opened h (ok _, c) =
    (ok tt, record (set_transaction (some h) c) { transaction_state = active })
store_opened h (err e, c) = (err e, do_drop h c)

unfoldable pub end_enter : Outcome (Unit {0}) × Connection → Outcome (Unit {0}) × Connection
end_enter (ok _, c) = (ok tt, c)
end_enter (err e, c) = (
  err e,
  record (drop_held c.transaction_connection c) {
    transaction_state = idle;
    transaction_connection = none;
  },
)

-- The callbacks are forgotten, and their connection is dropped.
unfoldable pub clear_callbacks : Connection → Connection
clear_callbacks c = record (drop_held c.callback_connection c) {
  user_functions = [];
  trace_callback = none;
  authorizer_callback = none;
  progress_handler = none;
  callback_connection = none;
}

unfoldable pub close_pool : Connection → Connection
close_pool c = elim c.pool [ none ↦ c | some p ↦ record (log (Event.closes p) c) { pool = none } ]

module _ (env : Env) where
  unfoldable pub open_and_store : ℕ → M Connection (Unit {0})
  unfolding store_opened
  open_and_store h c = store_opened h (open_transaction env h c)

  unfoldable pub acquire_and_open : ℕ → M Connection (Unit {0})
  acquire_and_open p = do h ← do_acquire env p; open_and_store h

  unfoldable pub enter_body : M Connection (Unit {0})
  enter_body = do p ← prepare env; acquire_and_open p

  -- `TransactionContextManager::__aenter__`.
  unfoldable pub transaction_enter : M Connection (Unit {0})
  unfolding end_enter
  transaction_enter c = elim (is_active c.transaction_state) [
    | true ↦ (err PyErr.transaction_in_progress, c)
    | false ↦ end_enter (enter_body c)
  ]

  -- `TransactionContextManager::__aexit__`; the flag is `exc_type.is_some()`.
  unfoldable pub transaction_exit : Bool → M Connection (Unit {0})
  unfolding finish_with
  transaction_exit raised =
      finish_with env (if raised then Statement.rollback else Statement.commit) false

  -- `ROLLBACK`, whose result is ignored, and the drop of the connection.
  unfoldable pub abandon : Option ℕ → Connection → Connection
  abandon none c = c
  abandon (some h) c = do_drop h (do_execute env (Target.on_connection h) Statement.rollback [] c).1

  unfoldable pub end_open_transaction : Connection → Connection
  unfolding abandon
  end_open_transaction c = elim (is_exactly_active c.transaction_state) [
    | false ↦ c
    | true ↦
        record (abandon c.transaction_connection (record c { transaction_connection = none })) {
          transaction_state = idle;
        }
  ]

  -- `close`, and `__aexit__`, which has the same body.
  unfoldable pub close : Connection → Connection
  unfolding clear_callbacks end_open_transaction close_pool
  close c = close_pool (end_open_transaction (clear_callbacks c))
