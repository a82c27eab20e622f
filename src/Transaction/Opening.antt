-- ===== src/Transaction/Opening.antt =====
-- What a `begin` that succeeds has done.
use rapsqlite.Prelude.{
  ℕ, ◌≡◌, refl, ap, ◌∙◌, true, false, Bool-cases, [], some, none, Option, Option-cases, inl, inr,
  List, ◌∷◌, arith,
}
use rapsqlite.Outcome.{Outcome, ok, err, PyErr, Statement}
use rapsqlite.Types.{PyObject, idle, starting, active, is_active}
use rapsqlite.Pool.{has_callbacks, get_or_create_pool, execute_init_hook_if_needed, run_hook}
use rapsqlite.State.{
  Connection, Env, Event, Target, ◌>>=◌, and_then, gets, require, modify, answer, receive, Done,
  reply, effects,
}
use rapsqlite.Keeps.{Leads, Leads-bind, OkHolds}
use rapsqlite.Transaction.{
  Begin, begin, begin_body, begin_on_pending, store_pending, set_transaction, within, put_back,
  open_transaction, start_begin, end_begin, prepare, reserve, clean_up, give_back, timeout_ms, pend,
  pend_from_pool,
}
use rapsqlite.Transaction.Settled.{IsOpen}

store_pending-IsOpen :
    (h : ℕ) (r : Outcome (Unit {0}) × Connection) (b : Begin)
    → b.pending_conn ≡ some h
    → OkHolds
        (λ b. IsOpen b.conn × (b.pending_conn ≡ none))
        (and_then (put_back b r) (λ _. modify store_pending))
unfolding store_pending set_transaction and_then modify
store_pending-IsOpen h (ok u, c) b e = (ground arith, ground arith)
store_pending-IsOpen h (err x, c) b e = tt

begin_on_pending-eq :
    (env : Env) (o : Option ℕ) (b : Begin)
    → b.pending_conn ≡ o
    → begin_on_pending env b
      ≡ and_then (require o PyErr.panic b) (λ h b'.
        and_then (put_back b' (open_transaction env h b'.conn)) (λ _. modify store_pending))
unfolding begin_on_pending ◌>>=◌ and_then gets within
begin_on_pending-eq env o b e =
    ap
      (λ p. and_then (require p PyErr.panic b) (λ h b'.
        and_then (put_back b' (open_transaction env h b'.conn)) (λ _. modify store_pending)))
      e

begin_on_pending-IsOpen :
    (env : Env) → Leads (λ b. IsOpen b.conn × (b.pending_conn ≡ none)) (begin_on_pending env)
unfolding require and_then
begin_on_pending-IsOpen env = record {
  at = λ b. elim (Option-cases b.pending_conn) [
    | inl e ↦ rw (begin_on_pending-eq env none b e) tt
    | inr (h, e) ↦
        rw (begin_on_pending-eq env (some h) b e)
          (store_pending-IsOpen h (open_transaction env h b.conn) b e)
  ];
}

begin_body-IsOpen :
    (env : Env) → Leads (λ b. IsOpen b.conn × (b.pending_conn ≡ none)) (begin_body env)
unfolding begin_body
begin_body-IsOpen env = Leads-bind _ _ λ p. Leads-bind _ _ λ _. begin_on_pending-IsOpen env

end_begin-IsOpen :
    (r : Outcome (Unit {0}) × Begin)
    → OkHolds (λ b. IsOpen b.conn × (b.pending_conn ≡ none)) r
    → OkHolds IsOpen (end_begin r)
unfolding end_begin
end_begin-IsOpen (ok u, b) e = rw e.1 e.0
end_begin-IsOpen (err x, b) e = tt

-- When `begin` succeeds, the transaction is active and a connection is in its slot: `commit` and
-- `rollback` then find one.
pub begin-IsOpen : (env : Env) (c : Connection) → OkHolds IsOpen (begin env c)
unfolding begin
begin-IsOpen env c = elim (Bool-cases (is_active c.transaction_state)) [
  | inl on ↦ rw (on, begin) tt
  | inr off ↦ rw (off, begin) (end_begin-IsOpen _ ((begin_body-IsOpen env).at (start_begin c)))
]

-- The hook begins a transaction of its own: the second test finds it, and the cleanup of the outer
-- `begin` then takes away the connection of that transaction.
abbrev HookBegins : Env → Connection → PyObject → Connection → Type 0
HookBegins env c hook c' = env.call_hook hook (record c { init_hook_called = true }) ≡ (ok tt, c')

begin_body-hook :
    (env : Env) (c c' : Connection) (hook : PyObject) (p : ℕ)
    → c.pool ≡ some p
    → c.init_hook_called ≡ false
    → c.init_hook ≡ some hook
    → HookBegins env c hook c'
    → IsOpen c'
    → begin_body env (start_begin c) ≡ (err PyErr.transaction_in_progress, start_begin c')
unfolding begin_body prepare within get_or_create_pool execute_init_hook_if_needed run_hook reserve
    is_active effects
begin_body-hook env c c' hook p pool fresh hooked begun opened = ground arith

-- On a connection whose pool exists already, which is in no transaction and whose hook has not been run:
-- when `begin` runs the initialisation hook and the hook leaves a transaction active with its connection
-- in the slot, the outer call fails, and its cleanup ends the transaction of the hook and drops its
-- connection, with no ROLLBACK.
pub begin_loses_hook_transaction :
    (env : Env) (c c' : Connection) (hook : PyObject) (p h : ℕ)
    → c.transaction_state ≡ idle
    → c.pool ≡ some p
    → c.init_hook_called ≡ false
    → c.init_hook ≡ some hook
    → env.call_hook hook (record c { init_hook_called = true }) ≡ (ok tt, c')
    → c'.transaction_state ≡ active
    → c'.transaction_connection ≡ some h
    → begin env c ≡ (
      err PyErr.transaction_in_progress,
      record c' {
        transaction_state = idle;
        transaction_connection = none;
        trace = Event.drops h ∷ c'.trace;
      },
    )
unfolding begin end_begin clean_up give_back is_active
begin_loses_hook_transaction env c c' hook p h at_rest pool fresh hooked begun opened held =
    ground (arith, begin_body-hook env c c' hook p pool fresh hooked begun (opened, rw held refl))

-- The trace of a `begin` that takes its connection from the pool, up to each of its three calls.
abbrev pub acquiring : ℕ → Connection → List Event
acquiring p c = Event.acquires p ∷ c.trace

abbrev pub setting_timeout : ℕ → ℕ → Connection → List Event
setting_timeout p h c =
    Event.executes (Target.on_connection h) (Statement.busy_timeout (timeout_ms c)) []
    ∷ Event.acquired h
    ∷ acquiring p c

abbrev pub beginning : ℕ → ℕ → Connection → List Event
beginning p h c =
    Event.executes (Target.on_connection h) Statement.begin_immediate [] ∷ setting_timeout p h c

prepare-ok :
    (env : Env) (c : Connection) (p : ℕ)
    → c.transaction_state ≡ idle
    → c.pool ≡ some p
    → c.init_hook ≡ none
    → prepare env c ≡ (ok p, record c { transaction_state = starting })
unfolding prepare get_or_create_pool execute_init_hook_if_needed reserve is_active effects
prepare-ok env c p at_rest pool hook = ground arith

pend-ok :
    (env : Env) (c : Connection) (p h : ℕ)
    → has_callbacks c ≡ false
    → env.acquire (acquiring p c) ≡ reply h
    → pend env p (start_begin (record c { transaction_state = starting })) ≡ (
      ok tt,
      record {
        conn = record c { transaction_state = starting; trace = Event.acquired h ∷ acquiring p c };
        from_callback = false;
        pending_conn = some h;
      },
    )
unfolding pend pend_from_pool within receive has_callbacks effects
pend-ok env c p h none_set acquires = ground arith

open_transaction-ok :
    (env : Env) (c : Connection) (h : ℕ) (d₁ d₂ : Done) (first second : List Event)
    → first
      ≡ Event.executes (Target.on_connection h) (Statement.busy_timeout (timeout_ms c)) [] ∷ c.trace
    → second ≡ Event.executes (Target.on_connection h) Statement.begin_immediate [] ∷ first
    → env.execute first ≡ reply d₁
    → env.execute second ≡ reply d₂
    → open_transaction env h c ≡ (ok tt, record c { trace = second })
unfolding open_transaction answer effects
open_transaction-ok env c h d₁ d₂ first second e f g k = ground arith

-- A `begin` with its connection pending, and the connection that it has then.
abbrev pending : ℕ → ℕ → Connection → Begin
pending p h c = record {
  conn = record c { transaction_state = starting; trace = Event.acquired h ∷ acquiring p c };
  from_callback = false;
  pending_conn = some h;
}

begin-eq :
    (env : Env) (c : Connection)
    → c.transaction_state ≡ idle
    → begin env c ≡ end_begin (begin_body env (start_begin c))
unfolding begin is_active
begin-eq env c at_rest = ground arith

pended-ok :
    (env : Env) (c : Connection) (p h : ℕ)
    → c.transaction_state ≡ idle
    → c.pool ≡ some p
    → c.init_hook ≡ none
    → has_callbacks c ≡ false
    → env.acquire (acquiring p c) ≡ reply h
    → begin_body env (start_begin c) ≡ begin_on_pending env (pending p h c)
unfolding begin_body within ◌>>=◌ and_then
pended-ok env c p h at_rest pool hook none_set acquires =
    ap
      (λ (x : Outcome ℕ × Connection).
        and_then (put_back (start_begin c) x)
          (λ q b. and_then (pend env q b) (λ _. begin_on_pending env)))
      (prepare-ok env c p at_rest pool hook)
    ∙ ap (λ (x : Outcome (Unit {0}) × Begin). and_then x (λ _. begin_on_pending env))
        (pend-ok env c p h none_set acquires)

opened_on_pending :
    (env : Env) (c : Connection) (p h : ℕ) (d₁ d₂ : Done)
    → env.execute (setting_timeout p h c) ≡ reply d₁
    → env.execute (beginning p h c) ≡ reply d₂
    → begin_on_pending env (pending p h c) ≡ (
      ok tt,
      store_pending (record (pending p h c) {
        conn = record c { transaction_state = starting; trace = beginning p h c };
      }),
    )
unfolding require and_then modify timeout_ms
opened_on_pending env c p h d₁ d₂ first second =
    begin_on_pending-eq env (some h) (pending p h c) refl
    ∙ ap
        (λ (x : Outcome (Unit {0}) × Connection).
          and_then (put_back (pending p h c) x) (λ _. modify store_pending))
        (open_transaction-ok env (pending p h c).conn h d₁ d₂ (setting_timeout p h c)
          (beginning p h c) refl refl first second)

-- With a pool, no callbacks, no hook to run and no transaction, `begin` succeeds when the pool hands out a
-- connection and its two statements succeed: it sets the timeout and begins on that connection, in this
-- order, and the connection is then in the slot.
pub begin_succeeds :
    (env : Env) (c : Connection) (p h : ℕ) (d₁ d₂ : Done)
    → c.transaction_state ≡ idle
    → c.transaction_connection ≡ none
    → c.pool ≡ some p
    → c.init_hook ≡ none
    → has_callbacks c ≡ false
    → env.acquire (acquiring p c) ≡ reply h
    → env.execute (setting_timeout p h c) ≡ reply d₁
    → env.execute (beginning p h c) ≡ reply d₂
    → begin env c ≡ (
      ok tt,
      record c {
        transaction_state = active;
        transaction_connection = some h;
        trace = beginning p h c;
      },
    )
unfolding end_begin store_pending set_transaction
begin_succeeds env c p h d₁ d₂ at_rest slot pool hook none_set acquires first second =
    begin-eq env c at_rest
    ∙ ap end_begin (
        pended-ok env c p h at_rest pool hook none_set acquires
        ∙ opened_on_pending env c p h d₁ d₂ first second)
    ∙ ground arith
