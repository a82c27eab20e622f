-- ===== src/Transaction/Phases.antt =====
-- The phases of a connection, and how a transaction method moves between them.
use rapsqlite.Prelude.{
  ℕ, ◌≡◌, ◌⊎◌, refl, sym, ap, ◌∙◌, Bool, true, false, Bool-cases, [], inl, inr, Option, none, some,
  Option-cases, arith,
}
use mathlib.Core.Path.{subst}
use rapsqlite.Outcome.{Outcome, ok, err, Statement}
use rapsqlite.Types.{TransactionState, idle, starting, active, is_active, is_exactly_active}
use rapsqlite.State.{Connection, Env, Target, Done, do_execute, drop_held}
use rapsqlite.Keeps.{Leads, Leads-bind, OkHolds}
use rapsqlite.Transaction.{
  Begin, begin, begin_body, start_begin, end_begin, clean_up, give_back, set_transaction,
  store_opened, end_enter, enter_body, acquire_and_open, open_and_store, open_transaction,
  transaction_enter, end_transaction, finish_with, close, clear_callbacks, end_open_transaction,
  close_pool, abandon, set_callback,
}
use rapsqlite.Transaction.Settled.{IsOpen, do_execute-slots, exactly_active}
use rapsqlite.Transaction.Opening.{begin-IsOpen}

-- `stuck`: active with no connection, after a COMMIT or ROLLBACK that failed.
pub data Phase : Type 0 where
  closed opened stuck : Phase

abbrev pub phase_of : TransactionState → Option ℕ → Phase
phase_of idle slot = closed
phase_of starting slot = closed
phase_of active none = stuck
phase_of active (some h) = opened

abbrev pub phase : Connection → Phase
phase c = phase_of c.transaction_state c.transaction_connection

open_phase : (c : Connection) → IsOpen c → phase c ≡ opened
open_phase c o = ground arith

clean_up-closed : (b : Begin) → phase (clean_up b) ≡ closed
unfolding clean_up give_back set_callback
clean_up-closed b = ground arith

-- Failing from the closed phase goes back to it.
end_begin-phase :
    (r : Outcome (Unit {0}) × Begin)
    → OkHolds IsOpen (end_begin r)
    → (phase (end_begin r).1 ≡ opened) ⊎ (phase (end_begin r).1 ≡ closed)
unfolding end_begin
end_begin-phase (ok u, b) o = inl (open_phase (drop_held b.pending_conn b.conn) o)
end_begin-phase (err e, b) o = inr (clean_up-closed b)

off_closed : (c : Connection) → is_active c.transaction_state ≡ false → phase c ≡ closed
unfolding is_active
off_closed c off = ground arith

-- Calls that can only open, and calls that can only end.
abbrev pub Opens : Phase → Phase → Type 0
Opens p q = (q ≡ p) ⊎ ((p ≡ closed) × (q ≡ opened))

abbrev pub Ends : Phase → Phase → Type 0
Ends p q = (q ≡ p) ⊎ ((p ≡ opened) × ((q ≡ closed) ⊎ (q ≡ stuck)))

settle_phase : (p q : Phase) → p ≡ closed → (q ≡ opened) ⊎ (q ≡ closed) → Opens p q
settle_phase p q e (inl o) = inr (e, o)
settle_phase p q e (inr s) = inl (s ∙ sym e)

begin-eq :
    (env : Env) (c : Connection)
    → is_active c.transaction_state ≡ false
    → begin env c ≡ end_begin (begin_body env (start_begin c))
unfolding begin
begin-eq env c off = rw (off, begin) refl

pub begin-Opens : (env : Env) (c : Connection) → Opens (phase c) (phase (begin env c).1)
unfolding begin
begin-Opens env c = elim (Bool-cases (is_active c.transaction_state)) [
  | inl on ↦ rw (on, begin) (inl refl)
  | inr off ↦ settle_phase (phase c) (phase (begin env c).1) (off_closed c off) (
      rw (begin-eq env c off) (
        end_begin-phase (begin_body env (start_begin c))
          (subst (λ r. OkHolds IsOpen r) (begin-eq env c off) (begin-IsOpen env c))))
]

store_opened-IsOpen :
    (h : ℕ) (r : Outcome (Unit {0}) × Connection) → OkHolds IsOpen (store_opened h r)
unfolding store_opened set_transaction
store_opened-IsOpen h (ok u, c) = (refl, refl)
store_opened-IsOpen h (err e, c) = tt

enter_body-IsOpen : (env : Env) → Leads IsOpen (enter_body env)
unfolding enter_body acquire_and_open open_and_store
enter_body-IsOpen env =
    Leads-bind _ _
      λ p. Leads-bind _ _ λ h. record { at = λ c. store_opened-IsOpen h (open_transaction env h c) }

end_enter-phase :
    (r : Outcome (Unit {0}) × Connection)
    → OkHolds IsOpen r
    → (phase (end_enter r).1 ≡ opened) ⊎ (phase (end_enter r).1 ≡ closed)
unfolding end_enter
end_enter-phase (ok u, c) o = inl (open_phase c o)
end_enter-phase (err e, c) o = inr refl

transaction_enter-eq :
    (env : Env) (c : Connection)
    → is_active c.transaction_state ≡ false
    → transaction_enter env c ≡ end_enter (enter_body env c)
unfolding transaction_enter
transaction_enter-eq env c off = rw (off, transaction_enter) refl

pub transaction_enter-Opens :
    (env : Env) (c : Connection) → Opens (phase c) (phase (transaction_enter env c).1)
unfolding transaction_enter
transaction_enter-Opens env c = elim (Bool-cases (is_active c.transaction_state)) [
  | inl on ↦ rw (on, transaction_enter) (inl refl)
  | inr off ↦ settle_phase (phase c) (phase (transaction_enter env c).1) (off_closed c off) (
      rw (transaction_enter-eq env c off)
        (end_enter-phase (enter_body env c) ((enter_body-IsOpen env).at c)))
]

end_transaction-phase :
    (keep : Bool) (h : ℕ) (r : Outcome Done × Connection)
    → (r.1.transaction_state ≡ active) × (r.1.transaction_connection ≡ none)
    → (phase (end_transaction keep h r).1 ≡ closed) ⊎ (phase (end_transaction keep h r).1 ≡ stuck)
unfolding end_transaction
end_transaction-phase keep h (ok d, c) e = inl refl
end_transaction-phase keep h (err x, c) e = inr (ground arith)

finish_with-phase :
    (env : Env) (sql : Statement) (keep : Bool) (c : Connection) (h : ℕ)
    → is_exactly_active c.transaction_state ≡ true
    → c.transaction_connection ≡ some h
    → (phase (finish_with env sql keep c).1 ≡ closed)
      ⊎ (phase (finish_with env sql keep c).1 ≡ stuck)
unfolding finish_with
finish_with-phase env sql keep c h on e =
    let released = record c { transaction_connection = none } in
    let slots = do_execute-slots env (Target.on_connection h) sql released in
    rw (on, e, finish_with)
      (end_transaction-phase keep h (do_execute env (Target.on_connection h) sql [] released)
        (slots.0 ∙ exactly_active _ on, slots.1))

pub finish_with-Ends :
    (env : Env) (sql : Statement) (keep : Bool) (c : Connection)
    → Ends (phase c) (phase (finish_with env sql keep c).1)
unfolding finish_with is_exactly_active
finish_with-Ends env sql keep c = elim (Bool-cases (is_exactly_active c.transaction_state)) [
  | inr off ↦ inl (rw (off, finish_with) refl)
  | inl on ↦ elim (Option-cases c.transaction_connection) [
    | inl e ↦ inl (rw (on, e, finish_with) (ap (phase_of c.transaction_state) e))
    | inr (h, e) ↦ inr (ground (arith, on, e), finish_with-phase env sql keep c h on e)
  ]
]

pub close-closed : (env : Env) (c : Connection) → phase (close env c) ≡ closed
unfolding close clear_callbacks end_open_transaction close_pool is_exactly_active abandon do_execute
close-closed env c = ground arith
