-- ===== src/Transaction/Settled.antt =====
-- At rest a connection is in the transaction slot only while a transaction is active, and no
-- reservation is left behind.
use rapsqlite.Prelude.{
  ℕ, Bool, true, false, Bool-cases, ◌≡◌, ◌≢◌, refl, ◌∙◌, [], inl, inr, none, is_some, Option-cases,
  arith,
}
use rapsqlite.Outcome.{Outcome, ok, err, Statement}
use rapsqlite.Types.{TransactionState, starting, active, is_active, is_exactly_active}
use rapsqlite.State.{Connection, Env, Done, Target, do_execute}
use rapsqlite.Keeps.{Keeps, OkHolds, Leads, Leads-bind, Leads-modify}
use rapsqlite.Transaction.{
  Begin, store_pending, begin_on_pending, begin_body, clean_up, end_begin, begin, start_begin,
  end_transaction, give_back, finish_with, store_opened, open_and_store, acquire_and_open,
  enter_body, end_enter, transaction_enter, end_open_transaction, clear_callbacks, close_pool,
  close, abandon, open_transaction,
}

pub record IsSettled (c : Connection) : Type 0 where
  pub no_reservation : c.transaction_state ≢ starting
  pub held_while_active : is_some c.transaction_connection ≡ true → c.transaction_state ≡ active

active-IsSettled : (c : Connection) → c.transaction_state ≡ active → IsSettled c
active-IsSettled c e = record { no_reservation = λ s. cc; held_while_active = λ _. e }

pub empty-IsSettled :
    (c : Connection)
    → c.transaction_state ≢ starting
    → c.transaction_connection ≡ none
    → IsSettled c
empty-IsSettled c ne e = record { no_reservation = ne; held_while_active = λ h. cc }

-- A transaction is active, and the slot holds its connection.
abbrev pub IsOpen : Connection → Type 0
IsOpen c = (c.transaction_state ≡ active) × (is_some c.transaction_connection ≡ true)

abbrev BeginOpen : Begin → Type 0
BeginOpen b = (b.conn.transaction_state ≡ active)

store_pending-open : (b : Begin) → BeginOpen (store_pending b)
unfolding store_pending
store_pending-open b = ground arith

clean_up-IsSettled : (b : Begin) → IsSettled (clean_up b)
unfolding clean_up
clean_up-IsSettled b = ground arith

set_callback-slots :
    (keep : Bool) (h : ℕ) (c : Connection)
    → (give_back keep h c).transaction_connection ≡ c.transaction_connection
unfolding give_back
set_callback-slots true h c = ground arith
set_callback-slots false h c = refl

end_begin-IsSettled :
    (r : Outcome (Unit {0}) × Begin) → OkHolds BeginOpen r → IsSettled (end_begin r).1
unfolding end_begin
end_begin-IsSettled (ok u, b) e = active-IsSettled _ (ground arith)
end_begin-IsSettled (err x, b) e = clean_up-IsSettled b

begin_body-open : (env : Env) → Leads BeginOpen (begin_body env)
unfolding begin_body begin_on_pending
begin_body-open env = Leads-bind _ _ λ p. Leads-bind _ _ λ _.
    Leads-bind _ _
      λ k. Leads-bind _ _ λ h. Leads-bind _ _ λ _. Leads-modify store_pending store_pending-open

module _ (env : Env) where
  -- Whatever the hook and the environment do, `begin` leaves the connection settled.
  pub begin-IsSettled : Keeps IsSettled (begin env)
  unfolding begin
  begin-IsSettled = record {
    at = λ c s. elim (Bool-cases (is_active c.transaction_state)) [
      | inl on ↦ rw (on, begin) s
      | inr off ↦
          rw (off, begin)
            (end_begin-IsSettled (begin_body env (start_begin c))
              ((begin_body-open env).at (start_begin c)))
    ];
  }

store_opened-active :
    (h : ℕ) (r : Outcome (Unit {0}) × Connection)
    → OkHolds (λ c. c.transaction_state ≡ active) (store_opened h r)
unfolding store_opened
store_opened-active h (ok u, c) = refl
store_opened-active h (err e, c) = tt

end_enter-IsSettled :
    (r : Outcome (Unit {0}) × Connection)
    → OkHolds (λ c. c.transaction_state ≡ active) r
    → IsSettled (end_enter r).1
unfolding end_enter
end_enter-IsSettled (ok u, c) e = active-IsSettled c e
end_enter-IsSettled (err x, c) e = empty-IsSettled _ (λ s. cc) refl

enter_body-active : (env : Env) → Leads (λ c. c.transaction_state ≡ active) (enter_body env)
unfolding enter_body acquire_and_open open_and_store
enter_body-active env =
    Leads-bind _ _
      λ p. Leads-bind _ _ λ h. record { at = λ c. store_opened-active h (open_transaction env h c) }

end_transaction-IsSettled :
    (keep : Bool) (h : ℕ) (r : Outcome Done × Connection)
    → (r.1.transaction_state ≡ active) × (r.1.transaction_connection ≡ none)
    → IsSettled (end_transaction keep h r).1
unfolding end_transaction
end_transaction-IsSettled keep h (ok d, c) e =
    empty-IsSettled _ (λ s. cc) (set_callback-slots keep h c ∙ e.1)
end_transaction-IsSettled keep h (err x, c) e = active-IsSettled _ e.0

-- A statement leaves the slots and the state.
pub do_execute-slots :
    (env : Env) (target : Target) (sql : Statement) (c : Connection)
    → let c' = (do_execute env target sql [] c).1 in
      (c'.transaction_state ≡ c.transaction_state)
      × (c'.transaction_connection ≡ c.transaction_connection)
unfolding do_execute
do_execute-slots env target sql c = ground arith

pub exactly_active : (s : TransactionState) → is_exactly_active s ≡ true → s ≡ active
unfolding is_exactly_active
exactly_active s e = ground arith

module _ (env : Env) where
  pub finish_with-IsSettled :
      (sql : Statement) (keep : Bool) → Keeps IsSettled (finish_with env sql keep)
  unfolding finish_with
  finish_with-IsSettled sql keep = record {
    at = λ c s. elim (Bool-cases (is_exactly_active c.transaction_state)) [
      | inr off ↦ rw (off, finish_with) s
      | inl on ↦ elim (Option-cases c.transaction_connection) [
        | inl e ↦ rw (on, e, finish_with) s
        | inr (h, e) ↦
            let slots =
              do_execute-slots env (Target.on_connection h) sql
                (record c { transaction_connection = none }) in
            rw (on, e, finish_with)
              (end_transaction-IsSettled keep h
                (do_execute env (Target.on_connection h) sql []
                  (record c { transaction_connection = none }))
                (slots.0 ∙ exactly_active _ on, slots.1))
      ]
    ];
  }

  pub transaction_enter-IsSettled : Keeps IsSettled (transaction_enter env)
  unfolding transaction_enter
  transaction_enter-IsSettled = record {
    at = λ c s. elim (Bool-cases (is_active c.transaction_state)) [
      | inl on ↦ rw (on, transaction_enter) s
      | inr off ↦
          rw (off, transaction_enter)
            (end_enter-IsSettled (enter_body env c) ((enter_body-active env).at c))
    ];
  }

  pub close-IsSettled : (c : Connection) → IsSettled c → IsSettled (close env c)
  unfolding close clear_callbacks end_open_transaction close_pool is_exactly_active abandon
      do_execute
  close-IsSettled c s = ground arith
