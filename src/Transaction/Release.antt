-- ===== src/Transaction/Release.antt =====
-- The other methods of src/connection.rs and src/context_managers.rs that take or hand back a
-- connection lose none either, and `close` hands back both.
use rapsqlite.Prelude.{ℕ, Bool, false, Bool-cases, ◌∷◌, inl, inr, Option, none, some, arith}
use rapsqlite.Prelude.Counting.{occurs}
use rapsqlite.Outcome.{Outcome, ok, err}
use rapsqlite.Types.{is_active}
use rapsqlite.State.{
  Connection, Env, Event, ◌>>=◌, Reply-cases, do_execute, do_acquire, receive, and_then,
}
use rapsqlite.Keeps.{Keeps, and_then-leads}
use rapsqlite.Pool.Steady.{HookKeeps}
use rapsqlite.Pool.Balance.{Balanced}
use rapsqlite.Transaction.{
  store_opened, end_enter, open_and_store, acquire_and_open, enter_body, transaction_enter, prepare,
  open_transaction, transaction_exit, commit, rollback, abandon, end_open_transaction,
  clear_callbacks, close_pool, close,
}
use rapsqlite.Transaction.Balance.{
  Offset, Offset-Steady, open_transaction-Keeps, prepare-Balanced, finish_with-Balanced,
}

store_opened-Balanced :
    (h k : ℕ) (r : Outcome (Unit {0}) × Connection)
    → Offset h (occurs h (some k)) r.1
    → Balanced h (store_opened k r).1
unfolding store_opened
store_opened-Balanced h k (ok u, c) b = ground arith
store_opened-Balanced h k (err e, c) b = omega arith

end_enter-Balanced :
    (h : ℕ) (r : Outcome (Unit {0}) × Connection) → Balanced h r.1 → Balanced h (end_enter r).1
unfolding end_enter
end_enter-Balanced h (ok u, c) b = b
end_enter-Balanced h (err e, c) b = ground arith

clear_callbacks-Balanced : (h : ℕ) (c : Connection) → Balanced h c → Balanced h (clear_callbacks c)
unfolding clear_callbacks
clear_callbacks-Balanced h c b = ground arith

close_pool-Balanced : (h : ℕ) (c : Connection) → Balanced h c → Balanced h (close_pool c)
unfolding close_pool
close_pool-Balanced h c b = ground arith

module _ (env : Env) (h : ℕ) where
  open_and_store-Balanced :
      (k : ℕ) (c : Connection)
      → Offset h (occurs h (some k)) c
      → Balanced h (open_and_store env k c).1
  unfolding open_and_store
  open_and_store-Balanced k c b =
      store_opened-Balanced h k (open_transaction env k c)
        ((open_transaction-Keeps env h (Offset-Steady h (occurs h (some k))) k).at c b)

  acquire_and_open-Balanced :
      (p : ℕ) (c : Connection) → Balanced h c → Balanced h (acquire_and_open env p c).1
  unfolding acquire_and_open ◌>>=◌ do_acquire
  acquire_and_open-Balanced p c b = elim (Reply-cases (env.acquire (Event.acquires p ∷ c.trace))) [
    | inl (k, e) ↦ rw (e, receive, and_then) (open_and_store-Balanced k _ (omega arith))
    | inr (x, e) ↦ rw (e, receive, and_then) b
  ]

  abandon-Balanced :
      (t : Option ℕ) (c : Connection) → Offset h (occurs h t) c → Balanced h (abandon env t c)
  unfolding abandon do_execute
  abandon-Balanced none c b = omega arith
  abandon-Balanced (some k) c b = ground arith

  end_open_transaction-Balanced :
      (c : Connection) → Balanced h c → Balanced h (end_open_transaction env c)
  unfolding end_open_transaction
  end_open_transaction-Balanced c b = ground (
    arith,
    abandon-Balanced c.transaction_connection (record c { transaction_connection = none })
        (omega arith),
  )

  -- `close`, whatever it finds open, hands back what it takes.
  pub close-Balanced : (c : Connection) → Balanced h c → Balanced h (close env c)
  unfolding close
  close-Balanced c b =
      let cleared = clear_callbacks c in
      close_pool-Balanced h (end_open_transaction env cleared)
        (end_open_transaction-Balanced cleared (clear_callbacks-Balanced h c b))

  pub commit-Balanced : Keeps (Balanced h) (commit env)
  unfolding commit
  commit-Balanced = record { at = λ c. (finish_with-Balanced env h _ _).at c }

  pub rollback-Balanced : Keeps (Balanced h) (rollback env)
  unfolding rollback
  rollback-Balanced = record { at = λ c. (finish_with-Balanced env h _ _).at c }

  pub transaction_exit-Balanced : (raised : Bool) → Keeps (Balanced h) (transaction_exit env raised)
  unfolding transaction_exit
  transaction_exit-Balanced raised = finish_with-Balanced env h _ false

module _ (env : Env) (h : ℕ) (hook : HookKeeps (Balanced h) env) where
  pub transaction_enter-Balanced : Keeps (Balanced h) (transaction_enter env)
  unfolding transaction_enter enter_body ◌>>=◌
  transaction_enter-Balanced = record {
    at = λ c b. elim (Bool-cases (is_active c.transaction_state)) [
      | inl on ↦ rw (on, transaction_enter) b
      | inr off ↦
          rw (off, transaction_enter)
            (end_enter-Balanced h (enter_body env c) (
              and_then-leads (prepare env c) (acquire_and_open env)
                ((prepare-Balanced env h hook).at c b) (λ _ b'. b')
                (acquire_and_open-Balanced env h)))
    ];
  }
