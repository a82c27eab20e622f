-- ===== src/Transaction/Recovery.antt =====
-- What a failed end leaves, and how `close` recovers.
use rapsqlite.Prelude.{ℕ, ◌≡◌, refl, Bool, [], some, none, arith}
use rapsqlite.Outcome.{err, PyErr, SqlxError, Statement}
use rapsqlite.Types.{idle, active, is_exactly_active, is_active}
use rapsqlite.State.{Connection, Env, fail, do_execute}
use rapsqlite.Pool.{has_callbacks}
use rapsqlite.Transaction.{
  finish_with, commit, rollback, begin, transaction_enter, transaction_exit, close, clear_callbacks,
  end_open_transaction, close_pool, abandon,
}
use rapsqlite.Transaction.Settled.{IsSettled}
use rapsqlite.Transaction.Ending.{sent, finish_with-fail}

-- Active, with no connection: every way to go on is refused.
abbrev pub IsStuck : Connection → Type 0
IsStuck c = (c.transaction_state ≡ active) × (c.transaction_connection ≡ none)

module _ (env : Env) where
  -- When COMMIT fails, the connection is lost: the state stays active and the slot is empty.
  pub commit_fails-IsStuck :
      (c : Connection) (h : ℕ) (x : SqlxError)
      → c.transaction_state ≡ active
      → c.transaction_connection ≡ some h
      → env.execute (sent Statement.commit h c).trace ≡ fail x
      → ((commit env c).0 ≡ err (PyErr.mapped x Statement.commit)) × IsStuck (commit env c).1
  unfolding commit
  commit_fails-IsStuck c h x opened held e =
      let failed = finish_with-fail env Statement.commit (has_callbacks c) c h opened held x e in
      rw failed (refl, (opened, refl))

  -- From there no method that begins or ends a transaction does anything but fail.
  pub stuck_refuses :
      (c : Connection)
      → IsStuck c
      → (begin env c ≡ (err PyErr.transaction_in_progress, c))
        × (transaction_enter env c ≡ (err PyErr.transaction_in_progress, c))
        × (commit env c ≡ (err PyErr.no_transaction_connection, c))
        × (rollback env c ≡ (err PyErr.no_transaction_connection, c))
        × ((raised : Bool)
            → transaction_exit env raised c ≡ (err PyErr.no_transaction_connection, c))
  unfolding begin transaction_enter commit rollback transaction_exit finish_with is_active
      is_exactly_active
  stuck_refuses c stuck =
      (ground arith, ground arith, ground arith, ground arith, λ raised. ground arith)

  -- Closing a connection that is settled leaves it with no transaction, no connection in either slot, no
  -- pool, no user function, no trace callback, no authorizer and no progress handler, whatever ROLLBACK
  -- answers; whether extensions are enabled stays as it was.
  pub close_lem :
      (c : Connection)
      → IsSettled c
      → ((close env c).transaction_state ≡ idle)
        × ((close env c).transaction_connection ≡ none)
        × ((close env c).callback_connection ≡ none)
        × ((close env c).pool ≡ none)
        × ((close env c).user_functions ≡ [])
        × ((close env c).trace_callback ≡ none)
        × ((close env c).authorizer_callback ≡ none)
        × ((close env c).progress_handler ≡ none)
        × ((close env c).load_extension_enabled ≡ c.load_extension_enabled)
  unfolding close clear_callbacks end_open_transaction close_pool is_exactly_active abandon
      do_execute
  close_lem c s = ground arith

  -- Closing again does nothing.
  close_twice : (c : Connection) → IsSettled c → close env (close env c) ≡ close env c
  unfolding close clear_callbacks end_open_transaction close_pool is_exactly_active abandon
      do_execute
  close_twice c s = ground arith
