-- ===== src/Changes.antt =====
-- src/connection.rs: `total_changes`.
pub mod Keeping
use rapsqlite.Prelude.{ℕ, ◌+◌, ◌-◌, ◌^◌, Bool, true, false, Option}
use rapsqlite.Prelude.Int.{ℤ, pos, negsuc}
use rapsqlite.Outcome.{Outcome, ok, err, PyErr, CCall}
use rapsqlite.Transaction.{in_transaction}
use rapsqlite.State.{Connection, Env, M, ◌>>=◌, ◌>>◌, pure, gets, require, do_acquire, do_drop}
use rapsqlite.Pool.{has_callbacks, get_or_create_pool}
use rapsqlite.Callbacks.{do_lock, do_c_call, callback_handle}

-- `total as u64`, of an `i32`.
abbrev pub as_u64 : ℤ → ℕ
as_u64 (pos n) = n
as_u64 (negsuc n) = 2 ^ 64 - (n + 1)

module _ (env : Env) where
  unfoldable pub count_changes : ℕ → M Connection ℕ
  unfolding do_lock do_c_call
  count_changes h = do
    do_lock env h
    total ← do_c_call env h CCall.counts_changes
    pure (as_u64 total)

  -- The drop of the temporary connection, on every path.
  abbrev pub dropping : ℕ → Outcome ℕ × Connection → Outcome ℕ × Connection
  dropping h (r, c) = (r, do_drop h c)

  unfoldable pub count_and_drop : ℕ → M Connection ℕ
  unfolding count_changes
  count_and_drop h c = dropping h (count_changes h c)

  -- The connection of the transaction, else that of the callbacks, else one of the pool for a moment.
  unfoldable pub count_on_route : Bool → Bool → M Connection ℕ
  unfolding count_and_drop callback_handle
  count_on_route true callbacks = do
    slot ← gets λ c. c.transaction_connection
    h ← require slot PyErr.no_transaction_connection
    count_changes h
  count_on_route false true = do h ← callback_handle env; count_changes h
  count_on_route false false = do p ← get_or_create_pool env; h ← do_acquire env p; count_and_drop h

  unfoldable pub total_changes : M Connection ℕ
  unfolding count_on_route in_transaction
  total_changes = do
    active ← gets in_transaction
    callbacks ← gets has_callbacks
    count_on_route active callbacks
