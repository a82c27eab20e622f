-- ===== src/Backup/Returns.antt =====
-- What a backup takes of the two connections is given back.
use rapsqlite.Prelude.{ℕ, ◌+◌, ◌≡◌, Bool, true, false, List, Option, none, some, Text, arith}
use rapsqlite.Prelude.Int.{ℤ}
use rapsqlite.Prelude.Counting.{occurs}
use rapsqlite.Outcome.{Outcome, ok, err, PyErr}
use rapsqlite.Types.{is_active}
use rapsqlite.State.{Connection, Env, Event, do_acquire, receive}
use rapsqlite.Pool.{has_callbacks, ensure_callback_connection, get_or_create_pool}
use rapsqlite.Pool.Balance.{
  Balanced, acquired_count, dropped_count, get_or_create_pool-Balanced,
  ensure_callback_connection-Balanced,
}
use rapsqlite.Transaction.{set_transaction, set_callback}
use rapsqlite.Callbacks.Keeping.{CallsKeep}
use rapsqlite.Backup.{
  Held, of_transaction, of_callback, of_pool, Side, start_side, take_transaction, take_ensured,
  hold, restore, pages_to_copy, take_pooled, take_route, take, Backup, backup,
}
use rapsqlite.Backup.Restoring.{Restores, backup-Ends}
use rapsqlite.Backup.Loop.{Stops, has_ended}

abbrev held_handle : Option Held → Option ℕ
held_handle none = none
held_handle (some (of_transaction h)) = some h
held_handle (some (of_callback h)) = some h
held_handle (some (of_pool h)) = some h

-- What is held for the backup counts with the slots.
abbrev HeldBalanced : ℕ → Side → Type 0
HeldBalanced h s =
    acquired_count h s.conn.trace
    ≡ dropped_count h s.conn.trace
      + occurs h s.conn.transaction_connection
      + occurs h s.conn.callback_connection
      + occurs h (held_handle s.held)

module _ (h : ℕ) where
  start_side-HeldBalanced : (c : Connection) → Balanced h c → HeldBalanced h (start_side c)
  start_side-HeldBalanced c b = omega (arith, b)

  restore-Balanced : (s : Side) → HeldBalanced h s → Balanced h (restore s)
  unfolding restore set_transaction set_callback
  restore-Balanced s b = ground (arith, b)

  take_transaction-HeldBalanced :
      (missing : PyErr) (c : Connection)
      → Balanced h c
      → HeldBalanced h (take_transaction missing c).1
  unfolding take_transaction
  take_transaction-HeldBalanced missing c b = ground (arith, b)

  take_ensured-HeldBalanced :
      (missing : PyErr) (r : Outcome (Unit {0}) × Connection)
      → Balanced h r.1
      → HeldBalanced h (take_ensured missing r).1
  unfolding take_ensured
  take_ensured-HeldBalanced missing (err e, c) b = start_side-HeldBalanced c b
  take_ensured-HeldBalanced missing (ok u, c) b = ground (arith, b)

  take_pooled-HeldBalanced :
      (env : Env) (r : Outcome ℕ × Connection)
      → Balanced h r.1
      → HeldBalanced h (take_pooled env r).1
  unfolding take_pooled hold do_acquire receive
  take_pooled-HeldBalanced env (err e, c) b = start_side-HeldBalanced c b
  take_pooled-HeldBalanced env (ok p, c) b = ground (arith, b)

  take_route-HeldBalanced :
      (env : Env) (in_transaction callbacks : Bool) (e₁ e₂ : PyErr) (c : Connection)
      → Balanced h c
      → HeldBalanced h (take_route env in_transaction callbacks e₁ e₂ c).1
  unfolding take_route
  take_route-HeldBalanced env true callbacks e₁ e₂ c b = take_transaction-HeldBalanced e₁ c b
  take_route-HeldBalanced env false true e₁ e₂ c b =
      take_ensured-HeldBalanced e₂ (ensure_callback_connection env c)
        ((ensure_callback_connection-Balanced env h).at c b)
  take_route-HeldBalanced env false false e₁ e₂ c b =
      take_pooled-HeldBalanced env (get_or_create_pool env c)
        ((get_or_create_pool-Balanced env h).at c b)

  take-HeldBalanced :
      (env : Env) (e₁ e₂ : PyErr) (c : Connection)
      → Balanced h c
      → HeldBalanced h (take env e₁ e₂ c).1
  unfolding take
  take-HeldBalanced env e₁ e₂ c b =
      take_route-HeldBalanced env (is_active c.transaction_state) (has_callbacks c) e₁ e₂ c b

-- The copying only makes calls.
HeldBalanced-CallsKeep :
    (h : ℕ) (held : Option Held)
    → CallsKeep (λ c. HeldBalanced h (record { conn = c; held = held }))
HeldBalanced-CallsKeep h held = record { locks = λ c k b. b; calls_c = λ c k call b. b }

pub Balanced-Restores : (env : Env) (h : ℕ) → Restores (Balanced h) (HeldBalanced h) env
Balanced-Restores env h = record {
  starts = start_side-HeldBalanced h;
  restores = restore-Balanced h;
  takes = take-HeldBalanced h env;
  calls = HeldBalanced-CallsKeep h;
}

-- A backup that came to its end, with nothing lost of either connection.
abbrev pub EndsWell : ℕ → Backup → Type 0
EndsWell h b = (has_ended b.answer ≡ true) × Balanced h b.source × Balanced h b.target

module _ (env : Env) (fuel : ℕ) (name : Text) (pages : ℤ) (h : ℕ)
    (stops : (k : ℕ) (t : List Event) → Stops env k (pages_to_copy pages) fuel t) where
  -- If SQLite never answers OK, BUSY or LOCKED to as many steps in a row as there is fuel, `backup` comes
  -- to its end, with an error or not, and every connection that it took from the transaction, the
  -- callbacks or the pool of the two ends is then back in a slot or dropped: what each pool handed out
  -- is accounted for after it when it was before. The two ends are different connections.
  pub backup-EndsWell :
      (foreign : Option (Outcome (Option ℕ))) (c t : Connection)
      → Balanced h c
      → Balanced h t
      → EndsWell h (backup env fuel name pages foreign c t)
  backup-EndsWell foreign c t a b =
      backup-Ends env (Balanced-Restores env h) (Balanced-Restores env h) fuel name pages stops
        foreign c t a b
