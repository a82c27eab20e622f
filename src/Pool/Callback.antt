-- ===== src/Pool/Callback.antt =====
-- What making the connection for callbacks leaves alone: any property that does not read its slot.
use rapsqlite.Prelude.{ℕ, inl, inr, some, Option-cases}
use rapsqlite.State.{Connection, Env, Event, Reply, reply, fail, receive, log, do_acquire, pure}
use rapsqlite.Outcome.{SqlxError, PyErr}
use rapsqlite.Keeps.{Keeps, Keeps-bind, Keeps-modify}
use rapsqlite.Pool.{fill_callback, create_callback_connection, ensure_callback_connection}
use rapsqlite.Pool.Steady.{Steady, get_or_create_pool-Keeps}

pub record CallbackKeeps (P : Connection → Type 0) : Type 0 where
  pub steady : Steady P
  pub acquires : (c : Connection) (p : ℕ) → P c → P (log (Event.acquires p) c)
  pub acquired : (c : Connection) (h : ℕ) → P c → P (log (Event.acquired h) c)
  pub fills : (c : Connection) (h : ℕ) → P c → P (record c { callback_connection = some h })

module _ (env : Env) {P : Connection → Type 0} (k : CallbackKeeps P) where
  receive-Keeps : (f : SqlxError → PyErr) (r : Reply ℕ) (c : Connection) → P c → P (receive f r c).1
  unfolding receive
  receive-Keeps f (reply h) c p = k.acquired c h p
  receive-Keeps f (fail e) c p = p

  pub do_acquire-Keeps : (p : ℕ) → Keeps P (do_acquire env p)
  unfolding do_acquire
  do_acquire-Keeps p = record {
    at = λ c h. receive-Keeps _ _ (log (Event.acquires p) c) (k.acquires c p h);
  }

  fill_callback-Keeps : (p : ℕ) → Keeps P (fill_callback env p)
  unfolding fill_callback
  fill_callback-Keeps p = Keeps-bind _ _ (do_acquire-Keeps p) λ h. Keeps-modify _ (λ c. k.fills c h)

  create_callback_connection-Keeps : Keeps P (create_callback_connection env)
  unfolding create_callback_connection
  create_callback_connection-Keeps =
      Keeps-bind _ _ (get_or_create_pool-Keeps env k.steady) fill_callback-Keeps

  pub ensure_callback_connection-Keeps : Keeps P (ensure_callback_connection env)
  unfolding ensure_callback_connection pure
  ensure_callback_connection-Keeps = record {
    at = λ c p. elim (Option-cases c.callback_connection) [
      | inl e ↦ rw (e, ensure_callback_connection) (create_callback_connection-Keeps.at c p)
      | inr (h, e) ↦ rw (e, ensure_callback_connection) p
    ];
  }
