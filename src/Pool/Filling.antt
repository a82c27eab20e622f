-- ===== src/Pool/Filling.antt =====
-- src/pool.rs: what `ensure_callback_connection` keeps, when it makes the connection for callbacks.
use rapsqlite.Prelude.{ℕ, ◌≡◌, inl, inr, none, some, Option-cases}
use rapsqlite.State.{Connection, Env, Event, log, reply, Reply-cases, pure, effects, ◌>>=◌, receive}
use rapsqlite.Keeps.{Keeps, and_then-leads}
use rapsqlite.Pool.{fill_callback, create_callback_connection, ensure_callback_connection}
use rapsqlite.Pool.Steady.{Steady, get_or_create_pool-Keeps}

-- A connection that is acquired goes into the empty slot.
pub record Fills (P : Connection → Type 0) (env : Env) : Type 0 where
  pub asks : (c : Connection) (p : ℕ) → P c → P (log (Event.acquires p) c)
  pub gets :
      (c : Connection) (k : ℕ)
      → env.acquire c.trace ≡ reply k
      → c.callback_connection ≡ none
      → P c
      → P (record (log (Event.acquired k) c) { callback_connection = some k })

module _ (env : Env) {P : Connection → Type 0} (steady : Steady P) (fills : Fills P env) where
  abbrev Vacant : Connection → Type 0
  Vacant c = P c × (c.callback_connection ≡ none)

  Vacant-Steady : Steady Vacant
  Vacant-Steady = record {
    connects = λ c size secs v. (steady.connects c size secs v.0, v.1);
    executes = λ c target sql params v. (steady.executes c target sql params v.0, v.1);
    pools = λ c p v. (steady.pools c p v.0, v.1);
  }

  fill_callback-Keeps : (p : ℕ) (c : Connection) → Vacant c → P (fill_callback env p c).1
  unfolding fill_callback effects receive
  fill_callback-Keeps p c v =
      let c' = log (Event.acquires p) c in
      let asked : P c' = fills.asks c p v.0 in
      elim (Reply-cases (env.acquire c'.trace)) [
        | inl (k, e) ↦ rw (e, receive) (fills.gets c' k e v.1 asked)
        | inr (x, e) ↦ rw (e, receive) asked
      ]

  create_callback_connection-Keeps :
      (c : Connection) → Vacant c → P (create_callback_connection env c).1
  unfolding create_callback_connection ◌>>=◌
  create_callback_connection-Keeps c v =
      and_then-leads _ (fill_callback env) ((get_or_create_pool-Keeps env Vacant-Steady).at c v)
        (λ _ w. w.0) fill_callback-Keeps

  pub ensure_callback_connection-Keeps : Keeps P (ensure_callback_connection env)
  unfolding ensure_callback_connection pure
  ensure_callback_connection-Keeps = record {
    at = λ c p. elim (Option-cases c.callback_connection) [
      | inl e ↦ rw (e, ensure_callback_connection) (create_callback_connection-Keeps c (p, e))
      | inr (k, e) ↦ rw (e, ensure_callback_connection) p
    ];
  }
