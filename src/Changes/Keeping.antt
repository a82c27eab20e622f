-- ===== src/Changes/Keeping.antt =====
-- `total_changes` keeps what the invariants of a connection say; a temporary connection is handed back.
use rapsqlite.Prelude.{ℕ, Bool, true, false, arith}
use rapsqlite.State.{
  Connection, Env, Event, log, do_acquire, receive, answer, ◌>>=◌, and_then, effects,
}
use rapsqlite.Keeps.{Keeps, Keeps-bind, Keeps-gets, Keeps-require, Keeps-pure}
use rapsqlite.Pool.Steady.{Steady, get_or_create_pool-Keeps}
use rapsqlite.Pool.Balance.{Balanced}
use rapsqlite.Pool.Callback.{CallbackKeeps, do_acquire-Keeps}
use rapsqlite.Callbacks.{do_lock, do_c_call}
use rapsqlite.Callbacks.Keeping.{CallsKeep, do_lock-Keeps, do_c_call-Keeps, callback_handle-Keeps}
use rapsqlite.Pool.{ensure_callback_connection}
use rapsqlite.Changes.{count_changes, count_and_drop, count_on_route, total_changes}

-- What a property is to bear, the use of a temporary connection as a whole.
pub record CountKeeps (P : Connection → Type 0) (env : Env) : Type 0 where
  pub steady : Steady P
  pub ensures : Keeps P (ensure_callback_connection env)
  pub calls : CallsKeep P
  pub temporary : (p : ℕ) → Keeps P (do_acquire env p >>= count_and_drop env)

count_changes-Keeps :
    {P : Connection → Type 0} (env : Env) → CallsKeep P → (h : ℕ) → Keeps P (count_changes env h)
unfolding count_changes
count_changes-Keeps env calls h =
    Keeps-bind _ _ (do_lock-Keeps env calls h)
      λ _. Keeps-bind _ _ (do_c_call-Keeps env calls h _) λ total. Keeps-pure _

module _ {P : Connection → Type 0} (env : Env) (k : CountKeeps P env) where
  count_on_route-Keeps : (active callbacks : Bool) → Keeps P (count_on_route env active callbacks)
  unfolding count_on_route
  count_on_route-Keeps true callbacks =
      Keeps-bind _ _ (Keeps-gets _)
        λ slot. Keeps-bind _ _ (Keeps-require slot _) (count_changes-Keeps env k.calls)
  count_on_route-Keeps false true =
      Keeps-bind _ _ (callback_handle-Keeps env k.ensures) (count_changes-Keeps env k.calls)
  count_on_route-Keeps false false =
      Keeps-bind _ _ (get_or_create_pool-Keeps env k.steady) k.temporary

  pub total_changes-Keeps : Keeps P (total_changes env)
  unfolding total_changes
  total_changes-Keeps =
      Keeps-bind _ _ (Keeps-gets _)
        λ active. Keeps-bind _ _ (Keeps-gets _) λ callbacks. count_on_route-Keeps active callbacks

-- A property that does not count the drops.
pub temporary-Keeps :
    {P : Connection → Type 0} (env : Env)
    → CallbackKeeps P
    → (p : ℕ) → CallsKeep P
    → ((c : Connection) (h : ℕ) → P c → P (log (Event.drops h) c))
    → Keeps P (do_acquire env p >>= count_and_drop env)
unfolding count_and_drop
temporary-Keeps env k p calls drops =
    Keeps-bind _ _ (do_acquire-Keeps env k p)
      λ h. record { at = λ c held. drops _ h ((count_changes-Keeps env calls h).at c held) }

-- A temporary connection is dropped once, whether the count is got or not.
pub temporary-Balanced :
    (env : Env) (h p : ℕ) → Keeps (Balanced h) (do_acquire env p >>= count_and_drop env)
unfolding do_acquire receive count_and_drop count_changes do_lock do_c_call answer effects and_then
temporary-Balanced env h p = record { at = λ c b. ground (arith, b) }
