-- ===== src/History/Backups.antt =====
-- A property that a backup keeps of an end, when it comes to its end.
use rapsqlite.Prelude.{ℕ, arith, refl, true, false, Bool, List, Option, none}
use rapsqlite.Prelude.Int.{ℤ}
use rapsqlite.Outcome.{Outcome, ok, err, PyErr}
use rapsqlite.Types.{is_active}
use rapsqlite.Chars.{CharTables}
use rapsqlite.State.{Connection, Env, Event, log}
use rapsqlite.Pool.{has_callbacks, ensure_callback_connection, get_or_create_pool}
use rapsqlite.Pool.Steady.{get_or_create_pool-Keeps}
use rapsqlite.Pool.Callback.{ensure_callback_connection-Keeps, do_acquire-Keeps}
use rapsqlite.Transaction.{set_transaction, set_callback}
use rapsqlite.Callbacks.Keeping.{CallsKeep}
use rapsqlite.Backup.{
  Held, Side, restore, take_transaction, take_ensured, hold, take_pooled, take_route, take,
  pages_to_copy,
}
use rapsqlite.Backup.Loop.{Stops}
use rapsqlite.Backup.Restoring.{Restores, backup-Ends}
use rapsqlite.History.{Call, Use, uses, backs_up, receives_backup, step, use_step}
use rapsqlite.History.Slots.{SlotsOnly, slots_steady, slots_callback}

-- What holds of the end once everything is restored.
abbrev Restored : (Connection → Type 0) → Side → Type 0
Restored P s = P (restore s)

module _ {P : Connection → Type 0} (k : SlotsOnly P) where
  take_transaction-Restored :
      (missing : PyErr) (c : Connection) → P c → Restored P (take_transaction missing c).1
  unfolding take_transaction restore set_transaction
  take_transaction-Restored missing c p = k.same c _ (ground arith) (ground arith) p

  take_ensured-Restored :
      (missing : PyErr) (r : Outcome (Unit {0}) × Connection)
      → P r.1
      → Restored P (take_ensured missing r).1
  unfolding take_ensured restore set_callback
  take_ensured-Restored missing (err e, c) p = p
  take_ensured-Restored missing (ok u, c) p = k.same c _ (ground arith) (ground arith) p

  hold-Restored : (r : Outcome ℕ × Connection) → P r.1 → Restored P (hold r).1
  unfolding hold restore
  hold-Restored (err e, c) p = p
  hold-Restored (ok h, c) p = k.same c _ refl refl p

  take_pooled-Restored :
      (env : Env) (r : Outcome ℕ × Connection) → P r.1 → Restored P (take_pooled env r).1
  unfolding take_pooled restore
  take_pooled-Restored env (err e, c) p = p
  take_pooled-Restored env (ok pool, c) p =
      hold-Restored _ ((do_acquire-Keeps env (slots_callback k) pool).at c p)

  take_route-Restored :
      (env : Env) (in_transaction callbacks : Bool) (e₁ e₂ : PyErr) (c : Connection)
      → P c
      → Restored P (take_route env in_transaction callbacks e₁ e₂ c).1
  unfolding take_route
  take_route-Restored env true callbacks e₁ e₂ c p = take_transaction-Restored e₁ c p
  take_route-Restored env false true e₁ e₂ c p =
      take_ensured-Restored e₂ (ensure_callback_connection env c)
        ((ensure_callback_connection-Keeps env (slots_callback k)).at c p)
  take_route-Restored env false false e₁ e₂ c p =
      take_pooled-Restored env (get_or_create_pool env c)
        ((get_or_create_pool-Keeps env (slots_steady k)).at c p)

  restore-log :
      (held : Option Held) (e : Event) (c : Connection)
      → P (restore (record { conn = c; held = held }))
      → P (restore (record { conn = log e c; held = held }))
  unfolding restore set_transaction set_callback
  restore-log held e c p =
      k.same (restore (record { conn = c; held = held }))
        (restore (record { conn = log e c; held = held })) (ground arith) (ground arith) p

  Restored-CallsKeep :
      (held : Option Held) → CallsKeep (λ c. P (restore (record { conn = c; held = held })))
  Restored-CallsKeep held = record {
    locks = λ c h. restore-log held (Event.locks h) c;
    calls_c = λ c h call. restore-log held (Event.calls_c h call) c;
  }

  pub slots-Restores : (env : Env) → Restores P (Restored P) env
  unfolding restore take
  slots-Restores env = record {
    starts = λ c p. p;
    restores = λ s p. p;
    takes = λ e₁ e₂ c p.
        take_route-Restored env (is_active c.transaction_state) (has_callbacks c) e₁ e₂ c p;
    calls = Restored-CallsKeep;
  }

-- Nothing is asked of the other end.
pub any_end : (env : Env) → Restores (λ c. Unit {0}) (λ s. Unit {0}) env
any_end env = record {
  starts = λ c u. tt;
  restores = λ s u. tt;
  takes = λ e₁ e₂ c u. tt;
  calls = λ held. record { locks = λ c h u. tt; calls_c = λ c h call u. tt };
}

module _ {P : Connection → Type 0} {H : Side → Type 0} (env : Env) (tables : CharTables) (fuel : ℕ)
    (r : Restores P H env)
    (stops : (pages : ℤ) (k : ℕ) (t : List Event) → Stops env k (pages_to_copy pages) fuel t) where
  pub use_step-Keeps :
      (u : Use) (c : Connection)
      → ((call : Call) → P c → P (step env tables call c))
      → P c
      → P (use_step env tables fuel u c)
  unfolding use_step
  use_step-Keeps (uses call) c each p = each call p
  use_step-Keeps (backs_up foreign name pages target) c each p =
      (backup-Ends env r (any_end env) fuel name pages (stops pages) foreign c target p tt).1
  use_step-Keeps (receives_backup name pages source) c each p =
      (backup-Ends env (any_end env) r fuel name pages (stops pages) none source c tt p).2
