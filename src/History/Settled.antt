-- ===== src/History/Settled.antt =====
-- The transaction state and the slot stay in step, whatever is called.
use rapsqlite.Prelude.{ℕ, ◌≡◌, ◌∙◌, ap, sym, is_some, false, List, [], ◌∷◌}
use rapsqlite.Outcome.{Statement}
use rapsqlite.Chars.{CharTables}
use rapsqlite.State.{Connection, Env, Event}
use rapsqlite.Pool.Steady.{HookKeeps}
use rapsqlite.Transaction.{commit, rollback, transaction_exit}
use rapsqlite.Transaction.Settled.{
  IsSettled, begin-IsSettled, finish_with-IsSettled, transaction_enter-IsSettled, close-IsSettled,
}
use rapsqlite.Prelude.Int.{ℤ}
use rapsqlite.Backup.{pages_to_copy}
use rapsqlite.Backup.Loop.{Stops}
use rapsqlite.History.Backups.{slots-Restores, use_step-Keeps}
use rapsqlite.History.Slots.{SlotsOnly, slots_plain}
use rapsqlite.History.Plain.{plain_step-Keeps}
use rapsqlite.History.{
  Call, begins, commits, rolls_back, closes, enters, exits, plain, step, run, Use, use_step,
  run_uses,
}

-- Settledness reads two fields.
same_slots-IsSettled :
    (c d : Connection)
    → d.transaction_state ≡ c.transaction_state
    → d.transaction_connection ≡ c.transaction_connection
    → IsSettled c
    → IsSettled d
same_slots-IsSettled c d e f s = record {
  no_reservation = λ starts. s.no_reservation (sym e ∙ starts);
  held_while_active = λ held. e ∙ s.held_while_active (sym (ap is_some f) ∙ held);
}

IsSettled-SlotsOnly : SlotsOnly IsSettled
IsSettled-SlotsOnly = record { same = same_slots-IsSettled }

module _ (env : Env) (tables : CharTables) (hook : HookKeeps IsSettled env) where
  step-IsSettled : (call : Call) (c : Connection) → IsSettled c → IsSettled (step env tables call c)
  unfolding step commit rollback transaction_exit
  step-IsSettled begins c = (begin-IsSettled env).at c
  step-IsSettled commits c = (finish_with-IsSettled env Statement.commit _).at c
  step-IsSettled rolls_back c = (finish_with-IsSettled env Statement.rollback _).at c
  step-IsSettled closes c = close-IsSettled env c
  step-IsSettled enters c = (transaction_enter-IsSettled env).at c
  step-IsSettled (exits raised) c = (finish_with-IsSettled env _ false).at c
  step-IsSettled (plain call) c =
      plain_step-Keeps env (slots_plain env IsSettled-SlotsOnly hook) tables call c

  -- Calls other than a backup.
  pub run-IsSettled :
      (calls : List Call) (c : Connection) → IsSettled c → IsSettled (run env tables calls c)
  unfolding run
  run-IsSettled [] c s = s
  run-IsSettled (call ∷ calls) c s =
      run-IsSettled calls (step env tables call c) (step-IsSettled call c s)

  module _ (fuel : ℕ)
      (stops : (pages : ℤ) (k : ℕ) (t : List Event)
        → Stops env k (pages_to_copy pages) fuel t) where
    -- Whatever methods of a connection or of its cursors are called, backups to and from other
    -- connections among them, one after the other in whatever order and with whatever errors: a
    -- connection that is settled stays so, that is, no reservation is left behind, and the slot is empty
    -- unless a transaction is active. The initialisation hook is to keep this too, SQLite is to end every
    -- backup within so many steps, and no backup has a negative pause.
    pub run_uses-IsSettled :
        (us : List Use) (c : Connection) → IsSettled c → IsSettled (run_uses env tables fuel us c)
    unfolding run_uses
    run_uses-IsSettled [] c s = s
    run_uses-IsSettled (u ∷ us) c s = run_uses-IsSettled us (use_step env tables fuel u c) (
        use_step-Keeps env tables fuel (slots-Restores IsSettled-SlotsOnly env) stops u c
          (λ call. step-IsSettled call c) s)
