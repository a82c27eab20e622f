-- ===== src/History/Refinement.antt =====
-- A small automaton of three phases, and that every history of calls and backups follows it.
use rapsqlite.Prelude.{
  ℕ, none, ◌≡◌, refl, inl, inr, Bool, true, false, List, [], ◌∷◌, if◌then◌else◌,
}
use rapsqlite.Outcome.{Statement}
use rapsqlite.Chars.{CharTables}
use rapsqlite.State.{Connection, Env, Event}
use rapsqlite.Pool.Steady.{HookKeeps}
use rapsqlite.Transaction.{commit, rollback, transaction_exit}
use rapsqlite.Pool.{has_callbacks}
use rapsqlite.Transaction.Phases.{
  Phase, closed, opened, stuck, phase, Opens, Ends, begin-Opens, transaction_enter-Opens,
  finish_with-Ends, close-closed,
}
use rapsqlite.History.{
  Call, begins, commits, rolls_back, closes, enters, exits, plain, step, Use, uses, backs_up,
  receives_backup, use_step, run_uses,
}
use rapsqlite.Prelude.Int.{ℤ}
use rapsqlite.Backup.{pages_to_copy, restore}
use rapsqlite.Backup.Loop.{Stops}
use rapsqlite.Backup.Restoring.{Restores, backup-Ends}
use rapsqlite.History.Backups.{slots-Restores, any_end}
use rapsqlite.History.Slots.{SlotsOnly, slots_plain}
use rapsqlite.History.Plain.{plain_step-Keeps}

-- The calls that open, and those that end, a transaction.
abbrev pub opens : Use → Bool
opens (uses begins) = true
opens (uses enters) = true
opens _ = false

abbrev pub ends : Use → Bool
ends (uses commits) = true
ends (uses rolls_back) = true
ends (uses (exits raised)) = true
ends _ = false

abbrev pub shuts : Use → Bool
shuts (uses closes) = true
shuts _ = false

-- The moves that a use may make; only `close` may not stay.
pub data Moves (u : Use) : Phase → Phase → Type 0 where
  stays : {p : Phase} → shuts u ≡ false → Moves u p p
  opening : opens u ≡ true → Moves u closed opened
  ending : ends u ≡ true → Moves u opened closed
  failing : ends u ≡ true → Moves u opened stuck
  closing : {p : Phase} → shuts u ≡ true → Moves u p closed

pub data Follows : List Use → Phase → Phase → Type 0 where
  ended : {p : Phase} → Follows [] p p
  moved :
      {u : Use} {us : List Use} {p q r : Phase}
      → Moves u p q
      → Follows us q r
      → Follows (u ∷ us) p r

opens-Moves : (u : Use) (p q : Phase) → opens u ≡ true → shuts u ≡ false → Opens p q → Moves u p q
opens-Moves u p q o s (inl e) = rw e (stays s)
opens-Moves u p q o s (inr (e, f)) = rw (e, f) (opening o)

ends-Moves : (u : Use) (p q : Phase) → ends u ≡ true → shuts u ≡ false → Ends p q → Moves u p q
ends-Moves u p q o s (inl e) = rw e (stays s)
ends-Moves u p q o s (inr (e, inl f)) = rw (e, f) (ending o)
ends-Moves u p q o s (inr (e, inr f)) = rw (e, f) (failing o)

closes-Moves : (p q : Phase) → q ≡ closed → Moves (uses closes) p q
closes-Moves p q e = rw e (closing refl)

stays-Moves : (u : Use) (p q : Phase) → shuts u ≡ false → q ≡ p → Moves u p q
stays-Moves u p q s e = rw e (stays s)

phase-SlotsOnly : (p : Phase) → SlotsOnly (λ c. phase c ≡ p)
phase-SlotsOnly p = record { same = λ c d e f s. rw (e, f) s }

module _ (env : Env) (tables : CharTables)
    (hook : (p : Phase) → HookKeeps (λ c. phase c ≡ p) env) where
  step-Moves :
      (call : Call) (c : Connection) → Moves (uses call) (phase c) (phase (step env tables call c))
  unfolding step commit rollback transaction_exit
  step-Moves begins c = opens-Moves (uses begins) _ _ refl refl (begin-Opens env c)
  step-Moves enters c = opens-Moves (uses enters) _ _ refl refl (transaction_enter-Opens env c)
  step-Moves commits c =
      ends-Moves (uses commits) _ _ refl refl
        (finish_with-Ends env Statement.commit (has_callbacks c) c)
  step-Moves rolls_back c =
      ends-Moves (uses rolls_back) _ _ refl refl
        (finish_with-Ends env Statement.rollback (has_callbacks c) c)
  step-Moves (exits raised) c =
      ends-Moves (uses (exits raised)) _ _ refl refl
        (finish_with-Ends env (if raised then Statement.rollback else Statement.commit) false c)
  step-Moves closes c = closes-Moves _ _ (close-closed env c)
  step-Moves (plain call) c = stays-Moves (uses (plain call)) _ _ refl (
      plain_step-Keeps env (slots_plain env (phase-SlotsOnly (phase c)) (hook (phase c))) tables
        call c refl)

  module _ (fuel : ℕ)
      (stops : (pages : ℤ) (k : ℕ) (t : List Event)
        → Stops env k (pages_to_copy pages) fuel t) where
    phase-Restores : (p : Phase) → Restores (λ c. phase c ≡ p) (λ s. phase (restore s) ≡ p) env
    phase-Restores p = slots-Restores (phase-SlotsOnly p) env

    use_step-Moves :
        (u : Use) (c : Connection) → Moves u (phase c) (phase (use_step env tables fuel u c))
    unfolding use_step
    use_step-Moves (uses call) c = step-Moves call c
    use_step-Moves (backs_up foreign name pages target) c =
        stays-Moves _ _ _ refl
          (backup-Ends env (phase-Restores (phase c)) (any_end env) fuel name pages (stops pages)
            foreign c target refl tt).1
    use_step-Moves (receives_backup name pages source) c =
        stays-Moves _ _ _ refl
          (backup-Ends env (any_end env) (phase-Restores (phase c)) fuel name pages (stops pages)
            none source c tt refl).2

    -- Every history of calls of the methods of a connection and of its cursors, and of backups to and
    -- from other connections, each run to its end, follows the automaton of the phases closed, opened
    -- and stuck, whatever the errors are: only `begin` and `__aenter__` of a transaction open it and only
    -- from closed; only `commit`, `rollback` and `__aexit__` end it or leave it stuck, and only from
    -- opened; `close` leads to closed from every phase, and nothing else leads out of stuck. The
    -- initialisation hook is to leave the phase as it is, SQLite is to end every backup within so many
    -- steps, and no backup has a negative pause.
    pub run-Follows :
        (us : List Use) (c : Connection)
        → Follows us (phase c) (phase (run_uses env tables fuel us c))
    unfolding run_uses
    run-Follows [] c = ended
    run-Follows (u ∷ us) c =
        moved (use_step-Moves u c) (run-Follows us (use_step env tables fuel u c))
