-- ===== src/Tests/Lifetime.antt =====
-- The life of a connection, and its callbacks, at concrete values.
use rapsqlite.Prelude.{
  ℕ, ◌≡◌, refl, true, List, [], ◌∷◌, none, some, codes, text_eq, starts_with, has_char,
}
use rapsqlite.Prelude.Int.{ℤ, pos}
use rapsqlite.Outcome.{ok}
use rapsqlite.Keeps.{OkHolds}
use rapsqlite.Uri.{byte_len}
use rapsqlite.Pool.Steady.{HookKeeps}
use rapsqlite.Pool.Balance.{Balanced}
use rapsqlite.Transaction.Settled.{IsSettled}
use rapsqlite.Transaction.Phases.{Phase, phase}
use rapsqlite.Callbacks.{
  set_trace_callback, set_authorizer, set_progress_handler, create_function, enable_load_extension,
}
use rapsqlite.Callbacks.Release.{InUse, callbacks-InUse}
use rapsqlite.Construction.{new}
use rapsqlite.History.{
  Use, uses, backs_up, receives_backup, run_uses, begins, commits, closes, plain, sets_trace,
  uses_cursor, cursor_executes, counts_changes,
}
use rapsqlite.History.Lifetime.{new-run}
use rapsqlite.History.Refinement.{Follows, run-Follows}
use rapsqlite.History.Settled.{run_uses-IsSettled}
use rapsqlite.History.Stuck.{Refuses, commit_fails_until_close}
use rapsqlite.Transaction.{commit}
use rapsqlite.Transaction.Recovery.{IsStuck}
use rapsqlite.State.{Env, Event}
use rapsqlite.Outcome.{SqlxError}
use rapsqlite.Backup.{pages_to_copy}
use rapsqlite.Backup.Loop.{Stops, now}
use rapsqlite.Execute.{cursor}
use rapsqlite.Tests.{env, backup_env, failing, codes_of, tables, fresh, opened}

callbacks-InUse_example :
    OkHolds InUse (set_trace_callback env (some 7) fresh)
    × OkHolds InUse (set_authorizer env (some 7) fresh)
    × OkHolds InUse (set_progress_handler env (pos 100) (some 7) fresh)
    × OkHolds InUse (create_function env (codes "twice") (pos 1) (some 7) fresh)
    × OkHolds InUse (enable_load_extension env true fresh)
callbacks-InUse_example = callbacks-InUse env (some 7) (pos 100) (pos 1) (codes "twice") fresh

abbrev life : List Use
life =
    uses (plain (sets_trace (some 7)))
    ∷ uses begins
    ∷ uses (plain (uses_cursor cursor (cursor_executes (codes "SELECT 1") none)))
    ∷ backs_up none (codes "main") (pos 0) fresh
    ∷ uses commits
    ∷ receives_backup (codes "main") (pos 5) fresh
    ∷ uses (plain counts_changes)
    ∷ uses closes
    ∷ []

Stops-at_once : (pages : ℤ) (k : ℕ) (t : List Event) → Stops backup_env k (pages_to_copy pages) 1 t
Stops-at_once pages k t = now refl

hook-IsSettled : HookKeeps IsSettled backup_env
hook-IsSettled = record {
  flag =
      λ c s. record { no_reservation = s.no_reservation; held_while_active = s.held_while_active };
  call = λ hook c s. s;
}

hook-Balanced : HookKeeps (Balanced 1) backup_env
hook-Balanced = record { flag = λ c b. b; call = λ hook c b. b }

hook-phase : (p : Phase) → HookKeeps (λ c. phase c ≡ p) backup_env
hook-phase p = record { flag = λ c s. s; call = λ hook c s. s }

fresh_is_new : new (λ k. ok []) (λ v. []) (codes "app.db") none none (pos 5000000) ≡ ok fresh
unfolding new text_eq starts_with has_char byte_len
fresh_is_new = refl

new-run_example :
    IsSettled (run_uses backup_env tables 1 life fresh)
    × Balanced 1 (run_uses backup_env tables 1 life fresh)
new-run_example =
    new-run (λ k. ok []) (λ v. []) 1 backup_env tables 1 Stops-at_once hook-IsSettled hook-Balanced
      (codes "app.db") none none (pos 5000000) fresh life fresh_is_new

fresh-IsSettled : IsSettled fresh
fresh-IsSettled = record { no_reservation = λ e. cc; held_while_active = λ e. cc }

run_uses-IsSettled_example : IsSettled (run_uses backup_env tables 1 life fresh)
run_uses-IsSettled_example =
    run_uses-IsSettled backup_env tables hook-IsSettled 1 Stops-at_once life fresh fresh-IsSettled

run-Follows_example : Follows life (phase fresh) (phase (run_uses backup_env tables 1 life fresh))
run-Follows_example = run-Follows backup_env tables hook-phase 1 Stops-at_once life fresh

-- No statement succeeds, and a backup ends at its first step.
abbrev locked_env : Env
locked_env = record failing { c_result = codes_of }

abbrev later : List Use
later =
    uses commits
    ∷ backs_up none (codes "main") (pos 0) fresh
    ∷ uses (plain counts_changes)
    ∷ uses begins
    ∷ []

commit_fails_until_close_example :
    IsStuck (run_uses locked_env tables 1 later (commit locked_env opened).1)
    × Refuses locked_env (run_uses locked_env tables 1 later (commit locked_env opened).1)
commit_fails_until_close_example =
    commit_fails_until_close locked_env tables
      (λ p. record { flag = λ c s. s; call = λ hook c s. s }) 1 (λ pages k t. now refl) opened 1
      (SqlxError.database (codes "database is locked")) later refl refl refl refl
