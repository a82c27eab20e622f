-- ===== src/Tests/Transactions.antt =====
-- Transactions at concrete connections.
use rapsqlite.Prelude.{◌≡◌, refl, true, false, List, [], ◌∷◌, none, some, codes}
use rapsqlite.Outcome.{ok, err, PyErr, Statement}
use rapsqlite.Types.{idle, active}
use rapsqlite.State.{Connection, Env, Event}
use rapsqlite.Keeps.{OkHolds}
use rapsqlite.Pool.{has_callbacks}
use rapsqlite.Pool.Steady.{HookKeeps}
use rapsqlite.Pool.Balance.{Balanced}
use rapsqlite.Transaction.{begin, commit, rollback, transaction_exit, close}
use rapsqlite.Transaction.Settled.{IsSettled, IsOpen}
use rapsqlite.Transaction.Ending.{sent, Finished, ends_transaction}
use rapsqlite.Transaction.Recovery.{close_lem}
use rapsqlite.Transaction.Opening.{
  begin-IsOpen, begin_succeeds, beginning, begin_loses_hook_transaction,
}
use rapsqlite.History.{Call, run, begins, commits, closes, enters, exits, fetches_all, plain}
use rapsqlite.History.Soundness.{run-Balanced}
use rapsqlite.History.Settled.{run-IsSettled}
use rapsqlite.Tests.{env, failing, fresh, opened, tables, done}

abbrev session : List Call
session =
    begins
    ∷ plain (fetches_all (codes "SELECT 1") none)
    ∷ commits
    ∷ enters
    ∷ exits true
    ∷ begins
    ∷ closes
    ∷ []

hook-Balanced : HookKeeps (Balanced 1) env
hook-Balanced = record { flag = λ c b. b; call = λ hook c b. b }

-- A hook that runs a transaction of its own.
abbrev working_hook : Env
working_hook = record env {
  call_hook = λ hook c. (ok tt, run env tables (begins ∷ commits ∷ []) c);
}

abbrev hooked_up : Connection
hooked_up = record fresh { init_hook = some 40 }

working_hook-Balanced : HookKeeps (Balanced 1) working_hook
working_hook-Balanced = record {
  flag = λ c b. b;
  call = λ hook c b. run-Balanced env tables 1 hook-Balanced (begins ∷ commits ∷ []) c b;
}

run-Balanced_example : Balanced 1 (run working_hook tables session hooked_up)
run-Balanced_example =
    run-Balanced working_hook tables 1 working_hook-Balanced session hooked_up refl

opened-IsSettled : IsSettled opened
opened-IsSettled = record { no_reservation = λ e. cc; held_while_active = λ e. refl }

hook-IsSettled : HookKeeps IsSettled env
hook-IsSettled = record {
  flag =
      λ c s. record { no_reservation = s.no_reservation; held_while_active = s.held_while_active };
  call = λ hook c s. s;
}

working_hook-IsSettled : HookKeeps IsSettled working_hook
working_hook-IsSettled = record {
  flag =
      λ c s. record { no_reservation = s.no_reservation; held_while_active = s.held_while_active };
  call = λ hook c s. run-IsSettled env tables hook-IsSettled (begins ∷ commits ∷ []) c s;
}

hooked_up-IsSettled : IsSettled hooked_up
hooked_up-IsSettled = record { no_reservation = λ e. cc; held_while_active = λ e. cc }

begin-IsOpen_example : OkHolds IsOpen (begin env fresh)
begin-IsOpen_example = begin-IsOpen env fresh

abbrev ready : Connection
ready = record fresh { pool = some 3 }

begin_succeeds_example : begin env ready ≡ (
  ok tt,
  record ready {
    transaction_state = active;
    transaction_connection = some 1;
    trace = beginning 3 1 ready;
  },
)
unfolding has_callbacks
begin_succeeds_example =
    begin_succeeds env ready 3 1 done done refl refl refl refl refl refl refl refl

ends_transaction_example :
    Finished Statement.commit
      (has_callbacks opened)
      1
      opened
      (failing.execute (sent Statement.commit 1 opened).trace)
      (commit failing opened)
    × Finished Statement.rollback
        (has_callbacks opened)
        1
        opened
        (failing.execute (sent Statement.rollback 1 opened).trace)
        (rollback failing opened)
    × Finished Statement.rollback false 1 opened
        (failing.execute (sent Statement.rollback 1 opened).trace)
        (transaction_exit failing true opened)
    × Finished Statement.commit false 1 opened
        (failing.execute (sent Statement.commit 1 opened).trace)
        (transaction_exit failing false opened)
ends_transaction_example = ends_transaction failing opened 1 refl refl

close_lem_example :
    ((close failing opened).transaction_state ≡ idle)
    × ((close failing opened).transaction_connection ≡ none)
    × ((close failing opened).callback_connection ≡ none)
    × ((close failing opened).pool ≡ none)
    × ((close failing opened).user_functions ≡ [])
    × ((close failing opened).trace_callback ≡ none)
    × ((close failing opened).authorizer_callback ≡ none)
    × ((close failing opened).progress_handler ≡ none)
    × ((close failing opened).load_extension_enabled ≡ opened.load_extension_enabled)
close_lem_example = close_lem failing opened opened-IsSettled

-- A hook that begins a transaction.
abbrev hooked_env : Env
hooked_env = record env {
  call_hook =
      λ hook c. (ok tt, record c { transaction_state = active; transaction_connection = some 1 });
}

abbrev hooked : Connection
hooked = record ready { init_hook = some 40 }

begin_loses_hook_transaction_example : begin hooked_env hooked ≡ (
  err PyErr.transaction_in_progress,
  record hooked {
    init_hook_called = true;
    transaction_state = idle;
    transaction_connection = none;
    trace = Event.drops 1 ∷ [];
  },
)
begin_loses_hook_transaction_example =
    begin_loses_hook_transaction hooked_env hooked
      (record opened { init_hook = some 40; init_hook_called = true }) 40 3 1 refl refl refl refl
      refl refl refl
