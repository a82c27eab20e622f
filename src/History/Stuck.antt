-- ===== src/History/Stuck.antt =====
-- Only `close` helps a connection whose COMMIT failed.
use rapsqlite.Prelude.{
  ℕ, ◌≡◌, refl, Bool, true, not, ◌&&◌, List, [], ◌∷◌, Option, none, some, arith,
}
use rapsqlite.Prelude.Int.{ℤ}
use rapsqlite.Outcome.{err, PyErr, SqlxError, Statement}
use rapsqlite.Types.{TransactionState, idle, starting, active}
use rapsqlite.Chars.{CharTables}
use rapsqlite.State.{Connection, Env, Event, fail}
use rapsqlite.Pool.Steady.{HookKeeps}
use rapsqlite.Transaction.{commit, rollback, begin, transaction_enter, transaction_exit}
use rapsqlite.Transaction.Ending.{sent}
use rapsqlite.Transaction.Phases.{Phase, stuck, phase_of, phase}
use rapsqlite.Transaction.Recovery.{IsStuck, commit_fails-IsStuck, stuck_refuses}
use rapsqlite.Backup.{pages_to_copy}
use rapsqlite.Backup.Loop.{Stops}
use rapsqlite.History.{Use, run_uses}
use rapsqlite.History.Refinement.{
  shuts, stays, opening, ending, failing, closing, Follows, ended, moved, run-Follows,
}

-- No use is a `close`.
abbrev pub never_shuts : List Use → Bool
never_shuts [] = true
never_shuts (u ∷ us) = not (shuts u) && never_shuts us

Follows-stuck :
    {us : List Use} {p r : Phase} → Follows us p r → p ≡ stuck → never_shuts us ≡ true → r ≡ stuck
Follows-stuck ended e n = e
Follows-stuck (moved (stays s) f) e n = Follows-stuck f e (ground arith)
Follows-stuck (moved (opening o) f) e n = absurd cc
Follows-stuck (moved (ending o) f) e n = absurd cc
Follows-stuck (moved (failing o) f) e n = absurd cc
Follows-stuck (moved (closing s) f) e n = absurd (ground arith)

phase_of-stuck :
    (s : TransactionState) (slot : Option ℕ)
    → phase_of s slot ≡ stuck
    → (s ≡ active) × (slot ≡ none)
phase_of-stuck idle slot e = absurd cc
phase_of-stuck starting slot e = absurd cc
phase_of-stuck active none e = (refl, refl)
phase_of-stuck active (some h) e = absurd cc

stuck-IsStuck : (c : Connection) → phase c ≡ stuck → IsStuck c
stuck-IsStuck c e = phase_of-stuck c.transaction_state c.transaction_connection e

IsStuck-phase : (c : Connection) → IsStuck c → phase c ≡ stuck
IsStuck-phase c s = ground arith

-- Every method that opens a transaction, or ends one with success or failure, fails and changes nothing.
abbrev pub Refuses : Env → Connection → Type 0
Refuses env c =
    (begin env c ≡ (err PyErr.transaction_in_progress, c))
    × (transaction_enter env c ≡ (err PyErr.transaction_in_progress, c))
    × (commit env c ≡ (err PyErr.no_transaction_connection, c))
    × (rollback env c ≡ (err PyErr.no_transaction_connection, c))
    × ((raised : Bool) → transaction_exit env raised c ≡ (err PyErr.no_transaction_connection, c))

module _ (env : Env) (tables : CharTables) (hook : (p : Phase) → HookKeeps (λ c. phase c ≡ p) env)
    (fuel : ℕ)
    (stops : (pages : ℤ) (k : ℕ) (t : List Event) → Stops env k (pages_to_copy pages) fuel t) where
  -- When the COMMIT of a transaction fails, then after any further calls and backups without a `close`,
  -- with any errors, the connection is still active with no connection in its slot, and `begin`,
  -- `__aenter__` of a transaction, `commit`, `rollback` and `__aexit__` of a transaction all fail and
  -- change nothing. The initialisation hook is to leave the phase as it is, SQLite is to end every
  -- backup within so many steps, and no backup has a negative pause.
  pub commit_fails_until_close :
      (c : Connection) (h : ℕ) (x : SqlxError) (us : List Use)
      → c.transaction_state ≡ active
      → c.transaction_connection ≡ some h
      → env.execute (sent Statement.commit h c).trace ≡ fail x
      → never_shuts us ≡ true
      → IsStuck (run_uses env tables fuel us (commit env c).1)
        × Refuses env (run_uses env tables fuel us (commit env c).1)
  commit_fails_until_close c h x us is_open held failed never =
      let c₁ : Connection = (commit env c).1 in
      let c₂ : Connection = run_uses env tables fuel us c₁ in
      let lost : IsStuck c₁ = (commit_fails-IsStuck env c h x is_open held failed).1 in
      let kept = run-Follows env tables hook fuel stops us c₁ in
      let still : IsStuck c₂ =
        stuck-IsStuck c₂ (Follows-stuck kept (IsStuck-phase c₁ lost) never) in
      (still, stuck_refuses env c₂ still)
