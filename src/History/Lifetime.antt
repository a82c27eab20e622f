-- ===== src/History/Lifetime.antt =====
-- The whole life of a connection: from `Connection::new` through any calls.
use rapsqlite.Prelude.{ℕ, ◌≡◌, refl, List, Option, Text}
use rapsqlite.Prelude.Int.{ℤ, pos, negsuc}
use mathlib.Core.Path.{subst}
use rapsqlite.Outcome.{Outcome, ok, err, ◌>>=◌}
use rapsqlite.Types.{PyObject}
use rapsqlite.Chars.{CharTables}
use rapsqlite.State.{Connection, Env, Event}
use rapsqlite.Uri.{parse_connection_string, validate_path}
use rapsqlite.Pool.Steady.{HookKeeps}
use rapsqlite.Pool.Balance.{Balanced}
use rapsqlite.Transaction.Settled.{IsSettled, empty-IsSettled}
use rapsqlite.Construction.{given_pragmas, open_path, new}
use rapsqlite.Backup.{pages_to_copy}
use rapsqlite.Backup.Loop.{Stops}
use rapsqlite.History.{Use, run_uses}
use rapsqlite.History.Settled.{run_uses-IsSettled}
use rapsqlite.History.Soundness.{run_uses-Balanced}

-- What holds of the state that a success gives.
abbrev OkIs : (Connection → Type 0) → Outcome Connection → Type 0
OkIs P (ok c) = P c
OkIs P (err e) = Unit

abbrev IsFresh : ℕ → Connection → Type 0
IsFresh h c = IsSettled c × Balanced h c

OkIs-bind :
    {A : Type 0} (P : Connection → Type 0) (r : Outcome A) (f : A → Outcome Connection)
    → ((a : A) → OkIs P (f a))
    → OkIs P (r >>= f)
OkIs-bind P (ok a) f h = h a
OkIs-bind P (err e) f h = tt

OkIs-ok :
    (P : Connection → Type 0) {r : Outcome Connection} {c : Connection} → r ≡ ok c → OkIs P r → P c
OkIs-ok P e h = subst (OkIs P) e h

module _ (extract_key : PyObject → Outcome Text) (to_text : PyObject → Text) (h : ℕ) where
  open_path-IsFresh :
      (path : Text) (pragmas : Option (List (PyObject × PyObject))) (init_hook : Option PyObject)
      (timeout : ℕ)
      → OkIs (IsFresh h) (open_path extract_key to_text path pragmas init_hook timeout)
  unfolding open_path
  open_path-IsFresh path pragmas init_hook timeout =
      OkIs-bind (IsFresh h) (parse_connection_string path) _ λ parsed.
        OkIs-bind (IsFresh h) (validate_path parsed.0) _ λ _.
          OkIs-bind (IsFresh h) (given_pragmas extract_key to_text pragmas) _
            λ given. (empty-IsSettled _ (λ e. cc) refl, refl)

  new-IsFresh :
      (path : Text) (pragmas : Option (List (PyObject × PyObject))) (init_hook : Option PyObject)
      (timeout : ℤ)
      → OkIs (IsFresh h) (new extract_key to_text path pragmas init_hook timeout)
  unfolding new
  new-IsFresh path pragmas init_hook (negsuc n) = tt
  new-IsFresh path pragmas init_hook (pos n) = open_path-IsFresh path pragmas init_hook n

  -- From a `Connection::new` that succeeds on, through any calls of the methods of the connection and of
  -- its cursors and any backups to and from other connections, each run to its end, with any errors: no
  -- reservation of a transaction is left behind, the slot is empty unless a transaction is active, and
  -- every pooled connection was handed out exactly as often as it was handed back or is still held.
  -- The initialisation hook is to keep this too, SQLite is to end every backup within so many steps, and
  -- no backup has a negative pause.
  pub new-run :
      (env : Env) (tables : CharTables) (fuel : ℕ)
      (stops : (pages : ℤ) (k : ℕ) (t : List Event) → Stops env k (pages_to_copy pages) fuel t)
      (settled : HookKeeps IsSettled env) (balanced : HookKeeps (Balanced h) env) (path : Text)
      (pragmas : Option (List (PyObject × PyObject))) (init_hook : Option PyObject) (timeout : ℤ)
      (c : Connection) (us : List Use)
      → new extract_key to_text path pragmas init_hook timeout ≡ ok c
      → IsSettled (run_uses env tables fuel us c) × Balanced h (run_uses env tables fuel us c)
  new-run env tables fuel stops settled balanced path pragmas init_hook timeout c us made =
      let fresh = OkIs-ok (IsFresh h) made (new-IsFresh path pragmas init_hook timeout) in
      (
        run_uses-IsSettled env tables settled fuel stops us c fresh.0,
        run_uses-Balanced env tables h balanced fuel stops us c fresh.1,
      )
