-- ===== src/Backup/Restoring.antt =====
-- A backup that comes to its end keeps whatever holds of its two ends once what was taken is restored.
use rapsqlite.Prelude.{ℕ, ◌≡◌, refl, Bool, true, false, List, Option, none, some, Text}
use rapsqlite.Prelude.Int.{ℤ}
use rapsqlite.Outcome.{Outcome, ok, err, PyErr}
use rapsqlite.State.{Connection, Env, Event}
use rapsqlite.Callbacks.{do_lock}
use rapsqlite.Callbacks.Keeping.{CallsKeep, do_lock-Keeps}
use rapsqlite.Backup.{
  Held, Side, start_side, foreign_handle, restore, pages_to_copy, take, copy, Backup, end_backup,
  copied, with_target, to_taken, to_foreign, to_target, backup,
}
use rapsqlite.Backup.Keeping.{copy-Keeps}
use rapsqlite.Backup.Loop.{Stops, has_ended, copy-ended}

-- A property of a connection, and what it is while something is taken from the connection.
pub record Restores (P : Connection → Type 0) (H : Side → Type 0) (env : Env) : Type 0 where
  pub starts : (c : Connection) → P c → H (start_side c)
  pub restores : (s : Side) → H s → P (restore s)
  pub takes : (e₁ e₂ : PyErr) (c : Connection) → P c → H (take env e₁ e₂ c).1
  pub calls : (held : Option Held) → CallsKeep (λ c. H (record { conn = c; held = held }))

-- A backup that came to its end, with what holds of its two ends then.
abbrev pub Ends : (Connection → Type 0) → (Connection → Type 0) → Backup → Type 0
Ends P Q b = (has_ended b.answer ≡ true) × P b.source × Q b.target

module _ (env : Env) {P Q : Connection → Type 0} {H K : Side → Type 0} (p : Restores P H env)
    (q : Restores Q K env) where
  end_backup-Ends :
      (s t : Side) (r : Outcome Bool) → H s → K t → has_ended r ≡ true → Ends P Q (end_backup s t r)
  unfolding end_backup
  end_backup-Ends s t (ok true) a b e = (refl, p.restores s a, q.restores t b)
  end_backup-Ends s t (ok false) a b e = absurd cc
  end_backup-Ends s t (err x) a b e = (refl, p.restores s a, q.restores t b)

  copied-Ends :
      (s t : Side) (r : Outcome Bool × Connection)
      → H (record s { conn = r.1 })
      → K t
      → has_ended r.0 ≡ true
      → Ends P Q (copied s t r)
  copied-Ends s t (r, c) a b e = end_backup-Ends (record s { conn = c }) t r a b e

  module _ (fuel : ℕ) (name : Text) (pages : ℤ)
      (stops : (k : ℕ) (t : List Event) → Stops env k (pages_to_copy pages) fuel t) where
    copy-Ends :
        (s t : Side) (k target : ℕ)
        → H s
        → K t
        → Ends P Q (copied s t (copy env fuel name pages target k s.conn))
    copy-Ends s t k target a b =
        copied-Ends s t (copy env fuel name pages target k s.conn)
          ((copy-Keeps env (p.calls s.held) k fuel name pages target).at s.conn a) b
          (copy-ended env k fuel name pages target s.conn (stops k))

    with_target-Ends :
        (s t : Side) (k target : ℕ) (r : Outcome (Unit {0}) × Connection)
        → H s
        → K (record t { conn = r.1 })
        → Ends P Q (with_target env fuel name pages s k t target r)
    unfolding with_target
    with_target-Ends s t k target (err e, c) a b =
        end_backup-Ends s (record t { conn = c }) (err e) a b refl
    with_target-Ends s t k target (ok u, c) a b = copy-Ends s (record t { conn = c }) k target a b

    to_taken-Ends :
        (s : Side) (k : ℕ) (r : Outcome ℕ × Side)
        → H s
        → K r.1
        → Ends P Q (to_taken env fuel name pages s k r)
    unfolding to_taken
    to_taken-Ends s k (err e, t) a b = end_backup-Ends s t (err e) a b refl
    to_taken-Ends s k (ok target, t) a b =
        with_target-Ends s t k target (do_lock env target t.conn) a
          ((do_lock-Keeps env (q.calls t.held) target).at t.conn b)

    to_foreign-Ends :
        (s : Side) (k : ℕ) (t : Connection) (r : Outcome ℕ)
        → H s
        → Q t
        → Ends P Q (to_foreign env fuel name pages s k t r)
    unfolding to_foreign
    to_foreign-Ends s k t (err e) a b =
        end_backup-Ends s (start_side t) (err e) a (q.starts t b) refl
    to_foreign-Ends s k t (ok target) a b = copy-Ends s (start_side t) k target a (q.starts t b)

    to_target-Ends :
        (foreign : Option (Outcome (Option ℕ))) (t : Connection) (r : Outcome ℕ × Side)
        → H r.1
        → Q t
        → Ends P Q (to_target env fuel name pages foreign t r)
    unfolding to_target
    to_target-Ends foreign t (err e, s) a b =
        end_backup-Ends s (start_side t) (err e) a (q.starts t b) refl
    to_target-Ends none t (ok k, s) a b = to_taken-Ends s k (take env _ _ t) a (q.takes _ _ t b)
    to_target-Ends (some given) t (ok k, s) a b = to_foreign-Ends s k t (foreign_handle given) a b

    pub backup-Ends :
        (foreign : Option (Outcome (Option ℕ))) (c t : Connection)
        → P c
        → Q t
        → Ends P Q (backup env fuel name pages foreign c t)
    unfolding backup
    backup-Ends foreign c t a b =
        to_target-Ends foreign t
          (take env PyErr.no_transaction_connection PyErr.no_callback_connection c)
          (p.takes _ _ c a) b
