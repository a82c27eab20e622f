-- ===== src/Backup/Loop.antt =====
-- That the loop of a backup comes to its end with enough fuel.
use rapsqlite.Prelude.{ℕ, zero, suc, ◌≡◌, refl, Bool, true, false, List, ◌∷◌, Text, arith}
use rapsqlite.Prelude.Int.{ℤ}
use rapsqlite.Outcome.{Outcome, ok, err, CCall}
use rapsqlite.State.{Connection, Env, Event, M, ◌>>=◌, and_then, log, effects}
use rapsqlite.Callbacks.{do_c_call, check_code}
use rapsqlite.Backup.{goes_on, pages_to_copy, after_step, backup_loop, finish_backup, copy}

-- The answer is an end, and not a loop that needs more steps.
abbrev pub has_ended : Outcome Bool → Bool
has_ended (ok b) = b
has_ended (err e) = true

abbrev stepped : ℕ → ℤ → List Event → List Event
stepped h pages t = Event.calls_c h (CCall.steps_backup pages) ∷ t

-- One of the next so many steps is answered by something else than OK, BUSY and LOCKED.
pub data Stops (env : Env) (h : ℕ) (pages : ℤ) : ℕ → List Event → Type 0 where
  now :
      {n : ℕ} {t : List Event}
      → goes_on (env.c_result (stepped h pages t)) ≡ false
      → Stops env h pages (suc n) t
  next :
      {n : ℕ} {t : List Event}
      → goes_on (env.c_result (stepped h pages t)) ≡ true
      → Stops env h pages n (stepped h pages t)
      → Stops env h pages (suc n) t

and_then-ended :
    {A : Type 0} (r : Outcome A × Connection) (f : A → M Connection Bool)
    → ((a : A) (c : Connection) → has_ended (f a c).0 ≡ true)
    → has_ended (and_then r f).0 ≡ true
unfolding and_then
and_then-ended (ok a, c) f h = h a c
and_then-ended (err e, c) f h = refl

record Returns (m : M Connection Bool) : Type 0 where
  pub at : (c : Connection) → has_ended (m c).0 ≡ true

Returns-bind :
    {A : Type 0} (m : M Connection A) (f : A → M Connection Bool)
    → ((a : A) → Returns (f a))
    → Returns (m >>= f)
unfolding ◌>>=◌
Returns-bind m f h = record { at = λ c. and_then-ended (m c) f λ a c'. (h a).at c' }

module _ (env : Env) (h : ℕ) where
  after_step-ended :
      (pages : ℤ) (rest : M Connection Bool) (code : ℤ) (c : Connection)
      → goes_on code ≡ false
      → has_ended (after_step env h pages rest code c).0 ≡ true
  unfolding after_step do_c_call effects and_then
  after_step-ended pages rest code c e = ground arith

  backup_loop-ended :
      (pages : ℤ) (n : ℕ) (c : Connection)
      → Stops env h pages n c.trace
      → has_ended (backup_loop env n h pages c).0 ≡ true
  unfolding backup_loop do_c_call ◌>>=◌ and_then after_step
  backup_loop-ended pages zero c s = elim s [ ]
  backup_loop-ended pages (suc n) c (now stop) =
      after_step-ended pages (backup_loop env n h pages) (env.c_result (stepped h pages c.trace))
        (log (Event.calls_c h (CCall.steps_backup pages)) c) stop
  backup_loop-ended pages (suc n) c (next on rest) =
      rw on (backup_loop-ended pages n (log (Event.calls_c h (CCall.steps_backup pages)) c) rest)

  finish_backup-ended :
      (r : Outcome Bool × Connection)
      → has_ended r.0 ≡ true
      → has_ended (and_then r (finish_backup env h)).0 ≡ true
  unfolding finish_backup do_c_call check_code effects and_then
  finish_backup-ended (ok true, c) e = ground arith
  finish_backup-ended (ok false, c) e = absurd cc
  finish_backup-ended (err x, c) e = refl

  finish-Returns :
      (fuel : ℕ) (pages : ℤ)
      → ((t : List Event) → Stops env h pages fuel t)
      → Returns (backup_loop env fuel h pages >>= finish_backup env h)
  unfolding ◌>>=◌
  finish-Returns fuel pages stops = record {
    at = λ c.
        finish_backup-ended (backup_loop env fuel h pages c)
          (backup_loop-ended pages fuel c (stops c.trace));
  }

  copy-Returns :
      (fuel : ℕ) (name : Text) (pages : ℤ) (target : ℕ)
      → ((t : List Event) → Stops env h (pages_to_copy pages) fuel t)
      → Returns (copy env fuel name pages target h)
  unfolding copy
  copy-Returns fuel name pages target stops = Returns-bind _ _ λ _. Returns-bind _ _ λ _.
      Returns-bind _ _ λ _. Returns-bind _ _ λ _.
        Returns-bind _ _ λ _. Returns-bind _ _ λ _. finish-Returns fuel (pages_to_copy pages) stops

  -- A backup that is answered by an end after at most so many steps comes to its end.
  pub copy-ended :
      (fuel : ℕ) (name : Text) (pages : ℤ) (target : ℕ) (c : Connection)
      → ((t : List Event) → Stops env h (pages_to_copy pages) fuel t)
      → has_ended (copy env fuel name pages target h c).0 ≡ true
  copy-ended fuel name pages target c stops = (copy-Returns fuel name pages target stops).at c
