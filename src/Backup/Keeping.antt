-- ===== src/Backup/Keeping.antt =====
-- What the copying of a backup keeps: any property that its calls leave alone.
use rapsqlite.Prelude.{ℕ, zero, suc, Bool, true, false, Text, arith}
use rapsqlite.Prelude.Int.{ℤ}
use rapsqlite.Outcome.{PyErr, CCall}
use rapsqlite.State.{Connection, Env, M, effects}
use rapsqlite.Keeps.{Keeps, Keeps-bind, Keeps-pure, Keeps-throw, Keeps-if}
use rapsqlite.Callbacks.Keeping.{
  CallsKeep, do_lock-Keeps, do_c_call-Keeps, check_code-Keeps, c_string-Keeps,
}
use rapsqlite.Backup.{
  goes_on, is_done, after_step, backup_loop, finish_backup, check_started, check_autocommit, copy,
}

module _ {P : Connection → Type 0} (env : Env) (k : CallsKeep P) (h : ℕ) where
  after_step-Keeps :
      (pages : ℤ) (rest : M Connection Bool) (code : ℤ)
      → Keeps P rest
      → Keeps P (after_step env h pages rest code)
  unfolding after_step
  after_step-Keeps pages rest code r = Keeps-if (goes_on code) _ _ r (
      Keeps-if (is_done code) _ _ (Keeps-pure true) (
        Keeps-bind _ _ (do_c_call-Keeps env k h CCall.ends_backup)
          λ _. Keeps-throw (PyErr.c_call_failed (CCall.steps_backup pages) code)))

  backup_loop-Keeps : (n : ℕ) (pages : ℤ) → Keeps P (backup_loop env n h pages)
  unfolding backup_loop
  backup_loop-Keeps zero pages = Keeps-pure false
  backup_loop-Keeps (suc n) pages =
      Keeps-bind _ _ (do_c_call-Keeps env k h _)
        λ code. after_step-Keeps pages _ code (backup_loop-Keeps n pages)

  finish_backup-Keeps : (done : Bool) → Keeps P (finish_backup env h done)
  unfolding finish_backup
  finish_backup-Keeps false = Keeps-pure false
  finish_backup-Keeps true =
      Keeps-bind _ _ (do_c_call-Keeps env k h _)
        λ code. Keeps-bind _ _ (check_code-Keeps _ code) λ _. Keeps-pure true

  check_started-Keeps : (call : CCall) (code : ℤ) → Keeps P (check_started env call code)
  unfolding check_started effects
  check_started-Keeps call code = record { at = λ c p. ground arith }

  check_autocommit-Keeps : (code : ℤ) → Keeps P (check_autocommit env code)
  unfolding check_autocommit effects
  check_autocommit-Keeps code = record { at = λ c p. ground arith }

  pub copy-Keeps :
      (fuel : ℕ) (name : Text) (pages : ℤ) (target : ℕ)
      → Keeps P (copy env fuel name pages target h)
  unfolding copy
  copy-Keeps fuel name pages target = Keeps-bind _ _ (do_lock-Keeps env k h) λ _.
      Keeps-bind _ _ (c_string-Keeps name) λ _.
        Keeps-bind _ _ (do_c_call-Keeps env k h _) λ autocommit.
          Keeps-bind _ _ (check_autocommit-Keeps autocommit) λ _.
            Keeps-bind _ _ (do_c_call-Keeps env k h _) λ started.
              Keeps-bind _ _ (check_started-Keeps _ started)
                λ _. Keeps-bind _ _ (backup_loop-Keeps fuel _) finish_backup-Keeps
