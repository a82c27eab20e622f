-- ===== src/Tasks/Alone.antt =====
-- src/connection.rs: a call that takes its turns with no other between them is the method run at once.
use rapsqlite.Prelude.{
  true, false, ℕ, zero, suc, ◌≡◌, refl, inl, inr, ◌⊎◌, List, [], ◌∷◌, none, some, ◌∙◌, ap,
  if◌then◌else◌,
}
use rapsqlite.Outcome.{Outcome, ok, err, PyErr, Statement}
use rapsqlite.State.{Connection, Env}
use rapsqlite.Transaction.{close, begin, commit, rollback}
use rapsqlite.Tasks.Solo.{solo, solo-begin}
use rapsqlite.Tasks.SoloEnd.{solo-end, solo-close}
use rapsqlite.Tasks.{
  calls_close, resume, System, move, turn, act, run_actions, calls_begin, calls_end, turns, at_rest,
}
use rapsqlite.Tasks.Places.{
  shutting, closes, Task, begins, ends, finished, holds_state, holds_connection,
}

-- An outcome with its state, taken apart.
Result-cases :
    {A S : Type 0} (r : Outcome A × S)
    → ((a : A) × (s : S) × (r ≡ (ok a, s))) ⊎ ((e : PyErr) × (s : S) × (r ≡ (err e, s)))
Result-cases (ok a, s) = inl (a, s, refl)
Result-cases (err e, s) = inr (e, s, refl)

abbrev pub replicate {ℓ} : {A : Type ℓ} → ℕ → A → List A
replicate zero a = []
replicate (suc n) a = a ∷ replicate n a

-- One task, with the mutexes that it holds.
abbrev single : Connection × Task → System
single (c, t) = record {
  conn = c;
  state_lock = if holds_state t then some 0 else none;
  connection_lock = if holds_connection t then some 0 else none;
  tasks = t ∷ [];
}

-- The connection after a method, and its one task with the outcome.
abbrev pub returned : Outcome (Unit {0}) × Connection → System
returned (r, c) = record {
  conn = c;
  state_lock = none;
  connection_lock = none;
  tasks = finished r ∷ [];
}

module _ (env : Env) where
  turn-single : (c : Connection) (t : Task) → turn env 0 (single (c, t)) ≡ single (resume env c t)
  unfolding turn move
  turn-single c begins = refl
  turn-single c (shutting true) = refl
  turn-single c (shutting false) = refl
  turn-single c _ = refl

  turns-single :
      (n : ℕ) (x : Connection × Task)
      → run_actions env (replicate n (turns 0)) (single x) ≡ single (solo env n x)
  unfolding run_actions act solo
  turns-single zero x = refl
  turns-single (suc n) (c, t) =
      ap (run_actions env (replicate n (turns 0))) (turn-single c t)
      ∙ turns-single n (resume env c t)

  -- A call of `begin`, `commit`, `rollback` or `close` that takes all its turns while there is no other task ends
  -- with the outcome and the connection that the method gives when it is run at once: twelve turns are
  -- enough for `begin`, six for `close`, four for the others.
  pub run_actions_alone :
      (c : Connection)
      → (run_actions env (calls_begin ∷ replicate 12 (turns 0)) (at_rest c)
          ≡ returned (begin env c))
        × (run_actions env (calls_end Statement.commit ∷ replicate 4 (turns 0)) (at_rest c)
            ≡ returned (commit env c))
        × (run_actions env (calls_end Statement.rollback ∷ replicate 4 (turns 0)) (at_rest c)
            ≡ returned (rollback env c))
        × (run_actions env (calls_close ∷ replicate 6 (turns 0)) (at_rest c)
            ≡ returned (ok tt, close env c))
  unfolding run_actions act commit rollback
  run_actions_alone c = (
    turns-single 12 (c, begins) ∙ ap single (solo-begin env c),
    turns-single 4 (c, ends Statement.commit) ∙ ap single (solo-end env Statement.commit c),
    turns-single 4 (c, ends Statement.rollback) ∙ ap single (solo-end env Statement.rollback c),
    turns-single 6 (c, closes) ∙ ap single (solo-close env c),
  )
