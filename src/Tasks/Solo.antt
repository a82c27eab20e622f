-- ===== src/Tasks/Solo.antt =====
-- src/connection.rs: the turns of one call, with no other between them.
use rapsqlite.Prelude.{
  ℕ, zero, suc, ◌≡◌, refl, Bool, true, false, Bool-cases, inl, inr, ◌⊎◌, [], Option, none, some,
  Option-cases, ◌∙◌,
}
use rapsqlite.Outcome.{Outcome, ok, err, PyErr, Statement}
use rapsqlite.Types.{is_active}
use rapsqlite.State.{Connection, Env, Target, do_acquire, do_execute, effects, and_then}
use rapsqlite.Pool.{
  has_callbacks, get_or_create_pool, ensure_callback_connection, execute_init_hook_if_needed,
}
use rapsqlite.Transaction.{
  Begin, within, start_begin, end_begin, clean_up, begin_on_pending, open_transaction,
  store_pending, timeout_ms, pend, pend_from_pool, pend_from_callback, take_callback, prepare,
  begin_body, begin, reserve,
}
use rapsqlite.Tasks.{begin_turn, proceed, choose, take_callback_slot, resume}
use rapsqlite.Tasks.Places.{
  Task, begins, checked, has_pool, hooked, reserved, ensured, pending, tuned, begun, failing,
  finished,
}

-- An outcome with its state, taken apart.
pub Result-cases :
    {A S : Type 0} (r : Outcome A × S)
    → ((a : A) × (s : S) × (r ≡ (ok a, s))) ⊎ ((e : PyErr) × (s : S) × (r ≡ (err e, s)))
Result-cases (ok a, s) = inl (a, s, refl)
Result-cases (err e, s) = inr (e, s, refl)

abbrev locals : Connection → Bool → Option ℕ → Begin
locals c from_callback held = record {
  conn = c;
  from_callback = from_callback;
  pending_conn = held;
}

abbrev pub conclude : Outcome (Unit {0}) × Connection → Connection × Task
conclude (r, c) = (c, finished r)

-- The end of `begin`, as the place where its task stops.
abbrev fin : Outcome (Unit {0}) × Begin → Connection × Task
fin x = conclude (end_begin x)

module _ (env : Env) where
  unfoldable pub solo : ℕ → Connection × Task → Connection × Task
  solo zero x = x
  solo (suc n) (c, t) = solo n (resume env c t)

  pub solo-finished :
      (n : ℕ) (c : Connection) (r : Outcome (Unit {0})) → solo n (c, finished r) ≡ (c, finished r)
  unfolding solo resume
  solo-finished zero c r = refl
  solo-finished (suc n) c r = solo-finished n c r

  solo-failing :
      (n : ℕ) (e : PyErr) (b : Begin)
      → solo (suc (suc (suc n))) (b.conn, failing e b.from_callback b.pending_conn) ≡ fin (err e, b)
  unfolding solo resume end_begin clean_up
  solo-failing n e b = elim (Option-cases b.conn.transaction_connection) [
    | inl x ↦ elim (Option-cases b.pending_conn) [
      | inl y ↦ rw (x, y, clean_up) (solo-finished n _ _)
      | inr (k, y) ↦ rw (x, y, clean_up) (solo-finished n _ _)
    ]
    | inr (h, x) ↦ elim (Option-cases b.pending_conn) [
      | inl y ↦ rw (x, y, clean_up) (solo-finished n _ _)
      | inr (k, y) ↦ rw (x, y, clean_up) (solo-finished n _ _)
    ]
  ]

  solo-begun :
      (n : ℕ) (c : Connection) (fc : Bool) (h : ℕ)
      → solo (suc (suc n)) (c, begun fc h) ≡ fin (ok tt, store_pending (locals c fc (some h)))
  unfolding solo resume end_begin store_pending
  solo-begun n c fc h = solo-finished n _ _

  -- One turn, and a turn whose call may fail.
  pub solo-step :
      (n : ℕ) (c : Connection) (t : Task) → solo (suc n) (c, t) ≡ solo n (resume env c t)
  unfolding solo
  solo-step n c t = refl

  solo-pending :
      (n : ℕ) (c : Connection) (fc : Bool) (h : ℕ)
      → solo (suc (suc (suc (suc (suc n))))) (c, pending fc h)
        ≡ fin (begin_on_pending env (locals c fc (some h)))
  unfolding resume begin_on_pending within effects and_then open_transaction
  solo-pending n c fc h =
      solo-step _ c (pending fc h)
      ∙ elim (Result-cases
          (do_execute env (Target.on_connection h) (Statement.busy_timeout (timeout_ms c)) [] c)) [
            | inl (d, c', e) ↦
                rw (e, and_then, proceed)
                  (solo-step _ c' (tuned fc h)
                    ∙ elim (Result-cases
                        (do_execute env (Target.on_connection h) Statement.begin_immediate [] c')) [
                          | inl (d2, c2, e2) ↦
                              rw (e2, and_then, proceed) (solo-begun (suc n) c2 fc h)
                          | inr (x, c2, e2) ↦
                              rw (e2, and_then, proceed) (solo-failing n x (locals c2 fc (some h)))
                        ])
            | inr (x, c', e) ↦
                rw (e, and_then, proceed) (solo-failing (suc n) x (locals c' fc (some h)))
          ]

  solo-ensured :
      (n : ℕ) (c : Connection)
      → solo (suc (suc (suc (suc (suc (suc n)))))) (c, ensured)
        ≡ fin (and_then (take_callback (locals c true none)) (λ _. begin_on_pending env))
  unfolding resume take_callback take_callback_slot and_then
  solo-ensured n c = solo-step _ c ensured ∙ elim (Option-cases c.callback_connection) [
    | inl e ↦
        rw (e, take_callback_slot, and_then)
          (solo-failing (suc (suc n)) PyErr.no_callback_connection (locals c true none))
    | inr (h, e) ↦ rw (e, take_callback_slot, and_then) (solo-pending n _ true h)
  ]

  solo-reserved :
      (n : ℕ) (c : Connection) (p : ℕ)
      → solo (suc (suc (suc (suc (suc (suc (suc n))))))) (c, reserved p)
        ≡ fin (and_then (pend env p (locals c false none)) (λ _. begin_on_pending env))
  unfolding resume choose pend pend_from_pool pend_from_callback within effects and_then
  solo-reserved n c p = solo-step _ c (reserved p) ∙ elim (Bool-cases (has_callbacks c)) [
    | inl set ↦
        rw (set, choose, pend)
          (elim (Result-cases (ensure_callback_connection env c)) [
            | inl (u, c', e) ↦ rw (e, and_then, proceed) (solo-ensured n c')
            | inr (x, c', e) ↦
                rw (e, and_then, proceed) (solo-failing (suc (suc (suc n))) x (locals c' true none))
          ])
    | inr unset ↦
        rw (unset, choose, pend)
          (elim (Result-cases (do_acquire env p c)) [
            | inl (h, c', e) ↦ rw (e, and_then, proceed) (solo-pending (suc n) c' false h)
            | inr (x, c', e) ↦
                rw (e, and_then, proceed)
                  (solo-failing (suc (suc (suc n))) x (locals c' false none))
          ])
  ]

  solo-checked :
      (n : ℕ) (c : Connection)
      → solo (suc (suc (suc (suc (suc (suc (suc (suc (suc (suc n)))))))))) (c, checked)
        ≡ fin (begin_body env (start_begin c))
  unfolding resume begin_body prepare within effects and_then
  solo-checked n c = solo-step _ c checked ∙ elim (Result-cases (get_or_create_pool env c)) [
    | inr (x, c', e) ↦ rw (e, and_then, proceed) (solo-failing _ x (locals c' false none))
    | inl (p, c', e) ↦
        rw (e, and_then, proceed)
          (solo-step _ c' (has_pool p) ∙ elim (Result-cases (execute_init_hook_if_needed env c')) [
            | inr (x, c2, e2) ↦ rw (e2, and_then, proceed) (solo-failing _ x (locals c2 false none))
            | inl (u, c2, e2) ↦
                rw (e2, and_then, proceed)
                  (solo-step _ c2 (hooked p) ∙ elim (Result-cases (reserve c2)) [
                    | inr (x, c3, e3) ↦
                        rw (e3, and_then, proceed) (solo-failing _ x (locals c3 false none))
                    | inl (u3, c3, e3) ↦ rw (e3, and_then, proceed) (solo-reserved n c3 p)
                  ])
          ])
  ]

  -- `begin` in twelve turns.
  pub solo-begin : (c : Connection) → solo 12 (c, begins) ≡ conclude (begin env c)
  unfolding resume begin
  solo-begin c = elim (Bool-cases (is_active c.transaction_state)) [
    | inl on ↦ solo-step _ c begins ∙ rw (on, begin_turn, begin) (solo-finished 11 c _)
    | inr off ↦ solo-step _ c begins ∙ rw (off, begin_turn, begin) (solo-checked 1 c)
  ]
