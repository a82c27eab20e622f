-- ===== src/Tasks/SoloEnd.antt =====
-- src/connection.rs: the turns of one call of `commit`, `rollback` or `close`, with no other between them.
use rapsqlite.Prelude.{
  ap, ℕ, suc, ◌≡◌, true, Bool-cases, inl, inr, [], Option, none, Option-cases, ◌∙◌,
}
use rapsqlite.Outcome.{ok, err, Statement}
use rapsqlite.Types.{idle, is_exactly_active}
use rapsqlite.State.{Connection, Env, Target, do_execute}
use rapsqlite.Pool.{has_callbacks}
use rapsqlite.Transaction.{
  clear_callbacks, close_pool, close, abandon, end_open_transaction, finish_with, end_transaction,
}
use rapsqlite.Tasks.Solo.{Result-cases, conclude, solo, solo-finished, solo-step}
use rapsqlite.Tasks.{
  end_turn, close_turn, after_ending, take_transaction_slot, take_open_slot, resume,
}
use rapsqlite.Tasks.Places.{
  ends, locked, ending, ended, closes, emptied, closing, rolling, rolled, shutting,
}

module _ (env : Env) where
  -- `commit` and `rollback` in four turns.
  pub solo-end :
      (sql : Statement) (c : Connection)
      → solo env 4 (c, ends sql) ≡ conclude (finish_with env sql (has_callbacks c) c)
  unfolding resume finish_with end_transaction
  solo-end sql c =
      let c' = record c { transaction_connection = none } in
      solo-step env _ c (ends sql) ∙ elim (Bool-cases (is_exactly_active c.transaction_state)) [
        | inr off ↦ rw (off, end_turn, finish_with) (solo-finished env 3 c _)
        | inl on ↦
            rw (on, end_turn, finish_with)
              (solo-step env _ c (locked sql (has_callbacks c))
                ∙ elim (Option-cases c.transaction_connection) [
                  | inl e ↦ rw (e, take_transaction_slot) (solo-finished env 2 c _)
                  | inr (h, e) ↦
                      rw (e, take_transaction_slot)
                        (solo-step env _ c' (ending sql (has_callbacks c) h)
                          ∙ elim (Result-cases
                              (do_execute env (Target.on_connection h) sql [] c')) [
                                | inl (d, c2, e2) ↦
                                    rw (e2, after_ending, end_transaction)
                                      (solo-step env _ c2 (ended (has_callbacks c) h)
                                        ∙ solo-finished env 0 _ (ok tt))
                                | inr (x, c2, e2) ↦
                                    rw (e2, after_ending, end_transaction)
                                      (solo-finished env 1 _ (err x))
                              ])
                ])
      ]

  solo-rolled :
      (n : ℕ) (c : Connection)
      → solo env (suc (suc n)) (c, rolled)
        ≡ conclude (ok tt, close_pool (record c { transaction_state = idle }))
  unfolding solo resume
  solo-rolled n c = solo-finished env n _ (ok tt)

  solo-emptied :
      (c : Connection)
      → solo env 5 (c, emptied) ≡ conclude (ok tt, close_pool (end_open_transaction env c))
  unfolding resume abandon end_open_transaction
  solo-emptied c =
      let c' = record c { transaction_connection = none } in
      solo-step env _ c emptied ∙ elim (Bool-cases (is_exactly_active c.transaction_state)) [
        | inr off ↦
            rw (off, close_turn, end_open_transaction)
              (solo-step env _ c (shutting true) ∙ solo-finished env 3 _ (ok tt))
        | inl on ↦
            rw (on, close_turn, end_open_transaction)
              (solo-step env _ c closing ∙ elim (Option-cases c.transaction_connection) [
                | inl e ↦
                    rw (e, take_open_slot)
                      (solo-rolled 1 c
                        ∙ ap
                            (λ (o : Option ℕ). conclude (
                              ok tt,
                              close_pool (record c {
                                transaction_connection = o;
                                transaction_state = idle;
                              }),
                            ))
                            e)
                | inr (h, e) ↦
                    rw (e, take_open_slot) (solo-step env _ c' (rolling h) ∙ solo-rolled 0 _)
              ])
      ]

  -- `close` in six turns.
  pub solo-close : (c : Connection) → solo env 6 (c, closes) ≡ conclude (ok tt, close env c)
  unfolding resume close
  solo-close c = solo-step env _ c closes ∙ solo-emptied (clear_callbacks c)
