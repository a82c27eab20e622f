-- ===== src/Transaction/Ending.antt =====
-- How a transaction ends: by `commit`, `rollback` or the exit of its context manager.
use rapsqlite.Prelude.{
  ℕ, ◌≡◌, refl, ap, ◌∙◌, Bool, true, false, [], ◌∷◌, Option, some, none, if◌then◌else◌, arith,
}
use rapsqlite.Outcome.{Outcome, ok, err, PyErr, SqlxError, Statement}
use rapsqlite.Types.{idle, active, is_exactly_active}
use rapsqlite.State.{Connection, Env, Event, Target, Done, Reply, reply, fail, do_execute, answer}
use rapsqlite.Pool.{has_callbacks}
use rapsqlite.Transaction.{
  finish_with, end_transaction, give_back, set_callback, commit, rollback, transaction_exit,
}

-- The connection and the trace when the statement `sql` has been sent on `h`.
abbrev pub sent : Statement → ℕ → Connection → Connection
sent sql h c = record c {
  transaction_connection = none;
  trace = Event.executes (Target.on_connection h) sql [] ∷ c.trace;
}

do_execute-reply :
    (env : Env) (sql : Statement) (h : ℕ) (c : Connection) (d : Done)
    → env.execute (sent sql h c).trace ≡ reply d
    → do_execute env (Target.on_connection h) sql [] (record c { transaction_connection = none })
      ≡ (ok d, sent sql h c)
unfolding do_execute answer
do_execute-reply env sql h c d e = rw e

do_execute-fail :
    (env : Env) (sql : Statement) (h : ℕ) (c : Connection) (x : SqlxError)
    → env.execute (sent sql h c).trace ≡ fail x
    → do_execute env (Target.on_connection h) sql [] (record c { transaction_connection = none })
      ≡ (err (PyErr.mapped x sql), sent sql h c)
unfolding do_execute answer
do_execute-fail env sql h c x e = rw e

module _ (env : Env) (sql : Statement) (keep : Bool) (c : Connection) (h : ℕ)
    (opened : c.transaction_state ≡ active) (held : c.transaction_connection ≡ some h) where
  finish_with-sent :
      finish_with env sql keep c
      ≡ end_transaction keep h (
          do_execute env
            (Target.on_connection h)
            sql
            []
            (record c { transaction_connection = none }))
  unfolding finish_with is_exactly_active
  finish_with-sent = ground arith

  pub finish_with-reply :
      (d : Done)
      → env.execute (sent sql h c).trace ≡ reply d
      → finish_with env sql keep c
        ≡ (ok tt, record (give_back keep h (sent sql h c)) { transaction_state = idle })
  unfolding end_transaction
  finish_with-reply d e =
      finish_with-sent ∙ ap (end_transaction keep h) (do_execute-reply env sql h c d e)

  pub finish_with-fail :
      (x : SqlxError)
      → env.execute (sent sql h c).trace ≡ fail x
      → finish_with env sql keep c ≡ (
        err (PyErr.mapped x sql),
        record (sent sql h c) { trace = Event.drops h ∷ (sent sql h c).trace },
      )
  unfolding end_transaction
  finish_with-fail x e =
      finish_with-sent ∙ ap (end_transaction keep h) (do_execute-fail env sql h c x e)

-- Where the connection goes: a transaction with callbacks gives its connection back to them.
abbrev pub callback_after : Bool → ℕ → Connection → Option ℕ
callback_after keep h c = if keep then some h else c.callback_connection

-- Ended: no transaction, an empty slot, and the connection where it belongs.
abbrev pub Ended : Bool → ℕ → Connection → Outcome (Unit {0}) × Connection → Type 0
Ended keep h c (r, c') =
    (r ≡ ok tt)
    × (c'.transaction_state ≡ idle)
    × (c'.transaction_connection ≡ none)
    × (c'.callback_connection ≡ callback_after keep h c)
    × (c'.pool ≡ c.pool)

give_back-Ended :
    (sql : Statement) (keep : Bool) (c : Connection) (h : ℕ)
    → Ended keep h c (ok tt, record (give_back keep h (sent sql h c)) { transaction_state = idle })
unfolding give_back set_callback
give_back-Ended sql true c h = ground arith
give_back-Ended sql false c h = ground arith

-- Not ended: the error is told, the state is left active, and the connection is gone.
abbrev pub Lost : PyErr → ℕ → Connection → Outcome (Unit {0}) × Connection → Type 0
Lost e h c (r, c') =
    (r ≡ err e)
    × (c'.transaction_state ≡ active)
    × (c'.transaction_connection ≡ none)
    × (c'.callback_connection ≡ c.callback_connection)
    × (c'.pool ≡ c.pool)

-- What the answer to the last statement makes of the transaction.
abbrev pub Finished :
    Statement → Bool → ℕ → Connection → Reply Done → Outcome (Unit {0}) × Connection → Type 0
Finished sql keep h c (reply d) r = Ended keep h c r
Finished sql keep h c (fail x) r = Lost (PyErr.mapped x sql) h c r

module _ (env : Env) (sql : Statement) (keep : Bool) (c : Connection) (h : ℕ)
    (opened : c.transaction_state ≡ active) (held : c.transaction_connection ≡ some h) where
  finish_with-answer :
      (answer : Reply Done)
      → env.execute (sent sql h c).trace ≡ answer
      → Finished sql keep h c answer (finish_with env sql keep c)
  finish_with-answer (reply d) e =
      rw (finish_with-reply env sql keep c h opened held d e) (give_back-Ended sql keep c h)
  finish_with-answer (fail x) e =
      rw (finish_with-fail env sql keep c h opened held x e) (refl, opened, refl, refl, refl)

  finish_with-Finished :
      Finished sql keep h c (env.execute (sent sql h c).trace) (finish_with env sql keep c)
  finish_with-Finished = finish_with-answer (env.execute (sent sql h c).trace) refl

-- In an active transaction on a connection, `commit`, `rollback` and the exit of the context manager send
-- their statement there. When it succeeds the transaction is ended; `commit` and `rollback` give the
-- connection to the callbacks when there are any, and the exit never does. When it fails, the error is
-- raised, the connection is gone and the state is still active.
pub ends_transaction :
    (env : Env) (c : Connection) (h : ℕ)
    → c.transaction_state ≡ active
    → c.transaction_connection ≡ some h
    → Finished Statement.commit
        (has_callbacks c)
        h
        c
        (env.execute (sent Statement.commit h c).trace)
        (commit env c)
      × Finished Statement.rollback
          (has_callbacks c)
          h
          c
          (env.execute (sent Statement.rollback h c).trace)
          (rollback env c)
      × Finished Statement.rollback false h c
          (env.execute (sent Statement.rollback h c).trace)
          (transaction_exit env true c)
      × Finished Statement.commit false h c
          (env.execute (sent Statement.commit h c).trace)
          (transaction_exit env false c)
unfolding commit rollback transaction_exit
ends_transaction env c h opened held = (
  finish_with-Finished env Statement.commit (has_callbacks c) c h opened held,
  finish_with-Finished env Statement.rollback (has_callbacks c) c h opened held,
  finish_with-Finished env Statement.rollback false c h opened held,
  finish_with-Finished env Statement.commit false c h opened held,
)
