-- ===== src/Fetch/Many.antt =====
-- `execute_many` inside a transaction.
use rapsqlite.Prelude.{ℕ, ◌+◌, ◌≤◌, ◌≡◌, refl, ap, ◌∙◌, List, [], ◌∷◌, some, Text, length, arith}
use rapsqlite.Prelude.Int.{pos}
use rapsqlite.Outcome.{Outcome, ok, PyErr, Statement}
use rapsqlite.Types.{PyObject, SqliteParam, active, is_exactly_active}
use rapsqlite.State.{
  Connection, Env, Event, Target, Done, reply, ◌>>=◌, and_then, do_execute, answer, pure, effects,
}
use rapsqlite.Query.{max_execute_params}
use rapsqlite.Query.Binding.{bind_and_execute-eq}
use rapsqlite.Fetch.{
  Totals, process_sets, execute_on_slot, execute_sets, execute_many_route, execute_many,
  ensure_pool_unless,
}
use rapsqlite.Fetch.Route.{HookDone, hook_done}

-- No set has more parameters than a statement may.
abbrev pub AllFew : List (List SqliteParam) → Type 0
AllFew [] = Unit
AllFew (ps ∷ sets) = (length ps ≤ max_execute_params) × AllFew sets

module _ (env : Env) (answers : (t : List Event) → (d : Done) × (env.execute t ≡ reply d)) (h : ℕ)
    (query : Text) where
  -- The trace with one set more, and with all of them.
  abbrev pub sent_set : List SqliteParam → List Event → List Event
  sent_set ps trace = Event.executes (Target.on_connection h) (Statement.user query) ps ∷ trace

  abbrev pub sent_sets : List (List SqliteParam) → List Event → List Event
  sent_sets [] trace = trace
  sent_sets (ps ∷ sets) trace = sent_sets sets (sent_set ps trace)

  -- The changes added up, and the row id of the last answer.
  abbrev pub answered : List (List SqliteParam) → List Event → Totals → Totals
  answered [] trace t = t
  answered (ps ∷ sets) trace t =
      let d = (answers (sent_set ps trace)).0 in
      answered sets (sent_set ps trace)
        (record { changes = t.changes + d.rows_affected; row_id = d.last_insert_rowid })

  one_set :
      (missing : PyErr) (ps : List SqliteParam) (c : Connection)
      → length ps ≤ max_execute_params
      → c.transaction_connection ≡ some h
      → execute_on_slot env (λ c. c.transaction_connection) missing query ps c
        ≡ (ok (answers (sent_set ps c.trace)).0, record c { trace = sent_set ps c.trace })
  unfolding execute_on_slot effects do_execute answer
  one_set missing ps c few held = ground (
    arith,
    bind_and_execute-eq env (Target.on_connection h) query ps few c,
    (answers (sent_set ps c.trace)).1,
  )

  all_sets :
      (missing : PyErr) (sets : List (List SqliteParam)) (c : Connection) (t : Totals)
      → AllFew sets
      → c.transaction_connection ≡ some h
      → execute_sets env
          (execute_on_slot env (λ c. c.transaction_connection) missing query)
          sets
          t
          c
        ≡ (ok (answered sets c.trace t), record c { trace = sent_sets sets c.trace })
  unfolding execute_sets ◌>>=◌ and_then pure
  all_sets missing [] c t few held = refl
  all_sets missing (ps ∷ sets) c t few held =
      let d = (answers (sent_set ps c.trace)).0 in
      ap
        (λ (x : Outcome Done × Connection). and_then x λ done.
          execute_sets env (execute_on_slot env (λ c. c.transaction_connection) missing query) sets
            (record { changes = t.changes + done.rows_affected; row_id = done.last_insert_rowid }))
        (one_set missing ps c few.0 held)
      ∙ all_sets missing sets (record c { trace = sent_set ps c.trace })
          (record { changes = t.changes + d.rows_affected; row_id = d.last_insert_rowid }) few.1
          held

  -- Inside a transaction, on a database that accepts every statement, `execute_many` sends the statement
  -- once for each set of parameters, in order, on the connection of the transaction. Afterwards the
  -- changes are the sum over the sets, the last row id is that of the last set (0 when there is none), and
  -- nothing else has changed. No set may have more than 50 parameters, and the hook is done.
  pub execute_many_in_transaction :
      (c : Connection) (parameters : List (List PyObject)) (sets : List (List SqliteParam))
      → process_sets env.py parameters ≡ ok sets
      → AllFew sets
      → c.transaction_state ≡ active
      → c.transaction_connection ≡ some h
      → HookDone c
      → let t = answered sets c.trace (record { changes = 0; row_id = pos 0 }) in
        execute_many env query parameters c ≡ (
          ok tt,
          record c {
            last_rowid = t.row_id;
            last_changes = t.changes;
            trace = sent_sets sets c.trace;
          },
        )
  unfolding execute_many execute_many_route ensure_pool_unless is_exactly_active effects
  execute_many_in_transaction c parameters sets e few opened held d = ground (
    arith,
    hook_done env c d,
    all_sets PyErr.no_transaction_connection sets c (record { changes = 0; row_id = pos 0 }) few
        held,
  )
