-- ===== src/Execute/Keeping.antt =====
-- What awaiting a statement keeps.
use rapsqlite.Prelude.{Bool, true, false, Option, Text, if◌then◌else◌}
use rapsqlite.Types.{PyObject}
use rapsqlite.Chars.{CharTables}
use rapsqlite.State.{Connection, Env, M}
use rapsqlite.Keeps.{Keeps, Keeps-bind, Keeps-gets, Keeps-lift, Keeps-pure, Keeps-modify}
use rapsqlite.Pool.Steady.{execute_init_hook_if_needed-Keeps}
use rapsqlite.Fetch.Keeping.{
  QueryKeeps, bind_and_execute-Keeps, with_connection-Keeps, ensure_pool_unless-Keeps, track-Keeps,
}
use rapsqlite.Execute.{ExecuteContextManager, execute, enter_statement, enter_select, context_enter}

module _ {P : Connection → Type 0} (env : Env) (k : QueryKeeps P env) where
  pub execute-Keeps :
      (tables : CharTables) (query : Text) (parameters : Option PyObject)
      → Keeps P (execute env tables query parameters)
  unfolding execute
  execute-Keeps tables query parameters =
      Keeps-bind _ _ (Keeps-lift _) λ q. Keeps-bind _ _ (track-Keeps env k q.0) λ _. Keeps-pure _

  enter_statement-Keeps : (ctx : ExecuteContextManager) → Keeps P (enter_statement env ctx)
  unfolding enter_statement
  enter_statement-Keeps ctx = Keeps-bind _ _ (Keeps-gets _) λ called.
      Keeps-bind _ _ (Keeps-gets _) λ before.
        Keeps-bind _ _ (ensure_pool_unless-Keeps env k before) λ _.
          Keeps-bind _ _ (execute_init_hook_if_needed-Keeps env k.hook) λ _.
            Keeps-bind _ _ (Keeps-gets _) λ after.
              Keeps-bind _ _
                (with_connection-Keeps env k after _
                  λ t. bind_and_execute-Keeps env k t ctx.query ctx.param_values)
                λ d. Keeps-modify _ λ c. k.counts c d.last_insert_rowid d.rows_affected

  enter_select-Keeps : Keeps P (enter_select env)
  unfolding enter_select
  enter_select-Keeps = Keeps-bind _ _ (Keeps-gets _) λ in_transaction.
      Keeps-bind _ _ (Keeps-gets _) λ called. Keeps-bind _ _ (ensure_pool_unless-Keeps env k _) λ _.
        Keeps-bind _ _ (execute_init_hook_if_needed-Keeps env k.hook)
          λ _. ensure_pool_unless-Keeps env k _

  either-Keeps :
      {A : Type 0} (b : Bool) (m n : M Connection A)
      → Keeps P m
      → Keeps P n
      → Keeps P (if b then m else n)
  either-Keeps true m n h k' = h
  either-Keeps false m n h k' = k'

  pub context_enter-Keeps : (ctx : ExecuteContextManager) → Keeps P (context_enter env ctx)
  unfolding context_enter
  context_enter-Keeps ctx =
      Keeps-bind _ _ (either-Keeps ctx.is_select _ _ enter_select-Keeps (enter_statement-Keeps ctx))
        λ _. Keeps-pure ctx.cursor
