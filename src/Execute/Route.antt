-- ===== src/Execute/Route.antt =====
-- Which connection a statement goes to.
use rapsqlite.Prelude.{
  Bool, List, ap, sym, ◌∙◌, Bool-cases, inl, inr, is_some, not, ◌&&◌, if◌then◌else◌,
}
use rapsqlite.Prelude.{ℕ, ◌≤◌, ◌≡◌, true, false, ◌∷◌, none, some, length, arith}
use rapsqlite.Outcome.{Statement}
use rapsqlite.Types.{active}
use rapsqlite.State.{Connection, Env, Event, Target, effects}
use rapsqlite.Query.{max_execute_params}
use rapsqlite.Query.Binding.{bind_and_execute-eq}
use rapsqlite.Pool.{has_callbacks, get_or_create_pool, execute_init_hook_if_needed}
use rapsqlite.Fetch.{with_connection, on_route, ensure_pool_unless}
use rapsqlite.Execute.{ExecuteContextManager, enter_statement, sees_transaction}

module _ (env : Env) (ctx : ExecuteContextManager) (c : Connection)
    (few : length ctx.param_values ≤ max_execute_params) where
  -- With no hook, a statement inside a transaction.
  enter_statement_in_transaction :
      (h : ℕ)
      → c.init_hook_called ≡ false
      → c.init_hook ≡ none
      → c.transaction_state ≡ active
      → c.transaction_connection ≡ some h
      → (enter_statement env ctx c).1.trace
        ≡ Event.executes (Target.on_connection h) (Statement.user ctx.query) ctx.param_values
          ∷ c.trace
  unfolding enter_statement sees_transaction ensure_pool_unless execute_init_hook_if_needed
      with_connection on_route effects
  enter_statement_in_transaction h f n s t =
      ground
        (arith, bind_and_execute-eq env (Target.on_connection h) ctx.query ctx.param_values few c)

  -- Once the hook has run.
  enter_statement_after_hook :
      (p : ℕ)
      → c.init_hook_called ≡ true
      → has_callbacks c ≡ false
      → c.pool ≡ some p
      → (enter_statement env ctx c).1.trace
        ≡ Event.executes (Target.on_pool p) (Statement.user ctx.query) ctx.param_values ∷ c.trace
  unfolding enter_statement sees_transaction ensure_pool_unless execute_init_hook_if_needed
      with_connection on_route get_or_create_pool effects
  enter_statement_after_hook p f n s =
      ground (arith, bind_and_execute-eq env (Target.on_pool p) ctx.query ctx.param_values few c)

  -- With at most 50 parameters, no callbacks and a pool, while a transaction is active with its connection
  -- in the slot and no hook waits to be run: awaiting a statement sends it once with its parameters, on
  -- the connection of the transaction when no hook was ever run, and on the pool, outside the
  -- transaction, when one was.
  pub enter_statement_lem :
      (p h : ℕ)
      → has_callbacks c ≡ false
      → c.pool ≡ some p
      → c.transaction_state ≡ active
      → c.transaction_connection ≡ some h
      → is_some c.init_hook && not c.init_hook_called ≡ false
      → (enter_statement env ctx c).1.trace
        ≡ Event.executes
            (if c.init_hook_called then Target.on_pool p else Target.on_connection h)
            (Statement.user ctx.query)
            ctx.param_values
          ∷ c.trace
  enter_statement_lem p h plain pooled opened held waits =
      let sent : Bool → List Event = λ ran.
        Event.executes (if ran then Target.on_pool p else Target.on_connection h)
          (Statement.user ctx.query) ctx.param_values
        ∷ c.trace in
      elim (Bool-cases c.init_hook_called) [
        | inl ran ↦ enter_statement_after_hook p ran plain pooled ∙ ap sent (sym ran)
        | inr never ↦
            enter_statement_in_transaction h never (ground (arith, never, waits)) opened held
            ∙ ap sent (sym never)
      ]
