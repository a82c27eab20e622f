-- ===== src/Fetch/Route.antt =====
-- Which connection a fetch goes to.
use rapsqlite.Prelude.{
  ℕ, ◌≤◌, ◌≡◌, ◌⊎◌, refl, ap, ◌∙◌, true, List, ◌∷◌, Option, none, some, Text, length, arith,
}
use rapsqlite.Outcome.{Outcome, ok, err}
use rapsqlite.Types.{PyObject, SqliteParam, is_active}
use rapsqlite.Chars.{CharTables}
use rapsqlite.Params.{process_parameters}
use rapsqlite.Conversion.{Row}
use rapsqlite.State.{
  Connection, Env, Event, Target, Reply, answer, lift, modify, effects, ◌>>=◌, and_then,
}
use rapsqlite.Query.{fetches_all, max_fetch_params, bind_and_fetch_all, do_fetch}
use rapsqlite.Query.Binding.{bind_and_fetch-eq}
use rapsqlite.Pool.{execute_init_hook_if_needed}
use rapsqlite.Fetch.{
  fetch_all, fetch_with, with_connection, on_route, ensure_pool_unless, convert_rows, track,
}

-- The initialisation hook has nothing to do any more.
abbrev pub HookDone : Connection → Type 0
HookDone c = (c.init_hook_called ≡ true) ⊎ (c.init_hook ≡ none)

pub hook_done :
    (env : Env) (c : Connection) → HookDone c → execute_init_hook_if_needed env c ≡ (ok tt, c)
unfolding execute_init_hook_if_needed effects
hook_done env c d = ground arith

module _ (env : Env) where
  -- While a transaction is active, or is being set up, its connection is the one that is used.
  pub fetch_with_in_transaction :
      {A : Type 0} (op : Target → Connection → Outcome A × Connection) (c : Connection) (h : ℕ)
      → is_active c.transaction_state ≡ true
      → c.transaction_connection ≡ some h
      → HookDone c
      → fetch_with env op c ≡ op (Target.on_connection h) c
  unfolding fetch_with ensure_pool_unless with_connection on_route effects
  fetch_with_in_transaction op c h s e d = ground (arith, hook_done env c d)

-- The rest of a fetch: what is sent, and that the transaction stays.
abbrev pub SentOn : Connection → Target → Text → List SqliteParam → Connection → Type 0
SentOn c target query params c' =
    (c'.trace ≡ Event.fetches target query params ∷ c.trace)
    × (c'.transaction_state ≡ c.transaction_state)
    × (c'.transaction_connection ≡ c.transaction_connection)

pub convert_rows_sent :
    (env : Env) (r : Outcome (List Row) × Connection) → (and_then r (convert_rows env)).1 ≡ r.1
unfolding convert_rows and_then
convert_rows_sent env (ok rows, c) = refl
convert_rows_sent env (err e, c) = refl

pub do_fetch-SentOn :
    {A : Type 0} (replies : List Event → Reply A) (target : Target) (query : Text)
    (params : List SqliteParam) (c : Connection)
    → SentOn c target query params (do_fetch replies target query params c).1
unfolding do_fetch answer
do_fetch-SentOn replies target query params c = ground arith

fetch_all-eq :
    (env : Env) (tables : CharTables) (query : Text) (parameters : Option PyObject) (c : Connection)
    (h : ℕ) (q : Text) (ps : List SqliteParam)
    → process_parameters env.py tables query parameters ≡ ok (q, ps)
    → length ps ≤ max_fetch_params
    → is_active c.transaction_state ≡ true
    → c.transaction_connection ≡ some h
    → HookDone c
    → fetch_all env tables query parameters c
      ≡ and_then
          (do_fetch env.fetch_all (Target.on_connection h) q ps (track env q c))
          (convert_rows env)
unfolding fetch_all bind_and_fetch_all track ◌>>=◌ lift modify and_then
fetch_all-eq env tables query parameters c h q ps e n s t d = rw e (
    ap (λ r. and_then r (convert_rows env))
      (fetch_with_in_transaction env (λ target. bind_and_fetch_all env target q ps) (track env q c)
          h s t d
        ∙ bind_and_fetch-eq env (Target.on_connection h) q fetches_all env.fetch_all ps n
            (track env q c)))

-- Inside a transaction `fetch_all` makes one call, on the connection of the transaction, with the
-- processed query and parameters: no pool is made and no connection is acquired. The transaction stays
-- as it was. This needs that the hook is done and that at most 16 parameters are bound.
fetch_all_in_transaction :
    (env : Env) (tables : CharTables) (query : Text) (parameters : Option PyObject) (c : Connection)
    (h : ℕ) (q : Text) (ps : List SqliteParam)
    → process_parameters env.py tables query parameters ≡ ok (q, ps)
    → length ps ≤ max_fetch_params
    → is_active c.transaction_state ≡ true
    → c.transaction_connection ≡ some h
    → HookDone c
    → SentOn c (Target.on_connection h) q ps (fetch_all env tables query parameters c).1
unfolding track
fetch_all_in_transaction env tables query parameters c h q ps e n s t d =
    rw (fetch_all-eq env tables query parameters c h q ps e n s t d) (
      rw convert_rows_sent
        (do_fetch-SentOn env.fetch_all (Target.on_connection h) q ps (track env q c)))
