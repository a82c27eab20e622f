-- ===== src/Fetch/Single.antt =====
-- `fetch_one` and `fetch_optional` inside a transaction.
use rapsqlite.Prelude.{
  ℕ, ◌≤◌, ◌≡◌, refl, ap, ◌∙◌, true, none, List, Option, some, Text, length, arith,
}
use rapsqlite.Outcome.{Outcome, ok, err}
use rapsqlite.Types.{PyObject, SqliteParam, is_active}
use rapsqlite.Chars.{CharTables}
use rapsqlite.Params.{process_parameters}
use rapsqlite.Conversion.{Row}
use rapsqlite.State.{Connection, Env, Target, ◌>>=◌, and_then, lift, pure}
use rapsqlite.Query.{
  fetches_one, fetches_optional, max_fetch_params, bind_and_fetch_one, bind_and_fetch_optional,
  do_fetch,
}
use rapsqlite.Query.Binding.{bind_and_fetch-eq}
use rapsqlite.Fetch.{fetch_one, fetch_optional, convert_row, convert_optional}
use rapsqlite.Fetch.Route.{HookDone, SentOn, fetch_with_in_transaction, do_fetch-SentOn}

convert_row_sent :
    (env : Env) (r : Outcome Row × Connection) → (and_then r (convert_row env)).1 ≡ r.1
unfolding convert_row and_then
convert_row_sent env (ok row, c) = refl
convert_row_sent env (err e, c) = refl

convert_some : (env : Env) (row : Row) (c : Connection) → (convert_optional env (some row) c).1 ≡ c
unfolding convert_optional convert_row ◌>>=◌ and_then pure
convert_some env row c = ground arith

convert_optional_sent :
    (env : Env) (r : Outcome (Option Row) × Connection)
    → (and_then r (convert_optional env)).1 ≡ r.1
unfolding convert_optional and_then pure
convert_optional_sent env (ok none, c) = refl
convert_optional_sent env (ok (some row), c) = convert_some env row c
convert_optional_sent env (err e, c) = refl

module _ (env : Env) (tables : CharTables) (query : Text) (parameters : Option PyObject)
    (c : Connection) (h : ℕ) (q : Text) (ps : List SqliteParam)
    (e : process_parameters env.py tables query parameters ≡ ok (q, ps))
    (few : length ps ≤ max_fetch_params) (s : is_active c.transaction_state ≡ true)
    (t : c.transaction_connection ≡ some h) (d : HookDone c) where
  fetch_one-eq :
      fetch_one env tables query parameters c
      ≡ and_then (do_fetch env.fetch_one (Target.on_connection h) q ps c) (convert_row env)
  unfolding fetch_one bind_and_fetch_one ◌>>=◌ lift and_then
  fetch_one-eq = rw e (
      ap (λ r. and_then r (convert_row env))
        (fetch_with_in_transaction env (λ target. bind_and_fetch_one env target q ps) c h s t d
          ∙ bind_and_fetch-eq env (Target.on_connection h) q fetches_one env.fetch_one ps few c))

  fetch_optional-eq :
      fetch_optional env tables query parameters c
      ≡ and_then
          (do_fetch env.fetch_optional (Target.on_connection h) q ps c)
          (convert_optional env)
  unfolding fetch_optional bind_and_fetch_optional ◌>>=◌ lift and_then
  fetch_optional-eq = rw e (
      ap (λ r. and_then r (convert_optional env))
        (fetch_with_in_transaction env (λ target. bind_and_fetch_optional env target q ps) c h s t d
          ∙ bind_and_fetch-eq env (Target.on_connection h) q fetches_optional env.fetch_optional ps
              few c))

  -- Inside a transaction `fetch_one` and `fetch_optional` make one call each, on the connection of the
  -- transaction, with the processed query and parameters, and the transaction stays as it was. The hook is
  -- done, and at most 16 parameters are bound.
  pub fetches_in_transaction :
      SentOn c (Target.on_connection h) q ps (fetch_one env tables query parameters c).1
      × SentOn c (Target.on_connection h) q ps (fetch_optional env tables query parameters c).1
  fetches_in_transaction = (
    rw fetch_one-eq
        (rw convert_row_sent (do_fetch-SentOn env.fetch_one (Target.on_connection h) q ps c)),
    rw fetch_optional-eq (
        rw convert_optional_sent
          (do_fetch-SentOn env.fetch_optional (Target.on_connection h) q ps c)),
  )
