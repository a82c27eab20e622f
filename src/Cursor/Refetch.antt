-- ===== src/Cursor/Refetch.antt =====
-- What a cursor sends when it fetches.
use rapsqlite.Prelude.{
  ℕ, ◌≤◌, ◌≡◌, refl, ap, ◌∙◌, true, false, List, ◌∷◌, Option, none, some, Text, length, arith,
}
use rapsqlite.Outcome.{Outcome, ok, err}
use rapsqlite.Types.{PyObject, SqliteParam, is_active}
use rapsqlite.Chars.{CharTables}
use rapsqlite.State.{Connection, Env, Event, Target, effects, ◌>>=◌, and_then}
use rapsqlite.Query.{fetches_all, max_fetch_params, bind_and_fetch_all, do_fetch}
use rapsqlite.Query.Binding.{bind_and_fetch-eq}
use rapsqlite.Fetch.{with_connection, on_route, track}
use rapsqlite.Fetch.Route.{SentOn, do_fetch-SentOn, convert_rows_sent}
use rapsqlite.Execute.{execute}
use rapsqlite.Cursor.{
  Session, shared, require_query, is_empty, stored_or, run_query, fill, ensure_filled, next_row,
  fetchone, reset, cursor_execute, set_results, set_index,
}

run_query_in_transaction :
    (env : Env) (q : Text) (ps : List SqliteParam) (c : Connection) (h : ℕ)
    → length ps ≤ max_fetch_params
    → is_active c.transaction_state ≡ true
    → c.transaction_connection ≡ some h
    → SentOn c (Target.on_connection h) q ps (run_query env (q, ps) c).1
unfolding run_query with_connection on_route bind_and_fetch_all effects
run_query_in_transaction env q ps c h few active held =
    let sent : (run_query env (q, ps) c).1
        ≡ (do_fetch env.fetch_all (Target.on_connection h) q ps c).1 =
      ground (
        arith,
        bind_and_fetch-eq env (Target.on_connection h) q fetches_all env.fetch_all ps few c,
        convert_rows_sent env (do_fetch env.fetch_all (Target.on_connection h) q ps c),
      ) in
    rw sent (do_fetch-SentOn env.fetch_all (Target.on_connection h) q ps c)

-- Filling a cursor that has a processed query sends that query.
fill-conn :
    (env : Env) (tables : CharTables) (s : Session) (q : Text) (ps : List SqliteParam)
    → s.cur.processed_query ≡ some q
    → s.cur.processed_params ≡ some ps
    → (fill env tables s).1.conn ≡ (run_query env (q, ps) s.conn).1
unfolding fill shared stored_or set_results set_index effects
fill-conn env tables s q ps eq ep = ground arith

next_row-conn : (s : Session) → (next_row s).1.conn ≡ s.conn
unfolding next_row set_index
next_row-conn s = ground arith

next_row_after : (x : Outcome (Unit {0}) × Session) → (and_then x (λ _. next_row)).1.conn ≡ x.1.conn
unfolding and_then
next_row_after (ok u, s) = next_row-conn s
next_row_after (err e, s) = refl

require_query-ok : (s : Session) → is_empty s.cur.query ≡ false → require_query s ≡ (ok tt, s)
unfolding require_query
require_query-ok s e = rw e

ensure_filled-none :
    (env : Env) (tables : CharTables) (s : Session)
    → s.cur.results ≡ none
    → ensure_filled env tables s ≡ fill env tables s
unfolding ensure_filled
ensure_filled-none env tables s e = ground (arith)

fetchone-conn :
    (env : Env) (tables : CharTables) (s : Session)
    → is_empty s.cur.query ≡ false
    → s.cur.results ≡ none
    → (fetchone env tables s).1.conn ≡ (fill env tables s).1.conn
unfolding fetchone ◌>>=◌
fetchone-conn env tables s ne e =
    ap (λ x. (and_then x (λ _ s'. and_then (ensure_filled env tables s') (λ _. next_row))).1.conn)
      (require_query-ok s ne)
    ∙ unfold and_then in
      (ap (λ x. (and_then x (λ _. next_row)).1.conn) (ensure_filled-none env tables s e)
        ∙ next_row_after (fill env tables s))

-- For a cursor whose query is not empty and that has no results, but a stored processed query with at most
-- 16 parameters, inside a transaction with its connection in the slot: `fetchone` sends the stored query
-- with its parameters on that connection, as the one call that is made, with no test of what kind of
-- statement it is, and leaves the state of the transaction and its slot.
pub fetchone_sends_stored :
    (env : Env) (tables : CharTables) (s : Session) (q : Text) (ps : List SqliteParam) (h : ℕ)
    → is_empty s.cur.query ≡ false
    → s.cur.results ≡ none
    → s.cur.processed_query ≡ some q
    → s.cur.processed_params ≡ some ps
    → length ps ≤ max_fetch_params
    → is_active s.conn.transaction_state ≡ true
    → s.conn.transaction_connection ≡ some h
    → SentOn s.conn (Target.on_connection h) q ps (fetchone env tables s).1.conn
fetchone_sends_stored env tables s q ps h ne e eq ep few active held =
    rw (fetchone-conn env tables s ne e ∙ fill-conn env tables s q ps eq ep)
      (run_query_in_transaction env q ps s.conn h few active held)

-- What `Cursor::execute` leaves of the stored query: all of it.
cursor_execute-session :
    (env : Env) (tables : CharTables) (query : Text) (parameters : Option PyObject) (s : Session)
    → let s' = (cursor_execute env tables query parameters s).1 in
      (s'.cur ≡ (reset query parameters s).cur)
      × (s'.conn.trace ≡ s.conn.trace)
      × (s'.conn.transaction_state ≡ s.conn.transaction_state)
      × (s'.conn.transaction_connection ≡ s.conn.transaction_connection)
unfolding cursor_execute reset shared execute track effects
cursor_execute-session env tables query parameters s = ground arith

-- For a cursor that has a stored processed query with at most 16 parameters, inside a transaction with its
-- connection in the slot: when its own `execute` gives it another query, which is not empty, the next
-- `fetchone` still sends the stored query and not the new one, once and on that connection, and leaves the
-- state of the transaction and its slot.
pub fetchone-cursor_execute_stale :
    (env : Env) (tables : CharTables) (query : Text) (parameters : Option PyObject) (s : Session)
    (q : Text) (ps : List SqliteParam) (h : ℕ)
    → is_empty query ≡ false
    → s.cur.processed_query ≡ some q
    → s.cur.processed_params ≡ some ps
    → length ps ≤ max_fetch_params
    → is_active s.conn.transaction_state ≡ true
    → s.conn.transaction_connection ≡ some h
    → SentOn s.conn
        (Target.on_connection h)
        q
        ps
        (fetchone env tables (cursor_execute env tables query parameters s).1).1.conn
unfolding reset
fetchone-cursor_execute_stale env tables query parameters s q ps h ne eq ep few active held =
    let s' = (cursor_execute env tables query parameters s).1 in
    let kept = cursor_execute-session env tables query parameters s in
    let sent =
      fetchone_sends_stored env tables s' q ps h (rw kept.0 ne) (rw kept.0 refl) (rw kept.0 eq)
        (rw kept.0 ep) few (rw kept.2 active) (kept.3 ∙ held) in
    (
      sent.0 ∙ ap (λ t. Event.fetches (Target.on_connection h) q ps ∷ t) kept.1,
      sent.1 ∙ kept.2,
      sent.2 ∙ kept.3,
    )
