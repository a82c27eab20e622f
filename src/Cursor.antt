-- ===== src/Cursor.antt =====
-- src/cursor.rs: the cursor. Its results are fetched at the first fetch, kept, and handed out from an
-- index on.
pub mod Paging
pub mod Keeping
pub mod Refetch
use rapsqlite.Prelude.{
  ℕ, ◌+◌, ◌-◌, suc, min, Bool, true, false, not, ◌&&◌, ◌||◌, List, [], ◌∷◌, ◌++◌, ◌%◌, ◌^◌, Option,
  none, some, Text, length, take, drop, get_elem?, leb, ltb, ◌==◌, is_some, unwrap_or,
  if◌then◌else◌, has_char,
}
use rapsqlite.Outcome.{Outcome, ok, err, PyErr}
use rapsqlite.Outcome
use rapsqlite.Types.{PyObject, SqliteParam, PyApi, from_py, is_active}
use rapsqlite.Chars.{CharTables}
use rapsqlite.Params.{process_parameters, process_named_parameters}
use rapsqlite.Sql.{is_select_query, trim}
use rapsqlite.Conversion.{Row, PyRow}
use rapsqlite.State.{
  Connection, Env, Target, M, ◌>>=◌, ◌>>◌, pure, throw, gets, modify, lift, require,
}
use rapsqlite.Query.{bind_and_execute, bind_and_fetch_all}
use rapsqlite.Pool.{has_callbacks}
use rapsqlite.Fetch.{with_connection, on_route, convert_rows, execute_many}
use rapsqlite.Execute.{Cursor, ExecuteContextManager, execute}

-- A cursor and the connection whose fields it shares.
pub record Session : Type 0 where
  pub conn : Connection
  pub cur : Cursor

abbrev pub put_conn {ℓ} : {A : Type ℓ} → Session → Outcome A × Connection → Outcome A × Session
put_conn s (r, c) = (r, record s { conn = c })

-- Code of the connection, in a session.
unfoldable pub shared : {A : Type 0} → M Connection A → M Session A
shared m s = put_conn s (m s.conn)

abbrev pub is_empty : Text → Bool
is_empty [] = true
is_empty (c ∷ cs) = false

-- `if self.query.is_empty()`.
unfoldable pub require_query : M Session (Unit {0})
require_query s = if is_empty s.cur.query then (err PyErr.no_query_executed, s) else (ok tt, s)

unfoldable pub set_results : List PyRow → Session → Session
set_results rows s = record s { cur = record s.cur { results = some rows } }

unfoldable pub set_index : ℕ → Session → Session
set_index i s = record s { cur = record s.cur { current_index = i } }

-- The stored query and parameters if both are there, and otherwise what `again` makes anew.
unfoldable pub stored_or :
    Option Text
    → Option (List SqliteParam)
    → Outcome (Text × List SqliteParam)
    → Outcome (Text × List SqliteParam)
stored_or (some q) (some ps) again = ok (q, ps)
stored_or (some q) none again = again
stored_or none ps again = again

-- `fetchall` looks again at what the named parameters gave.
unfoldable pub check_named : Text → Text × List SqliteParam → Outcome (Text × List SqliteParam)
check_named query (processed, []) =
    if has_char query b':' || has_char query b'@' || has_char query b'$'
    then err (PyErr.named_parameters_lost query processed)
    else ok (processed, [])
check_named query (processed, p ∷ ps) =
    if not (has_char processed b'?') && has_char query b':'
    then err (PyErr.placeholders_lost query processed)
    else ok (processed, p ∷ ps)

module _ (env : Env) where
  -- Running the query on the connection that is to be used, and converting the rows.
  unfoldable pub run_query : Text × List SqliteParam → M Connection (List PyRow)
  run_query q = do
    in_transaction ← gets λ c. is_active c.transaction_state
    rows ← with_connection env in_transaction λ t. bind_and_fetch_all env t q.0 q.1
    convert_rows env rows

module _ (env : Env) (tables : CharTables) where
  unfoldable pub process_checked : Text → Option PyObject → Outcome (Text × List SqliteParam)
  unfolding check_named process_parameters process_named_parameters
  process_checked query none = process_parameters env.py tables query none
  process_checked query (some params) = elim (env.py.cast_dict params) [
    | some dict ↦
        Outcome.◌>>=◌ (process_named_parameters env.py tables query dict) (check_named query)
    | none ↦ process_parameters env.py tables query (some params)
  ]

  -- `needs_fetch` of `fetchone` and `fetchmany`: fill the results and go to their start.
  unfoldable pub fill : M Session (Unit {0})
  fill = do
    cur ← gets λ s. s.cur
    q ← lift (
        stored_or cur.processed_query cur.processed_params
          (process_parameters env.py tables cur.query cur.parameters))
    rows ← shared (run_query env q)
    modify (set_results rows)
    modify (set_index 0)

  unfoldable pub ensure_filled : M Session (Unit {0})
  ensure_filled s = elim s.cur.results [ some rows ↦ (ok tt, s) | none ↦ fill s ]

  -- That of `fetchall`: the index stays.
  unfoldable pub fill_all : M Session (Unit {0})
  fill_all = do
    cur ← gets λ s. s.cur
    q ← lift (
        stored_or cur.processed_query cur.processed_params
          (process_checked cur.query cur.parameters))
    rows ← shared (run_query env q)
    modify (set_results rows)

-- The next row, or none at the end.
unfoldable pub next_row : M Session (Option PyRow)
unfolding set_index
next_row s = elim s.cur.results [
  | none ↦ (ok none, s)
  | some rows ↦ elim (get_elem? rows s.cur.current_index) [
    | none ↦ (ok none, s)
    | some row ↦ (ok (some row), set_index (suc s.cur.current_index) s)
  ]
]

-- The slice from one index to another, which panics if they are out of order or of range.
unfoldable pub slice : ℕ → ℕ → List PyRow → Outcome (List PyRow)
slice start stop rows =
    if leb start stop && leb stop (length rows)
    then ok (take (stop - start) (drop start rows))
    else err PyErr.panic

unfoldable pub take_slice : ℕ → List PyRow → M Session (List PyRow)
unfolding slice set_index
take_slice stop rows s = elim (slice s.cur.current_index stop rows) [
  | err e ↦ (err e, s)
  | ok page ↦ (ok page, set_index stop s)
]

-- `min(start + fetch_size, len)`; the sum of two `usize` wraps.
unfoldable pub page_end : ℕ → Option ℕ → List PyRow → ℕ
page_end start size rows = min ((start + unwrap_or size 1) % 2 ^ 64) (length rows)

unfoldable pub next_page : Option ℕ → M Session (List PyRow)
unfolding take_slice page_end
next_page size s = elim s.cur.results [
  | none ↦ (err PyErr.no_results, s)
  | some rows ↦ take_slice (page_end s.cur.current_index size rows) rows s
]

unfoldable pub remaining : M Session (List PyRow)
unfolding take_slice
remaining s = elim s.cur.results [
  | none ↦ (err PyErr.no_results, s)
  | some rows ↦ take_slice (length rows) rows s
]

-- `__anext__`.
unfoldable pub anext : M Session PyRow
unfolding set_index
anext s = elim s.cur.results [
  | none ↦ (err PyErr.not_executed, s)
  | some rows ↦ elim (get_elem? rows s.cur.current_index) [
    | none ↦ (err PyErr.stop_async_iteration, s)
    | some row ↦ (ok row, set_index (suc s.cur.current_index) s)
  ]
]

-- `script.split(';')`, each part trimmed, the empty ones left out.
unfoldable pub split_on : ℕ → Text → Text → List Text
split_on k part [] = part ∷ []
split_on k part (c ∷ cs) =
    let same = split_on k (part ++ c ∷ []) cs in
    let next = split_on k [] cs in if c == k then part ∷ next else same

unfoldable pub keep_nonempty : List Text → List Text
unfolding trim
keep_nonempty [] = []
keep_nonempty (s ∷ ss) =
    let rest = keep_nonempty ss in if is_empty (trim s) then rest else trim s ∷ rest

unfoldable pub statements : Text → List Text
unfolding split_on keep_nonempty
statements script = keep_nonempty (split_on b';' [] script)

-- `Cursor::execute`: the new query and parameters, no results, and the connection's `execute`.
unfoldable pub reset : Text → Option PyObject → Session → Session
reset query parameters s = record s {
  cur = record s.cur { query = query; parameters = parameters; current_index = 0; results = none };
}

module _ (env : Env) (tables : CharTables) where
  unfoldable pub fetchone : M Session (Option PyRow)
  fetchone = do require_query; ensure_filled env tables; next_row

  unfoldable pub fetchmany : Option ℕ → M Session (List PyRow)
  fetchmany size = do require_query; ensure_filled env tables; next_page size

  -- A statement that is no query has run already, and gives no rows.
  unfoldable pub fetchall_body : M Session (List PyRow)
  unfolding is_select_query
  fetchall_body s = elim s.cur.results [
    | some rows ↦ remaining s
    | none ↦ elim (is_select_query tables s.cur.query) [
      | false ↦ (ok [], set_results [] s)
      | true ↦ (do fill_all env tables; remaining) s
    ]
  ]

  unfoldable pub fetchall : M Session (List PyRow)
  fetchall = do require_query; fetchall_body

  unfoldable pub cursor_execute : Text → Option PyObject → M Session ExecuteContextManager
  cursor_execute query parameters = do
    modify (reset query parameters)
    shared (execute env tables query parameters)

  -- The state and the callbacks are read once, before the first statement.
  unfoldable pub run_statements : Bool → Bool → List Text → M Connection (Unit {0})
  run_statements in_transaction callbacks [] = pure tt
  run_statements in_transaction callbacks (s ∷ ss) = do
    _ ← on_route env in_transaction callbacks λ t. bind_and_execute env t s []
    run_statements in_transaction callbacks ss

  unfoldable pub executescript : Text → M Session (Unit {0})
  unfolding statements
  executescript script = do
    in_transaction ← gets λ s. is_active s.conn.transaction_state
    callbacks ← gets λ s. has_callbacks s.conn
    shared (run_statements in_transaction callbacks (statements script))

  -- `Cursor::executemany`.
  unfoldable pub cursor_executemany : Text → List (List PyObject) → M Session (Unit {0})
  cursor_executemany query parameters = do
    modify λ s. record s { cur = record s.cur { query = query } }
    shared (execute_many env query parameters)
