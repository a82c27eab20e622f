-- ===== src/Tests/Queries.antt =====
-- Statements, fetches and cursors at concrete connections.
use rapsqlite.Prelude.{
  ℕ, zero, suc, ◌≡◌, refl, true, false, inr, List, [], ◌∷◌, none, some, Text, codes, text_eq, arith,
}
use rapsqlite.Prelude.Int.{pos}
use rapsqlite.Outcome.{ok, err, PyErr, SqlxError, Statement}
use rapsqlite.Types.{SqliteParam, is_active, from_py}
use rapsqlite.Conversion.{PyRow, py_list, py_int, rows_to_py}
use rapsqlite.State.{Connection, Event, Target, do_execute}
use rapsqlite.Query.{bind_and_execute, bind_and_fetch, fetches_all}
use rapsqlite.Query.Binding.{within, bind_lem}
use rapsqlite.Pool.{has_callbacks}
use rapsqlite.Params.{process_parameters}
use rapsqlite.Fetch.Route.{SentOn}
use rapsqlite.Execute.{Cursor, ExecuteContextManager, enter_statement}
use rapsqlite.Execute.Route.{enter_statement_lem}
use rapsqlite.Cursor.{Session, fetchone, cursor_execute}
use rapsqlite.Cursor.Paging.{Advances, one, many, all, read_all, read_all-Advances}
use rapsqlite.Cursor.Refetch.{fetchone_sends_stored, fetchone-cursor_execute_stale}
use rapsqlite.Fetch.{process_sets, execute_many}
use rapsqlite.Fetch.{fetch_one, fetch_optional}
use rapsqlite.Fetch.Single.{fetches_in_transaction}
use rapsqlite.Fetch.Many.{execute_many_in_transaction}
use rapsqlite.Params.{process_positional_parameters}
use rapsqlite.Tests.{done, env, calls, tables, two_rows, opened}

abbrev insert : Text
insert = codes "INSERT INTO t VALUES (1)"

-- As `Connection::execute` leaves the cursor of an INSERT.
abbrev inserted : Cursor
inserted = record {
  query = insert;
  results = none;
  current_index = 0;
  parameters = none;
  processed_query = some insert;
  processed_params = some [];
}

abbrev session : Session
session = record { conn = opened; cur = inserted }

abbrev ctx : ExecuteContextManager
ctx = record { cursor = inserted; query = insert; param_values = []; is_select = false }

active_opened : is_active opened.transaction_state ≡ true
unfolding is_active
active_opened = refl

six_processed :
    process_parameters env.py tables (codes "SELECT ?") (some 6)
    ≡ ok (codes "SELECT ?", SqliteParam.int (pos 6) ∷ [])
unfolding process_parameters from_py
six_processed = refl

fetches_in_transaction_example :
    SentOn opened
      (Target.on_connection 1)
      (codes "SELECT ?")
      (SqliteParam.int (pos 6) ∷ [])
      (fetch_one env tables (codes "SELECT ?") (some 6) opened).1
    × SentOn opened
        (Target.on_connection 1)
        (codes "SELECT ?")
        (SqliteParam.int (pos 6) ∷ [])
        (fetch_optional env tables (codes "SELECT ?") (some 6) opened).1
fetches_in_transaction_example =
    fetches_in_transaction env tables (codes "SELECT ?") (some 6) opened 1 (codes "SELECT ?")
      (SqliteParam.int (pos 6) ∷ []) six_processed (omega arith) active_opened refl (inr refl)

abbrev after_hook : Connection
after_hook = record opened { init_hook = some 40; init_hook_called = true }

enter_statement_lem_example :
    (enter_statement env ctx after_hook).1.trace
    ≡ Event.executes (Target.on_pool 3) (Statement.user insert) [] ∷ []
unfolding has_callbacks
enter_statement_lem_example =
    enter_statement_lem env ctx after_hook (omega arith) 3 1 refl refl refl refl refl

fetchone_sends_stored_example :
    SentOn opened (Target.on_connection 1) insert [] (fetchone env tables session).1.conn
fetchone_sends_stored_example =
    fetchone_sends_stored env tables session insert [] 1 refl refl refl refl (omega arith)
      active_opened refl

fetchone-cursor_execute_stale_example :
    SentOn opened
      (Target.on_connection 1)
      insert
      []
      (fetchone env tables (cursor_execute env tables (codes "SELECT 2") none session).1).1.conn
fetchone-cursor_execute_stale_example =
    fetchone-cursor_execute_stale env tables (codes "SELECT 2") none session insert [] 1 refl refl
      refl (omega arith) active_opened refl

abbrev rows : List PyRow
rows =
    py_list (py_int (pos 4) ∷ [])
    ∷ py_list (py_int (pos 5) ∷ [])
    ∷ py_list (py_int (pos 6) ∷ [])
    ∷ []

abbrev filled : Session
filled = record { conn = opened; cur = record inserted { results = some rows } }

read_all-Advances_example :
    Advances rows 0 filled (read_all (one ∷ many (some 5) ∷ all ∷ []) filled)
read_all-Advances_example =
    read_all-Advances rows (one ∷ many (some 5) ∷ all ∷ []) 0 filled (refl, refl) (omega arith)
      (tt, (omega arith, (tt, tt)))

abbrev nulls : ℕ → List SqliteParam
nulls zero = []
nulls (suc n) = SqliteParam.null ∷ nulls n

abbrev seventeen : List SqliteParam
seventeen = nulls 17

bind_lem_example :
    (bind_and_execute env (Target.on_connection 1) insert seventeen opened
      ≡ within 50 insert seventeen
          (do_execute env (Target.on_connection 1) (Statement.user insert) seventeen)
          opened)
    × (bind_and_fetch env.fetch_all fetches_all (Target.on_connection 1) insert seventeen opened
        ≡ (err (PyErr.mapped (SqlxError.too_many_parameters 17) (Statement.user insert)), opened))
bind_lem_example =
    bind_lem env (Target.on_connection 1) insert fetches_all env.fetch_all seventeen opened

converted :
    rows_to_py calls none none two_rows
    ≡ ok (py_list (py_int (pos 4) ∷ []) ∷ py_list (py_int (pos 5) ∷ []) ∷ [])
unfolding rows_to_py text_eq
converted = refl

abbrev two_sets : List (List SqliteParam)
two_sets = (SqliteParam.int (pos 7) ∷ []) ∷ (SqliteParam.int (pos 8) ∷ []) ∷ []

sets_processed : process_sets env.py ((7 ∷ []) ∷ (8 ∷ []) ∷ []) ≡ ok two_sets
unfolding process_sets process_positional_parameters from_py
sets_processed = refl

execute_many_in_transaction_example : execute_many env insert ((7 ∷ []) ∷ (8 ∷ []) ∷ []) opened ≡ (
  ok tt,
  record opened {
    last_rowid = pos 9;
    last_changes = 2;
    trace =
        Event.executes
          (Target.on_connection 1)
          (Statement.user insert)
          (SqliteParam.int (pos 8) ∷ [])
        ∷ Event.executes
            (Target.on_connection 1)
            (Statement.user insert)
            (SqliteParam.int (pos 7) ∷ [])
        ∷ [];
  },
)
execute_many_in_transaction_example =
    execute_many_in_transaction env (λ t. (done, refl)) 1 insert opened ((7 ∷ []) ∷ (8 ∷ []) ∷ [])
      two_sets sets_processed (omega arith, (omega arith, tt)) refl refl (inr refl)
