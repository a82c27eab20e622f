-- ===== src/Lib.antt =====
-- A model of rapsqlite, the asynchronous SQLite driver for Python that is written in Rust (src/*.rs).
--
-- The parts and their files:
--   * Types: `TransactionState`, `SqliteParam` and `from_py` (src/types.rs). Params: named and positional
--     parameters (src/parameters.rs); Params/Substitute and Params/Named compare them with one pass.
--   * Chars, Sql: the tests on characters, `is_select_query`, `normalize_query` and
--     `track_query_usage` (src/utils.rs); Sql/Words, Sql/Normal and Sql/Cache. Uri: `validate_path` and
--     `parse_connection_string`, with Uri/RoundTrip.
--   * RapRow, Conversion: the row type and the row factories (src/row.rs, src/conversion.rs);
--     RapRow/Access and RapRow/Printing.
--   * State: the fields of `Connection` (src/connection.rs), the calls that leave the crate, and the
--     monad of the code. Keeps: what code in that monad keeps on every path.
--   * Query: the helpers that run a statement (src/query.rs); Query/OnPool, OnConnection and Fetching: the
--     tables that bind parameters; Query/Binding.
--   * Pool: the pool, the connection for callbacks, the initialisation hook (src/pool.rs); Pool/Steady
--     and Pool/Callback say what they leave alone, Pool/Balance counts connections, Pool/Filling is about
--     the connection for callbacks, Pool/Message is its error.
--   * Transaction: `begin`, `commit`, `rollback`, `in_transaction`, `close` and `__aexit__`
--     (src/connection.rs) and `TransactionContextManager` (src/context_managers.rs);
--     Transaction/Balance, Release, Settled, Opening, Ending, Recovery and Phases.
--   * Tasks: any number of calls of `begin`, `commit`, `rollback` and `close` that take turns
--     (src/connection.rs). Tasks/Places: where a call stands; Totals, Counts, Balance, Keeping, Exclusive:
--     who holds which connection; Flow, Locks, Closing, Liveness: the order of the places and the two
--     mutexes; Solo, SoloEnd, Alone: one call without others; Race, Stuck, Deadlock: calls that meet.
--   * Fetch: `fetch_all`, `fetch_one`, `fetch_optional`, `execute_many` and the choice between the
--     connection of the transaction, that of the callbacks and the pool (src/connection.rs).
--     Fetch/Route, Single, Many and Keeping.
--   * Execute: `execute`, `cursor` and `ExecuteContextManager`. Cursor: the cursor (src/cursor.rs);
--     Cursor/Paging, Refetch and Keeping.
--   * Settings: `set_pragma` and setters of src/connection.rs, with Settings/Pragmas. Construction:
--     `Connection::new` and the fields that are read or set alone.
--   * Callbacks: `enable_load_extension`, `load_extension`, `create_function`, `set_trace_callback`,
--     `set_authorizer` and `set_progress_handler` (src/connection.rs); Callbacks/Keeping and Release.
--     Trampolines: the functions that SQLite calls back (src/connection.rs) and their conversions
--     (src/conversion.rs), with Trampolines/Answers.
--   * Schema: the queries about the schema and the dicts of their rows; Schema/Methods: `get_tables`,
--     `get_views`, `get_table_info`, `get_table_xinfo`, `get_indexes`, `get_index_list`,
--     `get_index_info`, `get_foreign_keys` and `get_schema` (src/connection.rs); Schema/Quoting, Sending,
--     Agreement and Keeping.
--   * Dump: `iterdump`, with Dump/Values, Names, Contents, Entries, Keeping. Changes: `total_changes`
--     (src/connection.rs). Backup: `backup`; Backup/Loop, Keeping, Restoring, Returns.
--   * Errors: `sanitize_query` and `map_sqlx_error` (src/errors.rs); Errors/Bytes and Redaction.
--   * History: any sequence of the methods of a connection and of its cursors, and of backups to and from
--     other connections, from `Connection::new` on: Plain and Slots for the methods that leave
--     transactions alone, Backups, Soundness, Settled, Lifetime, Refinement and Stuck.
--     Tests: concrete runs.
--
-- How they stand for the code. A connection is a record with the fields of the struct and a trace, the
-- calls of sqlx so far, the latest first. A method is a function from a connection to an outcome and a
-- connection, so what was changed before an error stays changed. The pool and a pooled connection are
-- numbers that sqlx hands out; the drop of a pooled connection is an event of the trace. The world is
-- the record `Env`: the answer to each call may depend on all calls before it and may be an error, the
-- hook may change the connection, and PyO3's answers about Python objects are functions. The Unicode
-- tables for characters that are not ASCII are the record `CharTables`. A result or exception is a
-- value of `Outcome`, with a constructor of `PyErr` for each place that makes its own text.
--
-- The calls of the C interface of SQLite on a locked handle are events too, each answered by a result
-- code. Offsets in src/errors.rs are in bytes of UTF-8, and a slice inside a character panics.
--
-- Bounds. Numbers of rows and indices are natural numbers; the sum of two `usize` in `fetchmany` wraps
-- at 2 ^ 64, the size of the pool at 2 ^ 32, and the count of a query in the cache at 2 ^ 64, as in a
-- build without overflow checks. A float is its bit pattern, and a timeout is in microseconds. The
-- scan for placeholders has as much fuel as the query has characters, and each round takes at least
-- one. The loop of `backup` has fuel for its steps, and ends if SQLite does not answer OK, BUSY or
-- LOCKED to so many. All other loops are structural.
--
-- Not modelled: tasks that run other methods than `begin`, `commit`, `rollback` and `close` at the same
-- time; the boxes that hold a callback for SQLite, with their destructors; the progress callback of
-- `backup`, a negative pause and a backup of a connection to itself; a timeout that is not a number; the
-- text of a float and of an error of sqlx, which are parameters; the registration of the Python module
-- (src/lib.rs).
pub mod Prelude
pub mod Outcome
pub mod Types
pub mod Chars
pub mod Params
pub mod Sql
pub mod RapRow
pub mod Conversion
pub mod State
pub mod Keeps
pub mod Query
pub mod Pool
pub mod Transaction
pub mod Fetch
pub mod Execute
pub mod Cursor
pub mod Callbacks
pub mod Trampolines
pub mod Tasks
pub mod Backup
pub mod Changes
pub mod Schema
pub mod Dump
pub mod Settings
pub mod Uri
pub mod Construction
pub mod Errors
pub mod History
pub mod Tests
