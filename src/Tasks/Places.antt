-- ===== src/Tasks/Places.antt =====
-- src/connection.rs: the places between the awaits of `begin`, `commit`, `rollback` and `close`, and at each of
-- them what the call waits for and what it holds.
use rapsqlite.Prelude.{ℕ, Bool, true, false, Option}
use rapsqlite.Outcome.{Outcome, PyErr, Statement}

-- Where a call stands, with the local variables that are live there. A flag is `from_callback`.
pub data Task : Type 0 where
  begins : Task
  checked : Task
  has_pool hooked reserved : ℕ → Task
  ensured : Task
  pending tuned begun : Bool → ℕ → Task
  stored : Bool → Task
  -- The error path of `begin`: before the lock of the state, with it, and with both locks.
  failing cleared : PyErr → Bool → Option ℕ → Task
  returning : PyErr → Bool → Option ℕ → Option ℕ → Task
  -- `commit` and `rollback`: before the lock of the state, with it, and with both locks. The flag says
  -- whether the connection goes back to the callbacks.
  ends : Statement → Task
  locked : Statement → Bool → Task
  ending : Statement → Bool → ℕ → Task
  ended : Bool → ℕ → Task
  -- `close`: before the lock of the state, before that of the connection, with it, and at the pool. The
  -- flag says whether the lock of the state is still held.
  closes emptied closing : Task
  rolling : ℕ → Task
  rolled : Task
  shutting : Bool → Task
  finished : Outcome (Unit {0}) → Task

pub data Method : Type 0 where
  of_begin of_end of_closing : Method

abbrev pub method : Task → Method
method (ends sql) = of_end
method (locked sql keep) = of_end
method (ending sql keep h) = of_end
method (ended keep h) = of_end
method closes = of_closing
method emptied = of_closing
method closing = of_closing
method (rolling h) = of_closing
method rolled = of_closing
method (shutting held) = of_closing
method _ = of_begin

-- What a task waits for, and what it holds from one turn to the next.
abbrev pub wants_state : Task → Bool
wants_state begins = true
wants_state (hooked p) = true
wants_state (stored from_callback) = true
wants_state (failing e from_callback held) = true
wants_state (ends sql) = true
wants_state emptied = true
wants_state rolled = true
wants_state _ = false

abbrev pub wants_connection : Task → Bool
wants_connection (begun from_callback h) = true
wants_connection (cleared e from_callback held) = true
wants_connection (locked sql keep) = true
wants_connection closing = true
wants_connection _ = false

abbrev pub holds_state : Task → Bool
holds_state (cleared e from_callback held) = true
holds_state (returning e from_callback conn rest) = true
holds_state (locked sql keep) = true
holds_state (ending sql keep h) = true
holds_state (ended keep h) = true
holds_state (shutting held) = held
holds_state _ = false

abbrev pub holds_connection : Task → Bool
holds_connection (returning e from_callback conn rest) = true
holds_connection (ending sql keep h) = true
holds_connection (ended keep h) = true
holds_connection (rolling h) = true
holds_connection rolled = true
holds_connection _ = false

abbrev pub is_finished : Task → Bool
is_finished (finished r) = true
is_finished _ = false
