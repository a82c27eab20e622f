-- ===== src/State.antt =====
-- The fields of `Connection` (src/connection.rs), the calls that leave the crate, and the two effects
-- of the code: state, and the `?` operator. The reply to a call may depend on all calls before it.
use rapsqlite.Prelude.{ℕ, ◌≡◌, refl, ◌⊎◌, inl, inr, Bool, List, ◌∷◌, Option, none, some, Text}
use rapsqlite.Prelude.Int.{ℤ}
use rapsqlite.Outcome.{Outcome, ok, err, PyErr, SqlxError, Statement, CCall}
use rapsqlite.Types.{PyObject, TransactionState, SqliteParam, PyApi}
use rapsqlite.Conversion.{Row, PyCalls}

-- An executor: a pool, or a connection that was acquired from one.
pub data Target : Type 0 where
  on_pool : ℕ → Target
  on_connection : ℕ → Target

-- A call of sqlx, or of Python code. `drops` is the drop of a `PoolConnection`, which hands it back.
pub data Event : Type 0 where
  connects : Text → ℕ → ℕ → Event
  acquires : ℕ → Event
  acquired : ℕ → Event
  executes : Target → Statement → List SqliteParam → Event
  fetches : Target → Text → List SqliteParam → Event
  drops : ℕ → Event
  closes : ℕ → Event
  locks : ℕ → Event
  calls_c : ℕ → CCall → Event

-- The fields of the struct, and the calls so far, the latest first. A timeout in seconds is a whole
-- number of microseconds here.
pub record Connection : Type 0 where
  pub path : Text
  pub pool : Option ℕ
  pub transaction_state : TransactionState
  pub transaction_connection : Option ℕ
  pub last_rowid : ℤ
  pub last_changes : ℕ
  pub pragmas : List (Text × Text)
  pub init_hook : Option PyObject
  pub init_hook_called : Bool
  pub pool_size : Option ℕ
  pub connection_timeout_secs : Option ℕ
  pub row_factory : Option PyObject
  pub text_factory : Option PyObject
  pub query_cache : List (Text × ℕ)
  pub callback_connection : Option ℕ
  pub load_extension_enabled : Bool
  pub user_functions : List (Text × ℤ × PyObject)
  pub trace_callback : Option PyObject
  pub authorizer_callback : Option PyObject
  pub progress_handler : Option (ℤ × PyObject)
  pub include_query_in_errors : Bool
  pub timeout : ℕ
  pub trace : List Event

pub data Reply {ℓ} (A : Type ℓ) : Type ℓ where
  reply : A → Reply A
  fail : SqlxError → Reply A

pub Reply-cases {ℓ} :
    {A : Type ℓ} (r : Reply A) → ((a : A) × (r ≡ reply a)) ⊎ ((e : SqlxError) × (r ≡ fail e))
Reply-cases (reply a) = inl (a, refl)
Reply-cases (fail e) = inr (e, refl)

-- `SqliteQueryResult`.
pub record Done : Type 0 where
  pub last_insert_rowid : ℤ
  pub rows_affected : ℕ

-- Everything outside the crate: sqlx and SQLite answer by the calls so far, the initialisation hook
-- is Python code that may use the connection, and PyO3 tells of Python objects.
pub record Env : Type 0 where
  pub connect : List Event → Reply ℕ
  pub acquire : List Event → Reply ℕ
  pub execute : List Event → Reply Done
  pub fetch_all : List Event → Reply (List Row)
  pub fetch_one : List Event → Reply Row
  pub fetch_optional : List Event → Reply (Option Row)
  pub lock_handle : List Event → Reply (Unit {0})
  pub c_result : List Event → ℤ
  pub call_hook : PyObject → Connection → Outcome (Unit {0}) × Connection
  pub py : PyApi
  pub calls : PyCalls

-- Code over a state `S`: the changes before an error stay.
abbrev pub M : Type 0 → Type 0 → Type 0
M S A = S → Outcome A × S

unfoldable pub and_then : {S A B : Type 0} → Outcome A × S → (A → M S B) → Outcome B × S
and_then (ok a, s) f = f a s
and_then (err e, s) f = (err e, s)

infixl 5 ◌>>=◌ ◌>>◌
unfoldable pub ◌>>=◌ : {S A B : Type 0} → M S A → (A → M S B) → M S B
unfolding and_then
◌>>=◌ m f s = and_then (m s) f

abbrev pub ◌>>◌ : {S B : Type 0} → M S (Unit {0}) → M S B → M S B
m >> k = m >>= λ _. k

unfoldable pub pure : {S A : Type 0} → A → M S A
pure a s = (ok a, s)

unfoldable pub throw : {S A : Type 0} → PyErr → M S A
throw e s = (err e, s)

unfoldable pub gets : {S A : Type 0} → (S → A) → M S A
gets f s = (ok (f s), s)

unfoldable pub modify : {S : Type 0} → (S → S) → M S (Unit {0})
modify f s = (ok tt, f s)

-- `?` on a result that changes no state.
unfoldable pub lift : {S A : Type 0} → Outcome A → M S A
lift r s = (r, s)

-- `ok_or_else`.
unfoldable pub require : {S A : Type 0} → Option A → PyErr → M S A
require (some a) e s = (ok a, s)
require none e s = (err e, s)

-- `map_err(f)?` on the reply to a call.
unfoldable pub answer : {S A : Type 0} → (SqlxError → PyErr) → Reply A → M S A
answer f (reply a) s = (ok a, s)
answer f (fail e) s = (err (f e), s)

abbrev pub log : Event → Connection → Connection
log e c = record c { trace = e ∷ c.trace }

-- The calls that `SqlitePoolOptions::connect`, `Pool::acquire` and the executors make.
unfoldable pub do_connect : Env → ℕ → ℕ → M Connection ℕ
unfolding answer
do_connect env size secs c =
    let c' = log (Event.connects c.path size secs) c in
    answer PyErr.connect_failed (env.connect c'.trace) c'

-- The connection that the pool hands out is noted, so that its drop can be matched with it.
unfoldable pub receive : (SqlxError → PyErr) → Reply ℕ → M Connection ℕ
receive f (reply h) c = (ok h, log (Event.acquired h) c)
receive f (fail e) c = (err (f e), c)

unfoldable pub do_acquire : Env → ℕ → M Connection ℕ
unfolding receive
do_acquire env pool c =
    let c' = log (Event.acquires pool) c in
    receive (λ e. PyErr.acquisition_failed e c.pool_size c.connection_timeout_secs)
      (env.acquire c'.trace) c'

unfoldable pub do_execute : Env → Target → Statement → List SqliteParam → M Connection Done
unfolding answer
do_execute env target sql params c =
    let c' = log (Event.executes target sql params) c in
    answer (λ e. PyErr.mapped e sql) (env.execute c'.trace) c'

abbrev pub do_drop : ℕ → Connection → Connection
do_drop h = log (Event.drops h)

-- The drop of an `Option<PoolConnection>`.
abbrev pub drop_held : Option ℕ → Connection → Connection
drop_held none c = c
drop_held (some h) c = do_drop h c

-- All of the effects above, for proofs that run code.
unfoldable pub effects : Unit {0}
unfolding ◌>>=◌ pure throw gets modify lift require do_connect do_acquire do_execute
effects = tt
