-- ===== src/Outcome.antt =====
-- Results, Python exceptions (src/exceptions.rs) and the failures that sqlx reports.
use rapsqlite.Prelude.{ℕ, ◌≡◌, refl, Option, Bool, Text}
use rapsqlite.Prelude.Int.{ℤ}

-- The variants of `sqlx::Error` that the code tells apart. `database` has SQLite's message,
-- `protocol` the text given to it.
pub data SqlxError : Type 0 where
  database : Text → SqlxError
  protocol : Text → SqlxError
  too_many_parameters : ℕ → SqlxError
  io : SqlxError
  column_not_found : Text → SqlxError
  column_index_out_of_bounds : SqlxError
  decode : SqlxError
  other : SqlxError

-- The statements that the code issues itself, and those of its callers.
pub data Statement : Type 0 where
  begin_immediate commit rollback : Statement
  busy_timeout : ℕ → Statement
  pragma : Text → Text → Statement
  user : Text → Statement

-- The calls of the C interface of SQLite on a locked handle.
pub data CCall : Type 0 where
  enables : Bool → CCall
  loads : Text → CCall
  creates_function : Text → ℤ → Option ℕ → CCall
  traces authorizes : Option ℕ → CCall
  watches_progress : ℤ → Option ℕ → CCall
  counts_changes : CCall
  reads_autocommit : ℕ → CCall
  starts_backup : ℕ → Text → CCall
  steps_backup : ℤ → CCall
  ends_backup : CCall

-- The exceptions that are raised, one constructor for each place that makes its own text.
-- `mapped e q` is `map_sqlx_error(e, path, q)`.
pub data PyErr : Type 0 where
  transaction_in_progress : PyErr
  no_transaction : PyErr
  no_transaction_connection : PyErr
  no_callback_connection : PyErr
  connect_failed : SqlxError → PyErr
  acquisition_failed : SqlxError → Option ℕ → Option ℕ → PyErr
  mapped : SqlxError → Statement → PyErr
  hook_failed : ℕ → PyErr
  lock_failed : SqlxError → PyErr
  c_call_failed : CCall → ℤ → PyErr
  invalid_nargs : ℤ → PyErr
  null_in_name : Text → PyErr
  extension_not_enabled : PyErr
  no_target_transaction_connection no_target_callback_connection target_in_transaction : PyErr
  no_target_handle : PyErr
  missing_parameter : Text → PyErr
  unsupported_parameter : Text → PyErr
  path_too_long query_too_long parameter_too_long : ℕ → PyErr
  value_error : Text → PyErr
  type_error : Text → PyErr
  index_error : ℕ → PyErr
  key_error : Text → PyErr
  no_query_executed no_results not_executed stop_async_iteration : PyErr
  named_parameters_lost placeholders_lost : Text → Text → PyErr
  -- An exception raised by Python code that is called back.
  raised : ℕ → PyErr
  -- A Rust panic, such as slicing a text inside a character.
  panic : PyErr

pub data Outcome {ℓ} (A : Type ℓ) : Type ℓ where
  ok : A → Outcome A
  err : PyErr → Outcome A

-- The `?` operator of code that changes no state.
infixl 5 ◌>>=◌ ◌>>◌
abbrev pub ◌>>=◌ {ℓ κ} : {A : Type ℓ} {B : Type κ} → Outcome A → (A → Outcome B) → Outcome B
err e >>= f = err e
ok a >>= f = f a

abbrev pub ◌>>◌ {ℓ} : {B : Type ℓ} → Outcome (Unit {0}) → Outcome B → Outcome B
m >> k = m >>= λ _. k

-- When a bind succeeds, its first part does, and so does the rest on what that gave.
pub >>=-ok {ℓ κ} :
    {A : Type ℓ} {B : Type κ} {b : B} (f : A → Outcome B) (r : Outcome A)
    → (r >>= f) ≡ ok b
    → (a : A) × (f a ≡ ok b) × (r ≡ ok a)
>>=-ok f (err e) failed = cc
>>=-ok f (ok a) rest = (a, rest, refl)
