-- ===== src/Settings.antt =====
-- src/connection.rs: `set_pragma`, and the setters of the factories and of the size of the pool.
pub mod Pragmas
use rapsqlite.Prelude.{
  ℕ, zero, suc, ◌+◌, ◌/◌, ◌%◌, Bool, true, false, List, [], ◌∷◌, ◌++◌, Option, none, some, Text,
  codes, ◌==◌, ltb, if◌then◌else◌, text_eq,
}
use rapsqlite.Prelude.Int.{ℤ, pos, negsuc}
use rapsqlite.Outcome.{Outcome, ok, err, PyErr, Statement}
use rapsqlite.Types.{PyObject, PyApi}
use rapsqlite.State.{Connection, Env, Target, M, ◌>>=◌, ◌>>◌, pure, modify, do_execute}
use rapsqlite.Pool.{get_or_create_pool, execute_init_hook_if_needed}

-- `to_string` of an `i64`, which has at most 19 digits.
unfoldable pub digits : ℕ → ℕ → Text
digits zero n = []
digits (suc fuel) n =
    let rest = digits fuel (n / 10) in
    if ltb n 10 then (b'0' + n) ∷ [] else rest ++ (b'0' + n % 10) ∷ []

unfoldable pub int_to_string : ℤ → Text
unfolding digits
int_to_string (pos n) = digits 19 n
int_to_string (negsuc n) = b'-' ∷ digits 19 (n + 1)

-- `replace` of a character by two of it.
unfoldable pub double_char : ℕ → Text → Text
double_char k [] = []
double_char k (c ∷ cs) = let rest = double_char k cs in if c == k then k ∷ k ∷ rest else c ∷ rest

abbrev pub quote : Text → Text
quote t = 39 ∷ double_char 39 t ++ 39 ∷ []

-- The text of a value: `str` is Python's `str()`.
unfoldable pub pragma_value : PyApi → (PyObject → Text) → PyObject → Text
unfolding int_to_string double_char
pragma_value py str value = if py.is_none value then codes "NULL" else elim (py.extract_i64 value) [
  | some n ↦ int_to_string n
  | none ↦ elim (py.extract_string value) [ some s ↦ quote s | none ↦ quote (str value) ]
]

-- Update or add.
unfoldable pub store_pragma : Text → Text → List (Text × Text) → List (Text × Text)
store_pragma name value [] = (name, value) ∷ []
store_pragma name value ((key, val) ∷ rest) =
    if text_eq key name then (key, value) ∷ rest else (key, val) ∷ store_pragma name value rest

module _ (env : Env) where
  unfoldable pub run_pragma : Text → Text → M Connection (Unit {0})
  run_pragma name value = do
    p ← get_or_create_pool env
    execute_init_hook_if_needed env
    _ ← do_execute env (Target.on_pool p) (Statement.pragma name value) []
    pure tt

  -- `set_pragma`, with the text of its value.
  unfoldable pub set_pragma : Text → Text → M Connection (Unit {0})
  unfolding store_pragma run_pragma
  set_pragma name value = do
    modify λ c. record c { pragmas = store_pragma name value c.pragmas }
    run_pragma name value

  -- `set_pool_size`; the first argument is PyO3's error for a value that is no `i64`.
  unfoldable pub set_pool_size : PyErr → PyObject → M Connection (Unit {0})
  set_pool_size no_int value c =
      if env.py.is_none value
      then (ok tt, record c { pool_size = none })
      else elim (env.py.extract_i64 value) [
        | none ↦ (err no_int, c)
        | some (pos n) ↦ (ok tt, record c { pool_size = some n })
        | some (negsuc n) ↦ (err (PyErr.value_error (codes "pool_size must be >= 0")), c)
      ]

  -- `set_row_factory` and `set_text_factory`.
  unfoldable pub set_row_factory : PyObject → Connection → Connection
  set_row_factory value c = record c {
    row_factory = if env.py.is_none value then none else some value;
  }

  unfoldable pub set_text_factory : PyObject → Connection → Connection
  set_text_factory value c = record c {
    text_factory = if env.py.is_none value then none else some value;
  }
