-- ===== src/Trampolines.antt =====
-- The functions that SQLite calls back: the conversions of values of the C interface (src/conversion.rs),
-- and the trampolines of `create_function`, `set_trace_callback`, `set_authorizer` and
-- `set_progress_handler` (src/connection.rs). A pointer of SQLite is what it points to, `none` for null.
pub mod Answers
use rapsqlite.Prelude.{
  ℕ, ◌+◌, ◌-◌, ◌%◌, ◌^◌, ◌⊎◌, inl, inr, Bool, true, false, List, [], ◌∷◌, ◌++◌, Option, none, some,
  Text, codes, has_char, length, ltb, if◌then◌else◌,
}
use rapsqlite.Prelude.Int.{ℤ, pos, negsuc}
use rapsqlite.Outcome.{Outcome, ok, err, PyErr}
use rapsqlite.Types.{PyObject, PyApi}
use rapsqlite.Conversion.{PyValue, py_none, py_int, py_float, py_str, py_bytes}
use rapsqlite.Uri.{byte_len}
use rapsqlite.Settings.{int_to_string}

-- What `str::from_utf8` makes of the bytes of a text; its error with the text of the error.
pub data Utf8 : Type 0 where
  valid : Text → Utf8
  invalid : Text → Utf8

-- A `sqlite3_value` by its `sqlite3_value_type`, with the answer of the accessor for that type. A text
-- and a blob are read up to `sqlite3_value_bytes`.
pub data CValue : Type 0 where
  c_null c_unknown : CValue
  c_integer : ℤ → CValue
  c_float : ℕ → CValue
  c_text : Option Utf8 → CValue
  c_blob : Option (List ℕ) → CValue

unfoldable pub sqlite_c_value_to_py : CValue → Outcome PyValue
sqlite_c_value_to_py c_null = ok py_none
sqlite_c_value_to_py c_unknown = ok py_none
sqlite_c_value_to_py (c_integer n) = ok (py_int n)
sqlite_c_value_to_py (c_float x) = ok (py_float x)
sqlite_c_value_to_py (c_text none) = ok py_none
sqlite_c_value_to_py (c_text (some (valid t))) = ok (py_str t)
sqlite_c_value_to_py (c_text (some (invalid e))) =
    err (PyErr.value_error (codes "Invalid UTF-8 in SQLite text value: " ++ e))
sqlite_c_value_to_py (c_blob none) = ok py_none
sqlite_c_value_to_py (c_blob (some b)) = ok (py_bytes b)

-- The calls that set the result of a function, with the length that is passed.
pub data CResult : Type 0 where
  result_null : CResult
  result_int64 : ℤ → CResult
  result_double : ℕ → CResult
  result_text : Text → ℤ → CResult
  result_blob : List ℕ → ℤ → CResult
  result_error : Text → ℤ → CResult

-- `n as i32`.
unfoldable pub as_i32 : ℕ → ℤ
as_i32 n = let m = n % 2 ^ 32 in if ltb m (2 ^ 31) then pos m else negsuc (2 ^ 32 - 1 - m)

unfoldable pub text_result : Text → Outcome CResult
unfolding as_i32 byte_len
text_result t =
    if has_char t 0 then err (PyErr.null_in_name t) else ok (result_text t (as_i32 (byte_len t)))

unfoldable pub blob_result : List ℕ → CResult
unfolding as_i32
blob_result b = result_blob b (as_i32 (length b))

unfoldable pub error_result : Text → CResult
unfolding as_i32 byte_len
error_result message = result_error message (as_i32 (byte_len message))

module _ (py : PyApi) where
  object_result : PyObject → Outcome CResult
  unfolding text_result blob_result
  object_result result = elim (py.cast_bytes result) [
    | some b ↦ ok (blob_result b)
    | none ↦ elim (py.cast_string result) [
      | some (ok t) ↦ text_result t
      | some (err e) ↦ err e
      | none ↦ ok result_null
    ]
  ]

  unfoldable pub extracted_result : PyObject → Outcome CResult
  unfolding object_result text_result blob_result
  extracted_result result = elim (py.extract_string result) [
    | some t ↦ text_result t
    | none ↦ elim (py.extract_bytes result) [
      | some b ↦ ok (blob_result b)
      | none ↦ object_result result
    ]
  ]

  unfoldable pub py_to_sqlite_c_result : PyObject → Outcome CResult
  unfolding extracted_result
  py_to_sqlite_c_result result = elim (py.is_none result) [
    | true ↦ ok result_null
    | false ↦ elim (py.extract_i64 result) [
      | some n ↦ ok (result_int64 n)
      | none ↦ elim (py.extract_f64 result) [
        | some x ↦ ok (result_double x)
        | none ↦ extracted_result result
      ]
    ]
  ]

-- What Python and PyO3 answer: `call` is a call of a callback with arguments, `eval_unpack` the helper
-- for more than five of them, `call_unpack` a call of it, `display` the text of an exception.
pub record PyCallbacks : Type 0 where
  pub call : PyObject → List PyValue → Outcome PyObject
  pub new_tuple : List PyValue → Outcome PyObject
  pub eval_unpack : Outcome PyObject
  pub call_unpack : PyObject → PyObject → PyObject → Outcome PyObject
  pub extract_bool : PyObject → Option Bool
  pub extract_i32 : PyObject → Option ℤ
  pub display : PyErr → Text

-- SQLITE_OK and SQLITE_DENY.
abbrev sqlite_ok : ℤ
sqlite_ok = pos 0

abbrev sqlite_deny : ℤ
sqlite_deny = pos 1

-- The arguments from the `i`th on: all of them, or the message about the first that fails.
abbrev then_argument : PyValue → Text ⊎ List PyValue → Text ⊎ List PyValue
then_argument v (inl message) = inl message
then_argument v (inr vs) = inr (v ∷ vs)

abbrev argument_text : Option Text → PyValue
argument_text none = py_none
argument_text (some t) = py_str t

-- The four texts are those of `to_string_lossy`.
abbrev pub authorizer_arguments :
    ℤ → (Option Text × Option Text × Option Text × Option Text) → List PyValue
authorizer_arguments action (a1, a2, a3, a4) =
    py_int action ∷ argument_text a1 ∷ argument_text a2 ∷ argument_text a3 ∷ argument_text a4 ∷ []

module _ (api : PyApi) (py : PyCallbacks) where
  unfoldable pub convert_arguments : ℕ → List CValue → Text ⊎ List PyValue
  unfolding sqlite_c_value_to_py int_to_string
  convert_arguments i [] = inr []
  convert_arguments i (v ∷ vs) =
      let rest = convert_arguments (i + 1) vs in
      elim (sqlite_c_value_to_py v) [
        | ok value ↦ then_argument value rest
        | err e ↦ inl (
            codes "Error converting argument "
            ++ (int_to_string (pos i) ++ (codes ": " ++ py.display e)))
      ]

  unfoldable pub end_call : Outcome PyObject → CResult
  unfolding py_to_sqlite_c_result error_result
  end_call (err e) = error_result (codes "Python function error: " ++ py.display e)
  end_call (ok result) = elim (py_to_sqlite_c_result api result) [
    | ok r ↦ r
    | err e ↦ error_result (codes "Error converting result: " ++ py.display e)
  ]

  -- More than five arguments go through a helper; its source has no null byte.
  call_with_unpacking : PyObject → List PyValue → CResult
  unfolding end_call error_result
  call_with_unpacking callback args = elim (py.new_tuple args) [
    | err e ↦ error_result (codes "Error creating argument tuple: " ++ py.display e)
    | ok tuple ↦ elim py.eval_unpack [
      | err e ↦ error_result (codes "Error creating unpack helper: " ++ py.display e)
      | ok helper ↦ end_call (py.call_unpack helper callback tuple)
    ]
  ]

  unfoldable pub call_function : PyObject → List PyValue → CResult
  unfolding end_call call_with_unpacking
  call_function callback args =
      if ltb (length args) 6
      then end_call (py.call callback args)
      else call_with_unpacking callback args

  unfoldable pub udf_trampoline : Option PyObject → List CValue → CResult
  unfolding convert_arguments call_function error_result
  udf_trampoline none argv = result_null
  udf_trampoline (some callback) argv = elim (convert_arguments 0 argv) [
    | inl message ↦ error_result message
    | inr args ↦ call_function callback args
  ]

  -- The code that is returned, with the call that was made, whose outcome is ignored. The text is that
  -- of `to_string_lossy`.
  unfoldable pub trace_trampoline :
      Option PyObject → Option Text → ℤ × Option (PyObject × List PyValue)
  trace_trampoline none x = (pos 0, none)
  trace_trampoline (some callback) none = (pos 0, none)
  trace_trampoline (some callback) (some sql) = (pos 0, some (callback, py_str sql ∷ []))

  unfoldable pub authorizer_trampoline :
      Option PyObject → ℤ → (Option Text × Option Text × Option Text × Option Text) → ℤ
  authorizer_trampoline none action args = sqlite_ok
  authorizer_trampoline (some callback) action args =
      elim (py.call callback (authorizer_arguments action args)) [
        | ok result ↦ elim (py.extract_i32 result) [ some code ↦ code | none ↦ sqlite_deny ]
        | err e ↦ sqlite_deny
      ]

  unfoldable pub progress_trampoline : Option PyObject → ℤ
  progress_trampoline none = pos 0
  progress_trampoline (some callback) = elim (py.call callback []) [
    | err e ↦ pos 0
    | ok result ↦ elim (py.extract_bool result) [
      | some true ↦ pos 0
      | some false ↦ pos 1
      | none ↦ elim (py.extract_i32 result) [ some code ↦ code | none ↦ pos 0 ]
    ]
  ]
