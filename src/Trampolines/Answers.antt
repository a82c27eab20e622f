-- ===== src/Trampolines/Answers.antt =====
-- src/connection.rs, src/conversion.rs: what the trampolines answer to SQLite.
use rapsqlite.Prelude.{
  ◌≡◌, ◌≢◌, ◌⊎◌, true, false, [], ◌∷◌, Option, none, some, Text, arith, has_char, length,
  if◌then◌else◌,
}
use rapsqlite.Prelude.Int.{ℤ, pos}
use rapsqlite.Outcome.{Outcome, ok, err, PyErr}
use rapsqlite.Uri.{byte_len}
use rapsqlite.Types.{PyObject, PyApi}
use rapsqlite.Conversion.{PyValue, py_none, py_int, py_float, py_str, py_bytes, foreign}
use rapsqlite.Trampolines.{
  CValue, CResult, PyCallbacks, c_null, c_integer, c_float, c_text, c_blob, c_unknown, valid,
  invalid, result_null, result_int64, result_double, result_text, result_blob, as_i32, text_result,
  blob_result, py_to_sqlite_c_result, extracted_result, convert_arguments, call_function, end_call,
  udf_trampoline, authorizer_trampoline, authorizer_arguments, progress_trampoline,
  sqlite_c_value_to_py,
}

-- What PyO3 documents of the object that a value is.
abbrev pub Reads : PyApi → PyValue → PyObject → Type 0
Reads api py_none o = api.is_none o ≡ true
Reads api (py_int n) o = (api.is_none o ≡ false) × (api.extract_i64 o ≡ some n)
Reads api (py_float x) o =
    (api.is_none o ≡ false) × (api.extract_i64 o ≡ none) × (api.extract_f64 o ≡ some x)
Reads api (py_str t) o =
    (api.is_none o ≡ false)
    × (api.extract_i64 o ≡ none)
    × (api.extract_f64 o ≡ none)
    × (api.extract_string o ≡ some t)
Reads api (py_bytes b) o =
    (api.is_none o ≡ false)
    × (api.extract_i64 o ≡ none)
    × (api.extract_f64 o ≡ none)
    × (api.extract_string o ≡ none)
    × (api.extract_bytes o ≡ some b)
Reads api (foreign p) o = o ≡ p

-- The object that the converted value is, when it was converted.
abbrev pub ReadsOk : PyApi → Outcome PyValue → PyObject → Type 0
ReadsOk api (ok v) o = Reads api v o
ReadsOk api (err e) o = Unit

-- The result that stands for a value of SQLite: a null pointer stands for NULL.
abbrev pub Gives : CValue → Outcome CResult → Type 0
Gives c_null r = r ≡ ok result_null
Gives c_unknown r = r ≡ ok result_null
Gives (c_integer n) r = r ≡ ok (result_int64 n)
Gives (c_float x) r = r ≡ ok (result_double x)
Gives (c_text none) r = r ≡ ok result_null
Gives (c_text (some (valid t))) r = r ≡ (
    if has_char t 0 then err (PyErr.null_in_name t) else ok (result_text t (as_i32 (byte_len t))))
Gives (c_text (some (invalid e))) r = Unit
Gives (c_blob none) r = r ≡ ok result_null
Gives (c_blob (some b)) r = r ≡ ok (result_blob b (as_i32 (length b)))

module _ (api : PyApi) (o : PyObject) where
  -- A user function that returns an argument as it got it returns the same value to SQLite: the result
  -- has the type and the content of the argument, a text or a blob with its length in bytes as an i32, a
  -- null pointer counts as NULL, and a text with a null byte is an error. PyO3 is to extract from the
  -- object what the value is, and a text that is not UTF-8 is left out, since its conversion fails.
  pub py_to_sqlite_c_result-sqlite_c_value_to_py :
      (v : CValue) → ReadsOk api (sqlite_c_value_to_py v) o → Gives v (py_to_sqlite_c_result api o)
  unfolding py_to_sqlite_c_result extracted_result sqlite_c_value_to_py text_result blob_result
  py_to_sqlite_c_result-sqlite_c_value_to_py c_null r = rw (py_to_sqlite_c_result, r)
  py_to_sqlite_c_result-sqlite_c_value_to_py c_unknown r = rw (py_to_sqlite_c_result, r)
  py_to_sqlite_c_result-sqlite_c_value_to_py (c_integer n) (a, b) = rw (py_to_sqlite_c_result, a, b)
  py_to_sqlite_c_result-sqlite_c_value_to_py (c_float x) (a, b, c) =
      rw (py_to_sqlite_c_result, a, b, c)
  py_to_sqlite_c_result-sqlite_c_value_to_py (c_text none) r = rw (py_to_sqlite_c_result, r)
  py_to_sqlite_c_result-sqlite_c_value_to_py (c_text (some (valid t))) (a, b, c, d) =
      rw (py_to_sqlite_c_result, a, b, c, extracted_result, d)
  py_to_sqlite_c_result-sqlite_c_value_to_py (c_text (some (invalid e))) r = tt
  py_to_sqlite_c_result-sqlite_c_value_to_py (c_blob none) r = rw (py_to_sqlite_c_result, r)
  py_to_sqlite_c_result-sqlite_c_value_to_py (c_blob (some b)) (p, q, r, s, t) =
      rw (py_to_sqlite_c_result, p, q, r, extracted_result, s, t)

module _ (api : PyApi) (py : PyCallbacks) where
  -- When an authorizer is set and SQLite gets another answer than a denial, the Python callback was
  -- called with the action and its four texts, and returned this answer.
  authorizer_denies :
      (f : PyObject) (action : ℤ) (args : Option Text × Option Text × Option Text × Option Text)
      (code : ℤ)
      → authorizer_trampoline api py (some f) action args ≡ code
      → code ≢ pos 1
      → (o : PyObject) × (py.call f (authorizer_arguments action args) ≡ ok o)
        × (py.extract_i32 o ≡ some code)
  unfolding authorizer_trampoline
  authorizer_denies f action args code answered other = ground arith

  -- A progress handler stops a statement only when the Python callback was called and gave False or,
  -- not being a bool, an integer other than 0.
  progress_continues :
      (f : PyObject) (code : ℤ)
      → progress_trampoline api py (some f) ≡ code
      → code ≢ pos 0
      → (o : PyObject) × (py.call f [] ≡ ok o)
        × ((py.extract_bool o ≡ some false)
            ⊎ ((py.extract_bool o ≡ none) × (py.extract_i32 o ≡ some code)))
  unfolding progress_trampoline
  progress_continues f code answered other = ground arith

  -- A function of one argument is called with the Python value of the argument, and SQLite gets what
  -- its answer converts to, when nothing fails.
  udf_trampoline_lem :
      (f o : PyObject) (v : CValue) (p : PyValue) (r : CResult)
      → sqlite_c_value_to_py v ≡ ok p
      → py.call f (p ∷ []) ≡ ok o
      → py_to_sqlite_c_result api o ≡ ok r
      → udf_trampoline api py (some f) (v ∷ []) ≡ r
  unfolding udf_trampoline convert_arguments call_function end_call
  udf_trampoline_lem f o v p r converted called given =
      rw (udf_trampoline, convert_arguments, converted, called, end_call, given)
