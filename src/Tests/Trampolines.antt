-- ===== src/Tests/Trampolines.antt =====
-- Runs of the functions that SQLite calls back.
use rapsqlite.Prelude.{◌≡◌, refl, List, [], ◌∷◌, none, some, codes, ◌==◌, if◌then◌else◌}
use rapsqlite.Prelude.Int.{pos, negsuc}
use rapsqlite.Outcome.{ok, err, PyErr}
use rapsqlite.Types.{PyObject}
use rapsqlite.Tests.{py}
use rapsqlite.Conversion.{py_int, PyValue}
use rapsqlite.Trampolines.Answers.{Gives, py_to_sqlite_c_result-sqlite_c_value_to_py}
use rapsqlite.Trampolines.{
  sqlite_c_value_to_py, py_to_sqlite_c_result, PyCallbacks, c_integer, c_text, invalid,
  result_int64, result_error, as_i32, udf_trampoline,
}

abbrev first : List PyValue → PyObject
first (py_int (pos n) ∷ vs) = n
first vs = 0

-- Function 7 gives its first argument, all others raise.
abbrev callbacks : PyCallbacks
callbacks = record {
  call = λ f vs. if f == 7 then ok (first vs) else err (PyErr.raised 3);
  new_tuple = λ vs. ok (first vs);
  eval_unpack = ok 9;
  call_unpack = λ helper f t. ok t;
  extract_bool = λ o. none;
  extract_i32 = λ o. some (pos o);
  display = λ e. codes "x";
}

identity : udf_trampoline py callbacks (some 7) (c_integer (pos 5) ∷ []) ≡ result_int64 (pos 5)
unfolding udf_trampoline
identity = refl

raising :
    udf_trampoline py callbacks (some 8) []
    ≡ result_error (codes "Python function error: x") (pos 24)
unfolding udf_trampoline
raising = refl

second_argument_refused :
    udf_trampoline py callbacks
      (some 7)
      (c_integer (pos 5) ∷ c_text (some (invalid (codes "e"))) ∷ [])
    ≡ result_error (codes "Error converting argument 1: x") (pos 30)
unfolding udf_trampoline
second_argument_refused = refl

-- A length of 2 ^ 31 is passed as a negative number.
length_wraps : as_i32 2147483648 ≡ negsuc 2147483647
unfolding as_i32
length_wraps = refl

py_to_sqlite_c_result-sqlite_c_value_to_py_example :
    Gives (c_integer (pos 5)) (py_to_sqlite_c_result py 5)
unfolding sqlite_c_value_to_py
py_to_sqlite_c_result-sqlite_c_value_to_py_example =
    py_to_sqlite_c_result-sqlite_c_value_to_py py 5 (c_integer (pos 5)) (refl, refl)
