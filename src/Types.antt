-- ===== src/Types.antt =====
-- src/types.rs: the transaction state and the values that are bound to a statement.
-- What PyO3 answers about a Python object is a parameter, the record `PyApi`.
use rapsqlite.Prelude.{ℕ, Bool, true, false, List, Option, none, some, Text}
use rapsqlite.Prelude.Int.{ℤ}
use rapsqlite.Outcome.{Outcome, ok, err, PyErr}

-- A Python object, by its identity.
abbrev pub PyObject : Type 0
PyObject = ℕ

pub data TransactionState : Type 0 where
  idle starting active : TransactionState

unfoldable pub is_active : TransactionState → Bool
is_active idle = false
is_active starting = true
is_active active = true

-- `state == TransactionState::Active`.
unfoldable pub is_exactly_active : TransactionState → Bool
is_exactly_active idle = false
is_exactly_active starting = false
is_exactly_active active = true

-- A float is its 64-bit pattern: nothing in the code computes with it.
pub data SqliteParam : Type 0 where
  null : SqliteParam
  int : ℤ → SqliteParam
  real : ℕ → SqliteParam
  text : Text → SqliteParam
  blob : List ℕ → SqliteParam

-- The answers of PyO3 about an object: `is_none`, `extract::<T>` and `cast::<T>`. A cast that succeeds
-- hands over what the code reads of the object: an integer its `to_string`, a text its `to_str`.
pub record PyApi : Type 0 where
  pub is_none : PyObject → Bool
  pub extract_i64 : PyObject → Option ℤ
  pub extract_f64 : PyObject → Option ℕ
  pub extract_string : PyObject → Option Text
  pub extract_str : PyObject → Option Text
  pub extract_bytes : PyObject → Option (List ℕ)
  pub cast_bytes : PyObject → Option (List ℕ)
  pub cast_int : PyObject → Option Text
  pub cast_float : PyObject → Bool
  pub cast_string : PyObject → Option (Outcome Text)
  pub type_name : PyObject → Outcome Text
  pub cast_dict : PyObject → Option (List (Text × PyObject))
  pub cast_list : PyObject → Option (List PyObject)

module _ (py : PyApi) where
  from_py_string : PyObject → Outcome SqliteParam
  from_py_string value = elim (py.cast_string value) [
    | some (ok s) ↦ ok (text s)
    | some (err e) ↦ err e
    | none ↦ elim (py.type_name value) [
      | ok name ↦ err (PyErr.unsupported_parameter name)
      | err e ↦ err e
    ]
  ]

  from_py_float : PyObject → Outcome SqliteParam
  unfolding from_py_string
  from_py_float value = elim (py.cast_float value) [
    | true ↦ elim (py.extract_f64 value) [ some f ↦ ok (real f) | none ↦ from_py_string value ]
    | false ↦ from_py_string value
  ]

  from_py_int : PyObject → Outcome SqliteParam
  unfolding from_py_float
  from_py_int value = elim (py.cast_int value) [
    | some digits ↦ elim (py.extract_i64 value) [ some n ↦ ok (int n) | none ↦ ok (text digits) ]
    | none ↦ from_py_float value
  ]

  from_py_bytes : PyObject → Outcome SqliteParam
  unfolding from_py_int
  from_py_bytes value = elim (py.extract_bytes value) [
    | some b ↦ ok (blob b)
    | none ↦ elim (py.cast_bytes value) [ some b ↦ ok (blob b) | none ↦ from_py_int value ]
  ]

  from_py_text : PyObject → Outcome SqliteParam
  unfolding from_py_bytes
  from_py_text value = elim (py.extract_string value) [
    | some s ↦ ok (text s)
    | none ↦ elim (py.extract_str value) [ some s ↦ ok (text s) | none ↦ from_py_bytes value ]
  ]

  unfoldable pub from_py : PyObject → Outcome SqliteParam
  unfolding from_py_text
  from_py value = elim (py.is_none value) [
    | true ↦ ok null
    | false ↦ elim (py.extract_i64 value) [
      | some n ↦ ok (int n)
      | none ↦ elim (py.extract_f64 value) [ some f ↦ ok (real f) | none ↦ from_py_text value ]
    ]
  ]
