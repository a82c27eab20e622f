-- ===== src/RapRow.antt =====
-- src/row.rs: the row type with access by index and by column name.
pub mod Access
pub mod Printing
use rapsqlite.Prelude.{
  ℕ, suc, Bool, true, false, ◌||◌, List, [], ◌∷◌, Option, none, some, Text, length, get_elem?, ltb,
  ◌==◌, if◌then◌else◌, text_eq, codes,
}
use rapsqlite.Outcome.{Outcome, ok, err, PyErr}

-- The values are generic: the code never looks into them.
pub record RapRow {ℓ} (A : Type ℓ) : Type ℓ where
  pub columns : List Text
  pub values : List A

-- What `extract::<usize>` and `extract::<String>` find in a key.
pub data Key : Type 0 where
  index : ℕ → Key
  name : Text → Key
  other : Key

-- `iter().position(|c| c == &col_name)`.
unfoldable pub position : Text → List Text → Option ℕ
position n [] = none
position n (c ∷ cs) =
    let rest = position n cs in
    elim (text_eq c n) [ true ↦ some 0 | false ↦ elim rest [ some i ↦ some (suc i) | none ↦ none ] ]

-- `columns.contains(&col_name)`.
unfoldable pub contains_name : List Text → Text → Bool
contains_name [] n = false
contains_name (c ∷ cs) n = text_eq c n || contains_name cs n

module _ {ℓ} {A : Type ℓ} where
  unfoldable pub new : List Text → List A → Outcome (RapRow A)
  new columns values =
      if length columns == length values
      then ok (record { columns = columns; values = values })
      else err (PyErr.value_error (codes "Columns and values must have the same length"))

  -- `values[idx]`, which panics out of bounds.
  unfoldable pub value_at : List A → ℕ → Outcome A
  value_at values i = elim (get_elem? values i) [ some v ↦ ok v | none ↦ err PyErr.panic ]

  unfoldable pub get_item : RapRow A → Key → Outcome A
  unfolding value_at
  get_item row (Key.index i) =
      if ltb i (length row.values) then value_at row.values i else err (PyErr.index_error i)
  get_item row (Key.name n) = elim (position n row.columns) [
    | some i ↦ value_at row.values i
    | none ↦ err (PyErr.key_error n)
  ]
  get_item row Key.other = err (PyErr.type_error (codes "Key must be int or str"))

  unfoldable pub len : RapRow A → ℕ
  len row = length row.values

  unfoldable pub contains_key : RapRow A → Key → Bool
  unfolding contains_name
  contains_key row (Key.name n) = contains_name row.columns n
  contains_key row (Key.index i) = ltb i (length row.values)
  contains_key row Key.other = false

  unfoldable pub zip : List Text → List A → List (Text × A)
  zip [] vs = []
  zip (c ∷ cs) [] = []
  zip (c ∷ cs) (v ∷ vs) = (c, v) ∷ zip cs vs

  unfoldable pub items : RapRow A → List (Text × A)
  unfolding zip
  items row = zip row.columns row.values
