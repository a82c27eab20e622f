-- ===== src/RapRow/Printing.antt =====
-- src/row.rs: the text of a row.
use rapsqlite.Prelude.{List, [], ◌∷◌, ◌++◌, Option, none, some, Text, codes}
use rapsqlite.RapRow.{RapRow, items}

module _ {ℓ} {A : Type ℓ} where
  -- `repr` of a value, with a question mark where it raises.
  abbrev shown : (A → Option Text) → A → Text
  shown repr v = elim (repr v) [ some t ↦ t | none ↦ codes "?" ]

  -- `join` of the pairs by a comma.
  unfoldable pub join_items : (A → Option Text) → List (Text × A) → Text
  join_items repr [] = []
  join_items repr ((c, v) ∷ []) = c ++ codes "=" ++ shown repr v
  join_items repr ((c, v) ∷ p ∷ ps) =
      (c ++ codes "=" ++ shown repr v) ++ (codes ", " ++ join_items repr (p ∷ ps))

  -- `__str__`, and `__repr__`, which calls it.
  unfoldable pub row_text : (A → Option Text) → RapRow A → Text
  unfolding join_items items
  row_text repr row = codes "Row(" ++ (join_items repr (items row) ++ codes ")")
