-- ===== src/RapRow/Access.antt =====
-- Access to a row by column name, by index and by iteration agree.
use rapsqlite.Prelude.{
  ℕ, zero, suc, ◌≡◌, refl, sym, ap, ◌∙◌, Bool, true, false, Bool-cases, Option-cases, inl, inr,
  List, [], ◌∷◌, map, Option, none, some, is_some, Text, length, get_elem?, ltb, if◌then◌else◌,
  text_eq, arith,
}
use rapsqlite.Outcome.{Outcome, ok, err, PyErr}
use rapsqlite.RapRow.{
  RapRow, Key, position, contains_name, new, value_at, get_item, len, contains_key, zip, items,
}

position-hit : (n c : Text) (cs : List Text) → text_eq c n ≡ true → position n (c ∷ cs) ≡ some 0
unfolding position
position-hit n c cs e = rw (e, position) refl

module _ {ℓ} {A : Type ℓ} where
  -- The first entry of a list of pairs under a name, and what a lookup makes of it.
  abbrev pub first : Text → List (Text × A) → Option A
  first n [] = none
  first n ((c, v) ∷ rest) = if text_eq c n then some v else first n rest

  abbrev pub or_key_error : Text → Option A → Outcome A
  or_key_error n none = err (PyErr.key_error n)
  or_key_error n (some v) = ok v

  abbrev pub or_index_error : ℕ → Option A → Outcome A
  or_index_error i none = err (PyErr.index_error i)
  or_index_error i (some v) = ok v

  -- What the code finds at the position of a name.
  abbrev found_at : Text → List A → Option ℕ → Outcome A
  found_at n vs none = err (PyErr.key_error n)
  found_at n vs (some i) = value_at vs i

  position-miss :
      (n c : Text) (cs : List Text) (v : A) (vs : List A)
      → text_eq c n ≡ false
      → found_at n (v ∷ vs) (position n (c ∷ cs)) ≡ found_at n vs (position n cs)
  unfolding position value_at
  position-miss n c cs v vs e = elim (Option-cases (position n cs)) [
    | inl p ↦ rw (e, p, position) refl
    | inr (i, p) ↦ rw (e, p, position) refl
  ]

  position-first :
      (n : Text) (cs : List Text) (vs : List A)
      → length cs ≡ length vs
      → found_at n vs (position n cs) ≡ or_key_error n (first n (zip cs vs))
  unfolding position zip value_at
  position-first n [] vs h = refl
  position-first n (c ∷ cs) [] h = absurd (omega arith)
  position-first n (c ∷ cs) (v ∷ vs) h = elim (Bool-cases (text_eq c n)) [
    | inl e ↦ ap (found_at n (v ∷ vs)) (position-hit n c cs e) ∙ rw e refl
    | inr e ↦ position-miss n c cs v vs e ∙ position-first n cs vs (omega arith) ∙ rw e refl
  ]

  contains-first :
      (n : Text) (cs : List Text) (vs : List A)
      → length cs ≡ length vs
      → contains_name cs n ≡ is_some (first n (zip cs vs))
  unfolding contains_name zip
  contains-first n [] vs h = refl
  contains-first n (c ∷ cs) [] h = absurd (omega arith)
  contains-first n (c ∷ cs) (v ∷ vs) h = elim (Bool-cases (text_eq c n)) [
    | inl e ↦ rw (e, contains_name) refl
    | inr e ↦ rw (e, contains_name) (contains-first n cs vs (omega arith))
  ]

  map-zip : (cs : List Text) (vs : List A) → length cs ≡ length vs → map (λ p. p.1) (zip cs vs) ≡ vs
  unfolding zip
  map-zip [] [] h = refl
  map-zip [] (v ∷ vs) h = absurd (omega arith)
  map-zip (c ∷ cs) [] h = absurd (omega arith)
  map-zip (c ∷ cs) (v ∷ vs) h = ap (◌∷◌ v) (map-zip cs vs (omega arith))

  length-zip :
      (cs : List Text) (vs : List A) → length cs ≡ length vs → length vs ≡ length (zip cs vs)
  unfolding zip
  length-zip [] [] h = refl
  length-zip [] (v ∷ vs) h = absurd (omega arith)
  length-zip (c ∷ cs) [] h = absurd (omega arith)
  length-zip (c ∷ cs) (v ∷ vs) h = omega (arith, length-zip cs vs (omega arith))

  inside : (vs : List A) (i : ℕ) → ltb i (length vs) ≡ is_some (get_elem? vs i)
  inside [] i = ground arith
  inside (v ∷ vs) zero = ground arith
  inside (v ∷ vs) (suc i) = ground (arith, inside vs i)

  value_at-index :
      (vs : List A) (i : ℕ)
      → (if ltb i (length vs) then value_at vs i else err (PyErr.index_error i))
        ≡ or_index_error i (get_elem? vs i)
  unfolding value_at
  value_at-index vs i =
      ap (λ (b : Bool). if b then value_at vs i else err (PyErr.index_error i)) (inside vs i)
      ∙ elim (Option-cases (get_elem? vs i)) [
        | inl e ↦ rw e refl
        | inr (v, e) ↦ rw (e, value_at) refl
      ]

  new-length :
      (columns : List Text) (values : List A) (row : RapRow A)
      → new columns values ≡ ok row
      → length row.columns ≡ length row.values
  unfolding new
  new-length columns values row made = ground arith

  -- A row that `new` makes gives, by name, the value of the first item under that name, and by index
  -- the value of the item at that index; the errors are for a name or an index that no item has. A key
  -- is in the row just when its access succeeds.
  pub get_item_lem :
      (columns : List Text) (values : List A) (row : RapRow A)
      → new columns values ≡ ok row
      → ((n : Text) → get_item row (Key.name n) ≡ or_key_error n (first n (items row)))
        × ((n : Text) → contains_key row (Key.name n) ≡ is_some (first n (items row)))
        × ((i : ℕ)
            → get_item row (Key.index i)
              ≡ or_index_error i (get_elem? (map (λ p. p.1) (items row)) i))
        × ((i : ℕ)
            → contains_key row (Key.index i) ≡ is_some (get_elem? (map (λ p. p.1) (items row)) i))
        × (len row ≡ length (items row))
  unfolding new get_item items contains_key len
  get_item_lem columns values row made =
      let same : length row.columns ≡ length row.values = new-length columns values row made in
      let kept : map (λ (p : Text × A). p.1) (items row) ≡ row.values =
        map-zip row.columns row.values same in
      (
        λ n. position-first n row.columns row.values same,
        λ n. contains-first n row.columns row.values same,
        λ i.
            value_at-index row.values i
            ∙ ap (λ (vs : List A). or_index_error i (get_elem? vs i)) (sym kept),
        λ i. inside row.values i ∙ ap (λ (vs : List A). is_some (get_elem? vs i)) (sym kept),
        length-zip row.columns row.values same,
      )
