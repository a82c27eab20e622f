-- ===== src/Params/Substitute.antt =====
-- Replacing the placeholders from the last to the first is one pass over the query.
use rapsqlite.Prelude.{
  ℕ, zero, suc, ◌+◌, ◌≡◌, refl, sym, ap, ◌∙◌, true, false, Bool-cases, inl, inr, List, [], ◌∷◌,
  ◌++◌, none, some, Text, length, length-append, ltb, arith,
}
use mathlib.Core.List.{append_assoc}
use rapsqlite.Outcome.{Outcome, ok, err, PyErr, ◌>>=◌}
use rapsqlite.Types.{PyObject, SqliteParam, PyApi, from_py}
use rapsqlite.Chars.{CharTables, utf8_width, is_alphanumeric}
use rapsqlite.Params.{
  Placeholder, get_item, split_at_byte, replace_range, opens, starts_name, continues_name,
  read_name, replace_one, replace_loop,
}

-- The one pass: each placeholder becomes a question mark, and its value goes in front of those after it.
module _ (py : PyApi) (tables : CharTables) (dict : List (Text × PyObject)) where
  unfoldable pub put_value : Text → Text × List SqliteParam → Outcome (Text × List SqliteParam)
  put_value name (query, values) = elim (get_item name dict) [
    | none ↦ err (PyErr.missing_parameter name)
    | some v ↦ elim (from_py py v) [ err e ↦ err e | ok value ↦ ok (b'?' ∷ query, value ∷ values) ]
  ]

  abbrev pub keep_char : ℕ → Text × List SqliteParam → Outcome (Text × List SqliteParam)
  keep_char c (query, values) = ok (c ∷ query, values)

  unfoldable pub substitute : ℕ → Text → Outcome (Text × List SqliteParam)
  unfolding put_value
  substitute zero cs = ok (cs, [])
  substitute (suc fuel) [] = ok ([], [])
  substitute (suc fuel) (c ∷ cs) = elim (opens tables c cs) [
    | false ↦ substitute fuel cs >>= keep_char c
    | true ↦ let (name, rest) = read_name tables cs in substitute fuel rest >>= put_value name
  ]

-- Characters of one byte each.
abbrev pub IsAscii : Text → Type 0
IsAscii [] = Unit
IsAscii (c ∷ cs) = (ltb c 128 ≡ true) × IsAscii cs

split_at_byte-ascii : (a b : Text) → IsAscii a → split_at_byte (length a) (a ++ b) ≡ some (a, b)
unfolding split_at_byte utf8_width
split_at_byte-ascii [] [] h = refl
split_at_byte-ascii [] (c ∷ b) h = refl
split_at_byte-ascii (c ∷ a) b h = ground (arith, split_at_byte-ascii a b h.1)

pub IsAscii-append : (a b : Text) → IsAscii a → IsAscii b → IsAscii (a ++ b)
IsAscii-append [] b h k = k
IsAscii-append (c ∷ a) b h k = (h.0, IsAscii-append a b h.1 k)

pub IsAscii-parts : (a b : Text) → IsAscii (a ++ b) → IsAscii a × IsAscii b
IsAscii-parts [] b h = (tt, h)
IsAscii-parts (c ∷ a) b h = let ih = IsAscii-parts a b h.1 in ((h.0, ih.0), ih.1)

replace_range-eq :
    (start stop : ℕ) (t before after kept cut : Text)
    → split_at_byte stop t ≡ some (before, after)
    → split_at_byte start before ≡ some (kept, cut)
    → replace_range start stop t ≡ ok (kept ++ (b'?' ∷ after))
unfolding replace_range
replace_range-eq start stop t before after kept cut e f = ground arith

-- Replacing the middle of three parts.
pub replace_range-parts :
    (a m b : Text)
    → IsAscii a
    → IsAscii m
    → replace_range (length a) (length a + length m) (a ++ (m ++ b)) ≡ ok (a ++ (b'?' ∷ b))
replace_range-parts a m b h k =
    ap (λ n. replace_range (length a) n (a ++ (m ++ b))) (sym (length-append a m))
    ∙ ap (replace_range (length a) (length (a ++ m))) (sym (append_assoc a m b))
    ∙ replace_range-eq (length a) (length (a ++ m)) ((a ++ m) ++ b) (a ++ m) b a m
        (split_at_byte-ascii (a ++ m) b (IsAscii-append a m h k)) (split_at_byte-ascii a m h)

pub read_name-parts :
    (tables : CharTables) (cs : Text) → cs ≡ (read_name tables cs).0 ++ (read_name tables cs).1
unfolding read_name
read_name-parts tables [] = refl
read_name-parts tables (c ∷ cs) = elim (Bool-cases (continues_name tables c)) [
  | inl e ↦ rw (e, read_name) (ap (◌∷◌ c) (read_name-parts tables cs))
  | inr e ↦ rw (e, read_name) refl
]

-- A character that begins a name continues one too.
starts-continues :
    (tables : CharTables) (c : ℕ) → starts_name tables c ≡ true → continues_name tables c ≡ true
unfolding starts_name continues_name is_alphanumeric
starts-continues tables c e = ground arith

-- What a prefix opens has a name.
pub read_name-opens :
    (tables : CharTables) (c : ℕ) (cs : Text)
    → opens tables c cs ≡ true
    → (d : ℕ) × (ds : Text) × ((read_name tables cs).0 ≡ d ∷ ds)
unfolding opens read_name
read_name-opens tables c [] e = cc
read_name-opens tables c (d ∷ ds) e =
    let starts : starts_name tables d ≡ true = ground arith in
    rw (starts-continues tables d starts, read_name) (d, (read_name tables ds).0, refl)

module _ (py : PyApi) (dict : List (Text × PyObject)) where
  pub replace_loop-append :
      (ps : List Placeholder) (p : Placeholder) (state : Text × List SqliteParam)
      → replace_loop py dict (ps ++ p ∷ []) state
        ≡ (replace_loop py dict ps state >>= replace_one py dict p)
  unfolding replace_loop
  replace_loop-append [] p state = ground (arith)
  replace_loop-append (q ∷ ps) p state =
      elim (replace_one py dict q state)
        as (λ x.
          (x >>= replace_loop py dict (ps ++ p ∷ []))
          ≡ ((x >>= replace_loop py dict ps) >>= replace_one py dict p)) [
            | ok s ↦ replace_loop-append ps p s
            | err e ↦ refl
          ]
