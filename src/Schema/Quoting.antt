-- ===== src/Schema/Quoting.antt =====
-- A reader of quoted text in SQL, and that it reads back the names in the queries.
use rapsqlite.Prelude.{
  ℕ, ◌≡◌, refl, sym, ap, ◌∙◌, Bool, true, false, Bool-cases, inl, inr, [], ◌∷◌, ◌++◌, Option, none,
  some, Text, codes, ◌==◌, if◌then◌else◌, arith,
}
use mathlib.Core.List.{append_assoc, append-nil}
use rapsqlite.Settings.{double_char, quote}
use rapsqlite.Schema.{tables_query, views_query, indexes_query, pragma_query}

abbrev pub prepend : ℕ → Option (Text × Text) → Option (Text × Text)
prepend c none = none
prepend c (some (t, rest)) = some (c ∷ t, rest)

-- After an opening quote `k`: up to a quote that stands alone, with two quotes for one.
unfoldable pub read_quoted : ℕ → Text → Option (Text × Text)
read_quoted k [] = none
read_quoted k (c ∷ []) = if c == k then some ([], []) else none
read_quoted k (c ∷ d ∷ cs) =
    let skip = read_quoted k cs in
    let next = read_quoted k (d ∷ cs) in
    if c == k then if d == k then prepend k skip else some ([], d ∷ cs) else prepend c next

-- The text does not go on with `k`.
abbrev pub goes_on : ℕ → Text → Bool
goes_on k [] = false
goes_on k (c ∷ cs) = c == k

pub read_quoted-plain :
    (k c : ℕ) (t : Text) → (c == k) ≡ false → read_quoted k (c ∷ t) ≡ prepend c (read_quoted k t)
unfolding read_quoted
read_quoted-plain k c [] e = rw e refl
read_quoted-plain k c (d ∷ t) e = rw e refl

pub read_quoted-end :
    (k : ℕ) (t : Text) → goes_on k t ≡ false → read_quoted k (k ∷ t) ≡ some ([], t)
unfolding read_quoted
read_quoted-end k [] e = ground arith
read_quoted-end k (d ∷ t) e = ground arith

read_quoted-twice : (k : ℕ) (t : Text) → read_quoted k (k ∷ k ∷ t) ≡ prepend k (read_quoted k t)
unfolding read_quoted
read_quoted-twice k t = ground arith

same_char : (k c : ℕ) → (c == k) ≡ true → k ≡ c
same_char k c e = ground arith

-- Doubling the quotes is undone by the reader.
pub read_quoted-double_char :
    (k : ℕ) (t rest : Text)
    → goes_on k rest ≡ false
    → read_quoted k (double_char k t ++ (k ∷ rest)) ≡ some (t, rest)
unfolding double_char
read_quoted-double_char k [] rest e = read_quoted-end k rest e
read_quoted-double_char k (c ∷ cs) rest e = elim (Bool-cases (c == k)) [
  | inl f ↦ rw f (
      read_quoted-twice k (double_char k cs ++ (k ∷ rest))
      ∙ ap (prepend k) (read_quoted-double_char k cs rest e)
      ∙ ap (λ x. some (x ∷ cs, rest)) (same_char k c f))
  | inr f ↦ rw f (
      read_quoted-plain k c (double_char k cs ++ (k ∷ rest)) f
      ∙ ap (prepend c) (read_quoted-double_char k cs rest e))
]

strip_prefix : Text → Text → Option Text
strip_prefix [] t = some t
strip_prefix (p ∷ ps) [] = none
strip_prefix (p ∷ ps) (c ∷ cs) = let rest = strip_prefix ps cs in if c == p then rest else none

-- The quoted text that follows a prefix, and what follows it.
unfoldable pub after_opening : Text → Option (Text × Text)
unfolding read_quoted
after_opening [] = none
after_opening (c ∷ cs) = if c == 39 then read_quoted 39 cs else none

after_prefix : Option Text → Option (Text × Text)
unfolding after_opening
after_prefix none = none
after_prefix (some t) = after_opening t

unfoldable pub literal_after : Text → Text → Option (Text × Text)
unfolding strip_prefix after_prefix
literal_after prefix query = after_prefix (strip_prefix prefix query)

strip_prefix-append : (p q t : Text) → strip_prefix (p ++ q) (p ++ t) ≡ strip_prefix q t
unfolding strip_prefix
strip_prefix-append [] q t = refl
strip_prefix-append (c ∷ p) q t = ground (arith, strip_prefix-append p q t)

strip_prefix_self : (p t : Text) → strip_prefix p (p ++ t) ≡ some t
unfolding strip_prefix
strip_prefix_self [] t = refl
strip_prefix_self (c ∷ p) t = ground (arith, strip_prefix_self p t)

pub quote-append : (t rest : Text) → quote t ++ rest ≡ 39 ∷ (double_char 39 t ++ (39 ∷ rest))
quote-append t rest = ap (◌∷◌ 39) (append_assoc (double_char 39 t) (39 ∷ []) rest)

pub after_opening-quote :
    (t rest : Text) → goes_on 39 rest ≡ false → after_opening (quote t ++ rest) ≡ some (t, rest)
unfolding after_opening
after_opening-quote t rest e =
    ap after_opening (quote-append t rest) ∙ read_quoted-double_char 39 t rest e

literal_after-quote :
    (prefix t rest : Text)
    → goes_on 39 rest ≡ false
    → literal_after prefix (prefix ++ (quote t ++ rest)) ≡ some (t, rest)
unfolding literal_after
literal_after-quote prefix t rest e =
    ap after_prefix (strip_prefix_self prefix (quote t ++ rest)) ∙ after_opening-quote t rest e

literal_after-last : (prefix t : Text) → literal_after prefix (prefix ++ quote t) ≡ some (t, [])
literal_after-last prefix t =
    ap (λ (x : Text). literal_after prefix (prefix ++ x)) (sym (append-nil (quote t)))
    ∙ literal_after-quote prefix t [] refl

-- The prefix of a PRAGMA query in two parts.
pragma_query-literal :
    (pragma name : Text)
    → literal_after (codes "PRAGMA " ++ (pragma ++ b'(' ∷ [])) (pragma_query pragma name)
      ≡ some (name, b')' ∷ [])
unfolding literal_after pragma_query
pragma_query-literal pragma name =
    ap after_prefix (
      strip_prefix-append (codes "PRAGMA ") (pragma ++ b'(' ∷ [])
        (pragma ++ (b'(' ∷ (quote name ++ b')' ∷ [])))
      ∙ strip_prefix-append pragma (b'(' ∷ []) (b'(' ∷ (quote name ++ b')' ∷ [])))
    ∙ after_opening-quote name (b')' ∷ []) refl

-- Whatever characters a name has, each query that a method asks about it has the name as one quoted
-- text, read back whole, and what follows that text is the fixed rest of the query: no name can
-- change the statement.
pub queries-literal :
    (name pragma : Text)
    → (literal_after
          (codes "SELECT name FROM sqlite_master WHERE type='table' AND name = ")
          (tables_query (some name))
        ≡ some (name, codes " AND name NOT LIKE 'sqlite_%'"))
      × (literal_after
            (codes "SELECT name FROM sqlite_master WHERE type='view' AND name = ")
            (views_query (some name))
          ≡ some (name, []))
      × (literal_after
            (codes
              "SELECT name, tbl_name, sql FROM sqlite_master WHERE type='index' AND tbl_name = ")
            (indexes_query (some name))
          ≡ some (name, codes " AND name NOT LIKE 'sqlite_%' ORDER BY name"))
      × (literal_after (codes "PRAGMA " ++ (pragma ++ b'(' ∷ [])) (pragma_query pragma name)
          ≡ some (name, b')' ∷ []))
unfolding tables_query views_query indexes_query
queries-literal name pragma = (
  literal_after-quote (codes "SELECT name FROM sqlite_master WHERE type='table' AND name = ") name _
      refl,
  literal_after-last (codes "SELECT name FROM sqlite_master WHERE type='view' AND name = ") name,
  literal_after-quote
      (codes "SELECT name, tbl_name, sql FROM sqlite_master WHERE type='index' AND tbl_name = ")
      name _ refl,
  pragma_query-literal pragma name,
)
