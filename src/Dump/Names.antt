-- ===== src/Dump/Names.antt =====
-- A reader of quoted and dotted names in SQL, and what it reads of the names that `iterdump` writes.
use rapsqlite.Prelude.{
  ℕ, zero, suc, ◌≡◌, refl, ap, ◌∙◌, true, false, Bool-cases, inl, inr, List, [], ◌∷◌, ◌++◌, Option,
  none, some, map, Text, ◌==◌, length, if◌then◌else◌, arith,
}
use mathlib.Core.List.{append_assoc}
use rapsqlite.Settings.{double_char}
use rapsqlite.Schema.Quoting.{read_quoted, goes_on, read_quoted-double_char}
use rapsqlite.Dump.{quote_ident_part, quote_ident_path, split_dots, add_char, join}

abbrev Pieces : Type 0
Pieces = Option (List Text × Text)

unfoldable pub first_part : Text → Option (Text × Text)
unfolding read_quoted
first_part [] = none
first_part (c ∷ cs) = if c == 34 then read_quoted 34 cs else none

abbrev with_piece : Text → Pieces → Pieces
with_piece p none = none
with_piece p (some (ps, rest)) = some (p ∷ ps, rest)

-- After one piece: the rest of the path, if a dot follows.
abbrev next_pieces : (Text → Pieces) → Option (Text × Text) → Pieces
next_pieces more none = none
next_pieces more (some (p, [])) = some (p ∷ [], [])
next_pieces more (some (p, c ∷ cs)) =
    if c == b'.' then with_piece p (more cs) else some (p ∷ [], c ∷ cs)

-- At most so many quoted pieces with dots between them.
unfoldable pub read_path : ℕ → Text → Option (List Text × Text)
unfolding first_part
read_path zero t = none
read_path (suc n) t = next_pieces (read_path n) (first_part t)

first_part-quote :
    (p rest : Text)
    → goes_on 34 rest ≡ false
    → first_part (quote_ident_part p ++ rest) ≡ some (p, rest)
unfolding first_part quote_ident_part
first_part-quote p rest e =
    ap (read_quoted 34) (append_assoc (double_char 34 p) (34 ∷ []) rest)
    ∙ read_quoted-double_char 34 p rest e

next_pieces-last :
    (more : Text → Pieces) (p rest : Text)
    → goes_on b'.' rest ≡ false
    → next_pieces more (some (p, rest)) ≡ some (p ∷ [], rest)
next_pieces-last more p [] e = refl
next_pieces-last more p (c ∷ rest) e = rw e refl

read_path-join :
    (p : Text) (ps : List Text) (rest : Text)
    → goes_on 34 rest ≡ false
    → goes_on b'.' rest ≡ false
    → read_path (length (p ∷ ps)) (join (b'.' ∷ []) (map quote_ident_part (p ∷ ps)) ++ rest)
      ≡ some (p ∷ ps, rest)
unfolding read_path join
read_path-join p [] rest e f =
    ap (next_pieces (read_path 0)) (first_part-quote p rest e)
    ∙ next_pieces-last (read_path 0) p rest f
read_path-join p (q ∷ qs) rest e f =
    let tail = join (b'.' ∷ []) (map quote_ident_part (q ∷ qs)) in
    ap (λ (t : Text). next_pieces (read_path (length (q ∷ qs))) (first_part t))
      (append_assoc (quote_ident_part p) (b'.' ∷ tail) rest)
    ∙ ap (next_pieces (read_path (length (q ∷ qs))))
        (first_part-quote p (b'.' ∷ (tail ++ rest)) refl)
    ∙ ap (with_piece p) (read_path-join q qs rest e f)

-- The pieces are never none, and put together they are the name.
add_char-filled :
    (c : ℕ) (ps : List Text) → (p : Text) × (qs : List Text) × (add_char c ps ≡ p ∷ qs)
unfolding add_char
add_char-filled c [] = (c ∷ [], [], refl)
add_char-filled c (p ∷ ps) = (c ∷ p, ps, refl)

split_dots-filled : (t : Text) → (p : Text) × (ps : List Text) × (split_dots t ≡ p ∷ ps)
unfolding split_dots
split_dots-filled [] = ([], [], refl)
split_dots-filled (c ∷ cs) = elim (Bool-cases (c == b'.')) [
  | inl e ↦ ([], split_dots cs, rw e refl)
  | inr e ↦ rw e (add_char-filled c (split_dots cs))
]

join-add_char :
    (c : ℕ) (ps : List Text) → join (b'.' ∷ []) (add_char c ps) ≡ c ∷ join (b'.' ∷ []) ps
unfolding join add_char
join-add_char c [] = refl
join-add_char c (p ∷ []) = refl
join-add_char c (p ∷ q ∷ ps) = refl

join-empty :
    (ps : List Text)
    → (p : Text) × (qs : List Text) × (ps ≡ p ∷ qs)
    → join (b'.' ∷ []) ([] ∷ ps) ≡ b'.' ∷ join (b'.' ∷ []) ps
unfolding join
join-empty [] (p, qs, e) = absurd cc
join-empty (q ∷ ps) filled = refl

dot_char : (c : ℕ) → (c == b'.') ≡ true → b'.' ≡ c
dot_char c e = ground arith

read_path-pieces :
    (ps : List Text)
    → (p : Text) × (qs : List Text) × (ps ≡ p ∷ qs)
    → (rest : Text) → goes_on 34 rest ≡ false
    → goes_on b'.' rest ≡ false
    → read_path (length ps) (join (b'.' ∷ []) (map quote_ident_part ps) ++ rest) ≡ some (ps, rest)
read_path-pieces [] (p, qs, filled) rest e f = absurd cc
read_path-pieces (p ∷ ps) filled rest e f = read_path-join p ps rest e f

join-split_dots : (t : Text) → join (b'.' ∷ []) (split_dots t) ≡ t
unfolding join split_dots
join-split_dots [] = refl
join-split_dots (c ∷ cs) = elim (Bool-cases (c == b'.')) [
  | inl e ↦ rw e (
      join-empty (split_dots cs) (split_dots-filled cs)
      ∙ ap (◌∷◌ b'.') (join-split_dots cs)
      ∙ ap (λ (k : ℕ). k ∷ cs) (dot_char c e))
  | inr e ↦ rw e (join-add_char c (split_dots cs) ∙ ap (◌∷◌ c) (join-split_dots cs))
]

-- Whatever characters a table's name has, a reader of quoted names that are joined by dots reads what
-- `iterdump` writes for it as the pieces of the name between its dots, and these pieces, joined
-- again, are the name. What follows must go on neither with a quote nor with a dot.
pub quote_ident_path_lem :
    (name rest : Text)
    → goes_on 34 rest ≡ false
    → goes_on b'.' rest ≡ false
    → (read_path (length (split_dots name)) (quote_ident_path name ++ rest)
        ≡ some (split_dots name, rest))
      × (join (b'.' ∷ []) (split_dots name) ≡ name)
unfolding quote_ident_path
quote_ident_path_lem name rest e f =
    (read_path-pieces (split_dots name) (split_dots-filled name) rest e f, join-split_dots name)
