-- ===== src/Sql/Normal.antt =====
-- The normal form of a query: its words, with one space between them.
use rapsqlite.Prelude.{
  ℕ, ◌≡◌, refl, sym, ap, ◌∙◌, Bool, true, false, Bool-cases, inl, inr, List, [], ◌∷◌, ◌++◌, Text,
  if◌then◌else◌, arith,
}
use mathlib.Core.List.{append_assoc, append-nil}
use rapsqlite.Chars.{is_whitespace}
use rapsqlite.Sql.Words.{
  add_word, split, words, spaced, unwords, is_nil, split-space, split-other, words-space,
  words-other, split-AllWords, add_word-AllWords, words-unwords,
}
use rapsqlite.Sql.{trim_start, trim_end, trim, fold_spaces, normalize_query}

-- The fold, without its accumulator.
unfoldable collapse : Bool → Text → Text
collapse was_space [] = []
collapse was_space (c ∷ cs) =
    let spaces = collapse true cs in
    let others = collapse false cs in
    if is_whitespace c then (if was_space then spaces else b' ' ∷ spaces) else c ∷ others

fold_spaces-eq :
    (acc : Text) (was_space : Bool) (t : Text)
    → fold_spaces acc was_space t ≡ acc ++ collapse was_space t
unfolding fold_spaces collapse
fold_spaces-eq acc was_space [] = sym (append-nil acc)
fold_spaces-eq acc true (c ∷ cs) = elim (Bool-cases (is_whitespace c)) [
  | inl e ↦ rw (e, fold_spaces, collapse) (fold_spaces-eq acc true cs)
  | inr e ↦
      rw (e, fold_spaces, collapse)
        (fold_spaces-eq (acc ++ c ∷ []) false cs ∙ append_assoc acc (c ∷ []) (collapse false cs))
]
fold_spaces-eq acc false (c ∷ cs) = elim (Bool-cases (is_whitespace c)) [
  | inl e ↦
      rw (e, fold_spaces, collapse)
        (fold_spaces-eq (acc ++ b' ' ∷ []) true cs
          ∙ append_assoc acc (b' ' ∷ []) (collapse true cs))
  | inr e ↦
      rw (e, fold_spaces, collapse)
        (fold_spaces-eq (acc ++ c ∷ []) false cs ∙ append_assoc acc (c ∷ []) (collapse false cs))
]

trim_end-other : (c : ℕ) (cs : Text) → is_whitespace c ≡ false → trim_end (c ∷ cs) ≡ c ∷ trim_end cs
unfolding trim_end
trim_end-other c cs e = ground arith

trim_end-space :
    (c : ℕ) (cs : Text)
    → is_whitespace c ≡ true
    → trim_end (c ∷ cs) ≡ (if is_nil (trim_end cs) then [] else c ∷ trim_end cs)
unfolding trim_end
trim_end-space c cs e = ground arith

-- A text is trimmed to nothing when it has no words.
trim_end-is_nil : (t : Text) → is_nil (trim_end t) ≡ is_nil (words t)
unfolding words trim_end split add_word
trim_end-is_nil [] = refl
trim_end-is_nil (c ∷ cs) = elim (Bool-cases (is_whitespace c)) [
  | inl e ↦ rw (trim_end-space c cs e, split-space c cs e) (ground (arith, trim_end-is_nil cs))
  | inr e ↦ rw (trim_end-other c cs e, split-other c cs e) refl
]

collapse-space :
    (was_space : Bool) (c : ℕ) (cs : Text)
    → is_whitespace c ≡ true
    → collapse was_space (c ∷ cs)
      ≡ (if was_space then collapse true cs else b' ' ∷ collapse true cs)
unfolding collapse
collapse-space was_space c cs e = rw e refl

collapse-other :
    (was_space : Bool) (c : ℕ) (cs : Text)
    → is_whitespace c ≡ false
    → collapse was_space (c ∷ cs) ≡ c ∷ collapse false cs
unfolding collapse
collapse-other was_space c cs e = rw e refl

collapse-trimmed :
    (was_space : Bool) (c : ℕ) (t : Text)
    → is_whitespace c ≡ true
    → collapse was_space (if is_nil t then [] else c ∷ t)
      ≡ (if is_nil t then [] else if was_space then collapse true t else b' ' ∷ collapse true t)
unfolding collapse
collapse-trimmed was_space c [] e = refl
collapse-trimmed was_space c (d ∷ t) e = collapse-space was_space c (d ∷ t) e

unwords-empty : (ws : List Text) → (if is_nil ws then [] else unwords ws) ≡ unwords ws
unwords-empty [] = refl
unwords-empty (w ∷ ws) = refl

spaced-unwords : (ws : List Text) → (if is_nil ws then [] else b' ' ∷ unwords ws) ≡ spaced ws
spaced-unwords [] = refl
spaced-unwords (w ∷ ws) = refl

-- What is left of a trimmed text, after a space and after another character.
collapse-trim_end :
    (t : Text)
    → (collapse true (trim_end t) ≡ unwords (words t))
      × (collapse false (trim_end t) ≡ (split t).0 ++ spaced (split t).1)
unfolding trim_end collapse split words add_word
collapse-trim_end [] = (refl, refl)
collapse-trim_end (c ∷ cs) =
    let ih = collapse-trim_end cs in
    elim (Bool-cases (is_whitespace c)) [
      | inl e ↦ (
        ap (collapse true) (trim_end-space c cs e)
            ∙ collapse-trimmed true c (trim_end cs) e
            ∙ ap (λ b. if b then [] else collapse true (trim_end cs)) (trim_end-is_nil cs)
            ∙ ap (λ x. if is_nil (words cs) then [] else x) ih.0
            ∙ unwords-empty (words cs)
            ∙ ap unwords (sym (words-space c cs e)),
        ap (collapse false) (trim_end-space c cs e)
            ∙ collapse-trimmed false c (trim_end cs) e
            ∙ ap (λ b. if b then [] else b' ' ∷ collapse true (trim_end cs)) (trim_end-is_nil cs)
            ∙ ap (λ x. if is_nil (words cs) then [] else b' ' ∷ x) ih.0
            ∙ spaced-unwords (words cs)
            ∙ ap (λ p. p.0 ++ spaced p.1) (sym (split-space c cs e)),
      )
      | inr e ↦ (
        ap (collapse true) (trim_end-other c cs e)
            ∙ collapse-other true c (trim_end cs) e
            ∙ ap (◌∷◌ c) ih.1
            ∙ ap unwords (sym (words-other c cs e)),
        ap (collapse false) (trim_end-other c cs e)
            ∙ collapse-other false c (trim_end cs) e
            ∙ ap (◌∷◌ c) ih.1
            ∙ ap (λ p. p.0 ++ spaced p.1) (sym (split-other c cs e)),
      )
    ]

words-trim_start : (t : Text) → words (trim_start t) ≡ words t
unfolding trim_start
words-trim_start [] = refl
words-trim_start (c ∷ cs) = elim (Bool-cases (is_whitespace c)) [
  | inl e ↦ rw (e, trim_start) (words-trim_start cs ∙ sym (words-space c cs e))
  | inr e ↦ rw (e, trim_start) refl
]

-- A trimmed text does not begin with white space.
abbrev Starts : Text → Type 0
Starts [] = Unit
Starts (c ∷ cs) = is_whitespace c ≡ false

trim_start-Starts : (t : Text) → Starts (trim_start t)
unfolding trim_start
trim_start-Starts [] = tt
trim_start-Starts (c ∷ cs) = elim (Bool-cases (is_whitespace c)) [
  | inl e ↦ rw (e, trim_start) (trim_start-Starts cs)
  | inr e ↦ rw (e, trim_start) e
]

collapse-start : (t : Text) → Starts t → collapse false (trim_end t) ≡ collapse true (trim_end t)
unfolding trim_end collapse
collapse-start [] h = refl
collapse-start (c ∷ cs) h =
    rw (trim_end-other c cs h)
      (collapse-other false c (trim_end cs) h ∙ sym (collapse-other true c (trim_end cs) h))

-- The normal form of a query is its words, split at white space, with one space between any two.
pub normalize_query_lem : (query : Text) → normalize_query query ≡ unwords (words query)
unfolding normalize_query trim
normalize_query_lem query =
    fold_spaces-eq [] false (trim query)
    ∙ collapse-start (trim_start query) (trim_start-Starts query)
    ∙ (collapse-trim_end (trim_start query)).0
    ∙ ap unwords (words-trim_start query)

-- Normalising a normal form changes nothing, so a query and its normal form have one entry in the cache.
normalize_query_idempotent :
    (query : Text) → normalize_query (normalize_query query) ≡ normalize_query query
unfolding words
normalize_query_idempotent query =
    ap normalize_query (normalize_query_lem query)
    ∙ normalize_query_lem (unwords (words query))
    ∙ ap unwords (
        words-unwords (words query)
          (let s = split-AllWords query in add_word-AllWords (split query) s.0 s.1))
    ∙ sym (normalize_query_lem query)
