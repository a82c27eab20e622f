-- ===== src/Sql/Words.antt =====
-- The words of a text, and the text that they make with one space between any two.
use rapsqlite.Prelude.{
  ℕ, ◌≡◌, refl, ap, ◌∙◌, Bool, true, false, Bool-cases, inl, inr, List, [], ◌∷◌, ◌++◌, Text,
  if◌then◌else◌,
}
use mathlib.Core.List.{append-nil}
use rapsqlite.Chars.{is_whitespace}

-- `str::split_whitespace`: the word that the text begins in, and the words after it.
unfoldable pub add_word : Text × List Text → List Text
add_word ([], ws) = ws
add_word (c ∷ w, ws) = (c ∷ w) ∷ ws

unfoldable pub split : Text → Text × List Text
unfolding add_word
split [] = ([], [])
split (c ∷ cs) =
    let rest = split cs in if is_whitespace c then ([], add_word rest) else (c ∷ rest.0, rest.1)

unfoldable pub words : Text → List Text
words t = add_word (split t)

-- Each word after a space; and the words with a space between any two.
abbrev pub spaced : List Text → Text
spaced [] = []
spaced (w ∷ ws) = b' ' ∷ w ++ spaced ws

abbrev pub unwords : List Text → Text
unwords [] = []
unwords (w ∷ ws) = w ++ spaced ws

abbrev pub is_nil {ℓ} : {A : Type ℓ} → List A → Bool
is_nil [] = true
is_nil (x ∷ xs) = false

pub split-space : (c : ℕ) (cs : Text) → is_whitespace c ≡ true → split (c ∷ cs) ≡ ([], words cs)
unfolding split words
split-space c cs e = rw e refl

pub split-other :
    (c : ℕ) (cs : Text)
    → is_whitespace c ≡ false
    → split (c ∷ cs) ≡ (c ∷ (split cs).0, (split cs).1)
unfolding split
split-other c cs e = rw e refl

pub words-space : (c : ℕ) (cs : Text) → is_whitespace c ≡ true → words (c ∷ cs) ≡ words cs
unfolding words add_word
words-space c cs e = ap add_word (split-space c cs e)

pub words-other :
    (c : ℕ) (cs : Text)
    → is_whitespace c ≡ false
    → words (c ∷ cs) ≡ (c ∷ (split cs).0) ∷ (split cs).1
unfolding words add_word
words-other c cs e = ap add_word (split-other c cs e)

-- A word: some characters, none of them white space.
abbrev NoSpace : Text → Type 0
NoSpace [] = Unit
NoSpace (c ∷ cs) = (is_whitespace c ≡ false) × NoSpace cs

abbrev AllWords : List Text → Type 0
AllWords [] = Unit
AllWords (w ∷ ws) = (NoSpace w × (is_nil w ≡ false)) × AllWords ws

pub add_word-AllWords : (p : Text × List Text) → NoSpace p.0 → AllWords p.1 → AllWords (add_word p)
unfolding add_word
add_word-AllWords ([], ws) n a = a
add_word-AllWords (c ∷ w, ws) n a = ((n, refl), a)

pub split-AllWords : (t : Text) → NoSpace (split t).0 × AllWords (split t).1
unfolding split words
split-AllWords [] = (tt, tt)
split-AllWords (c ∷ cs) =
    let ih = split-AllWords cs in
    elim (Bool-cases (is_whitespace c)) [
      | inl e ↦ rw (split-space c cs e) (tt, add_word-AllWords (split cs) ih.0 ih.1)
      | inr e ↦ rw (split-other c cs e) ((e, ih.0), ih.1)
    ]

split-append : (w t : Text) → NoSpace w → split (w ++ t) ≡ (w ++ (split t).0, (split t).1)
split-append [] t n = refl
split-append (c ∷ w) t n =
    split-other c (w ++ t) n.0 ∙ ap (λ p. (c ∷ p.0, p.1)) (split-append w t n.1)

split-word :
    (w : Text) (ws : List Text)
    → NoSpace w
    → is_nil w ≡ false
    → split (spaced ws) ≡ ([], ws)
    → words (w ++ spaced ws) ≡ w ∷ ws
unfolding words add_word
split-word (c ∷ w) ws n e s =
    ap add_word (split-append (c ∷ w) (spaced ws) n ∙ ap (λ p. ((c ∷ w) ++ p.0, p.1)) s)
    ∙ ap (λ v. (c ∷ v) ∷ ws) (append-nil w)
split-word [] ws n e s = cc

split-spaced : (ws : List Text) → AllWords ws → split (spaced ws) ≡ ([], ws)
unfolding split is_whitespace
split-spaced [] a = refl
split-spaced (w ∷ ws) a =
    split-space b' ' (w ++ spaced ws) refl
    ∙ ap (λ vs. ([], vs)) (split-word w ws a.0.0 a.0.1 (split-spaced ws a.1))

pub words-unwords : (ws : List Text) → AllWords ws → words (unwords ws) ≡ ws
unfolding words split add_word
words-unwords [] a = refl
words-unwords (w ∷ ws) a = split-word w ws a.0.0 a.0.1 (split-spaced ws a.1)
