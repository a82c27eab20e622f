-- ===== src/Errors/Bytes.antt =====
-- Rust's `str` at offsets in bytes, as src/errors.rs uses it; `none` is a panic.
use rapsqlite.Prelude.{
  ℕ, ◌+◌, ◌-◌, ◌≤◌, ◌≡◌, refl, sym, ◌∙◌, Bool, true, false, ◌||◌, [], ◌∷◌, ◌++◌, Option, none, some,
  Text, ◌==◌, ltb, if◌then◌else◌, starts_with, arith,
}
use mathlib.Core.List.{append_assoc}
use rapsqlite.Chars.{utf8_width}
use rapsqlite.Uri.{byte_len}

abbrev shift : ℕ → Option ℕ → Option ℕ
shift n none = none
shift n (some i) = some (n + i)

-- `find` of a character by a test.
unfoldable pub find_char : (ℕ → Bool) → Text → Option ℕ
find_char p [] = none
find_char p (c ∷ cs) =
    let rest = find_char p cs in if p c then some 0 else shift (utf8_width c) rest

-- `find` of a text.
unfoldable pub find_text : Text → Text → Option ℕ
unfolding starts_with
find_text [] pattern = if starts_with [] pattern then some 0 else none
find_text (c ∷ cs) pattern =
    let rest = find_text cs pattern in
    if starts_with (c ∷ cs) pattern then some 0 else shift (utf8_width c) rest

-- `[n..]`.
unfoldable pub slice_from : Text → ℕ → Option Text
slice_from [] n = if n == 0 then some [] else none
slice_from (c ∷ cs) n =
    let rest = slice_from cs (n - utf8_width c) in
    if n == 0 then some (c ∷ cs) else if ltb n (utf8_width c) then none else rest

abbrev consed : ℕ → Option Text → Option Text
consed c none = none
consed c (some t) = some (c ∷ t)

-- `[..n]`.
unfoldable pub slice_to : Text → ℕ → Option Text
slice_to [] n = if n == 0 then some [] else none
slice_to (c ∷ cs) n =
    let rest = slice_to cs (n - utf8_width c) in
    if n == 0 then some [] else if ltb n (utf8_width c) then none else consed c rest

abbrev around : Text → Option Text → Option Text → Option Text
around new (some before) (some after) = some (before ++ (new ++ after))
around new _ _ = none

-- `replace_range(start..end, new)`.
unfoldable pub replace_range : Text → ℕ → ℕ → Text → Option Text
unfolding slice_to slice_from
replace_range t start end new = around new (slice_to t start) (slice_from t end)

abbrev pub has_any : (ℕ → Bool) → Text → Bool
has_any p [] = false
has_any p (c ∷ cs) = p c || has_any p cs

pub utf8_width-positive : (c : ℕ) → 1 ≤ utf8_width c
unfolding utf8_width
utf8_width-positive c = ground arith

pub byte_len-append : (x y : Text) → byte_len (x ++ y) ≡ byte_len x + byte_len y
unfolding byte_len
byte_len-append [] y = omega arith
byte_len-append (c ∷ x) y = ground (arith, byte_len-append x y)

slice_from-zero : (y : Text) → slice_from y 0 ≡ some y
unfolding slice_from
slice_from-zero [] = refl
slice_from-zero (c ∷ y) = refl

slice_from-append : (x y : Text) → slice_from (x ++ y) (byte_len x) ≡ some y
unfolding slice_from byte_len
slice_from-append [] y = slice_from-zero y
slice_from-append (c ∷ x) y = ground (arith, utf8_width-positive c, slice_from-append x y)

slice_to-zero : (y : Text) → slice_to y 0 ≡ some []
unfolding slice_to
slice_to-zero [] = refl
slice_to-zero (c ∷ y) = refl

slice_to-append : (x y : Text) → slice_to (x ++ y) (byte_len x) ≡ some x
unfolding slice_to byte_len
slice_to-append [] y = slice_to-zero y
slice_to-append (c ∷ x) y = ground (arith, utf8_width-positive c, slice_to-append x y)

-- The slice after a part of known length.
pub slice_from_lem : (x y t : Text) (n : ℕ) → t ≡ x ++ y → n ≡ byte_len x → slice_from t n ≡ some y
slice_from_lem x y t n e f = rw (e, f) (slice_from-append x y)

slice_to_lem : (x y t : Text) (n : ℕ) → t ≡ x ++ y → n ≡ byte_len x → slice_to t n ≡ some x
slice_to_lem x y t n e f = rw (e, f) (slice_to-append x y)

pub replace_range_lem :
    (x v y new t : Text) (start end : ℕ)
    → t ≡ x ++ (v ++ y)
    → start ≡ byte_len x
    → end ≡ byte_len x + byte_len v
    → replace_range t start end new ≡ some (x ++ (new ++ y))
unfolding replace_range
replace_range_lem x v y new t start end e f g =
    rw
      (
        slice_to_lem x (v ++ y) t start e f,
        slice_from_lem (x ++ v) y t end (e ∙ sym (append_assoc x v y))
            (g ∙ sym (byte_len-append x v)),
      )
      refl

pub find_char-append :
    (p : ℕ → Bool) (x : Text) (c : ℕ) (y : Text)
    → has_any p x ≡ false
    → p c ≡ true
    → find_char p (x ++ c ∷ y) ≡ some (byte_len x)
unfolding find_char byte_len
find_char-append p [] c y e f = ground arith
find_char-append p (d ∷ x) c y e f = ground (arith, find_char-append p x c y)

pub find_char-none : (p : ℕ → Bool) (x : Text) → has_any p x ≡ false → find_char p x ≡ none
unfolding find_char
find_char-none p [] e = refl
find_char-none p (d ∷ x) e = ground (arith, find_char-none p x)
