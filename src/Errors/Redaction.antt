-- ===== src/Errors/Redaction.antt =====
-- When a value is taken out of a query.
use rapsqlite.Prelude.{
  ℕ, ◌+◌, ◌≡◌, refl, sym, ap, ◌∙◌, Bool, true, false, not, List, [], ◌∷◌, ◌++◌, none, some, Text,
  ◌==◌, arith,
}
use mathlib.Core.List.{append_assoc, append-nil}
use rapsqlite.Outcome.{ok}
use rapsqlite.Chars.{is_whitespace, utf8_width}
use rapsqlite.Uri.{byte_len}
use rapsqlite.Errors.Bytes.{
  find_char, find_text, has_any, byte_len-append, slice_from_lem, replace_range_lem,
  find_char-append, utf8_width-positive, find_char-none,
}
use rapsqlite.Errors.{
  LowerTable, to_lowercase, sensitive_keywords, is_end, or_else, redact_range, redact_value,
  redact_after, redact_sign, redact_at, redact_all, sanitize_query, stars,
}

abbrev pub is_plain : ℕ → Bool
is_plain c = not (is_whitespace c)

-- The text begins with a character that passes the test.
abbrev pub begins : (ℕ → Bool) → Text → Bool
begins p [] = false
begins p (c ∷ cs) = p c

-- The text ends, or goes on with what a value ends before.
abbrev pub at_end : Text → Bool
at_end [] = true
at_end (c ∷ cs) = is_end c

-- No value, or the value replaced.
abbrev pub redacted : Text → Text → Text → Text
redacted before [] rest = before ++ rest
redacted before (c ∷ cs) rest = before ++ (stars ++ rest)

end_of :
    (query before value rest : Text)
    → query ≡ before ++ (value ++ rest)
    → has_any is_end value ≡ false
    → at_end rest ≡ true
    → or_else (byte_len before) (byte_len query) (find_char is_end (value ++ rest))
      ≡ byte_len before + byte_len value
end_of query before value [] q plain ends =
    rw (append-nil value, find_char-none is_end value plain)
      (ap byte_len q
        ∙ byte_len-append before (value ++ [])
        ∙ ap (λ (v : Text). byte_len before + byte_len v) (append-nil value))
end_of query before value (c ∷ rest) q plain ends =
    ap (or_else (byte_len before) (byte_len query))
      (find_char-append is_end value c rest plain ends)

range_of :
    (query before value rest : Text)
    → query ≡ before ++ (value ++ rest)
    → redact_range (byte_len before) (byte_len before + byte_len value) query
      ≡ ok (redacted before value rest)
unfolding redact_range byte_len
range_of query before [] rest q = ground (arith, q)
range_of query before (c ∷ value) rest q = ground (
  arith,
  utf8_width-positive c,
  replace_range_lem before (c ∷ value) rest stars query (byte_len before)
      (byte_len before + byte_len (c ∷ value)) q refl refl,
)

module _ (query before value rest : Text) (q : query ≡ before ++ (value ++ rest))
    (value_plain : has_any is_end value ≡ false) (ends : at_end rest ≡ true) where
  end_lem :
      or_else (byte_len before) (byte_len query) (find_char is_end (value ++ rest))
      ≡ byte_len before + byte_len value
  end_lem = end_of query before value rest q value_plain ends

  redact_range-eq :
      redact_range (byte_len before) (byte_len before + byte_len value) query
      ≡ ok (redacted before value rest)
  redact_range-eq = range_of query before value rest q

  redact_value-eq : redact_value query (byte_len before) query ≡ ok (redacted before value rest)
  unfolding redact_value
  redact_value-eq =
      rw (slice_from_lem before (value ++ rest) query (byte_len before) q refl, end_lem)
        redact_range-eq

find_char-begins :
    (p : ℕ → Bool) (x y : Text)
    → has_any p x ≡ false
    → begins p y ≡ true
    → find_char p (x ++ y) ≡ some (byte_len x)
find_char-begins p x [] e f = absurd cc
find_char-begins p x (c ∷ y) e f = find_char-append p x c y e f

redact_after-eq :
    (query pre spaces value rest : Text)
    → query ≡ pre ++ (spaces ++ (value ++ rest))
    → has_any is_plain spaces ≡ false
    → begins is_plain (value ++ rest) ≡ true
    → has_any is_end value ≡ false
    → at_end rest ≡ true
    → redact_after query (byte_len pre) query ≡ ok (redacted (pre ++ spaces) value rest)
unfolding redact_after
redact_after-eq query pre spaces value rest q blank plain no_end ends =
    rw
      (
        slice_from_lem pre (spaces ++ (value ++ rest)) query (byte_len pre) q refl,
        find_char-begins is_plain spaces (value ++ rest) blank plain,
      )
      (ap (λ (n : ℕ). redact_value query n query) (sym (byte_len-append pre spaces))
        ∙ redact_value-eq query (pre ++ spaces) value rest
            (q ∙ sym (append_assoc pre spaces (value ++ rest))) no_end ends)

abbrev sign : Text
sign = b'=' ∷ []

sign-append : (a b t : Text) → (a ++ (b ++ sign)) ++ t ≡ a ++ (b ++ (b'=' ∷ t))
sign-append a b t = append_assoc a (b ++ sign) t ∙ ap (λ (u : Text). a ++ u) (append_assoc b sign t)

byte_len-sign : (a b : Text) → byte_len a + byte_len b + 1 ≡ byte_len (a ++ (b ++ sign))
unfolding byte_len utf8_width
byte_len-sign a b = omega (arith, byte_len-append a (b ++ sign), byte_len-append b sign)

-- A keyword, the text up to the sign after it, white space, and a value.
pub redact_at-eq :
    (a b spaces value rest : Text)
    → has_any (λ c. c == b'=') b ≡ false
    → has_any is_plain spaces ≡ false
    → begins is_plain (value ++ rest) ≡ true
    → has_any is_end value ≡ false
    → at_end rest ≡ true
    → let query = a ++ (b ++ (b'=' ∷ (spaces ++ (value ++ rest)))) in
      redact_at query (some (byte_len a)) query
      ≡ ok (redacted (a ++ (b ++ (b'=' ∷ spaces))) value rest)
unfolding redact_at redact_sign
redact_at-eq a b spaces value rest no_sign blank plain no_end ends =
    let tail = spaces ++ (value ++ rest) in
    let query = a ++ (b ++ (b'=' ∷ tail)) in
    rw
      (
        slice_from_lem a (b ++ (b'=' ∷ tail)) query (byte_len a) refl refl,
        find_char-begins (λ c. c == b'=') b (b'=' ∷ tail) no_sign refl,
      )
      (ap (λ (n : ℕ). redact_after query n query) (byte_len-sign a b)
        ∙ redact_after-eq query (a ++ (b ++ sign)) spaces value rest (sym (sign-append a b tail))
            blank plain no_end ends
        ∙ ap (λ (t : Text). ok (redacted t value rest)) (sign-append a b spaces))

-- No keyword of the list occurs.
abbrev pub AreAbsent : Text → List Text → Type 0
AreAbsent lowered [] = Unit
AreAbsent lowered (k ∷ ks) = (find_text lowered k ≡ none) × AreAbsent lowered ks

-- One keyword of the list occurs, first at this offset, and no other.
pub data OccursAlone (lowered : Text) (start : ℕ) : List Text → Type 0 where
  here :
      {k : Text} {ks : List Text}
      → find_text lowered k ≡ some start
      → AreAbsent lowered ks
      → OccursAlone lowered start (k ∷ ks)
  later :
      {k : Text} {ks : List Text}
      → find_text lowered k ≡ none
      → OccursAlone lowered start ks
      → OccursAlone lowered start (k ∷ ks)

redact_all-absent :
    (query lowered : Text) (ks : List Text) (sanitized : Text)
    → AreAbsent lowered ks
    → redact_all query lowered ks sanitized ≡ ok sanitized
unfolding redact_all redact_at
redact_all-absent query lowered [] sanitized absent = refl
redact_all-absent query lowered (k ∷ ks) sanitized absent =
    rw (absent.0) (redact_all-absent query lowered ks sanitized absent.1)

redact_all-alone :
    (query lowered : Text) (start : ℕ) (ks : List Text) (text : Text)
    → OccursAlone lowered start ks
    → redact_at query (some start) query ≡ ok text
    → redact_all query lowered ks query ≡ ok text
unfolding redact_all redact_at
redact_all-alone query lowered start [] text alone e = elim alone [ ]
redact_all-alone query lowered start (k ∷ ks) text (here found absent) e =
    rw (found, e) (redact_all-absent query lowered ks text absent)
redact_all-alone query lowered start (k ∷ ks) text (later none_here rest) e =
    rw none_here (redact_all-alone query lowered start ks text rest e)

-- If one sensitive keyword occurs in the lower-case query and no other, the value after the next `=`
-- and white space is replaced by three stars, up to a space, comma, quote, semicolon or line end, and
-- nothing else is changed. A value in quotes is empty by this rule, so that the query is left whole.
pub sanitize_query_lem :
    (lower : LowerTable) (a b spaces value rest : Text)
    → OccursAlone
        (to_lowercase lower (a ++ (b ++ (b'=' ∷ (spaces ++ (value ++ rest))))))
        (byte_len a)
        sensitive_keywords
    → has_any (λ c. c == b'=') b ≡ false
    → has_any is_plain spaces ≡ false
    → begins is_plain (value ++ rest) ≡ true
    → has_any is_end value ≡ false
    → at_end rest ≡ true
    → sanitize_query lower (a ++ (b ++ (b'=' ∷ (spaces ++ (value ++ rest)))))
      ≡ ok (redacted (a ++ (b ++ (b'=' ∷ spaces))) value rest)
unfolding sanitize_query
sanitize_query_lem lower a b spaces value rest alone no_sign blank plain no_end ends =
    redact_all-alone _ _ _ _ _ alone
      (redact_at-eq a b spaces value rest no_sign blank plain no_end ends)
