-- ===== src/Uri/RoundTrip.antt =====
-- Reading a connection string that was written from a path and parameters.
use rapsqlite.Prelude.{
  ℕ, ◌≤◌, ◌≡◌, refl, ap, ◌∙◌, false, ◌||◌, List, [], ◌∷◌, ◌++◌, some, drop, if◌then◌else◌, Text,
  codes, ltb, text_eq, starts_with, has_char, arith,
}
use mathlib.Core.List.{append-nil}
use rapsqlite.Outcome.{Outcome, ok, ◌>>=◌}
use rapsqlite.Uri.{
  byte_len, split_first, pieces, key_value, parse_pair, parse_pairs, parse_query, decode_path,
  parse_uri, parse_connection_string,
}

-- The text of a parameter, of some parameters, and of a connection string.
abbrev pub show_pair : Text × Text → Text
show_pair (key, value) = key ++ b'=' ∷ value

abbrev pub show_more : List (Text × Text) → Text
show_more [] = []
show_more (p ∷ ps) = b'&' ∷ show_pair p ++ show_more ps

abbrev pub show_uri : Text → Text × Text → List (Text × Text) → Text
show_uri path p ps = codes "file:" ++ (path ++ b'?' ∷ (show_pair p ++ show_more ps))

-- A parameter that can be written: a key, no separator in the wrong place, and no null byte.
pub record IsParam (p : Text × Text) : Type 0 where
  pub has_key : text_eq p.0 [] ≡ false
  pub key_plain : has_char p.0 b'=' ≡ false
  pub no_null : has_char p.0 0 || has_char p.1 0 ≡ false
  pub no_separator : has_char (show_pair p) b'&' ≡ false
  pub short : byte_len (show_pair p) ≤ 512

abbrev pub AllParams : List (Text × Text) → Type 0
AllParams [] = Unit
AllParams (p ∷ ps) = IsParam p × AllParams ps

split_first-append :
    (k : ℕ) (a b : Text) → has_char a k ≡ false → split_first k (a ++ k ∷ b) ≡ some (a, b)
unfolding split_first has_char
split_first-append k [] b h = ground arith
split_first-append k (c ∷ a) b h = ground (arith, split_first-append k a b)

pieces-append :
    (k : ℕ) (a b : Text)
    → has_char a k ≡ false
    → pieces k (a ++ k ∷ b) ≡ (a, (pieces k b).0 ∷ (pieces k b).1)
unfolding pieces has_char
pieces-append k [] b h = ground arith
pieces-append k (c ∷ a) b h = ground (arith, pieces-append k a b)

pieces-plain : (k : ℕ) (a : Text) → has_char a k ≡ false → pieces k a ≡ (a, [])
unfolding pieces has_char
pieces-plain k [] h = refl
pieces-plain k (c ∷ a) h = ground (arith, pieces-plain k a)

abbrev shown : List (Text × Text) → List Text
shown [] = []
shown (p ∷ ps) = show_pair p ∷ shown ps

pieces-show :
    (p : Text × Text) (ps : List (Text × Text))
    → IsParam p
    → AllParams ps
    → pieces b'&' (show_pair p ++ show_more ps) ≡ (show_pair p, shown ps)
pieces-show p [] h a =
    ap (pieces b'&') (append-nil (show_pair p)) ∙ pieces-plain b'&' (show_pair p) h.no_separator
pieces-show p (q ∷ ps) h a =
    pieces-append b'&' (show_pair p) (show_pair q ++ show_more ps) h.no_separator
    ∙ ap (λ (x : Text × List Text). (show_pair p, x.0 ∷ x.1)) (pieces-show q ps a.0 a.1)

key_value-ok :
    (key value : Text)
    → text_eq key [] ≡ false
    → has_char key 0 || has_char value 0 ≡ false
    → key_value key value ≡ ok (some (key, value))
unfolding key_value text_eq
key_value-ok [] value h n = cc
key_value-ok (c ∷ cs) value h n = rw n refl

parse_pair-show : (p : Text × Text) → IsParam p → parse_pair (show_pair p) ≡ ok (some p)
unfolding parse_pair
parse_pair-show p h =
    let few : ltb 512 (byte_len (show_pair p)) ≡ false = ground (arith, h.short) in
    rw (few, split_first-append b'=' p.0 p.1 h.key_plain) (key_value-ok p.0 p.1 h.has_key h.no_null)

parse_pairs-shown : (ps : List (Text × Text)) → AllParams ps → parse_pairs (shown ps) ≡ ok ps
unfolding parse_pairs
parse_pairs-shown [] a = refl
parse_pairs-shown (p ∷ ps) a = rw (parse_pair-show p a.0, parse_pairs-shown ps a.1) refl

parse_query-show :
    (p : Text × Text) (ps : List (Text × Text))
    → byte_len (show_pair p ++ show_more ps) ≤ 4096
    → IsParam p
    → AllParams ps
    → parse_query (show_pair p ++ show_more ps) ≡ ok (p ∷ ps)
unfolding parse_query parse_pairs
parse_query-show p ps short h a =
    let few : ltb 4096 (byte_len (show_pair p ++ show_more ps)) ≡ false = ground (arith, short) in
    rw few (
      ap (λ (x : Text × List Text). parse_pairs (x.0 ∷ x.1)) (pieces-show p ps h a)
      ∙ parse_pairs-shown (p ∷ ps) (h, a))

parse_uri-eq :
    (part path query : Text)
    → split_first b'?' part ≡ some (path, query)
    → parse_uri part ≡ (parse_query query >>= λ params. ok (decode_path path, params))
unfolding parse_uri
parse_uri-eq part path query e = rw (e, parse_uri) refl

-- A connection string that is written from a path and at least one parameter is read as that path, less
-- two of its slashes when it starts with three, and those parameters in their order. The path has no question mark,
-- each parameter can be written, and all of them take at most 4096 bytes.
pub parse_connection_string_lem :
    (path : Text) (p : Text × Text) (ps : List (Text × Text))
    → has_char path b'?' ≡ false
    → byte_len (show_pair p ++ show_more ps) ≤ 4096
    → IsParam p
    → AllParams ps
    → parse_connection_string (show_uri path p ps)
      ≡ ok (if starts_with path (codes "///") then drop 2 path else path, p ∷ ps)
unfolding parse_connection_string text_eq starts_with decode_path
parse_connection_string_lem path p ps plain short h a =
    parse_uri-eq (path ++ b'?' ∷ (show_pair p ++ show_more ps)) path (show_pair p ++ show_more ps)
      (split_first-append b'?' path (show_pair p ++ show_more ps) plain)
    ∙ ap (λ (r : Outcome (List (Text × Text))). r >>= λ params. ok (decode_path path, params))
        (parse_query-show p ps short h a)
