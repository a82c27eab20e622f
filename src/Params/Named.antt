-- ===== src/Params/Named.antt =====
-- Named parameters: what the two loops compute together.
use rapsqlite.Prelude.{
  ℕ, zero, suc, ◌+◌, ◌≡◌, refl, sym, ap, ◌∙◌, true, false, Bool-cases, Option-cases, ◌⊎◌, inl, inr,
  List, [], ◌∷◌, ◌++◌, Text, length, length-append, arith,
}
use mathlib.Core.List.{reverse, reverse-cons, append_assoc, reverse-reverse}
use mathlib.Core.Path.{subst}
use rapsqlite.Outcome.{Outcome, ok, err, PyErr, ◌>>=◌}
use rapsqlite.Types.{PyObject, SqliteParam, PyApi, from_py}
use rapsqlite.Chars.{CharTables}
use rapsqlite.Params.{
  Placeholder, get_item, replace_range, opens, read_name, note_placeholder, scan, placeholders,
  replace_one, replace_loop, process_named_parameters,
}
use rapsqlite.Params.Substitute.{
  put_value, keep_char, substitute, IsAscii, IsAscii-append, IsAscii-parts, replace_range-parts,
  read_name-parts, read_name-opens, replace_loop-append,
}

scan-skip :
    (tables : CharTables) (fuel i c : ℕ) (cs : Text)
    → opens tables c cs ≡ false
    → scan tables (suc fuel) i (c ∷ cs) ≡ scan tables fuel (suc i) cs
unfolding scan
scan-skip tables fuel i c cs e = rw (e, scan) refl

scan-opens :
    (tables : CharTables) (fuel i c : ℕ) (cs : Text)
    → opens tables c cs ≡ true
    → scan tables (suc fuel) i (c ∷ cs)
      ≡ note_placeholder tables i
          (read_name tables cs).0
          (scan tables fuel (i + suc (length (read_name tables cs).0)) (read_name tables cs).1)
unfolding scan
scan-opens tables fuel i c cs e = rw (e, scan) refl

Outcome-cases {ℓ} :
    {A : Type ℓ} (r : Outcome A) → ((a : A) × (r ≡ ok a)) ⊎ ((e : PyErr) × (r ≡ err e))
Outcome-cases (ok a) = inl (a, refl)
Outcome-cases (err e) = inr (e, refl)

module _ (py : PyApi) (tables : CharTables) (dict : List (Text × PyObject)) where
  substitute-skip :
      (fuel c : ℕ) (cs : Text)
      → opens tables c cs ≡ false
      → substitute py tables dict (suc fuel) (c ∷ cs)
        ≡ (substitute py tables dict fuel cs >>= keep_char py tables dict c)
  unfolding substitute
  substitute-skip fuel c cs e = rw (e, substitute) refl

  substitute-opens :
      (fuel c : ℕ) (cs : Text)
      → opens tables c cs ≡ true
      → substitute py tables dict (suc fuel) (c ∷ cs) ≡ (
          substitute py tables dict fuel (read_name tables cs).1
          >>= put_value py tables dict (read_name tables cs).0)
  unfolding substitute
  substitute-opens fuel c cs e = rw (e, substitute) refl

  -- In front of the part that is done stands `pre`; the values are in reverse.
  finish : Text → Text × List SqliteParam → Outcome (Text × List SqliteParam)
  finish pre (query, values) = ok (pre ++ query, reverse values)

  finish-keep_char :
      (pre : Text) (c : ℕ) (x : Outcome (Text × List SqliteParam))
      → (x >>= finish (pre ++ c ∷ [])) ≡ ((x >>= keep_char py tables dict c) >>= finish pre)
  unfolding finish
  finish-keep_char pre c (ok (q, vs)) = ap (λ t. ok (t, reverse vs)) (append_assoc pre (c ∷ []) q)
  finish-keep_char pre c (err e) = refl

  replace_one-eq :
      (p : Placeholder) (pre q query : Text) (vs : List SqliteParam)
      → replace_range p.start p.stop query ≡ ok (pre ++ b'?' ∷ q)
      → replace_one py dict p (query, reverse vs)
        ≡ (put_value py tables dict p.name (q, vs) >>= finish pre)
  unfolding replace_one put_value finish
  replace_one-eq p pre q query vs e = elim (Option-cases (get_item p.name dict)) [
    | inl g ↦ rw (g, replace_one, put_value) refl
    | inr (v, g) ↦ elim (Outcome-cases (from_py py v)) [
      | inl (value, f) ↦
          rw (g, f, e, replace_one, put_value)
            (ap (λ l. ok (pre ++ b'?' ∷ q, l)) (sym (reverse-cons value vs)))
      | inr (x, f) ↦ rw (g, f, replace_one, put_value) refl
    ]
  ]

  -- The loop from the last placeholder on.
  abbrev replacing : List Placeholder → Text → Outcome (Text × List SqliteParam)
  replacing ps query = replace_loop py dict (reverse ps) (query, [])

  -- The loop over the placeholders of `rest`, which begins at character `i`.
  abbrev loop : ℕ → ℕ → Text → Text → Outcome (Text × List SqliteParam)
  loop fuel i query rest = replacing (scan tables fuel i rest) query

  replace_one-named :
      (c d : ℕ) (ds pre rest : Text) (ps : List Placeholder) (x : Outcome (Text × List SqliteParam))
      → IsAscii pre
      → IsAscii (c ∷ d ∷ ds)
      → replacing ps (pre ++ ((c ∷ d ∷ ds) ++ rest)) ≡ (x >>= finish (pre ++ c ∷ d ∷ ds))
      → replacing (note_placeholder tables (length pre) (d ∷ ds) ps) (pre ++ ((c ∷ d ∷ ds) ++ rest))
        ≡ ((x >>= put_value py tables dict (d ∷ ds)) >>= finish pre)
  unfolding finish
  replace_one-named c d ds pre rest ps (err e) ha hn ih =
      let p : Placeholder = record {
        start = length pre;
        stop = length pre + length (c ∷ d ∷ ds);
        name = d ∷ ds;
      } in
      ap (λ l. replace_loop py dict l (pre ++ ((c ∷ d ∷ ds) ++ rest), [])) (reverse-cons p ps)
      ∙ replace_loop-append py dict (reverse ps) p (pre ++ ((c ∷ d ∷ ds) ++ rest), [])
      ∙ ap (λ r. r >>= replace_one py dict p) ih
  replace_one-named c d ds pre rest ps (ok (q, vs)) ha hn ih =
      let p : Placeholder = record {
        start = length pre;
        stop = length pre + length (c ∷ d ∷ ds);
        name = d ∷ ds;
      } in
      ap (λ l. replace_loop py dict l (pre ++ ((c ∷ d ∷ ds) ++ rest), [])) (reverse-cons p ps)
      ∙ replace_loop-append py dict (reverse ps) p (pre ++ ((c ∷ d ∷ ds) ++ rest), [])
      ∙ ap (λ r. r >>= replace_one py dict p) ih
      ∙ replace_one-eq p pre q ((pre ++ c ∷ d ∷ ds) ++ q) vs (
          ap (replace_range p.start p.stop) (append_assoc pre (c ∷ d ∷ ds) q)
          ∙ replace_range-parts pre (c ∷ d ∷ ds) q ha hn)

  name-IsAscii :
      (cs name : Text)
      → (read_name tables cs).0 ≡ name
      → IsAscii cs
      → IsAscii name × IsAscii (read_name tables cs).1
  name-IsAscii cs name e h = IsAscii-parts name (read_name tables cs).1 (
      subst (λ t. IsAscii t) (read_name-parts tables cs ∙ ap (λ n. n ++ (read_name tables cs).1) e)
        h)

  skipped :
      (fuel : ℕ) (pre : Text) (c : ℕ) (cs : Text) {x : Outcome (Text × List SqliteParam)}
      → replace_loop py dict
          (reverse (scan tables fuel (length (pre ++ c ∷ [])) cs))
          ((pre ++ c ∷ []) ++ cs, [])
        ≡ x
      → replace_loop py dict (reverse (scan tables fuel (suc (length pre)) cs)) (pre ++ c ∷ cs, [])
        ≡ x
  skipped fuel pre c cs ih =
      let longer : suc (length pre) ≡ length (pre ++ c ∷ []) =
        omega (arith, length-append pre (c ∷ [])) in
      ap (λ n. replace_loop py dict (reverse (scan tables fuel n cs)) (pre ++ c ∷ cs, [])) longer
      ∙ ap
          (λ t.
            replace_loop py dict (reverse (scan tables fuel (length (pre ++ c ∷ [])) cs)) (t, []))
          (sym (append_assoc pre (c ∷ []) cs))
      ∙ ih

  opened :
      (fuel : ℕ) (pre : Text) (c d : ℕ) (ds cs : Text)
      → opens tables c cs ≡ true
      → (read_name tables cs).0 ≡ d ∷ ds
      → IsAscii pre
      → IsAscii (c ∷ d ∷ ds)
      → replace_loop py dict
          (reverse (scan tables fuel (length (pre ++ c ∷ d ∷ ds)) (read_name tables cs).1))
          ((pre ++ c ∷ d ∷ ds) ++ (read_name tables cs).1, [])
        ≡ (substitute py tables dict fuel (read_name tables cs).1 >>= finish (pre ++ c ∷ d ∷ ds))
      → replace_loop py dict
          (reverse (scan tables (suc fuel) (length pre) (c ∷ cs)))
          (pre ++ c ∷ cs, [])
        ≡ (substitute py tables dict (suc fuel) (c ∷ cs) >>= finish pre)
  opened fuel pre c d ds cs e named ha hn ih =
      let rest : Text = (read_name tables cs).1 in
      let ps : List Placeholder = scan tables fuel (length pre + length (c ∷ d ∷ ds)) rest in
      let text : cs ≡ (d ∷ ds) ++ rest = read_name-parts tables cs ∙ ap (λ n. n ++ rest) named in
      let found : scan tables (suc fuel) (length pre) (c ∷ cs)
          ≡ note_placeholder tables (length pre) (d ∷ ds) ps =
        scan-opens tables fuel (length pre) c cs e
        ∙ ap
            (λ n.
              note_placeholder tables (length pre) n
                (scan tables fuel (length pre + suc (length n)) rest))
            named in
      let longer : length pre + length (c ∷ d ∷ ds) ≡ length (pre ++ c ∷ d ∷ ds) =
        sym (length-append pre (c ∷ d ∷ ds)) in
      let grouped : pre ++ ((c ∷ d ∷ ds) ++ rest) ≡ (pre ++ c ∷ d ∷ ds) ++ rest =
        sym (append_assoc pre (c ∷ d ∷ ds) rest) in
      let counted : loop fuel (length pre + length (c ∷ d ∷ ds)) (pre ++ ((c ∷ d ∷ ds) ++ rest))
            rest
          ≡ loop fuel (length (pre ++ c ∷ d ∷ ds)) (pre ++ ((c ∷ d ∷ ds) ++ rest)) rest =
        ap (λ (n : ℕ). loop fuel n (pre ++ ((c ∷ d ∷ ds) ++ rest)) rest) longer in
      let shown : loop fuel (length (pre ++ c ∷ d ∷ ds)) (pre ++ ((c ∷ d ∷ ds) ++ rest)) rest
          ≡ loop fuel (length (pre ++ c ∷ d ∷ ds)) ((pre ++ c ∷ d ∷ ds) ++ rest) rest =
        ap (λ (t : Text). loop fuel (length (pre ++ c ∷ d ∷ ds)) t rest) grouped in
      let before : loop fuel (length pre + length (c ∷ d ∷ ds)) (pre ++ ((c ∷ d ∷ ds) ++ rest)) rest
          ≡ (substitute py tables dict fuel rest >>= finish (pre ++ c ∷ d ∷ ds)) =
        counted ∙ shown ∙ ih in
      ap (λ l. replace_loop py dict (reverse l) (pre ++ c ∷ cs, [])) found
      ∙ ap
          (λ t.
            replace_loop py dict (reverse (note_placeholder tables (length pre) (d ∷ ds) ps))
              (pre ++ c ∷ t, []))
          text
      ∙ replace_one-named c d ds pre rest ps (substitute py tables dict fuel rest) ha hn before
      ∙ ap
          (λ n. (substitute py tables dict fuel rest >>= put_value py tables dict n) >>= finish pre)
          (sym named)
      ∙ ap (λ x. x >>= finish pre) (sym (substitute-opens fuel c cs e))

  -- From `pre` on: the loop over the placeholders of the rest does what the one pass does.
  replace_loop-scan :
      (fuel : ℕ) (pre cs : Text)
      → IsAscii pre
      → IsAscii cs
      → replace_loop py dict (reverse (scan tables fuel (length pre) cs)) (pre ++ cs, [])
        ≡ (substitute py tables dict fuel cs >>= finish pre)
  unfolding scan substitute replace_loop finish
  replace_loop-scan zero pre cs ha hc = refl
  replace_loop-scan (suc fuel) pre [] ha hc = refl
  replace_loop-scan (suc fuel) pre (c ∷ cs) ha hc = elim (Bool-cases (opens tables c cs)) [
    | inr e ↦
        ap (λ l. replace_loop py dict (reverse l) (pre ++ c ∷ cs, []))
          (scan-skip tables fuel (length pre) c cs e)
        ∙ skipped fuel pre c cs (
            replace_loop-scan fuel (pre ++ c ∷ []) cs (IsAscii-append pre (c ∷ []) ha (hc.0, tt))
              hc.1)
        ∙ finish-keep_char pre c (substitute py tables dict fuel cs)
        ∙ ap (λ x. x >>= finish pre) (sym (substitute-skip fuel c cs e))
    | inl e ↦
        let (d, ds, named) = read_name-opens tables c cs e in
        let parts : IsAscii (d ∷ ds) × IsAscii (read_name tables cs).1 =
          name-IsAscii cs (d ∷ ds) named hc.1 in
        opened fuel pre c d ds cs e named ha (hc.0, parts.0)
          (replace_loop-scan fuel (pre ++ c ∷ d ∷ ds) (read_name tables cs).1
            (IsAscii-append pre (c ∷ d ∷ ds) ha (hc.0, parts.0)) parts.1)
  ]

  turn_back :
      (x : Outcome (Text × List SqliteParam))
      → ((x >>= finish []) >>= λ r. ok (r.0, reverse r.1)) ≡ x
  unfolding finish
  turn_back (ok (q, vs)) = ap (λ (l : List SqliteParam). ok (q, l)) (reverse-reverse vs)
  turn_back (err e) = refl

  -- On an ASCII query, collecting the placeholders, replacing them from the last to the first and turning the
  -- values round is one pass from left to right: each placeholder becomes a question mark, the values
  -- stand in the order of the question marks, and all other characters stay. On failure the error is
  -- that of the last placeholder that fails.
  pub process_named_parameters_lem :
      (query : Text)
      → IsAscii query
      → process_named_parameters py tables query dict
        ≡ substitute py tables dict (length query) query
  unfolding process_named_parameters placeholders
  process_named_parameters_lem query ascii =
      ap (λ (x : Outcome (Text × List SqliteParam)). x >>= λ r. ok (r.0, reverse r.1))
        (replace_loop-scan (length query) [] query tt ascii)
      ∙ turn_back (substitute py tables dict (length query) query)
