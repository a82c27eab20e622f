-- ===== src/Cursor/Paging.antt =====
-- The reads of a cursor hand out its rows once each and in order.
use rapsqlite.Prelude.{
  ℕ, zero, suc, ◌+◌, ◌-◌, ◌≤◌, ◌<◌, ◌^◌, ◌≡◌, refl, ap, sym, ◌∙◌, List, [], ◌∷◌, ◌++◌, Option, none,
  some, inl, inr, length, take, drop, get_elem?, min, unwrap_or, take-append-drop, Option-cases,
  arith,
}
use mathlib.Core.List.{append_assoc}
use rapsqlite.Outcome.{Outcome, ok, err}
use rapsqlite.Conversion.{PyRow}
use rapsqlite.State.{M, ◌>>=◌, pure, and_then}
use rapsqlite.Cursor.{
  Session, next_row, next_page, remaining, set_index, slice, take_slice, page_end,
}

-- The results are there, and the index does not pass their end.
abbrev pub Holds : List PyRow → ℕ → Session → Type 0
Holds rows i s = (s.cur.results ≡ some rows) × (s.cur.current_index ≡ i)

pub data Read : Type 0 where
  one : Read
  many : Option ℕ → Read
  all : Read

-- What a read asks for is far from the end of the machine's numbers.
abbrev pub IsModest : ℕ → Read → Type 0
IsModest n one = Unit
IsModest n (many size) = n + unwrap_or size 1 < 2 ^ 64
IsModest n all = Unit

abbrev row_list : Outcome (Option PyRow) × Session → Outcome (List PyRow) × Session
row_list (ok none, s) = (ok [], s)
row_list (ok (some r), s) = (ok (r ∷ []), s)
row_list (err e, s) = (err e, s)

-- A read after the results are there; `fetchone` gives one row or none.
abbrev pub read : Read → M Session (List PyRow)
read one s = row_list (next_row s)
read (many size) s = next_page size s
read all s = remaining s

-- The read gives the rows from `i` up to some `j`, and leaves the index at `j`.
pub record Advances (rows : List PyRow) (i : ℕ) (s : Session) (r : Outcome (List PyRow) × Session)
    : Type 0 where
  pub stop : ℕ
  pub page : List PyRow
  pub result : r.0 ≡ ok page
  pub holds : Holds rows stop r.1
  pub shared : r.1.conn ≡ s.conn
  pub splits : drop i rows ≡ page ++ drop stop rows
  pub inside : stop ≤ length rows

drop-get_elem? {ℓ} :
    {A : Type ℓ} (xs : List A) (i : ℕ) {x : A}
    → get_elem? xs i ≡ some x
    → (drop i xs ≡ x ∷ drop (suc i) xs) × (suc i ≤ length xs)
drop-get_elem? [] i e = cc
drop-get_elem? (y ∷ xs) zero e = (ground arith, omega arith)
drop-get_elem? (y ∷ xs) (suc i) e = let (d, l) = drop-get_elem? xs i e in (d, omega arith)

get_elem?-none {ℓ} : {A : Type ℓ} (xs : List A) (i : ℕ) → get_elem? xs i ≡ none → drop i xs ≡ []
get_elem?-none [] zero e = refl
get_elem?-none [] (suc i) e = refl
get_elem?-none (x ∷ xs) zero e = cc
get_elem?-none (x ∷ xs) (suc i) e = get_elem?-none xs i e

drop_nil {ℓ} : {A : Type ℓ} (n : ℕ) → drop {A = A} n [] ≡ []
drop_nil zero = refl
drop_nil (suc n) = refl

drop-drop {ℓ} : {A : Type ℓ} (xs : List A) (i j : ℕ) → i ≤ j → drop (j - i) (drop i xs) ≡ drop j xs
drop-drop xs zero j h = ap (λ n. drop n xs) (omega arith)
drop-drop [] (suc i) zero h = absurd (omega arith)
drop-drop [] (suc i) (suc j) h = drop_nil (suc j - suc i)
drop-drop (x ∷ xs) (suc i) zero h = absurd (omega arith)
drop-drop (x ∷ xs) (suc i) (suc j) h =
    ap (λ n. drop n (drop i xs)) (omega arith) ∙ drop-drop xs i j (omega arith)

-- The slice between two indices in order, and what is behind it.
slice-splits :
    (rows : List PyRow) (i j : ℕ) → i ≤ j → drop i rows ≡ take (j - i) (drop i rows) ++ drop j rows
slice-splits rows i j h =
    sym (take-append-drop (j - i) (drop i rows))
    ∙ ap (◌++◌ (take (j - i) (drop i rows))) (drop-drop rows i j h)

take_slice-Advances :
    (rows : List PyRow) (i j : ℕ) (s : Session)
    → Holds rows i s
    → i ≤ j
    → j ≤ length rows
    → Advances rows i s (take_slice j rows s)
unfolding take_slice slice set_index
take_slice-Advances rows i j s h le top = record {
  stop = j;
  page = take (j - i) (drop i rows);
  result = rw (h.1, take_slice) (ground arith);
  holds = ground arith;
  shared = ground arith;
  splits = slice-splits rows i j le;
  inside = top;
}

next_row-Advances :
    (rows : List PyRow) (i : ℕ) (s : Session)
    → Holds rows i s
    → i ≤ length rows
    → Advances rows i s (row_list (next_row s))
unfolding next_row set_index
next_row-Advances rows i s h le = elim (Option-cases (get_elem? rows i)) [
  | inl e ↦ record {
    stop = i;
    page = [];
    result = ground arith;
    holds = ground arith;
    shared = ground arith;
    splits = refl;
    inside = le;
  }
  | inr (row, e) ↦
      let (d, l) = drop-get_elem? rows i e in
      record {
        stop = suc i;
        page = row ∷ [];
        result = ground arith;
        holds = ground arith;
        shared = ground arith;
        splits = d;
        inside = l;
      }
]

next_page-eq :
    (rows : List PyRow) (size : Option ℕ) (s : Session)
    → s.cur.results ≡ some rows
    → next_page size s ≡ take_slice (page_end s.cur.current_index size rows) rows s
unfolding next_page
next_page-eq rows size s e = ground arith

remaining-eq :
    (rows : List PyRow) (s : Session)
    → s.cur.results ≡ some rows
    → remaining s ≡ take_slice (length rows) rows s
unfolding remaining
remaining-eq rows s e = ground arith

-- Below the machine's limit the end of a page is what it means to be.
page_end-eq :
    (rows : List PyRow) (size : Option ℕ) (i k : ℕ)
    → k ≡ i
    → i ≤ length rows
    → IsModest (length rows) (many size)
    → page_end k size rows ≡ min (i + unwrap_or size 1) (length rows)
unfolding page_end
page_end-eq rows size i k e le modest = omega arith

read-Advances :
    (rows : List PyRow) (r : Read) (i : ℕ) (s : Session)
    → Holds rows i s
    → i ≤ length rows
    → IsModest (length rows) r
    → Advances rows i s (read r s)
read-Advances rows one i s h le modest = next_row-Advances rows i s h le
read-Advances rows (many size) i s h le modest =
    rw (next_page-eq rows size s h.0, page_end-eq rows size i s.cur.current_index h.1 le modest)
      (take_slice-Advances rows i (min (i + unwrap_or size 1) (length rows)) s h (omega arith)
        (omega arith))
read-Advances rows all i s h le modest =
    rw (remaining-eq rows s h.0) (take_slice-Advances rows i (length rows) s h le (omega arith))

-- Reads one after another; the pages are joined.
unfoldable pub read_all : List Read → M Session (List PyRow)
read_all [] = pure []
read_all (r ∷ rs) = do page ← read r; more ← read_all rs; pure (page ++ more)

abbrev pub AllModest : ℕ → List Read → Type 0
AllModest n [] = Unit
AllModest n (r ∷ rs) = IsModest n r × AllModest n rs

-- Going on after a success.
and_then-ok :
    {S A B : Type 0} (x : Outcome A × S) (f : A → M S B) {a : A}
    → x.0 ≡ ok a
    → and_then x f ≡ f a x.1
unfolding and_then
and_then-ok (ok b, s) f e = ground arith
and_then-ok (err x, s) f e = cc

join-Advances :
    (rows : List PyRow) (i : ℕ) (s : Session) (x : Outcome (List PyRow) × Session)
    (k : M Session (List PyRow)) (a : Advances rows i s x)
    → Advances rows a.stop x.1 (k x.1)
    → Advances rows i s (and_then x (λ page. k >>= λ more. pure (page ++ more)))
unfolding ◌>>=◌ pure
join-Advances rows i s x k a b =
    rw (and_then-ok x (λ page. k >>= λ more. pure (page ++ more)) a.result) (
      rw (and_then-ok (k x.1) (λ more. pure (a.page ++ more)) b.result) (record {
        stop = b.stop;
        page = a.page ++ b.page;
        result = refl;
        holds = b.holds;
        shared = b.shared ∙ a.shared;
        splits =
            a.splits
            ∙ ap (◌++◌ a.page) b.splits
            ∙ sym (append_assoc a.page b.page (drop b.stop rows));
        inside = b.inside;
      }))

-- However a cursor that holds its results is read, by single rows, pages of any sizes and all that
-- remains, the pages joined are the rows from the index on up to a new index, in order: no row is lost
-- and none is given twice. No page's end may pass 2 ^ 64.
pub read_all-Advances :
    (rows : List PyRow) (rs : List Read) (i : ℕ) (s : Session)
    → Holds rows i s
    → i ≤ length rows
    → AllModest (length rows) rs
    → Advances rows i s (read_all rs s)
unfolding read_all ◌>>=◌ pure
read_all-Advances rows [] i s h le m = record {
  stop = i;
  page = [];
  result = refl;
  holds = h;
  shared = refl;
  splits = refl;
  inside = le;
}
read_all-Advances rows (r ∷ rs) i s h le m =
    let a = read-Advances rows r i s h le m.0 in
    join-Advances rows i s (read r s) (read_all rs) a
      (read_all-Advances rows rs a.stop (read r s).1 a.holds a.inside m.1)
