-- ===== src/Cursor/Keeping.antt =====
-- What the methods of a cursor keep of its connection.
use mathlib.Core.Path.{subst}
use rapsqlite.Prelude.{
  ℕ, ◌≡◌, sym, arith, inl, inr, Option-cases, Bool-cases, length, Bool, Option, List, [], ◌∷◌, Text,
}
use rapsqlite.Types.{PyObject, SqliteParam}
use rapsqlite.Chars.{CharTables}
use rapsqlite.Conversion.{PyRow}
use rapsqlite.Sql.{is_select_query}
use rapsqlite.State.{Connection, Env, M, modify}
use rapsqlite.Keeps.{Keeps, Keeps-bind, Keeps-gets, Keeps-lift, Keeps-pure, Keeps-modify}
use rapsqlite.Fetch.Keeping.{
  QueryKeeps, bind_and_execute-Keeps, bind_and_fetch-Keeps, on_route-Keeps, with_connection-Keeps,
  execute_many-Keeps,
}
use rapsqlite.Query.{fetches_all, bind_and_fetch_all}
use rapsqlite.Fetch.{convert_rows}
use rapsqlite.Execute.Keeping.{execute-Keeps}
use rapsqlite.Cursor.{
  Session, shared, require_query, set_results, set_index, run_query, fill, ensure_filled, fill_all,
  next_row, take_slice, page_end, next_page, remaining, anext, reset, fetchone, fetchmany,
  fetchall_body, fetchall, cursor_execute, run_statements, executescript, cursor_executemany,
}

-- A property of the connection that a cursor uses.
abbrev pub OnConn : (Connection → Type 0) → Session → Type 0
OnConn P s = P s.conn

-- Code of the cursor alone.
pub record LeavesConn {A : Type 0} (m : M Session A) : Type 0 where
  pub at : (s : Session) → (m s).1.conn ≡ s.conn

leaves-Keeps :
    (P : Connection → Type 0) {A : Type 0} (m : M Session A) → LeavesConn m → Keeps (OnConn P) m
leaves-Keeps P m l = record { at = λ s p. subst P (sym (l.at s)) p }

shared-Keeps :
    (P : Connection → Type 0) {A : Type 0} (m : M Connection A)
    → Keeps P m
    → Keeps (OnConn P) (shared m)
unfolding shared
shared-Keeps P m k = record { at = λ s p. k.at s.conn p }

require_query-leaves : LeavesConn require_query
unfolding require_query
require_query-leaves = record { at = λ s. ground arith }

next_row-leaves : LeavesConn next_row
unfolding next_row set_index
next_row-leaves = record { at = λ s. ground arith }

take_slice-leaves : (stop : ℕ) (rows : List PyRow) → LeavesConn (take_slice stop rows)
unfolding take_slice set_index
take_slice-leaves stop rows = record { at = λ s. ground arith }

next_page-leaves : (size : Option ℕ) → LeavesConn (next_page size)
unfolding next_page
next_page-leaves size = record {
  at = λ s. elim (Option-cases s.cur.results) [
    | inl e ↦ ground arith
    | inr (rows, e) ↦
        ground (arith, (take_slice-leaves (page_end s.cur.current_index size rows) rows).at s)
  ];
}

remaining-leaves : LeavesConn remaining
unfolding remaining
remaining-leaves = record {
  at = λ s. elim (Option-cases s.cur.results) [
    | inl e ↦ ground arith
    | inr (rows, e) ↦ ground (arith, (take_slice-leaves (length rows) rows).at s)
  ];
}

anext-leaves : LeavesConn anext
unfolding anext set_index
anext-leaves = record { at = λ s. ground arith }

pub anext-Keeps : (P : Connection → Type 0) → Keeps (OnConn P) anext
anext-Keeps P = leaves-Keeps P _ anext-leaves

module _ {P : Connection → Type 0} (env : Env) (k : QueryKeeps P env) where
  run_query-Keeps : (q : Text × List SqliteParam) → Keeps P (run_query env q)
  unfolding run_query bind_and_fetch_all convert_rows
  run_query-Keeps q = Keeps-bind _ _ (Keeps-gets _) λ in_transaction.
      Keeps-bind _ _
        (with_connection-Keeps env k in_transaction _
          λ t. bind_and_fetch-Keeps env k fetches_all env.fetch_all t q.0 q.1)
        λ rows. record { at = λ c p. p }

  filled-Keeps : (rows : List PyRow) → Keeps (OnConn P) (modify (set_results rows))
  unfolding set_results
  filled-Keeps rows = Keeps-modify _ λ s p. p

  module _ (tables : CharTables) where
    fill-Keeps : Keeps (OnConn P) (fill env tables)
    unfolding fill set_index
    fill-Keeps = Keeps-bind _ _ (Keeps-gets _) λ cur. Keeps-bind _ _ (Keeps-lift _) λ q.
        Keeps-bind _ _ (shared-Keeps P _ (run_query-Keeps q))
          λ rows. Keeps-bind _ _ (filled-Keeps rows) λ _. Keeps-modify _ λ s p. p

    fill_all-Keeps : Keeps (OnConn P) (fill_all env tables)
    unfolding fill_all
    fill_all-Keeps = Keeps-bind _ _ (Keeps-gets _) λ cur.
        Keeps-bind _ _ (Keeps-lift _)
          λ q. Keeps-bind _ _ (shared-Keeps P _ (run_query-Keeps q)) filled-Keeps

    ensure_filled-Keeps : Keeps (OnConn P) (ensure_filled env tables)
    unfolding ensure_filled
    ensure_filled-Keeps = record {
      at = λ s p. elim (Option-cases s.cur.results) [
        | inl e ↦ rw (e, ensure_filled) (fill-Keeps.at s p)
        | inr (rows, e) ↦ rw (e, ensure_filled) p
      ];
    }

    pub fetchone-Keeps : Keeps (OnConn P) (fetchone env tables)
    unfolding fetchone
    fetchone-Keeps =
        Keeps-bind _ _ (leaves-Keeps P _ require_query-leaves)
          λ _. Keeps-bind _ _ ensure_filled-Keeps λ _. leaves-Keeps P _ next_row-leaves

    pub fetchmany-Keeps : (size : Option ℕ) → Keeps (OnConn P) (fetchmany env tables size)
    unfolding fetchmany
    fetchmany-Keeps size =
        Keeps-bind _ _ (leaves-Keeps P _ require_query-leaves)
          λ _. Keeps-bind _ _ ensure_filled-Keeps λ _. leaves-Keeps P _ (next_page-leaves size)

    fetchall_body-Keeps : Keeps (OnConn P) (fetchall_body env tables)
    unfolding fetchall_body set_results
    fetchall_body-Keeps = record {
      at = λ s p. elim (Option-cases s.cur.results) [
        | inr (rows, e) ↦ rw (e, fetchall_body) ((leaves-Keeps P _ remaining-leaves).at s p)
        | inl e ↦ elim (Bool-cases (is_select_query tables s.cur.query)) [
          | inr other ↦ rw (e, fetchall_body, other) p
          | inl asks ↦
              rw (e, fetchall_body, asks)
                ((Keeps-bind _ _ fill_all-Keeps λ _. leaves-Keeps P _ remaining-leaves).at s p)
        ]
      ];
    }

    pub fetchall-Keeps : Keeps (OnConn P) (fetchall env tables)
    unfolding fetchall
    fetchall-Keeps = Keeps-bind _ _ (leaves-Keeps P _ require_query-leaves) λ _. fetchall_body-Keeps

    pub cursor_execute-Keeps :
        (query : Text) (parameters : Option PyObject)
        → Keeps (OnConn P) (cursor_execute env tables query parameters)
    unfolding cursor_execute reset
    cursor_execute-Keeps query parameters =
        Keeps-bind _ _ (Keeps-modify _ λ s p. p)
          λ _. shared-Keeps P _ (execute-Keeps env k tables query parameters)

    run_statements-Keeps :
        (in_transaction callbacks : Bool) (ss : List Text)
        → Keeps P (run_statements env tables in_transaction callbacks ss)
    unfolding run_statements
    run_statements-Keeps in_transaction callbacks [] = Keeps-pure tt
    run_statements-Keeps in_transaction callbacks (s ∷ ss) =
        Keeps-bind _ _
          (on_route-Keeps env k in_transaction callbacks _ λ t. bind_and_execute-Keeps env k t s [])
          λ _. run_statements-Keeps in_transaction callbacks ss

    pub executescript-Keeps : (script : Text) → Keeps (OnConn P) (executescript env tables script)
    unfolding executescript
    executescript-Keeps script = Keeps-bind _ _ (Keeps-gets _) λ in_transaction.
        Keeps-bind _ _ (Keeps-gets _)
          λ callbacks. shared-Keeps P _ (run_statements-Keeps in_transaction callbacks _)

    pub cursor_executemany-Keeps :
        (query : Text) (parameters : List (List PyObject))
        → Keeps (OnConn P) (cursor_executemany env tables query parameters)
    unfolding cursor_executemany
    cursor_executemany-Keeps query parameters =
        Keeps-bind _ _ (Keeps-modify _ λ s p. p)
          λ _. shared-Keeps P _ (execute_many-Keeps env k query parameters)
