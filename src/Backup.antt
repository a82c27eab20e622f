-- ===== src/Backup.antt =====
-- src/connection.rs: `backup`. The calls of the backup interface are those of the source's connection.
-- The progress callback, whose result is ignored, and the pauses change nothing here; a negative pause,
-- at which the code panics, is left out.
pub mod Restoring
pub mod Returns
pub mod Loop
pub mod Keeping
use rapsqlite.Prelude.{
  ℕ, zero, suc, Bool, true, false, ◌||◌, Option, none, some, Text, ◌==◌, if◌then◌else◌,
}
use rapsqlite.Prelude.Int.{ℤ, pos, negsuc}
use rapsqlite.Outcome.{Outcome, ok, err, PyErr, CCall}
use rapsqlite.Types.{is_active}
use rapsqlite.State.{Connection, Env, M, ◌>>=◌, ◌>>◌, pure, throw, do_acquire, do_drop}
use rapsqlite.Pool.{has_callbacks, get_or_create_pool, ensure_callback_connection}
use rapsqlite.Transaction.{set_transaction, set_callback}
use rapsqlite.Callbacks.{do_lock, do_c_call, check_code, c_string, is_ok}

-- A connection held for the backup, by where it came from.
pub data Held : Type 0 where
  of_transaction of_callback of_pool : ℕ → Held

-- One of the two ends, with what is held of it.
pub record Side : Type 0 where
  pub conn : Connection
  pub held : Option Held

abbrev pub start_side : Connection → Side
start_side c = record { conn = c; held = none }

-- The slots, and a pooled connection: taken for the backup.
unfoldable pub take_transaction : PyErr → Connection → Outcome ℕ × Side
take_transaction missing c = elim c.transaction_connection [
  | none ↦ (err missing, start_side c)
  | some h ↦ (
    ok h,
    record { conn = record c { transaction_connection = none }; held = some (of_transaction h) },
  )
]

unfoldable pub take_ensured : PyErr → Outcome (Unit {0}) × Connection → Outcome ℕ × Side
take_ensured missing (err e, c) = (err e, start_side c)
take_ensured missing (ok _, c) = elim c.callback_connection [
  | none ↦ (err missing, start_side c)
  | some h ↦
      (ok h, record { conn = record c { callback_connection = none }; held = some (of_callback h) })
]

unfoldable pub hold : Outcome ℕ × Connection → Outcome ℕ × Side
hold (err e, c) = (err e, start_side c)
hold (ok h, c) = (ok h, record { conn = c; held = some (of_pool h) })

-- The handle of a `sqlite3.Connection`, as the Python helper gives it.
unfoldable pub foreign_handle : Outcome (Option ℕ) → Outcome ℕ
foreign_handle (err e) = err e
foreign_handle (ok none) = err PyErr.no_target_handle
foreign_handle (ok (some h)) = if h == 0 then err PyErr.no_target_handle else ok h

-- The end of the scope for a pooled connection, and the slots filled again.
unfoldable pub restore : Side → Connection
unfolding set_transaction set_callback
restore s = elim s.held [
  | none ↦ s.conn
  | some held ↦ elim held [
    | of_transaction h ↦ set_transaction (some h) s.conn
    | of_callback h ↦ set_callback h s.conn
    | of_pool h ↦ do_drop h s.conn
  ]
]

-- SQLITE_OK, SQLITE_BUSY and SQLITE_LOCKED; SQLITE_DONE.
abbrev pub goes_on : ℤ → Bool
goes_on (pos n) = n == 0 || n == 5 || n == 6
goes_on (negsuc n) = false

abbrev pub is_done : ℤ → Bool
is_done (pos n) = n == 101
is_done (negsuc n) = false

abbrev pub pages_to_copy : ℤ → ℤ
pages_to_copy (pos n) = if n == 0 then negsuc 0 else pos n
pages_to_copy (negsuc n) = negsuc n

module _ (env : Env) where
  unfoldable pub take_pooled : Outcome ℕ × Connection → Outcome ℕ × Side
  unfolding hold
  take_pooled (err e, c) = (err e, start_side c)
  take_pooled (ok p, c) = hold (do_acquire env p c)

  unfoldable pub take_route : Bool → Bool → PyErr → PyErr → Connection → Outcome ℕ × Side
  unfolding take_transaction take_ensured take_pooled
  take_route true callbacks e₁ e₂ c = take_transaction e₁ c
  take_route false true e₁ e₂ c = take_ensured e₂ (ensure_callback_connection env c)
  take_route false false e₁ e₂ c = take_pooled (get_or_create_pool env c)

  unfoldable pub take : PyErr → PyErr → Connection → Outcome ℕ × Side
  unfolding take_route
  take e₁ e₂ c = take_route (is_active c.transaction_state) (has_callbacks c) e₁ e₂ c

  -- A step that can not go on ends the backup, with its error.
  unfoldable pub after_step : ℕ → ℤ → M Connection Bool → ℤ → M Connection Bool
  after_step h pages rest code =
      if goes_on code then rest else if is_done code then pure true else (do
        _ ← do_c_call env h CCall.ends_backup
        throw (PyErr.c_call_failed (CCall.steps_backup pages) code))

  -- The loop, for so many steps; `false` is a loop that is not at its end yet.
  unfoldable pub backup_loop : ℕ → ℕ → ℤ → M Connection Bool
  unfolding after_step
  backup_loop zero h pages = pure false
  backup_loop (suc n) h pages =
      let rest = backup_loop n h pages in
      do_c_call env h (CCall.steps_backup pages) >>= after_step h pages rest

  unfoldable pub finish_backup : ℕ → Bool → M Connection Bool
  finish_backup h false = pure false
  finish_backup h true = do
    code ← do_c_call env h CCall.ends_backup
    check_code CCall.ends_backup code
    pure true

  -- A result of 0 is a null pointer.
  unfoldable pub check_started : CCall → ℤ → M Connection (Unit {0})
  check_started call code = if is_ok code then throw (PyErr.c_call_failed call code) else pure tt

  unfoldable pub check_autocommit : ℤ → M Connection (Unit {0})
  check_autocommit code = if is_ok code then throw PyErr.target_in_transaction else pure tt

  -- From the lock of the source's handle on, with the handle of the target.
  unfoldable pub copy : ℕ → Text → ℤ → ℕ → ℕ → M Connection Bool
  unfolding finish_backup check_started check_autocommit
  copy fuel name pages target h = do
    do_lock env h
    c_string name
    autocommit ← do_c_call env h (CCall.reads_autocommit target)
    check_autocommit autocommit
    started ← do_c_call env h (CCall.starts_backup target name)
    check_started (CCall.starts_backup target name) started
    done ← backup_loop fuel h (pages_to_copy pages)
    finish_backup h done

-- What `backup` answers, and the two connections after it.
pub record Backup : Type 0 where
  pub answer : Outcome Bool
  pub source : Connection
  pub target : Connection

-- The end: both are restored, unless the loop has not come to its end.
unfoldable pub end_backup : Side → Side → Outcome Bool → Backup
unfolding restore
end_backup s t (ok false) = record { answer = ok false; source = s.conn; target = t.conn }
end_backup s t (ok true) = record { answer = ok true; source = restore s; target = restore t }
end_backup s t (err e) = record { answer = err e; source = restore s; target = restore t }

abbrev pub copied : Side → Side → Outcome Bool × Connection → Backup
copied s t (r, c) = end_backup (record s { conn = c }) t r

module _ (env : Env) (fuel : ℕ) (name : Text) (pages : ℤ) where
  -- The target's handle is locked for a moment.
  unfoldable pub with_target : Side → ℕ → Side → ℕ → Outcome (Unit {0}) × Connection → Backup
  unfolding end_backup
  with_target s h t th (err e, c) = end_backup s (record t { conn = c }) (err e)
  with_target s h t th (ok _, c) =
      copied s (record t { conn = c }) (copy env fuel name pages th h s.conn)

  unfoldable pub to_taken : Side → ℕ → Outcome ℕ × Side → Backup
  unfolding with_target
  to_taken s h (err e, t) = end_backup s t (err e)
  to_taken s h (ok th, t) = with_target s h t th (do_lock env th t.conn)

  unfoldable pub to_foreign : Side → ℕ → Connection → Outcome ℕ → Backup
  to_foreign s h t (err e) = end_backup s (start_side t) (err e)
  to_foreign s h t (ok th) = copied s (start_side t) (copy env fuel name pages th h s.conn)

  -- The target: a connection of this crate, or what the helper says about another object; then the
  -- second connection stands for nothing and is left alone.
  unfoldable pub to_target : Option (Outcome (Option ℕ)) → Connection → Outcome ℕ × Side → Backup
  unfolding to_taken to_foreign foreign_handle
  to_target foreign t (err e, s) = end_backup s (start_side t) (err e)
  to_target none t (ok h, s) =
      to_taken s h
        (take env PyErr.no_target_transaction_connection PyErr.no_target_callback_connection t)
  to_target (some given) t (ok h, s) = to_foreign s h t (foreign_handle given)

  unfoldable pub backup : Option (Outcome (Option ℕ)) → Connection → Connection → Backup
  unfolding to_target take
  backup foreign c t =
      to_target foreign t (take env PyErr.no_transaction_connection PyErr.no_callback_connection c)
