-- ===== src/Transaction/Balance.antt =====
-- No transaction method loses a connection or drops one twice, on the error paths either.
use rapsqlite.Prelude.{
  ℕ, Bool, [], ◌+◌, ◌≡◌, refl, ap, true, false, Bool-cases, inl, inr, none, some, Option-cases,
  arith,
}
use rapsqlite.Prelude.Counting.{occurs}
use rapsqlite.Outcome.{Outcome, ok, err, Statement}
use rapsqlite.Types.{is_active, is_exactly_active}
use rapsqlite.State.{Connection, Env, Done, ◌>>=◌, ◌>>◌, and_then, modify, drop_held, effects}
use rapsqlite.Keeps.{
  Keeps, Keeps-bind, Keeps-gets, Keeps-require, Keeps-modify, and_then-leads, and_then-holds,
  keeps_rules,
}
use rapsqlite.Pool.{has_callbacks, ensure_callback_connection}
use rapsqlite.Pool.Steady.{Steady, HookKeeps, do_execute-Keeps, execute_init_hook_if_needed-Keeps}
use rapsqlite.Pool.Balance.{
  Balanced, acquired_count, dropped_count, get_or_create_pool-Balanced,
  ensure_callback_connection-Balanced,
}
use rapsqlite.Transaction.{
  Begin, reserve, prepare, take_callback, store_pending, pend_from_callback, pend_from_pool, pend,
  open_transaction, begin_on_pending, begin_body, clean_up, end_begin, begin, start_begin, within,
  give_back, end_transaction, finish_with,
}

-- While `begin` runs, its local variable holds a connection too.
abbrev BeginBalanced : ℕ → Begin → Type 0
BeginBalanced h b =
    acquired_count h b.conn.trace
    ≡ dropped_count h b.conn.trace
      + occurs h b.conn.transaction_connection
      + occurs h b.conn.callback_connection
      + occurs h b.pending_conn

-- Nothing is pending yet.
abbrev Fresh : ℕ → Begin → Type 0
Fresh h b = Balanced h b.conn × (b.pending_conn ≡ none)

-- Balanced, but for `k` connections that are held elsewhere.
abbrev pub Offset : ℕ → ℕ → Connection → Type 0
Offset h k c =
    acquired_count h c.trace
    ≡ dropped_count h c.trace
      + occurs h c.transaction_connection
      + occurs h c.callback_connection
      + k

pub Offset-Steady : (h k : ℕ) → Steady (Offset h k)
Offset-Steady h k = record {
  connects = λ c size secs b. b;
  executes = λ c target sql params b. b;
  pools = λ c p b. b;
}

reserve-Balanced : (h : ℕ) → Keeps (Balanced h) reserve
unfolding reserve
reserve-Balanced h = record { at = λ c b. ground arith }

take_callback-Balanced : (h : ℕ) (b : Begin) → Fresh h b → BeginBalanced h (take_callback b).1
unfolding take_callback
take_callback-Balanced h b f = ground arith

store_pending-Balanced : (h : ℕ) (b : Begin) → BeginBalanced h b → BeginBalanced h (store_pending b)
unfolding store_pending
store_pending-Balanced h b f = ground arith

clean_up-Balanced : (h : ℕ) (b : Begin) → BeginBalanced h b → Balanced h (clean_up b)
unfolding clean_up
clean_up-Balanced h b f = ground arith

drop_pending-Balanced :
    (h : ℕ) (b : Begin) → BeginBalanced h b → Balanced h (drop_held b.pending_conn b.conn)
drop_pending-Balanced h b f = ground arith

end_begin-Balanced :
    (h : ℕ) (r : Outcome (Unit {0}) × Begin) → BeginBalanced h r.1 → Balanced h (end_begin r).1
unfolding end_begin
end_begin-Balanced h (ok u, b) f = drop_pending-Balanced h b f
end_begin-Balanced h (err e, b) f = clean_up-Balanced h b f

module _ (env : Env) (h : ℕ) where
  -- The statements that open a transaction move no connection.
  pub open_transaction-Keeps :
      {P : Connection → Type 0} → Steady P → (k : ℕ) → Keeps P (open_transaction env k)
  unfolding open_transaction
  open_transaction-Keeps steady k = search (keeps_rules, do_execute-Keeps env steady) depth 10

  open_within : (k : ℕ) → Keeps (BeginBalanced h) (within (open_transaction env k))
  unfolding within
  open_within k = record {
    at = λ b f. (open_transaction-Keeps (Offset-Steady h (occurs h b.pending_conn)) k).at b.conn f;
  }

  begin_on_pending-Balanced : Keeps (BeginBalanced h) (begin_on_pending env)
  unfolding begin_on_pending
  begin_on_pending-Balanced = Keeps-bind _ _ (Keeps-gets _) λ pending.
      Keeps-bind _ _ (Keeps-require pending _) λ k.
        Keeps-bind _ _ (open_within k) λ _. Keeps-modify store_pending (store_pending-Balanced h)

  pend_from_pool-Balanced :
      (p : ℕ) (b : Begin) → Fresh h b → BeginBalanced h (pend_from_pool env p b).1
  unfolding pend_from_pool within effects
  pend_from_pool-Balanced p b f = ground arith

  pend_from_callback-Balanced :
      (b : Begin) → Fresh h b → BeginBalanced h (pend_from_callback env b).1
  unfolding pend_from_callback within ◌>>=◌ modify and_then
  pend_from_callback-Balanced b f =
      and_then-leads {Q = BeginBalanced h}
        (within (ensure_callback_connection env) (record b { from_callback = true }))
        (λ _. take_callback) ((ensure_callback_connection-Balanced env h).at b.conn f.0, f.1)
        (λ b' f'. omega (arith, f'.0, ap (occurs h) f'.1)) (λ _. take_callback-Balanced h)

  pend-Balanced : (p : ℕ) (b : Begin) → Fresh h b → BeginBalanced h (pend env p b).1
  unfolding pend
  pend-Balanced p b f = elim (Bool-cases (has_callbacks b.conn)) [
    | inl set ↦ rw (set, pend) (pend_from_callback-Balanced b f)
    | inr unset ↦ rw (unset, pend) (pend_from_pool-Balanced p b f)
  ]

module _ (env : Env) (h : ℕ) (hook : HookKeeps (Balanced h) env) where
  pub prepare-Balanced : Keeps (Balanced h) (prepare env)
  unfolding prepare
  prepare-Balanced =
      search
        (
          keeps_rules,
          get_or_create_pool-Balanced env h,
          execute_init_hook_if_needed-Keeps env hook,
          reserve-Balanced h,
        )
        depth 12

  finish_body :
      (p : ℕ) (b : Begin) → Fresh h b → BeginBalanced h ((pend env p >> begin_on_pending env) b).1
  unfolding ◌>>=◌
  finish_body p b f =
      and_then-holds (pend env p b) _ (pend-Balanced env h p b f)
        (λ _. begin_on_pending-Balanced env h)

  begin_body-Balanced : (b : Begin) → Fresh h b → BeginBalanced h (begin_body env b).1
  unfolding begin_body within ◌>>=◌
  begin_body-Balanced b f =
      and_then-leads {Q = BeginBalanced h} (within (prepare env) b)
        (λ p. pend env p >> begin_on_pending env) (prepare-Balanced.at b.conn f.0, f.1)
        (λ b' f'. omega (arith, f'.0, ap (occurs h) f'.1)) finish_body

  -- `begin` loses no connection, whether it succeeds or fails.
  pub begin-Balanced : Keeps (Balanced h) (begin env)
  unfolding begin
  begin-Balanced = record {
    at = λ c b. elim (Bool-cases (is_active c.transaction_state)) [
      | inl on ↦ rw (on, begin) b
      | inr off ↦
          rw (off, begin)
            (end_begin-Balanced h (begin_body env (start_begin c))
              (begin_body-Balanced (start_begin c) (b, refl)))
    ];
  }

give_back-Balanced :
    (h k : ℕ) (keep : Bool) (c : Connection)
    → Offset h (occurs h (some k)) c
    → Balanced h (give_back keep k c)
unfolding give_back
give_back-Balanced h k true c b = ground arith
give_back-Balanced h k false c b = ground arith

end_transaction-Balanced :
    (h k : ℕ) (keep : Bool) (r : Outcome Done × Connection)
    → Offset h (occurs h (some k)) r.1
    → Balanced h (end_transaction keep k r).1
unfolding end_transaction
end_transaction-Balanced h k keep (ok d, c) b = give_back-Balanced h k keep c b
end_transaction-Balanced h k keep (err e, c) b = omega arith

-- A slot that is emptied leaves its connection elsewhere.
pub take_slot :
    (h k : ℕ) (c : Connection)
    → c.transaction_connection ≡ some k
    → Balanced h c
    → Offset h (occurs h (some k)) (record c { transaction_connection = none })
take_slot h k c e b = let e' = ap (occurs h) e in omega arith

module _ (env : Env) (h : ℕ) where
  pub finish_with-Balanced :
      (sql : Statement) (keep : Bool) → Keeps (Balanced h) (finish_with env sql keep)
  unfolding finish_with
  finish_with-Balanced sql keep = record {
    at = λ c b. elim (Bool-cases (is_exactly_active c.transaction_state)) [
      | inr off ↦ rw (off, finish_with) b
      | inl on ↦ elim (Option-cases c.transaction_connection) [
        | inl e ↦ rw (on, e, finish_with) b
        | inr (k, e) ↦
            rw (on, e, finish_with)
              (end_transaction-Balanced h k keep _ (
                (do_execute-Keeps env (Offset-Steady h (occurs h (some k))) _ sql []).at _
                  (take_slot h k c e b)))
      ]
    ];
  }
