-- ===== src/Tasks/Keeping.antt =====
-- src/connection.rs: properties of the connection that every turn of a task keeps.
use rapsqlite.Prelude.{
  ℕ, ◌≡◌, Bool, true, false, Bool-cases, inl, inr, List, [], ◌∷◌, Option, none, some, Option-cases,
  get_elem?, arith,
}
use rapsqlite.Outcome.{Outcome, ok, err, PyErr, Statement}
use rapsqlite.Types.{TransactionState, starting, active, idle, is_active}
use rapsqlite.State.{
  Connection, Env, Event, log, reply, Reply-cases, do_acquire, do_execute, do_drop, drop_held,
  receive,
}
use rapsqlite.Pool.{
  has_callbacks, execute_init_hook_if_needed, get_or_create_pool, ensure_callback_connection,
}
use rapsqlite.Pool.Steady.{
  Steady, HookKeeps, do_execute-Keeps, execute_init_hook_if_needed-Keeps, get_or_create_pool-Keeps,
}
use rapsqlite.Pool.Filling.{Fills, ensure_callback_connection-Keeps}
use rapsqlite.Transaction.{
  clear_callbacks, close_pool, reserve, give_back, set_transaction, set_callback,
}
use rapsqlite.Tasks.{
  proceed, after_ending, choose, take_callback_slot, take_transaction_slot, take_open_slot,
  calls_close, resume, give_back_held, System, is_blocked, move, turn, act, run_actions, Action,
  calls_begin, calls_end, turns,
}
use rapsqlite.Tasks.Places.{
  Task, begins, checked, has_pool, hooked, reserved, ensured, pending, tuned, begun, stored,
  failing, cleared, returning, ends, locked, ending, ended, finished, closes, emptied, closing,
  rolling, rolled, shutting,
}

-- What a property of the connection is to stand for the turns of tasks to keep it.
pub record TaskKeeps (P : Connection → Type 0) (env : Env) : Type 0 where
  pub steady : Steady P
  pub hook : HookKeeps P env
  pub asks : (c : Connection) (p : ℕ) → P c → P (log (Event.acquires p) c)
  pub gets :
      (c : Connection) (k : ℕ) → env.acquire c.trace ≡ reply k → P c → P (log (Event.acquired k) c)
  pub drops : (c : Connection) (k : ℕ) → P c → P (do_drop k c)
  pub states :
      (c : Connection) (st : TransactionState) → P c → P (record c { transaction_state = st })
  pub stores : (c : Connection) (o : Option ℕ) → P c → P (record c { transaction_connection = o })
  pub clears :
      (c : Connection)
      → P c
      → P (record c {
        user_functions = [];
        trace_callback = none;
        authorizer_callback = none;
        progress_handler = none;
      })
  pub shuts : (c : Connection) (p : ℕ) → P c → P (record (log (Event.closes p) c) { pool = none })
  pub fills : (c : Connection) (o : Option ℕ) → P c → P (record c { callback_connection = o })

proceed-Keeps :
    (P : Connection → Type 0) {A : Type 0} (next : A → Task) (failed : PyErr → Task)
    (r : Outcome A × Connection)
    → P r.1
    → P (proceed next failed r).0
proceed-Keeps P next failed (ok a, c) p = p
proceed-Keeps P next failed (err e, c) p = p

module _ (env : Env) (P : Connection → Type 0) (k : TaskKeeps P env) where
  Keeps-Fills : Fills P env
  Keeps-Fills = record { asks = k.asks; gets = λ c n e v p. k.fills _ (some n) (k.gets c n e p) }

  drop_held-Keeps : (o : Option ℕ) (c : Connection) → P c → P (drop_held o c)
  drop_held-Keeps none c p = p
  drop_held-Keeps (some n) c p = k.drops c n p

  set_transaction-Keeps : (o : Option ℕ) (c : Connection) → P c → P (set_transaction o c)
  unfolding set_transaction
  set_transaction-Keeps o c p = k.stores _ o (drop_held-Keeps c.transaction_connection c p)

  give_back-Keeps : (keep : Bool) (n : ℕ) (c : Connection) → P c → P (give_back keep n c)
  unfolding give_back set_callback
  give_back-Keeps true n c p = k.fills _ (some n) (drop_held-Keeps c.callback_connection c p)
  give_back-Keeps false n c p = k.drops c n p

  give_back_held-Keeps :
      (keep : Bool) (o : Option ℕ) (c : Connection) → P c → P (give_back_held keep o c)
  give_back_held-Keeps keep none c p = p
  give_back_held-Keeps keep (some n) c p = give_back-Keeps keep n c p

  acquire-Keeps : (p : ℕ) (c : Connection) → P c → P (do_acquire env p c).1
  unfolding do_acquire receive
  acquire-Keeps p c h =
      let c' = log (Event.acquires p) c in
      elim (Reply-cases (env.acquire c'.trace)) [
        | inl (n, e) ↦ rw (e, receive) (k.gets c' n e (k.asks c p h))
        | inr (x, e) ↦ rw (e, receive) (k.asks c p h)
      ]

  choose-Keeps : (p : ℕ) (c : Connection) → P c → P (choose env p c).0
  unfolding choose
  choose-Keeps p c h = elim (Bool-cases (has_callbacks c)) [
    | inl set ↦
        rw (set, choose)
          (proceed-Keeps P _ _ (ensure_callback_connection env c)
            ((ensure_callback_connection-Keeps env k.steady Keeps-Fills).at c h))
    | inr unset ↦
        rw (unset, choose) (proceed-Keeps P _ _ (do_acquire env p c) (acquire-Keeps p c h))
  ]

  after_ending-Keeps :
      {A : Type 0} (keep : Bool) (n : ℕ) (r : Outcome A × Connection)
      → P r.1
      → P (after_ending keep n r).0
  after_ending-Keeps keep n (ok a, c) p = p
  after_ending-Keeps keep n (err e, c) p = k.drops c n p

  reserve-Keeps : (c : Connection) → P c → P (reserve c).1
  unfolding reserve
  reserve-Keeps c p = elim (Bool-cases (is_active c.transaction_state)) [
    | inl on ↦ rw (on, reserve) p
    | inr off ↦ rw (off, reserve) (k.states c starting p)
  ]

  take_callback_slot-Keeps : (c : Connection) → P c → P (take_callback_slot c).0
  unfolding take_callback_slot
  take_callback_slot-Keeps c p = elim (Option-cases c.callback_connection) [
    | inl e ↦ rw (e, take_callback_slot) p
    | inr (n, e) ↦ rw (e, take_callback_slot) (k.fills c none p)
  ]

  clear_callbacks-Keeps : (c : Connection) → P c → P (clear_callbacks c)
  unfolding clear_callbacks
  clear_callbacks-Keeps c p =
      k.clears _ (k.fills _ none (drop_held-Keeps c.callback_connection c p))

  close_pool-Keeps : (c : Connection) → P c → P (close_pool c)
  unfolding close_pool
  close_pool-Keeps c p = elim (Option-cases c.pool) [
    | inl e ↦ rw (e, close_pool) p
    | inr (q, e) ↦ rw (e, close_pool) (k.shuts c q p)
  ]

  take_open_slot-Keeps : (c : Connection) → P c → P (take_open_slot c).0
  unfolding take_open_slot
  take_open_slot-Keeps c p = elim (Option-cases c.transaction_connection) [
    | inl e ↦ rw (e, take_open_slot) p
    | inr (n, e) ↦ rw (e, take_open_slot) (k.stores c none p)
  ]

  take_transaction_slot-Keeps :
      (sql : Statement) (keep : Bool) (c : Connection)
      → P c
      → P (take_transaction_slot sql keep c).0
  unfolding take_transaction_slot
  take_transaction_slot-Keeps sql keep c p = elim (Option-cases c.transaction_connection) [
    | inl e ↦ rw (e, take_transaction_slot) p
    | inr (n, e) ↦ rw (e, take_transaction_slot) (k.stores c none p)
  ]

  resume-Keeps : (c : Connection) (t : Task) → P c → P (resume env c t).0
  unfolding resume
  resume-Keeps c begins p = ground arith
  resume-Keeps c checked p =
      proceed-Keeps P _ _ (get_or_create_pool env c)
        ((get_or_create_pool-Keeps env k.steady).at c p)
  resume-Keeps c (has_pool q) p =
      proceed-Keeps P _ _ (execute_init_hook_if_needed env c)
        ((execute_init_hook_if_needed-Keeps env k.hook).at c p)
  resume-Keeps c (hooked q) p = proceed-Keeps P _ _ (reserve c) (reserve-Keeps c p)
  resume-Keeps c (reserved q) p = choose-Keeps q c p
  resume-Keeps c ensured p = take_callback_slot-Keeps c p
  resume-Keeps c (pending fc n) p =
      proceed-Keeps P _ _ (do_execute env _ _ [] c) ((do_execute-Keeps env k.steady _ _ []).at c p)
  resume-Keeps c (tuned fc n) p =
      proceed-Keeps P _ _ (do_execute env _ _ [] c) ((do_execute-Keeps env k.steady _ _ []).at c p)
  resume-Keeps c (begun fc n) p = set_transaction-Keeps (some n) c p
  resume-Keeps c (stored fc) p = k.states c active p
  resume-Keeps c (failing e fc held) p = k.states c idle p
  resume-Keeps c (cleared e fc held) p = k.stores c none p
  resume-Keeps c (returning e fc conn rest) p =
      drop_held-Keeps rest _ (give_back_held-Keeps fc conn c p)
  resume-Keeps c (ends sql) p = ground arith
  resume-Keeps c (locked sql keep) p = take_transaction_slot-Keeps sql keep c p
  resume-Keeps c (ending sql keep n) p =
      after_ending-Keeps keep n (do_execute env _ sql [] c)
        ((do_execute-Keeps env k.steady _ sql []).at c p)
  resume-Keeps c (ended keep n) p = k.states _ idle (give_back-Keeps keep n c p)
  resume-Keeps c closes p = clear_callbacks-Keeps c p
  resume-Keeps c emptied p = ground arith
  resume-Keeps c closing p = take_open_slot-Keeps c p
  resume-Keeps c (rolling n) p =
      k.drops _ n ((do_execute-Keeps env k.steady _ Statement.rollback []).at c p)
  resume-Keeps c rolled p = k.states c idle p
  resume-Keeps c (shutting held) p = close_pool-Keeps c p
  resume-Keeps c (finished r) p = p

  turn-Keeps : (i : ℕ) (s : System) → P s.conn → P (turn env i s).conn
  unfolding turn
  turn-Keeps i s p = elim (Option-cases (get_elem? s.tasks i)) [
    | inl e ↦ rw (e, turn) p
    | inr (t, e) ↦
        rw (e, turn)
          (elim (Bool-cases (is_blocked s t)) [
            | inl waits ↦ rw (waits, move) p
            | inr goes ↦ rw (goes, move) (resume-Keeps s.conn t p)
          ])
  ]

  act-Keeps : (a : Action) (s : System) → P s.conn → P (act env a s).conn
  unfolding act
  act-Keeps calls_begin s p = p
  act-Keeps calls_close s p = p
  act-Keeps (calls_end sql) s p = p
  act-Keeps (turns i) s p = turn-Keeps i s p

  pub run_actions-Keeps :
      (actions : List Action) (s : System) → P s.conn → P (run_actions env actions s).conn
  unfolding run_actions
  run_actions-Keeps [] s p = p
  run_actions-Keeps (a ∷ actions) s p = run_actions-Keeps actions (act env a s) (act-Keeps a s p)
