-- ===== src/Tasks/Counts.antt =====
-- src/connection.rs: no turn of a task loses a connection or drops one twice.
use rapsqlite.Prelude.{
  ℕ, ◌+◌, ◌≡◌, refl, Bool, true, false, Bool-cases, inl, inr, [], none, some, set, arith,
}
use rapsqlite.Prelude.Counting.{occurs}
use rapsqlite.Outcome.{Outcome, ok, err, PyErr, Statement}
use rapsqlite.State.{Connection, Env, Event, log, Reply-cases, do_acquire, do_execute, receive}
use rapsqlite.Pool.{
  has_callbacks, execute_init_hook_if_needed, get_or_create_pool, ensure_callback_connection,
}
use rapsqlite.Pool.Steady.{
  HookKeeps, do_execute-Keeps, execute_init_hook_if_needed-Keeps, get_or_create_pool-Keeps,
}
use rapsqlite.Pool.Filling.{Fills, ensure_callback_connection-Keeps}
use rapsqlite.Transaction.{clear_callbacks, close_pool, reserve, give_back, set_transaction}
use rapsqlite.Transaction.Balance.{Offset, Offset-Steady}
use rapsqlite.Tasks.{
  proceed, after_ending, choose, take_callback_slot, take_transaction_slot, take_open_slot, resume,
}
use rapsqlite.Tasks.Places.{
  Task, begins, checked, has_pool, hooked, reserved, ensured, pending, tuned, begun, stored,
  failing, cleared, returning, ends, locked, ending, ended, finished, closes, emptied, closing,
  rolling, rolled, shutting,
}

-- How often a task holds a connection.
abbrev pub task_holds : ℕ → Task → ℕ
task_holds h (pending from_callback k) = occurs h (some k)
task_holds h (tuned from_callback k) = occurs h (some k)
task_holds h (begun from_callback k) = occurs h (some k)
task_holds h (failing e from_callback held) = occurs h held
task_holds h (cleared e from_callback held) = occurs h held
task_holds h (returning e from_callback conn rest) = occurs h conn + occurs h rest
task_holds h (ending sql keep k) = occurs h (some k)
task_holds h (ended keep k) = occurs h (some k)
task_holds h (rolling k) = occurs h (some k)
task_holds h _ = 0

-- Balanced, with what a task holds and `k` more that others hold.
abbrev Counted : ℕ → ℕ → Connection × Task → Type 0
Counted h k (c, t) = Offset h (task_holds h t + k) c

Offset-Fills : (h k : ℕ) (env : Env) → Fills (Offset h k) env
Offset-Fills h k env = record { asks = λ c p b. b; gets = λ c n e v b. ground (arith, v) }

-- A call that keeps the counts, between two places that hold the same.
proceed-Counted :
    (h k n : ℕ) {A : Type 0} (next : A → Task) (failed : PyErr → Task) (r : Outcome A × Connection)
    → Offset h (n + k) r.1
    → ((a : A) → task_holds h (next a) ≡ n)
    → ((e : PyErr) → task_holds h (failed e) ≡ n)
    → Counted h k (proceed next failed r)
proceed-Counted h k n next failed (ok a, c) b p q = rw (p a) b
proceed-Counted h k n next failed (err e, c) b p q = rw (q e) b

module _ (h k : ℕ) where
  take_callback_slot-Counted : (c : Connection) → Offset h k c → Counted h k (take_callback_slot c)
  unfolding take_callback_slot
  take_callback_slot-Counted c b = ground arith

  take_open_slot-Counted : (c : Connection) → Offset h k c → Counted h k (take_open_slot c)
  unfolding take_open_slot
  take_open_slot-Counted c b = ground arith

  clear_callbacks-Counted : (c : Connection) → Offset h k c → Offset h k (clear_callbacks c)
  unfolding clear_callbacks
  clear_callbacks-Counted c b = ground arith

  close_pool-Counted : (c : Connection) → Offset h k c → Offset h k (close_pool c)
  unfolding close_pool
  close_pool-Counted c b = ground arith

  take_transaction_slot-Counted :
      (sql : Statement) (keep : Bool) (c : Connection)
      → Offset h k c
      → Counted h k (take_transaction_slot sql keep c)
  unfolding take_transaction_slot
  take_transaction_slot-Counted sql keep c b = ground arith

  after_ending-Counted :
      {A : Type 0} (keep : Bool) (n : ℕ) (r : Outcome A × Connection)
      → Offset h (occurs h (some n) + k) r.1
      → Counted h k (after_ending keep n r)
  after_ending-Counted keep n (ok a, c) b = b
  after_ending-Counted keep n (err e, c) b = omega arith

  give_back-Counted :
      (keep : Bool) (n : ℕ) (c : Connection)
      → Offset h (occurs h (some n) + k) c
      → Offset h k (give_back keep n c)
  unfolding give_back
  give_back-Counted true n c b = ground arith
  give_back-Counted false n c b = omega arith

module _ (env : Env) (h k : ℕ) where
  acquire-Counted :
      (p : ℕ) (c : Connection)
      → Offset h k c
      → Counted h k (proceed (pending false) (λ e. failing e false none) (do_acquire env p c))
  unfolding do_acquire receive
  acquire-Counted p c b = elim (Reply-cases (env.acquire (log (Event.acquires p) c).trace)) [
    | inl (n, e) ↦ rw (e, receive) (omega arith)
    | inr (x, e) ↦ rw (e, receive) (omega arith)
  ]

  choose-Counted : (p : ℕ) (c : Connection) → Offset h k c → Counted h k (choose env p c)
  unfolding choose
  choose-Counted p c b = elim (Bool-cases (has_callbacks c)) [
    | inl set ↦
        rw (set, choose)
          (proceed-Counted h k 0 _ _ (ensure_callback_connection env c)
            ((ensure_callback_connection-Keeps env (Offset-Steady h (0 + k))
                (Offset-Fills h (0 + k) env)).at
              c (omega arith))
            (λ _. refl) (λ _. refl))
    | inr unset ↦ rw (unset, choose) (acquire-Counted p c b)
  ]

module _ (env : Env) (h : ℕ) (hook : (k : ℕ) → HookKeeps (Offset h k) env) where
  pub resume-Counted :
      (k : ℕ) (c : Connection) (t : Task) → Counted h k (c, t) → Counted h k (resume env c t)
  unfolding resume reserve set_transaction
  resume-Counted k c begins b = ground arith
  resume-Counted k c checked b =
      proceed-Counted h k 0 _ _ (get_or_create_pool env c)
        ((get_or_create_pool-Keeps env (Offset-Steady h (0 + k))).at c b) (λ _. refl) (λ _. refl)
  resume-Counted k c (has_pool p) b =
      proceed-Counted h k 0 _ _ (execute_init_hook_if_needed env c)
        ((execute_init_hook_if_needed-Keeps env (hook (0 + k))).at c b) (λ _. refl) (λ _. refl)
  resume-Counted k c (hooked p) b = ground arith
  resume-Counted k c (reserved p) b = choose-Counted env h k p c (omega arith)
  resume-Counted k c ensured b = take_callback_slot-Counted h k c (omega arith)
  resume-Counted k c (pending fc n) b =
      proceed-Counted h k (occurs h (some n)) _ _ (do_execute env _ _ [] c)
        ((do_execute-Keeps env (Offset-Steady h (occurs h (some n) + k)) _ _ []).at c b) (λ _. refl)
        (λ _. refl)
  resume-Counted k c (tuned fc n) b =
      proceed-Counted h k (occurs h (some n)) _ _ (do_execute env _ _ [] c)
        ((do_execute-Keeps env (Offset-Steady h (occurs h (some n) + k)) _ _ []).at c b) (λ _. refl)
        (λ _. refl)
  resume-Counted k c (begun fc n) b = ground arith
  resume-Counted k c (stored fc) b = b
  resume-Counted k c (failing e fc held) b = b
  resume-Counted k c (cleared e fc held) b = ground arith
  resume-Counted k c (returning e fc none none) b = omega arith
  resume-Counted k c (returning e fc none (some n)) b = omega arith
  resume-Counted k c (returning e fc (some m) none) b =
      omega (arith, give_back-Counted h k fc m c (omega arith))
  resume-Counted k c (returning e fc (some m) (some n)) b =
      omega (arith, give_back-Counted h (occurs h (some n) + k) fc m c (omega arith))
  resume-Counted k c (ends sql) b = ground arith
  resume-Counted k c (locked sql keep) b =
      take_transaction_slot-Counted h k sql keep c (omega arith)
  resume-Counted k c (ending sql keep n) b =
      after_ending-Counted h k keep n (do_execute env _ sql [] c)
        ((do_execute-Keeps env (Offset-Steady h (occurs h (some n) + k)) _ sql []).at c b)
  resume-Counted k c (ended keep n) b = omega (arith, give_back-Counted h k keep n c (omega arith))
  resume-Counted k c closes b = omega (arith, clear_callbacks-Counted h k c (omega arith))
  resume-Counted k c emptied b = ground arith
  resume-Counted k c closing b = take_open_slot-Counted h k c (omega arith)
  resume-Counted k c (rolling n) b = omega (
    arith,
    (do_execute-Keeps env (Offset-Steady h (occurs h (some n) + k)) _ Statement.rollback []).at c b,
  )
  resume-Counted k c rolled b = b
  resume-Counted k c (shutting held) b = omega (arith, close_pool-Counted h k c (omega arith))
  resume-Counted k c (finished r) b = b
