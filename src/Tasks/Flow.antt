-- ===== src/Tasks/Flow.antt =====
-- src/connection.rs: the order of the places of a call, and that every turn follows it.
use rapsqlite.Prelude.{
  ℕ, ◌≡◌, ◌<◌, refl, Bool, true, false, Bool-cases, inl, inr, [], Option, none, some, Option-cases,
  arith,
}
use rapsqlite.Outcome.{Outcome, ok, err, PyErr, Statement}
use rapsqlite.Types.{is_active, is_exactly_active}
use rapsqlite.State.{Connection, Env, do_acquire, do_execute}
use rapsqlite.Pool.{
  has_callbacks, get_or_create_pool, ensure_callback_connection, execute_init_hook_if_needed,
}
use rapsqlite.Transaction.{reserve}
use rapsqlite.Tasks.{
  end_turn, begin_turn, close_turn, proceed, after_ending, choose, take_callback_slot,
  take_transaction_slot, take_open_slot, resume,
}
use rapsqlite.Tasks.Places.{
  Task, begins, checked, has_pool, hooked, reserved, ensured, pending, tuned, begun, stored,
  failing, cleared, returning, ends, locked, ending, ended, finished, closes, emptied, closing,
  rolling, rolled, shutting, holds_state, holds_connection, wants_state, wants_connection,
  is_finished,
}

-- From one place of a call to the next.
pub data Next : Task → Task → Type 0 where
  refuses : {e : PyErr} → Next begins (finished (err e))
  checks : Next begins checked
  has_no_pool : {e : PyErr} → Next checked (failing e false none)
  opens_pool : {p : ℕ} → Next checked (has_pool p)
  hook_fails : {p : ℕ} {e : PyErr} → Next (has_pool p) (failing e false none)
  runs_hook : {p : ℕ} → Next (has_pool p) (hooked p)
  loses_slot : {p : ℕ} {e : PyErr} → Next (hooked p) (failing e false none)
  wins_slot : {p : ℕ} → Next (hooked p) (reserved p)
  acquires : {p h : ℕ} → Next (reserved p) (pending false h)
  ensures : {p : ℕ} → Next (reserved p) ensured
  gets_none :
      {p : ℕ} {from_callback : Bool} {e : PyErr} → Next (reserved p) (failing e from_callback none)
  takes_callback : {h : ℕ} → Next ensured (pending true h)
  misses_callback : {e : PyErr} → Next ensured (failing e true none)
  tunes : {b : Bool} {h : ℕ} → Next (pending b h) (tuned b h)
  tuning_fails : {b : Bool} {h : ℕ} {e : PyErr} → Next (pending b h) (failing e b (some h))
  opens : {b : Bool} {h : ℕ} → Next (tuned b h) (begun b h)
  opening_fails : {b : Bool} {h : ℕ} {e : PyErr} → Next (tuned b h) (failing e b (some h))
  stores : {b : Bool} {h : ℕ} → Next (begun b h) (stored b)
  activates : {b : Bool} → Next (stored b) (finished (ok tt))
  resets : {e : PyErr} {b : Bool} {held : Option ℕ} → Next (failing e b held) (cleared e b held)
  empties :
      {e : PyErr} {b : Bool} {held conn rest : Option ℕ}
      → Next (cleared e b held) (returning e b conn rest)
  reports :
      {e : PyErr} {b : Bool} {conn rest : Option ℕ}
      → Next (returning e b conn rest) (finished (err e))
  finds_none : {sql : Statement} {e : PyErr} → Next (ends sql) (finished (err e))
  locks : {sql : Statement} {keep : Bool} → Next (ends sql) (locked sql keep)
  finds_empty :
      {sql : Statement} {keep : Bool} {e : PyErr} → Next (locked sql keep) (finished (err e))
  takes : {sql : Statement} {keep : Bool} {h : ℕ} → Next (locked sql keep) (ending sql keep h)
  ending_fails :
      {sql : Statement} {keep : Bool} {h : ℕ} {e : PyErr}
      → Next (ending sql keep h) (finished (err e))
  ends_well : {sql : Statement} {keep : Bool} {h : ℕ} → Next (ending sql keep h) (ended keep h)
  clears : Next closes emptied
  finds_open : Next emptied closing
  finds_shut : Next emptied (shutting true)
  takes_open : {h : ℕ} → Next closing (rolling h)
  takes_nothing : Next closing rolled
  rolls : {h : ℕ} → Next (rolling h) rolled
  unsets : Next rolled (shutting false)
  shuts : {held : Bool} → Next (shutting held) (finished (ok tt))
  settles : {keep : Bool} {h : ℕ} → Next (ended keep h) (finished (ok tt))

proceed-Next :
    (t : Task) {A : Type 0} (next : A → Task) (failed : PyErr → Task) (r : Outcome A × Connection)
    → ((a : A) → Next t (next a))
    → ((e : PyErr) → Next t (failed e))
    → Next t (proceed next failed r).1
proceed-Next t next failed (ok a, c) p q = p a
proceed-Next t next failed (err e, c) p q = q e

after_ending-Next :
    {A : Type 0} (sql : Statement) (keep : Bool) (n : ℕ) (r : Outcome A × Connection)
    → Next (ending sql keep n) (after_ending keep n r).1
after_ending-Next sql keep n (ok a, c) = ends_well
after_ending-Next sql keep n (err e, c) = ending_fails

module _ (env : Env) (c : Connection) where
  begins-Next : Next begins (resume env c begins).1
  unfolding resume
  begins-Next = elim (Bool-cases (is_active c.transaction_state)) [
    | inl on ↦ rw (on, begin_turn) refuses
    | inr off ↦ rw (off, begin_turn) checks
  ]

  choose-Next : (p : ℕ) → Next (reserved p) (choose env p c).1
  unfolding choose
  choose-Next p = elim (Bool-cases (has_callbacks c)) [
    | inl set ↦
        rw (set, choose)
          (proceed-Next _ _ _ (ensure_callback_connection env c) (λ _. ensures) (λ e. gets_none))
    | inr unset ↦
        rw (unset, choose)
          (proceed-Next _ _ _ (do_acquire env p c) (λ h. acquires) (λ e. gets_none))
  ]

  take_callback_slot-Next : Next ensured (take_callback_slot c).1
  unfolding take_callback_slot
  take_callback_slot-Next = elim (Option-cases c.callback_connection) [
    | inl e ↦ rw (e, take_callback_slot) misses_callback
    | inr (n, e) ↦ rw (e, take_callback_slot) takes_callback
  ]

  ends-Next : (sql : Statement) → Next (ends sql) (resume env c (ends sql)).1
  unfolding resume
  ends-Next sql = elim (Bool-cases (is_exactly_active c.transaction_state)) [
    | inl on ↦ rw (on, end_turn) locks
    | inr off ↦ rw (off, end_turn) finds_none
  ]

  emptied-Next : Next emptied (resume env c emptied).1
  unfolding resume
  emptied-Next = elim (Bool-cases (is_exactly_active c.transaction_state)) [
    | inl on ↦ rw (on, close_turn) finds_open
    | inr off ↦ rw (off, close_turn) finds_shut
  ]

  take_open_slot-Next : Next closing (take_open_slot c).1
  unfolding take_open_slot
  take_open_slot-Next = elim (Option-cases c.transaction_connection) [
    | inl e ↦ rw (e, take_open_slot) takes_nothing
    | inr (n, e) ↦ rw (e, take_open_slot) takes_open
  ]

  take_transaction_slot-Next :
      (sql : Statement) (keep : Bool) → Next (locked sql keep) (take_transaction_slot sql keep c).1
  unfolding take_transaction_slot
  take_transaction_slot-Next sql keep = elim (Option-cases c.transaction_connection) [
    | inl e ↦ rw (e, take_transaction_slot) finds_empty
    | inr (n, e) ↦ rw (e, take_transaction_slot) takes
  ]

  -- A turn leads from a place to a next one.
  pub resume-Next : (t : Task) → is_finished t ≡ false → Next t (resume env c t).1
  unfolding resume
  resume-Next begins u = begins-Next
  resume-Next checked u =
      proceed-Next _ _ _ (get_or_create_pool env c) (λ p. opens_pool) (λ e. has_no_pool)
  resume-Next (has_pool p) u =
      proceed-Next _ _ _ (execute_init_hook_if_needed env c) (λ _. runs_hook) (λ e. hook_fails)
  resume-Next (hooked p) u = proceed-Next _ _ _ (reserve c) (λ _. wins_slot) (λ e. loses_slot)
  resume-Next (reserved p) u = choose-Next p
  resume-Next ensured u = take_callback_slot-Next
  resume-Next (pending b h) u =
      proceed-Next _ _ _ (do_execute env _ _ [] c) (λ _. tunes) (λ e. tuning_fails)
  resume-Next (tuned b h) u =
      proceed-Next _ _ _ (do_execute env _ _ [] c) (λ _. opens) (λ e. opening_fails)
  resume-Next (begun b h) u = stores
  resume-Next (stored b) u = activates
  resume-Next (failing e b held) u = resets
  resume-Next (cleared e b held) u = empties
  resume-Next (returning e b conn rest) u = reports
  resume-Next (ends sql) u = ends-Next sql
  resume-Next (locked sql keep) u = take_transaction_slot-Next sql keep
  resume-Next (ending sql keep n) u = after_ending-Next sql keep n (do_execute env _ sql [] c)
  resume-Next (ended keep n) u = settles
  resume-Next closes u = clears
  resume-Next emptied u = emptied-Next
  resume-Next closing u = take_open_slot-Next
  resume-Next (rolling h) u = rolls
  resume-Next rolled u = unsets
  resume-Next (shutting held) u = shuts
  resume-Next (finished r) u = cc

-- How many turns a call has left at most.
abbrev pub rank : Task → ℕ
rank begins = 12
rank checked = 11
rank (has_pool p) = 10
rank (hooked p) = 9
rank (reserved p) = 8
rank ensured = 7
rank (pending b h) = 6
rank (tuned b h) = 5
rank (begun b h) = 2
rank (stored b) = 1
rank (failing e b held) = 3
rank (cleared e b held) = 2
rank (returning e b conn rest) = 1
rank (ends sql) = 4
rank (locked sql keep) = 3
rank (ending sql keep h) = 2
rank (ended keep h) = 1
rank closes = 6
rank emptied = 5
rank closing = 4
rank (rolling h) = 3
rank rolled = 2
rank (shutting held) = 1
rank (finished r) = 0

-- The places of `close`.
abbrev pub of_close : Task → Bool
of_close closes = true
of_close emptied = true
of_close closing = true
of_close (rolling h) = true
of_close rolled = true
of_close (shutting held) = true
of_close _ = false

pub Next-of_close : {t u : Task} → Next t u → of_close t ≡ false → of_close u ≡ false
Next-of_close refuses p = refl
Next-of_close _ p = ground arith

pub Next-rank : {t u : Task} → Next t u → rank u < rank t
Next-rank refuses = omega arith
Next-rank _ = omega arith

-- Only a task that waited for a mutex holds it after its turn.
pub Next-gains_state :
    {t u : Task} → Next t u → holds_state t ≡ false → holds_state u ≡ true → wants_state t ≡ true
Next-gains_state refuses p q = refl
Next-gains_state _ p q = ground arith

pub Next-gains_connection :
    {t u : Task}
    → Next t u
    → holds_connection t ≡ false
    → holds_connection u ≡ true
    → wants_connection t ≡ true
Next-gains_connection refuses p q = cc
Next-gains_connection _ p q = ground arith
