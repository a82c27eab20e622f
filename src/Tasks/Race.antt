-- ===== src/Tasks/Race.antt =====
-- src/connection.rs: two calls of `begin` that are both past the first test of the state.
use rapsqlite.Prelude.{
  ℕ, ◌≡◌, true, false, inl, inr, List, Option, none, some, Option-cases, ◌∙◌, ap, ◌==◌, get_elem?,
  set,
}
use rapsqlite.Outcome.{err, PyErr}
use rapsqlite.Types.{idle, is_active}
use rapsqlite.State.{Connection, Env, drop_held}
use rapsqlite.Transaction.{reserve, give_back}
use rapsqlite.Tasks.Totals.{get_elem?-set_self, get_elem?-set_ne}
use rapsqlite.Tasks.Alone.{replicate}
use rapsqlite.Tasks.{
  first_of, left_over, give_back_held, resume, System, move, turn, act, run_actions, turns,
}
use rapsqlite.Tasks.Places.{Task, hooked, failing, cleared, returning, finished}

-- No mutex is held.
abbrev pub unlocked : Connection → List Task → System
unlocked c tasks = record { conn = c; state_lock = none; connection_lock = none; tasks = tasks }

-- The state is reset, task `i` stands where it stood, and task `j` has reported the refusal.
pub record IsReset (s : System) (i j : ℕ) (t : Task) : Type 0 where
  pub state : s.conn.transaction_state ≡ idle
  pub slot : s.conn.transaction_connection ≡ none
  pub other : get_elem? s.tasks i ≡ some t
  pub refused : get_elem? s.tasks j ≡ some (finished (err PyErr.transaction_in_progress))

-- The places of a refused call.
abbrev refusal : Task
refusal = failing PyErr.transaction_in_progress false none

abbrev clearing : Task
clearing = cleared PyErr.transaction_in_progress false none

abbrev returning_held : Option ℕ → Task
returning_held o =
    returning PyErr.transaction_in_progress false (first_of o none) (left_over o none)

abbrev refused_task : Task
refused_task = finished (err PyErr.transaction_in_progress)

-- The four turns write its places over each other.
abbrev written : Option ℕ → List Task → ℕ → List Task
written o tasks j =
    set (set (set (set tasks j refusal) j clearing) j (returning_held o)) j refused_task

-- What the refused call drops is what the slot holds.
abbrev cleaned : Connection → Connection
cleaned c = drop_held (left_over c.transaction_connection none) (
    give_back_held false (first_of c.transaction_connection none)
      (record c { transaction_state = idle; transaction_connection = none }))

cleaned-idle : (c : Connection) → (cleaned c).transaction_state ≡ idle
unfolding give_back
cleaned-idle c = elim (Option-cases c.transaction_connection) [ inl e ↦ rw e | inr (h, e) ↦ rw e ]

cleaned-empty : (c : Connection) → (cleaned c).transaction_connection ≡ none
unfolding give_back
cleaned-empty c = elim (Option-cases c.transaction_connection) [ inl e ↦ rw e | inr (h, e) ↦ rw e ]

get_elem?-written :
    (o : Option ℕ) (tasks : List Task) (j : ℕ) (t : Task)
    → get_elem? tasks j ≡ some t
    → get_elem? (written o tasks j) j ≡ some refused_task
get_elem?-written o tasks j t e =
    get_elem?-set_self _ j _ _
      (get_elem?-set_self _ j _ _ (get_elem?-set_self _ j _ _ (get_elem?-set_self tasks j t _ e)))

module _ (env : Env) where
  turn-get :
      (s : System) (j : ℕ) (t : Task) → get_elem? s.tasks j ≡ some t → turn env j s ≡ move env s j t
  unfolding turn
  turn-get s j t e = rw (e, turn)

  refused_move :
      (c : Connection) (tasks : List Task) (j q : ℕ)
      → is_active c.transaction_state ≡ true
      → move env (unlocked c tasks) j (hooked q) ≡ unlocked c (set tasks j refusal)
  unfolding move resume reserve
  refused_move c tasks j q on = rw (on, reserve)

  refused_turns :
      (c : Connection) (tasks : List Task) (j q : ℕ)
      → is_active c.transaction_state ≡ true
      → get_elem? tasks j ≡ some (hooked q)
      → run_actions env (replicate 4 (turns j)) (unlocked c tasks)
        ≡ unlocked (cleaned c) (written c.transaction_connection tasks j)
  unfolding run_actions act move resume
  refused_turns c tasks j q on e =
      let e1 = get_elem?-set_self tasks j (hooked q) refusal e in
      let e2 = get_elem?-set_self (set tasks j refusal) j refusal clearing e1 in
      let e3 =
        get_elem?-set_self (set (set tasks j refusal) j clearing) j clearing
          (returning_held c.transaction_connection) e2 in
      ap (λ s. turn env j (turn env j (turn env j s)))
        (turn-get (unlocked c tasks) j (hooked q) e ∙ refused_move c tasks j q on)
      ∙ ap (λ s. turn env j (turn env j s)) (turn-get _ j refusal e1)
      ∙ ap (turn env j) (turn-get _ j clearing e2)
      ∙ turn-get _ j (returning_held c.transaction_connection) e3

  -- While another call of `begin` has the state reserved or active and no mutex is held, a call that
  -- stands before its second test is refused in four turns, and its cleanup resets the state to idle
  -- and empties the slot of the transaction. Any other task stands where it stood, also the call that
  -- had the reservation.
  pub refused_begin_resets :
      (c : Connection) (tasks : List Task) (i j q : ℕ) (t : Task)
      → is_active c.transaction_state ≡ true
      → get_elem? tasks j ≡ some (hooked q)
      → get_elem? tasks i ≡ some t
      → (j == i) ≡ false
      → IsReset (run_actions env (replicate 4 (turns j)) (unlocked c tasks)) i j t
  refused_begin_resets c tasks i j q t on ej ei ne = rw (refused_turns c tasks j q on ej) (record {
    state = cleaned-idle c;
    slot = cleaned-empty c;
    other =
        get_elem?-set_ne _ j i _ ne
        ∙ get_elem?-set_ne _ j i _ ne
        ∙ get_elem?-set_ne _ j i _ ne
        ∙ get_elem?-set_ne tasks j i refusal ne
        ∙ ei;
    refused = get_elem?-written c.transaction_connection tasks j (hooked q) ej;
  })
