-- ===== src/Settings/Pragmas.antt =====
-- The settings that are stored, and what `set_pragma` leaves alone.
use rapsqlite.Prelude.{
  ℕ, ◌≡◌, refl, ap, ◌∙◌, true, Bool-cases, inl, inr, List, [], ◌∷◌, Option, none, some, Text,
  text_eq, text_eq_iff, if◌then◌else◌, arith,
}
use rapsqlite.Outcome.{Outcome, ok, Statement}
use rapsqlite.State.{
  Connection, Env, Event, Target, Done, reply, ◌>>=◌, and_then, pure, do_execute, answer,
}
use rapsqlite.Keeps.{Keeps, Keeps-bind, Keeps-modify, Keeps-pure}
use rapsqlite.Pool.{apply_pragmas}
use rapsqlite.Pool.Steady.{
  Steady, HookKeeps, do_execute-Keeps, get_or_create_pool-Keeps, execute_init_hook_if_needed-Keeps,
}
use rapsqlite.Settings.{store_pragma, run_pragma, set_pragma}

-- The value that is stored under a name.
abbrev pub setting : Text → List (Text × Text) → Option Text
setting k [] = none
setting k ((key, val) ∷ rest) = if text_eq key k then some val else setting k rest

same_name : (j k l : Text) → text_eq j k ≡ true → text_eq j l ≡ text_eq k l
same_name j k l e = ap (λ (t : Text). text_eq t l) ((text_eq_iff j k).0 e)

-- Storing a PRAGMA sets its value, in its old place if it has one, and leaves those of all other names.
store_pragma_lem :
    (name value k : Text) (pragmas : List (Text × Text))
    → setting k (store_pragma name value pragmas)
      ≡ (if text_eq name k then some value else setting k pragmas)
unfolding store_pragma
store_pragma_lem name value k [] = ground arith
store_pragma_lem name value k ((key, val) ∷ rest) = elim (Bool-cases (text_eq key name)) [
  | inl e ↦ ground (arith, same_name key name k e)
  | inr e ↦ elim (Bool-cases (text_eq key k)) [
    | inl f ↦ ground (arith, same_name key k name f, text_eq_iff name k, text_eq_iff k name)
    | inr f ↦ ground (arith, store_pragma_lem name value k rest)
  ]
]

module _ (env : Env) {P : Connection → Type 0} (steady : Steady P) (hook : HookKeeps P env) where
  pub set_pragma-Keeps :
      (stores : (c : Connection) (pragmas : List (Text × Text))
        → P c
        → P (record c { pragmas = pragmas }))
      (name value : Text)
      → Keeps P (set_pragma env name value)
  unfolding set_pragma run_pragma
  set_pragma-Keeps stores name value =
      Keeps-bind _ _ (Keeps-modify _ (λ c p. stores c (store_pragma name value c.pragmas) p)) λ _.
        Keeps-bind _ _ (get_or_create_pool-Keeps env steady) λ p.
          Keeps-bind _ _ (execute_init_hook_if_needed-Keeps env hook) λ _.
            Keeps-bind _ _
              (do_execute-Keeps env steady (Target.on_pool p) (Statement.pragma name value) [])
              λ _. Keeps-pure tt

-- The calls for a list of PRAGMAs, the latest first, on top of those that were made.
abbrev pub pragma_events : ℕ → List (Text × Text) → List Event → List Event
pragma_events p [] trace = trace
pragma_events p ((name, value) ∷ rest) trace =
    pragma_events p rest
      (Event.executes (Target.on_pool p) (Statement.pragma name value) [] ∷ trace)

do_execute-answered :
    (env : Env) (answers : (t : List Event) → (d : Done) × (env.execute t ≡ reply d))
    (target : Target) (sql : Statement) (c : Connection)
    → do_execute env target sql [] c ≡ (
      ok (answers (Event.executes target sql [] ∷ c.trace)).0,
      record c { trace = Event.executes target sql [] ∷ c.trace },
    )
unfolding do_execute answer
do_execute-answered env answers target sql c =
    let e = (answers (Event.executes target sql [] ∷ c.trace)).1 in rw e refl

-- On a database that accepts every statement, a new pool is sent every stored PRAGMA once and in order.
apply_pragmas_lem :
    (env : Env) (answers : (t : List Event) → (d : Done) × (env.execute t ≡ reply d)) (p : ℕ)
    (pragmas : List (Text × Text)) (c : Connection)
    → apply_pragmas env p pragmas c ≡ (ok tt, record c { trace = pragma_events p pragmas c.trace })
unfolding apply_pragmas pure ◌>>=◌ and_then
apply_pragmas_lem env answers p [] c = refl
apply_pragmas_lem env answers p ((name, value) ∷ rest) c =
    ap (λ (x : Outcome Done × Connection). and_then x (λ _. apply_pragmas env p rest))
      (do_execute-answered env answers (Target.on_pool p) (Statement.pragma name value) c)
    ∙ apply_pragmas_lem env answers p rest (record c {
      trace = Event.executes (Target.on_pool p) (Statement.pragma name value) [] ∷ c.trace;
    })
