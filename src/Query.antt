-- ===== src/Query.antt =====
-- src/query.rs: binding of parameters, and the calls that run a statement on a pool or a connection.
-- The tables of `bind_chain!` calls are in modules of their own.
pub mod OnPool
pub mod OnConnection
pub mod Fetching
pub mod Binding
use rapsqlite.Prelude.{
  ℕ, zero, suc, ◌+◌, List, [], ◌∷◌, Option, none, some, Text, length, get_elem?, ltb, if◌then◌else◌,
}
use rapsqlite.Outcome.{Outcome, ok, err, PyErr, SqlxError, Statement}
use rapsqlite.Outcome
use rapsqlite.Types.{SqliteParam}
use rapsqlite.Conversion.{Row}
use rapsqlite.State.{
  Connection, Env, Event, Target, Reply, Done, M, ◌>>=◌, throw, lift, answer, log, do_execute,
}
use rapsqlite.Query.OnPool.{bind_query_multiple_arms}
use rapsqlite.Query.OnConnection.{bind_query_multiple_on_connection_arms}
use rapsqlite.Query.Fetching.{
  bind_and_fetch_all_arms, bind_and_fetch_one_arms, bind_and_fetch_optional_arms,
  bind_and_fetch_all_on_connection_arms, bind_and_fetch_one_on_connection_arms,
  bind_and_fetch_optional_on_connection_arms,
}

-- The most parameters that the tables of the execute helpers have an arm for.
abbrev pub max_execute_params : ℕ
max_execute_params = 50

-- The most that those of the fetch helpers have.
abbrev pub max_fetch_params : ℕ
max_fetch_params = 16

-- The three kinds of fetch helpers; each has a table for a pool and one for a connection.
pub data Helper : Type 0 where
  fetches_all fetches_one fetches_optional : Helper

abbrev pub fetch_arms : Helper → Target → List (List ℕ)
fetch_arms fetches_all (Target.on_pool p) = bind_and_fetch_all_arms
fetch_arms fetches_all (Target.on_connection h) = bind_and_fetch_all_on_connection_arms
fetch_arms fetches_one (Target.on_pool p) = bind_and_fetch_one_arms
fetch_arms fetches_one (Target.on_connection h) = bind_and_fetch_one_on_connection_arms
fetch_arms fetches_optional (Target.on_pool p) = bind_and_fetch_optional_arms
fetch_arms fetches_optional (Target.on_connection h) = bind_and_fetch_optional_on_connection_arms

abbrev pub execute_arms : Target → List (List ℕ)
execute_arms (Target.on_pool p) = bind_query_multiple_arms
execute_arms (Target.on_connection h) = bind_query_multiple_on_connection_arms

-- The arm for a number of parameters; the first is for one.
abbrev pub arm : List (List ℕ) → ℕ → Option (List ℕ)
arm arms zero = none
arm arms (suc n) = get_elem? arms n

-- `bind_chain!`: binds `params[i]` for each index in turn; a bad index panics.
unfoldable pub bind_chain : List SqliteParam → List ℕ → Outcome (List SqliteParam)
bind_chain params [] = ok []
bind_chain params (i ∷ is) = elim (get_elem? params i) [
  | none ↦ err PyErr.panic
  | some p ↦ elim (bind_chain params is) [ ok ps ↦ ok (p ∷ ps) | err e ↦ err e ]
]

-- The query builder that the table gives, or the refusal of too many parameters; a number that has no
-- arm panics.
unfoldable pub bind_params :
    ℕ → List (List ℕ) → Text → List SqliteParam → Outcome (List SqliteParam)
unfolding bind_chain
bind_params limit arms query params =
    let n = length params in
    if ltb limit n
    then err (PyErr.mapped (SqlxError.too_many_parameters n) (Statement.user query))
    else elim (arm arms n) [ none ↦ err PyErr.panic | some is ↦ bind_chain params is ]

module _ {A : Type 0} (replies : List Event → Reply A) where
  -- One call of a fetch method, with what it is answered.
  unfoldable pub do_fetch : Target → Text → List SqliteParam → M Connection A
  do_fetch target query params c =
      let c' = log (Event.fetches target query params) c in
      answer (λ e. PyErr.mapped e (Statement.user query)) (replies c'.trace) c'

  unfoldable pub bind_and_fetch : Helper → Target → Text → List SqliteParam → M Connection A
  unfolding do_fetch bind_params
  bind_and_fetch how target query [] = do_fetch target query []
  bind_and_fetch how target query params = do
    bound ← lift (bind_params max_fetch_params (fetch_arms how target) query params)
    do_fetch target query bound

module _ (env : Env) where
  unfoldable pub bind_query_multiple : Target → Text → List SqliteParam → M Connection Done
  unfolding bind_params
  bind_query_multiple target query [] = do_execute env target (Statement.user query) []
  bind_query_multiple target query params = do
    bound ← lift (bind_params max_execute_params (execute_arms target) query params)
    do_execute env target (Statement.user query) bound

  -- `bind_and_execute` on a pool, `bind_and_execute_on_connection` on a connection.
  unfoldable pub bind_and_execute : Target → Text → List SqliteParam → M Connection Done
  unfolding bind_query_multiple
  bind_and_execute target query [] = do_execute env target (Statement.user query) []
  bind_and_execute target query (p ∷ []) = do_execute env target (Statement.user query) (p ∷ [])
  bind_and_execute target query params = bind_query_multiple target query params

  unfoldable pub bind_and_fetch_all : Target → Text → List SqliteParam → M Connection (List Row)
  unfolding bind_and_fetch
  bind_and_fetch_all = bind_and_fetch env.fetch_all fetches_all

  unfoldable pub bind_and_fetch_one : Target → Text → List SqliteParam → M Connection Row
  unfolding bind_and_fetch
  bind_and_fetch_one = bind_and_fetch env.fetch_one fetches_one

  unfoldable pub bind_and_fetch_optional :
      Target → Text → List SqliteParam → M Connection (Option Row)
  unfolding bind_and_fetch
  bind_and_fetch_optional = bind_and_fetch env.fetch_optional fetches_optional
