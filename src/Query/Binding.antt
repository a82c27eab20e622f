-- ===== src/Query/Binding.antt =====
-- The tables of src/query.rs bind every parameter once, in order, up to the limit.
use rapsqlite.Prelude.{
  ℕ, zero, suc, map, ◌+◌, ◌≤◌, ◌<◌, ◌≡◌, refl, ap, ◌∙◌, true, Bool-cases, inl, inr, List, [], ◌∷◌,
  ◌++◌, some, Text, length, get_elem?, leb, if◌then◌else◌, length-append, arith,
}
use mathlib.Core.List.{append_assoc}
use rapsqlite.Outcome.{ok, err, PyErr, SqlxError, Statement}
use rapsqlite.Types.{SqliteParam}
use rapsqlite.State.{Connection, Env, Event, Target, Reply, M, ◌>>=◌, lift, and_then, do_execute}
use rapsqlite.Query.{
  Helper, fetches_all, fetches_one, fetches_optional, fetch_arms, execute_arms, bind_chain,
  bind_params, max_execute_params, max_fetch_params, bind_and_execute, bind_query_multiple,
  bind_and_fetch, do_fetch,
}

-- The indices `i, i + 1, …`, so many of them.
abbrev indices : ℕ → ℕ → List ℕ
indices zero i = []
indices (suc n) i = i ∷ indices n (i + 1)

-- What a table should be: for every number up to the limit, all indices below it.
abbrev all_arms : ℕ → List (List ℕ)
all_arms limit = map (λ k. indices (suc k) 0) (indices limit 0)

execute_arms-eq : (target : Target) → execute_arms target ≡ all_arms 50
execute_arms-eq (Target.on_pool p) = refl
execute_arms-eq (Target.on_connection h) = refl

fetch_arms-eq : (how : Helper) (target : Target) → fetch_arms how target ≡ all_arms 16
fetch_arms-eq fetches_all (Target.on_pool p) = refl
fetch_arms-eq fetches_all (Target.on_connection h) = refl
fetch_arms-eq fetches_one (Target.on_pool p) = refl
fetch_arms-eq fetches_one (Target.on_connection h) = refl
fetch_arms-eq fetches_optional (Target.on_pool p) = refl
fetch_arms-eq fetches_optional (Target.on_connection h) = refl

get_elem?-indices :
    {A : Type 0} (f : ℕ → A) (m n i : ℕ)
    → n < m
    → get_elem? (map f (indices m i)) n ≡ some (f (i + n))
get_elem?-indices f zero n i h = absurd (omega arith)
get_elem?-indices f (suc m) zero i h = ap (λ k. some (f k)) (omega arith)
get_elem?-indices f (suc m) (suc n) i h =
    get_elem?-indices f m n (i + 1) (omega arith) ∙ ap (λ k. some (f k)) (omega arith)

get_elem?-append {ℓ} :
    {A : Type ℓ} (xs ys : List A) (y : A) → get_elem? (xs ++ y ∷ ys) (length xs) ≡ some y
get_elem?-append [] ys y = refl
get_elem?-append (x ∷ xs) ys y = get_elem?-append xs ys y

-- With `done` bound already, the arm for the rest binds the rest.
bind_chain-indices :
    (done todo : List SqliteParam) (n : ℕ)
    → n ≡ length done
    → bind_chain (done ++ todo) (indices (length todo) n) ≡ ok todo
unfolding bind_chain
bind_chain-indices done [] n e = refl
bind_chain-indices done (p ∷ todo) n e =
    let rest : bind_chain (done ++ p ∷ todo) (indices (length todo) (n + 1)) ≡ ok todo =
      rw (← append_assoc done (p ∷ []) todo) (
        bind_chain-indices (done ++ p ∷ []) todo (n + 1)
          (omega (arith, length-append done (p ∷ [])))) in
    ground (arith, get_elem?-append done todo p, rest)

abbrev too_many : Text → List SqliteParam → PyErr
too_many query params =
    PyErr.mapped (SqlxError.too_many_parameters (length params)) (Statement.user query)

-- A table that is as it should be binds all of at least one parameter up to its limit, and no more.
bind_params-all :
    (limit : ℕ) (arms : List (List ℕ)) (query : Text) (p : SqliteParam) (ps : List SqliteParam)
    → arms ≡ all_arms limit
    → bind_params limit arms query (p ∷ ps)
      ≡ (if leb (length (p ∷ ps)) limit then ok (p ∷ ps) else err (too_many query (p ∷ ps)))
unfolding bind_params
bind_params-all limit arms query p ps e = elim (Bool-cases (leb (length (p ∷ ps)) limit)) [
  | inl few ↦ ground (
    arith,
    e,
    get_elem?-indices (λ k. indices (suc k) 0) limit (length ps) 0 (ground (arith, few)),
    bind_chain-indices [] (p ∷ ps) 0 refl,
  )
  | inr many ↦ ground arith
]

abbrev pub within : {A : Type 0} → ℕ → Text → List SqliteParam → (M Connection A) → M Connection A
within limit query params send c = if leb (length params) limit then send c else (
  err (PyErr.mapped (SqlxError.too_many_parameters (length params)) (Statement.user query)),
  c,
)

module _ (env : Env) (target : Target) (query : Text) where
  bind_and_execute-all :
      (params : List SqliteParam) (c : Connection)
      → bind_and_execute env target query params c
        ≡ within 50 query params (do_execute env target (Statement.user query) params) c
  unfolding bind_and_execute bind_query_multiple ◌>>=◌ lift and_then
  bind_and_execute-all [] c = refl
  bind_and_execute-all (p ∷ []) c = refl
  bind_and_execute-all (p ∷ q ∷ ps) c =
      let bound =
        bind_params-all 50 (execute_arms target) query p (q ∷ ps) (execute_arms-eq target) in
      ground (arith, bound)

  bind_and_fetch-all :
      {A : Type 0} (how : Helper) (replies : List Event → Reply A) (params : List SqliteParam)
      (c : Connection)
      → bind_and_fetch replies how target query params c
        ≡ within 16 query params (do_fetch replies target query params) c
  unfolding bind_and_fetch ◌>>=◌ lift and_then
  bind_and_fetch-all how replies [] c = refl
  bind_and_fetch-all how replies (p ∷ ps) c =
      let bound =
        bind_params-all 16 (fetch_arms how target) query p ps (fetch_arms-eq how target) in
      ground (arith, bound)

  -- Every helper that executes sends the statement with all its parameters, in order and once each, when
  -- they are at most 50, and every helper that fetches does so when they are at most 16; with more,
  -- nothing is sent, nothing changes, and the error says how many there were.
  pub bind_lem :
      {A : Type 0} (how : Helper) (replies : List Event → Reply A) (params : List SqliteParam)
      (c : Connection)
      → (bind_and_execute env target query params c
          ≡ within 50 query params (do_execute env target (Statement.user query) params) c)
        × (bind_and_fetch replies how target query params c
            ≡ within 16 query params (do_fetch replies target query params) c)
  bind_lem how replies params c =
      (bind_and_execute-all params c, bind_and_fetch-all how replies params c)

  -- Within the limit, a statement is sent with the parameters that it was given.
  pub bind_and_execute-eq :
      (params : List SqliteParam)
      → length params ≤ max_execute_params
      → (c : Connection)
      → bind_and_execute env target query params c
        ≡ do_execute env target (Statement.user query) params c
  bind_and_execute-eq params h c =
      let few : leb (length params) 50 ≡ true = ground (arith, h) in
      bind_and_execute-all params c ∙ rw few refl

  pub bind_and_fetch-eq :
      {A : Type 0} (how : Helper) (replies : List Event → Reply A) (params : List SqliteParam)
      → length params ≤ max_fetch_params
      → (c : Connection)
      → bind_and_fetch replies how target query params c ≡ do_fetch replies target query params c
  bind_and_fetch-eq how replies params h c =
      let few : leb (length params) 16 ≡ true = ground (arith, h) in
      bind_and_fetch-all how replies params c ∙ rw few refl
