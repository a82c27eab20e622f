-- ===== src/Sql/Cache.antt =====
-- The cache counts each normal form on its own.
use rapsqlite.Prelude.{
  ℕ, ◌+◌, ◌%◌, ◌^◌, ◌≡◌, ap, true, Bool-cases, inl, inr, List, [], ◌∷◌, Text, text_eq, text_eq_iff,
  if◌then◌else◌, arith,
}
use rapsqlite.Sql.{count_entry, track_query_usage, normalize_query}

-- How often a normal form was counted.
abbrev pub uses : Text → List (Text × ℕ) → ℕ
uses k [] = 0
uses k ((j, n) ∷ m) = if text_eq j k then n else uses k m

same_key : (j k l : Text) → text_eq j k ≡ true → text_eq j l ≡ text_eq k l
same_key j k l e = ap (λ (t : Text). text_eq t l) ((text_eq_iff j k).0 e)

uses-count_entry :
    (k l : Text) (m : List (Text × ℕ))
    → uses l (count_entry k m) ≡ (if text_eq k l then (1 + uses l m) % 2 ^ 64 else uses l m)
unfolding count_entry
uses-count_entry k l [] = ground arith
uses-count_entry k l ((j, n) ∷ m) = elim (Bool-cases (text_eq j k)) [
  | inl e ↦ ground (arith, same_key j k l e)
  | inr e ↦ elim (Bool-cases (text_eq j l)) [
    | inl f ↦ ground (arith, same_key j l k f, text_eq_iff k l, text_eq_iff l k)
    | inr f ↦ ground (arith, uses-count_entry k l m)
  ]
]

-- Tracking a query adds one, modulo 2 ^ 64, to the count of its normal form and leaves every other count.
pub track_query_usage_lem :
    (query l : Text) (cache : List (Text × ℕ))
    → uses l (track_query_usage query cache)
      ≡ (if text_eq (normalize_query query) l then (1 + uses l cache) % 2 ^ 64 else uses l cache)
unfolding track_query_usage
track_query_usage_lem query l cache = uses-count_entry (normalize_query query) l cache
