-- ===== src/Sql.antt =====
-- src/utils.rs: the tests and the normal form of query texts.
pub mod Words
pub mod Normal
pub mod Cache
use rapsqlite.Prelude.{
  ℕ, zero, suc, ◌+◌, ◌%◌, ◌^◌, Bool, true, false, ◌||◌, ◌&&◌, List, [], ◌∷◌, ◌++◌, Text, ◌==◌,
  if◌then◌else◌, text_eq, starts_with, codes,
}
use rapsqlite.Chars.{CharTables, is_whitespace, to_uppercase}

unfoldable pub trim_start : Text → Text
unfolding is_whitespace
trim_start [] = []
trim_start (c ∷ cs) = let rest = trim_start cs in if is_whitespace c then rest else c ∷ cs

unfoldable pub trim_end : Text → Text
unfolding is_whitespace
trim_end [] = []
trim_end (c ∷ cs) = elim (trim_end cs) [
  | [] ↦ if is_whitespace c then [] else c ∷ []
  | d ∷ ds ↦ c ∷ d ∷ ds
]

-- `str::trim`.
unfoldable pub trim : Text → Text
unfolding trim_start trim_end
trim t = trim_end (trim_start t)

unfoldable pub uppercase : CharTables → Text → Text
unfolding to_uppercase
uppercase tables [] = []
uppercase tables (c ∷ cs) = to_uppercase tables c ++ uppercase tables cs

unfoldable pub is_select_query : CharTables → Text → Bool
unfolding trim uppercase starts_with
is_select_query tables query =
    let trimmed = uppercase tables (trim query) in
    starts_with trimmed (codes "SELECT") || starts_with trimmed (codes "WITH")

-- The fold over the characters: the text so far, and whether the last one was a space.
unfoldable pub fold_spaces : Text → Bool → Text → Text
unfolding is_whitespace
fold_spaces acc was_space [] = acc
fold_spaces acc was_space (c ∷ cs) =
    let is_space = is_whitespace c in
    fold_spaces
      (if is_space && was_space then acc else if is_space then acc ++ b' ' ∷ [] else acc ++ c ∷ [])
      is_space cs

unfoldable pub normalize_query : Text → Text
unfolding trim fold_spaces
normalize_query query = fold_spaces [] false (trim query)

-- `*cache.entry(normalized).or_insert(0) += 1`, on the entries in some order. The `u64` wraps, as in a
-- build without overflow checks.
unfoldable pub count_entry : Text → List (Text × ℕ) → List (Text × ℕ)
count_entry k [] = (k, 1) ∷ []
count_entry k ((j, n) ∷ m) =
    if text_eq j k then (j, (n + 1) % 2 ^ 64) ∷ m else (j, n) ∷ count_entry k m

unfoldable pub track_query_usage : Text → List (Text × ℕ) → List (Text × ℕ)
unfolding normalize_query count_entry
track_query_usage query cache = count_entry (normalize_query query) cache
