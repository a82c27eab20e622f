-- ===== src/Tests/Texts.antt =====
-- Query texts and rows at concrete values.
use rapsqlite.Prelude.{
  ℕ, ◌≡◌, refl, List, [], ◌∷◌, ◌++◌, ◌==◌, some, none, starts_with, if◌then◌else◌, is_some, Text,
  codes, length, arith, get_elem?, map, text_eq,
}
use rapsqlite.Outcome.{ok}
use rapsqlite.Params.{process_named_parameters}
use rapsqlite.Params.Substitute.{substitute}
use rapsqlite.Params.Named.{process_named_parameters_lem}
use rapsqlite.Sql.{normalize_query, track_query_usage}
use rapsqlite.Sql.Words.{words, unwords}
use rapsqlite.Sql.Normal.{normalize_query_lem}
use rapsqlite.Sql.Cache.{uses, track_query_usage_lem}
use rapsqlite.RapRow
use rapsqlite.RapRow.{RapRow, Key, get_item, contains_key, items, len}
use rapsqlite.RapRow.Printing.{row_text}
use rapsqlite.Pool.Message.{pool_acquisition_error, advice}
use rapsqlite.Chars.{utf8_width}
use rapsqlite.RapRow.Access.{first, or_key_error, or_index_error, get_item_lem}
use rapsqlite.Tests.{py, tables}

abbrev named : Text
named = codes "UPDATE t SET a = :to WHERE id=@id"

process_named_parameters_lem_example :
    process_named_parameters py tables named ((codes "id", 7) ∷ (codes "to", 8) ∷ [])
    ≡ substitute py tables ((codes "id", 7) ∷ (codes "to", 8) ∷ []) (length named) named
process_named_parameters_lem_example =
    process_named_parameters_lem py tables ((codes "id", 7) ∷ (codes "to", 8) ∷ []) named
      (ground arith)

abbrev spaced_query : Text
spaced_query = codes "  SELECT  1 \n FROM t "

normalize_query_lem_example : normalize_query spaced_query ≡ unwords (words spaced_query)
normalize_query_lem_example = normalize_query_lem spaced_query

track_query_usage_lem_example :
    uses (codes "SELECT 1") (track_query_usage (codes " SELECT  1") ((codes "SELECT 1", 4) ∷ []))
    ≡ 5
unfolding normalize_query text_eq
track_query_usage_lem_example =
    track_query_usage_lem (codes " SELECT  1") (codes "SELECT 1") ((codes "SELECT 1", 4) ∷ [])

abbrev columns : List Text
columns = codes "id" ∷ codes "id" ∷ []

abbrev row : RapRow ℕ
row = record { columns = columns; values = 5 ∷ 6 ∷ [] }

new-row : RapRow.new columns (5 ∷ 6 ∷ []) ≡ ok row
unfolding RapRow.new
new-row = refl

get_item_lem_example :
    ((n : Text) → get_item row (Key.name n) ≡ or_key_error n (first n (items row)))
    × ((n : Text) → contains_key row (Key.name n) ≡ is_some (first n (items row)))
    × ((i : ℕ)
        → get_item row (Key.index i) ≡ or_index_error i (get_elem? (map (λ p. p.1) (items row)) i))
    × ((i : ℕ)
        → contains_key row (Key.index i) ≡ is_some (get_elem? (map (λ p. p.1) (items row)) i))
    × (len row ≡ length (items row))
get_item_lem_example = get_item_lem columns (5 ∷ 6 ∷ []) row new-row

-- The second value raises in `repr`.
row_in_text :
    row_text (λ (n : ℕ). if n == 5 then some (codes "five") else none) row
    ≡ codes "Row(id=five, id=?)"
unfolding row_text
row_in_text = refl

timeout_message :
    pool_acquisition_error (codes "a.db") (codes "pool timed out") (some 12) none
    ≡ codes "Failed to acquire connection from pool at a.db: pool timed out"
      ++ advice (some 12) none
unfolding pool_acquisition_error starts_with utf8_width
timeout_message = refl
