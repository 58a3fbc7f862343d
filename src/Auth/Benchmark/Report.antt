-- ===== src/Auth/Benchmark/Report.antt =====
-- What auth/cmd/benchmark-puzzle/main.go prints of its results: the rows of the table.
use proxy_common.Common.{
  ℕ, zero, suc, ◌-◌, ◌/◌, ◌&&◌, Option, none, some, List, [], ◌∷◌, ◌++◌, ℤ, pos, negsuc, ltb, leb,
  if◌then◌else◌,
}
use proxy_common.Common.Bytes.{Bytes, codes}
use proxy_common.Common.Decimal.{decimal, decimal_ℤ}
use proxy_common.Common.Double.{quotient, seconds, fixed}
use proxy_common.Auth.Benchmark.{BenchmarkParams, BenchmarkResult}

-- the micro sign has two bytes
unfoldable pub format_duration : ℤ → Bytes
unfolding seconds quotient fixed decimal_ℤ
format_duration (negsuc n) = decimal_ℤ (negsuc n) ++ codes "ns"
format_duration (pos d) =
    if ltb d 1_000
    then decimal d ++ codes "ns"
    else if ltb d 1_000_000
    then fixed 1 (quotient d 1_000) ++ 194 ∷ 181 ∷ codes "s"
    else if ltb d 1_000_000_000
    then fixed 1 (quotient (d / 1_000) 1_000) ++ codes "ms"
    else fixed 2 (seconds d) ++ codes "s"

-- The width of a text: the bytes that do not continue a character.
unfoldable pub width : Bytes → ℕ
width [] = 0
width (c ∷ s) = let rest = width s in if leb 128 c && ltb c 192 then rest else suc rest

unfoldable pub spaces : ℕ → Bytes
spaces zero = []
spaces (suc n) = 32 ∷ spaces n

-- `%-10s` for a width of 10
unfoldable pub pad : ℕ → Bytes → Bytes
unfolding width spaces
pad n s = s ++ spaces (n - width s)

-- A row: each cell with its width.
unfoldable pub row : List (ℕ × Bytes) → Bytes
unfolding pad
row [] = codes "|"
row ((n, s) ∷ cells) = codes "| " ++ pad n s ++ codes " " ++ row cells

unfoldable pub header : Bytes
unfolding row
header = row (
    (10, codes "Difficulty")
    ∷ (10, codes "Memory(KB)")
    ∷ (4, codes "Time")
    ∷ (7, codes "Threads")
    ∷ (6, codes "KeyLen")
    ∷ (12, codes "Median")
    ∷ (12, codes "P90")
    ∷ [])

unfoldable pub result_row : BenchmarkParams → ℤ → ℤ → Bytes
unfolding row format_duration
result_row params median percentile90 = row (
    (10, decimal_ℤ params.difficulty)
    ∷ (10, decimal_ℤ params.argon2_config.memory_kb)
    ∷ (4, decimal_ℤ params.argon2_config.time)
    ∷ (7, decimal_ℤ params.argon2_config.threads)
    ∷ (6, decimal_ℤ params.argon2_config.key_len)
    ∷ (12, format_duration median)
    ∷ (12, format_duration percentile90)
    ∷ [])

unfoldable pub add_row :
    (ℤ → ℤ → Bytes) → Option ℤ → Option ℤ → Option (List Bytes) → Option (List Bytes)
add_row line none percentile90 rows = none
add_row line (some median) none rows = none
add_row line (some median) (some percentile90) none = none
add_row line (some median) (some percentile90) (some rows) = some (line median percentile90 ∷ rows)

-- The rows of the results; a result whose statistics panicked has none.
unfoldable pub result_rows : List BenchmarkResult → Option (List Bytes)
unfolding result_row add_row
result_rows [] = some []
result_rows (result ∷ results) =
    add_row (result_row result.params) result.median result.percentile90 (result_rows results)

-- The lines of the table, each without its end.
unfoldable pub table : List BenchmarkResult → Option (List Bytes)
unfolding header result_rows
table results = elim (result_rows results) [
  | none ↦ none
  | some rows ↦ some (
      header
      ∷ codes "|------------|------------|------|---------|--------|--------------|--------------||"
      ∷ rows)
]
