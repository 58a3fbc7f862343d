-- ===== src/Tests/Benchmarks.antt =====
-- Runs of the command auth/cmd/benchmark-puzzle/main.go.
use proxy_common.Common.{arith, ◌≡◌, refl, ◌∷◌, ◌++◌, pos}
use proxy_common.Common.Bytes.{codes}
use proxy_common.Auth.Benchmark.{benchmark_params}
use proxy_common.Auth.Benchmark.Shown.{IsShown, format_duration-IsShown}
use proxy_common.Auth.Benchmark.Report.{format_duration, result_row}

-- Halves that a double represents go to the even digit; 1.15 has a double below it.
format_micro : format_duration (pos 1_250) ≡ codes "1.2" ++ 194 ∷ 181 ∷ codes "s"
unfolding format_duration
format_micro = refl

format_micro_below : format_duration (pos 1_150) ≡ codes "1.1" ++ 194 ∷ 181 ∷ codes "s"
unfolding format_duration
format_micro_below = refl

format_milli : format_duration (pos 999_951_000) ≡ codes "1000.0ms"
unfolding format_duration
format_milli = refl

format_seconds : format_duration (pos 61_239_000_000) ≡ codes "61.24s"
unfolding format_duration
format_seconds = refl

row_of_result :
    result_row (benchmark_params (pos 1) (pos 16)) (pos 1_250) (pos 7)
    ≡ codes "| 1          | 16         | 4    | 4       | 32     | 1.2"
      ++ 194 ∷ 181 ∷ codes "s        | 7ns          |"
unfolding result_row
row_of_result = refl

format_duration-IsShown_example : IsShown 61_239_000_000 (format_duration (pos 61_239_000_000))
format_duration-IsShown_example = format_duration-IsShown 61_239_000_000 (omega arith)
