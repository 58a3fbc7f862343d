-- ===== src/Auth/Benchmark.antt =====
-- auth/cmd/benchmark-puzzle/main.go: the runs of the solver and the statistics of their durations,
-- in nanoseconds. `sort.Slice` is a sort by insertion, which gives the same slice of numbers. The
-- lines about the progress and about errors that are printed are left out.
pub mod Order
pub mod Report
pub mod Shown
use proxy_common.Common.{
  get_elem?, ℕ, zero, suc, ◌+◌, ◌-◌, ◌*◌, ◌/◌, ◌%◌, ◌^◌, Option, none, some, List, [], ◌∷◌, ◌++◌,
  map, ℤ, pos, leb_ℤ, quot, ◌==◌, leb, if◌then◌else◌, length, Bool,
}
use proxy_common.Common.Bytes.{Bytes, codes}
use proxy_common.Common.Int64.{add64}
use proxy_common.Common.Double.{quotient}
use proxy_common.Auth.Config.{Argon2Config}
use proxy_common.Auth.Puzzle.{Platform, Moment, generate, solve}

pub record BenchmarkParams : Type 0 where
  pub difficulty : ℤ
  pub argon2_config : Argon2Config

-- A `none` is a panic.
pub record BenchmarkResult : Type 0 where
  pub params : BenchmarkParams
  pub durations : List ℤ
  pub median : Option ℤ
  pub percentile90 : Option ℤ

unfoldable pub insert_sorted : ℤ → List ℤ → List ℤ
insert_sorted d [] = d ∷ []
insert_sorted d (e ∷ ds) =
    let rest = insert_sorted d ds in if leb_ℤ d e then d ∷ e ∷ ds else e ∷ rest

unfoldable pub sort : List ℤ → List ℤ
unfolding insert_sorted
sort [] = []
sort (d ∷ ds) = insert_sorted d (sort ds)

-- `(a + b) / 2` of two elements; an index out of range panics
unfoldable pub middle : Option ℤ → Option ℤ → Option ℤ
middle none b = none
middle (some a) none = none
middle (some a) (some b) = some (quot (add64 a b) 2)

unfoldable pub calculate_median : List ℤ → Option ℤ
unfolding sort get_elem? middle
calculate_median durations =
    let sorted = sort durations in
    let n = length sorted in
    if length durations == 0
    then some (pos 0)
    else if n % 2 == 0
    then middle (get_elem? (n / 2 - 1) sorted) (get_elem? (n / 2) sorted)
    else get_elem? (n / 2) sorted

-- `int(float64(n-1) * percentile / 100.0)`
unfoldable pub percentile_index : ℕ → ℕ → ℕ
unfolding quotient
percentile_index n percentile = quotient (quotient ((n - 1) * percentile) 1) (100 * 2 ^ 96) / 2 ^ 96

-- the element of the sorted copy at an index, or the last one
unfoldable pub element_at : ℕ → List ℤ → Option ℤ
unfolding sort get_elem?
element_at index durations =
    let sorted = sort durations in
    let n = length sorted in
    if length durations == 0
    then some (pos 0)
    else get_elem? (if leb n index then n - 1 else index) sorted

unfoldable pub calculate_percentile : List ℤ → ℕ → Option ℤ
unfolding percentile_index element_at
calculate_percentile durations percentile =
    element_at (percentile_index (length (sort durations)) percentile) durations

-- What one round meets: what `rand.Read` yields, the clock in `Generate` and in `Solve`, and the
-- duration that is measured.
pub record Round : Type 0 where
  pub random : Option Bytes
  pub second_random : Option Bytes
  pub now : Moment
  pub started : Moment
  pub duration : ℤ

module _ (platform : Platform) where
  -- the loop of `runBenchmark`: the durations of the rounds without an error
  unfoldable pub measure : BenchmarkParams → List Round → List ℤ
  measure params [] = []
  measure params (r ∷ rounds) =
      let rest = measure params rounds in
      elim (generate platform r.random r.second_random r.now params.difficulty (pos 5)
        (codes "test-secret-key-for-benchmarking")) [
          | none ↦ rest
          | some p ↦ elim (solve platform r.started.instant p params.argon2_config) [
            | none ↦ rest
            | some s ↦ r.duration ∷ rest
          ]
        ]

  unfoldable pub run_benchmark : BenchmarkParams → List Round → BenchmarkResult
  unfolding measure calculate_median calculate_percentile
  run_benchmark params rounds =
      let durations = measure params rounds in
      record {
        params = params;
        durations = durations;
        median = calculate_median durations;
        percentile90 = calculate_percentile durations 90;
      }

abbrev pub benchmark_params : ℤ → ℤ → BenchmarkParams
benchmark_params difficulty memory_kb = record {
  difficulty = difficulty;
  argon2_config = record { memory_kb = memory_kb; time = pos 4; threads = pos 4; key_len = pos 32 };
}

-- the configurations of `main`
abbrev pub configs : List BenchmarkParams
configs =
    benchmark_params (pos 1) (pos 16)
    ∷ benchmark_params (pos 2) (pos 16)
    ∷ benchmark_params (pos 3) (pos 16)
    ∷ benchmark_params (pos 1) (pos 64)
    ∷ benchmark_params (pos 2) (pos 64)
    ∷ benchmark_params (pos 3) (pos 64)
    ∷ []

-- the loop of `main`, on the rounds of each configuration
unfoldable pub main : Platform → (BenchmarkParams → List Round) → List BenchmarkResult
unfolding run_benchmark
main platform rounds = map (λ params. run_benchmark platform params (rounds params)) configs
