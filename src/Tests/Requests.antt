-- ===== src/Tests/Requests.antt =====
-- Runs of the retries (httpclient/client.go).
use proxy_common.Common.{
  ◌⊎◌, ◌<◌, ◌≤◌, ℕ, zero, suc, ◌+◌, ◌-◌, ◌*◌, ◌/◌, ◌^◌, ◌≡◌, ◌≢◌, refl, none, some, Option, true,
  List, [], ◌∷◌, ◌++◌, arith, ℤ, pos, length,
}
use proxy_common.Common.Bytes.{Bytes, codes}
use proxy_common.HttpClient.{
  RateLimiter, Outside, try_request, wait_limiter, pause, panicked, default_retry_options,
  execute_request, calculate_backoff_with_jitter,
}
use proxy_common.HttpClient.Backoff.{calculate_backoff_lem}
use proxy_common.HttpClient.Retries.{Ends, execute_request_lem}
use proxy_common.HttpClient.Pauses.{AreBackoffs, total, IsLog, execute_request_pauses}

-- the requests that were made, and the pauses
abbrev World : Type 0
World = ℕ × List ℤ

-- a server that cannot be reached, then is overloaded, and then answers
abbrev replies : ℕ → Option (ℕ × Option Bytes)
replies zero = none
replies (suc zero) = some (503, some [])
replies (suc (suc n)) = some (200, some (codes "ok"))

abbrev flaky : Outside World
flaky = record {
  exchange = λ (w : World). (replies w.0, (suc w.0, w.1));
  sleep = λ d (w : World). (w.0, w.1 ++ d ∷ []);
  draw = λ (w : World). (λ (bound : ℕ). bound / 2, w);
}

-- a limiter that lets every request through
abbrev open_limiter : RateLimiter World
open_limiter = some (λ (w : World). some (λ (w : World). (true, w)))

execute_request_example :
    Ends
      (try_request open_limiter flaky)
      (pause flaky (pos 1_000_000_000))
      3
      0
      (0, [])
      (execute_request open_limiter flaky default_retry_options (0, []))
execute_request_example =
    execute_request_lem open_limiter flaky default_retry_options 3 (0, []) refl

flaky-IsLog : IsLog open_limiter flaky (λ (w : World). w.1)
unfolding try_request wait_limiter
flaky-IsLog = record {
  try_slept = λ w. refl;
  draw_slept = λ w. refl;
  sleep_slept = λ d w. refl;
  draw_small = λ w k. omega arith;
}

execute_request_pauses_example :
    (pauses : List ℤ) × ((execute_request open_limiter flaky default_retry_options (0, [])).2.1
      ≡ [] ++ pauses)
    × AreBackoffs 1_000_000_000 0 pauses
    × (length pauses ≤ 3 - 1)
    × (2 * total pauses + 3 * 1_000_000_000 ≤ 3 * (2 ^ length pauses * 1_000_000_000))
    × ((execute_request open_limiter flaky default_retry_options (0, [])).0 ≢ panicked)
execute_request_pauses_example =
    execute_request_pauses open_limiter flaky (λ (w : World). w.1) default_retry_options 3
      1_000_000_000 (0, []) flaky-IsLog refl refl (omega arith) (omega arith)

calculate_backoff_example :
    ((2 ^ 2 * 1_000_000_000 < 2)
      × (calculate_backoff_with_jitter (λ bound. bound / 2) (pos 1_000_000_000) (pos 3) ≡ none))
    ⊎ ((d : ℕ) × (calculate_backoff_with_jitter (λ bound. bound / 2) (pos 1_000_000_000) (pos 3)
          ≡ some (pos (2 ^ 2 * 1_000_000_000 + d)))
        × (d < 2 ^ 2 * 1_000_000_000 / 2))
calculate_backoff_example =
    calculate_backoff_lem (λ bound. bound / 2) 1_000_000_000 2 (λ k. omega arith) (omega arith)
