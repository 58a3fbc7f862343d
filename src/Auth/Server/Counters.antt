-- ===== src/Auth/Server/Counters.antt =====
-- What the Prometheus counters of auth/metrics/metrics.go say of the replies of a server.
use proxy_common.Common.{ℕ, ◌≡◌, refl, Bool, true, false, List, arith, ◌==◌, if◌then◌else◌}
use proxy_common.Common.Bytes.{codes, bytes_eq, bytes_has_eq}
use proxy_common.Common.Samples.{Series, series_eq, vec_eq, labels_eq, increments}
use proxy_common.Auth.Config.{Config}
use proxy_common.Auth.Puzzle.{Platform}
use proxy_common.Auth.Jwt.{Library}
use proxy_common.Auth.Handlers.{Metric, new}
use proxy_common.Auth.Handlers.Issue.{HttpResult, http_ok, http_error, TokenResponse}
use proxy_common.Auth.Metrics.{
  new_prometheus_metrics, samples, report, tokens_issued_total, puzzles_solved_total,
  puzzle_attempts_total, token_verifications_total,
}
use proxy_common.Auth.Metrics.Outcomes.{
  VerifyCalls, SolveCalls, missing_token, invalid_token, rate_limited, success, invalid_request,
  missing_fields, invalid_expiry, expired, invalid_solution, unsigned, issued,
}
use proxy_common.Auth.Server.{Mux}
use proxy_common.Auth.Server.Serving.{Request, serve_all}
use proxy_common.Auth.Server.Counts.{counter, Event, replied, Counts, serve_all-counts}

abbrev pub is_issued : HttpResult TokenResponse → Bool
is_issued (http_ok r) = true
is_issued (http_error n) = false

abbrev pub is_solved : HttpResult TokenResponse → Bool
is_solved (http_ok r) = true
is_solved (http_error n) = n == 500

abbrev pub Solve : (HttpResult TokenResponse → Bool) → Event
Solve test = record { solve = test; verify = λ n. false }

abbrev pub Verify : ℕ → Event
Verify status = record { solve = λ r. false; verify = λ n. n == status }

abbrev pub attempts : Series
attempts = puzzle_attempts_total (codes "success")

abbrev pub success_verifications : Series
success_verifications = token_verifications_total (codes "success")

abbrev pub limited_verifications : Series
limited_verifications = token_verifications_total (codes "rate_limited")

-- what the calls of an answer of `SolveHandler` add to each counter
solve_adds :
    (r : HttpResult TokenResponse) (calls : List Metric)
    → SolveCalls r calls
    → (counter tokens_issued_total calls ≡ (if is_issued r then 1 else 0))
      × (counter puzzles_solved_total calls ≡ (if is_solved r then 1 else 0))
      × (counter attempts calls ≡ (if is_solved r then 1 else 0))
      × (counter success_verifications calls ≡ 0)
      × (counter limited_verifications calls ≡ 0)
unfolding increments samples report new_prometheus_metrics series_eq vec_eq labels_eq bytes_eq
solve_adds r calls invalid_request = (refl, refl, refl, refl, refl)
solve_adds r calls missing_fields = (refl, refl, refl, refl, refl)
solve_adds r calls invalid_expiry = (refl, refl, refl, refl, refl)
solve_adds r calls expired = (refl, refl, refl, refl, refl)
solve_adds r calls invalid_solution = (refl, refl, refl, refl, refl)
solve_adds r calls unsigned = (refl, refl, refl, refl, refl)
solve_adds r calls (issued response) = (refl, refl, refl, refl, refl)

-- what the calls of a status of `VerifyHandler` add to each counter
verify_adds :
    (n : ℕ) (calls : List Metric)
    → VerifyCalls n calls
    → (counter tokens_issued_total calls ≡ 0)
      × (counter puzzles_solved_total calls ≡ 0)
      × (counter attempts calls ≡ 0)
      × (counter success_verifications calls ≡ (if n == 200 then 1 else 0))
      × (counter limited_verifications calls ≡ (if n == 429 then 1 else 0))
unfolding increments samples report new_prometheus_metrics series_eq vec_eq labels_eq bytes_eq
verify_adds n calls missing_token = (refl, refl, refl, refl, refl)
verify_adds n calls invalid_token = (refl, refl, refl, refl, refl)
verify_adds n calls rate_limited = (refl, refl, refl, refl, refl)
verify_adds n calls success = (refl, refl, refl, refl, refl)

-- From fresh handlers and over any requests, the counter of issued tokens is the number of replies
-- with a token; the counters of solved puzzles and of successful attempts are both the number of
-- those and of the replies 500 of `SolveHandler`; the counters of successful and of limited
-- verifications are the numbers of the replies 200 and 429 of `VerifyHandler`.
pub serve_all-counters :
    (platform : Platform) (lib : Library) (mux : Mux) (cfg : Config) (rs : List Request)
    → (let (replies, h) = serve_all platform lib mux rs (new cfg) in
        (counter tokens_issued_total h.metrics ≡ replied (Solve is_issued) replies)
        × (counter puzzles_solved_total h.metrics ≡ replied (Solve is_solved) replies)
        × (counter attempts h.metrics ≡ replied (Solve is_solved) replies)
        × (counter success_verifications h.metrics ≡ replied (Verify 200) replies)
        × (counter limited_verifications h.metrics ≡ replied (Verify 429) replies))
unfolding new samples increments
serve_all-counters platform lib mux cfg rs =
    let count : (s : Series) (e : Event)
        → Counts s e
        → counter s (serve_all platform lib mux rs (new cfg)).1.metrics
          ≡ replied e (serve_all platform lib mux rs (new cfg)).0 =
      λ s e c. omega (arith, serve_all-counts platform lib mux s e c rs (new cfg)) in
    (
      count tokens_issued_total (Solve is_issued) (record {
        solve = λ r calls k. (solve_adds r calls k).0;
        verify = λ n calls k. (verify_adds n calls k).0;
      }),
      count puzzles_solved_total (Solve is_solved) (record {
        solve = λ r calls k. (solve_adds r calls k).1;
        verify = λ n calls k. (verify_adds n calls k).1;
      }),
      count attempts (Solve is_solved) (record {
        solve = λ r calls k. (solve_adds r calls k).2;
        verify = λ n calls k. (verify_adds n calls k).2;
      }),
      count success_verifications (Verify 200) (record {
        solve = λ r calls k. (solve_adds r calls k).3;
        verify = λ n calls k. (verify_adds n calls k).3;
      }),
      count limited_verifications (Verify 429) (record {
        solve = λ r calls k. (solve_adds r calls k).4;
        verify = λ n calls k. (verify_adds n calls k).4;
      }),
    )
