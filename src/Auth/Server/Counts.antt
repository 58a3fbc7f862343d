-- ===== src/Auth/Server/Counts.antt =====
-- The Prometheus counters of a server (auth/metrics/metrics.go) against its replies.
use proxy_common.Common.{
  ℕ, suc, ◌+◌, ◌≡◌, ap, ◌∙◌, Bool, Option-cases, inl, inr, List, [], ◌∷◌, ◌++◌, arith,
  if◌then◌else◌,
}
use proxy_common.Common.Bytes.{bytes_has_eq}
use proxy_common.Common.GoMap.{lookup}
use proxy_common.Common.Samples.{Series, increments, increments-append}
use proxy_common.Auth.Puzzle.{Platform}
use proxy_common.Auth.Jwt.{Library}
use proxy_common.Auth.Handlers.{Handlers, Metric}
use proxy_common.Auth.Handlers.Issue.{HttpResult, TokenResponse}
use proxy_common.Auth.Metrics.{new_prometheus_metrics, samples, report}
use proxy_common.Auth.Metrics.Outcomes.{
  VerifyCalls, SolveCalls, verify_handler-Appends, solve_handler-Appends,
}
use proxy_common.Auth.Server.{
  Endpoint, Mux, puzzle_endpoint, solve_endpoint, verify_endpoint, status_endpoint,
  test_solve_endpoint, metrics_endpoint,
}
use proxy_common.Auth.Server.Serving.{
  Request, Reply, handle, serve_http, serve_all, puzzle_reply, solve_reply, verify_reply,
  status_reply, test_solve_reply, metrics_reply, not_found,
}

-- the value of a counter after the calls of some handlers
abbrev pub counter : Series → List Metric → ℕ
counter s metrics = increments s (samples new_prometheus_metrics metrics)

pub counter-append :
    (s : Series) (xs ys : List Metric) → counter s (xs ++ ys) ≡ counter s xs + counter s ys
unfolding samples increments
counter-append s [] ys = omega arith
counter-append s (x ∷ xs) ys = omega (
  arith,
  counter-append s xs ys,
  increments-append s (report new_prometheus_metrics x) (samples new_prometheus_metrics xs),
  increments-append s (report new_prometheus_metrics x) (samples new_prometheus_metrics (xs ++ ys)),
)

-- What a counter may count: answers of `SolveHandler` and of `VerifyHandler`.
pub record Event : Type 0 where
  pub solve : HttpResult TokenResponse → Bool
  pub verify : ℕ → Bool

-- how many of the replies are such answers
unfoldable pub replied : Event → List Reply → ℕ
replied e [] = 0
replied e (solve_reply r ∷ rs) = let n = replied e rs in if e.solve r then suc n else n
replied e (verify_reply r ∷ rs) = let n = replied e rs in if e.verify r.status then suc n else n
replied e (puzzle_reply r ∷ rs) = replied e rs
replied e (status_reply r ∷ rs) = replied e rs
replied e (test_solve_reply r ∷ rs) = replied e rs
replied e (metrics_reply ∷ rs) = replied e rs
replied e (not_found ∷ rs) = replied e rs

-- A counter counts an event: the calls of each answer increment it once or not at all.
pub record Counts (s : Series) (e : Event) : Type 0 where
  pub solve :
      (r : HttpResult TokenResponse) (calls : List Metric)
      → SolveCalls r calls
      → counter s calls ≡ (if e.solve r then 1 else 0)
  pub verify :
      (n : ℕ) (calls : List Metric)
      → VerifyCalls n calls
      → counter s calls ≡ (if e.verify n then 1 else 0)

module _ (platform : Platform) (lib : Library) (mux : Mux) (s : Series) (e : Event)
    (counts : Counts s e) where
  handle-counts :
      (endpoint : Endpoint) (r : Request) (h : Handlers)
      → counter s (handle platform lib endpoint r h).1.metrics
        ≡ counter s h.metrics + replied e ((handle platform lib endpoint r h).0 ∷ [])
  unfolding handle replied
  handle-counts puzzle_endpoint r h = omega arith
  handle-counts solve_endpoint r h =
      let made = solve_handler-Appends platform lib r.now r.body h in
      let n = counts.solve _ made.calls made.kind in
      rw made.appended (counter-append s h.metrics made.calls ∙ ap (◌+◌ (counter s h.metrics)) n)
  handle-counts verify_endpoint r h =
      let made = verify_handler-Appends lib r.now.instant r.token h in
      let n = counts.verify _ made.calls made.kind in
      rw made.appended (counter-append s h.metrics made.calls ∙ ap (◌+◌ (counter s h.metrics)) n)
  handle-counts status_endpoint r h = omega arith
  handle-counts test_solve_endpoint r h = omega arith
  handle-counts metrics_endpoint r h = omega arith

  replied-cons :
      (x : Reply) (xs : List Reply) → replied e (x ∷ xs) ≡ replied e (x ∷ []) + replied e xs
  unfolding replied
  replied-cons (solve_reply r) xs = ground arith
  replied-cons (verify_reply r) xs = ground arith
  replied-cons (puzzle_reply r) xs = omega arith
  replied-cons (status_reply r) xs = omega arith
  replied-cons (test_solve_reply r) xs = omega arith
  replied-cons metrics_reply xs = omega arith
  replied-cons not_found xs = omega arith

  serve_http-counts :
      (r : Request) (h : Handlers)
      → counter s (serve_http platform lib mux r h).1.metrics
        ≡ counter s h.metrics + replied e ((serve_http platform lib mux r h).0 ∷ [])
  unfolding serve_http
  serve_http-counts r h = elim (Option-cases (lookup r.path mux)) [
    | inl missing ↦ rw (missing, serve_http) (unfold replied in omega arith)
    | inr (endpoint, found) ↦ rw (found, serve_http) (handle-counts endpoint r h)
  ]

  pub serve_all-counts :
      (rs : List Request) (h : Handlers)
      → counter s (serve_all platform lib mux rs h).1.metrics
        ≡ counter s h.metrics + replied e (serve_all platform lib mux rs h).0
  unfolding serve_all
  serve_all-counts [] h = unfold replied in omega arith
  serve_all-counts (r ∷ rs) h =
      let (reply, h') = serve_http platform lib mux r h in
      omega (
        arith,
        serve_http-counts r h,
        serve_all-counts rs h',
        replied-cons reply (serve_all platform lib mux rs h').0,
      )
