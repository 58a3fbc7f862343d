-- ===== src/Auth/Server/Limit.antt =====
-- The limit of a token over any requests to a server (auth/server/server.go), the solutions that are
-- sent again included.
use Prim.Native.Nat.{min}
use proxy_common.Common.{
  ℕ, suc, ◌-◌, ◌<◌, ◌^◌, ◌≡◌, ◌≢◌, refl, ap, subst, ◌∙◌, Bool, false, Option, none, some, List, [],
  ◌∷◌, arith, pos, ◌&&◌, if◌then◌else◌, Option-cases, inl, inr, ltb, ◌==◌,
}
use proxy_common.Common.Bytes.{Bytes, bytes_has_eq}
use proxy_common.Common.GoMap.{lookup, lookup_or}
use proxy_common.Auth.Config.{Config}
use proxy_common.Auth.Puzzle.{Platform, Moment}
use proxy_common.Auth.Jwt.{Library}
use proxy_common.Auth.Handlers.{Handlers, new, verify_handler}
use proxy_common.Auth.Handlers.Issue.{SolveRequest, issue_token, solve_fields, solve_handler}
use proxy_common.Auth.Handlers.Verify.{request_id, is_token, verify_handler_lem}
use proxy_common.Auth.Handlers.Limit.{count_if, tally, Counts, keep_config, Respond-Step}
use proxy_common.Auth.Server.{
  Endpoint, Mux, puzzle_endpoint, solve_endpoint, verify_endpoint, status_endpoint,
  test_solve_endpoint, metrics_endpoint,
}
use proxy_common.Auth.Server.Serving.{
  Request, Reply, handle, serve_http, puzzle_reply, solve_reply, verify_reply, status_reply,
  test_solve_reply, metrics_reply, not_found,
}

-- `SolveHandler` reports to the metrics, and leaves all else as it was.
module _ (platform : Platform) (lib : Library) where
  issue_token-kept :
      (now : Moment) (req : SolveRequest) (h : Handlers)
      → ((issue_token platform lib now req h).1.config ≡ h.config)
        × ((issue_token platform lib now req h).1.token_usage ≡ h.token_usage)
  unfolding issue_token
  issue_token-kept now req h = ground arith

  solve_handler-kept :
      (now : Moment) (body : Option SolveRequest) (h : Handlers)
      → ((solve_handler platform lib now body h).1.config ≡ h.config)
        × ((solve_handler platform lib now body h).1.token_usage ≡ h.token_usage)
  unfolding solve_handler solve_fields
  solve_handler-kept now none h = (refl, refl)
  solve_handler-kept now (some req) h = ground (arith, issue_token-kept now req h)

module _ (platform : Platform) (lib : Library) (mux : Mux) (id secret : Bytes) where
  -- whether a request goes to `VerifyHandler` and presents the token `id`
  unfoldable pub presents : Option Endpoint → Request → Bool
  presents (some verify_endpoint) r = is_token id (request_id lib r.now.instant r.token secret)
  presents none r = false
  presents (some puzzle_endpoint) r = false
  presents (some solve_endpoint) r = false
  presents (some status_endpoint) r = false
  presents (some test_solve_endpoint) r = false
  presents (some metrics_endpoint) r = false

  unfoldable pub is_let_through : Reply → Bool
  is_let_through (verify_reply v) = v.status == 200
  is_let_through (puzzle_reply v) = false
  is_let_through (solve_reply v) = false
  is_let_through (status_reply v) = false
  is_let_through (test_solve_reply v) = false
  is_let_through metrics_reply = false
  is_let_through not_found = false

  -- how many of the requests present the token
  unfoldable pub presented_to : List Request → ℕ
  unfolding presents
  presented_to [] = 0
  presented_to (r ∷ rs) = count_if (presents (lookup r.path mux) r) (presented_to rs)

  -- how many of those are let through
  unfoldable pub let_through : List Request → Handlers → ℕ
  unfolding presents is_let_through
  let_through [] h = 0
  let_through (r ∷ rs) h =
      let (reply, h') = serve_http platform lib mux r h in
      count_if (presents (lookup r.path mux) r && is_let_through reply) (let_through rs h')

  module _ (n : ℕ) (nonempty : id ≢ []) (sized : n < 2 ^ 63) where
    -- one request: whether it is let through, and the count behind it
    record OneStep (k : ℕ) (present : Bool) (reply : Reply) (h' : Handlers) : Type 0 where
      verdict : (present && is_let_through reply) ≡ (present && ltb k n)
      counts : Counts lib id h' secret n (if present && ltb k n then suc k else k)

    handle-OneStep :
        (endpoint : Endpoint) (r : Request) (h : Handlers) (k : ℕ)
        → Counts lib id h secret n k
        → OneStep k
            (presents (some endpoint) r)
            (handle platform lib endpoint r h).0
            (handle platform lib endpoint r h).1
    unfolding handle presents is_let_through
    handle-OneStep puzzle_endpoint r h k c = record { verdict = refl; counts = c }
    handle-OneStep status_endpoint r h k c = record { verdict = refl; counts = c }
    handle-OneStep test_solve_endpoint r h k c = record { verdict = refl; counts = c }
    handle-OneStep metrics_endpoint r h k c = record { verdict = refl; counts = c }
    handle-OneStep solve_endpoint r h k c =
        let (config, kept) = solve_handler-kept platform lib r.now r.body h in
        record {
          verdict = refl;
          counts =
              keep_config lib id h secret n k nonempty sized c _ k config
                (ap (lookup_or (pos 0) id) kept ∙ c.used) c.within;
        }
    handle-OneStep verify_endpoint r h k c =
        let step =
          Respond-Step lib id h secret n k nonempty sized c
            (request_id lib r.now.instant r.token h.config.jwt_secret) _ _
            (verify_handler_lem lib r.now.instant r.token h) in
        let same = ap (λ x. is_token id (request_id lib r.now.instant r.token x)) c.secret_kept in
        let (response, h') = verify_handler lib r.now.instant r.token h in
        record {
          verdict = subst (λ p. (p && (response.status == 200)) ≡ (p && ltb k n)) same step.verdict;
          counts =
              subst (λ p. Counts lib id h' secret n (if p && ltb k n then suc k else k)) same
                step.counts;
        }

    serve_http-OneStep :
        (r : Request) (h : Handlers) (k : ℕ)
        → Counts lib id h secret n k
        → OneStep k
            (presents (lookup r.path mux) r)
            (serve_http platform lib mux r h).0
            (serve_http platform lib mux r h).1
    unfolding serve_http presents is_let_through
    serve_http-OneStep r h k c = elim (Option-cases (lookup r.path mux)) [
      | inl missing ↦ rw (missing, serve_http, presents) (record { verdict = refl; counts = c })
      | inr (endpoint, found) ↦ rw (found, serve_http) (handle-OneStep endpoint r h k c)
    ]

    let_through_lem :
        (rs : List Request) (h : Handlers) (k : ℕ)
        → Counts lib id h secret n k
        → let_through rs h ≡ min (presented_to rs) (n - k)
    unfolding let_through presented_to
    let_through_lem [] h k c = omega arith
    let_through_lem (r ∷ rs) h k c =
        let step = serve_http-OneStep r h k c in
        rw (step.verdict, let_through_lem rs (serve_http platform lib mux r h).1 _ step.counts)
          (tally (presents (lookup r.path mux) r) (presented_to rs) n k c.within)

-- From fresh handlers and over any requests to the routes of a server, solutions that are sent again
-- included: the number of requests with a token `id` that are let through is the number of requests
-- to `VerifyHandler` that present it, up to the limit of the configuration. The identity is not
-- empty, and the limit is an `int` that is not negative.
pub let_through-min :
    (platform : Platform) (lib : Library) (mux : Mux) (cfg : Config) (id : Bytes) (n : ℕ)
    (rs : List Request)
    → id ≢ []
    → cfg.requests_per_token ≡ pos n
    → n < 2 ^ 63
    → let_through platform lib mux id cfg.jwt_secret rs (new cfg)
      ≡ min (presented_to platform lib mux id cfg.jwt_secret rs) n
unfolding new lookup
let_through-min platform lib mux cfg id n rs nonempty limit sized =
    let_through_lem platform lib mux id cfg.jwt_secret n nonempty sized rs (new cfg) 0
      (record { secret_kept = refl; limit = limit; used = refl; within = omega arith })
    ∙ omega arith
