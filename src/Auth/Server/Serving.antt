-- ===== src/Auth/Server/Serving.antt =====
-- `ServeHTTP` of auth/server/server.go: a request goes to the handler of its path.
use proxy_common.Common.{Option, none, some, List, [], ◌∷◌, ℤ}
use proxy_common.Common.Bytes.{Bytes, bytes_has_eq}
use proxy_common.Common.GoMap.{lookup}
use proxy_common.Auth.Puzzle.{Platform, Moment}
use proxy_common.Auth.Jwt.{Library}
use proxy_common.Auth.Handlers.{Handlers, VerifyRequest, VerifyResponse, verify_handler}
use proxy_common.Auth.Handlers.Issue.{
  HttpResult, PuzzleResponse, SolveRequest, TokenResponse, StatusResponse, puzzle_handler,
  solve_handler, test_solve_handler, status_handler,
}
use proxy_common.Auth.Server.{
  Endpoint, Mux, puzzle_endpoint, solve_endpoint, verify_endpoint, status_endpoint,
  test_solve_endpoint, metrics_endpoint,
}

-- A request with what a handler may read: the path, the body of a solution, the token; and the
-- clock, a second look at it in a search, and the two results of `rand.Read`.
pub record Request : Type 0 where
  pub path : Bytes
  pub body : Option SolveRequest
  pub token : VerifyRequest
  pub now : Moment
  pub searched : ℤ
  pub random : Option Bytes
  pub second_random : Option Bytes

pub data Reply : Type 0 where
  puzzle_reply : HttpResult PuzzleResponse → Reply
  solve_reply : HttpResult TokenResponse → Reply
  verify_reply : VerifyResponse → Reply
  status_reply : StatusResponse → Reply
  test_solve_reply : HttpResult (ℤ × SolveRequest) → Reply
  metrics_reply not_found : Reply

module _ (platform : Platform) (lib : Library) where
  unfoldable pub handle : Endpoint → Request → Handlers → Reply × Handlers
  handle puzzle_endpoint r h =
      (puzzle_reply (puzzle_handler platform r.random r.second_random r.now h), h)
  handle solve_endpoint r h =
      let (response, h') = solve_handler platform lib r.now r.body h in (solve_reply response, h')
  handle verify_endpoint r h =
      let (response, h') = verify_handler lib r.now.instant r.token h in (verify_reply response, h')
  handle status_endpoint r h = (status_reply (status_handler h), h)
  handle test_solve_endpoint r h = (
    test_solve_reply (test_solve_handler platform r.random r.second_random r.now r.searched h),
    h,
  )
  handle metrics_endpoint r h = (metrics_reply, h)

  -- `ServeHTTP` of a server whose handlers have a configuration
  unfoldable pub serve_http : Mux → Request → Handlers → Reply × Handlers
  unfolding handle
  serve_http mux r h = elim (lookup r.path mux) [
    | none ↦ (not_found, h)
    | some endpoint ↦ handle endpoint r h
  ]

  -- the replies to a sequence of requests, and the handlers behind it
  unfoldable pub serve_all : Mux → List Request → Handlers → List Reply × Handlers
  unfolding serve_http
  serve_all mux [] h = ([], h)
  serve_all mux (r ∷ rs) h =
      let (reply, h') = serve_http mux r h in
      let (replies, h'') = serve_all mux rs h' in (reply ∷ replies, h'')
