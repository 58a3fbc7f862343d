-- ===== src/Auth/Client/Local.antt =====
-- The service of the client (auth/cmd/test-puzzle-auth/main.go) that is a server of the repository
-- in the same process: every exchange is one call of `ServeHTTP`, at the next reading of a clock.
use proxy_common.Common.{ℕ, suc, Option, none, some, []}
use proxy_common.Common.Bytes.{Bytes}
use proxy_common.Auth.Puzzle.{Platform, Moment}
use proxy_common.Auth.Jwt.{Library}
use proxy_common.Auth.Handlers.{Handlers}
use proxy_common.Auth.Handlers.Issue.{
  http_ok, http_error, PuzzleResponse, SolveRequest, TokenResponse,
}
use proxy_common.Auth.Server.{Mux}
use proxy_common.Auth.Server.Serving.{
  Request, Reply, serve_http, puzzle_reply, solve_reply, verify_reply, status_reply,
  test_solve_reply, metrics_reply, not_found,
}
use proxy_common.Auth.Client.{Service, Exchange, refused, undecodable, decoded}

-- the handlers of the server, and how often the clock was read
pub record Online : Type 0 where
  pub handlers : Handlers
  pub readings : ℕ

abbrev pub status_of : Reply → ℕ
status_of (puzzle_reply (http_ok r)) = 200
status_of (puzzle_reply (http_error n)) = n
status_of (solve_reply (http_ok r)) = 200
status_of (solve_reply (http_error n)) = n
status_of (verify_reply r) = r.status
status_of (status_reply r) = 200
status_of (test_solve_reply (http_ok r)) = 200
status_of (test_solve_reply (http_error n)) = n
status_of metrics_reply = 200
status_of not_found = 404

abbrev pub puzzle_in : Reply → Exchange PuzzleResponse
puzzle_in (puzzle_reply (http_ok r)) = decoded r
puzzle_in (puzzle_reply (http_error n)) = refused n
puzzle_in (solve_reply r) = undecodable
puzzle_in (verify_reply r) = undecodable
puzzle_in (status_reply r) = undecodable
puzzle_in (test_solve_reply r) = undecodable
puzzle_in metrics_reply = undecodable
puzzle_in not_found = refused 404

abbrev pub token_in : Reply → Exchange TokenResponse
token_in (solve_reply (http_ok r)) = decoded r
token_in (solve_reply (http_error n)) = refused n
token_in (puzzle_reply r) = undecodable
token_in (verify_reply r) = undecodable
token_in (status_reply r) = undecodable
token_in (test_solve_reply r) = undecodable
token_in metrics_reply = undecodable
token_in not_found = refused 404

module _ (platform : Platform) (lib : Library) (mux : Mux) (clock : ℕ → Moment)
    (random second_random : Bytes) where
  -- one request: the body and the header `Authorization` are absent unless they are given
  abbrev pub ask : Bytes → Option SolveRequest → Bytes → Online → Reply × Online
  ask path body authorization w =
      let request : Request = record {
        path = path;
        body = body;
        token = record { authorization = authorization; query_token = [] };
        now = clock w.readings;
        searched = (clock w.readings).instant;
        random = some random;
        second_random = some second_random;
      } in
      let (reply, h) = serve_http platform lib mux request w.handlers in
      (reply, record { handlers = h; readings = suc w.readings })

  -- the URLs are those of an empty base: paths
  abbrev pub local : Service Online
  local = record {
    get = λ url w. let (reply, w') = ask url none [] w in (some (status_of reply), w');
    get_puzzle = λ url w. let (reply, w') = ask url none [] w in (puzzle_in reply, w');
    post_solution = λ url req w. let (reply, w') = ask url (some req) [] w in (token_in reply, w');
    get_authorized = λ url authorization w.
        let (reply, w') = ask url none authorization w in (some (status_of reply), w');
    now = λ w. (clock w.readings, record w { readings = suc w.readings });
  }
