-- ===== src/Auth/Handlers/Issue.antt =====
-- The handlers of auth/handlers/handlers.go that issue puzzles and tokens and report the status.
use proxy_common.Common.{ℕ, Bool, not, ◌||◌, Option, none, some, [], ℤ, ltb_ℤ, if◌then◌else◌}
use proxy_common.Common.Bytes.{Bytes, codes, bytes_eq}
use proxy_common.Auth.Config.{Config, Argon2Config}
use proxy_common.Auth.Puzzle
use proxy_common.Auth.Puzzle.{Moment, Platform, Puzzle, Solution}
use proxy_common.Auth.Jwt
use proxy_common.Auth.Jwt.{Library}
use proxy_common.Auth.Handlers.{
  Handlers, puzzle_attempt, puzzles_solved, tokens_issued, record_metric,
}

-- a JSON body with the status 200, or the status of `http.Error`
pub data HttpResult (A : Type 0) : Type 0 where
  http_ok : A → HttpResult A
  http_error : ℕ → HttpResult A

pub record PuzzleResponse : Type 0 where
  pub challenge : Bytes
  pub salt : Bytes
  pub difficulty : ℤ
  pub expires_at : Bytes
  pub hmac : Bytes
  pub algorithm : Bytes
  pub argon2_params : Argon2Config

pub record SolveRequest : Type 0 where
  pub challenge : Bytes
  pub salt : Bytes
  pub nonce : ℕ
  pub argon_hash : Bytes
  pub hmac : Bytes
  pub expires_at : Bytes

pub record TokenResponse : Type 0 where
  pub token : Bytes
  pub expires_at : Bytes
  pub request_limit : ℤ

pub record StatusResponse : Type 0 where
  pub puzzle_difficulty : ℤ
  pub token_expiry_min : ℤ
  pub requests_per_token : ℤ
  pub jwt_secret_present : Bool
  pub algorithm : Bytes
  pub argon2_params : Argon2Config

-- `StatusHandler`, without its constant list of endpoints
unfoldable pub status_handler : Handlers → StatusResponse
status_handler h = record {
  puzzle_difficulty = h.config.puzzle_difficulty;
  token_expiry_min = h.config.token_expiry_minutes;
  requests_per_token = h.config.requests_per_token;
  jwt_secret_present = not (bytes_eq h.config.jwt_secret []);
  algorithm = h.config.algorithm;
  argon2_params = h.config.argon2_params;
}

-- the status 400, with a metric for the attempt
abbrev pub reject : Bytes → Handlers → HttpResult TokenResponse × Handlers
reject kind h = (http_error 400, record_metric (puzzle_attempt kind) h)

-- the puzzle and the solution that `SolveHandler` builds of a request
abbrev pub puzzle_of : Config → SolveRequest → Moment → Puzzle
puzzle_of cfg req exp = record {
  challenge = req.challenge;
  salt = req.salt;
  difficulty = cfg.puzzle_difficulty;
  expires_at = exp;
  hmac = req.hmac;
}

abbrev pub solution_of : SolveRequest → Solution
solution_of req = record { argon_hash = req.argon_hash; nonce = req.nonce }

module _ (platform : Platform) where
  abbrev pub puzzle_response : Config → Puzzle → PuzzleResponse
  puzzle_response cfg p = record {
    challenge = p.challenge;
    salt = p.salt;
    difficulty = p.difficulty;
    expires_at = platform.format p.expires_at;
    hmac = p.hmac;
    algorithm = cfg.algorithm;
    argon2_params = cfg.argon2_params;
  }

  -- the call of `puzzle.Generate` in both handlers, with what `rand.Read` yields
  abbrev pub generated : Option Bytes → Option Bytes → Moment → Config → Option Puzzle
  generated random random' now cfg =
      Puzzle.generate platform random random' now cfg.puzzle_difficulty cfg.token_expiry_minutes
        cfg.jwt_secret

  -- `PuzzleHandler` at `now`
  unfoldable pub puzzle_handler :
      Option Bytes → Option Bytes → Moment → Handlers → HttpResult PuzzleResponse
  puzzle_handler random random' now h = elim (generated random random' now h.config) [
    | none ↦ http_error 500
    | some p ↦ http_ok (puzzle_response h.config p)
  ]

  -- the request that `TestSolveHandler` shows as an example
  abbrev pub solve_request : Puzzle → Solution → SolveRequest
  solve_request p s = record {
    challenge = p.challenge;
    salt = p.salt;
    nonce = s.nonce;
    argon_hash = s.argon_hash;
    hmac = p.hmac;
    expires_at = platform.format p.expires_at;
  }

  -- `TestSolveHandler`; its solution is searched at `solved`. The response shows the request and the
  -- difficulty; its other fields repeat those of the request.
  unfoldable pub test_solve_handler :
      Option Bytes → Option Bytes → Moment → ℤ → Handlers → HttpResult (ℤ × SolveRequest)
  test_solve_handler random random' now solved h = elim (generated random random' now h.config) [
    | none ↦ http_error 500
    | some p ↦ elim (Puzzle.solve platform solved p h.config.argon2_params) [
      | none ↦ http_error 500
      | some s ↦ http_ok (p.difficulty, solve_request p s)
    ]
  ]

  module _ (lib : Library) where
    -- the end of `SolveHandler`, from the valid solution on
    unfoldable pub issue_token :
        Moment → SolveRequest → Handlers → HttpResult TokenResponse × Handlers
    issue_token now req h =
        let solved =
          record_metric puzzles_solved (record_metric (puzzle_attempt (codes "success")) h) in
        elim (Jwt.generate lib now h.config.jwt_secret req.challenge h.config.token_expiry_minutes
          h.config.requests_per_token) [
            | none ↦ (http_error 500, solved)
            | some (token, expires_at) ↦ (
              http_ok (record {
                token = token;
                expires_at = platform.format expires_at;
                request_limit = h.config.requests_per_token;
              }),
              record_metric tokens_issued solved,
            )
          ]

    -- `SolveHandler` behind the check of the fields
    unfoldable pub solve_fields :
        Moment → SolveRequest → Handlers → HttpResult TokenResponse × Handlers
    solve_fields now req h = elim (platform.parse req.expires_at) [
      | none ↦ reject (codes "invalid_expiry") h
      | some exp ↦
          if ltb_ℤ exp.instant now.instant
          then reject (codes "expired") h
          else if not (
              Puzzle.validate platform now.instant (puzzle_of h.config req exp) (solution_of req)
                h.config.argon2_params h.config.jwt_secret)
          then reject (codes "invalid_solution") h
          else issue_token now req h
    ]

    -- `SolveHandler` at `now`; the body is `none` if it is not a request in JSON
    unfoldable pub solve_handler :
        Moment → Option SolveRequest → Handlers → HttpResult TokenResponse × Handlers
    unfolding solve_fields
    solve_handler now none h = reject (codes "invalid_request") h
    solve_handler now (some req) h =
        if bytes_eq req.challenge []
          || (bytes_eq req.salt [] || (bytes_eq req.argon_hash [] || bytes_eq req.hmac []))
        then reject (codes "missing_fields") h
        else solve_fields now req h
