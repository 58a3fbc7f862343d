-- ===== src/Auth/Handlers/Solve.antt =====
-- What `SolveHandler` (auth/handlers/handlers.go) asks of a request before it issues a token.
use proxy_common.Common.{
  ◌≡◌, true, some, [], arith, ltb_ℤ, Option-cases, Bool-cases, inl, inr, ◌||◌,
}
use proxy_common.Common.Bytes.{bytes_eq}
use proxy_common.Auth.Puzzle
use proxy_common.Auth.Puzzle.{
  Moment, Platform, Puzzle, Solution, solve_within, expected_hmac, compute_argon2_hash,
}
use proxy_common.Auth.Puzzle.Validate.{IsAccepted, validate-IsAccepted}
use proxy_common.Auth.Jwt
use proxy_common.Auth.Jwt.{Library, Claims, claims_at}
use proxy_common.Auth.Handlers.{Handlers}
use proxy_common.Auth.Handlers.Issue.{
  http_ok, SolveRequest, TokenResponse, puzzle_of, solution_of, issue_token, solve_fields,
  solve_handler,
}

module _ (platform : Platform) (lib : Library) (now : Moment) (req : SolveRequest)
    (h : Handlers) where
  -- What was checked when a token was issued for a request.
  pub record IsEarned (response : TokenResponse) : Type 0 where
    pub deadline : Moment
    pub parsed : platform.parse req.expires_at ≡ some deadline
    pub accepted :
        IsAccepted platform now.instant
          (puzzle_of h.config req deadline)
          (solution_of req)
          h.config.argon2_params
          h.config.jwt_secret
    pub signed :
        lib.sign
          (claims_at lib now req.challenge h.config.token_expiry_minutes
            h.config.requests_per_token)
          h.config.jwt_secret
        ≡ some response.token
    pub limit : response.request_limit ≡ h.config.requests_per_token

  issue_token_sound :
      (response : TokenResponse)
      → (issue_token platform lib now req h).0 ≡ http_ok response
      → (lib.sign
            (claims_at lib now req.challenge h.config.token_expiry_minutes
              h.config.requests_per_token)
            h.config.jwt_secret
          ≡ some response.token)
        × (response.request_limit ≡ h.config.requests_per_token)
  unfolding issue_token Jwt.generate
  issue_token_sound response e = ground arith

  -- The three tests of a request with all fields, passed.
  solve_tests :
      (response : TokenResponse) (exp : Moment)
      → platform.parse req.expires_at ≡ some exp
      → (solve_fields platform lib now req h).0 ≡ http_ok response
      → (Puzzle.validate platform now.instant
            (puzzle_of h.config req exp)
            (solution_of req)
            h.config.argon2_params
            h.config.jwt_secret
          ≡ true)
        × ((issue_token platform lib now req h).0 ≡ http_ok response)
  unfolding solve_fields
  solve_tests response exp parsed e = elim (Bool-cases (ltb_ℤ exp.instant now.instant)) [
    | inl late ↦ ground arith
    | inr live ↦ ground arith
  ]

  solve_fields_sound :
      (response : TokenResponse)
      → (solve_fields platform lib now req h).0 ≡ http_ok response
      → IsEarned response
  unfolding solve_fields
  solve_fields_sound response e = elim (Option-cases (platform.parse req.expires_at)) [
    | inl bad ↦ ground arith
    | inr (exp, parsed) ↦
        let (valid, issued) = solve_tests response exp parsed e in
        let (signed, limit) = issue_token_sound response issued in
        record {
          deadline = exp;
          parsed = parsed;
          accepted =
              (validate-IsAccepted platform now.instant (puzzle_of h.config req exp)
                  (solution_of req) h.config.argon2_params h.config.jwt_secret).0
                valid;
          signed = signed;
          limit = limit;
        }
  ]

  -- A token is issued only for a request whose deadline parses and whose solution is accepted at the
  -- time of the request, for the puzzle with the server's own difficulty; the token is signed for the
  -- request's challenge and carries the configured limit.
  pub solve_handler_sound :
      (response : TokenResponse)
      → (solve_handler platform lib now (some req) h).0 ≡ http_ok response
      → IsEarned response
  unfolding solve_handler
  solve_handler_sound response e =
      elim (Bool-cases (
        bytes_eq req.challenge []
        || (bytes_eq req.salt [] || (bytes_eq req.argon_hash [] || bytes_eq req.hmac [])))) [
          | inl missing ↦ ground arith
          | inr present ↦ solve_fields_sound response (ground arith)
        ]
