-- ===== src/Auth/Metrics/Outcomes.antt =====
-- Which calls of the recorder one call of `VerifyHandler` or `SolveHandler` makes
-- (auth/handlers/handlers.go), by its answer.
use proxy_common.Common.{
  ◌≡◌, refl, ◌||◌, Option, none, some, List, [], ◌∷◌, ◌++◌, append_assoc, ℕ, ℤ, pos, ltb_ℤ, leb_ℤ,
  Option-cases, Bool-cases, inl, inr, ◌∙◌,
}
use proxy_common.Common.Bytes.{Bytes, codes, bytes_eq, bytes_has_eq}
use proxy_common.Common.GoMap.{lookup_or}
use proxy_common.Auth.Puzzle.{Platform, Moment}
use proxy_common.Auth.Puzzle
use proxy_common.Auth.Jwt.{Library, verify}
use proxy_common.Auth.Jwt
use proxy_common.Auth.Handlers.{
  Handlers, Metric, puzzle_attempt, token_verification, puzzles_solved, tokens_issued,
  VerifyRequest, request_token, count_use, verify_handler,
}
use proxy_common.Auth.Handlers.Issue.{
  HttpResult, http_ok, http_error, SolveRequest, TokenResponse, puzzle_of, solution_of, issue_token,
  solve_fields, solve_handler,
}

-- A status of `VerifyHandler` with the calls that it makes.
pub data VerifyCalls : ℕ → List Metric → Type 0 where
  missing_token : VerifyCalls 401 (token_verification (codes "missing_token") ∷ [])
  invalid_token : VerifyCalls 401 (token_verification (codes "invalid_token") ∷ [])
  rate_limited : VerifyCalls 429 (token_verification (codes "rate_limited") ∷ [])
  success : VerifyCalls 200 (token_verification (codes "success") ∷ [])

-- An answer of `SolveHandler` with the calls that it makes.
pub data SolveCalls : HttpResult TokenResponse → List Metric → Type 0 where
  invalid_request : SolveCalls (http_error 400) (puzzle_attempt (codes "invalid_request") ∷ [])
  missing_fields : SolveCalls (http_error 400) (puzzle_attempt (codes "missing_fields") ∷ [])
  invalid_expiry : SolveCalls (http_error 400) (puzzle_attempt (codes "invalid_expiry") ∷ [])
  expired : SolveCalls (http_error 400) (puzzle_attempt (codes "expired") ∷ [])
  invalid_solution : SolveCalls (http_error 400) (puzzle_attempt (codes "invalid_solution") ∷ [])
  unsigned : SolveCalls (http_error 500) (puzzle_attempt (codes "success") ∷ puzzles_solved ∷ [])
  issued :
      (response : TokenResponse)
      → SolveCalls
          (http_ok response)
          (puzzle_attempt (codes "success") ∷ puzzles_solved ∷ tokens_issued ∷ [])

-- the calls that a handler appends to the log
pub record Appends (Calls : List Metric → Type 0) (h h' : Handlers) : Type 0 where
  pub calls : List Metric
  pub appended : h'.metrics ≡ h.metrics ++ calls
  pub kind : Calls calls

count_use-Appends :
    (id : Bytes) (h : Handlers)
    → Appends (VerifyCalls (count_use id h).0.status) h (count_use id h).1
unfolding count_use
count_use-Appends id h = elim (Bool-cases (bytes_eq id [])) [
  | inl nameless ↦ rw nameless (record { calls = _; appended = refl; kind = success })
  | inr named ↦
      elim (Bool-cases (leb_ℤ h.config.requests_per_token (lookup_or (pos 0) id h.token_usage))) [
        | inl full ↦ rw (named, full) (record { calls = _; appended = refl; kind = rate_limited })
        | inr room ↦ rw (named, room) (record { calls = _; appended = refl; kind = success })
      ]
]

-- `VerifyHandler` makes one call, that of its status: never `"failed"` or `"expired"`.
pub verify_handler-Appends :
    (lib : Library) (now : ℤ) (r : VerifyRequest) (h : Handlers)
    → Appends (VerifyCalls (verify_handler lib now r h).0.status) h (verify_handler lib now r h).1
unfolding verify_handler
verify_handler-Appends lib now r h = elim (Bool-cases (bytes_eq (request_token r) [])) [
  | inl absent ↦
      rw (absent, verify_handler) (record { calls = _; appended = refl; kind = missing_token })
  | inr present ↦ elim (Option-cases (verify lib now (request_token r) h.config.jwt_secret)) [
    | inl bad ↦
        rw (present, verify_handler, bad)
          (record { calls = _; appended = refl; kind = invalid_token })
    | inr (claims, good) ↦ rw (present, verify_handler, good) (count_use-Appends claims.id h)
  ]
]

module _ (platform : Platform) (lib : Library) (now : Moment) where
  issue_token-Appends :
      (req : SolveRequest) (h : Handlers)
      → Appends
          (SolveCalls (issue_token platform lib now req h).0)
          h
          (issue_token platform lib now req h).1
  unfolding issue_token
  issue_token-Appends req h =
      elim (Option-cases (
        Jwt.generate lib now h.config.jwt_secret req.challenge h.config.token_expiry_minutes
          h.config.requests_per_token)) [
            | inl bad ↦
                rw (bad, issue_token)
                  (record { calls = _; appended = append_assoc h.metrics _ _; kind = unsigned })
            | inr (signed, good) ↦
                rw (good, issue_token)
                  (record {
                    calls = _;
                    appended = append_assoc (h.metrics ++ _) _ _ ∙ append_assoc h.metrics _ _;
                    kind = issued _;
                  })
          ]

  solve_fields-Appends :
      (req : SolveRequest) (h : Handlers)
      → Appends
          (SolveCalls (solve_fields platform lib now req h).0)
          h
          (solve_fields platform lib now req h).1
  unfolding solve_fields
  solve_fields-Appends req h = elim (Option-cases (platform.parse req.expires_at)) [
    | inl bad ↦
        rw (bad, solve_fields) (record { calls = _; appended = refl; kind = invalid_expiry })
    | inr (exp, parsed) ↦ elim (Bool-cases (ltb_ℤ exp.instant now.instant)) [
      | inl late ↦
          rw (parsed, solve_fields, late) (record { calls = _; appended = refl; kind = expired })
      | inr live ↦
          elim (Bool-cases (
            Puzzle.validate platform now.instant (puzzle_of h.config req exp) (solution_of req)
              h.config.argon2_params h.config.jwt_secret)) [
                | inl valid ↦ rw (parsed, solve_fields, live, valid) (issue_token-Appends req h)
                | inr wrong ↦
                    rw (parsed, solve_fields, live, wrong)
                      (record { calls = _; appended = refl; kind = invalid_solution })
              ]
    ]
  ]

  -- `SolveHandler` counts every request as one attempt, and a solved puzzle and a token exactly if
  -- it gets that far: never `"failed"` or `"invalid_hmac"`.
  pub solve_handler-Appends :
      (body : Option SolveRequest) (h : Handlers)
      → Appends
          (SolveCalls (solve_handler platform lib now body h).0)
          h
          (solve_handler platform lib now body h).1
  unfolding solve_handler
  solve_handler-Appends none h = record { calls = _; appended = refl; kind = invalid_request }
  solve_handler-Appends (some req) h =
      elim (Bool-cases (
        bytes_eq req.challenge []
        || (bytes_eq req.salt [] || (bytes_eq req.argon_hash [] || bytes_eq req.hmac [])))) [
          | inl absent ↦
              rw (absent, solve_handler)
                (record { calls = _; appended = refl; kind = missing_fields })
          | inr present ↦ rw (present, solve_handler) (solve_fields-Appends req h)
        ]
