-- ===== src/Auth/Client/Session.antt =====
-- A whole run of the client (auth/cmd/test-puzzle-auth/main.go) against a server.

use proxy_common.Common.{
  ℕ, suc, ◌+◌, ◌≤◌, ◌<◌, ◌^◌, ◌≡◌, ◌≢◌, refl, ap, ◌∙◌, true, false, some, [], ◌∷◌, arith, pos, ◌+ℤ◌,
  ◌≤ℤ◌, ltb, length,
}
use proxy_common.Common.Bytes.{Bytes, bytes_eq_iff, bytes_has_eq}
use proxy_common.Common.GoMap.{lookup, lookup_or}
use proxy_common.Common.Int64.{second}
use proxy_common.Auth.Config.{Config}
use proxy_common.Auth.Puzzle.{Moment, time_add, Platform, Puzzle, Solution, minutes64, solve}
use proxy_common.Auth.Jwt.{Library, Claims, claims_at, key_for}
use proxy_common.Auth.Handlers.{new}
use proxy_common.Auth.Handlers.Issue.{
  http_ok, SolveRequest, TokenResponse, generated, puzzle_response, puzzle_handler, solve_request,
  solve_handler,
}
use proxy_common.Auth.Handlers.Earn.{
  hex_encode-filled, generated-IsMade, PlatformLaws, solve_handler_complete,
}
use proxy_common.Auth.Server.{Mux}
use proxy_common.Auth.Server.Serving.{serve_http, handle}
use proxy_common.Auth.Client.{
  Service, check_service_status, get_puzzle, submit_solution, submit, solve_puzzle, session, passed,
}
use proxy_common.Auth.Client.Local.{Online, local}
use proxy_common.Auth.Client.Uses.{LibraryLaws, Routed, use_token-Used}
use proxy_common.Auth.Client.Solving.{
  session_steps, submit_steps, solve_within-received, solve_handler-keeps,
}

module _ (platform : Platform) (laws : PlatformLaws platform) (lib : Library)
    (lib_laws : LibraryLaws lib) (cfg : Config) (mux : Mux) (routed : Routed mux)
    (clock : ℕ → Moment) (c t : Bytes) where
  abbrev pub net : Service Online
  net = local platform lib mux clock c t

  -- A run that goes well: what the client meets on its way, at the readings 0 to 7 of the clock.
  pub record IsSmooth (n : ℕ) (p : Puzzle) (s : Solution) (token : Bytes) : Type 0 where
    pub length-challenge : length c ≡ 16
    pub length-salt : length t ≡ 16
    pub hard : (d : ℕ) × (cfg.puzzle_difficulty ≡ pos (suc d))
    pub limit : cfg.requests_per_token ≡ pos n
    pub positive : 1 ≤ n
    pub sized : n < 2 ^ 63
    pub made : generated platform (some c) (some t) (clock 1) cfg ≡ some p
    pub found :
        solve platform
          (clock 2).instant
          (record p { expires_at = laws.read_back p.expires_at })
          cfg.argon2_params
        ≡ some s
    pub long_hash : 20 ≤ length s.argon_hash
    pub in_time : (clock 3).instant ≤ℤ (laws.read_back p.expires_at).instant
    pub signed :
        lib.sign
          (claims_at lib (clock 3) p.challenge cfg.token_expiry_minutes cfg.requests_per_token)
          cfg.jwt_secret
        ≡ some token
    pub long_token : 20 ≤ length token
    pub later : (k : ℕ) → k < 4 → (clock 3).instant ≤ℤ (clock (4 + k)).instant
    pub not_expired :
        (k : ℕ)
        → k < 4
        → (clock (4 + k)).instant +ℤ pos second
          ≤ℤ (time_add (clock 3) (minutes64 cfg.token_expiry_minutes)).instant

  module _ (n : ℕ) (p : Puzzle) (s : Solution) (token : Bytes) (run : IsSmooth n p s token) where
    abbrev claims : Claims
    claims = claims_at lib (clock 3) p.challenge cfg.token_expiry_minutes cfg.requests_per_token

    -- the token at the use number `k`
    live :
        (k : ℕ)
        → k < 4
        → lib.parse (clock (4 + k)).instant token (key_for cfg.jwt_secret)
          ≡ some (lib_laws.read_back claims, true)
    live k small =
        lib_laws.parse-sign _ cfg.jwt_secret token _ (key_for cfg.jwt_secret) run.signed refl
          (run.later k small) (run.not_expired k small)

    answered :
        (solve_handler platform lib (clock 3) (some (solve_request platform p s)) (new cfg)).0
        ≡ http_ok (record {
          token = token;
          expires_at = platform.format (time_add (clock 3) (minutes64 cfg.token_expiry_minutes));
          request_limit = cfg.requests_per_token;
        })
    unfolding new solve
    answered =
        let (d, hd) = run.hard in
        solve_handler_complete platform laws lib (new cfg) c t (clock 1) p 1_000_000
          p.expires_at.instant s (clock 3) d token run.length-challenge run.length-salt hd run.made
          (solve_within-received platform 1_000_000 (clock 2).instant p
            (laws.read_back p.expires_at) cfg.argon2_params s run.found)
          run.in_time run.signed

    challenge_filled : p.challenge ≢ []
    challenge_filled e =
        let made = generated-IsMade platform c t (clock 1) cfg p run.made in
        let filled = hex_encode-filled c 15 run.length-challenge in
        ground (arith, made.challenge, filled, bytes_eq_iff p.challenge [])

    abbrev req : SolveRequest
    req = solve_request platform p s

    abbrev response : TokenResponse
    response = record {
      token = token;
      expires_at = platform.format (time_add (clock 3) (minutes64 cfg.token_expiry_minutes));
      request_limit = cfg.requests_per_token;
    }

    -- the state behind `SolveHandler`
    abbrev after : Online
    after = record {
      handlers = (solve_handler platform lib (clock 3) (some req) (new cfg)).1;
      readings = 4;
    }

    posted :
        submit_solution platform net [] req (record { handlers = new cfg; readings = 3 })
        ≡ (some response, after)
    unfolding submit_solution serve_http handle
    posted = rw (submit_solution, serve_http, routed.solve, handle, answered) refl

    -- the steps from the solution on
    submit-passed :
        (submit platform net []
          (puzzle_response platform cfg p)
          s
          (record { handlers = new cfg; readings = 3 })).0
        ≡ passed s.nonce token (ltb 1 n ∷ ltb 2 n ∷ ltb 3 n ∷ [])
    unfolding new lookup
    submit-passed =
        let (config, uses) = solve_handler-keeps platform lib (clock 3) req (new cfg) in
        let hash : ltb (length s.argon_hash) 20 ≡ false = ground (arith, run.long_hash) in
        let text : ltb (length token) 20 ≡ false = ground (arith, run.long_token) in
        ap (λ x. x.0)
          (submit_steps platform net [] (puzzle_response platform cfg p) s response
            (record { handlers = new cfg; readings = 3 }) after hash text posted)
        ∙ use_token-Used platform lib mux routed clock c t cfg p.challenge token
            (lib_laws.read_back claims) n run.limit run.sized challenge_filled
            (λ e. ground (arith, run.long_token)) (lib_laws.id-read_back claims) s.nonce 4 after
            (record {
              config = config;
              uses = ap (lookup_or (pos 0) p.challenge) uses ∙ ap pos (omega arith);
            })
            run.positive refl live

    -- step 3
    solve_puzzle-passed :
        (solve_puzzle platform net []
          (puzzle_response platform cfg p)
          (record { handlers = new cfg; readings = 2 })).0
        ≡ passed s.nonce token (ltb 1 n ∷ ltb 2 n ∷ ltb 3 n ∷ [])
    unfolding solve_puzzle
    solve_puzzle-passed = rw (solve_puzzle, laws.parse-format p.expires_at, run.found) submit-passed

    -- the state behind the first readings of the clock
    abbrev behind : ℕ → Online
    behind k = record { handlers = new cfg; readings = k }

    checked : check_service_status platform net [] (behind 0) ≡ (true, behind 1)
    unfolding check_service_status serve_http handle
    checked = rw (check_service_status, serve_http, routed.status, handle) refl

    offered :
        puzzle_handler platform (some c) (some t) (clock 1) (new cfg)
        ≡ http_ok (puzzle_response platform cfg p)
    unfolding puzzle_handler new
    offered = rw (puzzle_handler, run.made) refl

    got : get_puzzle platform net [] (behind 1) ≡ (some (puzzle_response platform cfg p), behind 2)
    unfolding get_puzzle serve_http handle
    got = rw (get_puzzle, serve_http, routed.puzzle, handle, offered) refl

    -- Against a server with the four routes of the client and fresh handlers, a run in which nothing
    -- is late ends behind all checks, with the nonce of the solution and the token that the library
    -- signed: the check of the token succeeds, and the three further requests are let through as
    -- long as they are within the limit `n` of the configuration. That is, `rand.Read` yields 16 bytes
    -- twice, the difficulty and the limit are at least 1, the search finds a nonce, the hash and the
    -- token have the 20 characters that the client prints, the solution arrives before the deadline
    -- of the puzzle, and the requests with the token between its issue and a second before its
    -- expiry, on a clock that does not run backwards.
    pub session_lem :
        (session platform net [] (behind 0)).0
        ≡ passed s.nonce token (ltb 1 n ∷ ltb 2 n ∷ ltb 3 n ∷ [])
    session_lem =
        ap (λ x. x.0)
          (session_steps platform net [] (puzzle_response platform cfg p) (behind 0) (behind 1)
            (behind 2) checked got)
        ∙ solve_puzzle-passed
