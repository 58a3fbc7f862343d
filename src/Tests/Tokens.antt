-- ===== src/Tests/Tokens.antt =====
-- Runs of the handlers of auth/handlers/handlers.go.
use proxy_common.Common.{
  ℕ, ◌≡◌, ◌≢◌, refl, true, Option, none, some, List, [], ◌∷◌, ◌++◌, arith, ℤ, pos, if◌then◌else◌,
}
use proxy_common.Common.Bytes.{codes, bytes_eq}
use proxy_common.Common.Decimal.{decimal_ℤ}
use proxy_common.Auth.Jwt.{Library, Claims, hmac_method}
use proxy_common.Auth.Handlers.{Handlers, VerifyRequest, new, verify_handler}
use proxy_common.Auth.Handlers.Issue.{SolveRequest, TokenResponse, http_ok, solve_handler}
use proxy_common.Auth.Handlers.Solve.{IsEarned, solve_handler_sound}
use proxy_common.Tests.Puzzles.{utc, toy_platform, toy_config}

-- A token is the challenge in front of the secret; it is parsed to its claims at 0.
abbrev pub toy_library : Library
toy_library = record {
  sign = λ claims secret. some (claims.challenge ++ secret);
  parse = λ now token key_func. elim (key_func hmac_method) [
    | none ↦ none
    | some secret ↦
        if bytes_eq token (codes "alice" ++ secret)
        then some (
          record {
            request_limit = pos 2;
            challenge = codes "alice";
            expires_at = pos 600_000_000_000;
            issued_at = pos 0;
            id = codes "alice";
          },
          true,
        )
        else none
  ];
}

abbrev pub with_token : VerifyRequest
with_token = record { authorization = codes "Bearer alicesecret"; query_token = [] }

abbrev pub solved_request : SolveRequest
solved_request = record {
  challenge = codes "07";
  salt = codes "0809";
  nonce = 2;
  argon_hash = codes "00";
  hmac = codes "1306";
  expires_at = codes "600000000005";
}

abbrev issued_token : TokenResponse
issued_token = record {
  token = codes "07secret";
  expires_at = codes "600000000009";
  request_limit = pos 2;
}

solve_handler_example :
    IsEarned toy_platform toy_library (utc (pos 9)) solved_request (new toy_config) issued_token
unfolding solve_handler bytes_eq proxy_common.Common.Atoi.atoi proxy_common.Auth.Puzzle.validate
    proxy_common.Auth.Puzzle.expected_hmac proxy_common.Common.Hex.hex_encode decimal_ℤ new
    proxy_common.Auth.Puzzle.compute_argon2_hash proxy_common.Auth.Puzzle.check_difficulty
    proxy_common.Auth.Handlers.Issue.issue_token proxy_common.Auth.Jwt.generate
    proxy_common.Common.◌+ℤ◌ proxy_common.Auth.Puzzle.minutes64 proxy_common.Common.Int64.wrap64
    proxy_common.Common.scale
solve_handler_example =
    solve_handler_sound toy_platform toy_library (utc (pos 9)) solved_request (new toy_config)
      issued_token refl
