-- ===== src/Tests/Earning.antt =====
-- A run of the handlers of auth/handlers/handlers.go from a puzzle to its token.
use proxy_common.Common.{
  ℕ, ◌≡◌, refl, ap, Option, none, some, [], ◌∷◌, ◌++◌, arith, ℤ, pos, ◌+ℤ◌, length, replicate,
}
use proxy_common.Common.Bytes.{codes}
use proxy_common.Common.Hex.{hex_encode}
use proxy_common.Auth.Puzzle.{Platform, Puzzle, Solution, minutes64, time_add}
use proxy_common.Auth.Handlers.{new}
use proxy_common.Auth.Handlers.Issue.{http_ok, solve_request, solve_handler}
use proxy_common.Auth.Handlers.Earn.{PlatformLaws, solve_handler_complete}
use proxy_common.Tests.Levels.{sign, size, signed, signed-sign}
use proxy_common.Tests.Puzzles.{utc, toy_platform, toy_config, toy_secret}
use proxy_common.Tests.Tokens.{toy_library}

-- the platform of the other runs, with signatures of 32 bytes and a text for every time
abbrev pub platform : Platform
platform = record toy_platform {
  hmac = λ contents secret. length contents ∷ length secret ∷ replicate 30 0;
  format = λ t. sign t.instant ∷ size t.instant ∷ t.location;
  parse = λ text. elim text [
    | [] ↦ none
    | a ∷ rest ↦ elim rest [
      | [] ↦ none
      | b ∷ more ↦ some (record { instant = signed a b; location = more })
    ]
  ];
}

abbrev platform_laws : PlatformLaws platform
platform_laws = record {
  length-hmac = λ contents secret. refl;
  read_back = λ t. t;
  parse-format = λ t. ap (λ i. some (record t { instant = i })) (signed-sign t.instant);
  format-read_back = λ t. refl;
}

abbrev earned_puzzle : Puzzle
earned_puzzle = record {
  challenge = hex_encode (replicate 16 7);
  salt = hex_encode (replicate 16 8);
  difficulty = pos 1;
  expires_at = utc (pos 600_000_000_005);
  hmac = hex_encode (70 ∷ 6 ∷ replicate 30 0);
}

abbrev solution : Solution
solution = record { argon_hash = codes "00"; nonce = 2 }

solve_handler_complete_example :
    (solve_handler platform toy_library
      (utc (pos 9))
      (some (solve_request platform earned_puzzle solution))
      (new toy_config)).0
    ≡ http_ok (record {
      token = earned_puzzle.challenge ++ toy_secret;
      expires_at = platform.format (time_add (utc (pos 9)) (minutes64 (pos 10)));
      request_limit = pos 2;
    })
unfolding new proxy_common.Auth.Puzzle.generate ◌+ℤ◌ hex_encode minutes64
    proxy_common.Common.Decimal.decimal_ℤ proxy_common.Common.Int64.wrap64 proxy_common.Common.scale
    proxy_common.Auth.Puzzle.solve_within proxy_common.Auth.Puzzle.solve_loop
    proxy_common.Auth.Puzzle.check_difficulty proxy_common.Auth.Puzzle.compute_argon2_hash
solve_handler_complete_example =
    solve_handler_complete platform platform_laws toy_library (new toy_config) (replicate 16 7)
      (replicate 16 8) (utc (pos 5)) earned_puzzle 5 (pos 6) solution (utc (pos 9)) 0
      (earned_puzzle.challenge ++ toy_secret) refl refl refl refl refl (omega arith) refl
