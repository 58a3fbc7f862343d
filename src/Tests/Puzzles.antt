-- ===== src/Tests/Puzzles.antt =====
-- Runs of the configuration (auth/config/config.go) and of puzzles (auth/puzzle/puzzle.go).
use proxy_common.Common.{
  ℕ, ◌*◌, ◌-◌, ◌≡◌, ◌≢◌, refl, ◌⊎◌, ◌↔◌, true, false, Option, none, some, List, [], ◌∷◌, ◌++◌, map,
  arith, ℤ, pos, length, take, drop, replicate,
}
use proxy_common.Common.Bytes.{Bytes, codes}
use proxy_common.Common.Decimal.{decimal_ℤ}
use proxy_common.Common.Atoi.{atoi}
use proxy_common.Auth.Config.{Config, default_config, loaded, load_from_env}
use proxy_common.Auth.Config
use proxy_common.Auth.Config.Laws.{IsValid, validate-IsValid, env_of, load_from_env-env_of}
use proxy_common.Auth.Puzzle.{
  Moment, Platform, Puzzle, Solution, generate, validate, solve_within, expected_hmac,
  compute_argon2_hash, check_difficulty,
}
use proxy_common.Auth.Puzzle.Difficulty.{solve_within_lem, IsFirst, NonePasses}
use proxy_common.Auth.Puzzle.Validate.{IsGenuine, validate_lem, validate-solve-generate}
use proxy_common.Auth.Puzzle.Forgery.{shifted, validate-shifted}

-- a time in UTC
abbrev pub utc : ℤ → Moment
utc t = record { instant = t; location = codes "UTC" }

-- A signature of two bytes, a hash of the last digit of the password whose text begins with '0' at
-- the digit 2, and times in decimal.
abbrev pub toy_platform : Platform
toy_platform = record {
  hmac = λ contents secret. length contents ∷ length secret ∷ [];
  argon2_id_key = λ password salt t memory threads key_len.
      map (λ c. (50 - c) * 16) (drop (length password - 1) password);
  format = λ t. decimal_ℤ t.instant;
  parse = λ text. elim (atoi text) [ none ↦ none | some t ↦ some (utc t) ];
}

abbrev pub toy_secret : Bytes
toy_secret = codes "secret"

abbrev pub toy_config : Config
toy_config = record default_config { jwt_secret = toy_secret; requests_per_token = pos 2 }

abbrev puzzle : Puzzle
puzzle = record {
  challenge = codes "07";
  salt = codes "0809";
  difficulty = pos 1;
  expires_at = utc (pos 600_000_000_005);
  hmac = codes "1306";
}

abbrev solution : Solution
solution = record { argon_hash = codes "00"; nonce = 2 }

validate-IsValid_example : (Config.validate toy_config ≡ none) ↔ IsValid toy_config
validate-IsValid_example = validate-IsValid toy_config

load_from_env-env_of_example : load_from_env (env_of toy_config) ≡ loaded toy_config
load_from_env-env_of_example =
    load_from_env-env_of toy_config (λ e. cc e) (λ e. cc e)
      (record {
        difficulty = omega arith;
        requests = omega arith;
        expiry = omega arith;
        memory = omega arith;
        time = omega arith;
        threads = omega arith;
        key_len = omega arith;
      })

solve_within_example :
    ((s : Solution) × (solve_within toy_platform 5 (pos 6) puzzle toy_config.argon2_params ≡ some s)
      × IsFirst toy_platform puzzle toy_config.argon2_params 0 5 s)
    ⊎ ((solve_within toy_platform 5 (pos 6) puzzle toy_config.argon2_params ≡ none)
        × NonePasses toy_platform puzzle toy_config.argon2_params 0 5)
solve_within_example = solve_within_lem toy_platform puzzle toy_config.argon2_params 5 (pos 6) refl

validate_example :
    (validate toy_platform (pos 6) puzzle solution toy_config.argon2_params toy_secret ≡ true)
    ↔ IsGenuine toy_platform (pos 6) puzzle solution toy_config.argon2_params toy_secret
validate_example =
    validate_lem toy_platform (pos 6) puzzle solution toy_config.argon2_params toy_secret

validate-solve-generate_example :
    validate toy_platform (pos 7) puzzle solution toy_config.argon2_params toy_secret ≡ true
unfolding generate solve_within proxy_common.Common.Hex.hex_encode proxy_common.Common.◌+ℤ◌
    proxy_common.Auth.Puzzle.minutes64 decimal_ℤ proxy_common.Common.Int64.wrap64
    proxy_common.Common.scale proxy_common.Auth.Puzzle.solve_loop check_difficulty
    compute_argon2_hash
validate-solve-generate_example =
    validate-solve-generate toy_platform toy_config.argon2_params toy_secret (some (7 ∷ []))
      (some (8 ∷ 9 ∷ [])) (utc (pos 5)) (pos 1) (pos 10) puzzle 5 (pos 6) solution (pos 7) refl refl
      (omega arith)

validate-shifted_example :
    validate toy_platform
      (pos 7)
      (shifted toy_platform
        (codes "07")
        (codes "08")
        (codes "09")
        (pos 1)
        (utc (pos 600_000_000_005))
        (codes "1306")
        toy_secret)
      solution
      toy_config.argon2_params
      toy_secret
    ≡ true
unfolding expected_hmac compute_argon2_hash check_difficulty proxy_common.Common.Hex.hex_encode
    decimal_ℤ
validate-shifted_example =
    validate-shifted toy_platform (codes "07") (codes "08") (codes "09") (pos 1)
      (utc (pos 600_000_000_005)) (codes "1306") toy_secret (pos 7) solution
      toy_config.argon2_params refl (omega arith) refl refl
