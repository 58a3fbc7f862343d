-- ===== src/Tests/Sessions.antt =====
-- A run of the client (auth/cmd/test-puzzle-auth/main.go) against a server.
use proxy_common.Common.{
  ℤ, Bool, ◌+◌, ℕ, ◌≡◌, refl, ap, true, false, Option, none, some, some_inj, [], ◌∷◌, ◌++◌, arith,
  pos, if◌then◌else◌, ◌==◌, subst, +ℤ_parts, length, replicate, map, drop, ◌-◌, ◌*◌,
}
use proxy_common.Common.Bytes.{Bytes, codes}
use proxy_common.Common.Int64.{second}
use proxy_common.Common.Hex.{hex_encode}
use proxy_common.Auth.Puzzle.{Platform, Puzzle, Solution, Moment}
use proxy_common.Auth.Jwt.{Library, Claims, hmac_method, SigningMethod}
use proxy_common.Auth.Handlers.{new}
use proxy_common.Auth.Handlers.Earn.{PlatformLaws}
use proxy_common.Auth.Server.Command.{served}
use proxy_common.Auth.Client.{session, passed}
use proxy_common.Auth.Client.Uses.{LibraryLaws, Routed}
use proxy_common.Auth.Client.Session.{IsSmooth, net, session_lem}
use proxy_common.Tests.Levels.{signed-sign}
use proxy_common.Tests.Puzzles.{utc, toy_config, toy_secret}
use proxy_common.Tests.Earning as Earning

-- the platform of the other runs, with longer hashes
abbrev platform : Platform
platform = record Earning.platform {
  argon2_id_key = λ password salt t memory threads key_len.
      map (λ c. (50 - c) * 16) (drop (length password - 1) password) ++ replicate 9 0;
}

abbrev platform_laws : PlatformLaws platform
platform_laws = record {
  length-hmac = λ contents secret. refl;
  read_back = λ t. t;
  parse-format = λ t. ap (λ i. some (record t { instant = i })) (signed-sign t.instant);
  format-read_back = λ t. refl;
}

-- the text behind a prefix
abbrev strip : Bytes → Bytes → Option Bytes
strip [] text = some text
strip (c ∷ prefix) [] = none
strip (c ∷ prefix) (d ∷ text) = let rest = strip prefix text in if c == d then rest else none

strip-append : (prefix text : Bytes) → strip prefix (prefix ++ text) ≡ some text
strip-append [] text = refl
strip-append (c ∷ prefix) text = ground (arith, strip-append prefix text)

abbrev claims_of : Bytes → Claims
claims_of id = record {
  request_limit = pos 0;
  challenge = [];
  expires_at = pos 0;
  issued_at = pos 0;
  id = id;
}

abbrev parse : ℤ → Bytes → (SigningMethod → Option Bytes) → Option (Claims × Bool)
parse now token key = elim (key hmac_method) [
  | none ↦ none
  | some secret ↦ elim (strip secret token) [ none ↦ none | some id ↦ some (claims_of id, true) ]
]

-- A token is the identity behind the secret.
abbrev library : Library
library = record { sign = λ claims secret. some (secret ++ claims.id); parse = parse }

abbrev library_laws : LibraryLaws library
library_laws = record {
  read_back = λ c. claims_of c.id;
  id-read_back = λ c. refl;
  parse-sign = λ c secret token now key e known started ends.
      subst (λ x. parse now x key ≡ some (claims_of c.id, true)) (some_inj e)
        (rw (parse, known, strip-append secret c.id) refl);
}

abbrev clock : ℕ → Moment
clock k = utc (pos k)

abbrev puzzle : Puzzle
puzzle = record {
  challenge = hex_encode (replicate 16 7);
  salt = hex_encode (replicate 16 8);
  difficulty = pos 1;
  expires_at = utc (pos 600_000_000_001);
  hmac = hex_encode (70 ∷ 6 ∷ replicate 30 0);
}

abbrev solution : Solution
solution = record { argon_hash = codes "00000000000000000000"; nonce = 2 }

routed : Routed (served toy_config).mux
unfolding proxy_common.Common.GoMap.lookup proxy_common.Common.GoMap.insert
    proxy_common.Common.Bytes.bytes_eq
routed = record { status = refl; puzzle = refl; solve = refl; verify = refl }

smooth :
    IsSmooth platform platform_laws library library_laws toy_config
      (served toy_config).mux
      routed
      clock
      (replicate 16 7)
      (replicate 16 8)
      2
      puzzle
      solution
      (toy_secret ++ puzzle.challenge)
unfolding proxy_common.Auth.Puzzle.generate proxy_common.Common.◌+ℤ◌ hex_encode
    proxy_common.Auth.Puzzle.minutes64 proxy_common.Common.Decimal.decimal_ℤ
    proxy_common.Common.Int64.wrap64 proxy_common.Common.scale proxy_common.Auth.Puzzle.solve
    proxy_common.Auth.Puzzle.solve_within proxy_common.Auth.Puzzle.solve_loop
    proxy_common.Auth.Puzzle.check_difficulty proxy_common.Auth.Puzzle.compute_argon2_hash
smooth = record {
  length-challenge = refl;
  length-salt = refl;
  hard = (0, refl);
  limit = refl;
  positive = omega arith;
  sized = omega arith;
  made = refl;
  found = refl;
  long_hash = omega arith;
  in_time = omega arith;
  signed = refl;
  long_token = omega arith;
  later = λ k small. omega arith;
  not_expired = λ k small. omega (arith, +ℤ_parts (pos (4 + k)) (pos second));
}

session_example :
    (session platform
      (net platform platform_laws library library_laws toy_config
        (served toy_config).mux
        routed
        clock
        (replicate 16 7)
        (replicate 16 8))
      []
      (record { handlers = new toy_config; readings = 0 })).0
    ≡ passed 2 (toy_secret ++ puzzle.challenge) (true ∷ false ∷ false ∷ [])
session_example =
    session_lem platform platform_laws library library_laws toy_config (served toy_config).mux
      routed clock (replicate 16 7) (replicate 16 8) 2 puzzle solution
      (toy_secret ++ puzzle.challenge) smooth
