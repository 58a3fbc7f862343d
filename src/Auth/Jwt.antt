-- ===== src/Auth/Jwt.antt =====
-- auth/jwt/jwt.go: tokens. The package `golang-jwt` is a parameter.
use proxy_common.Common.{Bool, Option, none, some, ℤ, if◌then◌else◌}
use proxy_common.Common.Bytes.{Bytes}
use proxy_common.Auth.Puzzle.{Moment, minutes64, time_add}

-- The claims hold times as nanoseconds; the package does not read their locations.
pub record Claims : Type 0 where
  pub request_limit : ℤ
  pub challenge : Bytes
  pub expires_at : ℤ
  pub issued_at : ℤ
  pub id : Bytes

-- the method that the header of a token names
pub data SigningMethod : Type 0 where
  hmac_method other_method : SigningMethod

-- `sign` is `NewWithClaims(SigningMethodHS256, claims).SignedString(secret)`. `parse` at a time is
-- `ParseWithClaims` with the function that gives the key for a method (`none` is its error): the
-- claims and `token.Valid`, or `none` for an error.
pub record Library : Type 0 where
  pub sign : Claims → Bytes → Option Bytes
  pub parse : ℤ → Bytes → (SigningMethod → Option Bytes) → Option (Claims × Bool)

-- the key function of `Verify`: only HMAC methods have a key
abbrev pub key_for : Bytes → SigningMethod → Option Bytes
key_for secret hmac_method = some secret
key_for secret other_method = none

module _ (lib : Library) where
  abbrev pub claims_at : Moment → Bytes → ℤ → ℤ → Claims
  claims_at now challenge exp_minutes request_limit = record {
    request_limit = request_limit;
    challenge = challenge;
    expires_at = (time_add now (minutes64 exp_minutes)).instant;
    issued_at = now.instant;
    id = challenge;
  }

  -- `Generate` at `now`: the token and its expiry, or the error of the signature
  unfoldable pub generate : Moment → Bytes → Bytes → ℤ → ℤ → Option (Bytes × Moment)
  generate now secret challenge exp_minutes request_limit =
      let claims = claims_at now challenge exp_minutes request_limit in
      elim (lib.sign claims secret) [
        | none ↦ none
        | some token ↦ some (token, time_add now (minutes64 exp_minutes))
      ]

  -- `Verify` at `now`
  unfoldable pub verify : ℤ → Bytes → Bytes → Option Claims
  verify now token secret = elim (lib.parse now token (key_for secret)) [
    | none ↦ none
    | some (claims, valid) ↦ if valid then some claims else none
  ]
