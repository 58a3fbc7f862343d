-- ===== src/Auth/Handlers.antt =====
-- auth/handlers/handlers.go: the HTTP handlers over the configuration and the uses of each token.
-- A request is what the handler reads of it, already decoded from JSON; a response is its status
-- and what the handler writes. One call reads the clock once. `verify_handler` holds the mutex
-- around the test and the count, so calls that overlap act one after the other.
pub mod Verify
pub mod Limit
pub mod Issue
pub mod Solve
pub mod Earn
use proxy_common.Common.{
  ℕ, ◌≡◌, Bool, true, false, ◌&&◌, ◌||◌, Option, none, some, List, [], ◌∷◌, ◌++◌, ℤ, pos, ◌+ℤ◌,
  ◌-ℤ◌, ltb_ℤ, leb_ℤ, ◌==◌, if◌then◌else◌,
}
use proxy_common.Common.Bytes.{Bytes, codes, bytes_eq, bytes_has_eq}
use proxy_common.Common.Int64.{add64, sub64}
use proxy_common.Common.Decimal.{decimal_ℤ}
use proxy_common.Common.GoMap.{GoMap, lookup, insert, lookup_or}
use proxy_common.Auth.Config.{Config, Argon2Config}
use proxy_common.Auth.Puzzle.{Platform, Puzzle, Solution}
use proxy_common.Auth.Puzzle
use proxy_common.Auth.Jwt.{Claims, Library}
use proxy_common.Auth.Jwt

-- The calls of `MetricsRecorder`, in order.
pub data Metric : Type 0 where
  puzzle_attempt : Bytes → Metric
  token_verification : Bytes → Metric
  puzzles_solved tokens_issued : Metric

pub record Handlers : Type 0 where
  pub config : Config
  pub token_usage : GoMap Bytes ℤ
  pub metrics : List Metric

unfoldable pub new : Config → Handlers
new cfg = record { config = cfg; token_usage = []; metrics = [] }

abbrev pub record_metric : Metric → Handlers → Handlers
record_metric metric h = record h { metrics = h.metrics ++ metric ∷ [] }

-- `strings.SplitN(s, sep, 2)`: the text before the first `sep`, and that behind it, if there is one
unfoldable pub split_first : ℕ → Bytes → Bytes × Option Bytes
split_first sep [] = ([], none)
split_first sep (c ∷ s) =
    let (before, behind) = split_first sep s in
    if c == sep then ([], some s) else (c ∷ before, behind)

-- the token of the header `Authorization`, or `""`
unfoldable pub bearer_token : Bytes → Bytes
unfolding split_first
bearer_token header =
    let (scheme, rest) = split_first 32 header in
    elim rest [ none ↦ [] | some token ↦ if bytes_eq scheme (codes "Bearer") then token else [] ]

-- What `VerifyHandler` reads of a request: the header `Authorization` and the query's `token`, each
-- `""` if absent.
pub record VerifyRequest : Type 0 where
  pub authorization : Bytes
  pub query_token : Bytes

unfoldable pub request_token : VerifyRequest → Bytes
unfolding bearer_token
request_token r =
    let token = bearer_token r.authorization in if bytes_eq token [] then r.query_token else token

-- The status, and the headers `X-RateLimit-Limit` and `X-RateLimit-Remaining`, if they are set.
pub record VerifyResponse : Type 0 where
  pub status : ℕ
  pub rate_limit : Option (Bytes × Bytes)

-- the part of `VerifyHandler` behind `jwt.Verify`
unfoldable pub count_use : Bytes → Handlers → VerifyResponse × Handlers
count_use token_id h =
    let limit = h.config.requests_per_token in
    let current_usage = lookup_or (pos 0) token_id h.token_usage in
    let new_usage = add64 current_usage (pos 1) in
    if bytes_eq token_id []
    then (
      record { status = 200; rate_limit = none },
      record_metric (token_verification (codes "success")) h,
    )
    else if leb_ℤ limit current_usage
    then (
      record { status = 429; rate_limit = some (decimal_ℤ limit, codes "0") },
      record_metric (token_verification (codes "rate_limited")) h,
    )
    else (
      record {
        status = 200;
        rate_limit = some (decimal_ℤ limit, decimal_ℤ (sub64 limit new_usage));
      },
      record_metric (token_verification (codes "success"))
          (record h { token_usage = insert token_id new_usage h.token_usage }),
    )

module _ (lib : Library) where
  -- `VerifyHandler` at `now`
  unfoldable pub verify_handler : ℤ → VerifyRequest → Handlers → VerifyResponse × Handlers
  verify_handler now r h =
      let token = request_token r in
      if bytes_eq token []
      then (
        record { status = 401; rate_limit = none },
        record_metric (token_verification (codes "missing_token")) h,
      )
      else elim (Jwt.verify lib now token h.config.jwt_secret) [
        | none ↦ (
          record { status = 401; rate_limit = none },
          record_metric (token_verification (codes "invalid_token")) h,
        )
        | some claims ↦ count_use claims.id h
      ]
