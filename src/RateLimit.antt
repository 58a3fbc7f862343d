-- ===== src/RateLimit.antt =====
-- ratelimit/manager.go and ratelimit/config.go: one rate limiter for each key and key type.
-- A `*rate.Limiter` is its place in `limiters`, the limiters made so far. A `rate.Limit` n / 60 is
-- the number n; that `float64` divides and rounds up as written here needs n below 2^53. Token
-- buckets are the package `rate`'s, which the manager only creates.
pub mod Keys
pub mod Settings
pub mod Sharing
use proxy_common.Common.{
  ℕ, ◌+◌, ◌-◌, ◌/◌, ◌%◌, ◌^◌, ◌≡◌, Bool, true, false, ◌&&◌, ◌||◌, Option, none, some, List, [], ◌∷◌,
  ◌++◌, ℤ, pos, negsuc, ltb, leb, ltb_ℤ, leb_ℤ, eqb_ℤ, eqb_ℤ_iff, if◌then◌else◌, length,
}
use proxy_common.Common.Bytes.{Bytes, Eq, codes, bytes_has_eq}
use proxy_common.Common.GoMap.{GoMap, lookup, insert}
use proxy_common.ApiKeys.{KeyType}

instance abbrev pub int_has_eq : Eq ℤ
int_has_eq = record { beq = eqb_ℤ; beq_iff = eqb_ℤ_iff }

pub record RateLimit : Type 0 where
  pub rate_limit_per_minute : ℤ
  pub burst : ℤ

-- `rate.NewLimiter(limit, burst)`
pub record Limiter : Type 0 where
  pub limit : ℤ
  pub burst : ℤ

pub record Manager : Type 0 where
  pub key_to_limiter : GoMap Bytes ℕ
  pub config : GoMap ℤ RateLimit
  pub limiters : List Limiter

unfoldable pub new_manager : GoMap ℤ RateLimit → Manager
new_manager config = record { key_to_limiter = []; config = config; limiters = [] }

unfoldable pub set_config : GoMap ℤ RateLimit → Manager → Manager
set_config new_config m = record m { config = new_config; key_to_limiter = [] }

-- `rune(n)`, where a negative `int32` is `none`
unfoldable pub to_rune : ℤ → Option ℕ
to_rune (pos n) = if ltb (n % 2 ^ 32) (2 ^ 31) then some (n % 2 ^ 32) else none
to_rune (negsuc n) = if ltb (n % 2 ^ 32) (2 ^ 31) then none else some (2 ^ 32 - 1 - n % 2 ^ 32)

-- the text of U+FFFD
abbrev pub replacement : Bytes
replacement = 239 ∷ 191 ∷ 189 ∷ []

-- `string(r)` of a rune: UTF-8
unfoldable pub rune_text : ℕ → Bytes
rune_text r =
    if ltb r 128
    then r ∷ []
    else if ltb r 2048
    then (192 + r / 64) ∷ (128 + r % 64) ∷ []
    else if (leb 55296 r && leb r 57343) || leb 1114112 r
    then replacement
    else if ltb r 65536
    then (224 + r / 4096) ∷ (128 + r / 64 % 64) ∷ (128 + r % 64) ∷ []
    else (240 + r / 262144) ∷ (128 + r / 4096 % 64) ∷ (128 + r / 64 % 64) ∷ (128 + r % 64) ∷ []

unfoldable pub type_text : KeyType → Bytes
unfolding to_rune rune_text
type_text key_type = elim (to_rune key_type) [ none ↦ replacement | some r ↦ rune_text r ]

unfoldable pub limiter_map_key : Bytes → KeyType → Bytes
unfolding type_text
limiter_map_key key key_type = type_text key_type ++ codes "|" ++ key

unfoldable pub default_burst_for_limit : ℤ → ℤ
default_burst_for_limit (negsuc n) = pos 1
default_burst_for_limit (pos n) = if leb n 60 then pos 1 else pos ((n + 59) / 60)

unfoldable pub limit_for_type : GoMap ℤ RateLimit → KeyType → ℤ
limit_for_type config key_type = elim (lookup key_type config) [
  | none ↦ pos 30
  | some cfg ↦ if ltb_ℤ (pos 0) cfg.rate_limit_per_minute then cfg.rate_limit_per_minute else pos 30
]

unfoldable pub burst_for_type : GoMap ℤ RateLimit → KeyType → ℤ → ℤ
unfolding default_burst_for_limit
burst_for_type config key_type limit = elim (lookup key_type config) [
  | none ↦ default_burst_for_limit limit
  | some cfg ↦ if ltb_ℤ (pos 0) cfg.burst then cfg.burst else default_burst_for_limit limit
]

-- the limiter that a configuration asks for
unfoldable pub limiter_for_type : GoMap ℤ RateLimit → KeyType → Limiter
unfolding limit_for_type burst_for_type
limiter_for_type config key_type =
    let limit = limit_for_type config key_type in
    record { limit = limit; burst = burst_for_type config key_type limit }

-- `GetLimiter` under the read lock
unfoldable pub find_limiter : Bytes → Manager → Option ℕ
find_limiter map_key m = lookup map_key m.key_to_limiter

-- `GetLimiter` under the write lock, with its second look
unfoldable pub create_limiter : Bytes → KeyType → Manager → ℕ × Manager
unfolding limiter_for_type
create_limiter map_key key_type m = elim (lookup map_key m.key_to_limiter) [
  | some lim ↦ (lim, m)
  | none ↦
      let limiter = length m.limiters in
      (
        limiter,
        record m {
          limiters = m.limiters ++ limiter_for_type m.config key_type ∷ [];
          key_to_limiter = insert map_key limiter m.key_to_limiter;
        },
      )
]

unfoldable pub get_limiter : Bytes → KeyType → Manager → ℕ × Manager
unfolding limiter_map_key find_limiter create_limiter
get_limiter key key_type m =
    let map_key = limiter_map_key key key_type in
    elim (find_limiter map_key m) [ some lim ↦ (lim, m) | none ↦ create_limiter map_key key_type m ]
