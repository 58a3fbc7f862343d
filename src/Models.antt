-- ===== src/Models.antt =====
-- models/cache.go: cache entries with their two deadlines, time-to-live, levels and types.
-- `time.Now().Unix()` is the argument `now`; `TTL` holds durations in nanoseconds.
pub mod Levels
use proxy_common.Common.{
  ℕ, zero, suc, ◌+◌, Bool, true, false, ◌||◌, Option, none, some, [], ◌∷◌, ◌++◌, ℤ, pos, negsuc,
  ltb_ℤ, leb_ℤ, if◌then◌else◌,
}
use proxy_common.Common.Bytes.{Bytes, codes, bytes_eq}
use proxy_common.Common.Int64.{sub64, seconds64}
use proxy_common.Common.Decimal.{decimal}

abbrev pub CacheType : Type 0
CacheType = Bytes

abbrev pub cache_type_permanent : CacheType
cache_type_permanent = codes "permanent"

abbrev pub cache_type_short : CacheType
cache_type_short = codes "short"

abbrev pub cache_type_minimal : CacheType
cache_type_minimal = codes "minimal"

abbrev pub cache_type_none : CacheType
cache_type_none = codes "none"

-- The two errors of `UnmarshalYAML`: that of `value.Decode`, and its own.
pub data YamlError : Type 0 where
  not_a_string : YamlError
  invalid_cache_type : Bytes → YamlError

-- `UnmarshalYAML`: `decoded` is what `value.Decode` makes of the node, `c` the receiver's value.
-- The result is the error, if any, and the receiver's new value.
unfoldable pub unmarshal_yaml : Option Bytes → CacheType → Option YamlError × CacheType
unmarshal_yaml none c = (some not_a_string, c)
unmarshal_yaml (some str) c =
    if bytes_eq str (codes "permanent")
      || (bytes_eq str (codes "short")
          || (bytes_eq str (codes "minimal") || bytes_eq str (codes "none")))
    then (none, str)
    else (some (invalid_cache_type str), c)

abbrev pub CacheStatus : Type 0
CacheStatus = Bytes

-- `CacheStatus.IsValid`
unfoldable pub is_valid_status : CacheStatus → Bool
is_valid_status cs =
    bytes_eq cs (codes "HIT") || (bytes_eq cs (codes "MISS") || bytes_eq cs (codes "BYPASS"))

pub record Ttl : Type 0 where
  pub fresh : ℤ
  pub stale : ℤ

abbrev pub CacheLevel : Type 0
CacheLevel = Bytes

abbrev pub cache_level_l1 : CacheLevel
cache_level_l1 = codes "L1"

abbrev pub cache_level_l2 : CacheLevel
cache_level_l2 = codes "L2"

abbrev pub cache_level_miss : CacheLevel
cache_level_miss = codes "MISS"

-- the `switch` of `CacheLevelFromIndex`
unfoldable pub level_of_nat : ℕ → CacheLevel
level_of_nat zero = cache_level_l1
level_of_nat (suc zero) = cache_level_l2
level_of_nat (suc (suc n)) = codes "L" ++ decimal (suc (suc n) + 1)

unfoldable pub cache_level_from_index : ℤ → CacheLevel
unfolding level_of_nat
cache_level_from_index (negsuc n) = cache_level_l1
cache_level_from_index (pos n) = level_of_nat n

-- `Data` is the field `payload`.
pub record CacheEntry : Type 0 where
  pub payload : Bytes
  pub expires_at : ℤ
  pub stale_at : ℤ
  pub created_at : ℤ

pub record CacheResult : Type 0 where
  pub entry : Option CacheEntry
  pub found : Bool
  pub level : CacheLevel

unfoldable pub is_expired : ℤ → CacheEntry → Bool
is_expired now ce = ltb_ℤ ce.expires_at now

unfoldable pub is_fresh : ℤ → CacheEntry → Bool
is_fresh now ce = leb_ℤ now ce.stale_at

-- `if x < 0 { x = 0 }`
unfoldable pub at_least_zero : ℤ → ℤ
at_least_zero x = if ltb_ℤ x (pos 0) then pos 0 else x

unfoldable pub remaining_ttl : ℤ → CacheEntry → Ttl
unfolding at_least_zero
remaining_ttl now ce = record {
  fresh = seconds64 (at_least_zero (sub64 ce.stale_at now));
  stale = seconds64 (at_least_zero (sub64 ce.expires_at ce.stale_at));
}
