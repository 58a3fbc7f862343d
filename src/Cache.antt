-- ===== src/Cache.antt =====
-- cache/interfaces.go: the contract of a cache, as the operations of the Go interface on a state of
-- type `S` and the laws that its clients rely on. One operation reads the clock once, in Unix
-- seconds; logging is left out.
pub mod Lifetime
pub mod Deadlines
pub mod Noop
pub mod L1
pub mod L2
pub mod Multi
pub mod Level
pub mod Config
pub mod Metrics
pub mod History
pub mod Held
pub mod Provenance
use proxy_common.Common.{◌≡◌, ◌≢◌, ◌↔◌, Bool, true, false, Option, none, some, ℤ}
use proxy_common.Common.Bytes.{Bytes}
use proxy_common.Common.Int64.{add64, whole_seconds}
use proxy_common.Models.{CacheEntry, CacheResult, cache_level_miss, Ttl, is_expired}

-- What `Get` and `GetStale` return: `(*CacheEntry, bool)`, with `none` for a nil pointer.
abbrev pub Answer : Type 0
Answer = Option CacheEntry × Bool

abbrev pub not_found : Answer
not_found = (none, false)

-- the interface `Cache`
pub record CacheOps (S : Type 0) : Type 0 where
  pub get : ℤ → Bytes → S → Answer × S
  pub get_stale : ℤ → Bytes → S → Answer × S
  pub set : ℤ → Bytes → Bytes → Ttl → S → S
  pub delete : Bytes → S → S

-- the interface `LevelAwareCache`, which has the methods of `Cache` too
pub record LevelAwareOps (S : Type 0) : Type 0 where
  pub cache : CacheOps S
  pub get_with_level : ℤ → Bytes → S → CacheResult × S
  pub get_stale_with_level : ℤ → Bytes → S → CacheResult × S

-- an answer that is found has an entry, which has not expired; one that is not found has none
pub data IsSound (now : ℤ) : Answer → Type 0 where
  hit : (e : CacheEntry) → is_expired now e ≡ false → IsSound now (some e, true)
  miss : IsSound now (none, false)

-- What a client may rely on: no answer is expired, and a deleted key is not found until it is set.
pub record CacheLaws {S : Type 0} (ops : CacheOps S) : Type 0 where
  pub get_sound : (now : ℤ) (k : Bytes) (s : S) → IsSound now (ops.get now k s).0
  pub get_stale_sound : (now : ℤ) (k : Bytes) (s : S) → IsSound now (ops.get_stale now k s).0
  pub get-delete : (now : ℤ) (k : Bytes) (s : S) → (ops.get now k (ops.delete k s)).0 ≡ not_found
  pub get_stale-delete :
      (now : ℤ) (k : Bytes) (s : S) → (ops.get_stale now k (ops.delete k s)).0 ≡ not_found

-- A read with a level does what the read without it does; its level is the one of a miss exactly if
-- nothing is found.
pub record IsLeveled {S : Type 0} (read : Answer × S) (leveled : CacheResult × S) : Type 0 where
  pub same : read ≡ ((leveled.0.entry, leveled.0.found), leveled.1)
  pub level_miss : (leveled.0.level ≡ cache_level_miss) ↔ (leveled.0.found ≡ false)

pub record LevelAwareLaws {S : Type 0} (ops : LevelAwareOps S) : Type 0 where
  pub cache_laws : CacheLaws ops.cache
  pub get_leveled :
      (now : ℤ) (k : Bytes) (s : S) → IsLeveled (ops.cache.get now k s) (ops.get_with_level now k s)
  pub get_stale_leveled :
      (now : ℤ) (k : Bytes) (s : S)
      → IsLeveled (ops.cache.get_stale now k s) (ops.get_stale_with_level now k s)

-- The entry that `Set` of both levels builds (cache/l1/bigcache.go, cache/l2/keydb.go).
unfoldable pub new_entry : ℤ → Bytes → Ttl → CacheEntry
new_entry now val ttl = record {
  payload = val;
  created_at = now;
  stale_at = add64 now (whole_seconds ttl.fresh);
  expires_at = add64 (add64 now (whole_seconds ttl.fresh)) (whole_seconds ttl.stale);
}
