-- ===== src/Cache/Metrics/Calls.antt =====
-- Calls of the methods of `CacheMetrics` (cache/metrics/metrics.go) as values, in any order.
use proxy_common.Common.{List, [], ◌∷◌, ◌++◌, ℤ}
use proxy_common.Common.Bytes.{Bytes}
use proxy_common.Common.Samples.{Sample}
use proxy_common.Cache.Metrics.{
  CacheMetrics, record_cache_hit, record_cache_miss, record_cache_set, record_cache_eviction,
  record_cache_error, record_cache_bytes_read, update_l1_cache_capacity, update_cache_keys,
  time_cache_operation,
}

pub data Call : Type 0 where
  hit : (cache_type level chain network rpc_method : Bytes) → (item_age : ℤ) → Call
  miss : (cache_type chain network rpc_method : Bytes) → Call
  stored : (level cache_type chain network : Bytes) → (data_size : ℤ) → Call
  evicted : (level cache_type chain network : Bytes) → Call
  failed : (level kind : Bytes) → Call
  read : (level cache_type chain network : Bytes) → (bytes_read : ℤ) → Call
  sized : (capacity used : ℤ) → Call
  counted : (level : Bytes) → (count : ℤ) → Call
  timed : (operation level : Bytes) → Call

unfoldable pub perform : CacheMetrics → Call → List Sample
perform m (hit t l c n r age) = record_cache_hit m t l c n r age
perform m (miss t c n r) = record_cache_miss m t c n r
perform m (stored l t c n size) = record_cache_set m l t c n size
perform m (evicted l t c n) = record_cache_eviction m l t c n
perform m (failed l k) = record_cache_error m l k
perform m (read l t c n size) = record_cache_bytes_read m l t c n size
perform m (sized capacity used) = update_l1_cache_capacity m capacity used
perform m (counted l count) = update_cache_keys m l count
perform m (timed operation l) = time_cache_operation m operation l

unfoldable pub perform_all : CacheMetrics → List Call → List Sample
unfolding perform
perform_all m [] = []
perform_all m (call ∷ calls) = perform m call ++ perform_all m calls
