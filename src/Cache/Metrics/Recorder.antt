-- ===== src/Cache/Metrics/Recorder.antt =====
-- The interface `MetricsRecorder` of cache/interfaces.go, as what each method calls of the package
-- `prometheus`, with the two recorders of the repository.
use proxy_common.Common.{List, [], ℤ}
use proxy_common.Common.Bytes.{Bytes}
use proxy_common.Common.Samples.{Sample}
use proxy_common.Cache.Metrics.{
  CacheMetrics, record_cache_hit, record_cache_miss, record_cache_set, record_cache_error,
  record_cache_bytes_read, update_l1_cache_capacity, update_cache_keys, time_cache_operation,
}

pub record MetricsRecorder : Type 0 where
  pub cache_error : Bytes → Bytes → List Sample
  pub l1_cache_capacity : ℤ → ℤ → List Sample
  pub cache_keys : Bytes → ℤ → List Sample
  pub cache_hit : Bytes → Bytes → Bytes → Bytes → Bytes → ℤ → List Sample
  pub cache_miss : Bytes → Bytes → Bytes → Bytes → List Sample
  pub cache_set : Bytes → Bytes → Bytes → Bytes → ℤ → List Sample
  pub cache_bytes_read : Bytes → Bytes → Bytes → Bytes → ℤ → List Sample
  pub cache_operation : Bytes → Bytes → List Sample

-- `NoopMetrics`
abbrev pub noop_metrics : MetricsRecorder
noop_metrics = record {
  cache_error = λ level kind. [];
  l1_cache_capacity = λ capacity used. [];
  cache_keys = λ level count. [];
  cache_hit = λ cache_type level chain network rpc_method item_age. [];
  cache_miss = λ cache_type chain network rpc_method. [];
  cache_set = λ level cache_type chain network data_size. [];
  cache_bytes_read = λ level cache_type chain network bytes_read. [];
  cache_operation = λ operation level. [];
}

-- `CacheMetrics` as a recorder
abbrev pub recorder_of : CacheMetrics → MetricsRecorder
recorder_of m = record {
  cache_error = record_cache_error m;
  l1_cache_capacity = update_l1_cache_capacity m;
  cache_keys = update_cache_keys m;
  cache_hit = record_cache_hit m;
  cache_miss = record_cache_miss m;
  cache_set = record_cache_set m;
  cache_bytes_read = record_cache_bytes_read m;
  cache_operation = time_cache_operation m;
}
