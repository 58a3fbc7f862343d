-- ===== src/Cache/Metrics.antt =====
-- cache/metrics/metrics.go: the cache metrics. What the methods call of the package `prometheus` is
-- a list of samples (Common/Samples).
pub mod Calls
pub mod Recorder
pub mod Accounts
pub mod Labels
use proxy_common.Common.{
  ℕ, Bool, true, false, ◌||◌, Option, none, some, List, [], ◌∷◌, ◌++◌, ℤ, pos, ltb_ℤ, if◌then◌else◌,
}
use proxy_common.Common.Bytes.{Bytes, codes, bytes_eq, bytes_has_eq}
use proxy_common.Common.GoMap.{GoMap, insert, lookup_or}
use proxy_common.Common.Samples.{Vec, Series, Sample, inc, add, set, observe}

pub record Config : Type 0 where
  pub namespace : Bytes
  pub subsystem : Bytes

-- `allowed_methods` is `none` for the nil map, which `InitializeAllowedMethods` replaces.
pub record CacheMetrics : Type 0 where
  pub namespace : Bytes
  pub subsystem : Bytes
  pub allowed_methods : Option (GoMap Bytes Bool)
  pub requests : Vec
  pub hits : Vec
  pub misses : Vec
  pub sets : Vec
  pub evictions : Vec
  pub errors : Vec
  pub bytes_read : Vec
  pub bytes_written : Vec
  pub operation_duration : Vec
  pub item_age : Vec
  pub keys : Vec
  pub capacity : Vec
  pub used : Vec

abbrev or_default : Bytes → Bytes → Bytes
or_default s d = if bytes_eq s [] then d else s

-- `New`, without the registration, which panics on a second use of the same names
unfoldable pub new : Config → CacheMetrics
new cfg =
    let namespace = or_default cfg.namespace (codes "proxy") in
    let subsystem = or_default cfg.subsystem (codes "cache") in
    let vec : Bytes → List Bytes → Vec = λ name label_names. record {
      namespace = namespace;
      subsystem = subsystem;
      name = name;
      label_names = label_names;
    } in
    let by_request =
      codes "cache_type" ∷ codes "level" ∷ codes "network" ∷ codes "rpc_method" ∷ [] in
    let by_network = codes "level" ∷ codes "cache_type" ∷ codes "network" ∷ [] in
    record {
      namespace = namespace;
      subsystem = subsystem;
      allowed_methods = none;
      requests = vec (codes "requests_total") by_request;
      hits = vec (codes "hits_total") by_request;
      misses = vec (codes "misses_total") by_request;
      sets = vec (codes "sets_total") by_network;
      evictions = vec (codes "evictions_total") by_network;
      errors = vec (codes "errors_total") (codes "level" ∷ codes "kind" ∷ []);
      bytes_read = vec (codes "bytes_read_total") by_network;
      bytes_written = vec (codes "bytes_written_total") by_network;
      operation_duration =
          vec (codes "operation_duration_seconds") (codes "operation" ∷ codes "level" ∷ []);
      item_age = vec (codes "item_age_seconds") (codes "level" ∷ codes "cache_type" ∷ []);
      keys = vec (codes "keys") (codes "level" ∷ []);
      capacity = vec (codes "capacity_bytes") (codes "level" ∷ []);
      used = vec (codes "used_bytes") (codes "level" ∷ []);
    }

-- the loop of `InitializeAllowedMethods`
unfoldable pub allow : List Bytes → GoMap Bytes Bool → GoMap Bytes Bool
allow [] allowed = allowed
allow (method ∷ methods) allowed = allow methods (insert method true allowed)

unfoldable pub initialize_allowed_methods : List Bytes → CacheMetrics → CacheMetrics
unfolding allow
initialize_allowed_methods methods m = record m { allowed_methods = some (allow methods []) }

unfoldable pub normalize_rpc_method : CacheMetrics → Bytes → Bytes
normalize_rpc_method m method = elim m.allowed_methods [
  | none ↦ codes "other"
  | some allowed ↦ if lookup_or false method allowed then method else codes "other"
]

unfoldable pub normalize_network : Bytes → Bytes → Bytes
normalize_network chain network =
    if bytes_eq chain [] || bytes_eq network []
    then codes "unknown"
    else chain ++ (codes ":" ++ network)

abbrev pub with_labels : Vec → List Bytes → Series
with_labels vec labels = record { vec = vec; labels = labels }

module _ (m : CacheMetrics) where
  -- The duration of `itemAge` is in nanoseconds.
  unfoldable pub record_cache_hit : Bytes → Bytes → Bytes → Bytes → Bytes → ℤ → List Sample
  unfolding normalize_network normalize_rpc_method
  record_cache_hit cache_type level chain network rpc_method item_age =
      let labels =
        cache_type
        ∷ level
        ∷ normalize_network chain network
        ∷ normalize_rpc_method m rpc_method
        ∷ [] in
      inc (with_labels m.requests labels)
      ∷ inc (with_labels m.hits labels)
      ∷ (if ltb_ℤ (pos 0) item_age
          then observe (with_labels m.item_age (level ∷ cache_type ∷ [])) ∷ []
          else [])

  unfoldable pub record_cache_miss : Bytes → Bytes → Bytes → Bytes → List Sample
  unfolding normalize_network normalize_rpc_method
  record_cache_miss cache_type chain network rpc_method =
      let labels =
        cache_type
        ∷ codes "miss"
        ∷ normalize_network chain network
        ∷ normalize_rpc_method m rpc_method
        ∷ [] in
      inc (with_labels m.requests labels) ∷ inc (with_labels m.misses labels) ∷ []

  unfoldable pub record_cache_set : Bytes → Bytes → Bytes → Bytes → ℤ → List Sample
  unfolding normalize_network
  record_cache_set level cache_type chain network data_size =
      let labels = level ∷ cache_type ∷ normalize_network chain network ∷ [] in
      inc (with_labels m.sets labels)
      ∷ (if ltb_ℤ (pos 0) data_size
          then add (with_labels m.bytes_written labels) data_size ∷ []
          else [])

  unfoldable pub record_cache_eviction : Bytes → Bytes → Bytes → Bytes → List Sample
  unfolding normalize_network
  record_cache_eviction level cache_type chain network =
      inc (with_labels m.evictions (level ∷ cache_type ∷ normalize_network chain network ∷ [])) ∷ []

  unfoldable pub record_cache_error : Bytes → Bytes → List Sample
  record_cache_error level kind = inc (with_labels m.errors (level ∷ kind ∷ [])) ∷ []

  unfoldable pub record_cache_bytes_read : Bytes → Bytes → Bytes → Bytes → ℤ → List Sample
  unfolding normalize_network
  record_cache_bytes_read level cache_type chain network bytes_read =
      if ltb_ℤ (pos 0) bytes_read
      then add
          (with_labels m.bytes_read (level ∷ cache_type ∷ normalize_network chain network ∷ []))
          bytes_read
        ∷ []
      else []

  unfoldable pub update_l1_cache_capacity : ℤ → ℤ → List Sample
  update_l1_cache_capacity capacity used =
      set (with_labels m.capacity (codes "l1" ∷ [])) capacity
      ∷ set (with_labels m.used (codes "l1" ∷ [])) used
      ∷ []

  unfoldable pub update_cache_keys : Bytes → ℤ → List Sample
  update_cache_keys level count = set (with_labels m.keys (level ∷ [])) count ∷ []

  -- `TimeCacheOperation`, with the call of the function that it returns
  unfoldable pub time_cache_operation : Bytes → Bytes → List Sample
  time_cache_operation operation level =
      observe (with_labels m.operation_duration (operation ∷ level ∷ [])) ∷ []

  unfoldable pub time_cache_get_operation : Bytes → List Sample
  unfolding time_cache_operation
  time_cache_get_operation level = time_cache_operation (codes "get") level
