-- ===== src/Cache/L1/Collect.antt =====
-- The construction of cache/l1/bigcache.go, its metrics task and its end. The package `bigcache` is a
-- parameter, the scheduler is that of Scheduler.
use proxy_common.Common.{Bool, false, Option, none, some, List, [], ◌∷◌, ◌++◌, ℤ, pos}
use proxy_common.Common.Bytes.{codes}
use proxy_common.Common.Int64.{add64}
use proxy_common.Scheduler
use proxy_common.Scheduler.{Scheduler, start, begin_stop}
use proxy_common.Cache.Config.{BigCacheConfig, big_cache_defaults}
use proxy_common.Cache.L1.{BigCache}
use proxy_common.Common.Samples.{Sample}
use proxy_common.Cache.Metrics.Recorder.{MetricsRecorder, noop_metrics}

-- The fields of `bigcache.Config` that the code sets; durations are nanoseconds.
pub record StoreConfig : Type 0 where
  pub life_window : ℤ
  pub hard_max_cache_size : ℤ
  pub verbose : Bool
  pub max_entry_size : ℤ
  pub shards : ℤ

-- `bigcache.New` (`none` is an error), `Capacity`, the counts of `Stats`, and `Close` with whether
-- it succeeds
pub record StoreControl (B : Type 0) : Type 0 where
  pub new_store : StoreConfig → Option B
  pub capacity : B → ℤ
  pub hits : B → ℤ
  pub misses : B → ℤ
  pub close : B → Bool × B

-- A cache with its recorder and its task; `gauges` is what the task has published.
pub record Collected (B : Type 0) : Type 0 where
  pub state : BigCache B
  pub scheduler : Option Scheduler
  pub recorder : MetricsRecorder
  pub gauges : List Sample

-- the functions that make an `Option`; the log is left out
pub data L1Option : Type 0 where
  with_logger : L1Option
  with_metrics : MetricsRecorder → L1Option

module _ {B : Type 0} (control : StoreControl B) where
  unfoldable pub get_stats : BigCache B → ℤ × ℤ
  get_stats bc =
      (control.capacity bc.cache, add64 (control.hits bc.cache) (control.misses bc.cache))

  unfoldable pub update_metrics : Collected B → Collected B
  unfolding get_stats
  update_metrics c =
      let (capacity, used) = get_stats c.state in
      let total_ops = add64 (control.hits c.state.cache) (control.misses c.state.cache) in
      record c {
        gauges =
            c.gauges
            ++ (c.recorder.l1_cache_capacity capacity used
                ++ c.recorder.cache_keys (codes "l1") total_ops);
      }

  unfoldable pub start_metrics_collection : Collected B → Collected B
  unfolding update_metrics start
  start_metrics_collection c = update_metrics (record c { scheduler = some (start Scheduler.new) })

  abbrev pub store_config : BigCacheConfig → StoreConfig
  store_config cfg = record {
    life_window = pos 600_000_000_000;
    hard_max_cache_size = cfg.size;
    verbose = false;
    max_entry_size = cfg.max_entry_size;
    shards = cfg.shards;
  }

  -- the loop over the options
  unfoldable pub apply_options : List L1Option → Collected B → Collected B
  apply_options [] c = c
  apply_options (with_logger ∷ opts) c = apply_options opts c
  apply_options (with_metrics metrics ∷ opts) c =
      apply_options opts (record c { recorder = metrics })

  -- `NewBigCache` behind `bigcache.New`
  unfoldable pub big_cache_of : BigCacheConfig → List L1Option → B → Collected B
  unfolding start_metrics_collection apply_options
  big_cache_of cfg opts c =
      let bc : Collected B = record {
        state = record { cache = c; max_entry_size = cfg.max_entry_size; metrics = [] };
        scheduler = none;
        recorder = noop_metrics;
        gauges = [];
      } in
      start_metrics_collection (apply_options opts bc)

  unfoldable pub new_big_cache : BigCacheConfig → List L1Option → Option (Collected B)
  unfolding big_cache_defaults big_cache_of
  new_big_cache config opts =
      let cfg = big_cache_defaults config in
      elim (control.new_store (store_config cfg)) [
        | none ↦ none
        | some c ↦ some (big_cache_of cfg opts c)
      ]

  -- `stopMetricsCollection`, up to the wait for the goroutine
  unfoldable pub stop_metrics_collection : Collected B → Collected B
  unfolding begin_stop
  stop_metrics_collection c = elim c.scheduler [
    | none ↦ c
    | some s ↦ record c { scheduler = some (begin_stop s) }
  ]

  -- the end of `Close`, behind the wait
  unfoldable pub close_store : Collected B → Bool × Collected B
  close_store c =
      let (ok, cache) = control.close c.state.cache in
      (ok, record c { state = record c.state { cache = cache } })
