-- ===== src/Tests/Lives.antt =====
-- A run of an in-memory level from its construction to behind its `Close` (cache/l1/bigcache.go).
use proxy_common.Common.{◌≡◌, refl, true, some, [], ◌∷◌, ◌++◌, ℤ, pos}
use proxy_common.Common.Bytes.{Bytes, codes}
use proxy_common.Common.GoMap.{GoMap}
use proxy_common.Common.Samples.{Sample}
use proxy_common.Common.Samples
use proxy_common.Scheduler.{
  in_task, new, start, begin_stop, end_stop, cancel, is_running, tick, task_returns, quit,
}
use proxy_common.Cache.Config.{BigCacheConfig, big_cache_defaults}
use proxy_common.Cache.L1.{delete}
use proxy_common.Cache.Metrics.Recorder.{MetricsRecorder, noop_metrics}
use proxy_common.Cache.L1.Collect.{
  StoreControl, Collected, with_metrics, get_stats, update_metrics, start_metrics_collection,
  apply_options, big_cache_of, new_big_cache, stop_metrics_collection, close_store,
}
use proxy_common.Cache.L1.Closing.{
  performed, Events, here, next, deletes, close_begins, close_waited, closes, works, closed-silent,
  close_can_end,
}
use proxy_common.Tests.Levels.{plain_codec, map_store, key}

abbrev map_control : StoreControl (GoMap Bytes Bytes)
map_control = record {
  new_store = λ config. some [];
  capacity = λ b. pos 100;
  hits = λ b. pos 2;
  misses = λ b. pos 1;
  close = λ b. (true, []);
}

abbrev published : ℤ → Sample
published n =
    Samples.set
      (record {
        vec = record { namespace = []; subsystem = []; name = codes "capacity"; label_names = [] };
        labels = [];
      })
      n

abbrev gauges_only : MetricsRecorder
gauges_only = record noop_metrics { l1_cache_capacity = λ capacity used. published capacity ∷ [] }

abbrev unset : BigCacheConfig
unset = record { enabled = true; size = pos 0; max_entry_size = pos 0; shards = pos 0 }

abbrev made : Collected (GoMap Bytes Bytes)
made = record {
  state = record { cache = []; max_entry_size = pos 1_048_576; metrics = [] };
  scheduler = some (start new);
  recorder = gauges_only;
  gauges = published (pos 100) ∷ [];
}

-- the task runs once, while `Close` waits
abbrev stopped : Collected (GoMap Bytes Bytes)
stopped = record made { scheduler = some new; gauges = made.gauges ++ made.gauges }

new_big_cache-made : new_big_cache map_control unset (with_metrics gauges_only ∷ []) ≡ some made
unfolding new_big_cache big_cache_defaults big_cache_of start_metrics_collection apply_options
    update_metrics get_stats start
new_big_cache-made = refl

run_to_stop : Events map_control plain_codec map_store made stopped
unfolding start begin_stop end_stop cancel performed update_metrics get_stats
    stop_metrics_collection
run_to_stop = next (works (start new) refl tick) (
    next (close_begins _ refl refl) (
      next (works _ refl task_returns)
        (next (works _ refl quit) (next (close_waited _ refl refl refl) here))))

abbrev closed : Collected (GoMap Bytes Bytes)
closed = stopped

run_closed : Events map_control plain_codec map_store (close_store map_control stopped).1 closed
unfolding close_store is_running delete stop_metrics_collection begin_stop
run_closed = next (deletes key) (next (close_begins _ refl refl) (next (closes _ refl refl) here))

closed-silent_example : (new.workers ≡ []) × (closed.gauges ≡ stopped.gauges)
unfolding is_running
closed-silent_example =
    closed-silent map_control plain_codec map_store unset (with_metrics gauges_only ∷ []) made
      stopped closed new new_big_cache-made run_to_stop refl refl run_closed

-- `Close` waits for the task
abbrev closing : Collected (GoMap Bytes Bytes)
closing = record made {
  scheduler = some (record {
    running = true;
    stopping = true;
    workers = record { cancelled = true; place = in_task } ∷ [];
  });
}

run_to_wait : Events map_control plain_codec map_store made closing
unfolding start begin_stop cancel performed stop_metrics_collection
run_to_wait = next (works (start new) refl tick) (next (close_begins _ refl refl) here)

close_can_end_example :
    (c : Collected (GoMap Bytes Bytes)) × Events map_control plain_codec map_store closing c
    × (c.scheduler ≡ some new)
    × (c.state.cache ≡ [])
close_can_end_example =
    close_can_end map_control plain_codec map_store unset (with_metrics gauges_only ∷ []) made
      closing _ new_big_cache-made run_to_wait refl refl
