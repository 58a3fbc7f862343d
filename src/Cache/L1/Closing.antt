-- ===== src/Cache/L1/Closing.antt =====
-- The life of an in-memory level (cache/l1/bigcache.go): its methods, the goroutine that publishes
-- its metrics, and `Close`, in any order. `Close` is three steps: up to `wg.Wait()`, the end of the
-- wait, and the end of the store.
use proxy_common.Common.{
  ◌≡◌, refl, true, false, Option, some, some_inj, none, List, [], ℤ, subst, sym, ap, ◌∙◌,
}
use proxy_common.Common.Samples.{Sample}
use proxy_common.Common.Bytes.{Bytes}
use proxy_common.Models.{Ttl}
use proxy_common.Scheduler.{
  selecting, in_task, Scheduler, Worker, start, begin_stop, end_stop, is_running, Move, tick,
  task_returns, quit, other, starts, stop_begins, stop_ends, moves,
}
use proxy_common.Scheduler
use proxy_common.Scheduler.Runs.{IsSafe, at_rest, at_work, waiting, ended, Step-IsSafe}
use proxy_common.Cache.Config.{BigCacheConfig, big_cache_defaults}
use proxy_common.Cache.L1.{Codec, Store, get, get_stale, set, delete}
use proxy_common.Cache.L1.Collect.{
  StoreControl, Collected, L1Option, update_metrics, start_metrics_collection, store_config,
  big_cache_of, new_big_cache, stop_metrics_collection, close_store,
}

module _ {B : Type 0} (control : StoreControl B) (codec : Codec) (store : Store B) where
  -- what a move of the goroutine does: the task has run when it returns
  unfoldable pub performed : {ws ws' : List Worker} → Move ws ws' → Collected B → Collected B
  unfolding update_metrics
  performed tick c = c
  performed task_returns c = update_metrics control c
  performed quit c = c
  performed (other m) c = performed m c

  -- A call of a method, a part of a call of `Close`, or a move of the goroutine. The store is closed
  -- when `Stop` has returned, which leaves the scheduler stopped.
  pub data Event : Collected B → Collected B → Type 0 where
    gets :
        {c : Collected B} (now : ℤ) (key : Bytes)
        → Event c (record c { state = (get codec store now key c.state).1 })
    gets_stale :
        {c : Collected B} (now : ℤ) (key : Bytes)
        → Event c (record c { state = (get_stale codec store now key c.state).1 })
    sets :
        {c : Collected B} (now : ℤ) (key val : Bytes) (ttl : Ttl)
        → Event c (record c { state = set codec store now key val ttl c.state })
    deletes :
        {c : Collected B} (key : Bytes)
        → Event c (record c { state = delete codec store key c.state })
    close_begins :
        {c : Collected B} (s : Scheduler)
        → c.scheduler ≡ some s
        → s.stopping ≡ false
        → Event c (stop_metrics_collection control c)
    close_waited :
        {c : Collected B} (s : Scheduler)
        → c.scheduler ≡ some s
        → s.stopping ≡ true
        → s.workers ≡ []
        → Event c (record c { scheduler = some (end_stop s) })
    closes :
        {c : Collected B} (s : Scheduler)
        → c.scheduler ≡ some s
        → is_running s ≡ false
        → Event c ((close_store control c).1)
    works :
        {c : Collected B} (s : Scheduler) {ws : List Worker}
        → c.scheduler ≡ some s
        → (m : Move s.workers ws)
        → Event c (record (performed m c) { scheduler = some (record s { workers = ws }) })

  pub data Events : Collected B → Collected B → Type 0 where
    here : {c : Collected B} → Events c c
    next : {c c' c'' : Collected B} → Event c c' → Events c' c'' → Events c c''

  -- the scheduler of the level is in a state that can be reached
  data IsTracked (c : Collected B) : Type 0 where
    tracked : (s : Scheduler) → c.scheduler ≡ some s → IsSafe s → IsTracked c

  stop_metrics_collection-some :
      (c : Collected B) (s : Scheduler)
      → c.scheduler ≡ some s
      → (stop_metrics_collection control c).scheduler ≡ some (begin_stop s)
  unfolding stop_metrics_collection
  stop_metrics_collection-some c s e = rw e

  tracked_as : (c : Collected B) (s : Scheduler) → IsTracked c → c.scheduler ≡ some s → IsSafe s
  tracked_as c s (tracked s' e h) f = subst IsSafe (some_inj (sym e ∙ f)) h

  Event-IsTracked : (c c' : Collected B) → IsTracked c → Event c c' → IsTracked c'
  unfolding close_store
  Event-IsTracked c c' (tracked s e h) (gets now key) = tracked s e h
  Event-IsTracked c c' (tracked s e h) (gets_stale now key) = tracked s e h
  Event-IsTracked c c' (tracked s e h) (sets now key val ttl) = tracked s e h
  Event-IsTracked c c' (tracked s e h) (deletes key) = tracked s e h
  Event-IsTracked c c' t (close_begins s e f) =
      tracked (begin_stop s) (stop_metrics_collection-some c s e)
        (Step-IsSafe s _ (tracked_as c s t e) (stop_begins f))
  Event-IsTracked c c' t (close_waited s e f g) =
      tracked (end_stop s) refl (Step-IsSafe s _ (tracked_as c s t e) (stop_ends f g))
  Event-IsTracked c c' (tracked s e h) (closes s' e' f) = tracked s e h
  Event-IsTracked c c' t (works s e m) =
      tracked _ refl (Step-IsSafe s _ (tracked_as c s t e) (moves m))

  Events-IsTracked : (c c' : Collected B) → IsTracked c → Events c c' → IsTracked c'
  Events-IsTracked c c' h here = h
  Events-IsTracked c c' h (next e rest) = Events-IsTracked _ c' (Event-IsTracked c _ h e) rest

  -- at rest nothing can be published
  data IsAtRest (published : List Sample) (c : Collected B) : Type 0 where
    resting : c.scheduler ≡ some Scheduler.new → c.gauges ≡ published → IsAtRest published c

  Event-IsAtRest :
      (published : List Sample) (c c' : Collected B)
      → IsAtRest published c
      → Event c c'
      → IsAtRest published c'
  unfolding close_store stop_metrics_collection begin_stop end_stop
  Event-IsAtRest g c c' (resting e h) (gets now key) = resting e h
  Event-IsAtRest g c c' (resting e h) (gets_stale now key) = resting e h
  Event-IsAtRest g c c' (resting e h) (sets now key val ttl) = resting e h
  Event-IsAtRest g c c' (resting e h) (deletes key) = resting e h
  Event-IsAtRest g c c' (resting e h) (close_begins s e' f) = resting (rw e refl) (rw e h)
  Event-IsAtRest g c c' (resting e h) (close_waited s e' f w) =
      cc (subst (λ s. s.stopping ≡ true) (some_inj (sym e' ∙ e)) f)
  Event-IsAtRest g c c' (resting e h) (closes s' e' f) = resting e h
  Event-IsAtRest g c c' (resting e h) (works s {ws} e' m) =
      elim (subst (λ s. Move s.workers ws) (some_inj (sym e' ∙ e)) m) [ ]

  Events-IsAtRest :
      (published : List Sample) (c c' : Collected B)
      → IsAtRest published c
      → Events c c'
      → c'.gauges ≡ published
  Events-IsAtRest g c c' (resting e h) here = h
  Events-IsAtRest g c c' r (next e rest) = Events-IsAtRest g _ c' (Event-IsAtRest g c _ r e) rest

  big_cache_of-IsTracked :
      (cfg : BigCacheConfig) (opts : List L1Option) (b : B)
      → IsTracked (big_cache_of control cfg opts b)
  unfolding big_cache_of start_metrics_collection update_metrics start
  big_cache_of-IsTracked cfg opts b = tracked (start Scheduler.new) refl at_work

  new_big_cache-IsTracked :
      (config : BigCacheConfig) (opts : List L1Option) (c : Collected B)
      → new_big_cache control config opts ≡ some c
      → IsTracked c
  unfolding new_big_cache
  new_big_cache-IsTracked config opts c e =
      go (control.new_store (store_config control (big_cache_defaults config))) e
    where
      go :
          (made : Option B)
          → elim made [
            | none ↦ none
            | some b ↦ some (big_cache_of control (big_cache_defaults config) opts b)
          ]
            ≡ some c
          → IsTracked c
      go none e = cc e
      go (some b) e =
          subst IsTracked (some_inj e) (big_cache_of-IsTracked (big_cache_defaults config) opts b)

  stopped_is_new : (s : Scheduler) → IsSafe s → is_running s ≡ false → s ≡ Scheduler.new
  unfolding is_running
  stopped_is_new s at_rest e = refl
  stopped_is_new s at_work e = cc e
  stopped_is_new s waiting e = cc e
  stopped_is_new s ended e = cc e

  -- However the calls of the methods and of `Close` and the moves of the goroutine interleave, from
  -- a level that `NewBigCache` made on: once a call of `Close` has closed the store, the goroutine
  -- is gone and the gauges of the level are not published any more, whatever is called.
  pub closed-silent :
      (config : BigCacheConfig) (opts : List L1Option) (c0 c1 c2 : Collected B) (s : Scheduler)
      → new_big_cache control config opts ≡ some c0
      → Events c0 c1
      → c1.scheduler ≡ some s
      → is_running s ≡ false
      → Events (close_store control c1).1 c2
      → (s.workers ≡ []) × (c2.gauges ≡ c1.gauges)
  unfolding close_store
  closed-silent config opts c0 c1 c2 s made before e stopped after =
      let tracked0 = new_big_cache-IsTracked config opts c0 made in
      let safe = tracked_as c1 s (Events-IsTracked c0 c1 tracked0 before) e in
      let rest = stopped_is_new s safe stopped in
      (rw rest refl, Events-IsAtRest c1.gauges _ c2 (resting (e ∙ ap some rest) refl) after)

  end_close :
      (c : Collected B) (s : Scheduler)
      → IsSafe s
      → c.scheduler ≡ some s
      → s.stopping ≡ true
      → (c' : Collected B) × Events c c'
        × (c'.scheduler ≡ some Scheduler.new)
        × (c'.state.cache ≡ (control.close c.state.cache).1)
  unfolding close_store performed update_metrics end_stop is_running
  end_close c s at_rest e f = cc f
  end_close c s at_work e f = cc f
  end_close c s ended e f =
      (_, next (close_waited s e refl refl) (next (closes _ refl refl) here), refl, refl)
  end_close c s (waiting {p = selecting}) e f = (
    _,
    next (works s e quit) (next (close_waited _ refl refl refl) (next (closes _ refl refl) here)),
    refl,
    refl,
  )
  end_close c s (waiting {p = in_task}) e f = (
    _,
    next (works s e task_returns) (
        next (works _ refl quit)
          (next (close_waited _ refl refl refl) (next (closes _ refl refl) here))),
    refl,
    refl,
  )

  -- However the calls of the methods and of `Close` and the moves of the goroutine interleave, from
  -- a level that `NewBigCache` made on: a call of `Close` that waits can always come to its end.
  -- There are events that lead to a level without a goroutine, and that close the store it had.
  pub close_can_end :
      (config : BigCacheConfig) (opts : List L1Option) (c0 c1 : Collected B) (s : Scheduler)
      → new_big_cache control config opts ≡ some c0
      → Events c0 c1
      → c1.scheduler ≡ some s
      → s.stopping ≡ true
      → (c2 : Collected B) × Events c1 c2
        × (c2.scheduler ≡ some Scheduler.new)
        × (c2.state.cache ≡ (control.close c1.state.cache).1)
  close_can_end config opts c0 c1 s made before e stopping =
      let tracked0 = new_big_cache-IsTracked config opts c0 made in
      end_close c1 s (tracked_as c1 s (Events-IsTracked c0 c1 tracked0 before) e) e stopping
