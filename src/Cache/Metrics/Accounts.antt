-- ===== src/Cache/Metrics/Accounts.antt =====
-- The counters of requests, hits and misses of cache/metrics/metrics.go agree.
use proxy_common.Common.{
  ℕ, ◌+◌, ◌≡◌, refl, Bool, true, Option, List, [], ◌∷◌, arith, pos, ltb_ℤ, Bool-cases, inl, inr,
}
use proxy_common.Common.Bytes.{Bytes, bytes_eq, bytes_eq_iff}
use proxy_common.Common.GoMap.{GoMap}
use proxy_common.Common.Samples.{Sample, vec_eq, series_eq, increments, increments-append}
use proxy_common.Cache.Metrics.{
  Config, CacheMetrics, new, with_labels, record_cache_hit, record_cache_miss, record_cache_set,
  record_cache_eviction, record_cache_error, record_cache_bytes_read, update_l1_cache_capacity,
  update_cache_keys, time_cache_operation,
}
use proxy_common.Cache.Metrics.Calls.{
  Call, hit, miss, stored, evicted, failed, read, sized, counted, timed, perform, perform_all,
}

bytes_eq_self : (a : Bytes) → bytes_eq a a ≡ true
bytes_eq_self a = (bytes_eq_iff a a).1 refl

module _ (cfg : Config) (allowed : Option (GoMap Bytes Bool)) (labels : List Bytes) where
  -- the metrics of `New`, with any list of allowed methods
  abbrev pub m : CacheMetrics
  m = record (new cfg) { allowed_methods = allowed }

  -- how often a counter is incremented at the labels
  abbrev pub requests_of : List Sample → ℕ
  requests_of = increments (with_labels m.requests labels)

  abbrev pub hits_of : List Sample → ℕ
  hits_of = increments (with_labels m.hits labels)

  abbrev pub misses_of : List Sample → ℕ
  misses_of = increments (with_labels m.misses labels)

  perform-accounts :
      (call : Call)
      → requests_of (perform m call) ≡ hits_of (perform m call) + misses_of (perform m call)
  unfolding perform increments series_eq vec_eq new bytes_eq record_cache_hit record_cache_miss
      record_cache_set record_cache_eviction record_cache_error record_cache_bytes_read
      update_l1_cache_capacity update_cache_keys time_cache_operation
  perform-accounts (hit t l c n r age) = elim (Bool-cases (ltb_ℤ (pos 0) age)) [
    | inl old ↦
        rw (old, bytes_eq_self (new cfg).namespace, bytes_eq_self (new cfg).subsystem) (omega arith)
    | inr young ↦
        rw (young, bytes_eq_self (new cfg).namespace, bytes_eq_self (new cfg).subsystem)
          (omega arith)
  ]
  perform-accounts (miss t c n r) =
      ground (arith, bytes_eq_self (new cfg).namespace, bytes_eq_self (new cfg).subsystem)
  perform-accounts (stored l t c n size) = ground arith
  perform-accounts (evicted l t c n) = ground arith
  perform-accounts (failed l k) = refl
  perform-accounts (read l t c n size) = ground arith
  perform-accounts (sized capacity used) = refl
  perform-accounts (counted l count) = refl
  perform-accounts (timed operation l) = refl

  -- At every set of labels and after any calls, the requests are the hits and the misses.
  pub perform_all-accounts :
      (calls : List Call)
      → requests_of (perform_all m calls)
        ≡ hits_of (perform_all m calls) + misses_of (perform_all m calls)
  unfolding perform_all increments
  perform_all-accounts [] = omega arith
  perform_all-accounts (call ∷ calls) =
      let rest = perform_all m calls in
      omega (
        arith,
        perform-accounts call,
        perform_all-accounts calls,
        increments-append (with_labels m.requests labels) (perform m call) rest,
        increments-append (with_labels m.hits labels) (perform m call) rest,
        increments-append (with_labels m.misses labels) (perform m call) rest,
      )
