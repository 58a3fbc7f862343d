-- ===== src/Cache/Noop.antt =====
-- cache/noop/noop.go: the cache that holds nothing.
use proxy_common.Common.{refl}
use proxy_common.Cache.{CacheOps, CacheLaws, not_found, miss}

unfoldable pub noop_ops : CacheOps (Unit {0})
noop_ops = record {
  get = λ now k s. (not_found, s);
  get_stale = λ now k s. (not_found, s);
  set = λ now k val ttl s. s;
  delete = λ k s. s;
}

pub noop_ops-CacheLaws : CacheLaws noop_ops
unfolding noop_ops
noop_ops-CacheLaws = record {
  get_sound = λ now k s. miss;
  get_stale_sound = λ now k s. miss;
  get-delete = λ now k s. refl;
  get_stale-delete = λ now k s. refl;
}
