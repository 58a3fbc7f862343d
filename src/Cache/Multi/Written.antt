-- ===== src/Cache/Multi/Written.antt =====
-- A read of a multi-level cache (cache/multi/multi.go) behind a write, with the in-memory level
-- (cache/l1/bigcache.go) in front.
use proxy_common.Common.{◌≡◌, Bool, true, false, List, ℤ}
use proxy_common.Common.Bytes.{Bytes}
use proxy_common.Models.{CacheResult, Ttl, cache_level_l1}
use proxy_common.Cache.{Answer, CacheOps}
use proxy_common.Cache.L1.{Codec, Store, record_error, entry_too_large, answer_live}
use proxy_common.Cache.L1 as L1
use proxy_common.Cache.L2.{Client}
use proxy_common.Cache.Level.{Level, level_ops}
use proxy_common.Cache.Multi.{MultiCache, get_with_level, set}

-- The first level's answer, if it has one; if not, an entry that the other levels give.
pub data Preferred (first : Answer) (rest : CacheResult) : CacheResult → Type 0 where
  at_first :
      first.1 ≡ true
      → Preferred first rest (record { entry = first.0; found = true; level = cache_level_l1 })
  behind :
      (r : CacheResult)
      → first.1 ≡ false
      → r.entry ≡ rest.entry
      → r.found ≡ rest.found
      → Preferred first rest r

module _ {S : Type 0} (ops : CacheOps S) (now : ℤ) (key : Bytes) (enable : Bool) where
  abbrev answered : List S → CacheResult
  answered caches =
      (get_with_level ops now key (record { caches = caches; enable_propagation = enable })).0

module _ {B R : Type 0} (codec : Codec) (store : Store B) (client : Client R) where
  -- `GetWithLevel` of the key behind a `Set`, at the time `later`
  abbrev pub reread : ℤ → ℤ → Bytes → Bytes → Ttl → List (Level B R) → Bool → CacheResult
  reread now later key val ttl caches enable =
      let ops = level_ops codec store client in
      let mc : MultiCache (Level B R) = record { caches = caches; enable_propagation = enable } in
      (get_with_level ops later key (set ops now key val ttl mc)).0
