-- ===== src/Cache/Multi.antt =====
-- cache/multi/multi.go: a cache over a sequence of caches. The levels are any implementation of the
-- `Cache` interface, `ops` on states of type `S`.
pub mod Copies
pub mod Reads
pub mod Laws
pub mod Written
pub mod Held
pub mod Traces
use proxy_common.Common.{
  ℕ, zero, suc, ◌+◌, ◌≡◌, Bool, true, false, ◌&&◌, ◌||◌, Option, none, some, List, [], ◌∷◌, ◌++◌,
  map, ℤ, pos, ltb, leb_ℤ, if◌then◌else◌, length,
}
use proxy_common.Common.Bytes.{Bytes}
use proxy_common.Models.{
  CacheEntry, CacheResult, Ttl, is_expired, remaining_ttl, cache_level_from_index, cache_level_miss,
}
use proxy_common.Cache.{Answer, CacheOps, LevelAwareOps}

pub record MultiCache (S : Type 0) : Type 0 where
  pub caches : List S
  pub enable_propagation : Bool

unfoldable pub new_multi_cache : {S : Type 0} → List S → Bool → MultiCache S
new_multi_cache caches enable_propagation = record {
  caches = caches;
  enable_propagation = enable_propagation;
}

abbrev pub miss_result : CacheResult
miss_result = record { entry = none; found = false; level = cache_level_miss }

module _ {S : Type 0} (ops : CacheOps S) where
  -- the loop of `propagateToEarlierCaches`, over `mc.caches[:foundAtIndex]`
  unfoldable pub set_each : ℤ → Bytes → Bytes → Ttl → List S → List S
  set_each now key val ttl [] = []
  set_each now key val ttl (c ∷ caches) =
      ops.set now key val ttl c ∷ set_each now key val ttl caches

  -- `propagateToEarlierCaches`, on the caches before the one that had the entry
  unfoldable pub propagate : ℤ → Bytes → Option CacheEntry → List S → List S
  unfolding set_each
  propagate now key none earlier = earlier
  propagate now key (some entry) earlier =
      let remaining = remaining_ttl now entry in
      if is_expired now entry
      then earlier
      else if leb_ℤ remaining.fresh (pos 0) && leb_ℤ remaining.stale (pos 0)
      then earlier
      else set_each now key entry.payload remaining earlier

  -- The loop of `GetWithLevel` and `GetStaleWithLevel`; `read` is the method that it calls on a
  -- cache, `earlier` holds the caches that missed, and its length is the loop's index.
  unfoldable pub scan :
      (ℤ → Bytes → S → Answer × S) → Bool → ℤ → Bytes → List S → List S → CacheResult × List S
  unfolding propagate
  scan read enable now key earlier [] = (miss_result, earlier)
  scan read enable now key earlier (c ∷ caches) =
      let ((entry, found), c') = read now key c in
      let rest = scan read enable now key (earlier ++ c' ∷ []) caches in
      if found
      then (
        record {
          entry = entry;
          found = true;
          level = cache_level_from_index (pos (length earlier));
        },
        (if ltb 0 (length earlier) && enable then propagate now key entry earlier else earlier)
            ++ c' ∷ caches,
      )
      else rest

  unfoldable pub get_with_level : ℤ → Bytes → MultiCache S → CacheResult × MultiCache S
  unfolding scan
  get_with_level now key mc =
      let (result, caches') = scan ops.get mc.enable_propagation now key [] mc.caches in
      (result, record mc { caches = caches' })

  unfoldable pub get_stale_with_level : ℤ → Bytes → MultiCache S → CacheResult × MultiCache S
  unfolding scan
  get_stale_with_level now key mc =
      let (result, caches') = scan ops.get_stale mc.enable_propagation now key [] mc.caches in
      (result, record mc { caches = caches' })

  unfoldable pub get : ℤ → Bytes → MultiCache S → Answer × MultiCache S
  unfolding get_with_level
  get now key mc =
      let (result, mc') = get_with_level now key mc in ((result.entry, result.found), mc')

  unfoldable pub get_stale : ℤ → Bytes → MultiCache S → Answer × MultiCache S
  unfolding get_stale_with_level
  get_stale now key mc =
      let (result, mc') = get_stale_with_level now key mc in ((result.entry, result.found), mc')

  -- the loops of `Set` and `Delete`
  unfoldable pub set : ℤ → Bytes → Bytes → Ttl → MultiCache S → MultiCache S
  unfolding set_each
  set now key val ttl mc = record mc { caches = set_each now key val ttl mc.caches }

  unfoldable pub delete_each : Bytes → List S → List S
  delete_each key [] = []
  delete_each key (c ∷ caches) = ops.delete key c ∷ delete_each key caches

  unfoldable pub delete : Bytes → MultiCache S → MultiCache S
  unfolding delete_each
  delete key mc = record mc { caches = delete_each key mc.caches }

  unfoldable pub get_cache_count : MultiCache S → ℕ
  get_cache_count mc = length mc.caches

  unfoldable pub multi_ops : CacheOps (MultiCache S)
  unfolding get get_stale set delete
  multi_ops = record { get = get; get_stale = get_stale; set = set; delete = delete }

  unfoldable pub level_aware_ops : LevelAwareOps (MultiCache S)
  unfolding multi_ops get_with_level get_stale_with_level
  level_aware_ops = record {
    cache = multi_ops;
    get_with_level = get_with_level;
    get_stale_with_level = get_stale_with_level;
  }
