-- ===== src/Cache/Multi/Laws.antt =====
-- The laws of a cache for a multi-level cache (cache/multi/multi.go).
use proxy_common.Common.{
  ◌≡◌, refl, inl, inr, ◌↔◌, Bool, true, false, length, List, [], ◌∷◌, ◌++◌, ℤ, Bool-cases,
}
use proxy_common.Common.Bytes.{Bytes}
use proxy_common.Models.{CacheResult, cache_level_miss}
use proxy_common.Models.Levels.{cache_level_from_index-injective}
use proxy_common.Cache.{Answer, not_found, CacheOps, CacheLaws, LevelAwareLaws, IsSound, hit, miss}
use proxy_common.Cache.Multi.{
  scan, get_with_level, get_stale_with_level, get, get_stale, delete_each, delete, multi_ops,
  level_aware_ops,
}

module _ {S : Type 0} (ops : CacheOps S) where
  abbrev answer_of : CacheResult → Answer
  answer_of r = (r.entry, r.found)

  module _ (read : ℤ → Bytes → S → Answer × S) (enable : Bool) (now : ℤ) (key : Bytes) where
    IsSound-found : (a : Answer) → IsSound now a → a.1 ≡ true → IsSound now (a.0, true)
    IsSound-found a (hit e live) f = hit e live
    IsSound-found a miss f = cc

    scan-IsSound :
        (earlier caches : List S)
        → ((s : S) → IsSound now (read now key s).0)
        → IsSound now (answer_of (scan ops read enable now key earlier caches).0)
    unfolding scan
    scan-IsSound earlier [] sound = miss
    scan-IsSound earlier (c ∷ caches) sound = elim (Bool-cases (read now key c).0.1) [
      | inl yes_hit ↦ rw yes_hit (IsSound-found (read now key c).0 (sound c) yes_hit)
      | inr no_hit ↦ rw no_hit (scan-IsSound (earlier ++ (read now key c).1 ∷ []) caches sound)
    ]

    scan-delete_each :
        (earlier caches : List S)
        → ((s : S) → (read now key (ops.delete key s)).0 ≡ not_found)
        → answer_of (scan ops read enable now key earlier (delete_each ops key caches)).0
          ≡ not_found
    unfolding scan delete_each
    scan-delete_each earlier [] gone = refl
    scan-delete_each earlier (c ∷ caches) gone =
        rw (gone c)
          (scan-delete_each (earlier ++ (read now key (ops.delete key c)).1 ∷ []) caches gone)

    scan-level :
        (earlier caches : List S)
        → ((scan ops read enable now key earlier caches).0.level ≡ cache_level_miss)
          ↔ ((scan ops read enable now key earlier caches).0.found ≡ false)
    unfolding scan
    scan-level earlier [] = (λ e. refl, λ e. refl)
    scan-level earlier (c ∷ caches) = elim (Bool-cases (read now key c).0.1) [
      | inl yes_hit ↦
          let named = (cache_level_from_index-injective (length earlier) 0).1 in
          rw yes_hit (λ e. absurd (named e), λ e. cc)
      | inr no_hit ↦ rw no_hit (scan-level (earlier ++ (read now key c).1 ∷ []) caches)
    ]

  -- Over levels that obey the laws of a cache a multi-level cache obeys them too: it never answers
  -- with an expired entry, and after `delete` both reads miss at every level, with or without
  -- propagation.
  pub multi_ops-CacheLaws : CacheLaws ops → CacheLaws (multi_ops ops)
  unfolding multi_ops get get_stale get_with_level get_stale_with_level delete
  multi_ops-CacheLaws laws = record {
    get_sound = λ now k mc.
        scan-IsSound ops.get mc.enable_propagation now k [] mc.caches (laws.get_sound now k);
    get_stale_sound = λ now k mc.
        scan-IsSound ops.get_stale mc.enable_propagation now k [] mc.caches
          (laws.get_stale_sound now k);
    get-delete = λ now k mc.
        scan-delete_each ops.get mc.enable_propagation now k [] mc.caches (laws.get-delete now k);
    get_stale-delete = λ now k mc.
        scan-delete_each ops.get_stale mc.enable_propagation now k [] mc.caches
          (laws.get_stale-delete now k);
  }

  -- Over levels that obey the laws of a cache a multi-level cache obeys those of a level-aware one:
  -- it never answers with an expired entry, and after `delete` both reads miss at every level, with
  -- or without propagation; a read with a level answers as the read without it and leaves the same
  -- contents, and its level is that of a miss exactly if nothing is found.
  pub level_aware_ops-LevelAwareLaws : CacheLaws ops → LevelAwareLaws (level_aware_ops ops)
  unfolding level_aware_ops multi_ops get get_stale get_with_level get_stale_with_level
  level_aware_ops-LevelAwareLaws laws = record {
    cache_laws = multi_ops-CacheLaws laws;
    get_leveled = λ now k mc. record {
      same = refl;
      level_miss = scan-level ops.get mc.enable_propagation now k [] mc.caches;
    };
    get_stale_leveled = λ now k mc. record {
      same = refl;
      level_miss = scan-level ops.get_stale mc.enable_propagation now k [] mc.caches;
    };
  }
