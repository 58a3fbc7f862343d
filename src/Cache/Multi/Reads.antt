-- ===== src/Cache/Multi/Reads.antt =====
-- The reads of a multi-level cache (cache/multi/multi.go): which level answers, and what becomes of
-- the levels before it.

use proxy_common.Common.{
  ◌≡◌, refl, ap, ◌⊎◌, inl, inr, Bool, true, false, ◌&&◌, List, [], ◌∷◌, ◌++◌, ℤ, pos, ltb,
  if◌then◌else◌, length, Bool-cases, append_assoc, append-nil, ◌∙◌,
}
use proxy_common.Common.Bytes.{Bytes}
use proxy_common.Models.{CacheResult, cache_level_from_index}
use proxy_common.Cache.{Answer, CacheOps}
use proxy_common.Cache.Multi.Copies.{Copied, guarded-Copied}
use proxy_common.Cache.Multi.{miss_result, MultiCache, propagate, scan, get_with_level}

module _ {S : Type 0} (ops : CacheOps S) (read : ℤ → Bytes → S → Answer × S) (enable : Bool)
    (now : ℤ) (key : Bytes) where
  -- every cache misses
  abbrev pub AllMiss : List S → Type 0
  AllMiss [] = Unit
  AllMiss (c ∷ caches) = ((read now key c).0.1 ≡ false) × AllMiss caches

  -- the states of the caches after a read
  abbrev pub read_each : List S → List S
  read_each [] = []
  read_each (c ∷ caches) = (read now key c).1 ∷ read_each caches

  -- The caches `before` miss and `cache` answers; those behind it are not touched, and those before
  -- it get the entry, if they may.
  pub record FirstHit (earlier caches : List S) (out : CacheResult × List S) : Type 0 where
    pub before : List S
    pub cache : S
    pub behind : List S
    pub split : caches ≡ before ++ cache ∷ behind
    pub missed : AllMiss before
    pub found : (read now key cache).0.1 ≡ true
    pub result : out.0 ≡ record {
      entry = (read now key cache).0.0;
      found = true;
      level = cache_level_from_index (pos (length (earlier ++ read_each before)));
    }
    pub copies : List S
    pub copied :
        Copied ops now key enable (read now key cache).0.0 (earlier ++ read_each before) copies
    pub states : out.1 ≡ copies ++ (read now key cache).1 ∷ behind

  abbrev pub NoHit : List S → List S → CacheResult × List S → Type 0
  NoHit earlier caches out = AllMiss caches × (out ≡ (miss_result, earlier ++ read_each caches))

  scan_lem :
      (earlier caches : List S)
      → FirstHit earlier caches (scan ops read enable now key earlier caches)
        ⊎ NoHit earlier caches (scan ops read enable now key earlier caches)
  unfolding scan
  scan_lem earlier [] = inr (tt, rw append-nil)
  scan_lem earlier (c ∷ caches) = elim (Bool-cases (read now key c).0.1) [
    | inl hit ↦ inl (record {
      before = [];
      cache = c;
      behind = caches;
      split = refl;
      missed = tt;
      found = hit;
      result = rw (hit, append-nil);
      copies =
          if ltb 0 (length earlier) && enable
          then propagate ops now key (read now key c).0.0 earlier
          else earlier;
      copied = rw append-nil (guarded-Copied ops now key enable (read now key c).0.0 earlier);
      states = rw hit;
    })
    | inr no_hit ↦
        let c' = (read now key c).1 in
        rw no_hit (elim (scan_lem (earlier ++ c' ∷ []) caches) [
          | inl f ↦
              let e = append_assoc earlier (c' ∷ []) (read_each f.before) in
              inl (record {
                before = c ∷ f.before;
                cache = f.cache;
                behind = f.behind;
                split = ap (◌∷◌ c) f.split;
                missed = (no_hit, f.missed);
                found = f.found;
                result = rw (← e) f.result;
                copies = f.copies;
                copied = rw (← e) f.copied;
                states = f.states;
              })
          | inr (all, e) ↦ inr (
            (refl, all),
            e ∙ ap (λ l. (miss_result, l)) (append_assoc earlier (c' ∷ []) (read_each caches)),
          )
        ])
  ]

-- A read with level information asks the caches in order. If a cache answers, the result is its
-- entry, with the name of its position as the level; the caches behind it are not asked, and the
-- caches before it get the entry if there are any and propagation is enabled. If none answers, the
-- result is a miss.
pub get_with_level_lem :
    {S : Type 0} (ops : CacheOps S) (now : ℤ) (key : Bytes) (mc : MultiCache S)
    → let (result, mc') = get_with_level ops now key mc in
      FirstHit ops ops.get mc.enable_propagation now key [] mc.caches (result, mc'.caches)
      ⊎ NoHit ops ops.get mc.enable_propagation now key [] mc.caches (result, mc'.caches)
unfolding get_with_level
get_with_level_lem ops now key mc = scan_lem ops ops.get mc.enable_propagation now key [] mc.caches
