-- ===== src/Cache/Provenance.antt =====
-- What the caches of the repository (cache/l1, cache/l2, cache/noop, cache/multi) answer with.
use proxy_common.Common.{
  ℕ, ◌≡◌, ◌≢◌, refl, ◌⊎◌, inl, inr, Option, some, List, [], ◌∷◌, ℤ, Elem, Any, map, length,
}
use proxy_common.Common.Bytes.{Bytes}
use proxy_common.Models.{CacheEntry, Ttl}
use proxy_common.Cache.Noop.{noop_ops}
use proxy_common.Cache.L1.{Codec, CodecLaws, Store, l1_ops}
use proxy_common.Cache.L1.Held as L1Held
use proxy_common.Cache.L2.{Client, l2_ops}
use proxy_common.Cache.L2.Held as L2Held
use proxy_common.Cache.Level.{Level, l1, l2, noop, level_ops}
use proxy_common.Cache.Multi.{MultiCache, multi_ops}
use proxy_common.Cache.Multi.Traces.{AllOk, Allows, HoldNothing, answer-origins_after}
use proxy_common.Cache.{new_entry}
use proxy_common.Cache.Deadlines.{
  IsSaneRead, IsSaneSet, HasOrigin-Allows, IsWithin, Derives-IsWithin, Any-map,
}
use proxy_common.Cache.History.{
  Call, get, get_stale, set, delete, Origin, KeepsLaws, perform_all, set_values, origins_after,
}

-- a payload that was set, at any depth
abbrev SetPayload : List Origin → ℕ → CacheEntry → Type 0
SetPayload origins d e = Elem e.payload (map (λ o. o.val) origins)

Elem-Allows : Allows SetPayload (λ now. Unit) (λ now ttl. Unit)
unfolding new_entry
Elem-Allows = record {
  closed = λ origins now ok. record { higher = λ d e h. h; copied = λ d e h live. h };
  fresh = λ origins now val ttl d ok. inl refl;
  later = λ o origins d e h. inr h;
}

any_calls : (calls : List Call) → AllOk (λ now. Unit) (λ now ttl. Unit) calls
any_calls [] = tt
any_calls (get now j ∷ calls) = (tt, any_calls calls)
any_calls (get_stale now j ∷ calls) = (tt, any_calls calls)
any_calls (set now j val ttl ∷ calls) = (tt, any_calls calls)
any_calls (delete j ∷ calls) = any_calls calls

module _ {B R : Type 0} (codec : Codec) (store : Store B) (client : Client R)
    (contents : Bytes → R → Option Bytes) where
  abbrev pub LevelHolds : Level B R → Bytes → CacheEntry → Type 0
  LevelHolds (l1 c) k e = L1Held.Holds codec store c k e
  LevelHolds (l2 c) k e = L2Held.Holds codec client contents c k e
  LevelHolds (noop c) k e = ⊥

  module _ (codec_laws : CodecLaws codec) (store_keeps : L1Held.StoreKeeps store)
      (server_keeps : L2Held.ServerKeeps client contents) where
    abbrev at_l1 : KeepsLaws (l1_ops codec store) (L1Held.Holds codec store)
    at_l1 = L1Held.l1_ops-KeepsLaws codec store store_keeps codec_laws

    abbrev at_l2 : KeepsLaws (l2_ops codec client) (L2Held.Holds codec client contents)
    at_l2 = L2Held.l2_ops-KeepsLaws codec client contents server_keeps codec_laws

    level_get_held :
        (now : ℤ) (k : Bytes) (c : Level B R) (e : CacheEntry)
        → ((level_ops codec store client).get now k c).0.0 ≡ some e
        → LevelHolds c k e
    unfolding level_ops noop_ops
    level_get_held now k (l1 c) e = at_l1.get_held now k c e
    level_get_held now k (l2 c) e = at_l2.get_held now k c e
    level_get_held now k (noop c) e = λ h. cc h

    level_get_kept :
        (now : ℤ) (j : Bytes) (c : Level B R) (k : Bytes) (e : CacheEntry)
        → LevelHolds ((level_ops codec store client).get now j c).1 k e
        → LevelHolds c k e
    unfolding level_ops noop_ops
    level_get_kept now j (l1 c) k e = at_l1.get_kept now j c k e
    level_get_kept now j (l2 c) k e = at_l2.get_kept now j c k e
    level_get_kept now j (noop c) k e = λ h. h

    level_get_stale_held :
        (now : ℤ) (k : Bytes) (c : Level B R) (e : CacheEntry)
        → ((level_ops codec store client).get_stale now k c).0.0 ≡ some e
        → LevelHolds c k e
    unfolding level_ops noop_ops
    level_get_stale_held now k (l1 c) e = at_l1.get_stale_held now k c e
    level_get_stale_held now k (l2 c) e = at_l2.get_stale_held now k c e
    level_get_stale_held now k (noop c) e = λ h. cc h

    level_get_stale_kept :
        (now : ℤ) (j : Bytes) (c : Level B R) (k : Bytes) (e : CacheEntry)
        → LevelHolds ((level_ops codec store client).get_stale now j c).1 k e
        → LevelHolds c k e
    unfolding level_ops noop_ops
    level_get_stale_kept now j (l1 c) k e = at_l1.get_stale_kept now j c k e
    level_get_stale_kept now j (l2 c) k e = at_l2.get_stale_kept now j c k e
    level_get_stale_kept now j (noop c) k e = λ h. h

    level_set_kept :
        (now : ℤ) (j val : Bytes) (ttl : Ttl) (c : Level B R) (k : Bytes) (e : CacheEntry)
        → LevelHolds ((level_ops codec store client).set now j val ttl c) k e
        → ((j ≡ k) × (e ≡ new_entry now val ttl)) ⊎ LevelHolds c k e
    unfolding level_ops noop_ops
    level_set_kept now j val ttl (l1 c) k e = at_l1.set_kept now j val ttl c k e
    level_set_kept now j val ttl (l2 c) k e = at_l2.set_kept now j val ttl c k e
    level_set_kept now j val ttl (noop c) k e = λ h. inr h

    level_delete_kept :
        (j : Bytes) (c : Level B R) (k : Bytes) (e : CacheEntry)
        → LevelHolds ((level_ops codec store client).delete j c) k e
        → (j ≢ k) × LevelHolds c k e
    unfolding level_ops noop_ops
    level_delete_kept j (l1 c) k e = at_l1.delete_kept j c k e
    level_delete_kept j (l2 c) k e = at_l2.delete_kept j c k e
    level_delete_kept j (noop c) k e = λ h. absurd h

    pub level_ops-KeepsLaws : KeepsLaws (level_ops codec store client) LevelHolds
    level_ops-KeepsLaws = record {
      get_held = level_get_held;
      get_kept = level_get_kept;
      get_stale_held = level_get_stale_held;
      get_stale_kept = level_get_stale_kept;
      set_kept = level_set_kept;
      delete_kept = level_delete_kept;
    }

    -- Over any calls of a multi-level cache whose levels hold nothing for a key at first, with or
    -- without propagation: a read of the key that answers with an entry answers with a payload that
    -- was set for the key since it was deleted last. The store, the encoding and the server do what
    -- they document, nobody else writes to the server, and every removal there succeeds.
    pub multi_answers :
        (calls : List Call) (mc : MultiCache (Level B R)) (now : ℤ) (k : Bytes) (e : CacheEntry)
        → HoldNothing LevelHolds k mc.caches
        → (let ops = multi_ops (level_ops codec store client) in
            let mc' = perform_all ops calls mc in
            ((ops.get now k mc').0.0 ≡ some e) ⊎ ((ops.get_stale now k mc').0.0 ≡ some e))
        → Elem e.payload (set_values k calls)
    unfolding set_values multi_ops
    multi_answers calls mc now k e empty answer =
        (answer-origins_after (level_ops codec store client) LevelHolds level_ops-KeepsLaws k
          Elem-Allows calls mc now e (any_calls calls) tt empty answer).2

    -- Under the same conditions, for times and times-to-live that are not negative: the entry goes
    -- back to a call of `Set` for the key since it was deleted last, has its payload, and expires at
    -- the latest with its fresh span and, for each level, its stale span behind that call. The
    -- deadlines that this gives are below 2^32 seconds.
    pub multi_deadline :
        (calls : List Call) (mc : MultiCache (Level B R)) (now : ℤ) (k : Bytes) (e : CacheEntry)
        → HoldNothing LevelHolds k mc.caches
        → AllOk IsSaneRead (IsSaneSet (length mc.caches)) calls
        → IsSaneRead now
        → (let ops = multi_ops (level_ops codec store client) in
            let mc' = perform_all ops calls mc in
            ((ops.get now k mc').0.0 ≡ some e) ⊎ ((ops.get_stale now k mc').0.0 ≡ some e))
        → Any (IsWithin (length mc.caches) e) (origins_after k calls [])
    unfolding multi_ops
    multi_deadline calls mc now k e empty sane read answer =
        let levels = length mc.caches in
        let (d, within, origin) =
          answer-origins_after (level_ops codec store client) LevelHolds level_ops-KeepsLaws k
            (HasOrigin-Allows levels) calls mc now e sane read empty answer in
        Any-map (origins_after k calls []) (λ o. Derives-IsWithin levels d o e within)
          (origin within)
