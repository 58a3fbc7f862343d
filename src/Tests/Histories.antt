-- ===== src/Tests/Histories.antt =====
-- A history of calls of a cache with two levels (cache/multi/multi.go).
use proxy_common.Common.{
  ℕ, ◌<◌, ◌^◌, Any, ◌≡◌, ◌≢◌, refl, ◌⊎◌, inl, true, Option, none, some, [], ◌∷◌, arith, pos, Elem,
  List, ◌+ℤ◌,
}
use proxy_common.Common.Bytes.{Bytes, codes, bytes_eq, bytes_eq_iff, bytes_has_eq}
use proxy_common.Common.GoMap
use proxy_common.Common.GoMap.{GoMap, lookup, insert, lookup-insert, lookup-delete, beq_self}
use proxy_common.Models.{CacheEntry, is_expired}
use proxy_common.Common.Int64.{add64, wrap64, whole_seconds}
use proxy_common.Cache.{new_entry}
use proxy_common.Cache.Config.{keydb_defaults}
use proxy_common.Cache.History.{Call, set, delete, get, set_values, origins_after, perform_all}
use proxy_common.Cache.L1.Held.{StoreKeeps}
use proxy_common.Cache.L2.Held.{ServerKeeps}
use proxy_common.Cache.L2.{value, nil, GetReply}
use proxy_common.Cache.Level.{Level, l1, l2, level_ops}
use proxy_common.Cache.Multi.{MultiCache, new_multi_cache, multi_ops}
use proxy_common.Cache.Provenance.{LevelHolds, multi_answers, multi_deadline}
use proxy_common.Cache.Multi.Traces.{HoldNothing}
use proxy_common.Cache.Deadlines.{IsSaneSet, IsWithin}
use proxy_common.Tests.Levels.{
  plain_codec, plain_codec-CodecLaws, map_store, map_client, key, ttl, unset,
}

insert_keeps :
    (k d : Bytes) (b : GoMap Bytes Bytes) (j t : Bytes)
    → lookup j (insert k d b) ≡ some t
    → ((k ≡ j) × (t ≡ d)) ⊎ (lookup j b ≡ some t)
insert_keeps k d b j t h = ground (arith, lookup-insert k j d b, bytes_eq_iff k j)

delete_keeps :
    (k : Bytes) (b : GoMap Bytes Bytes) (j t : Bytes)
    → lookup j (GoMap.delete k b) ≡ some t
    → (k ≢ j) × (lookup j b ≡ some t)
delete_keeps k b j t h = ground (arith, lookup-delete k j b, bytes_eq_iff k j)

map_store-StoreKeeps : StoreKeeps map_store
map_store-StoreKeeps = record {
  read-write = λ now k d b t j text read. insert_keeps k d b j text read;
  read-remove = λ k b t j text read. delete_keeps k b j text read;
}

-- a reply with a text
reply_value :
    (o : Option Bytes) (d : Bytes)
    → ◌≡◌ {A = GetReply} (elim o [ none ↦ nil | some d ↦ value d ]) (value d)
    → o ≡ some d
reply_value none d h = cc h
reply_value (some t) d h = cc h

map_client-ServerKeeps : ServerKeeps map_client lookup
map_client-ServerKeeps = record {
  read-value = λ t k d r h. reply_value (lookup k r) d h;
  contents-read = λ t k r j d h. h;
  contents-write = λ t k d expiration r j d' h. insert_keeps k d r j d' h;
  contents-remove = λ t k r j d h. (delete_keeps k r j d h).1;
  removed = λ t k r h. ground (arith, lookup-delete k k r, beq_self k);
  remove_succeeds = λ t k r. refl;
}

abbrev history : List Call
history =
    set (pos 100) key (codes "41") ttl
    ∷ delete key
    ∷ set (pos 101) key (codes "42") ttl
    ∷ get (pos 102) (codes "other")
    ∷ []

abbrev empty_levels : MultiCache (Level (GoMap Bytes Bytes) (GoMap Bytes Bytes))
empty_levels =
    new_multi_cache
      (l1 (record { cache = []; max_entry_size = pos 1000; metrics = [] })
        ∷ l2 (record { world = []; cfg = keydb_defaults unset; metrics = [] })
        ∷ [])
      true

nothing_held :
    HoldNothing (LevelHolds plain_codec map_store map_client lookup) key empty_levels.caches
unfolding lookup new_multi_cache
nothing_held = (λ e h. cc h.1.found, (λ e h. cc h.found, tt))

abbrev answered : CacheEntry
answered = record {
  payload = codes "42";
  expires_at = pos 116;
  stale_at = pos 106;
  created_at = pos 101;
}

history-answered :
    ((multi_ops (level_ops plain_codec map_store map_client)).get (pos 103) key (
      perform_all
        (multi_ops (level_ops plain_codec map_store map_client))
        history
        empty_levels)).0.0
    ≡ some answered
unfolding multi_ops perform_all new_multi_cache level_ops lookup new_entry insert GoMap.delete
    bytes_eq is_expired add64 wrap64 ◌+ℤ◌ whole_seconds
history-answered = refl

multi_answers_example : Elem (codes "42") (set_values key history)
multi_answers_example =
    multi_answers plain_codec map_store map_client lookup plain_codec-CodecLaws map_store-StoreKeeps
      map_client-ServerKeeps history empty_levels (pos 103) key answered nothing_held
      (inl history-answered)

ttl-IsSaneSet : (n : ℕ) → n < 2 ^ 20 → IsSaneSet 2 (pos n) ttl
unfolding whole_seconds
ttl-IsSaneSet n small = record {
  time = n;
  fresh = 5;
  stale = 10;
  time_is = refl;
  fresh_is = refl;
  stale_is = refl;
  small = omega arith;
}

multi_deadline_example : Any (IsWithin 2 answered) (origins_after key history [])
unfolding new_multi_cache
multi_deadline_example =
    multi_deadline plain_codec map_store map_client lookup plain_codec-CodecLaws
      map_store-StoreKeeps map_client-ServerKeeps history empty_levels (pos 103) key answered
      nothing_held
      (ttl-IsSaneSet 100 (omega arith), (ttl-IsSaneSet 101 (omega arith), (omega arith, tt)))
      (omega arith) (inl history-answered)
