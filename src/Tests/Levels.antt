-- ===== src/Tests/Levels.antt =====
-- Runs of the caches (cache/) and of the entries they hold (models/cache.go).
use proxy_common.Common.{
  ◌+ℤ◌, ℕ, zero, suc, ◌≡◌, refl, ◌⊎◌, true, Option, none, some, some_inj, [], ◌∷◌, arith, ℤ, pos,
  negsuc, if◌then◌else◌,
}
use proxy_common.Common.Bytes.{Bytes, codes, bytes_eq, bytes_has_eq}
use proxy_common.Common.GoMap.{
  GoMap, lookup, insert, delete, lookup-insert, lookup-delete, beq_self,
}
use proxy_common.Models.{CacheEntry, Ttl, is_expired}
use proxy_common.Cache.{CacheOps, CacheLaws, LevelAwareLaws, not_found, new_entry}
use proxy_common.Cache.Config.{KeyDbConfig, keydb_defaults}
use proxy_common.Cache.L1.{Codec, CodecLaws, Store, StoreLaws, BigCache}
use proxy_common.Cache.L1
use proxy_common.Cache.L1.Laws.{l1_get-set}
use proxy_common.Cache.L2.{Client, KeyDbCache, value, nil}
use proxy_common.Cache.L2
use proxy_common.Cache.L2.Laws.{ClientLaws, l2_get-set}
use proxy_common.Cache.Level.{
  l2, contents, level_get_stale-get, Level, l1, l2, level_ops, level_ops-CacheLaws,
}
use proxy_common.Cache.Multi.{
  MultiCache, multi_ops, new_multi_cache, level_aware_ops, get_with_level,
}
use proxy_common.Cache.Multi.Reads.{FirstHit, NoHit, get_with_level_lem}
use proxy_common.Cache.Multi.Laws.{level_aware_ops-LevelAwareLaws}
use proxy_common.Tests.Entries.{entry}

-- an encoding of entries: sign and size of each number, and then the data
abbrev pub sign : ℤ → ℕ
sign (pos n) = 0
sign (negsuc n) = 1

abbrev pub size : ℤ → ℕ
size (pos n) = n
size (negsuc n) = n

abbrev pub signed : ℕ → ℕ → ℤ
signed zero n = pos n
signed (suc s) n = negsuc n

pub signed-sign : (a : ℤ) → signed (sign a) (size a) ≡ a
signed-sign (pos n) = refl
signed-sign (negsuc n) = refl

abbrev write_entry : CacheEntry → Bytes
write_entry e =
    sign e.expires_at
    ∷ size e.expires_at
    ∷ sign e.stale_at
    ∷ size e.stale_at
    ∷ sign e.created_at
    ∷ size e.created_at
    ∷ e.payload

abbrev read_entry : Bytes → Option CacheEntry
read_entry (a ∷ b ∷ c ∷ d ∷ e ∷ f ∷ payload) = some (record {
  payload = payload;
  expires_at = signed a b;
  stale_at = signed c d;
  created_at = signed e f;
})
read_entry _ = none

abbrev pub plain_codec : Codec
plain_codec = record { marshal = λ e. some (write_entry e); unmarshal = read_entry }

read-write_entry : (e : CacheEntry) → read_entry (write_entry e) ≡ some e
read-write_entry e = rw (signed-sign e.expires_at, signed-sign e.stale_at, signed-sign e.created_at)

pub plain_codec-CodecLaws : CodecLaws plain_codec
plain_codec-CodecLaws = record {
  unmarshal-marshal = λ e d written. rw (← some_inj written) (read-write_entry e);
}

abbrev pub map_store : Store (GoMap Bytes Bytes)
map_store = record {
  read = λ t. lookup;
  write = λ now k d b. (true, insert k d b);
  remove = delete;
}

map_store-StoreLaws : StoreLaws map_store
map_store-StoreLaws = record {
  read-remove = λ t k b. ground (arith, lookup-delete k k b, beq_self k);
  read-write =
      λ now t k d b written after within. ground (arith, lookup-insert k k d b, beq_self k);
}

abbrev pub map_client : Client (GoMap Bytes Bytes)
map_client = record {
  read = λ timeout k r. (elim (lookup k r) [ none ↦ nil | some d ↦ value d ], r);
  write = λ timeout k d ttl r. (true, insert k d r);
  remove = λ timeout k r. (true, delete k r);
}

map_client-ClientLaws : ClientLaws map_client
map_client-ClientLaws = record {
  read-remove = λ t u k r.
      let gone : lookup k (delete k r) ≡ none = ground (arith, lookup-delete k k r, beq_self k) in
      rw (gone, map_client);
}

abbrev pub key : Bytes
key = codes "price:btc"

abbrev pub ttl : Ttl
ttl = record { fresh = pos 5_000_000_000; stale = pos 10_000_000_000 }

abbrev memory : BigCache (GoMap Bytes Bytes)
memory = record { cache = []; max_entry_size = pos 1000; metrics = [] }

abbrev pub unset : KeyDbConfig
unset = record {
  enabled = true;
  connection = record { connect_timeout = pos 0; send_timeout = pos 0; read_timeout = pos 0 };
  keepalive = record { pool_size = pos 0; max_idle_timeout = pos 0 };
  cache = record { default_ttl = pos 0; max_ttl = pos 0 };
}

abbrev server : KeyDbCache (GoMap Bytes Bytes)
server = record { world = (key, write_entry entry) ∷ []; cfg = keydb_defaults unset; metrics = [] }

abbrev levels : MultiCache (Level (GoMap Bytes Bytes) (GoMap Bytes Bytes))
levels = new_multi_cache (l1 memory ∷ l2 server ∷ []) true

abbrev plain_ops : CacheOps (Level (GoMap Bytes Bytes) (GoMap Bytes Bytes))
plain_ops = level_ops plain_codec map_store map_client

l1_get-set_example :
    (L1.get plain_codec map_store
      (pos 103)
      key
      (L1.set plain_codec map_store (pos 100) key (codes "42") ttl memory)).0
    ≡ (if is_expired (pos 103) (new_entry (pos 100) (codes "42") ttl)
        then not_found
        else (some (new_entry (pos 100) (codes "42") ttl), true))
l1_get-set_example =
    l1_get-set plain_codec map_store plain_codec-CodecLaws map_store-StoreLaws (pos 100) (pos 103)
      key (codes "42") (write_entry (new_entry (pos 100) (codes "42") ttl)) ttl memory refl
      (unfold new_entry in omega arith) refl (omega arith) (unfold ◌+ℤ◌ in omega arith)

l2_get-set_example :
    (L2.get plain_codec map_client
      (pos 103)
      key
      (L2.set plain_codec map_client (pos 100) key (codes "42") ttl server)).0
    ≡ (if is_expired (pos 103) (new_entry (pos 100) (codes "42") ttl)
        then not_found
        else (some (new_entry (pos 100) (codes "42") ttl), true))
unfolding bytes_eq lookup insert
l2_get-set_example =
    l2_get-set plain_codec map_client plain_codec-CodecLaws (pos 100) (pos 103) key (codes "42")
      (write_entry (new_entry (pos 100) (codes "42") ttl)) ttl server refl (refl, refl)

level_get_stale-get_example :
    ((plain_ops.get_stale (pos 103) key (l2 server)).0
      ≡ (plain_ops.get (pos 103) key (l2 server)).0)
    × (contents (plain_ops.get_stale (pos 103) key (l2 server)).1
        ≡ contents (plain_ops.get (pos 103) key (l2 server)).1)
level_get_stale-get_example =
    level_get_stale-get plain_codec map_store map_client (pos 103) key (l2 server)

level_ops-CacheLaws_example : CacheLaws plain_ops × CacheLaws (multi_ops plain_ops)
level_ops-CacheLaws_example =
    level_ops-CacheLaws plain_codec map_store map_client map_store-StoreLaws map_client-ClientLaws

level_aware_ops-LevelAwareLaws_example : LevelAwareLaws (level_aware_ops plain_ops)
level_aware_ops-LevelAwareLaws_example = level_aware_ops-LevelAwareLaws plain_ops plain_laws
  where
    plain_laws : CacheLaws plain_ops
    plain_laws =
        (level_ops-CacheLaws plain_codec map_store map_client map_store-StoreLaws
          map_client-ClientLaws).0

get_with_level_example :
    let (result, mc') = get_with_level plain_ops (pos 103) key levels in
    FirstHit plain_ops plain_ops.get true (pos 103) key [] levels.caches (result, mc'.caches)
    ⊎ NoHit plain_ops plain_ops.get true (pos 103) key [] levels.caches (result, mc'.caches)
unfolding new_multi_cache
get_with_level_example = get_with_level_lem plain_ops (pos 103) key levels
