-- ===== src/Cache/Level.antt =====
-- A value of the Go interface `Cache` (cache/interfaces.go): an in-memory level, a KeyDB level or a
-- no-op cache, with calls dispatched to it. A multi-level cache, which is a `Cache` too, is built of
-- such values; it has its operations in Multi.
use proxy_common.Common.{◌≡◌, refl, ap, ℤ}
use proxy_common.Common.Bytes.{Bytes}
use proxy_common.Cache.{Answer, CacheOps, CacheLaws, not_found, IsSound}
use proxy_common.Cache.Multi.{multi_ops}
use proxy_common.Cache.Multi.Laws.{multi_ops-CacheLaws}
use proxy_common.Cache.Noop.{noop_ops, noop_ops-CacheLaws}
use proxy_common.Cache.L1.{Codec, Store, StoreLaws, BigCache, l1_ops}
use proxy_common.Cache.L1.Laws as L1Laws
use proxy_common.Cache.L2.{Client, KeyDbCache, l2_ops}
use proxy_common.Cache.L2.Laws as L2Laws

pub data Level (B R : Type 0) : Type 0 where
  l1 : BigCache B → Level B R
  l2 : KeyDbCache R → Level B R
  noop : Unit {0} → Level B R

-- what a cache holds: its store or the server
pub data Contents (B R : Type 0) : Type 0 where
  in_store : B → Contents B R
  in_server : R → Contents B R
  nothing : Contents B R

module _ {B R : Type 0} where
  abbrev pub contents : Level B R → Contents B R
  contents (l1 c) = in_store c.cache
  contents (l2 c) = in_server c.world
  contents (noop c) = nothing

  -- a call that answers and changes its receiver, at each implementation
  abbrev dispatch_read :
      (BigCache B → Answer × BigCache B)
      → (KeyDbCache R → Answer × KeyDbCache R)
      → (Unit {0} → Answer × Unit {0})
      → Level B R
      → Answer × Level B R
  dispatch_read f g h (l1 c) = let (a, c') = f c in (a, l1 c')
  dispatch_read f g h (l2 c) = let (a, c') = g c in (a, l2 c')
  dispatch_read f g h (noop c) = let (a, c') = h c in (a, noop c')

  abbrev dispatch_write :
      (BigCache B → BigCache B)
      → (KeyDbCache R → KeyDbCache R)
      → (Unit {0} → Unit {0})
      → Level B R
      → Level B R
  dispatch_write f g h (l1 c) = l1 (f c)
  dispatch_write f g h (l2 c) = l2 (g c)
  dispatch_write f g h (noop c) = noop (h c)

  module _ (codec : Codec) (store : Store B) (client : Client R) where
    abbrev at_l1 : CacheOps (BigCache B)
    at_l1 = l1_ops codec store

    abbrev at_l2 : CacheOps (KeyDbCache R)
    at_l2 = l2_ops codec client

    unfoldable pub level_ops : CacheOps (Level B R)
    unfolding l1_ops l2_ops noop_ops
    level_ops = record {
      get = λ now k. dispatch_read (at_l1.get now k) (at_l2.get now k) (noop_ops.get now k);
      get_stale = λ now k.
          dispatch_read (at_l1.get_stale now k) (at_l2.get_stale now k) (noop_ops.get_stale now k);
      set = λ now k val ttl.
          dispatch_write (at_l1.set now k val ttl) (at_l2.set now k val ttl)
            (noop_ops.set now k val ttl);
      delete = λ k. dispatch_write (at_l1.delete k) (at_l2.delete k) (noop_ops.delete k);
    }

    module _ (h1 : CacheLaws at_l1) (h2 : CacheLaws at_l2) where
      sound : (now : ℤ) (k : Bytes) (c : Level B R) → IsSound now (level_ops.get now k c).0
      unfolding level_ops
      sound now k (l1 c) = h1.get_sound now k c
      sound now k (l2 c) = h2.get_sound now k c
      sound now k (noop c) = noop_ops-CacheLaws.get_sound now k c

      stale-IsSound :
          (now : ℤ) (k : Bytes) (c : Level B R) → IsSound now (level_ops.get_stale now k c).0
      unfolding level_ops
      stale-IsSound now k (l1 c) = h1.get_stale_sound now k c
      stale-IsSound now k (l2 c) = h2.get_stale_sound now k c
      stale-IsSound now k (noop c) = noop_ops-CacheLaws.get_stale_sound now k c

      gone :
          (now : ℤ) (k : Bytes) (c : Level B R)
          → (level_ops.get now k (level_ops.delete k c)).0 ≡ not_found
      unfolding level_ops
      gone now k (l1 c) = h1.get-delete now k c
      gone now k (l2 c) = h2.get-delete now k c
      gone now k (noop c) = noop_ops-CacheLaws.get-delete now k c

      stale_gone :
          (now : ℤ) (k : Bytes) (c : Level B R)
          → (level_ops.get_stale now k (level_ops.delete k c)).0 ≡ not_found
      unfolding level_ops
      stale_gone now k (l1 c) = h1.get_stale-delete now k c
      stale_gone now k (l2 c) = h2.get_stale-delete now k c
      stale_gone now k (noop c) = noop_ops-CacheLaws.get_stale-delete now k c

    -- At the in-memory level, the KeyDB level and the no-op cache `GetStale` gives the answer of `Get`,
    -- and both leave the same contents behind; they may differ only in the errors recorded.
    pub level_get_stale-get :
        (now : ℤ) (k : Bytes) (c : Level B R)
        → ((level_ops.get_stale now k c).0 ≡ (level_ops.get now k c).0)
          × (contents (level_ops.get_stale now k c).1 ≡ contents (level_ops.get now k c).1)
    unfolding level_ops l1_ops l2_ops noop_ops
    level_get_stale-get now k (l1 c) =
        let (answer, same) = L1Laws.l1_get_stale-get codec store now k c in
        (answer, ap in_store same)
    level_get_stale-get now k (l2 c) =
        let (answer, same) = L2Laws.l2_get_stale-get codec client now k c in
        (answer, ap in_server same)
    level_get_stale-get now k (noop c) = (refl, refl)

    dispatched-CacheLaws : StoreLaws store → L2Laws.ClientLaws client → CacheLaws level_ops
    dispatched-CacheLaws store_laws client_laws =
        let h1 = L1Laws.l1_ops-CacheLaws codec store store_laws in
        let h2 = L2Laws.l2_ops-CacheLaws codec client client_laws in
        record {
          get_sound = sound h1 h2;
          get_stale_sound = stale-IsSound h1 h2;
          get-delete = gone h1 h2;
          get_stale-delete = stale_gone h1 h2;
        }

    -- The in-memory level, the KeyDB level, the no-op cache, and a multi-level cache over any of these
    -- obey the laws of a cache, if the in-memory store does what it documents and no call of the KeyDB
    -- client fails.
    pub level_ops-CacheLaws :
        StoreLaws store
        → L2Laws.ClientLaws client
        → CacheLaws level_ops × CacheLaws (multi_ops level_ops)
    level_ops-CacheLaws store_laws client_laws =
        let laws = dispatched-CacheLaws store_laws client_laws in
        (laws, multi_ops-CacheLaws level_ops laws)
