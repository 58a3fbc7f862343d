-- ===== src/Cache/L2/Laws.antt =====
-- What the KeyDB level (cache/l2/keydb.go) guarantees, and what the server has to do for it.
use proxy_common.Common.{
  ◌≡◌, refl, true, Option, some, arith, ℤ, if◌then◌else◌, Option-cases, inl, inr, Bool-cases, ◌∙◌,
}
use proxy_common.Common.Bytes.{Bytes}
use proxy_common.Common.Int64.{add64}
use proxy_common.Models.{CacheEntry, Ttl, is_expired}
use proxy_common.Cache.{not_found, IsSound, hit, miss, CacheLaws, new_entry}
use proxy_common.Cache.L1.{Codec, CodecLaws}
use proxy_common.Cache.L2.{
  GetReply, value, nil, failed, Client, KeyDbCache, delete, answer_live, answer_get,
  answer_get_stale, get, get_stale, set, l2_ops,
}

-- What holds as long as no call fails, the server's connection included: after `Del` the key has no
-- value. (A `Del` that fails may leave it.)
pub record ClientLaws {R : Type 0} (client : Client R) : Type 0 where
  pub read-remove :
      (t u : Option ℤ) (k : Bytes) (r : R) → (client.read t k (client.remove u k r).1).0 ≡ nil

module _ {R : Type 0} (codec : Codec) (client : Client R) where
  answer_live-IsSound :
      (now : ℤ) (key : Bytes) (kc : KeyDbCache R) (e : CacheEntry)
      → IsSound now (answer_live codec client now key kc e).0
  unfolding answer_live
  answer_live-IsSound now key kc e = elim (Bool-cases (is_expired now e)) [
    | inl old ↦ rw old miss
    | inr live ↦ rw live (hit e live)
  ]

  answer_get-IsSound :
      (now : ℤ) (key : Bytes) (reply : GetReply) (kc : KeyDbCache R)
      → IsSound now (answer_get codec client now key reply kc).0
  unfolding answer_get
  answer_get-IsSound now key nil kc = miss
  answer_get-IsSound now key failed kc = miss
  answer_get-IsSound now key (value d) kc = elim (Option-cases (codec.unmarshal d)) [
    | inl bad ↦ rw (bad, answer_get) miss
    | inr (e, good) ↦ rw (good, answer_get) (answer_live-IsSound now key kc e)
  ]

  answer_get_stale-answer_get :
      (now : ℤ) (key : Bytes) (reply : GetReply) (kc : KeyDbCache R)
      → ((answer_get_stale codec client now key reply kc).0
          ≡ (answer_get codec client now key reply kc).0)
        × ((answer_get_stale codec client now key reply kc).1.world
            ≡ (answer_get codec client now key reply kc).1.world)
  unfolding answer_get answer_get_stale
  answer_get_stale-answer_get now key nil kc = (refl, refl)
  answer_get_stale-answer_get now key failed kc = (refl, refl)
  answer_get_stale-answer_get now key (value d) kc = ground arith

  -- Both reads give the same answer and leave the same server state behind; they may differ only in
  -- the errors recorded.
  pub l2_get_stale-get :
      (now : ℤ) (key : Bytes) (kc : KeyDbCache R)
      → ((get_stale codec client now key kc).0 ≡ (get codec client now key kc).0)
        × ((get_stale codec client now key kc).1.world ≡ (get codec client now key kc).1.world)
  unfolding get get_stale
  l2_get_stale-get now key kc =
      answer_get_stale-answer_get now key
        (client.read (some kc.cfg.connection.read_timeout) key kc.world).0
        (record kc { world = (client.read (some kc.cfg.connection.read_timeout) key kc.world).1 })

  get-IsSound :
      (now : ℤ) (key : Bytes) (kc : KeyDbCache R) → IsSound now (get codec client now key kc).0
  unfolding get
  get-IsSound now key kc =
      answer_get-IsSound now key (client.read (some kc.cfg.connection.read_timeout) key kc.world).0
        (record kc { world = (client.read (some kc.cfg.connection.read_timeout) key kc.world).1 })

  get_stale-IsSound :
      (now : ℤ) (key : Bytes) (kc : KeyDbCache R)
      → IsSound now (get_stale codec client now key kc).0
  get_stale-IsSound now key kc = rw ((l2_get_stale-get now key kc).0) (get-IsSound now key kc)

  get-delete_lem :
      (laws : ClientLaws client) (now : ℤ) (key : Bytes) (kc : KeyDbCache R)
      → (get codec client now key (delete codec client key kc)).0 ≡ not_found
  unfolding get delete
  get-delete_lem laws now key kc = rw (
    laws.read-remove (some kc.cfg.connection.read_timeout) (some kc.cfg.connection.send_timeout) key
        kc.world,
    get,
    delete,
  )

  -- the laws of a cache, if the server does not fail
  pub l2_ops-CacheLaws : ClientLaws client → CacheLaws (l2_ops codec client)
  unfolding l2_ops
  l2_ops-CacheLaws laws = record {
    get_sound = get-IsSound;
    get_stale_sound = get_stale-IsSound;
    get-delete = λ now k kc. get-delete_lem laws now k kc;
    get_stale-delete = λ now k kc.
        (l2_get_stale-get now k (delete codec client k kc)).0 ∙ get-delete_lem laws now k kc;
  }

  -- After a `set` that the client reports as done, where the server answers the next read of the key
  -- with the data written, a `get` returns the entry that `set` built, if that has not expired.
  pub l2_get-set :
      (codec_laws : CodecLaws codec) (now later : ℤ) (key val d : Bytes) (ttl : Ttl)
      (kc : KeyDbCache R)
      → codec.marshal (new_entry now val ttl) ≡ some d
      → (let (done, world) =
            client.write
              (some kc.cfg.connection.send_timeout)
              key
              d
              (add64 ttl.fresh ttl.stale)
              kc.world in
          (done ≡ true)
          × ((client.read (some kc.cfg.connection.read_timeout) key world).0 ≡ value d))
      → (get codec client later key (set codec client now key val ttl kc)).0 ≡ (
          if is_expired later (new_entry now val ttl)
          then not_found
          else (some (new_entry now val ttl), true))
  unfolding get set
  l2_get-set codec_laws now later key val d ttl kc encoded (done, kept) =
      rw
        (
          encoded,
          get,
          set,
          done,
          kept,
          answer_get,
          codec_laws.unmarshal-marshal (new_entry now val ttl) d encoded,
        )
        (ground arith)
