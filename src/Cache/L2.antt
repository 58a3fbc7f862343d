-- ===== src/Cache/L2.antt =====
-- cache/l2/keydb.go: the KeyDB level. The client (`KeyDbClient`, in production the package
-- `go-redis` over the network) acts on a world of type `R` and is a parameter, and so is the
-- encoding of entries. A call that times out is one that fails.
pub mod Laws
pub mod Connect
pub mod Held
use proxy_common.Common.{
  ◌≡◌, Bool, true, false, Option, none, some, List, [], ◌∷◌, ◌++◌, ℤ, if◌then◌else◌,
}
use proxy_common.Common.Bytes.{Bytes}
use proxy_common.Common.Int64.{add64}
use proxy_common.Models.{CacheEntry, Ttl, is_expired}
use proxy_common.Cache.{Answer, not_found, CacheOps, new_entry}
use proxy_common.Cache.Config.{KeyDbConfig}
use proxy_common.Cache.L1.{Codec, ErrorKind, decode, encode, redis}

-- What `client.Get(ctx, key).Result()` returns: a value, `redis.Nil`, or another error.
pub data GetReply : Type 0 where
  value : Bytes → GetReply
  nil : GetReply
  failed : GetReply

-- Each method takes the timeout of its context, `none` for `context.Background()`. `Set` takes the
-- expiration too; durations are nanoseconds. `Set` and `Del` return whether they succeeded.
pub record Client (R : Type 0) : Type 0 where
  pub read : Option ℤ → Bytes → R → GetReply × R
  pub write : Option ℤ → Bytes → Bytes → ℤ → R → Bool × R
  pub remove : Option ℤ → Bytes → R → Bool × R

-- `metrics` is the sequence of the calls of `RecordCacheError("l2", kind)`.
pub record KeyDbCache (R : Type 0) : Type 0 where
  pub world : R
  pub cfg : KeyDbConfig
  pub metrics : List ErrorKind

abbrev pub record_error : {R : Type 0} → ErrorKind → KeyDbCache R → KeyDbCache R
record_error kind kc = record kc { metrics = kc.metrics ++ kind ∷ [] }

module _ {R : Type 0} (codec : Codec) (client : Client R) where
  -- a call of `Del`; whether it succeeded is only logged
  unfoldable pub del : Option ℤ → Bytes → KeyDbCache R → KeyDbCache R
  del timeout key kc = record kc { world = (client.remove timeout key kc.world).1 }

  unfoldable pub delete : Bytes → KeyDbCache R → KeyDbCache R
  unfolding del
  delete key kc = del (some kc.cfg.connection.send_timeout) key kc

  unfoldable pub answer_live : ℤ → Bytes → KeyDbCache R → CacheEntry → Answer × KeyDbCache R
  unfolding del
  answer_live now key kc entry =
      if is_expired now entry then (not_found, del none key kc) else ((some entry, true), kc)

  -- the rest of `Get` behind `client.Get`
  unfoldable pub answer_get : ℤ → Bytes → GetReply → KeyDbCache R → Answer × KeyDbCache R
  unfolding answer_live del
  answer_get now key nil kc = (not_found, kc)
  answer_get now key failed kc = (not_found, kc)
  answer_get now key (value d) kc = elim (codec.unmarshal d) [
    | none ↦ (not_found, del none key (record_error decode kc))
    | some entry ↦ answer_live now key kc entry
  ]

  unfoldable pub get : ℤ → Bytes → KeyDbCache R → Answer × KeyDbCache R
  unfolding answer_get
  get now key kc =
      let (reply, world') = client.read (some kc.cfg.connection.read_timeout) key kc.world in
      answer_get now key reply (record kc { world = world' })

  -- the rest of `GetStale` behind `client.Get`
  unfoldable pub answer_get_stale : ℤ → Bytes → GetReply → KeyDbCache R → Answer × KeyDbCache R
  unfolding answer_live del
  answer_get_stale now key nil kc = (not_found, kc)
  answer_get_stale now key failed kc = (not_found, kc)
  answer_get_stale now key (value d) kc = elim (codec.unmarshal d) [
    | none ↦ (not_found, del none key kc)
    | some entry ↦ answer_live now key kc entry
  ]

  unfoldable pub get_stale : ℤ → Bytes → KeyDbCache R → Answer × KeyDbCache R
  unfolding answer_get_stale
  get_stale now key kc =
      let (reply, world') = client.read (some kc.cfg.connection.read_timeout) key kc.world in
      answer_get_stale now key reply (record kc { world = world' })

  unfoldable pub set : ℤ → Bytes → Bytes → Ttl → KeyDbCache R → KeyDbCache R
  set now key val ttl kc = elim (codec.marshal (new_entry now val ttl)) [
    | none ↦ record_error encode kc
    | some d ↦
        let timeout = some kc.cfg.connection.send_timeout in
        let (done, world') = client.write timeout key d (add64 ttl.fresh ttl.stale) kc.world in
        if done
        then record kc { world = world' }
        else record_error redis (record kc { world = world' })
  ]

  unfoldable pub l2_ops : CacheOps (KeyDbCache R)
  unfolding get get_stale set delete
  l2_ops = record { get = get; get_stale = get_stale; set = set; delete = delete }
