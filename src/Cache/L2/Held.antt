-- ===== src/Cache/L2/Held.antt =====
-- What the KeyDB level (cache/l2/keydb.go) holds for a key.
use proxy_common.Common.{
  ◌≡◌, ◌≢◌, sym, ◌∙◌, ap, ◌⊎◌, inl, inr, true, Option, none, some, arith, ℤ, Option-cases,
  Bool-cases, some_inj, subst, refl,
}
use proxy_common.Common.Bytes.{Bytes}
use proxy_common.Common.Int64.{add64}
use proxy_common.Models.{CacheEntry, Ttl, is_expired}
use proxy_common.Cache.{new_entry}
use proxy_common.Cache.Held.{IsHeld, IsHeld-text, IsHeld-marshal}
use proxy_common.Cache.History.{KeepsLaws}
use proxy_common.Cache.L1.{Codec, CodecLaws}
use proxy_common.Cache.L2.{
  Client, KeyDbCache, GetReply, value, nil, failed, del, delete, answer_live, answer_get, get,
  get_stale, set, l2_ops,
}
use proxy_common.Cache.L2.Laws.{l2_get_stale-get}

-- What a server documents of its texts, where nobody else writes to it: a read answers with the text
-- of the key; a read or a removal adds nothing, a write at most the text that it is given; and a
-- removal that succeeds takes the key out. Every removal succeeds.
pub record ServerKeeps {R : Type 0} (client : Client R) (contents : Bytes → R → Option Bytes)
    : Type 0 where
  pub read-value :
      (t : Option ℤ) (k d : Bytes) (r : R) → (client.read t k r).0 ≡ value d → contents k r ≡ some d
  pub contents-read :
      (t : Option ℤ) (k : Bytes) (r : R) (j d : Bytes)
      → contents j (client.read t k r).1 ≡ some d
      → contents j r ≡ some d
  pub contents-write :
      (t : Option ℤ) (k d : Bytes) (expiration : ℤ) (r : R) (j d' : Bytes)
      → contents j (client.write t k d expiration r).1 ≡ some d'
      → ((k ≡ j) × (d' ≡ d)) ⊎ (contents j r ≡ some d')
  pub contents-remove :
      (t : Option ℤ) (k : Bytes) (r : R) (j d : Bytes)
      → contents j (client.remove t k r).1 ≡ some d
      → contents j r ≡ some d
  pub removed :
      (t : Option ℤ) (k : Bytes) (r : R)
      → (client.remove t k r).0 ≡ true
      → contents k (client.remove t k r).1 ≡ none
  pub remove_succeeds : (t : Option ℤ) (k : Bytes) (r : R) → (client.remove t k r).0 ≡ true

module _ {R : Type 0} (codec : Codec) (client : Client R)
    (contents : Bytes → R → Option Bytes) where
  -- the server's text of the key is read as an entry with the payload
  abbrev pub Holds : KeyDbCache R → Bytes → CacheEntry → Type 0
  Holds kc k e = IsHeld codec (contents k kc.world) e

  answer_live-entry :
      (now : ℤ) (k : Bytes) (kc : KeyDbCache R) (e e' : CacheEntry)
      → (answer_live codec client now k kc e).0.0 ≡ some e'
      → e ≡ e'
  unfolding answer_live
  answer_live-entry now k kc e e' h = elim (Bool-cases (is_expired now e)) [
    | inl old ↦ cc (h, old)
    | inr live ↦ some_inj (ground arith)
  ]

  -- an answer is decoded from the reply
  answer_get-entry :
      (now : ℤ) (k : Bytes) (reply : GetReply) (kc : KeyDbCache R) (e : CacheEntry)
      → (answer_get codec client now k reply kc).0.0 ≡ some e
      → (d : Bytes) × (reply ≡ value d) × (codec.unmarshal d ≡ some e)
  unfolding answer_get
  answer_get-entry now k nil kc e h = cc h
  answer_get-entry now k failed kc e h = cc h
  answer_get-entry now k (value d) kc e h = elim (Option-cases (codec.unmarshal d)) [
    | inl bad ↦ absurd (ground arith)
    | inr (e', good) ↦
        let same : e' ≡ e = answer_live-entry now k kc e' e (rw (answer_get, good) at h) in
        (d, refl, good ∙ ap some same)
  ]

  module _ (laws : ServerKeeps client contents) where
    -- a call of `Del` adds nothing
    contents-answer_get :
        (now : ℤ) (j : Bytes) (reply : GetReply) (kc : KeyDbCache R) (k d : Bytes)
        → contents k (answer_get codec client now j reply kc).1.world ≡ some d
        → contents k kc.world ≡ some d
    unfolding answer_get answer_live del
    contents-answer_get now j nil kc k d h = h
    contents-answer_get now j failed kc k d h = h
    contents-answer_get now j (value text) kc k d h =
        ground (arith, laws.contents-remove none j kc.world k d)

    get_held :
        (now : ℤ) (k : Bytes) (kc : KeyDbCache R) (e : CacheEntry)
        → (get codec client now k kc).0.0 ≡ some e
        → Holds kc k e
    unfolding get
    get_held now k kc e h =
        let timeout = some kc.cfg.connection.read_timeout in
        let (reply, world) = client.read timeout k kc.world in
        let (d, read, good) = answer_get-entry now k reply (record kc { world = world }) e h in
        record { text = d; found = laws.read-value timeout k d kc.world read; decoded = good }

    get_kept :
        (now : ℤ) (j : Bytes) (kc : KeyDbCache R) (k : Bytes) (e : CacheEntry)
        → Holds (get codec client now j kc).1 k e
        → Holds kc k e
    unfolding get
    get_kept now j kc k e h =
        let timeout = some kc.cfg.connection.read_timeout in
        let (reply, world) = client.read timeout j kc.world in
        IsHeld-text codec h (
          laws.contents-read timeout j kc.world k h.text
            (contents-answer_get now j reply (record kc { world = world }) k h.text h.found))

    delete_kept :
        (j : Bytes) (kc : KeyDbCache R) (k : Bytes) (e : CacheEntry)
        → Holds (delete codec client j kc) k e
        → (j ≢ k) × Holds kc k e
    unfolding delete del
    delete_kept j kc k e h =
        let timeout = some kc.cfg.connection.send_timeout in
        let gone = laws.removed timeout j kc.world (laws.remove_succeeds timeout j kc.world) in
        let after : R = (client.remove timeout j kc.world).1 in
        (
          λ same. cc (sym gone ∙ subst (λ i. contents i after ≡ some h.text) (sym same) h.found),
          IsHeld-text codec h (laws.contents-remove timeout j kc.world k h.text h.found),
        )

    -- `set` leaves the world alone, or writes the encoding of the new entry
    set-world :
        (now : ℤ) (j val : Bytes) (ttl : Ttl) (kc : KeyDbCache R)
        → ((set codec client now j val ttl kc).world ≡ kc.world)
          ⊎ ((d : Bytes) × (codec.marshal (new_entry now val ttl) ≡ some d)
              × ((set codec client now j val ttl kc).world
                  ≡ (client.write
                      (some kc.cfg.connection.send_timeout)
                      j
                      d
                      (add64 ttl.fresh ttl.stale)
                      kc.world).1))
    unfolding set
    set-world now j val ttl kc = elim (Option-cases (codec.marshal (new_entry now val ttl))) [
      | inl bad ↦ inl (ground arith)
      | inr (d, encoded) ↦ inr (d, encoded, ground arith)
    ]

    set_kept :
        (codec_laws : CodecLaws codec) (now : ℤ) (j val : Bytes) (ttl : Ttl) (kc : KeyDbCache R)
        (k : Bytes) (e : CacheEntry)
        → Holds (set codec client now j val ttl kc) k e
        → ((j ≡ k) × (e ≡ new_entry now val ttl)) ⊎ Holds kc k e
    set_kept codec_laws now j val ttl kc k e h = elim (set-world now j val ttl kc) [
      | inl same ↦ inr (IsHeld-text codec h (ap (contents k) (sym same) ∙ h.found))
      | inr (d, encoded, written) ↦
          let timeout = some kc.cfg.connection.send_timeout in
          elim (laws.contents-write timeout j d (add64 ttl.fresh ttl.stale) kc.world k h.text
            (ap (contents k) (sym written) ∙ h.found)) [
              | inl (own, new) ↦
                  inl (own, IsHeld-marshal codec codec_laws now val d ttl _ e h encoded new)
              | inr old ↦ inr (IsHeld-text codec h old)
            ]
    ]

    get_stale_held :
        (now : ℤ) (k : Bytes) (kc : KeyDbCache R) (e : CacheEntry)
        → (get_stale codec client now k kc).0.0 ≡ some e
        → Holds kc k e
    get_stale_held now k kc e h =
        get_held now k kc e (ap (λ a. a.0) (sym (l2_get_stale-get codec client now k kc).0) ∙ h)

    get_stale_kept :
        (now : ℤ) (j : Bytes) (kc : KeyDbCache R) (k : Bytes) (e : CacheEntry)
        → Holds (get_stale codec client now j kc).1 k e
        → Holds kc k e
    get_stale_kept now j kc k e h =
        let same = (l2_get_stale-get codec client now j kc).1 in
        get_kept now j kc k e (IsHeld-text codec h (ap (contents k) (sym same) ∙ h.found))

    pub l2_ops-KeepsLaws : CodecLaws codec → KeepsLaws (l2_ops codec client) Holds
    unfolding l2_ops
    l2_ops-KeepsLaws codec_laws = record {
      get_held = get_held;
      get_kept = get_kept;
      get_stale_held = get_stale_held;
      get_stale_kept = get_stale_kept;
      set_kept = set_kept codec_laws;
      delete_kept = delete_kept;
    }
