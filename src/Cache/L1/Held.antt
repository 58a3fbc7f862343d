-- ===== src/Cache/L1/Held.antt =====
-- What the in-memory level (cache/l1/bigcache.go) holds for a key.
use proxy_common.Common.{
  ◌≡◌, ◌≢◌, sym, ◌∙◌, ap, ◌⊎◌, inl, inr, some, arith, ℤ, Option-cases, Bool-cases, some_inj, ltb_ℤ,
  pos, length,
}
use proxy_common.Common.Bytes.{Bytes}
use proxy_common.Models.{CacheEntry, Ttl, is_expired}
use proxy_common.Cache.{new_entry}
use proxy_common.Cache.Held.{IsHeld, IsHeld-text, IsHeld-marshal}
use proxy_common.Cache.History.{KeepsLaws}
use proxy_common.Cache.L1.{
  Codec, CodecLaws, Store, BigCache, delete, answer_live, get, get_stale, set, store_data, l1_ops,
}
use proxy_common.Cache.L1.Laws.{l1_get_stale-get}

-- What `bigcache` documents: a key is read with what was written last for it, or not at all; a
-- write may evict other keys, and a removal takes its own key out.
pub record StoreKeeps {B : Type 0} (store : Store B) : Type 0 where
  pub read-write :
      (now : ℤ) (k d : Bytes) (b : B) (t : ℤ) (j text : Bytes)
      → store.read t j (store.write now k d b).1 ≡ some text
      → ((k ≡ j) × (text ≡ d)) ⊎ (store.read t j b ≡ some text)
  pub read-remove :
      (k : Bytes) (b : B) (t : ℤ) (j text : Bytes)
      → store.read t j (store.remove k b) ≡ some text
      → (k ≢ j) × (store.read t j b ≡ some text)

module _ {B : Type 0} (codec : Codec) (store : Store B) where
  -- a text of the key that can be read at some time is decoded to the entry
  abbrev pub Holds : BigCache B → Bytes → CacheEntry → Type 0
  Holds bc k e = (t : ℤ) × IsHeld codec (store.read t k bc.cache) e

  answer_live-entry :
      (now : ℤ) (k : Bytes) (bc : BigCache B) (e e' : CacheEntry)
      → (answer_live codec store now k bc e).0.0 ≡ some e'
      → e ≡ e'
  unfolding answer_live
  answer_live-entry now k bc e e' h = elim (Bool-cases (is_expired now e)) [
    | inl old ↦ cc (h, old)
    | inr live ↦ some_inj (ground arith)
  ]

  get_held :
      (now : ℤ) (k : Bytes) (bc : BigCache B) (e : CacheEntry)
      → (get codec store now k bc).0.0 ≡ some e
      → Holds bc k e
  unfolding get
  get_held now k bc e h = elim (Option-cases (store.read now k bc.cache)) [
    | inl absent ↦ absurd (ground arith)
    | inr (d, read) ↦ elim (Option-cases (codec.unmarshal d)) [
      | inl bad ↦ absurd (ground arith)
      | inr (e', good) ↦
          let same : e' ≡ e = answer_live-entry now k bc e' e (rw (read, get, good) at h) in
          (now, record { text = d; found = read; decoded = good ∙ ap some same })
    ]
  ]

  get-cache :
      (now : ℤ) (k : Bytes) (bc : BigCache B)
      → ((get codec store now k bc).1.cache ≡ bc.cache)
        ⊎ ((get codec store now k bc).1.cache ≡ store.remove k bc.cache)
  unfolding get answer_live delete
  get-cache now k bc = ground arith

  module _ (laws : StoreKeeps store) where
    get_kept :
        (now : ℤ) (j : Bytes) (bc : BigCache B) (k : Bytes) (e : CacheEntry)
        → Holds (get codec store now j bc).1 k e
        → Holds bc k e
    get_kept now j bc k e (t, h) = elim (get-cache now j bc) [
      | inl same ↦ (t, IsHeld-text codec h (ap (store.read t k) (sym same) ∙ h.found))
      | inr removed ↦
          let read = ap (store.read t k) (sym removed) ∙ h.found in
          (t, IsHeld-text codec h (laws.read-remove j bc.cache t k h.text read).1)
    ]

    delete_kept :
        (j : Bytes) (bc : BigCache B) (k : Bytes) (e : CacheEntry)
        → Holds (delete codec store j bc) k e
        → (j ≢ k) × Holds bc k e
    unfolding delete
    delete_kept j bc k e (t, h) =
        let (other, read) = laws.read-remove j bc.cache t k h.text h.found in
        (other, (t, IsHeld-text codec h read))

    -- `set` leaves the store alone, or writes the encoding of the new entry
    set-cache :
        (now : ℤ) (j val : Bytes) (ttl : Ttl) (bc : BigCache B)
        → ((set codec store now j val ttl bc).cache ≡ bc.cache)
          ⊎ ((d : Bytes) × (codec.marshal (new_entry now val ttl) ≡ some d)
              × ((set codec store now j val ttl bc).cache ≡ (store.write now j d bc.cache).1))
    unfolding set store_data
    set-cache now j val ttl bc = elim (Option-cases (codec.marshal (new_entry now val ttl))) [
      | inl bad ↦ inl (ground arith)
      | inr (d, encoded) ↦ elim (Bool-cases (ltb_ℤ bc.max_entry_size (pos (length d)))) [
        | inl large ↦ inl (ground arith)
        | inr small ↦ inr (d, encoded, ground arith)
      ]
    ]

    set_kept :
        (codec_laws : CodecLaws codec) (now : ℤ) (j val : Bytes) (ttl : Ttl) (bc : BigCache B)
        (k : Bytes) (e : CacheEntry)
        → Holds (set codec store now j val ttl bc) k e
        → ((j ≡ k) × (e ≡ new_entry now val ttl)) ⊎ Holds bc k e
    set_kept codec_laws now j val ttl bc k e (t, h) = elim (set-cache now j val ttl bc) [
      | inl same ↦ inr (t, IsHeld-text codec h (ap (store.read t k) (sym same) ∙ h.found))
      | inr (d, encoded, written) ↦
          let read = ap (store.read t k) (sym written) ∙ h.found in
          elim (laws.read-write now j d bc.cache t k h.text read) [
            | inl (own, new) ↦
                inl (own, IsHeld-marshal codec codec_laws now val d ttl _ e h encoded new)
            | inr old ↦ inr (t, IsHeld-text codec h old)
          ]
    ]

    get_stale_held :
        (now : ℤ) (k : Bytes) (bc : BigCache B) (e : CacheEntry)
        → (get_stale codec store now k bc).0.0 ≡ some e
        → Holds bc k e
    get_stale_held now k bc e h =
        get_held now k bc e (ap (λ a. a.0) (sym (l1_get_stale-get codec store now k bc).0) ∙ h)

    get_stale_kept :
        (now : ℤ) (j : Bytes) (bc : BigCache B) (k : Bytes) (e : CacheEntry)
        → Holds (get_stale codec store now j bc).1 k e
        → Holds bc k e
    get_stale_kept now j bc k e (t, h) =
        let same = (l1_get_stale-get codec store now j bc).1 in
        get_kept now j bc k e (t, IsHeld-text codec h (ap (store.read t k) (sym same) ∙ h.found))

    pub l1_ops-KeepsLaws : CodecLaws codec → KeepsLaws (l1_ops codec store) Holds
    unfolding l1_ops
    l1_ops-KeepsLaws codec_laws = record {
      get_held = get_held;
      get_kept = get_kept;
      get_stale_held = get_stale_held;
      get_stale_kept = get_stale_kept;
      set_kept = set_kept codec_laws;
      delete_kept = delete_kept;
    }
