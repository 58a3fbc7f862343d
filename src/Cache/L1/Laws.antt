-- ===== src/Cache/L1/Laws.antt =====
-- What the in-memory level (cache/l1/bigcache.go) guarantees.
use proxy_common.Common.{
  ◌≡◌, true, false, some, arith, ℤ, pos, ltb_ℤ, length, if◌then◌else◌, ◌≤ℤ◌, ◌+ℤ◌, Option-cases,
  ◌∙◌, inl, inr, Bool-cases,
}
use proxy_common.Common.Bytes.{Bytes}
use proxy_common.Models.{CacheEntry, Ttl, is_expired}
use proxy_common.Cache.{not_found, IsSound, hit, miss, CacheLaws, new_entry}
use proxy_common.Cache.L1.{
  Codec, CodecLaws, Store, StoreLaws, life_window, BigCache, delete, answer_live, get, get_stale,
  set, l1_ops,
}

module _ {B : Type 0} (codec : Codec) (store : Store B) where
  answer_live-IsSound :
      (now : ℤ) (key : Bytes) (bc : BigCache B) (e : CacheEntry)
      → IsSound now (answer_live codec store now key bc e).0
  unfolding answer_live
  answer_live-IsSound now key bc e = elim (Bool-cases (is_expired now e)) [
    | inl old ↦ rw old miss
    | inr live ↦ rw live (hit e live)
  ]

  get-IsSound :
      (now : ℤ) (key : Bytes) (bc : BigCache B) → IsSound now (get codec store now key bc).0
  unfolding get
  get-IsSound now key bc = elim (Option-cases (store.read now key bc.cache)) [
    | inl absent ↦ rw (absent, get) miss
    | inr (d, read) ↦ elim (Option-cases (codec.unmarshal d)) [
      | inl bad ↦ rw (read, get, bad) miss
      | inr (e, good) ↦ rw (read, get, good) (answer_live-IsSound now key bc e)
    ]
  ]

  -- Both reads give the same answer and leave the same store behind; they may differ only in the
  -- errors recorded.
  pub l1_get_stale-get :
      (now : ℤ) (key : Bytes) (bc : BigCache B)
      → ((get_stale codec store now key bc).0 ≡ (get codec store now key bc).0)
        × ((get_stale codec store now key bc).1.cache ≡ (get codec store now key bc).1.cache)
  unfolding get get_stale
  l1_get_stale-get now key bc = ground arith

  get_stale-IsSound :
      (now : ℤ) (key : Bytes) (bc : BigCache B) → IsSound now (get_stale codec store now key bc).0
  get_stale-IsSound now key bc = rw ((l1_get_stale-get now key bc).0) (get-IsSound now key bc)

  get-delete_lem :
      (laws : StoreLaws store) (now : ℤ) (key : Bytes) (bc : BigCache B)
      → (get codec store now key (delete codec store key bc)).0 ≡ not_found
  unfolding get
  get-delete_lem laws now key bc = rw (laws.read-remove now key bc.cache, get, delete)

  -- the laws of a cache, from those of the store
  pub l1_ops-CacheLaws : StoreLaws store → CacheLaws (l1_ops codec store)
  unfolding l1_ops
  l1_ops-CacheLaws laws = record {
    get_sound = get-IsSound;
    get_stale_sound = get_stale-IsSound;
    get-delete = λ now k bc. get-delete_lem laws now k bc;
    get_stale-delete = λ now k bc.
        (l1_get_stale-get now k (delete codec store k bc)).0 ∙ get-delete_lem laws now k bc;
  }

  module _ (codec_laws : CodecLaws codec) (laws : StoreLaws store) where
    -- After a `set` whose encoding `d` is not too large and which the store accepts, a `get` within
    -- the 10 minutes of the store's life window returns the entry that `set` built, if that has not
    -- expired then, and nothing otherwise.
    pub l1_get-set :
        (now later : ℤ) (key val d : Bytes) (ttl : Ttl) (bc : BigCache B)
        → codec.marshal (new_entry now val ttl) ≡ some d
        → pos (length d) ≤ℤ bc.max_entry_size
        → (store.write now key d bc.cache).0 ≡ true
        → now ≤ℤ later
        → later ≤ℤ (now +ℤ pos life_window)
        → (get codec store later key (set codec store now key val ttl bc)).0 ≡ (
            if is_expired later (new_entry now val ttl)
            then not_found
            else (some (new_entry now val ttl), true))
    unfolding get set
    l1_get-set now later key val d ttl bc encoded small written after within =
        let fits : ltb_ℤ bc.max_entry_size (pos (length d)) ≡ false = ground arith in
        let read = laws.read-write now later key d bc.cache written after within in
        ground (arith, codec_laws.unmarshal-marshal (new_entry now val ttl) d)
