-- ===== src/Cache/L1.antt =====
-- cache/l1/bigcache.go: the in-memory level. The store is the package `bigcache`, and the encoding
-- of entries is `encoding/json`: both are parameters. The task that publishes statistics is in
-- Collect.
pub mod Laws
pub mod Collect
pub mod Closing
pub mod Held
use proxy_common.Common.{
  ◌≡◌, Bool, true, false, Option, none, some, List, [], ◌∷◌, ◌++◌, ℤ, pos, ltb_ℤ, ◌≤ℤ◌, ◌+ℤ◌, ℕ,
  length, if◌then◌else◌,
}
use proxy_common.Common.Bytes.{Bytes}
use proxy_common.Models.{CacheEntry, Ttl, is_expired}
use proxy_common.Cache.{Answer, not_found, CacheOps, new_entry}

-- `json.Marshal` and `json.Unmarshal` of a `CacheEntry`; `none` is an error.
pub record Codec : Type 0 where
  pub marshal : CacheEntry → Option Bytes
  pub unmarshal : Bytes → Option CacheEntry

-- what `encoding/json` documents: what was marshalled is unmarshalled to the same value
pub record CodecLaws (codec : Codec) : Type 0 where
  pub unmarshal-marshal :
      (e : CacheEntry) (d : Bytes) → codec.marshal e ≡ some d → codec.unmarshal d ≡ some e

-- `bigcache.BigCache`: `Get` (`none` is an error), `Set` (with whether it succeeds) and `Delete`,
-- whose error the program ignores. `Get` and `Set` take the time: entries are evicted when they get
-- too old. A `Set` that fails may have changed the store.
pub record Store (B : Type 0) : Type 0 where
  pub read : ℤ → Bytes → B → Option Bytes
  pub write : ℤ → Bytes → Bytes → B → Bool × B
  pub remove : Bytes → B → B

-- the life window that `NewBigCache` asks for, 10 minutes in seconds
abbrev pub life_window : ℕ
life_window = 600

-- What `bigcache` documents: a removed key is not found; a key that was just written is, unless it
-- gets older than the life window.
pub record StoreLaws {B : Type 0} (store : Store B) : Type 0 where
  pub read-remove : (t : ℤ) (k : Bytes) (b : B) → store.read t k (store.remove k b) ≡ none
  pub read-write :
      (now t : ℤ) (k d : Bytes) (b : B)
      → (store.write now k d b).0 ≡ true
      → now ≤ℤ t
      → t ≤ℤ (now +ℤ pos life_window)
      → store.read t k (store.write now k d b).1 ≡ some d

-- The kinds of `RecordCacheError`, at this level and at the next.
pub data ErrorKind : Type 0 where
  decode encode entry_too_large upstream redis : ErrorKind

-- `metrics` is the sequence of the calls of `RecordCacheError("l1", kind)`.
pub record BigCache (B : Type 0) : Type 0 where
  pub cache : B
  pub max_entry_size : ℤ
  pub metrics : List ErrorKind

abbrev pub record_error : {B : Type 0} → ErrorKind → BigCache B → BigCache B
record_error kind bc = record bc { metrics = bc.metrics ++ kind ∷ [] }

module _ {B : Type 0} (codec : Codec) (store : Store B) where
  unfoldable pub delete : Bytes → BigCache B → BigCache B
  delete key bc = record bc { cache = store.remove key bc.cache }

  -- the test of `IsExpired` at the end of both reads
  unfoldable pub answer_live : ℤ → Bytes → BigCache B → CacheEntry → Answer × BigCache B
  unfolding delete
  answer_live now key bc entry =
      if is_expired now entry then (not_found, delete key bc) else ((some entry, true), bc)

  unfoldable pub get : ℤ → Bytes → BigCache B → Answer × BigCache B
  unfolding answer_live delete
  get now key bc = elim (store.read now key bc.cache) [
    | none ↦ (not_found, bc)
    | some d ↦ elim (codec.unmarshal d) [
      | none ↦ (not_found, delete key (record_error decode bc))
      | some entry ↦ answer_live now key bc entry
    ]
  ]

  unfoldable pub get_stale : ℤ → Bytes → BigCache B → Answer × BigCache B
  unfolding answer_live delete
  get_stale now key bc = elim (store.read now key bc.cache) [
    | none ↦ (not_found, bc)
    | some d ↦ elim (codec.unmarshal d) [
      | none ↦ (not_found, delete key bc)
      | some entry ↦ answer_live now key bc entry
    ]
  ]

  -- the part of `Set` behind `json.Marshal`
  unfoldable pub store_data : ℤ → Bytes → Bytes → BigCache B → BigCache B
  store_data now key d bc =
      let (ok, cache') = store.write now key d bc.cache in
      if ltb_ℤ bc.max_entry_size (pos (length d))
      then record_error entry_too_large bc
      else if ok
      then record bc { cache = cache' }
      else record_error upstream (record bc { cache = cache' })

  unfoldable pub set : ℤ → Bytes → Bytes → Ttl → BigCache B → BigCache B
  unfolding store_data
  set now key val ttl bc = elim (codec.marshal (new_entry now val ttl)) [
    | none ↦ record_error encode bc
    | some d ↦ store_data now key d bc
  ]

  unfoldable pub l1_ops : CacheOps (BigCache B)
  unfolding get get_stale set delete
  l1_ops = record { get = get; get_stale = get_stale; set = set; delete = delete }
