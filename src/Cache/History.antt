-- ===== src/Cache/History.antt =====
-- The calls of a cache (cache/interfaces.go) as a history, and the calls of `Set` that its answers
-- go back to.
use proxy_common.Common.{◌≡◌, ◌≢◌, ◌⊎◌, List, [], ◌∷◌, ℤ, if◌then◌else◌, some, map}
use proxy_common.Common.Bytes.{Bytes, bytes_eq}
use proxy_common.Models.{CacheEntry, Ttl}
use proxy_common.Cache.{CacheOps, new_entry}

pub data Call : Type 0 where
  get : ℤ → Bytes → Call
  get_stale : ℤ → Bytes → Call
  set : ℤ → Bytes → Bytes → Ttl → Call
  delete : Bytes → Call

-- a call of `Set` for a key
pub record Origin : Type 0 where
  pub time : ℤ
  pub val : Bytes
  pub ttl : Ttl

-- the calls of `Set` for a key, behind one more call: a deletion forgets them
unfoldable pub note : Bytes → Call → List Origin → List Origin
note k (get now j) origins = origins
note k (get_stale now j) origins = origins
note k (set now j val ttl) origins =
    if bytes_eq j k then record { time = now; val = val; ttl = ttl } ∷ origins else origins
note k (delete j) origins = if bytes_eq j k then [] else origins

-- the calls of `Set` for a key since it was deleted last
unfoldable pub origins_after : Bytes → List Call → List Origin → List Origin
unfolding note
origins_after k [] origins = origins
origins_after k (c ∷ calls) origins = origins_after k calls (note k c origins)

-- what `Set` was called with for a key since it was deleted last
unfoldable pub set_values : Bytes → List Call → List Bytes
unfolding origins_after
set_values k calls = map (λ o. o.val) (origins_after k calls [])

-- The part of a state that the reads of a cache draw on: `Holds s k e` says that the key may be
-- answered with the entry. Only `set` adds to it, and `delete` clears the key.
pub record KeepsLaws {S : Type 0} (ops : CacheOps S) (Holds : S → Bytes → CacheEntry → Type 0)
    : Type 0 where
  pub get_held :
      (now : ℤ) (k : Bytes) (s : S) (e : CacheEntry) → (ops.get now k s).0.0 ≡ some e → Holds s k e
  pub get_kept :
      (now : ℤ) (j : Bytes) (s : S) (k : Bytes) (e : CacheEntry)
      → Holds (ops.get now j s).1 k e
      → Holds s k e
  pub get_stale_held :
      (now : ℤ) (k : Bytes) (s : S) (e : CacheEntry)
      → (ops.get_stale now k s).0.0 ≡ some e
      → Holds s k e
  pub get_stale_kept :
      (now : ℤ) (j : Bytes) (s : S) (k : Bytes) (e : CacheEntry)
      → Holds (ops.get_stale now j s).1 k e
      → Holds s k e
  pub set_kept :
      (now : ℤ) (j val : Bytes) (ttl : Ttl) (s : S) (k : Bytes) (e : CacheEntry)
      → Holds (ops.set now j val ttl s) k e
      → ((j ≡ k) × (e ≡ new_entry now val ttl)) ⊎ Holds s k e
  pub delete_kept :
      (j : Bytes) (s : S) (k : Bytes) (e : CacheEntry)
      → Holds (ops.delete j s) k e
      → (j ≢ k) × Holds s k e

module _ {S : Type 0} (ops : CacheOps S) where
  unfoldable pub perform : Call → S → S
  perform (get now k) s = (ops.get now k s).1
  perform (get_stale now k) s = (ops.get_stale now k s).1
  perform (set now k val ttl) s = ops.set now k val ttl s
  perform (delete k) s = ops.delete k s

  unfoldable pub perform_all : List Call → S → S
  unfolding perform
  perform_all [] s = s
  perform_all (c ∷ calls) s = perform_all calls (perform c s)
