-- ===== src/Batch/Merge.antt =====
-- `ChunkMapFetcher` and `ChunkArrayFetcher` (batch/chunker.go): the merged results of the chunks.
use proxy_common.Common.{
  ◌≡◌, Bool, false, ◌||◌, Option, none, some, List, [], ◌∷◌, ◌++◌, ℤ, if◌then◌else◌,
}
use proxy_common.Common.Bytes.{Bytes, bytes_eq, bytes_has_eq}
use proxy_common.Common.GoMap.{GoMap, lookup, insert, Distinct}
use proxy_common.Batch.{Result, ok, err, ChunkError, Env, process_in_chunks}

-- the loop that appends each chunk's result
unfoldable pub append_all {ℓ} : {A : Type ℓ} → List A → List (List A) → List A
append_all result [] = result
append_all result (chunk ∷ chunks) = append_all (result ++ chunk) chunks

module _ {ℓ} {V : Type ℓ} where
  -- the loop over the entries of one chunk's map, in the order in which Go visits them
  unfoldable pub copy_into : GoMap Bytes V → GoMap Bytes V → GoMap Bytes V
  copy_into result [] = result
  copy_into result ((k, v) ∷ chunk) = copy_into (insert k v result) chunk

  unfoldable pub merge_maps : GoMap Bytes V → List (GoMap Bytes V) → GoMap Bytes V
  unfolding copy_into
  merge_maps result [] = result
  merge_maps result (chunk ∷ chunks) = merge_maps (copy_into result chunk) chunks

-- An error is passed on, and the results of a run are merged.
unfoldable pub merge_with {ℓ} :
    {W R T E : Type ℓ}
    → (List R → T)
    → Option (Result (ChunkError E) (List R) × W)
    → Option (Result (ChunkError E) T × W)
merge_with f none = none
merge_with f (some (ok results, w)) = some (ok (f results), w)
merge_with f (some (err e, w)) = some (err e, w)

module _ {ℓ} {W V E : Type ℓ} where
  unfoldable pub chunk_array_fetcher :
      Env W (List V) E → ℤ → ℤ → ℤ → List Bytes → W → Option (Result (ChunkError E) (List V) × W)
  unfolding merge_with append_all
  chunk_array_fetcher env item_limit length_limit delay items w =
      merge_with (append_all []) (process_in_chunks env delay item_limit length_limit items w)

  unfoldable pub chunk_map_fetcher :
      Env W (GoMap Bytes V) E
      → ℤ
      → ℤ
      → ℤ
      → List Bytes
      → W
      → Option (Result (ChunkError E) (GoMap Bytes V) × W)
  unfolding merge_with merge_maps
  chunk_map_fetcher env item_limit length_limit delay items w =
      merge_with (merge_maps []) (process_in_chunks env delay item_limit length_limit items w)

-- Whether an item stands in a list.
abbrev pub contains : Bytes → List Bytes → Bool
contains k [] = false
contains k (x ∷ xs) = bytes_eq x k || contains k xs

-- An environment in which no fetch fails and no pause is cut short: `r chunk` is what `fetchFunc`
-- returns for a chunk.
pub record Succeeds {ℓ} {W R E : Type ℓ} (env : Env W R E) (r : List Bytes → R) : Type ℓ where
  pub fetched : (chunk : List Bytes) (w : W) → (env.fetch chunk w).0 ≡ ok (r chunk)
  pub paused : (w : W) → (env.pause w).0 ≡ none

module _ {ℓ} {V : Type ℓ} where
  -- What a map answers a chunk with: `f k` at each item `k` of the chunk, and nothing elsewhere.
  pub record Answers (f : Bytes → V) (items : List Bytes) (m : GoMap Bytes V) : Type ℓ where
    pub distinct : Distinct m
    pub at : (k : Bytes) → lookup k m ≡ (if contains k items then some (f k) else none)
