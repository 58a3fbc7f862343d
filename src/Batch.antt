-- ===== src/Batch.antt =====
-- batch/chunker.go: `processInChunks` and the two fetchers that merge its results.
-- `items[start:]` is the list of the items that are left. The calls of `fetchFunc` and the pause
-- between two chunks act on a world of type `W`.
pub mod Chunks
pub mod Refine
pub mod Merge
use proxy_common.Common.{
  ℕ, zero, suc, ◌+◌, Bool, true, false, not, ◌&&◌, ◌||◌, Option, none, some, List, [], ◌∷◌, ◌++◌, ℤ,
  pos, ◌≡◌, refl, ◌⊎◌, inl, inr, ltb_ℤ, leb_ℤ, ◌==◌, if◌then◌else◌, length, take, drop,
}
use proxy_common.Common.Bytes.{Bytes}

pub data Result {ℓ κ} (E : Type κ) (A : Type ℓ) : Type (ℓ ⊔ κ) where
  ok : A → Result E A
  err : E → Result E A

pub Result-cases {ℓ κ} :
    {E : Type κ} {A : Type ℓ} (r : Result E A) → ((e : E) × (r ≡ err e)) ⊎ ((a : A) × (r ≡ ok a))
Result-cases (ok a) = inr (a, refl)
Result-cases (err e) = inl (e, refl)

-- The inner loop: `taken` is `end - start`, `current` is `currentLength`, and the list is
-- `items[end:]`. The result is `end - start` at the loop's exit.
unfoldable pub fit : ℤ → ℤ → ℕ → ℕ → List Bytes → ℕ
fit item_limit length_limit taken current [] = taken
fit item_limit length_limit taken current (item ∷ rest) =
    let more = fit item_limit length_limit (taken + 1) (current + length item) rest in
    if ltb_ℤ (pos taken) item_limit
    then if ltb_ℤ (pos 0) length_limit && ltb_ℤ length_limit (pos (current + length item))
      then taken
      else more
    else taken

-- the size of the next chunk of a list with an item: at least one item is taken
unfoldable pub chunk_size : ℤ → ℤ → List Bytes → ℕ
unfolding fit
chunk_size item_limit length_limit items =
    let n = fit item_limit length_limit 0 0 items in if n == 0 then 1 else n

-- The two ways in which a run fails: `ctx.Err()`, and a wrapped error of `fetchFunc`.
pub data ChunkError {ℓ} (E : Type ℓ) : Type ℓ where
  cancelled : E → ChunkError E
  fetch_failed : E → ChunkError E

-- What the caller hands over: `fetchFunc`, and the `select` between `ctx.Done()` (an error) and
-- `time.After(delay)`.
pub record Env {ℓ} (W T E : Type ℓ) : Type ℓ where
  pub fetch : List Bytes → W → Result E T × W
  pub pause : W → Option E × W

module _ {ℓ} {W T E : Type ℓ} (env : Env W T E) (delay : ℤ) where
  unfoldable pub wait : Bool → W → Option E × W
  wait is_first w = if ltb_ℤ (pos 0) delay && not is_first then env.pause w else (none, w)

  -- one round of the outer loop, up to the `append`
  unfoldable pub visit : Bool → List Bytes → W → Result (ChunkError E) T × W
  unfolding wait
  visit is_first chunk w =
      let (stopped, w') = wait is_first w in
      elim stopped [
        | some e ↦ (err (cancelled e), w')
        | none ↦
            let (fetched, w'') = env.fetch chunk w' in
            elim fetched [ err e ↦ (err (fetch_failed e), w'') | ok result ↦ (ok result, w'') ]
      ]

  -- The outer loop, on fuel; `none` means that the fuel ran out.
  unfoldable pub chunk_loop :
      ℤ → ℤ → ℕ → Bool → List Bytes → List T → W → Option (Result (ChunkError E) (List T) × W)
  chunk_loop item_limit length_limit fuel is_first [] results w = some (ok results, w)
  chunk_loop item_limit length_limit zero is_first (item ∷ rest) results w = none
  chunk_loop item_limit length_limit (suc fuel) is_first (item ∷ rest) results w =
      let n = chunk_size item_limit length_limit (item ∷ rest) in
      let (visited, w') = visit is_first (take n (item ∷ rest)) w in
      elim visited [
        | err e ↦ some (err e, w')
        | ok result ↦
            chunk_loop item_limit length_limit fuel false (drop n (item ∷ rest))
              (results ++ result ∷ []) w'
      ]

  unfoldable pub process_in_chunks :
      ℤ → ℤ → List Bytes → W → Option (Result (ChunkError E) (List T) × W)
  unfolding chunk_loop
  process_in_chunks item_limit length_limit items w =
      if length items == 0 || leb_ℤ item_limit (pos 0)
      then some (ok [], w)
      else chunk_loop item_limit length_limit (length items) true items [] w
