-- ===== src/Batch/Refine.antt =====
-- The chunks of `processInChunks` (batch/chunker.go), and the fetches one after the other.
use proxy_common.Common.{
  ℕ, zero, suc, ◌≤◌, ◌≡◌, refl, ◌∙◌, ap, Bool, true, false, inl, inr, some, List, [], ◌∷◌, ◌++◌,
  arith, ℤ, pos, leb_ℤ, ◌≤ℤ◌, ◌||◌, ◌==◌, append_assoc, append-nil, length, take, drop, concat,
  take-append-drop,
}
use proxy_common.Common.Bytes.{Bytes}
use proxy_common.Batch.{
  Result, ok, err, Result-cases, ChunkError, Env, chunk_size, visit, chunk_loop, process_in_chunks,
}
use proxy_common.Batch.Chunks.{AreChunks, done, more, length-drop, next-IsChunk}

-- The chunks that the loop visits, on the loop's own fuel.
split_chunks : ℤ → ℤ → ℕ → List Bytes → List (List Bytes)
split_chunks il ll fuel [] = []
split_chunks il ll zero (x ∷ xs) = []
split_chunks il ll (suc fuel) (x ∷ xs) =
    let n = chunk_size il ll (x ∷ xs) in take n (x ∷ xs) ∷ split_chunks il ll fuel (drop n (x ∷ xs))

-- The chunks of a list of items.
pub chunks_of : ℤ → ℤ → List Bytes → List (List Bytes)
unfolding split_chunks
chunks_of il ll items = split_chunks il ll (length items) items

module _ (il ll : ℤ) (h : pos 1 ≤ℤ il) where
  fuel_left :
      (x : Bytes) (xs : List Bytes) {fuel : ℕ}
      → length (x ∷ xs) ≤ suc fuel
      → length (drop (chunk_size il ll (x ∷ xs)) (x ∷ xs)) ≤ fuel
  fuel_left x xs le =
      let (positive, in_items, _) = next-IsChunk il ll x xs h in
      omega (arith, length-drop (chunk_size il ll (x ∷ xs)) (x ∷ xs) in_items)

  -- the chunks are the items, in order
  concat-split_chunks :
      (fuel : ℕ) (xs : List Bytes) → length xs ≤ fuel → concat (split_chunks il ll fuel xs) ≡ xs
  unfolding split_chunks
  concat-split_chunks fuel [] le = refl
  concat-split_chunks zero (x ∷ xs) le = absurd (omega arith)
  concat-split_chunks (suc fuel) (x ∷ xs) le =
      let n = chunk_size il ll (x ∷ xs) in
      ap (λ r. take n (x ∷ xs) ++ r) (concat-split_chunks fuel _ (fuel_left x xs le))
      ∙ take-append-drop n (x ∷ xs)

  split_chunks-AreChunks :
      (fuel : ℕ) (xs : List Bytes) → length xs ≤ fuel → AreChunks il ll (split_chunks il ll fuel xs)
  unfolding split_chunks
  split_chunks-AreChunks fuel [] le = done
  split_chunks-AreChunks zero (x ∷ xs) le = done
  split_chunks-AreChunks (suc fuel) (x ∷ xs) le =
      let (_, _, chunk) = next-IsChunk il ll x xs h in
      let left = fuel_left x xs le in
      more (rw (concat-split_chunks fuel _ left) chunk) (split_chunks-AreChunks fuel _ left)

module _ {ℓ} {W T E : Type ℓ} (env : Env W T E) (delay : ℤ) where
  -- results that were there before go in front
  unfoldable pub prepend :
      List T → Result (ChunkError E) (List T) × W → Result (ChunkError E) (List T) × W
  prepend results (ok later, w) = (ok (results ++ later), w)
  prepend results (err e, w) = (err e, w)

  -- The specification: visit each chunk in turn, and stop at the first error.
  unfoldable pub visit_all : Bool → List (List Bytes) → W → Result (ChunkError E) (List T) × W
  unfolding prepend
  visit_all is_first [] w = (ok [], w)
  visit_all is_first (chunk ∷ chunks) w =
      let (visited, w') = visit env delay is_first chunk w in
      let rest = visit_all false chunks w' in
      elim visited [ err e ↦ (err e, w') | ok result ↦ prepend (result ∷ []) rest ]

  prepend-append :
      (a b : List T) (p : Result (ChunkError E) (List T) × W)
      → prepend (a ++ b) p ≡ prepend a (prepend b p)
  unfolding prepend
  prepend-append a b (ok c, w) = rw append_assoc
  prepend-append a b (err e, w) = refl

  prepend-nil : (p : Result (ChunkError E) (List T) × W) → prepend [] p ≡ p
  unfolding prepend
  prepend-nil (ok c, w) = refl
  prepend-nil (err e, w) = refl

  module _ (il ll : ℤ) (h : pos 1 ≤ℤ il) where
    chunk_loop-visit_all :
        (fuel : ℕ) (is_first : Bool) (xs : List Bytes) (results : List T) (w : W)
        → length xs ≤ fuel
        → chunk_loop env delay il ll fuel is_first xs results w
          ≡ some (prepend results (visit_all is_first (split_chunks il ll fuel xs) w))
    unfolding chunk_loop visit_all split_chunks
    chunk_loop-visit_all fuel is_first [] results w le = rw append-nil
    chunk_loop-visit_all zero is_first (x ∷ xs) results w le = absurd (omega arith)
    chunk_loop-visit_all (suc fuel) is_first (x ∷ xs) results w le =
        elim (Result-cases (visit env delay is_first chunk w).0) [
          | inl (e, failed) ↦ rw (failed, chunk_loop, visit_all, prepend)
          | inr (r, fetched) ↦
              let w' = (visit env delay is_first chunk w).1 in
              rw (fetched, chunk_loop, visit_all)
                (chunk_loop-visit_all fuel false rest (results ++ r ∷ []) w'
                    (fuel_left il ll h x xs le)
                  ∙ ap some (
                      prepend-append results (r ∷ [])
                        (visit_all false (split_chunks il ll fuel rest) w')))
        ]
      where
        n : ℕ
        n = chunk_size il ll (x ∷ xs)

        chunk : List Bytes
        chunk = take n (x ∷ xs)

        rest : List Bytes
        rest = drop n (x ∷ xs)

    process-visit_all :
        (xs : List Bytes) (w : W)
        → process_in_chunks env delay il ll xs w ≡ some (visit_all true (chunks_of il ll xs) w)
    unfolding process_in_chunks chunks_of
    process-visit_all [] w = unfold visit_all split_chunks in refl
    process-visit_all (x ∷ xs) w =
        let test : (length (x ∷ xs) == 0 || leb_ℤ il (pos 0)) ≡ false = ground arith in
        rw test (
          chunk_loop-visit_all (length (x ∷ xs)) true (x ∷ xs) [] w (omega arith)
          ∙ ap some
              (prepend-nil (visit_all true (split_chunks il ll (length (x ∷ xs)) (x ∷ xs)) w)))

    -- With an item limit of at least 1, the items are cut into the chunks of `chunks_of`: in order
    -- and with none left out they are the items; each has an item, keeps to both limits (a single
    -- item may pass the length limit) and could not take the next item. On every world the
    -- function returns, and what it returns is what visiting those chunks in turn gives, up to the
    -- first error.
    pub process_in_chunks_lem :
        (xs : List Bytes) (w : W)
        → (concat (chunks_of il ll xs) ≡ xs)
          × AreChunks il ll (chunks_of il ll xs)
          × (process_in_chunks env delay il ll xs w ≡ some (visit_all true (chunks_of il ll xs) w))
    process_in_chunks_lem xs w =
        unfold chunks_of in
        (
          concat-split_chunks il ll h (length xs) xs (omega arith),
          split_chunks-AreChunks il ll h (length xs) xs (omega arith),
          process-visit_all xs w,
        )
