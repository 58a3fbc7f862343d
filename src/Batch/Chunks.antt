-- ===== src/Batch/Chunks.antt =====
-- What the inner loop of `processInChunks` (batch/chunker.go) takes from the items that are left.
use proxy_common.Common.{
  ℕ, zero, suc, ◌+◌, ◌≤◌, ◌<◌, ◌≡◌, refl, ◌⊎◌, inl, inr, ◌&&◌, List, [], ◌∷◌, ◌++◌, ap, arith, ℤ,
  pos, ltb_ℤ, ◌≤ℤ◌, ◌<ℤ◌, Bool-cases, length, take, drop, concat, length-take_of_le, if◌then◌else◌,
  ◌==◌,
}
use proxy_common.Common.Bytes.{Bytes}
use proxy_common.Batch.{fit, chunk_size}

-- `currentLength` of a chunk
abbrev pub total : List Bytes → ℕ
total [] = 0
total (item ∷ items) = length item + total items

-- What `fit` answers from a chunk that has `t` items of total length `c`, before the items `xs`.
record Fit (il ll : ℤ) (t c : ℕ) (xs : List Bytes) (k : ℕ) : Type 0 where
  value : fit il ll t c xs ≡ t + k
  in_items : k ≤ length xs
  in_limit : pos t ≤ℤ il → pos (t + k) ≤ℤ il
  in_length : pos 0 <ℤ ll → pos c ≤ℤ ll → pos (c + total (take k xs)) ≤ℤ ll
  maximal :
      k < length xs
      → (il ≤ℤ pos (t + k)) ⊎ ((pos 0 <ℤ ll) × (ll <ℤ pos (c + total (take (suc k) xs))))

fit_lem : (il ll : ℤ) (t c : ℕ) (xs : List Bytes) → (k : ℕ) × Fit il ll t c xs k
unfolding fit
fit_lem il ll t c [] = (0, ground arith)
fit_lem il ll t c (x ∷ xs) = elim (Bool-cases (ltb_ℤ (pos t) il)) [
  | inr full ↦ (0, ground arith)
  | inl room ↦ elim (Bool-cases (ltb_ℤ (pos 0) ll && ltb_ℤ ll (pos (c + length x)))) [
    | inl long ↦ (0, ground arith)
    | inr short ↦
        let (k, f) = fit_lem il ll (t + 1) (c + length x) xs in
        (
          suc k,
          record {
            value = rw (room, short) (omega (arith, f.value));
            in_items = omega (arith, f.in_items);
            in_limit = ground (arith, f.in_limit);
            in_length = ground (arith, f.in_length);
            maximal = ground (arith, f.maximal);
          },
        )
  ]
]

-- A chunk of the items `xs` in front of the items `rest`: not empty, within the item limit, within
-- the length limit unless it is a single item, and not extensible by the next item.
pub record IsChunk (il ll : ℤ) (chunk rest : List Bytes) : Type 0 where
  pub nonempty : 0 < length chunk
  pub in_limit : pos (length chunk) ≤ℤ il
  pub in_length : pos 0 <ℤ ll → (pos (total chunk) ≤ℤ ll) ⊎ (length chunk ≡ 1)
  pub maximal :
      0 < length rest
      → (il ≤ℤ pos (length chunk)) ⊎ ((pos 0 <ℤ ll) × (ll <ℤ pos (total (chunk ++ take 1 rest))))

-- a list of chunks, each greedy in view of the items behind it
pub data AreChunks (il ll : ℤ) : List (List Bytes) → Type 0 where
  done : AreChunks il ll []
  more :
      {chunk : List Bytes} {chunks : List (List Bytes)}
      → IsChunk il ll chunk (concat chunks)
      → AreChunks il ll chunks
      → AreChunks il ll (chunk ∷ chunks)

take-suc : (n : ℕ) (xs : List Bytes) → take (suc n) xs ≡ take n xs ++ take 1 (drop n xs)
take-suc zero xs = refl
take-suc (suc n) [] = refl
take-suc (suc n) (x ∷ xs) = ap (◌∷◌ x) (take-suc n xs)

pub length-drop : (n : ℕ) (xs : List Bytes) → n ≤ length xs → length (drop n xs) + n ≡ length xs
length-drop zero xs h = omega arith
length-drop (suc n) [] h = absurd (omega arith)
length-drop (suc n) (x ∷ xs) h = omega (arith, length-drop n xs)

-- What is known of the size `n` of the next chunk of `xs`.
record Size (il ll : ℤ) (xs : List Bytes) (n : ℕ) : Type 0 where
  positive : 0 < n
  in_items : n ≤ length xs
  in_limit : pos n ≤ℤ il
  in_length : pos 0 <ℤ ll → (pos (total (take n xs)) ≤ℤ ll) ⊎ (n ≡ 1)
  maximal : n < length xs → (il ≤ℤ pos n) ⊎ ((pos 0 <ℤ ll) × (ll <ℤ pos (total (take (suc n) xs))))

Fit-Size :
    (il ll : ℤ) (x : Bytes) (xs : List Bytes) (k : ℕ)
    → pos 1 ≤ℤ il
    → Fit il ll 0 0 (x ∷ xs) k
    → Size il ll (x ∷ xs) (if k == 0 then 1 else k)
Fit-Size il ll x xs zero h f = ground (arith, f.maximal)
Fit-Size il ll x xs (suc k) h f = ground (arith, f.maximal, f.in_length)

chunk_size-Size :
    (il ll : ℤ) (x : Bytes) (xs : List Bytes)
    → pos 1 ≤ℤ il
    → Size il ll (x ∷ xs) (chunk_size il ll (x ∷ xs))
unfolding chunk_size
chunk_size-Size il ll x xs h =
    let (k, f) = fit_lem il ll 0 0 (x ∷ xs) in
    let e : fit il ll 0 0 (x ∷ xs) ≡ k = omega (arith, f.value) in
    rw (e, chunk_size) (Fit-Size il ll x xs k h f)

take-IsChunk :
    (il ll : ℤ) (xs : List Bytes) (n : ℕ) → Size il ll xs n → IsChunk il ll (take n xs) (drop n xs)
take-IsChunk il ll xs n s =
    let e = length-take_of_le n xs s.in_items in
    let d = length-drop n xs s.in_items in
    record {
      nonempty = omega (arith, e, s.positive);
      in_limit = omega (arith, e, s.in_limit);
      in_length = λ h. rw e (s.in_length h);
      maximal = λ h. rw (e, ← take-suc n xs) (s.maximal (omega (arith, d)));
    }

-- the next chunk has an item, lies within the items, and is one in the sense of `IsChunk`
pub next-IsChunk :
    (il ll : ℤ) (x : Bytes) (xs : List Bytes)
    → pos 1 ≤ℤ il
    → let n = chunk_size il ll (x ∷ xs) in
      (0 < n) × (n ≤ length (x ∷ xs)) × IsChunk il ll (take n (x ∷ xs)) (drop n (x ∷ xs))
next-IsChunk il ll x xs h =
    let s = chunk_size-Size il ll x xs h in (s.positive, s.in_items, take-IsChunk il ll _ _ s)
