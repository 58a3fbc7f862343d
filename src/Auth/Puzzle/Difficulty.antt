-- ===== src/Auth/Puzzle/Difficulty.antt =====
-- `checkDifficulty` and `Solve` (auth/puzzle/puzzle.go).
use native.Mathlib.Nat.{zero-add}
use proxy_common.Common.{
  ℕ, zero, suc, ◌+◌, ◌≤◌, ◌<◌, ◌≡◌, refl, ap, ◌↔◌, ◌⊎◌, inl, inr, Bool, true, false, none, some, [],
  ◌∷◌, arith, ℤ, pos, ltb_ℤ, Bool-cases, length, take, replicate, ◌==◌,
}
use proxy_common.Common.Bytes.{Bytes, head_of, tail_of}
use proxy_common.Auth.Config.{Argon2Config}
use proxy_common.Auth.Puzzle.{
  Platform, Puzzle, Solution, leading_zeros, check_difficulty, compute_argon2_hash, solve_loop,
  solve_within,
}

zeros-leading : (n : ℕ) (hash : Bytes) → leading_zeros n hash ≡ true → take n hash ≡ replicate n 48
unfolding leading_zeros
zeros-leading zero hash h = refl
zeros-leading (suc n) [] h = cc
zeros-leading (suc n) (c ∷ hash) h = ground (arith, zeros-leading n hash)

leading-zeros : (n : ℕ) (hash : Bytes) → take n hash ≡ replicate n 48 → leading_zeros n hash ≡ true
unfolding leading_zeros head_of tail_of
leading-zeros zero hash h = refl
leading-zeros (suc n) [] h = cc
leading-zeros (suc n) (c ∷ hash) h =
    let e : c ≡ 48 = ap head_of h in rw (e, leading-zeros n hash (ap tail_of h)) (ground arith)

length_of_take : (n : ℕ) (hash : Bytes) → take n hash ≡ replicate n 48 → n ≤ length hash
unfolding tail_of
length_of_take zero hash h = omega arith
length_of_take (suc n) [] h = cc
length_of_take (suc n) (c ∷ hash) h = omega (arith, length_of_take n hash (ap tail_of h))

-- A hash passes at the difficulty `n` exactly when its first `n` characters are there and are all
-- `'0'`; the test never reads beyond the hash.
pub check_difficulty_lem :
    (hash : Bytes) (n : ℕ) → (check_difficulty hash (pos n) ≡ true) ↔ (take n hash ≡ replicate n 48)
unfolding check_difficulty
check_difficulty_lem hash n = (
  λ h. zeros-leading n hash (ground arith),
  λ h. ground (arith, leading-zeros n hash h, length_of_take n hash h),
)

module _ (platform : Platform) (p : Puzzle) (config : Argon2Config) where
  -- whether the hash at a nonce passes
  abbrev pub passes : ℕ → Bool
  passes nonce =
      check_difficulty (compute_argon2_hash platform p.challenge p.salt nonce config) p.difficulty

  -- every nonce from `low` up to `high`, that one left out, fails
  abbrev pub NonePasses : ℕ → ℕ → Type 0
  NonePasses low high = (k : ℕ) → low ≤ k → k < high → passes k ≡ false

  -- a solution with its hash, at the least nonce that passes
  pub record IsFirst (low high : ℕ) (s : Solution) : Type 0 where
    pub in_range : (low ≤ s.nonce) × (s.nonce < high)
    pub hashed : s.argon_hash ≡ compute_argon2_hash platform p.challenge p.salt s.nonce config
    pub passing : passes s.nonce ≡ true
    pub first : NonePasses low s.nonce

  solve_loop_lem :
      (attempts low : ℕ)
      → ((s : Solution) × (solve_loop platform attempts low p config ≡ some s)
          × IsFirst low (low + attempts) s)
        ⊎ ((solve_loop platform attempts low p config ≡ none) × NonePasses low (low + attempts))
  unfolding solve_loop
  solve_loop_lem zero low = inr (refl, λ k a b. absurd (omega arith))
  solve_loop_lem (suc attempts) low = elim (Bool-cases (passes low)) [
    | inl good ↦ inl (
      record {
        argon_hash = compute_argon2_hash platform p.challenge p.salt low config;
        nonce = low;
      },
      rw good,
      record {
        in_range = omega arith;
        hashed = refl;
        passing = good;
        first = λ k a b. absurd (omega arith);
      },
    )
    | inr bad ↦ elim (solve_loop_lem attempts (low + 1)) [
      | inl (s, e, f) ↦ inl (
        s,
        rw (bad, e),
        record {
          in_range = omega (arith, f.in_range.0, f.in_range.1);
          hashed = f.hashed;
          passing = f.passing;
          first = skip bad f.first;
        },
      )
      | inr (e, f) ↦ inr (rw (bad, e), λ k a b. skip bad f k a (omega (arith, b)))
    ]
  ]
    where
      skip : {h : ℕ} → passes low ≡ false → NonePasses (low + 1) h → NonePasses low h
      skip bad rest k a b = elim (Bool-cases (low == k)) [
        | inl here ↦ let e : low ≡ k = ground arith in rw (← e) bad
        | inr later ↦ rest k (ground arith) b
      ]

  -- On a puzzle that has not expired, the search for `attempts` nonces ends with the least nonce
  -- whose hash passes, and its hash; or no nonce below `attempts` passes.
  pub solve_within_lem :
      (attempts : ℕ) (now : ℤ)
      → ltb_ℤ p.expires_at.instant now ≡ false
      → ((s : Solution) × (solve_within platform attempts now p config ≡ some s)
          × IsFirst 0 attempts s)
        ⊎ ((solve_within platform attempts now p config ≡ none) × NonePasses 0 attempts)
  unfolding solve_within
  solve_within_lem attempts now live =
      rw (live, solve_within) (rw zero-add at (solve_loop_lem attempts 0))
