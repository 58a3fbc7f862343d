-- ===== src/Auth/Puzzle.antt =====
-- auth/puzzle/puzzle.go: puzzles with a signature, their solution and its validation.
-- HMAC-SHA256, Argon2 and RFC 3339 are parameters.
pub mod Difficulty
pub mod Validate
pub mod Forgery
use proxy_common.Common.{
  ℕ, zero, suc, ◌+◌, ◌-◌, ◌%◌, ◌^◌, ◌≡◌, Bool, true, false, not, ◌&&◌, Option, none, some, List, [],
  ◌∷◌, ◌++◌, ℤ, pos, negsuc, ◌+ℤ◌, scale, ltb_ℤ, ◌==◌, if◌then◌else◌, length,
}
use proxy_common.Common.Bytes.{Bytes, bytes_eq}
use proxy_common.Common.Int64.{wrap64}
use proxy_common.Common.Decimal.{decimal, decimal_ℤ}
use proxy_common.Common.Hex.{hex_encode, hex_decode}
use proxy_common.Auth.Config.{Argon2Config}

-- `time.Time`: the number of nanoseconds, and the location in which it is shown.
pub record Moment : Type 0 where
  pub instant : ℤ
  pub location : Bytes

-- `t.Add(d)`
abbrev pub time_add : Moment → ℤ → Moment
time_add t d = record t { instant = t.instant +ℤ d }

-- `hmac` is the raw HMAC-SHA256 of the data under the secret. `argon2_id_key` takes the password,
-- the salt, the time, the memory, the threads and the length. `format` and `parse` are those of
-- `time` for RFC 3339.
pub record Platform : Type 0 where
  pub hmac : Bytes → Bytes → Bytes
  pub argon2_id_key : Bytes → Bytes → ℕ → ℕ → ℕ → ℕ → Bytes
  pub format : Moment → Bytes
  pub parse : Bytes → Option Moment

pub record Puzzle : Type 0 where
  pub challenge : Bytes
  pub salt : Bytes
  pub difficulty : ℤ
  pub expires_at : Moment
  pub hmac : Bytes

pub record Solution : Type 0 where
  pub argon_hash : Bytes
  pub nonce : ℕ

-- `time.Duration(m) * time.Minute`, in nanoseconds
unfoldable pub minutes64 : ℤ → ℤ
minutes64 m = wrap64 (scale 60_000_000_000 m)

-- `uint32(n)` and `uint8(n)` of an `int`
unfoldable pub to_uint : ℕ → ℤ → ℕ
to_uint bits (pos n) = n % 2 ^ bits
to_uint bits (negsuc n) = 2 ^ bits - 1 - n % 2 ^ bits

-- the loop of `checkDifficulty`; the byte `'0'` is 48
unfoldable pub leading_zeros : ℕ → Bytes → Bool
leading_zeros zero hash = true
leading_zeros (suc n) [] = false
leading_zeros (suc n) (c ∷ hash) =
    let rest = leading_zeros n hash in if c == 48 then rest else false

unfoldable pub check_difficulty : Bytes → ℤ → Bool
unfolding leading_zeros
check_difficulty hash (negsuc n) = true
check_difficulty hash (pos n) =
    if ltb_ℤ (pos (length hash)) (pos n) then false else leading_zeros n hash

module _ (platform : Platform) where
  unfoldable pub compute_hmac : Bytes → Bytes → Bytes
  compute_hmac contents secret = hex_encode (platform.hmac contents secret)

  -- what the signature of a puzzle covers
  unfoldable pub puzzle_data : Bytes → Bytes → ℤ → Moment → Bytes
  puzzle_data challenge salt difficulty expires_at =
      challenge ++ (salt ++ (decimal_ℤ difficulty ++ platform.format expires_at))

  -- `Generate` at `now`; the first two arguments are what `rand.Read` yields, `none` for an error
  unfoldable pub generate : Option Bytes → Option Bytes → Moment → ℤ → ℤ → Bytes → Option Puzzle
  unfolding compute_hmac puzzle_data
  generate none salt_bytes now difficulty ttl_minutes secret = none
  generate (some c) none now difficulty ttl_minutes secret = none
  generate (some c) (some s) now difficulty ttl_minutes secret =
      let expires_at = time_add now (minutes64 ttl_minutes) in
      some (record {
        challenge = hex_encode c;
        salt = hex_encode s;
        difficulty = difficulty;
        expires_at = expires_at;
        hmac =
            compute_hmac (puzzle_data (hex_encode c) (hex_encode s) difficulty expires_at) secret;
      })

  -- the salt's bytes, or its text if it is not hexadecimal
  unfoldable pub salt_of : Bytes → Bytes
  salt_of salt = elim (hex_decode salt) [ none ↦ salt | some s ↦ s ]

  unfoldable pub compute_argon2_hash : Bytes → Bytes → ℕ → Argon2Config → Bytes
  compute_argon2_hash challenge salt nonce config = hex_encode (
      platform.argon2_id_key (challenge ++ (salt ++ decimal nonce)) (salt_of salt)
        (to_uint 32 config.time) (to_uint 32 config.memory_kb) (to_uint 8 config.threads)
        (to_uint 32 config.key_len))

  -- the signature that the server computes for a puzzle
  unfoldable pub expected_hmac : Puzzle → Bytes → Bytes
  unfolding compute_hmac puzzle_data
  expected_hmac p secret =
      compute_hmac (puzzle_data p.challenge p.salt p.difficulty p.expires_at) secret

  -- `ValidateHMACProtectedSolution` at `now`
  unfoldable pub validate : ℤ → Puzzle → Solution → Argon2Config → Bytes → Bool
  validate now p solution config secret =
      if not (bytes_eq (expected_hmac p secret) p.hmac)
      then false
      else if ltb_ℤ p.expires_at.instant now
      then false
      else let computed = compute_argon2_hash p.challenge p.salt solution.nonce config in
        if not (bytes_eq computed solution.argon_hash)
        then false
        else check_difficulty computed p.difficulty

  -- the loop of `Solve`, on the attempts that are left
  unfoldable pub solve_loop : ℕ → ℕ → Puzzle → Argon2Config → Option Solution
  solve_loop zero nonce p config = none
  solve_loop (suc attempts) nonce p config =
      let rest = solve_loop attempts (nonce + 1) p config in
      let hash = compute_argon2_hash p.challenge p.salt nonce config in
      if check_difficulty hash p.difficulty
      then some (record { argon_hash = hash; nonce = nonce })
      else rest

  -- `Solve` at `now`, with the bound 1000000 of the source as an argument; `none` is either error
  unfoldable pub solve_within : ℕ → ℤ → Puzzle → Argon2Config → Option Solution
  solve_within attempts now p config =
      if ltb_ℤ p.expires_at.instant now then none else solve_loop attempts 0 p config

  unfoldable pub solve : ℤ → Puzzle → Argon2Config → Option Solution
  solve = solve_within 1_000_000
