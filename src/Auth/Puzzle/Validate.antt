-- ===== src/Auth/Puzzle/Validate.antt =====
-- `Generate`, `Solve` and `ValidateHMACProtectedSolution` together (auth/puzzle/puzzle.go).
use proxy_common.Common.Decimal.{decimal, decimal_ℤ}
use proxy_common.Common.Hex.{hex_encode, hex_decode}
use proxy_common.Common.{
  take, replicate, ◌++◌, pos, negsuc, ℕ, some_inj, ◌≡◌, refl, sym, subst, ◌∙◌, ◌↔◌, true, false,
  Option, none, some, arith, ℤ, ◌≤ℤ◌, ltb_ℤ, ltb_ℤ-false, Bool-cases, inl, inr,
}
use proxy_common.Common.Bytes.{Bytes, bytes_eq_iff}
use proxy_common.Auth.Config.{Argon2Config}
use proxy_common.Auth.Puzzle.{
  Platform, Moment, Puzzle, Solution, generate, compute_argon2_hash, expected_hmac, validate,
  check_difficulty, solve_within, compute_hmac, puzzle_data, salt_of, to_uint,
}
use proxy_common.Auth.Puzzle.Difficulty.{IsFirst, solve_within_lem, check_difficulty_lem}

-- What a solution needs in order to be accepted.
pub record IsAccepted (platform : Platform) (now : ℤ) (p : Puzzle) (s : Solution)
    (config : Argon2Config) (secret : Bytes) : Type 0 where
  pub signed : expected_hmac platform p secret ≡ p.hmac
  pub live : now ≤ℤ p.expires_at.instant
  pub hashed : compute_argon2_hash platform p.challenge p.salt s.nonce config ≡ s.argon_hash
  pub hard : check_difficulty s.argon_hash p.difficulty ≡ true

-- The text starts with as many characters `'0'` as a number says, with none if it is negative.
abbrev pub HasZeros : Bytes → ℤ → Type 0
HasZeros hash (pos n) = take n hash ≡ replicate n 48
HasZeros hash (negsuc n) = Unit

HasZeros_lem : (hash : Bytes) (n : ℤ) → (check_difficulty hash n ≡ true) ↔ HasZeros hash n
unfolding check_difficulty
HasZeros_lem hash (pos n) = check_difficulty_lem hash n
HasZeros_lem hash (negsuc n) = (λ h. tt, λ h. refl)

-- A solution of a puzzle that the server made, written out.
pub record IsGenuine (platform : Platform) (now : ℤ) (p : Puzzle) (s : Solution)
    (config : Argon2Config) (secret : Bytes) : Type 0 where
  pub signed :
      hex_encode (
        platform.hmac
          (p.challenge ++ (p.salt ++ (decimal_ℤ p.difficulty ++ platform.format p.expires_at)))
          secret)
      ≡ p.hmac
  pub live : now ≤ℤ p.expires_at.instant
  pub hashed :
      hex_encode (
        platform.argon2_id_key
          (p.challenge ++ (p.salt ++ decimal s.nonce))
          (elim (hex_decode p.salt) [ none ↦ p.salt | some t ↦ t ])
          (to_uint 32 config.time)
          (to_uint 32 config.memory_kb)
          (to_uint 8 config.threads)
          (to_uint 32 config.key_len))
      ≡ s.argon_hash
  pub zeros : HasZeros s.argon_hash p.difficulty

module _ (platform : Platform) (now : ℤ) (p : Puzzle) (s : Solution) (config : Argon2Config)
    (secret : Bytes) where
  validate_complete :
      IsAccepted platform now p s config secret → validate platform now p s config secret ≡ true
  unfolding validate
  validate_complete a =
      let live : ltb_ℤ p.expires_at.instant now ≡ false =
        ltb_ℤ-false p.expires_at.instant now a.live in
      rw
        (
          a.signed,
          (bytes_eq_iff p.hmac p.hmac).1 refl,
          live,
          a.hashed,
          (bytes_eq_iff s.argon_hash s.argon_hash).1 refl,
        )
        a.hard

  validate_sound :
      validate platform now p s config secret ≡ true → IsAccepted platform now p s config secret
  unfolding validate
  validate_sound h = ground (
    arith,
    bytes_eq_iff (expected_hmac platform p secret) p.hmac,
    bytes_eq_iff (compute_argon2_hash platform p.challenge p.salt s.nonce config) s.argon_hash,
  )

  pub validate-IsAccepted :
      (validate platform now p s config secret ≡ true) ↔ IsAccepted platform now p s config secret
  validate-IsAccepted = (validate_sound, validate_complete)

  -- the same in terms of what the server computes
  IsAccepted-IsGenuine :
      IsAccepted platform now p s config secret ↔ IsGenuine platform now p s config secret
  unfolding expected_hmac compute_hmac puzzle_data compute_argon2_hash salt_of
  IsAccepted-IsGenuine = (
    λ a. record {
      signed = a.signed;
      live = a.live;
      hashed = a.hashed;
      zeros = (HasZeros_lem s.argon_hash p.difficulty).0 a.hard;
    },
    λ g. record {
      signed = g.signed;
      live = g.live;
      hashed = g.hashed;
      hard = (HasZeros_lem s.argon_hash p.difficulty).1 g.zeros;
    },
  )

  -- A solution is accepted exactly if the puzzle carries the HMAC with the secret, in hexadecimal
  -- digits, of its challenge, salt, difficulty and deadline; the deadline has not passed; the hash is
  -- the Argon2 key, in hexadecimal digits, of the challenge, the salt and the nonce; and as many
  -- characters as the difficulty says are there at its start and are `'0'`, if the difficulty is not
  -- negative.
  pub validate_lem :
      (validate platform now p s config secret ≡ true) ↔ IsGenuine platform now p s config secret
  validate_lem = (
    λ h. IsAccepted-IsGenuine.0 (validate_sound h),
    λ g. validate_complete (IsAccepted-IsGenuine.1 g),
  )

module _ (platform : Platform) (config : Argon2Config) where
  late_search :
      (p : Puzzle) (attempts : ℕ) (now : ℤ)
      → ltb_ℤ p.expires_at.instant now ≡ true
      → solve_within platform attempts now p config ≡ none
  unfolding solve_within
  late_search p attempts now late = rw late

module _ (platform : Platform) (config : Argon2Config) (secret : Bytes) where
  pub generated_hmac :
      (random random' : Option Bytes) (now : Moment) (difficulty ttl : ℤ) (p : Puzzle)
      → generate platform random random' now difficulty ttl secret ≡ some p
      → expected_hmac platform p secret ≡ p.hmac
  unfolding generate expected_hmac
  generated_hmac none r now difficulty ttl p e = cc
  generated_hmac (some c) none now difficulty ttl p e = cc
  generated_hmac (some c) (some t) now difficulty ttl p e =
      subst (λ q. expected_hmac platform q secret ≡ q.hmac) (some_inj e) refl

  pub solved-IsFirst :
      (p : Puzzle) (attempts : ℕ) (now : ℤ) (s : Solution)
      → solve_within platform attempts now p config ≡ some s
      → IsFirst platform p config 0 attempts s
  solved-IsFirst p attempts now s f = elim (Bool-cases (ltb_ℤ p.expires_at.instant now)) [
    | inl late ↦ cc (late_search platform config p attempts now late)
    | inr live ↦ elim (solve_within_lem platform p config attempts now live) [
      | inl (t, e, first) ↦
          subst (IsFirst platform p config 0 attempts) (some_inj (sym e ∙ f)) first
      | inr (e, none_passes) ↦ cc e
    ]
  ]

  -- A puzzle that the server generated, with the solution that `solve` finds for it, is accepted at
  -- every time up to its deadline, whatever the bound on the attempts.
  pub validate-solve-generate :
      (random random' : Option Bytes) (now : Moment) (difficulty ttl : ℤ) (p : Puzzle)
      (attempts : ℕ) (solved : ℤ) (s : Solution) (later : ℤ)
      → generate platform random random' now difficulty ttl secret ≡ some p
      → solve_within platform attempts solved p config ≡ some s
      → later ≤ℤ p.expires_at.instant
      → validate platform later p s config secret ≡ true
  validate-solve-generate random random' now difficulty ttl p attempts solved s later g f live =
      let first = solved-IsFirst p attempts solved s f in
      validate_complete platform later p s config secret (record {
        signed = generated_hmac random random' now difficulty ttl p g;
        live = live;
        hashed = sym first.hashed;
        hard = rw first.hashed first.passing;
      })
