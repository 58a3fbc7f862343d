-- ===== src/Auth/Handlers/Earn.antt =====
-- From a puzzle of `PuzzleHandler` to a token of `SolveHandler` (auth/handlers/handlers.go).
use proxy_common.Common.{
  ℕ, suc, ◌≡◌, refl, sym, subst, true, false, some, some_inj, [], ◌∷◌, ◌||◌, arith, ℤ, pos, ◌≤ℤ◌,
  ltb_ℤ, ltb_ℤ-false, length,
}
use proxy_common.Common.Bytes.{Bytes, bytes_eq}
use proxy_common.Common.Hex.{hex_encode}
use proxy_common.Auth.Config.{Config}
use proxy_common.Auth.Puzzle
use proxy_common.Auth.Puzzle.{
  Moment, time_add, Platform, Puzzle, Solution, solve_within, expected_hmac, compute_argon2_hash,
  check_difficulty, leading_zeros, minutes64, puzzle_data, compute_hmac,
}
use proxy_common.Auth.Puzzle.Validate.{
  IsAccepted, validate-IsAccepted, generated_hmac, solved-IsFirst,
}
use proxy_common.Auth.Jwt
use proxy_common.Auth.Jwt.{Library, claims_at}
use proxy_common.Auth.Handlers.{Handlers}
use proxy_common.Auth.Handlers.Issue.{
  http_ok, puzzle_of, generated, solve_request, issue_token, solve_fields, solve_handler,
}

-- What HMAC-SHA256 and the text of a time document: a signature has 32 bytes, and the text of a time
-- is read back as a time with the same text (RFC 3339 leaves out the part of a second).
pub record PlatformLaws (platform : Platform) : Type 0 where
  pub length-hmac : (contents secret : Bytes) → length (platform.hmac contents secret) ≡ 32
  pub read_back : Moment → Moment
  pub parse-format : (t : Moment) → platform.parse (platform.format t) ≡ some (read_back t)
  pub format-read_back : (t : Moment) → platform.format (read_back t) ≡ platform.format t

pub hex_encode-filled : (s : Bytes) (n : ℕ) → length s ≡ suc n → bytes_eq (hex_encode s) [] ≡ false
unfolding hex_encode bytes_eq
hex_encode-filled [] n h = absurd (omega arith)
hex_encode-filled (b ∷ s) n h = refl

hard-filled :
    (hash : Bytes) (d : ℕ) → check_difficulty hash (pos (suc d)) ≡ true → bytes_eq hash [] ≡ false
unfolding check_difficulty leading_zeros bytes_eq
hard-filled [] d h = ground arith
hard-filled (b ∷ s) d h = refl

-- the fields of a generated puzzle
pub record IsMade (platform : Platform) (c t : Bytes) (now : Moment) (cfg : Config) (p : Puzzle)
    : Type 0 where
  pub challenge : p.challenge ≡ hex_encode c
  pub salt : p.salt ≡ hex_encode t
  pub difficulty : p.difficulty ≡ cfg.puzzle_difficulty
  pub hmac : (contents : Bytes) × (p.hmac ≡ hex_encode (platform.hmac contents cfg.jwt_secret))

pub generated-IsMade :
    (platform : Platform) (c t : Bytes) (now : Moment) (cfg : Config) (p : Puzzle)
    → generated platform (some c) (some t) now cfg ≡ some p
    → IsMade platform c t now cfg p
unfolding Puzzle.generate compute_hmac
generated-IsMade platform c t now cfg p e =
    subst (IsMade platform c t now cfg) (some_inj e)
      (record { challenge = refl; salt = refl; difficulty = refl; hmac = (_, refl) })

module _ (platform : Platform) (laws : PlatformLaws platform) (lib : Library) (h : Handlers) where
  IsAccepted-later :
      (c t : Bytes) (now : Moment) (p : Puzzle) (attempts : ℕ) (solved : ℤ) (s : Solution)
      (later : Moment)
      → generated platform (some c) (some t) now h.config ≡ some p
      → solve_within platform attempts solved p h.config.argon2_params ≡ some s
      → later.instant ≤ℤ (laws.read_back p.expires_at).instant
      → IsAccepted platform later.instant
          (puzzle_of h.config (solve_request platform p s) (laws.read_back p.expires_at))
          s
          h.config.argon2_params
          h.config.jwt_secret
  unfolding expected_hmac puzzle_data
  IsAccepted-later c t now p attempts solved s later g f live =
      let first =
        solved-IsFirst platform h.config.argon2_params h.config.jwt_secret p attempts solved s f in
      let made = generated-IsMade platform c t now h.config p g in
      record {
        signed =
            rw (laws.format-read_back p.expires_at, ← made.difficulty)
              (generated_hmac platform h.config.argon2_params h.config.jwt_secret (some c) (some t)
                now h.config.puzzle_difficulty h.config.token_expiry_minutes p g);
        live = live;
        hashed = sym first.hashed;
        hard = rw (← made.difficulty, first.hashed) first.passing;
      }

  fields_filled :
      (c t : Bytes) (now : Moment) (p : Puzzle) (s : Solution) (d : ℕ)
      → length c ≡ 16
      → length t ≡ 16
      → h.config.puzzle_difficulty ≡ pos (suc d)
      → generated platform (some c) (some t) now h.config ≡ some p
      → check_difficulty s.argon_hash p.difficulty ≡ true
      → (bytes_eq p.challenge []
          || (bytes_eq p.salt [] || (bytes_eq s.argon_hash [] || bytes_eq p.hmac [])))
        ≡ false
  fields_filled c t now p s d hc ht hd g hard =
      let made = generated-IsMade platform c t now h.config p g in
      let (contents, signed) = made.hmac in
      let challenge : bytes_eq p.challenge [] ≡ false =
        rw made.challenge (hex_encode-filled c 15 hc) in
      let salt : bytes_eq p.salt [] ≡ false = rw made.salt (hex_encode-filled t 15 ht) in
      let hmac : bytes_eq p.hmac [] ≡ false =
        rw signed (hex_encode-filled _ 31 (laws.length-hmac contents h.config.jwt_secret)) in
      let hash : bytes_eq s.argon_hash [] ≡ false =
        hard-filled s.argon_hash d (rw (← hd, ← made.difficulty) hard) in
      rw (challenge, salt, hash, hmac) refl

  -- A client that solves a puzzle of `PuzzleHandler`, by the search of `solve` with any bound on the
  -- attempts, and sends the solution before the deadline in the puzzle's text has passed gets the
  -- token that the library signs for the challenge. `rand.Read` yields 16 bytes twice, the
  -- difficulty is at least 1, and the signature of the token does not fail.
  pub solve_handler_complete :
      (c t : Bytes) (now : Moment) (p : Puzzle) (attempts : ℕ) (solved : ℤ) (s : Solution)
      (later : Moment) (d : ℕ) (token : Bytes)
      → length c ≡ 16
      → length t ≡ 16
      → h.config.puzzle_difficulty ≡ pos (suc d)
      → generated platform (some c) (some t) now h.config ≡ some p
      → solve_within platform attempts solved p h.config.argon2_params ≡ some s
      → later.instant ≤ℤ (laws.read_back p.expires_at).instant
      → lib.sign
          (claims_at lib later p.challenge h.config.token_expiry_minutes
            h.config.requests_per_token)
          h.config.jwt_secret
        ≡ some token
      → (solve_handler platform lib later (some (solve_request platform p s)) h).0
        ≡ http_ok (record {
          token = token;
          expires_at = platform.format (time_add later (minutes64 h.config.token_expiry_minutes));
          request_limit = h.config.requests_per_token;
        })
  unfolding solve_handler solve_fields issue_token Jwt.generate
  solve_handler_complete c t now p attempts solved s later d token hc ht hd g f live signed =
      let accepted = IsAccepted-later c t now p attempts solved s later g f live in
      let made = generated-IsMade platform c t now h.config p g in
      let filled = fields_filled c t now p s d hc ht hd g (rw made.difficulty accepted.hard) in
      let late : ltb_ℤ (laws.read_back p.expires_at).instant later.instant ≡ false =
        ltb_ℤ-false (laws.read_back p.expires_at).instant later.instant live in
      let valid =
        (validate-IsAccepted platform later.instant
            (puzzle_of h.config (solve_request platform p s) (laws.read_back p.expires_at)) s
            h.config.argon2_params h.config.jwt_secret).1
          accepted in
      rw
        (
          filled,
          laws.parse-format p.expires_at,
          solve_handler,
          solve_fields,
          late,
          valid,
          issue_token,
          Jwt.generate,
          signed,
        )
        refl
