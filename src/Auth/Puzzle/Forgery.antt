-- ===== src/Auth/Puzzle/Forgery.antt =====
-- What the signature of a puzzle (auth/puzzle/puzzle.go) does not tell apart.
use proxy_common.Common.{◌≡◌, ◌∙◌, ◌++◌, true, append_assoc, ℤ, ◌≤ℤ◌}
use proxy_common.Common.Bytes.{Bytes}
use proxy_common.Auth.Config.{Argon2Config}
use proxy_common.Auth.Puzzle.{
  Platform, Moment, Puzzle, Solution, puzzle_data, compute_argon2_hash, check_difficulty,
  expected_hmac, validate,
}
use proxy_common.Auth.Puzzle.Validate.{validate-IsAccepted}

module _ (platform : Platform) (a b c : Bytes) (difficulty : ℤ) (expires_at : Moment)
    (hmac secret : Bytes) where
  -- a puzzle with the challenge `a` and the salt `b ++ c`
  abbrev pub issued : Puzzle
  issued = record {
    challenge = a;
    salt = b ++ c;
    difficulty = difficulty;
    expires_at = expires_at;
    hmac = hmac;
  }

  -- the puzzle with `b` moved from the salt to the challenge
  abbrev pub shifted : Puzzle
  shifted = record issued { challenge = a ++ b; salt = c }

  -- Moving text between the challenge and the salt of a puzzle does not change its signature.
  pub expected_hmac-shifted :
      expected_hmac platform shifted secret ≡ expected_hmac platform issued secret
  unfolding expected_hmac puzzle_data
  expected_hmac-shifted = rw (append_assoc, append_assoc)

  -- If the server signed a puzzle, it also accepts the puzzle with text moved from the salt to the
  -- challenge, which it never issued unless the text is empty, up to the same deadline: with every
  -- solution whose hash is the one computed for the moved text and has the difficulty's zeros.
  pub validate-shifted :
      (now : ℤ) (s : Solution) (config : Argon2Config)
      → expected_hmac platform issued secret ≡ hmac
      → now ≤ℤ expires_at.instant
      → compute_argon2_hash platform (a ++ b) c s.nonce config ≡ s.argon_hash
      → check_difficulty s.argon_hash difficulty ≡ true
      → validate platform now shifted s config secret ≡ true
  validate-shifted now s config signed live hashed hard =
      (validate-IsAccepted platform now shifted s config secret).1 (record {
        signed = expected_hmac-shifted ∙ signed;
        live = live;
        hashed = hashed;
        hard = hard;
      })
