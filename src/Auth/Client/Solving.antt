-- ===== src/Auth/Client/Solving.antt =====
-- What the client (auth/cmd/test-puzzle-auth/main.go) and `SolveHandler` do with a solution.
use proxy_common.Auth.Client.{
  Service, request_for, check_service_status, get_puzzle, submit_solution, submit, solve_puzzle,
  session, use_token,
}
use proxy_common.Common.Bytes.{Bytes}
use proxy_common.Common.{
  ◌∙◌, ap, true, false, length, ltb, ℕ, zero, suc, ◌+◌, ◌≡◌, refl, some, arith, ℤ, ltb_ℤ,
  ltb_ℤ-false, Bool-cases, inl, inr,
}
use proxy_common.Auth.Config.{Argon2Config}
use proxy_common.Auth.Puzzle.{Moment, Platform, Puzzle, Solution, solve_loop, solve_within}
use proxy_common.Auth.Jwt.{Library}
use proxy_common.Auth.Handlers.{Handlers}
use proxy_common.Auth.Handlers.Issue.{
  PuzzleResponse, TokenResponse, SolveRequest, solve_handler, solve_fields, issue_token,
}

-- the search does not read the deadline of a puzzle
solve_loop-received :
    (platform : Platform) (attempts nonce : ℕ) (p : Puzzle) (e : Moment) (params : Argon2Config)
    → solve_loop platform attempts nonce (record p { expires_at = e }) params
      ≡ solve_loop platform attempts nonce p params
unfolding solve_loop
solve_loop-received platform zero nonce p e params = refl
solve_loop-received platform (suc attempts) nonce p e params =
    rw (solve_loop-received platform attempts (nonce + 1) p e params) refl

pub solve_within-received :
    (platform : Platform) (attempts : ℕ) (now : ℤ) (p : Puzzle) (e : Moment) (params : Argon2Config)
    (s : Solution)
    → solve_within platform attempts now (record p { expires_at = e }) params ≡ some s
    → solve_within platform attempts p.expires_at.instant p params ≡ some s
unfolding solve_within
solve_within-received platform attempts now p e params s found =
    elim (Bool-cases (ltb_ℤ e.instant now)) [
      | inl late ↦ ground arith
      | inr live ↦
          let same = solve_loop-received platform attempts 0 p e params in
          let open_now = ltb_ℤ-false p.expires_at.instant p.expires_at.instant (omega arith) in
          ground arith
    ]

-- `SolveHandler` does not count uses
pub solve_handler-keeps :
    (platform : Platform) (lib : Library) (now : Moment) (req : SolveRequest) (h : Handlers)
    → ((solve_handler platform lib now (some req) h).1.config ≡ h.config)
      × ((solve_handler platform lib now (some req) h).1.token_usage ≡ h.token_usage)
unfolding solve_handler solve_fields issue_token
solve_handler-keeps platform lib now req h = ground arith

module _ {W : Type 0} (platform : Platform) (service : Service W) (base_url : Bytes) where
  pub session_steps :
      (r : PuzzleResponse) (w w' w'' : W)
      → check_service_status platform service base_url w ≡ (true, w')
      → get_puzzle platform service base_url w' ≡ (some r, w'')
      → session platform service base_url w ≡ solve_puzzle platform service base_url r w''
  unfolding session
  session_steps r w w' w'' checked got =
      rw (session, ap (λ x. x.0) checked, ap (λ x. x.1) checked, ap (λ x. x.0) got)
        (ap (solve_puzzle platform service base_url r)
          (ap (λ x. (get_puzzle platform service base_url (x.1)).1) checked ∙ ap (λ x. x.1) got))

  pub submit_steps :
      (r : PuzzleResponse) (s : Solution) (t : TokenResponse) (w w' : W)
      → ltb (length s.argon_hash) 20 ≡ false
      → ltb (length t.token) 20 ≡ false
      → submit_solution platform service base_url (request_for r s) w ≡ (some t, w')
      → submit platform service base_url r s w
        ≡ use_token platform service base_url s.nonce t.token w'
  unfolding submit
  submit_steps r s t w w' hash text posted =
      rw (submit, ap (λ x. x.0) posted, ap (λ x. x.1) posted, hash, text) refl
