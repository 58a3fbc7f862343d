-- ===== src/Auth/Client.antt =====
-- auth/cmd/test-puzzle-auth/main.go: a client that checks a service from the puzzle to the limit of
-- its token. What it prints is left out; the exchanges over HTTP act on a world of type `W` and are
-- a parameter.
pub mod Local
pub mod Uses
pub mod Solving
pub mod Session
use proxy_common.Common.{
  ℕ, zero, suc, ◌+◌, ◌≡◌, Bool, true, false, Option, none, some, List, [], ◌∷◌, ◌++◌, ℤ, ◌==◌,
  if◌then◌else◌, length, ltb,
}
use proxy_common.Common.Bytes.{Bytes, codes, bytes_eq}
use proxy_common.Auth.Puzzle.{Platform, Puzzle, Solution, Moment, solve}
use proxy_common.Auth.Handlers.Issue.{PuzzleResponse, SolveRequest, TokenResponse}

-- How an exchange ends: without a response, with a status other than 200, with a body that is not
-- the expected JSON, or with one that is.
pub data Exchange (A : Type 0) : Type 0 where
  no_response undecodable : Exchange A
  refused : ℕ → Exchange A
  decoded : A → Exchange A

-- The calls of `net/http` to a URL, with `json` on what is sent and received: a GET of which only
-- the status is read (`none` if there is no response), a GET of a puzzle, a POST of a solution, and
-- a GET with the header `Authorization`; and `time.Now`.
pub record Service (W : Type 0) : Type 0 where
  pub get : Bytes → W → Option ℕ × W
  pub get_puzzle : Bytes → W → Exchange PuzzleResponse × W
  pub post_solution : Bytes → SolveRequest → W → Exchange TokenResponse × W
  pub get_authorized : Bytes → Bytes → W → Option ℕ × W
  pub now : W → Moment × W

-- How the program ends: with a message, with the panic of a slice expression, or behind all checks,
-- with the nonce, the token and which of the last three requests were let through.
pub data Ending : Type 0 where
  usage unavailable puzzle_failed bad_expiry unsolved submission_failed rejected : Ending
  panicked : Ending
  passed : ℕ → Bytes → List Bool → Ending

-- `strings.TrimSuffix(s, "/")`
unfoldable pub trim_slash : Bytes → Bytes
trim_slash [] = []
trim_slash (c ∷ s) =
    let rest = trim_slash s in if bytes_eq s [] then if c == 47 then [] else c ∷ [] else c ∷ rest

abbrev pub is_ok : Option ℕ → Bool
is_ok none = false
is_ok (some status) = status == 200

abbrev pub body_of : {A : Type 0} → Exchange A → Option A
body_of no_response = none
body_of undecodable = none
body_of (refused status) = none
body_of (decoded a) = some a

-- the puzzle that the client solves
abbrev pub received : PuzzleResponse → Moment → Puzzle
received r expires_at = record {
  challenge = r.challenge;
  salt = r.salt;
  difficulty = r.difficulty;
  expires_at = expires_at;
  hmac = r.hmac;
}

abbrev pub request_for : PuzzleResponse → Solution → SolveRequest
request_for r s = record {
  challenge = r.challenge;
  salt = r.salt;
  nonce = s.nonce;
  argon_hash = s.argon_hash;
  hmac = r.hmac;
  expires_at = r.expires_at;
}

module _ {W : Type 0} (platform : Platform) (service : Service W) (base_url : Bytes) where
  unfoldable pub check_service_status : W → Bool × W
  check_service_status w =
      let (status, w') = service.get (base_url ++ codes "/auth/status") w in (is_ok status, w')

  unfoldable pub get_puzzle : W → Option PuzzleResponse × W
  get_puzzle w =
      let (response, w') = service.get_puzzle (base_url ++ codes "/auth/puzzle") w in
      (body_of response, w')

  unfoldable pub submit_solution : SolveRequest → W → Option TokenResponse × W
  submit_solution req w =
      let (response, w') = service.post_solution (base_url ++ codes "/auth/solve") req w in
      (body_of response, w')

  unfoldable pub verify_token : Bytes → W → Bool × W
  verify_token token w =
      let (status, w') =
        service.get_authorized (base_url ++ codes "/auth/verify") (codes "Bearer " ++ token) w in
      (is_ok status, w')

  -- the loop of the last step
  unfoldable pub verify_times : ℕ → Bytes → W → List Bool × W
  verify_times zero token w = ([], w)
  verify_times (suc n) token w =
      let (ok, w') = verify_token token w in
      let (more, w'') = verify_times n token w' in (ok ∷ more, w'')

  -- the steps 5 and 6
  unfoldable pub use_token : ℕ → Bytes → W → Ending × W
  use_token nonce token w =
      let (ok, w') = verify_token token w in
      let (checks, w'') = verify_times 3 token w' in
      if ok then (passed nonce token checks, w'') else (rejected, w')

  -- step 4, with `ArgonHash[:20]` and `Token[:20]` in front and behind
  unfoldable pub submit : PuzzleResponse → Solution → W → Ending × W
  submit r s w =
      let (response, w') = submit_solution (request_for r s) w in
      if ltb (length s.argon_hash) 20 then (panicked, w) else elim response [
        | none ↦ (submission_failed, w')
        | some t ↦ if ltb (length t.token) 20 then (panicked, w') else use_token s.nonce t.token w'
      ]

  -- step 3
  unfoldable pub solve_puzzle : PuzzleResponse → W → Ending × W
  solve_puzzle r w = elim (platform.parse r.expires_at) [
    | none ↦ (bad_expiry, w)
    | some expires_at ↦
        let (start, w') = service.now w in
        elim (solve platform start.instant (received r expires_at) r.argon2_params) [
          | none ↦ (unsolved, w')
          | some s ↦ submit r s w'
        ]
  ]

  -- `main`, behind its argument
  unfoldable pub session : W → Ending × W
  session w =
      let (ok, w') = check_service_status w in
      let (response, w'') = get_puzzle w' in
      if ok
      then elim response [ none ↦ (puzzle_failed, w'') | some r ↦ solve_puzzle r w'' ]
      else (unavailable, w')

-- `main`, on the arguments of the program
unfoldable pub main : {W : Type 0} → Platform → Service W → List Bytes → W → Ending × W
main platform service [] w = (usage, w)
main platform service (url ∷ rest) w = session platform service (trim_slash url) w
