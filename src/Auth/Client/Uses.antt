-- ===== src/Auth/Client/Uses.antt =====
-- The last steps of the client (auth/cmd/test-puzzle-auth/main.go): the uses of its token.
use Prim.Native.Nat.{min}
use proxy_common.Common.{
  ◌≤◌, ℕ, suc, ◌+◌, ◌<◌, ◌^◌, ◌≡◌, ◌≢◌, refl, ap, ◌∙◌, true, false, Option, some, [], ◌∷◌, ◌++◌,
  arith, ℤ, pos, ◌+ℤ◌, ◌≤ℤ◌, if◌then◌else◌, ltb, ◌==◌,
}
use proxy_common.Common.Bytes.{Bytes, codes, bytes_eq, bytes_eq_iff, bytes_has_eq}
use proxy_common.Common.GoMap.{lookup}
use proxy_common.Common.Int64.{second}
use proxy_common.Auth.Config.{Config}
use proxy_common.Auth.Puzzle.{Platform, Moment}
use proxy_common.Auth.Jwt.{Library, Claims, SigningMethod, hmac_method, key_for}
use proxy_common.Auth.Jwt
use proxy_common.Auth.Handlers.{
  Handlers, request_token, bearer_token, split_first, count_use, verify_handler,
}
use proxy_common.Auth.Handlers.Verify.{usage, count_use_self, config-count_use}
use proxy_common.Auth.Server.{
  Mux, status_endpoint, puzzle_endpoint, solve_endpoint, verify_endpoint,
}
use proxy_common.Auth.Server.Serving.{serve_http, handle}
use proxy_common.Auth.Client.{verify_times, use_token, passed, Service, verify_token}
use proxy_common.Auth.Client.Local.{Online, local}

-- What the package golang-jwt documents: a signed token is parsed under the key that signed it, from
-- the time of its issue to a second before its expiry, since the claims hold times in whole seconds;
-- the identity is kept.
pub record LibraryLaws (lib : Library) : Type 0 where
  pub read_back : Claims → Claims
  pub id-read_back : (c : Claims) → (read_back c).id ≡ c.id
  pub parse-sign :
      (c : Claims) (secret token : Bytes) (now : ℤ) (key : SigningMethod → Option Bytes)
      → lib.sign c secret ≡ some token
      → key hmac_method ≡ some secret
      → c.issued_at ≤ℤ now
      → now +ℤ pos second ≤ℤ c.expires_at
      → lib.parse now token key ≡ some (read_back c, true)

-- the four routes that the client uses
pub record Routed (mux : Mux) : Type 0 where
  pub status : lookup (codes "/auth/status") mux ≡ some status_endpoint
  pub puzzle : lookup (codes "/auth/puzzle") mux ≡ some puzzle_endpoint
  pub solve : lookup (codes "/auth/solve") mux ≡ some solve_endpoint
  pub verify : lookup (codes "/auth/verify") mux ≡ some verify_endpoint

request_token-bearer :
    (token : Bytes)
    → request_token (record { authorization = codes "Bearer " ++ token; query_token = [] }) ≡ token
unfolding request_token bearer_token split_first bytes_eq
request_token-bearer [] = refl
request_token-bearer (c ∷ token) = refl

-- a request with a token that parses is a use of it
verify_handler-bearer :
    (lib : Library) (now : ℤ) (token : Bytes) (h : Handlers) (claims : Claims)
    → token ≢ []
    → lib.parse now token (key_for h.config.jwt_secret) ≡ some (claims, true)
    → verify_handler lib now
        (record { authorization = codes "Bearer " ++ token; query_token = [] })
        h
      ≡ count_use claims.id h
unfolding verify_handler Jwt.verify
verify_handler-bearer lib now token h claims filled parsed =
    let present : bytes_eq token [] ≡ false = ground (arith, bytes_eq_iff token []) in
    rw (verify_handler, request_token-bearer token, present, Jwt.verify, parsed) refl

passes : (i n : ℕ) → ((if ltb (min i n) n then 200 else 429) == 200) ≡ ltb i n
passes i n = ground arith

next_use : (i n : ℕ) → (if ltb (min i n) n then min i n + 1 else min i n) ≡ min (suc i) n
next_use i n = ground arith

module _ (platform : Platform) (lib : Library) (mux : Mux) (routed : Routed mux)
    (clock : ℕ → Moment) (random second_random : Bytes) (cfg : Config) (id token : Bytes)
    (claims : Claims) (n : ℕ) (limit : cfg.requests_per_token ≡ pos n) (sized : n < 2 ^ 63)
    (named : id ≢ []) (filled : token ≢ []) (identity : claims.id ≡ id) where
  -- the server behind `i` requests with the token
  pub record Used (i : ℕ) (w : Online) : Type 0 where
    pub config : w.handlers.config ≡ cfg
    pub uses : usage id w.handlers ≡ pos (min i n)

  -- the time of the next request is one at which the token parses
  abbrev pub Live : ℕ → Type 0
  Live reading =
      lib.parse (clock reading).instant token (key_for cfg.jwt_secret) ≡ some (claims, true)

  abbrev pub net : Service Online
  net = local platform lib mux clock random second_random

  verify_token-Used :
      (i : ℕ) (w : Online)
      → Used i w
      → Live w.readings
      → ((verify_token platform net [] token w).0 ≡ ltb i n)
        × Used (suc i) (verify_token platform net [] token w).1
        × ((verify_token platform net [] token w).1.readings ≡ suc w.readings)
  unfolding verify_token serve_http handle
  verify_token-Used i w used live =
      let parsed : lib.parse (clock w.readings).instant token (key_for w.handlers.config.jwt_secret)
          ≡ some (claims, true) =
        rw used.config live in
      let step =
        verify_handler-bearer lib (clock w.readings).instant token w.handlers claims filled parsed
        ∙ ap (λ x. count_use x w.handlers) identity in
      let (status, uses) =
        count_use_self id named w.handlers (min i n) n
          (ap (λ c. c.requests_per_token) used.config ∙ limit) sized used.uses in
      rw (verify_token, serve_http, routed.verify, handle, step)
        (
          rw status (passes i n),
          record {
            config = config-count_use id w.handlers ∙ used.config;
            uses = uses ∙ ap pos (next_use i n);
          },
          refl,
        )

  -- The first use succeeds, and the three that follow while they are within the limit.
  pub use_token-Used :
      (nonce r : ℕ) (w : Online)
      → Used 0 w
      → 1 ≤ n
      → w.readings ≡ r
      → ((k : ℕ) → k < 4 → Live (r + k))
      → (use_token platform net [] nonce token w).0
        ≡ passed nonce token (ltb 1 n ∷ ltb 2 n ∷ ltb 3 n ∷ [])
  unfolding use_token verify_times
  use_token-Used nonce r w used positive start live =
      let at : (k m : ℕ) → m ≡ r + k → k < 4 → Live m = λ k m e small. rw e (live k small) in
      let (ok0, used1, r1) = verify_token-Used 0 w used (at 0 _ (omega arith) (omega arith)) in
      let w1 = (verify_token platform net [] token w).1 in
      let (ok1, used2, r2) = verify_token-Used 1 w1 used1 (at 1 _ (omega arith) (omega arith)) in
      let w2 = (verify_token platform net [] token w1).1 in
      let (ok2, used3, r3) = verify_token-Used 2 w2 used2 (at 2 _ (omega arith) (omega arith)) in
      let w3 = (verify_token platform net [] token w2).1 in
      let (ok3, used4, r4) = verify_token-Used 3 w3 used3 (at 3 _ (omega arith) (omega arith)) in
      let first : ltb 0 n ≡ true = ground arith in
      rw (use_token, ok0, first, verify_times, ok1, ok2, ok3) refl
