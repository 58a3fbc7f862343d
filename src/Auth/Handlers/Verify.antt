-- ===== src/Auth/Handlers/Verify.antt =====
-- One call of `VerifyHandler` (auth/handlers/handlers.go).
use proxy_common.Common.{
  ℕ, ◌+◌, ◌-◌, ◌<◌, ◌^◌, ◌≡◌, ◌≢◌, refl, Bool, false, Option, none, some, [], arith, ℤ, pos, ◌+ℤ◌,
  if◌then◌else◌, Option-cases, Bool-cases, inl, inr, ltb,
}
use proxy_common.Common.Bytes.{Bytes, bytes_eq, bytes_eq_iff, bytes_has_eq}
use proxy_common.Common.Int64.{add64, wrap64_fits}
use proxy_common.Common.GoMap.{lookup_or, lookup-insert}
use proxy_common.Auth.Jwt.{Library, verify}
use proxy_common.Auth.Handlers.{Handlers, VerifyRequest, request_token, count_use, verify_handler}

-- how often a token was used
abbrev pub usage : Bytes → Handlers → ℤ
usage id h = lookup_or (pos 0) id h.token_usage

-- the identity of the token that a request presents, if the token verifies
unfoldable pub request_id : Library → ℤ → VerifyRequest → Bytes → Option Bytes
request_id lib now r secret =
    if bytes_eq (request_token r) [] then none else elim (verify lib now (request_token r) secret) [
      | none ↦ none
      | some claims ↦ some claims.id
    ]

-- whether a request presents the token `id`
abbrev pub is_token : Bytes → Option Bytes → Bool
is_token id none = false
is_token id (some other) = bytes_eq other id

add64_one : (k : ℕ) → k < 2 ^ 63 - 1 → add64 (pos k) (pos 1) ≡ pos (k + 1)
unfolding add64
add64_one k h =
    let e : pos k +ℤ pos 1 ≡ pos (k + 1) = unfold ◌+ℤ◌ in ground arith in
    rw e (wrap64_fits (pos (k + 1)) (omega arith))

module _ (id : Bytes) (nonempty : id ≢ []) (h : Handlers) (k n : ℕ)
    (limit : h.config.requests_per_token ≡ pos n) (sized : n < 2 ^ 63)
    (used : usage id h ≡ pos k) where
  -- a use of the token `id` itself
  pub count_use_self :
      ((count_use id h).0.status ≡ (if ltb k n then 200 else 429))
      × (usage id (count_use id h).1 ≡ pos (if ltb k n then k + 1 else k))
  unfolding count_use
  count_use_self = ground (
    arith,
    bytes_eq_iff id [],
    bytes_eq_iff id id,
    lookup-insert id id (add64 (pos k) (pos 1)) h.token_usage,
    add64_one k,
  )

  -- a use of another token
  pub count_use_other :
      (other : Bytes) → bytes_eq other id ≡ false → usage id (count_use other h).1 ≡ pos k
  unfolding count_use
  count_use_other other ne =
      ground (arith, lookup-insert other id (add64 (usage other h) (pos 1)) h.token_usage)

pub config-count_use : (id : Bytes) (h : Handlers) → (count_use id h).1.config ≡ h.config
unfolding count_use
config-count_use id h = ground arith

abbrev pub Respond : Option Bytes → Handlers → ℕ × Handlers → Type 0
Respond none h (status, h') =
    (status ≡ 401) × (h'.token_usage ≡ h.token_usage) × (h'.config ≡ h.config)
Respond (some id) h (status, h') = (status ≡ (count_use id h).0.status) × (h' ≡ (count_use id h).1)

-- `verify_handler` refuses a request without a token that verifies with the status 401 and leaves
-- the counts alone; it counts every other request as a use of its token.
pub verify_handler_lem :
    (lib : Library) (now : ℤ) (r : VerifyRequest) (h : Handlers)
    → Respond
        (request_id lib now r h.config.jwt_secret)
        h
        ((verify_handler lib now r h).0.status, (verify_handler lib now r h).1)
unfolding verify_handler request_id
verify_handler_lem lib now r h = elim (Bool-cases (bytes_eq (request_token r) [])) [
  | inl absent ↦ rw (absent, verify_handler, request_id) (refl, refl, refl)
  | inr present ↦ elim (Option-cases (verify lib now (request_token r) h.config.jwt_secret)) [
    | inl bad ↦ rw (present, verify_handler, request_id, bad) (refl, refl, refl)
    | inr (claims, good) ↦ rw (present, verify_handler, request_id, good) (refl, refl)
  ]
]
