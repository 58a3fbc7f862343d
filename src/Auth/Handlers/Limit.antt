-- ===== src/Auth/Handlers/Limit.antt =====
-- One call of `VerifyHandler` (auth/handlers/handlers.go) and the number of uses of a token: whether
-- a request with the token is let through, and the count behind it.
use Prim.Native.Nat.{min}
use proxy_common.Common.{
  ℕ, suc, ◌-◌, ◌≤◌, ◌<◌, ◌^◌, ◌≡◌, ◌≢◌, refl, ◌∙◌, ap, Bool, true, false, Option, none, some, [],
  arith, pos, ◌&&◌, if◌then◌else◌, Bool-cases, inl, inr, ltb, ltb→lt, ◌==◌,
}
use proxy_common.Common.Bytes.{Bytes, bytes_eq, bytes_eq_iff, bytes_has_eq}
use proxy_common.Common.GoMap.{lookup_or}
use proxy_common.Auth.Jwt.{Library}
use proxy_common.Auth.Handlers.{Handlers, count_use}
use proxy_common.Auth.Handlers.Verify.{
  usage, is_token, count_use_self, count_use_other, config-count_use, Respond,
}

abbrev pub count_if : Bool → ℕ → ℕ
count_if true n = suc n
count_if false n = n

pub tally :
    (present : Bool) (m n k : ℕ)
    → k ≤ n
    → count_if (present && ltb k n) (min m (n - (if present && ltb k n then suc k else k)))
      ≡ min (count_if present m) (n - k)
tally false m n k h = refl
tally true m n k h = elim (Bool-cases (ltb k n)) [
  | inl room ↦ let lt : k < n = ltb→lt k n room in rw room (omega arith)
  | inr full ↦ let e : n - k ≡ 0 = ground arith in rw (full, e) (omega arith)
]

module _ (lib : Library) (id : Bytes) where
  -- The state between two requests: `k` uses of the token `id` so far, out of `n`.
  pub record Counts (h : Handlers) (secret : Bytes) (n k : ℕ) : Type 0 where
    pub secret_kept : h.config.jwt_secret ≡ secret
    pub limit : h.config.requests_per_token ≡ pos n
    pub used : usage id h ≡ pos k
    pub within : k ≤ n

  -- One request: whether it is accepted, and the count behind it.
  pub record Step (present : Bool) (status : ℕ) (h' : Handlers) (secret : Bytes) (n k : ℕ)
      : Type 0 where
    pub verdict : (present && (status == 200)) ≡ (present && ltb k n)
    pub counts : Counts h' secret n (if present && ltb k n then suc k else k)

  module _ (h : Handlers) (secret : Bytes) (n k : ℕ) (nonempty : id ≢ []) (sized : n < 2 ^ 63)
      (c : Counts h secret n k) where
    pub keep_config :
        (h' : Handlers) (j : ℕ)
        → h'.config ≡ h.config
        → usage id h' ≡ pos j
        → j ≤ n
        → Counts h' secret n j
    keep_config h' j e u w = record {
      secret_kept = ap (λ x. x.jwt_secret) e ∙ c.secret_kept;
      limit = ap (λ x. x.requests_per_token) e ∙ c.limit;
      used = u;
      within = w;
    }

    use-Step :
        (other : Bytes)
        → Step (bytes_eq other id) (count_use other h).0.status (count_use other h).1 secret n k
    use-Step other = elim (Bool-cases (bytes_eq other id)) [
      | inr ne ↦ rw ne (record {
        verdict = refl;
        counts =
            keep_config (count_use other h).1 k (config-count_use other h)
              (count_use_other id nonempty h k n c.limit sized c.used other ne) c.within;
      })
      | inl same ↦
          let e : other ≡ id = (bytes_eq_iff other id).0 same in
          let (status, used) = count_use_self id nonempty h k n c.limit sized c.used in
          rw (e, (bytes_eq_iff id id).1 refl)
            (record {
              verdict = ground arith;
              counts =
                  keep_config (count_use id h).1 _ (config-count_use id h) (used ∙ ground arith)
                    (ground arith);
            })
    ]

    pub Respond-Step :
        (o : Option Bytes) (status : ℕ) (h' : Handlers)
        → Respond o h (status, h')
        → Step (is_token id o) status h' secret n k
    Respond-Step none status h' (_, kept, config) = record {
      verdict = refl;
      counts = keep_config h' k config (ap (lookup_or (pos 0) id) kept ∙ c.used) c.within;
    }
    Respond-Step (some other) status h' (s, e) = rw (s, e) (use-Step other)
