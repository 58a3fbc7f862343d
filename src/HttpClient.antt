-- ===== src/HttpClient.antt =====
-- httpclient/client.go, httpclient/backoff.go and httpclient/options.go: a request with retries.
-- The limiter's `Wait`, `http.Client.Do`, the reading of bodies, `time.Sleep` and the random number
-- act on a world of type `W`. How long a request took and the texts of errors, which are only logged
-- and wrapped, are left out of the results.
pub mod Backoff
pub mod Classes
pub mod Client
pub mod Pauses
pub mod Retries
use proxy_common.Common.{
  sub_ℕ, ltb_ℤ, ◌/◌, ◌-◌, ℕ, zero, suc, ◌+◌, ◌*◌, ◌%◌, ◌^◌, ◌≡◌, Bool, true, false, ◌||◌, Option,
  none, some, List, [], ◌∷◌, ◌++◌, ℤ, pos, negsuc, leb_ℤ, ◌+ℤ◌, quot, scale, ◌==◌, if◌then◌else◌,
}
use proxy_common.Common.Bytes.{Bytes}
use proxy_common.Common.Double.{quotient}
use proxy_common.Common.Int64.{add64}

pub record RetryOptions : Type 0 where
  pub max_retries : ℤ
  pub base_backoff : ℤ
  pub connection_timeout : ℤ
  pub request_timeout : ℤ

abbrev pub default_retry_options : RetryOptions
default_retry_options = record {
  max_retries = pos 3;
  base_backoff = pos 1_000_000_000;
  connection_timeout = pos 10_000_000_000;
  request_timeout = pos 30_000_000_000;
}

-- `float64(x)`, which has no fraction
unfoldable pub double_of : ℤ → ℤ
unfolding quotient
double_of (pos n) = pos (quotient n 1 / 2 ^ 96)
double_of (negsuc n) = sub_ℕ 0 (quotient (suc n) 1 / 2 ^ 96)

-- `time.Duration(x)` of such a number. Go leaves open what comes of one that does not fit; here it is
-- the least `int64`, as on amd64.
unfoldable pub duration_of : ℤ → ℤ
duration_of x =
    if ltb_ℤ x (negsuc (2 ^ 63 - 1)) || leb_ℤ (pos (2 ^ 63)) x then negsuc (2 ^ 63 - 1) else x

-- The backoff with the jitter that `rand.Int63n` draws below a bound; `none` is its panic on a bound
-- that is not positive.
unfoldable pub add_jitter : (ℕ → ℕ) → ℤ → Option ℤ
add_jitter random backoff = elim (quot backoff 2) [
  | negsuc k ↦ none
  | pos zero ↦ none
  | pos (suc k) ↦ some (add64 backoff (pos (random (suc k))))
]

-- `CalculateBackoffWithJitter`, at the random number drawn for each bound; a power of two is a
-- `float64`, and the product with it is not rounded
unfoldable pub calculate_backoff_with_jitter : (ℕ → ℕ) → ℤ → ℤ → Option ℤ
unfolding add_jitter duration_of double_of
calculate_backoff_with_jitter random base (negsuc n) = some base
calculate_backoff_with_jitter random base (pos zero) = some base
calculate_backoff_with_jitter random base (pos (suc n)) =
    add_jitter random (duration_of (scale (2 ^ n % 2 ^ 64) (double_of base)))

-- the calls of the status handler
pub data Event : Type 0 where
  on_retry on_error on_rate_limited on_success : Event

-- What one attempt meets: `Wait` of a limiter fails; `Do` fails; or a response comes, with its
-- status and the body, if that can be read.
pub data Attempt : Type 0 where
  wait_failed : Attempt
  do_failed : Attempt
  response : ℕ → Option Bytes → Attempt

unfoldable pub is_retryable_error : ℕ → Bool
is_retryable_error status =
    status == 429 || (status == 500 || (status == 502 || (status == 503 || status == 504)))

-- `processResponse`; `none` is an error
unfoldable pub process_response : ℕ → Option Bytes → Option Bytes
process_response status body = if status == 200 then body else none

-- What `ExecuteRequest` returns: the status and the body; the error of one response; or that the
-- attempts are used up or the limiter refused. Or it panics.
pub data Outcome : Type 0 where
  succeeded : ℕ → Bytes → Outcome
  failed_response : Outcome
  exhausted : Outcome
  panicked : Outcome

-- What an attempt decides, with its event.
pub data Verdict : Type 0 where
  return : Event → Outcome → Verdict
  again : Event → Verdict

unfoldable pub judge : Attempt → Verdict
unfolding process_response is_retryable_error
judge wait_failed = return on_error exhausted
judge do_failed = again on_error
judge (response status body) = elim (process_response status body) [
  | some contents ↦ return on_success (succeeded status contents)
  | none ↦
      if is_retryable_error status then again on_rate_limited else return on_error failed_response
]

-- What acts on the world: `http.Client.Do` and the reading of the body, where `none` is an error;
-- `time.Sleep`; and `rand.Int63n`, as the numbers that it would draw for each bound.
pub record Outside (W : Type 0) : Type 0 where
  pub exchange : W → Option (ℕ × Option Bytes) × W
  pub sleep : ℤ → W → W
  pub draw : W → (ℕ → ℕ) × W

-- The callback `RateLimiter`: it may give no limiter, or one, which is its `Wait` with whether that
-- succeeds. A nil callback is `none`.
abbrev pub RateLimiter : Type 0 → Type 0
RateLimiter W = Option (W → Option (W → Bool × W))

module _ {W : Type 0} where
  unfoldable pub wait_limiter : RateLimiter W → W → Bool × W
  wait_limiter none w = (true, w)
  wait_limiter (some callback) w = elim (callback w) [ none ↦ (true, w) | some wait ↦ wait w ]

  module _ (limiter : RateLimiter W) (outside : Outside W) where
    -- an attempt, from the limiter to the body
    unfoldable pub try_request : W → Attempt × W
    unfolding wait_limiter
    try_request w =
        let (ok, w') = wait_limiter limiter w in
        let (reply, w'') = outside.exchange w' in
        if ok
        then (elim reply [ none ↦ do_failed | some (status, body) ↦ response status body ], w'')
        else (wait_failed, w')

  -- the pause before a retry; `none` is a panic
  unfoldable pub pause : Outside W → ℤ → ℕ → W → Option W
  unfolding calculate_backoff_with_jitter
  pause outside base attempt w =
      let (random, w') = outside.draw w in
      elim (calculate_backoff_with_jitter random base (pos attempt)) [
        | none ↦ none
        | some d ↦ some (outside.sleep d w')
      ]

  module _ (try : W → Attempt × W) (rest : ℕ → W → Option W) where
    -- the `if attempt > 0`: the handler's `OnRetry`, and the pause
    unfoldable pub before_attempt : ℕ → W → List Event × Option W
    before_attempt zero w = ([], some w)
    before_attempt (suc attempt) w = (on_retry ∷ [], rest (suc attempt) w)

    -- The loop, on the attempts that are left and the number of the next; the events are those of
    -- the status handler, in order.
    unfoldable pub attempts_loop : ℕ → ℕ → W → Outcome × List Event × W
    unfolding before_attempt judge
    attempts_loop zero attempt w = (exhausted, [], w)
    attempts_loop (suc left) attempt w =
        let (retried, rested) = before_attempt attempt w in
        elim rested [
          | none ↦ (panicked, retried, w)
          | some w' ↦
              let (seen, w'') = try w' in
              let (outcome, events, end) = attempts_loop left (attempt + 1) w'' in
              elim (judge seen) [
                | return event result ↦ (result, retried ++ event ∷ [], w'')
                | again event ↦ (outcome, retried ++ event ∷ events, end)
              ]
        ]

  unfoldable pub execute_request :
      RateLimiter W → Outside W → RetryOptions → W → Outcome × List Event × W
  unfolding attempts_loop try_request pause
  execute_request limiter outside opts w = elim opts.max_retries [
    | negsuc n ↦ (exhausted, [], w)
    | pos n ↦ attempts_loop (try_request limiter outside) (pause outside opts.base_backoff) n 0 w
  ]
