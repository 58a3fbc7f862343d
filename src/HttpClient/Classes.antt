-- ===== src/HttpClient/Classes.antt =====
-- How `ExecuteRequest` judges the responses (httpclient/client.go).
use proxy_common.Common.{
  ℕ, ◌≡◌, ◌≢◌, refl, ◌↔◌, ◌⊎◌, inl, inr, Bool-cases, ◌==◌, Option, none, some, List, [], ◌∷◌, arith,
  Elem,
}
use proxy_common.Common.Bytes.{Bytes}
use proxy_common.HttpClient.{
  Attempt, Event, Outcome, wait_failed, do_failed, on_error, exhausted, failed_response,
  on_rate_limited, on_success, succeeded, response, return, again, judge, process_response,
  is_retryable_error,
}

-- A response makes for another attempt exactly if its status is one of the five that may pass, and
-- is then reported as rate limited; it succeeds with some contents exactly if its status is 200 and
-- its body is read as these.
judge_lem :
    (status : ℕ) (body : Option Bytes) (contents : Bytes)
    → ((judge (response status body) ≡ again on_rate_limited)
        ↔ Elem status (429 ∷ 500 ∷ 502 ∷ 503 ∷ 504 ∷ []))
      × ((judge (response status body) ≡ return on_success (succeeded status contents))
          ↔ ((status ≡ 200) × (body ≡ some contents)))
unfolding judge process_response is_retryable_error
judge_lem status none contents = ground arith
judge_lem status (some b) contents = ground arith

-- the statuses that may pass
abbrev pub may_pass : List ℕ
may_pass = 429 ∷ 500 ∷ 502 ∷ 503 ∷ 504 ∷ []

-- An attempt after which another one is made, with its event: no response comes, or one with a status
-- that may pass.
pub data Retries : Attempt → Event → Type 0 where
  unreachable : Retries do_failed on_error
  overloaded :
      (status : ℕ) (body : Option Bytes)
      → Elem status may_pass
      → Retries (response status body) on_rate_limited

-- An attempt that decides, with its event and the outcome: the limiter refuses; the body of a status
-- 200 is read; or the status is another one, or the body is not read.
pub data Decides : Attempt → Event → Outcome → Type 0 where
  refused : Decides wait_failed on_error exhausted
  served : (body : Bytes) → Decides (response 200 (some body)) on_success (succeeded 200 body)
  rejected :
      (status : ℕ) (body : Option Bytes)
      → (status ≢ 200) ⊎ (body ≡ none)
      → ¬ Elem status may_pass
      → Decides (response status body) on_error failed_response

-- a response that is not a success
judge-other :
    (status : ℕ) (body : Option Bytes)
    → (status ≢ 200) ⊎ (body ≡ none)
    → ((judge (response status body) ≡ again on_rate_limited) × Elem status may_pass)
      ⊎ ((judge (response status body) ≡ return on_error failed_response)
          × (¬ Elem status may_pass))
unfolding judge process_response is_retryable_error
judge-other status none h = ground arith
judge-other status (some b) h = ground arith

judged_other :
    (status : ℕ) (body : Option Bytes)
    → (status ≢ 200) ⊎ (body ≡ none)
    → ((e : Event) × (o : Outcome) × (judge (response status body) ≡ return e o)
        × Decides (response status body) e o)
      ⊎ ((e : Event) × (judge (response status body) ≡ again e) × Retries (response status body) e)
judged_other status body h = elim (judge-other status body h) [
  | inl (e, one) ↦ inr (on_rate_limited, e, overloaded status body one)
  | inr (e, none_of) ↦ inl (on_error, failed_response, e, rejected status body h none_of)
]

pub judged :
    (seen : Attempt)
    → ((e : Event) × (o : Outcome) × (judge seen ≡ return e o) × Decides seen e o)
      ⊎ ((e : Event) × (judge seen ≡ again e) × Retries seen e)
judged wait_failed = inl (on_error, exhausted, unfold judge in refl, refused)
judged do_failed = inr (on_error, unfold judge in refl, unreachable)
judged (response status none) = judged_other status none (inr refl)
judged (response status (some b)) = elim (Bool-cases (status == 200)) [
  | inl ok ↦
      let e : status ≡ 200 = ground arith in
      rw e (inl (on_success, succeeded 200 b, unfold judge process_response in refl, served b))
  | inr other ↦ judged_other status (some b) (inl (ground arith))
]
