-- ===== src/HttpClient/Retries.antt =====
-- The retries of `ExecuteRequest` (httpclient/client.go).
use proxy_common.Common.{
  some_inj, subst, ◌∙◌, ℕ, zero, suc, ◌+◌, ◌<◌, ◌≡◌, refl, ◌⊎◌, inl, inr, Option, none, some, List,
  [], ◌∷◌, ◌++◌, append_assoc, arith, pos, Option-cases,
}
use proxy_common.HttpClient.{
  Event, Outcome, exhausted, panicked, Attempt, Verdict, return, again, judge, before_attempt,
  attempts_loop, on_retry, RateLimiter, Outside, try_request, pause, RetryOptions, execute_request,
}
use proxy_common.HttpClient.Classes.{Retries, Decides, judged}

pub verdict :
    (v : Verdict) → ((e : Event) × (o : Outcome) × (v ≡ return e o)) ⊎ ((e : Event) × (v ≡ again e))
verdict (return e o) = inl (e, o, refl)
verdict (again e) = inr (e, refl)

-- the calls of the handler in front of an attempt, which are one call of `OnRetry` for all but the
-- first
abbrev pub retry_events : ℕ → List Event
retry_events zero = []
retry_events (suc attempt) = on_retry ∷ []

module _ {W : Type 0} (try : W → Attempt × W) (rest : ℕ → W → Option W) where
  -- the world in which an attempt is made, or a panic: the first attempt has no pause
  abbrev pub ready : ℕ → W → Option W
  ready zero w = some w
  ready (suc attempt) w = rest (suc attempt) w

  -- the turns of the loop: a panic, an attempt that decides, and one that does not
  turn-panicked :
      (left attempt : ℕ) (w : W)
      → ready attempt w ≡ none
      → attempts_loop try rest (suc left) attempt w ≡ (panicked, retry_events attempt, w)
  unfolding attempts_loop before_attempt
  turn-panicked left zero w stop = cc
  turn-panicked left (suc attempt) w stop = rw stop

  turn-return :
      (left attempt : ℕ) (w w0 : W) (e : Event) (o : Outcome)
      → ready attempt w ≡ some w0
      → judge (try w0).0 ≡ return e o
      → attempts_loop try rest (suc left) attempt w
        ≡ (o, retry_events attempt ++ e ∷ [], (try w0).1)
  unfolding attempts_loop before_attempt
  turn-return left zero w w0 e o go d =
      subst
        (λ x.
          judge (try x).0 ≡ return e o
          → attempts_loop try rest (suc left) zero w ≡ (o, e ∷ [], (try x).1))
        (some_inj go) (λ d. rw (attempts_loop, d)) d
  turn-return left (suc attempt) w w0 e o go d = rw (go, attempts_loop, d)

  turn-again :
      (left attempt : ℕ) (w w0 : W) (e : Event) (o : Outcome) (events : List Event) (end : W)
      → ready attempt w ≡ some w0
      → judge (try w0).0 ≡ again e
      → attempts_loop try rest left (attempt + 1) (try w0).1 ≡ (o, events, end)
      → attempts_loop try rest (suc left) attempt w ≡ (o, retry_events attempt ++ e ∷ events, end)
  unfolding attempts_loop before_attempt
  turn-again left zero w w0 e o events end go d r =
      subst
        (λ x.
          judge (try x).0 ≡ again e
          → attempts_loop try rest left (0 + 1) (try x).1 ≡ (o, events, end)
          → attempts_loop try rest (suc left) zero w ≡ (o, e ∷ events, end))
        (some_inj go) (λ d r. rw (attempts_loop, d, r)) d r
  turn-again left (suc attempt) w w0 e o events end go d r = rw (go, attempts_loop, d, r)

  -- The attempts from the number `attempt` on that ask for another one.
  pub data Retried : ℕ → W → ℕ → List Event → ℕ → W → Type 0 where
    here : {attempt : ℕ} {w : W} → Retried attempt w 0 [] attempt w
    next :
        {attempt : ℕ} {w w0 : W} {n : ℕ} {events : List Event} {attempt' : ℕ} {w' : W} {e : Event}
        → ready attempt w ≡ some w0
        → Retries (try w0).0 e
        → Retried (attempt + 1) (try w0).1 n events attempt' w'
        → Retried attempt w (suc n) (retry_events attempt ++ e ∷ events) attempt' w'

  -- The attempts before it ask for another one, and one attempt decides.
  pub record Decided (left attempt : ℕ) (w : W) (out : Outcome × List Event × W) : Type 0 where
    pub retries : ℕ
    pub events : List Event
    pub last : ℕ
    pub world : W
    pub started : W
    pub event : Event
    pub outcome : Outcome
    pub retried : Retried attempt w retries events last world
    pub within : retries < left
    pub rested : ready last world ≡ some started
    pub decided : Decides (try started).0 event outcome
    pub result : out ≡ (outcome, events ++ (retry_events last ++ event ∷ []), (try started).1)

  -- The pause before an attempt panics, and the attempts before it ask for another one.
  pub record Panicked (left attempt : ℕ) (w : W) (out : Outcome × List Event × W) : Type 0 where
    pub retries : ℕ
    pub events : List Event
    pub last : ℕ
    pub world : W
    pub retried : Retried attempt w retries events last world
    pub within : retries < left
    pub panics : ready last world ≡ none
    pub result : out ≡ (panicked, events ++ retry_events last, world)

  -- Every attempt that was left asks for another one.
  pub record UsedUp (left attempt : ℕ) (w : W) (out : Outcome × List Event × W) : Type 0 where
    pub events : List Event
    pub last : ℕ
    pub world : W
    pub retried : Retried attempt w left events last world
    pub result : out ≡ (exhausted, events, world)

  abbrev pub Ends : ℕ → ℕ → W → Outcome × List Event × W → Type 0
  Ends left attempt w out =
      Decided left attempt w out ⊎ Panicked left attempt w out ⊎ UsedUp left attempt w out

  -- one more attempt in front, which asks for another one
  Ends-next :
      (left attempt : ℕ) (w w0 : W) (e : Event)
      → ready attempt w ≡ some w0
      → judge (try w0).0 ≡ again e
      → Retries (try w0).0 e
      → Ends left (attempt + 1) (try w0).1 (attempts_loop try rest left (attempt + 1) (try w0).1)
      → Ends (suc left) attempt w (attempts_loop try rest (suc left) attempt w)
  Ends-next left attempt w w0 e go d again_for (inl r) = inl (record {
    retries = suc r.retries;
    events = retry_events attempt ++ e ∷ r.events;
    last = r.last;
    world = r.world;
    started = r.started;
    event = r.event;
    outcome = r.outcome;
    retried = next go again_for r.retried;
    within = omega (arith, r.within);
    rested = r.rested;
    decided = r.decided;
    result = turn-again left attempt w w0 e _ _ _ go d r.result ∙ rw append_assoc;
  })
  Ends-next left attempt w w0 e go d again_for (inr (inl r)) = inr (
      inl (record {
        retries = suc r.retries;
        events = retry_events attempt ++ e ∷ r.events;
        last = r.last;
        world = r.world;
        retried = next go again_for r.retried;
        within = omega (arith, r.within);
        panics = r.panics;
        result = turn-again left attempt w w0 e _ _ _ go d r.result ∙ rw append_assoc;
      }))
  Ends-next left attempt w w0 e go d again_for (inr (inr r)) = inr (
      inr (record {
        events = retry_events attempt ++ e ∷ r.events;
        last = r.last;
        world = r.world;
        retried = next go again_for r.retried;
        result = turn-again left attempt w w0 e _ _ _ go d r.result;
      }))

  attempts_loop_lem :
      (left attempt : ℕ) (w : W) → Ends left attempt w (attempts_loop try rest left attempt w)
  unfolding attempts_loop
  attempts_loop_lem zero attempt w =
      inr (inr (record { events = []; last = attempt; world = w; retried = here; result = refl }))
  attempts_loop_lem (suc left) attempt w = elim (Option-cases (ready attempt w)) [
    | inl stop ↦ inr (
        inl (record {
          retries = 0;
          events = [];
          last = attempt;
          world = w;
          retried = here;
          within = omega arith;
          panics = stop;
          result = turn-panicked left attempt w stop;
        }))
    | inr (w0, go) ↦ elim (judged (try w0).0) [
      | inl (e, o, d, decides) ↦ inl (record {
        retries = 0;
        events = [];
        last = attempt;
        world = w;
        started = w0;
        event = e;
        outcome = o;
        retried = here;
        within = omega arith;
        rested = go;
        decided = decides;
        result = turn-return left attempt w w0 e o go d;
      })
      | inr (e, d, again_for) ↦
          Ends-next left attempt w w0 e go d again_for
            (attempts_loop_lem left (attempt + 1) (try w0).1)
    ]
  ]

-- `ExecuteRequest` makes at most as many attempts as the option says, if that is not negative. The
-- attempts before the last one could not reach the server or were answered with one of the statuses
-- 429, 500, 502, 503 and 504, and the handler is told so; each attempt but the first comes behind a
-- call of `OnRetry` and a pause. An attempt decides if the limiter refuses, if a body comes with the
-- status 200, or if another status comes, or that one without a body that can be read; it has its
-- event and its outcome, and no attempt follows. If a pause panics, so does the call. If no attempt
-- decides, the outcome is the error of the used-up attempts.
pub execute_request_lem :
    {W : Type 0} (limiter : RateLimiter W) (outside : Outside W) (opts : RetryOptions) (n : ℕ)
    (w : W)
    → opts.max_retries ≡ pos n
    → Ends
        (try_request limiter outside)
        (pause outside opts.base_backoff)
        n
        0
        w
        (execute_request limiter outside opts w)
unfolding execute_request
execute_request_lem limiter outside opts n w h =
    rw (h, execute_request)
      (attempts_loop_lem (try_request limiter outside) (pause outside opts.base_backoff) n 0 w)
