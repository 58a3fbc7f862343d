-- ===== src/HttpClient/Pauses.antt =====
-- The pauses of a whole request (httpclient/client.go, httpclient/backoff.go).
use proxy_common.Common.{
  ℕ, zero, suc, ◌+◌, ◌*◌, ◌-◌, ◌<◌, ◌≤◌, ◌^◌, ◌≡◌, ◌≢◌, refl, sym, ◌∙◌, ap, inl, inr, some, List,
  [], ◌∷◌, ◌++◌, append_assoc, append-nil, arith, ℤ, pos, negsuc, length, subst,
}
use proxy_common.HttpClient.{
  Event, Outcome, panicked, wait_failed, do_failed, response, Attempt, return, judge, attempts_loop,
  Outside, pause, RateLimiter, try_request, RetryOptions, execute_request, RateLimiter, try_request,
  RetryOptions, execute_request,
}
use proxy_common.HttpClient.Backoff.{double, at_least, calculate_backoff_lem}
use proxy_common.HttpClient.Retries.{verdict}

-- The pauses before the retries number k + 1, k + 2, …: each is at least the base, doubled for each
-- retry before it, and less than one and a half times that.
abbrev pub AreBackoffs : ℕ → ℕ → List ℤ → Type 0
AreBackoffs base k [] = Unit
AreBackoffs base k (negsuc d ∷ pauses) = ⊥
AreBackoffs base k (pos d ∷ pauses) =
    (2 ^ k * base ≤ d) × (2 * d < 3 * (2 ^ k * base)) × AreBackoffs base (suc k) pauses

-- the length of the pauses together
abbrev pub total : List ℤ → ℕ
total [] = 0
total (negsuc d ∷ pauses) = total pauses
total (pos d ∷ pauses) = d + total pauses

swap : (x y : ℕ) → 2 * (x * y) ≡ x * (2 * y)
swap x y = grind arith

shift : (l k b : ℕ) → 2 ^ suc l * (2 ^ k * b) ≡ 2 ^ l * (2 ^ suc k * b)
shift l k b = rw (double k b) (double l (2 ^ k * b) ∙ swap (2 ^ l) (2 ^ k * b))

total_lem :
    (base k : ℕ) (pauses : List ℤ)
    → AreBackoffs base k pauses
    → 2 * total pauses + 3 * (2 ^ k * base) ≤ 3 * (2 ^ length pauses * (2 ^ k * base))
total_lem base k [] h = omega arith
total_lem base k (negsuc d ∷ pauses) h = absurd h
total_lem base k (pos d ∷ pauses) (lower, upper, rest) =
    omega (arith, total_lem base (suc k) pauses rest, double k base, shift (length pauses) k base)

judge-panicked : (seen : Attempt) (e : Event) (o : Outcome) → judge seen ≡ return e o → o ≢ panicked
unfolding judge
judge-panicked wait_failed e o h p = absurd (ground arith)
judge-panicked do_failed e o h p = absurd (ground arith)
judge-panicked (response status body) e o h p = ground arith

module _ {W : Type 0} (try : W → Attempt × W) (outside : Outside W) (slept : W → List ℤ)
    (try_slept : (w : W) → slept (try w).1 ≡ slept w)
    (draw_slept : (w : W) → slept (outside.draw w).1 ≡ slept w)
    (sleep_slept : (d : ℤ) (w : W) → slept (outside.sleep d w) ≡ slept w ++ d ∷ [])
    (draw_small : (w : W) (k : ℕ) → (outside.draw w).0 (suc k) < suc k) (base : ℕ)
    (long : 2 ≤ base) where
  -- the pauses of a run that has `left` attempts left, from the retry number k + 1 on
  record Rests (left k : ℕ) (w : W) (out : Outcome × List Event × W) : Type 0 where
    pauses : List ℤ
    slept_all : slept out.2 ≡ slept w ++ pauses
    backoffs : AreBackoffs base k pauses
    at_most : length pauses ≤ left
    returns : out.0 ≢ panicked

  pause_lem :
      (k : ℕ) (w : W)
      → 2 ^ k * base < 2 ^ 53
      → (d : ℕ) × (w' : W) × (pause outside (pos base) (suc k) w ≡ some w')
        × (slept w' ≡ slept w ++ pos d ∷ [])
        × (2 ^ k * base ≤ d)
        × (2 * d < 3 * (2 ^ k * base))
  unfolding pause
  pause_lem k w fits = elim (calculate_backoff_lem (outside.draw w).0 base k (draw_small w) fits) [
    | inl (less, gone) ↦ absurd (omega (arith, at_least k base))
    | inr (d, drawn, bound) ↦ (
      2 ^ k * base + d,
      outside.sleep (pos (2 ^ k * base + d)) (outside.draw w).1,
      rw (drawn, pause) refl,
      sleep_slept (pos (2 ^ k * base + d)) (outside.draw w).1
          ∙ ap (λ l. l ++ pos (2 ^ k * base + d) ∷ []) (draw_slept w),
      omega arith,
      omega arith,
    )
  ]

  abbrev loop : ℕ → ℕ → W → Outcome × List Event × W
  loop = attempts_loop try (pause outside (pos base))

  loop-Rests :
      (left k : ℕ) (w : W)
      → 2 ^ left * (2 ^ k * base) < 2 ^ 53
      → Rests left k w (loop left (suc k) w)
  unfolding attempts_loop
  loop-Rests zero k w fits = record {
    pauses = [];
    slept_all = rw append-nil;
    backoffs = tt;
    at_most = omega arith;
    returns = λ e. cc e;
  }
  loop-Rests (suc left) k w fits =
      let small : 2 ^ k * base < 2 ^ 53 = omega (arith, at_least (suc left) (2 ^ k * base)) in
      let (d, w', go, rested, lower, upper) = pause_lem k w small in
      let after : W = (try w').1 in
      elim (verdict (judge (try w').0)) [
        | inl (e, o, decided) ↦ record {
          pauses = pos d ∷ [];
          slept_all = rw (go, attempts_loop, decided) (try_slept w' ∙ rested);
          backoffs = (lower, upper, tt);
          at_most = omega arith;
          returns = rw (go, attempts_loop, decided) (judge-panicked (try w').0 e o decided);
        }
        | inr (e, more) ↦
            let one_more : suc (suc k) ≡ suc k + 1 = omega arith in
            let r =
              subst (λ a. Rests left (suc k) after (loop left a after)) one_more
                (loop-Rests left (suc k) after (omega (arith, shift left k base))) in
            record {
              pauses = pos d ∷ r.pauses;
              slept_all =
                  rw (go, attempts_loop, more)
                    (r.slept_all
                      ∙ ap (λ l. l ++ r.pauses) (try_slept w' ∙ rested)
                      ∙ append_assoc (slept w) (pos d ∷ []) r.pauses);
              backoffs = (lower, upper, r.backoffs);
              at_most = omega (arith, r.at_most);
              returns = rw (go, attempts_loop, more) r.returns;
            }
      ]

  first-Rests : (n : ℕ) (w : W) → 2 ^ n * base < 2 ^ 53 → Rests (n - 1) 0 w (loop n 0 w)
  unfolding attempts_loop
  first-Rests zero w fits = record {
    pauses = [];
    slept_all = rw append-nil;
    backoffs = tt;
    at_most = omega arith;
    returns = λ e. cc e;
  }
  first-Rests (suc left) w fits =
      let after : W = (try w).1 in
      let r = loop-Rests left 0 after (omega (arith, double left base)) in
      elim (verdict (judge (try w).0)) [
        | inl (e, o, decided) ↦ record {
          pauses = [];
          slept_all = rw (attempts_loop, decided) (try_slept w ∙ sym (append-nil (slept w)));
          backoffs = tt;
          at_most = omega arith;
          returns = rw (attempts_loop, decided) (judge-panicked (try w).0 e o decided);
        }
        | inr (e, more) ↦ record {
          pauses = r.pauses;
          slept_all =
              rw (attempts_loop, more) (r.slept_all ∙ ap (λ l. l ++ r.pauses) (try_slept w));
          backoffs = r.backoffs;
          at_most = omega (arith, r.at_most);
          returns = rw (attempts_loop, more) r.returns;
        }
      ]

-- `slept` logs the calls of `time.Sleep`: an attempt makes none, and drawing a number makes none. A
-- number that is drawn is below its bound, as `rand.Int63n` documents.
pub record IsLog {W : Type 0} (limiter : RateLimiter W) (outside : Outside W) (slept : W → List ℤ)
    : Type 0 where
  pub try_slept : (w : W) → slept (try_request limiter outside w).1 ≡ slept w
  pub draw_slept : (w : W) → slept (outside.draw w).1 ≡ slept w
  pub sleep_slept : (d : ℤ) (w : W) → slept (outside.sleep d w) ≡ slept w ++ d ∷ []
  pub draw_small : (w : W) (k : ℕ) → (outside.draw w).0 (suc k) < suc k

-- With n attempts and a base of at least 2 nanoseconds, with 2^n times the base below 2^53,
-- `ExecuteRequest` does not panic. It sleeps less than n times, if n is not 0: before its retry number
-- k + 1 at least 2^k times the base and less than one and a half times that, and in all at most one
-- and a half times the base times 2^m - 1, where m is the number of pauses.
pub execute_request_pauses :
    {W : Type 0} (limiter : RateLimiter W) (outside : Outside W) (slept : W → List ℤ)
    (opts : RetryOptions) (n base : ℕ) (w : W)
    → IsLog limiter outside slept
    → opts.max_retries ≡ pos n
    → opts.base_backoff ≡ pos base
    → 2 ≤ base
    → 2 ^ n * base < 2 ^ 53
    → (pauses : List ℤ) × (slept (execute_request limiter outside opts w).2 ≡ slept w ++ pauses)
      × AreBackoffs base 0 pauses
      × (length pauses ≤ n - 1)
      × (2 * total pauses + 3 * base ≤ 3 * (2 ^ length pauses * base))
      × ((execute_request limiter outside opts w).0 ≢ panicked)
unfolding execute_request
execute_request_pauses limiter outside slept opts n base w log most least long fits =
    let r =
      first-Rests (try_request limiter outside) outside slept log.try_slept log.draw_slept
        log.sleep_slept log.draw_small base long n w fits in
    rw (most, least, execute_request)
      (
        r.pauses,
        r.slept_all,
        r.backoffs,
        r.at_most,
        omega (arith, total_lem base 0 r.pauses r.backoffs),
        r.returns,
      )
