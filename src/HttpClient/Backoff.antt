-- ===== src/HttpClient/Backoff.antt =====
-- The pauses between attempts (httpclient/backoff.go).
use proxy_common.Common.{
  Bool-cases, ltb, ltb→lt, ℕ, zero, suc, ◌+◌, ◌*◌, ◌%◌, ◌<◌, ◌≤◌, ◌/◌, ◌^◌, ◌≡◌, refl, ◌∙◌, ap, ◌⊎◌,
  ◌↔◌, inl, inr, Option, none, some, arith, ℤ, pos, negsuc, ◌+ℤ◌, scale, quot,
}
use proxy_common.Common.Int64.{add64, wrap64_fits}
use proxy_common.Common.Double.Exact.{quotient_whole}
use proxy_common.HttpClient.{double_of, duration_of, add_jitter, calculate_backoff_with_jitter}

scale_pos : (k b : ℕ) → scale k (pos b) ≡ pos (k * b)
unfolding scale
scale_pos k b = ground arith

add_pos : (a b : ℕ) → a + b < 2 ^ 63 → add64 (pos a) (pos b) ≡ pos (a + b)
unfolding add64
add_pos a b h =
    let e : pos a +ℤ pos b ≡ pos (a + b) = unfold ◌+ℤ◌ in ground arith in
    rw e (wrap64_fits (pos (a + b)) (omega arith))

double_of-whole : (n : ℕ) → n < 2 ^ 53 → double_of (pos n) ≡ pos n
unfolding double_of
double_of-whole n h = ap pos (quotient_whole n h)

duration_of-fits : (n : ℕ) → n < 2 ^ 53 → duration_of (pos n) ≡ pos n
unfolding duration_of
duration_of-fits n h = ground arith

jitter_lem :
    (random : ℕ → ℕ) (b : ℕ)
    → ((k : ℕ) → random (suc k) < suc k)
    → 2 ≤ b
    → b < 2 ^ 53
    → (d : ℕ) × (add_jitter random (pos b) ≡ some (pos (b + d))) × (d < b / 2)
unfolding add_jitter quot
jitter_lem random b small h fits = go (b / 2) refl
  where
    go :
        (q : ℕ)
        → b / 2 ≡ q
        → (d : ℕ) × (elim (pos q) as (λ x. Option ℤ) [
          | negsuc k ↦ none
          | pos zero ↦ none
          | pos (suc k) ↦ some (add64 (pos b) (pos (random (suc k))))
        ]
            ≡ some (pos (b + d)))
          × (d < b / 2)
    go zero e = absurd (omega arith)
    go (suc k) e =
        let drawn = small k in
        (random (suc k), ap some (add_pos b (random (suc k)) (omega arith)), rw e drawn)

add_jitter-none : (random : ℕ → ℕ) (b : ℕ) → (add_jitter random (pos b) ≡ none) ↔ (b < 2)
unfolding add_jitter quot
add_jitter-none random b = go (b / 2) refl
  where
    go :
        (q : ℕ)
        → b / 2 ≡ q
        → ((elim (pos q) as (λ x. Option ℤ) [
          | negsuc k ↦ none
          | pos zero ↦ none
          | pos (suc k) ↦ some (add64 (pos b) (pos (random (suc k))))
        ])
            ≡ none)
          ↔ (b < 2)
    go zero e = (λ h. omega arith, λ h. refl)
    go (suc k) e = (λ h. cc h, λ h. absurd (omega arith))

product :
    (base n : ℕ) → 2 ^ n * base < 2 ^ 53 → scale (2 ^ n % 2 ^ 64) (pos base) ≡ pos (2 ^ n * base)
product zero n fits = scale_pos (2 ^ n % 2 ^ 64) zero ∙ ap pos (omega arith)
product (suc b) n fits =
    let least : 2 ^ n ≤ 2 ^ n * suc b = ground arith in
    let same : 2 ^ n % 2 ^ 64 ≡ 2 ^ n = ground arith in rw same (scale_pos (2 ^ n) (suc b))

pub double : (k b : ℕ) → 2 ^ suc k * b ≡ 2 * (2 ^ k * b)
double k b = grind arith

pub at_least : (k b : ℕ) → b ≤ 2 ^ k * b
at_least zero b = omega arith
at_least (suc k) b = omega (arith, at_least k b, double k b)

-- the interval that the shift and the product give
interval :
    (base n : ℕ)
    → 2 ^ n * base < 2 ^ 53
    → duration_of (scale (2 ^ n % 2 ^ 64) (double_of (pos base))) ≡ pos (2 ^ n * base)
interval base n fits =
    let whole : double_of (pos base) ≡ pos base =
      double_of-whole base (omega (arith, at_least n base)) in
    rw (whole, product base n fits) (duration_of-fits (2 ^ n * base) fits)

-- For a base that is not negative, with 2^n times the base below 2^53, the pause before the retry
-- number n + 1 panics if 2^n times the base is less than 2 nanoseconds; if not, it is at least that
-- product and less than one and a half times it. The random number is below its bound: there is one.
pub calculate_backoff_lem :
    (random : ℕ → ℕ) (base n : ℕ)
    → ((k : ℕ) → random (suc k) < suc k)
    → 2 ^ n * base < 2 ^ 53
    → ((2 ^ n * base < 2) × (calculate_backoff_with_jitter random (pos base) (pos (suc n)) ≡ none))
      ⊎ ((d : ℕ) × (calculate_backoff_with_jitter random (pos base) (pos (suc n))
            ≡ some (pos (2 ^ n * base + d)))
          × (d < 2 ^ n * base / 2))
unfolding calculate_backoff_with_jitter
calculate_backoff_lem random base n small fits =
    let same = interval base n fits in
    elim (Bool-cases (ltb (2 ^ n * base) 2)) [
      | inl short ↦
          let less : 2 ^ n * base < 2 = ltb→lt (2 ^ n * base) 2 short in
          inl (
            less,
            rw (calculate_backoff_with_jitter, same)
                ((add_jitter-none random (2 ^ n * base)).1 less),
          )
      | inr long ↦
          let (d, pause, bound) = jitter_lem random (2 ^ n * base) small (ground arith) fits in
          inr (d, rw (calculate_backoff_with_jitter, same) pause, bound)
    ]
