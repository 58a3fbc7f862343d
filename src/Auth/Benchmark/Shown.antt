-- ===== src/Auth/Benchmark/Shown.antt =====
-- The durations that auth/cmd/benchmark-puzzle/main.go prints, and what the texts stand for.
use proxy_common.Common.{
  ℕ, ◌+◌, ◌*◌, ◌/◌, ◌%◌, ◌^◌, ◌<◌, ◌≤◌, ◌≡◌, refl, ◌∷◌, ◌++◌, arith, pos, ltb, Bool-cases, inl, inr,
}
use proxy_common.Common.Bytes.{Bytes, codes}
use proxy_common.Common.Decimal.{decimal}
use proxy_common.Common.Double.{quotient, scaled, seconds, with_point, fixed}
use proxy_common.Common.Double.Near.{
  IsNear, IsRounded, quotient-IsRounded, sum-IsRounded, scaled-IsNear,
}
use proxy_common.Auth.Benchmark.Report.{format_duration}

pub record IsWithin (bound a b : ℕ) : Type 0 where
  pub above : a ≤ b + bound
  pub below : b ≤ a + bound

thousandths :
    (m x t : ℕ)
    → m < 1_000_000
    → IsRounded m 1_000 x
    → IsNear (x * 10) (2 ^ 96) t
    → IsWithin 50 m (100 * t)
thousandths m x t small r near = record { above = omega arith; below = omega arith }

parts :
    (s r x y z t : ℕ)
    → s < 2 ^ 34
    → r < 1_000_000_000
    → IsRounded s 1 x
    → IsRounded r 1_000_000_000 y
    → IsRounded (x + y) (2 ^ 96) z
    → IsNear (z * 100) (2 ^ 96) t
    → IsWithin 5_004_000 (s * 1_000_000_000 + r) (10_000_000 * t)
parts s r x y z t s_small r_small first second third near = record {
  above = omega arith;
  below = omega arith;
}

-- A text stands for a duration of `d` nanoseconds: a number of a unit, and how far it is from `d`.
pub data IsShown (d : ℕ) : Bytes → Type 0 where
  nanoseconds : d < 1_000 → IsShown d (decimal d ++ codes "ns")
  microseconds :
      (t : ℕ)
      → 1_000 ≤ d
      → d < 1_000_000
      → IsWithin 50 d (100 * t)
      → IsShown d (with_point 1 t ++ 194 ∷ 181 ∷ codes "s")
  milliseconds :
      (t : ℕ)
      → 1_000_000 ≤ d
      → d < 1_000_000_000
      → IsWithin 50_999 d (100_000 * t)
      → IsShown d (with_point 1 t ++ codes "ms")
  whole :
      (t : ℕ)
      → 1_000_000_000 ≤ d
      → IsWithin 5_004_000 d (10_000_000 * t)
      → IsShown d (with_point 2 t ++ codes "s")

fixed_lem : (places x : ℕ) → fixed places x ≡ with_point places (scaled places x)
unfolding fixed
fixed_lem places x = refl

IsShown-micro :
    (d : ℕ)
    → 1_000 ≤ d
    → d < 1_000_000
    → IsShown d (fixed 1 (quotient d 1_000) ++ 194 ∷ 181 ∷ codes "s")
IsShown-micro d low high = rw fixed_lem (
    microseconds _ low high (
      thousandths d _ _ high (quotient-IsRounded d 1_000 (omega arith))
        (scaled-IsNear 1 (quotient d 1_000))))

IsShown-milli :
    (d : ℕ)
    → 1_000_000 ≤ d
    → d < 1_000_000_000
    → IsShown d (fixed 1 (quotient (d / 1_000) 1_000) ++ codes "ms")
IsShown-milli d low high =
    let near =
      thousandths (d / 1_000) _ _ (omega arith) (quotient-IsRounded (d / 1_000) 1_000 (omega arith))
        (scaled-IsNear 1 (quotient (d / 1_000) 1_000)) in
    rw fixed_lem (milliseconds _ low high (record { above = omega arith; below = omega arith }))

seconds-IsWithin : (d : ℕ) → d < 2 ^ 63 → IsWithin 5_004_000 d (10_000_000 * scaled 2 (seconds d))
unfolding seconds
seconds-IsWithin d h =
    let near =
      parts (d / 1_000_000_000) (d % 1_000_000_000) _ _ _ _ (omega arith) (omega arith)
        (quotient-IsRounded _ 1 (omega arith)) (quotient-IsRounded _ 1_000_000_000 (omega arith))
        (sum-IsRounded _ _) (scaled-IsNear 2 _) in
    record { above = omega arith; below = omega arith }

-- The text of a duration that is not negative stands for it, in the largest of the four units that
-- it reaches: exactly in nanoseconds, within half a digit in microseconds, within half a digit and a
-- microsecond in milliseconds, whose last digits are cut off first, and within half a digit and 4
-- microseconds in seconds.
pub format_duration-IsShown : (d : ℕ) → d < 2 ^ 63 → IsShown d (format_duration (pos d))
unfolding format_duration
format_duration-IsShown d h = elim (Bool-cases (ltb d 1_000)) [
  | inl ns ↦ rw ns (nanoseconds (ground arith))
  | inr from_micro ↦ rw from_micro (elim (Bool-cases (ltb d 1_000_000)) [
    | inl micro ↦ rw micro (IsShown-micro d (ground arith) (ground arith))
    | inr from_milli ↦ rw from_milli (elim (Bool-cases (ltb d 1_000_000_000)) [
      | inl milli ↦ rw milli (IsShown-milli d (ground arith) (ground arith))
      | inr rest ↦ rw (rest, fixed_lem) (whole _ (ground arith) (seconds-IsWithin d h))
    ])
  ])
]
