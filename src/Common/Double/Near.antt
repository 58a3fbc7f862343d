-- ===== src/Common/Double/Near.antt =====
-- How far roundings are from what they round.
use native.Mathlib.Nat.{
  mod-lt, mul-pos, one-le-pow, pow-suc, div-mul-le_self, div-add-mod', mul-le-mul_right,
}
use proxy_common.Common.{
  ℕ, zero, suc, ◌+◌, ◌-◌, ◌*◌, ◌/◌, ◌%◌, ◌^◌, ◌<◌, ◌≤◌, ◌≡◌, refl, subst, arith, ltb, leb, ap, ◌∙◌,
  ◌==◌, Bool-cases, inl, inr, if◌then◌else◌,
}
use proxy_common.Common.Double.{nearest, bits, unit, rounded, quotient, sum, scaled}

-- Twice `n` times a number is within `n` of twice `m`.
pub record IsNear (m n q : ℕ) : Type 0 where
  pub above : 2 * m ≤ 2 * (q * n) + n
  pub below : 2 * (q * n) ≤ 2 * m + n

IsNear-down : (q r n : ℕ) → 2 * r ≤ n → IsNear (q * n + r) n q
IsNear-down q r n h = record { above = omega arith; below = omega arith }

IsNear-up : (q r n : ℕ) → n ≤ 2 * r → r < n → IsNear (q * n + r) n (suc q)
IsNear-up q r n h lt = record { above = omega arith; below = omega arith }

IsNear-even : (q r n : ℕ) → n ≡ 2 * r → r < n → IsNear (q * n + r) n (q + q % 2)
IsNear-even q r n h lt = elim (Bool-cases (q % 2 == 0)) [
  | inl even ↦ let e : q + q % 2 ≡ q = ground arith in rw e (IsNear-down q r n (omega arith))
  | inr odd ↦ let e : q + q % 2 ≡ suc q = ground arith in rw e (IsNear-up q r n (omega arith) lt)
]

IsNear-quot :
    (q r n : ℕ)
    → r < n
    → IsNear (q * n + r) n (if ltb (2 * r) n then q else if ltb n (2 * r) then suc q else q + q % 2)
IsNear-quot q r n h = elim (Bool-cases (ltb (2 * r) n)) [
  | inl small ↦ rw small (IsNear-down q r n (ground arith))
  | inr large ↦ rw large (elim (Bool-cases (ltb n (2 * r))) [
    | inl above ↦ rw above (IsNear-up q r n (ground arith) h)
    | inr half ↦ rw half (IsNear-even q r n (ground arith) h)
  ])
]

pub nearest-IsNear : (m n : ℕ) → 0 < n → IsNear m n (nearest m n)
unfolding nearest
nearest-IsNear m n h =
    subst (λ x. IsNear x n (nearest m n)) (div-add-mod' m n)
      (IsNear-quot (m / n) (m % n) n (mod-lt m h))

pub bits-zero : (fuel : ℕ) → bits fuel 0 ≡ 0
unfolding bits
bits-zero zero = refl
bits-zero (suc fuel) = refl

pub bits-suc : (fuel n : ℕ) → bits (suc fuel) (suc n) ≡ suc (bits fuel (suc n / 2))
unfolding bits
bits-suc fuel n = ground arith

pub bits-none : (n : ℕ) → bits 0 n ≡ 0
unfolding bits
bits-none n = refl

bits_bound : (fuel n : ℕ) → 0 < n → 2 ^ bits fuel n ≤ 2 * n
bits_bound fuel zero h = elim h [ ]
bits_bound zero (suc n) h = rw bits-none (omega arith)
bits_bound (suc fuel) (suc zero) h = rw (bits-suc fuel 0, bits-zero fuel) (omega arith)
bits_bound (suc fuel) (suc (suc n)) h =
    let rest = bits_bound fuel (suc (suc n) / 2) (omega arith) in rw bits-suc (omega arith)

pow-shift : (k : ℕ) → 2 ^ (53 + k) ≡ 2 ^ 53 * 2 ^ k
pow-shift zero = refl
pow-shift (suc k) =
    let e : 53 + suc k ≡ suc (53 + k) = omega arith in
    ap (λ x. 2 ^ x) e ∙ omega (arith, pow-suc 2 (53 + k), pow-suc 2 k, pow-shift k)

digit_bound : (b n : ℕ) → 2 ^ b ≤ 2 * n → 2 ^ (b - 53) * 2 ^ 52 ≤ n + 2 ^ 52
digit_bound b n h = elim (Bool-cases (leb b 53)) [
  | inl few ↦ let e : b - 53 ≡ 0 = ground arith in rw e (omega arith)
  | inr many ↦
      let e : b ≡ 53 + (b - 53) = ground arith in
      let shift = subst (λ x. 2 ^ x ≤ 2 * n) e h in omega (arith, pow-shift (b - 53))
]

bits-digit : (fuel n : ℕ) → 2 ^ (bits fuel n - 53) * 2 ^ 52 ≤ n + 2 ^ 52
bits-digit fuel zero = rw bits-zero (omega arith)
bits-digit fuel (suc n) =
    digit_bound (bits fuel (suc n)) (suc n) (bits_bound fuel (suc n) (omega arith))

unit_bound : (fuel m n : ℕ) → n * unit fuel m n * 2 ^ 52 ≤ m * 2 ^ 96 + n * 2 ^ 52
unfolding unit
unit_bound fuel m n =
    let back : m * 2 ^ 96 / n * n ≤ m * 2 ^ 96 = div-mul-le_self _ _ in
    let scaled = mul-le-mul_right n (bits-digit fuel (m * 2 ^ 96 / n)) in grind arith

-- A double `x` is near to a quotient: the error of the product with `n`, twice, in units of 2^-96.
pub record IsRounded (m n x : ℕ) : Type 0 where
  pub error : ℕ
  pub small : error * 2 ^ 52 ≤ m * 2 ^ 96 + n * 2 ^ 52
  pub above : 2 * (m * 2 ^ 96) ≤ 2 * (x * n) + error
  pub below : 2 * (x * n) ≤ 2 * (m * 2 ^ 96) + error

near_product :
    (m n q u : ℕ)
    → n * u * 2 ^ 52 ≤ m * 2 ^ 96 + n * 2 ^ 52
    → IsNear (m * 2 ^ 96) (n * u) q
    → IsRounded m n (q * u)
near_product m n q u small near = record {
  error = n * u;
  small = small;
  above = grind arith;
  below = grind arith;
}

pub rounded-IsRounded : (fuel m n : ℕ) → 0 < n → IsRounded m n (rounded fuel m n)
unfolding rounded
rounded-IsRounded fuel m n h =
    near_product m n (nearest (m * 2 ^ 96) (n * unit fuel m n)) (unit fuel m n)
      (unit_bound fuel m n)
      (nearest-IsNear (m * 2 ^ 96) (n * unit fuel m n)
        (mul-pos h (one-le-pow (bits fuel (m * 2 ^ 96 / n) - 53) 2 (omega arith))))

pub quotient-IsRounded : (m n : ℕ) → 0 < n → IsRounded m n (quotient m n)
unfolding quotient
quotient-IsRounded m n h = rounded-IsRounded 160 m n h

pub sum-IsRounded : (x y : ℕ) → IsRounded (x + y) (2 ^ 96) (sum x y)
unfolding sum
sum-IsRounded x y = quotient-IsRounded (x + y) (2 ^ 96) (omega arith)

pub scaled-IsNear : (places x : ℕ) → IsNear (x * 10 ^ places) (2 ^ 96) (scaled places x)
unfolding scaled
scaled-IsNear places x = nearest-IsNear (x * 10 ^ places) (2 ^ 96) (omega arith)
