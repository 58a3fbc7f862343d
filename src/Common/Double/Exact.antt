-- ===== src/Common/Double/Exact.antt =====
-- Quotients that are whole numbers, which the doubles below 2^53 represent.

use native.Mathlib.Nat.{mul-div_cancel, mul-mod_left, mul-pos, pow-suc}
use proxy_common.Common.{
  sym, ℕ, zero, suc, ◌+◌, ◌-◌, ◌*◌, ◌/◌, ◌%◌, ◌^◌, ◌<◌, ◌≤◌, ◌≡◌, ap, ◌∙◌, subst, arith,
}
use proxy_common.Common.Double.{nearest, bits, unit, rounded, quotient, sum, seconds}
use proxy_common.Common.Double.Near.{bits-zero, bits-suc, bits-none}

bits-le : (fuel k n : ℕ) → n < 2 ^ k → bits fuel n ≤ k
bits-le zero k n h = rw bits-none (omega arith)
bits-le (suc fuel) k zero h = rw bits-zero (omega arith)
bits-le (suc fuel) zero (suc n) h = omega arith
bits-le (suc fuel) (suc k) (suc n) h =
    let half : suc n / 2 < 2 ^ k = omega (arith, pow-suc 2 k) in
    let rest : bits fuel (suc n / 2) ≤ k = bits-le fuel k (suc n / 2) half in
    rw bits-suc (omega arith)

nearest_exact : (k c : ℕ) → 0 < c → nearest (k * c) c ≡ k
unfolding nearest
nearest_exact k c h =
    let q : k * c / c ≡ k = mul-div_cancel k h in
    let r : k * c % c ≡ 0 = mul-mod_left k c in rw (q, r) (ground arith)

pow_split : (j k : ℕ) → 2 ^ j * 2 ^ k ≡ 2 ^ (j + k)
pow_split zero k = let e : 0 + k ≡ k = omega arith in rw e (omega arith)
pow_split (suc j) k = grind (arith, pow-suc 2 j, pow-suc 2 (j + k), pow_split j k)

-- the unit of a whole number, which divides 1
unit_exact : (fuel s n : ℕ) → 0 < n → s < 2 ^ 53 → (j : ℕ) × (unit fuel (s * n) n * 2 ^ j ≡ 2 ^ 96)
unfolding unit
unit_exact fuel s n h small =
    let cancel : s * n * 2 ^ 96 / n ≡ s * 2 ^ 96 =
      let order : s * n * 2 ^ 96 ≡ s * 2 ^ 96 * n = grind arith in
      ap (λ x. x / n) order ∙ mul-div_cancel (s * 2 ^ 96) h in
    let few : bits fuel (s * 2 ^ 96) ≤ 149 = bits-le fuel 149 (s * 2 ^ 96) (omega arith) in
    let all : bits fuel (s * 2 ^ 96) - 53 + (96 - (bits fuel (s * 2 ^ 96) - 53)) ≡ 96 =
      omega arith in
    (
      96 - (bits fuel (s * 2 ^ 96) - 53),
      rw cancel (pow_split (bits fuel (s * 2 ^ 96) - 53) _ ∙ ap (λ x. 2 ^ x) all),
    )

nearest_whole :
    (s n u v : ℕ) → 0 < n → u * v ≡ 2 ^ 96 → nearest (s * n * 2 ^ 96) (n * u) * u ≡ s * 2 ^ 96
nearest_whole s n zero v h e = omega arith
nearest_whole s n (suc u) v h e =
    let split : s * n * 2 ^ 96 ≡ s * v * (n * suc u) =
      subst (λ x. s * n * x ≡ s * v * (n * suc u)) e (grind arith) in
    let back : s * v * suc u ≡ s * 2 ^ 96 = subst (λ x. s * v * suc u ≡ s * x) e (grind arith) in
    rw (split, nearest_exact (s * v) (n * suc u) (mul-pos h (omega arith))) back

pub rounded_exact : (fuel s n : ℕ) → 0 < n → s < 2 ^ 53 → rounded fuel (s * n) n ≡ s * 2 ^ 96
unfolding rounded
rounded_exact fuel s n h small =
    let (j, e) = unit_exact fuel s n h small in nearest_whole s n (unit fuel (s * n) n) (2 ^ j) h e

pub quotient_whole : (s : ℕ) → s < 2 ^ 53 → quotient s 1 / 2 ^ 96 ≡ s
unfolding quotient
quotient_whole s small =
    let one : s ≡ s * 1 = omega arith in
    let exact : rounded 160 s 1 ≡ s * 2 ^ 96 =
      subst (λ x. rounded 160 x 1 ≡ s * 2 ^ 96) (sym one)
        (rounded_exact 160 s 1 (omega arith) small) in
    rw exact (omega arith)

seconds_exact : (s d : ℕ) → d ≡ s * 1_000_000_000 → s < 2 ^ 53 → seconds d ≡ s * 2 ^ 96
unfolding seconds quotient sum
seconds_exact s d e small =
    let whole : d / 1_000_000_000 ≡ s * 1 = omega arith in
    let part : d % 1_000_000_000 ≡ 0 * 1_000_000_000 = omega arith in
    let first = rounded_exact 160 s 1 (omega arith) small in
    let second = rounded_exact 160 0 1_000_000_000 (omega arith) (omega arith) in
    let none : s * 2 ^ 96 + 0 * 2 ^ 96 ≡ s * 2 ^ 96 = omega arith in
    rw (whole, part, first, second, none) (rounded_exact 160 s (2 ^ 96) (omega arith) small)

pub seconds_whole : (s d : ℕ) → d ≡ s * 1_000_000_000 → s < 2 ^ 53 → seconds d / 2 ^ 96 ≡ s
seconds_whole s d e small = rw (seconds_exact s d e small) (omega arith)
