-- ===== src/Common/Double.antt =====
-- Numbers of `float64` that are not negative: what the code computes with them and prints. A number
-- is given in units of 2^-96, as a natural number; those between 2^-43 and 2^64 have no smaller part.
pub mod Near
pub mod Exact
use proxy_common.Common.{
  ℕ, zero, suc, ◌+◌, ◌-◌, ◌*◌, ◌/◌, ◌%◌, ◌^◌, [], ◌∷◌, ◌++◌, ltb, ◌==◌, if◌then◌else◌,
}
use proxy_common.Common.Bytes.{Bytes}
use proxy_common.Common.Decimal.{decimal}

-- the natural number that is nearest to a quotient; of two it is the even one
unfoldable pub nearest : ℕ → ℕ → ℕ
nearest m n =
    let q = m / n in
    let r = m % n in if ltb (2 * r) n then q else if ltb n (2 * r) then suc q else q + q % 2

-- the number of binary digits, on fuel
unfoldable pub bits : ℕ → ℕ → ℕ
bits zero n = 0
bits (suc fuel) n = let rest = bits fuel (n / 2) in if n == 0 then 0 else suc rest

-- The last binary digit of the double that is nearest to a quotient: there are 53 from it upward. The
-- fuel is a bound on the digits of the quotient in units of 2^-96.
unfoldable pub unit : ℕ → ℕ → ℕ → ℕ
unfolding bits
unit fuel m n = 2 ^ (bits fuel (m * 2 ^ 96 / n) - 53)

unfoldable pub rounded : ℕ → ℕ → ℕ → ℕ
unfolding nearest unit
rounded fuel m n = nearest (m * 2 ^ 96) (n * unit fuel m n) * unit fuel m n

-- the double that is nearest to a quotient below 2^64
unfoldable pub quotient : ℕ → ℕ → ℕ
unfolding rounded
quotient m n = rounded 160 m n

unfoldable pub sum : ℕ → ℕ → ℕ
unfolding quotient
sum x y = quotient (x + y) (2 ^ 96)

-- `Duration.Seconds`, of nanoseconds
unfoldable pub seconds : ℕ → ℕ
unfolding quotient sum
seconds d = sum (quotient (d / 1_000_000_000) 1) (quotient (d % 1_000_000_000) 1_000_000_000)

-- a double in decimal units, as many behind the point as `places`
unfoldable pub scaled : ℕ → ℕ → ℕ
unfolding nearest
scaled places x = nearest (x * 10 ^ places) (2 ^ 96)

-- the last digits of a number
unfoldable pub last_digits : ℕ → ℕ → Bytes
last_digits zero n = []
last_digits (suc places) n = last_digits places (n / 10) ++ (48 + n % 10) ∷ []

-- a number with a point in front of its last digits
unfoldable pub with_point : ℕ → ℕ → Bytes
unfolding last_digits
with_point places n = decimal (n / 10 ^ places) ++ 46 ∷ last_digits places n

-- `%.1f` for one place
unfoldable pub fixed : ℕ → ℕ → Bytes
unfolding scaled with_point
fixed places x = with_point places (scaled places x)
