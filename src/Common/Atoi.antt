-- ===== src/Common/Atoi.antt =====
-- `strconv.Atoi` of Go's standard library, on a 64-bit platform, and its round trip with `%d`.
use proxy_common.Common.{
  ℕ, zero, suc, ◌+◌, ◌-◌, ◌*◌, ◌/◌, ◌%◌, ◌^◌, ◌<◌, ◌≡◌, ap, ◌∙◌, Bool, true, false, ◌&&◌, Option,
  none, some, [], ◌∷◌, ◌++◌, arith, ℤ, pos, negsuc, sub_ℕ, ltb, leb, if◌then◌else◌, Bool-cases, inl,
  inr, ◌==◌,
}
use proxy_common.Common.Bytes.{Bytes}
use proxy_common.Common.Int64.{Fits}
use proxy_common.Common.Decimal.{digits, decimal, decimal_ℤ}

abbrev is_digit : ℕ → Bool
is_digit c = leb 48 c && leb c 57

-- the number that the digits stand for, from the digits read so far; `none` at any other byte
unfoldable pub parse_digits : ℕ → Bytes → Option ℕ
parse_digits acc [] = some acc
parse_digits acc (c ∷ s) =
    let rest = parse_digits (acc * 10 + (c - 48)) s in if is_digit c then rest else none

-- digits, at least one
unfoldable pub parse_number : Bytes → Option ℕ
unfolding parse_digits
parse_number [] = none
parse_number (c ∷ s) = parse_digits 0 (c ∷ s)

-- a number within the bounds of `int`, with its sign
unfoldable pub signed : Bool → Option ℕ → Option ℤ
signed negative none = none
signed false (some n) = if ltb n (2 ^ 63) then some (pos n) else none
signed true (some n) = if leb n (2 ^ 63) then some (sub_ℕ 0 n) else none

-- `strconv.Atoi`: an optional sign (`+` is byte 43, `-` is byte 45), then digits
unfoldable pub atoi : Bytes → Option ℤ
unfolding parse_number signed
atoi [] = none
atoi (c ∷ s) =
    if c == 45
    then signed true (parse_number s)
    else if c == 43
    then signed false (parse_number s)
    else signed false (parse_number (c ∷ s))

parse_digits-append :
    (acc d n : ℕ) (s : Bytes)
    → parse_digits acc s ≡ some n
    → d < 10
    → parse_digits acc (s ++ (48 + d) ∷ []) ≡ some (n * 10 + d)
unfolding parse_digits
parse_digits-append acc d n [] h lt = ground arith
parse_digits-append acc d n (c ∷ s) h lt =
    ground (arith, parse_digits-append (acc * 10 + (c - 48)) d n s)

parse_digits-digits : (fuel n : ℕ) → n < fuel → parse_digits 0 (digits fuel n) ≡ some n
unfolding digits
parse_digits-digits zero n h = absurd (omega arith)
parse_digits-digits (suc fuel) n h = elim (Bool-cases (ltb n 10)) [
  | inl small ↦ rw small (unfold parse_digits in ground arith)
  | inr big ↦
      let lt : n / 10 < fuel = ground arith in
      rw
        (
          big,
          parse_digits-append 0 (n % 10) (n / 10) (digits fuel (n / 10))
              (parse_digits-digits fuel (n / 10) lt) (omega arith),
        )
        (ap some (omega arith))
]

-- the first byte of a numeral is a digit
first_digit :
    (fuel n : ℕ) → n < fuel → (c : ℕ) × (s : Bytes) × (digits fuel n ≡ c ∷ s) × (leb 48 c ≡ true)
unfolding digits
first_digit zero n h = absurd (omega arith)
first_digit (suc fuel) n h = elim (Bool-cases (ltb n 10)) [
  | inl small ↦ (48 + n, [], rw small, ground arith)
  | inr big ↦
      let lt : n / 10 < fuel = ground arith in
      let (c, s, e, d) = first_digit fuel (n / 10) lt in
      (c, s ++ (48 + n % 10) ∷ [], rw (big, e), d)
]

parse_number-cons : (s : Bytes) (c : ℕ) (t : Bytes) → s ≡ c ∷ t → parse_number s ≡ parse_digits 0 s
unfolding parse_number
parse_number-cons s c t e = rw e

atoi-digit :
    (s : Bytes) (c : ℕ) (t : Bytes)
    → s ≡ c ∷ t
    → leb 48 c ≡ true
    → atoi s ≡ signed false (parse_number s)
unfolding atoi
atoi-digit s c t e d = rw e (ground arith)

parse_number-decimal : (n : ℕ) → parse_number (decimal n) ≡ some n
unfolding decimal
parse_number-decimal n =
    let (c, s, e, d) = first_digit (suc n) n (omega arith) in
    parse_number-cons (decimal n) c s e ∙ parse_digits-digits (suc n) n (omega arith)

-- what `%d` prints of an `int`, `Atoi` reads back
pub atoi-decimal_ℤ : (a : ℤ) → Fits a → atoi (decimal_ℤ a) ≡ some a
unfolding decimal_ℤ
atoi-decimal_ℤ (pos n) fits =
    let (c, s, e, d) = first_digit (suc n) n (omega arith) in
    atoi-digit (decimal n) c s e d ∙ rw (parse_number-decimal n) (unfold signed in ground arith)
atoi-decimal_ℤ (negsuc n) fits = unfold atoi in rw (parse_number-decimal (suc n)) (ground arith)
