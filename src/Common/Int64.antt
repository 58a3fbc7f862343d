-- ===== src/Common/Int64.antt =====
-- Go's `int64` arithmetic, `time.Duration` in nanoseconds and seconds included. A result that does
-- not fit wraps around.
use proxy_common.Common.{
  ℕ, suc, ◌+◌, ◌-◌, ◌*◌, ◌/◌, ◌%◌, ◌^◌, ◌<◌, ◌≡◌, refl, arith, ℤ, pos, negsuc, sub_ℕ, ◌+ℤ◌, ◌-ℤ◌,
  ◌≤ℤ◌, ◌<ℤ◌, scale,
}
use proxy_common.Common.Double.{seconds}
use proxy_common.Common.Double.Exact.{seconds_whole}

unfoldable pub wrap64 : ℤ → ℤ
wrap64 (pos n) = sub_ℕ ((n + 2 ^ 63) % 2 ^ 64) (2 ^ 63)
wrap64 (negsuc n) = sub_ℕ (2 ^ 64 - 1 - (n + 2 ^ 63) % 2 ^ 64) (2 ^ 63)

abbrev pub Fits : ℤ → Type 0
Fits a = (negsuc (2 ^ 63 - 1) ≤ℤ a) × (a <ℤ pos (2 ^ 63))

pub wrap64_fits : (a : ℤ) → Fits a → wrap64 a ≡ a
unfolding wrap64
wrap64_fits (pos n) h = ground arith
wrap64_fits (negsuc n) h = ground arith

unfoldable pub add64 : ℤ → ℤ → ℤ
add64 a b = wrap64 (a +ℤ b)

unfoldable pub sub64 : ℤ → ℤ → ℤ
sub64 a b = wrap64 (a -ℤ b)

-- `time.Second`, a second in nanoseconds
abbrev pub second : ℕ
second = 1_000_000_000

-- `time.Duration(s) * time.Second`
unfoldable pub seconds64 : ℤ → ℤ
seconds64 s = wrap64 (scale second s)

-- `int64(d.Seconds())`: a double that is cut off toward 0
unfoldable pub whole_seconds : ℤ → ℤ
unfolding seconds
whole_seconds (pos d) = pos (seconds d / 2 ^ 96)
whole_seconds (negsuc d) = sub_ℕ 0 (seconds (suc d) / 2 ^ 96)

whole_seconds_cases :
    (d : ℕ)
    → (whole_seconds (pos d) ≡ pos (seconds d / 2 ^ 96))
      × (whole_seconds (negsuc d) ≡ sub_ℕ 0 (seconds (suc d) / 2 ^ 96))
unfolding whole_seconds
whole_seconds_cases d = (refl, refl)

whole_seconds-scale : (s : ℤ) → Fits (scale second s) → whole_seconds (scale second s) ≡ s
whole_seconds-scale (pos n) h =
    let e : scale second (pos n) ≡ pos (second * n) = unfold scale in ground arith in
    let small : n < 2 ^ 53 = unfold scale in ground arith in
    let cut = seconds_whole n (second * n) (omega arith) small in
    rw (e, (whole_seconds_cases (second * n)).0, cut) refl
whole_seconds-scale (negsuc n) h =
    let e : scale second (negsuc n) ≡ negsuc (second * suc n - 1) = unfold scale in ground arith in
    let small : suc n < 2 ^ 53 = unfold scale in ground arith in
    let cut = seconds_whole (suc n) (suc (second * suc n - 1)) (omega arith) small in
    rw (e, (whole_seconds_cases (second * suc n - 1)).1, cut) (ground arith)

-- Doubles represent whole seconds exactly.
pub whole_seconds-seconds64 : (s : ℤ) → Fits (scale second s) → whole_seconds (seconds64 s) ≡ s
unfolding seconds64
whole_seconds-seconds64 s h = rw (wrap64_fits (scale second s) h) (whole_seconds-scale s h)
