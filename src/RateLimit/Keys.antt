-- ===== src/RateLimit/Keys.antt =====
-- The map key of `limiterMapKey` (ratelimit/manager.go).
use proxy_common.Common.{
  ℕ, ◌+◌, ◌*◌, ◌-◌, ◌<◌, ◌≤◌, ◌%◌, ◌^◌, ◌≡◌, refl, sym, ap, ◌∙◌, ◌⊎◌, ◌↔◌, true, false, inl, inr,
  ◌&&◌, ◌||◌, [], ◌∷◌, ◌++◌, arith, Bool-cases, ltb→lt, ltb, leb, pos, if◌then◌else◌,
}
use proxy_common.Common.Bytes.{Bytes, codes, tail_of}
use proxy_common.RateLimit.{to_rune, rune_text, type_text, limiter_map_key}

-- a Unicode scalar value
abbrev pub IsRune : ℕ → Type 0
IsRune n = (n < 55296) ⊎ ((57343 < n) × (n < 1114112))

-- the first rune of a text, and the text behind it
decode_rune : Bytes → ℕ × Bytes
decode_rune [] = (0, [])
decode_rune (a ∷ []) = (a, [])
decode_rune (a ∷ b ∷ []) = if ltb a 128 then (a, b ∷ []) else ((a - 192) * 64 + (b - 128), [])
decode_rune (a ∷ b ∷ c ∷ []) =
    if ltb a 128
    then (a, b ∷ c ∷ [])
    else if ltb a 224
    then ((a - 192) * 64 + (b - 128), c ∷ [])
    else ((a - 224) * 4096 + (b - 128) * 64 + (c - 128), [])
decode_rune (a ∷ b ∷ c ∷ d ∷ s) =
    if ltb a 128
    then (a, b ∷ c ∷ d ∷ s)
    else if ltb a 224
    then ((a - 192) * 64 + (b - 128), c ∷ d ∷ s)
    else if ltb a 240
    then ((a - 224) * 4096 + (b - 128) * 64 + (c - 128), d ∷ s)
    else ((a - 240) * 262144 + (b - 128) * 4096 + (c - 128) * 64 + (d - 128), s)

decode_one : (n : ℕ) (s : Bytes) → n < 128 → decode_rune (n ∷ 124 ∷ s) ≡ (n, 124 ∷ s)
unfolding decode_rune
decode_one n [] h = ground arith
decode_one n (a ∷ []) h = ground arith
decode_one n (a ∷ b ∷ s) h = ground arith

decode_two :
    (a b : ℕ) (s : Bytes)
    → 128 ≤ a
    → a < 224
    → decode_rune (a ∷ b ∷ 124 ∷ s) ≡ ((a - 192) * 64 + (b - 128), 124 ∷ s)
unfolding decode_rune
decode_two a b [] low high = ground arith
decode_two a b (c ∷ s) low high = ground arith

decode_three :
    (a b c : ℕ) (s : Bytes)
    → 224 ≤ a
    → a < 240
    → decode_rune (a ∷ b ∷ c ∷ 124 ∷ s) ≡ ((a - 224) * 4096 + (b - 128) * 64 + (c - 128), 124 ∷ s)
unfolding decode_rune
decode_three a b c s low high = ground arith

decode_four :
    (a b c d : ℕ) (s : Bytes)
    → 240 ≤ a
    → decode_rune (a ∷ b ∷ c ∷ d ∷ 124 ∷ s)
      ≡ ((a - 240) * 262144 + (b - 128) * 4096 + (c - 128) * 64 + (d - 128), 124 ∷ s)
unfolding decode_rune
decode_four a b c d s low = ground arith

-- the rune's text is read back as the rune
decode_rune-rune_text :
    (n : ℕ) (s : Bytes)
    → IsRune n
    → decode_rune (rune_text n ++ codes "|" ++ s) ≡ (n, codes "|" ++ s)
unfolding rune_text
decode_rune-rune_text n s h = elim (Bool-cases (ltb n 128)) [
  | inl one ↦ rw one (decode_one n s (ltb→lt n 128 one))
  | inr more ↦ elim (Bool-cases (ltb n 2048)) [
    | inl two ↦
        let low : 128 ≤ n = ground arith in
        let high : n < 2048 = ltb→lt n 2048 two in
        rw (more, two)
          (decode_two _ _ s (omega arith) (omega arith) ∙ ap (λ k. (k, 124 ∷ s)) (omega arith))
    | inr more' ↦
        let valid : ((leb 55296 n && leb n 57343) || leb 1114112 n) ≡ false = ground arith in
        elim (Bool-cases (ltb n 65536)) [
          | inl three ↦
              let low : 2048 ≤ n = ground arith in
              let high : n < 65536 = ltb→lt n 65536 three in
              rw (more, more', valid, three)
                (decode_three _ _ _ s (omega arith) (omega arith)
                  ∙ ap (λ k. (k, 124 ∷ s)) (omega arith))
          | inr four ↦
              let low : 65536 ≤ n = ground arith in
              rw (more, more', valid, four)
                (decode_four _ _ _ _ s (omega arith) ∙ ap (λ k. (k, 124 ∷ s)) (omega arith))
        ]
  ]
]

type_text-rune_text : (n : ℕ) → IsRune n → type_text (pos n) ≡ rune_text n
unfolding type_text to_rune
type_text-rune_text n h =
    let same : n % 2 ^ 32 ≡ n = ground arith in
    let small : ltb n (2 ^ 31) ≡ true = ground arith in rw (type_text, to_rune, same, small) refl

decode_rune-limiter_map_key :
    (key : Bytes) (n : ℕ)
    → IsRune n
    → decode_rune (limiter_map_key key (pos n)) ≡ (n, codes "|" ++ key)
unfolding limiter_map_key
decode_rune-limiter_map_key key n h = rw (type_text-rune_text n h) (decode_rune-rune_text n key h)

-- For key types that are Unicode scalar values, two pairs of a key and a type have the same map key
-- only if they are the same pair.
pub limiter_map_key-injective :
    (key key' : Bytes) (n n' : ℕ)
    → IsRune n
    → IsRune n'
    → (limiter_map_key key (pos n) ≡ limiter_map_key key' (pos n')) ↔ ((key ≡ key') × (n ≡ n'))
unfolding tail_of
limiter_map_key-injective key key' n n' h h' = (
  λ e.
      let same : (n, codes "|" ++ key) ≡ (n', codes "|" ++ key') =
        sym (decode_rune-limiter_map_key key n h)
        ∙ ap decode_rune e
        ∙ decode_rune-limiter_map_key key' n' h' in
      (ap (λ p. tail_of p.1) same, ap (λ p. p.0) same),
  λ (e, f). rw (e, f) refl,
)
