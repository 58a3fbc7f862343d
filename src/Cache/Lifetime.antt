-- ===== src/Cache/Lifetime.antt =====
-- The deadlines of an entry, and of its copy with the remaining time-to-live
-- (`RemainingTTL` of models/cache.go with `Set` of the cache levels).
use proxy_common.Common.{
  ◌^◌, ◌≡◌, refl, inl, inr, true, false, arith, ℤ, pos, negsuc, ◌+ℤ◌, ◌-ℤ◌, ◌≤ℤ◌, ◌<ℤ◌, ltb_ℤ,
  int_laws, scale, if◌then◌else◌, Bool-cases, lt→ltb, ltb_ℤ-false, ◌∙◌, +ℤ_parts, -ℤ_parts,
}
use proxy_common.Common.Int64.{
  Fits, wrap64_fits, add64, sub64, seconds64, whole_seconds, second, whole_seconds-seconds64,
}
use proxy_common.Models.{CacheEntry, is_expired, is_fresh, remaining_ttl, at_least_zero}
use proxy_common.Cache.{new_entry}

-- A time of the Unix clock, or a span in seconds, far from the bounds of `int64` nanoseconds:
-- between 0 and 2^32.
abbrev pub IsSane : ℤ → Type 0
IsSane a = (pos 0 ≤ℤ a) × (a <ℤ pos (2 ^ 32))

abbrev pub max_ℤ : ℤ → ℤ → ℤ
max_ℤ a b = if ltb_ℤ a b then b else a

at_least_zero_sub :
    (a b : ℤ) → IsSane a → IsSane b → at_least_zero (sub64 a b) ≡ max_ℤ (a -ℤ b) (pos 0)
unfolding at_least_zero sub64
at_least_zero_sub a b ha hb =
    let fits : Fits (a -ℤ b) = omega int_laws in rw (wrap64_fits (a -ℤ b) fits)

scale_fits : (a : ℤ) → IsSane a → Fits (scale second a)
unfolding scale
scale_fits (pos n) h = ground arith
scale_fits (negsuc n) h = absurd (omega arith)

max_sub-IsSane : (a b : ℤ) → IsSane a → IsSane b → IsSane (max_ℤ (a -ℤ b) (pos 0))
max_sub-IsSane a b ha hb = elim (Bool-cases (ltb_ℤ (a -ℤ b) (pos 0))) [
  | inl p ↦ rw p (omega arith)
  | inr p ↦ let q : pos 0 ≤ℤ (a -ℤ b) = ground arith in rw p (omega int_laws)
]

span_seconds :
    (a b : ℤ)
    → IsSane a
    → IsSane b
    → whole_seconds (seconds64 (at_least_zero (sub64 a b))) ≡ max_ℤ (a -ℤ b) (pos 0)
span_seconds a b ha hb =
    rw (at_least_zero_sub a b ha hb)
      (whole_seconds-seconds64 (max_ℤ (a -ℤ b) (pos 0)) (scale_fits _ (max_sub-IsSane a b ha hb)))

add64_sane : (a b : ℤ) → pos 0 ≤ℤ a → a <ℤ pos (2 ^ 34) → IsSane b → add64 a b ≡ a +ℤ b
unfolding add64
add64_sane a b low high hb = let fits : Fits (a +ℤ b) = omega int_laws in wrap64_fits (a +ℤ b) fits

add_max_sub : (a b : ℤ) → b +ℤ max_ℤ (a -ℤ b) (pos 0) ≡ max_ℤ a b
add_max_sub a b = elim (Bool-cases (ltb_ℤ (a -ℤ b) (pos 0))) [
  | inl p ↦
      let q : (a -ℤ b) <ℤ pos 0 = ground arith in
      let r : ltb_ℤ a b ≡ true = lt→ltb _ _ (omega int_laws) in rw (p, r) (omega int_laws)
  | inr p ↦
      let q : pos 0 ≤ℤ (a -ℤ b) = ground arith in
      let r : ltb_ℤ a b ≡ false = ltb_ℤ-false a b (omega int_laws) in rw (p, r) (omega int_laws)
]

module _ (now : ℤ) (e : CacheEntry) (hn : IsSane now) (hs : IsSane e.stale_at)
    (he : IsSane e.expires_at) where
  -- the copy that a later `Set` makes of an entry with its remaining time-to-live
  abbrev pub copy : CacheEntry
  copy = new_entry now e.payload (remaining_ttl now e)

  pub copy-stale_at : copy.stale_at ≡ max_ℤ e.stale_at now
  unfolding new_entry remaining_ttl
  copy-stale_at = rw (span_seconds e.stale_at now hs hn) (
      add64_sane now _ hn.0 (omega (arith, hn.1)) (max_sub-IsSane e.stale_at now hs hn)
      ∙ add_max_sub e.stale_at now)

  pub copy-expires_at :
      copy.expires_at ≡ max_ℤ e.stale_at now +ℤ max_ℤ (e.expires_at -ℤ e.stale_at) (pos 0)
  unfolding new_entry remaining_ttl
  copy-expires_at =
      let s : add64 now (whole_seconds (remaining_ttl now e).fresh) ≡ max_ℤ e.stale_at now =
        copy-stale_at in
      rw (s, span_seconds e.expires_at e.stale_at he hs)
        (elim (Bool-cases (ltb_ℤ e.stale_at now)) [
          | inl p ↦ rw p (
              add64_sane now _ hn.0 (omega (arith, hn.1))
                (max_sub-IsSane e.expires_at e.stale_at he hs))
          | inr p ↦ rw p (
              add64_sane e.stale_at _ hs.0 (omega (arith, hs.1))
                (max_sub-IsSane e.expires_at e.stale_at he hs))
        ])

  -- The copy of a fresh entry with its remaining time-to-live has the deadlines of the entry, if
  -- the entry does not expire before it is stale; all times are between 0 and 2^32.
  fresh_copy :
      is_fresh now e ≡ true
      → e.stale_at ≤ℤ e.expires_at
      → (copy.payload ≡ e.payload) × (copy.stale_at ≡ e.stale_at) × (copy.expires_at ≡ e.expires_at)
  unfolding is_fresh
  fresh_copy f le =
      let p : ltb_ℤ e.stale_at now ≡ false = ground arith in
      let q : ltb_ℤ (e.expires_at -ℤ e.stale_at) (pos 0) ≡ false =
        ltb_ℤ-false (e.expires_at -ℤ e.stale_at) (pos 0) (omega int_laws) in
      (unfold new_entry in refl, rw (copy-stale_at, p), rw (copy-expires_at, p, q) (omega int_laws))

  -- The copy of an entry that is stale and has not expired is fresh again at the time of the copy,
  -- and expires later than the entry: by as many seconds as the entry has been stale. All times are
  -- between 0 and 2^32.
  pub stale_copy :
      is_fresh now e ≡ false
      → is_expired now e ≡ false
      → (is_fresh now copy ≡ true)
        × (copy.expires_at ≡ e.expires_at +ℤ (now -ℤ e.stale_at))
        × (e.expires_at <ℤ copy.expires_at)
  unfolding is_fresh is_expired
  stale_copy f x =
      let p : ltb_ℤ e.stale_at now ≡ true = ground arith in
      let le : e.stale_at ≤ℤ e.expires_at = ground arith in
      let q : ltb_ℤ (e.expires_at -ℤ e.stale_at) (pos 0) ≡ false =
        ltb_ℤ-false (e.expires_at -ℤ e.stale_at) (pos 0) (omega int_laws) in
      let late : copy.expires_at ≡ e.expires_at +ℤ (now -ℤ e.stale_at) =
        rw (copy-expires_at, p, q) (omega int_laws) in
      (
        rw (copy-stale_at, p) (ground arith),
        late,
        rw late
            (ground (arith, +ℤ_parts e.expires_at (now -ℤ e.stale_at), -ℤ_parts now e.stale_at)),
      )
