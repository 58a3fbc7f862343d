-- ===== src/Cache/Multi/Copies.antt =====
-- What a read of a multi-level cache (cache/multi/multi.go) does to the caches before the one that
-- answers.
use proxy_common.Common.{
  ◌≡◌, refl, ap, ◌⊎◌, Bool, true, false, ◌&&◌, Option, none, some, List, [], ◌∷◌, map, ℤ, pos, ltb,
  ltb_ℤ, leb_ℤ, ◌≤ℤ◌, ◌<ℤ◌, if◌then◌else◌, length, Bool-cases, inl, inr, arith,
}
use proxy_common.Common.Bytes.{Bytes}
use proxy_common.Common.Int64.{sub64, seconds64}
use proxy_common.Models.{CacheEntry, Ttl, is_expired, remaining_ttl, at_least_zero}
use proxy_common.Cache.{CacheOps}
use proxy_common.Cache.Multi.{set_each, propagate}

module _ {S : Type 0} (ops : CacheOps S) (now : ℤ) (key : Bytes) where
  -- the nanoseconds from `b` to `a`, both in seconds, or none
  abbrev pub span : ℤ → ℤ → ℤ
  span a b = seconds64 (if ltb_ℤ (sub64 a b) (pos 0) then pos 0 else sub64 a b)

  -- What becomes of the caches before the one that answers, at its entry: with propagation, and if the
  -- entry has not expired and something of its spans remains, each is set to its payload with these.
  pub data Copied : Bool → Option CacheEntry → List S → List S → Type 0 where
    none_before : (allowed : Bool) (found : Option CacheEntry) → Copied allowed found [] []
    disabled : (found : Option CacheEntry) (caches : List S) → Copied false found caches caches
    no_entry : (allowed : Bool) (caches : List S) → Copied allowed none caches caches
    expired :
        (e : CacheEntry) (caches : List S)
        → e.expires_at <ℤ now
        → Copied true (some e) caches caches
    spent :
        (e : CacheEntry) (caches : List S)
        → span e.stale_at now ≤ℤ pos 0
        → span e.expires_at e.stale_at ≤ℤ pos 0
        → Copied true (some e) caches caches
    set_all :
        (e : CacheEntry) (caches : List S)
        → now ≤ℤ e.expires_at
        → (pos 0 <ℤ span e.stale_at now) ⊎ (pos 0 <ℤ span e.expires_at e.stale_at)
        → Copied true (some e) caches (
            map
              (λ c.
                ops.set now key e.payload
                  (record { fresh = span e.stale_at now; stale = span e.expires_at e.stale_at })
                  c)
              caches)

  set_each-map :
      (val : Bytes) (ttl : Ttl) (caches : List S)
      → set_each ops now key val ttl caches ≡ map (λ c. ops.set now key val ttl c) caches
  unfolding set_each
  set_each-map val ttl [] = refl
  set_each-map val ttl (c ∷ caches) =
      ap (◌∷◌ (ops.set now key val ttl c)) (set_each-map val ttl caches)

  remaining :
      (e : CacheEntry)
      → remaining_ttl now e
        ≡ record { fresh = span e.stale_at now; stale = span e.expires_at e.stale_at }
  unfolding remaining_ttl at_least_zero
  remaining e = refl

  propagate-expired :
      (e : CacheEntry) (caches : List S)
      → ltb_ℤ e.expires_at now ≡ true
      → propagate ops now key (some e) caches ≡ caches
  unfolding propagate is_expired
  propagate-expired e caches old = rw old

  propagate-spent :
      (e : CacheEntry) (caches : List S)
      → ltb_ℤ e.expires_at now ≡ false
      → (leb_ℤ (span e.stale_at now) (pos 0) && leb_ℤ (span e.expires_at e.stale_at) (pos 0)) ≡ true
      → propagate ops now key (some e) caches ≡ caches
  unfolding propagate is_expired
  propagate-spent e caches live over = rw (live, remaining e, over)

  propagate-live :
      (e : CacheEntry) (caches : List S)
      → ltb_ℤ e.expires_at now ≡ false
      → (leb_ℤ (span e.stale_at now) (pos 0) && leb_ℤ (span e.expires_at e.stale_at) (pos 0))
        ≡ false
      → propagate ops now key (some e) caches
        ≡ map
            (λ c.
              ops.set now key e.payload
                (record { fresh = span e.stale_at now; stale = span e.expires_at e.stale_at })
                c)
            caches
  unfolding propagate is_expired
  propagate-live e caches live over = rw (live, remaining e, over) (set_each-map e.payload _ caches)

  none_left : (x y : ℤ) → (leb_ℤ x (pos 0) && leb_ℤ y (pos 0)) ≡ true → (x ≤ℤ pos 0) × (y ≤ℤ pos 0)
  none_left x y h = ground arith

  some_left : (x y : ℤ) → (leb_ℤ x (pos 0) && leb_ℤ y (pos 0)) ≡ false → (pos 0 <ℤ x) ⊎ (pos 0 <ℤ y)
  some_left x y h = ground arith

  propagate-Copied :
      (found : Option CacheEntry) (caches : List S)
      → Copied true found caches (propagate ops now key found caches)
  propagate-Copied none caches = unfold propagate in no_entry true caches
  propagate-Copied (some e) caches = elim (Bool-cases (ltb_ℤ e.expires_at now)) [
    | inl old ↦ rw (propagate-expired e caches old) (expired e caches (ground arith))
    | inr live ↦
        elim (Bool-cases
          (leb_ℤ (span e.stale_at now) (pos 0) && leb_ℤ (span e.expires_at e.stale_at) (pos 0))) [
            | inl over ↦ rw (propagate-spent e caches live over) (
                spent e caches
                  (none_left (span e.stale_at now) (span e.expires_at e.stale_at) over).0
                  (none_left (span e.stale_at now) (span e.expires_at e.stale_at) over).1)
            | inr more ↦ rw (propagate-live e caches live more) (
                set_all e caches (ground arith)
                  (some_left (span e.stale_at now) (span e.expires_at e.stale_at) more))
          ]
  ]

  -- the guard of the propagation
  pub guarded-Copied :
      (enable : Bool) (found : Option CacheEntry) (caches : List S)
      → Copied enable found caches
          (if ltb 0 (length caches) && enable then propagate ops now key found caches else caches)
  guarded-Copied enable found [] = none_before enable found
  guarded-Copied true found (c ∷ caches) =
      let some_before : ltb 0 (length (c ∷ caches)) ≡ true = ground arith in
      rw some_before (propagate-Copied found (c ∷ caches))
  guarded-Copied false found (c ∷ caches) =
      let some_before : ltb 0 (length (c ∷ caches)) ≡ true = ground arith in
      rw some_before (disabled found (c ∷ caches))
