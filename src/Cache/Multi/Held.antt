-- ===== src/Cache/Multi/Held.antt =====
-- The entries that the levels of a multi-level cache (cache/multi/multi.go) hold for a key. The
-- depth of a level is the number of levels behind it: propagation copies an entry to less depth.
use proxy_common.Common.{
  ℕ, zero, suc, ◌+◌, ◌<◌, ◌≡◌, ◌≢◌, refl, sym, subst, ◌⊎◌, inl, inr, Bool, true, false, Option,
  none, some, List, [], ◌∷◌, ◌++◌, arith, ℤ, Bool-cases, ltb, length, length-append, ◌&&◌,
  if◌then◌else◌,
}
use proxy_common.Common.Bytes.{Bytes}
use proxy_common.Models.{CacheEntry, Ttl, is_expired, remaining_ttl}
use proxy_common.Cache.{Answer, CacheOps, new_entry}
use proxy_common.Cache.History.{KeepsLaws}
use proxy_common.Cache.Multi.{set_each, propagate, scan, delete_each}

-- The copy that propagation makes of an entry.
abbrev pub copy_at : ℤ → CacheEntry → CacheEntry
copy_at now e = new_entry now e.payload (remaining_ttl now e)

-- `P d e` says that an entry may be held at the depth d. Copies go up, and what may be held may be
-- held further up.
pub record IsClosed (P : ℕ → CacheEntry → Type 0) (now : ℤ) : Type 0 where
  pub higher : (d : ℕ) (e : CacheEntry) → P d e → P (suc d) e
  pub copied :
      (d : ℕ) (e : CacheEntry) → P d e → is_expired now e ≡ false → P (suc d) (copy_at now e)

module _ {S : Type 0} (ops : CacheOps S) where
  pub length-set_each :
      (now : ℤ) (j val : Bytes) (ttl : Ttl) (caches : List S)
      → length (set_each ops now j val ttl caches) ≡ length caches
  unfolding set_each
  length-set_each now j val ttl [] = refl
  length-set_each now j val ttl (c ∷ caches) = omega (arith, length-set_each now j val ttl caches)

  pub length-delete_each :
      (j : Bytes) (caches : List S) → length (delete_each ops j caches) ≡ length caches
  unfolding delete_each
  length-delete_each j [] = refl
  length-delete_each j (c ∷ caches) = omega (arith, length-delete_each j caches)

  propagate-set_each :
      (now : ℤ) (j : Bytes) (e : CacheEntry) (earlier : List S)
      → (propagate ops now j (some e) earlier ≡ earlier)
        ⊎ ((is_expired now e ≡ false)
            × (propagate ops now j (some e) earlier
                ≡ set_each ops now j e.payload (remaining_ttl now e) earlier))
  unfolding propagate
  propagate-set_each now j e earlier = ground arith

module _ {S : Type 0} (ops : CacheOps S) (Holds : S → Bytes → CacheEntry → Type 0) (k : Bytes) where
  -- each level holds only entries that its depth allows; `m` levels stand behind the list
  abbrev pub Within : (ℕ → CacheEntry → Type 0) → ℕ → List S → Type 0
  Within P m [] = Unit
  Within P m (c ∷ caches) =
      ((e : CacheEntry) → Holds c k e → P (length caches + m) e) × Within P m caches

  Within-append :
      (P : ℕ → CacheEntry → Type 0) (m : ℕ) (xs ys : List S)
      → Within P (length ys + m) xs
      → Within P m ys
      → Within P m (xs ++ ys)
  Within-append P m [] ys hx hy = hy
  Within-append P m (x ∷ xs) ys (hx, more) hy =
      let same : length xs + (length ys + m) ≡ length (xs ++ ys) + m =
        omega (arith, length-append xs ys) in
      (λ e held. subst (λ d. P d e) same (hx e held), Within-append P m xs ys more hy)

  module _ (laws : KeepsLaws ops Holds) (P : ℕ → CacheEntry → Type 0) where
    -- A write turns `P` into `Q`, which allows the new entry at each of its depths.
    pub Within-set_each :
        (Q : ℕ → CacheEntry → Type 0) (now : ℤ) (j val : Bytes) (ttl : Ttl) (m : ℕ)
        (caches : List S)
        → ((d : ℕ) (e : CacheEntry) → P d e → Q d e)
        → ((j ≡ k) → (d : ℕ) → Q (d + m) (new_entry now val ttl))
        → Within P m caches
        → Within Q m (set_each ops now j val ttl caches)
    unfolding set_each
    Within-set_each Q now j val ttl m [] up new h = tt
    Within-set_each Q now j val ttl m (c ∷ caches) up new (h, more) = (
      rw (length-set_each ops now j val ttl caches) (λ e held.
          elim (laws.set_kept now j val ttl c k e held) [
            | inl (own, same) ↦ subst (Q (length caches + m)) (sym same) (new own (length caches))
            | inr old ↦ up (length caches + m) e (h e old)
          ]),
      Within-set_each Q now j val ttl m caches up new more,
    )

    -- A deletion leaves other keys alone.
    pub Within-delete_each :
        (Q : ℕ → CacheEntry → Type 0) (j : Bytes) (m : ℕ) (caches : List S)
        → ((j ≢ k) → (d : ℕ) (e : CacheEntry) → P d e → Q d e)
        → Within P m caches
        → Within Q m (delete_each ops j caches)
    unfolding delete_each
    Within-delete_each Q j m [] up h = tt
    Within-delete_each Q j m (c ∷ caches) up (h, more) = (
      rw (length-delete_each ops j caches) (λ e held.
          let (other, old) = laws.delete_kept j c k e held in
          up other (length caches + m) e (h e old)),
      Within-delete_each Q j m caches up more,
    )

    module _ (now : ℤ) (closed : IsClosed P now) where
      raise : (d m : ℕ) (e : CacheEntry) → P m e → P (d + m) e
      raise zero m e p = subst (λ i. P i e) (omega arith) p
      raise (suc d) m e p =
          subst (λ i. P i e) (omega arith) (closed.higher (d + m) e (raise d m e p))

      -- the copies of an entry that may be held at the depth m, above it
      Within-propagate :
          (j : Bytes) (entry : Option CacheEntry) (enable : Bool) (m : ℕ) (earlier : List S)
          → ((e : CacheEntry) → entry ≡ some e → j ≡ k → P m e)
          → Within P (suc m) earlier
          → Within P (suc m) (if enable then propagate ops now j entry earlier else earlier)
      unfolding propagate
      Within-propagate j entry false m earlier allowed h = h
      Within-propagate j none true m earlier allowed h = h
      Within-propagate j (some e) true m earlier allowed h =
          elim (propagate-set_each ops now j e earlier) [
            | inl same ↦ rw same h
            | inr (live, copied) ↦ rw copied (
                Within-set_each P now j e.payload (remaining_ttl now e) (suc m) earlier (λ d x p. p)
                  (λ own d.
                    raise d (suc m) (copy_at now e) (closed.copied m e (allowed e refl own) live))
                  h)
          ]

      module _ (read : ℤ → Bytes → S → Answer × S)
          (held : (j : Bytes) (s : S) (e : CacheEntry) → (read now j s).0.0 ≡ some e → Holds s j e)
          (kept : (j : Bytes) (s : S) (e : CacheEntry) → Holds (read now j s).1 k e → Holds s k e)
          (enable : Bool) where
        pub Within-scan :
            (j : Bytes) (earlier caches : List S)
            → Within P (length caches) earlier
            → Within P 0 caches
            → Within P 0 (scan ops read enable now j earlier caches).1
        unfolding scan
        Within-scan j earlier [] before h = before
        Within-scan j earlier (c ∷ caches) before (h, behind) =
            let c' = (read now j c).1 in
            let entry = (read now j c).0.0 in
            let copies = ltb 0 (length earlier) && enable in
            let front : List S = if copies then propagate ops now j entry earlier else earlier in
            let none_more : length caches + 0 ≡ length caches = omega arith in
            let none_here : length caches + 0 ≡ 0 + length caches = omega arith in
            let one_more : suc (length caches) ≡ suc (length caches) + 0 = omega arith in
            let one_step : suc (length caches) ≡ 1 + length caches = omega arith in
            let above =
              Within-propagate j entry copies (length caches) earlier
                (λ e answer own.
                  let own_entry = subst (λ i. Holds c i e) own (held j c e answer) in
                  subst (λ d. P d e) none_more (h e own_entry))
                before in
            let here : Within P 0 (c' ∷ caches) = (λ e x. h e (kept j c e x), behind) in
            elim (Bool-cases (read now j c).0.1) [
              | inl hit ↦ rw hit (
                  Within-append P 0 front (c' ∷ caches)
                    (subst (λ m. Within P m front) one_more above) here)
              | inr no_hit ↦ rw no_hit (
                  Within-scan j (earlier ++ c' ∷ []) caches
                    (Within-append P (length caches) earlier (c' ∷ [])
                      (subst (λ m. Within P m earlier) one_step before)
                      (λ e x. subst (λ d. P d e) none_here (h e (kept j c e x)), tt))
                    behind)
            ]

        -- an answer is allowed at the depth of a level
        pub scan-allowed :
            (earlier caches : List S) (e : CacheEntry)
            → Within P 0 caches
            → (scan ops read enable now k earlier caches).0.entry ≡ some e
            → (d : ℕ) × (d < length caches) × P d e
        unfolding scan
        scan-allowed earlier [] e h answer = cc answer
        scan-allowed earlier (c ∷ caches) e (h, behind) answer =
            elim (Bool-cases (read now k c).0.1) [
              | inl hit ↦ (length caches + 0, omega arith, h e (held k c e (rw hit at answer)))
              | inr no_hit ↦
                  let (d, within, allowed) =
                    scan-allowed (earlier ++ (read now k c).1 ∷ []) caches e behind
                      (rw no_hit at answer) in
                  (d, omega (arith, within), allowed)
            ]
