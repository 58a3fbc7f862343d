-- ===== src/Cache/Multi/Traces.antt =====
-- The entries that a multi-level cache (cache/multi/multi.go) answers with after any calls.
use proxy_common.Common.{
  ℕ, ◌+◌, ◌<◌, ◌≡◌, refl, ◌⊎◌, inl, inr, Bool, Option, none, some, List, [], ◌∷◌, ◌++◌, ℤ,
  Bool-cases, length, length-append, arith, All, ltb, ◌&&◌, if◌then◌else◌,
}
use proxy_common.Common.Bytes.{Bytes, bytes_eq, bytes_eq_iff}
use proxy_common.Models.{CacheEntry, Ttl, remaining_ttl}
use proxy_common.Cache.{Answer, CacheOps, new_entry}
use proxy_common.Cache.History.{
  Call, get, get_stale, set, delete, Origin, note, origins_after, KeepsLaws, perform, perform_all,
}
use proxy_common.Cache.Multi.{
  MultiCache, propagate, scan, get_with_level, get_stale_with_level, multi_ops,
}
use proxy_common.Cache.Multi as Multi
use proxy_common.Cache.Multi.Held.{
  IsClosed, Within, Within-set_each, Within-delete_each, Within-scan, scan-allowed, length-set_each,
  length-delete_each,
}

-- The calls whose times and spans are as asked.
abbrev pub AllOk : (ℤ → Type 0) → (ℤ → Ttl → Type 0) → List Call → Type 0
AllOk ReadOk SetOk [] = Unit
AllOk ReadOk SetOk (get now j ∷ calls) = ReadOk now × AllOk ReadOk SetOk calls
AllOk ReadOk SetOk (get_stale now j ∷ calls) = ReadOk now × AllOk ReadOk SetOk calls
AllOk ReadOk SetOk (set now j val ttl ∷ calls) = SetOk now ttl × AllOk ReadOk SetOk calls
AllOk ReadOk SetOk (delete j ∷ calls) = AllOk ReadOk SetOk calls

-- `P origins d e`: after these calls of `Set` for the key, the entry may be held at the depth d.
pub record Allows (P : List Origin → ℕ → CacheEntry → Type 0) (ReadOk : ℤ → Type 0)
    (SetOk : ℤ → Ttl → Type 0) : Type 0 where
  pub closed : (origins : List Origin) (now : ℤ) → ReadOk now → IsClosed (P origins) now
  pub fresh :
      (origins : List Origin) (now : ℤ) (val : Bytes) (ttl : Ttl) (d : ℕ)
      → SetOk now ttl
      → P (record { time = now; val = val; ttl = ttl } ∷ origins) d (new_entry now val ttl)
  pub later :
      (o : Origin) (origins : List Origin) (d : ℕ) (e : CacheEntry)
      → P origins d e
      → P (o ∷ origins) d e

-- levels that hold nothing for a key
abbrev pub HoldNothing : {S : Type 0} → (S → Bytes → CacheEntry → Type 0) → Bytes → List S → Type 0
HoldNothing Holds k = All (λ c. (e : CacheEntry) → ¬ Holds c k e)

module _ {S : Type 0} (ops : CacheOps S) where
  length-propagate :
      (now : ℤ) (j : Bytes) (entry : Option CacheEntry) (earlier : List S)
      → length (propagate ops now j entry earlier) ≡ length earlier
  unfolding propagate
  length-propagate now j none earlier = refl
  length-propagate now j (some e) earlier =
      ground (arith, length-set_each ops now j e.payload (remaining_ttl now e) earlier)

  length-scan :
      (read : ℤ → Bytes → S → Answer × S) (enable : Bool) (now : ℤ) (j : Bytes)
      (earlier caches : List S)
      → length (scan ops read enable now j earlier caches).1 ≡ length earlier + length caches
  unfolding scan
  length-scan read enable now j earlier [] = omega arith
  length-scan read enable now j earlier (c ∷ caches) =
      let entry = (read now j c).0.0 in
      let copies = ltb 0 (length earlier) && enable in
      let front : List S = if copies then propagate ops now j entry earlier else earlier in
      let same : length front ≡ length earlier = elim (Bool-cases copies) [
        | inl copied ↦ rw copied (length-propagate now j entry earlier)
        | inr left_alone ↦ rw left_alone refl
      ] in
      elim (Bool-cases (read now j c).0.1) [
        | inl hit ↦ rw hit (omega (arith, same, length-append front ((read now j c).1 ∷ caches)))
        | inr no_hit ↦ rw no_hit (
            omega (
              arith,
              length-scan read enable now j (earlier ++ (read now j c).1 ∷ []) caches,
              length-append earlier ((read now j c).1 ∷ []),
            ))
      ]

  length-perform_all :
      (calls : List Call) (mc : MultiCache S)
      → length (perform_all (multi_ops ops) calls mc).caches ≡ length mc.caches
  unfolding perform_all perform multi_ops Multi.get Multi.get_stale Multi.set Multi.delete
      get_with_level get_stale_with_level
  length-perform_all [] mc = refl
  length-perform_all (get now j ∷ calls) mc = omega (
    arith,
    length-perform_all calls (Multi.get ops now j mc).1,
    length-scan ops.get mc.enable_propagation now j [] mc.caches,
  )
  length-perform_all (get_stale now j ∷ calls) mc = omega (
    arith,
    length-perform_all calls (Multi.get_stale ops now j mc).1,
    length-scan ops.get_stale mc.enable_propagation now j [] mc.caches,
  )
  length-perform_all (set now j val ttl ∷ calls) mc = omega (
    arith,
    length-perform_all calls (Multi.set ops now j val ttl mc),
    length-set_each ops now j val ttl mc.caches,
  )
  length-perform_all (delete j ∷ calls) mc =
      omega (
        arith,
        length-perform_all calls (Multi.delete ops j mc),
        length-delete_each ops j mc.caches,
      )

module _ {S : Type 0} (ops : CacheOps S) (Holds : S → Bytes → CacheEntry → Type 0)
    (laws : KeepsLaws ops Holds) (k : Bytes) {P : List Origin → ℕ → CacheEntry → Type 0}
    {ReadOk : ℤ → Type 0} {SetOk : ℤ → Ttl → Type 0} (allows : Allows P ReadOk SetOk) where
  abbrev Fits : List Origin → MultiCache S → Type 0
  Fits origins mc = Within ops Holds k (P origins) 0 mc.caches

  set-Fits :
      (now : ℤ) (j val : Bytes) (ttl : Ttl) (origins : List Origin) (mc : MultiCache S)
      → SetOk now ttl
      → Fits origins mc
      → Fits (note k (set now j val ttl) origins) (Multi.set ops now j val ttl mc)
  unfolding note Multi.set
  set-Fits now j val ttl origins mc ok h = elim (Bool-cases (bytes_eq j k)) [
    | inl same ↦ rw same (
        Within-set_each ops Holds k laws (P origins) _ now j val ttl 0 mc.caches
          (allows.later (record { time = now; val = val; ttl = ttl }) origins)
          (λ own d. allows.fresh origins now val ttl _ ok) h)
    | inr other ↦ rw other (
        Within-set_each ops Holds k laws (P origins) _ now j val ttl 0 mc.caches (λ d e p. p)
          (λ own. cc (other, (bytes_eq_iff j k).1 own)) h)
  ]

  delete-Fits :
      (j : Bytes) (origins : List Origin) (mc : MultiCache S)
      → Fits origins mc
      → Fits (note k (delete j) origins) (Multi.delete ops j mc)
  unfolding note Multi.delete
  delete-Fits j origins mc h = elim (Bool-cases (bytes_eq j k)) [
    | inl same ↦
        let own : j ≡ k = (bytes_eq_iff j k).0 same in
        Within-delete_each ops Holds k laws (P origins) (P (note k (delete j) origins)) j 0
          mc.caches (λ other. absurd (other own)) h
    | inr other ↦ rw other (
        Within-delete_each ops Holds k laws (P origins) (P origins) j 0 mc.caches (λ ne d e p. p) h)
  ]

  abbrev Ok : List Call → Type 0
  Ok = AllOk ReadOk SetOk

  get-Fits :
      (now : ℤ) (j : Bytes) (origins : List Origin) (mc : MultiCache S)
      → ReadOk now
      → Fits origins mc
      → Fits origins (Multi.get ops now j mc).1
  unfolding Multi.get get_with_level
  get-Fits now j origins mc ok h =
      Within-scan ops Holds k laws (P origins) now (allows.closed origins now ok) ops.get
        (λ i s e. laws.get_held now i s e) (λ i s e. laws.get_kept now i s k e)
        mc.enable_propagation j [] mc.caches tt h

  get_stale-Fits :
      (now : ℤ) (j : Bytes) (origins : List Origin) (mc : MultiCache S)
      → ReadOk now
      → Fits origins mc
      → Fits origins (Multi.get_stale ops now j mc).1
  unfolding Multi.get_stale get_stale_with_level
  get_stale-Fits now j origins mc ok h =
      Within-scan ops Holds k laws (P origins) now (allows.closed origins now ok) ops.get_stale
        (λ i s e. laws.get_stale_held now i s e) (λ i s e. laws.get_stale_kept now i s k e)
        mc.enable_propagation j [] mc.caches tt h

  pub perform_all-Fits :
      (calls : List Call) (origins : List Origin) (mc : MultiCache S)
      → Ok calls
      → Fits origins mc
      → Fits (origins_after k calls origins) (perform_all (multi_ops ops) calls mc)
  unfolding origins_after perform_all perform multi_ops
  perform_all-Fits [] origins mc ok h = h
  perform_all-Fits (get now j ∷ calls) origins mc (ok, more) h =
      perform_all-Fits calls origins (Multi.get ops now j mc).1 more
        (get-Fits now j origins mc ok h)
  perform_all-Fits (get_stale now j ∷ calls) origins mc (ok, more) h =
      perform_all-Fits calls origins (Multi.get_stale ops now j mc).1 more
        (get_stale-Fits now j origins mc ok h)
  perform_all-Fits (set now j val ttl ∷ calls) origins mc (ok, more) h =
      perform_all-Fits calls (note k (set now j val ttl) origins) (Multi.set ops now j val ttl mc)
        more (set-Fits now j val ttl origins mc ok h)
  perform_all-Fits (delete j ∷ calls) origins mc more h =
      perform_all-Fits calls (note k (delete j) origins) (Multi.delete ops j mc) more
        (delete-Fits j origins mc h)

  -- an answer is allowed at the depth of a level
  pub answer-allowed :
      (now : ℤ) (origins : List Origin) (mc : MultiCache S) (e : CacheEntry)
      → ReadOk now
      → Fits origins mc
      → ((Multi.get ops now k mc).0.0 ≡ some e) ⊎ ((Multi.get_stale ops now k mc).0.0 ≡ some e)
      → (d : ℕ) × (d < length mc.caches) × P origins d e
  unfolding Multi.get Multi.get_stale get_with_level get_stale_with_level
  answer-allowed now origins mc e ok h (inl answer) =
      scan-allowed ops Holds k laws (P origins) now (allows.closed origins now ok) ops.get
        (λ i s e. laws.get_held now i s e) (λ i s e. laws.get_kept now i s k e)
        mc.enable_propagation [] mc.caches e h answer
  answer-allowed now origins mc e ok h (inr answer) =
      scan-allowed ops Holds k laws (P origins) now (allows.closed origins now ok) ops.get_stale
        (λ i s e. laws.get_stale_held now i s e) (λ i s e. laws.get_stale_kept now i s k e)
        mc.enable_propagation [] mc.caches e h answer

  HoldNothing-Within :
      (m : ℕ) (caches : List S) → HoldNothing Holds k caches → Within ops Holds k (P []) m caches
  HoldNothing-Within m [] h = tt
  HoldNothing-Within m (c ∷ caches) (h, more) =
      (λ e held. absurd (h e held), HoldNothing-Within m caches more)

  -- After any calls on levels that hold nothing for the key, an answer is allowed by the calls of
  -- `Set` since the last deletion.
  pub answer-origins_after :
      (calls : List Call) (mc : MultiCache S) (now : ℤ) (e : CacheEntry)
      → Ok calls
      → ReadOk now
      → HoldNothing Holds k mc.caches
      → (let mc' = perform_all (multi_ops ops) calls mc in
          ((Multi.get ops now k mc').0.0 ≡ some e) ⊎ ((Multi.get_stale ops now k mc').0.0 ≡ some e))
      → (d : ℕ) × (d < length mc.caches) × P (origins_after k calls []) d e
  answer-origins_after calls mc now e ok read_ok empty answer =
      let mc' = perform_all (multi_ops ops) calls mc in
      let (d, within, allowed) =
        answer-allowed now (origins_after k calls []) mc' e read_ok
          (perform_all-Fits calls [] mc ok (HoldNothing-Within 0 mc.caches empty)) answer in
      (d, omega (arith, within, length-perform_all ops calls mc), allowed)
