-- ===== src/Cache/Deadlines.antt =====
-- How long the copies of an entry are served (models/cache.go, cache/multi/multi.go): each may add
-- the stale span of the `Set` that it goes back to.
use proxy_common.Common.{
  ℕ, zero, suc, ◌+◌, ◌-◌, ◌*◌, ◌<◌, ◌≤◌, ◌^◌, ◌≡◌, refl, sym, ◌∙◌, ap, ap, inl, inr, false, arith,
  ℤ, pos, negsuc, ◌+ℤ◌, ◌-ℤ◌, ltb_ℤ, Bool-cases, List, [], ◌∷◌, Any, ◌≤ℤ◌, scale,
}
use proxy_common.Common.Int64.{add64, wrap64_fits, whole_seconds}
use proxy_common.Models.{CacheEntry, Ttl, is_expired, remaining_ttl}
use proxy_common.Cache.{new_entry}
use proxy_common.Cache.History.{Origin}
use proxy_common.Cache.Multi.Held.{copy_at}
use proxy_common.Cache.Multi.Traces.{Allows}
use proxy_common.Cache.Lifetime.{IsSane, max_ℤ, copy-stale_at, copy-expires_at}

-- A time and a time-to-live in whole seconds, neither negative, whose deadlines with `levels` stale
-- spans stay below 2^32.
pub record IsSaneSet (levels : ℕ) (now : ℤ) (ttl : Ttl) : Type 0 where
  pub time : ℕ
  pub fresh : ℕ
  pub stale : ℕ
  pub time_is : now ≡ pos time
  pub fresh_is : whole_seconds ttl.fresh ≡ pos fresh
  pub stale_is : whole_seconds ttl.stale ≡ pos stale
  pub small : time + fresh + levels * stale < 2 ^ 32

-- The entry goes back to the `Set`, over at most `d` copies.
pub record Derives (levels d : ℕ) (o : Origin) (e : CacheEntry) : Type 0 where
  pub sane : IsSaneSet levels o.time o.ttl
  pub stale_at : ℕ
  pub expires_at : ℕ
  pub stale_is : e.stale_at ≡ pos stale_at
  pub expires_is : e.expires_at ≡ pos expires_at
  pub ordered : stale_at ≤ expires_at
  pub span : expires_at ≤ stale_at + sane.stale
  pub until : expires_at ≤ sane.time + sane.fresh + suc d * sane.stale
  pub payload : e.payload ≡ o.val

add_pos : (a b : ℕ) → pos a +ℤ pos b ≡ pos (a + b)
unfolding ◌+ℤ◌
add_pos a b = ground arith

add64_pos : (a b : ℕ) → a + b < 2 ^ 34 → add64 (pos a) (pos b) ≡ pos (a + b)
unfolding add64
add64_pos a b small = rw (add_pos a b) (wrap64_fits (pos (a + b)) (omega arith))

span_pos : (a b : ℕ) → a ≤ b → max_ℤ (pos b -ℤ pos a) (pos 0) ≡ pos (b - a)
unfolding ◌-ℤ◌
span_pos a b le = ground arith

max_pos :
    (a n b : ℕ) → a ≤ b → n ≤ b → (m : ℕ) × (max_ℤ (pos a) (pos n) ≡ pos m) × (a ≤ m) × (m ≤ b)
max_pos a n b ha hn = elim (Bool-cases (ltb_ℤ (pos a) (pos n))) [
  | inl less ↦ (n, rw less refl, ground arith, hn)
  | inr not_less ↦ (a, rw not_less refl, omega arith, ha)
]

more_stale : (d s : ℕ) → suc d * s ≡ d * s + s
more_stale d s = grind arith

fewer_stale : (m n s : ℕ) → m ≤ n → m * s ≤ n * s
fewer_stale zero n s le = omega arith
fewer_stale (suc m) zero s le = absurd (omega arith)
fewer_stale (suc m) (suc n) s le =
    omega (arith, fewer_stale m n s (omega arith), more_stale m s, more_stale n s)

new_entry-Derives :
    (levels : ℕ) (o : Origin)
    → 1 ≤ levels
    → IsSaneSet levels o.time o.ttl
    → Derives levels 0 o (new_entry o.time o.val o.ttl)
unfolding new_entry
new_entry-Derives levels o some_level sane =
    let one = fewer_stale 1 levels sane.stale some_level in
    let stale_is : add64 o.time (whole_seconds o.ttl.fresh) ≡ pos (sane.time + sane.fresh) =
      rw (sane.time_is, sane.fresh_is)
        (add64_pos sane.time sane.fresh (omega (arith, sane.small))) in
    record {
      sane = sane;
      stale_at = sane.time + sane.fresh;
      expires_at = sane.time + sane.fresh + sane.stale;
      stale_is = stale_is;
      expires_is =
          rw (stale_is, sane.stale_is)
            (add64_pos (sane.time + sane.fresh) sane.stale (omega (arith, one, sane.small)));
      ordered = omega arith;
      span = omega arith;
      until = omega arith;
      payload = refl;
    }

copy-Derives :
    (levels d now : ℕ) (o : Origin) (e : CacheEntry)
    → suc d < levels
    → is_expired (pos now) e ≡ false
    → Derives levels d o e
    → Derives levels (suc d) o (new_entry (pos now) e.payload (remaining_ttl (pos now) e))
unfolding is_expired
copy-Derives levels d now o e deep live h =
    let less = fewer_stale (suc d) levels h.sane.stale (omega arith) in
    let in_time : now ≤ h.expires_at =
      let live' : ltb_ℤ (pos h.expires_at) (pos now) ≡ false =
        ap (λ x. ltb_ℤ x (pos now)) (sym h.expires_is) ∙ live in
      ground arith in
    let small : h.expires_at < 2 ^ 32 = omega (arith, h.until, h.sane.small, less) in
    let (m, m_is, above, below) = max_pos h.stale_at now h.expires_at h.ordered in_time in
    let stale_sane : IsSane e.stale_at = rw (h.stale_is) (omega (arith, h.ordered, small)) in
    let expires_sane : IsSane e.expires_at = rw (h.expires_is) (omega (arith, small)) in
    let now_sane : IsSane (pos now) = omega (arith, in_time, small) in
    let stale_max : max_ℤ e.stale_at (pos now) ≡ pos m = rw (h.stale_is) m_is in
    let rest : max_ℤ (e.expires_at -ℤ e.stale_at) (pos 0) ≡ pos (h.expires_at - h.stale_at) =
      rw (h.stale_is, h.expires_is) (span_pos h.stale_at h.expires_at h.ordered) in
    record {
      sane = h.sane;
      stale_at = m;
      expires_at = m + (h.expires_at - h.stale_at);
      stale_is = copy-stale_at (pos now) e now_sane stale_sane expires_sane ∙ stale_max;
      expires_is =
          copy-expires_at (pos now) e now_sane stale_sane expires_sane
          ∙ rw (stale_max, rest) (add_pos m (h.expires_at - h.stale_at));
      ordered = omega arith;
      span = omega (arith, h.span, h.ordered);
      until = omega (arith, h.span, h.ordered, h.until, below, more_stale (suc d) h.sane.stale);
      payload = unfold new_entry in h.payload;
    }

-- further up more is allowed
Derives-higher :
    (levels m d : ℕ) (o : Origin) (e : CacheEntry)
    → m ≤ d
    → Derives levels m o e
    → Derives levels d o e
Derives-higher levels m d o e le h = record {
  sane = h.sane;
  stale_at = h.stale_at;
  expires_at = h.expires_at;
  stale_is = h.stale_is;
  expires_is = h.expires_is;
  ordered = h.ordered;
  span = h.span;
  until = omega (arith, h.until, fewer_stale (suc m) (suc d) h.sane.stale (omega arith));
  payload = h.payload;
}

pub Any-map :
    {P Q : Origin → Type 0} (os : List Origin) → ((o : Origin) → P o → Q o) → Any P os → Any Q os
Any-map [] f h = h
Any-map (o ∷ os) f (inl h) = inl (f o h)
Any-map (o ∷ os) f (inr h) = inr (Any-map os f h)

-- what may be held at the depth `d` of so many levels
abbrev pub HasOrigin : ℕ → List Origin → ℕ → CacheEntry → Type 0
HasOrigin levels os d e = d < levels → Any (λ o. Derives levels d o e) os

-- a read at a time that is not negative
abbrev pub IsSaneRead : ℤ → Type 0
IsSaneRead now = pos 0 ≤ℤ now

copied :
    (levels : ℕ) (os : List Origin) (now : ℤ) (d : ℕ) (e : CacheEntry)
    → IsSaneRead now
    → HasOrigin levels os d e
    → is_expired now e ≡ false
    → HasOrigin levels os (suc d) (copy_at now e)
copied levels os (negsuc n) d e ok h live deep = absurd (omega arith)
copied levels os (pos n) d e ok h live deep =
    Any-map os (λ o. copy-Derives levels d n o e deep live) (h (omega arith))

pub HasOrigin-Allows : (levels : ℕ) → Allows (HasOrigin levels) IsSaneRead (IsSaneSet levels)
HasOrigin-Allows levels = record {
  closed = λ os now ok. record {
    higher = λ d e h deep.
        Any-map os (λ o. Derives-higher levels d (suc d) o e (omega arith)) (h (omega arith));
    copied = λ d e h live. copied levels os now d e ok h live;
  };
  fresh = λ os now val ttl d ok deep.
      let o : Origin = record { time = now; val = val; ttl = ttl } in
      inl (
        Derives-higher levels 0 d o (new_entry now val ttl) (omega arith)
          (new_entry-Derives levels o (omega arith) ok));
  later = λ o os d e h deep. inr (h deep);
}

-- The entry has the payload of the `Set`, and expires at the latest with its fresh span and so many
-- of its stale spans behind it.
pub record IsWithin (levels : ℕ) (e : CacheEntry) (o : Origin) : Type 0 where
  pub payload : e.payload ≡ o.val
  pub deadline :
      e.expires_at
      ≤ℤ (o.time +ℤ whole_seconds o.ttl.fresh +ℤ scale levels (whole_seconds o.ttl.stale))

scale_pos : (k b : ℕ) → scale k (pos b) ≡ pos (k * b)
unfolding scale
scale_pos k b = ground arith

pub Derives-IsWithin :
    (levels d : ℕ) (o : Origin) (e : CacheEntry)
    → d < levels
    → Derives levels d o e
    → IsWithin levels e o
Derives-IsWithin levels d o e deep h =
    let sum : o.time +ℤ whole_seconds o.ttl.fresh +ℤ scale levels (whole_seconds o.ttl.stale)
        ≡ pos (h.sane.time + h.sane.fresh + levels * h.sane.stale) =
      rw
        (
          h.sane.time_is,
          h.sane.fresh_is,
          h.sane.stale_is,
          add_pos h.sane.time h.sane.fresh,
          scale_pos levels h.sane.stale,
        )
        (add_pos (h.sane.time + h.sane.fresh) (levels * h.sane.stale)) in
    record {
      payload = h.payload;
      deadline =
          rw (sum, h.expires_is)
            (omega (arith, h.until, fewer_stale (suc d) levels h.sane.stale (omega arith)));
    }
