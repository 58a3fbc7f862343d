-- ===== src/Cache/Metrics/Labels.antt =====
-- The labels that cache/metrics/metrics.go gives to its series.
use proxy_common.Common.{
  ◌≡◌, ◌⊎◌, refl, sym, Bool, true, false, Option, none, some, List, [], ◌∷◌, arith, if◌then◌else◌,
  Bool-cases, inl, inr, length, Elem,
}
use proxy_common.Common.{◌++◌, pos, ltb_ℤ, All}
use proxy_common.Cache.Metrics.Calls.{
  Call, hit, miss, stored, evicted, failed, read, sized, counted, timed, perform, perform_all,
}
use proxy_common.Cache.Metrics.{
  record_cache_hit, record_cache_miss, record_cache_set, record_cache_eviction, record_cache_error,
  record_cache_bytes_read, update_l1_cache_capacity, update_cache_keys, time_cache_operation,
}
use proxy_common.Common.Bytes.{Bytes, codes, bytes_eq, bytes_eq_iff, bytes_has_eq}
use proxy_common.Common.GoMap.{GoMap, lookup, lookup_or, insert, lookup-insert}
use proxy_common.Common.Samples.{Series, Sample, inc, add, set, observe}
use proxy_common.Cache.Metrics.{
  Config, CacheMetrics, new, allow, initialize_allowed_methods, normalize_rpc_method,
}

abbrev pub series_of : Sample → Series
series_of (inc s) = s
series_of (add s n) = s
series_of (set s n) = s
series_of (observe s) = s

-- the value of a label
abbrev value_of : Bytes → List Bytes → List Bytes → Option Bytes
value_of label (name ∷ names) (value ∷ values) =
    let rest = value_of label names values in if bytes_eq name label then some value else rest
value_of label [] values = none
value_of label (name ∷ names) [] = none

abbrev pub label : Bytes → Series → Option Bytes
label name s = value_of name s.vec.label_names s.labels

-- a method of the list, or the replacement for all others
abbrev pub Known : List Bytes → Option Bytes → Type 0
Known methods none = Unit
Known methods (some method) = Elem method methods ⊎ (method ≡ codes "other")

-- What the client library needs, a value for each label, and what keeps the number of series small.
pub record WellLabelled (methods : List Bytes) (sample : Sample) : Type 0 where
  pub values : length (series_of sample).labels ≡ length (series_of sample).vec.label_names
  pub rpc_method : Known methods (label (codes "rpc_method") (series_of sample))

allow-Elem :
    (methods : List Bytes) (method : Bytes) (allowed : GoMap Bytes Bool)
    → lookup_or false method (allow methods allowed) ≡ true
    → Elem method methods ⊎ (lookup_or false method allowed ≡ true)
unfolding allow
allow-Elem [] method allowed e = inr e
allow-Elem (m ∷ methods) method allowed e =
    elim (allow-Elem methods method (insert m true allowed) e) [
      | inl h ↦ inl (inr h)
      | inr h ↦ elim (Bool-cases (bytes_eq m method)) [
        | inl same ↦ inl (inl (sym ((bytes_eq_iff m method).0 same)))
        | inr other ↦ inr (ground (arith, h, lookup-insert m method true allowed))
      ]
    ]

All-append : {A : Type 0} (P : A → Type 0) (xs ys : List A) → All P xs → All P ys → All P (xs ++ ys)
All-append P [] ys hx hy = hy
All-append P (x ∷ xs) ys (h, hx) hy = (h, All-append P xs ys hx hy)

All-optional :
    {A : Type 0} (P : A → Type 0) (b : Bool) (a : A) → P a → All P (if b then a ∷ [] else [])
All-optional P true a h = (h, tt)
All-optional P false a h = tt

module _ (cfg : Config) (methods : List Bytes) where
  abbrev pub m : CacheMetrics
  m = initialize_allowed_methods methods (new cfg)

  normalize_rpc_method-Known :
      (method : Bytes) → Known methods (some (normalize_rpc_method m method))
  unfolding normalize_rpc_method initialize_allowed_methods
  normalize_rpc_method-Known method =
      elim (Bool-cases (lookup_or false method (allow methods []))) [
        | inr other ↦ rw (normalize_rpc_method, other) (inr refl)
        | inl found ↦ elim (allow-Elem methods method [] found) [
          | inl h ↦ rw (normalize_rpc_method, found) (inl h)
          | inr h ↦ absurd (unfold lookup in ground arith)
        ]
      ]

  perform-WellLabelled : (call : Call) → All (WellLabelled methods) (perform m call)
  unfolding perform record_cache_hit record_cache_miss record_cache_set record_cache_eviction
      record_cache_error record_cache_bytes_read update_l1_cache_capacity update_cache_keys
      time_cache_operation initialize_allowed_methods new bytes_eq
  perform-WellLabelled (hit t l c n r age) =
      let known = normalize_rpc_method-Known r in
      (
        record { values = refl; rpc_method = known },
        (
          record { values = refl; rpc_method = known },
          All-optional (WellLabelled methods) (ltb_ℤ (pos 0) age) _
              (record { values = refl; rpc_method = tt }),
        ),
      )
  perform-WellLabelled (miss t c n r) =
      let known = normalize_rpc_method-Known r in
      (
        record { values = refl; rpc_method = known },
        (record { values = refl; rpc_method = known }, tt),
      )
  perform-WellLabelled (stored l t c n size) = (
    record { values = refl; rpc_method = tt },
    All-optional (WellLabelled methods) (ltb_ℤ (pos 0) size) _
        (record { values = refl; rpc_method = tt }),
  )
  perform-WellLabelled (evicted l t c n) = (record { values = refl; rpc_method = tt }, tt)
  perform-WellLabelled (failed l k) = (record { values = refl; rpc_method = tt }, tt)
  perform-WellLabelled (read l t c n size) =
      All-optional (WellLabelled methods) (ltb_ℤ (pos 0) size) _
        (record { values = refl; rpc_method = tt })
  perform-WellLabelled (sized capacity used) =
      (record { values = refl; rpc_method = tt }, (record { values = refl; rpc_method = tt }, tt))
  perform-WellLabelled (counted l count) = (record { values = refl; rpc_method = tt }, tt)
  perform-WellLabelled (timed operation l) = (record { values = refl; rpc_method = tt }, tt)

  -- After `New` and `InitializeAllowedMethods`, whatever is recorded: every series gets as many
  -- values as its metric has labels, and its label `rpc_method`, if it has one, is a listed method or
  -- `"other"`.
  pub perform_all-WellLabelled :
      (calls : List Call) → All (WellLabelled methods) (perform_all m calls)
  unfolding perform_all
  perform_all-WellLabelled [] = tt
  perform_all-WellLabelled (call ∷ calls) =
      All-append (WellLabelled methods) (perform m call) (perform_all m calls)
        (perform-WellLabelled call) (perform_all-WellLabelled calls)
