-- ===== src/Models/Levels.antt =====
-- Levels and cache types of models/cache.go.
use proxy_common.Common.{
  ℕ, zero, suc, ◌+◌, ◌≡◌, refl, ap, ◌∙◌, sym, ◌↔◌, ◌≢◌, ◌⊎◌, none, some, ◌++◌, arith, pos,
}
use proxy_common.Common.Bytes.{Bytes, head_of, tail_of, codes, bytes_eq_iff}
use proxy_common.Common.Decimal.{decimal, decimal-injective}
use proxy_common.Models.{
  unmarshal_yaml, cache_level_from_index, level_of_nat, cache_level_miss, cache_type_permanent,
  cache_type_short, cache_type_minimal, cache_type_none,
}

level_of_nat-decimal : (n : ℕ) → level_of_nat n ≡ codes "L" ++ decimal (n + 1)
unfolding level_of_nat
level_of_nat-decimal zero = unfold decimal in refl
level_of_nat-decimal (suc zero) = unfold decimal in refl
level_of_nat-decimal (suc (suc n)) = refl

-- Different levels of a cache have different names: for indices that are not negative,
-- `cache_level_from_index` gives equal names exactly at equal indices, and never that of a miss.
pub cache_level_from_index-injective :
    (m n : ℕ)
    → ((cache_level_from_index (pos m) ≡ cache_level_from_index (pos n)) ↔ (m ≡ n))
      × (cache_level_from_index (pos m) ≢ cache_level_miss)
unfolding cache_level_from_index tail_of head_of
cache_level_from_index-injective m n = (
  (
    λ e.
        let d =
          decimal-injective (m + 1) (n + 1)
            (ap tail_of (sym (level_of_nat-decimal m) ∙ e ∙ level_of_nat-decimal n)) in
        omega arith,
    λ e. ap level_of_nat e,
  ),
  λ e. let d = ap head_of (sym (level_of_nat-decimal m) ∙ e) in omega arith,
)

-- `unmarshal_yaml` accepts a decoded string exactly when it is one of the four cache types, and
-- then stores it; otherwise it returns an error and leaves the receiver as it was.
pub unmarshal_yaml_lem :
    (str c : Bytes)
    → ((unmarshal_yaml (some str) c ≡ (none, str))
        × ((str ≡ cache_type_permanent)
            ⊎ ((str ≡ cache_type_short) ⊎ ((str ≡ cache_type_minimal) ⊎ (str ≡ cache_type_none)))))
      ⊎ (((unmarshal_yaml (some str) c).1 ≡ c)
          × ((unmarshal_yaml (some str) c).0 ≢ none)
          × (str ≢ cache_type_permanent)
          × (str ≢ cache_type_short)
          × (str ≢ cache_type_minimal)
          × (str ≢ cache_type_none))
unfolding unmarshal_yaml
unmarshal_yaml_lem str c = ground (
  arith,
  bytes_eq_iff str (codes "permanent"),
  bytes_eq_iff str (codes "short"),
  bytes_eq_iff str (codes "minimal"),
  bytes_eq_iff str (codes "none"),
)
