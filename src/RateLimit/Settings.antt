-- ===== src/RateLimit/Settings.antt =====
-- `SetConfig` and the calls of `GetLimiter` behind it (ratelimit/manager.go).
use proxy_common.Common.{get_elem?, ℕ, ◌≡◌, refl, some, List, [], ◌∷◌, ◌++◌, ℤ, length}
use proxy_common.Common.Bytes.{Bytes, bytes_eq_iff, bytes_has_eq}
use proxy_common.Common.GoMap.{GoMap, lookup, insert}
use proxy_common.ApiKeys.{KeyType}
use proxy_common.RateLimit.{
  RateLimit, Manager, set_config, limiter_map_key, find_limiter, create_limiter, get_limiter,
  limiter_for_type,
}

get_elem?-append : {A : Type 0} (xs ys : List A) → get_elem? (length xs) (xs ++ ys) ≡ get_elem? 0 ys
unfolding get_elem?
get_elem?-append [] ys = refl
get_elem?-append (x ∷ xs) ys = get_elem?-append xs ys

get_limiter-found :
    (key : Bytes) (t : KeyType) (m : Manager) (p : ℕ)
    → lookup (limiter_map_key key t) m.key_to_limiter ≡ some p
    → get_limiter key t m ≡ (p, m)
unfolding get_limiter find_limiter
get_limiter-found key t m p h = rw (h, get_limiter, find_limiter) refl

found_alone : (k : Bytes) (p : ℕ) → lookup k ((k, p) ∷ []) ≡ some p
unfolding lookup
found_alone k p = rw ((bytes_eq_iff k k).1 refl) refl

-- After `SetConfig` the next `GetLimiter` of any key and type, used before or not, returns a limiter
-- made anew, with the limit and the burst of the new configuration for the type; a further call
-- with the same key and type returns that limiter and changes nothing.
get_limiter-set_config :
    (config : GoMap ℤ RateLimit) (key : Bytes) (t : KeyType) (m : Manager)
    → let (p, m') = get_limiter key t (set_config config m) in
      (p ≡ length m.limiters)
      × (get_elem? p m'.limiters ≡ some (limiter_for_type config t))
      × (get_limiter key t m' ≡ (p, m'))
unfolding get_limiter set_config find_limiter create_limiter lookup insert get_elem?
get_limiter-set_config config key t m = (
  refl,
  get_elem?-append m.limiters _,
  get_limiter-found key t _ (length m.limiters)
      (found_alone (limiter_map_key key t) (length m.limiters)),
)
