-- ===== src/Tests/Limits.antt =====
-- Runs of the rate limiter manager (ratelimit/manager.go).
use proxy_common.Common.{ℕ, ◌≡◌, refl, ◌↔◌, inl, inr, some, List, [], ◌∷◌, arith, ℤ, pos, length}
use proxy_common.Common.Bytes.{codes, bytes_eq}
use proxy_common.Common.GoMap.{GoMap}
use proxy_common.RateLimit.{
  RateLimit, Manager, new_manager, set_config, get_limiter, limiter_map_key, limiter_for_type,
}
use proxy_common.RateLimit.Keys.{limiter_map_key-injective}
use proxy_common.RateLimit.Sharing.{Phase, find, create, run, run-shares}

abbrev limits : GoMap ℤ RateLimit
limits = (pos 1, record { rate_limit_per_minute = pos 90; burst = pos 0 }) ∷ []

-- two calls for the key "a" that both miss under the read lock, and one for the key "b"
abbrev overlapping : List Phase
overlapping =
    find (codes "a")
    ∷ find (codes "a")
    ∷ create (codes "a") (pos 1)
    ∷ create (codes "b") (pos 1)
    ∷ create (codes "a") (pos 1)
    ∷ []

run-shares_example : (◌≡◌ {A = ℕ} 0 1) ↔ (codes "a" ≡ codes "b")
unfolding run proxy_common.RateLimit.find_limiter proxy_common.Common.GoMap.lookup new_manager
    proxy_common.RateLimit.create_limiter proxy_common.Common.GoMap.insert bytes_eq
run-shares_example =
    run-shares limits overlapping (codes "a") (codes "b") 0 1 (inl refl) (inr (inl refl))

limiter_map_key-injective_example :
    (limiter_map_key (codes "x") (pos 1) ≡ limiter_map_key (codes "x") (pos 8364))
    ↔ ((codes "x" ≡ codes "x") × (◌≡◌ {A = ℕ} 1 8364))
limiter_map_key-injective_example =
    limiter_map_key-injective (codes "x") (codes "x") 1 8364 (inl (omega arith)) (inl (omega arith))
