-- ===== src/RateLimit/Sharing.antt =====
-- Calls of `GetLimiter` (ratelimit/manager.go) that overlap.
use proxy_common.Common.{
  ℕ, ◌<◌, ◌≡◌, ◌↔◌, inl, inr, ◌∙◌, sym, some_inj, subst, Option, none, some, List, [], ◌∷◌, ◌++◌,
  arith, ℤ, length, length-append, Elem, Elem-append_cases, ap, Option-cases,
}
use proxy_common.Common.Bytes.{Bytes, bytes_eq_iff, bytes_has_eq}
use proxy_common.Common.GoMap.{GoMap, lookup, lookup-insert}
use proxy_common.ApiKeys.{KeyType}
use proxy_common.RateLimit.{
  RateLimit, Manager, new_manager, find_limiter, create_limiter, limiter_for_type,
}

-- The two parts of a call that each hold a lock: `find` the read lock, `create` the write lock.
pub data Phase : Type 0 where
  find : Bytes → Phase
  create : Bytes → KeyType → Phase

-- what a call returns that finds a limiter
found_result : Bytes → Option ℕ → List (Bytes × ℕ)
found_result k none = []
found_result k (some p) = (k, p) ∷ []

-- Phases in the order in which they get their locks, whichever calls they are of; the result lists
-- the limiters that calls return, each with its map key.
unfoldable pub run : List Phase → Manager → List (Bytes × ℕ) × Manager
unfolding found_result
run [] m = ([], m)
run (find k ∷ phases) m =
    let (results, m') = run phases m in (found_result k (find_limiter k m) ++ results, m')
run (create k t ∷ phases) m =
    let (p, m') = create_limiter k t m in
    let (results, m'') = run phases m' in ((k, p) ∷ results, m'')

-- Every map key has a limiter of its own, which exists.
record IsOwned (m : Manager) : Type 0 where
  made : (k : Bytes) (p : ℕ) → lookup k m.key_to_limiter ≡ some p → p < length m.limiters
  single :
      (j k : Bytes) (p : ℕ)
      → lookup j m.key_to_limiter ≡ some p
      → lookup k m.key_to_limiter ≡ some p
      → j ≡ k

-- what the manager had, it keeps
abbrev Keeps : Manager → Manager → Type 0
Keeps m m' =
    (k : Bytes) (p : ℕ) → lookup k m.key_to_limiter ≡ some p → lookup k m'.key_to_limiter ≡ some p

create-Keeps : (k : Bytes) (t : KeyType) (m : Manager) → Keeps m (create_limiter k t m).1
unfolding create_limiter
create-Keeps k t m j p h = elim (Option-cases (lookup k m.key_to_limiter)) [
  | inl new ↦
      rw (new, create_limiter)
        (ground (arith, lookup-insert k j (length m.limiters) m.key_to_limiter, bytes_eq_iff k j))
  | inr (q, old) ↦ rw (old, create_limiter) h
]

create-found :
    (k : Bytes) (t : KeyType) (m : Manager)
    → lookup k (create_limiter k t m).1.key_to_limiter ≡ some (create_limiter k t m).0
unfolding create_limiter
create-found k t m =
    ground (arith, lookup-insert k k (length m.limiters) m.key_to_limiter, bytes_eq_iff k k)

create-IsOwned :
    (k : Bytes) (t : KeyType) (m : Manager) → IsOwned m → IsOwned (create_limiter k t m).1
unfolding create_limiter
create-IsOwned k t m h = elim (Option-cases (lookup k m.key_to_limiter)) [
  | inr (q, old) ↦ rw (old, create_limiter) h
  | inl new ↦
      rw (new, create_limiter)
        (record {
          made = λ j p e. ground (
            arith,
            h.made j p,
            length-append m.limiters (limiter_for_type m.config t ∷ []),
            lookup-insert k j (length m.limiters) m.key_to_limiter,
          );
          single = λ i j p e f. ground (
            arith,
            h.made i p,
            h.made j p,
            h.single i j p,
            lookup-insert k i (length m.limiters) m.key_to_limiter,
            lookup-insert k j (length m.limiters) m.key_to_limiter,
            bytes_eq_iff k i,
            bytes_eq_iff k j,
          );
        })
]

run-Keeps : (phases : List Phase) (m : Manager) → Keeps m (run phases m).1
unfolding run
run-Keeps [] m k p h = h
run-Keeps (find k ∷ phases) m j p h = run-Keeps phases m j p h
run-Keeps (create k t ∷ phases) m j p h =
    run-Keeps phases (create_limiter k t m).1 j p (create-Keeps k t m j p h)

run-IsOwned : (phases : List Phase) (m : Manager) → IsOwned m → IsOwned (run phases m).1
unfolding run
run-IsOwned [] m h = h
run-IsOwned (find k ∷ phases) m h = run-IsOwned phases m h
run-IsOwned (create k t ∷ phases) m h =
    run-IsOwned phases (create_limiter k t m).1 (create-IsOwned k t m h)

found_result-some :
    (j k : Bytes) (o : Option ℕ) (p : ℕ) → Elem (k, p) (found_result j o) → (j ≡ k) × (o ≡ some p)
unfolding found_result
found_result-some j k none p h = absurd h
found_result-some j k (some q) p (inl e) = (ap (λ x. x.0) (sym e), ap (λ x. some x.1) (sym e))
found_result-some j k (some q) p (inr h) = absurd h

-- every result is still the limiter of its key at the end
run-found :
    (phases : List Phase) (m : Manager) (k : Bytes) (p : ℕ)
    → Elem (k, p) (run phases m).0
    → lookup k (run phases m).1.key_to_limiter ≡ some p
unfolding run find_limiter
run-found [] m k p h = absurd h
run-found (find j ∷ phases) m k p h =
    elim (Elem-append_cases (k, p) (found_result j (find_limiter j m)) (run phases m).0 h) [
      | inl here ↦
          let (same, there) = found_result-some j k (find_limiter j m) p here in
          run-Keeps phases m k p (rw (← same) there)
      | inr later ↦ run-found phases m k p later
    ]
run-found (create j t ∷ phases) m k p (inl e) = run-Keeps phases (create_limiter j t m).1 k p (
    subst (λ x. lookup x.0 (create_limiter j t m).1.key_to_limiter ≡ some x.1) (sym e)
      (create-found j t m))
run-found (create j t ∷ phases) m k p (inr h) = run-found phases (create_limiter j t m).1 k p h

-- However calls of `GetLimiter` overlap, from a new manager on and without `SetConfig`, two calls
-- return the same limiter exactly if they have the same map key.
pub run-shares :
    (config : GoMap ℤ RateLimit) (phases : List Phase) (j k : Bytes) (p q : ℕ)
    → Elem (j, p) (run phases (new_manager config)).0
    → Elem (k, q) (run phases (new_manager config)).0
    → (p ≡ q) ↔ (j ≡ k)
unfolding new_manager lookup
run-shares config phases j k p q hp hq =
    let owned =
      run-IsOwned phases (new_manager config)
        (record { made = λ k p e. cc e; single = λ j k p e f. cc e }) in
    let fp = run-found phases (new_manager config) j p hp in
    let fq = run-found phases (new_manager config) k q hq in
    (λ e. owned.single j k p fp (rw e fq), λ e. some_inj (sym fp ∙ rw e fq))
