-- ===== src/ApiKeys/Rotator.antt =====
-- `TryWithKeys` (apikeys/rotator.go), with any callback and with that of `CreateFailCallback`.
use proxy_common.Common.{
  ◌≡◌, refl, ap, ◌⊎◌, inl, inr, Bool, true, false, not, ◌&&◌, ◌||◌, Option, none, some, List, [],
  ◌∷◌, ◌++◌, arith, ℤ, Bool-cases, Option-cases, if◌then◌else◌,
}
use proxy_common.Common.Bytes.{Bytes, bytes_eq, bytes_eq_iff, bytes_has_eq}
use proxy_common.Common.GoMap.{lookup, lookup-insert}
use proxy_common.ApiKeys.{
  ApiKey, Manager, Reply, Outcome, result, all_failed, note_failure, last_error_after, try_loop,
  try_with_keys, create_fail_callback,
}

module _ {ℓ} {W R E : Type ℓ} (executor : ApiKey → W → Reply R E × W)
    (on_failed : Option (ApiKey → W → W)) where
  -- the world after the callback, if there is one
  abbrev called : ApiKey → W → W
  called k w = elim on_failed [ none ↦ w | some callback ↦ callback k w ]

  -- The keys are tried in turn and none succeeds: the errors that they return, in order, and the
  -- world behind. The callback is called for exactly those that return an error.
  pub data Failures : List ApiKey → W → List E → W → Type ℓ where
    no_key : {w : W} → Failures [] w [] w
    silent :
        {k : ApiKey} {keys : List ApiKey} {w : W} {es : List E} {end : W}
        → (executor k w).0.success ≡ false
        → (executor k w).0.error ≡ none
        → Failures keys (executor k w).1 es end
        → Failures (k ∷ keys) w es end
    reported :
        {k : ApiKey} {keys : List ApiKey} {w : W} {e : E} {es : List E} {end : W}
        → (executor k w).0.success ≡ false
        → (executor k w).0.error ≡ some e
        → Failures keys (called k (executor k w).1) es end
        → Failures (k ∷ keys) w (e ∷ es) end

  -- the last one, or a given one if there is none
  abbrev pub last_of : Option E → List E → Option E
  last_of none_yet [] = none_yet
  last_of none_yet (e ∷ es) = last_of (some e) es

  -- The keys before `key` fail, and `key` succeeds in the world that they leave.
  pub record FirstSuccess (keys : List ApiKey) (w : W) (out : Outcome R E × W) : Type ℓ where
    pub before : List ApiKey
    pub key : ApiKey
    pub rest : List ApiKey
    pub errors : List E
    pub world : W
    pub split : keys ≡ before ++ key ∷ rest
    pub failed : Failures before w errors world
    pub succeeds : (executor key world).0.success ≡ true
    pub value : out ≡ (result (executor key world).0.value, (executor key world).1)

  -- All keys fail.
  pub record Exhausted (keys : List ApiKey) (last : Option E) (w : W) (out : Outcome R E × W)
      : Type ℓ where
    pub errors : List E
    pub world : W
    pub failed : Failures keys w errors world
    pub value : out ≡ (all_failed (last_of last errors), world)

  abbrev pub Tried : List ApiKey → Option E → W → Outcome R E × W → Type ℓ
  Tried keys last w out = FirstSuccess keys w out ⊎ Exhausted keys last w out

  -- one more key in front, which returns no error
  Tried-silent :
      (k : ApiKey) (keys : List ApiKey) (last : Option E) (w : W) (out : Outcome R E × W)
      → (executor k w).0.success ≡ false
      → (executor k w).0.error ≡ none
      → Tried keys last (executor k w).1 out
      → Tried (k ∷ keys) last w out
  Tried-silent k keys last w out bad q (inl f) = inl (record {
    before = k ∷ f.before;
    key = f.key;
    rest = f.rest;
    errors = f.errors;
    world = f.world;
    split = ap (◌∷◌ k) f.split;
    failed = silent bad q f.failed;
    succeeds = f.succeeds;
    value = f.value;
  })
  Tried-silent k keys last w out bad q (inr x) = inr (record {
    errors = x.errors;
    world = x.world;
    failed = silent bad q x.failed;
    value = x.value;
  })

  -- one more key in front, which returns an error
  Tried-reported :
      (k : ApiKey) (keys : List ApiKey) (last : Option E) (w : W) (out : Outcome R E × W) (e : E)
      → (executor k w).0.success ≡ false
      → (executor k w).0.error ≡ some e
      → Tried keys (some e) (called k (executor k w).1) out
      → Tried (k ∷ keys) last w out
  Tried-reported k keys last w out e bad q (inl f) = inl (record {
    before = k ∷ f.before;
    key = f.key;
    rest = f.rest;
    errors = e ∷ f.errors;
    world = f.world;
    split = ap (◌∷◌ k) f.split;
    failed = reported bad q f.failed;
    succeeds = f.succeeds;
    value = f.value;
  })
  Tried-reported k keys last w out e bad q (inr x) = inr (record {
    errors = e ∷ x.errors;
    world = x.world;
    failed = reported bad q x.failed;
    value = x.value;
  })

  try_loop-Tried :
      (keys : List ApiKey) (last : Option E) (w : W)
      → Tried keys last w (try_loop executor on_failed keys last w)
  unfolding try_loop note_failure last_error_after
  try_loop-Tried [] last w = inr (record { errors = []; world = w; failed = no_key; value = refl })
  try_loop-Tried (k ∷ keys) last w = elim (Bool-cases (executor k w).0.success) [
    | inl good ↦ inl (record {
      before = [];
      key = k;
      rest = keys;
      errors = [];
      world = w;
      split = refl;
      failed = no_key;
      succeeds = good;
      value = rw good;
    })
    | inr bad ↦ rw bad (elim (Option-cases (executor k w).0.error) [
      | inl q ↦
          rw (q, note_failure, last_error_after)
            (Tried-silent k keys last w _ bad q (try_loop-Tried keys last (executor k w).1))
      | inr (e, q) ↦
          rw (q, note_failure, last_error_after)
            (Tried-reported k keys last w _ e bad q
              (try_loop-Tried keys (some e) (called k (executor k w).1)))
    ])
  ]

  -- The keys are tried in order, each in the world that the attempts and callbacks before it left;
  -- the callback is called for exactly the keys that return an error and no success. Either a key
  -- succeeds after all those before it failed, and its result is returned with the world of its
  -- attempt; or all keys fail, and the error holds the last error that was returned, if there is one.
  pub try_with_keys_lem :
      (keys : List ApiKey) (w : W)
      → FirstSuccess keys w (try_with_keys executor on_failed keys w)
        ⊎ Exhausted keys none w (try_with_keys executor on_failed keys w)
  unfolding try_with_keys
  try_with_keys_lem keys w = try_loop-Tried keys none w

module _ {R E : Type 0} (answer : ApiKey → Reply R E) (now : ℤ) where
  -- an executor that leaves the manager alone
  abbrev pub answering : ApiKey → Manager → Reply R E × Manager
  answering k m = (answer k, m)

  abbrev has_error : Option E → Bool
  has_error none = false
  has_error (some e) = true

  -- Whether a key string belongs to a key that returned an error before any key succeeded.
  abbrev pub blamed : List ApiKey → Bytes → Bool
  blamed [] k = false
  blamed (a ∷ keys) k =
      if (answer a).success
      then false
      else (has_error (answer a).error && bytes_eq a.key k) || blamed keys k

  lookup-callback :
      (a : ApiKey) (k : Bytes) (m : Manager)
      → lookup k (create_fail_callback now a m).last_failed
        ≡ (if not (bytes_eq k []) && bytes_eq a.key k then some now else lookup k m.last_failed)
  unfolding create_fail_callback
  lookup-callback a k m = ground (
    arith,
    lookup-insert a.key k now m.last_failed,
    bytes_eq_iff a.key k,
    bytes_eq_iff a.key [],
    bytes_eq_iff k [],
  )

  try_loop_marks :
      (keys : List ApiKey) (last : Option E) (m : Manager) (k : Bytes)
      → lookup k (try_loop answering (some (create_fail_callback now)) keys last m).1.last_failed
        ≡ (if not (bytes_eq k []) && blamed keys k then some now else lookup k m.last_failed)
  unfolding try_loop note_failure last_error_after
  try_loop_marks [] last m k = ground arith
  try_loop_marks (a ∷ keys) last m k = elim (Option-cases (answer a).error) [
    | inl q ↦
        rw (q, note_failure, last_error_after, blamed)
          (ground (arith, try_loop_marks keys last m k))
    | inr (e, q) ↦
        rw (q, note_failure, last_error_after, blamed)
          (ground (
            arith,
            try_loop_marks keys (some e) (create_fail_callback now a m) k,
            lookup-callback a k m,
          ))
  ]

  -- With the callback of `CreateFailCallback` and an executor that leaves the manager alone, the
  -- failure time of a key string becomes the time of the run exactly when it is not empty and
  -- belongs to a key that returned an error before any key succeeded. All others stay as they were,
  -- those of the key that succeeded and of the keys that were never tried included.
  pub try_with_keys_marks :
      (keys : List ApiKey) (m : Manager) (k : Bytes)
      → lookup k (try_with_keys answering (some (create_fail_callback now)) keys m).1.last_failed
        ≡ (if not (bytes_eq k []) && blamed keys k then some now else lookup k m.last_failed)
  unfolding try_with_keys
  try_with_keys_marks keys m k = try_loop_marks keys none m k
