-- ===== src/ApiKeys.antt =====
-- apikeys/types.go, apikeys/manager.go and apikeys/rotator.go: keys by priority, a pause for a
-- key that failed, and the loop that tries one key after the other.
-- A `time.Time` is its number of nanoseconds; one call reads the clock once.
pub mod Available
pub mod Backoff
pub mod Rotator
use proxy_common.Common.{
  ℕ, ◌≡◌, Bool, true, false, not, ◌&&◌, Option, none, some, List, [], ◌∷◌, ◌++◌, ℤ, pos, ◌-ℤ◌,
  ltb_ℤ, eqb_ℤ, if◌then◌else◌,
}
use proxy_common.Common.Bytes.{Bytes, bytes_eq, bytes_has_eq}
use proxy_common.Common.GoMap.{GoMap, lookup, insert}

abbrev pub KeyType : Type 0
KeyType = ℤ

pub record ApiKey : Type 0 where
  pub key : Bytes
  pub key_type : KeyType
  pub label : Bytes

-- `APIKey{Key: key, Type: t}`
abbrev pub api_key : Bytes → KeyType → ApiKey
api_key k t = record { key = k; key_type = t; label = [] }

-- `provider` is the interface `KeyProvider`, which the caller implements.
pub record Manager : Type 0 where
  pub provider : KeyType → List Bytes
  pub key_types : List KeyType
  pub last_failed : GoMap Bytes ℤ
  pub backoff_time : ℤ

-- `5 * time.Minute`
abbrev pub default_backoff : ℤ
default_backoff = pos 300_000_000_000

unfoldable pub new_manager : (KeyType → List Bytes) → List KeyType → ℤ → Manager
new_manager provider key_types backoff = record {
  provider = provider;
  key_types = key_types;
  last_failed = [];
  backoff_time = if eqb_ℤ backoff (pos 0) then default_backoff else backoff;
}

unfoldable pub is_key_in_backoff : Manager → ℤ → Bytes → Bool
is_key_in_backoff m now key = if bytes_eq key [] then false else elim (lookup key m.last_failed) [
  | some last_fail_time ↦ ltb_ℤ (now -ℤ last_fail_time) m.backoff_time
  | none ↦ false
]

-- the inner loop of `GetAvailableKeys`
unfoldable pub not_in_backoff : Manager → ℤ → KeyType → List Bytes → List ApiKey
unfolding is_key_in_backoff
not_in_backoff m now t [] = []
not_in_backoff m now t (key ∷ keys) =
    let rest = not_in_backoff m now t keys in
    if not (is_key_in_backoff m now key) then api_key key t ∷ rest else rest

-- one round of the outer loop: a single key is taken even if it is in backoff
unfoldable pub available_of_type : Manager → ℤ → KeyType → List Bytes → List ApiKey
unfolding not_in_backoff
available_of_type m now t [] = []
available_of_type m now t (key ∷ []) = api_key key t ∷ []
available_of_type m now t (key ∷ key' ∷ keys) = not_in_backoff m now t (key ∷ key' ∷ keys)

unfoldable pub available_of_types : Manager → ℤ → List KeyType → List ApiKey
unfolding available_of_type
available_of_types m now [] = []
available_of_types m now (t ∷ types) =
    available_of_type m now t (m.provider t) ++ available_of_types m now types

unfoldable pub get_available_keys : Manager → ℤ → List ApiKey
unfolding available_of_types
get_available_keys m now = available_of_types m now m.key_types

unfoldable pub mark_key_as_failed : ℤ → Bytes → Manager → Manager
mark_key_as_failed now key m =
    if bytes_eq key [] then m else record m { last_failed = insert key now m.last_failed }

-- `CreateFailCallback`
unfoldable pub create_fail_callback : ℤ → ApiKey → Manager → Manager
unfolding mark_key_as_failed
create_fail_callback now api_key m =
    if not (bytes_eq api_key.key []) then mark_key_as_failed now api_key.key m else m

-- What `TryWithKeys` returns: the result of a request, or the error with the last error in it.
pub data Outcome {ℓ} (R E : Type ℓ) : Type ℓ where
  result : R → Outcome R E
  all_failed : Option E → Outcome R E

-- What an executor returns: `(interface{}, bool, error)`.
pub record Reply {ℓ} (R E : Type ℓ) : Type ℓ where
  pub value : R
  pub success : Bool
  pub error : Option E

module _ {ℓ} {W R E : Type ℓ} (executor : ApiKey → W → Reply R E × W)
    (on_failed : Option (ApiKey → W → W)) where
  -- the two `if` on a failed attempt: the callback, and `lastError`
  unfoldable pub note_failure : ApiKey → Option E → W → W
  note_failure k none w = w
  note_failure k (some e) w = elim on_failed [ none ↦ w | some callback ↦ callback k w ]

  unfoldable pub last_error_after : Option E → Option E → Option E
  last_error_after last none = last
  last_error_after last (some e) = some e

  -- the loop of `TryWithKeys`, with `lastError`
  unfoldable pub try_loop : List ApiKey → Option E → W → Outcome R E × W
  unfolding note_failure last_error_after
  try_loop [] last w = (all_failed last, w)
  try_loop (k ∷ keys) last w =
      let (reply, w') = executor k w in
      let rest =
        try_loop keys (last_error_after last reply.error) (note_failure k reply.error w') in
      if reply.success then (result reply.value, w') else rest

  unfoldable pub try_with_keys : List ApiKey → W → Outcome R E × W
  unfolding try_loop
  try_with_keys keys w = try_loop keys none w
