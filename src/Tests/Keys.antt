-- ===== src/Tests/Keys.antt =====
-- Runs of the key manager of apikeys/manager.go and apikeys/rotator.go.
use proxy_common.Common.{
  ℕ, ◌+◌, ◌≡◌, ◌⊎◌, ◌↔◌, ◌&&◌, not, true, false, none, some, List, [], ◌∷◌, pos, eqb_ℤ, Elem,
  length, if◌then◌else◌,
}
use proxy_common.Common.Bytes.{Bytes, codes, bytes_eq, bytes_has_eq}
use proxy_common.Common.GoMap.{lookup}
use proxy_common.ApiKeys.{
  KeyType, ApiKey, api_key, Manager, new_manager, get_available_keys, is_key_in_backoff,
  mark_key_as_failed, create_fail_callback, Reply, try_with_keys,
}
use proxy_common.ApiKeys.Available.{get_available_keys_lem}
use proxy_common.ApiKeys.Rotator.{
  FirstSuccess, Exhausted, try_with_keys_lem, answering, blamed, try_with_keys_marks,
}

abbrev provider : KeyType → List Bytes
provider t = if eqb_ℤ t (pos 1) then codes "a" ∷ codes "b" ∷ [] else codes "free" ∷ []

abbrev manager : Manager
manager = new_manager provider (pos 1 ∷ pos 2 ∷ []) (pos 0)

-- only the key "b" works
abbrev answer : ApiKey → Reply ℕ Bytes
answer k =
    if bytes_eq k.key (codes "b")
    then record { value = 200; success = true; error = none }
    else record { value = 0; success = false; error = some (codes "denied") }

-- an executor that counts its calls
abbrev counting : ApiKey → ℕ → Reply ℕ Bytes × ℕ
counting k w = (answer k, w + 1)

abbrev all_keys : List ApiKey
all_keys =
    api_key (codes "a") (pos 1) ∷ api_key (codes "b") (pos 1) ∷ api_key (codes "free") (pos 2) ∷ []

get_available_keys_example :
    Elem
      (api_key (codes "a") (pos 1))
      (get_available_keys (mark_key_as_failed (pos 7) (codes "a") manager) (pos 8))
    ↔ (Elem (pos 1) (mark_key_as_failed (pos 7) (codes "a") manager).key_types
        × Elem (codes "a") ((mark_key_as_failed (pos 7) (codes "a") manager).provider (pos 1))
        × ((length ((mark_key_as_failed (pos 7) (codes "a") manager).provider (pos 1)) ≡ 1)
            ⊎ (is_key_in_backoff
                  (mark_key_as_failed (pos 7) (codes "a") manager)
                  (pos 8)
                  (codes "a")
                ≡ false)))
get_available_keys_example =
    get_available_keys_lem (mark_key_as_failed (pos 7) (codes "a") manager) (pos 8) (codes "a")
      (pos 1)

try_with_keys_example :
    FirstSuccess counting none all_keys 0 (try_with_keys counting none all_keys 0)
    ⊎ Exhausted counting none all_keys none 0 (try_with_keys counting none all_keys 0)
try_with_keys_example = try_with_keys_lem counting none all_keys 0

try_with_keys_marks_example :
    lookup
      (codes "a")
      (try_with_keys
        (answering answer (pos 7))
        (some (create_fail_callback (pos 7)))
        all_keys
        manager).1.last_failed
    ≡ (if not (bytes_eq (codes "a") []) && blamed answer (pos 7) all_keys (codes "a")
        then some (pos 7)
        else lookup (codes "a") manager.last_failed)
try_with_keys_marks_example = try_with_keys_marks answer (pos 7) all_keys manager (codes "a")
