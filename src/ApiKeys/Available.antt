-- ===== src/ApiKeys/Available.antt =====
-- Which keys `GetAvailableKeys` (apikeys/manager.go) returns.
use proxy_common.Common.{
  ◌≡◌, refl, sym, subst, ap, not, if◌then◌else◌, ◌↔◌, ◌⊎◌, inl, inr, Bool, true, false, List, [],
  ◌∷◌, arith, ℤ, Elem, length, Elem-append_left, Elem-append_right, Elem-append_cases, Bool-cases,
}
use proxy_common.Common.Bytes.{Bytes}
use proxy_common.ApiKeys.{
  KeyType, ApiKey, api_key, Manager, is_key_in_backoff, not_in_backoff, available_of_type,
  available_of_types, get_available_keys,
}

module _ (m : Manager) (now : ℤ) where
  not_in_backoff_sound :
      (a : ApiKey) (t : KeyType) (keys : List Bytes)
      → Elem a (not_in_backoff m now t keys)
      → (a.key_type ≡ t) × Elem a.key keys × (is_key_in_backoff m now a.key ≡ false)
  unfolding not_in_backoff
  not_in_backoff_sound a t [] h = absurd h
  not_in_backoff_sound a t (key ∷ keys) h = go _ refl h (not_in_backoff_sound a t keys)
    where
      go :
          (b : Bool)
          → is_key_in_backoff m now key ≡ b
          → Elem a (
              if not b
              then api_key key t ∷ not_in_backoff m now t keys
              else not_in_backoff m now t keys)
          → (Elem a (not_in_backoff m now t keys)
              → (a.key_type ≡ t) × Elem a.key keys × (is_key_in_backoff m now a.key ≡ false))
          → (a.key_type ≡ t) × Elem a.key (key ∷ keys) × (is_key_in_backoff m now a.key ≡ false)
      go true q h ih = let (x, y, z) = ih h in (x, inr y, z)
      go false q (inl e) ih =
          (ap (λ r. r.key_type) e, inl (ap (λ r. r.key) e), rw (ap (λ r. r.key) e) q)
      go false q (inr r) ih = let (x, y, z) = ih r in (x, inr y, z)

  not_in_backoff_complete :
      (k : Bytes) (t : KeyType) (keys : List Bytes)
      → Elem k keys
      → is_key_in_backoff m now k ≡ false
      → Elem (api_key k t) (not_in_backoff m now t keys)
  unfolding not_in_backoff
  not_in_backoff_complete k t [] h q = absurd h
  not_in_backoff_complete k t (key ∷ keys) (inl e) q =
      let free : is_key_in_backoff m now key ≡ false = rw (← e) q in
      rw free (inl (ap (λ x. api_key x t) e))
  not_in_backoff_complete k t (key ∷ keys) (inr r) q =
      elim (Bool-cases (is_key_in_backoff m now key)) [
        | inl held ↦ rw held (not_in_backoff_complete k t keys r q)
        | inr free ↦ rw free (inr (not_in_backoff_complete k t keys r q))
      ]

  -- the condition under which a key of a type is returned
  abbrev IsAvailable : Bytes → List Bytes → Type 0
  IsAvailable k keys = Elem k keys × ((length keys ≡ 1) ⊎ (is_key_in_backoff m now k ≡ false))

  available_of_type_sound :
      (a : ApiKey) (t : KeyType) (keys : List Bytes)
      → Elem a (available_of_type m now t keys)
      → (a.key_type ≡ t) × IsAvailable a.key keys
  unfolding available_of_type
  available_of_type_sound a t [] h = absurd h
  available_of_type_sound a t (key ∷ []) (inl e) =
      (ap (λ r. r.key_type) e, (inl (ap (λ r. r.key) e), inl refl))
  available_of_type_sound a t (key ∷ []) (inr r) = absurd r
  available_of_type_sound a t (key ∷ key' ∷ keys) h =
      let (x, y, z) = not_in_backoff_sound a t (key ∷ key' ∷ keys) h in (x, (y, inr z))

  available_of_type_complete :
      (k : Bytes) (t : KeyType) (keys : List Bytes)
      → IsAvailable k keys
      → Elem (api_key k t) (available_of_type m now t keys)
  unfolding available_of_type
  available_of_type_complete k t [] (h, _) = absurd h
  available_of_type_complete k t (key ∷ []) (inl e, _) = inl (ap (λ x. api_key x t) e)
  available_of_type_complete k t (key ∷ []) (inr r, _) = absurd r
  available_of_type_complete k t (key ∷ key' ∷ keys) (h, inl e) = absurd (omega arith)
  available_of_type_complete k t (key ∷ key' ∷ keys) (h, inr q) =
      not_in_backoff_complete k t (key ∷ key' ∷ keys) h q

  available_of_types_sound :
      (a : ApiKey) (types : List KeyType)
      → Elem a (available_of_types m now types)
      → Elem a.key_type types × IsAvailable a.key (m.provider a.key_type)
  unfolding available_of_types
  available_of_types_sound a [] h = absurd h
  available_of_types_sound a (t ∷ types) h =
      elim (Elem-append_cases a (available_of_type m now t (m.provider t)) _ h) [
        | inl here ↦
            let (e, ok) = available_of_type_sound a t (m.provider t) here in
            (inl e, subst (λ x. IsAvailable a.key (m.provider x)) (sym e) ok)
        | inr later ↦ let (x, y) = available_of_types_sound a types later in (inr x, y)
      ]

  available_of_types_complete :
      (k : Bytes) (t : KeyType) (types : List KeyType)
      → Elem t types
      → IsAvailable k (m.provider t)
      → Elem (api_key k t) (available_of_types m now types)
  unfolding available_of_types
  available_of_types_complete k t [] h ok = absurd h
  available_of_types_complete k t (t' ∷ types) (inl e) ok =
      Elem-append_left _ (available_of_type m now t' (m.provider t')) _ (
        subst (λ x. Elem (api_key k t) (available_of_type m now x (m.provider x))) e
          (available_of_type_complete k t (m.provider t) ok))
  available_of_types_complete k t (t' ∷ types) (inr r) ok =
      Elem-append_right _ (available_of_type m now t' (m.provider t')) _
        (available_of_types_complete k t types r ok)

-- `get_available_keys` returns the key `k` with type `t` exactly when `t` is a configured type,
-- the provider has `k` for `t`, and `k` is the provider's only key of that type or is not in
-- backoff now.
pub get_available_keys_lem :
    (m : Manager) (now : ℤ) (k : Bytes) (t : KeyType)
    → Elem (api_key k t) (get_available_keys m now) ↔ (
        Elem t m.key_types
        × Elem k (m.provider t)
        × ((length (m.provider t) ≡ 1) ⊎ (is_key_in_backoff m now k ≡ false)))
unfolding get_available_keys
get_available_keys_lem m now k t = (
  λ h. let (x, (y, z)) = available_of_types_sound m now (api_key k t) m.key_types h in (x, y, z),
  λ h. available_of_types_complete m now k t m.key_types h.0 (h.1, h.2),
)
