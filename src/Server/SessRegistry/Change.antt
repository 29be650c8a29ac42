-- ===== src/Server/SessRegistry/Change.antt =====
-- The registry as a map from pairs of account and device to sessions, and what a change at one
-- account leaves elsewhere.
use faith.Common.{◌≡◌, ◌≢◌, refl, ap, ◌∙◌, subst, List, ℕ, Option, none, some, ◌⊎◌, inl, inr}
use faith.Server.HashMap.{HashMap}
use faith.Server.SessRegistry.{Session, devmap_of, session_in}

module _ (devices : HashMap (List ℕ) Session) (users : HashMap (List ℕ) devices.Map) where
  abbrev pub found_in : Option devices.Map → List ℕ → Option Session
  found_in none device_id = none
  found_in (some devmap) device_id = devices.get devmap device_id

  -- The session of a device, or none.
  abbrev pub lookup : users.Map → List ℕ → List ℕ → Option Session
  lookup rt auth_id device_id = found_in (users.get rt auth_id) device_id

  -- The devices of an account that is not there are none.
  pub devmap_of-found :
      (user : Option devices.Map) (device_id : List ℕ)
      → devices.get (devmap_of devices users user) device_id ≡ found_in user device_id
  devmap_of-found none device_id = devices.get-empty device_id
  devmap_of-found (some devmap) device_id = refl

  session_in-found :
      (user : Option devices.Map) (device_id : List ℕ)
      → (session_in devices users user device_id).1 ≡ found_in user device_id
  session_in-found none device_id = refl
  session_in-found (some devmap) device_id = refl

  -- A map of devices that replaces an account's is seen there, and nowhere else.
  pub put-lookup :
      (rt : users.Map) (auth_id device_id : List ℕ) (devmap : devices.Map)
      → lookup (users.put rt auth_id devmap) auth_id device_id ≡ devices.get devmap device_id
  put-lookup rt auth_id device_id devmap =
      ap (λ (u : Option devices.Map). found_in u device_id) (users.get-put rt auth_id devmap)

  put-lookup_other :
      (rt : users.Map) (auth_id auth_id' device_id' : List ℕ) (devmap : devices.Map)
      → auth_id ≢ auth_id'
      → lookup (users.put rt auth_id devmap) auth_id' device_id' ≡ lookup rt auth_id' device_id'
  put-lookup_other rt auth_id auth_id' device_id' devmap h =
      ap (λ (u : Option devices.Map). found_in u device_id')
        (users.get-put_other rt auth_id auth_id' devmap h)

  -- A map of devices that differs at one device only.
  pub put-elsewhere :
      (rt : users.Map) (auth_id device_id : List ℕ) (devmap : devices.Map)
      (auth_id' device_id' : List ℕ)
      → (device_id ≢ device_id'
          → devices.get devmap device_id' ≡ found_in (users.get rt auth_id) device_id')
      → (auth_id ≢ auth_id') ⊎ (device_id ≢ device_id')
      → lookup (users.put rt auth_id devmap) auth_id' device_id' ≡ lookup rt auth_id' device_id'
  put-elsewhere rt auth_id device_id devmap auth_id' device_id' same (inl h) =
      put-lookup_other rt auth_id auth_id' device_id' devmap h
  put-elsewhere rt auth_id device_id devmap auth_id' device_id' same (inr h) =
      elim (users.same auth_id auth_id') [
        | inl e ↦
            subst
              (λ (a : List ℕ).
                lookup (users.put rt auth_id devmap) a device_id' ≡ lookup rt a device_id')
              e (put-lookup rt auth_id device_id' devmap ∙ same h)
        | inr n ↦ put-lookup_other rt auth_id auth_id' device_id' devmap n
      ]
