-- ===== src/Server/SessRegistry/Lookup.antt =====
-- What registration and removal of a session change in the registry.
use faith.Common.{
  ◌≡◌, ◌≢◌, refl, ap, ◌∙◌, subst, List, ℕ, Bool, true, false, Option, none, some, ◌⊎◌, inl, inr,
  Bool-cases, sym,
}
use faith.Proto.Status.{Status, ok, not_found}
use faith.Server.HashMap.{HashMap}
use faith.Server.SessRegistry.{
  Client, Session, new_session, devmap_of, register_session, get_session, unregister_session,
  unregister_in, without,
}
use faith.Server.SessRegistry.Change.{found_in, lookup, devmap_of-found, put-lookup, put-elsewhere}

-- A registration whose allocation succeeds is found by the lookup of its account and device, with an
-- empty inbox.
pub register_session-lookup :
    (devices : HashMap (List ℕ) Session) (users : HashMap (List ℕ) devices.Map) (rt : users.Map)
    (auth_id device_id public_key : List ℕ) (cl : Client)
    → get_session devices users
        (register_session devices users true rt auth_id device_id cl public_key).1
        auth_id
        device_id
      ≡ (ok, some (new_session cl public_key))
unfolding register_session get_session
register_session-lookup devices users rt auth_id device_id public_key cl =
    rw
      (users.get-put rt auth_id (
        devices.put (devmap_of devices users (users.get rt auth_id)) device_id
          (new_session cl public_key)))
      (ap (λ (s : Option Session). (ok, s))
        (devices.get-put _ device_id (new_session cl public_key)))

-- A registration changes the session of no other account or device, whether or not the allocation succeeds.
pub register_session-lookup_other :
    (devices : HashMap (List ℕ) Session) (users : HashMap (List ℕ) devices.Map) (rt : users.Map)
    (granted : Bool) (auth_id device_id public_key : List ℕ) (cl : Client)
    (auth_id' device_id' : List ℕ)
    → (auth_id ≢ auth_id') ⊎ (device_id ≢ device_id')
    → lookup devices users
        (register_session devices users granted rt auth_id device_id cl public_key).1
        auth_id'
        device_id'
      ≡ lookup devices users rt auth_id' device_id'
unfolding register_session
register_session-lookup_other devices users rt false auth_id device_id public_key cl auth_id'
      device_id' other =
    refl
register_session-lookup_other devices users rt true auth_id device_id public_key cl auth_id'
      device_id' other =
    put-elsewhere devices users rt auth_id device_id _ auth_id' device_id'
      (λ h.
        devices.get-put_other _ device_id device_id' (new_session cl public_key) h
        ∙ devmap_of-found devices users (users.get rt auth_id) device_id')
      other

module _ (devices : HashMap (List ℕ) Session) (users : HashMap (List ℕ) devices.Map)
    (rt : users.Map) (auth_id device_id : List ℕ) where
  abbrev pub IsRemoved : Option Session → Status × users.Map → Type 0
  IsRemoved none (rc, rt') = (rc ≡ not_found) × (lookup devices users rt' auth_id device_id ≡ none)
  IsRemoved (some sess) (rc, rt') = (rc ≡ ok) × (lookup devices users rt' auth_id device_id ≡ none)

  IsRemoved-device :
      (devmap : devices.Map) (sess : Option Session)
      → users.get rt auth_id ≡ some devmap
      → devices.get devmap device_id ≡ sess
      → IsRemoved sess (without devices users rt auth_id devmap sess device_id)
  IsRemoved-device devmap none e p =
      (refl, ap (λ (u : Option devices.Map). found_in devices users u device_id) e ∙ p)
  IsRemoved-device devmap (some sess) e p = (
    refl,
    elim (Bool-cases (devices.is_empty (devices.del devmap device_id))) [
      | inl t ↦ rw t (
          ap (λ (u : Option devices.Map). found_in devices users u device_id)
            (users.get-del rt auth_id))
      | inr f ↦ rw f (
          put-lookup devices users rt auth_id device_id (devices.del devmap device_id)
          ∙ devices.get-del devmap device_id)
    ],
  )

  IsRemoved-user :
      (user : Option devices.Map)
      → users.get rt auth_id ≡ user
      → IsRemoved
          (found_in devices users user device_id)
          (unregister_in devices users rt auth_id user device_id)
  IsRemoved-user none e =
      (refl, ap (λ (u : Option devices.Map). found_in devices users u device_id) e)
  IsRemoved-user (some devmap) e = IsRemoved-device devmap (devices.get devmap device_id) e refl

-- A session that is removed is not found again: the answer is FAITH_OK if there was one and
-- FAITH_ERR_NOT_FOUND if not, and after either the lookup finds none.
pub unregister_session-IsRemoved :
    (devices : HashMap (List ℕ) Session) (users : HashMap (List ℕ) devices.Map) (rt : users.Map)
    (auth_id device_id : List ℕ)
    → IsRemoved devices users rt auth_id device_id
        (lookup devices users rt auth_id device_id)
        (unregister_session devices users rt auth_id device_id)
unfolding unregister_session
unregister_session-IsRemoved devices users rt auth_id device_id =
    IsRemoved-user devices users rt auth_id device_id (users.get rt auth_id) refl

module _ (devices : HashMap (List ℕ) Session) (users : HashMap (List ℕ) devices.Map)
    (rt : users.Map) (auth_id device_id auth_id' device_id' : List ℕ)
    (other : (auth_id ≢ auth_id') ⊎ (device_id ≢ device_id')) where
  -- An account that goes has no other device.
  del-elsewhere :
      (auth_id ≢ auth_id') ⊎ (device_id ≢ device_id')
      → (device_id ≢ device_id' → found_in devices users (users.get rt auth_id) device_id' ≡ none)
      → lookup devices users (users.del rt auth_id) auth_id' device_id'
        ≡ lookup devices users rt auth_id' device_id'
  del-elsewhere (inl h) last =
      ap (λ (u : Option devices.Map). found_in devices users u device_id')
        (users.get-del_other rt auth_id auth_id' h)
  del-elsewhere (inr h) last = elim (users.same auth_id auth_id') [
    | inl e ↦
        subst
          (λ (a : List ℕ).
            lookup devices users (users.del rt auth_id) a device_id'
            ≡ lookup devices users rt a device_id')
          e
          (ap (λ (u : Option devices.Map). found_in devices users u device_id')
              (users.get-del rt auth_id)
            ∙ sym (last h))
    | inr n ↦
        ap (λ (u : Option devices.Map). found_in devices users u device_id')
          (users.get-del_other rt auth_id auth_id' n)
  ]

  kept_device :
      (devmap : devices.Map) (sess : Option Session)
      → users.get rt auth_id ≡ some devmap
      → lookup devices users
          (without devices users rt auth_id devmap sess device_id).1
          auth_id'
          device_id'
        ≡ lookup devices users rt auth_id' device_id'
  kept_device devmap none e = refl
  kept_device devmap (some sess) e =
      let here : found_in devices users (users.get rt auth_id) device_id'
          ≡ devices.get devmap device_id' =
        ap (λ (u : Option devices.Map). found_in devices users u device_id') e in
      elim (Bool-cases (devices.is_empty (devices.del devmap device_id))) [
        | inl t ↦ rw t (
            del-elsewhere other (λ h.
              here
              ∙ sym (devices.get-del_other devmap device_id device_id' h)
              ∙ devices.is_empty-none (devices.del devmap device_id) device_id' t))
        | inr f ↦ rw f (
            put-elsewhere devices users rt auth_id device_id (devices.del devmap device_id) auth_id'
              device_id' (λ h. devices.get-del_other devmap device_id device_id' h ∙ sym here)
              other)
      ]

  kept_user :
      (user : Option devices.Map)
      → users.get rt auth_id ≡ user
      → lookup devices users
          (unregister_in devices users rt auth_id user device_id).1
          auth_id'
          device_id'
        ≡ lookup devices users rt auth_id' device_id'
  kept_user none e = refl
  kept_user (some devmap) e = kept_device devmap (devices.get devmap device_id) e

-- The removal of a session changes that of no other account or device, though the account goes with its
-- last device.
pub unregister_session-lookup_other :
    (devices : HashMap (List ℕ) Session) (users : HashMap (List ℕ) devices.Map) (rt : users.Map)
    (auth_id device_id auth_id' device_id' : List ℕ)
    → (auth_id ≢ auth_id') ⊎ (device_id ≢ device_id')
    → lookup devices users
        (unregister_session devices users rt auth_id device_id).1
        auth_id'
        device_id'
      ≡ lookup devices users rt auth_id' device_id'
unfolding unregister_session
unregister_session-lookup_other devices users rt auth_id device_id auth_id' device_id' other =
    kept_user devices users rt auth_id device_id auth_id' device_id' other (users.get rt auth_id)
      refl
