-- ===== src/Server/SessRegistry/Occupancy.antt =====
-- The devices of the accounts that the registry keeps.
use faith.Common.{
  ℕ, ◌≡◌, sym, subst, List, Bool, true, false, Option, none, some, inl, inr, Bool-cases,
}
use faith.Server.HashMap.{HashMap}
use faith.Server.SessRegistry.{
  Client, Session, new_session, register_session, unregister_session, unregister_in, without,
}

module _ (devices : HashMap (List ℕ) Session) (users : HashMap (List ℕ) devices.Map) where
  abbrev pub Occupied : Option devices.Map → Type 0
  Occupied none = Unit
  Occupied (some devmap) = devices.is_empty devmap ≡ false

  -- Every account that is there has a device.
  abbrev pub HasDevices : users.Map → Type 0
  HasDevices rt = (auth_id : List ℕ) → Occupied (users.get rt auth_id)

  put-HasDevices :
      (rt : users.Map) (auth_id : List ℕ) (devmap : devices.Map)
      → HasDevices rt
      → devices.is_empty devmap ≡ false
      → HasDevices (users.put rt auth_id devmap)
  put-HasDevices rt auth_id devmap h e other = elim (users.same auth_id other) [
    | inl p ↦
        subst (λ (a : List ℕ). Occupied (users.get (users.put rt auth_id devmap) a)) p
          (subst Occupied (sym (users.get-put rt auth_id devmap)) e)
    | inr n ↦ subst Occupied (sym (users.get-put_other rt auth_id other devmap n)) (h other)
  ]

  del-HasDevices :
      (rt : users.Map) (auth_id : List ℕ) → HasDevices rt → HasDevices (users.del rt auth_id)
  del-HasDevices rt auth_id h other = elim (users.same auth_id other) [
    | inl p ↦
        subst (λ (a : List ℕ). Occupied (users.get (users.del rt auth_id) a)) p
          (subst Occupied (sym (users.get-del rt auth_id)) tt)
    | inr n ↦ subst Occupied (sym (users.get-del_other rt auth_id other n)) (h other)
  ]

  without-HasDevices :
      (rt : users.Map) (auth_id device_id : List ℕ) (devmap : devices.Map) (sess : Option Session)
      → HasDevices rt
      → HasDevices (without devices users rt auth_id devmap sess device_id).1
  without-HasDevices rt auth_id device_id devmap none h = h
  without-HasDevices rt auth_id device_id devmap (some sess) h =
      elim (Bool-cases (devices.is_empty (devices.del devmap device_id))) [
        | inl t ↦ rw t (del-HasDevices rt auth_id h)
        | inr f ↦ rw f (put-HasDevices rt auth_id (devices.del devmap device_id) h f)
      ]

  unregister_in-HasDevices :
      (rt : users.Map) (auth_id device_id : List ℕ) (user : Option devices.Map)
      → HasDevices rt
      → HasDevices (unregister_in devices users rt auth_id user device_id).1
  unregister_in-HasDevices rt auth_id device_id none h = h
  unregister_in-HasDevices rt auth_id device_id (some devmap) h =
      without-HasDevices rt auth_id device_id devmap (devices.get devmap device_id) h

-- If every account in the registry has a device, this is so after a registration, whether or not its
-- allocation succeeds.
pub register_session-HasDevices :
    (devices : HashMap (List ℕ) Session) (users : HashMap (List ℕ) devices.Map) (rt : users.Map)
    (granted : Bool) (auth_id device_id public_key : List ℕ) (cl : Client)
    → HasDevices devices users rt
    → HasDevices devices users
        (register_session devices users granted rt auth_id device_id cl public_key).1
unfolding register_session
register_session-HasDevices devices users rt false auth_id device_id public_key cl h = h
register_session-HasDevices devices users rt true auth_id device_id public_key cl h =
    put-HasDevices devices users rt auth_id _ h (
      devices.is_empty-some _ device_id (new_session cl public_key) (devices.get-put _ device_id _))

-- If every account in the registry has a device, this is so after the removal of a session: the account
-- goes with its last device.
pub unregister_session-HasDevices :
    (devices : HashMap (List ℕ) Session) (users : HashMap (List ℕ) devices.Map) (rt : users.Map)
    (auth_id device_id : List ℕ)
    → HasDevices devices users rt
    → HasDevices devices users (unregister_session devices users rt auth_id device_id).1
unfolding unregister_session
unregister_session-HasDevices devices users rt auth_id device_id h =
    unregister_in-HasDevices devices users rt auth_id device_id (users.get rt auth_id) h
