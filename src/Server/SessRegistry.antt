-- ===== src/Server/SessRegistry.antt =====
-- The sessions of the devices that are known: faith-server/src/server/sess_registry.c.
-- `users` maps an account to the map of its devices, each with its session.
pub mod Change
pub mod Lookup
pub mod Occupancy
use faith.Common.{ℕ, List, Bool, not, Option, none, some, if◌then◌else◌, false, true}
use faith.Proto.Status.{Status, ok, not_found, nomem}
use faith.Server.EventInbox.{Inbox, init}
use faith.Server.HashMap.{HashMap}

-- What of a client_conn_t the registry reads.
pub record Client : Type 0 where
  pub id : ℕ
  pub auth_id : List ℕ
  pub device_id : List ℕ

-- client_device_session_data_t
pub record Session : Type 0 where
  pub conn : Option Client
  pub auth_id : List ℕ
  pub device_id : List ℕ
  pub public_key : List ℕ
  pub inbox : Inbox

-- The session that a registration makes.
abbrev pub new_session : Client → List ℕ → Session
new_session cl public_key = record {
  conn = some cl;
  auth_id = cl.auth_id;
  device_id = cl.device_id;
  public_key = public_key;
  inbox = init;
}

-- No pointer is null at any call.
module _ (devices : HashMap (List ℕ) Session) (users : HashMap (List ℕ) devices.Map) where
  -- hmget: NULL, which is the empty map, for an account that is not there.
  abbrev pub devmap_of : Option devices.Map → devices.Map
  devmap_of none = devices.empty
  devmap_of (some devmap) = devmap

  unfoldable pub auth_id_registered : users.Map → List ℕ → Bool
  auth_id_registered rt auth_id = elim (users.get rt auth_id) [ none ↦ false | some d ↦ true ]

  unfoldable pub get_devices : users.Map → List ℕ → Status × Option devices.Map
  get_devices rt auth_id = elim (users.get rt auth_id) [
    | none ↦ (not_found, none)
    | some devmap ↦ (ok, some devmap)
  ]

  unfoldable pub register_session :
      Bool → users.Map → List ℕ → List ℕ → Client → List ℕ → Status × users.Map
  register_session granted rt auth_id device_id cl public_key =
      if not granted then (nomem, rt) else (
        ok,
        users.put rt auth_id
            (devices.put (devmap_of (users.get rt auth_id)) device_id (new_session cl public_key)),
      )

  abbrev session_in : Option devices.Map → List ℕ → Status × Option Session
  session_in none device_id = (not_found, none)
  session_in (some devmap) device_id = (ok, devices.get devmap device_id)

  unfoldable pub get_session : users.Map → List ℕ → List ℕ → Status × Option Session
  get_session rt auth_id device_id = session_in (users.get rt auth_id) device_id

  -- Without its last device the account goes too.
  abbrev without : users.Map → List ℕ → devices.Map → Option Session → List ℕ → Status × users.Map
  without rt auth_id devmap none device_id = (not_found, rt)
  without rt auth_id devmap (some sess) device_id =
      let left = devices.del devmap device_id in
      (ok, if devices.is_empty left then users.del rt auth_id else users.put rt auth_id left)

  abbrev unregister_in : users.Map → List ℕ → Option devices.Map → List ℕ → Status × users.Map
  unregister_in rt auth_id none device_id = (not_found, rt)
  unregister_in rt auth_id (some devmap) device_id =
      without rt auth_id devmap (devices.get devmap device_id) device_id

  unfoldable pub unregister_session : users.Map → List ℕ → List ℕ → Status × users.Map
  unregister_session rt auth_id device_id =
      unregister_in rt auth_id (users.get rt auth_id) device_id

  unfoldable pub destroy_registry : users.Map → Status × users.Map
  destroy_registry rt = (ok, users.empty)
