-- ===== src/Server/State.antt =====
-- The server's state: the clients and the registry of server_state_t in faith-server/src/server/server.h.
-- A pointer to a client is its number; what lies outside of the process goes along.
use faith.Common.{ℕ, List, [], ◌∷◌, Option, none, some, ◌==◌, if◌then◌else◌}
use faith.Proto.Status.{Status, unreachable}
use faith.Server.HashMap.{HashMap}
use faith.Server.SessRegistry.{Client, Session, devmap_of}
use faith.Server.Client.{ClientConn}

-- `clients` in the order of the linked list.
pub record Server (W Rt : Type 0) : Type 0 where
  pub clients : List ClientConn
  pub rt : Rt
  pub world : W

abbrev pub get_client : ℕ → List ClientConn → Option ClientConn
get_client id [] = none
get_client id (cl ∷ cls) = if cl.conn.id == id then some cl else get_client id cls

-- A write through the pointer.
abbrev pub put_client : ClientConn → List ClientConn → List ClientConn
put_client new [] = []
put_client new (cl ∷ cls) = (if cl.conn.id == new.conn.id then new else cl) ∷ put_client new cls

-- What the registry reads of a client.
abbrev pub registered : ClientConn → Client
registered cl = record {
  id = cl.conn.id;
  auth_id = cl.ident.auth_id;
  device_id = cl.ident.device_id;
}

module _ {W Rt : Type 0} where
  abbrev pub stored : Server W Rt → Status × (ClientConn × W) → Status × Server W Rt
  stored s (rc, (cl, w)) = (rc, record s { clients = put_client cl s.clients; world = w })

  -- An operation on one client, through its pointer. No pointer to a client outlives it.
  unfoldable pub on_client :
      Server W Rt → ℕ → (ClientConn × W → Status × (ClientConn × W)) → Status × Server W Rt
  on_client s id op = elim (get_client id s.clients) [
    | none ↦ (unreachable, s)
    | some cl ↦ stored s (op (cl, s.world))
  ]

module _ (devices : HashMap (List ℕ) Session) (users : HashMap (List ℕ) devices.Map) where
  -- A write through the pointer to a session.
  unfoldable pub put_session : users.Map → List ℕ → List ℕ → Session → users.Map
  put_session rt auth_id device_id sess =
      users.put rt auth_id
        (devices.put (devmap_of devices users (users.get rt auth_id)) device_id sess)

-- The same with the registry at hand.
module _ {W Rt : Type 0} where
  abbrev pub seat_stored : Server W Rt → Status × ((ClientConn × W) × Rt) → Status × Server W Rt
  seat_stored s (rc, ((cl, w), rt)) =
      (rc, record { clients = put_client cl s.clients; rt = rt; world = w })

  unfoldable pub on_seat :
      Server W Rt
      → ℕ
      → ((ClientConn × W) × Rt → Status × ((ClientConn × W) × Rt))
      → Status × Server W Rt
  on_seat s id op = elim (get_client id s.clients) [
    | none ↦ (unreachable, s)
    | some cl ↦ seat_stored s (op ((cl, s.world), s.rt))
  ]
