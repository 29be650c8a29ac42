-- ===== src/Server/Devices.antt =====
-- The loop over the connections of an account: _FH_FOR_EACH_AUTH_DEVICE_CONNECTION in
-- faith-server/src/auth/helpers.h.
use faith.Common.{ℕ, List, [], ◌∷◌, Bool, true, false, not, ◌||◌, Option, none, some}
use faith.Proto.Status.{Status}
use faith.Server.Client.{ClientConn, ClientState, client_open}
use faith.Server.HashMap.{HashMap}
use faith.Server.SessRegistry.{Session, get_devices}
use faith.Server.State.{Server, get_client}

abbrev pub is_open : ClientState → Bool
is_open client_open = true
is_open other = false

-- A body ends with the next round, or returns from the function that the loop stands in.
pub data Loop (S : Type 0) : Type 0 where
  next : S → Loop S
  returned : Status → S → Loop S

abbrev pub and_round : {S : Type 0} → Loop S → (S → Loop S) → Loop S
and_round (next s) k = k s
and_round (returned rc s) k = returned rc s

module _ {W Rt S : Type 0} (server : S → Server W Rt) (body : S → ClientConn → Loop S) where
  abbrev pub round_on : S → Option ClientConn → Loop S
  round_on s none = next s
  round_on s (some cl) = elim (cl.closing || (not cl.authorized || not (is_open cl.state))) [
    | true ↦ next s
    | false ↦ body s cl
  ]

  abbrev pub connection_of : S → Session → Option ClientConn
  connection_of s sess = elim sess.conn [
    | none ↦ none
    | some conn ↦ get_client conn.id (server s).clients
  ]

  unfoldable pub for_each : List Session → S → Loop S
  for_each [] s = next s
  for_each (sess ∷ rest) s = and_round (round_on s (connection_of s sess)) (λ s'. for_each rest s')

module _ (devices : HashMap (List ℕ) Session) (users : HashMap (List ℕ) devices.Map) where
  -- An account that is not there has no connection.
  abbrev pub sessions_of : users.Map → List ℕ → List Session
  sessions_of rt auth_id = elim (get_devices devices users rt auth_id).1 [
    | none ↦ []
    | some devmap ↦ devices.values devmap
  ]

  unfoldable pub for_each_auth_device_connection :
      {W S : Type 0} → (S → Server W users.Map) → (S → ClientConn → Loop S) → List ℕ → S → Loop S
  for_each_auth_device_connection server body auth_id s =
      for_each server body (sessions_of (server s).rt auth_id) s
