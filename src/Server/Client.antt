-- ===== src/Server/Client.antt =====
-- The state of a client's connection: client_conn_t in faith-server/src/server/server.h,
-- client_auth_handshake_params_t in faith-server/src/auth/helpers.h, application_user_identity_t in
-- faith-server/src/application/user.h.
use faith.Common.{ℕ, List, Bool, Option}
use faith.Proto.Auth.{DeviceLinkReq}
use faith.Server.Conn.{Conn}
use faith.Server.Reactor.{Source}
use faith.Server.Transport.{Queue}

pub data ClientState : Type 0 where
  client_handshake client_open client_closing client_wait_for_hello : ClientState
  client_wait_for_challenge_response client_wait_for_device_link_response : ClientState

pub record Identity : Type 0 where
  pub auth_id : List ℕ
  pub device_id : List ℕ
  pub public_key : List ℕ

pub record HandshakeParams : Type 0 where
  pub nonce : ℕ
  pub server_nonce : ℕ
  pub public_key : List ℕ
  pub sender_auth_id : List ℕ
  pub device_id : List ℕ

-- `next` and `prev` are the place in the server's list; another client is pointed to by its number.
pub record ClientConn : Type 0 where
  pub ident : Identity
  pub pending_auth_id : List ℕ
  pub conn : Conn
  pub reactor_source : Source
  pub state : ClientState
  pub temp_handshake_params : HandshakeParams
  pub pending_device_link_req : Option DeviceLinkReq
  pub pending_device_link_conn : Option ℕ
  pub authorized : Bool
  pub closing : Bool
  pub close_after_flush : Bool

-- server_set_client_state
unfoldable pub set_client_state : ClientConn → ClientState → ClientConn
set_client_state cl state = record cl { state = state }

-- `cl->conn.out = out;`
abbrev pub put_out : ClientConn → Queue → ClientConn
put_out cl out = record cl { conn = record cl.conn { out = out } }
