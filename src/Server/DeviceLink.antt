-- ===== src/Server/DeviceLink.antt =====
-- Linking a new device to an account: faith-server/src/auth/device_link.c, apart from the answer of the
-- account's devices.
pub mod Cancel
pub mod Response
pub mod Approved
use faith.Common.{
  ℕ, ◌+◌, ◌*◌, ◌%◌, ◌^◌, List, Bool, true, false, not, ◌||◌, Option, none, some, if◌then◌else◌,
  replicate, text,
}
use faith.Proto.Status.{
  Status, ok, invalid, nomem, not_found, unauthorized, bad_envelope, unreachable,
}
use faith.Proto.Auth.{
  DeviceLinkReq, encode_device_link_req_body, device_link_req_body_size, device_link_code_size,
}
use faith.Proto.Codec.Encode.{Encoded}
use faith.Proto.Crypto.{random_bytes}
use faith.Proto.Envelope.Types.{envelope_device_link_request, envelope_device_auth_response_failed}
use faith.Server.Steps.{is_ok, and_then}
use faith.Server.HashMap.{HashMap}
use faith.Server.SessRegistry.{Session, auth_id_registered}
use faith.Server.Reactor.{Reactor}
use faith.Server.Platform.{Platform}
use faith.Server.Client.{
  ClientConn, ClientState, HandshakeParams, set_client_state, client_wait_for_device_link_response,
}
use faith.Server.ClientIo.{
  Task, queue_envelope_or_mark_dead, client_queue_disconnect, disconnect_message,
  disconnect_device_rejected, disconnect_internal_error, reconnect_forbidden,
}
use faith.Server.State.{Server, get_client, put_client, on_client}
use faith.Server.Events.{State, to_client}
use faith.Server.Devices.{Loop, next, returned, is_open, for_each_auth_device_connection}
use faith.Server.Handshake.{notice, queue_auth_pending, waits_for_challenge_response}

-- sizeof(faith_envl_stc_device_link_req_t)
abbrev pub device_link_req_size : ℕ
device_link_req_size = 88

abbrev pub device_link_req_expiration_time_ms : ℕ
device_link_req_expiration_time_ms = 1000 * 60

-- device_link_remove_request
unfoldable pub remove_request : ClientConn → ClientConn
remove_request cl = elim cl.pending_device_link_req [
  | none ↦ cl
  | some req ↦ record cl { pending_device_link_req = none; pending_device_link_conn = none }
]

abbrev pub waits_for_device_link_response : ClientState → Bool
waits_for_device_link_response client_wait_for_device_link_response = true
waits_for_device_link_response other = false

abbrev pub another_pending : List ℕ
another_pending = text "Another device-link request is already pending on this account."

abbrev pub invalid_internal_state : List ℕ
invalid_internal_state = text "The specified auth ID is in an invalid internal state."

-- A change of a client's fields through its pointer.
abbrev pub modify_client :
    {W Rt : Type 0} → Server W Rt → ℕ → (ClientConn → ClientConn) → Server W Rt
modify_client s id f = elim (get_client id s.clients) [
  | none ↦ s
  | some cl ↦ record s { clients = put_client (f cl) s.clients }
]

module _ (p : Platform) (r : Reactor) (devices : HashMap (List ℕ) Session)
    (users : HashMap (List ℕ) devices.Map) where
  unfoldable pub send_device_auth_response_failed : Task p r → Status × Task p r
  send_device_auth_response_failed (cl, w) =
      let queued =
        queue_envelope_or_mark_dead p r (cl, w)
          (notice envelope_device_auth_response_failed cl.ident.auth_id) in
      if cl.closing then (invalid, (cl, w)) else queued

  -- The state, and `*o_req`.
  abbrev pub Requested : Type 0
  Requested = State p r devices users × Option DeviceLinkReq

  abbrev pub with_req : Option DeviceLinkReq → Status × State p r devices users → Status × Requested
  with_req req (rc, s) = elim (is_ok rc) [ true ↦ (rc, (s, req)) | false ↦ (rc, (s, none)) ]

  abbrev pub link_req : List ℕ → List ℕ → List ℕ → List ℕ → ℕ → DeviceLinkReq
  link_req auth_id public_key device_id link_code now = record {
    auth_id = auth_id;
    public_key_new_device = public_key;
    device_id_new = device_id;
    link_code = link_code;
    expires_at_ms = (now + device_link_req_expiration_time_ms) % 2 ^ 64;
  }

  abbrev pub req_body : DeviceLinkReq → Encoded
  req_body req =
      encode_device_link_req_body (some (replicate device_link_req_body_size 0)) (some 0)
        device_link_req_body_size (some req)

  abbrev pub req_queued : State p r devices users → ℕ → DeviceLinkReq → Status × Requested
  req_queued s recipient_id req = with_req (some req) (
      and_then ((req_body req).status, s)
        (λ s'. on_client s' recipient_id (λ task.
          queue_envelope_or_mark_dead p r task
            (to_client envelope_device_link_request req.auth_id (req_body req)))))

  -- The code is drawn, then the clock is read.
  abbrev pub req_drawn :
      State p r devices users
      → ℕ
      → List ℕ
      → List ℕ
      → List ℕ
      → (Bool × List ℕ) × p.World
      → Status × Requested
  req_drawn s recipient_id auth_id public_key device_id ((granted, link_code), w) =
      let (now, w') = p.now_ms w in
      elim granted [
        | false ↦ (random_bytes false, (record s { world = w }, none))
        | true ↦
            req_queued (record s { world = w' }) recipient_id
              (link_req auth_id public_key device_id link_code now)
      ]

  unfoldable pub queue_request :
      State p r devices users
      → ClientConn
      → ClientConn
      → List ℕ
      → List ℕ
      → List ℕ
      → Status × Requested
  queue_request s recipient_cl request_cl auth_id public_key device_id =
      if not (is_open recipient_cl.state)
      then (bad_envelope, (s, none))
      else if request_cl.closing || recipient_cl.closing
      then (invalid, (s, none))
      else if not recipient_cl.authorized
      then (unauthorized, (s, none))
      else elim recipient_cl.pending_device_link_req [
        | some pending ↦ (
          ok,
          (
            (on_client s request_cl.conn.id (λ task. client_queue_disconnect p r task (
                disconnect_message disconnect_device_rejected reconnect_forbidden
                  another_pending))).1,
            none,
          ),
        )
        | none ↦ elim (p.alloc device_link_req_size) [
          | false ↦ (nomem, (s, none))
          | true ↦
              req_drawn s recipient_cl.conn.id auth_id public_key device_id
                (p.rand_bytes s.world device_link_code_size)
        ]
      ]

  -- The request goes to the device, with the connection that made it.
  abbrev pub pend : ℕ → ℕ → Status × Requested → Loop (State p r devices users)
  pend recipient_id request_id (rc, (s, none)) = returned rc s
  pend recipient_id request_id (rc, (s, some req)) = elim (is_ok rc) [
    | false ↦ returned rc s
    | true ↦ next (
        modify_client s recipient_id (λ cl. record cl {
          pending_device_link_req = some req;
          pending_device_link_conn = some request_id;
        }))
  ]

  abbrev pub ask_device :
      ℕ → HandshakeParams → State p r devices users → ClientConn → Loop (State p r devices users)
  ask_device id params s authorized_cl = elim (get_client id s.clients) [
    | none ↦ returned unreachable s
    | some cl ↦
        pend authorized_cl.conn.id id (
          queue_request s authorized_cl cl params.sender_auth_id params.public_key params.device_id)
  ]

  abbrev pub waiting :
      ℕ → HandshakeParams → Status × State p r devices users → Status × State p r devices users
  waiting id params (rc, s) = elim (is_ok rc) [
    | false ↦ (rc, s)
    | true ↦ (
      ok,
      modify_client s id (λ cl.
          set_client_state (record cl { pending_auth_id = params.sender_auth_id })
            client_wait_for_device_link_response),
    )
  ]

  abbrev pub after_asking :
      ℕ → HandshakeParams → Loop (State p r devices users) → Status × State p r devices users
  after_asking id params (returned rc s) = (rc, s)
  after_asking id params (next s) = waiting id params (on_client s id (queue_auth_pending p r))

  unfoldable pub new_device :
      State p r devices users → ℕ → ClientConn → HandshakeParams → Status × State p r devices users
  unfolding set_client_state
  new_device s id cl params =
      if cl.closing
      then (invalid, s)
      else if not (waits_for_challenge_response cl.state)
      then (bad_envelope, s)
      else if not (auth_id_registered devices users s.rt params.sender_auth_id)
      then (
        not_found,
        (on_client s id (λ task. client_queue_disconnect p r task (
            disconnect_message disconnect_internal_error reconnect_forbidden
              invalid_internal_state))).1,
      )
      else after_asking id params (
          for_each_auth_device_connection devices users (λ t. t) (ask_device id params)
            params.sender_auth_id s)
