-- ===== src/Server/DeviceLink/Response.antt =====
-- The answer of a device to a request: device_link_handle_device_response in
-- faith-server/src/auth/device_link.c.
use faith.Common.{
  ℕ, List, Bool, true, false, not, ◌||◌, Option, none, some, ◌==◌, ltb, if◌then◌else◌, replicate,
  text, ◌++◌, [],
}
use faith.Proto.Status.{
  Status, ok, invalid, expired, not_equal, unauthorized, bad_envelope, unreachable,
}
use faith.Proto.Auth.{
  DeviceLinkReq, DeviceLinkResponse, decode_device_link_response_body,
  device_link_response_body_size, device_id_equal, signature_size,
}
use faith.Proto.Codec.Encode.{Encoded, is_null, cells_of}
use faith.Proto.Crypto.{verify_signature_raw_pubkey}
use faith.Proto.Envelope.{Envelope}
use faith.Proto.Envelope.Types.{
  envelope_device_auth_approve, envelope_device_auth_deny, envelope_device_auth_response_ack,
}
use faith.Proto.Signatures.{LinkSignature, gen_sign_buf_device_link_response, link_signature_size}
use faith.Server.Steps.{is_ok}
use faith.Server.HashMap.{HashMap}
use faith.Server.SessRegistry.{Session, get_session}
use faith.Server.Reactor.{Reactor}
use faith.Server.Platform.{Platform}
use faith.Server.Client.{ClientConn}
use faith.Server.Events.{State}
use faith.Common.{[]}
use faith.Proto.Codec.Decode.{Decoded}
use faith.Proto.Core.Names.{status_code_name}
use faith.Server.Steps.{and_then}
use faith.Server.ClientIo.{
  client_queue_disconnect, disconnect_message, disconnect_auth_failed, disconnect_device_rejected,
  reconnect_forbidden,
}
use faith.Server.State.{get_client, on_client, on_seat}
use faith.Server.Routing.{route_envelope_to_auth_id, loop_state}
use faith.Server.Handshake.{notice, authorize_client}
use faith.Server.DeviceLink.{remove_request, modify_client, send_device_auth_response_failed}
use faith.Server.Devices.{next, for_each_auth_device_connection, is_open}

-- FAITH_DEVICE_LINK_APPROVE and FAITH_DEVICE_LINK_DENY
abbrev pub device_link_approve : ℕ
device_link_approve = 1

abbrev pub device_link_deny : ℕ
device_link_deny = 0

-- What the checks come to: a plain return; a return after DEVICE_AUTH_RESPONSE_FAILED, with its status
-- if the notice is sent; the label `defer` with `_fh_result` and `blame_responder`; or success.
pub data Ruling : Type 0 where
  refuse : Status → Ruling
  notify : Status → Ruling
  reject : Status → Bool → Ruling
  grant : Ruling

abbrev pub is_response : ℕ → Bool
is_response kind = kind == envelope_device_auth_approve || kind == envelope_device_auth_deny

abbrev pub link_sign_msg : DeviceLinkReq → ClientConn → ℕ → LinkSignature
link_sign_msg req cl kind = record {
  auth_id = req.auth_id;
  device_id_new = req.device_id_new;
  public_key_new_device = req.public_key_new_device;
  link_code = req.link_code;
  expires_at_ms = req.expires_at_ms;
  device_id_responding = cl.ident.device_id;
  kind = if kind == envelope_device_auth_approve then device_link_approve else device_link_deny;
}

abbrev pub zeroed_response : DeviceLinkResponse
zeroed_response = record { signature_response = []; device_id_new = [] }

-- The checks up to the expiry: settled, or the request and the response that are to be verified.
pub data Early : Type 0 where
  settled : Ruling → Early
  to_verify : DeviceLinkReq → DeviceLinkResponse → Early

abbrev decoded_response : DeviceLinkReq → Decoded DeviceLinkResponse → Early
decoded_response req d = elim (is_ok d.status) [
  | false ↦ settled (refuse d.status)
  | true ↦ elim d.out [
    | none ↦ settled (refuse d.status)
    | some response ↦
        if not (device_id_equal response.device_id_new req.device_id_new)
        then settled (notify invalid)
        else to_verify req response
  ]
]

abbrev pub checked_request : ClientConn → Envelope → DeviceLinkReq → ClientConn → Early
checked_request cl envl req req_cl =
    if not (is_response envl.kind)
    then settled (refuse invalid)
    else if is_null envl.body || not (envl.body_size == device_link_response_body_size)
    then settled (notify invalid)
    else if not cl.authorized
    then settled (refuse unauthorized)
    else if req_cl.closing
    then settled (notify ok)
    else decoded_response req
        (decode_device_link_response_body envl.body envl.body_size (some zeroed_response))

-- `req_cl` is the client that made the request.
unfoldable pub early : ClientConn → Envelope → Option ClientConn → Early
early cl envl req_cl =
    if cl.closing
    then settled (refuse invalid)
    else if not (is_open cl.state)
    then settled (refuse bad_envelope)
    else elim cl.pending_device_link_req [
      | none ↦ settled (refuse invalid)
      | some req ↦ elim req_cl [
        | none ↦ settled (refuse invalid)
        | some found ↦ checked_request cl envl req found
      ]
    ]

abbrev pub failure : Status → Status
failure not_equal = unauthorized
failure rc = rc

module _ (p : Platform) where
  abbrev pub link_msg_buf : DeviceLinkReq → ClientConn → ℕ → Encoded
  link_msg_buf req cl kind =
      gen_sign_buf_device_link_response (some (replicate link_signature_size p.junk)) (some 0)
        link_signature_size (some (link_sign_msg req cl kind))

  -- The check of the signature with the key of the device's session.
  abbrev pub signature_ruling :
      DeviceLinkReq → ClientConn → ℕ → DeviceLinkResponse → Session → Ruling
  signature_ruling req cl kind response sess =
      let verification_rc =
        verify_signature_raw_pubkey p.digest_verify sess.public_key
          (cells_of (link_msg_buf req cl kind).out_buf) response.signature_response
          signature_size in
      if is_ok verification_rc then grant else reject (failure verification_rc) true

  abbrev pub session_ruling :
      DeviceLinkReq → ClientConn → ℕ → DeviceLinkResponse → Status × Option Session → Ruling
  session_ruling req cl kind response (rc, sess) = elim (is_ok rc) [
    | false ↦ reject unauthorized true
    | true ↦ elim sess [
      | none ↦ notify invalid
      | some found ↦ signature_ruling req cl kind response found
    ]
  ]

  -- `now` is the clock at the check of the expiry.
  unfoldable pub late :
      ClientConn → ℕ → DeviceLinkReq → DeviceLinkResponse → ℕ → Status × Option Session → Ruling
  late cl kind req response now sess =
      let msg = link_msg_buf req cl kind in
      if ltb req.expires_at_ms now
      then reject expired false
      else if not (is_ok msg.status)
      then reject msg.status true
      else session_ruling req cl kind response sess

-- snprintf(buf, sizeof(buf), "...%s)", faith_status_code_name(_fh_result))
unfoldable pub failed_message : Status → List ℕ
unfolding status_code_name
failed_message rc =
    text "Client failed device-link authorization. (Error: " ++ status_code_name rc ++ text ")"

abbrev pub rejected_by_owner : List ℕ
rejected_by_owner = text "The device has been rejected by the account owner."

module _ (p : Platform) (r : Reactor) (devices : HashMap (List ℕ) Session)
    (users : HashMap (List ℕ) devices.Map) where
  abbrev pub notified : Status → Status × State p r devices users → Status × State p r devices users
  notified rc sent = and_then sent (λ s. (rc, s))

  -- The label `defer`: the request goes, and the connection that made it; neither status is read.
  unfoldable pub fail_link :
      State p r devices users → ℕ → ℕ → Status → Bool → Status × State p r devices users
  unfolding failed_message
  fail_link s id req_id rc blame_responder =
      let removed = modify_client s id remove_request in
      let disconnected =
        (on_client removed req_id (λ task.
          client_queue_disconnect p r task (
            disconnect_message disconnect_auth_failed reconnect_forbidden
              (failed_message rc)))).1 in
      let sent =
        (on_client disconnected id (send_device_auth_response_failed p r devices users)).1 in
      (if blame_responder then rc else ok, sent)

  -- DEVICE_AUTH_RESPONSE_ACK goes to the account's devices, then the request goes.
  abbrev pub acknowledged :
      ClientConn → Status × State p r devices users → Status × State p r devices users
  acknowledged cl (rc, s) =
      and_then
        (route_envelope_to_auth_id p r devices users s cl cl.ident.auth_id
          (notice envelope_device_auth_response_ack (replicate 16 0)))
        (λ s'. (
          rc,
          loop_state p r devices users (
              for_each_auth_device_connection devices users (λ t. t)
                (λ t recipient. next (modify_client t cl.conn.id remove_request)) cl.ident.auth_id
                s'),
        ))

  abbrev pub approved :
      ClientConn → ℕ → Status × State p r devices users → Status × State p r devices users
  approved cl req_id (rc, s) = elim (is_ok rc) [
    | true ↦ acknowledged cl (ok, s)
    | false ↦ fail_link s cl.conn.id req_id rc true
  ]

  unfoldable pub grant_link :
      State p r devices users
      → ClientConn
      → ℕ
      → DeviceLinkReq
      → ℕ
      → Status × State p r devices users
  grant_link s cl kind req req_id =
      if kind == envelope_device_auth_deny
      then acknowledged cl (
          on_client s req_id (λ task.
            client_queue_disconnect p r task (
              disconnect_message disconnect_device_rejected reconnect_forbidden rejected_by_owner)))
      else approved cl req_id (
          on_seat s req_id (λ seat.
            authorize_client p r devices users seat req.auth_id req.device_id_new
              req.public_key_new_device true))

  unfoldable pub carry_out :
      State p r devices users
      → ClientConn
      → ℕ
      → DeviceLinkReq
      → ℕ
      → Ruling
      → Status × State p r devices users
  carry_out s cl kind req req_id (refuse rc) = (rc, s)
  carry_out s cl kind req req_id (notify rc) =
      notified rc (on_client s cl.conn.id (send_device_auth_response_failed p r devices users))
  carry_out s cl kind req req_id (reject rc blame_responder) =
      fail_link s cl.conn.id req_id rc blame_responder
  carry_out s cl kind req req_id grant = grant_link s cl kind req req_id

  abbrev pub settle :
      State p r devices users → ClientConn → Ruling → Status × State p r devices users
  settle s cl (notify rc) =
      notified rc (on_client s cl.conn.id (send_device_auth_response_failed p r devices users))
  settle s cl (refuse rc) = (rc, s)
  settle s cl other = (unreachable, s)

  -- The clock is read once the response fits the request.
  abbrev pub verify_and_carry_out :
      State p r devices users → ClientConn → ℕ → ℕ → Early → Status × State p r devices users
  verify_and_carry_out s cl kind req_id (settled ruling) = settle s cl ruling
  verify_and_carry_out s cl kind req_id (to_verify req response) =
      let (now, w) = p.now_ms s.world in
      carry_out (record s { world = w }) cl kind req req_id
        (late p cl kind req response now
          (get_session devices users s.rt cl.ident.auth_id cl.ident.device_id))

  abbrev pub requester : State p r devices users → ClientConn → Option ClientConn
  requester s cl = elim cl.pending_device_link_conn [
    | none ↦ none
    | some id ↦ get_client id s.clients
  ]

  abbrev pub requester_id : ClientConn → ℕ
  requester_id cl = elim cl.pending_device_link_conn [ none ↦ 0 | some id ↦ id ]

  unfoldable pub handle_device_response :
      State p r devices users → ClientConn → Envelope → Status × State p r devices users
  handle_device_response s cl envl =
      verify_and_carry_out s cl envl.kind (requester_id cl) (early cl envl (requester s cl))
