-- ===== src/Examples/Handshakes.antt =====
-- A client that answers the challenge, and a device that approves another.
use faith.Examples.Registries.{devices, users}
use faith.Examples.Servers.{a_reactor}
use faith.Common.{◌≡◌, refl, arith, true, false, none, some, replicate, ap, [], ◌∷◌}
use faith.Proto.Status.{ok, not_found}
use faith.Proto.Auth.{DeviceLinkReq, DeviceLinkResponse, client_id_equal, same_bytes}
use faith.Proto.Envelope.{Envelope}
use faith.Proto.Signatures.{IsHelloHandshake}
use faith.Proto.Signatures.Binding.{gen_hello}
use faith.Proto.Crypto.{verify_signature_raw_pubkey}
use faith.Server.EventInbox.{init}
use faith.Server.SessRegistry.{Session, get_session}
use faith.Server.Client.{ClientConn, client_open, client_wait_for_challenge_response}
use faith.Server.Handshake.Verdict.{verdict, checked, choose, accepted, sign_msg}
use faith.Server.Handshake.Proven.{Proven, verdict-Proven, key_of}
use faith.Server.DeviceLink.Approved.{Approved}
use faith.Examples.Servers.{calm, client_in, an_account, a_device, a_key}
use faith.Server.Events.{State}
use faith.Server.Handshake.Response.{handle_challenge_response}
use faith.Server.Handshake.Reconnect.{handle_challenge_response-get_session}

abbrev challenged : ClientConn
challenged = client_in client_wait_for_challenge_response false

abbrev an_answer : Envelope
an_answer = record {
  kind = 7;
  sender_id = an_account;
  recipient_id = replicate 16 0;
  body_size = 64;
  body = some (replicate 64 6);
}

sign_msg-IsHelloHandshake : IsHelloHandshake (sign_msg challenged.temp_handshake_params a_key)
sign_msg-IsHelloHandshake = record {
  auth_id = refl;
  device_id = refl;
  public_key = refl;
  client_nonce = omega arith;
  server_nonce = omega arith;
}

verdict_lem : verdict calm challenged an_answer (not_found, none) ≡ accepted a_key true
unfolding verdict checked choose client_id_equal same_bytes verify_signature_raw_pubkey
verdict_lem =
    rw
      (gen_hello (sign_msg challenged.temp_handshake_params a_key) (replicate 80 0) 0 80
        sign_msg-IsHelloHandshake (omega arith) (omega arith))
      refl

verdict-Proven_example : Proven calm challenged an_answer (not_found, none) a_key
verdict-Proven_example =
    verdict-Proven calm challenged an_answer (not_found, none) a_key
      (record {
        auth_id = refl;
        device_id = refl;
        public_key = refl;
        nonce = omega arith;
        server_nonce = omega arith;
      })
      (ap (key_of challenged.temp_handshake_params) verdict_lem)

abbrev a_request : DeviceLinkReq
a_request = record {
  auth_id = an_account;
  public_key_new_device = replicate 32 8;
  device_id_new = replicate 16 7;
  link_code = replicate 16 6;
  expires_at_ms = 60000;
}

abbrev approving : ClientConn
approving = client_in client_open true

abbrev an_approval : DeviceLinkResponse
an_approval = record { signature_response = replicate 64 5; device_id_new = replicate 16 7 }

abbrev a_session : Session
a_session = record {
  conn = none;
  auth_id = an_account;
  device_id = a_device;
  public_key = a_key;
  inbox = init;
}

-- The registry with the session of a device that went away.
abbrev left_behind : users.Map
left_behind = users.put [] an_account (devices.put [] a_device a_session)

abbrev returning : State calm a_reactor devices users
returning = record { clients = challenged ∷ []; rt = left_behind; world = 0 }

left_behind_lem : get_session devices users left_behind an_account a_device ≡ (ok, some a_session)
unfolding get_session
left_behind_lem =
    rw
      (
        users.get-put [] an_account (devices.put [] a_device a_session),
        devices.get-put [] a_device a_session,
      )
      refl

handle_challenge_response-get_session_example :
    get_session devices users
      (handle_challenge_response calm a_reactor devices users returning challenged an_answer).1.rt
      an_account
      a_device
    ≡ (ok, some a_session)
handle_challenge_response-get_session_example =
    handle_challenge_response-get_session calm a_reactor devices users returning challenged
      an_answer a_session left_behind_lem
