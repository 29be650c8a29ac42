-- ===== src/Server/Dispatch.antt =====
-- What a frame of a client leads to: faith-server/src/server/dispatch.c.
pub mod Pong
use faith.Common.{ℕ, List, none, some, ◌==◌, ◌||◌, if◌then◌else◌, replicate}
use faith.Proto.Status.{Status, invalid, bad_envelope, bad_frame, unreachable}
use faith.Proto.Codec.Encode.{Encoded}
use faith.Proto.Core.{proto_version}
use faith.Proto.Frame.{Frame}
use faith.Proto.Envelope.{Envelope, decode_envelope, zeroed_envelope}
use faith.Proto.Envelope.Types.{
  envelope_hello, envelope_challenge_response, envelope_msg_send, envelope_device_auth_approve,
  envelope_device_auth_deny, envelope_command, envelope_event_ack,
}
use faith.Proto.Msg.{Ping, decode_ping, encode_pong, ping_payload_size}
use faith.Server.Steps.{and_then, with_decoded}
use faith.Server.HashMap.{HashMap}
use faith.Server.SessRegistry.{Session}
use faith.Server.Reactor.{Reactor}
use faith.Server.Platform.{Platform}
use faith.Server.Client.{ClientConn}
use faith.Server.ClientIo.{Task, queue_frame, size_of, msg_envl}
use faith.Server.State.{get_client, on_client, on_seat}
use faith.Server.Events.{State, handle_event_acked}
use faith.Server.Routing.{route_application_msg_envelope}
use faith.Server.Handshake.{handle_hello}
use faith.Server.Handshake.Response.{handle_challenge_response}
use faith.Server.DeviceLink.Response.{handle_device_response}
use faith.Server.Commands.{command_dispatch}

-- FAITH_MSG_PING and FAITH_MSG_PONG
abbrev pub msg_ping : ℕ
msg_ping = 0

abbrev pub msg_pong : ℕ
msg_pong = 1

abbrev pub pong_frame : Encoded → Frame
pong_frame payload = record {
  frame_size = 0;
  proto_ver = proto_version;
  msg_type = msg_pong;
  payload = payload.out_buf;
  payload_size = size_of payload;
}

module _ (p : Platform) (r : Reactor) where
  abbrev pub pong_payload : Ping → ℕ → Encoded
  pong_payload ping now =
      encode_pong (some (replicate ping_payload_size 0)) (some 0) ping_payload_size
        (some (record { nonce = ping.nonce; server_sent_at_ms = now }))

  abbrev pub answer_ping : ClientConn → Ping → ℕ × p.World → Status × Task p r
  answer_ping cl ping (now, w) =
      and_then ((pong_payload ping now).status, (cl, w))
        (λ task. queue_frame p r task (pong_frame (pong_payload ping now)))

  unfoldable pub handle_ping : Task p r → Frame → Status × Task p r
  handle_ping (cl, w) frame =
      if cl.closing
      then (invalid, (cl, w))
      else with_decoded (cl, w)
          (decode_ping frame.payload frame.payload_size
            (some (record { nonce = 0; client_sent_at_ms = 0 })))
          (λ ping. answer_ping cl ping (p.now_ms w))

  module _ (devices : HashMap (List ℕ) Session) (users : HashMap (List ℕ) devices.Map) where
    -- The switch over the type of the envelope.
    unfoldable pub handle_envelope :
        State p r devices users → ClientConn → Envelope → Status × State p r devices users
    handle_envelope s cl envl =
        if envl.kind == envelope_hello
        then on_client s cl.conn.id (λ task. handle_hello p r task envl)
        else if envl.kind == envelope_challenge_response
        then handle_challenge_response p r devices users s cl envl
        else if envl.kind == envelope_msg_send
        then route_application_msg_envelope p r devices users s cl envl
        else if envl.kind == envelope_device_auth_approve || envl.kind == envelope_device_auth_deny
        then handle_device_response p r devices users s cl envl
        else if envl.kind == envelope_command
        then command_dispatch p r devices users s cl envl
        else if envl.kind == envelope_event_ack
        then on_seat s cl.conn.id (λ seat. handle_event_acked p r devices users seat envl)
        else (bad_envelope, s)

    unfoldable pub dispatch_envelope :
        State p r devices users → ClientConn → Frame → Status × State p r devices users
    dispatch_envelope s cl frame =
        with_decoded s
          (decode_envelope p.alloc frame.payload frame.payload_size (some zeroed_envelope))
          (λ envl. handle_envelope s cl envl)

    unfoldable pub dispatch_frame :
        State p r devices users → ℕ → Frame → Status × State p r devices users
    dispatch_frame s id frame = elim (get_client id s.clients) [
      | none ↦ (unreachable, s)
      | some cl ↦
          if frame.msg_type == msg_ping
          then on_client s id (λ task. handle_ping task frame)
          else if frame.msg_type == msg_envl
          then dispatch_envelope s cl frame
          else (bad_frame, s)
    ]
