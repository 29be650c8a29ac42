-- ===== src/Server/ClientIo.antt =====
-- Queueing frames and envelopes for a client: server_queue_frame, server_queue_envelope and
-- server_queue_envelope_or_mark_dead in faith-server/src/server/client_io.c, and
-- server_client_queue_disconnect in faith-server/src/server/client_lifecycle.c, which call one another.
pub mod Rounds
pub mod Appends
pub mod Delivery
pub mod Drive
pub mod Quiet
use faith.Common.{
  ℕ, zero, suc, ◌+◌, ◌-◌, ◌%◌, ◌^◌, List, ◌++◌, true, false, not, ◌&&◌, ◌||◌, Option, none, some,
  ◌==◌, if◌then◌else◌, length, replicate, take, bit_or, text,
}
use faith.Proto.Status.{Status, ok, invalid, nomem, bad_frame}
use faith.Proto.Core.{proto_version}
use faith.Proto.Codec.Encode.{is_null, Encoded}
use faith.Proto.Frame.{Frame, frame_header_size, encode_frame}
use faith.Proto.Envelope.{Envelope, envl_header_size, encode_envelope}
use faith.Proto.Disconnect.{ClientDisconnect, encode_client_disconnect_body}
use faith.Proto.Envelope.Types.{envelope_client_disconnect}
use faith.Server.Steps.{is_ok, and_then}
use faith.Server.Transport.{Queue, enqueue_bytes, max_client_in_queue}
use faith.Server.Reactor.{Reactor, Source, reactor_writable, has, reactor_modify_interests}
use faith.Server.Platform.{Platform}
use faith.Server.Client.{ClientConn, client_wait_for_device_link_response, put_out}

-- FAITH_MSG_ENVL
abbrev pub msg_envl : ℕ
msg_envl = 2

-- faith_client_disconnect_reason_t and faith_client_reconnect_policy_t
abbrev pub disconnect_server_shutdown : ℕ
disconnect_server_shutdown = 1

abbrev pub disconnect_temporary_failure : ℕ
disconnect_temporary_failure = 4

abbrev pub disconnect_bad_protocol : ℕ
disconnect_bad_protocol = 5

abbrev pub disconnect_auth_failed : ℕ
disconnect_auth_failed = 7

abbrev pub disconnect_device_rejected : ℕ
disconnect_device_rejected = 8

abbrev pub disconnect_internal_error : ℕ
disconnect_internal_error = 15

abbrev pub reconnect_allowed : ℕ
reconnect_allowed = 0

abbrev pub reconnect_forbidden : ℕ
reconnect_forbidden = 1

-- FAITH_ENVL_STC_CLIENT_DISCONNECT_BODY_SIZE_MAX
abbrev pub client_disconnect_body_size_max : ℕ
client_disconnect_body_size_max = 154

-- snprintf(msg, sizeof(msg), "%s", message) into an array of NULs
abbrev pub snprintf_msg : List ℕ → List ℕ
snprintf_msg message =
    let printed = take 128 message in printed ++ replicate (129 - length printed) 0

abbrev pub disconnect_message : ℕ → ℕ → List ℕ → ClientDisconnect
disconnect_message reason reconnect_policy message = record {
  reconnect_policy = reconnect_policy;
  reason = reason;
  retry_after_ms = 0;
  banned_until_ms = 0;
  msg_size = 0;
  msg = snprintf_msg message;
}

-- The message of the only disconnect that queueing itself asks for.
abbrev pub writable_failed : List ℕ
writable_failed = text "Failed to enable REACTOR_WRITABLE for the client."

-- `*out_size` of an encoder
abbrev pub size_of : Encoded → ℕ
size_of e = elim e.out_size [ none ↦ 0 | some n ↦ n ]

abbrev pub envelope_frame : Encoded → Frame
envelope_frame payload = record {
  frame_size = 0;
  proto_ver = proto_version;
  msg_type = msg_envl;
  payload = payload.out_buf;
  payload_size = size_of payload % 2 ^ 32;
}

module _ (p : Platform) (r : Reactor) where
  -- A client, and the world around it.
  abbrev pub Task : Type 0
  Task = ClientConn × p.World

  -- What is done when epoll refuses the interest in WRITABLE; its status is not read.
  abbrev pub Disconnect : Type 0
  Disconnect = Task → Status × Task

  abbrev pub watched : Disconnect → ClientConn → Status × Source × p.World → Status × Task
  watched disconnect cl (rc, src, w) =
      let task : Task = (record cl { reactor_source = src }, w) in
      elim (is_ok rc) [ true ↦ (ok, task) | false ↦ (rc, (disconnect task).1) ]

  abbrev pub watch_writable : Disconnect → Task → Status × Task
  watch_writable disconnect (cl, w) =
      let src = cl.reactor_source in
      elim (has src.interests reactor_writable) [
        | true ↦ (ok, (cl, w))
        | false ↦
            watched disconnect cl
              (reactor_modify_interests p.epoll_ctl w r src (bit_or src.interests reactor_writable))
      ]

  abbrev pub enqueued : Disconnect → Task → Status × Queue → Status × Task
  enqueued disconnect (cl, w) (rc, out) =
      and_then (rc, (put_out cl out, w)) (watch_writable disconnect)

  abbrev pub frame_encoded : Disconnect → Task → ℕ → Encoded → Status × Task
  frame_encoded disconnect (cl, w) wire_size wire_data =
      and_then (wire_data.status, (cl, w))
        (λ task. elim (size_of wire_data == wire_size) [
          | true ↦
              enqueued disconnect task
                (enqueue_bytes p.alloc p.junk cl.conn.out wire_data.out_buf wire_size)
          | false ↦ (bad_frame, task)
        ])

  abbrev pub malloced : ℕ → Option (List ℕ)
  malloced n = some (replicate n p.junk)

  unfoldable pub queue_frame_with : Disconnect → Task → Frame → Status × Task
  queue_frame_with disconnect (cl, w) frame =
      let wire_size = (frame_header_size + frame.payload_size) % 2 ^ 32 in
      if cl.closing || (is_null frame.payload && not (frame.payload_size == 0))
      then (invalid, (cl, w))
      else if not (p.alloc wire_size)
      then (nomem, (cl, w))
      else frame_encoded disconnect (cl, w) wire_size
          (encode_frame (malloced wire_size) (some 0) wire_size (some frame))

  unfoldable pub queue_envelope_with : Disconnect → Task → Envelope → Status × Task
  queue_envelope_with disconnect (cl, w) envl =
      let cap = envl_header_size + envl.body_size in
      let payload = encode_envelope (malloced cap) (some 0) cap (some envl) in
      if cl.closing
      then (invalid, (cl, w))
      else if not (p.alloc cap)
      then (nomem, (cl, w))
      else and_then (payload.status, (cl, w))
          (λ task. queue_frame_with disconnect task (envelope_frame payload))

  -- The recipient of a client that waits for a device link is the account it asked for.
  abbrev pub disconnect_recipient : ClientConn → List ℕ
  disconnect_recipient cl = elim cl.state [
    | client_wait_for_device_link_response ↦ cl.pending_auth_id
    | other ↦ cl.ident.auth_id
  ]

  abbrev pub disconnect_envelope : ClientConn → Encoded → Envelope
  disconnect_envelope cl body = record {
    kind = envelope_client_disconnect;
    sender_id = replicate 16 0;
    recipient_id = disconnect_recipient cl;
    body_size = size_of body;
    body = body.out_buf;
  }

  -- A failure closes at once, a success after the message is out.
  abbrev pub closes : Status × Task → Status × Task
  closes (rc, (cl, w)) = elim (is_ok rc) [
    | true ↦ (rc, (record cl { close_after_flush = true }, w))
    | false ↦ (rc, (record cl { closing = true }, w))
  ]

  abbrev pub disconnect_queued : Disconnect → Task → ClientDisconnect → Status × Task
  disconnect_queued disconnect (cl, w) message =
      let body =
        encode_client_disconnect_body (some (replicate client_disconnect_body_size_max 0)) (some 0)
          client_disconnect_body_size_max (some message) in
      and_then (body.status, (cl, w))
        (λ task. queue_envelope_with disconnect task (disconnect_envelope cl body))

  unfoldable pub queue_disconnect_with : Disconnect → Task → ClientDisconnect → Status × Task
  queue_disconnect_with disconnect (cl, w) message =
      let queued = disconnect_queued disconnect (cl, w) message in
      if cl.closing then (ok, (cl, w)) else closes queued

  -- The calls of one another. Every round puts a frame into the queue, and a full one ends them.
  unfoldable pub disconnect_rounds : ℕ → Disconnect
  disconnect_rounds zero (cl, w) = (ok, (record cl { closing = true }, w))
  disconnect_rounds (suc n) task =
      queue_disconnect_with (disconnect_rounds n) task
        (disconnect_message disconnect_internal_error reconnect_allowed writable_failed)

  abbrev pub rounds_of : ClientConn → ℕ
  rounds_of cl = suc (max_client_in_queue - cl.conn.out.size)

  unfoldable pub internal_disconnect : Disconnect
  internal_disconnect (cl, w) = disconnect_rounds (rounds_of cl) (cl, w)

  unfoldable pub queue_frame : Task → Frame → Status × Task
  queue_frame = queue_frame_with internal_disconnect

  unfoldable pub queue_envelope : Task → Envelope → Status × Task
  queue_envelope = queue_envelope_with internal_disconnect

  unfoldable pub client_queue_disconnect : Task → ClientDisconnect → Status × Task
  client_queue_disconnect = queue_disconnect_with internal_disconnect

  abbrev pub marked : Status × Task → Status × Task
  marked (rc, (cl, w)) = elim (is_ok rc) [
    | true ↦ (ok, (cl, w))
    | false ↦ (rc, (record cl { closing = true }, w))
  ]

  unfoldable pub queue_envelope_or_mark_dead : Task → Envelope → Status × Task
  queue_envelope_or_mark_dead task envl = marked (queue_envelope task envl)
