-- ===== src/Examples/Sending.antt =====
-- Envelopes that are queued for a client, and the bytes that go out.
use faith.Proto.Msg.{Ping}
use faith.Proto.Frame.{Frame}
use faith.Proto.Msg.RoundTrip.{ping_bytes}
use faith.Server.Dispatch.{handle_ping}
use faith.Server.Dispatch.Pong.{handle_ping-Appended, pong_wire}
use faith.Proto.Events.{Event}
use faith.Server.Events.{queue_pending_events}
use faith.Server.Events.Pending.{Runs, queue_pending_events-Runs}
use faith.Server.SessRegistry.{Session, get_session}
use faith.Proto.Status.{ok}
use faith.Examples.Registries.{devices, users}
use faith.Common.{◌≡◌, ◌||◌, refl, arith, List, [], ◌∷◌, true, false, some, none}
use faith.Proto.Envelope.{Envelope, IsEnvelope}
use faith.Proto.Disconnect.{ClientDisconnect}
use faith.Server.Transport.{Queue, queue_output}
use faith.Server.FrameReader.{complete}
use faith.Server.Reactor.{
  has, reactor_readable, reactor_writable, reactor_closed, event_mask_from_epoll,
  event_mask_to_epoll,
}
use faith.Server.Reactor.Masks.{Flags, event_mask_from_epoll-event_mask_to_epoll}
use faith.Server.Conn.{TlsWrite, wrote, write_wants_write, flush_output}
use faith.Server.Conn.Flush.{Sends, flush_output-Sends}
use faith.Server.Client.{ClientConn, client_open}
use faith.Server.ClientIo.{
  internal_disconnect, client_queue_disconnect, queue_envelope_or_mark_dead, disconnect_message,
  disconnect_internal_error, reconnect_allowed, writable_failed,
}
use faith.Server.ClientIo.Rounds.{internal_disconnect-client_queue_disconnect}
use faith.Server.ClientIo.Appends.{Appended, Obeys, CanQueue, envelope_wire}
use faith.Server.ClientIo.Delivery.{
  queue_envelope_or_mark_dead-Appended, client_queue_disconnect-ends,
}
use faith.Server.Handshake.{notice}
use faith.Examples.Servers.{calm, a_reactor, client_in, an_account, a_device, a_key}

abbrev opened : ClientConn
opened = client_in client_open true

abbrev pub a_notice : Envelope
a_notice = notice 13 an_account

a_notice-IsEnvelope : IsEnvelope a_notice
a_notice-IsEnvelope = record {
  kind = omega arith;
  sender_id = refl;
  recipient_id = refl;
  fits = omega arith;
  body = refl;
}

opened-Obeys : Obeys calm a_reactor opened
opened-Obeys = record {
  grants = λ n. refl;
  accepts = λ w op a b m. refl;
  epoll_fd = 3;
  has_epoll = refl;
  client_fd = 8;
  has_fd = refl;
}

opened-CanQueue : CanQueue opened 48
opened-CanQueue = record {
  alive = refl;
  formed = record { allocated = refl; filled = omega arith; limit = omega arith };
  room = omega arith;
}

queue_envelope_or_mark_dead-Appended_example :
    Appended calm a_reactor opened
      (envelope_wire a_notice)
      (queue_envelope_or_mark_dead calm a_reactor (opened, 0) a_notice)
queue_envelope_or_mark_dead-Appended_example =
    queue_envelope_or_mark_dead-Appended calm a_reactor opened 0 a_notice opened-Obeys
      a_notice-IsEnvelope opened-CanQueue

abbrev a_message : ClientDisconnect
a_message = disconnect_message disconnect_internal_error reconnect_allowed writable_failed

client_queue_disconnect-ends_example :
    ((client_queue_disconnect calm a_reactor (opened, 0) a_message).1.0.closing
      || (client_queue_disconnect calm a_reactor (opened, 0) a_message).1.0.close_after_flush)
    ≡ true
client_queue_disconnect-ends_example =
    client_queue_disconnect-ends calm a_reactor opened 0 a_message

internal_disconnect-client_queue_disconnect_example :
    internal_disconnect calm a_reactor (opened, 0)
    ≡ client_queue_disconnect calm a_reactor (opened, 0) a_message
internal_disconnect-client_queue_disconnect_example =
    internal_disconnect-client_queue_disconnect calm a_reactor (opened, 0)

abbrev five_bytes : Queue
five_bytes = record {
  buf = 1 ∷ 2 ∷ 3 ∷ 4 ∷ 5 ∷ [];
  size = 5;
  cap = 5;
  off = 1;
  kind = queue_output;
}

abbrev two_writes : List TlsWrite
two_writes = wrote 2 ∷ write_wants_write ∷ []

flush_output-Sends_example : Sends five_bytes (flush_output complete five_bytes two_writes)
flush_output-Sends_example = flush_output-Sends complete five_bytes two_writes (omega arith)

event_mask_from_epoll-event_mask_to_epoll_example :
    Flags
      (event_mask_from_epoll (event_mask_to_epoll 3))
      (has 3 reactor_readable)
      (has 3 reactor_writable)
      false
      (has 3 reactor_closed)
event_mask_from_epoll-event_mask_to_epoll_example = event_mask_from_epoll-event_mask_to_epoll 3

abbrev a_ping : Ping
a_ping = record { nonce = 77; client_sent_at_ms = 4 }

abbrev a_ping_frame : Frame
a_ping_frame = record {
  frame_size = 20;
  proto_ver = 1;
  msg_type = 0;
  payload = some (ping_bytes a_ping);
  payload_size = 16;
}

opened-CanQueue_pong : CanQueue opened 24
opened-CanQueue_pong = record { alive = refl; formed = opened-CanQueue.formed; room = omega arith }

handle_ping-Appended_example :
    Appended calm a_reactor opened
      (pong_wire calm a_reactor opened 500 a_ping)
      (handle_ping calm a_reactor (opened, 500) a_ping_frame)
handle_ping-Appended_example =
    handle_ping-Appended calm a_reactor opened 500 a_ping a_ping_frame opened-Obeys
      (record { nonce = omega arith; sent_at = omega arith }) (omega arith) opened-CanQueue_pong
      refl refl

abbrev two_events : List Event
two_events =
    record { seq_num = 4; kind = 0; data_size = 1; payload = some (9 ∷ []) }
    ∷ record { seq_num = 5; kind = 0; data_size = 0; payload = none }
    ∷ []

-- The session of a device that went away, where two events wait.
abbrev waiting : Session
waiting = record {
  conn = none;
  auth_id = an_account;
  device_id = a_device;
  public_key = a_key;
  inbox = record { events = two_events; next_seq = 6; last_sent_seq = 5; last_acked_seq = 3 };
}

abbrev with_waiting : users.Map
with_waiting = users.put [] an_account (devices.put [] a_device waiting)

with_waiting_lem : get_session devices users with_waiting an_account a_device ≡ (ok, some waiting)
unfolding get_session
with_waiting_lem =
    rw
      (
        users.get-put [] an_account (devices.put [] a_device waiting),
        devices.get-put [] a_device waiting,
      )
      refl

queue_pending_events-Runs_example :
    Runs calm a_reactor
      (opened, 0)
      two_events
      (
        (queue_pending_events calm a_reactor devices users ((opened, 0), with_waiting)).0,
        (queue_pending_events calm a_reactor devices users ((opened, 0), with_waiting)).1.0,
      )
    × ((queue_pending_events calm a_reactor devices users ((opened, 0), with_waiting)).1.1
        ≡ with_waiting)
queue_pending_events-Runs_example =
    queue_pending_events-Runs calm a_reactor devices users opened 0 with_waiting waiting
      with_waiting_lem
