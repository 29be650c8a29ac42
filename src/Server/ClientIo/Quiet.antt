-- ===== src/Server/ClientIo/Quiet.antt =====
-- What queueing leaves alone: who the client is and what it may do.
pub mod Queueing
use faith.Common.{
  ℕ, zero, suc, ◌≡◌, refl, ◌∙◌, Bool, true, false, ◌==◌, if◌then◌else◌, bit_or, some, ◌+◌,
  replicate,
}
use faith.Proto.Status.{Status, ok, bad_frame, invalid, nomem}
use faith.Proto.Frame.{Frame, frame_header_size, encode_frame}
use faith.Proto.Envelope.{Envelope, envl_header_size, encode_envelope}
use faith.Proto.Disconnect.{ClientDisconnect, encode_client_disconnect_body}
use faith.Proto.Codec.Encode.{Encoded}
use faith.Server.Steps.{is_ok, continue}
use faith.Server.Transport.{Queue, enqueue_bytes}
use faith.Server.Reactor.{Reactor, Source, has, reactor_writable, reactor_modify_interests}
use faith.Server.Platform.{Platform}
use faith.Server.Client.{ClientConn, put_out}
use faith.Server.ClientIo.{
  Task, Disconnect, watched, watch_writable, enqueued, frame_encoded, queue_frame_with,
  queue_envelope_with, queue_disconnect_with, disconnect_queued, disconnect_rounds,
  internal_disconnect, closes, marked, queue_frame, queue_envelope, queue_envelope_or_mark_dead,
  client_queue_disconnect, rounds_of, size_of, disconnect_message, disconnect_internal_error,
  reconnect_allowed, writable_failed, malloced, client_disconnect_body_size_max,
  disconnect_envelope, envelope_frame,
}

-- A client that is being closed stays so; the connection's output and interests may change.
pub record Quiet (cl cl' : ClientConn) : Type 0 where
  pub id : cl'.conn.id ≡ cl.conn.id
  pub ident : cl'.ident ≡ cl.ident
  pub params : cl'.temp_handshake_params ≡ cl.temp_handshake_params
  pub state : cl'.state ≡ cl.state
  pub authorized : cl'.authorized ≡ cl.authorized
  pub request : cl'.pending_device_link_req ≡ cl.pending_device_link_req
  pub requester : cl'.pending_device_link_conn ≡ cl.pending_device_link_conn
  pub closing : cl.closing ≡ true → cl'.closing ≡ true

pub still : (cl : ClientConn) → Quiet cl cl
still cl = record {
  id = refl;
  ident = refl;
  params = refl;
  state = refl;
  authorized = refl;
  request = refl;
  requester = refl;
  closing = λ e. e;
}

pub then-Quiet : {a b c : ClientConn} → Quiet a b → Quiet b c → Quiet a c
then-Quiet q q' = record {
  id = q'.id ∙ q.id;
  ident = q'.ident ∙ q.ident;
  params = q'.params ∙ q.params;
  state = q'.state ∙ q.state;
  authorized = q'.authorized ∙ q.authorized;
  request = q'.request ∙ q.request;
  requester = q'.requester ∙ q.requester;
  closing = λ e. q'.closing (q.closing e);
}

module _ {W : Type 0} where
  -- A call that keeps the client quiet.
  abbrev pub IsQuiet : (ClientConn × W → Status × (ClientConn × W)) → Type 0
  IsQuiet op = (cl : ClientConn) (w : W) → Quiet cl (op (cl, w)).1.0

  pub either-Quiet :
      (cl : ClientConn) (b : Bool) (x y : Status × (ClientConn × W))
      → Quiet cl x.1.0
      → Quiet cl y.1.0
      → Quiet cl (if b then x else y).1.0
  either-Quiet cl true x y q q' = q
  either-Quiet cl false x y q q' = q'

  pub continue-Quiet :
      (b : Bool) (rc : Status) (cl0 cl : ClientConn) (w : W)
      (k : ClientConn × W → Status × (ClientConn × W))
      → Quiet cl0 cl
      → IsQuiet k
      → Quiet cl0 (continue b (rc, (cl, w)) k).1.0
  continue-Quiet true rc cl0 cl w k q rest = then-Quiet q (rest cl w)
  continue-Quiet false rc cl0 cl w k q rest = q

-- The fields that queueing writes.
pub rewired : (cl : ClientConn) (src : Source) → Quiet cl (record cl { reactor_source = src })
rewired cl src = record {
  id = refl;
  ident = refl;
  params = refl;
  state = refl;
  authorized = refl;
  request = refl;
  requester = refl;
  closing = λ e. e;
}

pub requeued : (cl : ClientConn) (out : Queue) → Quiet cl (put_out cl out)
requeued cl out = record {
  id = refl;
  ident = refl;
  params = refl;
  state = refl;
  authorized = refl;
  request = refl;
  requester = refl;
  closing = λ e. e;
}

pub dying : (cl : ClientConn) → Quiet cl (record cl { closing = true })
dying cl = record {
  id = refl;
  ident = refl;
  params = refl;
  state = refl;
  authorized = refl;
  request = refl;
  requester = refl;
  closing = λ e. refl;
}

pub leaving : (cl : ClientConn) → Quiet cl (record cl { close_after_flush = true })
leaving cl = record {
  id = refl;
  ident = refl;
  params = refl;
  state = refl;
  authorized = refl;
  request = refl;
  requester = refl;
  closing = λ e. e;
}
