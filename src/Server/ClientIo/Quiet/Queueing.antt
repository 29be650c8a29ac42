-- ===== src/Server/ClientIo/Quiet/Queueing.antt =====
-- The queueing functions leave a client alone but for its output, its interests and its end.
use faith.Common.{ℕ, zero, suc, Bool, true, false, ◌==◌, bit_or, some, ◌+◌, replicate, ◌%◌, ◌^◌}
use faith.Proto.Status.{Status, ok, bad_frame, invalid, nomem}
use faith.Proto.Frame.{Frame, frame_header_size, encode_frame}
use faith.Proto.Envelope.{Envelope, envl_header_size, encode_envelope}
use faith.Proto.Disconnect.{ClientDisconnect, encode_client_disconnect_body}
use faith.Proto.Codec.Encode.{Encoded}
use faith.Server.Steps.{is_ok}
use faith.Server.Transport.{Queue, enqueue_bytes}
use faith.Server.Reactor.{Reactor, Source, has, reactor_writable, reactor_modify_interests}
use faith.Server.Platform.{Platform}
use faith.Server.Client.{ClientConn, put_out}
use faith.Server.ClientIo.{
  Task, Disconnect, watched, watch_writable, enqueued, frame_encoded, queue_frame_with,
  queue_envelope_with, queue_disconnect_with, disconnect_queued, disconnect_rounds,
  internal_disconnect, closes, marked, queue_frame, queue_envelope, queue_envelope_or_mark_dead,
  client_queue_disconnect, rounds_of, size_of, disconnect_message, disconnect_internal_error,
  reconnect_allowed, writable_failed, malloced, client_disconnect_body_size_max,
  disconnect_envelope, envelope_frame,
}
use faith.Server.ClientIo.Quiet.{
  Quiet, IsQuiet, still, then-Quiet, either-Quiet, continue-Quiet, rewired, requeued, dying,
  leaving,
}

module _ (p : Platform) (r : Reactor) (disconnect : Disconnect p r)
    (quiet : IsQuiet disconnect) where
  watched-Quiet :
      (cl : ClientConn) (answer : Status × Source × p.World)
      → Quiet cl (watched p r disconnect cl answer).1.0
  watched-Quiet cl (rc, src, w) = by_status (is_ok rc)
    where
      by_status :
          (b : Bool)
          → Quiet cl
              (elim b as (λ x. Status × Task p r) [
                | true ↦ (ok, (record cl { reactor_source = src }, w))
                | false ↦ (rc, (disconnect (record cl { reactor_source = src }, w)).1)
              ]).1.0
      by_status true = rewired cl src
      by_status false = then-Quiet (rewired cl src) (quiet (record cl { reactor_source = src }) w)

  watch_writable-IsQuiet : IsQuiet (watch_writable p r disconnect)
  watch_writable-IsQuiet cl w = by_interest (has cl.reactor_source.interests reactor_writable)
    where
      asked : Status × Task p r
      asked = watched p r disconnect cl (
          reactor_modify_interests p.epoll_ctl w r cl.reactor_source
            (bit_or cl.reactor_source.interests reactor_writable))

      by_interest :
          (b : Bool)
          → Quiet cl
              (elim b as (λ x. Status × Task p r) [ true ↦ (ok, (cl, w)) | false ↦ asked ]).1.0
      by_interest true = still cl
      by_interest false = watched-Quiet cl (
          reactor_modify_interests p.epoll_ctl w r cl.reactor_source
            (bit_or cl.reactor_source.interests reactor_writable))

  enqueued-Quiet :
      (cl : ClientConn) (w : p.World) (call : Status × Queue)
      → Quiet cl (enqueued p r disconnect (cl, w) call).1.0
  enqueued-Quiet cl w (rc, out) =
      continue-Quiet (is_ok rc) rc cl (put_out cl out) w (watch_writable p r disconnect)
        (requeued cl out) watch_writable-IsQuiet

  frame_encoded-Quiet :
      (cl : ClientConn) (w : p.World) (size : ℕ) (wire : Encoded)
      → Quiet cl (frame_encoded p r disconnect (cl, w) size wire).1.0
  frame_encoded-Quiet cl w size wire =
      continue-Quiet (is_ok wire.status) wire.status cl cl w
        (λ task. elim (size_of wire == size) as (λ x. Status × Task p r) [
          | true ↦
              enqueued p r disconnect task
                (enqueue_bytes p.alloc p.junk cl.conn.out wire.out_buf size)
          | false ↦ (bad_frame, task)
        ])
        (still cl) (λ cl' w'. by_size cl' w' (size_of wire == size))
    where
      by_size :
          (cl' : ClientConn) (w' : p.World) (b : Bool)
          → Quiet cl'
              (elim b as (λ x. Status × Task p r) [
                | true ↦
                    enqueued p r disconnect
                      (cl', w')
                      (enqueue_bytes p.alloc p.junk cl.conn.out wire.out_buf size)
                | false ↦ (bad_frame, (cl', w'))
              ]).1.0
      by_size cl' w' true =
          enqueued-Quiet cl' w' (enqueue_bytes p.alloc p.junk cl.conn.out wire.out_buf size)
      by_size cl' w' false = still cl'

  queue_frame_with-Quiet :
      (frame : Frame) → IsQuiet (λ task. queue_frame_with p r disconnect task frame)
  unfolding queue_frame_with
  queue_frame_with-Quiet frame cl w =
      let size = (frame_header_size + frame.payload_size) % 2 ^ 32 in
      let wire = encode_frame (malloced p r size) (some 0) size (some frame) in
      either-Quiet cl _ (invalid, (cl, w)) _ (still cl)
        (either-Quiet cl _ (nomem, (cl, w)) _ (still cl) (frame_encoded-Quiet cl w size wire))

  queue_envelope_with-Quiet :
      (envl : Envelope) → IsQuiet (λ task. queue_envelope_with p r disconnect task envl)
  unfolding queue_envelope_with
  queue_envelope_with-Quiet envl cl w =
      let cap = envl_header_size + envl.body_size in
      let payload = encode_envelope (malloced p r cap) (some 0) cap (some envl) in
      either-Quiet cl _ (invalid, (cl, w)) _ (still cl)
        (either-Quiet cl _ (nomem, (cl, w)) _ (still cl)
          (continue-Quiet (is_ok payload.status) payload.status cl cl w
            (λ task. queue_frame_with p r disconnect task (envelope_frame payload)) (still cl)
            (queue_frame_with-Quiet (envelope_frame payload))))

  disconnect_queued-Quiet :
      (message : ClientDisconnect) → IsQuiet (λ task. disconnect_queued p r disconnect task message)
  disconnect_queued-Quiet message cl w =
      let body =
        encode_client_disconnect_body (some (replicate client_disconnect_body_size_max 0)) (some 0)
          client_disconnect_body_size_max (some message) in
      continue-Quiet (is_ok body.status) body.status cl cl w
        (λ task. queue_envelope_with p r disconnect task (disconnect_envelope p r cl body))
        (still cl) (queue_envelope_with-Quiet (disconnect_envelope p r cl body))

  closes-Quiet :
      (cl : ClientConn) (t : Status × Task p r) → Quiet cl t.1.0 → Quiet cl (closes p r t).1.0
  closes-Quiet cl (rc, (cl', w')) q = by_status (is_ok rc)
    where
      by_status :
          (b : Bool)
          → Quiet cl
              (elim b as (λ x. Status × Task p r) [
                | true ↦ (rc, (record cl' { close_after_flush = true }, w'))
                | false ↦ (rc, (record cl' { closing = true }, w'))
              ]).1.0
      by_status true = then-Quiet q (leaving cl')
      by_status false = then-Quiet q (dying cl')

  queue_disconnect_with-Quiet :
      (message : ClientDisconnect)
      → IsQuiet (λ task. queue_disconnect_with p r disconnect task message)
  unfolding queue_disconnect_with
  queue_disconnect_with-Quiet message cl w =
      either-Quiet cl cl.closing (ok, (cl, w))
        (closes p r (disconnect_queued p r disconnect (cl, w) message)) (still cl)
        (closes-Quiet cl (disconnect_queued p r disconnect (cl, w) message)
          (disconnect_queued-Quiet message cl w))

module _ (p : Platform) (r : Reactor) where
  disconnect_rounds-IsQuiet : (n : ℕ) → IsQuiet (disconnect_rounds p r n)
  unfolding disconnect_rounds
  disconnect_rounds-IsQuiet zero cl w = dying cl
  disconnect_rounds-IsQuiet (suc n) cl w =
      queue_disconnect_with-Quiet p r (disconnect_rounds p r n) (disconnect_rounds-IsQuiet n)
        (disconnect_message disconnect_internal_error reconnect_allowed writable_failed) cl w

  internal_disconnect-IsQuiet : IsQuiet (internal_disconnect p r)
  unfolding internal_disconnect
  internal_disconnect-IsQuiet cl w = disconnect_rounds-IsQuiet (rounds_of p r cl) cl w

  pub queue_frame-IsQuiet : (frame : Frame) → IsQuiet (λ task. queue_frame p r task frame)
  unfolding queue_frame
  queue_frame-IsQuiet =
      queue_frame_with-Quiet p r (internal_disconnect p r) internal_disconnect-IsQuiet

  pub client_queue_disconnect-IsQuiet :
      (message : ClientDisconnect) → IsQuiet (λ task. client_queue_disconnect p r task message)
  unfolding client_queue_disconnect
  client_queue_disconnect-IsQuiet =
      queue_disconnect_with-Quiet p r (internal_disconnect p r) internal_disconnect-IsQuiet

  marked-Quiet :
      (cl : ClientConn) (t : Status × Task p r) → Quiet cl t.1.0 → Quiet cl (marked p r t).1.0
  marked-Quiet cl (rc, (cl', w')) q = by_status (is_ok rc)
    where
      by_status :
          (b : Bool)
          → Quiet cl
              (elim b as (λ x. Status × Task p r) [
                | true ↦ (ok, (cl', w'))
                | false ↦ (rc, (record cl' { closing = true }, w'))
              ]).1.0
      by_status true = q
      by_status false = then-Quiet q (dying cl')

  pub queue_envelope_or_mark_dead-IsQuiet :
      (envl : Envelope) → IsQuiet (λ task. queue_envelope_or_mark_dead p r task envl)
  unfolding queue_envelope_or_mark_dead queue_envelope
  queue_envelope_or_mark_dead-IsQuiet envl cl w = marked-Quiet cl _ (
      queue_envelope_with-Quiet p r (internal_disconnect p r) internal_disconnect-IsQuiet envl cl w)
