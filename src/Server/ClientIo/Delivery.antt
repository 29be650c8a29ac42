-- ===== src/Server/ClientIo/Delivery.antt =====
-- What a caller of the queueing functions may rely on.
use faith.Common.{
  ◌+◌, ◌≡◌, arith, Bool, true, false, Bool-cases, inl, inr, ◌||◌, refl, sym, subst, if◌then◌else◌,
}
use faith.Proto.Status.{Status, ok}
use faith.Proto.Envelope.{Envelope, IsEnvelope, in_size}
use faith.Proto.Disconnect.{ClientDisconnect}
use faith.Proto.Frame.{Frame}
use faith.Proto.Frame.Wire.{IsWireFrame, wire_bytes}
use faith.Server.Steps.{is_ok}
use faith.Server.Reactor.{Reactor}
use faith.Server.Platform.{Platform}
use faith.Server.Client.{ClientConn}
use faith.Server.ClientIo.{
  Task, marked, closes, queue_frame, queue_envelope, queue_envelope_or_mark_dead,
  client_queue_disconnect, internal_disconnect, queue_disconnect_with, disconnect_queued,
}
use faith.Server.ClientIo.Appends.{
  Appended, Obeys, CanQueue, envelope_wire, queue_frame_with-Appended, queue_envelope_with-Appended,
}

module _ (p : Platform) (r : Reactor) (cl : ClientConn) (w : p.World) where
  -- With memory, with an epoll that takes the interest, and with room in the output queue, a frame for a
  -- client that is not being closed is put behind the bytes that wait.
  pub queue_frame-Appended :
      (frame : Frame)
      → Obeys p r cl
      → IsWireFrame frame
      → CanQueue cl (8 + frame.payload_size)
      → Appended p r cl (wire_bytes frame) (queue_frame p r (cl, w) frame)
  unfolding queue_frame
  queue_frame-Appended frame = queue_frame_with-Appended p r (internal_disconnect p r) cl w frame

  marked-Appended :
      (bytes : _) (t : Status × Task p r)
      → Appended p r cl bytes t
      → Appended p r cl bytes (marked p r t)
  marked-Appended bytes (rc, (cl', w')) a =
      subst (λ (c : Status). Appended p r cl bytes (marked p r (c, (cl', w')))) (sym a.status)
        (record {
          status = refl;
          added = a.added;
          formed = a.formed;
          off = a.off;
          kind = a.kind;
          kept = a.kept;
        })

  -- With memory, with an epoll that takes the interest, and with room in the output queue, an envelope for
  -- a client that is not being closed is put behind the bytes that wait, as the payload of one frame: the
  -- length of the rest, version, message type 2 and the envelope, with the highest byte first. The queue
  -- stays well-formed and keeps its offset and kind, WRITABLE joins the interests, and nothing else of the
  -- client changes.
  pub queue_envelope_or_mark_dead-Appended :
      (envl : Envelope)
      → Obeys p r cl
      → IsEnvelope envl
      → CanQueue cl (8 + in_size envl)
      → Appended p r cl (envelope_wire envl) (queue_envelope_or_mark_dead p r (cl, w) envl)
  unfolding queue_envelope_or_mark_dead queue_envelope
  queue_envelope_or_mark_dead-Appended envl o valid c = marked-Appended (envelope_wire envl) _ (
      queue_envelope_with-Appended p r (internal_disconnect p r) cl w envl o valid
        (omega (arith, c.room)) c)

  marked_dead :
      (t : Status × Task p r) → is_ok (marked p r t).0 ≡ false → (marked p r t).1.0.closing ≡ true
  marked_dead (rc, (cl', w')) e = ground arith

  -- A client for which an envelope could not be queued is being closed, whatever the cause.
  pub queue_envelope_or_mark_dead-closing :
      (envl : Envelope)
      → is_ok (queue_envelope_or_mark_dead p r (cl, w) envl).0 ≡ false
      → (queue_envelope_or_mark_dead p r (cl, w) envl).1.0.closing ≡ true
  unfolding queue_envelope_or_mark_dead
  queue_envelope_or_mark_dead-closing envl = marked_dead (queue_envelope p r (cl, w) envl)

  closes-ends :
      (t : Status × Task p r)
      → ((closes p r t).1.0.closing || (closes p r t).1.0.close_after_flush) ≡ true
  closes-ends (rc, (cl', w')) = ground arith

  -- After server_client_queue_disconnect the client is being closed, now or after its output is flushed,
  -- on every branch.
  pub client_queue_disconnect-ends :
      (message : ClientDisconnect)
      → let cl' = (client_queue_disconnect p r (cl, w) message).1.0 in
        (cl'.closing || cl'.close_after_flush) ≡ true
  unfolding client_queue_disconnect queue_disconnect_with
  client_queue_disconnect-ends message = elim (Bool-cases cl.closing) [
    | inl t ↦
        subst (λ (b : Bool). Ends (if b then (ok, (cl, w)) else closed_after)) (sym t) (rw t refl)
    | inr f ↦
        subst (λ (b : Bool). Ends (if b then (ok, (cl, w)) else closed_after)) (sym f)
          (closes-ends (disconnect_queued p r (internal_disconnect p r) (cl, w) message))
  ]
    where
      Ends : Status × Task p r → Type 0
      Ends t = (t.1.0.closing || t.1.0.close_after_flush) ≡ true

      closed_after : Status × Task p r
      closed_after = closes p r (disconnect_queued p r (internal_disconnect p r) (cl, w) message)
