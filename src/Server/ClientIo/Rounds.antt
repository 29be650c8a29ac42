-- ===== src/Server/ClientIo/Rounds.antt =====
-- The rounds in which queueing a frame and disconnecting a client call one another.
use faith.Common.{
  inl, inr, true, false, Bool-cases, ap, sym, ◌∙◌, not, ◌==◌, refl, arith, ℕ, zero, suc, ◌+◌, ◌-◌,
  ◌≤◌, ◌<◌, ◌≡◌, List, Bool, Option, none, some, if◌then◌else◌, bit_or, replicate, ◌%◌, ◌^◌,
}
use faith.Proto.Status.{Status, ok, invalid, nomem, bad_frame}
use faith.Proto.Codec.Encode.{cells_of, Encoded}
use faith.Proto.Frame.{Frame, encode_frame}
use faith.Proto.Envelope.{Envelope, envl_header_size, encode_envelope}
use faith.Proto.Disconnect.{ClientDisconnect, encode_client_disconnect_body}
use faith.Server.Steps.{is_ok, continue, continue-same, continue-same_ok}
use faith.Server.Transport.{
  Queue, enqueue_bytes, enlarge, grow, rounds, first_cap, max_client_in_queue,
}
use faith.Server.Reactor.{Reactor}
use faith.Server.Platform.{Platform}
use faith.Server.Client.{ClientConn, put_out}
use faith.Server.ClientIo.{
  Task, Disconnect, watch_writable, queue_frame_with, queue_envelope_with, queue_disconnect_with,
  disconnect_rounds, rounds_of, internal_disconnect, enqueued, has, Source, watched,
  reactor_writable, malloced, frame_encoded, size_of, client_queue_disconnect,
  reactor_modify_interests, disconnect_message, disconnect_internal_error,
  client_disconnect_body_size_max, envelope_frame, reconnect_allowed, writable_failed, closes,
  disconnect_envelope,
}
use faith.Proto.Frame.Wire.{encode_frame-no_room}

-- A queue that has taken more, within the limit.
abbrev Longer : Queue → Queue → Type 0
Longer before after = (before.size < after.size) × (after.size ≤ max_client_in_queue)

enlarge-Longer :
    (alloc : ℕ → Bool) (junk : ℕ) (bytes : List ℕ) (n : ℕ) (q : Queue) (c : Option ℕ)
    → 0 < n
    → q.size + n ≤ max_client_in_queue
    → is_ok (enlarge alloc junk bytes n q c).0 ≡ true
    → Longer q (enlarge alloc junk bytes n q c).1
unfolding enlarge
enlarge-Longer alloc junk bytes n q none h k e = cc
enlarge-Longer alloc junk bytes n q (some c) h k e = ground arith

enqueue_bytes-Longer :
    (alloc : ℕ → Bool) (junk : ℕ) (q : Queue) (bytes : Option (List ℕ)) (n : ℕ)
    → 0 < n
    → is_ok (enqueue_bytes alloc junk q bytes n).0 ≡ true
    → Longer q (enqueue_bytes alloc junk q bytes n).1
unfolding enqueue_bytes
enqueue_bytes-Longer alloc junk q bytes n h e = ground (
  arith,
  enlarge-Longer alloc junk (cells_of bytes) n q (grow rounds (q.size + n) (first_cap q.cap)),
)

-- Two answers to a refused interest that are the same for queues longer than `n`.
module _ (p : Platform) (r : Reactor) (f g : Disconnect p r) (n : ℕ)
    (same : (cl : ClientConn) (w : p.World)
      → n < cl.conn.out.size
      → cl.conn.out.size ≤ max_client_in_queue
      → f (cl, w) ≡ g (cl, w)) where
  watched-same :
      (cl : ClientConn) (answer : Status × Source × p.World)
      → n < cl.conn.out.size
      → cl.conn.out.size ≤ max_client_in_queue
      → watched p r f cl answer ≡ watched p r g cl answer
  watched-same cl (rc, src, w) h k =
      ap
        (λ (t : Status × Task p r). elim (is_ok rc) [
          | true ↦ (ok, (record cl { reactor_source = src }, w))
          | false ↦ (rc, t.1)
        ])
        (same (record cl { reactor_source = src }) w h k)

  watch_writable-same :
      (cl : ClientConn) (w : p.World)
      → n < cl.conn.out.size
      → cl.conn.out.size ≤ max_client_in_queue
      → watch_writable p r f (cl, w) ≡ watch_writable p r g (cl, w)
  watch_writable-same cl w h k =
      ap
        (λ (t : Status × Task p r). elim (has cl.reactor_source.interests reactor_writable) [
          | true ↦ (ok, (cl, w))
          | false ↦ t
        ])
        (watched-same cl
          (reactor_modify_interests p.epoll_ctl w r cl.reactor_source
            (bit_or cl.reactor_source.interests reactor_writable))
          h k)

  enqueued-same :
      (cl : ClientConn) (w : p.World) (bytes : Option (List ℕ)) (size : ℕ)
      → 0 < size
      → n ≤ cl.conn.out.size
      → let call = enqueue_bytes p.alloc p.junk cl.conn.out bytes size in
        enqueued p r f (cl, w) call ≡ enqueued p r g (cl, w) call
  enqueued-same cl w bytes size h k =
      let call : Status × Queue = enqueue_bytes p.alloc p.junk cl.conn.out bytes size in
      elim (Bool-cases (is_ok call.0)) [
        | inl t ↦
            let (more, limit) = enqueue_bytes-Longer p.alloc p.junk cl.conn.out bytes size h t in
            ap (λ (b : Bool). continue b (call.0, (put_out cl call.1, w)) (watch_writable p r f)) t
            ∙ watch_writable-same (put_out cl call.1) w (omega (arith, more)) limit
            ∙ ap (λ (b : Bool). continue b (call.0, (put_out cl call.1, w)) (watch_writable p r g))
                (sym t)
        | inr e ↦
            ap (λ (b : Bool). continue b (call.0, (put_out cl call.1, w)) (watch_writable p r f)) e
            ∙ ap (λ (b : Bool). continue b (call.0, (put_out cl call.1, w)) (watch_writable p r g))
                (sym e)
      ]

  frame_encoded-same :
      (cl : ClientConn) (w : p.World) (size : ℕ) (wire : Encoded)
      → (is_ok wire.status ≡ true → 0 < size)
      → n ≤ cl.conn.out.size
      → frame_encoded p r f (cl, w) size wire ≡ frame_encoded p r g (cl, w) size wire
  frame_encoded-same cl w size wire h k =
      continue-same_ok (is_ok wire.status) wire.status (cl, w) _ _
        (λ t.
          ap
            (λ (t : Status × Task p r). elim (size_of wire == size) [
              | true ↦ t
              | false ↦ (bad_frame, (cl, w))
            ])
            (enqueued-same cl w wire.out_buf size (h t) k))

  queue_frame_with-same :
      (cl : ClientConn) (w : p.World) (frame : Frame)
      → n ≤ cl.conn.out.size
      → queue_frame_with p r f (cl, w) frame ≡ queue_frame_with p r g (cl, w) frame
  unfolding queue_frame_with
  queue_frame_with-same cl w frame k =
      rw (frame_encoded-same cl w size wire (sized size refl) k) refl
    where
      size : ℕ
      size = (8 + frame.payload_size) % 2 ^ 32

      wire : Encoded
      wire = encode_frame (malloced p r size) (some 0) size (some frame)

      -- No frame is encoded into no bytes.
      sized : (n : ℕ) → n ≡ size → is_ok wire.status ≡ true → 0 < size
      sized zero e t = cc (
        t,
        ap is_ok (encode_frame-no_room frame (replicate size p.junk) 0 size (omega (arith, e))),
      )
      sized (suc n) e t = omega (arith, e)

  queue_envelope_with-same :
      (cl : ClientConn) (w : p.World) (envl : Envelope)
      → n ≤ cl.conn.out.size
      → queue_envelope_with p r f (cl, w) envl ≡ queue_envelope_with p r g (cl, w) envl
  unfolding queue_envelope_with
  queue_envelope_with-same cl w envl k =
      let cap = envl_header_size + envl.body_size in
      let payload = encode_envelope (malloced p r cap) (some 0) cap (some envl) in
      ap
        (λ (t : Status × Task p r).
          if cl.closing
          then (invalid, (cl, w))
          else if not (p.alloc cap)
          then (nomem, (cl, w))
          else t)
        (continue-same (is_ok payload.status) payload.status (cl, w) _ _
          (queue_frame_with-same cl w (envelope_frame payload) k))

  queue_disconnect_with-same :
      (cl : ClientConn) (w : p.World) (message : ClientDisconnect)
      → n ≤ cl.conn.out.size
      → queue_disconnect_with p r f (cl, w) message ≡ queue_disconnect_with p r g (cl, w) message
  unfolding queue_disconnect_with
  queue_disconnect_with-same cl w message k =
      let body =
        encode_client_disconnect_body (some (replicate client_disconnect_body_size_max 0)) (some 0)
          client_disconnect_body_size_max (some message) in
      ap (λ (t : Status × Task p r). if cl.closing then (ok, (cl, w)) else closes p r t)
        (continue-same (is_ok body.status) body.status (cl, w) _ _
          (queue_envelope_with-same cl w (disconnect_envelope p r cl body) k))

module _ (p : Platform) (r : Reactor) where
  -- More rounds than the queue has room for change nothing.
  more_rounds :
      (n m : ℕ) (cl : ClientConn) (w : p.World)
      → max_client_in_queue - cl.conn.out.size < n
      → max_client_in_queue - cl.conn.out.size < m
      → disconnect_rounds p r n (cl, w) ≡ disconnect_rounds p r m (cl, w)
  unfolding disconnect_rounds
  more_rounds zero m cl w h k = absurd (omega arith)
  more_rounds (suc n) zero cl w h k = absurd (omega arith)
  more_rounds (suc n) (suc m) cl w h k =
      queue_disconnect_with-same p r (disconnect_rounds p r n) (disconnect_rounds p r m)
        cl.conn.out.size (λ cl' w' l limit. more_rounds n m cl' w' (omega arith) (omega arith)) cl w
        (disconnect_message disconnect_internal_error reconnect_allowed writable_failed)
        (omega arith)

  -- The disconnect that server_queue_frame asks for is the call of server_client_queue_disconnect with its
  -- message, which calls server_queue_frame again: the bound on the rounds is never met, for any platform,
  -- since each further round has put a frame into the queue and a queue of 1 MiB takes no more.
  pub internal_disconnect-client_queue_disconnect :
      (task : Task p r)
      → internal_disconnect p r task
        ≡ client_queue_disconnect p r task
            (disconnect_message disconnect_internal_error reconnect_allowed writable_failed)
  unfolding internal_disconnect client_queue_disconnect disconnect_rounds
  internal_disconnect-client_queue_disconnect (cl, w) =
      queue_disconnect_with-same p r
        (disconnect_rounds p r (max_client_in_queue - cl.conn.out.size)) (internal_disconnect p r)
        cl.conn.out.size
        (λ cl' w' l limit.
          more_rounds (max_client_in_queue - cl.conn.out.size) (rounds_of p r cl') cl' w'
            (omega arith) (omega arith))
        cl w (disconnect_message disconnect_internal_error reconnect_allowed writable_failed)
        (omega arith)
