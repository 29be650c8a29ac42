-- ===== src/Server/ClientIo/Appends.antt =====
-- What queueing adds to the bytes that wait for a client.
use faith.Common.{
  ◌&&◌, ◌||◌, true, false, sym, refl, arith, ℕ, ◌+◌, ◌≤◌, ◌≡◌, ◌++◌, List, Bool, Option, none, some,
  length, bit_or, subst, ap, take, ◌∙◌, take_all, ==_refl, ◌<◌, ◌^◌, not, ◌==◌, if◌then◌else◌,
  concat, ◌∷◌, [], ◌%◌,
}
use faith.Proto.Status.{Status, ok, invalid, bad_frame, nomem}
use faith.Server.Transport.{
  Queue, enqueue_bytes, enlarge, grow, rounds, first_cap, max_client_in_queue,
}
use faith.Server.Transport.Contents.{
  contents, WellFormed, waiting_of, enqueue_bytes-enqueued, enqueue_bytes-WellFormed,
}
use faith.Proto.Codec.Encode.{cells_of, is_null, Encoded}
use faith.Server.Reactor.{
  failed, ctl_mod, with_fds, event_mask_to_epoll, Reactor, Source, CtlOp, Answer, done, has,
  reactor_writable, reactor_modify_interests, modified,
}
use faith.Server.Platform.{Platform}
use faith.Server.Client.{ClientConn, put_out}
use faith.Server.Steps.{continue, passed, not_denied}
use faith.Proto.Codec.Encode.Writes.{encoded_ok, IsBlock}
use faith.Proto.Envelope.Layout.{encode_envelope-envelope_bytes}
use faith.Proto.Frame.Wire.{IsWireFrame, wire_bytes, encode_frame-wire_bytes, length-wire_bytes}
use faith.Server.ClientIo.{
  Task, Disconnect, watch_writable, watched, enqueued, queue_frame_with, Frame, is_ok, Envelope,
  frame_encoded, queue_envelope_with, envelope_frame, encode_frame, malloced,
}
use faith.Proto.Envelope.{Envelope, IsEnvelope, in_size}
use faith.Proto.Envelope.RoundTrip.{envelope_bytes, length-envelope_bytes}
use faith.Proto.Codec.Words.{be}
use faith.Proto.Frame.{encode_frame}

-- A platform with enough memory, on which epoll accepts the interests of this connection.
pub record Obeys (p : Platform) (r : Reactor) (cl : ClientConn) : Type 0 where
  pub grants : (size : ℕ) → p.alloc size ≡ true
  pub accepts :
      (w : p.World) (op : CtlOp) (epfd fd mask : ℕ) → (p.epoll_ctl w op epfd fd mask).0 ≡ done
  pub epoll_fd : ℕ
  pub has_epoll : r.fd ≡ some epoll_fd
  pub client_fd : ℕ
  pub has_fd : cl.reactor_source.fd ≡ some client_fd

-- A client that can be sent to.
pub record CanQueue (cl : ClientConn) (n : ℕ) : Type 0 where
  pub alive : cl.closing ≡ false
  pub formed : WellFormed cl.conn.out
  pub room : length (contents cl.conn.out) + n ≤ max_client_in_queue

-- The interests with WRITABLE among them.
abbrev pub asking_if : Bool → ℕ → ℕ
asking_if asked interests = if asked then interests else bit_or interests reactor_writable

abbrev pub asking : Source → Source
asking src = record src { interests = asking_if (has src.interests reactor_writable) src.interests }

-- The call succeeds and adds the bytes, and WRITABLE is among the interests. The output queue keeps its
-- offset and its kind, and nothing else of the client changes.
pub record Appended (p : Platform) (r : Reactor) (cl : ClientConn) (bytes : List ℕ)
    (result : Status × Task p r) : Type 0 where
  pub status : result.0 ≡ ok
  pub added : contents result.1.0.conn.out ≡ contents cl.conn.out ++ bytes
  pub formed : WellFormed result.1.0.conn.out
  pub off : result.1.0.conn.out.off ≡ cl.conn.out.off
  pub kind : result.1.0.conn.out.kind ≡ cl.conn.out.kind
  pub kept :
      result.1.0
      ≡ record (put_out cl result.1.0.conn.out) { reactor_source = asking cl.reactor_source }

enlarge-off :
    (alloc : ℕ → Bool) (junk : ℕ) (bytes : List ℕ) (n : ℕ) (q : Queue) (c : Option ℕ)
    → (enlarge alloc junk bytes n q c).1.off ≡ q.off
unfolding enlarge
enlarge-off alloc junk bytes n q none = refl
enlarge-off alloc junk bytes n q (some c) = ground arith

enqueue_bytes-off :
    (alloc : ℕ → Bool) (junk : ℕ) (q : Queue) (bytes : Option (List ℕ)) (n : ℕ)
    → (enqueue_bytes alloc junk q bytes n).1.off ≡ q.off
unfolding enqueue_bytes
enqueue_bytes-off alloc junk q bytes n = ground (
  arith,
  enlarge-off alloc junk (cells_of bytes) n q (grow rounds (q.size + n) (first_cap q.cap)),
)

enlarge-kind :
    (alloc : ℕ → Bool) (junk : ℕ) (bytes : List ℕ) (n : ℕ) (q : Queue) (c : Option ℕ)
    → (enlarge alloc junk bytes n q c).1.kind ≡ q.kind
unfolding enlarge
enlarge-kind alloc junk bytes n q none = refl
enlarge-kind alloc junk bytes n q (some c) = ground arith

enqueue_bytes-kind :
    (alloc : ℕ → Bool) (junk : ℕ) (q : Queue) (bytes : Option (List ℕ)) (n : ℕ)
    → (enqueue_bytes alloc junk q bytes n).1.kind ≡ q.kind
unfolding enqueue_bytes
enqueue_bytes-kind alloc junk q bytes n = ground (
  arith,
  enlarge-kind alloc junk (cells_of bytes) n q (grow rounds (q.size + n) (first_cap q.cap)),
)

block_given :
    (ptr : Option (List ℕ)) (n : ℕ) → IsBlock ptr n → (is_null ptr && not (n == 0)) ≡ false
block_given none n e = ground (arith, e)
block_given (some xs) n h = refl

unsealed :
    (closing : Bool) (frame : Frame)
    → closing ≡ false
    → (is_null frame.payload && not (frame.payload_size == 0)) ≡ false
    → (closing || (is_null frame.payload && not (frame.payload_size == 0))) ≡ false
unsealed closing frame e f = rw (e, f) refl

-- An envelope on the wire: the length of the rest, version 1, message type 2, and its bytes.
abbrev pub envelope_wire : Envelope → List ℕ
envelope_wire envl = concat (be 4 (4 + in_size envl) ∷ be 2 1 ∷ be 2 2 ∷ envelope_bytes envl ∷ [])

envelope_frame-wire :
    (envl : Envelope)
    → in_size envl + 8 < 2 ^ 32
    → wire_bytes (envelope_frame (encoded_ok (envelope_bytes envl) (in_size envl)))
      ≡ envelope_wire envl
unfolding wire_bytes
envelope_frame-wire envl fits =
    ap (λ (n : ℕ). concat (be 4 (4 + n) ∷ be 2 1 ∷ be 2 2 ∷ envelope_bytes envl ∷ []))
      {x = in_size envl % 2 ^ 32} (omega (arith, fits))

envelope_frame-IsWireFrame :
    (envl : Envelope)
    → IsEnvelope envl
    → in_size envl + 8 < 2 ^ 32
    → IsWireFrame (envelope_frame (encoded_ok (envelope_bytes envl) (in_size envl)))
envelope_frame-IsWireFrame envl valid fits = record {
  proto_ver = omega arith;
  msg_type = omega arith;
  fits = omega arith;
  payload = (length-envelope_bytes envl valid ∙ omega (arith, fits), omega arith);
}

module _ (p : Platform) (r : Reactor) (disconnect : Disconnect p r) where
  abbrev Accepted : ClientConn → Source → Status × Task p r → Type 0
  Accepted cl src t = (t.0 ≡ ok) × (t.1.0 ≡ record cl { reactor_source = src })

  watched-answer :
      (cl : ClientConn) (src : Source) (new_interests : ℕ) (answer : Answer × p.World)
      → answer.0 ≡ done
      → Accepted cl
          (record src { interests = new_interests })
          (watched p r disconnect cl (modified p.epoll_ctl src new_interests answer))
  watched-answer cl src new_interests (done, w) e = (refl, refl)
  watched-answer cl src new_interests (failed n, w) e = cc

  modify-Accepted :
      (cl : ClientConn) (w : p.World) (mask : ℕ)
      → Obeys p r cl
      → Accepted cl
          (record cl.reactor_source { interests = mask })
          (watched p r disconnect cl
            (reactor_modify_interests p.epoll_ctl w r cl.reactor_source mask))
  unfolding reactor_modify_interests
  modify-Accepted cl w mask o =
      subst
        (λ (fds : Option ℕ × Option ℕ).
          Accepted cl (record cl.reactor_source { interests = mask })
            (watched p r disconnect cl (
              with_fds fds.0 fds.1 (invalid, cl.reactor_source, w)
                (λ epfd fd.
                  modified p.epoll_ctl cl.reactor_source mask
                    (p.epoll_ctl w ctl_mod epfd fd (event_mask_to_epoll mask))))))
        {x = (some o.epoll_fd, some o.client_fd)} (λ i. (sym o.has_epoll i, sym o.has_fd i))
        (watched-answer cl cl.reactor_source mask _
          (o.accepts w ctl_mod o.epoll_fd o.client_fd (event_mask_to_epoll mask)))

  -- The interest in WRITABLE is there, or epoll takes it.
  watch_writable-Accepted :
      (cl : ClientConn) (w : p.World)
      → Obeys p r cl
      → Accepted cl (asking cl.reactor_source) (watch_writable p r disconnect (cl, w))
  watch_writable-Accepted cl w o = by_interest (has cl.reactor_source.interests reactor_writable)
    where
      asked : Status × Task p r
      asked = watched p r disconnect cl (
          reactor_modify_interests p.epoll_ctl w r cl.reactor_source
            (bit_or cl.reactor_source.interests reactor_writable))

      by_interest :
          (b : Bool)
          → Accepted cl
              (record cl.reactor_source { interests = asking_if b cl.reactor_source.interests })
              (elim b as (λ x. Status × Task p r) [ true ↦ (ok, (cl, w)) | false ↦ asked ])
      by_interest true = (refl, refl)
      by_interest false = modify-Accepted cl w _ o

  Accepted-Appended :
      (cl : ClientConn) (bytes : List ℕ) (q : Queue) (t : Status × Task p r)
      → contents q ≡ contents cl.conn.out ++ bytes
      → WellFormed q
      → q.off ≡ cl.conn.out.off
      → q.kind ≡ cl.conn.out.kind
      → Accepted (put_out cl q) (asking cl.reactor_source) t
      → Appended p r cl bytes t
  Accepted-Appended cl bytes q t added formed off kind (status, kept) =
      let there : t.1.0.conn.out ≡ q = ap (λ (c : ClientConn). c.conn.out) kept in
      record {
        status = status;
        added = ap contents there ∙ added;
        formed = subst WellFormed (sym there) formed;
        off = ap (λ (o : Queue). o.off) there ∙ off;
        kind = ap (λ (o : Queue). o.kind) there ∙ kind;
        kept =
            kept
            ∙ ap
                (λ (o : Queue). record (put_out cl o) { reactor_source = asking cl.reactor_source })
                (sym there);
      }

  enqueued-Appended :
      (cl : ClientConn) (w : p.World) (bytes : List ℕ)
      → Obeys p r cl
      → CanQueue cl (length bytes)
      → Appended p r cl bytes (
          enqueued p r disconnect
            (cl, w)
            (enqueue_bytes p.alloc p.junk cl.conn.out (some bytes) (length bytes)))
  enqueued-Appended cl w bytes o c =
      let call : Status × Queue =
        enqueue_bytes p.alloc p.junk cl.conn.out (some bytes) (length bytes) in
      let full : take (length bytes) bytes ≡ bytes = take_all bytes in
      let waits : waiting_of call ≡ (ok, contents cl.conn.out ++ bytes) =
        enqueue_bytes-enqueued p.alloc p.junk cl.conn.out bytes (length bytes) c.formed
          (omega arith) o.grants
        ∙ rw full (ground (arith, c.room)) in
      let went : is_ok call.0 ≡ true = ap (λ (x : Status × List ℕ). is_ok x.0) waits in
      Accepted-Appended cl bytes call.1 _ (ap (λ (x : Status × List ℕ). x.1) waits)
        (enqueue_bytes-WellFormed p.alloc p.junk cl.conn.out bytes (length bytes) c.formed
          (omega arith))
        (enqueue_bytes-off p.alloc p.junk cl.conn.out (some bytes) (length bytes))
        (enqueue_bytes-kind p.alloc p.junk cl.conn.out (some bytes) (length bytes))
        (subst
          (λ (b : Bool).
            Accepted (put_out cl call.1) (asking cl.reactor_source)
              (continue b (call.0, (put_out cl call.1, w)) (watch_writable p r disconnect)))
          (sym went)
          (watch_writable-Accepted (put_out cl call.1) w (record {
            grants = o.grants;
            accepts = o.accepts;
            epoll_fd = o.epoll_fd;
            has_epoll = o.has_epoll;
            client_fd = o.client_fd;
            has_fd = o.has_fd;
          })))

  encoded-Appended :
      (cl : ClientConn) (w : p.World) (bytes : List ℕ) (n : ℕ)
      → Obeys p r cl
      → length bytes ≡ n
      → CanQueue cl n
      → Appended p r cl bytes (frame_encoded p r disconnect (cl, w) n (encoded_ok bytes n))
  encoded-Appended cl w bytes n o e =
      subst
        (λ (k : ℕ).
          CanQueue cl k
          → Appended p r cl bytes (frame_encoded p r disconnect (cl, w) k (encoded_ok bytes k)))
        e
        (λ c.
          subst
            (λ (b : Bool). Appended p r cl bytes (elim b [
              | true ↦
                  enqueued p r disconnect (cl, w)
                    (enqueue_bytes p.alloc p.junk cl.conn.out (some bytes) (length bytes))
              | false ↦ (bad_frame, (cl, w))
            ]))
            (sym (==_refl (length bytes))) (enqueued-Appended cl w bytes o c))

  pub queue_frame_with-Appended :
      (cl : ClientConn) (w : p.World) (frame : Frame)
      → Obeys p r cl
      → IsWireFrame frame
      → CanQueue cl (8 + frame.payload_size)
      → Appended p r cl (wire_bytes frame) (queue_frame_with p r disconnect (cl, w) frame)
  unfolding queue_frame_with
  queue_frame_with-Appended cl w frame o valid c =
      let size = 8 + frame.payload_size in
      passed (Appended p r cl (wire_bytes frame)) _ _ _
        (unsealed cl.closing frame c.alive
          (block_given frame.payload frame.payload_size valid.payload))
        (subst
          (λ (k : ℕ). Appended p r cl (wire_bytes frame) (
            if not (p.alloc k)
            then (nomem, (cl, w))
            else frame_encoded p r disconnect (cl, w) k
                (encode_frame (malloced p r k) (some 0) k (some frame))))
          {x = size} (omega (arith, valid.fits))
          (passed (Appended p r cl (wire_bytes frame)) _ _ _
            (not_denied (p.alloc size) (o.grants size))
            (subst
              (λ (e : Encoded).
                Appended p r cl (wire_bytes frame) (frame_encoded p r disconnect (cl, w) size e))
              (sym (encode_frame-wire_bytes frame p.junk 0 valid))
              (encoded-Appended cl w (wire_bytes frame) size o (length-wire_bytes frame valid) c))))

  pub queue_envelope_with-Appended :
      (cl : ClientConn) (w : p.World) (envl : Envelope)
      → Obeys p r cl
      → IsEnvelope envl
      → in_size envl + 8 < 2 ^ 32
      → CanQueue cl (8 + in_size envl)
      → Appended p r cl (envelope_wire envl) (queue_envelope_with p r disconnect (cl, w) envl)
  unfolding queue_envelope_with
  queue_envelope_with-Appended cl w envl o valid fits c =
      let P = Appended p r cl (envelope_wire envl) in
      let frame = envelope_frame (encoded_ok (envelope_bytes envl) (in_size envl)) in
      passed P cl.closing _ _ c.alive (
        passed P _ _ _ (not_denied (p.alloc (in_size envl)) (o.grants (in_size envl))) (
          subst
            (λ (e : Encoded). P (
              continue (is_ok e.status) (e.status, (cl, w))
                (λ task. queue_frame_with p r disconnect task (envelope_frame e))))
            (sym (encode_envelope-envelope_bytes envl p.junk 0 valid))
            (subst
              (λ (bytes : List ℕ).
                Appended p r cl bytes (queue_frame_with p r disconnect (cl, w) frame))
              (envelope_frame-wire envl fits)
              (queue_frame_with-Appended cl w frame o (envelope_frame-IsWireFrame envl valid fits)
                (record {
                  alive = c.alive;
                  formed = c.formed;
                  room = omega (arith, fits, c.room);
                })))))
