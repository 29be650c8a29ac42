-- ===== src/Server/Dispatch/Pong.antt =====
-- What a PING is answered with: server_handle_ping in faith-server/src/server/dispatch.c.
use faith.Proto.Msg.RoundTrip.{decode_ping-ping_bytes, encode_pong-pong_bytes}
use faith.Common.{ℕ, ◌^◌, ◌<◌, ◌≡◌, refl, sym, subst, arith, List, some, Option, concat, ◌∷◌, []}
use faith.Proto.Msg.{decode_ping, Ping, Pong, IsPing, IsPong}
use faith.Server.Platform.{Platform}
use faith.Server.Reactor.{Reactor}
use faith.Server.Client.{ClientConn}
use faith.Server.Dispatch.{
  handle_ping, Frame, pong_frame, Encoded, with_decoded, answer_ping, and_then, queue_frame,
}
use faith.Proto.Frame.Wire.{wire_bytes}
use faith.Proto.Frame.{Frame}
use faith.Server.ClientIo.Appends.{Obeys, CanQueue, Appended}
use faith.Proto.Codec.Encode.Writes.{encoded_ok}
use faith.Proto.Msg.RoundTrip.{pong_bytes, ping_bytes}
use faith.Proto.Codec.Decode.Reads.{decoded_ok}
use faith.Server.Steps.{passed, with_decoded, and_then}
use faith.Proto.Codec.Decode.{Decoded}
use faith.Server.ClientIo.{queue_frame}
use faith.Server.ClientIo.Delivery.{queue_frame-Appended}
use faith.Proto.Codec.Words.{be}

module _ (p : Platform) (r : Reactor) (cl : ClientConn) (w : p.World) where
  -- The pong to a ping, at the time of the clock.
  abbrev pub pong_to : Ping → Pong
  pong_to ping = record { nonce = ping.nonce; server_sent_at_ms = (p.now_ms w).0 }

  -- A frame of 20 more bytes, version 1, message type 1, nonce, time.
  abbrev pub pong_wire : Ping → List ℕ
  pong_wire ping = concat (be 4 20 ∷ be 2 1 ∷ be 2 1 ∷ be 8 ping.nonce ∷ be 8 (p.now_ms w).0 ∷ [])

  pong_frame-wire :
      (ping : Ping)
      → wire_bytes (pong_frame (encoded_ok (pong_bytes (pong_to ping)) 16)) ≡ pong_wire ping
  unfolding wire_bytes
  pong_frame-wire ping = refl

  -- With memory, with an epoll that takes the interest, with a clock below 2 ^ 64 and with room for 24 bytes
  -- in the output queue, a frame that holds the bytes of a PING, of a client that is not being closed, is
  -- answered with a frame behind the bytes that wait: the length of the rest, version 1, message type 1, the
  -- nonce of the PING and the time, with the highest byte first.
  pub handle_ping-Appended :
      (ping : Ping) (frame : Frame)
      → Obeys p r cl
      → IsPing ping
      → (p.now_ms w).0 < 2 ^ 64
      → CanQueue cl 24
      → frame.payload ≡ some (ping_bytes ping)
      → frame.payload_size ≡ 16
      → Appended p r cl (pong_wire ping) (handle_ping p r (cl, w) frame)
  unfolding handle_ping
  handle_ping-Appended ping frame o valid clock c payload size =
      let pong-IsPong : IsPong (pong_to ping) = record { nonce = valid.nonce; sent_at = clock } in
      let zeroed : Ping = record { nonce = 0; client_sent_at_ms = 0 } in
      passed (Appended p r cl (pong_wire ping)) cl.closing _ _ c.alive (
        subst
          (λ (d : Decoded Ping).
            Appended p r cl (pong_wire ping)
              (with_decoded (cl, w) d (λ ping. answer_ping p r cl ping (p.now_ms w))))
          (sym (
            decoded_at frame.payload frame.payload_size payload size
              (decode_ping-ping_bytes ping zeroed valid)))
          (subst
            (λ (e : Encoded). Appended p r cl (pong_wire ping) (
              and_then (e.status, (cl, (p.now_ms w).1))
                (λ task. queue_frame p r task (pong_frame e))))
            (sym (encode_pong-pong_bytes (pong_to ping) pong-IsPong))
            (subst
              (λ (bytes : List ℕ). Appended p r cl bytes (
                queue_frame p r (cl, (p.now_ms w).1)
                  (pong_frame (encoded_ok (pong_bytes (pong_to ping)) 16))))
              (pong_frame-wire ping)
              (queue_frame-Appended p r cl (p.now_ms w).1
                (pong_frame (encoded_ok (pong_bytes (pong_to ping)) 16)) o
                (record {
                  proto_ver = omega arith;
                  msg_type = omega arith;
                  fits = omega arith;
                  payload = (refl, omega arith);
                })
                c))))
    where
      decoded_at :
          (payload : Option (List ℕ)) (n : ℕ)
          → payload ≡ some (ping_bytes ping)
          → n ≡ 16
          → decode_ping
              (some (ping_bytes ping))
              16
              (some (record { nonce = 0; client_sent_at_ms = 0 }))
            ≡ decoded_ok ping
          → decode_ping payload n (some (record { nonce = 0; client_sent_at_ms = 0 }))
            ≡ decoded_ok ping
      decoded_at payload n e f g = rw (e, f) g
