-- ===== src/Proto/Msg/RoundTrip.antt =====
-- What the decoders of PING and PONG make of what the encoders wrote.
use faith.Common.{
  ℕ, ◌≤◌, refl, arith, List, [], ◌∷◌, some, length, concat, ◌≡◌, replicate, ap, ◌∙◌, sym,
  append-nil,
}
use faith.Proto.Codec.Words.{be}
use faith.Proto.Codec.Encode.Writes.{writing, encoded_ok, encode_with-ok, encoded_ok_exact}
use faith.Proto.Codec.Decode.Reads.{
  field-Finishes, decode_u64_be-Reads, epilogue_ne-Finishes, decoded_ok, decode_with-ok,
}
use faith.Proto.Codec.RoundTrip.{ReadsBack, encode_with-decode_with}
use faith.Proto.Msg.{
  Ping, IsPing, Pong, IsPong, encode_ping, decode_ping, encode_pong, decode_pong, ping_payload_size,
}

-- Nonce, time sent.
abbrev pub ping_bytes : Ping → List ℕ
ping_bytes m = concat (be 8 m.nonce ∷ be 8 m.client_sent_at_ms ∷ [])

-- A PING of two 64-bit numbers, encoded into a buffer with room for it, is laid out at its front as nonce
-- and time, each in 8 bytes with the highest first, and leaves the cells behind; it is reported as 16
-- bytes and decoded to itself.
pub decode_ping-encode_ping :
    (msg : Ping) (cells : List ℕ) (n buf_cap : ℕ) (old : Ping)
    → IsPing msg
    → ping_payload_size ≤ buf_cap
    → ping_payload_size ≤ length cells
    → ReadsBack
        (encode_ping (some cells) (some n) buf_cap (some msg))
        decode_ping
        ping_payload_size
        old
        msg
        (ping_bytes msg)
        cells
unfolding encode_ping decode_ping
decode_ping-encode_ping msg cells n buf_cap old valid fits room =
    encode_with-decode_with _ _ _ _ _ _ msg (ping_bytes msg) (search writing depth 14)
      (field-Finishes _ (decode_u64_be-Reads valid.nonce)
        (field-Finishes _ (decode_u64_be-Reads valid.sent_at) (epilogue_ne-Finishes (omega arith))))
      refl (omega arith) refl cells n buf_cap old fits room

-- Nonce, time sent.
abbrev pub pong_bytes : Pong → List ℕ
pong_bytes m = concat (be 8 m.nonce ∷ be 8 m.server_sent_at_ms ∷ [])

-- A PONG of two 64-bit numbers, encoded into a buffer with room for it, is reported as 16 bytes and
-- decoded to itself.
pub decode_pong-encode_pong :
    (msg : Pong) (cells : List ℕ) (n buf_cap : ℕ) (old : Pong)
    → IsPong msg
    → ping_payload_size ≤ buf_cap
    → ping_payload_size ≤ length cells
    → ReadsBack
        (encode_pong (some cells) (some n) buf_cap (some msg))
        decode_pong
        ping_payload_size
        old
        msg
        (pong_bytes msg)
        cells
unfolding encode_pong decode_pong
decode_pong-encode_pong msg cells n buf_cap old valid fits room =
    encode_with-decode_with _ _ _ _ _ _ msg (pong_bytes msg) (search writing depth 14)
      (field-Finishes _ (decode_u64_be-Reads valid.nonce)
        (field-Finishes _ (decode_u64_be-Reads valid.sent_at) (epilogue_ne-Finishes (omega arith))))
      refl (omega arith) refl cells n buf_cap old fits room

pub decode_ping-ping_bytes :
    (msg old : Ping)
    → IsPing msg
    → decode_ping (some (ping_bytes msg)) 16 (some old) ≡ decoded_ok msg
unfolding decode_ping
decode_ping-ping_bytes msg old valid =
    ap (λ (bs : List ℕ). decode_ping (some bs) 16 (some old)) (sym (append-nil (ping_bytes msg)))
    ∙ decode_with-ok _ _ _ _
        (field-Finishes _ (decode_u64_be-Reads valid.nonce) (
          field-Finishes _ (decode_u64_be-Reads valid.sent_at)
            (epilogue_ne-Finishes (omega arith))))
        refl [] old

pub encode_pong-pong_bytes :
    (msg : Pong)
    → IsPong msg
    → encode_pong (some (replicate 16 0)) (some 0) 16 (some msg) ≡ encoded_ok (pong_bytes msg) 16
unfolding encode_pong
encode_pong-pong_bytes msg valid =
    encode_with-ok _ _ msg (pong_bytes msg) (search writing depth 14) (replicate 16 0) 0 16 refl
      (omega arith) (omega arith) (omega arith)
    ∙ encoded_ok_exact (pong_bytes msg) (replicate 16 0) 16 16 refl refl
