-- ===== src/Proto/Msg.antt =====
-- PING and PONG: faith-proto/include/faith-proto/codec/msg.h, and their coders in
-- faith-proto/src/codec/codec.c.
pub mod RoundTrip
use faith.Common.{ℕ, ◌^◌, ◌<◌, List, Option}
use faith.Proto.Codec.Steps.{◌>>=◌, ◌>>◌}
use faith.Proto.Codec.Encode.{Writer, encode_u64_be, Encoded, encode_with}
use faith.Proto.Codec.Decode.{
  Reader, decode_u64_be, assign, ne, decode_epilogue, Decoded, decode_with,
}

pub record Ping : Type 0 where
  pub nonce : ℕ
  pub client_sent_at_ms : ℕ

pub record Pong : Type 0 where
  pub nonce : ℕ
  pub server_sent_at_ms : ℕ

-- FAITH_MSG_PING_PAYLOAD_SIZE; the coders of PONG use it too.
abbrev pub ping_payload_size : ℕ
ping_payload_size = 16

write_ping : Ping → Writer
write_ping msg = do encode_u64_be msg.nonce; encode_u64_be msg.client_sent_at_ms

pub encode_ping : Option (List ℕ) → Option ℕ → ℕ → Option Ping → Encoded
unfolding write_ping
encode_ping = encode_with (λ _. ping_payload_size) write_ping

read_ping : Reader Ping (Unit {0})
read_ping = do
  nonce ← decode_u64_be
  assign (λ o. record o { nonce = nonce })
  sent_at ← decode_u64_be
  assign (λ o. record o { client_sent_at_ms = sent_at })
  decode_epilogue ne ping_payload_size

pub decode_ping : Option (List ℕ) → ℕ → Option Ping → Decoded Ping
unfolding read_ping
decode_ping =
    decode_with (record { nonce = 0; client_sent_at_ms = 0 }) ne ping_payload_size read_ping

write_pong : Pong → Writer
write_pong msg = do encode_u64_be msg.nonce; encode_u64_be msg.server_sent_at_ms

pub encode_pong : Option (List ℕ) → Option ℕ → ℕ → Option Pong → Encoded
unfolding write_pong
encode_pong = encode_with (λ _. ping_payload_size) write_pong

read_pong : Reader Pong (Unit {0})
read_pong = do
  nonce ← decode_u64_be
  assign (λ o. record o { nonce = nonce })
  sent_at ← decode_u64_be
  assign (λ o. record o { server_sent_at_ms = sent_at })
  decode_epilogue ne ping_payload_size

pub decode_pong : Option (List ℕ) → ℕ → Option Pong → Decoded Pong
unfolding read_pong
decode_pong =
    decode_with (record { nonce = 0; server_sent_at_ms = 0 }) ne ping_payload_size read_pong

pub record IsPing (m : Ping) : Type 0 where
  pub nonce : m.nonce < 2 ^ 64
  pub sent_at : m.client_sent_at_ms < 2 ^ 64

pub record IsPong (m : Pong) : Type 0 where
  pub nonce : m.nonce < 2 ^ 64
  pub sent_at : m.server_sent_at_ms < 2 ^ 64
