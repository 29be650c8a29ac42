-- ===== src/Proto/Envelope.antt =====
-- Envelopes: faith_envelope_t in faith-proto/include/faith-proto/codec/envelopes.h, and its coders in
-- faith-proto/src/codec/codec.c.
pub mod RoundTrip
pub mod Layout
pub mod Types
use faith.Proto.Codec.Encode.Writes.{IsBlock}
use faith.Common.{
  ℕ, zero, suc, ◌+◌, ◌-◌, ◌*◌, ◌%◌, ◌/◌, ◌^◌, ◌≤◌, ◌<◌, ◌≡◌, ap, sym, ◌∙◌, append_assoc, bit_or,
  bit_and, refl, arith, List, [], ◌∷◌, ◌++◌, Bool, true, false, not, ◌&&◌, ◌||◌, Option, none, some,
  ltb, leb, ◌==◌, if◌then◌else◌, length, replicate, take, drop, concat, set, copy_at, get_or,
}
use faith.Proto.Status.{
  Status, ok, invalid, overflow, bad_frame, bad_envelope, too_large, incomplete, unsupported_ver,
  nomem,
}
use faith.Proto.Codec.Steps.{
  Outcome, done, fail, ◌>>=◌, ◌>>◌, pure, guard, stop, when, deferred, check_return, Step,
}
use faith.Proto.Codec.Words.{be}
use faith.Proto.Codec.Encode.{
  Buf, Writer, append, append_nonempty, encode_u16_be, encode_u32_be, encode_u64_be, Encoded,
  encode_with, is_null, cells_of, encode_epilogue, advance, put_cells,
}
use faith.Proto.Codec.Decode.{
  Payload, Cursor, Reader, decode_bytes, payload_size, offset, decode_u16_be, decode_u32_be,
  decode_u64_be, assign, current, remaining, decode_block, ne, lt, decode_epilogue, Decoded,
  decode_with, returned,
}

-- faith_envelope_t
pub record Envelope : Type 0 where
  pub kind : ℕ
  pub sender_id : List ℕ
  pub recipient_id : List ℕ
  pub body_size : ℕ
  pub body : Option (List ℕ)

-- FAITH_ENVL_HEADER_SIZE
abbrev pub envl_header_size : ℕ
envl_header_size = 40

-- `in_size`, a sum of a `size_t` and a 32-bit number.
abbrev pub in_size : Envelope → ℕ
in_size m = envl_header_size + m.body_size

pub write_envelope : Envelope → Writer
write_envelope msg = do
  encode_u32_be msg.kind
  append (some msg.sender_id) 16
  append (some msg.recipient_id) 16
  encode_u32_be msg.body_size
  append_nonempty msg.body msg.body_size

-- `*out_size` is a `size_t` here.
finish_envelope : ℕ → Outcome Buf (Unit {0}) → Encoded
finish_envelope expected (done v s) =
    if s.off == expected
    then record { status = ok; out_buf = some s.cells; out_size = some s.off }
    else record { status = invalid; out_buf = some s.cells; out_size = some 0 }
finish_envelope expected (fail rc s) = record {
  status = rc;
  out_buf = some s.cells;
  out_size = some 0;
}

pub encode_envelope : Option (List ℕ) → Option ℕ → ℕ → Option Envelope → Encoded
unfolding write_envelope finish_envelope
encode_envelope (some cells) (some n) buf_cap (some msg) =
    if ltb 0 msg.body_size && is_null msg.body
    then record { status = invalid; out_buf = some cells; out_size = some 0 }
    else if ltb buf_cap (in_size msg)
    then record { status = overflow; out_buf = some cells; out_size = some 0 }
    else finish_envelope (in_size msg)
        (write_envelope msg buf_cap (record { cells = cells; off = 0 }))
encode_envelope out_buf out_size buf_cap msg = record {
  status = invalid;
  out_buf = out_buf;
  out_size = out_size;
}

abbrev put_body : Option (List ℕ) → Envelope → Envelope
put_body p o = record o { body = p }

read_envelope : (ℕ → Bool) → Reader Envelope (Unit {0})
read_envelope alloc = do
  kind ← decode_u32_be
  assign (λ o. record o { kind = kind })
  sender_id ← decode_bytes 16
  assign (λ o. record o { sender_id = sender_id })
  recipient_id ← decode_bytes 16
  assign (λ o. record o { recipient_id = recipient_id })
  body_size ← decode_u32_be
  assign (λ o. record o { body_size = body_size })
  left ← remaining
  guard (not (body_size == left)) bad_frame
  decode_block alloc body_size put_body
  deferred (λ c. record c { out = put_body none c.out })
      (decode_epilogue ne (envl_header_size + body_size))

abbrev pub zeroed_envelope : Envelope
zeroed_envelope = record {
  kind = 0;
  sender_id = replicate 16 0;
  recipient_id = replicate 16 0;
  body_size = 0;
  body = none;
}

pub decode_envelope : (ℕ → Bool) → Option (List ℕ) → ℕ → Option Envelope → Decoded Envelope
unfolding read_envelope
decode_envelope alloc = decode_with zeroed_envelope lt envl_header_size (read_envelope alloc)

-- The ids have their declared size, the type is a 32-bit number, and the body's size one that leaves
-- room for the header.
pub record IsEnvelope (m : Envelope) : Type 0 where
  pub kind : m.kind < 2 ^ 32
  pub sender_id : length m.sender_id ≡ 16
  pub recipient_id : length m.recipient_id ≡ 16
  pub fits : envl_header_size + m.body_size < 2 ^ 32
  pub body : IsBlock m.body m.body_size
