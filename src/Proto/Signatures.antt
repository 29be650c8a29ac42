-- ===== src/Proto/Signatures.antt =====
-- The buffers that are signed: faith-proto/src/codec/signatures.c and
-- faith-proto/include/faith-proto/codec/signatures.h.
pub mod Binding
use faith.Common.{
  ℕ, zero, suc, ◌+◌, ◌-◌, ◌*◌, ◌%◌, ◌/◌, ◌^◌, ◌≤◌, ◌<◌, ◌≡◌, ap, sym, ◌∙◌, append_assoc, bit_or,
  bit_and, refl, arith, List, [], ◌∷◌, ◌++◌, Bool, true, false, not, ◌&&◌, ◌||◌, Option, none, some,
  ltb, leb, ◌==◌, if◌then◌else◌, length, replicate, take, drop, concat, set, copy_at, get_or,
}
use faith.Proto.Status.{
  Status, ok, invalid, overflow, bad_frame, bad_envelope, too_large, incomplete, unsupported_ver,
  nomem,
}
use faith.Proto.Codec.Steps.{
  Outcome, done, fail, ◌>>=◌, ◌>>◌, pure, guard, stop, when, deferred, check_return, Step,
}
use faith.Proto.Codec.Words.{be}
use faith.Proto.Codec.Encode.{
  Buf, Writer, append, append_nonempty, encode_u16_be, encode_u32_be, encode_u64_be, Encoded,
  encode_with, is_null, cells_of, encode_epilogue, advance, put_cells,
}
use faith.Proto.Codec.Decode.{
  Payload, Cursor, Reader, decode_bytes, payload_size, offset, decode_u16_be, decode_u32_be,
  decode_u64_be, assign, current, remaining, decode_block, ne, lt, decode_epilogue, Decoded,
  decode_with, returned,
}

-- faith_signature_hello_handshake_t
pub record HelloHandshake : Type 0 where
  pub auth_id : List ℕ
  pub device_id : List ℕ
  pub public_key : List ℕ
  pub client_nonce : ℕ
  pub server_nonce : ℕ

-- FAITH_SIGNATURE_HELLO_HANDSHAKE_SIZE
abbrev pub hello_handshake_size : ℕ
hello_handshake_size = 80

write_hello_handshake : HelloHandshake → Writer
write_hello_handshake msg = do
  append (some msg.auth_id) 16
  append (some msg.device_id) 16
  append (some msg.public_key) 32
  encode_u64_be msg.client_nonce
  encode_u64_be msg.server_nonce

pub gen_sign_buf_hello_handshake : Option (List ℕ) → Option ℕ → ℕ → Option HelloHandshake → Encoded
unfolding write_hello_handshake
gen_sign_buf_hello_handshake = encode_with (λ _. hello_handshake_size) write_hello_handshake

-- faith_signature_device_link_response_t
pub record LinkSignature : Type 0 where
  pub auth_id : List ℕ
  pub device_id_new : List ℕ
  pub public_key_new_device : List ℕ
  pub link_code : List ℕ
  pub expires_at_ms : ℕ
  pub device_id_responding : List ℕ
  pub kind : ℕ

-- FAITH_SIGNATURE_DEVICE_LINK_RESPONSE_SIZE
abbrev pub link_signature_size : ℕ
link_signature_size = 108

write_link_signature : LinkSignature → Writer
write_link_signature msg = do
  append (some msg.auth_id) 16
  append (some msg.device_id_new) 16
  append (some msg.public_key_new_device) 32
  append (some msg.link_code) 16
  encode_u64_be msg.expires_at_ms
  append (some msg.device_id_responding) 16
  encode_u32_be msg.kind

-- `return offset == SIZE ? FAITH_OK : FAITH_ERR_INVALID`, which leaves `*out_size` at 0.
finish_link_signature : Outcome Buf (Unit {0}) → Encoded
finish_link_signature (done v s) = record {
  status = if s.off == link_signature_size then ok else invalid;
  out_buf = some s.cells;
  out_size = some 0;
}
finish_link_signature (fail rc s) = record {
  status = rc;
  out_buf = some s.cells;
  out_size = some 0;
}

pub gen_sign_buf_device_link_response :
    Option (List ℕ) → Option ℕ → ℕ → Option LinkSignature → Encoded
unfolding write_link_signature finish_link_signature
gen_sign_buf_device_link_response (some cells) (some n) buf_cap (some msg) =
    if ltb buf_cap link_signature_size
    then record { status = overflow; out_buf = some cells; out_size = some 0 }
    else finish_link_signature
        (write_link_signature msg buf_cap (record { cells = cells; off = 0 }))
gen_sign_buf_device_link_response out_buf out_size buf_cap msg = record {
  status = invalid;
  out_buf = out_buf;
  out_size = out_size;
}

-- The arrays have their declared sizes and the numbers their widths.
pub record IsHelloHandshake (m : HelloHandshake) : Type 0 where
  pub auth_id : length m.auth_id ≡ 16
  pub device_id : length m.device_id ≡ 16
  pub public_key : length m.public_key ≡ 32
  pub client_nonce : m.client_nonce < 2 ^ 64
  pub server_nonce : m.server_nonce < 2 ^ 64

pub record IsLinkSignature (m : LinkSignature) : Type 0 where
  pub auth_id : length m.auth_id ≡ 16
  pub device_id_new : length m.device_id_new ≡ 16
  pub public_key : length m.public_key_new_device ≡ 32
  pub link_code : length m.link_code ≡ 16
  pub expires : m.expires_at_ms < 2 ^ 64
  pub device_id_responding : length m.device_id_responding ≡ 16
  pub kind : m.kind < 2 ^ 32
