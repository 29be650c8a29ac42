-- ===== src/Proto/Auth.antt =====
-- The bodies of the authentication envelopes: faith-proto/include/faith-proto/codec/auth.h, and
-- their coders in faith-proto/src/codec/codec.c. A fixed array of bytes is a list.
pub mod RoundTrip
use faith.Common.{
  ℕ, zero, suc, ◌+◌, ◌-◌, ◌*◌, ◌%◌, ◌^◌, ◌≤◌, ◌<◌, ◌≡◌, ap, refl, arith, List, [], ◌∷◌, ◌++◌, Bool,
  true, false, not, ◌&&◌, ◌||◌, Option, none, some, ltb, leb, ◌==◌, if◌then◌else◌, length,
  replicate, take, drop, concat, set, copy_at, get_or,
}
use faith.Proto.Status.{
  Status, ok, invalid, overflow, bad_frame, bad_envelope, too_large, incomplete, unsupported_ver,
  nomem,
}
use faith.Proto.Codec.Steps.{
  Outcome, done, fail, ◌>>=◌, ◌>>◌, pure, guard, stop, when, deferred, check_return, Step,
}
use faith.Proto.Codec.Words.{be}
use faith.Proto.Codec.Encode.{
  Buf, Writer, append, append_nonempty, encode_u16_be, encode_u32_be, encode_u64_be, Encoded,
  encode_with, is_null, cells_of, encode_epilogue,
}
use faith.Proto.Codec.Decode.{
  Payload, Cursor, Reader, decode_bytes, decode_u16_be, decode_u32_be, decode_u64_be, assign,
  current, remaining, decode_block, ne, lt, decode_epilogue, Decoded, decode_with, returned,
}

abbrev pub auth_id_size : ℕ
auth_id_size = 16

abbrev pub device_id_size : ℕ
device_id_size = 16

abbrev pub device_link_code_size : ℕ
device_link_code_size = 16

-- FAITH_ED25519_PUBLIC_KEY_SIZE and FAITH_ED25519_SIGNATURE_SIZE of core/crypto.h.
abbrev pub public_key_size : ℕ
public_key_size = 32

abbrev pub signature_size : ℕ
signature_size = 64

-- memcmp(a.bytes, b.bytes, 16) == 0, cell by cell.
unfoldable pub same_bytes : ℕ → List ℕ → List ℕ → Bool
same_bytes zero a b = true
same_bytes (suc n) (x ∷ a) (y ∷ b) = x == y && same_bytes n a b
same_bytes (suc n) [] b = false
same_bytes (suc n) (x ∷ a) [] = false

unfoldable pub client_id_equal : List ℕ → List ℕ → Bool
unfolding same_bytes
client_id_equal a b = same_bytes 16 a b

unfoldable pub device_id_equal : List ℕ → List ℕ → Bool
unfolding same_bytes
device_id_equal a b = same_bytes 16 a b

-- faith_envl_stc_device_link_req_t
pub record DeviceLinkReq : Type 0 where
  pub auth_id : List ℕ
  pub public_key_new_device : List ℕ
  pub device_id_new : List ℕ
  pub link_code : List ℕ
  pub expires_at_ms : ℕ

-- FAITH_ENVL_STC_DEVICE_LINK_REQ_BODY_SIZE
abbrev pub device_link_req_body_size : ℕ
device_link_req_body_size = 88

write_device_link_req : DeviceLinkReq → Writer
write_device_link_req msg = do
  append (some msg.auth_id) auth_id_size
  append (some msg.public_key_new_device) public_key_size
  append (some msg.device_id_new) device_id_size
  append (some msg.link_code) device_link_code_size
  encode_u64_be msg.expires_at_ms

pub encode_device_link_req_body : Option (List ℕ) → Option ℕ → ℕ → Option DeviceLinkReq → Encoded
unfolding write_device_link_req
encode_device_link_req_body = encode_with (λ _. device_link_req_body_size) write_device_link_req

read_device_link_req : Reader DeviceLinkReq (Unit {0})
read_device_link_req = do
  auth_id ← decode_bytes auth_id_size
  assign (λ o. record o { auth_id = auth_id })
  public_key ← decode_bytes public_key_size
  assign (λ o. record o { public_key_new_device = public_key })
  device_id ← decode_bytes device_id_size
  assign (λ o. record o { device_id_new = device_id })
  link_code ← decode_bytes device_link_code_size
  assign (λ o. record o { link_code = link_code })
  expires_at ← decode_u64_be
  assign (λ o. record o { expires_at_ms = expires_at })
  decode_epilogue ne device_link_req_body_size

abbrev pub zeroed_device_link_req : DeviceLinkReq
zeroed_device_link_req = record {
  auth_id = replicate 16 0;
  public_key_new_device = replicate 32 0;
  device_id_new = replicate 16 0;
  link_code = replicate 16 0;
  expires_at_ms = 0;
}

pub decode_device_link_req_body : Option (List ℕ) → ℕ → Option DeviceLinkReq → Decoded DeviceLinkReq
unfolding read_device_link_req
decode_device_link_req_body =
    decode_with zeroed_device_link_req ne device_link_req_body_size read_device_link_req

-- faith_envl_cts_device_link_response_t
pub record DeviceLinkResponse : Type 0 where
  pub signature_response : List ℕ
  pub device_id_new : List ℕ

-- FAITH_ENVL_CTS_DEVICE_LINK_RESPONSE_BODY_SIZE
abbrev pub device_link_response_body_size : ℕ
device_link_response_body_size = 80

write_device_link_response : DeviceLinkResponse → Writer
write_device_link_response msg = do
  append (some msg.signature_response) signature_size
  append (some msg.device_id_new) device_id_size

pub encode_device_link_response_body :
    Option (List ℕ) → Option ℕ → ℕ → Option DeviceLinkResponse → Encoded
unfolding write_device_link_response
encode_device_link_response_body =
    encode_with (λ _. device_link_response_body_size) write_device_link_response

read_device_link_response : Reader DeviceLinkResponse (Unit {0})
read_device_link_response = do
  signature ← decode_bytes signature_size
  assign (λ o. record o { signature_response = signature })
  device_id ← decode_bytes device_id_size
  assign (λ o. record o { device_id_new = device_id })
  decode_epilogue ne device_link_response_body_size

pub decode_device_link_response_body :
    Option (List ℕ) → ℕ → Option DeviceLinkResponse → Decoded DeviceLinkResponse
unfolding read_device_link_response
decode_device_link_response_body =
    decode_with (record { signature_response = replicate 64 0; device_id_new = replicate 16 0 }) ne
      device_link_response_body_size read_device_link_response

-- faith_envl_cts_hello_t
pub record Hello : Type 0 where
  pub device_id : List ℕ
  pub public_key : List ℕ
  pub client_nonce : ℕ

-- FAITH_ENVL_CTS_HELLO_BODY_SIZE
abbrev pub hello_body_size : ℕ
hello_body_size = 56

write_hello : Hello → Writer
write_hello msg = do
  append (some msg.device_id) device_id_size
  append (some msg.public_key) public_key_size
  encode_u64_be msg.client_nonce

pub encode_hello_body : Option (List ℕ) → Option ℕ → ℕ → Option Hello → Encoded
unfolding write_hello
encode_hello_body = encode_with (λ _. hello_body_size) write_hello

read_hello : Reader Hello (Unit {0})
read_hello = do
  device_id ← decode_bytes device_id_size
  assign (λ o. record o { device_id = device_id })
  public_key ← decode_bytes public_key_size
  assign (λ o. record o { public_key = public_key })
  client_nonce ← decode_u64_be
  assign (λ o. record o { client_nonce = client_nonce })
  decode_epilogue ne hello_body_size

pub decode_hello_body : Option (List ℕ) → ℕ → Option Hello → Decoded Hello
unfolding read_hello
decode_hello_body =
    decode_with
      (record { device_id = replicate 16 0; public_key = replicate 32 0; client_nonce = 0 }) ne
      hello_body_size read_hello

-- faith_envl_stc_hello_challenge_t
pub record HelloChallenge : Type 0 where
  pub server_nonce : ℕ

-- FAITH_ENVL_STC_HELLO_CHALLENGE_BODY_SIZE
abbrev pub hello_challenge_body_size : ℕ
hello_challenge_body_size = 8

write_hello_challenge : HelloChallenge → Writer
write_hello_challenge msg = encode_u64_be msg.server_nonce

pub encode_hello_challenge_body : Option (List ℕ) → Option ℕ → ℕ → Option HelloChallenge → Encoded
unfolding write_hello_challenge
encode_hello_challenge_body = encode_with (λ _. hello_challenge_body_size) write_hello_challenge

read_hello_challenge : Reader HelloChallenge (Unit {0})
read_hello_challenge = do
  server_nonce ← decode_u64_be
  assign (λ o. record o { server_nonce = server_nonce })
  decode_epilogue ne hello_challenge_body_size

pub decode_hello_challenge_body :
    Option (List ℕ) → ℕ → Option HelloChallenge → Decoded HelloChallenge
unfolding read_hello_challenge
decode_hello_challenge_body =
    decode_with (record { server_nonce = 0 }) ne hello_challenge_body_size read_hello_challenge

-- The arrays have their declared sizes and the numbers fit 64 bits.
pub record IsDeviceLinkReq (m : DeviceLinkReq) : Type 0 where
  pub auth_id : length m.auth_id ≡ auth_id_size
  pub public_key : length m.public_key_new_device ≡ public_key_size
  pub device_id : length m.device_id_new ≡ device_id_size
  pub link_code : length m.link_code ≡ device_link_code_size
  pub expires : m.expires_at_ms < 2 ^ 64

pub record IsDeviceLinkResponse (m : DeviceLinkResponse) : Type 0 where
  pub signature : length m.signature_response ≡ signature_size
  pub device_id : length m.device_id_new ≡ device_id_size

pub record IsHello (m : Hello) : Type 0 where
  pub device_id : length m.device_id ≡ device_id_size
  pub public_key : length m.public_key ≡ public_key_size
  pub nonce : m.client_nonce < 2 ^ 64

pub record IsHelloChallenge (m : HelloChallenge) : Type 0 where
  pub nonce : m.server_nonce < 2 ^ 64
