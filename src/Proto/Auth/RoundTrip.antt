-- ===== src/Proto/Auth/RoundTrip.antt =====
-- What the decoders of the authentication bodies make of what the encoders wrote.
use faith.Common.{ℕ, ◌≤◌, refl, arith, List, [], ◌∷◌, some, length, concat}
use faith.Proto.Codec.Words.{be}
use faith.Proto.Codec.Encode.Writes.{writing}
use faith.Proto.Codec.Decode.Reads.{
  field-Finishes, decode_bytes-Reads, decode_u64_be-Reads, epilogue_ne-Finishes,
}
use faith.Proto.Codec.RoundTrip.{ReadsBack, encode_with-decode_with}
use faith.Proto.Auth.{
  DeviceLinkReq, IsDeviceLinkReq, encode_device_link_req_body, decode_device_link_req_body,
  device_link_req_body_size, DeviceLinkResponse, IsDeviceLinkResponse,
  encode_device_link_response_body, decode_device_link_response_body,
  device_link_response_body_size, Hello, IsHello, encode_hello_body, decode_hello_body,
  hello_body_size, HelloChallenge, IsHelloChallenge, encode_hello_challenge_body,
  decode_hello_challenge_body, hello_challenge_body_size,
}
use faith.Common.{length-append}

-- Account, key of the new device, its id, verification code, expiry.
abbrev pub device_link_req_bytes : DeviceLinkReq → List ℕ
device_link_req_bytes m = concat (
    m.auth_id ∷ m.public_key_new_device ∷ m.device_id_new ∷ m.link_code ∷ be 8 m.expires_at_ms ∷ [])

-- A DEVICE_LINK_REQUEST body whose arrays have their declared sizes and whose expiry is a 64-bit
-- number, encoded into a buffer with room for it, is laid out at its front as account, key of the new
-- device, its id, code and expiry, the number in 8 bytes with the highest first, and leaves the cells
-- behind; it is reported as 88 bytes and decoded to itself.
pub decode_device_link_req_body-encode_device_link_req_body :
    (msg : DeviceLinkReq) (cells : List ℕ) (n buf_cap : ℕ) (old : DeviceLinkReq)
    → IsDeviceLinkReq msg
    → device_link_req_body_size ≤ buf_cap
    → device_link_req_body_size ≤ length cells
    → ReadsBack
        (encode_device_link_req_body (some cells) (some n) buf_cap (some msg))
        decode_device_link_req_body
        device_link_req_body_size
        old
        msg
        (device_link_req_bytes msg)
        cells
unfolding encode_device_link_req_body decode_device_link_req_body
decode_device_link_req_body-encode_device_link_req_body msg cells n buf_cap old valid fits room =
    encode_with-decode_with _ _ _ _ _ _ msg (device_link_req_bytes msg) (search writing depth 14)
      (field-Finishes _ (decode_bytes-Reads valid.auth_id) (
        field-Finishes _ (decode_bytes-Reads valid.public_key) (
          field-Finishes _ (decode_bytes-Reads valid.device_id) (
            field-Finishes _ (decode_bytes-Reads valid.link_code) (
              field-Finishes _ (decode_u64_be-Reads valid.expires)
                (epilogue_ne-Finishes (omega arith)))))))
      (simp length-append (omega arith)) (omega arith) refl cells n buf_cap old fits room

-- Signature, id of the new device.
abbrev pub device_link_response_bytes : DeviceLinkResponse → List ℕ
device_link_response_bytes m = concat (m.signature_response ∷ m.device_id_new ∷ [])

-- A device-link response body whose arrays have their declared sizes, encoded into a buffer with
-- room for it, is reported as 80 bytes and decoded to itself.
pub decode_device_link_response_body-encode_device_link_response_body :
    (msg : DeviceLinkResponse) (cells : List ℕ) (n buf_cap : ℕ) (old : DeviceLinkResponse)
    → IsDeviceLinkResponse msg
    → device_link_response_body_size ≤ buf_cap
    → device_link_response_body_size ≤ length cells
    → ReadsBack
        (encode_device_link_response_body (some cells) (some n) buf_cap (some msg))
        decode_device_link_response_body
        device_link_response_body_size
        old
        msg
        (device_link_response_bytes msg)
        cells
unfolding encode_device_link_response_body decode_device_link_response_body
decode_device_link_response_body-encode_device_link_response_body msg cells n buf_cap old valid fits
      room =
    encode_with-decode_with _ _ _ _ _ _ msg (device_link_response_bytes msg)
      (search writing depth 14)
      (field-Finishes _ (decode_bytes-Reads valid.signature) (
        field-Finishes _ (decode_bytes-Reads valid.device_id) (epilogue_ne-Finishes (omega arith))))
      (simp length-append (omega arith)) (omega arith) refl cells n buf_cap old fits room

-- Device id, public key, nonce.
abbrev pub hello_bytes : Hello → List ℕ
hello_bytes m = concat (m.device_id ∷ m.public_key ∷ be 8 m.client_nonce ∷ [])

-- A HELLO body whose arrays have their declared sizes and whose nonce is a 64-bit number, encoded
-- into a buffer with room for it, is laid out at its front as device id, public key and nonce, the
-- number in 8 bytes with the highest first, and leaves the cells behind; it is reported as 56 bytes and
-- decoded to itself.
pub decode_hello_body-encode_hello_body :
    (msg : Hello) (cells : List ℕ) (n buf_cap : ℕ) (old : Hello)
    → IsHello msg
    → hello_body_size ≤ buf_cap
    → hello_body_size ≤ length cells
    → ReadsBack
        (encode_hello_body (some cells) (some n) buf_cap (some msg))
        decode_hello_body
        hello_body_size
        old
        msg
        (hello_bytes msg)
        cells
unfolding encode_hello_body decode_hello_body
decode_hello_body-encode_hello_body msg cells n buf_cap old valid fits room =
    encode_with-decode_with _ _ _ _ _ _ msg (hello_bytes msg) (search writing depth 14)
      (field-Finishes _ (decode_bytes-Reads valid.device_id) (
        field-Finishes _ (decode_bytes-Reads valid.public_key) (
          field-Finishes _ (decode_u64_be-Reads valid.nonce) (epilogue_ne-Finishes (omega arith)))))
      (simp length-append (omega arith)) (omega arith) refl cells n buf_cap old fits room

-- The nonce.
abbrev pub hello_challenge_bytes : HelloChallenge → List ℕ
hello_challenge_bytes m = concat (be 8 m.server_nonce ∷ [])

-- A CHALLENGE body with a 64-bit nonce, encoded into a buffer with room for it, is reported as 8
-- bytes and decoded to itself.
pub decode_hello_challenge_body-encode_hello_challenge_body :
    (msg : HelloChallenge) (cells : List ℕ) (n buf_cap : ℕ) (old : HelloChallenge)
    → IsHelloChallenge msg
    → hello_challenge_body_size ≤ buf_cap
    → hello_challenge_body_size ≤ length cells
    → ReadsBack
        (encode_hello_challenge_body (some cells) (some n) buf_cap (some msg))
        decode_hello_challenge_body
        hello_challenge_body_size
        old
        msg
        (hello_challenge_bytes msg)
        cells
unfolding encode_hello_challenge_body decode_hello_challenge_body
decode_hello_challenge_body-encode_hello_challenge_body msg cells n buf_cap old valid fits room =
    encode_with-decode_with _ _ _ _ _ _ msg (hello_challenge_bytes msg) (search writing depth 14)
      (field-Finishes _ (decode_u64_be-Reads valid.nonce) (epilogue_ne-Finishes (omega arith))) refl
      (omega arith) refl cells n buf_cap old fits room
