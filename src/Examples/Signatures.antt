-- ===== src/Examples/Signatures.antt =====
-- The signed buffers at concrete values.
use faith.Common.{ℕ, ◌≡◌, List, ◌++◌, some, arith, refl, replicate, drop}
use faith.Proto.Status.{ok}
use faith.Proto.Signatures.{
  HelloHandshake, IsHelloHandshake, LinkSignature, IsLinkSignature,
  gen_sign_buf_device_link_response,
}
use faith.Proto.Signatures.Binding.{
  link_signature_bytes, gen_sign_buf_hello_handshake_binding,
  gen_sign_buf_device_link_response_layout, gen_sign_buf_device_link_response_binding,
}

abbrev buffer : List ℕ
buffer = replicate 120 7

abbrev a_handshake : HelloHandshake
a_handshake = record {
  auth_id = replicate 16 1;
  device_id = replicate 16 2;
  public_key = replicate 32 3;
  client_nonce = 4;
  server_nonce = 5;
}

a_handshake-IsHelloHandshake : IsHelloHandshake a_handshake
a_handshake-IsHelloHandshake = record {
  auth_id = refl;
  device_id = refl;
  public_key = refl;
  client_nonce = omega arith;
  server_nonce = omega arith;
}

gen_sign_buf_hello_handshake_binding_example : a_handshake ≡ a_handshake
gen_sign_buf_hello_handshake_binding_example =
    gen_sign_buf_hello_handshake_binding a_handshake a_handshake buffer 3 120
      a_handshake-IsHelloHandshake a_handshake-IsHelloHandshake (omega arith) (omega arith) refl

abbrev a_response : LinkSignature
a_response = record {
  auth_id = replicate 16 1;
  device_id_new = replicate 16 2;
  public_key_new_device = replicate 32 3;
  link_code = replicate 16 4;
  expires_at_ms = 500;
  device_id_responding = replicate 16 5;
  kind = 1;
}

a_response-IsLinkSignature : IsLinkSignature a_response
a_response-IsLinkSignature = record {
  auth_id = refl;
  device_id_new = refl;
  public_key = refl;
  link_code = refl;
  expires = omega arith;
  device_id_responding = refl;
  kind = omega arith;
}

gen_sign_buf_device_link_response_layout_example :
    gen_sign_buf_device_link_response (some buffer) (some 3) 120 (some a_response) ≡ record {
      status = ok;
      out_buf = some (link_signature_bytes a_response ++ drop 108 buffer);
      out_size = some 0;
    }
gen_sign_buf_device_link_response_layout_example =
    gen_sign_buf_device_link_response_layout a_response buffer 3 120 a_response-IsLinkSignature
      (omega arith) (omega arith)

gen_sign_buf_device_link_response_binding_example : a_response ≡ a_response
gen_sign_buf_device_link_response_binding_example =
    gen_sign_buf_device_link_response_binding a_response a_response buffer 3 120
      a_response-IsLinkSignature a_response-IsLinkSignature (omega arith) (omega arith) refl
