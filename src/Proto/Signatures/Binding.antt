-- ===== src/Proto/Signatures/Binding.antt =====
-- The layouts of the signed buffers, and what of a value they determine.
use faith.Common.{
  refl, ℕ, ◌^◌, ◌≤◌, ◌<◌, ◌≡◌, ap, sym, ◌∙◌, arith, List, [], ◌∷◌, ◌++◌, some, length, take, drop,
  concat,
}
use faith.Proto.Status.{ok}
use faith.Proto.Codec.Words.{be}
use faith.Proto.Codec.Encode.{Encoded, cells_of}
use faith.Proto.Codec.Encode.Writes.{Writes, writing, encoded_ok, encode_with-ok}
use faith.Proto.Codec.Encode.{Encoded, cells_of}
use faith.Common.{
  ℕ, ◌^◌, ◌≤◌, ◌<◌, ◌≡◌, ap, sym, ◌∙◌, refl, arith, List, [], ◌∷◌, ◌++◌, some, length, take, drop,
  concat,
}
use faith.Proto.Status.{ok}
use faith.Proto.Codec.Words.{be}
use faith.Proto.Codec.Encode.{Encoded, cells_of}
use faith.Proto.Signatures.{
  HelloHandshake, IsHelloHandshake, hello_handshake_size, gen_sign_buf_hello_handshake,
  LinkSignature, IsLinkSignature, link_signature_size, write_link_signature, finish_link_signature,
  gen_sign_buf_device_link_response,
}
use faith.Proto.Codec.Encode.Writes.{Writes, writing, encoded_ok, encode_with-ok}
use faith.Proto.Codec.Encode.{Encoded, cells_of}
use faith.Common.{length-append, take-append, drop-append, le→ltb}
use faith.Proto.Codec.Words.{read_u64_be, read_u32_be, read_u64_be-be, read_u32_be-be}
use faith.Proto.Codec.Encode.Writes.{encode_with-ok}

abbrev pub hello_handshake_bytes : HelloHandshake → List ℕ
hello_handshake_bytes m =
    concat (m.auth_id ∷ m.device_id ∷ m.public_key ∷ be 8 m.client_nonce ∷ be 8 m.server_nonce ∷ [])

abbrev pub link_signature_bytes : LinkSignature → List ℕ
link_signature_bytes m = concat (
    m.auth_id
    ∷ m.device_id_new
    ∷ m.public_key_new_device
    ∷ m.link_code
    ∷ be 8 m.expires_at_ms
    ∷ m.device_id_responding
    ∷ be 4 m.kind
    ∷ [])

-- Two parts of equal length in front of a sequence are the same if the sequences are.
same_parts :
    (xs ys xs' ys' : List ℕ)
    → length xs ≡ length ys
    → xs ++ xs' ≡ ys ++ ys'
    → (xs ≡ ys) × (xs' ≡ ys')
same_parts xs ys xs' ys' e p = (
  sym (take-append xs xs')
      ∙ ap (take (length xs)) p
      ∙ ap (λ (k : ℕ). take k (ys ++ ys')) e
      ∙ take-append ys ys',
  sym (drop-append xs xs')
      ∙ ap (drop (length xs)) p
      ∙ ap (λ (k : ℕ). drop k (ys ++ ys')) e
      ∙ drop-append ys ys',
)

be_8_inj : (v w : ℕ) → v < 2 ^ 64 → w < 2 ^ 64 → be 8 v ≡ be 8 w → v ≡ w
be_8_inj v w h k p =
    sym (read_u64_be-be v [] h)
    ∙ ap (λ (t : List ℕ). read_u64_be (some (t ++ []))) p
    ∙ read_u64_be-be w [] k

be_4_inj : (v w : ℕ) → v < 2 ^ 32 → w < 2 ^ 32 → be 4 v ≡ be 4 w → v ≡ w
be_4_inj v w h k p =
    sym (read_u32_be-be v [] h)
    ∙ ap (λ (t : List ℕ). read_u32_be (some (t ++ []))) p
    ∙ read_u32_be-be w [] k

length-hello : (m : HelloHandshake) → IsHelloHandshake m → length (hello_handshake_bytes m) ≡ 80
length-hello m valid =
    simp length-append (omega (arith, valid.auth_id, valid.device_id, valid.public_key))

hello-inj :
    (m m' : HelloHandshake)
    → IsHelloHandshake m
    → IsHelloHandshake m'
    → hello_handshake_bytes m ≡ hello_handshake_bytes m'
    → m ≡ m'
hello-inj m m' v v' p =
    let (a, p) = same_parts m.auth_id m'.auth_id _ _ (v.auth_id ∙ sym v'.auth_id) p in
    let (b, p) = same_parts m.device_id m'.device_id _ _ (v.device_id ∙ sym v'.device_id) p in
    let (c, p) = same_parts m.public_key m'.public_key _ _ (v.public_key ∙ sym v'.public_key) p in
    let (d, p) = same_parts (be 8 m.client_nonce) (be 8 m'.client_nonce) _ _ refl p in
    let (e, p) = same_parts (be 8 m.server_nonce) (be 8 m'.server_nonce) _ _ refl p in
    let n = be_8_inj m.client_nonce m'.client_nonce v.client_nonce v'.client_nonce d in
    let k = be_8_inj m.server_nonce m'.server_nonce v.server_nonce v'.server_nonce e in
    λ t. record {
      auth_id = a t;
      device_id = b t;
      public_key = c t;
      client_nonce = n t;
      server_nonce = k t;
    }

pub gen_hello :
    (m : HelloHandshake) (cells : List ℕ) (n buf_cap : ℕ)
    → IsHelloHandshake m
    → hello_handshake_size ≤ buf_cap
    → hello_handshake_size ≤ length cells
    → gen_sign_buf_hello_handshake (some cells) (some n) buf_cap (some m)
      ≡ encoded_ok (hello_handshake_bytes m ++ drop 80 cells) 80
unfolding gen_sign_buf_hello_handshake
gen_hello m cells n buf_cap valid fits room =
    encode_with-ok _ _ m (hello_handshake_bytes m) (search writing depth 14) cells n buf_cap
      (length-hello m valid) (omega arith) fits room

-- Two handshakes whose fields have their declared sizes leave the same result in the same buffer, with
-- room for 80 bytes, only if they are equal: a signature of the buffer binds account, device, key and
-- both nonces.
pub gen_sign_buf_hello_handshake_binding :
    (m m' : HelloHandshake) (cells : List ℕ) (n buf_cap : ℕ)
    → IsHelloHandshake m
    → IsHelloHandshake m'
    → hello_handshake_size ≤ buf_cap
    → hello_handshake_size ≤ length cells
    → gen_sign_buf_hello_handshake (some cells) (some n) buf_cap (some m)
      ≡ gen_sign_buf_hello_handshake (some cells) (some n) buf_cap (some m')
    → m ≡ m'
gen_sign_buf_hello_handshake_binding m m' cells n buf_cap v v' fits room p =
    let same =
      sym (gen_hello m cells n buf_cap v fits room)
      ∙ p
      ∙ gen_hello m' cells n buf_cap v' fits room in
    hello-inj m m' v v'
      (same_parts (hello_handshake_bytes m) (hello_handshake_bytes m') _ _
        (length-hello m v ∙ sym (length-hello m' v'))
        (ap (λ (e : Encoded). cells_of e.out_buf) same)).0

length-link : (m : LinkSignature) → IsLinkSignature m → length (link_signature_bytes m) ≡ 108
length-link m v =
    simp length-append
      (omega (arith, v.auth_id, v.device_id_new, v.public_key, v.link_code, v.device_id_responding))

link-inj :
    (m m' : LinkSignature)
    → IsLinkSignature m
    → IsLinkSignature m'
    → link_signature_bytes m ≡ link_signature_bytes m'
    → m ≡ m'
link-inj m m' v v' p =
    let (a, p) = same_parts m.auth_id m'.auth_id _ _ (v.auth_id ∙ sym v'.auth_id) p in
    let (b, p) =
      same_parts m.device_id_new m'.device_id_new _ _ (v.device_id_new ∙ sym v'.device_id_new) p in
    let (c, p) =
      same_parts m.public_key_new_device m'.public_key_new_device _ _
        (v.public_key ∙ sym v'.public_key) p in
    let (d, p) = same_parts m.link_code m'.link_code _ _ (v.link_code ∙ sym v'.link_code) p in
    let (e, p) = same_parts (be 8 m.expires_at_ms) (be 8 m'.expires_at_ms) _ _ refl p in
    let (f, p) =
      same_parts m.device_id_responding m'.device_id_responding _ _
        (v.device_id_responding ∙ sym v'.device_id_responding) p in
    let (g, p) = same_parts (be 4 m.kind) (be 4 m'.kind) _ _ refl p in
    let n = be_8_inj m.expires_at_ms m'.expires_at_ms v.expires v'.expires e in
    let k = be_4_inj m.kind m'.kind v.kind v'.kind g in
    λ t. record {
      auth_id = a t;
      device_id_new = b t;
      public_key_new_device = c t;
      link_code = d t;
      expires_at_ms = n t;
      device_id_responding = f t;
      kind = k t;
    }

link-Writes :
    (m : LinkSignature)
    → IsLinkSignature m
    → Writes (write_link_signature m) (link_signature_bytes m)
unfolding write_link_signature
link-Writes m valid = search writing depth 14

-- A device-link response whose fields have their declared sizes is laid out as account, new device, its
-- key, code, expiry, responding device and answer at the front of a buffer with room for 108 bytes; the
-- status is FAITH_OK, and the reported size is 0.
pub gen_sign_buf_device_link_response_layout :
    (m : LinkSignature) (cells : List ℕ) (n buf_cap : ℕ)
    → IsLinkSignature m
    → link_signature_size ≤ buf_cap
    → link_signature_size ≤ length cells
    → gen_sign_buf_device_link_response (some cells) (some n) buf_cap (some m) ≡ record {
      status = ok;
      out_buf = some (link_signature_bytes m ++ drop 108 cells);
      out_size = some 0;
    }
unfolding gen_sign_buf_device_link_response finish_link_signature
gen_sign_buf_device_link_response_layout m cells n buf_cap valid fits room =
    let size = length-link m valid in
    rw
      (
        le→ltb buf_cap 108 fits,
        (link-Writes m valid).run buf_cap [] cells (omega (arith, size)) (omega (arith, size)),
        size,
      )
      refl

-- Two device-link responses whose fields have their declared sizes leave the same result in the same
-- buffer, with room for 108 bytes, only if they are equal: a signature of the buffer binds account, new
-- device, its key, code, expiry, responding device and the answer.
pub gen_sign_buf_device_link_response_binding :
    (m m' : LinkSignature) (cells : List ℕ) (n buf_cap : ℕ)
    → IsLinkSignature m
    → IsLinkSignature m'
    → link_signature_size ≤ buf_cap
    → link_signature_size ≤ length cells
    → gen_sign_buf_device_link_response (some cells) (some n) buf_cap (some m)
      ≡ gen_sign_buf_device_link_response (some cells) (some n) buf_cap (some m')
    → m ≡ m'
gen_sign_buf_device_link_response_binding m m' cells n buf_cap v v' fits room p =
    let same =
      sym (gen_sign_buf_device_link_response_layout m cells n buf_cap v fits room)
      ∙ p
      ∙ gen_sign_buf_device_link_response_layout m' cells n buf_cap v' fits room in
    link-inj m m' v v'
      (same_parts (link_signature_bytes m) (link_signature_bytes m') _ _
        (length-link m v ∙ sym (length-link m' v'))
        (ap (λ (e : Encoded). cells_of e.out_buf) same)).0
