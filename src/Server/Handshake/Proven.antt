-- ===== src/Server/Handshake/Proven.antt =====
-- What a client has shown when a verdict lets it in.
use faith.Proto.Codec.Words.{be}
use faith.Proto.Codec.Encode.{Encoded}
use faith.Proto.Signatures.Binding.{gen_hello}
use faith.Common.{
  ◌<◌, ◌^◌, [], ◌∷◌, length, concat, replicate, arith, append-nil, ◌∙◌, ℕ, List, Bool, true, false,
  not, Option, none, some, ◌≡◌, refl, take, if◌then◌else◌, subst, sym, ◌||◌, ◌==◌, ap, ◌∙◌,
}
use faith.Proto.Status.{Status, ok, not_found, unauthorized, invalid, bad_envelope}
use faith.Proto.Auth.{signature_size, same_bytes, public_key_size, client_id_equal}
use faith.Proto.Codec.Encode.{cells_of, is_null}
use faith.Proto.Crypto.{
  KeyCheck, bad_key, no_context, init_failed, differs, broken, matches, verify_signature,
  verify_signature_raw_pubkey,
}
use faith.Proto.Envelope.{Envelope}
use faith.Server.Steps.{is_ok}
use faith.Server.SessRegistry.{Session}
use faith.Server.Platform.{Platform}
use faith.Server.Client.{
  HandshakeParams, ClientState, ClientConn, client_wait_for_challenge_response,
}
use faith.Server.Handshake.Verdict.{
  Verdict, refused, newly_joined, accepted, no_key, key, choose, sign_msg, msg_buf, checked,
  verdict,
}
use faith.Server.Handshake.{waits_for_challenge_response}
use faith.Proto.Envelope.Types.{envelope_challenge_response}

-- What is to be signed: account, device, key, the client's nonce and the server's, the numbers in 8 bytes
-- with the highest first.
abbrev pub signed_bytes : HandshakeParams → List ℕ → List ℕ
signed_bytes params public_key = concat (
    params.sender_auth_id
    ∷ params.device_id
    ∷ public_key
    ∷ be 8 params.nonce
    ∷ be 8 params.server_nonce
    ∷ [])

-- The sizes that the types of the handshake's fields and of a key have.
pub record HasSizes (params : HandshakeParams) (k : List ℕ) : Type 0 where
  pub auth_id : length params.sender_auth_id ≡ 16
  pub device_id : length params.device_id ≡ 16
  pub public_key : length k ≡ 32
  pub nonce : params.nonce < 2 ^ 64
  pub server_nonce : params.server_nonce < 2 ^ 64

msg_buf-signed_bytes :
    (p : Platform) (params : HandshakeParams) (public_key : List ℕ)
    → HasSizes params public_key
    → cells_of (msg_buf p params public_key).out_buf ≡ signed_bytes params public_key
msg_buf-signed_bytes p params public_key sizes =
    ap (λ (e : Encoded). cells_of e.out_buf)
      (gen_hello (sign_msg params public_key) (replicate 80 p.junk) 0 80
        (record {
          auth_id = sizes.auth_id;
          device_id = sizes.device_id;
          public_key = sizes.public_key;
          client_nonce = sizes.nonce;
          server_nonce = sizes.server_nonce;
        })
        (omega arith) (omega arith))
    ∙ append-nil (signed_bytes params public_key)

-- OpenSSL found that the signature is one of the message buffer by the key.
abbrev Signed : Platform → HandshakeParams → List ℕ → Envelope → Type 0
Signed p params public_key envl =
    p.digest_verify public_key (cells_of (msg_buf p params public_key).out_buf)
      (take signature_size (cells_of envl.body))
    ≡ matches

pub verify_signature-matches : (k : KeyCheck) → is_ok (verify_signature k) ≡ true → k ≡ matches
verify_signature-matches bad_key e = cc
verify_signature-matches no_context e = cc
verify_signature-matches init_failed e = cc
verify_signature-matches matches e = refl
verify_signature-matches differs e = cc
verify_signature-matches broken e = cc

-- The key that a verdict is about.
abbrev pub key_of : HandshakeParams → Verdict → Option (List ℕ)
key_of params (refused rc) = none
key_of params newly_joined = some params.public_key
key_of params (accepted public_key register) = some public_key

-- What the tests of a check that handed on a key came to.
passed_tests :
    (params : HandshakeParams) (buffered verified : Bool) (rc rc' : Status) (outcome : Verdict)
    (k : List ℕ)
    → key_of params
        (if not buffered then refused rc else if not verified then refused rc' else outcome)
      ≡ some k
    → (verified ≡ true) × (key_of params outcome ≡ some k)
passed_tests params true true rc rc' outcome k e = (refl, e)
passed_tests params true false rc rc' outcome k e = cc
passed_tests params false verified rc rc' outcome k e = cc

module _ (p : Platform) (params : HandshakeParams) (envl : Envelope) where
  abbrev signature : List ℕ
  signature = take signature_size (cells_of envl.body)

  -- The choices for which key and outcome fit.
  checked-Signed :
      (public_key k : List ℕ) (outcome : Verdict)
      → key_of params outcome ≡ some public_key
      → key_of params (checked p params signature (key public_key outcome)) ≡ some k
      → (k ≡ public_key) × Signed p params k envl
  unfolding checked verify_signature_raw_pubkey
  checked-Signed public_key k outcome fits e =
      let tests : (_ ≡ true) × (key_of params outcome ≡ some k) =
        passed_tests params (is_ok (msg_buf p params public_key).status)
          (is_ok (
            verify_signature (
              p.digest_verify public_key (cells_of (msg_buf p params public_key).out_buf)
                signature)))
          _ unauthorized outcome k e in
      let same : k ≡ public_key = cc (fits, tests.1) in
      (
        same,
        subst (λ (q : List ℕ). Signed p params q envl) (sym same)
            (verify_signature-matches _ tests.0),
      )

  chosen :
      (same : Bool) (k : List ℕ) (sess : Session)
      → key_of params (
          checked p params signature (
            if not same
            then no_key unauthorized
            else key sess.public_key (accepted sess.public_key false)))
        ≡ some k
      → (k ≡ sess.public_key) × Signed p params k envl
  unfolding checked
  chosen true k sess e = checked-Signed sess.public_key k (accepted sess.public_key false) refl e
  chosen false k sess e = cc

  choose-Signed :
      (k : List ℕ) (sess : Status × Option Session)
      → key_of params (checked p params signature (choose params sess)) ≡ some k
      → Signed p params k envl
  unfolding choose checked
  choose-Signed k (not_found, sess) e =
      (checked-Signed params.public_key k (accepted params.public_key true) refl e).1
  choose-Signed k (ok, none) e = (checked-Signed params.public_key k newly_joined refl e).1
  choose-Signed k (ok, some sess) e =
      (chosen (same_bytes public_key_size params.public_key sess.public_key) k sess e).1
  choose-Signed k (rc, sess) e = cc

  -- A registered session decides the key.
  registered-key :
      (k : List ℕ) (sess : Session)
      → key_of params (checked p params signature (choose params (ok, some sess))) ≡ some k
      → k ≡ sess.public_key
  unfolding choose
  registered-key k sess e =
      (chosen (same_bytes public_key_size params.public_key sess.public_key) k sess e).0

guard_passed :
    (params : HandshakeParams) (bad : Bool) (rc : Status) (rest : Verdict) (k : List ℕ)
    → key_of params (if bad then refused rc else rest) ≡ some k
    → (bad ≡ false) × (key_of params rest ≡ some k)
guard_passed params true rc rest k e = cc
guard_passed params false rc rest k e = (refl, e)

undenied : (b : Bool) → not b ≡ false → b ≡ true
undenied true e = refl
undenied false e = cc

waits-state :
    (state : ClientState)
    → waits_for_challenge_response state ≡ true
    → state ≡ client_wait_for_challenge_response
waits-state client_wait_for_challenge_response e = refl
waits-state state e = cc

-- What holds of a client that a verdict lets in with a key, as a known device or as a new one.
pub record Proven (p : Platform) (cl : ClientConn) (envl : Envelope)
    (sess : Status × Option Session) (public_key : List ℕ) : Type 0 where
  pub alive : cl.closing ≡ false
  pub challenged : cl.state ≡ client_wait_for_challenge_response
  pub sender : client_id_equal envl.sender_id cl.temp_handshake_params.sender_auth_id ≡ true
  pub signed :
      p.digest_verify public_key
        (signed_bytes cl.temp_handshake_params public_key)
        (take 64 (cells_of envl.body))
      ≡ matches
  pub registered : (known : Session) → sess ≡ (ok, some known) → public_key ≡ known.public_key

-- Where the fields of the handshake and the key have their declared sizes, a client is let in, as a known
-- device or as a new one, only if it is not being closed, was sent a challenge, answers under the account
-- that it named, and OpenSSL verified its signature of account, device, key, the client's nonce and the
-- server's, in this order, by the key; and where the device has a session, the key is the session's.
pub verdict-Proven :
    (p : Platform) (cl : ClientConn) (envl : Envelope) (sess : Status × Option Session)
    (public_key : List ℕ)
    → HasSizes cl.temp_handshake_params public_key
    → key_of cl.temp_handshake_params (verdict p cl envl sess) ≡ some public_key
    → Proven p cl envl sess public_key
unfolding verdict
verdict-Proven p cl envl sess public_key sizes e =
    let params : HandshakeParams = cl.temp_handshake_params in
    let last : Verdict =
      checked p params (take signature_size (cells_of envl.body)) (choose params sess) in
    let b5 : Bool = is_null envl.body || not (envl.body_size == signature_size) in
    let b4 : Bool = not (client_id_equal envl.sender_id params.sender_auth_id) in
    let b3 : Bool = not (waits_for_challenge_response cl.state) in
    let b2 : Bool = not (envl.kind == envelope_challenge_response) in
    let r4 : Verdict = if b5 then refused invalid else last in
    let r3 : Verdict = if b4 then refused invalid else r4 in
    let r2 : Verdict = if b3 then refused bad_envelope else r3 in
    let r1 : Verdict = if b2 then refused invalid else r2 in
    let p1 = guard_passed params cl.closing invalid r1 public_key e in
    let p2 = guard_passed params b2 invalid r2 public_key p1.1 in
    let p3 = guard_passed params b3 bad_envelope r3 public_key p2.1 in
    let p4 = guard_passed params b4 invalid r4 public_key p3.1 in
    let p5 = guard_passed params b5 invalid last public_key p4.1 in
    record {
      alive = p1.0;
      challenged = waits-state cl.state (undenied _ p3.0);
      sender = undenied _ p4.0;
      signed =
          ap (λ (bytes : List ℕ). p.digest_verify public_key bytes (take 64 (cells_of envl.body)))
            (sym (msg_buf-signed_bytes p params public_key sizes))
          ∙ choose-Signed p params envl public_key sess p5.1;
      registered = λ known same. registered-key p params envl public_key known (
          ap
            (λ (x : Status × Option Session).
              key_of params
                (checked p params (take signature_size (cells_of envl.body)) (choose params x)))
            (sym same)
          ∙ p5.1);
    }
