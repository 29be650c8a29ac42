-- ===== src/Server/Handshake.antt =====
-- The authentication of a connection: faith-server/src/auth/handshake.c.
pub mod Verdict
pub mod Response
pub mod Proven
pub mod Reconnect
use faith.Common.{
  ℕ, ◌+◌, ◌*◌, List, [], ◌∷◌, Bool, true, false, not, ◌&&◌, none, some, ◌==◌, if◌then◌else◌,
  replicate,
}
use faith.Proto.Status.{Status, ok, invalid, ssl, unauthorized, bad_envelope}
use faith.Proto.Auth.{
  Hello, decode_hello_body, encode_hello_challenge_body, hello_challenge_body_size,
}
use faith.Proto.Codec.Encode.{Encoded}
use faith.Proto.Envelope.{Envelope}
use faith.Proto.Envelope.Types.{
  envelope_hello, envelope_hello_ok, envelope_challenge, envelope_device_auth_pending,
}
use faith.Proto.Crypto.{random_bytes}
use faith.Server.Steps.{is_ok, and_then, with_decoded}
use faith.Server.HashMap.{HashMap}
use faith.Server.SessRegistry.{Session, register_session}
use faith.Server.Reactor.{Reactor}
use faith.Server.Platform.{Platform}
use faith.Server.Client.{
  ClientConn, ClientState, HandshakeParams, set_client_state, client_open, client_wait_for_hello,
  client_wait_for_challenge_response,
}
use faith.Server.ClientIo.{Task, queue_envelope_or_mark_dead}
use faith.Server.State.{registered}
use faith.Server.Events.{Seat, seated, to_client}

-- sizeof(client_device_session_data_t)
abbrev pub session_size : ℕ
session_size = 104

-- Whether the state is the one that a handler wants.
abbrev pub waits_for_hello : ClientState → Bool
waits_for_hello client_wait_for_hello = true
waits_for_hello other = false

abbrev pub waits_for_challenge_response : ClientState → Bool
waits_for_challenge_response client_wait_for_challenge_response = true
waits_for_challenge_response other = false

-- The eight bytes of a uint64_t in memory, the lowest first.
abbrev pub u64_of : List ℕ → ℕ
u64_of [] = 0
u64_of (b ∷ bs) = b + 256 * u64_of bs

-- An envelope without sender and body.
abbrev pub notice : ℕ → List ℕ → Envelope
notice kind recipient_id = record {
  kind = kind;
  sender_id = replicate 16 0;
  recipient_id = recipient_id;
  body_size = 0;
  body = none;
}

abbrev pub zeroed_hello : Hello
zeroed_hello = record { device_id = []; public_key = []; client_nonce = 0 }

abbrev pub params_of : Envelope → Hello → ℕ → HandshakeParams
params_of hello_envl hello server_nonce = record {
  nonce = hello.client_nonce;
  server_nonce = server_nonce;
  public_key = hello.public_key;
  sender_auth_id = hello_envl.sender_id;
  device_id = hello.device_id;
}

module _ (p : Platform) (r : Reactor) where
  abbrev pub random : (Bool × List ℕ) × p.World → Status × (List ℕ × p.World)
  random ((granted, bytes), w) = (random_bytes granted, (bytes, w))

  abbrev pub challenge_body : ℕ → Encoded
  challenge_body server_nonce =
      encode_hello_challenge_body (some (replicate hello_challenge_body_size p.junk)) (some 0)
        hello_challenge_body_size (some (record { server_nonce = server_nonce }))

  abbrev pub challenged : Status × Task p r → Status × Task p r
  challenged (rc, (cl, w)) = elim (is_ok rc) [
    | true ↦ (ok, (set_client_state cl client_wait_for_challenge_response, w))
    | false ↦ (rc, (cl, w))
  ]

  -- The nonce is drawn and the parameters are kept, then the challenge is sent.
  abbrev pub challenge :
      ClientConn → Envelope → Hello → Status × (List ℕ × p.World) → Status × Task p r
  challenge cl hello_envl hello (rc, (bytes, w)) =
      let server_nonce = u64_of bytes in
      let cl' : ClientConn = record cl {
        temp_handshake_params = params_of hello_envl hello server_nonce;
      } in
      elim (is_ok rc) [
        | true ↦ challenged (
            and_then ((challenge_body server_nonce).status, (cl', w))
              (λ task.
                queue_envelope_or_mark_dead p r task (
                  to_client envelope_challenge hello_envl.sender_id (challenge_body server_nonce))))
        | false ↦ (rc, (cl, w))
      ]

  unfoldable pub handle_hello : Task p r → Envelope → Status × Task p r
  unfolding set_client_state
  handle_hello (cl, w) hello_envl =
      if cl.closing
      then (invalid, (cl, w))
      else if not (hello_envl.kind == envelope_hello)
      then (invalid, (cl, w))
      else if not (waits_for_hello cl.state)
      then (bad_envelope, (cl, w))
      else with_decoded (cl, w)
          (decode_hello_body hello_envl.body hello_envl.body_size (some zeroed_hello))
          (λ hello. challenge cl hello_envl hello (random (p.rand_bytes w 8)))

  abbrev pub completed : List ℕ → List ℕ → Status × Task p r → Status × Task p r
  completed sender_id device_id (rc, (cl, w)) =
      let cl' : ClientConn = record cl {
        ident = record cl.ident { auth_id = sender_id; device_id = device_id };
      } in
      elim (is_ok rc) [ true ↦ (ok, (set_client_state cl' client_open, w)) | false ↦ (rc, (cl, w)) ]

  unfoldable pub handshake_complete : Task p r → List ℕ → List ℕ → Status × Task p r
  unfolding set_client_state
  handshake_complete (cl, w) sender_id device_id =
      let queued = queue_envelope_or_mark_dead p r (cl, w) (notice envelope_hello_ok sender_id) in
      if cl.closing
      then (invalid, (cl, w))
      else if not cl.authorized
      then (unauthorized, (cl, w))
      else completed sender_id device_id queued

  unfoldable pub queue_auth_pending : Task p r → Status × Task p r
  queue_auth_pending (cl, w) =
      let queued =
        queue_envelope_or_mark_dead p r (cl, w)
          (notice envelope_device_auth_pending (replicate 16 0)) in
      if cl.closing then (invalid, (cl, w)) else queued

  module _ (devices : HashMap (List ℕ) Session) (users : HashMap (List ℕ) devices.Map) where
    -- calloc of the session that a registration makes
    abbrev pub session_granted : Bool
    session_granted = p.alloc session_size

    abbrev pub registered_with :
        Bool → List ℕ → Status × Seat p r devices users → Status × Seat p r devices users
    registered_with register_session' public_key (rc, ((cl, w), rt)) =
        let (rc', rt') =
          register_session devices users session_granted rt cl.ident.auth_id cl.ident.device_id
            (registered cl) public_key in
        elim (is_ok rc && register_session') [
          | true ↦ (rc', ((cl, w), rt'))
          | false ↦ (rc, ((cl, w), rt))
        ]

    unfoldable pub authorize_client :
        Seat p r devices users → List ℕ → List ℕ → List ℕ → Bool → Status × Seat p r devices users
    authorize_client ((cl, w), rt) auth_id device_id public_key register_session' =
        let granted : ClientConn = record cl { authorized = true } in
        elim cl.closing [
          | true ↦ (invalid, ((cl, w), rt))
          | false ↦
              registered_with register_session' public_key
                (seated p r devices users rt (handshake_complete (granted, w) auth_id device_id))
        ]
