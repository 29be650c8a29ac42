-- ===== src/Server/Handshake/Verdict.antt =====
-- What auth_handle_challenge_response in faith-server/src/auth/handshake.c decides before it changes
-- anything: the guards, the choice of the key, and the check of the signature.
use faith.Common.{
  ℕ, List, Bool, true, false, not, ◌||◌, Option, none, some, ◌==◌, if◌then◌else◌, replicate, take,
}
use faith.Proto.Status.{Status, ok, invalid, not_found, unauthorized, bad_envelope}
use faith.Proto.Auth.{client_id_equal, same_bytes, signature_size, public_key_size}
use faith.Proto.Codec.Encode.{Encoded, is_null, cells_of}
use faith.Proto.Crypto.{verify_signature_raw_pubkey}
use faith.Proto.Envelope.{Envelope}
use faith.Proto.Envelope.Types.{envelope_challenge_response}
use faith.Proto.Signatures.{HelloHandshake, gen_sign_buf_hello_handshake, hello_handshake_size}
use faith.Server.Steps.{is_ok}
use faith.Server.SessRegistry.{Session}
use faith.Server.Platform.{Platform}
use faith.Server.Client.{ClientConn, HandshakeParams}
use faith.Server.Handshake.{waits_for_challenge_response}

-- `accepted` carries the key, and whether a session is to be registered.
pub data Verdict : Type 0 where
  refused : Status → Verdict
  newly_joined : Verdict
  accepted : List ℕ → Bool → Verdict

-- The key that is to verify the signature, with what follows if it does.
pub data Choice : Type 0 where
  no_key : Status → Choice
  key : List ℕ → Verdict → Choice

-- The answer of sess_registry_get_session, by its cases.
unfoldable pub choose : HandshakeParams → Status × Option Session → Choice
choose params (not_found, sess) = key params.public_key (accepted params.public_key true)
choose params (ok, none) = key params.public_key newly_joined
choose params (ok, some sess) =
    if not (same_bytes public_key_size params.public_key sess.public_key)
    then no_key unauthorized
    else key sess.public_key (accepted sess.public_key false)
choose params (rc, sess) = no_key rc

abbrev pub sign_msg : HandshakeParams → List ℕ → HelloHandshake
sign_msg params public_key = record {
  auth_id = params.sender_auth_id;
  device_id = params.device_id;
  public_key = public_key;
  client_nonce = params.nonce;
  server_nonce = params.server_nonce;
}

module _ (p : Platform) where
  abbrev pub msg_buf : HandshakeParams → List ℕ → Encoded
  msg_buf params public_key =
      gen_sign_buf_hello_handshake (some (replicate hello_handshake_size p.junk)) (some 0)
        hello_handshake_size (some (sign_msg params public_key))

  -- The message buffer, then the signature.
  unfoldable pub checked : HandshakeParams → List ℕ → Choice → Verdict
  checked params signature (no_key rc) = refused rc
  checked params signature (key public_key outcome) =
      let msg = msg_buf params public_key in
      let verification_rc =
        verify_signature_raw_pubkey p.digest_verify public_key (cells_of msg.out_buf) signature
          signature_size in
      if not (is_ok msg.status)
      then refused msg.status
      else if not (is_ok verification_rc)
      then refused unauthorized
      else outcome

  unfoldable pub verdict : ClientConn → Envelope → Status × Option Session → Verdict
  verdict cl envl sess =
      let params = cl.temp_handshake_params in
      if cl.closing
      then refused invalid
      else if not (envl.kind == envelope_challenge_response)
      then refused invalid
      else if not (waits_for_challenge_response cl.state)
      then refused bad_envelope
      else if not (client_id_equal envl.sender_id params.sender_auth_id)
      then refused invalid
      else if is_null envl.body || not (envl.body_size == signature_size)
      then refused invalid
      else checked params (take signature_size (cells_of envl.body)) (choose params sess)
