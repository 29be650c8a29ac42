-- ===== src/Server/Admission/Clients.antt =====
-- The operations on one client keep it admitted.
use faith.Common.{
  ℕ, List, Bool, true, false, not, ◌≡◌, refl, ◌==◌, if◌then◌else◌, some, replicate, ◌∙◌,
}
use faith.Proto.Auth.{Hello, decode_hello_body}
use faith.Proto.Codec.Encode.{Encoded}
use faith.Proto.Disconnect.{ClientDisconnect}
use faith.Proto.Envelope.{Envelope}
use faith.Proto.Envelope.Types.{
  envelope_hello, envelope_device_auth_pending, envelope_hello_ok, envelope_challenge,
}
use faith.Proto.Frame.{Frame}
use faith.Proto.Msg.{Ping, decode_ping}
use faith.Proto.Status.{Status, invalid, ok, bad_envelope, unauthorized}
use faith.Server.Client.{
  ClientConn, set_client_state, client_wait_for_challenge_response, client_open,
}
use faith.Server.ClientIo.{Task, queue_envelope_or_mark_dead, client_queue_disconnect}
use faith.Server.ClientIo.Quiet.Queueing.{
  queue_envelope_or_mark_dead-IsQuiet, client_queue_disconnect-IsQuiet, queue_frame-IsQuiet,
}
use faith.Server.Dispatch.{handle_ping, answer_ping, pong_payload, pong_frame}
use faith.Server.Events.{to_client}
use faith.Server.Handshake.{
  handle_hello, challenge, waits_for_hello, params_of, u64_of, completed, handshake_complete,
  challenge_body, queue_auth_pending, notice, zeroed_hello, random, challenged,
}
use faith.Server.Platform.{Platform}
use faith.Server.Reactor.{Reactor}
use faith.Server.Steps.{is_ok, and_then, with_decoded}
use faith.Server.Admission.{Admitted, Keeps, Quiet-Admitted}
use faith.Server.Guards.{kept_if, kept_then, kept_decoded}

module _ (p : Platform) (r : Reactor) where
  abbrev pub Held : Task p r → Type 0
  Held task = Admitted task.0

  pub queue_or_mark-Keeps :
      (envl : Envelope) → Keeps (λ task. queue_envelope_or_mark_dead p r task envl)
  queue_or_mark-Keeps envl cl w a =
      Quiet-Admitted (queue_envelope_or_mark_dead-IsQuiet p r envl cl w) a

  challenged-Admitted : (t : Status × Task p r) → Held t.1 → Held (challenged p r t).1
  unfolding set_client_state
  challenged-Admitted (rc, (cl, w)) a = by_status (is_ok rc)
    where
      by_status :
          (b : Bool)
          → Held
              (elim b as (λ x. Status × Task p r) [
                | true ↦ (ok, (set_client_state cl client_wait_for_challenge_response, w))
                | false ↦ (rc, (cl, w))
              ]).1
      by_status true = record { opened = λ e. cc; paired = a.paired }
      by_status false = a

  challenge-Admitted :
      (cl : ClientConn) (envl : Envelope) (hello : Hello) (drawn : Status × (List ℕ × p.World))
      → Admitted cl
      → Held (challenge p r cl envl hello drawn).1
  challenge-Admitted cl envl hello (rc, (bytes, w)) a = by_status (is_ok rc)
    where
      cl' : ClientConn
      cl' = record cl { temp_handshake_params = params_of envl hello (u64_of bytes) }

      body : Encoded
      body = challenge_body p r (u64_of bytes)

      by_status :
          (b : Bool)
          → Held
              (elim b as (λ x. Status × Task p r) [
                | true ↦ challenged p r (
                    and_then
                      (body.status, (cl', w))
                      (λ task.
                        queue_envelope_or_mark_dead p r task
                          (to_client envelope_challenge envl.sender_id body)))
                | false ↦ (rc, (cl, w))
              ]).1
      by_status true = challenged-Admitted _ (
          kept_then Held (body.status, (cl', w)) _ (record { opened = a.opened; paired = a.paired })
            (λ task h. queue_or_mark-Keeps _ task.0 task.1 h))
      by_status false = a

  pub handle_hello-Keeps : (envl : Envelope) → Keeps (λ task. handle_hello p r task envl)
  unfolding handle_hello
  handle_hello-Keeps envl cl w a =
      kept_if Held cl.closing (invalid, (cl, w)) _ a
        (kept_if Held (not (envl.kind == envelope_hello)) (invalid, (cl, w)) _ a
          (kept_if Held (not (waits_for_hello cl.state)) (bad_envelope, (cl, w)) _ a
            (kept_decoded Held (cl, w)
              (decode_hello_body envl.body envl.body_size (some zeroed_hello)) _ a
              (λ hello. challenge-Admitted cl envl hello (random p r (p.rand_bytes w 8)) a))))

  -- Only an authorized client completes the handshake.
  completed-Admitted :
      (sender_id device_id : List ℕ) (t : Status × Task p r)
      → Held t.1
      → t.1.0.authorized ≡ true
      → Held (completed p r sender_id device_id t).1
  unfolding set_client_state
  completed-Admitted sender_id device_id (rc, (cl, w)) a e = by_status (is_ok rc)
    where
      cl' : ClientConn
      cl' = record cl { ident = record cl.ident { auth_id = sender_id; device_id = device_id } }

      by_status :
          (b : Bool)
          → Held
              (elim b as (λ x. Status × Task p r) [
                | true ↦ (ok, (set_client_state cl' client_open, w))
                | false ↦ (rc, (cl, w))
              ]).1
      by_status true = record { opened = λ o. e; paired = a.paired }
      by_status false = a

  pub handshake_complete-Keeps :
      (sender_id device_id : List ℕ)
      → Keeps (λ task. handshake_complete p r task sender_id device_id)
  unfolding handshake_complete
  handshake_complete-Keeps sender_id device_id cl w a =
      kept_if Held cl.closing (invalid, (cl, w)) _ a (by_authorized cl.authorized refl)
    where
      queued : Status × Task p r
      queued = queue_envelope_or_mark_dead p r (cl, w) (notice envelope_hello_ok sender_id)

      by_authorized :
          (b : Bool)
          → cl.authorized ≡ b
          → Held
              (if not b
                then (unauthorized, (cl, w))
                else completed p r sender_id device_id queued).1
      by_authorized true e =
          let q =
            queue_envelope_or_mark_dead-IsQuiet p r (notice envelope_hello_ok sender_id) cl w in
          completed-Admitted sender_id device_id queued (Quiet-Admitted q a) (q.authorized ∙ e)
      by_authorized false e = a

  pub queue_auth_pending-Keeps : Keeps (queue_auth_pending p r)
  unfolding queue_auth_pending
  queue_auth_pending-Keeps cl w a =
      kept_if Held cl.closing (invalid, (cl, w)) _ a
        (queue_or_mark-Keeps (notice envelope_device_auth_pending (replicate 16 0)) cl w a)

  pub client_queue_disconnect-Keeps :
      (message : ClientDisconnect) → Keeps (λ task. client_queue_disconnect p r task message)
  client_queue_disconnect-Keeps message cl w a =
      Quiet-Admitted (client_queue_disconnect-IsQuiet p r message cl w) a

  answer_ping-Admitted :
      (cl : ClientConn) (ping : Ping) (now : ℕ × p.World)
      → Admitted cl
      → Held (answer_ping p r cl ping now).1
  answer_ping-Admitted cl ping (now, w) a =
      kept_then Held ((pong_payload p r ping now).status, (cl, w)) _ a
        (λ task h.
          Quiet-Admitted
            (queue_frame-IsQuiet p r (pong_frame (pong_payload p r ping now)) task.0 task.1) h)

  pub handle_ping-Keeps : (frame : Frame) → Keeps (λ task. handle_ping p r task frame)
  unfolding handle_ping
  handle_ping-Keeps frame cl w a =
      let d =
        decode_ping frame.payload frame.payload_size
          (some (record { nonce = 0; client_sent_at_ms = 0 })) in
      let answer : Ping → Status × Task p r = λ ping. answer_ping p r cl ping (p.now_ms w) in
      kept_if Held cl.closing (invalid, (cl, w)) (with_decoded (cl, w) d answer) a
        (kept_decoded Held (cl, w) d answer a (λ ping. answer_ping-Admitted cl ping (p.now_ms w) a))
