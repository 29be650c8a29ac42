-- ===== src/Server/Handshake/Reconnect.antt =====
-- A device that comes back: its session is in the registry already, auth_handle_challenge_response in
-- faith-server/src/auth/handshake.c.
use faith.Common.{
  ℕ, List, Bool, true, false, not, ◌&&◌, ◌||◌, ◌==◌, ◌≡◌, refl, subst, sym, Option, some, take,
}
use faith.Server.Guards.{kept_either, kept_case, kept_then, kept_session, kept_option}
use faith.Server.Handshake.Verdict.{
  Verdict, refused, newly_joined, accepted, Choice, no_key, key, choose, verdict, checked, msg_buf,
}
use faith.Server.Platform.{Platform}
use faith.Server.Reactor.{Reactor}
use faith.Server.Client.{HandshakeParams, ClientConn}
use faith.Server.SessRegistry.{Session, get_session, register_session}
use faith.Server.HashMap.{HashMap}
use faith.Server.Handshake.Response.{carry_out_verdict, handle_challenge_response}
use faith.Proto.Crypto.{verify_signature_raw_pubkey}
use faith.Server.Handshake.{
  authorize_client, Task, waits_for_challenge_response, is_ok, handshake_complete, register_session,
  session_granted, registered,
}
use faith.Server.Events.{Seat, queue_pending_events, State}
use faith.Proto.Envelope.{Envelope}
use faith.Proto.Status.{ok, Status, invalid, unauthorized, bad_envelope, unreachable}
use faith.Proto.Codec.Encode.{cells_of, is_null}
use faith.Proto.Auth.{same_bytes, signature_size, public_key_size, client_id_equal}
use faith.Server.State.{on_seat, registered, get_client}
use faith.Proto.Envelope.Types.{envelope_challenge_response}
use faith.Server.ClientIo.{Task}
use faith.Server.Steps.{is_ok}

-- No session is to be registered, and the device is not a new one.
abbrev Returning : Verdict → Type 0
Returning (refused rc) = Unit
Returning newly_joined = ⊥
Returning (accepted public_key register) = register ≡ false

abbrev ReturningIf : Choice → Type 0
ReturningIf (no_key rc) = Unit
ReturningIf (key public_key outcome) = Returning outcome

choose-Returning :
    (params : HandshakeParams) (sess : Session) → ReturningIf (choose params (ok, some sess))
unfolding choose
choose-Returning params sess =
    kept_either ReturningIf (not (same_bytes public_key_size params.public_key sess.public_key))
      (no_key unauthorized) (key sess.public_key (accepted sess.public_key false)) tt refl

module _ (p : Platform) where
  checked-Returning :
      (params : HandshakeParams) (signature : List ℕ) (c : Choice)
      → ReturningIf c
      → Returning (checked p params signature c)
  unfolding checked
  checked-Returning params signature (no_key rc) h = tt
  checked-Returning params signature (key public_key outcome) h =
      let msg = msg_buf p params public_key in
      let rc =
        verify_signature_raw_pubkey p.digest_verify public_key (cells_of msg.out_buf) signature
          signature_size in
      kept_either Returning (not (is_ok msg.status)) (refused msg.status) _ tt
        (kept_either Returning (not (is_ok rc)) (refused unauthorized) outcome tt h)

  verdict-Returning :
      (cl : ClientConn) (envl : Envelope) (sess : Session)
      → Returning (verdict p cl envl (ok, some sess))
  unfolding verdict
  verdict-Returning cl envl sess =
      let params = cl.temp_handshake_params in
      kept_either Returning cl.closing (refused invalid) _ tt (
        kept_either Returning (not (envl.kind == envelope_challenge_response)) (refused invalid) _
          tt
          (kept_either Returning (not (waits_for_challenge_response cl.state))
            (refused bad_envelope) _ tt
            (kept_either Returning (not (client_id_equal envl.sender_id params.sender_auth_id))
              (refused invalid) _ tt
              (kept_either Returning (is_null envl.body || not (envl.body_size == signature_size))
                (refused invalid) _ tt
                (checked-Returning params (take signature_size (cells_of envl.body))
                  (choose params (ok, some sess)) (choose-Returning params sess))))))

module _ (p : Platform) (r : Reactor) (devices : HashMap (List ℕ) Session)
    (users : HashMap (List ℕ) devices.Map) where
  -- The registry is the given one.
  abbrev Keeping : users.Map → Seat p r devices users → Type 0
  Keeping rt seat = seat.1 ≡ rt

  authorize_client-Keeping :
      (seat : Seat p r devices users) (auth_id device_id public_key : List ℕ)
      → Keeping seat.1
          (authorize_client p r devices users seat auth_id device_id public_key false).1
  unfolding authorize_client
  authorize_client-Keeping ((cl, w), rt) auth_id device_id public_key =
      kept_case (λ (t : Status × Seat p r devices users). Keeping rt t.1) cl.closing
        (invalid, ((cl, w), rt)) _ refl (not_registered (is_ok t.0))
    where
      t : Status × Task p r
      t = handshake_complete p r (record cl { authorized = true }, w) auth_id device_id

      call : Status × users.Map
      call =
          register_session devices users (session_granted p r devices users) rt t.1.0.ident.auth_id
            t.1.0.ident.device_id (registered t.1.0) public_key

      not_registered :
          (b : Bool)
          → Keeping rt
              (elim (b && false) as (λ x. Status × Seat p r devices users) [
                | true ↦ (call.0, (t.1, call.1))
                | false ↦ (t.0, (t.1, rt))
              ]).1
      not_registered true = refl
      not_registered false = refl

  queue_pending_events-Keeping :
      (rt : users.Map) (seat : Seat p r devices users)
      → Keeping rt seat
      → Keeping rt (queue_pending_events p r devices users seat).1
  unfolding queue_pending_events
  queue_pending_events-Keeping rt ((cl, w), rt') h =
      kept_session p r devices users (Keeping rt) ((cl, w), rt')
        (get_session devices users rt' cl.ident.auth_id cl.ident.device_id) _ h (λ sess. h)

  carry_out_verdict-rt :
      (s : State p r devices users) (cl : ClientConn) (v : Verdict)
      → Returning v
      → (carry_out_verdict p r devices users s cl v).1.rt ≡ s.rt
  unfolding carry_out_verdict on_seat
  carry_out_verdict-rt s cl (refused rc) h = refl
  carry_out_verdict-rt s cl newly_joined h = absurd h
  carry_out_verdict-rt s cl (accepted public_key true) h = cc
  carry_out_verdict-rt s cl (accepted public_key false) h =
      kept_option (λ (t : Status × State p r devices users). t.1.rt ≡ s.rt)
        (get_client cl.conn.id s.clients) (unreachable, s) _ refl
        (λ found.
          kept_then (Keeping s.rt)
            (authorize_client p r devices users ((found, s.world), s.rt) params.sender_auth_id
              params.device_id public_key false)
            (queue_pending_events p r devices users)
            (authorize_client-Keeping ((found, s.world), s.rt) params.sender_auth_id
              params.device_id public_key)
            (λ seat h'. queue_pending_events-Keeping s.rt seat h'))
    where
      params : HandshakeParams
      params = cl.temp_handshake_params

  -- When the session of the device is in the registry, no branch of auth_handle_challenge_response changes
  -- that: the session is as it was before, with the connection that it had or with none, so that a device
  -- that comes back after a disconnect has no connection in its session even where it is let in.
  pub handle_challenge_response-get_session :
      (s : State p r devices users) (cl : ClientConn) (envl : Envelope) (sess : Session)
      → get_session devices users s.rt cl.temp_handshake_params.sender_auth_id
          cl.temp_handshake_params.device_id
        ≡ (ok, some sess)
      → get_session devices users
          (handle_challenge_response p r devices users s cl envl).1.rt
          cl.temp_handshake_params.sender_auth_id
          cl.temp_handshake_params.device_id
        ≡ (ok, some sess)
  unfolding handle_challenge_response
  handle_challenge_response-get_session s cl envl sess e =
      let params = cl.temp_handshake_params in
      let found = get_session devices users s.rt params.sender_auth_id params.device_id in
      subst
        (λ (rt : users.Map).
          get_session devices users rt params.sender_auth_id params.device_id ≡ (ok, some sess))
        (sym (
          carry_out_verdict-rt s cl (verdict p cl envl found) (
            subst (λ (a : Status × Option Session). Returning (verdict p cl envl a)) (sym e)
              (verdict-Returning p cl envl sess))))
        e
