-- ===== src/Server/Admission/Responses.antt =====
-- The answer of a device, the routing of envelopes, and the answer to a challenge.
use faith.Common.{ℕ, List, Bool, true, not, ◌||◌, ◌&&◌, ◌==◌, ltb, replicate}
use faith.Proto.Auth.{DeviceLinkReq}
use faith.Proto.Codec.Encode.{is_null}
use faith.Proto.Envelope.{Envelope}
use faith.Proto.Envelope.Types.{
  envelope_device_auth_deny, envelope_msg_send, envelope_device_auth_response_ack,
}
use faith.Proto.Status.{Status, invalid, bad_envelope, ok, unauthorized}
use faith.Server.Client.{ClientConn}
use faith.Server.DeviceLink.{modify_client, send_device_auth_response_failed, remove_request}
use faith.Server.DeviceLink.Response.{
  Ruling, refuse, notify, reject, grant, Early, settled, to_verify, verify_and_carry_out,
  handle_device_response, carry_out, settle, requester_id, early, requester, grant_link, fail_link,
  acknowledged, approved, notified,
}
use faith.Server.Devices.{
  is_open, for_each_auth_device_connection, Loop, next, returned, sessions_of,
}
use faith.Server.Events.{State, queue_pending_events}
use faith.Server.Handshake.{notice, authorize_client}
use faith.Server.Handshake.Response.{carry_out_verdict, handle_challenge_response}
use faith.Server.Handshake.Verdict.{Verdict, refused, newly_joined, accepted}
use faith.Server.HashMap.{HashMap}
use faith.Server.Platform.{Platform}
use faith.Server.Reactor.{Reactor}
use faith.Server.Routing.{
  route_application_msg_envelope, route_envelope_to_auth_id, loop_state, route_to, routing_envl,
}
use faith.Server.SessRegistry.{Session, auth_id_registered}
use faith.Server.State.{on_client}
use faith.Server.Steps.{is_ok}
use faith.Server.Admission.{Kept, Keeps, on_client-Kept, on_seat-Kept, modify_client-Kept}
use faith.Server.Admission.Clients.{queue_or_mark-Keeps, client_queue_disconnect-Keeps, Held}
use faith.Server.Admission.Devices.{Done, new_device-Done, remove_request-Admitted}
use faith.Server.Guards.{kept_case, kept_if, kept_then, kept_each, AtEnd}
use faith.Server.Admission.Seats.{authorize_client-Seated, queue_pending_events-Seated, Seated}

module _ (p : Platform) (r : Reactor) (devices : HashMap (List ℕ) Session)
    (users : HashMap (List ℕ) devices.Map) where
  abbrev Holds : State p r devices users → Type 0
  Holds s = Kept s

  pub loop_state-Kept :
      (l : Loop (State p r devices users)) → AtEnd Holds l → Kept (loop_state p r devices users l)
  loop_state-Kept (next s) a = a
  loop_state-Kept (returned rc s) a = a

  pub route_envelope_to_auth_id-Done :
      (s : State p r devices users) (cl : ClientConn) (auth_id : List ℕ) (envl : Envelope)
      → Kept s
      → Done p r devices users (route_envelope_to_auth_id p r devices users s cl auth_id envl)
  unfolding route_envelope_to_auth_id for_each_auth_device_connection
  route_envelope_to_auth_id-Done s cl auth_id envl a =
      kept_if Holds cl.closing (invalid, s) _ a
        (kept_if Holds (not (is_open cl.state)) (bad_envelope, s) _ a
          (kept_if Holds (not cl.authorized) (unauthorized, s) _ a
            (kept_if Holds (ltb 0 envl.body_size && is_null envl.body) (invalid, s) _ a
              (kept_if Holds (not (auth_id_registered devices users s.rt auth_id)) (ok, s) _ a
                (loop_state-Kept _ (
                  kept_each Holds (λ t. t)
                    (route_to p r devices users (routing_envl p r devices users cl auth_id envl))
                    (λ t recipient h.
                      on_client-Kept t recipient.conn.id _ (queue_or_mark-Keeps p r _) h)
                    (sessions_of devices users s.rt auth_id) s a))))))

  pub route_application_msg_envelope-Done :
      (s : State p r devices users) (cl : ClientConn) (envl : Envelope)
      → Kept s
      → Done p r devices users (route_application_msg_envelope p r devices users s cl envl)
  unfolding route_application_msg_envelope
  route_application_msg_envelope-Done s cl envl a =
      kept_if Holds (not (envl.kind == envelope_msg_send)) (invalid, s) _ a
        (kept_if Holds (envl.body_size == 0 || is_null envl.body) (invalid, s) _ a
          (route_envelope_to_auth_id-Done s cl envl.recipient_id envl a))

  response_failed-Keeps : Keeps (send_device_auth_response_failed p r devices users)
  unfolding send_device_auth_response_failed
  response_failed-Keeps cl w a =
      kept_if (Held p r) cl.closing (invalid, (cl, w)) _ a (queue_or_mark-Keeps p r _ cl w a)

  notified-Done :
      (s : State p r devices users) (id : ℕ) (rc : Status)
      → Kept s
      → Done p r devices users (
          notified p r devices users rc
            (on_client s id (send_device_auth_response_failed p r devices users)))
  notified-Done s id rc a =
      kept_then Holds (on_client s id (send_device_auth_response_failed p r devices users)) _
        (on_client-Kept s id _ response_failed-Keeps a) (λ s' h. h)

  fail_link-Done :
      (s : State p r devices users) (id req_id : ℕ) (rc : Status) (blame : Bool)
      → Kept s
      → Done p r devices users (fail_link p r devices users s id req_id rc blame)
  unfolding fail_link
  fail_link-Done s id req_id rc blame a = on_client-Kept _ id _ response_failed-Keeps (
      on_client-Kept (modify_client s id remove_request) req_id _
        (client_queue_disconnect-Keeps p r _)
        (modify_client-Kept s id remove_request remove_request-Admitted a))

  acknowledged-Done :
      (cl : ClientConn) (t : Status × State p r devices users)
      → Done p r devices users t
      → Done p r devices users (acknowledged p r devices users cl t)
  unfolding for_each_auth_device_connection
  acknowledged-Done cl (rc, s) a =
      kept_then Holds
        (route_envelope_to_auth_id p r devices users s cl cl.ident.auth_id
          (notice envelope_device_auth_response_ack (replicate 16 0)))
        _ (route_envelope_to_auth_id-Done s cl cl.ident.auth_id _ a)
        (λ s' h. loop_state-Kept _ (
          kept_each Holds (λ t. t) (λ t recipient. next (modify_client t cl.conn.id remove_request))
            (λ t recipient h'.
              modify_client-Kept t cl.conn.id remove_request remove_request-Admitted h')
            (sessions_of devices users s'.rt cl.ident.auth_id) s' h))

  approved-Done :
      (cl : ClientConn) (req_id : ℕ) (t : Status × State p r devices users)
      → Done p r devices users t
      → Done p r devices users (approved p r devices users cl req_id t)
  approved-Done cl req_id (rc, s) a =
      kept_case (Done p r devices users) (is_ok rc) _ _ (acknowledged-Done cl (ok, s) a)
        (fail_link-Done s cl.conn.id req_id rc true a)

  grant_link-Done :
      (s : State p r devices users) (cl : ClientConn) (kind : ℕ) (req : DeviceLinkReq) (req_id : ℕ)
      → Kept s
      → Done p r devices users (grant_link p r devices users s cl kind req req_id)
  unfolding grant_link
  grant_link-Done s cl kind req req_id a =
      kept_if Holds (kind == envelope_device_auth_deny) _ _
        (acknowledged-Done cl _ (on_client-Kept s req_id _ (client_queue_disconnect-Keeps p r _) a))
        (approved-Done cl req_id _ (
          on_seat-Kept s req_id _
            (λ cl' w rt h.
              authorize_client-Seated p r devices users cl' w rt req.auth_id req.device_id_new
                req.public_key_new_device true h)
            a))

  carry_out-Done :
      (s : State p r devices users) (cl : ClientConn) (kind : ℕ) (req : DeviceLinkReq) (req_id : ℕ)
      (ruling : Ruling)
      → Kept s
      → Done p r devices users (carry_out p r devices users s cl kind req req_id ruling)
  unfolding carry_out
  carry_out-Done s cl kind req req_id (refuse rc) a = a
  carry_out-Done s cl kind req req_id (notify rc) a = notified-Done s cl.conn.id rc a
  carry_out-Done s cl kind req req_id (reject rc blame) a =
      fail_link-Done s cl.conn.id req_id rc blame a
  carry_out-Done s cl kind req req_id grant a = grant_link-Done s cl kind req req_id a

  settle-Done :
      (s : State p r devices users) (cl : ClientConn) (ruling : Ruling)
      → Kept s
      → Done p r devices users (settle p r devices users s cl ruling)
  settle-Done s cl (notify rc) a = notified-Done s cl.conn.id rc a
  settle-Done s cl (refuse rc) a = a
  settle-Done s cl (reject rc blame) a = a
  settle-Done s cl grant a = a

  verify_and_carry_out-Done :
      (s : State p r devices users) (cl : ClientConn) (kind req_id : ℕ) (e : Early)
      → Kept s
      → Done p r devices users (verify_and_carry_out p r devices users s cl kind req_id e)
  verify_and_carry_out-Done s cl kind req_id (settled ruling) a = settle-Done s cl ruling a
  verify_and_carry_out-Done s cl kind req_id (to_verify req response) a =
      carry_out-Done (record s { world = (p.now_ms s.world).1 }) cl kind req req_id _ a

  pub handle_device_response-Done :
      (s : State p r devices users) (cl : ClientConn) (envl : Envelope)
      → Kept s
      → Done p r devices users (handle_device_response p r devices users s cl envl)
  unfolding handle_device_response
  handle_device_response-Done s cl envl a =
      verify_and_carry_out-Done s cl envl.kind (requester_id p r devices users cl)
        (early cl envl (requester p r devices users s cl)) a

  -- The one way to an open state is that of a client whose key is checked.
  carry_out_verdict-Done :
      (s : State p r devices users) (cl : ClientConn) (v : Verdict)
      → Kept s
      → Done p r devices users (carry_out_verdict p r devices users s cl v)
  unfolding carry_out_verdict
  carry_out_verdict-Done s cl (refused rc) a = a
  carry_out_verdict-Done s cl newly_joined a =
      new_device-Done p r devices users s cl.conn.id cl cl.temp_handshake_params a
  carry_out_verdict-Done s cl (accepted public_key register) a =
      let params = cl.temp_handshake_params in
      on_seat-Kept s cl.conn.id _
        (λ cl' w rt h.
          kept_then (Seated p r devices users)
            (authorize_client p r devices users ((cl', w), rt) params.sender_auth_id
              params.device_id public_key register)
            (queue_pending_events p r devices users)
            (authorize_client-Seated p r devices users cl' w rt params.sender_auth_id
              params.device_id public_key register h)
            (queue_pending_events-Seated p r devices users))
        a

  pub handle_challenge_response-Done :
      (s : State p r devices users) (cl : ClientConn) (envl : Envelope)
      → Kept s
      → Done p r devices users (handle_challenge_response p r devices users s cl envl)
  unfolding handle_challenge_response
  handle_challenge_response-Done s cl envl a = carry_out_verdict-Done s cl _ a
