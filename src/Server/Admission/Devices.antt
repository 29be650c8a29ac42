-- ===== src/Server/Admission/Devices.antt =====
-- A request to link a device keeps the clients admitted.
use faith.Common.{refl, ℕ, List, Bool, not, ◌||◌, Option, none, some}
use faith.Proto.Auth.{DeviceLinkReq, device_link_code_size}
use faith.Proto.Envelope.Types.{envelope_device_link_cancelled}
use faith.Proto.Status.{Status, invalid, bad_envelope, unauthorized, nomem, ok}
use faith.Server.Client.{ClientConn, HandshakeParams, set_client_state}
use faith.Server.ClientIo.{queue_envelope_or_mark_dead}
use faith.Server.DeviceLink.{
  with_req, req_drawn, Requested, link_req, req_body, queue_request, pend, remove_request,
  new_device, waiting, after_asking, ask_device, device_link_req_size,
  waits_for_device_link_response,
}
use faith.Server.DeviceLink.Cancel.{
  Cancelling, queue_request_cancellation, cancelled, loop_end, cancel_at, is_client,
}
use faith.Server.Devices.{
  is_open, Loop, for_each_auth_device_connection, returned, next, sessions_of,
}
use faith.Server.Events.{State}
use faith.Server.Handshake.{waits_for_challenge_response, queue_auth_pending, notice}
use faith.Server.HashMap.{HashMap}
use faith.Server.Platform.{Platform}
use faith.Server.Reactor.{Reactor}
use faith.Server.SessRegistry.{Session, auth_id_registered}
use faith.Server.State.{get_client, on_client}
use faith.Server.Steps.{is_ok}
use faith.Server.Admission.{Kept, Admitted, on_client-Kept, modify_client-Kept}
use faith.Server.Admission.Clients.{
  queue_or_mark-Keeps, client_queue_disconnect-Keeps, queue_auth_pending-Keeps,
}
use faith.Server.Guards.{kept_case, kept_option, kept_if, kept_then, kept_each, AtEnd}

-- A request goes with its connection.
pub remove_request-Admitted : (cl : ClientConn) → Admitted cl → Admitted (remove_request cl)
unfolding remove_request
remove_request-Admitted cl a =
    kept_option Admitted cl.pending_device_link_req _ _ a
      (λ req. record { opened = a.opened; paired = refl })

module _ (p : Platform) (r : Reactor) (devices : HashMap (List ℕ) Session)
    (users : HashMap (List ℕ) devices.Map) where
  -- After a call.
  abbrev pub Done : Status × State p r devices users → Type 0
  Done t = Kept t.1

  abbrev Asked : Status × Requested p r devices users → Type 0
  Asked t = Kept t.1.0

  with_req-Asked :
      (req : Option DeviceLinkReq) (t : Status × State p r devices users)
      → Done t
      → Asked (with_req p r devices users req t)
  with_req-Asked req (rc, s) a = kept_case Asked (is_ok rc) (rc, (s, req)) (rc, (s, none)) a a

  req_drawn-Asked :
      (s : State p r devices users) (recipient_id : ℕ) (auth_id public_key device_id : List ℕ)
      (drawn : (Bool × List ℕ) × p.World)
      → Kept s
      → Asked (req_drawn p r devices users s recipient_id auth_id public_key device_id drawn)
  req_drawn-Asked s recipient_id auth_id public_key device_id ((granted, link_code), w) a =
      kept_case Asked granted _ _
        (with_req-Asked (some req) _ (
          kept_then Kept
            ((req_body p r devices users req).status, record s { world = (p.now_ms w).1 }) _ a
            (λ s' h. on_client-Kept s' recipient_id _ (queue_or_mark-Keeps p r _) h)))
        a
    where
      req : DeviceLinkReq
      req = link_req p r devices users auth_id public_key device_id link_code (p.now_ms w).0

  queue_request-Asked :
      (s : State p r devices users) (recipient_cl request_cl : ClientConn)
      (auth_id public_key device_id : List ℕ)
      → Kept s
      → Asked
          (queue_request p r devices users s recipient_cl request_cl auth_id public_key device_id)
  unfolding queue_request
  queue_request-Asked s recipient_cl request_cl auth_id public_key device_id a =
      kept_if held (not (is_open recipient_cl.state)) (bad_envelope, (s, none)) _ a
        (kept_if held (request_cl.closing || recipient_cl.closing) (invalid, (s, none)) _ a
          (kept_if held (not recipient_cl.authorized) (unauthorized, (s, none)) _ a
            (kept_option Asked recipient_cl.pending_device_link_req _ _
              (kept_case Asked (p.alloc device_link_req_size)
                (req_drawn p r devices users s recipient_cl.conn.id auth_id public_key device_id
                  (p.rand_bytes s.world device_link_code_size))
                (nomem, (s, none))
                (req_drawn-Asked s recipient_cl.conn.id auth_id public_key device_id
                  (p.rand_bytes s.world device_link_code_size) a)
                a)
              (λ pending.
                on_client-Kept s request_cl.conn.id _ (client_queue_disconnect-Keeps p r _) a))))
    where
      held : Requested p r devices users → Type 0
      held q = Kept q.0

  -- The request and its connection are set together.
  pend-AtEnd :
      (recipient_id request_id : ℕ) (t : Status × Requested p r devices users)
      → Asked t
      → AtEnd Kept (pend p r devices users recipient_id request_id t)
  pend-AtEnd recipient_id request_id (rc, (s, none)) a = a
  pend-AtEnd recipient_id request_id (rc, (s, some req)) a =
      kept_case (AtEnd Kept) (is_ok rc) _ _
        (modify_client-Kept s recipient_id _ (λ cl h. record { opened = h.opened; paired = refl })
          a)
        a

  ask_device-AtEnd :
      (id : ℕ) (params : HandshakeParams) (s : State p r devices users) (cl : ClientConn)
      → Kept s
      → AtEnd Kept (ask_device p r devices users id params s cl)
  ask_device-AtEnd id params s authorized_cl a =
      kept_option (AtEnd Kept) (get_client id s.clients) _ _ a (λ cl.
        pend-AtEnd authorized_cl.conn.id id _ (
          queue_request-Asked s authorized_cl cl params.sender_auth_id params.public_key
            params.device_id a))

  waiting-Done :
      (id : ℕ) (params : HandshakeParams) (t : Status × State p r devices users)
      → Done t
      → Done (waiting p r devices users id params t)
  unfolding set_client_state
  waiting-Done id params (rc, s) a =
      kept_case Done (is_ok rc) _ (rc, s)
        (modify_client-Kept s id _ (λ cl h. record { opened = λ e. cc; paired = h.paired }) a) a

  after_asking-Done :
      (id : ℕ) (params : HandshakeParams) (l : Loop (State p r devices users))
      → AtEnd Kept l
      → Done (after_asking p r devices users id params l)
  after_asking-Done id params (returned rc s) a = a
  after_asking-Done id params (next s) a =
      waiting-Done id params (on_client s id (queue_auth_pending p r))
        (on_client-Kept s id _ (queue_auth_pending-Keeps p r) a)

  pub new_device-Done :
      (s : State p r devices users) (id : ℕ) (cl : ClientConn) (params : HandshakeParams)
      → Kept s
      → Done (new_device p r devices users s id cl params)
  unfolding new_device for_each_auth_device_connection
  new_device-Done s id cl params a =
      kept_if Kept cl.closing (invalid, s) _ a
        (kept_if Kept (not (waits_for_challenge_response cl.state)) (bad_envelope, s) _ a
          (kept_if Kept (not (auth_id_registered devices users s.rt params.sender_auth_id)) _ _
            (on_client-Kept s id _ (client_queue_disconnect-Keeps p r _) a)
            (after_asking-Done id params _ (
              kept_each Kept (λ t. t) (ask_device p r devices users id params)
                (ask_device-AtEnd id params) (sessions_of devices users s.rt params.sender_auth_id)
                s a))))

  abbrev Cancels : Cancelling p r devices users → Type 0
  Cancels c = Kept c.0

  cancel_at-AtEnd :
      (requesting_id : ℕ) (c : Cancelling p r devices users) (authorized_cl : ClientConn)
      → Cancels c
      → AtEnd Cancels (cancel_at p r devices users requesting_id c authorized_cl)
  cancel_at-AtEnd requesting_id (s, loop_rc) authorized_cl a =
      kept_case (AtEnd Cancels) (is_client authorized_cl.pending_device_link_conn requesting_id)
        (cancelled p r devices users authorized_cl.conn.id loop_rc t) (next (s, loop_rc))
        (modify_client-Kept t.1 authorized_cl.conn.id remove_request remove_request-Admitted
          (on_client-Kept s authorized_cl.conn.id _ (queue_or_mark-Keeps p r _) a))
        a
    where
      t : Status × State p r devices users
      t = on_client s authorized_cl.conn.id (λ task.
          queue_envelope_or_mark_dead p r task
            (notice envelope_device_link_cancelled authorized_cl.ident.auth_id))

  loop_end-Done :
      (l : Loop (Cancelling p r devices users))
      → AtEnd Cancels l
      → Done (loop_end p r devices users l)
  loop_end-Done (next (s, loop_rc)) a = a
  loop_end-Done (returned rc (s, loop_rc)) a = a

  pub queue_request_cancellation-Done :
      (s : State p r devices users) (cl : ClientConn)
      → Kept s
      → Done (queue_request_cancellation p r devices users s cl)
  unfolding queue_request_cancellation for_each_auth_device_connection
  queue_request_cancellation-Done s cl a =
      kept_if Kept (not (waits_for_device_link_response cl.state)) (ok, s) _ a
        (loop_end-Done _ (
          kept_each Cancels (λ t. t.0) (cancel_at p r devices users cl.conn.id)
            (cancel_at-AtEnd cl.conn.id)
            (sessions_of devices users s.rt cl.temp_handshake_params.sender_auth_id) (s, ok) a))
