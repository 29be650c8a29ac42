-- ===== src/Server/DeviceLink/Cancel.antt =====
-- Taking a request back: device_link_queue_request_cancellation in faith-server/src/auth/device_link.c.
use faith.Common.{ℕ, List, Bool, true, false, not, Option, none, some, ◌==◌, if◌then◌else◌}
use faith.Proto.Status.{Status, ok}
use faith.Proto.Envelope.Types.{envelope_device_link_cancelled}
use faith.Server.Steps.{is_ok}
use faith.Server.HashMap.{HashMap}
use faith.Server.SessRegistry.{Session}
use faith.Server.Reactor.{Reactor}
use faith.Server.Platform.{Platform}
use faith.Server.Client.{ClientConn}
use faith.Server.ClientIo.{queue_envelope_or_mark_dead}
use faith.Server.State.{on_client}
use faith.Server.Events.{State}
use faith.Server.Devices.{Loop, next, returned, for_each_auth_device_connection}
use faith.Server.Handshake.{notice}
use faith.Server.DeviceLink.{remove_request, modify_client, waits_for_device_link_response}

abbrev pub is_client : Option ℕ → ℕ → Bool
is_client none id = false
is_client (some other) id = other == id

module _ (p : Platform) (r : Reactor) (devices : HashMap (List ℕ) Session)
    (users : HashMap (List ℕ) devices.Map) where
  -- The state, and `device_loop_rc`.
  abbrev pub Cancelling : Type 0
  Cancelling = State p r devices users × Status

  -- The first failure is kept, and the request goes either way.
  abbrev pub cancelled : ℕ → Status → Status × State p r devices users → Loop Cancelling
  cancelled authorized_id loop_rc (rc, s) =
      next (modify_client s authorized_id remove_request, if is_ok loop_rc then rc else loop_rc)

  abbrev pub cancel_at : ℕ → Cancelling → ClientConn → Loop Cancelling
  cancel_at requesting_id (s, loop_rc) authorized_cl =
      elim (is_client authorized_cl.pending_device_link_conn requesting_id) [
        | false ↦ next (s, loop_rc)
        | true ↦ cancelled authorized_cl.conn.id loop_rc (
            on_client s authorized_cl.conn.id (λ task.
              queue_envelope_or_mark_dead p r task
                (notice envelope_device_link_cancelled authorized_cl.ident.auth_id)))
      ]

  abbrev pub loop_end : Loop Cancelling → Status × State p r devices users
  loop_end (next (s, loop_rc)) = (loop_rc, s)
  loop_end (returned rc (s, loop_rc)) = (rc, s)

  unfoldable pub queue_request_cancellation :
      State p r devices users → ClientConn → Status × State p r devices users
  queue_request_cancellation s requesting_cl =
      let after = loop_end (
        for_each_auth_device_connection devices users (λ t. t.0) (cancel_at requesting_cl.conn.id)
          requesting_cl.temp_handshake_params.sender_auth_id (s, ok)) in
      if not (waits_for_device_link_response requesting_cl.state) then (ok, s) else after
