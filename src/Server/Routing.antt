-- ===== src/Server/Routing.antt =====
-- Envelopes from client to client: faith-server/src/delivery/routing.c.
use faith.Common.{ℕ, List, not, ◌&&◌, ◌||◌, ◌==◌, ltb, if◌then◌else◌}
use faith.Proto.Status.{Status, ok, invalid, unauthorized, bad_envelope}
use faith.Proto.Codec.Encode.{is_null}
use faith.Proto.Envelope.{Envelope}
use faith.Proto.Envelope.Types.{envelope_msg_send}
use faith.Server.HashMap.{HashMap}
use faith.Server.SessRegistry.{Session, auth_id_registered}
use faith.Server.Reactor.{Reactor}
use faith.Server.Platform.{Platform}
use faith.Server.Client.{ClientConn}
use faith.Server.ClientIo.{queue_envelope_or_mark_dead}
use faith.Server.State.{on_client}
use faith.Server.Events.{State}
use faith.Server.Devices.{Loop, next, returned, is_open, for_each_auth_device_connection}

module _ (p : Platform) (r : Reactor) (devices : HashMap (List ℕ) Session)
    (users : HashMap (List ℕ) devices.Map) where
  -- The envelope with the sender that the server knows and the recipient's account.
  abbrev pub routing_envl : ClientConn → List ℕ → Envelope → Envelope
  routing_envl cl_sender recipient_auth_id envl = record envl {
    sender_id = cl_sender.ident.auth_id;
    recipient_id = recipient_auth_id;
  }

  -- A failure at one device is logged.
  abbrev pub route_to :
      Envelope → State p r devices users → ClientConn → Loop (State p r devices users)
  route_to envl s recipient_cl =
      next (on_client s recipient_cl.conn.id (λ task. queue_envelope_or_mark_dead p r task envl)).1

  abbrev pub loop_state : Loop (State p r devices users) → State p r devices users
  loop_state (next s) = s
  loop_state (returned rc s) = s

  unfoldable pub route_envelope_to_auth_id :
      State p r devices users → ClientConn → List ℕ → Envelope → Status × State p r devices users
  route_envelope_to_auth_id s cl_sender recipient_auth_id envl =
      let routed = loop_state (
        for_each_auth_device_connection devices users (λ t. t)
          (route_to (routing_envl cl_sender recipient_auth_id envl)) recipient_auth_id s) in
      if cl_sender.closing
      then (invalid, s)
      else if not (is_open cl_sender.state)
      then (bad_envelope, s)
      else if not cl_sender.authorized
      then (unauthorized, s)
      else if ltb 0 envl.body_size && is_null envl.body
      then (invalid, s)
      else if not (auth_id_registered devices users s.rt recipient_auth_id)
      then (ok, s)
      else (ok, routed)

  unfoldable pub route_application_msg_envelope :
      State p r devices users → ClientConn → Envelope → Status × State p r devices users
  route_application_msg_envelope s cl envl =
      if not (envl.kind == envelope_msg_send)
      then (invalid, s)
      else if envl.body_size == 0 || is_null envl.body
      then (invalid, s)
      else route_envelope_to_auth_id s cl envl.recipient_id envl
