-- ===== src/Server/Handshake/Response.antt =====
-- The answer to the challenge: auth_handle_challenge_response in faith-server/src/auth/handshake.c.
use faith.Common.{ℕ, List, Bool}
use faith.Proto.Status.{Status}
use faith.Proto.Envelope.{Envelope}
use faith.Server.Steps.{and_then}
use faith.Server.HashMap.{HashMap}
use faith.Server.SessRegistry.{Session, get_session}
use faith.Server.Reactor.{Reactor}
use faith.Server.Platform.{Platform}
use faith.Server.Client.{ClientConn, HandshakeParams}
use faith.Server.State.{on_seat}
use faith.Server.Events.{State, Seat, queue_pending_events}
use faith.Server.Handshake.{authorize_client}
use faith.Server.Handshake.Verdict.{Verdict, refused, newly_joined, accepted, verdict}
use faith.Server.DeviceLink.{new_device}

module _ (p : Platform) (r : Reactor) (devices : HashMap (List ℕ) Session)
    (users : HashMap (List ℕ) devices.Map) where
  -- A client that proved its key joins, and gets the events that wait for its device.
  abbrev pub admit :
      HandshakeParams → List ℕ → Bool → Seat p r devices users → Status × Seat p r devices users
  admit params public_key register seat =
      and_then
        (authorize_client p r devices users seat params.sender_auth_id params.device_id public_key
          register)
        (queue_pending_events p r devices users)

  unfoldable pub carry_out_verdict :
      State p r devices users → ClientConn → Verdict → Status × State p r devices users
  carry_out_verdict s cl (refused rc) = (rc, s)
  carry_out_verdict s cl newly_joined =
      new_device p r devices users s cl.conn.id cl cl.temp_handshake_params
  carry_out_verdict s cl (accepted public_key register) =
      on_seat s cl.conn.id (admit cl.temp_handshake_params public_key register)

  unfoldable pub handle_challenge_response :
      State p r devices users → ClientConn → Envelope → Status × State p r devices users
  handle_challenge_response s cl envl =
      let params = cl.temp_handshake_params in
      carry_out_verdict s cl
        (verdict p cl envl (get_session devices users s.rt params.sender_auth_id params.device_id))
