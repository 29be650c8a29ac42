-- ===== src/Server/Admission/Lifecycle.antt =====
-- The beginning and the end of a connection keep the clients admitted.
use faith.Common.{ℕ, List, [], ◌∷◌, not, ◌==◌, Option, none, some, length, refl}
use faith.Proto.Status.{Status, ok, nomem}
use faith.Server.Client.{ClientConn}
use faith.Server.DeviceLink.{waits_for_device_link_response}
use faith.Server.DeviceLink.Cancel.{queue_request_cancellation}
use faith.Server.Events.{State}
use faith.Server.HashMap.{HashMap}
use faith.Server.Lifecycle.{
  unlink_client, tell_requester, client_adopt_fd, close_client, leave_session, release,
  without_conn, cancel_link, tell_last, Released, fresh, first_failure, link_client, unlinked,
  client_conn_size,
}
use faith.Server.Platform.{Platform}
use faith.Server.Reactor.{Reactor, Source, reactor_add}
use faith.Server.SessRegistry.{Session, get_devices, get_session}
use faith.Server.Steps.{is_ok}
use faith.Server.Admission.{Kept, Admitted, AllAdmitted, on_client-Kept}
use faith.Server.Admission.Clients.{client_queue_disconnect-Keeps}
use faith.Server.Admission.Devices.{Done, queue_request_cancellation-Done}
use faith.Server.Guards.{kept_case, kept_option, kept_either}

unlink_client-AllAdmitted :
    (id : ℕ) (cls : List ClientConn) → AllAdmitted cls → AllAdmitted (unlink_client id cls)
unfolding unlink_client
unlink_client-AllAdmitted id [] a = tt
unlink_client-AllAdmitted id (cl ∷ cls) a =
    kept_either AllAdmitted (cl.conn.id == id) cls (cl ∷ unlink_client id cls) a.1
      (a.0, unlink_client-AllAdmitted id cls a.1)

module _ (p : Platform) (r : Reactor) (devices : HashMap (List ℕ) Session)
    (users : HashMap (List ℕ) devices.Map) where
  abbrev Ends : Status × State p r devices users → Type 0
  Ends = Done p r devices users

  tell_last-Ends :
      (result : Status) (cl : ClientConn) (req_id : ℕ) (s : State p r devices users)
      (found : Status × Option devices.Map)
      → Kept s
      → Ends (tell_last p r devices users result cl req_id s found)
  tell_last-Ends result cl req_id s (rc, none) a = a
  tell_last-Ends result cl req_id s (rc, some devmap) a =
      kept_either Ends (not (is_ok rc)) (first_failure result rc, s) _ a
        (kept_either Ends (length (devices.values devmap) == 1) _ (result, s)
          (on_client-Kept s req_id _ (client_queue_disconnect-Keeps p r _) a) a)

  tell_requester-Ends :
      (cl : ClientConn) (t : Status × State p r devices users)
      → Ends t
      → Ends (tell_requester p r devices users cl t)
  unfolding tell_requester
  tell_requester-Ends cl (result, s) a =
      kept_case Ends cl.authorized _ _
        (kept_option Ends cl.pending_device_link_conn _ _ a (λ req_id.
          kept_option Ends cl.pending_device_link_req _ _ a (λ req.
            tell_last-Ends result cl req_id s (get_devices devices users s.rt cl.ident.auth_id) a)))
        a

  without_conn-Kept :
      (s : State p r devices users) (cl : ClientConn) (sess : Option Session)
      → Kept s
      → Kept (without_conn p r devices users s cl sess)
  without_conn-Kept s cl none a = a
  without_conn-Kept s cl (some sess) a = a

  leave_session-Ends :
      (cl : ClientConn) (t : Status × State p r devices users)
      (rest : Status × State p r devices users → Status × State p r devices users)
      → ((t' : Status × State p r devices users) → Ends t' → Ends (rest t'))
      → Ends t
      → Ends (leave_session p r devices users cl t rest)
  unfolding leave_session
  leave_session-Ends cl (result, s) rest keeps a =
      let found = get_session devices users s.rt cl.ident.auth_id cl.ident.device_id in
      kept_case Ends cl.authorized _ (rest (result, s))
        (kept_case Ends (is_ok found.0) (rest (result, without_conn p r devices users s cl found.1))
          (found.0, s) (keeps _ (without_conn-Kept s cl found.1 a)) a)
        (keeps (result, s) a)

  release-Ends :
      (cl : ClientConn) (released : Released) (t : Status × State p r devices users)
      → Ends t
      → Ends (release p r devices users cl released t)
  unfolding release
  release-Ends cl released (result, s) a = a

  pub close_client-Kept :
      (s : State p r devices users) (cl : ClientConn) (released : Released)
      → Kept s
      → Ends (close_client p r devices users s cl released)
  unfolding close_client cancel_link
  close_client-Kept s cl released a =
      let t = cancel_link p r devices users s cl in
      let h : Ends t =
        kept_either Ends (waits_for_device_link_response cl.state)
          (queue_request_cancellation p r devices users s cl) (ok, s)
          (queue_request_cancellation-Done p r devices users s cl a) a in
      leave_session-Ends cl _ (release p r devices users cl released) (release-Ends cl released) (
        tell_requester-Ends cl (unlinked p r devices users cl t)
          (unlink_client-AllAdmitted cl.conn.id t.1.clients h))

  pub client_adopt_fd-Kept :
      (s : State p r devices users) (client_id client_fd : ℕ) (tls_rc : Status)
      (released : Released)
      → Kept s
      → Ends (client_adopt_fd p r devices users s client_id client_fd tls_rc released)
  unfolding client_adopt_fd
  client_adopt_fd-Kept s client_id client_fd tls_rc released a =
      kept_either Ends (not (p.alloc client_conn_size)) (nomem, s) _ a
        (kept_either Ends (not (is_ok tls_rc)) _ _
          (close_client-Kept linked cl released linked-Kept)
          (kept_case Ends (is_ok answer.0) _ _ watched-Kept
            (close_client-Kept _ cl released watched-Kept)))
    where
      cl : ClientConn
      cl = fresh p r devices users client_id client_fd

      fresh-Admitted : (src : Source) → Admitted (record cl { reactor_source = src })
      fresh-Admitted src = record { opened = λ e. cc; paired = refl }

      linked : State p r devices users
      linked = record s { clients = link_client cl s.clients }

      linked-Kept : Kept linked
      linked-Kept = (fresh-Admitted cl.reactor_source, a)

      answer : Status × Source × p.World
      answer = reactor_add p.epoll_ctl s.world r cl.reactor_source

      watched-Kept : AllAdmitted (link_client (record cl { reactor_source = answer.1 }) s.clients)
      watched-Kept = (fresh-Admitted answer.1, a)
