-- ===== src/Server/Lifecycle.antt =====
-- The beginning and the end of a connection: server_client_adopt_fd and server_close_client in
-- faith-server/src/server/client_lifecycle.c.
use faith.Common.{
  ℕ, List, [], ◌∷◌, Bool, true, false, not, Option, none, some, ◌==◌, if◌then◌else◌, length, text,
  replicate,
}
use faith.Proto.Status.{Status, ok, io, nomem}
use faith.Server.Steps.{is_ok}
use faith.Server.HashMap.{HashMap}
use faith.Server.SessRegistry.{Session, get_session, get_devices}
use faith.Server.Reactor.{
  Reactor, Source, reactor_remove, reactor_readable, reactor_add, source_client,
}
use faith.Server.Platform.{Platform}
use faith.Server.Client.{HandshakeParams, client_handshake}
use faith.Server.Transport.{queue_output, Queue, queue_free, queue_input}
use faith.Server.Client.{ClientConn}
use faith.Server.ClientIo.{
  client_queue_disconnect, disconnect_message, disconnect_temporary_failure, reconnect_allowed,
}
use faith.Server.State.{on_client, put_session}
use faith.Server.Events.{State}
use faith.Server.DeviceLink.{waits_for_device_link_response}
use faith.Server.DeviceLink.Cancel.{queue_request_cancellation}

-- server_unlink_client, on the list that the pointers make
unfoldable pub unlink_client : ℕ → List ClientConn → List ClientConn
unlink_client id [] = []
unlink_client id (cl ∷ cls) = if cl.conn.id == id then cls else cl ∷ unlink_client id cls

-- server_link_client
abbrev pub link_client : ClientConn → List ClientConn → List ClientConn
link_client cl cls = cl ∷ cls

-- The first failure is kept, or the last one.
abbrev pub first_failure : Status → Status → Status
first_failure result rc = if is_ok result then rc else result

abbrev pub last_failure : Status → Status → Status
last_failure result rc = if is_ok rc then result else rc

abbrev pub all_disconnected : List ℕ
all_disconnected =
    text "All authorized devices of the account you are trying to link to have disconnected."

-- sizeof(client_conn_t)
abbrev pub client_conn_size : ℕ
client_conn_size = 456

abbrev pub empty_in : Queue
empty_in = record { buf = []; size = 0; cap = 0; off = 0; kind = queue_input }

abbrev pub empty_out : Queue
empty_out = record { buf = []; size = 0; cap = 0; off = 0; kind = queue_output }

abbrev pub zeroed_params : HandshakeParams
zeroed_params = record {
  nonce = 0;
  server_nonce = 0;
  public_key = replicate 32 0;
  sender_auth_id = replicate 16 0;
  device_id = replicate 16 0;
}

-- How the calls that release a connection end: tls_shutdown, and close.
pub record Released : Type 0 where
  pub tls_shutdown : Status
  pub closes : Bool

module _ (p : Platform) (r : Reactor) (devices : HashMap (List ℕ) Session)
    (users : HashMap (List ℕ) devices.Map) where
  abbrev pub Closing : Type 0
  Closing = Status × State p r devices users

  unfoldable pub cancel_link : State p r devices users → ClientConn → Closing
  cancel_link s cl =
      if waits_for_device_link_response cl.state
      then queue_request_cancellation p r devices users s cl
      else (ok, s)

  abbrev pub told : Status → Closing → Closing
  told result (rc, s) = (first_failure result rc, s)

  -- The connection that waits for this device, if it is the last of the account.
  abbrev pub tell_last :
      Status → ClientConn → ℕ → State p r devices users → Status × Option devices.Map → Closing
  tell_last result cl req_id s (rc, none) = (first_failure result rc, s)
  tell_last result cl req_id s (rc, some devmap) =
      let told_all = told result (
        on_client s req_id (λ task.
          client_queue_disconnect p r task (
            disconnect_message disconnect_temporary_failure reconnect_allowed all_disconnected))) in
      if not (is_ok rc)
      then (first_failure result rc, s)
      else if length (devices.values devmap) == 1
      then told_all
      else (result, s)

  unfoldable pub tell_requester : ClientConn → Closing → Closing
  tell_requester cl (result, s) = elim cl.authorized [
    | false ↦ (result, s)
    | true ↦ elim cl.pending_device_link_conn [
      | none ↦ (result, s)
      | some req_id ↦ elim cl.pending_device_link_req [
        | none ↦ (result, s)
        | some req ↦ tell_last result cl req_id s (get_devices devices users s.rt cl.ident.auth_id)
      ]
    ]
  ]

  -- `sess->conn = NULL;`
  abbrev pub without_conn :
      State p r devices users → ClientConn → Option Session → State p r devices users
  without_conn s cl none = s
  without_conn s cl (some sess) = record s {
    rt =
        put_session devices users s.rt cl.ident.auth_id cl.ident.device_id
          (record sess { conn = none });
  }

  unfoldable pub leave_session : ClientConn → Closing → (Closing → Closing) → Closing
  leave_session cl (result, s) rest =
      let (rc, sess) = get_session devices users s.rt cl.ident.auth_id cl.ident.device_id in
      elim cl.authorized [
        | false ↦ rest (result, s)
        | true ↦ elim (is_ok rc) [ true ↦ rest (result, without_conn s cl sess) | false ↦ (rc, s) ]
      ]

  abbrev pub removed : Status → State p r devices users → Status × Source × p.World → Closing
  removed result s (rc, src, w) = (last_failure result rc, record s { world = w })

  abbrev pub closed_fd : ClientConn → Released → Status → Status
  closed_fd cl released result = elim cl.conn.fd [
    | none ↦ result
    | some fd ↦ if released.closes then result else first_failure result io
  ]

  -- The reactor, TLS, the descriptor, both queues.
  unfoldable pub release : ClientConn → Released → Closing → Closing
  release cl released (result, s) =
      let (rc, s') = removed result s (reactor_remove p.epoll_ctl s.world r cl.reactor_source) in
      let rc_tls = last_failure rc released.tls_shutdown in
      let rc_fd = closed_fd cl released rc_tls in
      let rc_out = last_failure rc_fd (queue_free (some cl.conn.out)).0 in
      (last_failure rc_out (queue_free (some cl.conn.in_queue)).0, s')

  -- The client is taken from the list after the requests to other devices are cancelled.
  abbrev pub unlinked : ClientConn → Closing → Closing
  unlinked cl (rc, s) = (rc, record s { clients = unlink_client cl.conn.id s.clients })

  unfoldable pub close_client : State p r devices users → ClientConn → Released → Closing
  close_client s cl released =
      leave_session cl (tell_requester cl (unlinked cl (cancel_link s cl))) (release cl released)

  -- The new client, in the order of the calls: conn_init, the number, the source.
  abbrev pub fresh : ℕ → ℕ → ClientConn
  fresh client_id client_fd = record {
    ident = record {
      auth_id = replicate 16 0;
      device_id = replicate 16 0;
      public_key = replicate 32 0;
    };
    pending_auth_id = replicate 16 0;
    conn = record { id = client_id; fd = some client_fd; in_queue = empty_in; out = empty_out };
    reactor_source = record {
      fd = some client_fd;
      interests = reactor_readable;
      kind = source_client;
      user_data = some client_id;
    };
    state = client_handshake;
    temp_handshake_params = zeroed_params;
    pending_device_link_req = none;
    pending_device_link_conn = none;
    authorized = false;
    closing = false;
    close_after_flush = false;
  }

  abbrev pub adopted :
      ClientConn → Released → State p r devices users → Status × Source × p.World → Closing
  adopted cl released s (rc, src, w) =
      let linked : State p r devices users = record s {
        clients = link_client (record cl { reactor_source = src }) s.clients;
        world = w;
      } in
      elim (is_ok rc) [ true ↦ (ok, linked) | false ↦ (rc, (close_client linked cl released).1) ]

  -- `client_id` is what atomic_fetch_add answers, `tls_rc` what tls_new_with_fd does. A failure closes the
  -- client again.
  unfoldable pub client_adopt_fd : State p r devices users → ℕ → ℕ → Status → Released → Closing
  client_adopt_fd s client_id client_fd tls_rc released =
      let cl = fresh client_id client_fd in
      let linked : State p r devices users = record s { clients = link_client cl s.clients } in
      if not (p.alloc client_conn_size)
      then (nomem, s)
      else if not (is_ok tls_rc)
      then (tls_rc, (close_client linked cl released).1)
      else adopted cl released s (reactor_add p.epoll_ctl s.world r cl.reactor_source)
