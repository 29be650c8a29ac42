-- ===== src/Server/Admission/Loop.antt =====
-- The events of the server, and the states that they lead to from a server without clients.
use faith.Common.{ℕ, List, true, false, not, ◌&&◌, Option, none, some}
use faith.Proto.Frame.{Frame, zeroed_frame}
use faith.Proto.Status.{Status}
use faith.Server.Client.{
  ClientConn, ClientState, client_handshake, client_closing, client_open, client_wait_for_hello,
  client_wait_for_challenge_response, client_wait_for_device_link_response,
}
use faith.Server.ClientIo.{
  disconnect_bad_protocol, disconnect_internal_error, disconnect_temporary_failure,
}
use faith.Server.ClientIo.Drive.{flush_client_output, drive_tls_handshake}
use faith.Server.Dispatch.{dispatch_frame}
use faith.Server.Events.{State}
use faith.Server.FrameReader.{
  TransportResult, complete, got_bytes, want_read, want_write, error, TlsRead, try_full_read,
}
use faith.Server.HashMap.{HashMap}
use faith.Server.Loop.{
  still_open, Socket, drive_client_read, Driven, disconnected, then_flush, dispatched, flush, alive,
  keep_reading, serve, after_read, by_state, reads_or_writes, modified_mask, frame_not_handled,
  put_in, mask_not_modified, closed_while_reading, frame_not_read,
}
use faith.Server.Platform.{Platform}
use faith.Server.Reactor.{Reactor, Source, has, reactor_writable, reactor_readable}
use faith.Server.SessRegistry.{Session}
use faith.Server.State.{on_client, get_client, put_client}
use faith.Server.Steps.{is_ok}
use faith.Server.Admission.{
  Kept, Admitted, AdmittedIf, on_client-Kept, get_client-Admitted, put_client-Admitted,
}
use faith.Server.Admission.Clients.{client_queue_disconnect-Keeps}
use faith.Server.Admission.Commands.{dispatch_frame-Done}
use faith.Server.Guards.{kept_case, kept_option, kept_either}
use faith.Server.Admission.Sockets.{flush_client_output-Keeps, drive_tls_handshake-Keeps}

module _ (p : Platform) (r : Reactor) (devices : HashMap (List ℕ) Session)
    (users : HashMap (List ℕ) devices.Map) where
  abbrev Drives : Driven p r devices users → Type 0
  Drives d = Kept d.1

  disconnected-Drives :
      (id reason : ℕ) (message : List ℕ) (s : State p r devices users)
      → Kept s
      → Drives (disconnected p r devices users id reason message s)
  disconnected-Drives id reason message s a =
      on_client-Kept s id _ (client_queue_disconnect-Keeps p r _) a

  modified_mask-Drives :
      (s : State p r devices users) (cl : ClientConn) (answer : Status × Source × p.World)
      → Kept s
      → Admitted cl
      → Drives (modified_mask p r devices users s cl answer)
  modified_mask-Drives s cl (rc, src, w) a h =
      kept_case Drives (is_ok rc) (true, s') _ s'-Kept
        (disconnected-Drives cl.conn.id disconnect_internal_error mask_not_modified s' s'-Kept)
    where
      s' : State p r devices users
      s' = record s {
        clients = put_client (record cl { reactor_source = src }) s.clients;
        world = w;
      }

      s'-Kept : Kept s'
      s'-Kept =
          put_client-Admitted (record cl { reactor_source = src }) s.clients
            (record { opened = h.opened; paired = h.paired }) a

  keep_reading-Drives :
      (s : State p r devices users) (o : Option ClientConn)
      → Kept s
      → AdmittedIf o
      → Drives (keep_reading p r devices users s o)
  keep_reading-Drives s none a h = a
  keep_reading-Drives s (some cl) a h = modified_mask-Drives s cl _ a h

  still_open-Drives :
      (s : State p r devices users) (o : Option ClientConn)
      → Kept s
      → AdmittedIf o
      → Drives (still_open p r devices users s o)
  still_open-Drives s none a h = a
  still_open-Drives s (some cl) a h =
      kept_case Drives cl.closing (false, s) _ a (keep_reading-Drives s (some cl) a h)

  dispatched-Drives :
      (id : ℕ) (t : Status × State p r devices users)
      → Kept t.1
      → Drives (dispatched p r devices users id t)
  dispatched-Drives id (rc, s) a =
      kept_case Drives (is_ok rc) _ _
        (still_open-Drives s (get_client id s.clients) a (get_client-Admitted id s.clients a))
        (disconnected-Drives id disconnect_bad_protocol frame_not_handled s a)

  after_read-Drives :
      (s : State p r devices users) (id : ℕ) (result : TransportResult) (frame : Frame)
      → Kept s
      → Drives (after_read p r devices users s id result frame)
  after_read-Drives s id complete frame a =
      dispatched-Drives id (dispatch_frame p r devices users s id frame)
        (dispatch_frame-Done p r devices users s id frame a)
  after_read-Drives s id want_read frame a =
      keep_reading-Drives s (get_client id s.clients) a (get_client-Admitted id s.clients a)
  after_read-Drives s id TransportResult.closed frame a =
      disconnected-Drives id disconnect_temporary_failure closed_while_reading s a
  after_read-Drives s id got_bytes frame a =
      disconnected-Drives id disconnect_bad_protocol frame_not_read s a
  after_read-Drives s id want_write frame a =
      disconnected-Drives id disconnect_bad_protocol frame_not_read s a
  after_read-Drives s id error frame a =
      disconnected-Drives id disconnect_bad_protocol frame_not_read s a

  drive_client_read-Drives :
      (s : State p r devices users) (cl : ClientConn) (reads : List TlsRead)
      → Kept s
      → Admitted cl
      → Drives (drive_client_read p r devices users s cl reads)
  unfolding drive_client_read
  drive_client_read-Drives s cl reads a h =
      let full = try_full_read p.alloc p.junk cl.conn.in_queue zeroed_frame reads in
      kept_case Drives cl.closing (false, s) _ a
        (after_read-Drives _ cl.conn.id full.result full.frame (
          put_client-Admitted (put_in p r devices users cl full.queue) s.clients
            (record { opened = h.opened; paired = h.paired }) a))

  alive-Drives :
      (t : Status × State p r devices users) → Kept t.1 → Drives (alive p r devices users t)
  alive-Drives (rc, s) a = a

  pub flush-Drives :
      (s : State p r devices users) (id : ℕ) (socket : Socket)
      → Kept s
      → Drives (flush p r devices users s id socket)
  flush-Drives s id socket a =
      alive-Drives (on_client s id (λ task. flush_client_output p r task socket.writes))
        (on_client-Kept s id _ (flush_client_output-Keeps p r socket.writes) a)

  then_flush-Drives :
      (id events : ℕ) (socket : Socket) (d : Driven p r devices users)
      → Drives d
      → Drives (then_flush p r devices users id events socket d)
  then_flush-Drives id events socket (false, s) a = a
  then_flush-Drives id events socket (true, s) a =
      kept_option Drives (get_client id s.clients) _ _ a (λ cl.
        kept_case Drives (not cl.closing && has events reactor_writable) _ (true, s)
          (flush-Drives s id socket a) a)

  serve-Drives :
      (s : State p r devices users) (cl : ClientConn) (events : ℕ) (socket : Socket)
      → Kept s
      → Admitted cl
      → Drives (serve p r devices users s cl events socket)
  serve-Drives s cl events socket a h = then_flush-Drives cl.conn.id events socket _ (
      kept_either Drives (has events reactor_readable) _ (true, s)
        (drive_client_read-Drives s cl socket.reads a h) a)

  pub by_state-Drives :
      (s : State p r devices users) (cl : ClientConn) (state : ClientState) (events : ℕ)
      (socket : Socket)
      → Kept s
      → Admitted cl
      → Drives (by_state p r devices users s cl state events socket)
  by_state-Drives s cl client_handshake events socket a h =
      kept_either Drives (reads_or_writes p r devices users events) _ (true, s)
        (alive-Drives (on_client s cl.conn.id (λ task. drive_tls_handshake p r task socket.accept))
          (on_client-Kept s cl.conn.id _ (drive_tls_handshake-Keeps p r socket.accept) a))
        a
  by_state-Drives s cl client_closing events socket a h = a
  by_state-Drives s cl client_open events socket a h = serve-Drives s cl events socket a h
  by_state-Drives s cl client_wait_for_hello events socket a h = serve-Drives s cl events socket a h
  by_state-Drives s cl client_wait_for_challenge_response events socket a h =
      serve-Drives s cl events socket a h
  by_state-Drives s cl client_wait_for_device_link_response events socket a h =
      serve-Drives s cl events socket a h
