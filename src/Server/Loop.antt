-- ===== src/Server/Loop.antt =====
-- The events of the server: server_drive_client_read in faith-server/src/server/client_io.c, and
-- handle_client_event, begin_shutdown and the rounds of server_loop in faith-server/src/server/server.c.
use faith.Common.{
  ℕ, List, [], ◌∷◌, Bool, true, false, not, ◌&&◌, ◌||◌, Option, none, some, ltb, if◌then◌else◌,
  text, bit_or,
}
use faith.Proto.Status.{Status}
use faith.Proto.Codec.Encode.{is_null}
use faith.Proto.Frame.{Frame, zeroed_frame}
use faith.Server.Steps.{is_ok}
use faith.Server.HashMap.{HashMap}
use faith.Server.SessRegistry.{Session}
use faith.Server.Reactor.{
  Reactor, Source, EventData, source_client, source_listener, has, reactor_readable,
  reactor_writable, reactor_closed, reactor_error, reactor_modify_interests,
}
use faith.Server.Platform.{Platform}
use faith.Server.Transport.{Queue}
use faith.Server.Conn.{TlsWrite, output_empty}
use faith.Server.FrameReader.{
  TlsRead, TransportResult, complete, got_bytes, want_read, want_write, closed, error,
  try_full_read, buffer_of,
}
use faith.Server.Client.{ClientConn, ClientState, client_handshake, client_closing}
use faith.Server.ClientIo.{
  client_queue_disconnect, disconnect_message, disconnect_bad_protocol,
  disconnect_temporary_failure, disconnect_internal_error, disconnect_server_shutdown,
  reconnect_allowed, reconnect_forbidden,
}
use faith.Server.ClientIo.Drive.{TlsAccept, flush_client_output, drive_tls_handshake}
use faith.Server.State.{get_client, put_client, on_client}
use faith.Server.Events.{State}
use faith.Server.Lifecycle.{Released, close_client}
use faith.Server.Dispatch.{dispatch_frame}

-- What the socket of a client and OpenSSL answer while one event is handled.
pub record Socket : Type 0 where
  pub reads : List TlsRead
  pub writes : List TlsWrite
  pub accept : TlsAccept
  pub pending_before : ℕ
  pub pending_after : ℕ
  pub released : Released

abbrev pub frame_not_handled : List ℕ
frame_not_handled = text "Server failed to properly handle client frame."

abbrev pub closed_while_reading : List ℕ
closed_while_reading = text "Connection closed while reading incomplete frame."

abbrev pub frame_not_read : List ℕ
frame_not_read = text "Server failed to read client frame."

abbrev pub mask_not_modified : List ℕ
mask_not_modified = text "Failed to modify client event mask."

-- `cl->conn.out.buf && cl->conn.out.off < cl->conn.out.size`
abbrev pub has_output : Queue → Bool
has_output out = not (is_null (buffer_of out)) && ltb out.off out.size

module _ (p : Platform) (r : Reactor) (devices : HashMap (List ℕ) Session)
    (users : HashMap (List ℕ) devices.Map) where
  -- Whether the client may stay, and the state: 0 and -1 of the code.
  abbrev pub Driven : Type 0
  Driven = Bool × State p r devices users

  abbrev pub disconnected : ℕ → ℕ → List ℕ → State p r devices users → Driven
  disconnected id reason message s = (
    false,
    (on_client s id (λ task.
        client_queue_disconnect p r task (disconnect_message reason reconnect_allowed message))).1,
  )

  abbrev pub modified_mask :
      State p r devices users → ClientConn → Status × Source × p.World → Driven
  modified_mask s cl (rc, src, w) =
      let s' : State p r devices users = record s {
        clients = put_client (record cl { reactor_source = src }) s.clients;
        world = w;
      } in
      elim (is_ok rc) [
        | true ↦ (true, s')
        | false ↦ disconnected cl.conn.id disconnect_internal_error mask_not_modified s'
      ]

  -- READABLE, and WRITABLE while output waits.
  abbrev pub keep_reading : State p r devices users → Option ClientConn → Driven
  keep_reading s none = (false, s)
  keep_reading s (some cl) =
      let interests = bit_or cl.reactor_source.interests reactor_readable in
      modified_mask s cl (
        reactor_modify_interests p.epoll_ctl s.world r cl.reactor_source
          (if has_output cl.conn.out then bit_or interests reactor_writable else interests))

  abbrev pub still_open : State p r devices users → Option ClientConn → Driven
  still_open s none = (false, s)
  still_open s (some cl) = elim cl.closing [ true ↦ (false, s) | false ↦ keep_reading s (some cl) ]

  abbrev pub dispatched : ℕ → Status × State p r devices users → Driven
  dispatched id (rc, s) = elim (is_ok rc) [
    | false ↦ disconnected id disconnect_bad_protocol frame_not_handled s
    | true ↦ still_open s (get_client id s.clients)
  ]

  -- The switch over the result of frame_try_full_read.
  abbrev pub after_read : State p r devices users → ℕ → TransportResult → Frame → Driven
  after_read s id complete frame = dispatched id (dispatch_frame p r devices users s id frame)
  after_read s id want_read frame = keep_reading s (get_client id s.clients)
  after_read s id closed frame = disconnected id disconnect_temporary_failure closed_while_reading s
  after_read s id got_bytes frame = disconnected id disconnect_bad_protocol frame_not_read s
  after_read s id want_write frame = disconnected id disconnect_bad_protocol frame_not_read s
  after_read s id error frame = disconnected id disconnect_bad_protocol frame_not_read s

  abbrev pub put_in : ClientConn → Queue → ClientConn
  put_in cl in_queue = record cl { conn = record cl.conn { in_queue = in_queue } }

  unfoldable pub drive_client_read : State p r devices users → ClientConn → List TlsRead → Driven
  drive_client_read s cl reads =
      let full = try_full_read p.alloc p.junk cl.conn.in_queue zeroed_frame reads in
      let s' : State p r devices users = record s {
        clients = put_client (put_in cl full.queue) s.clients;
      } in
      elim cl.closing [
        | true ↦ (false, s)
        | false ↦ after_read s' cl.conn.id full.result full.frame
      ]

  -- A status as `dead` reads it.
  abbrev pub alive : Status × State p r devices users → Driven
  alive (rc, s) = (is_ok rc, s)

  abbrev pub flush : State p r devices users → ℕ → Socket → Driven
  flush s id socket = alive (on_client s id (λ task. flush_client_output p r task socket.writes))

  -- `if (!dead && !cl->closing && (events & REACTOR_WRITABLE))`
  abbrev pub then_flush : ℕ → ℕ → Socket → Driven → Driven
  then_flush id events socket (false, s) = (false, s)
  then_flush id events socket (true, s) = elim (get_client id s.clients) [
    | none ↦ (true, s)
    | some cl ↦ elim (not cl.closing && has events reactor_writable) [
      | true ↦ flush s id socket
      | false ↦ (true, s)
    ]
  ]

  abbrev pub serve : State p r devices users → ClientConn → ℕ → Socket → Driven
  serve s cl events socket =
      then_flush cl.conn.id events socket
        (if has events reactor_readable then drive_client_read s cl socket.reads else (true, s))

  abbrev pub reads_or_writes : ℕ → Bool
  reads_or_writes events = has events (bit_or reactor_readable reactor_writable)

  abbrev pub by_state : State p r devices users → ClientConn → ClientState → ℕ → Socket → Driven
  by_state s cl client_handshake events socket =
      if reads_or_writes events
      then alive (on_client s cl.conn.id (λ task. drive_tls_handshake p r task socket.accept))
      else (true, s)
  by_state s cl client_closing events socket = (true, s)
  by_state s cl state events socket = serve s cl events socket

  abbrev pub close : ClientConn → Socket → State p r devices users → State p r devices users
  close cl socket s = (close_client p r devices users s cl socket.released).1

  -- What is left to do once the event was served.
  abbrev pub ended : Socket → ℕ → Driven → State p r devices users
  ended socket id (stays, s) = elim (get_client id s.clients) [
    | none ↦ s
    | some cl ↦
        if not stays || cl.closing
        then close cl socket s
        else if cl.close_after_flush && output_empty socket.pending_after cl.conn.out
        then close cl socket s
        else s
  ]

  unfoldable pub handle_client_event :
      State p r devices users → ClientConn → ℕ → Bool → Socket → State p r devices users
  handle_client_event s cl events shutting_down socket =
      if has events (bit_or reactor_closed reactor_error)
      then close cl socket s
      else if cl.closing
      then close cl socket s
      else if shutting_down || cl.close_after_flush
      then (if output_empty socket.pending_before cl.conn.out
          then close cl socket s
          else ended socket cl.conn.id
              (if reads_or_writes events then flush s cl.conn.id socket else (true, s)))
      else ended socket cl.conn.id (by_state s cl cl.state events socket)

  -- The clients of the list as it stands at the call; the loop reads `next` before it.
  unfoldable pub begin_shutdown :
      List ClientConn → State p r devices users → State p r devices users
  begin_shutdown [] s = s
  begin_shutdown (cl ∷ cls) s =
      begin_shutdown cls
        (on_client s cl.conn.id (λ task. client_queue_disconnect p r task (
          disconnect_message disconnect_server_shutdown reconnect_forbidden
            (text "The server has shut down")))).1

  -- The events of a round, each with what its socket answers; `accept_clients` takes the listener's.
  abbrev pub event_on :
      (State p r devices users → State p r devices users)
      → Bool
      → EventData
      → Socket
      → State p r devices users
      → State p r devices users
  event_on accept_clients shutting_down ev socket s = elim ev.src [
    | none ↦ s
    | some src ↦ elim src.kind [
      | source_listener ↦ if shutting_down then s else accept_clients s
      | source_client ↦ elim src.user_data [
        | none ↦ s
        | some id ↦ elim (get_client id s.clients) [
          | none ↦ s
          | some cl ↦ handle_client_event s cl ev.events shutting_down socket
        ]
      ]
    ]
  ]

  unfoldable pub handle_events :
      (State p r devices users → State p r devices users)
      → Bool
      → List (EventData × Socket)
      → State p r devices users
      → State p r devices users
  handle_events accept_clients shutting_down [] s = s
  handle_events accept_clients shutting_down ((ev, socket) ∷ rest) s =
      handle_events accept_clients shutting_down rest
        (event_on accept_clients shutting_down ev socket s)
