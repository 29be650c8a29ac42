-- ===== src/Server/Admission/Reachable.antt =====
-- The states that the server reaches from one without clients.
use faith.Common.{ℕ, List, [], ◌∷◌, Bool, true, not, ◌||◌, ◌&&◌, ◌≡◌, some, subst, bit_or}
use faith.Proto.Status.{Status}
use faith.Server.Client.{ClientConn}
use faith.Server.Conn.{output_empty}
use faith.Server.Events.{State}
use faith.Server.HashMap.{HashMap}
use faith.Server.Lifecycle.{Released, client_adopt_fd}
use faith.Server.Loop.{
  begin_shutdown, handle_client_event, Socket, Driven, close, ended, reads_or_writes, flush,
}
use faith.Server.Platform.{Platform}
use faith.Server.Reactor.{Reactor, has, reactor_closed, reactor_error}
use faith.Server.SessRegistry.{Session}
use faith.Server.State.{get_client}
use faith.Server.Admission.{Kept, Admitted, AdmittedIf, on_client-Kept, get_client-Admitted}
use faith.Server.Admission.Clients.{client_queue_disconnect-Keeps}
use faith.Server.Admission.Lifecycle.{close_client-Kept, client_adopt_fd-Kept}
use faith.Server.Admission.Loop.{flush-Drives, by_state-Drives}
use faith.Server.Guards.{kept_option, kept_either}

module _ (p : Platform) (r : Reactor) (devices : HashMap (List ℕ) Session)
    (users : HashMap (List ℕ) devices.Map) where
  abbrev Admits : State p r devices users → Type 0
  Admits s = Kept s

  ended-Kept :
      (socket : Socket) (id : ℕ) (d : Driven p r devices users)
      → Kept d.1
      → Kept (ended p r devices users socket id d)
  ended-Kept socket id (stays, s) a = kept_option Admits (get_client id s.clients) _ _ a (λ cl.
      kept_either Admits (not stays || cl.closing) (close p r devices users cl socket s) _
        (close_client-Kept p r devices users s cl socket.released a)
        (kept_either Admits (cl.close_after_flush && output_empty socket.pending_after cl.conn.out)
          (close p r devices users cl socket s) s
          (close_client-Kept p r devices users s cl socket.released a) a))

  handle_client_event-Kept :
      (s : State p r devices users) (cl : ClientConn) (events : ℕ) (shutting_down : Bool)
      (socket : Socket)
      → Kept s
      → Admitted cl
      → Kept (handle_client_event p r devices users s cl events shutting_down socket)
  unfolding handle_client_event
  handle_client_event-Kept s cl events shutting_down socket a h =
      let closed : State p r devices users = close p r devices users cl socket s in
      let closed-Kept : Kept closed = close_client-Kept p r devices users s cl socket.released a in
      kept_either Admits (has events (bit_or reactor_closed reactor_error)) closed _ closed-Kept (
        kept_either Admits cl.closing closed _ closed-Kept (
          kept_either Admits (shutting_down || cl.close_after_flush) _ _
            (kept_either Admits (output_empty socket.pending_before cl.conn.out) closed _
              closed-Kept
              (ended-Kept socket cl.conn.id _ (
                kept_either (λ (d : Driven p r devices users). Kept d.1)
                  (reads_or_writes p r devices users events)
                  (flush p r devices users s cl.conn.id socket) (true, s)
                  (flush-Drives p r devices users s cl.conn.id socket a) a)))
            (ended-Kept socket cl.conn.id _
              (by_state-Drives p r devices users s cl cl.state events socket a h))))

  begin_shutdown-Kept :
      (cls : List ClientConn) (s : State p r devices users)
      → Kept s
      → Kept (begin_shutdown p r devices users cls s)
  unfolding begin_shutdown
  begin_shutdown-Kept [] s a = a
  begin_shutdown-Kept (cl ∷ cls) s a =
      begin_shutdown-Kept cls _
        (on_client-Kept s cl.conn.id _ (client_queue_disconnect-Keeps p r _) a)

  -- What may happen next. Time passes, and other processes act on the world.
  pub data ServerStep : State p r devices users → State p r devices users → Type 0 where
    adopts :
        {s : State p r devices users} (client_id client_fd : ℕ) (tls_rc : Status)
        (released : Released)
        → ServerStep s (client_adopt_fd p r devices users s client_id client_fd tls_rc released).1
    serves :
        {s : State p r devices users} (id : ℕ) (cl : ClientConn) (events : ℕ) (shutting_down : Bool)
        (socket : Socket)
        → get_client id s.clients ≡ some cl
        → ServerStep s (handle_client_event p r devices users s cl events shutting_down socket)
    shuts_down :
        {s : State p r devices users} → ServerStep s (begin_shutdown p r devices users s.clients s)
    waits : {s : State p r devices users} (w : p.World) → ServerStep s (record s { world = w })

  pub data Reachable : State p r devices users → Type 0 where
    starts :
        (rt : users.Map) (w : p.World) → Reachable (record { clients = []; rt = rt; world = w })
    steps : {s s' : State p r devices users} → Reachable s → ServerStep s s' → Reachable s'

  step-Kept : {s s' : State p r devices users} → ServerStep s s' → Kept s → Kept s'
  step-Kept {s} (adopts client_id client_fd tls_rc released) a =
      client_adopt_fd-Kept p r devices users s client_id client_fd tls_rc released a
  step-Kept {s} (serves id cl events shutting_down socket e) a =
      handle_client_event-Kept s cl events shutting_down socket a
        (subst AdmittedIf e (get_client-Admitted id s.clients a))
  step-Kept {s} shuts_down a = begin_shutdown-Kept s.clients s a
  step-Kept (waits w) a = a

  reachable-Kept : {s : State p r devices users} → Reachable s → Kept s
  reachable-Kept (starts rt w) = tt
  reachable-Kept (steps reached step) = step-Kept step (reachable-Kept reached)

  -- In each state that the server reaches from one without clients, by adopting connections, handling the
  -- events of clients in its list and beginning its shutdown, while the world changes as it may between
  -- them: a client that is open is authorized, and a client has a pending device-link request if and only
  -- if it has the connection that made one.
  pub reachable-Admitted :
      (s : State p r devices users) (id : ℕ) (cl : ClientConn)
      → Reachable s
      → get_client id s.clients ≡ some cl
      → Admitted cl
  reachable-Admitted s id cl reached e =
      subst AdmittedIf e (get_client-Admitted id s.clients (reachable-Kept reached))
