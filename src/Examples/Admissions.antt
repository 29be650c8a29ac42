-- ===== src/Examples/Admissions.antt =====
-- A server that adopts a connection and accepts its TLS handshake.
use faith.Common.{◌≡◌, refl, [], some, false, true}
use faith.Proto.Status.{ok}
use faith.Server.Admission.Reachable.{reachable-Admitted, starts, steps, adopts, serves}
use faith.Examples.Servers.{calm, a_reactor}
use faith.Examples.Registries.{devices, users}
use faith.Server.Lifecycle.{Released, client_adopt_fd, fresh}
use faith.Server.Client.{ClientConn, client_wait_for_hello, set_client_state}
use faith.Server.Loop.{Socket, handle_client_event}
use faith.Server.Admission.{Admitted}
use faith.Server.Events.{State}
use faith.Server.Reactor.{reactor_add, reactor_readable}
use faith.Server.ClientIo.Drive.{accepted, drive_tls_handshake}
use faith.Server.State.{get_client, on_client}

abbrev released : Released
released = record { tls_shutdown = ok; closes = true }

abbrev started : State calm a_reactor devices users
started = record { clients = []; rt = []; world = 0 }

abbrev adopted : State calm a_reactor devices users
adopted = (client_adopt_fd calm a_reactor devices users started 5 8 ok released).1

abbrev a_socket : Socket
a_socket = record {
  reads = [];
  writes = [];
  accept = accepted;
  pending_before = 0;
  pending_after = 0;
  released = released;
}

-- The client as it was adopted.
abbrev newcomer : ClientConn
newcomer = fresh calm a_reactor devices users 5 8

-- The client that is to greet.
abbrev greeting : ClientConn
greeting = record newcomer { state = client_wait_for_hello }

abbrev greeted : State calm a_reactor devices users
greeted =
    handle_client_event calm a_reactor devices users adopted newcomer reactor_readable false
      a_socket

newcomer_lem : get_client 5 adopted.clients ≡ some newcomer
unfolding client_adopt_fd reactor_add
newcomer_lem = refl

greeting_lem : get_client 5 greeted.clients ≡ some greeting
unfolding client_adopt_fd reactor_add handle_client_event drive_tls_handshake on_client
    set_client_state
greeting_lem = refl

reachable-Admitted_example : Admitted greeting
reachable-Admitted_example =
    reachable-Admitted calm a_reactor devices users greeted 5 greeting
      (steps (steps (starts [] 0) (adopts 5 8 ok released))
        (serves 5 newcomer reactor_readable false a_socket newcomer_lem))
      greeting_lem
