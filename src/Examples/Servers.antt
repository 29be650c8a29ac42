-- ===== src/Examples/Servers.antt =====
-- A platform on which everything is granted, and a client on it.
use faith.Common.{ℕ, ◌+◌, List, [], Bool, true, false, none, some, replicate}
use faith.Proto.Crypto.{matches}
use faith.Server.Platform.{Platform}
use faith.Server.Reactor.{Reactor, done, source_client, reactor_readable}
use faith.Server.Transport.{Queue, queue_output}
use faith.Server.Client.{ClientConn, ClientState}

-- The world counts the milliseconds.
abbrev pub calm : Platform
calm = record {
  World = ℕ;
  epoll_ctl = λ w op epfd fd mask. (done, w);
  rand_bytes = λ w n. ((true, replicate n 9), w);
  now_ms = λ w. (w, w + 1);
  digest_verify = λ k m s. matches;
  alloc = λ n. true;
  junk = 0;
}

abbrev pub a_reactor : Reactor
a_reactor = record { fd = some 3 }

abbrev pub an_account : List ℕ
an_account = replicate 16 1

abbrev pub a_device : List ℕ
a_device = replicate 16 2

abbrev pub a_key : List ℕ
a_key = replicate 32 3

abbrev pub no_bytes : Queue
no_bytes = record { buf = []; size = 0; cap = 0; off = 0; kind = queue_output }

abbrev pub client_in : ClientState → Bool → ClientConn
client_in state authorized = record {
  ident = record { auth_id = an_account; device_id = a_device; public_key = a_key };
  pending_auth_id = replicate 16 0;
  conn = record { id = 5; fd = some 8; in_queue = no_bytes; out = no_bytes };
  reactor_source = record {
    fd = some 8;
    interests = reactor_readable;
    kind = source_client;
    user_data = some 5;
  };
  state = state;
  temp_handshake_params = record {
    nonce = 4;
    server_nonce = 5;
    public_key = a_key;
    sender_auth_id = an_account;
    device_id = a_device;
  };
  pending_device_link_req = none;
  pending_device_link_conn = none;
  authorized = authorized;
  closing = false;
  close_after_flush = false;
}
