-- ===== src/Lib.antt =====
-- A verification of faith, a messenger of a server and clients that speak a binary protocol over TLS.
--
-- The parts. A client and the server exchange frames (faith-proto). A frame carries a ping, a pong or
-- an envelope, and an envelope a body: authentication, commands, events. The server (faith-server)
-- reads TLS bytes into a queue of the connection, takes frames from its front, and sends events to
-- devices, whose inboxes hold the events that are not acknowledged yet.
--
-- Where each part is modelled.
--   Common             shared names, tests and lists over the native numbers, laws of bits
--   Proto/Status       faith_status_code_t, faith-proto/include/faith-proto/core/core.h
--   Proto/Codec        the coding macros of faith-proto/include/faith-proto/codec/helpers.h and the
--                      byte-order functions of faith-proto/src/codec/helpers.c. Codec/Steps is a
--                      sequence of statements with early return, Codec/Encode and Codec/Decode have a
--                      definition for each macro; below them are the rules by which an encoder is
--                      shown to write a layout and a decoder to read it
--   Proto/Frame        faith_encode_frame, faith_decode_frame, faith_free_frame in
--                      faith-proto/src/codec/codec.c
--   Proto/Envelope     faith_encode_envelope, faith_decode_envelope, ibid.
--   Proto/Msg          ping and pong, ibid.
--   Proto/Auth         device linking, hello and challenge, ibid., and faith-proto/src/codec/auth.c
--   Proto/Commands     commands and results, ibid., and faith-proto/src/codec/commands.c
--   Proto/Events       events and acknowledgements, ibid., and faith-proto/src/codec/events.c;
--                      Events/Batch is a batch of events and how many fit in one
--   Proto/Disconnect   the body by which the server takes leave, ibid.
--   Proto/Signatures   the signed buffers, faith-proto/src/codec/signatures.c
--   Proto/Core         versions and ids, faith-proto/src/core/core.c
--   Server/EventInbox  faith-server/src/delivery/event_inbox.c
--   Server/Transport   the queues of faith-server/src/transport/conn.c, and how
--                      faith-server/src/transport/frame.c takes a frame from one
--   Server/FrameReader the reading of a frame: conn_read_more_ssl_bytes in
--                      faith-server/src/transport/conn.c, frame_try_full_read and
--                      frame_try_parse_from_buffer in faith-server/src/transport/frame.c, over the
--                      answers of tls_read in faith-server/src/transport/tls.c
--   Server/SessRegistry
--                      faith-server/src/server/sess_registry.c; its hash maps, which are calls of
--                      stb_ds.h, are a parameter with the laws of Server/HashMap
--   Proto/Crypto       faith-proto/src/core/crypto.c; what OpenSSL answers is an argument
--   Proto/Core/Names, Proto/Envelope/Types
--                      the names of codes and the kinds of envelopes, faith-proto/include/faith-proto
--   Server/Reactor     faith-server/src/reactor/reactor.c over epoll_ctl
--   Server/Conn        faith-server/src/transport/conn.c: a connection's two queues and its output,
--                      over the answers of SSL_write
--   Server/Platform    what the server calls outside of src/: epoll_ctl, malloc, random bytes, the clock
--   Server/Client      client_conn_t, faith-server/src/server/server.h
--   Server/Steps       a call with a status and `_FH_CHECK_RETURN`
--   Server/ClientIo    faith-server/src/server/client_io.c: frames, envelopes and the farewell of a client
--                      in its output queue; ClientIo/Drive flushes it and drives the TLS handshake
--   Server/State       server_state_t: the list of clients, the registry, and what lies outside
--   Server/Events      faith-server/src/delivery/events.c
--   Server/Devices     _FH_FOR_EACH_AUTH_DEVICE_CONNECTION, faith-server/src/auth/helpers.h
--   Server/Routing     faith-server/src/delivery/routing.c
--   Server/Handshake   faith-server/src/auth/handshake.c; Handshake/Verdict is the verdict on a challenge
--                      response, Handshake/Response the handler
--   Server/DeviceLink  faith-server/src/auth/device_link.c; DeviceLink/Cancel and DeviceLink/Response are
--                      the cancellation and the answer of the account's devices
--   Server/Commands    faith-server/src/commands
--   Server/Dispatch    faith-server/src/server/dispatch.c
--   Server/Lifecycle   faith-server/src/server/client_lifecycle.c
--   Server/Guards      how a predicate of the state goes through guards and early returns
--   Server/Admission   an invariant of the clients through every operation of the server, and the states
--                      that the server reaches
--   Server/Loop        the events of a client and the rounds of server_loop,
--                      faith-server/src/server/server.c
--   Examples           each theorem at concrete values
--
-- How the server's parts interact. The state is a list of clients, a registry of sessions and a world.
-- Loop takes an event of the reactor to a client, reads a frame with FrameReader and hands it to
-- Dispatch, which decodes it and calls Handshake, DeviceLink, Routing, Commands or Events. These answer
-- through ClientIo, which encodes with Proto, queues with Transport and asks Reactor for writability.
-- Handshake and Lifecycle change the registry; Events changes the inboxes in it.
--
-- Conventions. A byte is a number and a buffer the list of its cells; sizes are native numbers,
-- with `% 2 ^ 32` where the code's sum or cast has 32 bits. A pointer is an Option, null is
-- `none`. An encoder is an envelope size and a body between FAITH_ENCODE_PROLOGUE and
-- FAITH_ENCODE_EPILOGUE; it gives the status, the cells and `*out_size`. A decoder gives the
-- status and `*out`. `alloc` says which sizes malloc grants. What SSL_read answers is a list, at
-- whose end nothing is to be read. A type that C calls `type` is the field `kind`, and the
-- event's `data` the field `payload`. A pointer to a client is the client's number, and a write through
-- it changes the client of that number in the list. An operation on one client takes the client and the
-- world; calls of the system change the world and answer from it.
--
-- Bounds. The loop in conn_queue_enqueue_bytes has fuel for 20 rounds, since twenty doublings lead
-- from any capacity above 0 to the limit of 2^20 bytes. A farewell that fails to ask for writability
-- starts another farewell; the rounds are as many as the output queue has room for, and
-- ClientIo/Rounds compares them with the code's recursion. The loop over pending events has a round
-- for each event of the inbox, as it takes at least one in each (Events/Pending).
--
-- Not modelled: log output; OpenSSL, libpq, epoll and sockets, whose answers are parameters;
-- the setting up of TLS and of the server, its listening socket, signals and the deadline of its
-- shutdown; the generation and storage of keys; the database; the client and its interface.
pub mod Common
pub mod Proto
pub mod Server
pub mod Examples
