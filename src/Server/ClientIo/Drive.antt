-- ===== src/Server/ClientIo/Drive.antt =====
-- What an event of a client's socket leads to: server_flush_client_output and
-- server_drive_tls_handshake in faith-server/src/server/client_io.c.
use faith.Common.{ℕ, List, true, false, ◌==◌, bit_or}
use faith.Proto.Status.{Status, ok, invalid, io}
use faith.Server.Steps.{and_then}
use faith.Server.Reactor.{
  Reactor, Source, reactor_readable, reactor_writable, reactor_modify_interests,
}
use faith.Server.Conn.{TlsWrite, flush_output}
use faith.Server.FrameReader.{TransportResult, complete, got_bytes, want_read, want_write, error}
use faith.Server.Platform.{Platform}
use faith.Server.Client.{ClientConn, put_out, set_client_state, client_wait_for_hello}
use faith.Server.ClientIo.{Task}

-- tls_accept: INT_MAX without a TLS state, else what SSL_get_error answers.
pub data TlsAccept : Type 0 where
  accept_no_ssl accepted accept_wants_read accept_wants_write accept_failed : TlsAccept

module _ (p : Platform) (r : Reactor) where
  abbrev pub with_source : ClientConn → Status × Source × p.World → Status × Task p r
  with_source cl (rc, src, w) = (rc, (record cl { reactor_source = src }, w))

  -- `if (desired_interests == cl->reactor_source.interests) return FAITH_OK;`, else the change.
  abbrev pub desire : ℕ → Task p r → Status × Task p r
  desire desired_interests (cl, w) = elim (desired_interests == cl.reactor_source.interests) [
    | true ↦ (ok, (cl, w))
    | false ↦
        with_source cl
          (reactor_modify_interests p.epoll_ctl w r cl.reactor_source desired_interests)
  ]

  -- The switch over the result of a flush.
  abbrev pub after_flush : TransportResult → Task p r → Status × Task p r
  after_flush want_read task = desire reactor_readable task
  after_flush want_write task = desire (bit_or reactor_readable reactor_writable) task
  after_flush complete task = desire reactor_readable task
  after_flush TransportResult.closed task = (Status.closed, task)
  after_flush error task = (io, task)
  after_flush got_bytes task = (invalid, task)

  -- The bytes that went over the wire are those of `flush_output`.
  unfoldable pub flush_client_output : Task p r → List TlsWrite → Status × Task p r
  flush_client_output (cl, w) writes =
      let f = flush_output complete cl.conn.out writes in
      and_then (f.status, (put_out cl f.out, w)) (after_flush f.res)

  unfoldable pub drive_tls_handshake : Task p r → TlsAccept → Status × Task p r
  unfolding set_client_state
  drive_tls_handshake (cl, w) answer = elim cl.closing [
    | true ↦ (invalid, (cl, w))
    | false ↦ elim answer [
      | accept_no_ssl ↦ (invalid, (cl, w))
      | accepted ↦ desire reactor_readable (set_client_state cl client_wait_for_hello, w)
      | accept_wants_read ↦ desire reactor_readable (cl, w)
      | accept_wants_write ↦ desire reactor_writable (cl, w)
      | accept_failed ↦ (io, (cl, w))
    ]
  ]
