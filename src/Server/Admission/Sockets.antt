-- ===== src/Server/Admission/Sockets.antt =====
-- What the socket of a client leads to keeps it admitted.
use faith.Common.{ℕ, List, Bool, true, false, ◌==◌, bit_or}
use faith.Proto.Status.{Status, ok, invalid, io}
use faith.Server.Client.{set_client_state, put_out, client_wait_for_hello}
use faith.Server.ClientIo.{Task}
use faith.Server.ClientIo.Drive.{
  accept_no_ssl, accepted, accept_wants_read, accept_wants_write, accept_failed,
  drive_tls_handshake, desire, flush_client_output, after_flush, TlsAccept, with_source,
}
use faith.Server.Conn.{TlsWrite, flush_output}
use faith.Server.FrameReader.{TransportResult, complete, got_bytes, want_read, want_write, error}
use faith.Server.Platform.{Platform}
use faith.Server.Reactor.{
  Reactor, Source, reactor_readable, reactor_modify_interests, reactor_writable,
}
use faith.Server.Admission.{Keeps}
use faith.Server.Admission.Clients.{Held}
use faith.Server.Guards.{kept_then}

module _ (p : Platform) (r : Reactor) where
  desire-Keeps : (interests : ℕ) → Keeps (desire p r interests)
  desire-Keeps interests cl w a = by_interests (interests == cl.reactor_source.interests)
    where
      answer : Status × Source × p.World
      answer = reactor_modify_interests p.epoll_ctl w r cl.reactor_source interests

      by_interests :
          (b : Bool)
          → Held p r
              (elim b as (λ x. Status × Task p r) [
                | true ↦ (ok, (cl, w))
                | false ↦ with_source p r cl answer
              ]).1
      by_interests true = a
      by_interests false = record { opened = a.opened; paired = a.paired }

  after_flush-Keeps : (res : TransportResult) → Keeps (after_flush p r res)
  after_flush-Keeps want_read = desire-Keeps reactor_readable
  after_flush-Keeps want_write = desire-Keeps (bit_or reactor_readable reactor_writable)
  after_flush-Keeps complete = desire-Keeps reactor_readable
  after_flush-Keeps TransportResult.closed = λ cl w a. a
  after_flush-Keeps error = λ cl w a. a
  after_flush-Keeps got_bytes = λ cl w a. a

  pub flush_client_output-Keeps :
      (writes : List TlsWrite) → Keeps (λ task. flush_client_output p r task writes)
  unfolding flush_client_output
  flush_client_output-Keeps writes cl w a =
      let f = flush_output complete cl.conn.out writes in
      kept_then (Held p r) (f.status, (put_out cl f.out, w)) (after_flush p r f.res)
        (record { opened = a.opened; paired = a.paired })
        (λ task h. after_flush-Keeps f.res task.0 task.1 h)

  pub drive_tls_handshake-Keeps :
      (answer : TlsAccept) → Keeps (λ task. drive_tls_handshake p r task answer)
  unfolding drive_tls_handshake set_client_state
  drive_tls_handshake-Keeps answer cl w a = by_closing cl.closing
    where
      by_answer :
          (answer : TlsAccept)
          → Held p r
              (elim answer as (λ x. Status × Task p r) [
                | accept_no_ssl ↦ (invalid, (cl, w))
                | accepted ↦
                    desire p r reactor_readable (set_client_state cl client_wait_for_hello, w)
                | accept_wants_read ↦ desire p r reactor_readable (cl, w)
                | accept_wants_write ↦ desire p r reactor_writable (cl, w)
                | accept_failed ↦ (io, (cl, w))
              ]).1
      by_answer accept_no_ssl = a
      by_answer accepted =
          desire-Keeps reactor_readable (set_client_state cl client_wait_for_hello) w
            (record { opened = λ e. cc; paired = a.paired })
      by_answer accept_wants_read = desire-Keeps reactor_readable cl w a
      by_answer accept_wants_write = desire-Keeps reactor_writable cl w a
      by_answer accept_failed = a

      by_closing :
          (b : Bool)
          → Held p r
              (elim b as (λ x. Status × Task p r) [
                | true ↦ (invalid, (cl, w))
                | false ↦ elim answer as (λ x. Status × Task p r) [
                  | accept_no_ssl ↦ (invalid, (cl, w))
                  | accepted ↦
                      desire p r reactor_readable (set_client_state cl client_wait_for_hello, w)
                  | accept_wants_read ↦ desire p r reactor_readable (cl, w)
                  | accept_wants_write ↦ desire p r reactor_writable (cl, w)
                  | accept_failed ↦ (io, (cl, w))
                ]
              ]).1
      by_closing true = a
      by_closing false = by_answer answer
