-- ===== src/Server/Conn.antt =====
-- A connection and its output: transport_conn_t, conn_init, conn_flush_output and conn_output_empty in
-- faith-server/src/transport/conn.c, tls_write in faith-server/src/transport/tls.c. What SSL_write answers
-- is a sequence that is given; at its end the socket takes nothing more.
pub mod Flush
use faith.Common.{
  ℕ, ◌+◌, ◌-◌, min, List, [], ◌∷◌, ◌++◌, Bool, not, ◌&&◌, Option, ltb, ◌==◌, if◌then◌else◌, take,
  drop,
}
use faith.Proto.Codec.Encode.{is_null}
use faith.Proto.Status.{Status, ok, invalid, io}
use faith.Server.Transport.{Queue, QueueType, queue_input, queue_output}
use faith.Server.FrameReader.{
  TransportResult, complete, want_read, want_write, closed, error, buffer_of,
}

-- transport_conn_t, without its TLS state
pub record Conn : Type 0 where
  pub id : ℕ
  pub fd : Option ℕ
  pub in_queue : Queue
  pub out : Queue

unfoldable pub conn_init : Conn → Status × Conn
conn_init conn =
    let typed : Queue → QueueType → Queue = λ q k. record q { kind = k } in
    (
      ok,
      record conn { in_queue = typed conn.in_queue queue_input; out = typed conn.out queue_output },
    )

-- tls_write: INT_MAX for a TLS state that is not there, a number of bytes, or SSL_get_error's answer.
pub data TlsWrite : Type 0 where
  no_ssl : TlsWrite
  wrote : ℕ → TlsWrite
  write_wants_read : TlsWrite
  write_wants_write : TlsWrite
  write_zero_return : TlsWrite
  write_failed : TlsWrite

abbrev pub int_max : ℕ
int_max = 2147483647

-- The bytes that a call of SSL_write is asked for, and those that it took, never more.
abbrev pub clamped_write : Queue → ℕ
clamped_write out =
    let remaining = out.size - out.off in if ltb int_max remaining then int_max else remaining

abbrev pub nwrite_of : Queue → ℕ → ℕ
nwrite_of out n = min n (clamped_write out)

-- What a call leaves: the status, `*o_res`, the queue, and the bytes that went over the wire.
pub record Flushed : Type 0 where
  pub status : Status
  pub res : TransportResult
  pub out : Queue
  pub sent : List ℕ

abbrev pub stop : Status → TransportResult → Queue → Flushed
stop rc res out = record { status = rc; res = res; out = out; sent = [] }

-- conn_queue_free, and the result of a queue that went out whole.
abbrev pub flushed_all : Flushed
flushed_all = stop ok complete (record { buf = []; size = 0; cap = 0; off = 0; kind = queue_input })

abbrev pub also_sent : List ℕ → Flushed → Flushed
also_sent bytes f = record f { sent = bytes ++ f.sent }

-- The loop `while (conn->out.off < conn->out.size)`.
unfoldable pub flush_loop : Queue → List TlsWrite → Flushed
flush_loop out [] = if ltb out.off out.size then stop ok want_write out else flushed_all
flush_loop out (no_ssl ∷ writes) =
    if ltb out.off out.size then stop invalid error out else flushed_all
flush_loop out (wrote n ∷ writes) =
    let nwrite = nwrite_of out n in
    let rest = flush_loop (record out { off = out.off + nwrite }) writes in
    if ltb out.off out.size
    then (if ltb 0 nwrite
        then also_sent (take nwrite (drop out.off out.buf)) rest
        else stop io error out)
    else flushed_all
flush_loop out (write_wants_read ∷ writes) =
    if ltb out.off out.size then stop ok want_read out else flushed_all
flush_loop out (write_wants_write ∷ writes) =
    if ltb out.off out.size then stop ok want_write out else flushed_all
flush_loop out (write_zero_return ∷ writes) =
    if ltb out.off out.size then stop ok closed out else flushed_all
flush_loop out (write_failed ∷ writes) =
    if ltb out.off out.size then stop io error out else flushed_all

-- `*o_res` is not written where the arguments are refused: `res` is what it held.
unfoldable pub flush_output : TransportResult → Queue → List TlsWrite → Flushed
flush_output res out writes =
    if is_null (buffer_of out) && ltb 0 out.size
    then stop invalid res out
    else if is_null (buffer_of out)
    then stop ok error out
    else flush_loop out writes

-- `pending` is BIO_ctrl_pending of the TLS state, INT_MAX without one.
unfoldable pub output_empty : ℕ → Queue → Bool
output_empty pending out = not (pending == int_max) && (out.size == 0 && pending == 0)
