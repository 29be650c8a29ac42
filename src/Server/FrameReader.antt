-- ===== src/Server/FrameReader.antt =====
-- Reading a frame from a connection: conn_read_more_ssl_bytes in
-- faith-server/src/transport/conn.c, frame_try_full_read and frame_try_parse_from_buffer in
-- faith-server/src/transport/frame.c. What SSL_read answers is a sequence that is given; at its end
-- the socket has nothing to read.
pub mod Reassembly
use faith.Common.{ℕ, ◌+◌, List, [], ◌∷◌, Bool, Option, none, some, ltb, ◌==◌, if◌then◌else◌, length}
use faith.Proto.Status.{Status, ok, incomplete}
use faith.Proto.Frame.{Frame, frame_length_size, decode_frame}
use faith.Server.Transport.{Queue, enqueue_bytes, consume}

-- transport_result_t
pub data TransportResult : Type 0 where
  complete : TransportResult
  got_bytes : TransportResult
  want_read : TransportResult
  want_write : TransportResult
  closed : TransportResult
  error : TransportResult

-- tls_read: bytes, or SSL_get_error's answer.
pub data TlsRead : Type 0 where
  read_bytes : List ℕ → TlsRead
  ssl_want_read : TlsRead
  ssl_want_write : TlsRead
  ssl_zero_return : TlsRead
  ssl_failed : TlsRead

-- A choice by a status: FAITH_OK, FAITH_ERR_INCOMPLETE, or another.
abbrev pub by_status : {A : Type 0} → Status → A → A → A → A
by_status ok whole part other = whole
by_status incomplete whole part other = part
by_status rc whole part other = other

abbrev after_enqueue : Status × Queue → TransportResult × Queue
after_enqueue (ok, queue) = (got_bytes, queue)
after_enqueue (rc, queue) = (error, queue)

-- The input queue of a connection that is not null, and the result.
unfoldable pub read_more_ssl_bytes : (ℕ → Bool) → ℕ → Queue → TlsRead → TransportResult × Queue
read_more_ssl_bytes alloc junk queue (read_bytes bytes) =
    let enqueued = after_enqueue (enqueue_bytes alloc junk queue (some bytes) (length bytes)) in
    if ltb 0 (length bytes) then enqueued else (error, queue)
read_more_ssl_bytes alloc junk queue ssl_want_read = (want_read, queue)
read_more_ssl_bytes alloc junk queue ssl_want_write = (want_write, queue)
read_more_ssl_bytes alloc junk queue ssl_zero_return = (closed, queue)
read_more_ssl_bytes alloc junk queue ssl_failed = (error, queue)

-- The buffer of a queue is null before the first allocation.
abbrev pub buffer_of : Queue → Option (List ℕ)
buffer_of queue = if queue.cap == 0 then none else some queue.buf

-- frame_try_parse_from_buffer: the status, `*out`, and `*consumed_out`.
unfoldable pub try_parse_from_buffer : (ℕ → Bool) → Option (List ℕ) → ℕ → Frame → Status × Frame × ℕ
try_parse_from_buffer alloc payload payload_size out =
    let (rc, frame) = decode_frame alloc payload payload_size out in
    (rc, frame, by_status rc (frame.frame_size + frame_length_size) 0 0)

-- What a call leaves: the result, the queue, the frame, and what SSL_read would answer next.
pub record FullRead : Type 0 where
  pub result : TransportResult
  pub queue : Queue
  pub frame : Frame
  pub reads : List TlsRead

-- The next round, if bytes came, or the return.
abbrev pub go_on : TransportResult × Queue → Frame → List TlsRead → FullRead → FullRead
go_on (got_bytes, queue) frame reads again = again
go_on (res, queue) frame reads again = record {
  result = res;
  queue = queue;
  frame = frame;
  reads = reads;
}

unfoldable pub try_full_read : (ℕ → Bool) → ℕ → Queue → Frame → List TlsRead → FullRead
try_full_read alloc junk queue frame [] =
    let (rc, out, consumed) = try_parse_from_buffer alloc (buffer_of queue) queue.size frame in
    by_status rc
      (record { result = complete; queue = consume consumed queue; frame = out; reads = [] })
      (record { result = want_read; queue = queue; frame = out; reads = [] })
      (record { result = error; queue = queue; frame = out; reads = [] })
try_full_read alloc junk queue frame (r ∷ reads) =
    let (rc, out, consumed) = try_parse_from_buffer alloc (buffer_of queue) queue.size frame in
    let more = read_more_ssl_bytes alloc junk queue r in
    let again = try_full_read alloc junk more.1 out reads in
    by_status rc
      (record { result = complete; queue = consume consumed queue; frame = out; reads = r ∷ reads })
      (go_on more out reads again)
      (record { result = error; queue = queue; frame = out; reads = r ∷ reads })
