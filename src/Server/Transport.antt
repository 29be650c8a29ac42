-- ===== src/Server/Transport.antt =====
-- Byte queues of a connection: conn_queue_enqueue_bytes and conn_queue_free in
-- faith-server/src/transport/conn.c, and how frame_try_full_read in
-- faith-server/src/transport/frame.c takes a frame from the front.
pub mod Growth
pub mod Contents
pub mod Consume
use faith.Common.{
  ℕ, zero, suc, ◌+◌, ◌-◌, ◌*◌, ◌/◌, ◌≤◌, List, [], ◌++◌, Bool, not, ◌&&◌, ◌||◌, Option, none, some,
  ltb, leb, ◌==◌, if◌then◌else◌, length, replicate, take, drop, copy_at,
}
use faith.Proto.Status.{Status, ok, invalid, overflow, nomem}
use faith.Proto.Codec.Encode.{is_null, cells_of}

abbrev pub max_client_in_queue : ℕ
max_client_in_queue = 1048576

abbrev pub size_max : ℕ
size_max = 18446744073709551615

pub data QueueType : Type 0 where
  queue_input : QueueType
  queue_output : QueueType

-- transport_queue_t; `buf` has the `cap` cells that were allocated.
pub record Queue : Type 0 where
  pub buf : List ℕ
  pub size : ℕ
  pub cap : ℕ
  pub off : ℕ
  pub kind : QueueType

-- The loop `while (new_cap < needed)`, with a bound on its rounds.
unfoldable pub grow : ℕ → ℕ → ℕ → Option ℕ
grow zero needed new_cap = if ltb new_cap needed then none else some new_cap
grow (suc fuel) needed new_cap =
    let again =
      grow fuel needed
        (if ltb max_client_in_queue (new_cap * 2) then max_client_in_queue else new_cap * 2) in
    if ltb new_cap needed
    then (if leb max_client_in_queue new_cap
        then some max_client_in_queue
        else if ltb (size_max / 2) new_cap
        then some needed
        else again)
    else some new_cap

-- Twenty doublings reach the limit from any capacity that is not 0.
abbrev pub rounds : ℕ
rounds = 20

abbrev pub first_cap : ℕ → ℕ
first_cap cap = if cap == 0 then 4096 else cap

-- realloc keeps the cells that fit; `junk` stands in the new ones.
abbrev pub realloc : ℕ → List ℕ → ℕ → List ℕ
realloc junk buf n = take n buf ++ replicate (n - length buf) junk

abbrev put_bytes : List ℕ → ℕ → Queue → Queue
put_bytes bytes n queue = record queue {
  buf = copy_at queue.size (take n bytes) queue.buf;
  size = queue.size + n;
}

unfoldable pub enlarge : (ℕ → Bool) → ℕ → List ℕ → ℕ → Queue → Option ℕ → Status × Queue
enlarge alloc junk bytes n queue none = (overflow, queue)
enlarge alloc junk bytes n queue (some new_cap) =
    if ltb new_cap (queue.size + n)
    then (overflow, queue)
    else if not (alloc new_cap)
    then (nomem, queue)
    else (
      ok,
      put_bytes bytes n (record queue { buf = realloc junk queue.buf new_cap; cap = new_cap }),
    )

-- `queue` is not null at any call. `alloc` says which allocations succeed.
unfoldable pub enqueue_bytes : (ℕ → Bool) → ℕ → Queue → Option (List ℕ) → ℕ → Status × Queue
enqueue_bytes alloc junk queue bytes n =
    let grown =
      enlarge alloc junk (cells_of bytes) n queue
        (grow rounds (queue.size + n) (first_cap queue.cap)) in
    if is_null bytes && not (n == 0)
    then (invalid, queue)
    else if n == 0
    then (ok, queue)
    else if ltb max_client_in_queue queue.size || ltb (max_client_in_queue - queue.size) n
    then (overflow, queue)
    else if ltb queue.cap (queue.size + n)
    then grown
    else (ok, put_bytes (cells_of bytes) n queue)

-- memset leaves 0 in the type too, which is the input type.
unfoldable pub queue_free : Option Queue → Status × Option Queue
queue_free none = (invalid, none)
queue_free (some queue) =
    (ok, some (record { buf = []; size = 0; cap = 0; off = 0; kind = queue_input }))

-- The memmove behind a whole frame, and the new size.
unfoldable pub consume : ℕ → Queue → Queue
consume consumed queue =
    let left = queue.size - consumed in
    record queue {
      buf =
          if ltb 0 left
          then copy_at 0 (take left (drop consumed queue.buf)) queue.buf
          else queue.buf;
      size = left;
    }
