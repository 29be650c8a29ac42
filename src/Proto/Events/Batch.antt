-- ===== src/Proto/Events/Batch.antt =====
-- EVENT_BATCH: its struct in faith-proto/include/faith-proto/codec/events.h, and its coders and
-- the choice of the events that fit in faith-proto/src/codec/codec.c.
pub mod Elements
pub mod Fitting
pub mod RoundTrip
use faith.Common.{
  ℕ, zero, suc, ◌+◌, ◌-◌, ◌*◌, ◌%◌, ◌^◌, ◌≤◌, ◌<◌, ◌≡◌, ap, refl, arith, List, [], ◌∷◌, ◌++◌, Bool,
  true, false, not, ◌&&◌, ◌||◌, Option, none, some, ltb, leb, ◌==◌, if◌then◌else◌, length,
  replicate, take, drop, concat, set, copy_at, get_or,
}
use faith.Proto.Status.{
  Status, ok, invalid, overflow, bad_frame, bad_envelope, too_large, incomplete, unsupported_ver,
  nomem,
}
use faith.Proto.Codec.Steps.{
  Outcome, done, fail, ◌>>=◌, ◌>>◌, pure, guard, stop, when, deferred, check_return, Step,
}
use faith.Proto.Codec.Words.{be}
use faith.Proto.Codec.Encode.{
  Buf, Writer, append, append_nonempty, encode_u16_be, encode_u32_be, encode_u64_be, Encoded,
  encode_with, is_null, cells_of, encode_epilogue, advance, put_cells,
}
use faith.Proto.Codec.Decode.{
  Payload, Cursor, Reader, decode_bytes, payload_size, offset, decode_u16_be, decode_u32_be,
  decode_u64_be, assign, current, remaining, decode_block, ne, lt, decode_epilogue, Decoded,
  decode_with, returned,
}
use faith.Proto.Codec.Decode.{skip}
use faith.Proto.Events.{
  Event, zeroed_event, encode_event_body, decode_event_body, event_body_size_fixed,
}

-- faith_envl_stc_event_batch_t
pub record EventBatch : Type 0 where
  pub n_events : ℕ
  pub events_data_size : ℕ
  pub events : Option (List Event)

abbrev pub event_batch_max_events : ℕ
event_batch_max_events = 256

-- FAITH_ENVL_STC_EVENT_BATCH_BODY_SIZE_FIXED
abbrev pub event_batch_body_size_fixed : ℕ
event_batch_body_size_fixed = 6

abbrev pub events_of : Option (List Event) → List Event
events_of none = []
events_of (some evs) = evs

-- `body_size` of one event, a size_t.
abbrev pub element_size : Event → ℕ
element_size ev = event_body_size_fixed + ev.data_size

-- The loop of faith_codec_event_batch_data_size_fit from event `i` on: the sizes and the count so
-- far, and a status. `break` ends it with what it has.
fit_loop : ℕ → List Event → ℕ → ℕ → Status × ℕ × ℕ
fit_loop limit [] size n = (ok, size, n)
fit_loop limit (ev ∷ evs) size n =
    let encoded = 2 + element_size ev in
    let rest = fit_loop limit evs (size + encoded) (n + 1) in
    if ltb (2 ^ 16 - 1) (element_size ev)
    then (too_large, size, n)
    else if ltb (2 ^ 32 - 1 - size) encoded
    then (too_large, size, n)
    else if ltb limit (size + encoded)
    then (ok, size, n)
    else rest

-- What is left in `*o_events_data_size` and `*o_n_fitting`.
pub record Fit : Type 0 where
  pub status : Status
  pub data_size : ℕ
  pub n_fitting : ℕ

-- The sizes are stored only at the end: an error leaves the old data size and a count of 0.
abbrev store_fit : ℕ → Status × ℕ × ℕ → Fit
store_fit old (ok, size, n) = record { status = ok; data_size = size % 2 ^ 32; n_fitting = n }
store_fit old (rc, size, n) = record { status = rc; data_size = old; n_fitting = 0 }

-- faith_codec_event_batch_data_size_fit, its pointers not null: `events` is the array from its
-- first event on, `n_events` how many of them to look at.
pub event_batch_data_size_fit : List Event → ℕ → ℕ → ℕ → Fit
unfolding fit_loop
event_batch_data_size_fit events n_events old limit =
    if ltb event_batch_max_events n_events
    then record { status = invalid; data_size = old; n_fitting = 0 }
    else store_fit old (fit_loop limit (take n_events events) 0 0)

abbrev size_or_zero : Option ℕ → ℕ
size_or_zero none = 0
size_or_zero (some n) = n

-- The buffer with what the event encoder made of its part, the status check, the test of the
-- returned size, and the step of the offset.
finish_element : Event → List ℕ → Encoded → Writer
finish_element ev before e = do
  put_cells (before ++ cells_of e.out_buf)
  check_return e.status
  guard (not (size_or_zero e.out_size == element_size ev)) invalid
  advance (element_size ev)

-- faith_encode_event_body on the buffer from the offset on.
encode_element_body : Event → Writer
unfolding finish_element
encode_element_body ev buf_cap s =
    finish_element ev (take s.off s.cells)
      (encode_event_body (some (drop s.off s.cells)) (some 0) (buf_cap - s.off) (some ev)) buf_cap s

pub encode_elements : List Event → Writer
unfolding encode_element_body
encode_elements [] = pure tt
encode_elements (ev ∷ evs) = do
  encode_u16_be (element_size ev)
  encode_element_body ev
  encode_elements evs

abbrev pub event_batch_body_size : EventBatch → ℕ
event_batch_body_size m = (event_batch_body_size_fixed + m.events_data_size) % 2 ^ 32

write_event_batch : EventBatch → Writer
unfolding encode_elements
write_event_batch msg = do
  encode_u16_be msg.n_events
  encode_u32_be msg.events_data_size
  encode_elements (take msg.n_events (events_of msg.events))

-- The test of the array stands before the prologue, so that `*out_size` keeps its value.
pub encode_event_batch_body : Option (List ℕ) → Option ℕ → ℕ → Option EventBatch → Encoded
unfolding write_event_batch
encode_event_batch_body out_buf out_size buf_cap none =
    encode_with event_batch_body_size write_event_batch out_buf out_size buf_cap none
encode_event_batch_body out_buf out_size buf_cap (some msg) =
    if is_null msg.events && not (msg.n_events == 0)
    then record { status = invalid; out_buf = out_buf; out_size = out_size }
    else encode_with event_batch_body_size write_event_batch out_buf out_size buf_cap (some msg)

abbrev event_or_zero : Option Event → Event
event_or_zero none = zeroed_event
event_or_zero (some ev) = ev

-- `if (offset > payload_size || payload_size - offset < elem_size)`
element_fits : ℕ → Reader EventBatch (Unit {0})
element_fits elem_size = do
  off ← offset
  size ← payload_size
  guard (ltb size off || ltb (size - off) elem_size) bad_frame

-- The status check and the step of the offset.
take_element : ℕ → Decoded Event → Reader EventBatch Event
take_element elem_size d = do check_return d.status; skip elem_size; pure (event_or_zero d.out)

-- faith_decode_event_body on the payload from the offset on.
decode_element_body : (ℕ → Bool) → ℕ → Reader EventBatch Event
unfolding take_element
decode_element_body alloc elem_size p c =
    take_element elem_size
      (decode_event_body alloc (some (drop c.off p.bytes)) elem_size (some zeroed_event)) p c

pub decode_elements : (ℕ → Bool) → ℕ → Reader EventBatch (List Event)
unfolding element_fits decode_element_body
decode_elements alloc zero = pure []
decode_elements alloc (suc n) = do
  elem_size ← decode_u16_be
  guard (ltb elem_size event_body_size_fixed) bad_envelope
  element_fits elem_size
  ev ← decode_element_body alloc elem_size
  evs ← decode_elements alloc n
  pure (ev ∷ evs)

abbrev pub zeroed_event_batch : EventBatch
zeroed_event_batch = record { n_events = 0; events_data_size = 0; events = none }

-- `arrsetlen` makes the array, and only if there are events.
abbrev as_array : List Event → Option (List Event)
as_array [] = none
as_array (ev ∷ evs) = some (ev ∷ evs)

-- The `defer:` label frees the events and clears the three fields.
read_event_batch : (ℕ → Bool) → Reader EventBatch (Unit {0})
unfolding decode_elements
read_event_batch alloc = do
  n_events ← decode_u16_be
  assign (λ o. record o { n_events = n_events })
  guard (ltb event_batch_max_events n_events) bad_envelope
  data_size ← decode_u32_be
  assign (λ o. record o { events_data_size = data_size })
  size ← payload_size
  guard (ltb size (event_batch_body_size_fixed + data_size)) overflow
  off ← offset
  guard (not (off + data_size == size)) bad_envelope
  deferred (λ c. record c { out = zeroed_event_batch })
      do
        events ← decode_elements alloc n_events
        assign (λ o. record o { events = as_array events })
        decode_epilogue ne (event_batch_body_size_fixed + data_size)

pub decode_event_batch_body :
    (ℕ → Bool) → Option (List ℕ) → ℕ → Option EventBatch → Decoded EventBatch
unfolding read_event_batch
decode_event_batch_body alloc =
    decode_with zeroed_event_batch lt event_batch_body_size_fixed (read_event_batch alloc)
