-- ===== src/Proto/Events/Batch/RoundTrip.antt =====
-- What the decoder of EVENT_BATCH makes of what the encoder wrote.
use faith.Common.{
  ℕ, ◌*◌, ◌^◌, ◌≤◌, ◌<◌, ◌≡◌, ap, refl, arith, List, [], ◌∷◌, ◌++◌, Bool, false, not, ◌&&◌, Option,
  none, some, ◌==◌, length, take,
}
use faith.Proto.Codec.Words.{be}
use faith.Proto.Codec.Encode.{is_null}
use faith.Proto.Codec.Encode.Writes.{Writes, >>-Writes}
use faith.Proto.Codec.Decode.Reads.{
  Finishes, >>=-Finishes, assign-Finishes, guard-Finishes, deferred-Finishes, decode_u16_be-Reads,
  decode_u32_be-Reads, epilogue_ne-Finishes,
}
use faith.Proto.Codec.RoundTrip.{ReadsBack, encode_with-decode_with}
use faith.Common.{length-append, take_all}
use faith.Proto.Codec.Encode.Writes.{encode_u16_be-Writes, encode_u32_be-Writes}
use faith.Common.{sym, ◌∙◌}
use faith.Proto.Codec.Decode.Chains.{last_field-Finishes, payload_size-Finishes, offset-Finishes}
use faith.Proto.Events.{Event}
use faith.Proto.Events.RoundTrip.{event_bytes, length-event_bytes}
use faith.Proto.Events.Batch.{
  EventBatch, events_of, event_batch_body_size, write_event_batch, encode_event_batch_body,
  zeroed_event_batch, as_array, read_event_batch, decode_event_batch_body,
}
use faith.Proto.Events.Batch.Elements.{
  elements_bytes, All, encode_elements-Writes, Granted, decode_elements-Reads, IsElement,
}

-- The array is null just if there are no events.
abbrev pub IsArray : Option (List Event) → ℕ → Type 0
IsArray none n = n ≡ 0
IsArray (some []) n = ⊥
IsArray (some (ev ∷ evs)) n = length (ev ∷ evs) ≡ n

-- At most 256 events that can be elements, and the data size that they add up to.
pub record IsEventBatch (m : EventBatch) : Type 0 where
  pub limit : m.n_events ≤ 256
  pub elements : All IsElement (events_of m.events)
  pub array : IsArray m.events m.n_events
  pub data_size : length (elements_bytes (events_of m.events)) ≡ m.events_data_size

length-elements_bytes :
    (evs : List Event) → All IsElement evs → length (elements_bytes evs) ≤ 65537 * length evs
length-elements_bytes [] valid = omega arith
length-elements_bytes (ev ∷ evs) (valid, rest) = omega (
  arith,
  length-append (event_bytes ev) (elements_bytes evs),
  length-event_bytes ev valid.event,
  valid.event.fits,
  valid.fits,
  length-elements_bytes evs rest,
)

array_length : (p : Option (List Event)) (n : ℕ) → IsArray p n → length (events_of p) ≡ n
array_length none n e = sym e
array_length (some []) n h = absurd h
array_length (some (ev ∷ evs)) n e = e

array_same : (p : Option (List Event)) (n : ℕ) → IsArray p n → as_array (events_of p) ≡ p
array_same none n e = refl
array_same (some []) n h = absurd h
array_same (some (ev ∷ evs)) n e = refl

not_null_array :
    (p : Option (List Event)) (n : ℕ) → IsArray p n → (is_null p && not (n == 0)) ≡ false
not_null_array none n e = rw e
not_null_array (some evs) n e = refl

abbrev pub event_batch_bytes : EventBatch → List ℕ
event_batch_bytes m =
    be 2 m.n_events ++ (be 4 m.events_data_size ++ elements_bytes (events_of m.events))

small_batch : (m : EventBatch) → IsEventBatch m → m.events_data_size < 2 ^ 26
small_batch m valid = omega (
  arith,
  valid.limit,
  valid.data_size,
  array_length m.events m.n_events valid.array,
  length-elements_bytes (events_of m.events) valid.elements,
)

all_taken : (p : Option (List Event)) (n : ℕ) → IsArray p n → take n (events_of p) ≡ events_of p
all_taken p n h =
    ap (λ (k : ℕ). take k (events_of p)) (sym (array_length p n h)) ∙ take_all (events_of p)

write_event_batch-Writes :
    (m : EventBatch) → IsEventBatch m → Writes (write_event_batch m) (event_batch_bytes m)
unfolding write_event_batch
write_event_batch-Writes m valid = >>-Writes (encode_u16_be-Writes _ (omega (arith, valid.limit))) (
    >>-Writes (encode_u32_be-Writes _ (omega (arith, small_batch m valid))) (
      rw (all_taken m.events m.n_events valid.array)
        (encode_elements-Writes (events_of m.events) valid.elements)))

read_event_batch-Finishes :
    (alloc : ℕ → Bool) (m : EventBatch)
    → IsEventBatch m
    → All (Granted alloc) (events_of m.events)
    → Finishes 0 (read_event_batch alloc) (event_batch_bytes m) zeroed_event_batch m
unfolding read_event_batch
read_event_batch-Finishes alloc m valid granted =
    >>=-Finishes _ (decode_u16_be-Reads (omega (arith, valid.limit))) (
      assign-Finishes _ _ (
        guard-Finishes _ (ground (arith, valid.limit)) (
          >>=-Finishes _ (decode_u32_be-Reads (omega (arith, small_batch m valid))) (
            assign-Finishes _ _ (
              payload_size-Finishes _ (
                guard-Finishes _ (ground (arith, valid.data_size)) (
                  offset-Finishes _ (
                    guard-Finishes _ (ground (arith, valid.data_size)) (
                      deferred-Finishes _ (
                        last_field-Finishes (λ a o. record o { events = as_array a })
                          (rw (array_length m.events m.n_events valid.array) at (
                            decode_elements-Reads alloc (events_of m.events)
                              (record m { events = none }) valid.elements granted))
                          (rw (array_same m.events m.n_events valid.array)
                            (epilogue_ne-Finishes (omega (arith, valid.data_size))))))))))))))

-- An EVENT_BATCH body of at most 256 events, each of at most 65535 bytes, whose declared data size is
-- the sum of theirs, encoded into a buffer with room for it, is laid out at its front as the number of
-- events in 2 bytes, the data size in 4 and the events in their order, each behind its size in 2 bytes,
-- with the highest byte first, and leaves the cells behind; it is reported with its size, and decoded to
-- itself if the decoder's allocations succeed.
pub decode_event_batch_body-encode_event_batch_body :
    (msg : EventBatch) (cells : List ℕ) (n buf_cap : ℕ) (old : EventBatch) (alloc : ℕ → Bool)
    → IsEventBatch msg
    → All (Granted alloc) (events_of msg.events)
    → event_batch_body_size msg ≤ buf_cap
    → event_batch_body_size msg ≤ length cells
    → ReadsBack
        (encode_event_batch_body (some cells) (some n) buf_cap (some msg))
        (decode_event_batch_body alloc)
        (event_batch_body_size msg)
        old
        msg
        (event_batch_bytes msg)
        cells
unfolding encode_event_batch_body decode_event_batch_body
decode_event_batch_body-encode_event_batch_body msg cells n buf_cap old alloc valid granted fits
      room =
    let small = small_batch msg valid in
    rw (not_null_array msg.events msg.n_events valid.array) (
      encode_with-decode_with _ _ _ _ _ _ msg (event_batch_bytes msg)
        (write_event_batch-Writes msg valid) (read_event_batch-Finishes alloc msg valid granted)
        (omega (arith, valid.data_size)) (omega arith) (ground (arith, small)) cells n buf_cap old
        fits room)
