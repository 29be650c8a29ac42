-- ===== src/Proto/Events/RoundTrip.antt =====
-- What the decoders of the event bodies make of what the encoders wrote.
use faith.Common.{
  ℕ, ◌^◌, ◌≤◌, ◌<◌, ◌≡◌, refl, arith, List, [], ◌∷◌, ◌++◌, Bool, true, false, ◌&&◌, Option, none,
  some, ltb, length, drop, concat,
}
use faith.Proto.Codec.Words.{be}
use faith.Proto.Codec.Encode.{is_null, cells_of}
use faith.Proto.Codec.Decode.{lt}
use faith.Proto.Codec.Encode.Writes.{Writes, writing, IsBlock, encoded_ok, >>-Writes}
use faith.Proto.Codec.Decode.Reads.{
  Finishes, field-Finishes, >>=-Finishes, assign-Finishes, block-Finishes, deferred-Finishes,
  decode_bytes-Reads, decode_u32_be-Reads, decode_u64_be-Reads, epilogue_ne-Finishes, decoded_ok,
  decode_with-ok,
}
use faith.Proto.Codec.RoundTrip.{ReadsBack, encode_with-decode_with}
use faith.Proto.Events.{
  Event, IsEvent, put_data, event_body_size, write_event, read_event, zeroed_event,
  encode_event_body, decode_event_body, EventAck, IsEventAck, encode_event_ack_body,
  decode_event_ack_body, event_ack_body_size, ConversationCreated, IsConversationCreated,
  encode_event_conversation_created, decode_event_conversation_created, conversation_created_size,
}
use faith.Common.{length-append}
use faith.Proto.Codec.Encode.Writes.{encode_with-ok}
use faith.Proto.Codec.Encode.Writes.{length-cells_of, guard-Writes}

-- Sequence number, kind, data size, data.
unfoldable pub event_bytes : Event → List ℕ
event_bytes m = concat (be 8 m.seq_num ∷ be 4 m.kind ∷ be 4 m.data_size ∷ cells_of m.payload ∷ [])

not_null_block : (ptr : Option (List ℕ)) (n : ℕ) → IsBlock ptr n → (ltb 0 n && is_null ptr) ≡ false
not_null_block none n e = rw e
not_null_block (some xs) n h = ground arith

pub length-event_bytes : (m : Event) → IsEvent m → length (event_bytes m) ≡ event_body_size m
unfolding event_bytes
length-event_bytes m valid =
    simp length-append
      (omega (arith, length-cells_of m.payload m.data_size valid.payload, valid.fits))

pub write_event-Writes : (m : Event) → IsEvent m → Writes (write_event m) (event_bytes m)
unfolding write_event event_bytes
write_event-Writes m valid =
    let small : m.data_size < 2 ^ 32 = omega (arith, valid.fits) in
    >>-Writes (guard-Writes _ (not_null_block m.payload m.data_size valid.payload))
      (search writing depth 14)

pub read_event-Finishes :
    (alloc : ℕ → Bool) (m : Event)
    → IsEvent m
    → alloc m.data_size ≡ true
    → Finishes 0 (read_event alloc) (event_bytes m) zeroed_event m
unfolding read_event event_bytes
read_event-Finishes alloc m valid granted =
    (field-Finishes _ (decode_u64_be-Reads valid.seq_num) (
      field-Finishes _ (decode_u32_be-Reads valid.kind) (
        >>=-Finishes _ (decode_u32_be-Reads (omega (arith, valid.fits))) (
          assign-Finishes _ _ (
            block-Finishes alloc _ put_data m.payload valid.payload granted refl (
              deferred-Finishes _ (
                epilogue_ne-Finishes (
                  omega
                    (arith, valid.fits, length-cells_of m.payload m.data_size valid.payload)))))))))

-- One call of each on an event, whatever stands behind its bytes.
pub encode_event_body-ok :
    (m : Event) (cells : List ℕ) (n buf_cap : ℕ)
    → IsEvent m
    → event_body_size m ≤ buf_cap
    → event_body_size m ≤ length cells
    → encode_event_body (some cells) (some n) buf_cap (some m)
      ≡ encoded_ok (event_bytes m ++ drop (event_body_size m) cells) (event_body_size m)
unfolding encode_event_body
encode_event_body-ok m cells n buf_cap valid fits room =
    encode_with-ok event_body_size write_event m (event_bytes m) (write_event-Writes m valid) cells
      n buf_cap (length-event_bytes m valid) (omega arith) fits room

pub decode_event_body-ok :
    (alloc : ℕ → Bool) (m : Event) (rest : List ℕ) (old : Event)
    → IsEvent m
    → alloc m.data_size ≡ true
    → decode_event_body alloc (some (event_bytes m ++ rest)) (length (event_bytes m)) (some old)
      ≡ decoded_ok m
unfolding decode_event_body
decode_event_body-ok alloc m rest old valid granted =
    decode_with-ok zeroed_event lt 16 (read_event alloc) (read_event-Finishes alloc m valid granted)
      (ground (arith, length-event_bytes m valid, valid.fits)) rest old

-- An EVENT body whose size does not wrap, encoded into a buffer with room for it, is laid out at its
-- front as sequence number, type, data size and data, the number in 8 bytes and the others in 4 with the
-- highest first, and leaves the cells behind; it is reported with its size, and decoded to itself if the
-- decoder's allocation succeeds.
pub decode_event_body-encode_event_body :
    (msg : Event) (cells : List ℕ) (n buf_cap : ℕ) (old : Event) (alloc : ℕ → Bool)
    → IsEvent msg
    → alloc msg.data_size ≡ true
    → event_body_size msg ≤ buf_cap
    → event_body_size msg ≤ length cells
    → ReadsBack
        (encode_event_body (some cells) (some n) buf_cap (some msg))
        (decode_event_body alloc)
        (event_body_size msg)
        old
        msg
        (event_bytes msg)
        cells
unfolding encode_event_body decode_event_body
decode_event_body-encode_event_body msg cells n buf_cap old alloc valid granted fits room =
    encode_with-decode_with _ _ _ _ _ _ msg (event_bytes msg) (write_event-Writes msg valid)
      (read_event-Finishes alloc msg valid granted) (length-event_bytes msg valid) (omega arith)
      (ground (arith, valid.fits)) cells n buf_cap old fits room

-- The sequence number.
abbrev pub event_ack_bytes : EventAck → List ℕ
event_ack_bytes m = concat (be 8 m.seq_num ∷ [])

-- An EVENT_ACK body with a 64-bit sequence number, encoded into a buffer with room for it, is
-- reported as 8 bytes and decoded to itself.
pub decode_event_ack_body-encode_event_ack_body :
    (msg : EventAck) (cells : List ℕ) (n buf_cap : ℕ) (old : EventAck)
    → IsEventAck msg
    → event_ack_body_size ≤ buf_cap
    → event_ack_body_size ≤ length cells
    → ReadsBack
        (encode_event_ack_body (some cells) (some n) buf_cap (some msg))
        decode_event_ack_body
        event_ack_body_size
        old
        msg
        (event_ack_bytes msg)
        cells
unfolding encode_event_ack_body decode_event_ack_body
decode_event_ack_body-encode_event_ack_body msg cells n buf_cap old valid fits room =
    encode_with-decode_with _ _ _ _ _ _ msg (event_ack_bytes msg) (search writing depth 14)
      (field-Finishes _ (decode_u64_be-Reads valid.seq_num) (epilogue_ne-Finishes (omega arith)))
      refl (omega arith) refl cells n buf_cap old fits room

-- The conversation's id.
abbrev pub conversation_created_bytes : ConversationCreated → List ℕ
conversation_created_bytes m = concat (m.conversation_id ∷ [])

-- CONVERSATION_CREATED data, encoded into a buffer with room for it, is reported as 16 bytes and
-- decoded to itself.
pub decode_event_conversation_created-encode_event_conversation_created :
    (msg : ConversationCreated) (cells : List ℕ) (n buf_cap : ℕ) (old : ConversationCreated)
    → IsConversationCreated msg
    → conversation_created_size ≤ buf_cap
    → conversation_created_size ≤ length cells
    → ReadsBack
        (encode_event_conversation_created (some cells) (some n) buf_cap (some msg))
        decode_event_conversation_created
        conversation_created_size
        old
        msg
        (conversation_created_bytes msg)
        cells
unfolding encode_event_conversation_created decode_event_conversation_created
decode_event_conversation_created-encode_event_conversation_created msg cells n buf_cap old valid
      fits room =
    encode_with-decode_with _ _ _ _ _ _ msg (conversation_created_bytes msg)
      (search writing depth 14)
      (field-Finishes _ (decode_bytes-Reads valid.conversation_id)
        (epilogue_ne-Finishes (omega arith)))
      (simp length-append (omega arith)) (omega arith) refl cells n buf_cap old fits room
