-- ===== src/Proto/Events.antt =====
-- EVENT, EVENT_ACK and the data of CONVERSATION_CREATED:
-- faith-proto/include/faith-proto/codec/events.h, with coders in faith-proto/src/codec/codec.c and
-- faith-proto/src/codec/events.c.
pub mod Batch
pub mod RoundTrip
use faith.Common.{
  ℕ, zero, suc, ◌+◌, ◌-◌, ◌*◌, ◌%◌, ◌^◌, ◌≤◌, ◌<◌, ◌≡◌, ap, refl, arith, List, [], ◌∷◌, ◌++◌, Bool,
  true, false, not, ◌&&◌, ◌||◌, Option, none, some, ltb, leb, ◌==◌, if◌then◌else◌, length,
  replicate, take, drop, concat, set, copy_at, get_or,
}
use faith.Proto.Status.{
  Status, ok, invalid, overflow, bad_frame, bad_envelope, too_large, incomplete, unsupported_ver,
  nomem,
}
use faith.Proto.Codec.Steps.{
  Outcome, done, fail, ◌>>=◌, ◌>>◌, pure, guard, stop, when, deferred, check_return, Step,
}
use faith.Proto.Codec.Words.{be}
use faith.Proto.Codec.Encode.{
  Buf, Writer, append, append_nonempty, encode_u16_be, encode_u32_be, encode_u64_be, Encoded,
  encode_with, is_null, cells_of, encode_epilogue,
}
use faith.Proto.Codec.Decode.{
  Payload, Cursor, Reader, decode_bytes, decode_u16_be, decode_u32_be, decode_u64_be, assign,
  current, remaining, decode_block, ne, lt, decode_epilogue, Decoded, decode_with, returned,
}
use faith.Proto.Codec.Encode.Writes.{IsBlock}

-- faith_envl_stc_event_t
pub record Event : Type 0 where
  pub seq_num : ℕ
  pub kind : ℕ
  pub data_size : ℕ
  pub payload : Option (List ℕ)

-- FAITH_ENVL_STC_EVENT_BODY_SIZE_FIXED
abbrev pub event_body_size_fixed : ℕ
event_body_size_fixed = 16

-- The fixed size and the data's, added as 32-bit numbers.
abbrev pub event_body_size : Event → ℕ
event_body_size m = (event_body_size_fixed + m.data_size) % 2 ^ 32

pub write_event : Event → Writer
write_event msg = do
  guard (ltb 0 msg.data_size && is_null msg.payload) invalid
  encode_u64_be msg.seq_num
  encode_u32_be msg.kind
  encode_u32_be msg.data_size
  append_nonempty msg.payload msg.data_size

pub encode_event_body : Option (List ℕ) → Option ℕ → ℕ → Option Event → Encoded
unfolding write_event
encode_event_body = encode_with event_body_size write_event

abbrev pub put_data : Option (List ℕ) → Event → Event
put_data p o = record o { payload = p }

pub read_event : (ℕ → Bool) → Reader Event (Unit {0})
read_event alloc = do
  seq_num ← decode_u64_be
  assign (λ o. record o { seq_num = seq_num })
  kind ← decode_u32_be
  assign (λ o. record o { kind = kind })
  data_size ← decode_u32_be
  assign (λ o. record o { data_size = data_size })
  decode_block alloc data_size put_data
  deferred (λ c. record c { out = put_data none c.out })
      (decode_epilogue ne ((event_body_size_fixed + data_size) % 2 ^ 32))

abbrev pub zeroed_event : Event
zeroed_event = record { seq_num = 0; kind = 0; data_size = 0; payload = none }

pub decode_event_body : (ℕ → Bool) → Option (List ℕ) → ℕ → Option Event → Decoded Event
unfolding read_event
decode_event_body alloc = decode_with zeroed_event lt event_body_size_fixed (read_event alloc)

-- faith_envl_cts_event_ack_t
pub record EventAck : Type 0 where
  pub seq_num : ℕ

-- FAITH_ENVL_CTS_EVENT_ACK_BODY_SIZE
abbrev pub event_ack_body_size : ℕ
event_ack_body_size = 8

write_event_ack : EventAck → Writer
write_event_ack msg = encode_u64_be msg.seq_num

pub encode_event_ack_body : Option (List ℕ) → Option ℕ → ℕ → Option EventAck → Encoded
unfolding write_event_ack
encode_event_ack_body = encode_with (λ _. event_ack_body_size) write_event_ack

read_event_ack : Reader EventAck (Unit {0})
read_event_ack = do
  seq_num ← decode_u64_be
  assign (λ o. record o { seq_num = seq_num })
  decode_epilogue ne event_ack_body_size

pub decode_event_ack_body : Option (List ℕ) → ℕ → Option EventAck → Decoded EventAck
unfolding read_event_ack
decode_event_ack_body = decode_with (record { seq_num = 0 }) ne event_ack_body_size read_event_ack

-- faith_event_conversation_created_t
pub record ConversationCreated : Type 0 where
  pub conversation_id : List ℕ

-- FAITH_EVENT_CONVERSATION_CREATED_DATA_SIZE
abbrev pub conversation_created_size : ℕ
conversation_created_size = 16

write_conversation_created : ConversationCreated → Writer
write_conversation_created msg = append (some msg.conversation_id) 16

pub encode_event_conversation_created :
    Option (List ℕ) → Option ℕ → ℕ → Option ConversationCreated → Encoded
unfolding write_conversation_created
encode_event_conversation_created =
    encode_with (λ _. conversation_created_size) write_conversation_created

read_conversation_created : Reader ConversationCreated (Unit {0})
read_conversation_created = do
  conversation_id ← decode_bytes 16
  assign (λ o. record o { conversation_id = conversation_id })
  decode_epilogue ne conversation_created_size

pub decode_event_conversation_created :
    Option (List ℕ) → ℕ → Option ConversationCreated → Decoded ConversationCreated
unfolding read_conversation_created
decode_event_conversation_created =
    decode_with (record { conversation_id = replicate 16 0 }) ne conversation_created_size
      read_conversation_created

-- The numbers have their widths and the size of the body does not wrap.
pub record IsEvent (m : Event) : Type 0 where
  pub seq_num : m.seq_num < 2 ^ 64
  pub kind : m.kind < 2 ^ 32
  pub fits : event_body_size_fixed + m.data_size < 2 ^ 32
  pub payload : IsBlock m.payload m.data_size

pub record IsEventAck (m : EventAck) : Type 0 where
  pub seq_num : m.seq_num < 2 ^ 64

pub record IsConversationCreated (m : ConversationCreated) : Type 0 where
  pub conversation_id : length m.conversation_id ≡ 16
