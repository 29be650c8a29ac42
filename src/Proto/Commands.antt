-- ===== src/Proto/Commands.antt =====
-- COMMAND, COMMAND_RESULT and the payload of CREATE_CONVERSATION:
-- faith-proto/include/faith-proto/codec/commands.h, with coders in faith-proto/src/codec/codec.c and
-- faith-proto/src/codec/commands.c. A C enum holds any 32-bit number that a peer sent.
pub mod RoundTrip
use faith.Common.{
  ℕ, zero, suc, ◌+◌, ◌-◌, ◌*◌, ◌%◌, ◌^◌, ◌≤◌, ◌<◌, ◌≡◌, ap, refl, arith, List, [], ◌∷◌, ◌++◌, Bool,
  true, false, not, ◌&&◌, ◌||◌, Option, none, some, ltb, leb, ◌==◌, if◌then◌else◌, length,
  replicate, take, drop, concat, set, copy_at, get_or,
}
use faith.Proto.Status.{
  Status, ok, invalid, overflow, bad_frame, bad_envelope, too_large, incomplete, unsupported_ver,
  nomem,
}
use faith.Proto.Codec.Steps.{
  Outcome, done, fail, ◌>>=◌, ◌>>◌, pure, guard, stop, when, deferred, check_return, Step,
}
use faith.Proto.Codec.Words.{be}
use faith.Proto.Codec.Encode.{
  Buf, Writer, append, append_nonempty, encode_u16_be, encode_u32_be, encode_u64_be, Encoded,
  encode_with, is_null, cells_of, encode_epilogue,
}
use faith.Proto.Codec.Decode.{
  Payload, Cursor, Reader, decode_bytes, decode_u16_be, decode_u32_be, decode_u64_be, assign,
  current, remaining, decode_block, ne, lt, decode_epilogue, Decoded, decode_with, returned,
}
use faith.Proto.Codec.Encode.Writes.{IsBlock}

abbrev pub command_id_size : ℕ
command_id_size = 16

abbrev pub command_payload_size_max : ℕ
command_payload_size_max = 512

-- faith_envl_cts_command_t
pub record Command : Type 0 where
  pub cmd_id : List ℕ
  pub kind : ℕ
  pub payload_size : ℕ
  pub payload : Option (List ℕ)

-- FAITH_ENVL_CTS_COMMAND_BODY_SIZE_FIXED
abbrev pub command_body_size_fixed : ℕ
command_body_size_fixed = 24

-- The fixed size and the payload's, added as 32-bit numbers.
abbrev pub command_body_size : Command → ℕ
command_body_size m = (command_body_size_fixed + m.payload_size) % 2 ^ 32

write_command : Command → Writer
write_command msg = do
  guard (ltb command_payload_size_max msg.payload_size) overflow
  append (some msg.cmd_id) command_id_size
  encode_u32_be msg.kind
  encode_u32_be msg.payload_size
  append_nonempty msg.payload msg.payload_size

pub encode_command_body : Option (List ℕ) → Option ℕ → ℕ → Option Command → Encoded
unfolding write_command
encode_command_body = encode_with command_body_size write_command

abbrev put_payload : Option (List ℕ) → Command → Command
put_payload p o = record o { payload = p }

read_command : (ℕ → Bool) → Reader Command (Unit {0})
read_command alloc = do
  cmd_id ← decode_bytes command_id_size
  assign (λ o. record o { cmd_id = cmd_id })
  kind ← decode_u32_be
  assign (λ o. record o { kind = kind })
  payload_size ← decode_u32_be
  assign (λ o. record o { payload_size = payload_size })
  guard (ltb command_payload_size_max payload_size) bad_envelope
  decode_block alloc payload_size put_payload
  deferred (λ c. record c { out = put_payload none c.out })
      (decode_epilogue ne ((command_body_size_fixed + payload_size) % 2 ^ 32))

abbrev pub zeroed_command : Command
zeroed_command = record { cmd_id = replicate 16 0; kind = 0; payload_size = 0; payload = none }

pub decode_command_body : (ℕ → Bool) → Option (List ℕ) → ℕ → Option Command → Decoded Command
unfolding read_command
decode_command_body alloc =
    decode_with zeroed_command lt command_body_size_fixed (read_command alloc)

-- faith_envl_stc_command_result_t
pub record CommandResult : Type 0 where
  pub cmd_id : List ℕ
  pub kind : ℕ
  pub err : ℕ
  pub result : ℕ

-- FAITH_ENVL_STC_COMMAND_RESULT_BODY_SIZE
abbrev pub command_result_body_size : ℕ
command_result_body_size = 28

write_command_result : CommandResult → Writer
write_command_result msg = do
  append (some msg.cmd_id) command_id_size
  encode_u32_be msg.kind
  encode_u32_be msg.err
  encode_u32_be msg.result

pub encode_command_result_body : Option (List ℕ) → Option ℕ → ℕ → Option CommandResult → Encoded
unfolding write_command_result
encode_command_result_body = encode_with (λ _. command_result_body_size) write_command_result

read_command_result : Reader CommandResult (Unit {0})
read_command_result = do
  cmd_id ← decode_bytes command_id_size
  assign (λ o. record o { cmd_id = cmd_id })
  kind ← decode_u32_be
  assign (λ o. record o { kind = kind })
  err ← decode_u32_be
  assign (λ o. record o { err = err })
  result ← decode_u32_be
  assign (λ o. record o { result = result })
  decode_epilogue ne command_result_body_size

abbrev zeroed_command_result : CommandResult
zeroed_command_result = record { cmd_id = replicate 16 0; kind = 0; err = 0; result = 0 }

pub decode_command_result_body : Option (List ℕ) → ℕ → Option CommandResult → Decoded CommandResult
unfolding read_command_result
decode_command_result_body =
    decode_with zeroed_command_result ne command_result_body_size read_command_result

-- faith_cmd_create_converstation_t
pub record CreateConversation : Type 0 where
  pub conversant_id : List ℕ

-- FAITH_CMD_CREATE_CONVERSATION_BODY_SIZE
abbrev pub create_conversation_body_size : ℕ
create_conversation_body_size = 16

write_create_conversation : CreateConversation → Writer
write_create_conversation msg = append (some msg.conversant_id) 16

pub encode_cmd_create_conversation :
    Option (List ℕ) → Option ℕ → ℕ → Option CreateConversation → Encoded
unfolding write_create_conversation
encode_cmd_create_conversation =
    encode_with (λ _. create_conversation_body_size) write_create_conversation

read_create_conversation : Reader CreateConversation (Unit {0})
read_create_conversation = do
  conversant_id ← decode_bytes 16
  assign (λ o. record o { conversant_id = conversant_id })
  decode_epilogue ne create_conversation_body_size

pub decode_cmd_create_conversation :
    Option (List ℕ) → ℕ → Option CreateConversation → Decoded CreateConversation
unfolding read_create_conversation
decode_cmd_create_conversation =
    decode_with (record { conversant_id = replicate 16 0 }) ne create_conversation_body_size
      read_create_conversation

-- The id has its declared size, the numbers their widths, and the payload is within the limit.
pub record IsCommand (m : Command) : Type 0 where
  pub cmd_id : length m.cmd_id ≡ command_id_size
  pub kind : m.kind < 2 ^ 32
  pub limit : m.payload_size ≤ command_payload_size_max
  pub payload : IsBlock m.payload m.payload_size

pub record IsCommandResult (m : CommandResult) : Type 0 where
  pub cmd_id : length m.cmd_id ≡ command_id_size
  pub kind : m.kind < 2 ^ 32
  pub err : m.err < 2 ^ 32
  pub result : m.result < 2 ^ 32

pub record IsCreateConversation (m : CreateConversation) : Type 0 where
  pub conversant_id : length m.conversant_id ≡ 16
