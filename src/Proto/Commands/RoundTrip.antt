-- ===== src/Proto/Commands/RoundTrip.antt =====
-- What the decoders of the command bodies make of what the encoders wrote.
use faith.Common.{
  ℕ, ◌^◌, ◌≤◌, ◌<◌, ◌≡◌, refl, arith, List, [], ◌∷◌, Bool, true, false, some, ltb, length, concat,
}
use faith.Proto.Codec.Words.{be}
use faith.Proto.Codec.Encode.{cells_of}
use faith.Proto.Codec.Encode.Writes.{writing, >>-Writes, guard-Writes}
use faith.Proto.Codec.Decode.Reads.{
  field-Finishes, >>=-Finishes, assign-Finishes, guard-Finishes, block-Finishes, deferred-Finishes,
  decode_bytes-Reads, decode_u32_be-Reads, epilogue_ne-Finishes,
}
use faith.Proto.Codec.RoundTrip.{ReadsBack, encode_with-decode_with}
use faith.Proto.Commands.{
  Command, IsCommand, put_payload, command_payload_size_max, command_body_size, encode_command_body,
  decode_command_body, CommandResult, IsCommandResult, encode_command_result_body,
  decode_command_result_body, command_result_body_size, CreateConversation, IsCreateConversation,
  encode_cmd_create_conversation, decode_cmd_create_conversation, create_conversation_body_size,
}
use faith.Common.{length-append}
use faith.Proto.Codec.Encode.Writes.{length-cells_of}

-- Command id, kind, payload size, payload.
abbrev pub command_bytes : Command → List ℕ
command_bytes m = concat (m.cmd_id ∷ be 4 m.kind ∷ be 4 m.payload_size ∷ cells_of m.payload ∷ [])

-- A COMMAND body with a payload of at most 512 bytes, encoded into a buffer with room for it, is laid out
-- at its front as command id, type, payload size and payload, the numbers in 4 bytes with the highest
-- first, and leaves the cells behind; it is reported with its size, and decoded to itself if the
-- decoder's allocation succeeds.
pub decode_command_body-encode_command_body :
    (msg : Command) (cells : List ℕ) (n buf_cap : ℕ) (old : Command) (alloc : ℕ → Bool)
    → IsCommand msg
    → alloc msg.payload_size ≡ true
    → command_body_size msg ≤ buf_cap
    → command_body_size msg ≤ length cells
    → ReadsBack
        (encode_command_body (some cells) (some n) buf_cap (some msg))
        (decode_command_body alloc)
        (command_body_size msg)
        old
        msg
        (command_bytes msg)
        cells
unfolding encode_command_body decode_command_body
decode_command_body-encode_command_body msg cells n buf_cap old alloc valid granted fits room =
    let small : msg.payload_size < 2 ^ 32 = omega arith in
    let below : ltb command_payload_size_max msg.payload_size ≡ false = ground arith in
    encode_with-decode_with _ _ _ _ _ _ msg (command_bytes msg)
      (>>-Writes (guard-Writes _ below) (search writing depth 14))
      (field-Finishes _ (decode_bytes-Reads valid.cmd_id) (
        field-Finishes _ (decode_u32_be-Reads valid.kind) (
          >>=-Finishes _ (decode_u32_be-Reads small) (
            assign-Finishes _ _ (
              guard-Finishes _ below (
                block-Finishes alloc _ put_payload msg.payload valid.payload granted refl (
                  deferred-Finishes _ (
                    epilogue_ne-Finishes (
                      omega
                        (arith, length-cells_of msg.payload msg.payload_size valid.payload))))))))))
      (simp length-append
        (omega (arith, length-cells_of msg.payload msg.payload_size valid.payload)))
      (omega arith) (ground arith) cells n buf_cap old fits room

-- Command id, kind, error, result.
abbrev pub command_result_bytes : CommandResult → List ℕ
command_result_bytes m = concat (m.cmd_id ∷ be 4 m.kind ∷ be 4 m.err ∷ be 4 m.result ∷ [])

-- A COMMAND_RESULT body of an id and three 32-bit numbers, encoded into a buffer with room for it, is
-- reported as 28 bytes and decoded to itself.
pub decode_command_result_body-encode_command_result_body :
    (msg : CommandResult) (cells : List ℕ) (n buf_cap : ℕ) (old : CommandResult)
    → IsCommandResult msg
    → command_result_body_size ≤ buf_cap
    → command_result_body_size ≤ length cells
    → ReadsBack
        (encode_command_result_body (some cells) (some n) buf_cap (some msg))
        decode_command_result_body
        command_result_body_size
        old
        msg
        (command_result_bytes msg)
        cells
unfolding encode_command_result_body decode_command_result_body
decode_command_result_body-encode_command_result_body msg cells n buf_cap old valid fits room =
    encode_with-decode_with _ _ _ _ _ _ msg (command_result_bytes msg) (search writing depth 14)
      (field-Finishes _ (decode_bytes-Reads valid.cmd_id) (
        field-Finishes _ (decode_u32_be-Reads valid.kind) (
          field-Finishes _ (decode_u32_be-Reads valid.err) (
            field-Finishes _ (decode_u32_be-Reads valid.result)
              (epilogue_ne-Finishes (omega arith))))))
      (simp length-append (omega arith)) (omega arith) refl cells n buf_cap old fits room

-- The other party's id.
abbrev pub create_conversation_bytes : CreateConversation → List ℕ
create_conversation_bytes m = concat (m.conversant_id ∷ [])

-- A CREATE_CONVERSATION payload, encoded into a buffer with room for it, is reported as 16 bytes and
-- decoded to itself.
pub decode_cmd_create_conversation-encode_cmd_create_conversation :
    (msg : CreateConversation) (cells : List ℕ) (n buf_cap : ℕ) (old : CreateConversation)
    → IsCreateConversation msg
    → create_conversation_body_size ≤ buf_cap
    → create_conversation_body_size ≤ length cells
    → ReadsBack
        (encode_cmd_create_conversation (some cells) (some n) buf_cap (some msg))
        decode_cmd_create_conversation
        create_conversation_body_size
        old
        msg
        (create_conversation_bytes msg)
        cells
unfolding encode_cmd_create_conversation decode_cmd_create_conversation
decode_cmd_create_conversation-encode_cmd_create_conversation msg cells n buf_cap old valid fits
      room =
    encode_with-decode_with _ _ _ _ _ _ msg (create_conversation_bytes msg)
      (search writing depth 14)
      (field-Finishes _ (decode_bytes-Reads valid.conversant_id)
        (epilogue_ne-Finishes (omega arith)))
      (simp length-append (omega arith)) (omega arith) refl cells n buf_cap old fits room
