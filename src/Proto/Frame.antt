-- ===== src/Proto/Frame.antt =====
-- Frames: faith_frame_t in faith-proto/include/faith-proto/codec/codec.h, and its coders in
-- faith-proto/src/codec/codec.c.
pub mod Layout
pub mod Stream
pub mod Wire
use faith.Common.{
  ℕ, zero, suc, ◌+◌, ◌-◌, ◌*◌, ◌%◌, ◌/◌, ◌^◌, ◌≤◌, ◌<◌, ◌≡◌, ap, sym, ◌∙◌, append_assoc, bit_or,
  bit_and, refl, arith, List, [], ◌∷◌, ◌++◌, Bool, true, false, not, ◌&&◌, ◌||◌, Option, none, some,
  ltb, leb, ◌==◌, if◌then◌else◌, length, replicate, take, drop, concat, set, copy_at, get_or,
}
use faith.Proto.Status.{
  Status, ok, invalid, overflow, bad_frame, bad_envelope, too_large, incomplete, unsupported_ver,
  nomem,
}
use faith.Proto.Codec.Steps.{
  Outcome, done, fail, ◌>>=◌, ◌>>◌, pure, guard, stop, when, deferred, check_return, Step,
}
use faith.Proto.Codec.Words.{be}
use faith.Proto.Codec.Encode.{
  Buf, Writer, append, append_nonempty, encode_u16_be, encode_u32_be, encode_u64_be, Encoded,
  encode_with, is_null, cells_of, encode_epilogue, advance, put_cells,
}
use faith.Proto.Codec.Decode.{
  Payload, Cursor, Reader, decode_bytes, payload_size, offset, decode_u16_be, decode_u32_be,
  decode_u64_be, assign, current, remaining, decode_block, ne, lt, decode_epilogue, Decoded,
  decode_with, returned,
}
use faith.Proto.Core.{proto_version}

abbrev pub frame_length_size : ℕ
frame_length_size = 4

abbrev pub frame_metadata_size : ℕ
frame_metadata_size = 4

abbrev pub frame_header_size : ℕ
frame_header_size = 8

abbrev pub max_cts_payload_size : ℕ
max_cts_payload_size = 256

abbrev pub max_cts_frame_size : ℕ
max_cts_frame_size = 512

pub record Frame : Type 0 where
  pub frame_size : ℕ
  pub proto_ver : ℕ
  pub msg_type : ℕ
  pub payload : Option (List ℕ)
  pub payload_size : ℕ

-- `FAITH_FRAME_HEADER_SIZE + in->payload_size`, a sum of 32-bit numbers.
abbrev pub frame_wire_size : Frame → ℕ
frame_wire_size m = (frame_header_size + m.payload_size) % 2 ^ 32

pub write_frame : Frame → Writer
write_frame msg = do
  encode_u32_be ((frame_metadata_size + msg.payload_size) % 2 ^ 32)
  encode_u16_be msg.proto_ver
  encode_u16_be msg.msg_type
  append_nonempty msg.payload msg.payload_size

pub encode_frame : Option (List ℕ) → Option ℕ → ℕ → Option Frame → Encoded
unfolding write_frame
encode_frame = encode_with frame_wire_size write_frame

abbrev put_payload : Option (List ℕ) → Frame → Frame
put_payload p o = record o { payload = p }

pub read_frame : (ℕ → Bool) → Reader Frame (Unit {0})
read_frame alloc = do
  frame_size ← decode_u32_be
  guard (ltb frame_size frame_metadata_size) bad_frame
  guard (ltb max_cts_payload_size (frame_size - frame_metadata_size)) too_large
  guard (ltb max_cts_frame_size frame_size) too_large
  size ← payload_size
  guard (ltb size (frame_length_size + frame_size)) incomplete
  proto_ver ← decode_u16_be
  msg_type ← decode_u16_be
  guard (not (proto_ver == proto_version)) unsupported_ver
  assign (λ o. record o {
    proto_ver = proto_ver;
    msg_type = msg_type;
    frame_size = frame_size;
    payload_size = frame_size - frame_metadata_size;
  })
  decode_block alloc (frame_size - frame_metadata_size) put_payload
  deferred (λ c. record c { out = put_payload none c.out })
      (decode_epilogue lt (frame_header_size + (frame_size - frame_metadata_size)))

abbrev pub zeroed_frame : Frame
zeroed_frame = record {
  frame_size = 0;
  proto_ver = 0;
  msg_type = 0;
  payload = none;
  payload_size = 0;
}

abbrev pub frame_outcome : Outcome (Cursor Frame) (Unit {0}) → Status × Frame
frame_outcome (done v c) = (ok, c.out)
frame_outcome (fail rc c) = (rc, c.out)

-- `out` is not null at any call. Before the first eight bytes are there it keeps its value.
pub decode_frame : (ℕ → Bool) → Option (List ℕ) → ℕ → Frame → Status × Frame
unfolding read_frame
decode_frame alloc none size old = (if size == 0 then incomplete else invalid, old)
decode_frame alloc (some bytes) size old =
    if ltb size frame_header_size
    then (incomplete, old)
    else frame_outcome (
        read_frame alloc (record { bytes = bytes; size = size })
          (record { off = 0; out = zeroed_frame }))

-- faith_free_frame, of a frame that is not null.
pub free_frame : Frame → Frame
free_frame frame = zeroed_frame
