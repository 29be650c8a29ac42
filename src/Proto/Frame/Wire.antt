-- ===== src/Proto/Frame/Wire.antt =====
-- Frames of any size, as faith_encode_frame writes them: the server's frames may be larger than those
-- that the decoder accepts from a client.
use faith.Common.{
  refl, sym, ◌∙◌, replicate, length-replicate, ℕ, ◌+◌, ◌%◌, ◌^◌, ◌<◌, ◌≡◌, arith, List, [], ◌∷◌,
  some, length, concat, length-append,
}
use faith.Proto.Codec.Words.{be}
use faith.Proto.Codec.Encode.{cells_of}
use faith.Proto.Codec.Encode.Writes.{
  Writes, writing, IsBlock, encoded_ok, encoded_ok_exact, length-cells_of, encode_with-ok,
}
use faith.Proto.Frame.{Frame, frame_wire_size, write_frame, encode_frame, overflow}
use faith.Proto.Status.{overflow}
use faith.Proto.Codec.Encode.Stops.{encode_with-no_room}

-- The version and the type have their widths, and the size is a 32-bit number.
pub record IsWireFrame (m : Frame) : Type 0 where
  pub proto_ver : m.proto_ver < 2 ^ 16
  pub msg_type : m.msg_type < 2 ^ 16
  pub fits : 8 + m.payload_size < 2 ^ 32
  pub payload : IsBlock m.payload m.payload_size

-- Length of the rest, version, type, payload; the field `frame_size` is not read.
unfoldable pub wire_bytes : Frame → List ℕ
wire_bytes m =
    concat
      (be 4 (4 + m.payload_size) ∷ be 2 m.proto_ver ∷ be 2 m.msg_type ∷ cells_of m.payload ∷ [])

pub length-wire_bytes : (m : Frame) → IsWireFrame m → length (wire_bytes m) ≡ 8 + m.payload_size
unfolding wire_bytes
length-wire_bytes m valid =
    simp length-append (omega (arith, length-cells_of m.payload m.payload_size valid.payload))

write_frame-wire_bytes : (m : Frame) → IsWireFrame m → Writes (write_frame m) (wire_bytes m)
unfolding write_frame wire_bytes
write_frame-wire_bytes m valid =
    let whole : (4 + m.payload_size) % 2 ^ 32 ≡ 4 + m.payload_size = omega (arith, valid.fits) in
    let small : 4 + m.payload_size < 2 ^ 32 = omega (arith, valid.fits) in
    rw whole (search writing depth 14)

-- Into memory of just its size.
pub encode_frame-wire_bytes :
    (m : Frame) (junk n : ℕ)
    → IsWireFrame m
    → encode_frame
        (some (replicate (8 + m.payload_size) junk))
        (some n)
        (8 + m.payload_size)
        (some m)
      ≡ encoded_ok (wire_bytes m) (8 + m.payload_size)
unfolding encode_frame
encode_frame-wire_bytes m junk n valid =
    let size : frame_wire_size m ≡ 8 + m.payload_size = omega (arith, valid.fits) in
    let cells = replicate (8 + m.payload_size) junk in
    let long = length-replicate (8 + m.payload_size) junk in
    encode_with-ok frame_wire_size write_frame m (wire_bytes m) (write_frame-wire_bytes m valid)
      cells n (8 + m.payload_size) (length-wire_bytes m valid ∙ sym size)
      (omega (arith, valid.fits)) (omega arith) (omega (arith, long))
    ∙ encoded_ok_exact (wire_bytes m) cells (frame_wire_size m) (8 + m.payload_size) size long

-- A buffer that is too small for the length.
pub encode_frame-no_room :
    (m : Frame) (cells : List ℕ) (n buf_cap : ℕ)
    → buf_cap < 4
    → (encode_frame (some cells) (some n) buf_cap (some m)).status ≡ overflow
unfolding encode_frame write_frame
encode_frame-no_room m cells n buf_cap h =
    encode_with-no_room frame_wire_size write_frame m _ _ refl cells n buf_cap h
