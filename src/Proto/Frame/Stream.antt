-- ===== src/Proto/Frame/Stream.antt =====
-- What faith_decode_frame makes of a buffer that begins with an encoded frame.
use faith.Common.{
  if◌then◌else◌, ◌==◌, ℕ, ◌+◌, ◌≤◌, ◌<◌, ◌≡◌, refl, arith, List, [], ◌++◌, Bool, true, none, some,
  length, ltb,
}
use faith.Proto.Status.{incomplete}
use faith.Proto.Codec.Words.{be}
use faith.Proto.Codec.Encode.{cells_of}
use faith.Proto.Codec.Decode.{lt}
use faith.Common.{
  ℕ, ◌+◌, ◌≤◌, ◌<◌, ◌≡◌, refl, arith, List, [], ◌++◌, Bool, true, none, some, length,
}
use faith.Proto.Status.{incomplete}
use faith.Proto.Codec.Words.{be}
use faith.Proto.Codec.Encode.{cells_of}
use faith.Proto.Codec.Decode.{lt}
use faith.Proto.Codec.Encode.Writes.{length-cells_of}
use faith.Proto.Codec.Decode.Outcomes.{epilogue_ok-Ends, epilogue_stops-Ends}
use faith.Proto.Frame.{Frame, zeroed_frame, Status, decode_frame, ok, bad_frame}
use faith.Proto.Frame.Layout.{frame_bytes, frame_incomplete, frame_body, decode_frame-Ends, IsFrame}

-- What a buffer of `size` bytes that begins with the encoding of `m` is answered.
abbrev pub stream_answer : Frame → ℕ → Frame → Status × Frame
stream_answer m size old =
    if ltb size 8
    then (incomplete, old)
    else if ltb size (8 + m.payload_size)
    then (incomplete, zeroed_frame)
    else if size == (8 + m.payload_size)
    then (ok, m)
    else (bad_frame, record m { payload = none })

module _ (alloc : ℕ → Bool) (m : Frame) (rest : List ℕ) (size : ℕ) (old : Frame) (valid : IsFrame m)
    (granted : alloc m.payload_size ≡ true) where
  answer : Status × Frame
  answer = decode_frame alloc (some (frame_bytes m ++ rest)) size old

  too_early : ltb size 8 ≡ true → answer ≡ (incomplete, old)
  unfolding answer decode_frame
  too_early e = rw e refl

  too_short : 8 ≤ size → size < 8 + m.payload_size → answer ≡ (incomplete, zeroed_frame)
  unfolding answer frame_bytes
  too_short h k = decode_frame-Ends alloc m valid granted rest size old h (
      frame_incomplete alloc m valid granted
        (be 2 m.proto_ver ++ (be 2 m.msg_type ++ (cells_of m.payload ++ []))) size h k)

  whole : length (cells_of m.payload) ≡ m.payload_size
  whole = length-cells_of m.payload m.payload_size valid.payload

  exact : size ≡ 8 + m.payload_size → answer ≡ (ok, m)
  unfolding answer
  exact e = decode_frame-Ends alloc m valid granted rest size old (omega arith) (
      frame_body alloc m valid granted size (omega arith)
        (epilogue_ok-Ends _ lt _ (ground (arith, whole)) (ground (arith, whole))))

  trailing : 8 + m.payload_size < size → answer ≡ (bad_frame, record m { payload = none })
  unfolding answer
  trailing h = decode_frame-Ends alloc m valid granted rest size old (omega arith) (
      frame_body alloc m valid granted size (omega arith)
        (epilogue_stops-Ends _ lt _ (ground (arith, whole))))

-- A frame of at most 256 payload bytes, whose allocation succeeds, stands at the front of a buffer
-- whose size is `size`. Below eight bytes the answer is FAITH_ERR_INCOMPLETE and `*out` keeps its
-- value; below the frame's size it is FAITH_ERR_INCOMPLETE with `*out` cleared; at exactly its size
-- it is FAITH_OK and the frame; and a size that reaches behind the frame is refused with
-- FAITH_ERR_BAD_FRAME and a null payload.
pub decode_frame_stream :
    (alloc : ℕ → Bool) (m : Frame) (rest : List ℕ) (size : ℕ) (old : Frame)
    → IsFrame m
    → alloc m.payload_size ≡ true
    → decode_frame alloc (some (frame_bytes m ++ rest)) size old ≡ stream_answer m size old
unfolding answer
decode_frame_stream alloc m rest size old valid granted = ground (
  arith,
  too_early alloc m rest size old valid granted,
  too_short alloc m rest size old valid granted,
  exact alloc m rest size old valid granted,
  trailing alloc m rest size old valid granted,
)
