-- ===== src/Proto/Frame/Layout.antt =====
-- The layout of a frame, which the encoder writes, and how the decoder ends on a part or the whole.
use faith.Common.{
  Bool-cases, tests, inl, inr, take, take-append-drop, le→ltb, ℕ, ◌+◌, ◌-◌, ◌%◌, ◌^◌, ◌≤◌, ◌<◌, ◌≡◌,
  ap, sym, ◌∙◌, refl, arith, List, [], ◌∷◌, ◌++◌, Bool, true, none, some, length, drop, concat, ltb,
}
use faith.Proto.Status.{incomplete}
use faith.Proto.Codec.Steps.{Outcome, fail, deferred}
use faith.Proto.Codec.Words.{be}
use faith.Proto.Codec.Encode.{cells_of}
use faith.Proto.Codec.Decode.{Cursor, lt, decode_epilogue}
use faith.Proto.Codec.Encode.Writes.{Writes, writing, IsBlock, encoded_ok}
use faith.Proto.Codec.Decode.Reads.{decode_u16_be-Reads, decode_u32_be-Reads, cursor}
use faith.Common.{
  ℕ, ◌+◌, ◌-◌, ◌%◌, ◌^◌, ◌≤◌, ◌<◌, ◌≡◌, ap, sym, ◌∙◌, refl, arith, List, [], ◌∷◌, ◌++◌, Bool, true,
  none, some, length, drop, concat,
}
use faith.Proto.Status.{incomplete}
use faith.Proto.Codec.Steps.{Outcome, fail, deferred}
use faith.Proto.Codec.Words.{be}
use faith.Proto.Codec.Encode.{cells_of}
use faith.Proto.Codec.Decode.{Cursor, lt, decode_epilogue}
use faith.Common.{length-append}
use faith.Proto.Core.{proto_version}
use faith.Proto.Codec.Encode.Writes.{length-cells_of, encode_with-ok}
use faith.Proto.Codec.Decode.Outcomes.{
  Ends, >>=-Ends, assign-Ends, guard-Ends, guard_stops-Ends, payload_size-Ends, block-Ends,
}
use faith.Proto.Frame.{
  Frame, frame_wire_size, write_frame, encode_frame, put_payload, read_frame, zeroed_frame, Status,
  decode_frame, frame_outcome,
}

-- A frame of this version of the protocol that a client may send.
pub record IsFrame (m : Frame) : Type 0 where
  pub frame_size : m.frame_size ≡ 4 + m.payload_size
  pub proto_ver : m.proto_ver ≡ proto_version
  pub msg_type : m.msg_type < 2 ^ 16
  pub limit : m.payload_size ≤ 256
  pub payload : IsBlock m.payload m.payload_size

-- Length of the rest, version, type, payload.
unfoldable pub frame_bytes : Frame → List ℕ
frame_bytes m =
    concat (be 4 m.frame_size ∷ be 2 m.proto_ver ∷ be 2 m.msg_type ∷ cells_of m.payload ∷ [])

pub length-frame_bytes : (m : Frame) → IsFrame m → length (frame_bytes m) ≡ 8 + m.payload_size
unfolding frame_bytes
length-frame_bytes m valid =
    simp length-append (omega (arith, length-cells_of m.payload m.payload_size valid.payload))

write_frame-Writes : (m : Frame) → IsFrame m → Writes (write_frame m) (frame_bytes m)
unfolding write_frame frame_bytes
write_frame-Writes m valid =
    let whole : (4 + m.payload_size) % 2 ^ 32 ≡ m.frame_size =
      omega (arith, valid.limit, valid.frame_size) in
    let small : m.frame_size < 2 ^ 32 = omega (arith, valid.limit, valid.frame_size) in
    let version : m.proto_ver < 2 ^ 16 = omega (arith, valid.proto_ver) in
    rw whole (search writing depth 14)

-- A frame with a payload of at most 256 bytes is encoded as these bytes, at the front of a buffer
-- with room for them, whose other cells keep their values.
pub encode_frame-frame_bytes :
    (m : Frame) (cells : List ℕ) (n buf_cap : ℕ)
    → IsFrame m
    → 8 + m.payload_size ≤ buf_cap
    → 8 + m.payload_size ≤ length cells
    → encode_frame (some cells) (some n) buf_cap (some m)
      ≡ encoded_ok (frame_bytes m ++ drop (8 + m.payload_size) cells) (8 + m.payload_size)
unfolding encode_frame
encode_frame-frame_bytes m cells n buf_cap valid fits room =
    let size : frame_wire_size m ≡ 8 + m.payload_size = omega (arith, valid.limit) in
    encode_with-ok frame_wire_size write_frame m (frame_bytes m) (write_frame-Writes m valid) cells
      n buf_cap (length-frame_bytes m valid ∙ sym size) (omega (arith, valid.limit)) (omega arith)
      (omega arith)
    ∙ ap (λ (k : ℕ). encoded_ok (frame_bytes m ++ drop k cells) k) size

module _ (alloc : ℕ → Bool) (m : Frame) (valid : IsFrame m)
    (granted : alloc m.payload_size ≡ true) where
  -- The length alone shows it, whatever stands behind.
  pub frame_incomplete :
      (behind : List ℕ) (size : ℕ)
      → 8 ≤ size
      → size < 8 + m.payload_size
      → Ends 0
          (read_frame alloc)
          (be 4 m.frame_size ++ behind)
          size
          zeroed_frame
          (fail incomplete (cursor 4 zeroed_frame))
  unfolding read_frame
  frame_incomplete behind size h k =
      >>=-Ends _ (decode_u32_be-Reads (omega (arith, valid.frame_size, valid.limit))) (omega arith)
        (guard-Ends _ (ground (arith, valid.frame_size)) (
          guard-Ends _ (ground (arith, valid.frame_size, valid.limit)) (
            guard-Ends _ (ground (arith, valid.frame_size, valid.limit))
              (payload_size-Ends _ (guard_stops-Ends _ _ (ground (arith, valid.frame_size)))))))

  pub frame_body :
      (size : ℕ) {r : Outcome (Cursor Frame) (Unit {0})}
      → 8 + m.payload_size ≤ size
      → Ends
          (8 + length (cells_of m.payload))
          (deferred
            (λ c. record c { out = put_payload none c.out })
            (decode_epilogue lt (8 + m.payload_size)))
          []
          size
          m
          r
      → Ends 0 (read_frame alloc) (frame_bytes m) size zeroed_frame r
  unfolding read_frame frame_bytes
  frame_body size h last =
      let n : m.frame_size - 4 ≡ m.payload_size = omega (arith, valid.frame_size) in
      >>=-Ends _ (decode_u32_be-Reads (omega (arith, valid.frame_size, valid.limit))) (omega arith)
        (guard-Ends _ (ground (arith, valid.frame_size)) (
          guard-Ends _ (ground (arith, valid.frame_size, valid.limit)) (
            guard-Ends _ (ground (arith, valid.frame_size, valid.limit)) (
              payload_size-Ends _ (
                guard-Ends _ (ground (arith, valid.frame_size)) (
                  >>=-Ends _ (decode_u16_be-Reads (omega (arith, valid.proto_ver))) (omega arith) (
                    >>=-Ends _ (decode_u16_be-Reads valid.msg_type) (omega arith) (
                      guard-Ends _ (ground (arith, valid.proto_ver)) (
                        assign-Ends _ _ (
                          rw n (
                            block-Ends alloc _ put_payload m.payload valid.payload (omega arith)
                              granted refl last)))))))))))

  pub decode_frame-Ends :
      {bs : List ℕ} (rest : List ℕ) (size : ℕ) (old : Frame) {r : Outcome (Cursor Frame) (Unit {0})}
      → 8 ≤ size
      → Ends 0 (read_frame alloc) bs size zeroed_frame r
      → decode_frame alloc (some (bs ++ rest)) size old ≡ frame_outcome r
  unfolding decode_frame
  decode_frame-Ends rest size old h f = rw (le→ltb size 8 h) (ap frame_outcome (f.run [] rest refl))

  early_answer :
      (bytes : List ℕ) (size : ℕ) (old : Frame)
      → ltb size 8 ≡ true
      → (decode_frame alloc (some bytes) size old).0 ≡ incomplete
  unfolding decode_frame
  early_answer bytes size old e = rw e refl

  -- Of a part of a frame, at most its length is read.
  pub decode_frame_part :
      (bytes : List ℕ) (size : ℕ) (old : Frame)
      → (8 ≤ size → take 4 bytes ≡ be 4 m.frame_size)
      → size < 8 + m.payload_size
      → (decode_frame alloc (some bytes) size old).0 ≡ incomplete
  decode_frame_part bytes size old front k = elim (Bool-cases (ltb size 8)) [
    | inl early ↦ early_answer bytes size old early
    | inr later ↦
        ap (λ (t : List ℕ). (decode_frame alloc (some t) size old).0)
          (sym (take-append-drop 4 bytes)
            ∙ ap (λ (t : List ℕ). t ++ drop 4 bytes) (front (omega tests)))
        ∙ ap (λ (q : Status × Frame). q.0)
            (decode_frame-Ends (drop 4 bytes) size old (omega tests)
              (frame_incomplete [] size (omega tests) k))
  ]

pub decode_frame_null :
    (alloc : ℕ → Bool) (size : ℕ) (old : Frame)
    → size ≡ 0
    → decode_frame alloc none size old ≡ (incomplete, old)
unfolding decode_frame
decode_frame_null alloc size old e = rw e refl
