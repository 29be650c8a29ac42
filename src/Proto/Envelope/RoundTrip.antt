-- ===== src/Proto/Envelope/RoundTrip.antt =====
-- What the decoder of envelopes makes of what the encoder wrote.
use faith.Common.{
  ℕ, ◌^◌, ◌≤◌, ◌<◌, ◌≡◌, refl, arith, List, [], ◌∷◌, Bool, true, false, ◌&&◌, Option, none, some,
  ltb, length, concat,
}
use faith.Proto.Codec.Steps.{Outcome, done, fail}
use faith.Proto.Codec.Words.{be}
use faith.Proto.Codec.Encode.{Buf, encode_with, is_null, cells_of, encode_epilogue}
use faith.Proto.Codec.Encode.Writes.{Writes, writing, IsBlock}
use faith.Proto.Codec.Decode.Reads.{
  Finishes, field-Finishes, >>=-Finishes, assign-Finishes, guard-Finishes, remaining-Finishes,
  block-Finishes, deferred-Finishes, decode_bytes-Reads, decode_u32_be-Reads, epilogue_ne-Finishes,
}
use faith.Proto.Codec.RoundTrip.{ReadsBack, encode_with-decode_with}
use faith.Proto.Envelope.{
  Envelope, IsEnvelope, in_size, write_envelope, finish_envelope, encode_envelope, put_body,
  read_envelope, decode_envelope, zeroed_envelope,
}
use faith.Proto.Codec.Encode.Writes.{length-cells_of}
use faith.Common.{length-append}

-- Type, sender, recipient, body size, body.
pub envelope_bytes : Envelope → List ℕ
envelope_bytes m =
    concat (be 4 m.kind ∷ m.sender_id ∷ m.recipient_id ∷ be 4 m.body_size ∷ cells_of m.body ∷ [])

pub length-envelope_bytes : (m : Envelope) → IsEnvelope m → length (envelope_bytes m) ≡ in_size m
unfolding envelope_bytes
length-envelope_bytes m valid = simp length-append (
    omega
      (arith, length-cells_of m.body m.body_size valid.body, valid.sender_id, valid.recipient_id))

pub write_envelope-Writes :
    (m : Envelope) → IsEnvelope m → Writes (write_envelope m) (envelope_bytes m)
unfolding write_envelope envelope_bytes
write_envelope-Writes m valid =
    let small : m.body_size < 2 ^ 32 = omega (arith, valid.fits) in search writing depth 14

read_envelope-Finishes :
    (alloc : ℕ → Bool) (m : Envelope)
    → IsEnvelope m
    → alloc m.body_size ≡ true
    → Finishes 0 (read_envelope alloc) (envelope_bytes m) zeroed_envelope m
unfolding read_envelope envelope_bytes
read_envelope-Finishes alloc m valid granted =
    let n = length-cells_of m.body m.body_size valid.body in
    field-Finishes _ (decode_u32_be-Reads valid.kind) (
      field-Finishes _ (decode_bytes-Reads valid.sender_id) (
        field-Finishes _ (decode_bytes-Reads valid.recipient_id) (
          >>=-Finishes _ (decode_u32_be-Reads (omega (arith, valid.fits))) (
            assign-Finishes _ _ (
              remaining-Finishes _ (
                guard-Finishes _ (simp length-append (ground (arith, n))) (
                  block-Finishes alloc _ put_body m.body valid.body granted refl (
                    deferred-Finishes _ (
                      epilogue_ne-Finishes
                        (omega (arith, n, valid.sender_id, valid.recipient_id)))))))))))

finish_envelope-epilogue :
    (n : ℕ) (r : Outcome Buf (Unit {0})) → n < 2 ^ 32 → finish_envelope n r ≡ encode_epilogue n r
unfolding finish_envelope encode_epilogue
finish_envelope-epilogue n (done v s) h = ground arith
finish_envelope-epilogue n (fail rc s) h = refl

not_null_body : (ptr : Option (List ℕ)) (n : ℕ) → IsBlock ptr n → (ltb 0 n && is_null ptr) ≡ false
not_null_body none n e = rw e
not_null_body (some xs) n h = ground arith

pub encode_envelope-encode_with :
    (m : Envelope) (cells : List ℕ) (n buf_cap : ℕ)
    → IsEnvelope m
    → encode_envelope (some cells) (some n) buf_cap (some m)
      ≡ encode_with in_size write_envelope (some cells) (some n) buf_cap (some m)
unfolding encode_envelope encode_with
encode_envelope-encode_with m cells n buf_cap valid = rw (
  not_null_body m.body m.body_size valid.body,
  finish_envelope-epilogue (in_size m)
      (write_envelope m buf_cap (record { cells = cells; off = 0 })) valid.fits,
)

-- An envelope whose ids have 16 bytes and whose size does not reach 2^32, encoded into a buffer with
-- room for it, is laid out at its front as type, sender, recipient, body size and body, the numbers in 4
-- bytes with the highest first, and leaves the cells behind; it is reported with its size, and decoded
-- to itself if the decoder's allocation succeeds.
pub decode_envelope-encode_envelope :
    (msg : Envelope) (cells : List ℕ) (n buf_cap : ℕ) (old : Envelope) (alloc : ℕ → Bool)
    → IsEnvelope msg
    → alloc msg.body_size ≡ true
    → in_size msg ≤ buf_cap
    → in_size msg ≤ length cells
    → ReadsBack
        (encode_envelope (some cells) (some n) buf_cap (some msg))
        (decode_envelope alloc)
        (in_size msg)
        old
        msg
        (envelope_bytes msg)
        cells
unfolding decode_envelope
decode_envelope-encode_envelope msg cells n buf_cap old alloc valid granted fits room =
    rw (encode_envelope-encode_with msg cells n buf_cap valid) (
      encode_with-decode_with _ _ _ _ _ _ msg (envelope_bytes msg) (write_envelope-Writes msg valid)
        (read_envelope-Finishes alloc msg valid granted) (length-envelope_bytes msg valid)
        valid.fits (ground arith) cells n buf_cap old fits room)
