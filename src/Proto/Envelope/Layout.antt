-- ===== src/Proto/Envelope/Layout.antt =====
-- The bytes of an envelope, which the encoder writes into memory of just its size.
use faith.Common.{refl, ◌∙◌, ℕ, ◌≡◌, some, replicate, length-replicate, arith}
use faith.Proto.Codec.Encode.Writes.{encoded_ok, encoded_ok_exact, encode_with-ok}
use faith.Proto.Envelope.{Envelope, IsEnvelope, in_size, write_envelope, encode_envelope}
use faith.Proto.Envelope.RoundTrip.{
  envelope_bytes, length-envelope_bytes, write_envelope-Writes, encode_envelope-encode_with,
}

pub encode_envelope-envelope_bytes :
    (m : Envelope) (junk n : ℕ)
    → IsEnvelope m
    → encode_envelope (some (replicate (in_size m) junk)) (some n) (in_size m) (some m)
      ≡ encoded_ok (envelope_bytes m) (in_size m)
encode_envelope-envelope_bytes m junk n valid =
    let cells = replicate (in_size m) junk in
    let long = length-replicate (in_size m) junk in
    encode_envelope-encode_with m cells n (in_size m) valid
    ∙ encode_with-ok in_size write_envelope m (envelope_bytes m) (write_envelope-Writes m valid)
        cells n (in_size m) (length-envelope_bytes m valid) valid.fits (omega arith)
        (omega (arith, long))
    ∙ encoded_ok_exact (envelope_bytes m) cells (in_size m) (in_size m) refl long
