-- ===== src/Proto/Codec/RoundTrip.antt =====
-- An encoder and a decoder that agree on the bytes of a value.
use faith.Common.{
  ℕ, ◌^◌, ◌≤◌, ◌<◌, ◌≡◌, refl, sym, ap, ◌∙◌, List, ◌++◌, Bool, false, Option, some, length, drop,
}
use faith.Proto.Status.{ok}
use faith.Proto.Codec.Encode.{Writer, Encoded, encode_with}
use faith.Proto.Codec.Encode.Writes.{Writes, encode_with-ok}
use faith.Proto.Codec.Decode.{Reader, Decoded, decode_with}
use faith.Proto.Codec.Decode.Reads.{Finishes, decode_with-ok, decoded_ok}

-- The encoder reports success and the size, it leaves the layout at the front of the buffer and the
-- cells behind it, and the decoder makes the value of that many bytes of the buffer.
abbrev pub ReadsBack :
    {T : Type 0}
    → Encoded
    → (Option (List ℕ) → ℕ → Option T → Decoded T)
    → ℕ
    → T
    → T
    → List ℕ
    → List ℕ
    → Type 0
ReadsBack e decode size old msg layout cells =
    (e.status ≡ ok)
    × (e.out_size ≡ some size)
    × (e.out_buf ≡ some (layout ++ drop size cells))
    × (decode e.out_buf size (some old) ≡ decoded_ok msg)

pub encode_with-decode_with :
    {T : Type 0} (envl_size : T → ℕ) (body : T → Writer) (zeroed : T) (sign : ℕ → ℕ → Bool)
    (least : ℕ) (parse : Reader T (Unit {0})) (msg : T) (bs : List ℕ)
    → Writes (body msg) bs
    → Finishes 0 parse bs zeroed msg
    → length bs ≡ envl_size msg
    → envl_size msg < 2 ^ 32
    → sign (envl_size msg) least ≡ false
    → (cells : List ℕ) (n buf_cap : ℕ) (old : T) → envl_size msg ≤ buf_cap
    → envl_size msg ≤ length cells
    → ReadsBack
        (encode_with envl_size body (some cells) (some n) buf_cap (some msg))
        (decode_with zeroed sign least parse)
        (envl_size msg)
        old
        msg
        bs
        cells
encode_with-decode_with envl_size body zeroed sign least parse msg bs w f e small s cells n buf_cap
      old fits room =
    rw (encode_with-ok envl_size body msg bs w cells n buf_cap e small fits room)
      (refl, refl, refl, read)
  where
    read :
        decode_with zeroed sign least parse
          (some (bs ++ drop (envl_size msg) cells))
          (envl_size msg)
          (some old)
        ≡ decoded_ok msg
    read =
        ap
          (λ (k : ℕ).
            decode_with zeroed sign least parse (some (bs ++ drop (envl_size msg) cells)) k
              (some old))
          (sym e)
        ∙ decode_with-ok zeroed sign least parse f (ap (λ (k : ℕ). sign k least) e ∙ s)
            (drop (envl_size msg) cells) old
