-- ===== src/Proto/Core.antt =====
-- faith-proto/src/core/core.c: versions, and identifiers in hexadecimal.
pub mod Version
pub mod Names
use faith.Common.{
  ℕ, zero, suc, ◌+◌, ◌-◌, ◌*◌, ◌%◌, ◌/◌, ◌^◌, ◌≤◌, ◌<◌, ◌≡◌, ap, sym, ◌∙◌, append_assoc, bit_or,
  bit_and, refl, arith, List, [], ◌∷◌, ◌++◌, Bool, true, false, not, ◌&&◌, ◌||◌, Option, none, some,
  ltb, leb, ◌==◌, if◌then◌else◌, length, replicate, take, drop, concat, set, copy_at, get_or,
}
use faith.Proto.Status.{
  Status, ok, invalid, overflow, bad_frame, bad_envelope, too_large, incomplete, unsupported_ver,
  nomem,
}
use faith.Proto.Codec.Steps.{
  Outcome, done, fail, ◌>>=◌, ◌>>◌, pure, guard, stop, when, deferred, check_return, Step,
}
use faith.Proto.Codec.Words.{be}
use faith.Proto.Codec.Encode.{
  Buf, Writer, append, append_nonempty, encode_u16_be, encode_u32_be, encode_u64_be, Encoded,
  encode_with, is_null, cells_of, encode_epilogue, advance, put_cells,
}
use faith.Proto.Codec.Decode.{
  Payload, Cursor, Reader, decode_bytes, payload_size, offset, decode_u16_be, decode_u32_be,
  decode_u64_be, assign, current, remaining, decode_block, ne, lt, decode_epilogue, Decoded,
  decode_with, returned,
}

-- ((major & 0x1f) << 11) | ((minor & 0x1f) << 6) | (patch & 0x3f), as a uint16_t.
pub version_pack : ℕ → ℕ → ℕ → ℕ
version_pack major minor patch =
    bit_or (bit_or (bit_and major 0x1f * 2 ^ 11) (bit_and minor 0x1f * 2 ^ 6)) (bit_and patch 0x3f)
    % 2 ^ 16

pub version_major : ℕ → ℕ
version_major v = bit_and (v / 2 ^ 11) 0x1f % 2 ^ 8

pub version_minor : ℕ → ℕ
version_minor v = bit_and (v / 2 ^ 6) 0x1f % 2 ^ 8

pub version_patch : ℕ → ℕ
version_patch v = bit_and v 0x3f % 2 ^ 8

-- FAITH_PROTO_VERSION is faith_version_pack(0, 0, 1).
abbrev pub proto_version : ℕ
proto_version = 1

-- The digit that `%02x` prints for a value below 16, as a character code.
hex_digit : ℕ → ℕ
hex_digit d = if ltb d 10 then d + b'0' else d - 10 + b'a'

-- The loop of faith_id128_to_hex over the bytes; every `snprintf` writes two digits and a final
-- zero, which the next overwrites.
id128_to_hex : List ℕ → List ℕ
unfolding hex_digit
id128_to_hex [] = 0 ∷ []
id128_to_hex (b ∷ bs) = hex_digit (b / 16) ∷ hex_digit (b % 16) ∷ id128_to_hex bs
