-- ===== src/Proto/Disconnect.antt =====
-- CLIENT_DISCONNECT: faith-proto/include/faith-proto/codec/server.h, and its coders in
-- faith-proto/src/codec/codec.c. An enum is the 32-bit number that C keeps for it.
pub mod Layout
pub mod RoundTrip
use faith.Common.{
  ℕ, zero, suc, ◌+◌, ◌-◌, ◌*◌, ◌%◌, ◌/◌, ◌^◌, ◌≤◌, ◌<◌, ◌≡◌, ap, sym, ◌∙◌, append_assoc, bit_or,
  bit_and, refl, arith, List, [], ◌∷◌, ◌++◌, Bool, true, false, not, ◌&&◌, ◌||◌, Option, none, some,
  ltb, leb, ◌==◌, if◌then◌else◌, length, replicate, take, drop, concat, set, copy_at, get_or,
}
use faith.Proto.Status.{
  Status, ok, invalid, overflow, bad_frame, bad_envelope, too_large, incomplete, unsupported_ver,
  nomem,
}
use faith.Proto.Codec.Steps.{
  Outcome, done, fail, ◌>>=◌, ◌>>◌, pure, guard, stop, when, deferred, check_return, Step,
}
use faith.Proto.Codec.Words.{be}
use faith.Proto.Codec.Encode.{
  Buf, Writer, append, append_nonempty, encode_u16_be, encode_u32_be, encode_u64_be, Encoded,
  encode_with, is_null, cells_of, encode_epilogue, advance, put_cells,
}
use faith.Proto.Codec.Decode.{
  Payload, Cursor, Reader, decode_bytes, payload_size, offset, decode_u16_be, decode_u32_be,
  decode_u64_be, assign, current, remaining, decode_block, ne, lt, decode_epilogue, Decoded,
  decode_with, returned,
}

abbrev pub max_client_disconnect_msg : ℕ
max_client_disconnect_msg = 128

-- FAITH_ENVL_STC_CLIENT_DISCONNECT_BODY_SIZE_FIXED
abbrev pub client_disconnect_body_size_fixed : ℕ
client_disconnect_body_size_fixed = 26

-- faith_envl_stc_client_disconnect_t; `msg` is an array of 129 characters.
pub record ClientDisconnect : Type 0 where
  pub reconnect_policy : ℕ
  pub reason : ℕ
  pub retry_after_ms : ℕ
  pub banned_until_ms : ℕ
  pub msg_size : ℕ
  pub msg : List ℕ

-- FAITH_CLIENT_DISCONNECT_POLICIES, the cases of the switch.
abbrev pub is_policy : ℕ → Bool
is_policy n = leb n 1

-- FAITH_CLIENT_DISCONNECT_REASONS
abbrev pub is_reason : ℕ → Bool
is_reason n = leb n 15

-- strnlen(s, sizeof(s)) of a character array
unfoldable pub strnlen : List ℕ → ℕ
strnlen [] = 0
strnlen (c ∷ s) = let rest = strnlen s in if c == 0 then 0 else suc rest

abbrev pub client_disconnect_body_size : ClientDisconnect → ℕ
client_disconnect_body_size m = client_disconnect_body_size_fixed + strnlen m.msg

pub write_client_disconnect : ClientDisconnect → Writer
write_client_disconnect msg = do
  guard (not (is_policy msg.reconnect_policy)) bad_frame
  encode_u32_be msg.reconnect_policy
  encode_u32_be msg.reason
  guard (not (is_reason msg.reason)) bad_frame
  encode_u64_be msg.retry_after_ms
  encode_u64_be msg.banned_until_ms
  encode_u16_be (strnlen msg.msg % 2 ^ 16)
  append (some msg.msg) (strnlen msg.msg)

pub encode_client_disconnect_body :
    Option (List ℕ) → Option ℕ → ℕ → Option ClientDisconnect → Encoded
unfolding write_client_disconnect
encode_client_disconnect_body = encode_with client_disconnect_body_size write_client_disconnect

pub read_client_disconnect : Reader ClientDisconnect (Unit {0})
read_client_disconnect = do
  before ← current
  guard (not (is_policy before.reconnect_policy)) bad_frame
  reconnect_policy ← decode_u32_be
  assign (λ o. record o { reconnect_policy = reconnect_policy })
  now ← current
  guard (not (is_reason now.reason)) bad_frame
  reason ← decode_u32_be
  assign (λ o. record o { reason = reason })
  retry_after_ms ← decode_u64_be
  assign (λ o. record o { retry_after_ms = retry_after_ms })
  banned_until_ms ← decode_u64_be
  assign (λ o. record o { banned_until_ms = banned_until_ms })
  msg_size ← decode_u16_be
  assign (λ o. record o { msg_size = msg_size })
  guard (ltb max_client_disconnect_msg msg_size) bad_frame
  left ← remaining
  guard (not (msg_size == left)) bad_frame
  text ← decode_bytes msg_size
  assign (λ o. record o { msg = set (copy_at 0 text o.msg) msg_size 0 })
  decode_epilogue lt client_disconnect_body_size_fixed

abbrev pub zeroed_client_disconnect : ClientDisconnect
zeroed_client_disconnect = record {
  reconnect_policy = 0;
  reason = 0;
  retry_after_ms = 0;
  banned_until_ms = 0;
  msg_size = 0;
  msg = replicate 129 0;
}

pub decode_client_disconnect_body :
    Option (List ℕ) → ℕ → Option ClientDisconnect → Decoded ClientDisconnect
unfolding read_client_disconnect
decode_client_disconnect_body =
    decode_with zeroed_client_disconnect lt client_disconnect_body_size_fixed read_client_disconnect

-- The numbers have their widths, and the array holds a text of at most 128 characters without a NUL,
-- and NULs behind it. Policy and reason may be values that the enums do not name.
pub record IsClientDisconnect (m : ClientDisconnect) (text : List ℕ) : Type 0 where
  pub reconnect_policy : m.reconnect_policy < 2 ^ 32
  pub reason : m.reason < 2 ^ 32
  pub retry_after : m.retry_after_ms < 2 ^ 64
  pub banned_until : m.banned_until_ms < 2 ^ 64
  pub limit : length text ≤ max_client_disconnect_msg
  pub msg_size : m.msg_size ≡ length text
  pub no_nul : strnlen text ≡ length text
  pub msg : m.msg ≡ text ++ replicate (129 - length text) 0
