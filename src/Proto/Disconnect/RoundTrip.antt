-- ===== src/Proto/Disconnect/RoundTrip.antt =====
-- The calls of the coders of CLIENT_DISCONNECT.
use faith.Common.{
  ℕ, ◌+◌, ◌≤◌, ◌≡◌, ap, sym, ◌∙◌, arith, List, [], ◌++◌, true, false, some, if◌then◌else◌, length,
  drop,
}
use faith.Proto.Status.{bad_frame}
use faith.Proto.Codec.Words.{be}
use faith.Proto.Codec.Encode.{Encoded}
use faith.Proto.Codec.Decode.{lt}
use faith.Proto.Codec.Encode.Writes.{encoded_ok}
use faith.Proto.Codec.Decode.Reads.{decoded_ok, decode_with-ok}
use faith.Common.{
  ℕ, ◌+◌, ◌≤◌, ◌≡◌, ap, sym, ◌∙◌, arith, List, [], ◌++◌, true, false, some, if◌then◌else◌, length,
  drop,
}
use faith.Proto.Status.{bad_frame}
use faith.Proto.Codec.Words.{be}
use faith.Proto.Codec.Encode.{Encoded}
use faith.Proto.Codec.Decode.{lt}
use faith.Proto.Codec.Encode.Writes.{encoded_ok}
use faith.Proto.Codec.Decode.Reads.{decoded_ok, decode_with-ok}
use faith.Common.{
  ℕ, ◌+◌, ◌≤◌, ◌≡◌, ap, sym, ◌∙◌, arith, List, [], ◌++◌, true, false, some, if◌then◌else◌, length,
  drop,
}
use faith.Proto.Status.{bad_frame}
use faith.Proto.Codec.Words.{be}
use faith.Proto.Codec.Encode.{Encoded}
use faith.Proto.Codec.Decode.{lt}
use faith.Proto.Codec.Encode.Writes.{encoded_ok}
use faith.Proto.Codec.Decode.Reads.{decoded_ok, decode_with-ok}
use faith.Proto.Disconnect.{
  ClientDisconnect, IsClientDisconnect, is_policy, is_reason, client_disconnect_body_size,
  encode_client_disconnect_body, read_client_disconnect, decode_client_disconnect_body,
  zeroed_client_disconnect,
}
use faith.Proto.Codec.Encode.Writes.{encode_with-ok}
use faith.Proto.Codec.Encode.Stops.{encode_with-Stops}
use faith.Proto.Disconnect.Layout.{
  client_disconnect_bytes, length-client_disconnect_bytes, strnlen-msg,
  write_client_disconnect-Writes, bad_policy, bad_reason, read_client_disconnect-Finishes,
}

-- What the encoder answers: a policy that the enum does not name is refused before anything is
-- written, a reason that it does not name after both numbers are written.
abbrev pub disconnect_answer : ClientDisconnect → List ℕ → List ℕ → Encoded
disconnect_answer m text cells =
    if is_policy m.reconnect_policy
    then (if is_reason m.reason
        then encoded_ok (client_disconnect_bytes m text ++ drop (26 + length text) cells)
            (26 + length text)
        else record {
          status = bad_frame;
          out_buf = some ((be 4 m.reconnect_policy ++ (be 4 m.reason ++ [])) ++ drop 8 cells);
          out_size = some 0;
        })
    else record { status = bad_frame; out_buf = some cells; out_size = some 0 }

module _ (m : ClientDisconnect) (text cells : List ℕ) (n buf_cap : ℕ)
    (valid : IsClientDisconnect m text) (fits : 26 + length text ≤ buf_cap)
    (room : 26 + length text ≤ length cells) where
  encoded : Encoded
  encoded = encode_client_disconnect_body (some cells) (some n) buf_cap (some m)

  whole_size : client_disconnect_body_size m ≡ 26 + length text
  whole_size = omega (arith, strnlen-msg m text valid)

  named :
      is_policy m.reconnect_policy ≡ true
      → is_reason m.reason ≡ true
      → encoded
        ≡ encoded_ok
            (client_disconnect_bytes m text ++ drop (26 + length text) cells)
            (26 + length text)
  unfolding encoded encode_client_disconnect_body
  named p r =
      encode_with-ok _ _ m _ (write_client_disconnect-Writes m text valid p r) cells n buf_cap
        (length-client_disconnect_bytes m text ∙ sym whole_size)
        (omega (arith, whole_size, valid.limit)) (omega (arith, whole_size))
        (omega (arith, whole_size))
      ∙ ap (λ (k : ℕ). encoded_ok (client_disconnect_bytes m text ++ drop k cells) k) whole_size

  unnamed_policy :
      is_policy m.reconnect_policy ≡ false
      → encoded ≡ record { status = bad_frame; out_buf = some cells; out_size = some 0 }
  unfolding encoded encode_client_disconnect_body
  unnamed_policy p =
      encode_with-Stops _ _ m [] bad_frame (bad_policy m text valid p) cells n buf_cap (omega arith)
        (omega (arith, whole_size)) (omega arith)

  unnamed_reason :
      is_policy m.reconnect_policy ≡ true
      → is_reason m.reason ≡ false
      → encoded ≡ record {
        status = bad_frame;
        out_buf = some ((be 4 m.reconnect_policy ++ (be 4 m.reason ++ [])) ++ drop 8 cells);
        out_size = some 0;
      }
  unfolding encoded encode_client_disconnect_body
  unnamed_reason p r =
      encode_with-Stops _ _ m _ bad_frame (bad_reason m text valid p r) cells n buf_cap
        (omega arith) (omega (arith, whole_size)) (omega arith)

-- A CLIENT_DISCONNECT with a text of at most 128 characters, and a buffer with room for it: it is
-- encoded if the enums name its policy and its reason. An unnamed policy is refused with
-- FAITH_ERR_BAD_FRAME and the buffer as it was, an unnamed reason with FAITH_ERR_BAD_FRAME and the two
-- numbers written; the size is 0 in both.
pub encode_client_disconnect_body_checked :
    (m : ClientDisconnect) (text cells : List ℕ) (n buf_cap : ℕ)
    → IsClientDisconnect m text
    → 26 + length text ≤ buf_cap
    → 26 + length text ≤ length cells
    → encode_client_disconnect_body (some cells) (some n) buf_cap (some m)
      ≡ disconnect_answer m text cells
unfolding encoded
encode_client_disconnect_body_checked m text cells n buf_cap valid fits room = ground (
  arith,
  named m text cells n buf_cap valid fits room,
  unnamed_policy m text cells n buf_cap valid fits room,
  unnamed_reason m text cells n buf_cap valid fits room,
)

-- The decoder answers FAITH_OK and the value to the bytes of a CLIENT_DISCONNECT whose text has at most
-- 128 characters, whatever 32-bit numbers stand for its policy and its reason.
pub decode_client_disconnect_body_unchecked :
    (m : ClientDisconnect) (text rest : List ℕ) (old : ClientDisconnect)
    → IsClientDisconnect m text
    → decode_client_disconnect_body
        (some (client_disconnect_bytes m text ++ rest))
        (26 + length text)
        (some old)
      ≡ decoded_ok m
unfolding decode_client_disconnect_body
decode_client_disconnect_body_unchecked m text rest old valid =
    rw (sym (length-client_disconnect_bytes m text)) (
      decode_with-ok zeroed_client_disconnect lt 26 read_client_disconnect
        (read_client_disconnect-Finishes m text valid)
        (ground (arith, length-client_disconnect_bytes m text)) rest old)
