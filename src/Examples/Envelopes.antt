-- ===== src/Examples/Envelopes.antt =====
-- Envelopes and CLIENT_DISCONNECT at concrete values.
use faith.Proto.Disconnect.Layout.{client_disconnect_bytes}
use faith.Common.{ℕ, ◌≡◌, List, [], ◌∷◌, ◌++◌, Bool, some, true, arith, refl, replicate}
use faith.Proto.Codec.RoundTrip.{ReadsBack}
use faith.Proto.Codec.Decode.Reads.{decoded_ok}
use faith.Proto.Envelope.{Envelope, encode_envelope, decode_envelope, zeroed_envelope}
use faith.Proto.Envelope.RoundTrip.{decode_envelope-encode_envelope, envelope_bytes}
use faith.Proto.Disconnect.{
  ClientDisconnect, encode_client_disconnect_body, decode_client_disconnect_body,
  zeroed_client_disconnect, strnlen,
}
use faith.Proto.Disconnect.RoundTrip.{
  disconnect_answer, encode_client_disconnect_body_checked, decode_client_disconnect_body_unchecked,
}

abbrev granted : ℕ → Bool
granted n = true

abbrev buffer : List ℕ
buffer = replicate 64 7

abbrev an_envelope : Envelope
an_envelope = record {
  kind = 2;
  sender_id = replicate 16 1;
  recipient_id = replicate 16 2;
  body_size = 3;
  body = some (1 ∷ 2 ∷ 3 ∷ []);
}

decode_envelope-encode_envelope_example :
    ReadsBack
      (encode_envelope (some buffer) (some 3) 64 (some an_envelope))
      (decode_envelope granted)
      43
      zeroed_envelope
      an_envelope
      (envelope_bytes an_envelope)
      buffer
decode_envelope-encode_envelope_example =
    decode_envelope-encode_envelope an_envelope buffer 3 64 zeroed_envelope granted
      (record {
        kind = omega arith;
        sender_id = refl;
        recipient_id = refl;
        fits = omega arith;
        body = (refl, omega arith);
      })
      refl (omega arith) (omega arith)

abbrev a_text : List ℕ
a_text = 98 ∷ 121 ∷ 101 ∷ []

-- A reason that the enum does not name.
abbrev a_disconnect : ClientDisconnect
a_disconnect = record {
  reconnect_policy = 1;
  reason = 99;
  retry_after_ms = 500;
  banned_until_ms = 0;
  msg_size = 3;
  msg = a_text ++ replicate 126 0;
}

encode_client_disconnect_body_checked_example :
    encode_client_disconnect_body (some buffer) (some 3) 64 (some a_disconnect)
    ≡ disconnect_answer a_disconnect a_text buffer
unfolding strnlen
encode_client_disconnect_body_checked_example =
    encode_client_disconnect_body_checked a_disconnect a_text buffer 3 64
      (record {
        reconnect_policy = omega arith;
        reason = omega arith;
        retry_after = omega arith;
        banned_until = omega arith;
        limit = omega arith;
        msg_size = refl;
        no_nul = refl;
        msg = refl;
      })
      (omega arith) (omega arith)

decode_client_disconnect_body_unchecked_example :
    decode_client_disconnect_body
      (some (client_disconnect_bytes a_disconnect a_text ++ (9 ∷ [])))
      29
      (some zeroed_client_disconnect)
    ≡ decoded_ok a_disconnect
unfolding strnlen
decode_client_disconnect_body_unchecked_example =
    decode_client_disconnect_body_unchecked a_disconnect a_text (9 ∷ []) zeroed_client_disconnect
      (record {
        reconnect_policy = omega arith;
        reason = omega arith;
        retry_after = omega arith;
        banned_until = omega arith;
        limit = omega arith;
        msg_size = refl;
        no_nul = refl;
        msg = refl;
      })
