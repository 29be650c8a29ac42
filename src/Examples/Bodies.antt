-- ===== src/Examples/Bodies.antt =====
-- The bodies of faith-proto/src/codec/codec.c, commands.c and events.c, encoded and decoded at
-- concrete values.
use faith.Common.{ℕ, List, Bool, some, true, arith, refl, replicate}
use faith.Proto.Codec.RoundTrip.{ReadsBack}
use faith.Common.{◌∷◌, []}
use faith.Proto.Msg.{Ping, Pong, encode_ping, decode_ping}
use faith.Proto.Msg.RoundTrip.{decode_ping-encode_ping, ping_bytes}
use faith.Proto.Auth.{
  DeviceLinkReq, encode_device_link_req_body, decode_device_link_req_body, zeroed_device_link_req,
  DeviceLinkResponse, Hello, encode_hello_body, decode_hello_body, HelloChallenge,
}
use faith.Proto.Auth.RoundTrip.{
  decode_device_link_req_body-encode_device_link_req_body, decode_hello_body-encode_hello_body,
  hello_bytes, device_link_req_bytes,
}
use faith.Proto.Commands.{
  Command, encode_command_body, decode_command_body, zeroed_command, CommandResult,
  CreateConversation,
}
use faith.Proto.Commands.RoundTrip.{decode_command_body-encode_command_body, command_bytes}
use faith.Proto.Events.{
  Event, encode_event_body, decode_event_body, zeroed_event, EventAck, ConversationCreated,
}
use faith.Proto.Events.RoundTrip.{decode_event_body-encode_event_body, event_bytes}

abbrev buffer : List ℕ
buffer = replicate 200 7

abbrev granted : ℕ → Bool
granted n = true

abbrev id_a : List ℕ
id_a = replicate 16 161

abbrev id_b : List ℕ
id_b = replicate 16 178

abbrev a_key : List ℕ
a_key = replicate 32 201

abbrev some_ping : Ping
some_ping = record { nonce = 513; client_sent_at_ms = 77 }

decode_ping-encode_ping_example :
    ReadsBack
      (encode_ping (some buffer) (some 3) 200 (some some_ping))
      decode_ping
      16
      (record { nonce = 0; client_sent_at_ms = 0 })
      some_ping
      (ping_bytes some_ping)
      buffer
decode_ping-encode_ping_example =
    decode_ping-encode_ping some_ping buffer 3 200 (record { nonce = 0; client_sent_at_ms = 0 })
      (record { nonce = omega arith; sent_at = omega arith }) (omega arith) (omega arith)

abbrev some_pong : Pong
some_pong = record { nonce = 513; server_sent_at_ms = 78 }

abbrev some_device_link_req : DeviceLinkReq
some_device_link_req = record {
  auth_id = id_a;
  public_key_new_device = a_key;
  device_id_new = id_b;
  link_code = id_a;
  expires_at_ms = 900;
}

decode_device_link_req_body-encode_device_link_req_body_example :
    ReadsBack
      (encode_device_link_req_body (some buffer) (some 3) 200 (some some_device_link_req))
      decode_device_link_req_body
      88
      zeroed_device_link_req
      some_device_link_req
      (device_link_req_bytes some_device_link_req)
      buffer
decode_device_link_req_body-encode_device_link_req_body_example =
    decode_device_link_req_body-encode_device_link_req_body some_device_link_req buffer 3 200
      zeroed_device_link_req
      (record {
        auth_id = refl;
        public_key = refl;
        device_id = refl;
        link_code = refl;
        expires = omega arith;
      })
      (omega arith) (omega arith)

abbrev some_device_link_response : DeviceLinkResponse
some_device_link_response = record { signature_response = replicate 64 5; device_id_new = id_b }

abbrev some_hello : Hello
some_hello = record { device_id = id_b; public_key = a_key; client_nonce = 4097 }

decode_hello_body-encode_hello_body_example :
    ReadsBack
      (encode_hello_body (some buffer) (some 3) 200 (some some_hello))
      decode_hello_body
      56
      some_hello
      some_hello
      (hello_bytes some_hello)
      buffer
decode_hello_body-encode_hello_body_example =
    decode_hello_body-encode_hello_body some_hello buffer 3 200 some_hello
      (record { device_id = refl; public_key = refl; nonce = omega arith }) (omega arith)
      (omega arith)

abbrev some_hello_challenge : HelloChallenge
some_hello_challenge = record { server_nonce = 65537 }

abbrev some_command : Command
some_command = record { cmd_id = id_a; kind = 1; payload_size = 3; payload = some (1 ∷ 2 ∷ 3 ∷ []) }

decode_command_body-encode_command_body_example :
    ReadsBack
      (encode_command_body (some buffer) (some 3) 200 (some some_command))
      (decode_command_body granted)
      27
      zeroed_command
      some_command
      (command_bytes some_command)
      buffer
decode_command_body-encode_command_body_example =
    decode_command_body-encode_command_body some_command buffer 3 200 zeroed_command granted
      (record {
        cmd_id = refl;
        kind = omega arith;
        limit = omega arith;
        payload = (refl, omega arith);
      })
      refl (omega arith) (omega arith)

abbrev some_command_result : CommandResult
some_command_result = record { cmd_id = id_a; kind = 1; err = 0; result = 2 }

abbrev some_create_conversation : CreateConversation
some_create_conversation = record { conversant_id = id_b }

abbrev some_event : Event
some_event = record { seq_num = 7; kind = 1; data_size = 2; payload = some (10 ∷ 20 ∷ []) }

decode_event_body-encode_event_body_example :
    ReadsBack
      (encode_event_body (some buffer) (some 3) 200 (some some_event))
      (decode_event_body granted)
      18
      zeroed_event
      some_event
      (event_bytes some_event)
      buffer
decode_event_body-encode_event_body_example =
    decode_event_body-encode_event_body some_event buffer 3 200 zeroed_event granted
      (record {
        seq_num = omega arith;
        kind = omega arith;
        fits = omega arith;
        payload = (refl, omega arith);
      })
      refl (omega arith) (omega arith)

abbrev some_event_ack : EventAck
some_event_ack = record { seq_num = 7 }

abbrev some_conversation_created : ConversationCreated
some_conversation_created = record { conversation_id = id_a }
