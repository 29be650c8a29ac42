-- ===== src/Proto/Envelope/Types.antt =====
-- FAITH_ENVELOPE_TYPES in faith-proto/include/faith-proto/codec/envelopes.h.
use faith.Common.{ℕ}

abbrev pub envelope_hello : ℕ
envelope_hello = 0

abbrev pub envelope_hello_ok : ℕ
envelope_hello_ok = 1

abbrev pub envelope_msg_send : ℕ
envelope_msg_send = 2

abbrev pub envelope_challenge : ℕ
envelope_challenge = 6

abbrev pub envelope_challenge_response : ℕ
envelope_challenge_response = 7

abbrev pub envelope_device_link_request : ℕ
envelope_device_link_request = 8

abbrev pub envelope_device_auth_pending : ℕ
envelope_device_auth_pending = 9

abbrev pub envelope_device_auth_approve : ℕ
envelope_device_auth_approve = 10

abbrev pub envelope_device_auth_deny : ℕ
envelope_device_auth_deny = 11

abbrev pub envelope_device_auth_response_ack : ℕ
envelope_device_auth_response_ack = 12

abbrev pub envelope_device_auth_response_failed : ℕ
envelope_device_auth_response_failed = 13

abbrev pub envelope_device_link_cancelled : ℕ
envelope_device_link_cancelled = 14

abbrev pub envelope_client_disconnect : ℕ
envelope_client_disconnect = 15

abbrev pub envelope_command : ℕ
envelope_command = 16

abbrev pub envelope_command_result : ℕ
envelope_command_result = 17

abbrev pub envelope_event : ℕ
envelope_event = 18

abbrev pub envelope_event_batch : ℕ
envelope_event_batch = 19

abbrev pub envelope_event_ack : ℕ
envelope_event_ack = 20
