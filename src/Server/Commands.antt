-- ===== src/Server/Commands.antt =====
-- Commands of a client: faith-server/src/commands/dispatch.c and faith-server/src/commands/conversation.c.
use faith.Common.{
  ℕ, List, [], ◌∷◌, Bool, true, false, not, ◌||◌, Option, none, some, ◌==◌, if◌then◌else◌,
  replicate,
}
use faith.Proto.Status.{Status, ok, invalid, not_equal, unauthorized}
use faith.Proto.Auth.{client_id_equal}
use faith.Proto.Codec.Encode.{Encoded}
use faith.Proto.Codec.Decode.{Decoded}
use faith.Proto.Commands.{
  Command, CreateConversation, zeroed_command, decode_command_body, encode_command_result_body,
  command_result_body_size, decode_cmd_create_conversation,
}
use faith.Proto.Envelope.{Envelope}
use faith.Proto.Envelope.Types.{envelope_command, envelope_command_result}
use faith.Proto.Events.{encode_event_conversation_created, conversation_created_size}
use faith.Server.Steps.{is_ok, and_then, with_decoded}
use faith.Server.HashMap.{HashMap}
use faith.Server.SessRegistry.{Session, auth_id_registered}
use faith.Server.Reactor.{Reactor}
use faith.Server.Platform.{Platform}
use faith.Server.Client.{ClientConn}
use faith.Server.ClientIo.{Task, queue_envelope_or_mark_dead, size_of}
use faith.Server.State.{on_client}
use faith.Server.Events.{State, to_client, queue_event}
use faith.Server.Devices.{is_open, sessions_of}

-- FAITH_COMMAND_TYPES, FAITH_COMMAND_RESULTS and FAITH_COMMAND_RESULT_ERRS, those that are used
abbrev pub command_create_conversation : ℕ
command_create_conversation = 0

abbrev pub result_none : ℕ
result_none = 0

abbrev pub result_rejected : ℕ
result_rejected = 1

abbrev pub result_accepted : ℕ
result_accepted = 2

abbrev pub err_none : ℕ
err_none = 0

abbrev pub err_bad_command : ℕ
err_bad_command = 2

abbrev pub err_internal_error : ℕ
err_internal_error = 4

abbrev pub err_user_not_found : ℕ
err_user_not_found = 5

-- FAITH_EVENT_CONVERSATION_CREATED
abbrev pub event_conversation_created : ℕ
event_conversation_created = 0

-- `*o_result` and `*o_err`
pub record Answered : Type 0 where
  pub result : ℕ
  pub err : ℕ

abbrev pub rejected : ℕ → Answered
rejected err = record { result = result_rejected; err = err }

module _ (p : Platform) (r : Reactor) (devices : HashMap (List ℕ) Session)
    (users : HashMap (List ℕ) devices.Map) where
  -- _FH_FOR_EACH_AUTH_DEVICE_SESSION with the delivery to each device, which returns at a failure.
  unfoldable pub deliver_to_each :
      List Session
      → List ℕ
      → Option (List ℕ)
      → ℕ
      → State p r devices users
      → Status × State p r devices users
  deliver_to_each [] auth_id payload size s = (ok, s)
  deliver_to_each (sess ∷ rest) auth_id payload size s =
      and_then
        (queue_event p r devices users s auth_id sess.device_id event_conversation_created payload
          size)
        (λ s'. deliver_to_each rest auth_id payload size s')

  abbrev pub created_data : List ℕ → Encoded
  created_data conversation_id =
      encode_event_conversation_created (some (replicate conversation_created_size 0)) (some 0)
        conversation_created_size (some (record { conversation_id = conversation_id }))

  unfoldable pub send_conversation_created :
      State p r devices users → ClientConn → List ℕ → List ℕ → Status × State p r devices users
  send_conversation_created s cl conversation_id conversant_id =
      let event = created_data conversation_id in
      and_then (event.status, s)
        (λ s1.
          and_then
            (queue_event p r devices users s1 cl.ident.auth_id cl.ident.device_id
              event_conversation_created event.out_buf (size_of event))
            (λ s2.
              deliver_to_each (sessions_of devices users s2.rt conversant_id) conversant_id
                event.out_buf (size_of event) s2))

  abbrev pub sent_to : Status × State p r devices users → Answered × State p r devices users
  sent_to (rc, s) = elim (is_ok rc) [
    | true ↦ (record { result = result_accepted; err = err_none }, s)
    | false ↦ (rejected err_internal_error, s)
  ]

  abbrev pub with_id :
      State p r devices users
      → ClientConn
      → List ℕ
      → (Bool × List ℕ) × p.World
      → Answered × State p r devices users
  with_id s cl conversant_id ((granted, conversation_id), w) =
      let s' : State p r devices users = record s { world = w } in
      elim granted [
        | false ↦ (rejected err_internal_error, s')
        | true ↦ sent_to (send_conversation_created s' cl conversation_id conversant_id)
      ]

  abbrev pub decoded_conversation :
      State p r devices users
      → ClientConn
      → Decoded CreateConversation
      → Answered × State p r devices users
  decoded_conversation s cl d = elim (is_ok d.status) [
    | false ↦ (rejected err_bad_command, s)
    | true ↦ elim d.out [
      | none ↦ (rejected err_bad_command, s)
      | some create_conv_cmd ↦
          elim (auth_id_registered devices users s.rt create_conv_cmd.conversant_id) [
            | false ↦ (rejected err_user_not_found, s)
            | true ↦ with_id s cl create_conv_cmd.conversant_id (p.rand_bytes s.world 16)
          ]
    ]
  ]

  -- The status is FAITH_OK on every branch.
  unfoldable pub handle_create_conversation :
      State p r devices users → ClientConn → Command → Answered × State p r devices users
  handle_create_conversation s cl cmd = decoded_conversation s cl (
      decode_cmd_create_conversation cmd.payload cmd.payload_size
        (some (record { conversant_id = [] })))

  abbrev pub result_body : Command → Answered → Encoded
  result_body cmd a =
      encode_command_result_body (some (replicate command_result_body_size 0)) (some 0)
        command_result_body_size
        (some (record { cmd_id = cmd.cmd_id; kind = cmd.kind; err = a.err; result = a.result }))

  unfoldable pub queue_command_result : Command → Answered → Task p r → Status × Task p r
  queue_command_result cmd a (cl, w) =
      let body = result_body cmd a in
      and_then (body.status, (cl, w))
        (λ task.
          queue_envelope_or_mark_dead p r task
            (to_client envelope_command_result cl.ident.auth_id body))

  -- The switch over the type, and the test of the result behind it.
  unfoldable pub run_command :
      State p r devices users → ClientConn → Command → Answered × State p r devices users
  run_command s cl cmd =
      let (a, s') = handle_create_conversation s cl cmd in
      if not (cmd.kind == command_create_conversation)
      then (rejected err_bad_command, s)
      else if a.result == result_none
      then (rejected err_bad_command, s')
      else (a, s')

  abbrev pub answer :
      ClientConn → Command → Answered × State p r devices users → Status × State p r devices users
  answer cl cmd (a, s) = on_client s cl.conn.id (queue_command_result cmd a)

  unfoldable pub command_dispatch :
      State p r devices users → ClientConn → Envelope → Status × State p r devices users
  command_dispatch s cl envl =
      if cl.closing || not (is_open cl.state)
      then (invalid, s)
      else if not (envl.kind == envelope_command)
      then (invalid, s)
      else if not cl.authorized
      then (unauthorized, s)
      else if not (client_id_equal cl.ident.auth_id envl.sender_id)
      then (not_equal, s)
      else with_decoded s
          (decode_command_body p.alloc envl.body envl.body_size (some zeroed_command))
          (λ cmd. answer cl cmd (run_command s cl cmd))
