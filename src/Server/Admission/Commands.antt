-- ===== src/Server/Admission/Commands.antt =====
-- Commands, and what an envelope and a frame lead to.
use faith.Common.{ℕ, List, [], ◌∷◌, Bool, not, ◌==◌, Option, some, ◌||◌}
use faith.Proto.Auth.{client_id_equal}
use faith.Proto.Codec.Decode.{Decoded}
use faith.Proto.Commands.{Command, CreateConversation, decode_command_body, zeroed_command}
use faith.Proto.Envelope.{Envelope, decode_envelope, zeroed_envelope}
use faith.Proto.Envelope.Types.{
  envelope_command, envelope_hello, envelope_challenge_response, envelope_msg_send,
  envelope_device_auth_approve, envelope_device_auth_deny, envelope_event_ack,
}
use faith.Proto.Frame.{Frame}
use faith.Proto.Status.{Status, invalid, unauthorized, not_equal}
use faith.Server.Client.{ClientConn}
use faith.Server.ClientIo.{size_of, msg_envl}
use faith.Server.Commands.{
  send_conversation_created, deliver_to_each, Answered, run_command, with_id, created_data,
  handle_create_conversation, event_conversation_created, sent_to, command_dispatch,
  queue_command_result, command_create_conversation, answer, result_none, decoded_conversation,
  result_body, rejected, err_bad_command,
}
use faith.Server.Devices.{is_open, sessions_of}
use faith.Server.Dispatch.{
  handle_envelope, dispatch_frame, dispatch_envelope, msg_ping, handle_ping,
}
use faith.Server.Events.{queue_event, State, handle_event_acked}
use faith.Server.Handshake.{handle_hello}
use faith.Server.HashMap.{HashMap}
use faith.Server.Platform.{Platform}
use faith.Server.Reactor.{Reactor}
use faith.Server.SessRegistry.{Session, auth_id_registered}
use faith.Server.State.{get_client}
use faith.Server.Steps.{is_ok}
use faith.Server.Admission.{Kept, on_client-Kept, on_seat-Kept}
use faith.Server.Admission.Clients.{
  Held, queue_or_mark-Keeps, handle_hello-Keeps, handle_ping-Keeps,
}
use faith.Server.Admission.Devices.{Done}
use faith.Server.Admission.Responses.{
  route_application_msg_envelope-Done, handle_device_response-Done, handle_challenge_response-Done,
}
use faith.Server.Guards.{kept_case, kept_option, kept_then, kept_decoded, kept_either}
use faith.Server.Admission.Seats.{handle_event_acked-Seated}
use faith.Server.Admission.Events.{queue_event-Done}

module _ (p : Platform) (r : Reactor) (devices : HashMap (List ℕ) Session)
    (users : HashMap (List ℕ) devices.Map) where
  abbrev Holds : State p r devices users → Type 0
  Holds s = Kept s

  deliver_to_each-Done :
      (sessions : List Session) (auth_id : List ℕ) (payload : Option (List ℕ)) (size : ℕ)
      (s : State p r devices users)
      → Kept s
      → Done p r devices users (deliver_to_each p r devices users sessions auth_id payload size s)
  unfolding deliver_to_each
  deliver_to_each-Done [] auth_id payload size s a = a
  deliver_to_each-Done (sess ∷ rest) auth_id payload size s a =
      kept_then Holds
        (queue_event p r devices users s auth_id sess.device_id event_conversation_created payload
          size)
        (λ s'. deliver_to_each p r devices users rest auth_id payload size s')
        (queue_event-Done p r devices users s auth_id sess.device_id event_conversation_created
          payload size a)
        (λ s' h. deliver_to_each-Done rest auth_id payload size s' h)

  send_conversation_created-Done :
      (s : State p r devices users) (cl : ClientConn) (conversation_id conversant_id : List ℕ)
      → Kept s
      → Done p r devices users
          (send_conversation_created p r devices users s cl conversation_id conversant_id)
  unfolding send_conversation_created
  send_conversation_created-Done s cl conversation_id conversant_id a =
      let event = created_data p r devices users conversation_id in
      kept_then Holds (event.status, s) _ a
        (λ s1 h.
          kept_then Holds
            (queue_event p r devices users s1 cl.ident.auth_id cl.ident.device_id
              event_conversation_created event.out_buf (size_of event))
            _
            (queue_event-Done p r devices users s1 cl.ident.auth_id cl.ident.device_id
              event_conversation_created event.out_buf (size_of event) h)
            (λ s2 h'.
              deliver_to_each-Done (sessions_of devices users s2.rt conversant_id) conversant_id
                event.out_buf (size_of event) s2 h'))

  abbrev Replied : Answered × State p r devices users → Type 0
  Replied t = Kept t.1

  with_id-Replied :
      (s : State p r devices users) (cl : ClientConn) (conversant_id : List ℕ)
      (drawn : (Bool × List ℕ) × p.World)
      → Kept s
      → Replied (with_id p r devices users s cl conversant_id drawn)
  with_id-Replied s cl conversant_id ((granted, conversation_id), w) a =
      kept_case Replied granted _ _
        (by_sent (send_conversation_created p r devices users s' cl conversation_id conversant_id)
          (send_conversation_created-Done s' cl conversation_id conversant_id a))
        a
    where
      s' : State p r devices users
      s' = record s { world = w }

      by_sent :
          (t : Status × State p r devices users) → Kept t.1 → Replied (sent_to p r devices users t)
      by_sent (rc, s2) h = kept_case Replied (is_ok rc) _ _ h h

  decoded_conversation-Replied :
      (s : State p r devices users) (cl : ClientConn) (d : Decoded CreateConversation)
      → Kept s
      → Replied (decoded_conversation p r devices users s cl d)
  decoded_conversation-Replied s cl d a =
      kept_case Replied (is_ok d.status) _ _
        (kept_option Replied d.out _ _ a (λ cmd.
          kept_case Replied (auth_id_registered devices users s.rt cmd.conversant_id) _ _
            (with_id-Replied s cl cmd.conversant_id (p.rand_bytes s.world 16) a) a))
        a

  run_command-Replied :
      (s : State p r devices users) (cl : ClientConn) (cmd : Command)
      → Kept s
      → Replied (run_command p r devices users s cl cmd)
  unfolding run_command handle_create_conversation
  run_command-Replied s cl cmd a =
      let t = handle_create_conversation p r devices users s cl cmd in
      let h : Kept t.1 = decoded_conversation-Replied s cl _ a in
      kept_either Replied (not (cmd.kind == command_create_conversation)) _ _ a
        (kept_either Replied (t.0.result == result_none) (rejected err_bad_command, t.1) t h h)

  answer-Done :
      (cl : ClientConn) (cmd : Command) (t : Answered × State p r devices users)
      → Replied t
      → Done p r devices users (answer p r devices users cl cmd t)
  unfolding queue_command_result
  answer-Done cl cmd (answered, s) a =
      on_client-Kept s cl.conn.id _
        (λ cl' w h.
          kept_then (Held p r) ((result_body p r devices users cmd answered).status, (cl', w)) _ h
            (λ task h'. queue_or_mark-Keeps p r _ task.0 task.1 h'))
        a

  command_dispatch-Done :
      (s : State p r devices users) (cl : ClientConn) (envl : Envelope)
      → Kept s
      → Done p r devices users (command_dispatch p r devices users s cl envl)
  unfolding command_dispatch
  command_dispatch-Done s cl envl a =
      let run : Command → Status × State p r devices users =
        λ cmd. answer p r devices users cl cmd (run_command p r devices users s cl cmd) in
      kept_either (Done p r devices users) (cl.closing || not (is_open cl.state)) (invalid, s) _ a
        (kept_either (Done p r devices users) (not (envl.kind == envelope_command)) (invalid, s) _ a
          (kept_either (Done p r devices users) (not cl.authorized) (unauthorized, s) _ a
            (kept_either (Done p r devices users)
              (not (client_id_equal cl.ident.auth_id envl.sender_id)) (not_equal, s) _ a
              (kept_decoded Holds s
                (decode_command_body p.alloc envl.body envl.body_size (some zeroed_command)) run a
                (λ cmd.
                  answer-Done cl cmd (run_command p r devices users s cl cmd)
                    (run_command-Replied s cl cmd a))))))

  handle_envelope-Done :
      (s : State p r devices users) (cl : ClientConn) (envl : Envelope)
      → Kept s
      → Done p r devices users (handle_envelope p r devices users s cl envl)
  unfolding handle_envelope
  handle_envelope-Done s cl envl a =
      kept_either (Done p r devices users) (envl.kind == envelope_hello) _ _
        (on_client-Kept s cl.conn.id (λ task. handle_hello p r task envl)
          (handle_hello-Keeps p r envl) a)
        (kept_either (Done p r devices users) (envl.kind == envelope_challenge_response) _ _
          (handle_challenge_response-Done p r devices users s cl envl a)
          (kept_either (Done p r devices users) (envl.kind == envelope_msg_send) _ _
            (route_application_msg_envelope-Done p r devices users s cl envl a)
            (kept_either (Done p r devices users)
              (envl.kind == envelope_device_auth_approve || envl.kind == envelope_device_auth_deny)
              _ _ (handle_device_response-Done p r devices users s cl envl a)
              (kept_either (Done p r devices users) (envl.kind == envelope_command) _ _
                (command_dispatch-Done s cl envl a)
                (kept_either (Done p r devices users) (envl.kind == envelope_event_ack) _ _
                  (on_seat-Kept s cl.conn.id
                    (λ seat. handle_event_acked p r devices users seat envl)
                    (λ cl' w rt h. handle_event_acked-Seated p r devices users envl cl' w rt h) a)
                  a)))))

  pub dispatch_frame-Done :
      (s : State p r devices users) (id : ℕ) (frame : Frame)
      → Kept s
      → Done p r devices users (dispatch_frame p r devices users s id frame)
  unfolding dispatch_frame dispatch_envelope
  dispatch_frame-Done s id frame a =
      kept_option (Done p r devices users) (get_client id s.clients) _ _ a (λ cl.
        let handle : Envelope → Status × State p r devices users =
          λ envl. handle_envelope p r devices users s cl envl in
        kept_either (Done p r devices users) (frame.msg_type == msg_ping) _ _
          (on_client-Kept s id (λ task. handle_ping p r task frame) (handle_ping-Keeps p r frame) a)
          (kept_either (Done p r devices users) (frame.msg_type == msg_envl) _ _
            (kept_decoded Holds s
              (decode_envelope p.alloc frame.payload frame.payload_size (some zeroed_envelope))
              handle a (λ envl. handle_envelope-Done s cl envl a))
            a))
