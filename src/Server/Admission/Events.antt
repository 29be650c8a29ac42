-- ===== src/Server/Admission/Events.antt =====
-- The delivery of events keeps the clients admitted.
use faith.Common.{ℕ, List, Option, none, some, replicate, ◌+◌, if◌then◌else◌, ◌%◌, ◌^◌}
use faith.Proto.Envelope.Types.{envelope_event}
use faith.Proto.Events.{Event, event_body_size_fixed, encode_event_body}
use faith.Proto.Status.{Status, invalid}
use faith.Server.Client.{ClientConn}
use faith.Server.ClientIo.{Task, queue_envelope_or_mark_dead}
use faith.Server.EventInbox.{Inbox}
use faith.Server.Events.{
  sent, queue_event_online_user, queue_event, State, deliver, next_event, to_client,
}
use faith.Server.HashMap.{HashMap}
use faith.Server.Platform.{Platform}
use faith.Server.Reactor.{Reactor}
use faith.Server.SessRegistry.{Session, get_session}
use faith.Server.State.{get_client}
use faith.Server.Steps.{is_ok}
use faith.Server.Admission.{Kept, Admitted, AdmittedIf, get_client-Admitted, put_client-Admitted}
use faith.Server.Admission.Clients.{Held, queue_or_mark-Keeps}
use faith.Server.Admission.Devices.{Done}
use faith.Server.Guards.{kept_case, kept_option, kept_if, kept_then, kept_session}

module _ (p : Platform) (r : Reactor) where
  abbrev Sending : Task p r × Inbox → Type 0
  Sending t = Held p r t.0

  sent-Sending :
      (inbox : Inbox) (t : Status × Task p r) → Held p r t.1 → Sending (sent p r inbox t).1
  sent-Sending inbox (rc, task) a =
      kept_case (λ (t : Status × (Task p r × Inbox)). Sending t.1) (is_ok rc) _ _ a a

  queue_event_online_user-Sending :
      (cl : ClientConn) (w : p.World) (inbox : Inbox) (event : Event)
      → Admitted cl
      → Sending (queue_event_online_user p r (cl, w) inbox event).1
  unfolding queue_event_online_user
  queue_event_online_user-Sending cl w inbox event a =
      let cap = (event_body_size_fixed + event.data_size) % 2 ^ 32 in
      let body =
        encode_event_body (if p.alloc cap then some (replicate cap p.junk) else none) (some 0) cap
          (some event) in
      sent-Sending inbox _ (
        kept_then (Held p r) (body.status, (cl, w))
          (λ task.
            queue_envelope_or_mark_dead p r task (to_client envelope_event cl.ident.auth_id body))
          a (λ task h. queue_or_mark-Keeps p r _ task.0 task.1 h))

module _ (p : Platform) (r : Reactor) (devices : HashMap (List ℕ) Session)
    (users : HashMap (List ℕ) devices.Map) where
  abbrev Holds : State p r devices users → Type 0
  Holds s = Kept s

  deliver-Done :
      (s : State p r devices users) (auth_id device_id : List ℕ) (sess : Session) (event : Event)
      (o : Option ClientConn)
      → Kept s
      → AdmittedIf o
      → Done p r devices users (deliver p r devices users s auth_id device_id sess event o)
  deliver-Done s auth_id device_id sess event none a h = a
  deliver-Done s auth_id device_id sess event (some cl) a h =
      kept_case (Done p r devices users) cl.authorized _ _
        (put_client-Admitted _ s.clients
          (queue_event_online_user-Sending p r cl s.world sess.inbox event h) a)
        a

  pub queue_event-Done :
      (s : State p r devices users) (auth_id device_id : List ℕ) (kind : ℕ)
      (payload : Option (List ℕ)) (data_size : ℕ)
      → Kept s
      → Done p r devices users
          (queue_event p r devices users s auth_id device_id kind payload data_size)
  unfolding queue_event
  queue_event-Done s auth_id device_id kind payload data_size a =
      kept_if Holds _ (invalid, s) _ a
        (kept_session p r devices users Holds s (get_session devices users s.rt auth_id device_id) _
          a
          (λ sess. kept_option (Done p r devices users) sess.conn _ _ a (λ conn.
            deliver-Done s auth_id device_id sess
              (next_event p r devices users sess kind payload data_size)
              (get_client conn.id s.clients) a (get_client-Admitted conn.id s.clients a))))
