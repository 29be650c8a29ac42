-- ===== src/Server/Events.antt =====
-- The delivery of events: faith-server/src/delivery/events.c.
pub mod Pending
use faith.Common.{
  ℕ, zero, suc, ◌+◌, ◌-◌, ◌*◌, ◌%◌, ◌^◌, List, [], ◌∷◌, true, false, not, ◌&&◌, ◌||◌, Option, none,
  some, ltb, ◌==◌, if◌then◌else◌, length, replicate, drop,
}
use faith.Proto.Status.{
  Status, ok, invalid, nomem, not_found, unauthorized, too_large, bad_envelope, unreachable,
}
use faith.Proto.Codec.Encode.{Encoded, is_null}
use faith.Proto.Envelope.{Envelope, envl_header_size}
use faith.Proto.Envelope.Types.{envelope_event, envelope_event_batch, envelope_event_ack}
use faith.Proto.Events.{Event, event_body_size_fixed, encode_event_body, decode_event_ack_body}
use faith.Proto.Events.Batch.{
  EventBatch, Fit, event_batch_max_events, event_batch_body_size_fixed, event_batch_data_size_fit,
  encode_event_batch_body,
}
use faith.Server.Steps.{is_ok, and_then, with_decoded}
use faith.Server.EventInbox.{Inbox, push_event, advance_seq, remove_until}
use faith.Server.HashMap.{HashMap}
use faith.Server.SessRegistry.{Session, get_session}
use faith.Server.Reactor.{Reactor}
use faith.Server.Platform.{Platform}
use faith.Server.Client.{ClientConn}
use faith.Server.ClientIo.{Task, queue_envelope_or_mark_dead, size_of}
use faith.Server.State.{Server, get_client, put_session, put_client}

-- FAITH_MAX_STC_PAYLOAD_SIZE
abbrev pub max_stc_payload_size : ℕ
max_stc_payload_size = 1024 * 1024 * 4

abbrev pub batch_overhead : ℕ
batch_overhead = event_batch_body_size_fixed + envl_header_size

-- An envelope without a sender.
abbrev pub to_client : ℕ → List ℕ → Encoded → Envelope
to_client kind recipient_id body = record {
  kind = kind;
  sender_id = replicate 16 0;
  recipient_id = recipient_id;
  body_size = size_of body;
  body = body.out_buf;
}

-- A pointer that is not null keeps what it pointed to, if the call did not write it.
abbrev pub inbox_of : Inbox → Option Inbox → Inbox
inbox_of old none = old
inbox_of old (some inbox) = inbox

module _ (p : Platform) (r : Reactor) where
  abbrev pub sequenced : Inbox → Status × Option Inbox → Task p r → Status × (Task p r × Inbox)
  sequenced inbox (rc, left) task = (rc, (task, inbox_of inbox left))

  abbrev pub sent : Inbox → Status × Task p r → Status × (Task p r × Inbox)
  sent inbox (rc, task) = elim (is_ok rc) [
    | true ↦ sequenced inbox (advance_seq (some inbox)) task
    | false ↦ (rc, (task, inbox))
  ]

  -- Without memory the encoder is given a null pointer, which it refuses.
  unfoldable pub queue_event_online_user : Task p r → Inbox → Event → Status × (Task p r × Inbox)
  queue_event_online_user (cl, w) inbox event =
      let cap = (event_body_size_fixed + event.data_size) % 2 ^ 32 in
      let buf = if p.alloc cap then some (replicate cap p.junk) else none in
      let body = encode_event_body buf (some 0) cap (some event) in
      sent inbox (
        and_then (body.status, (cl, w))
          (λ task.
            queue_envelope_or_mark_dead p r task (to_client envelope_event cl.ident.auth_id body)))

  unfoldable pub queue_event_offline_user : Inbox → Event → Status × Inbox
  queue_event_offline_user inbox event =
      let (rc, left) = push_event p.alloc (some inbox) (some event) in (rc, inbox_of inbox left)

  unfoldable pub queue_event_batch_envl : Task p r → EventBatch → Status × Task p r
  queue_event_batch_envl (cl, w) batch_envl =
      let cap = (event_batch_body_size_fixed + batch_envl.events_data_size) % 2 ^ 32 in
      let body =
        encode_event_batch_body (some (replicate cap p.junk)) (some 0) cap (some batch_envl) in
      let queued : Status × Task p r =
        and_then (body.status, (cl, w))
          (λ task.
            queue_envelope_or_mark_dead p r task
              (to_client envelope_event_batch cl.ident.auth_id body)) in
      if not (p.alloc cap) then (nomem, (cl, w)) else queued

  abbrev pub n_in_batch : List Event → ℕ
  n_in_batch batch =
      let remaining = length batch in
      if ltb remaining event_batch_max_events then remaining else event_batch_max_events

  abbrev pub fit_of : List Event → Fit
  fit_of batch =
      event_batch_data_size_fit batch (n_in_batch batch) 0 (max_stc_payload_size - batch_overhead)

  abbrev pub batch_of : List Event → EventBatch
  batch_of batch = record {
    n_events = (fit_of batch).n_fitting % 2 ^ 16;
    events_data_size = (fit_of batch).data_size;
    events = some batch;
  }

  -- The loop over the events of the inbox from `offset` on; each round takes at least one of them.
  unfoldable pub pending_loop : ℕ → Task p r → List Event → Status × Task p r
  pending_loop fuel task [] = (ok, task)
  pending_loop zero task (ev ∷ evs) = (unreachable, task)
  pending_loop (suc fuel) task (ev ∷ evs) =
      let batch = ev ∷ evs in
      let fit = fit_of batch in
      if ltb max_stc_payload_size batch_overhead
      then (too_large, task)
      else and_then (fit.status, task)
          (λ t. elim (fit.n_fitting == 0 || ltb (n_in_batch batch) fit.n_fitting) [
            | true ↦ (too_large, t)
            | false ↦
                and_then (queue_event_batch_envl t (batch_of batch))
                  (λ t'. pending_loop fuel t' (drop fit.n_fitting batch))
          ])

  module _ (devices : HashMap (List ℕ) Session) (users : HashMap (List ℕ) devices.Map) where
    -- A client with the registry.
    abbrev pub Seat : Type 0
    Seat = Task p r × users.Map

    abbrev pub State : Type 0
    State = Server p.World users.Map

    abbrev pub seated : users.Map → Status × Task p r → Status × Seat
    seated rt (rc, task) = (rc, (task, rt))

    -- _FH_CHECK_RETURN(sess_registry_get_session(...)), and the test of the session.
    abbrev pub with_session :
        {S : Type 0} → S → Status × Option Session → (Session → Status × S) → Status × S
    with_session s (rc, sess) k = elim (is_ok rc) [
      | true ↦ elim sess [ none ↦ (not_found, s) | some found ↦ k found ]
      | false ↦ (rc, s)
    ]

    unfoldable pub queue_pending_events : Seat → Status × Seat
    queue_pending_events ((cl, w), rt) =
        with_session ((cl, w), rt)
          (get_session devices users rt cl.ident.auth_id cl.ident.device_id)
          (λ sess. seated rt (pending_loop (length sess.inbox.events) (cl, w) sess.inbox.events))

    abbrev pub write_inbox : users.Map → List ℕ → List ℕ → Session → Inbox → users.Map
    write_inbox rt auth_id device_id sess inbox =
        put_session devices users rt auth_id device_id (record sess { inbox = inbox })

    abbrev pub acked : Seat → Session → Status × Option Inbox → Status × Seat
    acked ((cl, w), rt) sess (rc, left) = (
      rc,
      ((cl, w), write_inbox rt cl.ident.auth_id cl.ident.device_id sess (inbox_of sess.inbox left)),
    )

    unfoldable pub handle_event_acked : Seat → Envelope → Status × Seat
    handle_event_acked ((cl, w), rt) envl =
        if not (envl.kind == envelope_event_ack)
        then (bad_envelope, ((cl, w), rt))
        else if not cl.authorized
        then (unauthorized, ((cl, w), rt))
        else with_session ((cl, w), rt)
            (get_session devices users rt cl.ident.auth_id cl.ident.device_id)
            (λ sess.
              with_decoded ((cl, w), rt)
                (decode_event_ack_body envl.body envl.body_size (some (record { seq_num = 0 })))
                (λ ack. acked ((cl, w), rt) sess (remove_until (some sess.inbox) ack.seq_num)))

    abbrev pub next_event : Session → ℕ → Option (List ℕ) → ℕ → Event
    next_event sess kind payload data_size = record {
      seq_num = sess.inbox.next_seq;
      kind = kind;
      data_size = data_size;
      payload = payload;
    }

    -- The inbox that the call left, in the session of the device.
    abbrev pub delivered_online :
        State → List ℕ → List ℕ → Session → Status × (Task p r × Inbox) → Status × State
    delivered_online s auth_id device_id sess (rc, ((cl, w), inbox)) = (
      rc,
      record {
        clients = put_client cl s.clients;
        rt = write_inbox s.rt auth_id device_id sess inbox;
        world = w;
      },
    )

    abbrev pub delivered_offline :
        State → List ℕ → List ℕ → Session → Status × Inbox → Status × State
    delivered_offline s auth_id device_id sess (rc, inbox) =
        (rc, record s { rt = write_inbox s.rt auth_id device_id sess inbox })

    -- The connection of a session, which is in the list of clients.
    abbrev pub deliver :
        State → List ℕ → List ℕ → Session → Event → Option ClientConn → Status × State
    deliver s auth_id device_id sess event none = (unreachable, s)
    deliver s auth_id device_id sess event (some cl) = elim cl.authorized [
      | false ↦ (unauthorized, s)
      | true ↦
          delivered_online s auth_id device_id sess
            (queue_event_online_user (cl, s.world) sess.inbox event)
    ]

    unfoldable pub queue_event : State → List ℕ → List ℕ → ℕ → Option (List ℕ) → ℕ → Status × State
    queue_event s auth_id device_id kind payload data_size =
        if (is_null payload && not (data_size == 0)) || (not (is_null payload) && data_size == 0)
        then (invalid, s)
        else with_session s (get_session devices users s.rt auth_id device_id) (λ sess.
          let event = next_event sess kind payload data_size in
          elim sess.conn [
            | none ↦
                delivered_offline s auth_id device_id sess
                  (queue_event_offline_user sess.inbox event)
            | some conn ↦ deliver s auth_id device_id sess event (get_client conn.id s.clients)
          ])
