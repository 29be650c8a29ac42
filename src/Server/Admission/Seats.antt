-- ===== src/Server/Admission/Seats.antt =====
-- The operations on one client with the registry at hand keep it admitted.
use faith.Common.{
  refl, [], ◌∷◌, zero, suc, ℕ, List, Bool, true, false, not, ◌||◌, ◌==◌, ◌+◌, some, replicate, drop,
  ltb, Option, length, ◌&&◌, ◌%◌, ◌^◌,
}
use faith.Proto.Codec.Decode.{Decoded}
use faith.Proto.Envelope.{Envelope}
use faith.Proto.Envelope.Types.{envelope_event_batch, envelope_event_ack}
use faith.Proto.Events.{EventAck, decode_event_ack_body, Event}
use faith.Proto.Events.Batch.{EventBatch, event_batch_body_size_fixed, encode_event_batch_body, Fit}
use faith.Proto.Status.{Status, nomem, too_large, invalid, bad_envelope, unauthorized}
use faith.Server.Client.{ClientConn}
use faith.Server.ClientIo.{Task, queue_envelope_or_mark_dead}
use faith.Server.EventInbox.{remove_until}
use faith.Server.Events.{
  max_stc_payload_size, batch_overhead, queue_pending_events, handle_event_acked, Seat, seated,
  acked, pending_loop, queue_event_batch_envl, fit_of, to_client, batch_of, n_in_batch,
}
use faith.Server.Handshake.{authorize_client, handshake_complete, registered_with, session_granted}
use faith.Server.HashMap.{HashMap}
use faith.Server.Platform.{Platform}
use faith.Server.Reactor.{Reactor}
use faith.Server.SessRegistry.{Session, get_session, register_session}
use faith.Server.State.{registered}
use faith.Server.Steps.{and_then, is_ok, with_decoded}
use faith.Server.Admission.{Keeps, Admitted}
use faith.Server.Admission.Clients.{Held, queue_or_mark-Keeps, handshake_complete-Keeps}
use faith.Server.Guards.{kept_if, kept_then, kept_session, kept_decoded}

module _ (p : Platform) (r : Reactor) where
  queue_event_batch_envl-Keeps :
      (batch : EventBatch) → Keeps (λ task. queue_event_batch_envl p r task batch)
  unfolding queue_event_batch_envl
  queue_event_batch_envl-Keeps batch cl w a =
      let cap = (event_batch_body_size_fixed + batch.events_data_size) % 2 ^ 32 in
      let body = encode_event_batch_body (some (replicate cap p.junk)) (some 0) cap (some batch) in
      let queue : Task p r → Status × Task p r = λ task.
        queue_envelope_or_mark_dead p r task
          (to_client envelope_event_batch cl.ident.auth_id body) in
      kept_if (Held p r) (not (p.alloc cap)) (nomem, (cl, w))
        (and_then (body.status, (cl, w)) queue) a
        (kept_then (Held p r) (body.status, (cl, w)) queue a
          (λ task h. queue_or_mark-Keeps p r _ task.0 task.1 h))

  pending_loop-Held :
      (fuel : ℕ) (task : Task p r) (events : List Event)
      → Held p r task
      → Held p r (pending_loop p r fuel task events).1
  unfolding pending_loop
  pending_loop-Held fuel task [] a = a
  pending_loop-Held zero task (ev ∷ evs) a = a
  pending_loop-Held (suc fuel) task (ev ∷ evs) a =
      kept_if (Held p r) (ltb max_stc_payload_size batch_overhead) (too_large, task)
        (and_then (fit.status, task) rest) a
        (kept_then (Held p r) (fit.status, task) rest a
          (λ t h.
            by_fit t h (λ t' h'. pending_loop-Held fuel t' (drop fit.n_fitting batch) h')
              (fit.n_fitting == 0 || ltb (n_in_batch p r batch) fit.n_fitting)))
    where
      batch : List Event
      batch = ev ∷ evs

      fit : Fit
      fit = fit_of p r batch

      loop : Task p r → Status × Task p r
      loop t =
          and_then (queue_event_batch_envl p r t (batch_of p r batch))
            (λ t'. pending_loop p r fuel t' (drop fit.n_fitting batch))

      rest : Task p r → Status × Task p r
      rest t = elim (fit.n_fitting == 0 || ltb (n_in_batch p r batch) fit.n_fitting) [
        | true ↦ (too_large, t)
        | false ↦ loop t
      ]

      by_fit :
          (t : Task p r)
          → Held p r t
          → ((t' : Task p r)
              → Held p r t'
              → Held p r (pending_loop p r fuel t' (drop fit.n_fitting batch)).1)
          → (b : Bool)
          → Held p r
              (elim b as (λ x. Status × Task p r) [ true ↦ (too_large, t) | false ↦ loop t ]).1
      by_fit t h more true = h
      by_fit t h more false =
          kept_then (Held p r) (queue_event_batch_envl p r t (batch_of p r batch))
            (λ t'. pending_loop p r fuel t' (drop fit.n_fitting batch))
            (queue_event_batch_envl-Keeps (batch_of p r batch) t.0 t.1 h) more

  module _ (devices : HashMap (List ℕ) Session) (users : HashMap (List ℕ) devices.Map) where
    abbrev pub Seated : Seat p r devices users → Type 0
    Seated (task, rt) = Held p r task

    pub queue_pending_events-Seated :
        (seat : Seat p r devices users)
        → Seated seat
        → Seated (queue_pending_events p r devices users seat).1
    unfolding queue_pending_events
    queue_pending_events-Seated ((cl, w), rt) a =
        kept_session p r devices users Seated ((cl, w), rt)
          (get_session devices users rt cl.ident.auth_id cl.ident.device_id)
          (λ sess.
            seated p r devices users rt
              (pending_loop p r (length sess.inbox.events) (cl, w) sess.inbox.events))
          a (λ sess. pending_loop-Held (length sess.inbox.events) (cl, w) sess.inbox.events a)

    -- A client is authorized before it completes the handshake.
    pub authorize_client-Seated :
        (cl : ClientConn) (w : p.World) (rt : users.Map) (auth_id device_id public_key : List ℕ)
        (register : Bool)
        → Admitted cl
        → Seated
            (authorize_client p r devices users
              ((cl, w), rt)
              auth_id
              device_id
              public_key
              register).1
    unfolding authorize_client
    authorize_client-Seated cl w rt auth_id device_id public_key register a = by_closing cl.closing
      where
        granted : ClientConn
        granted = record cl { authorized = true }

        complete' : Status × Task p r
        complete' = handshake_complete p r (granted, w) auth_id device_id

        registered-Seated :
            (t : Status × Seat p r devices users)
            → Seated t.1
            → Seated (registered_with p r devices users register public_key t).1
        registered-Seated (rc, ((cl', w'), rt')) h = by_status (is_ok rc && register)
          where
            call : Status × users.Map
            call =
                register_session devices users (session_granted p r devices users) rt'
                  cl'.ident.auth_id cl'.ident.device_id (registered cl') public_key

            by_status :
                (b : Bool)
                → Seated
                    (elim b as (λ x. Status × Seat p r devices users) [
                      | true ↦ (call.0, ((cl', w'), call.1))
                      | false ↦ (rc, ((cl', w'), rt'))
                    ]).1
            by_status true = h
            by_status false = h

        by_closing :
            (b : Bool)
            → Seated
                (elim b as (λ x. Status × Seat p r devices users) [
                  | true ↦ (invalid, ((cl, w), rt))
                  | false ↦
                      registered_with p r devices users register public_key
                        (seated p r devices users rt complete')
                ]).1
        by_closing true = a
        by_closing false = registered-Seated (seated p r devices users rt complete') (
            handshake_complete-Keeps p r auth_id device_id granted w
              (record { opened = λ o. refl; paired = a.paired }))

    pub handle_event_acked-Seated :
        (envl : Envelope) (cl : ClientConn) (w : p.World) (rt : users.Map)
        → Admitted cl
        → Seated (handle_event_acked p r devices users ((cl, w), rt) envl).1
    unfolding handle_event_acked
    handle_event_acked-Seated envl cl w rt a =
        kept_if Seated (not (envl.kind == envelope_event_ack)) (bad_envelope, ((cl, w), rt)) _ a
          (kept_if Seated (not cl.authorized) (unauthorized, ((cl, w), rt)) _ a
            (kept_session p r devices users Seated ((cl, w), rt) found remove a
              (λ sess. kept_decoded Seated ((cl, w), rt) d (write sess) a (λ ack. a))))
      where
        found : Status × Option Session
        found = get_session devices users rt cl.ident.auth_id cl.ident.device_id

        d : Decoded EventAck
        d = decode_event_ack_body envl.body envl.body_size (some (record { seq_num = 0 }))

        write : Session → EventAck → Status × Seat p r devices users
        write sess ack =
            acked p r devices users ((cl, w), rt) sess (remove_until (some sess.inbox) ack.seq_num)

        remove : Session → Status × Seat p r devices users
        remove sess = with_decoded ((cl, w), rt) d (write sess)
