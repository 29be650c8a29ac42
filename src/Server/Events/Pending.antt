-- ===== src/Server/Events/Pending.antt =====
-- The batches in which pending events go out: delivery_queue_pending_events in
-- faith-server/src/delivery/events.c.
use faith.Common.{
  refl, ℕ, zero, suc, ◌-◌, ◌≤◌, ◌≡◌, arith, List, [], ◌∷◌, Bool, true, false, ◌||◌, ◌==◌, ltb,
  length, drop, length-drop, if◌then◌else◌, some, ◌*◌, ap, ◌%◌, sym, ◌^◌, ◌∙◌, subst, Option,
}
use faith.Server.Steps.{is_ok, continue, and_then}
use faith.Server.Platform.{Platform}
use faith.Proto.Events.{Event}
use faith.Proto.Events.Batch.{EventBatch, Fit, event_batch_data_size_fit}
use faith.Server.Reactor.{Reactor}
use faith.Server.ClientIo.{Task}
use faith.Proto.Status.{Status, ok, too_large}
use faith.Server.Events.{
  queue_event_batch_envl, pending_loop, batch_of, HashMap, and_then, Session, queue_pending_events,
  ClientConn, get_session, with_session, seated,
}
use faith.Server.HashMap.{HashMap}
use faith.Server.SessRegistry.{Session, get_session}
use faith.Server.Client.{ClientConn}

drop-shorter :
    (k : ℕ) (c : Bool) (ev : Event) (evs : List Event)
    → (k == 0 || c) ≡ false
    → suc (length (drop k (ev ∷ evs))) ≤ suc (length evs)
drop-shorter zero c ev evs e = cc
drop-shorter (suc k) c ev evs e = omega (arith, length-drop k evs)

is_ok-ok : (rc : Status) → is_ok rc ≡ true → rc ≡ ok
is_ok-ok ok e = refl
is_ok-ok rc e = cc

-- How many events are looked at for a batch, and how many of them go into it.
abbrev pub looked_at : List Event → ℕ
looked_at events = if ltb (length events) 256 then length events else 256

abbrev pub fitting : List Event → Fit
fitting events = event_batch_data_size_fit events (looked_at events) 0 (4 * 1024 * 1024 - 46)

-- A batch of the first `k` of the events.
abbrev pub first_events : List Event → ℕ → EventBatch
first_events events k = record {
  n_events = k;
  events_data_size = (fitting events).data_size;
  events = some events;
}

looked_at-le : (events : List Event) → looked_at events ≤ 256
looked_at-le events = ground arith

module _ (p : Platform) (r : Reactor) where
  -- What comes of the events that wait, with the answer and the client that are left: all are sent; no
  -- batch can be made of the first ones; a batch is not queued; or a batch of one event or more is, and
  -- what stands behind it comes next.
  pub data Runs : Task p r → List Event → Status × Task p r → Type 0 where
    all_sent : (task : Task p r) → Runs task [] (ok, task)
    bad_sizes :
        (task : Task p r) (ev : Event) (evs : List Event)
        → is_ok (fitting (ev ∷ evs)).status ≡ false
        → Runs task (ev ∷ evs) ((fitting (ev ∷ evs)).status, task)
    none_fits :
        (task : Task p r) (ev : Event) (evs : List Event)
        → ((fitting (ev ∷ evs)).n_fitting == 0
            || ltb (looked_at (ev ∷ evs)) (fitting (ev ∷ evs)).n_fitting)
          ≡ true
        → Runs task (ev ∷ evs) (too_large, task)
    not_queued :
        (task : Task p r) (ev : Event) (evs : List Event) (k : ℕ)
        → (fitting (ev ∷ evs)).n_fitting ≡ k
        → 1 ≤ k
        → (left : Status × Task p r)
        → queue_event_batch_envl p r task (first_events (ev ∷ evs) k) ≡ left
        → is_ok left.0 ≡ false
        → Runs task (ev ∷ evs) left
    queued :
        (task : Task p r) (ev : Event) (evs : List Event) (k : ℕ)
        → (fitting (ev ∷ evs)).n_fitting ≡ k
        → 1 ≤ k
        → (rest end : Status × Task p r)
        → queue_event_batch_envl p r task (first_events (ev ∷ evs) k) ≡ rest
        → rest.0 ≡ ok
        → Runs rest.1 (drop k (ev ∷ evs)) end
        → Runs task (ev ∷ evs) end

  -- One round, given what the rounds after it come to.
  module _ (task : Task p r) (ev : Event) (evs : List Event) (n : ℕ) where
    abbrev batch : List Event
    batch = ev ∷ evs

    abbrev count : ℕ
    count = (fitting batch).n_fitting

    abbrev unfit : Bool
    unfit = count == 0 || ltb (looked_at batch) count

    small_batch : unfit ≡ false → batch_of p r batch ≡ first_events batch count
    small_batch e =
        let few : count ≤ 256 = ground (arith, looked_at-le batch, e) in
        ap (λ (m : ℕ). first_events batch m) {x = count % 2 ^ 16} (omega (arith, few))

    queued-Runs :
        unfit ≡ false
        → ((t : Task p r)
            → suc (length (drop count batch)) ≤ suc (length evs)
            → Runs t (drop count batch) (pending_loop p r n t (drop count batch)))
        → (b : Bool) (left : Status × Task p r)
        → queue_event_batch_envl p r task (batch_of p r batch) ≡ left
        → is_ok left.0 ≡ b
        → Runs task batch (continue b left (λ t. pending_loop p r n t (drop count batch)))
    queued-Runs e more true (rc, t) q o =
        queued task ev evs count refl (ground (arith, e)) (rc, t) _
          (ap (queue_event_batch_envl p r task) (sym (small_batch e)) ∙ q) (is_ok-ok rc o)
          (more t (drop-shorter count (ltb (looked_at batch) count) ev evs e))
    queued-Runs e more false (rc, t) q o =
        not_queued task ev evs count refl (ground (arith, e)) (rc, t)
          (ap (queue_event_batch_envl p r task) (sym (small_batch e)) ∙ q) o

    fit-Runs :
        ((t : Task p r)
          → suc (length (drop count batch)) ≤ suc (length evs)
          → Runs t (drop count batch) (pending_loop p r n t (drop count batch)))
        → (b : Bool) → unfit ≡ b
        → Runs task batch (elim b as (λ x. Status × Task p r) [
          | true ↦ (too_large, task)
          | false ↦
              and_then
                (queue_event_batch_envl p r task (batch_of p r batch))
                (λ t. pending_loop p r n t (drop count batch))
        ])
    fit-Runs more true e = none_fits task ev evs e
    fit-Runs more false e =
        queued-Runs e more _ (queue_event_batch_envl p r task (batch_of p r batch)) refl refl

    round-Runs :
        ((t : Task p r)
          → suc (length (drop count batch)) ≤ suc (length evs)
          → Runs t (drop count batch) (pending_loop p r n t (drop count batch)))
        → (b : Bool) → is_ok (fitting batch).status ≡ b
        → Runs task batch (
            continue b
              ((fitting batch).status, task)
              (λ t. elim unfit as (λ x. Status × Task p r) [
                | true ↦ (too_large, t)
                | false ↦
                    and_then
                      (queue_event_batch_envl p r t (batch_of p r batch))
                      (λ t'. pending_loop p r n t' (drop count batch))
              ]))
    round-Runs more true e = fit-Runs more unfit refl
    round-Runs more false e = bad_sizes task ev evs e

  pending_loop-Runs :
      (n : ℕ) (task : Task p r) (events : List Event)
      → length events ≤ n
      → Runs task events (pending_loop p r n task events)
  unfolding pending_loop
  pending_loop-Runs n task [] h = all_sent task
  pending_loop-Runs zero task (ev ∷ evs) h = absurd (omega (arith, h))
  pending_loop-Runs (suc n) task (ev ∷ evs) h =
      round-Runs task ev evs n
        (λ t less.
          pending_loop-Runs n t (drop (fitting (ev ∷ evs)).n_fitting (ev ∷ evs))
            (omega (arith, less, h)))
        (is_ok (fitting (ev ∷ evs)).status) refl

  module _ (devices : HashMap (List ℕ) Session) (users : HashMap (List ℕ) devices.Map) where
    -- Where the device of a client has a session, delivery_queue_pending_events leaves the registry as it
    -- is and ends, as one of these runs over the events of the session's inbox: all are sent; or it stops
    -- with the status of faith_codec_event_batch_data_size_fit, with FAITH_ERR_TOO_LARGE because not one
    -- event fits, or with that of the batch that is not queued, behind the batches before it. Each batch is
    -- the first events of what is left, as many as fit, at least one, and what stands behind them is left.
    pub queue_pending_events-Runs :
        (cl : ClientConn) (w : p.World) (rt : users.Map) (sess : Session)
        → get_session devices users rt cl.ident.auth_id cl.ident.device_id ≡ (ok, some sess)
        → let left = queue_pending_events p r devices users ((cl, w), rt) in
          Runs (cl, w) sess.inbox.events (left.0, left.1.0) × (left.1.1 ≡ rt)
    unfolding queue_pending_events
    queue_pending_events-Runs cl w rt sess e =
        subst
          (λ (found : Status × Option Session).
            let left =
              with_session p r devices users ((cl, w), rt) found
                (λ sess.
                  seated p r devices users rt
                    (pending_loop p r (length sess.inbox.events) (cl, w) sess.inbox.events)) in
            Runs (cl, w) sess.inbox.events (left.0, left.1.0) × (left.1.1 ≡ rt))
          (sym e)
          (
            pending_loop-Runs (length sess.inbox.events) (cl, w) sess.inbox.events (omega arith),
            refl,
          )
