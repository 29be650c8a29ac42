-- ===== src/Server/EventInbox/Invariant.antt =====
-- What holds of every inbox that the operations make, and the exact effect of an acknowledgement.
use faith.Common.{
  not, ◌&&◌, Bool-cases, tests, subst, sym, le→leb, lt→leb, inl, inr, ◌⊎◌, ℕ, zero, suc, ◌+◌, ◌≤◌,
  ◌<◌, ◌≡◌, refl, arith, List, [], ◌∷◌, ◌++◌, Bool, some, Option, none, ltb, leb, ◌==◌,
  if◌then◌else◌, drop, false,
}
use faith.Proto.Status.{Status, ok, bad_envelope}
use faith.Proto.Events.{Event}
use faith.Server.EventInbox.{
  stepped, first_after, entry_of, Inbox, init, uint64_max, push_event, advance_seq, remove_until,
}
use faith.Server.EventInbox.Order.{
  Between, after, Between-widen, Between-append, after_all, drop-first_after, after-Between,
}

-- The first number that is not acknowledged.
abbrev pub first_unacked : Inbox → ℕ
first_unacked inbox = if inbox.last_acked_seq == uint64_max then 0 else suc inbox.last_acked_seq

-- The number before the next one, or UINT64_MAX before the first event.
abbrev pub last_before : ℕ → ℕ
last_before zero = uint64_max
last_before (suc n) = n

pub record WellFormed (inbox : Inbox) : Type 0 where
  pub bound : inbox.next_seq ≤ uint64_max
  pub last_sent : inbox.last_sent_seq ≡ last_before inbox.next_seq
  pub order : Between (first_unacked inbox) inbox.next_seq inbox.events

-- The inboxes that calls of the operations make. The first event of an inbox has the number 0, as
-- delivery_queue_event gives it; device_event_inbox_push_event does not ask for that.
pub data Reachable : Inbox → Type 0 where
  start : Reachable init
  pushed :
      {inbox : Inbox} (alloc : ℕ → Bool) (before : Inbox) (event : Event) (rc : Status)
      → Reachable before
      → (before.last_sent_seq ≡ uint64_max → event.seq_num ≡ 0)
      → push_event alloc (some before) (some event) ≡ (rc, some inbox)
      → Reachable inbox
  advanced :
      {inbox : Inbox} (before : Inbox) (rc : Status)
      → Reachable before
      → advance_seq (some before) ≡ (rc, some inbox)
      → Reachable inbox
  removed :
      {inbox : Inbox} (before : Inbox) (until_seq : ℕ) (rc : Status)
      → Reachable before
      → remove_until (some before) until_seq ≡ (rc, some inbox)
      → Reachable inbox

init-WellFormed : WellFormed init
init-WellFormed = record { bound = omega arith; last_sent = refl; order = omega arith }

last_before_suc : (n : ℕ) → n ≡ last_before (n + 1)
last_before_suc n = let one_more : n + 1 ≡ suc n = omega arith in rw one_more refl

stepped-WellFormed :
    (inbox : Inbox) (events : List Event)
    → inbox.next_seq < uint64_max
    → Between (first_unacked inbox) (inbox.next_seq + 1) events
    → WellFormed (stepped (record inbox { events = events }))
stepped-WellFormed inbox events h order = record {
  bound = omega arith;
  last_sent = last_before_suc inbox.next_seq;
  order = order;
}

-- The inbox behind a pointer, if it is not null.
abbrev Holds : Option Inbox → Type 0
Holds none = Unit
Holds (some inbox) = WellFormed inbox

last_before-cases : (n : ℕ) → ((n ≡ 0) × (last_before n ≡ uint64_max)) ⊎ (suc (last_before n) ≡ n)
last_before-cases zero = inl (refl, refl)
last_before-cases (suc n) = inr refl

-- The number of an event that is not refused.
next_number :
    (inbox : Inbox) (event : Event)
    → WellFormed inbox
    → inbox.next_seq < uint64_max
    → (inbox.last_sent_seq ≡ uint64_max → event.seq_num ≡ 0)
    → (not (inbox.last_sent_seq == uint64_max) && not (event.seq_num == inbox.next_seq)) ≡ false
    → event.seq_num ≡ inbox.next_seq
next_number inbox event w h first e =
    ground (arith, w.last_sent, first, e, last_before-cases inbox.next_seq)

push_event-Holds :
    (alloc : ℕ → Bool) (inbox : Inbox) (event : Event)
    → WellFormed inbox
    → (inbox.last_sent_seq ≡ uint64_max → event.seq_num ≡ 0)
    → Holds (push_event alloc (some inbox) (some event)).1
unfolding push_event
push_event-Holds alloc inbox event w first = ground (
  arith,
  w,
  w.bound,
  λ (h : inbox.next_seq < uint64_max)
        (e : (not (inbox.last_sent_seq == uint64_max) && not (event.seq_num == inbox.next_seq))
          ≡ false).
      stepped-WellFormed inbox (inbox.events ++ entry_of event ∷ []) h (
        Between-append (first_unacked inbox) inbox.next_seq inbox.events (entry_of event)
          (next_number inbox event w h first e) w.order),
)

advance_seq-Holds : (inbox : Inbox) → WellFormed inbox → Holds (advance_seq (some inbox)).1
unfolding advance_seq
advance_seq-Holds inbox w =
    let order =
      Between-widen (first_unacked inbox) (first_unacked inbox) inbox.next_seq (inbox.next_seq + 1)
        inbox.events (omega arith) (omega arith) w.order in
    ground (
      arith,
      w,
      w.bound,
      λ (h : inbox.next_seq < uint64_max). stepped-WellFormed inbox inbox.events h order,
    )

-- What is left after an acknowledgement.
abbrev pub acknowledged : Inbox → ℕ → Inbox
acknowledged inbox until_seq = record inbox {
  events = after until_seq inbox.events;
  last_acked_seq = if leb (first_unacked inbox) until_seq then until_seq else inbox.last_acked_seq;
}

module _ (inbox : Inbox) (until_seq : ℕ) (w : WellFormed inbox) where
  sent_cases :
      ((inbox.next_seq ≡ 0) × (inbox.last_sent_seq ≡ uint64_max))
      ⊎ (suc inbox.last_sent_seq ≡ inbox.next_seq)
  sent_cases = rw w.last_sent (last_before-cases inbox.next_seq)

  again : until_seq < first_unacked inbox → acknowledged inbox until_seq ≡ inbox
  again h =
      rw
        (
          after_all until_seq (first_unacked inbox) inbox.next_seq inbox.events h w.order,
          lt→leb (first_unacked inbox) until_seq h,
        )
        refl

  raised :
      first_unacked inbox ≤ until_seq
      → (record inbox {
        events = drop (first_after until_seq inbox.events) inbox.events;
        last_acked_seq = until_seq;
      })
        ≡ acknowledged inbox until_seq
  raised h =
      rw
        (
          drop-first_after until_seq (first_unacked inbox) inbox.next_seq inbox.events w.order,
          le→leb (first_unacked inbox) until_seq h,
        )
        refl

-- On a well-formed inbox the acknowledgement of a number that was not sent yet is refused with
-- FAITH_ERR_BAD_ENVELOPE and changes nothing; that of any other number is answered FAITH_OK, keeps just
-- the events with a greater number, in order, and raises the acknowledged number, if it is greater.
pub remove_until-acknowledged :
    (inbox : Inbox) (until_seq : ℕ)
    → WellFormed inbox
    → remove_until (some inbox) until_seq ≡ (
        if ltb until_seq inbox.next_seq
        then (ok, some (acknowledged inbox until_seq))
        else (bad_envelope, some inbox))
unfolding remove_until
remove_until-acknowledged inbox until_seq w = ground (
  arith,
  w.bound,
  sent_cases inbox until_seq w,
  again inbox until_seq w,
  raised inbox until_seq w,
)

acknowledged-WellFormed :
    (inbox : Inbox) (until_seq : ℕ)
    → WellFormed inbox
    → until_seq < inbox.next_seq
    → WellFormed (acknowledged inbox until_seq)
acknowledged-WellFormed inbox until_seq w h =
    let kept : Between (suc until_seq) inbox.next_seq (after until_seq inbox.events) =
      after-Between until_seq (first_unacked inbox) inbox.next_seq inbox.events h w.order in
    elim (Bool-cases (leb (first_unacked inbox) until_seq)) [
      | inl t ↦ record {
        bound = w.bound;
        last_sent = w.last_sent;
        order = rw t (
            Between-widen (suc until_seq) _ inbox.next_seq inbox.next_seq
              (after until_seq inbox.events) (ground arith) (omega arith) kept);
      }
      | inr f ↦ subst WellFormed (sym (again inbox until_seq w (omega tests))) w
    ]

remove_until-Holds :
    (inbox : Inbox) (until_seq : ℕ)
    → WellFormed inbox
    → Holds (remove_until (some inbox) until_seq).1
remove_until-Holds inbox until_seq w =
    rw (remove_until-acknowledged inbox until_seq w)
      (ground (arith, w, acknowledged-WellFormed inbox until_seq w))

-- Every inbox that the operations make from the initial one is well formed: the next number is within
-- 64 bits, the last one sent is the one before it, and the events stand in strictly increasing order
-- behind the acknowledged number and before the next one. Events are pushed with any numbers, but for the
-- first event of an inbox, whose number is 0; other wrong numbers are refused.
pub Reachable-WellFormed : (inbox : Inbox) → Reachable inbox → WellFormed inbox
Reachable-WellFormed inbox start = init-WellFormed
Reachable-WellFormed inbox (pushed alloc before event rc r e p) =
    subst (λ (q : Status × Option Inbox). Holds q.1) p
      (push_event-Holds alloc before event (Reachable-WellFormed before r) e)
Reachable-WellFormed inbox (advanced before rc r p) =
    subst (λ (q : Status × Option Inbox). Holds q.1) p
      (advance_seq-Holds before (Reachable-WellFormed before r))
Reachable-WellFormed inbox (removed before until_seq rc r p) =
    subst (λ (q : Status × Option Inbox). Holds q.1) p
      (remove_until-Holds before until_seq (Reachable-WellFormed before r))
