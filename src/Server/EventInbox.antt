-- ===== src/Server/EventInbox.antt =====
-- A device's inbox of events: faith-server/src/delivery/event_inbox.c and event_inbox.h.
-- The stretchy array `events` is a list, an inbox pointer that may be null an Option.
pub mod Order
pub mod Invariant
use faith.Common.{
  ℕ, zero, suc, ◌+◌, ◌-◌, ◌^◌, List, [], ◌∷◌, ◌++◌, Bool, not, ◌&&◌, Option, none, some, ltb, leb,
  ◌==◌, if◌then◌else◌, take, drop,
}
use faith.Proto.Status.{Status, ok, invalid, overflow, bad_envelope, nomem}
use faith.Proto.Codec.Encode.{cells_of}
use faith.Proto.Events.{Event}

abbrev pub uint64_max : ℕ
uint64_max = 18446744073709551615

-- device_event_inbox_t
pub record Inbox : Type 0 where
  pub next_seq : ℕ
  pub last_acked_seq : ℕ
  pub last_sent_seq : ℕ
  pub events : List Event

abbrev pub init : Inbox
init = record { next_seq = 0; last_acked_seq = uint64_max; last_sent_seq = uint64_max; events = [] }

-- `last_sent_seq = next_seq; next_seq++`
abbrev pub stepped : Inbox → Inbox
stepped inbox = record inbox { last_sent_seq = inbox.next_seq; next_seq = inbox.next_seq + 1 }

-- The copy of an event that the inbox keeps.
abbrev pub entry_of : Event → Event
entry_of event = record event {
  payload =
      if ltb 0 event.data_size then some (take event.data_size (cells_of event.payload)) else none;
}

-- `alloc` says which allocations succeed.
unfoldable pub push_event : (ℕ → Bool) → Option Inbox → Option Event → Status × Option Inbox
push_event alloc (some inbox) (some event) =
    if event.seq_num == uint64_max
    then (overflow, some inbox)
    else if inbox.next_seq == uint64_max
    then (overflow, some inbox)
    else if not (inbox.last_sent_seq == uint64_max) && not (event.seq_num == inbox.next_seq)
    then (invalid, some inbox)
    else if ltb 0 event.data_size && not (alloc event.data_size)
    then (nomem, some inbox)
    else (ok, some (stepped (record inbox { events = inbox.events ++ entry_of event ∷ [] })))
push_event alloc inbox event = (invalid, inbox)

unfoldable pub advance_seq : Option Inbox → Status × Option Inbox
advance_seq none = (invalid, none)
advance_seq (some inbox) =
    if inbox.next_seq == uint64_max then (overflow, some inbox) else (ok, some (stepped inbox))

-- The loop of device_event_inbox_remove_until: the index at which it stops.
unfoldable pub first_after : ℕ → List Event → ℕ
first_after until_seq [] = 0
first_after until_seq (event ∷ events) =
    let i = first_after until_seq events in if ltb until_seq event.seq_num then 0 else suc i

unfoldable pub remove_until : Option Inbox → ℕ → Status × Option Inbox
remove_until none until_seq = (invalid, none)
remove_until (some inbox) until_seq =
    if inbox.last_sent_seq == uint64_max
    then (bad_envelope, some inbox)
    else if ltb inbox.last_sent_seq until_seq
    then (bad_envelope, some inbox)
    else if not (inbox.last_acked_seq == uint64_max) && leb until_seq inbox.last_acked_seq
    then (ok, some inbox)
    else (
      ok,
      some (record inbox {
        events = drop (first_after until_seq inbox.events) inbox.events;
        last_acked_seq = until_seq;
      }),
    )

pub destroy : Option Inbox → Status × Option Inbox
destroy none = (invalid, none)
destroy (some inbox) = (ok, some (record inbox { events = [] }))
