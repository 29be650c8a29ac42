-- ===== src/Server/EventInbox/Order.antt =====
-- The order of the events in an inbox, and what an acknowledgement takes from it.
use faith.Common.{
  Bool-cases, tests, inl, inr, ℕ, suc, ◌+◌, ◌≤◌, ◌<◌, ◌≡◌, refl, arith, List, [], ◌∷◌, ◌++◌, ltb,
  if◌then◌else◌, drop,
}
use faith.Proto.Events.{Event}
use faith.Server.EventInbox.{first_after}

-- Strictly increasing sequence numbers, from `low` on and below `high`.
abbrev pub Between : ℕ → ℕ → List Event → Type 0
Between low high [] = low ≤ high
Between low high (event ∷ events) = (low ≤ event.seq_num) × Between (suc event.seq_num) high events

-- The events behind a sequence number.
abbrev pub after : ℕ → List Event → List Event
after until_seq [] = []
after until_seq (event ∷ events) =
    if ltb until_seq event.seq_num then event ∷ after until_seq events else after until_seq events

pub Between-le : (low high : ℕ) (events : List Event) → Between low high events → low ≤ high
Between-le low high [] h = h
Between-le low high (event ∷ events) (h, rest) =
    omega (arith, Between-le (suc event.seq_num) high events rest)

pub Between-widen :
    (low low' high high' : ℕ) (events : List Event)
    → low' ≤ low
    → high ≤ high'
    → Between low high events
    → Between low' high' events
Between-widen low low' high high' [] h k b = omega arith
Between-widen low low' high high' (event ∷ events) h k (b, rest) = (
  omega arith,
  Between-widen (suc event.seq_num) (suc event.seq_num) high high' events (omega arith) k rest,
)

pub Between-append :
    (low high : ℕ) (events : List Event) (event : Event)
    → event.seq_num ≡ high
    → Between low high events
    → Between low (high + 1) (events ++ event ∷ [])
Between-append low high [] event e b = (omega arith, omega arith)
Between-append low high (first ∷ events) event e (b, rest) =
    (b, Between-append (suc first.seq_num) high events event e rest)

-- Events that all stand behind the number are kept.
pub after_all :
    (until_seq low high : ℕ) (events : List Event)
    → until_seq < low
    → Between low high events
    → after until_seq events ≡ events
after_all until_seq low high [] h b = refl
after_all until_seq low high (event ∷ events) h (b, rest) =
    ground (arith, after_all until_seq (suc event.seq_num) high events)

-- The loop and the deletion keep just the events behind the number.
pub drop-first_after :
    (until_seq low high : ℕ) (events : List Event)
    → Between low high events
    → drop (first_after until_seq events) events ≡ after until_seq events
unfolding first_after
drop-first_after until_seq low high [] b = refl
drop-first_after until_seq low high (event ∷ events) (b, rest) = ground (
  arith,
  drop-first_after until_seq (suc event.seq_num) high events rest,
  after_all until_seq (suc event.seq_num) high events,
)

pub after-Between :
    (until_seq low high : ℕ) (events : List Event)
    → until_seq < high
    → Between low high events
    → Between (suc until_seq) high (after until_seq events)
after-Between until_seq low high [] h b = omega arith
after-Between until_seq low high (event ∷ events) h (b, rest) =
    elim (Bool-cases (ltb until_seq event.seq_num)) [
      | inl t ↦
          rw (t, after_all until_seq (suc event.seq_num) high events (omega tests) rest)
            (omega tests, rest)
      | inr f ↦ rw f (after-Between until_seq (suc event.seq_num) high events h rest)
    ]
