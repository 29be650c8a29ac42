-- ===== src/Examples/Inboxes.antt =====
-- An inbox that is filled and acknowledged.
use faith.Common.{ℕ, ◌≡◌, [], ◌∷◌, Bool, some, none, true, arith, refl, ltb, if◌then◌else◌}
use faith.Proto.Status.{ok, bad_envelope}
use faith.Proto.Events.{Event}
use faith.Server.EventInbox.{first_after, Inbox, init, push_event, advance_seq, remove_until}
use faith.Server.EventInbox.Invariant.{
  WellFormed, start, pushed, advanced, removed, acknowledged, remove_until-acknowledged,
  Reachable-WellFormed,
}

abbrev granted : ℕ → Bool
granted n = true

abbrev first_event : Event
first_event = record { seq_num = 0; kind = 1; data_size = 0; payload = none }

abbrev third_event : Event
third_event = record { seq_num = 2; kind = 1; data_size = 0; payload = none }

abbrev one_pushed : Inbox
one_pushed = record {
  next_seq = 1;
  last_acked_seq = 18446744073709551615;
  last_sent_seq = 0;
  events = first_event ∷ [];
}

abbrev one_advanced : Inbox
one_advanced = record {
  next_seq = 2;
  last_acked_seq = 18446744073709551615;
  last_sent_seq = 1;
  events = first_event ∷ [];
}

abbrev two_pushed : Inbox
two_pushed = record {
  next_seq = 3;
  last_acked_seq = 18446744073709551615;
  last_sent_seq = 2;
  events = first_event ∷ third_event ∷ [];
}

abbrev one_left : Inbox
one_left = record { next_seq = 3; last_acked_seq = 1; last_sent_seq = 2; events = third_event ∷ [] }

Reachable-WellFormed_example : WellFormed one_left
unfolding push_event advance_seq remove_until first_after
Reachable-WellFormed_example = Reachable-WellFormed one_left (
    removed two_pushed 1 ok
      (pushed granted one_advanced third_event ok
        (advanced one_pushed ok (pushed granted init first_event ok start (λ e. refl) refl) refl)
        (λ e. omega (arith, e)) refl)
      refl)

two_pushed-WellFormed : WellFormed two_pushed
two_pushed-WellFormed = record {
  bound = omega arith;
  last_sent = refl;
  order = (omega arith, (omega arith, omega arith));
}

remove_until-acknowledged_example :
    remove_until (some two_pushed) 1
    ≡ (if ltb 1 3 then (ok, some (acknowledged two_pushed 1)) else (bad_envelope, some two_pushed))
remove_until-acknowledged_example = remove_until-acknowledged two_pushed 1 two_pushed-WellFormed
