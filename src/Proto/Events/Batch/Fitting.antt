-- ===== src/Proto/Events/Batch/Fitting.antt =====
-- How many events faith_codec_event_batch_data_size_fit lets into a batch.
use faith.Common.{
  take-take, ℕ, zero, suc, ◌+◌, ◌*◌, ◌^◌, ◌≤◌, ◌<◌, ◌≡◌, ap, refl, arith, List, [], ◌∷◌, ltb,
  if◌then◌else◌, length, take,
}
use faith.Proto.Status.{ok}
use faith.Common.{length-take}
use faith.Proto.Events.{Event}
use faith.Proto.Events.Batch.{element_size, fit_loop, event_batch_data_size_fit}
use mathlib.Core.Logic.{◌↔◌}

-- What the events take in a batch: two bytes for the size of each, and its body.
abbrev pub encoded_size : List Event → ℕ
encoded_size [] = 0
encoded_size (ev ∷ evs) = 2 + element_size ev + encoded_size evs

-- No event has a size that 16 bits do not hold.
abbrev pub Encodable : List Event → Type 0
Encodable [] = Unit
Encodable (ev ∷ evs) = (element_size ev < 2 ^ 16) × Encodable evs

-- The longest front part of the events that keeps within the limit.
fitting : ℕ → List Event → ℕ → ℕ
fitting limit [] size = 0
fitting limit (ev ∷ evs) size =
    let rest = fitting limit evs (size + (2 + element_size ev)) in
    if ltb limit (size + (2 + element_size ev)) then 0 else suc rest

fit_loop-fitting :
    (limit : ℕ) (evs : List Event) (size n : ℕ)
    → Encodable evs
    → size + 65537 * length evs < 2 ^ 32
    → fit_loop limit evs size n
      ≡ (ok, size + encoded_size (take (fitting limit evs size) evs), n + fitting limit evs size)
unfolding fit_loop fitting
fit_loop-fitting limit [] size n valid small = ground arith
fit_loop-fitting limit (ev ∷ evs) size n (valid, rest) small =
    ground (arith, fit_loop-fitting limit evs (size + (2 + element_size ev)) (n + 1) rest)

fitting-le : (limit : ℕ) (evs : List Event) (size : ℕ) → fitting limit evs size ≤ length evs
unfolding fitting
fitting-le limit [] size = omega arith
fitting-le limit (ev ∷ evs) size =
    ground (arith, fitting-le limit evs (size + (2 + element_size ev)))

fits-le-fitting :
    (limit : ℕ) (evs : List Event) (size k : ℕ)
    → k ≤ length evs
    → size + encoded_size (take k evs) ≤ limit
    → k ≤ fitting limit evs size
unfolding fitting
fits-le-fitting limit evs size zero h f = omega arith
fits-le-fitting limit [] size (suc k) h f = absurd (omega arith)
fits-le-fitting limit (ev ∷ evs) size (suc k) h f =
    ground (arith, fits-le-fitting limit evs (size + (2 + element_size ev)) k)

le_fitting-fits :
    (limit : ℕ) (evs : List Event) (size k : ℕ)
    → size ≤ limit
    → k ≤ fitting limit evs size
    → size + encoded_size (take k evs) ≤ limit
unfolding fitting
le_fitting-fits limit evs size zero h f = omega arith
le_fitting-fits limit [] size (suc k) h f = absurd (omega arith)
le_fitting-fits limit (ev ∷ evs) size (suc k) h f =
    ground (arith, le_fitting-fits limit evs (size + (2 + element_size ev)) k)

take-Encodable : (n : ℕ) (evs : List Event) → Encodable evs → Encodable (take n evs)
take-Encodable zero evs h = tt
take-Encodable (suc n) [] h = tt
take-Encodable (suc n) (ev ∷ evs) (h, rest) = (h, take-Encodable n evs rest)

encoded_size-le : (evs : List Event) → Encodable evs → encoded_size evs ≤ 65537 * length evs
encoded_size-le [] h = omega arith
encoded_size-le (ev ∷ evs) (h, rest) = omega (arith, encoded_size-le evs rest)

module _ (events : List Event) (n old limit : ℕ) (valid : Encodable events) (few : n ≤ 256)
    (enough : n ≤ length events) where
  looked_at : length (take n events) ≡ n
  looked_at = omega (arith, length-take n events)

  fit_result : event_batch_data_size_fit events n old limit ≡ record {
    status = ok;
    data_size = encoded_size (take (fitting limit (take n events) 0) (take n events));
    n_fitting = fitting limit (take n events) 0;
  }
  unfolding event_batch_data_size_fit
  fit_result = ground (
    arith,
    looked_at,
    fit_loop-fitting limit (take n events) 0 0 (take-Encodable n events valid),
    encoded_size-le (take (fitting limit (take n events) 0) (take n events)) (
        take-Encodable (fitting limit (take n events) 0) (take n events)
          (take-Encodable n events valid)),
    length-take (fitting limit (take n events) 0) (take n events),
  )

-- For at most 256 events of at most 65535 bytes the answer is FAITH_OK, with a count of leading events
-- and the size of exactly their encoding; and a number of leading events keeps within the limit
-- exactly if it is at most that count.
pub event_batch_data_size_fit-maximal :
    (events : List Event) (n old limit k : ℕ)
    → Encodable events
    → n ≤ 256
    → n ≤ length events
    → k ≤ n
    → ((event_batch_data_size_fit events n old limit).status ≡ ok)
      × ((event_batch_data_size_fit events n old limit).n_fitting ≤ n)
      × ((event_batch_data_size_fit events n old limit).data_size
          ≡ encoded_size (take (event_batch_data_size_fit events n old limit).n_fitting events))
      × ((encoded_size (take k events) ≤ limit)
          ↔ (k ≤ (event_batch_data_size_fit events n old limit).n_fitting))
event_batch_data_size_fit-maximal events n old limit k valid few enough h =
    let evs : List Event = take n events in
    let g : ℕ = fitting limit evs 0 in
    let all = looked_at events n old limit valid few enough in
    let count : g ≤ n = omega (arith, fitting-le limit evs 0, all) in
    let same = ap encoded_size (take-take k n events h) in
    rw (fit_result events n old limit valid few enough) (
      refl,
      count,
      ap encoded_size (take-take g n events count),
      (
        (λ f. fits-le-fitting limit evs 0 k (omega (arith, all)) (omega (arith, same))),
        (λ f. omega (arith, same, le_fitting-fits limit evs 0 k (omega arith) f)),
      ),
    )
