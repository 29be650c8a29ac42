-- ===== src/Examples/Queues.antt =====
-- A queue that is filled past its allocation and consumed.
use faith.Common.{ℕ, ◌≡◌, [], ◌∷◌, Bool, some, true, arith, refl, take, drop}
use faith.Server.Transport.{Queue, queue_input, enqueue_bytes, consume}
use faith.Server.Transport.Contents.{
  WellFormed, contents, waiting_of, enqueued, enqueue_bytes-WellFormed, enqueue_bytes-enqueued,
}
use faith.Server.Transport.Consume.{consume-contents}
use faith.Server.Transport.Growth.{Grown, grow-Grown}

abbrev granted : ℕ → Bool
granted n = true

abbrev a_queue : Queue
a_queue = record { buf = 1 ∷ 2 ∷ 3 ∷ []; size = 2; cap = 3; off = 0; kind = queue_input }

a_queue-WellFormed : WellFormed a_queue
a_queue-WellFormed = record { allocated = refl; filled = omega arith; limit = omega arith }

enqueue_bytes-WellFormed_example :
    WellFormed (enqueue_bytes granted 0 a_queue (some (5 ∷ 6 ∷ [])) 2).1
enqueue_bytes-WellFormed_example =
    enqueue_bytes-WellFormed granted 0 a_queue (5 ∷ 6 ∷ []) 2 a_queue-WellFormed (omega arith)

enqueue_bytes-enqueued_example :
    waiting_of (enqueue_bytes granted 0 a_queue (some (5 ∷ 6 ∷ [])) 2)
    ≡ enqueued (contents a_queue) (take 2 (5 ∷ 6 ∷ []))
enqueue_bytes-enqueued_example =
    enqueue_bytes-enqueued granted 0 a_queue (5 ∷ 6 ∷ []) 2 a_queue-WellFormed (omega arith)
      (λ k. refl)

consume-contents_example :
    (contents (consume 1 a_queue) ≡ drop 1 (contents a_queue)) × WellFormed (consume 1 a_queue)
consume-contents_example = consume-contents 1 a_queue a_queue-WellFormed (omega arith)

grow-Grown_example : (new_cap : ℕ) × Grown 20 5000 4096 new_cap
grow-Grown_example = grow-Grown 20 5000 4096 (omega arith) (omega arith) (omega arith)
