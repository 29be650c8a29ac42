-- ===== src/Server/Transport/Contents.antt =====
-- A queue as the bytes that wait in it.
use faith.Common.{
  [], subst, refl, tests, Bool-cases, inl, inr, true, sym, append-nil, ◌<◌, ℕ, ◌+◌, ◌-◌, ◌≤◌, ◌≡◌,
  ap, ◌∙◌, arith, List, ◌++◌, ltb, if◌then◌else◌, length, replicate, take, drop, length-append,
  length-take, take-append, length-copy_at, take_long, copy_at_split, length-replicate,
  take-append_short, Bool, some,
}
use faith.Proto.Status.{Status, nomem, ok, overflow}
use faith.Server.Transport.Growth.{Grown, grow-Grown}
use faith.Server.Transport.{
  put_bytes, enlarge, enqueue_bytes, Queue, max_client_in_queue, realloc, grow, rounds, first_cap,
}

-- The bytes that wait.
abbrev pub contents : Queue → List ℕ
contents queue = take queue.size queue.buf

pub record WellFormed (queue : Queue) : Type 0 where
  pub allocated : length queue.buf ≡ queue.cap
  pub filled : queue.size ≤ queue.cap
  pub limit : queue.cap ≤ max_client_in_queue

length-realloc : (junk : ℕ) (buf : List ℕ) (n : ℕ) → length (realloc junk buf n) ≡ n
length-realloc junk buf n = omega (
  arith,
  length-append (take n buf) (replicate (n - length buf) junk),
  length-take n buf,
  length-replicate (n - length buf) junk,
)

take-realloc :
    (junk : ℕ) (buf : List ℕ) (size n : ℕ)
    → size ≤ length buf
    → length buf ≤ n
    → take size (realloc junk buf n) ≡ take size buf
take-realloc junk buf size n h k =
    rw (take_long n buf k) (take-append_short size buf (replicate (n - length buf) junk) h)

-- What both ways to the memcpy leave.
module _ (queue : Queue) (bytes : List ℕ) (n : ℕ) (given : n ≤ length bytes)
    (room : queue.size + n ≤ length queue.buf) where
  src_size : length (take n bytes) ≡ n
  src_size = omega (arith, length-take n bytes)

  put_bytes-contents : contents (put_bytes bytes n queue) ≡ contents queue ++ take n bytes
  put_bytes-contents =
      let front : queue.size + n ≡ length (take queue.size queue.buf ++ take n bytes) = omega (
        arith,
        length-append (take queue.size queue.buf) (take n bytes),
        length-take queue.size queue.buf,
        src_size,
      ) in
      ap (take (queue.size + n))
        (copy_at_split queue.size (take n bytes) queue.buf (omega (arith, src_size)))
      ∙ ap
          (λ (k : ℕ). take k (
            (take queue.size queue.buf ++ take n bytes)
            ++ drop (queue.size + length (take n bytes)) queue.buf))
          front
      ∙ take-append (take queue.size queue.buf ++ take n bytes) _

  put_bytes-WellFormed :
      length queue.buf ≡ queue.cap
      → queue.cap ≤ max_client_in_queue
      → WellFormed (put_bytes bytes n queue)
  put_bytes-WellFormed e limit = record {
    allocated = length-copy_at queue.size (take n bytes) queue.buf (omega (arith, src_size)) ∙ e;
    filled = omega arith;
    limit = limit;
  }

-- The queue that the larger allocation holds.
abbrev moved : ℕ → ℕ → Queue → Queue
moved junk new_cap queue = record queue { buf = realloc junk queue.buf new_cap; cap = new_cap }

-- What the two outcomes of a call say of the bytes that wait.
abbrev pub enqueued : List ℕ → List ℕ → Status × List ℕ
enqueued waiting bytes =
    if ltb max_client_in_queue (length waiting + length bytes)
    then (overflow, waiting)
    else (ok, waiting ++ bytes)

abbrev pub waiting_of : Status × Queue → Status × List ℕ
waiting_of (rc, queue) = (rc, contents queue)

module _ (alloc : ℕ → Bool) (junk : ℕ) (queue : Queue) (bytes : List ℕ) (n : ℕ)
    (w : WellFormed queue) (given : n ≤ length bytes) where
  answer : Status × Queue
  answer = enqueue_bytes alloc junk queue (some bytes) n

  nothing : n ≡ 0 → answer ≡ (ok, queue)
  unfolding answer enqueue_bytes
  nothing e = rw e refl

  too_much : 0 < n → max_client_in_queue < queue.size + n → answer ≡ (overflow, queue)
  unfolding answer enqueue_bytes
  too_much h k = ground (arith, w.filled, w.limit)

  in_place : 0 < n → queue.size + n ≤ queue.cap → answer ≡ (ok, put_bytes bytes n queue)
  unfolding answer enqueue_bytes
  in_place h k = ground (arith, w.limit)

  larger :
      queue.size + n ≤ max_client_in_queue
      → (c : ℕ) × Grown rounds (queue.size + n) (first_cap queue.cap) c
  larger h =
      grow-Grown rounds (queue.size + n) (first_cap queue.cap) h (ground (arith, w.limit))
        (ground (arith, w.limit))

  elsewhere :
      (c : ℕ)
      → Grown rounds (queue.size + n) (first_cap queue.cap) c
      → queue.cap < queue.size + n
      → queue.size + n ≤ max_client_in_queue
      → answer ≡ (if alloc c then (ok, put_bytes bytes n (moved junk c queue)) else (nomem, queue))
  unfolding answer enqueue_bytes enlarge
  elsewhere c g h k =
      let made : grow 20 (queue.size + n) (first_cap queue.cap) ≡ some c = g.result in
      rw made (ground (arith, w.filled, g.enough))

  -- One of four ends: no bytes, too many, room in the allocation, or a larger allocation.
  by_cases :
      (P : Status × Queue → Type 0)
      → (n ≡ 0 → P (ok, queue))
      → (max_client_in_queue < queue.size + n → P (overflow, queue))
      → (queue.size + n ≤ queue.cap → P (ok, put_bytes bytes n queue))
      → ((c : ℕ)
          → queue.size + n ≤ c
          → c ≤ max_client_in_queue
          → queue.cap ≤ c
          → P (if alloc c then (ok, put_bytes bytes n (moved junk c queue)) else (nomem, queue)))
      → P answer
  by_cases P none_left over fits more = elim (Bool-cases (ltb 0 n)) [
    | inr f ↦ subst P (sym (nothing (omega tests))) (none_left (omega tests))
    | inl t ↦ elim (Bool-cases (ltb max_client_in_queue (queue.size + n))) [
      | inl o ↦ subst P (sym (too_much (omega tests) (omega tests))) (over (omega tests))
      | inr u ↦ elim (Bool-cases (ltb queue.cap (queue.size + n))) [
        | inr r ↦ subst P (sym (in_place (omega tests) (omega tests))) (fits (omega tests))
        | inl m ↦
            let (c, g) = larger (omega tests) in
            subst P (sym (elsewhere c g (omega tests) (omega tests)))
              (more c g.enough g.within (omega (tests, g.enough)))
      ]
    ]
  ]

  moved-contents : (c : ℕ) → queue.cap ≤ c → contents (moved junk c queue) ≡ contents queue
  moved-contents c h =
      take-realloc junk queue.buf queue.size c (omega (arith, w.filled, w.allocated))
        (omega (arith, w.allocated))

  length-contents : length (contents queue) ≡ queue.size
  length-contents = omega (arith, length-take queue.size queue.buf, w.filled, w.allocated)

  length-given : length (take n bytes) ≡ n
  length-given = omega (arith, length-take n bytes)

  spec_ok :
      queue.size + n ≤ max_client_in_queue
      → (ok, contents queue ++ take n bytes) ≡ enqueued (contents queue) (take n bytes)
  spec_ok h = ground (arith, length-contents, length-given)

  spec_over :
      max_client_in_queue < queue.size + n
      → (overflow, contents queue) ≡ enqueued (contents queue) (take n bytes)
  spec_over h = ground (arith, length-contents, length-given)

-- A call on a well-formed queue leaves a well-formed one: the allocation has the recorded capacity, at
-- most 1 MiB, and the size is within it. So it is on every branch, failures included.
pub enqueue_bytes-WellFormed :
    (alloc : ℕ → Bool) (junk : ℕ) (queue : Queue) (bytes : List ℕ) (n : ℕ)
    → WellFormed queue
    → n ≤ length bytes
    → WellFormed (enqueue_bytes alloc junk queue (some bytes) n).1
unfolding answer
enqueue_bytes-WellFormed alloc junk queue bytes n w given =
    by_cases alloc junk queue bytes n w given (λ q. WellFormed q.1) (λ e. w) (λ h. w)
      (λ h.
        put_bytes-WellFormed queue bytes n given (omega (arith, w.allocated)) w.allocated w.limit)
      (λ c h k l. elim (Bool-cases (alloc c)) [
        | inl a ↦ rw a (
            put_bytes-WellFormed (moved junk c queue) bytes n given
              (omega (arith, length-realloc junk queue.buf c)) (length-realloc junk queue.buf c) k)
        | inr r ↦ rw r w
      ])

-- If every allocation succeeds, a call on a well-formed queue is the append of the bytes to those that
-- wait: more than 1 MiB in all is refused with FAITH_ERR_OVERFLOW, and the bytes that wait stay; else the
-- answer is FAITH_OK and the new bytes stand behind them.
pub enqueue_bytes-enqueued :
    (alloc : ℕ → Bool) (junk : ℕ) (queue : Queue) (bytes : List ℕ) (n : ℕ)
    → WellFormed queue
    → n ≤ length bytes
    → ((k : ℕ) → alloc k ≡ true)
    → waiting_of (enqueue_bytes alloc junk queue (some bytes) n)
      ≡ enqueued (contents queue) (take n bytes)
unfolding answer
enqueue_bytes-enqueued alloc junk queue bytes n w given grants =
    let spec = spec_ok alloc junk queue bytes n w given in
    by_cases alloc junk queue bytes n w given
      (λ q. waiting_of q ≡ enqueued (contents queue) (take n bytes))
      (λ e.
        let zero_more : take n bytes ≡ [] = ap (λ (k : ℕ). take k bytes) e in
        ap (λ (t : List ℕ). (ok, t))
          (sym (append-nil (contents queue)) ∙ ap (◌++◌ (contents queue)) (sym zero_more))
        ∙ spec (omega (arith, w.filled, w.limit)))
      (spec_over alloc junk queue bytes n w given)
      (λ h.
        ap (λ (t : List ℕ). (ok, t))
          (put_bytes-contents queue bytes n given (omega (arith, w.allocated)))
        ∙ spec (omega (arith, w.limit)))
      (λ c h k l. rw (grants c) (
        ap (λ (t : List ℕ). (ok, t))
          (put_bytes-contents (moved junk c queue) bytes n given
              (omega (arith, length-realloc junk queue.buf c))
            ∙ ap (λ (t : List ℕ). t ++ take n bytes)
                (moved-contents alloc junk queue bytes n w given c l))
        ∙ spec (omega arith)))
