-- ===== src/Server/FrameReader/Reassembly.antt =====
-- Frames that arrive in pieces, or together.
use faith.Proto.Frame.Layout.{
  IsFrame, frame_bytes, length-frame_bytes, decode_frame_part, decode_frame_null,
}
use faith.Common.{
  none, refl, concat, take_all, lt→ltb, drop_long, append_assoc, ℕ, ◌+◌, ◌≤◌, ◌<◌, ◌≡◌, ap, sym,
  ◌∙◌, arith, Bool-cases, inl, inr, List, [], ◌∷◌, ◌++◌, Bool, true, false, some, ◌==◌, length,
  take, drop, length-append, length-take, take-take, take-append_short, take-append-drop,
  append-nil,
}
use faith.Proto.Status.{bad_frame, Status, ok, incomplete}
use faith.Proto.Codec.Words.{be}
use faith.Proto.Frame.{Frame, decode_frame}
use faith.Proto.Frame.Stream.{decode_frame_stream}
use faith.Server.Transport.{Queue}
use faith.Server.Transport.Contents.{WellFormed, contents}
use faith.Server.Transport.Consume.{consume-contents}
use faith.Server.Transport.Contents.{waiting_of, enqueue_bytes-WellFormed, enqueue_bytes-enqueued}
use faith.Server.Transport.{enqueue_bytes}
use faith.Server.FrameReader.{
  error, complete, read_bytes, read_more_ssl_bytes, try_parse_from_buffer, FullRead, try_full_read,
  TlsRead, buffer_of,
}

-- What SSL_read answers for pieces, none of them empty.
abbrev pub pieces : List (List ℕ) → List TlsRead
pieces [] = []
pieces (c ∷ cs) = read_bytes c ∷ pieces cs

abbrev pub NonEmpty : List (List ℕ) → Type 0
NonEmpty [] = Unit
NonEmpty (c ∷ cs) = (0 < length c) × NonEmpty cs

module _ (alloc : ℕ → Bool) (m : Frame) (valid : IsFrame m) (grants : (k : ℕ) → alloc k ≡ true)
    (queue : Queue) (w : WellFormed queue) (more : List ℕ) (old : Frame)
    (split : contents queue ++ more ≡ frame_bytes m) where
  waiting : length (contents queue) ≡ queue.size
  waiting = omega (arith, length-take queue.size queue.buf, w.filled, w.allocated)

  sizes : queue.size + length more ≡ 8 + m.payload_size
  sizes =
      ap (λ (n : ℕ). n + length more) (sym waiting)
      ∙ sym (length-append (contents queue) more)
      ∙ ap length split
      ∙ length-frame_bytes m valid

  front : 8 ≤ queue.size → take 4 queue.buf ≡ be 4 m.frame_size
  unfolding frame_bytes
  front h =
      sym (take-take 4 queue.size queue.buf (omega arith))
      ∙ sym (take-append_short 4 (contents queue) more (omega (arith, waiting)))
      ∙ ap (take 4) split

  -- What the queue holds after the next piece.
  enqueue_next :
      (junk : ℕ) (c rest : List ℕ)
      → more ≡ c ++ rest
      → waiting_of (enqueue_bytes alloc junk queue (some c) (length c)) ≡ (ok, contents queue ++ c)
  enqueue_next junk c rest e =
      let fits : queue.size + length c ≤ 264 =
        omega (arith, sizes, valid.limit, length-append c rest, ap length e) in
      enqueue_bytes-enqueued alloc junk queue c (length c) w (omega arith) grants
      ∙ rw (take_all c) (ground (arith, waiting))

  parse_part :
      0 < length more → (decode_frame alloc (buffer_of queue) queue.size old).0 ≡ incomplete
  parse_part h = elim (Bool-cases (queue.cap == 0)) [
    | inl t ↦ rw t (
        ap (λ (q : Status × Frame). q.0)
          (decode_frame_null alloc queue.size old (ground (arith, w.filled))))
    | inr f ↦ rw f (
        decode_frame_part alloc m valid (grants m.payload_size) queue.buf queue.size old front
          (omega (arith, sizes)))
  ]

  parse_whole : more ≡ [] → decode_frame alloc (buffer_of queue) queue.size old ≡ (ok, m)
  parse_whole e =
      let none_left : length more ≡ 0 = ap length e in
      let there : (queue.cap == 0) ≡ false = ground (arith, w.filled, sizes) in
      let bytes : queue.buf ≡ frame_bytes m ++ drop queue.size queue.buf =
        sym (take-append-drop queue.size queue.buf)
        ∙ ap (λ (t : List ℕ). t ++ drop queue.size queue.buf)
            (sym (append-nil (contents queue)) ∙ ap (◌++◌ (contents queue)) (sym e) ∙ split) in
      rw there (
        ap (λ (t : List ℕ). decode_frame alloc (some t) queue.size old) bytes
        ∙ decode_frame_stream alloc m (drop queue.size queue.buf) queue.size old valid
            (grants m.payload_size)
        ∙ ground (arith, sizes))

-- The call ended with the frame, nothing waits, and every piece was read.
pub record Delivered (r : FullRead) (m : Frame) : Type 0 where
  pub result : r.result ≡ complete
  pub frame : r.frame ≡ m
  pub nothing_waits : contents r.queue ≡ []
  pub queue : WellFormed r.queue
  pub reads : r.reads ≡ []

whole_frame :
    (alloc : ℕ → Bool) (junk : ℕ) (m : Frame) (queue : Queue) (old : Frame)
    → IsFrame m
    → ((k : ℕ) → alloc k ≡ true)
    → WellFormed queue
    → contents queue ++ [] ≡ frame_bytes m
    → Delivered (try_full_read alloc junk queue old []) m
unfolding try_full_read try_parse_from_buffer
whole_frame alloc junk m queue old valid grants w split =
    let total = sizes alloc m valid grants queue w [] old split in
    let (left, kept) =
      consume-contents (m.frame_size + 4) queue w (omega (arith, total, valid.frame_size)) in
    rw (parse_whole alloc m valid grants queue w [] old split refl) (record {
      result = refl;
      frame = refl;
      nothing_waits =
          left
          ∙ drop_long (m.frame_size + 4) (contents queue) (
              omega (
                arith,
                total,
                valid.frame_size,
                waiting alloc m valid grants queue w [] old split,
              ));
      queue = kept;
      reads = refl;
    })

next_piece :
    (alloc : ℕ → Bool) (junk : ℕ) (m : Frame) (queue : Queue) (old : Frame) (c : List ℕ)
    (cs : List (List ℕ))
    → IsFrame m
    → ((k : ℕ) → alloc k ≡ true)
    → WellFormed queue
    → 0 < length c
    → contents queue ++ concat (c ∷ cs) ≡ frame_bytes m
    → try_full_read alloc junk queue old (pieces (c ∷ cs))
      ≡ try_full_read alloc junk
          (enqueue_bytes alloc junk queue (some c) (length c)).1
          (decode_frame alloc (buffer_of queue) queue.size old).1
          (pieces cs)
unfolding try_full_read try_parse_from_buffer read_more_ssl_bytes
next_piece alloc junk m queue old c cs valid grants w h split =
    let part =
      parse_part alloc m valid grants queue w (concat (c ∷ cs)) old split
        (omega (arith, length-append c (concat cs))) in
    let stored =
      ap (λ (q : Status × List ℕ). q.0)
        (enqueue_next alloc m valid grants queue w (concat (c ∷ cs)) old split junk c (concat cs)
          refl) in
    rw (part, stored, lt→ltb 0 (length c) h) refl

-- A frame of at most 256 payload bytes whose first bytes may wait in the queue already, while the others
-- arrive in pieces that are not empty: one call of frame_try_full_read reads all pieces, answers
-- TRANSPORT_RES_COMPLETE with the frame, and leaves nothing in the queue, which stays well formed. Every
-- allocation succeeds, and the frame's last byte ends the last piece.
pub try_full_read-Delivered :
    (alloc : ℕ → Bool) (junk : ℕ) (m : Frame) (queue : Queue) (old : Frame) (cs : List (List ℕ))
    → IsFrame m
    → ((k : ℕ) → alloc k ≡ true)
    → WellFormed queue
    → NonEmpty cs
    → contents queue ++ concat cs ≡ frame_bytes m
    → Delivered (try_full_read alloc junk queue old (pieces cs)) m
try_full_read-Delivered alloc junk m queue old [] valid grants w some_bytes split =
    whole_frame alloc junk m queue old valid grants w split
try_full_read-Delivered alloc junk m queue old (c ∷ cs) valid grants w (h, others) split =
    let stored =
      ap (λ (q : Status × List ℕ). q.1)
        (enqueue_next alloc m valid grants queue w (concat (c ∷ cs)) old split junk c (concat cs)
          refl) in
    rw (next_piece alloc junk m queue old c cs valid grants w h split) (
      try_full_read-Delivered alloc junk m (enqueue_bytes alloc junk queue (some c) (length c)).1
        (decode_frame alloc (buffer_of queue) queue.size old).1 cs valid grants
        (enqueue_bytes-WellFormed alloc junk queue c (length c) w (omega arith)) others
        (ap (λ (t : List ℕ). t ++ concat cs) stored
          ∙ append_assoc (contents queue) c (concat cs)
          ∙ split))

trailing_frame :
    (alloc : ℕ → Bool) (m : Frame) (queue : Queue) (old : Frame) (more : List ℕ)
    → IsFrame m
    → ((k : ℕ) → alloc k ≡ true)
    → WellFormed queue
    → contents queue ≡ frame_bytes m ++ more
    → 0 < length more
    → decode_frame alloc (buffer_of queue) queue.size old ≡ (bad_frame, record m { payload = none })
trailing_frame alloc m queue old more valid grants w split h =
    let total : queue.size ≡ 8 + m.payload_size + length more = omega (
      arith,
      ap length split,
      length-append (frame_bytes m) more,
      length-frame_bytes m valid,
      length-take queue.size queue.buf,
      w.filled,
      w.allocated,
    ) in
    let there : (queue.cap == 0) ≡ false = ground (arith, w.filled, total) in
    let bytes : queue.buf ≡ frame_bytes m ++ (more ++ drop queue.size queue.buf) =
      sym (take-append-drop queue.size queue.buf)
      ∙ ap (λ (t : List ℕ). t ++ drop queue.size queue.buf) split
      ∙ append_assoc (frame_bytes m) more (drop queue.size queue.buf) in
    rw there (
      ap (λ (t : List ℕ). decode_frame alloc (some t) queue.size old) bytes
      ∙ decode_frame_stream alloc m (more ++ drop queue.size queue.buf) queue.size old valid
          (grants m.payload_size)
      ∙ ground (arith, total))

-- Bytes that wait behind a whole frame of at most 256 payload bytes make the call end with
-- TRANSPORT_RES_ERROR, before anything is read and with the queue as it was. Every allocation succeeds.
pub try_full_read-pipelined :
    (alloc : ℕ → Bool) (junk : ℕ) (m : Frame) (queue : Queue) (old : Frame) (more : List ℕ)
    (reads : List TlsRead)
    → IsFrame m
    → ((k : ℕ) → alloc k ≡ true)
    → WellFormed queue
    → contents queue ≡ frame_bytes m ++ more
    → 0 < length more
    → ((try_full_read alloc junk queue old reads).result ≡ error)
      × ((try_full_read alloc junk queue old reads).queue ≡ queue)
unfolding try_full_read try_parse_from_buffer
try_full_read-pipelined alloc junk m queue old more [] valid grants w split h =
    rw (trailing_frame alloc m queue old more valid grants w split h) (refl, refl)
try_full_read-pipelined alloc junk m queue old more (r ∷ reads) valid grants w split h =
    rw (trailing_frame alloc m queue old more valid grants w split h) (refl, refl)
