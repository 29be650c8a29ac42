-- ===== src/Server/Conn/Flush.antt =====
-- The bytes of the output queue, and what conn_flush_output sends of them.
use faith.Common.{
  append_assoc, inl, inr, if◌then◌else◌, tests, Bool-cases, ◌≢◌, drop_long, drop-drop, drop-take,
  take-take, take-append-drop, length-take, ◌+◌, ◌-◌, ◌≤◌, ◌<◌, ◌≡◌, List, [], ◌∷◌, ◌++◌, take,
  drop, ltb, arith, refl, ap, sym, ◌∙◌, ℕ, false,
}
use faith.Proto.Status.{Status, ok, invalid, io}
use faith.Server.Transport.{Queue}
use faith.Server.Transport.Contents.{contents}
use faith.Server.FrameReader.{
  TransportResult, complete, want_read, want_write, closed, error, buffer_of,
}
use faith.Server.Conn.{
  TlsWrite, wrote, no_ssl, write_wants_read, write_wants_write, write_zero_return, write_failed,
  Flushed, flush_loop, nwrite_of, flushed_all, stop, also_sent, flush_output, is_null, buffer_of,
}
use faith.Proto.Codec.Encode.{is_null}

-- The bytes that wait to go out.
abbrev pub unsent : Queue → List ℕ
unsent out = drop out.off (contents out)

-- What was sent stood in front of what is left; the queue is freed just when nothing is left.
pub record Sends (out : Queue) (f : Flushed) : Type 0 where
  pub in_order : f.sent ++ unsent f.out ≡ unsent out
  pub whole : f.res ≡ complete → (f.sent ≡ unsent out) × (f.out ≡ flushed_all.out)
  pub part : f.res ≢ complete → f.out.off < f.out.size

module _ (out : Queue) where
  none_left : out.size ≤ out.off → unsent out ≡ []
  none_left h = drop_long out.off (contents out) (omega (arith, length-take out.size out.buf))

  flushed_all-Sends : out.size ≤ out.off → Sends out flushed_all
  flushed_all-Sends h = record {
    in_order = sym (none_left h);
    whole = λ e. (sym (none_left h), refl);
    part = λ ne. absurd (ne refl);
  }

  stop-Sends :
      (rc : Status) (res : TransportResult)
      → res ≢ complete
      → out.off < out.size
      → Sends out (stop rc res out)
  stop-Sends rc res ne h = record { in_order = refl; whole = λ e. absurd (ne e); part = λ ne'. h }

  -- The test of the loop.
  looped-Sends :
      (f : Flushed)
      → (out.off < out.size → Sends out f)
      → Sends out (if ltb out.off out.size then f else flushed_all)
  looped-Sends f more = elim (Bool-cases (ltb out.off out.size)) [
    | inl t ↦ rw t (more (omega tests))
    | inr e ↦ rw e (flushed_all-Sends (omega tests))
  ]

  stopped-Sends :
      (rc : Status) (res : TransportResult)
      → res ≢ complete
      → Sends out (if ltb out.off out.size then stop rc res out else flushed_all)
  stopped-Sends rc res ne = looped-Sends (stop rc res out) (stop-Sends rc res ne)

  module _ (n : ℕ) (h : n ≤ out.size - out.off) where
    advanced : Queue
    advanced = record out { off = out.off + n }

    split_off : take n (drop out.off out.buf) ++ unsent advanced ≡ unsent out
    unfolding advanced
    split_off =
        ap (λ (t : List ℕ). t ++ unsent advanced)
          (sym (take-take n (out.size - out.off) (drop out.off out.buf) h)
            ∙ ap (take n) (sym (drop-take out.off out.size out.buf)))
        ∙ ap (◌++◌ (take n (unsent out))) (sym (drop-drop n out.off (contents out)))
        ∙ take-append-drop n (unsent out)

    also_sent-Sends :
        (f : Flushed)
        → Sends (record out { off = out.off + n }) f
        → Sends out (also_sent (take n (drop out.off out.buf)) f)
    unfolding advanced
    also_sent-Sends f s = record {
      in_order =
          append_assoc (take n (drop out.off out.buf)) f.sent (unsent f.out)
          ∙ ap (◌++◌ (take n (drop out.off out.buf))) s.in_order
          ∙ split_off;
      whole =
          λ e. (ap (◌++◌ (take n (drop out.off out.buf))) (s.whole e).0 ∙ split_off, (s.whole e).1);
      part = s.part;
    }

flush_loop-Sends : (out : Queue) (writes : List TlsWrite) → Sends out (flush_loop out writes)
unfolding flush_loop
flush_loop-Sends out [] = stopped-Sends out ok want_write (λ e. cc)
flush_loop-Sends out (no_ssl ∷ writes) = stopped-Sends out invalid error (λ e. cc)
flush_loop-Sends out (wrote n ∷ writes) = looped-Sends out _ (λ h.
    elim (Bool-cases (ltb 0 (nwrite_of out n))) [
      | inl t ↦ rw t (
          also_sent-Sends out (nwrite_of out n) (ground arith) _
            (flush_loop-Sends (record out { off = out.off + nwrite_of out n }) writes))
      | inr e ↦ rw e (stop-Sends out io error (λ e. cc) h)
    ])
flush_loop-Sends out (write_wants_read ∷ writes) = stopped-Sends out ok want_read (λ e. cc)
flush_loop-Sends out (write_wants_write ∷ writes) = stopped-Sends out ok want_write (λ e. cc)
flush_loop-Sends out (write_zero_return ∷ writes) = stopped-Sends out ok closed (λ e. cc)
flush_loop-Sends out (write_failed ∷ writes) = stopped-Sends out io error (λ e. cc)

-- conn_flush_output on a queue that has its buffer sends bytes from the front of those that wait, in
-- order, whatever SSL_write answers. It reports COMPLETE just when all of them are sent, and then the
-- queue is freed; else some of them are left in the queue.
pub flush_output-Sends :
    (res : TransportResult) (out : Queue) (writes : List TlsWrite)
    → 0 < out.cap
    → Sends out (flush_output res out writes)
unfolding flush_output
flush_output-Sends res out writes h =
    let there : is_null (buffer_of out) ≡ false = ground arith in
    rw there (flush_loop-Sends out writes)
