-- ===== src/Server/Transport/Consume.antt =====
-- Taking a frame from the front of a queue, as frame_try_full_read does.
use faith.Common.{
  copy_at, length-drop, drop-take, refl, tests, Bool-cases, inl, inr, sym, ℕ, ◌+◌, ◌-◌, ◌≤◌, ◌≡◌,
  ap, ◌∙◌, arith, List, ◌++◌, ltb, if◌then◌else◌, length, take, drop, length-take, take-append,
  length-copy_at, copy_at_split,
}
use faith.Server.Transport.{consume, Queue}
use faith.Server.Transport.Contents.{contents, WellFormed}

-- A copy to the start of the allocation stands there.
module _ (src buf : List ℕ) (fits : length src ≤ length buf) where
  length-copy_at_start : length (copy_at 0 src buf) ≡ length buf
  length-copy_at_start = length-copy_at 0 src buf (omega arith)

  take-copy_at_start : (n : ℕ) → n ≡ length src → take n (copy_at 0 src buf) ≡ src
  take-copy_at_start n e =
      ap (take n) (copy_at_split 0 src buf (omega arith))
      ∙ ap (λ (k : ℕ). take k (src ++ drop (0 + length src) buf)) e
      ∙ take-append src _

module _ (consumed : ℕ) (queue : Queue) (w : WellFormed queue) (h : consumed ≤ queue.size) where
  left : ℕ
  left = queue.size - consumed

  length-left : length (take left (drop consumed queue.buf)) ≡ left
  unfolding left
  length-left = omega (
    arith,
    length-take (queue.size - consumed) (drop consumed queue.buf),
    length-drop consumed queue.buf,
    w.filled,
    w.allocated,
  )

  src_fits : length (take left (drop consumed queue.buf)) ≤ length queue.buf
  unfolding left
  src_fits = omega (arith, length-left, w.filled, w.allocated)

  moved_down :
      take left (
        if ltb 0 left then copy_at 0 (take left (drop consumed queue.buf)) queue.buf else queue.buf)
      ≡ take left (drop consumed queue.buf)
  moved_down = elim (Bool-cases (ltb 0 left)) [
    | inl t ↦ rw t (take-copy_at_start _ queue.buf src_fits left (sym length-left))
    | inr f ↦
        let none_left : left ≡ 0 = omega (tests, f) in
        ap
          (λ (k : ℕ). take k (
            if ltb 0 left
            then copy_at 0 (take left (drop consumed queue.buf)) queue.buf
            else queue.buf))
          none_left
        ∙ ap (λ (k : ℕ). take k (drop consumed queue.buf)) (sym none_left)
  ]

  moved_length :
      length (
        if ltb 0 left then copy_at 0 (take left (drop consumed queue.buf)) queue.buf else queue.buf)
      ≡ length queue.buf
  moved_length = elim (Bool-cases (ltb 0 left)) [
    | inl t ↦ rw t (length-copy_at_start _ queue.buf src_fits)
    | inr f ↦ rw f refl
  ]

-- Taking a front part of the bytes that wait leaves the others, at the front of the allocation.
pub consume-contents :
    (consumed : ℕ) (queue : Queue)
    → WellFormed queue
    → consumed ≤ queue.size
    → (contents (consume consumed queue) ≡ drop consumed (contents queue))
      × WellFormed (consume consumed queue)
unfolding consume left
consume-contents consumed queue w h = (
  moved_down consumed queue w h ∙ sym (drop-take consumed queue.size queue.buf),
  record {
    allocated = moved_length consumed queue w h ∙ w.allocated;
    filled = omega (arith, w.filled);
    limit = w.limit;
  },
)
