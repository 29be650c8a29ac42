-- ===== src/Proto/Codec/Encode/Stops.antt =====
-- An encoder that returns early: `Stops m bs rc` says that `m` writes the bytes `bs` behind what is
-- written and then returns `rc`.
use faith.Common.{
  ℕ, ◌+◌, ◌≤◌, ◌≡◌, ap, ap₂, sym, ◌∙◌, append_assoc, append-nil, drop-drop, length-append,
  length-drop, le→ltb, arith, List, [], ◌++◌, Bool, true, some, length, drop, ◌<◌,
}
use faith.Proto.Status.{Status, overflow}
use faith.Proto.Codec.Steps.{Outcome, fail, ◌>>◌, guard}
use faith.Proto.Codec.Encode.{
  Buf, Writer, encode_with, encode_epilogue, encode_u32_be, encode_int_be, overflow,
}
use faith.Proto.Codec.Encode.Writes.{Writes}

abbrev pub stopped : Status → List ℕ → ℕ → Outcome Buf (Unit {0})
stopped rc xs i = fail rc (record { cells = xs; off = i })

pub record Stops (m : Writer) (bs : List ℕ) (rc : Status) : Type 0 where
  pub run :
      (buf_cap : ℕ) (pre old : List ℕ)
      → length pre + length bs ≤ buf_cap
      → length bs ≤ length old
      → m buf_cap (record { cells = pre ++ old; off = length pre })
        ≡ stopped rc ((pre ++ bs) ++ drop (length bs) old) (length pre + length bs)

stopped_at :
    (rc : Status) {xs ys : List ℕ} {i j : ℕ} → xs ≡ ys → i ≡ j → stopped rc xs i ≡ stopped rc ys j
stopped_at rc p q = λ t. stopped rc (p t) (q t)

pub guard-Stops : {t : Bool} (rc : Status) (k : Writer) → t ≡ true → Stops (guard t rc >> k) [] rc
unfolding guard ◌>>◌
guard-Stops rc k e = record {
  run = λ buf_cap pre old fits room.
      rw e (stopped_at rc (ap (λ (xs : List ℕ). xs ++ old) (sym (append-nil pre))) (omega arith));
}

pub >>-Stops :
    {m k : Writer} {bs cs : List ℕ} (rc : Status)
    → Writes m bs
    → Stops k cs rc
    → Stops (m >> k) (bs ++ cs) rc
unfolding ◌>>◌
>>-Stops {m} {k} {bs} {cs} rc f g = record {
  run = λ buf_cap pre old fits room.
      rw
        (f.run buf_cap pre old (omega (arith, length-append bs cs))
          (omega (arith, length-append bs cs)))
        (ap (λ (n : ℕ). k buf_cap (record { cells = (pre ++ bs) ++ drop (length bs) old; off = n }))
            (sym (length-append pre bs))
          ∙ g.run buf_cap (pre ++ bs) (drop (length bs) old)
              (omega (arith, length-append bs cs, length-append pre bs))
              (omega (arith, length-append bs cs, length-drop (length bs) old))
          ∙ stopped_at rc
              (ap₂ ◌++◌ (append_assoc pre bs cs) (
                drop-drop (length cs) (length bs) old
                ∙ ap (λ (n : ℕ). drop n old) (sym (length-append bs cs))))
              (omega (arith, length-append bs cs, length-append pre bs)));
}

-- The whole call: the bytes before the return stay written, and `*out_size` is 0.
pub encode_with-Stops :
    {T : Type 0} (envl_size : T → ℕ) (body : T → Writer) (msg : T) (bs : List ℕ) (rc : Status)
    → Stops (body msg) bs rc
    → (cells : List ℕ) (n buf_cap : ℕ) → length bs ≤ envl_size msg
    → envl_size msg ≤ buf_cap
    → length bs ≤ length cells
    → encode_with envl_size body (some cells) (some n) buf_cap (some msg)
      ≡ record { status = rc; out_buf = some (bs ++ drop (length bs) cells); out_size = some 0 }
unfolding encode_with encode_epilogue
encode_with-Stops envl_size body msg bs rc w cells n buf_cap e fits room =
    rw (le→ltb buf_cap (envl_size msg) fits, w.run buf_cap [] cells (omega arith) room)

-- A first number of four bytes that does not fit in the buffer.
pub encode_with-no_room :
    {T : Type 0} (envl_size : T → ℕ) (body : T → Writer) (msg : T) (v : ℕ) (k : Writer)
    → body msg ≡ (encode_u32_be v >> k)
    → (cells : List ℕ) (n buf_cap : ℕ) → buf_cap < 4
    → (encode_with envl_size body (some cells) (some n) buf_cap (some msg)).status ≡ overflow
unfolding encode_with encode_epilogue encode_u32_be encode_int_be ◌>>◌
encode_with-no_room envl_size body msg v k e cells n buf_cap h = rw e (ground arith)
