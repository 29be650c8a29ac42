-- ===== src/Proto/Codec/Encode/Writes.antt =====
-- What an encoder's statements write: `Writes m bs` says that `m` writes the bytes `bs` at the
-- offset and moves the offset behind them, whatever stands before it and behind them.
use faith.Common.{
  none, ℕ, ◌+◌, ◌-◌, ◌^◌, ◌≤◌, ◌<◌, ◌≡◌, refl, sym, ap, ap₂, ◌∙◌, arith, List, [], ◌++◌,
  append_assoc, append-nil, some, length, length-append, length-drop, take, take_all, drop,
  drop-drop, copy_at-append, ltb, le→ltb, lt→ltb, ==_refl, Bool, false, Option, drop_long,
}
use native.Mathlib.Nat.{mod-eq_of_lt}
use faith.Proto.Status.{Status, ok}
use faith.Proto.Codec.Steps.{Outcome, done, ◌>>◌, guard, pure, when}
use faith.Proto.Codec.Words.{
  be, write_u16_be, write_u32_be, write_u64_be, write_u16_be-append, write_u32_be-append,
  write_u64_be-append,
}
use faith.Proto.Codec.Encode.{
  Buf, cells_of, append_nonempty, Writer, append, encode_int_be, encode_u16_be, encode_u32_be,
  encode_u64_be, Encoded, encode_epilogue, encode_with,
}

pub record Writes (m : Writer) (bs : List ℕ) : Type 0 where
  pub run :
      (buf_cap : ℕ) (pre old : List ℕ)
      → length pre + length bs ≤ buf_cap
      → length bs ≤ length old
      → m buf_cap (record { cells = pre ++ old; off = length pre })
        ≡ done tt
            (record { cells = (pre ++ bs) ++ drop (length bs) old; off = length pre + length bs })

-- Both tests of the capacity pass.
fits_after :
    (buf_cap off n : ℕ)
    → off + n ≤ buf_cap
    → (ltb buf_cap off ≡ false) × (ltb (buf_cap - off) n ≡ false)
fits_after buf_cap off n h = (ground arith, ground arith)

abbrev pub stands : List ℕ → ℕ → Outcome Buf (Unit {0})
stands xs i = done tt (record { cells = xs; off = i })

pub wrote : {xs ys : List ℕ} {i j : ℕ} → xs ≡ ys → i ≡ j → stands xs i ≡ stands ys j
wrote p q = λ t. stands (p t) (q t)

-- The first cells of what a pointer points to.
pub append_front-Writes :
    (xs bs : List ℕ) (n : ℕ) → take n xs ≡ bs → length bs ≡ n → Writes (append (some xs) n) bs
unfolding append
append_front-Writes xs bs n front e = record {
  run = λ buf_cap pre old fits room.
      let (a, b) = fits_after buf_cap (length pre) n (omega arith) in
      ground (arith, front, copy_at-append pre bs old room);
}

pub append-Writes : (bs : List ℕ) (n : ℕ) → length bs ≡ n → Writes (append (some bs) n) bs
append-Writes bs n e =
    append_front-Writes bs bs n (ap (λ (k : ℕ). take k bs) (sym e) ∙ take_all bs) e

encode_int_be-Writes :
    (n : ℕ) (write_fn : ℕ → ℕ → List ℕ → List ℕ) (v : ℕ) (bs : List ℕ)
    → length bs ≡ n
    → ((pre old : List ℕ)
        → n ≤ length old
        → write_fn v (length pre) (pre ++ old) ≡ (pre ++ bs) ++ drop n old)
    → Writes (encode_int_be n write_fn v) bs
unfolding encode_int_be
encode_int_be-Writes n write_fn v bs e writes = record {
  run = λ buf_cap pre old fits room.
      let (a, b) = fits_after buf_cap (length pre) n (omega arith) in
      ground (arith, writes pre old (omega arith));
}

pub >>-Writes :
    {m k : Writer} {bs cs : List ℕ} → Writes m bs → Writes k cs → Writes (m >> k) (bs ++ cs)
unfolding ◌>>◌
>>-Writes {m} {k} {bs} {cs} f g = record {
  run = λ buf_cap pre old fits room.
      rw
        (f.run buf_cap pre old (omega (arith, length-append bs cs))
          (omega (arith, length-append bs cs)))
        (ap (λ (n : ℕ). k buf_cap (record { cells = (pre ++ bs) ++ drop (length bs) old; off = n }))
            (sym (length-append pre bs))
          ∙ g.run buf_cap (pre ++ bs) (drop (length bs) old)
              (omega (arith, length-append bs cs, length-append pre bs))
              (omega (arith, length-append bs cs, length-drop (length bs) old))
          ∙ wrote
              (ap₂ ◌++◌ (append_assoc pre bs cs) (
                drop-drop (length cs) (length bs) old
                ∙ ap (λ (n : ℕ). drop n old) (sym (length-append bs cs))))
              (omega (arith, length-append bs cs, length-append pre bs)));
}

pub encode_u16_be-Writes : (v : ℕ) → v < 2 ^ 16 → Writes (encode_u16_be v) (be 2 v)
unfolding encode_u16_be
encode_u16_be-Writes v h =
    rw (mod-eq_of_lt h)
      (encode_int_be-Writes 2 write_u16_be v (be 2 v) refl (write_u16_be-append v))

pub encode_u32_be-Writes : (v : ℕ) → v < 2 ^ 32 → Writes (encode_u32_be v) (be 4 v)
unfolding encode_u32_be
encode_u32_be-Writes v h =
    rw (mod-eq_of_lt h)
      (encode_int_be-Writes 4 write_u32_be v (be 4 v) refl (write_u32_be-append v))

pub encode_u64_be-Writes : (v : ℕ) → v < 2 ^ 64 → Writes (encode_u64_be v) (be 8 v)
unfolding encode_u64_be
encode_u64_be-Writes v h =
    rw (mod-eq_of_lt h)
      (encode_int_be-Writes 8 write_u64_be v (be 8 v) refl (write_u64_be-append v))

pub guard-Writes : {t : Bool} (rc : Status) → t ≡ false → Writes (guard t rc) []
unfolding guard
guard-Writes {t} rc e = record {
  run = λ buf_cap pre old fits room.
      rw e (wrote (ap (λ (xs : List ℕ). xs ++ old) (sym (append-nil pre))) (omega arith));
}

-- A pointer to `n` bytes, which is null just if there are none.
abbrev pub IsBlock : Option (List ℕ) → ℕ → Type 0
IsBlock none n = n ≡ 0
IsBlock (some xs) n = (length xs ≡ n) × (0 < n)

pub length-cells_of : (ptr : Option (List ℕ)) (n : ℕ) → IsBlock ptr n → length (cells_of ptr) ≡ n
length-cells_of none n e = sym e
length-cells_of (some xs) n (e, h) = e

pub append_nonempty-Writes :
    (ptr : Option (List ℕ)) (n : ℕ) → IsBlock ptr n → Writes (append_nonempty ptr n) (cells_of ptr)
unfolding append_nonempty when
append_nonempty-Writes none n e = record {
  run = λ buf_cap pre old fits room.
      rw e (wrote (ap (λ (xs : List ℕ). xs ++ old) (sym (append-nil pre))) (omega arith));
}
append_nonempty-Writes (some xs) n (e, h) = record {
  run = λ buf_cap pre old fits room.
      rw (lt→ltb 0 n h) ((append-Writes xs n e).run buf_cap pre old fits room);
}

pub nothing-Writes : Writes (pure tt) []
unfolding pure
nothing-Writes = record {
  run = λ buf_cap pre old fits room.
      wrote (ap (λ (xs : List ℕ). xs ++ old) (sym (append-nil pre))) (omega arith);
}

-- The last statement of an encoder.
pub last-Writes : {m : Writer} {bs : List ℕ} → Writes m bs → Writes m (bs ++ [])
last-Writes {m} {bs} w = rw append-nil w

pub ruleset writing = (
  last-Writes, append_nonempty-Writes, append-Writes, >>-Writes, encode_u16_be-Writes,
  encode_u32_be-Writes, encode_u64_be-Writes, guard-Writes,
)

abbrev pub encoded_ok : List ℕ → ℕ → Encoded
encoded_ok cells n = record { status = ok; out_buf = some cells; out_size = some n }

encode_epilogue-exact :
    (xs : List ℕ) (i n : ℕ)
    → i ≡ n
    → n < 2 ^ 32
    → encode_epilogue n (done tt (record { cells = xs; off = i })) ≡ encoded_ok xs n
unfolding encode_epilogue
encode_epilogue-exact xs i n e h = rw (e, ==_refl n, mod-eq_of_lt h)

-- A call of an encoder with its arguments present and room in the buffer: it writes the bytes and
-- leaves the cells behind them.
module _ {T : Type 0} (envl_size : T → ℕ) (body : T → Writer) (msg : T) (bs : List ℕ) where
  pub encode_with-ok :
      Writes (body msg) bs
      → (cells : List ℕ) (n buf_cap : ℕ) → length bs ≡ envl_size msg
      → envl_size msg < 2 ^ 32
      → envl_size msg ≤ buf_cap
      → envl_size msg ≤ length cells
      → encode_with envl_size body (some cells) (some n) buf_cap (some msg)
        ≡ encoded_ok (bs ++ drop (envl_size msg) cells) (envl_size msg)
  unfolding encode_with
  encode_with-ok w cells n buf_cap e small fits room =
      rw (le→ltb buf_cap (envl_size msg) fits, w.run buf_cap [] cells (omega arith) (omega arith))
        (encode_epilogue-exact (bs ++ drop (length bs) cells) (0 + length bs) (envl_size msg)
            (omega arith) small
          ∙ ap (λ (k : ℕ). encoded_ok (bs ++ drop k cells) (envl_size msg)) e)

-- In memory of just the size nothing stands behind the bytes.
pub encoded_ok_exact :
    (bs cells : List ℕ) (k size : ℕ)
    → k ≡ size
    → length cells ≡ size
    → encoded_ok (bs ++ drop k cells) k ≡ encoded_ok bs size
encoded_ok_exact bs cells k size e f =
    rw (drop_long k cells (omega (arith, f)), append-nil bs) (ap (encoded_ok bs) e)
