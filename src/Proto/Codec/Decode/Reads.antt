-- ===== src/Proto/Codec/Decode/Reads.antt =====
-- What a decoder's statements read: `Reads m bs o v o'` says that `m`, standing before the bytes
-- `bs`, moves the offset behind them, yields `v`, and changes the struct from `o` to `o'`, whatever
-- stands before and behind. `Finishes i m bs o o'` says that the rest `m` of a decoder, at offset
-- `i` of a payload that ends with `bs`, succeeds.
use faith.Common.{
  ℕ, ◌+◌, ◌-◌, ◌^◌, ◌≤◌, ◌<◌, ◌≡◌, refl, sym, ap, ◌∙◌, arith, List, [], ◌++◌, append_assoc, some,
  length, length-append, take, take-append, drop, drop-append, ltb, lt→ltb, none, Bool, true, false,
  Option,
}
use faith.Proto.Status.{Status, ok}
use faith.Proto.Codec.Steps.{done, ◌>>=◌, ◌>>◌, guard, deferred, when}
use faith.Proto.Codec.Encode.{cells_of}
use faith.Proto.Codec.Encode.Writes.{IsBlock}
use faith.Proto.Codec.Words.{
  be, read_u16_be, read_u32_be, read_u64_be, read_u16_be-be, read_u32_be-be, read_u64_be-be,
}
use faith.Proto.Codec.Decode.{
  Payload, Cursor, Reader, decode_bytes, decode_block, decode_int_be, decode_u16_be, decode_u32_be,
  decode_u64_be, assign, current, remaining, ne, lt, decode_epilogue, Decoded, decode_with,
}

abbrev pub payload_of : List ℕ → ℕ → Payload
payload_of bytes size = record { bytes = bytes; size = size }

abbrev pub cursor : {T : Type 0} → ℕ → T → Cursor T
cursor off out = record { off = off; out = out }

pub record Reads {T A : Type 0} (m : Reader T A) (bs : List ℕ) (o : T) (v : A) (o' : T)
    : Type 0 where
  pub run :
      (pre rest : List ℕ) (i j size : ℕ)
      → length pre ≡ i
      → i + length bs ≡ j
      → j ≤ size
      → m (payload_of (pre ++ (bs ++ rest)) size) (cursor i o) ≡ done v (cursor j o')

pub record Finishes {T : Type 0} (i : ℕ) (m : Reader T (Unit {0})) (bs : List ℕ) (o : T) (o' : T)
    : Type 0 where
  pub run :
      (pre rest : List ℕ) (size : ℕ)
      → length pre ≡ i
      → i + length bs ≡ size
      → m (payload_of (pre ++ (bs ++ rest)) size) (cursor i o) ≡ done tt (cursor size o')

fits_after :
    (buf_cap off n : ℕ)
    → off + n ≤ buf_cap
    → (ltb buf_cap off ≡ false) × (ltb (buf_cap - off) n ≡ false)
fits_after buf_cap off n h = (ground arith, ground arith)

pub behind : (pre rest : List ℕ) {i : ℕ} → length pre ≡ i → drop i (pre ++ rest) ≡ rest
behind pre rest {i} at = ap (λ (k : ℕ). drop k (pre ++ rest)) (sym at) ∙ drop-append pre rest

module _ {T : Type 0} where
  decode_int_be-Reads :
      (n : ℕ) (read_fn : Option (List ℕ) → ℕ) (bs : List ℕ) (v : ℕ) (o : T)
      → length bs ≡ n
      → ((rest : List ℕ) → read_fn (some (bs ++ rest)) ≡ v)
      → Reads (decode_int_be n read_fn) bs o v o
  unfolding decode_int_be
  decode_int_be-Reads n read_fn bs v o e reads = record {
    run = λ pre rest i j size at ends fits.
        let (a, b) = fits_after size i n (omega arith) in
        ground (arith, reads rest, behind pre (bs ++ rest) at);
  }

  pub decode_u16_be-Reads : {v : ℕ} {o : T} → v < 2 ^ 16 → Reads decode_u16_be (be 2 v) o v o
  unfolding decode_u16_be
  decode_u16_be-Reads {v} {o} h =
      decode_int_be-Reads 2 read_u16_be (be 2 v) v o refl (λ rest. read_u16_be-be v rest h)

  pub decode_u32_be-Reads : {v : ℕ} {o : T} → v < 2 ^ 32 → Reads decode_u32_be (be 4 v) o v o
  unfolding decode_u32_be
  decode_u32_be-Reads {v} {o} h =
      decode_int_be-Reads 4 read_u32_be (be 4 v) v o refl (λ rest. read_u32_be-be v rest h)

  pub decode_u64_be-Reads : {v : ℕ} {o : T} → v < 2 ^ 64 → Reads decode_u64_be (be 8 v) o v o
  unfolding decode_u64_be
  decode_u64_be-Reads {v} {o} h =
      decode_int_be-Reads 8 read_u64_be (be 8 v) v o refl (λ rest. read_u64_be-be v rest h)

  pub decode_bytes-Reads :
      {bs : List ℕ} {n : ℕ} {o : T} → length bs ≡ n → Reads (decode_bytes n) bs o bs o
  unfolding decode_bytes
  decode_bytes-Reads {bs} {n} e = record {
    run = λ pre rest i j size at ends fits.
        let (a, b) = fits_after size i n (omega arith) in
        let front : take n (bs ++ rest) ≡ bs =
          ap (λ (k : ℕ). take k (bs ++ rest)) (sym e) ∙ take-append bs rest in
        ground (arith, front, behind pre (bs ++ rest) at);
  }

  -- A statement that reads, and then the rest of the decoder.
  pub >>=-Finishes :
      {A : Type 0} {m : Reader T A} (k : A → Reader T (Unit {0})) {bs cs : List ℕ} {o o₁ o' : T}
      {v : A} {i : ℕ}
      → Reads m bs o v o₁
      → Finishes (i + length bs) (k v) cs o₁ o'
      → Finishes i (m >>= k) (bs ++ cs) o o'
  unfolding ◌>>=◌
  >>=-Finishes {m} k {bs} {cs} {o} {o₁} {o'} {v} {i} f g = record {
    run = λ pre rest size at ends.
        ap (λ (t : List ℕ). (m >>= k) (payload_of (pre ++ t) size) (cursor i o))
          (append_assoc bs cs rest)
        ∙ rw
            (f.run pre (cs ++ rest) i (i + length bs) size at refl
              (omega (arith, length-append bs cs)))
            (ap (λ (t : List ℕ). k v (payload_of t size) (cursor (i + length bs) o₁))
                (sym (append_assoc pre bs (cs ++ rest)))
              ∙ g.run (pre ++ bs) rest size (omega (arith, length-append pre bs))
                  (omega (arith, length-append bs cs)));
  }

  pub assign-Finishes :
      (f : T → T) {k : Reader T (Unit {0})} {bs : List ℕ} (o : T) {o' : T} {i : ℕ}
      → Finishes i k bs (f o) o'
      → Finishes i (assign f >> k) bs o o'
  unfolding ◌>>◌ assign
  assign-Finishes f o g = record { run = λ pre rest size at ends. g.run pre rest size at ends }

  -- A statement that reads a value, its assignment to a field, and then the rest of the decoder.
  pub field-Finishes :
      {A : Type 0} {m : Reader T A} (f : A → T → T) {k : Reader T (Unit {0})} {bs cs : List ℕ}
      {o o' : T} {v : A} {i : ℕ}
      → Reads m bs o v o
      → Finishes (i + length bs) k cs (f v o) o'
      → Finishes i (m >>= λ a. assign (f a) >> k) (bs ++ cs) o o'
  field-Finishes f {k} {o} {v} r g =
      >>=-Finishes (λ a. assign (f a) >> k) r (assign-Finishes (f v) o g)

  pub guard-Finishes :
      (rc : Status) {t : Bool} {k : Reader T (Unit {0})} {bs : List ℕ} {o : T} {o' : T} {i : ℕ}
      → t ≡ false
      → Finishes i k bs o o'
      → Finishes i (guard t rc >> k) bs o o'
  unfolding ◌>>◌ guard
  guard-Finishes rc e g = record {
    run = λ pre rest size at ends. rw e (g.run pre rest size at ends);
  }

  pub current-Finishes :
      (k : T → Reader T (Unit {0})) {bs : List ℕ} {o : T} {o' : T} {i : ℕ}
      → Finishes i (k o) bs o o'
      → Finishes i (current >>= k) bs o o'
  unfolding ◌>>=◌ current
  current-Finishes k g = record { run = λ pre rest size at ends. g.run pre rest size at ends }

  pub remaining-Finishes :
      (k : ℕ → Reader T (Unit {0})) {bs : List ℕ} {o : T} {o' : T} {i : ℕ}
      → Finishes i (k (length bs)) bs o o'
      → Finishes i (remaining >>= k) bs o o'
  unfolding ◌>>=◌ remaining
  remaining-Finishes k {bs} {o} {o'} {i} g = record {
    run = λ pre rest size at ends.
        ap (λ (n : ℕ). k n (payload_of (pre ++ (bs ++ rest)) size) (cursor i o)) {x = size - i}
          (omega arith)
        ∙ g.run pre rest size at ends;
  }

  pub epilogue_ne-Finishes : {o : T} {i n : ℕ} → i ≡ n → Finishes i (decode_epilogue ne n) [] o o
  unfolding decode_epilogue
  epilogue_ne-Finishes e = record { run = λ pre rest size at ends. ground arith }

  pub epilogue_lt-Finishes : {o : T} {i n : ℕ} → n ≤ i → Finishes i (decode_epilogue lt n) [] o o
  unfolding decode_epilogue
  epilogue_lt-Finishes e = record { run = λ pre rest size at ends. ground arith }

module _ {T : Type 0} where
  pub deferred-Finishes :
      (release : Cursor T → Cursor T) {m : Reader T (Unit {0})} {bs : List ℕ} {o o' : T} {i : ℕ}
      → Finishes i m bs o o'
      → Finishes i (deferred release m) bs o o'
  unfolding deferred
  deferred-Finishes release f = record {
    run = λ pre rest size at ends. rw (f.run pre rest size at ends, deferred);
  }

  pub block_step :
      (alloc : ℕ → Bool) (n : ℕ) (put : Option (List ℕ) → T → T) (v : List ℕ) (p : Payload)
      (c c' : Cursor T)
      → ltb 0 n ≡ true
      → alloc n ≡ true
      → decode_bytes n p c ≡ done v c'
      → decode_block alloc n put p c ≡ done tt (record c' { out = put (some v) c'.out })
  unfolding decode_block when ◌>>◌ ◌>>=◌ deferred guard assign
  block_step alloc n put v p c c' h a e = rw (h, a, e, deferred, ◌>>=◌)

  no_block-Finishes :
      (alloc : ℕ → Bool) (put : Option (List ℕ) → T → T) {k : Reader T (Unit {0})} {cs : List ℕ}
      (o : T) {o' : T} (i : ℕ)
      → put none o ≡ o
      → Finishes (i + 0) k cs (put none o) o'
      → Finishes i (decode_block alloc 0 put >> k) cs o o'
  unfolding decode_block when ◌>>◌
  no_block-Finishes alloc put {k} {cs} o i nothing f = record {
    run = λ pre rest size at ends.
        let same : i ≡ i + 0 = omega arith in
        (λ t. k (payload_of (pre ++ (cs ++ rest)) size) (cursor (same t) (sym nothing t)))
        ∙ f.run pre rest size (omega arith) (omega arith);
  }

  some_block-Finishes :
      (alloc : ℕ → Bool) (n : ℕ) (put : Option (List ℕ) → T → T) (xs : List ℕ)
      {k : Reader T (Unit {0})} {cs : List ℕ} (o : T) {o' : T} (i : ℕ)
      → length xs ≡ n
      → 0 < n
      → alloc n ≡ true
      → Finishes (i + length xs) k cs (put (some xs) o) o'
      → Finishes i (decode_block alloc n put >> k) (xs ++ cs) o o'
  unfolding ◌>>◌
  some_block-Finishes alloc n put xs {k} {cs} o i e h a f = record {
    run = λ pre rest size at ends.
        let read =
          (decode_bytes-Reads {bs = xs} {o = o} e).run pre (cs ++ rest) i (i + length xs) size at
            refl (omega (arith, length-append xs cs)) in
        ap
          (λ (t : List ℕ).
            (decode_block alloc n put >> k) (payload_of (pre ++ t) size) (cursor i o))
          (append_assoc xs cs rest)
        ∙ rw (block_step alloc n put xs _ _ _ (lt→ltb 0 n h) a read) (
            ap (λ (t : List ℕ). k (payload_of t size) (cursor (i + length xs) (put (some xs) o)))
              (sym (append_assoc pre xs (cs ++ rest)))
            ∙ f.run (pre ++ xs) rest size (omega (arith, length-append pre xs))
                (omega (arith, length-append xs cs)));
  }

  pub block-Finishes :
      (alloc : ℕ → Bool) (n : ℕ) (put : Option (List ℕ) → T → T) (ptr : Option (List ℕ))
      {k : Reader T (Unit {0})} {cs : List ℕ} {o o' : T} {i : ℕ}
      → IsBlock ptr n
      → alloc n ≡ true
      → put none o ≡ o
      → Finishes (i + length (cells_of ptr)) k cs (put ptr o) o'
      → Finishes i (decode_block alloc n put >> k) (cells_of ptr ++ cs) o o'
  block-Finishes alloc n put none {o} {i} e a nothing f =
      rw e (no_block-Finishes alloc put o i nothing f)
  block-Finishes alloc n put (some xs) {o} {i} (e, h) a nothing f =
      some_block-Finishes alloc n put xs o i e h a f

abbrev pub decoded_ok : {T : Type 0} → T → Decoded T
decoded_ok o = record { status = ok; out = some o }

-- A decoder that finishes on `bs` is called with a payload that begins with them.
module _ {T : Type 0} (zeroed : T) (sign : ℕ → ℕ → Bool) (envl_size : ℕ)
    (body : Reader T (Unit {0})) where
  pub decode_with-ok :
      {bs : List ℕ} {o' : T}
      → Finishes 0 body bs zeroed o'
      → sign (length bs) envl_size ≡ false
      → (rest : List ℕ) (old : T)
      → decode_with zeroed sign envl_size body (some (bs ++ rest)) (length bs) (some old)
        ≡ decoded_ok o'
  unfolding decode_with
  decode_with-ok {bs} f e rest old = rw (e, f.run [] rest (length bs) refl (omega arith))
