-- ===== src/Proto/Codec/Decode/Outcomes.antt =====
-- How a decoder ends on a payload of any size, failures included: `Ends i m bs size o r` says that
-- the rest `m` of a decoder, at offset `i` before the bytes `bs`, ends with `r` if the payload is
-- said to have `size` bytes.
use faith.Common.{
  ℕ, ◌+◌, ◌≤◌, ◌<◌, ◌≡◌, ap, sym, ◌∙◌, append_assoc, refl, arith, List, [], ◌++◌, Bool, true, false,
  ◌||◌, Option, none, some, length,
}
use faith.Proto.Status.{Status, bad_frame}
use faith.Proto.Codec.Steps.{Outcome, done, fail, ◌>>=◌, ◌>>◌, guard, when, deferred}
use faith.Proto.Codec.Encode.{cells_of}
use faith.Proto.Codec.Decode.{Cursor, Reader, payload_size, assign, decode_block, decode_epilogue}
use faith.Common.{length-append, lt→ltb}
use faith.Proto.Codec.Encode.Writes.{IsBlock}
use faith.Proto.Codec.Decode.Reads.{Reads, payload_of, cursor, block_step, decode_bytes-Reads}

pub record Ends {T : Type 0} (i : ℕ) (m : Reader T (Unit {0})) (bs : List ℕ) (size : ℕ) (o : T)
    (r : Outcome (Cursor T) (Unit {0})) : Type 0 where
  pub run :
      (pre rest : List ℕ)
      → length pre ≡ i
      → m (payload_of (pre ++ (bs ++ rest)) size) (cursor i o) ≡ r

module _ {T : Type 0} where
  pub >>=-Ends :
      {A : Type 0} {m : Reader T A} (k : A → Reader T (Unit {0})) {bs cs : List ℕ} {size : ℕ}
      {o o₁ : T} {v : A} {i : ℕ} {r : Outcome (Cursor T) (Unit {0})}
      → Reads m bs o v o₁
      → i + length bs ≤ size
      → Ends (i + length bs) (k v) cs size o₁ r
      → Ends i (m >>= k) (bs ++ cs) size o r
  unfolding ◌>>=◌
  >>=-Ends {m} k {bs} {cs} {size} {o} {o₁} {v} {i} f fits g = record {
    run = λ pre rest at.
        ap (λ (t : List ℕ). (m >>= k) (payload_of (pre ++ t) size) (cursor i o))
          (append_assoc bs cs rest)
        ∙ rw (f.run pre (cs ++ rest) i (i + length bs) size at refl fits) (
            ap (λ (t : List ℕ). k v (payload_of t size) (cursor (i + length bs) o₁))
              (sym (append_assoc pre bs (cs ++ rest)))
            ∙ g.run (pre ++ bs) rest (omega (arith, length-append pre bs)));
  }

  pub assign-Ends :
      (f : T → T) {k : Reader T (Unit {0})} {bs : List ℕ} {size : ℕ} (o : T) {i : ℕ}
      {r : Outcome (Cursor T) (Unit {0})}
      → Ends i k bs size (f o) r
      → Ends i (assign f >> k) bs size o r
  unfolding ◌>>◌ assign
  assign-Ends f o g = record { run = λ pre rest at. g.run pre rest at }

  pub guard-Ends :
      (rc : Status) {t : Bool} {k : Reader T (Unit {0})} {bs : List ℕ} {size : ℕ} {o : T} {i : ℕ}
      {r : Outcome (Cursor T) (Unit {0})}
      → t ≡ false
      → Ends i k bs size o r
      → Ends i (guard t rc >> k) bs size o r
  unfolding ◌>>◌ guard
  guard-Ends rc e g = record { run = λ pre rest at. rw e (g.run pre rest at) }

  pub guard_stops-Ends :
      (rc : Status) {t : Bool} (k : Reader T (Unit {0})) {bs : List ℕ} {size : ℕ} {o : T} {i : ℕ}
      → t ≡ true
      → Ends i (guard t rc >> k) bs size o (fail rc (cursor i o))
  unfolding ◌>>◌ guard
  guard_stops-Ends rc k e = record { run = λ pre rest at. rw e }

  pub payload_size-Ends :
      (k : ℕ → Reader T (Unit {0})) {bs : List ℕ} {size : ℕ} {o : T} {i : ℕ}
      {r : Outcome (Cursor T) (Unit {0})}
      → Ends i (k size) bs size o r
      → Ends i (payload_size >>= k) bs size o r
  unfolding ◌>>=◌ payload_size
  payload_size-Ends k f = record { run = λ pre rest at. f.run pre rest at }

  no_block-Ends :
      (alloc : ℕ → Bool) (put : Option (List ℕ) → T → T) {k : Reader T (Unit {0})} {cs : List ℕ}
      {size : ℕ} (o : T) (i : ℕ) {r : Outcome (Cursor T) (Unit {0})}
      → put none o ≡ o
      → Ends (i + 0) k cs size (put none o) r
      → Ends i (decode_block alloc 0 put >> k) cs size o r
  unfolding decode_block when ◌>>◌
  no_block-Ends alloc put {k} {cs} {size} o i nothing f = record {
    run = λ pre rest at.
        let same : i ≡ i + 0 = omega arith in
        (λ t. k (payload_of (pre ++ (cs ++ rest)) size) (cursor (same t) (sym nothing t)))
        ∙ f.run pre rest (omega arith);
  }

  some_block-Ends :
      (alloc : ℕ → Bool) (n : ℕ) (put : Option (List ℕ) → T → T) (xs : List ℕ)
      {k : Reader T (Unit {0})} {cs : List ℕ} {size : ℕ} (o : T) (i : ℕ)
      {r : Outcome (Cursor T) (Unit {0})}
      → length xs ≡ n
      → 0 < n
      → i + n ≤ size
      → alloc n ≡ true
      → Ends (i + length xs) k cs size (put (some xs) o) r
      → Ends i (decode_block alloc n put >> k) (xs ++ cs) size o r
  unfolding ◌>>◌
  some_block-Ends alloc n put xs {k} {cs} {size} o i e h fits a f = record {
    run = λ pre rest at.
        let read =
          (decode_bytes-Reads {bs = xs} {o = o} e).run pre (cs ++ rest) i (i + length xs) size at
            refl (omega arith) in
        ap
          (λ (t : List ℕ).
            (decode_block alloc n put >> k) (payload_of (pre ++ t) size) (cursor i o))
          (append_assoc xs cs rest)
        ∙ rw (block_step alloc n put xs _ _ _ (lt→ltb 0 n h) a read) (
            ap (λ (t : List ℕ). k (payload_of t size) (cursor (i + length xs) (put (some xs) o)))
              (sym (append_assoc pre xs (cs ++ rest)))
            ∙ f.run (pre ++ xs) rest (omega (arith, length-append pre xs)));
  }

  pub block-Ends :
      (alloc : ℕ → Bool) (n : ℕ) (put : Option (List ℕ) → T → T) (ptr : Option (List ℕ))
      {k : Reader T (Unit {0})} {cs : List ℕ} {size : ℕ} {o : T} {i : ℕ}
      {r : Outcome (Cursor T) (Unit {0})}
      → IsBlock ptr n
      → i + n ≤ size
      → alloc n ≡ true
      → put none o ≡ o
      → Ends (i + length (cells_of ptr)) k cs size (put ptr o) r
      → Ends i (decode_block alloc n put >> k) (cells_of ptr ++ cs) size o r
  block-Ends alloc n put none {o} {i} e fits a nothing f =
      rw e (no_block-Ends alloc put o i nothing f)
  block-Ends alloc n put (some xs) {o} {i} (e, h) fits a nothing f =
      some_block-Ends alloc n put xs o i e h fits a f

  -- The last test of a decoder, in front of a `defer:` label.
  pub epilogue_ok-Ends :
      (release : Cursor T → Cursor T) (sign : ℕ → ℕ → Bool) (n : ℕ) {size : ℕ} {o : T} {i : ℕ}
      → sign i n ≡ false
      → sign i size ≡ false
      → Ends i (deferred release (decode_epilogue sign n)) [] size o (done tt (cursor i o))
  unfolding deferred decode_epilogue
  epilogue_ok-Ends release sign n e f = record { run = λ pre rest at. rw (e, f, deferred) }

  pub epilogue_stops-Ends :
      (release : Cursor T → Cursor T) (sign : ℕ → ℕ → Bool) (n : ℕ) {size : ℕ} {o : T} {i : ℕ}
      → (sign i n || sign i size) ≡ true
      → Ends i
          (deferred release (decode_epilogue sign n))
          []
          size
          o
          (fail bad_frame (release (cursor i o)))
  unfolding deferred decode_epilogue
  epilogue_stops-Ends release sign n e = record { run = λ pre rest at. rw (e, deferred) }
