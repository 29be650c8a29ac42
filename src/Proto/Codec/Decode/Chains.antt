-- ===== src/Proto/Codec/Decode/Chains.antt =====
-- Rules for statements that read in the middle of a decoder, such as the rounds of a loop, and for
-- those that look at the offset and the payload's size.
use faith.Common.{
  ℕ, ◌+◌, ◌≡◌, ap, refl, arith, List, [], ◌++◌, Bool, false, length, sym, append_assoc, ◌∙◌,
  append-nil,
}
use faith.Proto.Status.{Status}
use faith.Proto.Codec.Steps.{done, ◌>>=◌, ◌>>◌, pure, guard}
use faith.Proto.Codec.Decode.{Reader, payload_size, offset, assign}
use faith.Common.{length-append}
use faith.Proto.Codec.Decode.Reads.{field-Finishes, Reads, Finishes, payload_of, cursor}

module _ {T : Type 0} where
  pub >>=-Reads :
      {A B : Type 0} {m : Reader T A} (k : A → Reader T B) {bs cs : List ℕ} {o o₁ o' : T} {v : A}
      {w : B}
      → Reads m bs o v o₁
      → Reads (k v) cs o₁ w o'
      → Reads (m >>= k) (bs ++ cs) o w o'
  unfolding ◌>>=◌
  >>=-Reads {m} k {bs} {cs} {o} {o₁} {v} f g = record {
    run = λ pre rest i j size at ends fits.
        ap (λ (t : List ℕ). (m >>= k) (payload_of (pre ++ t) size) (cursor i o))
          (append_assoc bs cs rest)
        ∙ rw
            (f.run pre (cs ++ rest) i (i + length bs) size at refl
              (omega (arith, length-append bs cs)))
            (ap (λ (t : List ℕ). k v (payload_of t size) (cursor (i + length bs) o₁))
                (sym (append_assoc pre bs (cs ++ rest)))
              ∙ g.run (pre ++ bs) rest (i + length bs) j size (omega (arith, length-append pre bs))
                  (omega (arith, length-append bs cs)) fits);
  }

  pub pure-Reads : {A : Type 0} {v : A} {o : T} → Reads (pure v) [] o v o
  unfolding pure
  pure-Reads {v} {o} = record {
    run = λ pre rest i j size at ends fits.
        let same : i ≡ j = omega arith in λ t. done v (cursor (same t) o);
  }

  pub guard-Reads :
      {A : Type 0} (rc : Status) {t : Bool} {k : Reader T A} {bs : List ℕ} {o o' : T} {v : A}
      → t ≡ false
      → Reads k bs o v o'
      → Reads (guard t rc >> k) bs o v o'
  unfolding ◌>>◌ guard
  guard-Reads rc e f = record {
    run = λ pre rest i j size at ends fits. rw e (f.run pre rest i j size at ends fits);
  }

  -- A value that is wrapped before it is handed on.
  pub wrap-Reads :
      {A B : Type 0} {m : Reader T A} (f : A → B) {bs : List ℕ} {o o' : T} {v : A}
      → Reads m bs o v o'
      → Reads (m >>= λ a. pure (f a)) bs o (f v) o'
  unfolding ◌>>=◌ pure
  wrap-Reads f r = record {
    run = λ pre rest i j size at ends fits. rw (r.run pre rest i j size at ends fits);
  }

  -- The last field of a decoder.
  pub last_field-Finishes :
      {A : Type 0} {m : Reader T A} (f : A → T → T) {k : Reader T (Unit {0})} {bs : List ℕ}
      {o o' : T} {v : A} {i : ℕ}
      → Reads m bs o v o
      → Finishes (i + length bs) k [] (f v o) o'
      → Finishes i (m >>= λ a. assign (f a) >> k) bs o o'
  last_field-Finishes f {bs} r g = rw append-nil at (field-Finishes f r g)

  pub payload_size-Finishes :
      (k : ℕ → Reader T (Unit {0})) {bs : List ℕ} {o o' : T} {i : ℕ}
      → Finishes i (k (i + length bs)) bs o o'
      → Finishes i (payload_size >>= k) bs o o'
  unfolding ◌>>=◌ payload_size
  payload_size-Finishes k {bs} {o} {o'} {i} f = record {
    run = λ pre rest size at ends.
        ap (λ (n : ℕ). k n (payload_of (pre ++ (bs ++ rest)) size) (cursor i o)) (sym ends)
        ∙ f.run pre rest size at ends;
  }

  pub offset-Finishes :
      (k : ℕ → Reader T (Unit {0})) {bs : List ℕ} {o o' : T} {i : ℕ}
      → Finishes i (k i) bs o o'
      → Finishes i (offset >>= k) bs o o'
  unfolding ◌>>=◌ offset
  offset-Finishes k f = record { run = λ pre rest size at ends. f.run pre rest size at ends }
