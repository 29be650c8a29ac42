-- ===== src/Proto/Codec/Words.antt =====
-- The big-endian readers and writers of faith-proto/src/codec/helpers.c. A pointer into a buffer is
-- the buffer's cells with an offset for a writer, and the cells from there on for a reader. The
-- writers' null test is left out: every caller passes an address inside a buffer that it has tested.
use faith.Common.{
  ℕ, zero, suc, ◌+◌, ◌-◌, ◌*◌, ◌/◌, ◌%◌, ◌^◌, ◌≤◌, ◌<◌, bit_or, ◌≡◌, refl, sym, ap, ◌∙◌, arith,
  List, [], ◌∷◌, ◌++◌, append_assoc, Option, none, some, length, length-append, get_or, set, drop,
  set-append,
}
use faith.Common.Bits.{bit_or-shift}
use native.Mathlib.Nat.{one-le-pow}

-- for (i = ...; i < n_bytes; i++) out_buf[i] = (uint8_t)(val >> (n_bytes - (i + 1)) * 8);
-- recursion on the rounds that are left.
write_loop : ℕ → ℕ → ℕ → ℕ → ℕ → List ℕ → List ℕ
write_loop zero i n_bytes val off cells = cells
write_loop (suc rounds) i n_bytes val off cells =
    write_loop rounds (i + 1) n_bytes val off
      (set cells (off + i) (val / 2 ^ ((n_bytes - (i + 1)) * 8) % 256))

pub write_u16_be : ℕ → ℕ → List ℕ → List ℕ
unfolding write_loop
write_u16_be val off cells = write_loop 2 0 2 val off cells

pub write_u32_be : ℕ → ℕ → List ℕ → List ℕ
unfolding write_loop
write_u32_be val off cells = write_loop 4 0 4 val off cells

pub write_u64_be : ℕ → ℕ → List ℕ → List ℕ
unfolding write_loop
write_u64_be val off cells = write_loop 8 0 8 val off cells

abbrev byte_at : List ℕ → ℕ → ℕ
byte_at p i = get_or p i 0

pub read_u16_be : Option (List ℕ) → ℕ
read_u16_be none = 0
read_u16_be (some p) = bit_or (byte_at p 0 * 2 ^ 8) (byte_at p 1)

pub read_u32_be : Option (List ℕ) → ℕ
read_u32_be none = 0
read_u32_be (some p) =
    bit_or (bit_or (bit_or (byte_at p 0 * 2 ^ 24) (byte_at p 1 * 2 ^ 16)) (byte_at p 2 * 2 ^ 8))
      (byte_at p 3)

pub read_u64_be : Option (List ℕ) → ℕ
read_u64_be none = 0
read_u64_be (some p) =
    bit_or
      (bit_or
        (bit_or
          (bit_or
            (bit_or
              (bit_or (bit_or (byte_at p 0 * 2 ^ 56) (byte_at p 1 * 2 ^ 48)) (byte_at p 2 * 2 ^ 40))
              (byte_at p 3 * 2 ^ 32))
            (byte_at p 4 * 2 ^ 24))
          (byte_at p 5 * 2 ^ 16))
        (byte_at p 6 * 2 ^ 8))
      (byte_at p 7)

-- The bytes of a number, the highest first.
abbrev pub be : ℕ → ℕ → List ℕ
be zero v = []
be (suc n) v = (v / 2 ^ (n * 8) % 256) ∷ be n v

pub length-be : (n v : ℕ) → length (be n v) ≡ n
length-be zero v = refl
length-be (suc n) v = ap suc (length-be n v)

write_loop-be :
    (r i n v off : ℕ) (pre old : List ℕ)
    → i + r ≡ n
    → length pre ≡ off + i
    → r ≤ length old
    → write_loop r i n v off (pre ++ old) ≡ (pre ++ be r v) ++ drop r old
unfolding write_loop
write_loop-be zero i n v off pre old e l h = sym (append_assoc pre [] old)
write_loop-be (suc r) i n v off pre [] e l h = absurd (omega arith)
write_loop-be (suc r) i n v off pre (d ∷ old) e l h =
    ap
      (λ (k : ℕ).
        write_loop r (i + 1) n v off (set (pre ++ d ∷ old) (off + i) (v / 2 ^ (k * 8) % 256)))
      {y = r} (omega arith)
    ∙ ap (λ (k : ℕ). write_loop r (i + 1) n v off (set (pre ++ d ∷ old) k b)) (sym l)
    ∙ ap (write_loop r (i + 1) n v off)
        (set-append pre b d old ∙ sym (append_assoc pre (b ∷ []) old))
    ∙ write_loop-be r (i + 1) n v off (pre ++ b ∷ []) old (omega arith)
        (omega (arith, length-append pre (b ∷ []))) (omega arith)
    ∙ ap (λ (t : List ℕ). t ++ drop r old) (append_assoc pre (b ∷ []) (be r v))
  where
    b : ℕ
    b = v / 2 ^ (r * 8) % 256

-- A writer puts the bytes of its number at the offset and leaves the rest of the buffer.
module _ (v : ℕ) (pre old : List ℕ) where
  pub write_u16_be-append :
      2 ≤ length old → write_u16_be v (length pre) (pre ++ old) ≡ (pre ++ be 2 v) ++ drop 2 old
  unfolding write_u16_be
  write_u16_be-append h = write_loop-be 2 0 2 v (length pre) pre old refl (omega arith) h

  pub write_u32_be-append :
      4 ≤ length old → write_u32_be v (length pre) (pre ++ old) ≡ (pre ++ be 4 v) ++ drop 4 old
  unfolding write_u32_be
  write_u32_be-append h = write_loop-be 4 0 4 v (length pre) pre old refl (omega arith) h

  pub write_u64_be-append :
      8 ≤ length old → write_u64_be v (length pre) (pre ++ old) ≡ (pre ++ be 8 v) ++ drop 8 old
  unfolding write_u64_be
  write_u64_be-append h = write_loop-be 8 0 8 v (length pre) pre old refl (omega arith) h

-- What a reader makes of bytes, as a sum.
u16_sum : (a b : ℕ) (rest : List ℕ) → b < 256 → read_u16_be (some (a ∷ b ∷ rest)) ≡ a * 2 ^ 8 + b
unfolding read_u16_be
u16_sum a b rest h = bit_or-shift 8 a b h

join_bits :
    (k j q b : ℕ)
    → b < 256
    → 2 ^ k * 256 ≡ 2 ^ j
    → bit_or (q * 2 ^ j) (b * 2 ^ k) ≡ (q * 256 + b) * 2 ^ k
join_bits k j q b h e = omega (arith, bit_or-shift j q (b * 2 ^ k) small, ap (λ (t : ℕ). q * t) e)
  where
    smaller : (p : ℕ) → 1 ≤ p → b * p < p * 256
    smaller p q = grind arith

    small : b * 2 ^ k < 2 ^ j
    small = rw (← e) (smaller (2 ^ k) (one-le-pow k 2 (omega arith)))

-- One more byte at the low end of a number that is read from the highest byte on.
abbrev push_byte : ℕ → ℕ → ℕ
push_byte q b = q * 256 + b

abbrev IsByte : ℕ → Type 0
IsByte b = b < 256

u32_sum :
    (a b c d : ℕ) (rest : List ℕ)
    → IsByte b
    → IsByte c
    → IsByte d
    → read_u32_be (some (a ∷ b ∷ c ∷ d ∷ rest)) ≡ push_byte (push_byte (push_byte a b) c) d
unfolding read_u32_be
u32_sum a b c d rest hb hc hd = rw (
  join_bits 16 24 a b hb refl,
  join_bits 8 16 (a * 256 + b) c hc refl,
  bit_or-shift 8 (push_byte (push_byte a b) c) d hd,
)

u64_sum :
    (a b c d e f g h : ℕ) (rest : List ℕ)
    → IsByte b
    → IsByte c
    → IsByte d
    → IsByte e
    → IsByte f
    → IsByte g
    → IsByte h
    → read_u64_be (some (a ∷ b ∷ c ∷ d ∷ e ∷ f ∷ g ∷ h ∷ rest))
      ≡ push_byte
          (push_byte (push_byte (push_byte (push_byte (push_byte (push_byte a b) c) d) e) f) g)
          h
unfolding read_u64_be
u64_sum a b c d e f g h rest hb hc hd he hf hg hh = rw (
  join_bits 48 56 a b hb refl,
  join_bits 40 48 (push_byte a b) c hc refl,
  join_bits 32 40 (push_byte (push_byte a b) c) d hd refl,
  join_bits 24 32 (push_byte (push_byte (push_byte a b) c) d) e he refl,
  join_bits 16 24 (push_byte (push_byte (push_byte (push_byte a b) c) d) e) f hf refl,
  join_bits 8 16 (push_byte (push_byte (push_byte (push_byte (push_byte a b) c) d) e) f) g hg refl,
  bit_or-shift 8
      (push_byte (push_byte (push_byte (push_byte (push_byte (push_byte a b) c) d) e) f) g) h hh,
)

-- A reader gives back the number whose bytes stand at the address.
pub read_u16_be-be : (v : ℕ) (rest : List ℕ) → v < 2 ^ 16 → read_u16_be (some (be 2 v ++ rest)) ≡ v
read_u16_be-be v rest h =
    u16_sum (v / 2 ^ 8 % 256) (v / 2 ^ 0 % 256) rest (omega arith) ∙ omega arith

pub read_u32_be-be : (v : ℕ) (rest : List ℕ) → v < 2 ^ 32 → read_u32_be (some (be 4 v ++ rest)) ≡ v
read_u32_be-be v rest h =
    u32_sum (v / 2 ^ 24 % 256) (v / 2 ^ 16 % 256) (v / 2 ^ 8 % 256) (v / 2 ^ 0 % 256) rest
      (omega arith) (omega arith) (omega arith)
    ∙ omega arith

pub read_u64_be-be : (v : ℕ) (rest : List ℕ) → v < 2 ^ 64 → read_u64_be (some (be 8 v ++ rest)) ≡ v
read_u64_be-be v rest h =
    u64_sum (v / 2 ^ 56 % 256) (v / 2 ^ 48 % 256) (v / 2 ^ 40 % 256) (v / 2 ^ 32 % 256)
      (v / 2 ^ 24 % 256) (v / 2 ^ 16 % 256) (v / 2 ^ 8 % 256) (v / 2 ^ 0 % 256) rest (omega arith)
      (omega arith) (omega arith) (omega arith) (omega arith) (omega arith) (omega arith)
    ∙ omega arith
