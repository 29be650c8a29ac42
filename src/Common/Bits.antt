-- ===== src/Common/Bits.antt =====
-- `|` of disjoint fields and `&` with a mask of ones, as arithmetic. Both laws are read off the
-- recursion on binary digits that the native operations stand for.
use Prim.Native.Nat.{
  ℕ, zero, suc, ◌+◌, ◌-◌, ◌*◌, ◌/◌, ◌%◌, ◌^◌, ◌≤◌, ◌<◌, min, max, bit_and, bit_or, digits, bitwise,
  bit_and-bitwise, bit_or-bitwise,
}
use mathlib.Core.Path.{◌≡◌, refl, ap, ◌∙◌}
use native.Mathlib.Omega.{arith}
use native.Mathlib.Nat.{pow-suc}

-- The recursion needs no more rounds than its first number, and more rounds change nothing.
module _ (z : ℕ → ℕ) (f : ℕ → ℕ → ℕ) where
  more_rounds : (n a b : ℕ) → a ≤ n → digits z f (suc n) a b ≡ digits z f n a b
  more_rounds n zero b h = at_zero n
    where
      at_zero : (m : ℕ) → digits z f (suc m) zero b ≡ digits z f m zero b
      at_zero zero = refl
      at_zero (suc m) = refl
  more_rounds zero (suc a) b h = absurd (omega arith)
  more_rounds (suc n) (suc a) b h =
      ap (λ (t : ℕ). t * 2 + f (suc a % 2) (b % 2))
        (more_rounds n (suc a / 2) (b / 2) (omega arith))

  rounds_enough : (k a b : ℕ) → digits z f (k + a) a b ≡ bitwise z f a b
  rounds_enough zero a b = ap (λ (t : ℕ). digits z f t a b) {y = a} (omega arith)
  rounds_enough (suc k) a b =
      ap (λ (t : ℕ). digits z f t a b) {y = suc (k + a)} (omega arith)
      ∙ more_rounds (k + a) a b (omega arith)
      ∙ rounds_enough k a b

  lowest_digit :
      (a b : ℕ)
      → bitwise z f (suc a) b ≡ bitwise z f (suc a / 2) (b / 2) * 2 + f (suc a % 2) (b % 2)
  lowest_digit a b = ap (λ (t : ℕ). t * 2 + f (suc a % 2) (b % 2)) same
    where
      same : digits z f a (suc a / 2) (b / 2) ≡ bitwise z f (suc a / 2) (b / 2)
      same =
          ap (λ (t : ℕ). digits z f t (suc a / 2) (b / 2)) {x = a} {y = (a - suc a / 2) + suc a / 2}
            (omega arith)
          ∙ rounds_enough (a - suc a / 2) (suc a / 2) (b / 2)

or_digit : (a b : ℕ) → bit_or a b ≡ bit_or (a / 2) (b / 2) * 2 + max (a % 2) (b % 2)
or_digit zero b = omega (arith, bit_or-bitwise 0 b, bit_or-bitwise 0 (b / 2))
or_digit (suc a) b = omega (
  arith,
  bit_or-bitwise (suc a) b,
  bit_or-bitwise (suc a / 2) (b / 2),
  lowest_digit (λ y. y) max a b,
)

and_digit : (a b : ℕ) → bit_and a b ≡ bit_and (a / 2) (b / 2) * 2 + min (a % 2) (b % 2)
and_digit zero b = omega (arith, bit_and-bitwise 0 b, bit_and-bitwise 0 (b / 2))
and_digit (suc a) b = omega (
  arith,
  bit_and-bitwise (suc a) b,
  bit_and-bitwise (suc a / 2) (b / 2),
  lowest_digit (λ y. 0) min a b,
)

or_zero_upto : (n a : ℕ) → a ≤ n → bit_or a 0 ≡ a
or_zero_upto n zero h = refl
or_zero_upto zero (suc a) h = absurd (omega arith)
or_zero_upto (suc n) (suc a) h =
    omega (arith, or_digit (suc a) 0, or_zero_upto n (suc a / 2) (omega arith))

-- `(q << k) | r` is a sum where `r` has at most `k` bits.
pub bit_or-shift : (k q r : ℕ) → r < 2 ^ k → bit_or (q * 2 ^ k) r ≡ q * 2 ^ k + r
bit_or-shift zero q r h =
    let r_zero : r ≡ 0 = omega arith in
    let plain : q * 2 ^ 0 ≡ q = omega arith in
    rw (plain, r_zero) (omega (arith, or_zero_upto q q (omega arith)))
bit_or-shift (suc k) q r h = omega (
  arith,
  or_digit (q * 2 ^ suc k) r,
  halves,
  ap (λ (t : ℕ). bit_or t (r / 2)) halves,
  bit_or-shift k q (r / 2) (omega (arith, pow-suc 2 k)),
  doubled,
)
  where
    doubled : q * 2 ^ suc k ≡ 2 * (q * 2 ^ k)
    doubled = omega (arith, ap (λ (t : ℕ). q * t) (pow-suc 2 k))

    halves : q * 2 ^ suc k / 2 ≡ q * 2 ^ k
    halves = omega (arith, doubled)

and_zero_upto : (n a : ℕ) → a ≤ n → bit_and a 0 ≡ 0
and_zero_upto n zero h = refl
and_zero_upto zero (suc a) h = absurd (omega arith)
and_zero_upto (suc n) (suc a) h =
    omega (arith, and_digit (suc a) 0, and_zero_upto n (suc a / 2) (omega arith))

-- A mask of five, or of six, ones keeps that many of the lowest bits: one digit at a time.
bit_and-1 : (a : ℕ) → bit_and a 1 ≡ a % 2
bit_and-1 a = omega (arith, and_digit a 1, and_zero_upto (a / 2) (a / 2) (omega arith))

bit_and-7 : (a : ℕ) → bit_and a 7 ≡ a % 8
bit_and-7 a = omega (arith, and_digit a 7, and_digit (a / 2) 3, bit_and-1 (a / 2 / 2))

pub bit_and-31 : (a : ℕ) → bit_and a 0x1f ≡ a % 32
bit_and-31 a = omega (arith, and_digit a 31, and_digit (a / 2) 15, bit_and-7 (a / 2 / 2))

pub bit_and-63 : (a : ℕ) → bit_and a 0x3f ≡ a % 64
bit_and-63 a = omega (arith, and_digit a 63, bit_and-31 (a / 2))
