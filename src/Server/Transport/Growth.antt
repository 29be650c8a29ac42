-- ===== src/Server/Transport/Growth.antt =====
-- The capacity that the loop of conn_queue_enqueue_bytes ends with.
use faith.Common.{
  ap, sym, Bool-cases, tests, inl, inr, ◌∙◌, ℕ, zero, suc, ◌*◌, ◌^◌, ◌≤◌, ◌<◌, ◌≡◌, arith, some,
  ltb, if◌then◌else◌,
}
use native.Mathlib.Nat.{pow-succ', mul_assoc}
use faith.Server.Transport.{grow, max_client_in_queue}

-- What the loop hands on: a capacity that is enough and within the limit.
pub record Grown (fuel needed start new_cap : ℕ) : Type 0 where
  pub result : grow fuel needed start ≡ some new_cap
  pub enough : needed ≤ new_cap
  pub within : new_cap ≤ max_client_in_queue

-- The capacity that one round doubles to.
abbrev clamped : ℕ → ℕ
clamped cap = if ltb max_client_in_queue (cap * 2) then max_client_in_queue else cap * 2

one_le_pow : (n : ℕ) → 1 ≤ 2 ^ n
one_le_pow zero = omega arith
one_le_pow (suc n) = omega (arith, one_le_pow n)

clamped_enough :
    (fuel start : ℕ)
    → max_client_in_queue ≤ start * 2 ^ suc fuel
    → max_client_in_queue ≤ clamped start * 2 ^ fuel
clamped_enough fuel start h =
    let twice : start * 2 ^ suc fuel ≡ (start * 2) * 2 ^ fuel =
      ap (◌*◌ start) (pow-succ' 2 fuel) ∙ sym (mul_assoc start 2 (2 ^ fuel)) in
    elim (Bool-cases (ltb max_client_in_queue (start * 2))) [
      | inl t ↦ rw t (omega (arith, one_le_pow fuel))
      | inr f ↦ rw f (omega (arith, twice))
    ]

stays : (fuel needed start : ℕ) → needed ≤ start → grow fuel needed start ≡ some start
unfolding grow
stays zero needed start h = ground arith
stays (suc fuel) needed start h = ground arith

doubles :
    (fuel needed start : ℕ)
    → start < needed
    → needed ≤ max_client_in_queue
    → grow (suc fuel) needed start ≡ grow fuel needed (clamped start)
unfolding grow
doubles fuel needed start h k = ground arith

-- Enough rounds to reach the limit by doubling give a capacity, whatever was needed within the limit.
pub grow-Grown :
    (fuel needed start : ℕ)
    → needed ≤ max_client_in_queue
    → start ≤ max_client_in_queue
    → max_client_in_queue ≤ start * 2 ^ fuel
    → (new_cap : ℕ) × Grown fuel needed start new_cap
grow-Grown zero needed start h k enough = (
  start,
  record { result = stays 0 needed start (omega arith); enough = omega arith; within = k },
)
grow-Grown (suc fuel) needed start h k enough = elim (Bool-cases (ltb start needed)) [
  | inl t ↦
      let (new_cap, g) =
        grow-Grown fuel needed (clamped start) h (ground arith)
          (clamped_enough fuel start enough) in
      (
        new_cap,
        record {
          result = doubles fuel needed start (omega tests) h ∙ g.result;
          enough = g.enough;
          within = g.within;
        },
      )
  | inr f ↦ (
    start,
    record {
      result = stays (suc fuel) needed start (omega tests);
      enough = omega tests;
      within = k;
    },
  )
]
