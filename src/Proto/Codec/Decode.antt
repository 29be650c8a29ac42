-- ===== src/Proto/Codec/Decode.antt =====
-- The decoder macros of faith-proto/include/faith-proto/codec/helpers.h.
-- A decoder is called with `payload`, its size and `out`, and leaves a status and the struct in
-- `*out`, which an early return leaves half filled. A null pointer is `none`.
pub mod Reads
pub mod Chains
pub mod Outcomes
use faith.Common.{
  ℕ, ◌+◌, ◌-◌, List, Bool, ◌||◌, not, Option, none, some, ltb, ◌==◌, if◌then◌else◌, take, drop,
}
use faith.Proto.Status.{Status, ok, invalid, bad_frame, nomem}
use faith.Proto.Codec.Steps.{Outcome, done, fail, Step, ◌>>=◌, ◌>>◌, guard, when, deferred}
use faith.Proto.Codec.Words.{read_u16_be, read_u32_be, read_u64_be}

-- The memory from `payload` on, and `payload_size`.
pub record Payload : Type 0 where
  pub bytes : List ℕ
  pub size : ℕ

pub record Cursor (T : Type 0) : Type 0 where
  pub off : ℕ
  pub out : T

abbrev pub Reader : Type 0 → Type 0 → Type 0
Reader T A = Step Payload (Cursor T) A

-- _FAITH_DECODE_IMPL(payload, payload_size, offset, dst, size, ...) for a payload and a destination
-- that are not null; the value is what the copy leaves at the destination.
pub decode_bytes : {T : Type 0} → ℕ → Reader T (List ℕ)
decode_bytes size p c =
    if ltb p.size c.off
    then fail bad_frame c
    else if ltb (p.size - c.off) size
    then fail bad_frame c
    else done (take size (drop c.off p.bytes)) (record c { off = c.off + size })

-- _FAITH_DECODE_INT_BE_IMPL(payload, payload_size, offset, out, type, read_fn, ...)
decode_int_be : {T : Type 0} → ℕ → (Option (List ℕ) → ℕ) → Reader T ℕ
decode_int_be int_size read_fn p c =
    if ltb p.size c.off
    then fail bad_frame c
    else if ltb (p.size - c.off) int_size
    then fail bad_frame c
    else done (read_fn (some (drop c.off p.bytes))) (record c { off = c.off + int_size })

pub decode_u16_be : {T : Type 0} → Reader T ℕ
unfolding decode_int_be
decode_u16_be = decode_int_be 2 read_u16_be

pub decode_u32_be : {T : Type 0} → Reader T ℕ
unfolding decode_int_be
decode_u32_be = decode_int_be 4 read_u32_be

pub decode_u64_be : {T : Type 0} → Reader T ℕ
unfolding decode_int_be
decode_u64_be = decode_int_be 8 read_u64_be

-- An assignment to fields of `*out`.
pub assign : {T : Type 0} → (T → T) → Reader T (Unit {0})
assign f p c = done tt (record c { out = f c.out })

-- `*out` as it is now.
pub current : {T : Type 0} → Reader T T
current p c = done c.out c

-- `offset += n`
unfoldable pub skip : {T : Type 0} → ℕ → Reader T (Unit {0})
skip n p c = done tt (record c { off = c.off + n })

-- `payload_size`, and `offset`.
unfoldable pub payload_size : {T : Type 0} → Reader T ℕ
payload_size p c = done p.size c

unfoldable pub offset : {T : Type 0} → Reader T ℕ
offset p c = done c.off c

-- `payload_size - offset`
pub remaining : {T : Type 0} → Reader T ℕ
remaining p c = done (p.size - c.off) c

-- if (size > 0) { p = malloc(size); if (!p) return FAITH_ERR_NOMEM; FAITH_DECODE_DEFER(..., p, size); }
-- `alloc` says which allocations succeed. On a failure the `defer:` label frees `p` and sets it to
-- null.
pub decode_block : {T : Type 0} → (ℕ → Bool) → ℕ → (Option (List ℕ) → T → T) → Reader T (Unit {0})
decode_block alloc size put = when (ltb 0 size) do
  guard (not (alloc size)) nomem
  deferred (λ c. record c { out = put none c.out })
      do bytes ← decode_bytes size; assign (put (some bytes))

-- The two comparisons that the prologues and epilogues are used with: `!=` and `<`.
abbrev pub ne : ℕ → ℕ → Bool
ne a b = not (a == b)

abbrev pub lt : ℕ → ℕ → Bool
lt a b = ltb a b

-- FAITH_DECODE_EPILOGUE(envl_size, sign) and the variant with `goto defer`.
pub decode_epilogue : {T : Type 0} → (ℕ → ℕ → Bool) → ℕ → Reader T (Unit {0})
decode_epilogue sign expected p c =
    if sign c.off expected || sign c.off p.size then fail bad_frame c else done tt c

pub record Decoded (T : Type 0) : Type 0 where
  pub status : Status
  pub out : Option T

abbrev pub returned : {T : Type 0} → Outcome (Cursor T) (Unit {0}) → Decoded T
returned (done v c) = record { status = ok; out = some c.out }
returned (fail rc c) = record { status = rc; out = some c.out }

-- FAITH_DECODE_PROLOGUE(envl_size, sign), the body, and `return FAITH_OK`. `zeroed` is what
-- `memset(out, 0, sizeof(*out))` leaves.
pub decode_with :
    {T : Type 0}
    → T
    → (ℕ → ℕ → Bool)
    → ℕ
    → Reader T (Unit {0})
    → Option (List ℕ)
    → ℕ
    → Option T
    → Decoded T
decode_with zeroed sign envl_size body payload size none = record { status = invalid; out = none }
decode_with zeroed sign envl_size body none payload_size (some old) = record {
  status = if payload_size == 0 then bad_frame else invalid;
  out = some zeroed;
}
decode_with zeroed sign envl_size body (some bytes) size (some old) =
    if sign size envl_size
    then record { status = bad_frame; out = some zeroed }
    else returned (body (record { bytes = bytes; size = size }) (record { off = 0; out = zeroed }))
