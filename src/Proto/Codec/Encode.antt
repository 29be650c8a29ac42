-- ===== src/Proto/Codec/Encode.antt =====
-- The encoder macros of faith-proto/include/faith-proto/codec/helpers.h.
-- An encoder is called with `out_buf`, `out_size`, the capacity and the value, and leaves a status,
-- the buffer's cells and the size in `*out_size`. A null pointer is `none`.
pub mod Writes
pub mod Stops
use faith.Common.{
  ℕ, ◌+◌, ◌-◌, ◌%◌, ◌^◌, List, [], Bool, true, false, ◌&&◌, Option, none, some, ltb, ◌==◌,
  if◌then◌else◌, take, copy_at,
}
use faith.Proto.Status.{Status, ok, invalid, overflow}
use faith.Proto.Codec.Steps.{Outcome, done, fail, Step, when}
use faith.Proto.Codec.Words.{write_u16_be, write_u32_be, write_u64_be}

pub record Buf : Type 0 where
  pub cells : List ℕ
  pub off : ℕ

-- A step of an encoder reads the capacity and changes the buffer and the offset.
abbrev pub Writer : Type 0
Writer = Step ℕ Buf (Unit {0})

abbrev pub is_null : {A : Type 0} → Option A → Bool
is_null none = true
is_null (some a) = false

abbrev pub cells_of : Option (List ℕ) → List ℕ
cells_of none = []
cells_of (some p) = p

-- FAITH_APPEND_RETURN(buf, buf_cap, off, ptr, len), for a buffer that is not null.
pub append : Option (List ℕ) → ℕ → Writer
append ptr len buf_cap s =
    if ltb 0 len && is_null ptr
    then fail invalid s
    else if ltb buf_cap s.off
    then fail overflow s
    else if ltb (buf_cap - s.off) len
    then fail overflow s
    else done tt
        (record { cells = copy_at s.off (take len (cells_of ptr)) s.cells; off = s.off + len })

-- _FAITH_ENCODE_INT_BE_RETURN(buf, buf_cap, off, value, type, write_fn), for a buffer that is not null.
encode_int_be : ℕ → (ℕ → ℕ → List ℕ → List ℕ) → ℕ → Writer
encode_int_be int_size write_fn value buf_cap s =
    if ltb buf_cap s.off
    then fail overflow s
    else if ltb (buf_cap - s.off) int_size
    then fail overflow s
    else done tt (record { cells = write_fn value s.off s.cells; off = s.off + int_size })

-- The casts `(uint16_t)(value)` and so on stand in the macro.
pub encode_u16_be : ℕ → Writer
unfolding encode_int_be
encode_u16_be value = encode_int_be 2 write_u16_be (value % 2 ^ 16)

pub encode_u32_be : ℕ → Writer
unfolding encode_int_be
encode_u32_be value = encode_int_be 4 write_u32_be (value % 2 ^ 32)

pub encode_u64_be : ℕ → Writer
unfolding encode_int_be
encode_u64_be value = encode_int_be 8 write_u64_be (value % 2 ^ 64)

-- `if (size > 0) { FAITH_APPEND_RETURN(..., ptr, size) }`
pub append_nonempty : Option (List ℕ) → ℕ → Writer
append_nonempty ptr size = when (ltb 0 size) (append ptr size)

-- `offset += n`, and a write to the buffer that is no macro of its own.
unfoldable pub advance : ℕ → Writer
advance n buf_cap s = done tt (record s { off = s.off + n })

unfoldable pub put_cells : List ℕ → Writer
put_cells cells buf_cap s = done tt (record s { cells = cells })

pub record Encoded : Type 0 where
  pub status : Status
  pub out_buf : Option (List ℕ)
  pub out_size : Option ℕ

-- FAITH_ENCODE_EPILOGUE(expected, !=) and the `return FAITH_OK` behind it, or the early return.
unfoldable pub encode_epilogue : ℕ → Outcome Buf (Unit {0}) → Encoded
encode_epilogue expected (done v s) =
    if s.off == expected
    then record { status = ok; out_buf = some s.cells; out_size = some (s.off % 2 ^ 32) }
    else record { status = invalid; out_buf = some s.cells; out_size = some 0 }
encode_epilogue expected (fail rc s) = record {
  status = rc;
  out_buf = some s.cells;
  out_size = some 0;
}

-- FAITH_ENCODE_PROLOGUE(envl_size), the body, and the epilogue. Where the size expression reads the
-- value, C reads it before the null test; a null value there is undefined behaviour, and `none` here.
unfoldable pub encode_with :
    {T : Type 0} → (T → ℕ) → (T → Writer) → Option (List ℕ) → Option ℕ → ℕ → Option T → Encoded
unfolding encode_epilogue
encode_with envl_size body (some cells) (some n) buf_cap (some msg) =
    if ltb buf_cap (envl_size msg)
    then record { status = overflow; out_buf = some cells; out_size = some 0 }
    else encode_epilogue (envl_size msg) (body msg buf_cap (record { cells = cells; off = 0 }))
encode_with envl_size body out_buf out_size buf_cap msg = record {
  status = invalid;
  out_buf = out_buf;
  out_size = out_size;
}
