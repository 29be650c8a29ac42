-- ===== src/Server/Steps.antt =====
-- A call that answers with a status and leaves a state, and what follows it.
use faith.Common.{ap, subst, sym, not, if◌then◌else◌, ◌≡◌, refl, Bool, true, false}
use faith.Proto.Status.{Status, ok}
use faith.Proto.Codec.Decode.{Decoded}
use faith.Common.{none, some}

abbrev pub is_ok : Status → Bool
is_ok ok = true
is_ok rc = false

-- The rest after a call that went well. What a call left behind stays there after an early return.
abbrev pub continue : {S : Type 0} → Bool → Status × S → (S → Status × S) → Status × S
continue true (rc, s) k = k s
continue false r k = r

-- `_FH_CHECK_RETURN(call); rest`
abbrev pub and_then : {S : Type 0} → Status × S → (S → Status × S) → Status × S
and_then r k = continue (is_ok r.0) r k

-- Only the state that the call left is handed on.
pub continue-same :
    {S : Type 0} (b : Bool) (rc : Status) (s : S) (k k' : S → Status × S)
    → k s ≡ k' s
    → continue b (rc, s) k ≡ continue b (rc, s) k'
continue-same true rc s k k' e = e
continue-same false rc s k k' e = refl

-- The same where a rest is reached only after a call that went well.
pub continue-same_ok :
    {S : Type 0} (b : Bool) (rc : Status) (s : S) (k k' : S → Status × S)
    → (b ≡ true → k s ≡ k' s)
    → continue b (rc, s) k ≡ continue b (rc, s) k'
continue-same_ok true rc s k k' e = e refl
continue-same_ok false rc s k k' e = refl

-- A guard that does not hold, and what follows a call that went well.
pub passed :
    {A : Type 0} (P : A → Type 0) (bad : Bool) (x y : A)
    → bad ≡ false
    → P y
    → P (if bad then x else y)
passed P bad x y e h = subst (λ (b : Bool). P (if b then x else y)) (sym e) h

pub not_denied : (b : Bool) → b ≡ true → not b ≡ false
not_denied b e = ap not e

-- `_FH_CHECK_RETURN(faith_decode_...(..., &m)); rest`
abbrev pub with_decoded : {S T : Type 0} → S → Decoded T → (T → Status × S) → Status × S
with_decoded s d k = elim (is_ok d.status) [
  | true ↦ elim d.out [ none ↦ (d.status, s) | some m ↦ k m ]
  | false ↦ (d.status, s)
]
