-- ===== src/Proto/Codec/Steps.antt =====
-- A statement sequence with early return. A step reads an environment and changes a state; it
-- hands on a value, or returns from the function with a status. The state at an early return is
-- kept, since what was written before it stays written.
use faith.Common.{Bool, true, false}
use faith.Proto.Status.{Status, ok}

pub data Outcome (S A : Type 0) : Type 0 where
  done : A → S → Outcome S A
  fail : Status → S → Outcome S A

abbrev pub Step : Type 0 → Type 0 → Type 0 → Type 0
Step E S A = E → S → Outcome S A

abbrev pub continue : {E S A B : Type 0} → E → (A → Step E S B) → Outcome S A → Outcome S B
continue e k (done a s) = k a e s
continue e k (fail rc s) = fail rc s

infixl 5 ◌>>=◌ ◌>>◌
unfoldable pub ◌>>=◌ : {E S A B : Type 0} → Step E S A → (A → Step E S B) → Step E S B
◌>>=◌ m k e s = continue e k (m e s)

unfoldable pub ◌>>◌ : {E S B : Type 0} → Step E S (Unit {0}) → Step E S B → Step E S B
◌>>◌ m k e s = continue e (λ _. k) (m e s)

unfoldable pub pure : {E S A : Type 0} → A → Step E S A
pure a e s = done a s

-- `return rc;`
unfoldable pub stop : {E S A : Type 0} → Status → Step E S A
stop rc e s = fail rc s

-- `if (bad) return rc;`
unfoldable pub guard : {E S : Type 0} → Bool → Status → Step E S (Unit {0})
guard true rc e s = fail rc s
guard false rc e s = done tt s

-- `_FH_CHECK_RETURN(expr)` on a status: FAITH_OK goes on, any other is returned.
unfoldable pub check_return : {E S : Type 0} → Status → Step E S (Unit {0})
check_return ok e s = done tt s
check_return rc e s = fail rc s

-- `if (test) { ... }`
unfoldable pub when : {E S : Type 0} → Bool → Step E S (Unit {0}) → Step E S (Unit {0})
when true m e s = m e s
when false m e s = done tt s

-- The statements before a `defer:` label, and what the label does to the state on a failure.
unfoldable pub deferred : {E S A : Type 0} → (S → S) → Step E S A → Step E S A
deferred release m e s = elim (m e s) [ done a t ↦ done a t | fail rc t ↦ fail rc (release t) ]
