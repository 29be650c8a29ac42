-- ===== src/Server/Platform.antt =====
-- What the server asks of the operating system and of OpenSSL, as a parameter of its operations.
use faith.Common.{ℕ, List, Bool}
use faith.Proto.Crypto.{KeyCheck}
use faith.Server.Reactor.{CtlOp, Answer}

pub record Platform : Type 1 where
  -- what lies outside of the process
  pub World : Type 0
  pub epoll_ctl : World → CtlOp → ℕ → ℕ → ℕ → Answer × World
  -- RAND_bytes: whether it succeeded, and the bytes
  pub rand_bytes : World → ℕ → (Bool × List ℕ) × World
  -- the milliseconds of CLOCK_MONOTONIC
  pub now_ms : World → ℕ × World
  -- EVP_DigestVerify with a raw public key, for a key, a message and a signature
  pub digest_verify : List ℕ → List ℕ → List ℕ → KeyCheck
  -- whether malloc succeeds for a size, and what stands in the cells
  pub alloc : ℕ → Bool
  pub junk : ℕ
