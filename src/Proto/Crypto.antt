-- ===== src/Proto/Crypto.antt =====
-- The random bytes and the check of a signature in faith-proto/src/core/crypto.c; what OpenSSL answers
-- is an argument. Pointers are not null.
use faith.Common.{ℕ, List, Bool, not, ◌==◌, if◌then◌else◌}
use faith.Proto.Status.{Status, ok, invalid, ssl, crypto, nomem, not_equal}
use faith.Proto.Auth.{signature_size}

-- How the calls of OpenSSL for a raw public key, a message and a signature end.
pub data KeyCheck : Type 0 where
  bad_key no_context init_failed matches differs broken : KeyCheck

-- faith_random_bytes: `granted` says whether RAND_bytes answered 1.
abbrev pub random_bytes : Bool → Status
random_bytes granted = if granted then ok else ssl

-- faith_verify_signature on a key that OpenSSL accepted
abbrev pub verify_signature : KeyCheck → Status
verify_signature no_context = nomem
verify_signature init_failed = crypto
verify_signature matches = ok
verify_signature differs = not_equal
verify_signature broken = crypto
verify_signature bad_key = crypto

unfoldable pub verify_signature_raw_pubkey :
    (List ℕ → List ℕ → List ℕ → KeyCheck) → List ℕ → List ℕ → List ℕ → ℕ → Status
verify_signature_raw_pubkey digest_verify public_key msg_input signature size =
    if not (size == signature_size)
    then invalid
    else verify_signature (digest_verify public_key msg_input signature)
