-- ===== src/Proto/Disconnect/Layout.antt =====
-- The layout of CLIENT_DISCONNECT, which the encoder writes and the decoder reads.
use faith.Common.{
  ℕ, zero, suc, ◌+◌, ◌-◌, ◌%◌, ◌^◌, ◌<◌, ◌≡◌, ap, sym, ◌∙◌, refl, arith, List, [], ◌∷◌, ◌++◌, true,
  false, some, length, replicate, take, concat, set, copy_at,
}
use faith.Proto.Status.{bad_frame}
use faith.Proto.Codec.Words.{be}
use faith.Proto.Codec.Encode.{append, encode_u16_be}
use faith.Proto.Codec.Encode.Writes.{Writes, >>-Writes, last-Writes}
use faith.Proto.Codec.Decode.Reads.{
  Finishes, field-Finishes, >>=-Finishes, assign-Finishes, guard-Finishes, current-Finishes,
  remaining-Finishes, decode_bytes-Reads, decode_u16_be-Reads, decode_u32_be-Reads,
  decode_u64_be-Reads, epilogue_lt-Finishes,
}
use faith.Common.{
  ℕ, zero, suc, ◌+◌, ◌-◌, ◌%◌, ◌^◌, ◌<◌, ◌≡◌, ap, sym, ◌∙◌, refl, arith, List, [], ◌∷◌, ◌++◌, true,
  false, some, length, replicate, take, concat, set, copy_at,
}
use faith.Proto.Status.{bad_frame}
use faith.Proto.Codec.Words.{be}
use faith.Proto.Codec.Encode.{append, encode_u16_be}
use faith.Proto.Codec.Encode.Writes.{Writes, >>-Writes, last-Writes}
use faith.Proto.Codec.Decode.Reads.{
  Finishes, field-Finishes, >>=-Finishes, assign-Finishes, guard-Finishes, current-Finishes,
  remaining-Finishes, decode_bytes-Reads, decode_u16_be-Reads, decode_u32_be-Reads,
  decode_u64_be-Reads, epilogue_lt-Finishes,
}
use faith.Common.{
  ℕ, zero, suc, ◌+◌, ◌-◌, ◌%◌, ◌^◌, ◌<◌, ◌≡◌, ap, sym, ◌∙◌, refl, arith, List, [], ◌∷◌, ◌++◌, true,
  false, some, length, replicate, take, concat, set, copy_at,
}
use faith.Proto.Status.{bad_frame}
use faith.Proto.Codec.Words.{be}
use faith.Proto.Codec.Encode.{append, encode_u16_be}
use faith.Proto.Codec.Encode.Writes.{Writes, >>-Writes, last-Writes}
use faith.Proto.Codec.Decode.Reads.{
  Finishes, field-Finishes, >>=-Finishes, assign-Finishes, guard-Finishes, current-Finishes,
  remaining-Finishes, decode_bytes-Reads, decode_u16_be-Reads, decode_u32_be-Reads,
  decode_u64_be-Reads, epilogue_lt-Finishes,
}
use faith.Proto.Disconnect.{
  ClientDisconnect, IsClientDisconnect, is_policy, is_reason, strnlen, write_client_disconnect,
  read_client_disconnect, zeroed_client_disconnect,
}
use faith.Common.{length-append, take-append, subst}
use faith.Proto.Codec.Encode.Writes.{
  append_front-Writes, guard-Writes, encode_u16_be-Writes, encode_u32_be-Writes,
  encode_u64_be-Writes, last-Writes,
}
use faith.Proto.Codec.Encode.Stops.{Stops, >>-Stops, guard-Stops}

-- Policy, reason, times, length of the text, text.
pub client_disconnect_bytes : ClientDisconnect → List ℕ → List ℕ
client_disconnect_bytes m text = concat (
    be 4 m.reconnect_policy
    ∷ be 4 m.reason
    ∷ be 8 m.retry_after_ms
    ∷ be 8 m.banned_until_ms
    ∷ be 2 (length text)
    ∷ text
    ∷ [])

pub length-client_disconnect_bytes :
    (m : ClientDisconnect) (text : List ℕ)
    → length (client_disconnect_bytes m text) ≡ 26 + length text
unfolding client_disconnect_bytes
length-client_disconnect_bytes m text = simp length-append (omega arith)

strnlen-text :
    (text : List ℕ) (n : ℕ)
    → strnlen text ≡ length text
    → 0 < n
    → strnlen (text ++ replicate n 0) ≡ length text
unfolding strnlen
strnlen-text [] zero e h = absurd (omega arith)
strnlen-text [] (suc n) e h = refl
strnlen-text (c ∷ text) n e h = ground (arith, strnlen-text text n)

put_text :
    (text : List ℕ) (k n : ℕ)
    → k + length text ≡ n
    → 0 < k
    → set (copy_at 0 text (replicate n 0)) (length text) 0 ≡ text ++ replicate k 0
unfolding copy_at
put_text [] zero n e h = absurd (omega arith)
put_text [] (suc k) n e h = let same : n ≡ suc k = omega arith in rw same refl
put_text (c ∷ text) k zero e h = absurd (omega arith)
put_text (c ∷ text) k (suc n) e h = ap (◌∷◌ c) (put_text text k n (omega arith) h)

take-text : (text rest : List ℕ) (n : ℕ) → n ≡ length text → take n (text ++ rest) ≡ text
take-text text rest n e = ap (λ (k : ℕ). take k (text ++ rest)) e ∙ take-append text rest

module _ (m : ClientDisconnect) (text : List ℕ) (valid : IsClientDisconnect m text) where
  pub strnlen-msg : strnlen m.msg ≡ length text
  strnlen-msg =
      ap strnlen valid.msg
      ∙ strnlen-text text (129 - length text) valid.no_nul (omega (arith, valid.limit))

  msg-Writes : Writes (append (some m.msg) (strnlen m.msg)) text
  msg-Writes =
      append_front-Writes m.msg text (strnlen m.msg)
        (ap (take (strnlen m.msg)) valid.msg ∙ take-text text _ (strnlen m.msg) strnlen-msg)
        (sym strnlen-msg)

  size-Writes : Writes (encode_u16_be (strnlen m.msg % 2 ^ 16)) (be 2 (length text))
  size-Writes =
      let small : strnlen m.msg % 2 ^ 16 ≡ length text = omega (arith, strnlen-msg, valid.limit) in
      rw small (encode_u16_be-Writes (length text) (omega (arith, valid.limit)))

  pub write_client_disconnect-Writes :
      is_policy m.reconnect_policy ≡ true
      → is_reason m.reason ≡ true
      → Writes (write_client_disconnect m) (client_disconnect_bytes m text)
  unfolding write_client_disconnect client_disconnect_bytes
  write_client_disconnect-Writes p r = >>-Writes (guard-Writes _ (rw p)) (
      >>-Writes (encode_u32_be-Writes _ valid.reconnect_policy) (
        >>-Writes (encode_u32_be-Writes _ valid.reason) (
          >>-Writes (guard-Writes _ (rw r)) (
            >>-Writes (encode_u64_be-Writes _ valid.retry_after) (
              >>-Writes (encode_u64_be-Writes _ valid.banned_until)
                (>>-Writes size-Writes (last-Writes msg-Writes)))))))

  pub bad_policy :
      is_policy m.reconnect_policy ≡ false → Stops (write_client_disconnect m) [] bad_frame
  unfolding write_client_disconnect
  bad_policy p = guard-Stops _ _ (rw p)

  pub bad_reason :
      is_policy m.reconnect_policy ≡ true
      → is_reason m.reason ≡ false
      → Stops
          (write_client_disconnect m)
          (be 4 m.reconnect_policy ++ (be 4 m.reason ++ []))
          bad_frame
  unfolding write_client_disconnect
  bad_reason p r = >>-Stops _ (guard-Writes _ (rw p)) (
      >>-Stops _ (encode_u32_be-Writes _ valid.reconnect_policy)
        (>>-Stops _ (encode_u32_be-Writes _ valid.reason) (guard-Stops _ _ (rw r))))

  -- What the statements leave in `*out`.
  same_msg :
      (record m {
        msg_size = length text;
        msg = set (copy_at 0 text (replicate 129 0)) (length text) 0;
      })
      ≡ m
  same_msg =
      let stored =
        put_text text (129 - length text) 129 (omega (arith, valid.limit))
          (omega (arith, valid.limit))
        ∙ sym valid.msg in
      λ t. record m { msg_size = sym valid.msg_size t; msg = stored t }

  pub read_client_disconnect-Finishes :
      Finishes 0 read_client_disconnect (client_disconnect_bytes m text) zeroed_client_disconnect m
  unfolding read_client_disconnect client_disconnect_bytes
  read_client_disconnect-Finishes =
      subst
        (Finishes 0 read_client_disconnect (client_disconnect_bytes m text)
          zeroed_client_disconnect)
        same_msg
        (current-Finishes _ (
          guard-Finishes _ refl (
            field-Finishes _ (decode_u32_be-Reads valid.reconnect_policy) (
              current-Finishes _ (
                guard-Finishes _ refl (
                  field-Finishes _ (decode_u32_be-Reads valid.reason) (
                    field-Finishes _ (decode_u64_be-Reads valid.retry_after) (
                      field-Finishes _ (decode_u64_be-Reads valid.banned_until) (
                        >>=-Finishes _ (decode_u16_be-Reads (omega (arith, valid.limit))) (
                          assign-Finishes _ _ (
                            guard-Finishes _ (ground (arith, valid.limit)) (
                              remaining-Finishes _ (
                                guard-Finishes _ (simp length-append (ground arith)) (
                                  field-Finishes _ (decode_bytes-Reads refl)
                                    (epilogue_lt-Finishes (omega arith))))))))))))))))
