-- ===== src/Proto/Events/Batch/Elements.antt =====
-- The elements of a batch: what the loop of the encoder writes, the loop of the decoder reads.
use faith.Common.{
  ℕ, ◌+◌, ◌-◌, ◌^◌, ◌≤◌, ◌<◌, ◌≡◌, ap, refl, arith, List, [], ◌∷◌, ◌++◌, Bool, true, some, length,
  take, drop,
}
use faith.Proto.Codec.Steps.{done, ◌>>=◌, ◌>>◌, pure, guard, check_return}
use faith.Proto.Codec.Words.{be}
use faith.Proto.Codec.Encode.{Buf, Encoded, advance, put_cells}
use faith.Proto.Codec.Decode.{Payload, Cursor, Reader, payload_size, offset, Decoded}
use faith.Proto.Codec.Encode.Writes.{Writes, encoded_ok, >>-Writes}
use faith.Proto.Codec.Decode.Reads.{decode_u16_be-Reads, decoded_ok, payload_of, cursor}
use faith.Common.{length-append, take-append, drop-append}
use faith.Proto.Codec.Encode.Writes.{encode_u16_be-Writes}
use faith.Proto.Codec.Decode.Reads.{Reads, behind}
use faith.Proto.Codec.Encode.Writes.{nothing-Writes, wrote}
use faith.Common.{==_refl, sym, ◌∙◌, append_assoc}
use faith.Proto.Codec.Decode.{skip, Payload, Cursor}
use faith.Proto.Codec.Encode.{advance, put_cells}
use faith.Proto.Codec.Decode.Chains.{wrap-Reads, >>=-Reads, pure-Reads, guard-Reads}
use faith.Proto.Events.{
  Event, IsEvent, zeroed_event, event_body_size, encode_event_body, decode_event_body,
}
use faith.Proto.Events.RoundTrip.{
  encode_event_body-ok, decode_event_body-ok, event_bytes, length-event_bytes,
}
use faith.Proto.Events.Batch.{
  EventBatch, element_size, finish_element, take_element, encode_element_body, encode_elements,
  element_fits, decode_element_body, decode_elements,
}

abbrev pub elements_bytes : List Event → List ℕ
elements_bytes [] = []
elements_bytes (ev ∷ evs) = be 2 (element_size ev) ++ (event_bytes ev ++ elements_bytes evs)

-- An event that the encoder of a batch can take: its size is written as 16 bits.
pub record IsElement (ev : Event) : Type 0 where
  pub event : IsEvent ev
  pub fits : element_size ev < 2 ^ 16

abbrev pub All : (Event → Type 0) → List Event → Type 0
All P [] = Unit
All P (ev ∷ evs) = P ev × All P evs

finish_element-ok :
    (ev : Event) (before cells : List ℕ) (buf_cap : ℕ) (s : Buf)
    → finish_element ev before (encoded_ok cells (element_size ev)) buf_cap s
      ≡ done tt (record { cells = before ++ cells; off = s.off + element_size ev })
unfolding finish_element ◌>>◌ put_cells check_return guard advance
finish_element-ok ev before cells buf_cap s = rw (==_refl (element_size ev), guard)

encode_element_body-Writes :
    (ev : Event) → IsElement ev → Writes (encode_element_body ev) (event_bytes ev)
unfolding encode_element_body
encode_element_body-Writes ev valid = record {
  run = λ buf_cap pre old fits room.
      let small : event_body_size ev ≡ element_size ev = omega (arith, valid.event.fits) in
      let whole : length (event_bytes ev) ≡ element_size ev =
        length-event_bytes ev valid.event ∙ small in
      let s : Buf = record { cells = pre ++ old; off = length pre } in
      let e : encode_event_body (some old) (some 0) (buf_cap - length pre) (some ev)
          ≡ encoded_ok (event_bytes ev ++ drop (element_size ev) old) (element_size ev) =
        encode_event_body-ok ev old 0 (buf_cap - length pre) valid.event (omega arith) (omega arith)
        ∙ ap (λ (k : ℕ). encoded_ok (event_bytes ev ++ drop k old) k) small in
      ap
        (λ (t : List ℕ).
          finish_element ev (take (length pre) (pre ++ old))
            (encode_event_body (some t) (some 0) (buf_cap - length pre) (some ev)) buf_cap s)
        (drop-append pre old)
      ∙ ap (λ (t : Encoded). finish_element ev (take (length pre) (pre ++ old)) t buf_cap s) e
      ∙ ap
          (λ (t : List ℕ).
            finish_element ev t
              (encoded_ok (event_bytes ev ++ drop (element_size ev) old) (element_size ev)) buf_cap
              s)
          (take-append pre old)
      ∙ finish_element-ok ev pre (event_bytes ev ++ drop (element_size ev) old) buf_cap s
      ∙ wrote
          (sym (append_assoc pre (event_bytes ev) _)
            ∙ ap (λ (k : ℕ). (pre ++ event_bytes ev) ++ drop k old) (sym whole))
          (omega arith);
}

pub encode_elements-Writes :
    (evs : List Event) → All IsElement evs → Writes (encode_elements evs) (elements_bytes evs)
unfolding encode_elements
encode_elements-Writes [] valid = nothing-Writes
encode_elements-Writes (ev ∷ evs) (valid, rest) =
    >>-Writes (encode_u16_be-Writes _ valid.fits)
      (>>-Writes (encode_element_body-Writes ev valid) (encode_elements-Writes evs rest))

take_element-ok :
    (ev : Event) (n : ℕ) (p : Payload) (c : Cursor EventBatch)
    → take_element n (decoded_ok ev) p c ≡ done ev (record c { off = c.off + n })
unfolding take_element ◌>>◌ check_return skip pure
take_element-ok ev n p c = refl

decode_element_body-Reads :
    (alloc : ℕ → Bool) (ev : Event) (o : EventBatch)
    → IsElement ev
    → alloc ev.data_size ≡ true
    → Reads (decode_element_body alloc (element_size ev)) (event_bytes ev) o ev o
unfolding decode_element_body
decode_element_body-Reads alloc ev o valid granted = record {
  run = λ pre rest i j size at ends fits.
      let whole : length (event_bytes ev) ≡ element_size ev =
        length-event_bytes ev valid.event ∙ omega (arith, valid.event.fits) in
      let p : Payload = payload_of (pre ++ (event_bytes ev ++ rest)) size in
      let c : Cursor EventBatch = cursor i o in
      ap
        (λ (t : List ℕ).
          take_element (element_size ev)
            (decode_event_body alloc (some t) (element_size ev) (some zeroed_event)) p c)
        (behind pre (event_bytes ev ++ rest) at)
      ∙ ap (λ (t : Decoded Event). take_element (element_size ev) t p c)
          (ap
              (λ (k : ℕ).
                decode_event_body alloc (some (event_bytes ev ++ rest)) k (some zeroed_event))
              (sym whole)
            ∙ decode_event_body-ok alloc ev rest zeroed_event valid.event granted)
      ∙ take_element-ok ev (element_size ev) p c
      ∙ (let same : i + element_size ev ≡ j = omega arith in λ t. done ev (cursor (same t) o));
}

element_fits-ok :
    (n : ℕ) (p : Payload) (c : Cursor EventBatch)
    → c.off + n ≤ p.size
    → element_fits n p c ≡ done tt c
unfolding element_fits ◌>>=◌ offset payload_size guard
element_fits-ok n p c h = ground arith

element_fits-Reads :
    {A : Type 0} (n : ℕ) {k : Reader EventBatch A} {bs : List ℕ} {o o' : EventBatch} {v : A}
    → n ≤ length bs
    → Reads k bs o v o'
    → Reads (element_fits n >> k) bs o v o'
unfolding ◌>>◌
element_fits-Reads n {bs} {o} h f = record {
  run = λ pre rest i j size at ends fits.
      rw (element_fits-ok n (payload_of (pre ++ (bs ++ rest)) size) (cursor i o) (omega arith))
        (f.run pre rest i j size at ends fits);
}

abbrev pub Granted : (ℕ → Bool) → Event → Type 0
Granted alloc ev = alloc ev.data_size ≡ true

pub decode_elements-Reads :
    (alloc : ℕ → Bool) (evs : List Event) (o : EventBatch)
    → All IsElement evs
    → All (Granted alloc) evs
    → Reads (decode_elements alloc (length evs)) (elements_bytes evs) o evs o
unfolding decode_elements
decode_elements-Reads alloc [] o valid granted = pure-Reads
decode_elements-Reads alloc (ev ∷ evs) o (valid, rest) (granted, others) =
    >>=-Reads _ (decode_u16_be-Reads valid.fits) (
      guard-Reads _ (ground arith) (
        element_fits-Reads (element_size ev)
          (omega (
            arith,
            length-append (event_bytes ev) (elements_bytes evs),
            length-event_bytes ev valid.event,
            valid.event.fits,
          ))
          (>>=-Reads _ (decode_element_body-Reads alloc ev o valid granted)
            (wrap-Reads (◌∷◌ ev) (decode_elements-Reads alloc evs o rest others)))))
