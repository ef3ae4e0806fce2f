-- ===== src/OptionTypes/NoBlock.antt =====
-- The answer of CoAP_SetPayload of coap/server/lobaro-coap/option-types/coap_option_blockwise.c to a
-- request for a block behind the payload.
use mathlib.Core.Path.{subst}
use sming_coap.OptionTypes.Block.{BlockOption}
use sming_coap.OptionTypes.Blockwise.{place_of}
use sming_coap.OptionTypes.Placed.{carried, HasBuffer, free_msg_payload-keeps}
use sming_coap.Heap.{Heap, Generous}
use sming_coap.CoapResult.{CoapResult, ok, err_wrong_option}
use sming_coap.OptionTypes.SetPayload.{
  set_payload, asked_block, Source, refuse_block, put_block, block_not_existing, limit_block,
}
use sming_coap.Message.{
  Message, max_payload_size, in_block, payload_bytes, Payload, free_msg_payload,
  resp_bad_option_4_02, in_message, external, null,
}
use sming_coap.Message.Create.{add_new_payload_to_message, map_payload, overwrite}
use sming_coap.Base.{
  ℕ, ◌≤◌, ◌<◌, ◌≡◌, refl, sym, ap, ◌∙◌, arith, inl, inr, Bool, true, false, List, Option, some, leb,
  length, take, le→ltb, ◌==◌, Bool-cases, take_all, take-append,
}

-- A payload that was added to a message.
abbrev pub Added : List ℕ → Message → CoapResult × Option Message × Heap → Type 0
Added bytes m (r, o, h) =
    (m' : Message) × (r ≡ ok) × (o ≡ some m') × (carried m' ≡ bytes) × (m'.options ≡ m.options)

overwritten :
    (bytes : List ℕ) (p : Payload) (size : ℕ)
    → length bytes ≤ size
    → 0 < length bytes
    → HasBuffer p size
    → take (length bytes) (payload_bytes (map_payload (overwrite bytes) p)) ≡ bytes
unfolding payload_bytes
overwritten bytes null size fits positive has = absurd (omega arith)
overwritten bytes (in_message bs) size fits positive has = take-append bytes _
overwritten bytes (in_block bs) size fits positive has = take-append bytes _
overwritten bytes (external bs) size fits positive has = take-append bytes _

add_in_buffer :
    (bytes : List ℕ) (m : Message) (h : Heap)
    → leb (length bytes) m.payload_buf_size ≡ true
    → 0 < length bytes
    → length bytes ≤ max_payload_size
    → HasBuffer m.payload m.payload_buf_size
    → Added bytes m (add_new_payload_to_message m bytes h)
unfolding add_new_payload_to_message payload_bytes
add_in_buffer bytes m h fits positive small has =
    let short = le→ltb max_payload_size (length bytes) small in
    let some_bytes : (length bytes == 0) ≡ false = ground (arith, positive) in
    let fit : length bytes ≤ m.payload_buf_size = ground (arith, fits) in
    rw (short, some_bytes, fits)
      (_, refl, refl, overwritten bytes m.payload m.payload_buf_size fit positive has, refl)

add_in_block :
    (bytes : List ℕ) (m : Message) (h : Heap)
    → leb (length bytes) m.payload_buf_size ≡ false
    → 0 < length bytes
    → length bytes ≤ max_payload_size
    → Generous h
    → Added bytes m (add_new_payload_to_message m bytes h)
unfolding add_new_payload_to_message payload_bytes
add_in_block bytes m h fits positive small g =
    let short = le→ltb max_payload_size (length bytes) small in
    let some_bytes : (length bytes == 0) ≡ false = ground (arith, positive) in
    let f = free_msg_payload-keeps m h in
    let freed = (free_msg_payload m h).1 in
    let met =
      ap (λ (v : ℕ → ℕ → Bool). v freed.requests (length bytes)) f.1
      ∙ g freed.requests (length bytes) in
    rw (short, some_bytes, fits, met)
      (_, refl, refl, take_all (length bytes) bytes (omega arith), f.0)

add-Added :
    (bytes : List ℕ) (m : Message) (h : Heap)
    → 0 < length bytes
    → length bytes ≤ max_payload_size
    → Generous h
    → HasBuffer m.payload m.payload_buf_size
    → Added bytes m (add_new_payload_to_message m bytes h)
add-Added bytes m h positive small g has =
    elim (Bool-cases (leb (length bytes) m.payload_buf_size)) [
      | inl e ↦ add_in_buffer bytes m h e positive small has
      | inr e ↦ add_in_block bytes m h e positive small g
    ]

-- The response says that there is no such block.
abbrev pub Refuses : Message → Option (CoapResult × Message × Heap) → Type 0
Refuses resp o =
    (m : Message) × (h : Heap) × (o ≡ some (err_wrong_option, m, h))
    × (m.code ≡ resp_bad_option_4_02)
    × (carried m ≡ block_not_existing)
    × (m.options ≡ resp.options)

refuse_block-Refuses :
    (resp : Message) (o : CoapResult × Option Message × Heap)
    → Added block_not_existing resp o
    → Refuses resp (refuse_block o)
unfolding refuse_block
refuse_block-Refuses resp (r, o, h) (m, e, there, bytes, same) =
    rw there (_, h, refl, refl, bytes, same)

put_block_outside :
    (b : BlockOption) (resp : Message) (source : Source) (total : ℕ) (h : Heap)
    → total ≤ place_of b
    → put_block b resp source total h
      ≡ refuse_block (add_new_payload_to_message resp block_not_existing h)
unfolding put_block
put_block_outside b resp source total h outside =
    let e : leb total (place_of b) ≡ true = ground (arith, outside) in rw e refl

asked_put_block :
    (req : Option Message) (b : BlockOption) (resp : Message) (source : Source) (total : ℕ)
    (h : Heap)
    → asked_block req ≡ (ok, b)
    → (total == 0) ≡ false
    → set_payload req resp source total h ≡ put_block (limit_block b) resp source total h
unfolding set_payload
asked_put_block req b resp source total h asked some_bytes = rw (some_bytes, asked) refl

-- A request for a block, whose size is first limited to 256 bytes while its number stays as it is: if
-- the block of that number at the limited size begins at or behind the end of the payload, which is
-- not empty, and every request for memory is met, the result is COAP_ERR_WRONG_OPTION, and the
-- response has the code 4.02, the text "block not existing" and the options that it had.
pub set_payload-Refuses :
    (req : Option Message) (resp : Message) (b : BlockOption) (source : Source) (total : ℕ)
    (h : Heap)
    → Generous h
    → asked_block req ≡ (ok, b)
    → 0 < total
    → total ≤ place_of (limit_block b)
    → HasBuffer resp.payload resp.payload_buf_size
    → Refuses resp (set_payload req resp source total h)
set_payload-Refuses req resp b source total h g asked positive outside has =
    subst (Refuses resp)
      (sym (
        asked_put_block req b resp source total h asked (ground arith)
        ∙ put_block_outside (limit_block b) resp source total h outside))
      (refuse_block-Refuses resp _
        (add-Added block_not_existing resp h (omega arith) (omega arith) g has))
