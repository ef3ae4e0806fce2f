-- ===== src/OptionTypes/Placed.antt =====
-- What CoAP_SetPayload of coap/server/lobaro-coap/option-types/coap_option_blockwise.c puts into a
-- response: the bytes of its payload and its block option.
use sming_coap.Options.Insert.{append_option_to_list_met}
use sming_coap.OptionTypes.First.{Lacks}
use mathlib.Core.Path.{subst}
use sming_coap.OptionTypes.BlockRemoval.{
  count_of, without, Generous-releases, remove_all_block_options_lem, without-Lacks, releases,
}
use sming_coap.CoapResult.{ok}
use sming_coap.Options.{opt_block2, sizeof_option, ListState}
use sming_coap.OptionTypes.BlockCodec.{IsBlock, add_blk_lem, get_block-add_blk}
use sming_coap.OptionTypes.Block.{
  get_block2_option_from_msg, BlockOption, block_bytes, add_blk_option_to_msg,
  get_block_option_from_msg,
}
use sming_coap.Heap.{Heap, mem_get, Generous}
use sming_coap.OptionTypes.SetPayload.{
  Source, copy_to_buffer, copy_to_block, copy_payload, put_payload, volatile, static,
  replace_block2,
}
use sming_coap.Message.{
  Message, Payload, free_msg_payload, payload_bytes, null, in_message, in_block, external,
}
use sming_coap.Base.{
  ℕ, ◌+◌, ◌-◌, ◌≤◌, ◌<◌, ◌≡◌, refl, sym, ap, ◌∙◌, arith, inl, inr, Bool, true, false, List, Option,
  some, ltb, length, take, drop, if◌then◌else◌, take-append, take_all, Bool-cases, ltb→le,
  length-take, length-drop,
}

-- What the datagram carries of the payload.
abbrev pub carried : Message → List ℕ
carried m = take m.payload_length (payload_bytes m.payload)

-- Without a buffer the size of the buffer is 0.
abbrev pub HasBuffer : Payload → ℕ → Type 0
HasBuffer null size = size ≡ 0
HasBuffer _ size = Unit {0}

-- The flag payloadIsVolatile of the source, on a payload that is not the response's own.
abbrev pub source_of : Bool → List ℕ → Source
source_of true bs = volatile bs
source_of false bs = static bs

-- The bytes are in place, at the front of the response's payload.
abbrev pub Placed : List ℕ → Message → Option (Message × Heap) → Type 0
Placed bytes m o =
    (m' : Message) × (h' : Heap) × (o ≡ some (m', h'))
    × (take (length bytes) (payload_bytes m'.payload) ≡ bytes)
    × (m'.options ≡ m.options)

pub copy_to_buffer-Placed :
    (bytes : List ℕ) (m : Message) (h : Heap) (p : Payload) (size : ℕ)
    → length bytes ≤ size
    → 0 < length bytes
    → HasBuffer p size
    → Placed bytes m (copy_to_buffer bytes m h p)
unfolding copy_to_buffer payload_bytes
copy_to_buffer-Placed bytes m h null size fits some_bytes has = absurd (omega arith)
copy_to_buffer-Placed bytes m h (in_message bs) size fits some_bytes has =
    (_, h, refl, take-append bytes _, refl)
copy_to_buffer-Placed bytes m h (in_block bs) size fits some_bytes has =
    (_, h, refl, take-append bytes _, refl)
copy_to_buffer-Placed bytes m h (external bs) size fits some_bytes has =
    (_, h, refl, take-append bytes _, refl)

pub free_msg_payload-keeps :
    (m : Message) (h : Heap)
    → ((free_msg_payload m h).0.options ≡ m.options)
      × ((free_msg_payload m h).1.verdict ≡ h.verdict)
unfolding free_msg_payload
free_msg_payload-keeps m h = ground arith

pub copy_to_block-Placed :
    (bytes : List ℕ) (m : Message) (h : Heap)
    → Generous h
    → Placed bytes m (copy_to_block bytes m (mem_get (length bytes) h))
unfolding copy_to_block payload_bytes mem_get
copy_to_block-Placed bytes m h g =
    rw (g h.requests (length bytes)) (_, _, refl, take_all (length bytes) bytes (omega arith), refl)

pub copy_payload-Placed :
    (bytes : List ℕ) (m : Message) (h : Heap)
    → Generous h
    → 0 < length bytes
    → HasBuffer m.payload m.payload_buf_size
    → Placed bytes m (copy_payload bytes m h)
unfolding copy_payload
copy_payload-Placed bytes m h g some_bytes has =
    elim (Bool-cases (ltb m.payload_buf_size (length bytes))) [
      | inl e ↦
          let f = free_msg_payload-keeps m h in
          let p =
            copy_to_block-Placed bytes (free_msg_payload m h).0 (free_msg_payload m h).1
              (λ k n. ap (λ (v : ℕ → ℕ → Bool). v k n) f.1 ∙ g k n) in
          rw e (p.0, p.1, p.2, p.3, p.4 ∙ f.0)
      | inr e ↦ rw e (
          copy_to_buffer-Placed bytes m h m.payload m.payload_buf_size (ltb→le _ _ e) some_bytes
            has)
    ]

pub length-block :
    (place n : ℕ) (bs : List ℕ) → place + n ≤ length bs → length (take n (drop place bs)) ≡ n
length-block place n bs inside =
    length-take n (drop place bs) (omega (arith, length-drop {0} place bs))

pub put_payload-Placed :
    (is_volatile : Bool) (bs : List ℕ) (place n : ℕ) (m : Message) (h : Heap)
    → Generous h
    → place + n ≤ length bs
    → 0 < n
    → HasBuffer m.payload m.payload_buf_size
    → Placed (take n (drop place bs)) m (put_payload (source_of is_volatile bs) place n m h)
unfolding put_payload payload_bytes
put_payload-Placed true bs place n m h g inside positive has =
    copy_payload-Placed (take n (drop place bs)) m h g
      (omega (arith, length-block place n bs inside)) has
put_payload-Placed false bs place n m h g inside positive has =
    (_, h, refl, rw (length-block place n bs inside) refl, refl)

pub replace_block2_lem :
    (b : BlockOption) (m : Message) (h : Heap)
    → Generous h
    → IsBlock b
    → b.block_type ≡ opt_block2
    → (m' : Message) × (h' : Heap) × (replace_block2 b m h ≡ (m', h'))
      × ((out : BlockOption) → get_block2_option_from_msg m'.options out ≡ (ok, b))
      × (m'.payload ≡ m.payload)
      × (m'.payload_buf_size ≡ m.payload_buf_size)
      × Generous h'
unfolding replace_block2 get_block2_option_from_msg
replace_block2_lem b m h g is_block kind =
    let n = count_of opt_block2 m.options in
    let others = without opt_block2 m.options in
    let g' = Generous-releases n h g in
    let cleaned = remove_all_block_options_lem m.options opt_block2 h in
    let lacks = subst (λ k. Lacks k others) (sym kind) (without-Lacks opt_block2 m.options) in
    let met = g' (releases n h).requests (sizeof_option + length (block_bytes b)) in
    let added =
      ap (λ (s : ListState). add_blk_option_to_msg s.1 b s.2) cleaned
      ∙ add_blk_lem b others (releases n h) is_block
      ∙ append_option_to_list_met b.block_type (block_bytes b) (releases n h) others met in
    (
      _,
      _,
      refl,
      λ out.
          ap
            (λ (s : ListState).
              get_block_option_from_msg (add_blk_option_to_msg s.1 b s.2).1 opt_block2 out)
            cleaned
          ∙ subst
              (λ k.
                get_block_option_from_msg (add_blk_option_to_msg others b (releases n h)).1 k out
                ≡ (ok, b))
              kind (get_block-add_blk b out others (releases n h) is_block met lacks),
      refl,
      refl,
      λ k size. ap (λ (s : ListState). s.2.verdict k size) added ∙ g' k size,
    )

-- The block's bytes, the last one shorter.
pub take_block :
    (size place : ℕ) (bs : List ℕ)
    → take (if ltb size (length bs - place) then size else length bs - place) (drop place bs)
      ≡ take size (drop place bs)
take_block size place bs = elim (Bool-cases (ltb size (length bs - place))) [
  | inl e ↦ rw e refl
  | inr e ↦ rw e (
      take_all (length bs - place) (drop place bs) (omega (arith, length-drop {0} place bs))
      ∙ sym (
          take_all size (drop place bs)
            (omega (arith, length-drop {0} place bs, ltb→le size (length bs - place) e))))
]
