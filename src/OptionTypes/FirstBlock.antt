-- ===== src/OptionTypes/FirstBlock.antt =====
-- CoAP_SetPayload of coap/server/lobaro-coap/option-types/coap_option_blockwise.c where the request
-- asks for no block.
use sming_coap.Options.Insert.{append_option_to_list_met}
use sming_coap.Options.{opt_block2, sizeof_option, ListState}
use sming_coap.OptionTypes.First.{Lacks}
use sming_coap.OptionTypes.BlockCodec.{IsBlock, add_blk_lem, get_block-add_blk}
use mathlib.Core.Path.{subst}
use sming_coap.OptionTypes.Block.{
  add_blk_option_to_msg, block_bytes, BlockOption, get_block2_option_from_msg,
  get_block_option_from_msg,
}
use sming_coap.OptionTypes.Blockwise.{Serves, Serves-Placed}
use sming_coap.OptionTypes.Placed.{Placed, carried, source_of, HasBuffer, put_payload-Placed}
use sming_coap.Heap.{Heap, Generous}
use sming_coap.CoapResult.{CoapResult, ok, is_ok}
use sming_coap.OptionTypes.SetPayload.{
  set_length, put_first, max_block, put_payload, set_payload, asked_block, Source,
}
use sming_coap.Message.{Message, max_payload_size}
use sming_coap.Base.{
  ℕ, ◌+◌, ◌≤◌, ◌<◌, ◌≡◌, refl, sym, ap, ◌∙◌, arith, inl, inr, Bool, true, false, List, Option, some,
  ltb, length, take, if◌then◌else◌, le→ltb, lt→ltb, ◌==◌, Bool-cases, ltb→lt, length-take, ltb→le,
  take_all,
}

-- The response carries the bytes, and its options are the ones that it had.
abbrev pub Carries : List ℕ → Message → Option (CoapResult × Message × Heap) → Type 0
Carries bytes resp o =
    (m : Message) × (h : Heap) × (o ≡ some (ok, m, h))
    × (carried m ≡ bytes)
    × (m.options ≡ resp.options)

Carries-Placed :
    (bytes : List ℕ) (n : ℕ) (m : Message) (o : Option (Message × Heap))
    → length bytes ≡ n
    → Placed bytes m o
    → Carries bytes m (set_length n o)
unfolding set_length
Carries-Placed bytes n m o len (m', h', e, there, same) = rw (e, ← len) (_, _, refl, there, same)

put_first_whole :
    (resp : Message) (is_volatile : Bool) (bs : List ℕ) (h : Heap)
    → length bs ≤ max_payload_size
    → put_first resp (source_of is_volatile bs) (length bs) h
      ≡ set_length (length bs) (put_payload (source_of is_volatile bs) 0 (length bs) resp h)
unfolding put_first
put_first_whole resp true bs h l = rw (le→ltb max_payload_size (length bs) l) refl
put_first_whole resp false bs h l = rw (le→ltb max_payload_size (length bs) l) refl

put_first_cut :
    (resp : Message) (is_volatile : Bool) (bs : List ℕ) (h : Heap)
    → max_payload_size < length bs
    → let added = add_blk_option_to_msg resp.options max_block h in
      put_first resp (source_of is_volatile bs) (length bs) h
      ≡ set_length max_payload_size (
          put_payload
            (source_of is_volatile bs)
            0
            max_payload_size
            (record resp { options = added.1 })
            added.2)
unfolding put_first
put_first_cut resp true bs h l = rw (lt→ltb max_payload_size (length bs) l) refl
put_first_cut resp false bs h l = rw (lt→ltb max_payload_size (length bs) l) refl

-- What the response is, by the payload's length.
abbrev pub First : Message → List ℕ → Option (CoapResult × Message × Heap) → Type 0
First resp bs o =
    if ltb max_payload_size (length bs)
    then Serves max_block true (take max_payload_size bs) o
    else Carries bs resp o

max_block-IsBlock : IsBlock max_block
max_block-IsBlock = (inr refl, (4, omega arith, refl), omega arith)

put_first-First :
    (resp : Message) (is_volatile : Bool) (bs : List ℕ) (h : Heap)
    → Generous h
    → Lacks opt_block2 resp.options
    → 0 < length bs
    → HasBuffer resp.payload resp.payload_buf_size
    → First resp bs (put_first resp (source_of is_volatile bs) (length bs) h)
unfolding get_block2_option_from_msg get_block_option_from_msg
put_first-First resp is_volatile bs h g lacks positive has =
    let src = source_of is_volatile bs in
    elim (Bool-cases (ltb max_payload_size (length bs))) [
      | inl e ↦ rw e (
          let l = ltb→lt max_payload_size (length bs) e in
          let met = g h.requests (sizeof_option + length (block_bytes max_block)) in
          let added =
            add_blk_lem max_block resp.options h max_block-IsBlock
            ∙ append_option_to_list_met opt_block2 (block_bytes max_block) h resp.options met in
          let g' = λ (k : ℕ) (n : ℕ). ap (λ (s : ListState). s.2.verdict k n) added ∙ g k n in
          let option = λ (out : BlockOption).
            get_block-add_blk max_block out resp.options h max_block-IsBlock met lacks in
          let after = add_blk_option_to_msg resp.options max_block h in
          let placed =
            put_payload-Placed is_volatile bs 0 max_payload_size (record resp { options = after.1 })
              after.2 g' (omega arith) (omega arith) has in
          subst (Serves max_block true (take max_payload_size bs))
            (sym (put_first_cut resp is_volatile bs h l))
            (Serves-Placed max_block true (take max_payload_size bs) max_payload_size
              (record resp { options = after.1 }) _ (length-take max_payload_size bs (omega arith))
              option placed))
      | inr e ↦ rw e (
          let l = ltb→le max_payload_size (length bs) e in
          let placed =
            put_payload-Placed is_volatile bs 0 (length bs) resp h g (omega arith) positive has in
          let all = take_all (length bs) bs (omega arith) in
          subst (Carries bs resp) (sym (put_first_whole resp is_volatile bs h l)) (
            Carries-Placed bs (length bs) resp _ refl
              (subst (λ x. Placed x resp (put_payload src 0 (length bs) resp h)) all placed)))
    ]

unasked_put_first :
    (req : Option Message) (resp : Message) (source : Source) (total : ℕ) (h : Heap)
    → is_ok (asked_block req).0 ≡ false
    → (total == 0) ≡ false
    → set_payload req resp source total h ≡ put_first resp source total h
unfolding set_payload
unasked_put_first req resp source total h unasked some_bytes = rw (some_bytes, unasked) refl

-- A request whose block option cannot be read, or is not there, or no request, while every request
-- for memory is met and the response has no block option yet: a payload of up to 256 bytes is carried
-- whole and the options stay as they were; of a longer one the first 256 bytes are carried, with a
-- block option that says so and that there are more.
pub set_payload-First :
    (req : Option Message) (resp : Message) (is_volatile : Bool) (bs : List ℕ) (h : Heap)
    → Generous h
    → is_ok (asked_block req).0 ≡ false
    → Lacks opt_block2 resp.options
    → 0 < length bs
    → HasBuffer resp.payload resp.payload_buf_size
    → First resp bs (set_payload req resp (source_of is_volatile bs) (length bs) h)
set_payload-First req resp is_volatile bs h g unasked lacks positive has =
    subst (First resp bs)
      (sym (
        unasked_put_first req resp (source_of is_volatile bs) (length bs) h unasked (ground arith)))
      (put_first-First resp is_volatile bs h g lacks positive has)
