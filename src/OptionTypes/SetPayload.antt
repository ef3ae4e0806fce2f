-- ===== src/OptionTypes/SetPayload.antt =====
-- CoAP_SetPayload of coap/server/lobaro-coap/option-types/coap_option_blockwise.c: the block of a
-- payload that a response carries.
use sming_coap.Heap.{Heap, mem_get}
use sming_coap.Options.{opt_block2}
use sming_coap.CoapResult.{CoapResult, err_not_found, is_ok, ok, err_wrong_option}
use sming_coap.Message.{
  free_msg_payload, Message, max_payload_size, Payload, in_block, resp_bad_option_4_02, external,
  null,
}
use sming_coap.Message.Create.{add_new_payload_to_message, map_payload, overwrite}
use sming_coap.OptionTypes.Block.{
  BlockOption, remove_all_block_options_from_msg, add_blk_option_to_msg, get_block2_option_from_msg,
}
use sming_coap.Base.{
  ℕ, List, Option, ◌∷◌, Bool, if◌then◌else◌, [], false, none, ltb, some, ◌*◌, ◌==◌, true, length,
  ◌-◌, leb, take, drop,
}

-- Where the payload pointer points: to the response's own buffer, to memory that has to be copied, or
-- to memory that stays.
pub data Source : Type 0 where
  own : Source
  volatile : List ℕ → Source
  static : List ℕ → Source

-- "block not existing"
abbrev pub block_not_existing : List ℕ
block_not_existing =
    98 ∷ 108 ∷ 111 ∷ 99 ∷ 107 ∷ 32 ∷ 110 ∷ 111 ∷ 116 ∷ 32 ∷ 101 ∷ 120 ∷ 105 ∷ 115 ∷ 116 ∷ 105 ∷ 110
    ∷ 103 ∷ []

-- The structure before the request's option is read.
abbrev pub no_block2 : BlockOption
no_block2 = record { block_type = opt_block2; block_size = 0; more_flag = false; block_num = 0 }

abbrev pub max_block : BlockOption
max_block = record {
  block_type = opt_block2;
  block_size = max_payload_size;
  more_flag = true;
  block_num = 0;
}

-- The copy into a new block. The allocation is not tested: no result stands for the write through
-- NULL.
unfoldable pub copy_to_block : List ℕ → Message → Bool × Heap → Option (Message × Heap)
copy_to_block bytes m (false, h) = none
copy_to_block bytes m (true, h) =
    some (record m { payload = in_block bytes; payload_buf_size = length bytes }, h)

-- The copy into the buffer that is there.
unfoldable pub copy_to_buffer : List ℕ → Message → Heap → Payload → Option (Message × Heap)
copy_to_buffer bytes m h null = none
copy_to_buffer bytes m h p =
    some
      (record m { payload = map_payload (overwrite bytes) p; payload_buf_size = length bytes }, h)

unfoldable pub copy_payload : List ℕ → Message → Heap → Option (Message × Heap)
unfolding free_msg_payload mem_get copy_to_block copy_to_buffer
copy_payload bytes m h =
    let freed = free_msg_payload m h in
    if ltb m.payload_buf_size (length bytes)
    then copy_to_block bytes freed.0 (mem_get (length bytes) freed.1)
    else copy_to_buffer bytes m h m.payload

-- The bytes are moved to the front of the buffer that is there.
unfoldable pub move_to_front : ℕ → ℕ → Message → Heap → Payload → Option (Message × Heap)
move_to_front place n m h null = none
move_to_front place n m h p =
    some (record m { payload = map_payload (λ bs. overwrite (take n (drop place bs)) bs) p }, h)

-- The `n` bytes from a place on become the response's payload.
unfoldable pub put_payload : Source → ℕ → ℕ → Message → Heap → Option (Message × Heap)
unfolding copy_payload move_to_front
put_payload own place n m h = move_to_front place n m h m.payload
put_payload (volatile bs) place n m h = copy_payload (take n (drop place bs)) m h
put_payload (static bs) place n m h =
    some (record m { payload = external (drop place bs); payload_buf_size = 0 }, h)

unfoldable pub set_length : ℕ → Option (Message × Heap) → Option (CoapResult × Message × Heap)
set_length n none = none
set_length n (some (m, h)) = some (ok, record m { payload_length = n }, h)

-- The response to a request for a block that there is not.
unfoldable pub refuse_block :
    CoapResult × Option Message × Heap → Option (CoapResult × Message × Heap)
refuse_block (r, none, h) = none
refuse_block (r, some m, h) = some (err_wrong_option, record m { code = resp_bad_option_4_02 }, h)

-- The block option of the response takes the place of one that is there.
unfoldable pub replace_block2 : BlockOption → Message → Heap → Message × Heap
unfolding remove_all_block_options_from_msg add_blk_option_to_msg
replace_block2 b m h =
    let cleaned = remove_all_block_options_from_msg m.options opt_block2 h in
    let after = add_blk_option_to_msg cleaned.1 b cleaned.2 in
    (record m { options = after.1 }, after.2)

-- The block of this number and size. A number has 20 bits at most, so that the place is below 2 ^ 28.
unfoldable pub put_block :
    BlockOption → Message → Source → ℕ → Heap → Option (CoapResult × Message × Heap)
unfolding refuse_block add_new_payload_to_message replace_block2 put_payload set_length
put_block b resp source total h =
    let place = b.block_size * b.block_num in
    let is_more = ltb b.block_size (total - place) in
    let n = if is_more then b.block_size else total - place in
    let after = replace_block2 (if is_more then record b { more_flag = true } else b) resp h in
    if leb total place
    then refuse_block (add_new_payload_to_message resp block_not_existing h)
    else set_length n (put_payload source place n after.0 after.1)

-- The client's size, or the largest one of the server.
unfoldable pub limit_block : BlockOption → BlockOption
limit_block b =
    if ltb max_payload_size b.block_size then record b { block_size = max_payload_size } else b

-- Without a block option in the request the payload's first bytes are the response's, with a block
-- option if there are more.
unfoldable pub put_first : Message → Source → ℕ → Heap → Option (CoapResult × Message × Heap)
unfolding add_blk_option_to_msg put_payload set_length
put_first resp source total h =
    let added = add_blk_option_to_msg resp.options max_block h in
    let cut = ltb max_payload_size total in
    let n = if cut then max_payload_size else total in
    let after = if cut then (record resp { options = added.1 }, added.2) else (resp, h) in
    set_length n (elim source [ own ↦ some after | other ↦ put_payload other 0 n after.0 after.1 ])

-- The block option of a request, if there is a request and its option can be read.
unfoldable pub put_answered :
    CoapResult × BlockOption → Message → Source → ℕ → Heap → Option (CoapResult × Message × Heap)
unfolding limit_block put_block put_first
put_answered (r, b) resp source total h =
    if is_ok r then put_block (limit_block b) resp source total h else put_first resp source total h

-- No request is the NULL pointer.
unfoldable pub asked_block : Option Message → CoapResult × BlockOption
unfolding get_block2_option_from_msg
asked_block none = (err_not_found, no_block2)
asked_block (some req) = get_block2_option_from_msg req.options no_block2

unfoldable pub set_payload :
    Option Message → Message → Source → ℕ → Heap → Option (CoapResult × Message × Heap)
unfolding put_answered asked_block
set_payload req resp source total h =
    if total == 0
    then some (ok, record resp { payload_length = 0 }, h)
    else put_answered (asked_block req) resp source total h
