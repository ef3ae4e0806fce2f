-- ===== src/Message/Create.antt =====
-- The creation of messages and of their payloads, and the numbers and tokens that they get:
-- coap/server/lobaro-coap/coap_message.c.
use sming_coap.Base.{
  ℕ, zero, suc, ◌+◌, ◌-◌, ◌%◌, ◌^◌, Bool, true, false, List, [], ◌∷◌, ◌++◌, Option, none, some, ltb,
  leb, ◌==◌, if◌then◌else◌, length, take, drop,
}
use sming_coap.Heap.{Heap, mem_get}
use sming_coap.CoapResult.{CoapResult, ok, err_out_of_memory}
use sming_coap.Message.{
  MessageType, is_con, code, max_payload_size, sizeof_message, Payload, Message,
  init_to_empty_reset_msg, free_msg_payload, null, ack, in_message, in_block, non, external,
}

-- `n` bytes that are zero.
abbrev pub zeros : ℕ → List ℕ
zeros zero = []
zeros (suc n) = 0 ∷ zeros n

-- A zeroed buffer into which the initial content, if any, is copied.
abbrev pub initial_buffer : Option (List ℕ) → ℕ → ℕ → List ℕ
initial_buffer none content_length max_size = zeros max_size
initial_buffer (some content) content_length max_size =
    take content_length content ++ zeros (max_size - content_length)

-- The message in a block that was allocated. The content that is too long is refused after the
-- allocation, and the block stays allocated.
unfoldable pub fill_message : MessageType → ℕ → ℕ → Option (List ℕ) → ℕ → ℕ → ℕ → Option Message
unfolding init_to_empty_reset_msg
fill_message type code message_id content content_length max_size token =
    if ltb max_size content_length
    then none
    else some (record init_to_empty_reset_msg {
      type = type;
      code = code;
      message_id = message_id;
      token = token;
      payload_length = content_length;
      payload_buf_size = max_size;
      payload =
          if max_size == 0
          then null
          else in_message (initial_buffer content content_length max_size);
    })

-- What follows the request for the block.
unfoldable pub when_met {ℓ} : {A : Type ℓ} → Bool × Heap → Option A → Option A × Heap
when_met (false, h) a = (none, h)
when_met (true, h) a = (a, h)

-- `none` is the NULL pointer.
unfoldable pub create_message :
    MessageType → ℕ → ℕ → Option (List ℕ) → ℕ → ℕ → ℕ → Heap → Option Message × Heap
unfolding mem_get fill_message when_met
create_message type code message_id content content_length max_size token h =
    when_met (mem_get (sizeof_message + max_size) h)
      (fill_message type code message_id content content_length max_size token)

-- The counters that are static variables of the source.
pub record Counters : Type 0 where
  pub mid : ℕ
  pub last_token : ℕ

abbrev pub initial_counters : Counters
initial_counters = record { mid = 0; last_token = 0xfa }

unfoldable pub get_next_mid : Counters → ℕ × Counters
get_next_mid c = let mid = (c.mid + 1) % 65536 in (mid, record c { mid = mid })

unfoldable pub generate_token : Counters → ℕ × Counters
generate_token c =
    let token = (c.last_token + 1) % 2 ^ 64 in (token, record c { last_token = token })

unfoldable pub get_resp_msg_type : Message → MessageType
unfolding is_con
get_resp_msg_type req = if is_con req.type then ack else non

unfoldable pub get_resp_msg_id : Message → Counters → ℕ × Counters
unfolding is_con get_next_mid
get_resp_msg_id req c = if is_con req.type then (req.message_id, c) else get_next_mid c

unfoldable pub alloc_resp_msg :
    Message → ℕ → ℕ → Counters → Heap → (Option Message × Heap) × Counters
unfolding get_resp_msg_id get_resp_msg_type create_message
alloc_resp_msg req code max_size c h =
    let (mid, c') = get_resp_msg_id req c in
    (create_message (get_resp_msg_type req) code mid none 0 max_size req.token h, c')

-- The bytes are copied over the front of a buffer.
abbrev pub overwrite : List ℕ → List ℕ → List ℕ
overwrite bytes buffer = bytes ++ drop (length bytes) buffer

abbrev pub map_payload : (List ℕ → List ℕ) → Payload → Payload
map_payload f null = null
map_payload f (in_message bs) = in_message (f bs)
map_payload f (in_block bs) = in_block (f bs)
map_payload f (external bs) = external (f bs)

-- A payload in a new block. The source does not test the allocation; a NULL pointer is `none`.
new_block : List ℕ → Message → Bool × Heap → Option Message × Heap
new_block bytes m (false, h) = (none, h)
new_block bytes m (true, h) = (
  some (record m {
    payload = in_block bytes;
    payload_buf_size = length bytes;
    payload_length = length bytes;
  }),
  h,
)

-- CoAP_addNewPayloadToMessage; no message in the result means a write through the NULL pointer.
unfoldable pub add_new_payload_to_message :
    Message → List ℕ → Heap → CoapResult × Option Message × Heap
unfolding free_msg_payload mem_get new_block
add_new_payload_to_message m bytes h =
    if ltb max_payload_size (length bytes)
    then (err_out_of_memory, some m, h)
    else if length bytes == 0
    then (let (m', h') = free_msg_payload m h in (ok, some (record m' { payload_length = 0 }), h'))
    else if leb (length bytes) m.payload_buf_size
    then (
      ok,
      some (record m {
        payload = map_payload (overwrite bytes) m.payload;
        payload_length = length bytes;
      }),
      h,
    )
    else (let (m', h') = free_msg_payload m h in
        let (r, h'') = new_block bytes m' (mem_get (length bytes) h') in (ok, r, h''))
