-- ===== src/Message/Parse.antt =====
-- CoAP_ParseMessageFromDatagram of coap/server/lobaro-coap/coap_message.c. The datagram is a memory
-- and a length, since the code may read behind the length.
use sming_coap.Base.{
  ℕ, zero, suc, ◌+◌, ◌-◌, ◌*◌, ◌/◌, ◌%◌, Bool, true, false, ◌||◌, List, [], Option, none, some, ltb,
  ◌==◌, if◌then◌else◌, Memory, read,
}
use sming_coap.Heap.{Heap, mem_get}
use sming_coap.CoapResult.{
  CoapResult, ok, parse_datagram_too_short, parse_unknown_coap_version, parse_message_format_error,
  parse_too_much_payload, err_out_of_memory,
}
use sming_coap.Options.{CoapOption, free_option_list}
use sming_coap.Options.Pack.{u16}
use sming_coap.Options.Parse.{Parsed, parse_options_from_raw}
use sming_coap.Message.{
  Message, MessageType, type_of_bits, coap_version, max_payload_size, sizeof_message, null,
  in_message,
}

pub record Header : Type 0 where
  pub type : MessageType
  pub token_length : ℕ
  pub code : ℕ
  pub message_id : ℕ

pub data HeaderResult : Type 0 where
  malformed : CoapResult → HeaderResult
  header : Header → HeaderResult

abbrev is_reserved_class : ℕ → Bool
is_reserved_class class = class == 1 || (class == 6 || class == 7)

-- The checks of the length and the four header bytes, in the source's order.
unfoldable pub parse_header : Memory → ℕ → HeaderResult
parse_header mem n =
    if ltb n 4
    then malformed parse_datagram_too_short
    else if mem 0 / 64 == coap_version
    then (if ltb 8 (mem 0 % 16)
        then malformed parse_message_format_error
        else if is_reserved_class (mem 1 / 32)
        then malformed parse_message_format_error
        else header (record {
          type = type_of_bits (mem 0 / 16 % 4);
          token_length = mem 0 % 16;
          code = mem 1;
          message_id = mem 2 * 256 + mem 3;
        }))
    else malformed parse_unknown_coap_version

-- The token's bytes, lowest first.
unfoldable pub read_token : Memory → ℕ → ℕ → ℕ
read_token mem offset zero = 0
read_token mem offset (suc n) = mem offset + 256 * read_token mem (suc offset) n

-- The result, the message (`none` is the NULL pointer) and the heap.
abbrev pub MessageState : Type 0
MessageState = CoapResult × Option Message × Heap

-- What follows the request for the message's block.
alloc_message : List CoapOption → Message → Bool × Heap → MessageState
alloc_message opts m (false, h) = (err_out_of_memory, none, free_option_list opts h)
alloc_message opts m (true, h) = (ok, some m, h)

-- The label START_MSG_COPY_LABEL: the message gets one block with room for its payload.
unfoldable pub copy_message : Header → ℕ → List CoapOption → List ℕ → ℕ → ℕ → Heap → MessageState
unfolding alloc_message mem_get
copy_message hd token opts payload payload_length now h =
    alloc_message opts
      (record {
        timestamp = now;
        type = hd.type;
        code = hd.code;
        message_id = hd.message_id;
        payload_length = payload_length;
        payload_buf_size = payload_length;
        token = token;
        options = opts;
        payload = if payload_length == 0 then null else in_message payload;
      })
      (mem_get (sizeof_message + payload_length) h)

-- `srcArrLength - (pPayloadBegin - srcArr)` as a uint16_t.
abbrev pub payload_length_of : ℕ → ℕ → ℕ
payload_length_of n begin = u16 (n + 131072 - begin)

-- What follows the parsing of the options, which start at `offset`: on an error, and on a payload
-- that is too long, the list is freed and no message is made.
unfoldable pub after_options :
    Memory → ℕ → ℕ → Header → ℕ → ℕ → CoapResult → Option ℕ → List CoapOption → Heap → MessageState
unfolding copy_message
after_options mem n offset hd token now ok none opts h = copy_message hd token opts [] 0 now h
after_options mem n offset hd token now ok (some b) opts h =
    let size = payload_length_of n (offset + b) in
    if ltb max_payload_size size
    then (parse_too_much_payload, none, free_option_list opts h)
    else copy_message hd token opts (read mem (offset + b) size) size now h
after_options mem n offset hd token now r begin opts h = (r, none, free_option_list opts h)

abbrev pub finish : Memory → ℕ → ℕ → Header → ℕ → ℕ → Option Parsed → Option MessageState
finish mem n offset hd token now none = none
finish mem n offset hd token now (some p) =
    some (after_options mem n offset hd token now p.result p.payload_begin p.options p.heap)

-- `&(srcArr[offset])`
abbrev pub from : ℕ → Memory → Memory
from offset mem i = mem (offset + i)

-- What follows the header. The token is read, and the options' length is computed as a uint16_t,
-- whether or not the datagram is long enough to hold the token.
unfoldable pub parse_body : Memory → ℕ → ℕ → Heap → HeaderResult → Option MessageState
unfolding copy_message after_options
parse_body mem n now h (malformed r) = some (r, none, h)
parse_body mem n now h (header hd) =
    let offset = 4 + hd.token_length in
    let token = read_token mem 4 hd.token_length in
    if n == 4
    then some (copy_message hd 0 [] [] 0 now h)
    else if n == offset
    then some (copy_message hd token [] [] 0 now h)
    else finish mem n offset hd token now
        (parse_options_from_raw (from offset mem) (u16 (n + 65536 - offset)) [] h)

-- `none` is no result of the source: the fuel of the options' loop ran out.
unfoldable pub parse_message_from_datagram : Memory → ℕ → ℕ → Heap → Option MessageState
unfolding parse_body
parse_message_from_datagram mem n now h = parse_body mem n now h (parse_header mem n)
