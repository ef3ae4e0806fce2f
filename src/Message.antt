-- ===== src/Message.antt =====
-- The message of coap/server/lobaro-coap/coap_message.c and .h: its fields, its payload buffer and
-- the operations on one message. Parsing, building and sending are in the child modules.
pub mod Create
pub mod Parse
pub mod Build
pub mod Size
pub mod Token
pub mod Sendable
pub mod RoundTrip
pub mod Refused
pub mod Bounds
pub mod Accounting
pub mod Overread
use sming_coap.Base.{
  ℕ, zero, suc, ◌+◌, ◌-◌, ◌*◌, ◌/◌, ◌%◌, ◌^◌, Bool, true, false, not, ◌&&◌, ◌||◌, List, [], ◌∷◌,
  ◌++◌, Option, none, some, ltb, leb, ◌==◌, if◌then◌else◌, length, take, drop,
}
use sming_coap.Heap.{Heap, mem_get, mem_release}
use sming_coap.CoapResult.{CoapResult, ok, err_out_of_memory}
use sming_coap.Options.{CoapOption, free_option_list}

pub data MessageType : Type 0 where
  con non ack rst : MessageType

-- The number of a type in the header, and back for a field of two bits.
unfoldable pub type_bits : MessageType → ℕ
type_bits con = 0
type_bits non = 1
type_bits ack = 2
type_bits rst = 3

unfoldable pub type_of_bits : ℕ → MessageType
type_of_bits n = if n == 0 then con else if n == 1 then non else if n == 2 then ack else rst

unfoldable pub is_con : MessageType → Bool
is_con con = true
is_con _ = false

-- `CODE(CLASS, CODE)`
abbrev pub code : ℕ → ℕ → ℕ
code class detail = class * 32 + detail

abbrev pub empty_code : ℕ
empty_code = code 0 0

abbrev pub req_get : ℕ
req_get = code 0 1

abbrev pub req_post : ℕ
req_post = code 0 2

abbrev pub req_put : ℕ
req_put = code 0 3

abbrev pub req_delete : ℕ
req_delete = code 0 4

abbrev pub resp_success_created_2_01 : ℕ
resp_success_created_2_01 = code 2 1

abbrev pub resp_success_content_2_05 : ℕ
resp_success_content_2_05 = code 2 5

abbrev pub resp_error_bad_request_4_00 : ℕ
resp_error_bad_request_4_00 = code 4 0

abbrev pub resp_bad_option_4_02 : ℕ
resp_bad_option_4_02 = code 4 2

abbrev pub resp_not_found_4_04 : ℕ
resp_not_found_4_04 = code 4 4

abbrev pub resp_method_not_allowed_4_05 : ℕ
resp_method_not_allowed_4_05 = code 4 5

abbrev pub resp_internal_server_error_5_00 : ℕ
resp_internal_server_error_5_00 = code 5 0

abbrev pub resp_service_unavailable_5_03 : ℕ
resp_service_unavailable_5_03 = code 5 3

abbrev pub max_payload_size : ℕ
max_payload_size = 256

abbrev pub prefered_payload_size : ℕ
prefered_payload_size = 64

abbrev pub coap_version : ℕ
coap_version = 1

-- `sizeof(CoAP_Message_t)` on the 32-bit target.
abbrev pub sizeof_message : ℕ
sizeof_message = 40

-- Where the payload pointer points, with the bytes of the buffer: nowhere, into the message's own
-- block, to a block of its own, or outside the memory that the allocator manages.
pub data Payload : Type 0 where
  null : Payload
  in_message : List ℕ → Payload
  in_block : List ℕ → Payload
  external : List ℕ → Payload

unfoldable pub payload_bytes : Payload → List ℕ
payload_bytes null = []
payload_bytes (in_message bs) = bs
payload_bytes (in_block bs) = bs
payload_bytes (external bs) = bs

pub record Message : Type 0 where
  pub timestamp : ℕ
  pub type : MessageType
  pub code : ℕ
  pub message_id : ℕ
  pub payload_length : ℕ
  pub payload_buf_size : ℕ
  pub token : ℕ
  pub options : List CoapOption
  pub payload : Payload

unfoldable pub init_to_empty_reset_msg : Message
init_to_empty_reset_msg = record {
  timestamp = 0;
  type = rst;
  code = empty_code;
  message_id = 0;
  payload_length = 0;
  payload_buf_size = 0;
  token = 0;
  options = [];
  payload = null;
}

unfoldable pub get_token_byte_count : ℕ → ℕ
get_token_byte_count token =
    if token == 0
    then 0
    else if leb token 0xff
    then 1
    else if leb token 0xffff
    then 2
    else if leb token 0xffffff
    then 3
    else if leb token 0xffffffff
    then 4
    else if leb token 0xffffffffff
    then 5
    else if leb token 0xffffffffffff
    then 6
    else if leb token 0xffffffffffffff
    then 7
    else 8

unfoldable pub msg_is_request : Message → Bool
msg_is_request m = not (m.code == empty_code) && leb m.code req_delete

unfoldable pub msg_is_response : Message → Bool
msg_is_response m = not (m.code == empty_code) && leb resp_success_created_2_01 m.code

-- `hal_rtc_1Hz_Cnt() - Timestamp > timespan`, in uint32_t.
unfoldable pub msg_is_older_than : ℕ → Message → ℕ → Bool
msg_is_older_than now m timespan = ltb timespan ((now + 2 ^ 32 - m.timestamp) % 2 ^ 32)

-- Only a payload in a block of its own is released.
unfoldable pub free_msg_payload : Message → Heap → Message × Heap
unfolding mem_release
free_msg_payload m h = elim m.payload [
  | null ↦ (m, h)
  | in_message bs ↦ (m, h)
  | in_block bs ↦ (record m { payload = null; payload_buf_size = 0 }, mem_release h)
  | external bs ↦ (m, h)
]

-- NULL is not a message to free.
unfoldable pub free_message : Option Message → Heap → Heap
unfolding free_msg_payload mem_release free_option_list
free_message none h = h
free_message (some m) h = mem_release (free_msg_payload m (free_option_list m.options h)).1
