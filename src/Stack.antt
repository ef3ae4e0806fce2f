-- ===== src/Stack.antt =====
-- The state of the stack, and the sending of messages: CoAP_SendMsg, CoAP_SendShortResp,
-- CoAP_SendEmptyAck and CoAP_SendEmptyRST of coap/server/lobaro-coap/coap_message.c.
use sming_coap.Base.{
  ℕ, ◌%◌, Bool, true, false, List, ◌∷◌, Option, none, some, and_then, leb, if◌then◌else◌, length,
  take,
}
use sming_coap.Heap.{Heap, mem_get, mem_release}
use sming_coap.CoapResult.{CoapResult, ok, not_found, err_network, err_out_of_memory}
use sming_coap.Endpoint.{NetEp}
use sming_coap.Message.{Message, MessageType, ack, init_to_empty_reset_msg}
use sming_coap.Message.Create.{Counters}
use sming_coap.Message.Build.{get_raw_size_of_message, build_datagram}
use sming_coap.Interaction.{Interaction}
use sming_coap.Resource.{Resource}

-- A packet that was handed to the network.
pub record Sent : Type 0 where
  pub if_id : ℕ
  pub receiver : NetEp
  pub bytes : List ℕ

-- The network driver. `socket i` is the socket that RetrieveSocket2 finds for interface `i`: `none`
-- is NULL, and otherwise it says whether the socket has a function to send with. `transmit k p` is
-- what this function answers to the k-th packet; the log is newest first.
pub record Network : Type 0 where
  pub socket : ℕ → Option Bool
  pub transmit : ℕ → Sent → Bool
  pub log : List Sent

-- `now` is the value of hal_rtc_1Hz_Cnt, which stays the same within an operation. `calls` counts
-- the calls of the application's functions, and `delivered` holds the responses that were handed to
-- a client's callback, newest first.
pub record Stack : Type 0 where
  pub interactions : List Interaction
  pub resources : List Resource
  pub counters : Counters
  pub heap : Heap
  pub network : Network
  pub now : ℕ
  pub calls : ℕ
  pub delivered : List (Message × NetEp)

abbrev pub put_packet : Sent → Network → Network
put_packet p n = record n { log = p ∷ n.log }

-- The result code, the message after it was sent, and the stack.
abbrev pub SendState : Type 0
SendState = CoapResult × Message × Stack

-- The packet of a built datagram is handed over; `give_back` releases its buffer. The time stamp is
-- set if the network takes the packet.
unfoldable pub transmit_datagram :
    (Heap → Heap) → ℕ → ℕ → NetEp → List ℕ × Message × ℕ → Stack → SendState
transmit_datagram give_back size if_id ep (bytes, m, built) s =
    let p : Sent = record { if_id = if_id; receiver = ep; bytes = take size bytes } in
    let s' = record s { network = put_packet p s.network; heap = give_back s.heap } in
    if s.network.transmit (length s.network.log) p
    then (ok, record m { timestamp = s.now }, s')
    else (err_network, m, s')

-- What follows the request for the datagram's buffer.
unfoldable pub send_in_buffer : Message → ℕ → ℕ → NetEp → Stack → Bool × Heap → SendState
unfolding build_datagram transmit_datagram mem_release
send_in_buffer m size if_id ep s (false, h) = (err_out_of_memory, m, record s { heap = h })
send_in_buffer m size if_id ep s (true, h) =
    transmit_datagram mem_release size if_id ep (build_datagram m) (record s { heap = h })

-- On a socket with or without a function to send with. Datagrams of up to 16 bytes are built on the
-- stack, longer ones in a block.
unfoldable pub send_through : Message → ℕ → NetEp → Stack → Bool → SendState
unfolding get_raw_size_of_message build_datagram transmit_datagram send_in_buffer mem_get
send_through m if_id ep s has_tx =
    let size = get_raw_size_of_message m % 65536 in
    if has_tx
    then (if leb size 16
        then transmit_datagram (λ h. h) size if_id ep (build_datagram m) s
        else send_in_buffer m size if_id ep s (mem_get size s.heap))
    else (not_found, m, s)

-- The function to send with is read from the socket that is found; `none` is a read through the NULL
-- pointer.
unfoldable pub send_msg : Message → ℕ → NetEp → Stack → Option SendState
unfolding send_through
send_msg m if_id ep s = elim (s.network.socket if_id) [
  | none ↦ none
  | some has_tx ↦ some (send_through m if_id ep s has_tx)
]

-- The result without the message.
abbrev pub forget_message : SendState → Option (CoapResult × Stack)
forget_message (r, m, s) = some (r, s)

-- The message is on the C stack and forgotten afterwards.
unfoldable pub send_short_resp :
    MessageType → ℕ → ℕ → ℕ → ℕ → NetEp → Stack → Option (CoapResult × Stack)
unfolding send_msg init_to_empty_reset_msg
send_short_resp type code id token if_id ep s = and_then forget_message (
    send_msg
      (record init_to_empty_reset_msg { type = type; code = code; message_id = id; token = token })
      if_id ep s)

unfoldable pub send_empty_ack : ℕ → ℕ → NetEp → Stack → Option (CoapResult × Stack)
unfolding send_msg init_to_empty_reset_msg
send_empty_ack id if_id ep s =
    and_then forget_message
      (send_msg (record init_to_empty_reset_msg { type = ack; message_id = id }) if_id ep s)

unfoldable pub send_empty_rst : ℕ → ℕ → NetEp → Stack → Option (CoapResult × Stack)
unfolding send_msg init_to_empty_reset_msg
send_empty_rst id if_id ep s =
    and_then forget_message
      (send_msg (record init_to_empty_reset_msg { message_id = id }) if_id ep s)
