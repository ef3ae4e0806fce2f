-- ===== src/Work.antt =====
-- What the steps of the state machine in coap/server/lobaro-coap/coap_main.c share: SendResp,
-- SendReq, CheckRespStatus and CheckReqStatus. The step works on the head of the list of
-- interactions. `none` stands for an access through the NULL pointer, also by the arguments of a log
-- line.
pub mod WellFormed
pub mod Sent
pub mod Stored
pub mod Keeps
pub mod ClientStep
pub mod Observed
pub mod Serving
pub mod ServerStep
pub mod NotifyStep
pub mod Sound
pub mod OutOfMemory
pub mod Unsent
pub mod GiveUp
pub mod Client
pub mod Notify
pub mod Observation
pub mod Server
pub mod DoWork
use sming_coap.Base.{
  ℕ, zero, suc, ◌+◌, ◌%◌, Bool, true, false, List, [], ◌∷◌, Option, none, some, ltb, if◌then◌else◌,
  and_then,
}
use sming_coap.Heap.{Heap}
use sming_coap.CoapResult.{
  CoapResult, is_ok, ok, err_remote_rst, holding_back, err_out_of_attempts, retry, waiting,
  err_argument, err_timeout,
}
use sming_coap.Message.{Message, MessageType, con, non, ack, rst, msg_is_older_than}
use sming_coap.Interaction.{
  Interaction, InteractionState, ReliabilityState, not_set, ack_set, rst_set, max_retransmit,
  holdtime_after_non_transaction_end, client_max_resp_wait_time, enable_ack_timeout,
  move_interaction_to_list_end, unlink_interaction_from_list,
}
use sming_coap.Stack.{Stack, SendState, send_msg}

-- The interactions behind the head.
abbrev pub behind : List Interaction → List Interaction
behind [] = []
behind (ia ∷ ias) = ias

-- The head is stored as it is now.
abbrev pub put_head : Interaction → Stack → Stack
put_head ia s = record s { interactions = ia ∷ behind s.interactions }

-- CoAP_EnqueueLastInteraction on the head.
unfoldable pub enqueue_last : Interaction → Stack → Stack
unfolding move_interaction_to_list_end
enqueue_last ia s = record s {
  interactions = move_interaction_to_list_end (ia ∷ behind s.interactions) 0 ia;
}

-- CoAP_DeleteInteraction on the head.
unfoldable pub delete_interaction : Interaction → Stack → Stack
unfolding unlink_interaction_from_list
delete_interaction ia s =
    let u = unlink_interaction_from_list (ia ∷ behind s.interactions) 0 true s.heap in
    record s { interactions = u.0; heap = u.1 }

-- The time for an acknowledgement is over: another attempt, or none any more.
unfoldable pub retry_status : ℕ → Interaction → CoapResult
retry_status now ia =
    if ltb ia.ack_timeout now
    then (if ltb max_retransmit (ia.retrans_counter + 1) then err_out_of_attempts else retry)
    else waiting

-- A reset by the other side comes before anything else.
unfoldable pub unless_reset : ReliabilityState → Option CoapResult → Option CoapResult
unless_reset rst_set status = some err_remote_rst
unless_reset not_set status = status
unless_reset ack_set status = status

unfoldable pub is_ack_set : ReliabilityState → Bool
is_ack_set ack_set = true
is_ack_set _ = false

-- The status of a response of a type, which is `old` if its time to be held is over.
unfoldable pub resp_status : MessageType → Bool → ℕ → Interaction → CoapResult
unfolding retry_status is_ack_set
resp_status con old now ia =
    if is_ack_set ia.resp_reliability_state then ok else retry_status now ia
resp_status non old now ia = if old then ok else holding_back
resp_status ack old now ia = if old then ok else holding_back
resp_status rst old now ia = err_argument

unfoldable pub check_resp_status : ℕ → Interaction → Option CoapResult
unfolding resp_status unless_reset
check_resp_status now ia = unless_reset ia.resp_reliability_state (elim ia.resp_msg [
  | none ↦ none
  | some m ↦
      some (resp_status m.type (msg_is_older_than now m holdtime_after_non_transaction_end) now ia)
])

-- The status of a request of a type, which is `old` if its time to wait for a response is over.
unfoldable pub req_status : MessageType → Bool → ℕ → Interaction → CoapResult
unfolding retry_status is_ack_set
req_status con old now ia =
    if is_ack_set ia.req_reliability_state
    then (if old then err_timeout else waiting)
    else retry_status now ia
req_status _ old now ia = if old then err_timeout else waiting

unfoldable pub check_req_status : ℕ → Interaction → Option CoapResult
unfolding req_status unless_reset
check_req_status now ia = unless_reset ia.req_reliability_state (elim ia.req_msg [
  | none ↦ none
  | some m ↦ some (req_status m.type (msg_is_older_than now m client_max_resp_wait_time) now ia)
])

-- A response that was sent: a piggybacked one acknowledges the request, a confirmable one waits.
unfoldable pub resp_sent_as :
    MessageType → ℕ → Interaction → Message → InteractionState → Interaction
unfolding enable_ack_timeout
resp_sent_as ack now ia m next = record ia {
  resp_msg = some m;
  req_reliability_state = ack_set;
  state = next;
}
resp_sent_as con now ia m next = record (enable_ack_timeout now ia ia.retrans_counter) {
  resp_msg = some m;
  state = next;
}
resp_sent_as non now ia m next = record ia { resp_msg = some m; state = next }
resp_sent_as rst now ia m next = record ia { resp_msg = some m; state = next }

abbrev pub resp_was_sent : ℕ → Interaction → Message → InteractionState → Interaction
resp_was_sent now ia m next = resp_sent_as m.type now ia m next

-- The log line of a response that was not sent reads the request's id before the interaction is
-- deleted.
unfoldable pub delete_logged : Option Message → Interaction → Stack → Option Stack
unfolding delete_interaction
delete_logged none ia s = none
delete_logged (some req) ia s = some (delete_interaction ia s)

unfoldable pub after_resp : Interaction → InteractionState → SendState → Option Stack
unfolding resp_sent_as enqueue_last delete_logged
after_resp ia next (r, m, s) =
    if is_ok r
    then some (enqueue_last (resp_was_sent s.now ia m next) s)
    else delete_logged ia.req_msg (record ia { resp_msg = some m }) s

unfoldable pub send_resp : Interaction → InteractionState → Stack → Option Stack
unfolding after_resp send_msg
send_resp ia next s = elim ia.resp_msg [
  | none ↦ none
  | some m ↦ and_then (after_resp ia next) (send_msg m ia.if_id ia.remote_ep s)
]

unfoldable pub req_sent_as :
    MessageType → ℕ → Interaction → Message → InteractionState → Interaction
unfolding enable_ack_timeout
req_sent_as con now ia m next = record (enable_ack_timeout now ia ia.retrans_counter) {
  req_msg = some m;
  state = next;
}
req_sent_as _ now ia m next = record ia { req_msg = some m; state = next }

abbrev pub req_was_sent : ℕ → Interaction → Message → InteractionState → Interaction
req_was_sent now ia m next = req_sent_as m.type now ia m next

unfoldable pub after_req : Interaction → InteractionState → SendState → Stack
unfolding req_sent_as enqueue_last delete_interaction
after_req ia next (r, m, s) =
    if is_ok r
    then enqueue_last (req_was_sent s.now ia m next) s
    else delete_interaction (record ia { req_msg = some m }) s

unfoldable pub send_req : Interaction → InteractionState → Stack → Option Stack
unfolding after_req send_msg
send_req ia next s = elim ia.req_msg [
  | none ↦ none
  | some m ↦ and_then (λ x. some (after_req ia next x)) (send_msg m ia.if_id ia.remote_ep s)
]

-- One more retransmission was made: the counter, a uint8_t, and the time to wait grow.
unfoldable pub count_retry : ℕ → Interaction → Interaction
unfolding enable_ack_timeout
count_retry now ia =
    let n = (ia.retrans_counter + 1) % 256 in
    enable_ack_timeout now (record ia { retrans_counter = n }) n

-- The response is sent again. The interaction stays at the head.
unfoldable pub after_resp_retry : Interaction → SendState → Option Stack
unfolding count_retry delete_logged
after_resp_retry ia (r, m, s) =
    if is_ok r
    then some (put_head (count_retry s.now (record ia { resp_msg = some m })) s)
    else delete_logged ia.req_msg (record ia { resp_msg = some m }) s

unfoldable pub resend_resp : Interaction → Stack → Option Stack
unfolding after_resp_retry send_msg
resend_resp ia s = elim ia.resp_msg [
  | none ↦ none
  | some m ↦ and_then (after_resp_retry ia) (send_msg m ia.if_id ia.remote_ep s)
]

unfoldable pub after_req_retry : Interaction → SendState → Stack
unfolding count_retry delete_interaction
after_req_retry ia (r, m, s) =
    if is_ok r
    then put_head (count_retry s.now (record ia { req_msg = some m })) s
    else delete_interaction (record ia { req_msg = some m }) s

unfoldable pub resend_req : Interaction → Stack → Option Stack
unfolding after_req_retry send_msg
resend_req ia s = elim ia.req_msg [
  | none ↦ none
  | some m ↦ and_then (λ x. some (after_req_retry ia x)) (send_msg m ia.if_id ia.remote_ep s)
]
