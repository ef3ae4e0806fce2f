-- ===== src/Interaction.antt =====
-- Interactions and their list: coap/server/lobaro-coap/coap_interaction.c and .h. A pointer to an
-- interaction is its position in the list CoAP.pInteractions.
pub mod Search
use sming_coap.Base.{
  ℕ, zero, suc, ◌+◌, ◌*◌, ◌%◌, ◌^◌, Bool, true, false, ◌&&◌, ◌||◌, List, [], ◌∷◌, ◌++◌, Option,
  none, some, ltb, ◌==◌, if◌then◌else◌, length, get_elem?, remove_at,
}
use sming_coap.Heap.{Heap, mem_get, mem_release}
use sming_coap.CoapResult.{CoapResult, ok, not_found}
use sming_coap.Endpoint.{NetEp, ep_are_equal}
use sming_coap.Message.{Message, free_message}

pub data InteractionRole : Type 0 where
  role_not_set server notification client : InteractionRole

pub data InteractionState : Type 0 where
  state_not_set : InteractionState
  handle_request resource_postpone_empty_ack_sent response_sent : InteractionState
  ready_to_notify notification_sent : InteractionState
  ready_to_request waiting_response handle_response : InteractionState
  finished : InteractionState

pub data ReliabilityState : Type 0 where
  not_set ack_set rst_set : ReliabilityState

-- `resource` is the position of the resource in its list, `none` for NULL. `meta_info` holds the
-- hop count and the byte of the signal strength that a radio path came with. `resp_cb` says
-- whether there is a callback.
pub record Interaction : Type 0 where
  pub role : InteractionRole
  pub state : InteractionState
  pub resource : Option ℕ
  pub remote_ep : NetEp
  pub if_id : ℕ
  pub update_pending_notification : Bool
  pub retrans_counter : ℕ
  pub ack_timeout : ℕ
  pub sleep_until : ℕ
  pub req_msg : Option Message
  pub req_reliability_state : ReliabilityState
  pub meta_info : Option (ℕ × ℕ)
  pub resp_msg : Option Message
  pub resp_reliability_state : ReliabilityState
  pub resp_cb : Bool

abbrev pub ack_timeout_base : ℕ
ack_timeout_base = 2

abbrev pub max_retransmit : ℕ
max_retransmit = 4

abbrev pub holdtime_after_non_transaction_end : ℕ
holdtime_after_non_transaction_end = 0

abbrev pub postpone_wait_time : ℕ
postpone_wait_time = 3

abbrev pub postpone_max_wait_time : ℕ
postpone_max_wait_time = 30

abbrev pub client_max_resp_wait_time : ℕ
client_max_resp_wait_time = 45

-- `sizeof(CoAP_Interaction_t)` on the 32-bit target.
abbrev pub sizeof_interaction : ℕ
sizeof_interaction = 100

-- What CoAP_AllocNewInteraction sets; the zeroed endpoint is the caller's to overwrite.
unfoldable pub new_interaction : NetEp → Interaction
new_interaction ep = record {
  role = role_not_set;
  state = state_not_set;
  resource = none;
  remote_ep = ep;
  if_id = 0;
  update_pending_notification = false;
  retrans_counter = 0;
  ack_timeout = 0;
  sleep_until = 0;
  req_msg = none;
  req_reliability_state = not_set;
  meta_info = none;
  resp_msg = none;
  resp_reliability_state = not_set;
  resp_cb = false;
}

-- Both messages and the interaction's own block are released.
unfoldable pub free_interaction : Interaction → Heap → Heap
unfolding free_message mem_release
free_interaction ia h = mem_release (free_message ia.resp_msg (free_message ia.req_msg h))

free_unlinked : Bool → Interaction → Heap → Heap
unfolding free_interaction
free_unlinked free ia h = if free then free_interaction ia h else h

-- A pointer that is not in the list does nothing.
unfoldable pub unlink_interaction_from_list :
    List Interaction → ℕ → Bool → Heap → List Interaction × Heap
unfolding free_unlinked
unlink_interaction_from_list [] place free h = ([], h)
unlink_interaction_from_list (ia ∷ ias) zero free h = (ias, free_unlinked free ia h)
unlink_interaction_from_list (ia ∷ ias) (suc place) free h =
    let rest = unlink_interaction_from_list ias place free h in (ia ∷ rest.0, rest.1)

-- The pointer is not NULL and its message has this id.
unfoldable pub has_message_id : Option Message → ℕ → Bool
has_message_id none id = false
has_message_id (some m) id = m.message_id == id

-- The first interaction on the interface with the endpoint whose request or response has the id.
unfoldable pub unlink_interaction_from_list_by_id :
    List Interaction → ℕ → ℕ → NetEp → Bool → Heap → CoapResult × List Interaction × Heap
unfolding has_message_id free_unlinked ep_are_equal
unlink_interaction_from_list_by_id [] id if_id ep free h = (not_found, [], h)
unlink_interaction_from_list_by_id (ia ∷ ias) id if_id ep free h =
    let rest = unlink_interaction_from_list_by_id ias id if_id ep free h in
    if (ia.if_id == if_id)
      && ((has_message_id ia.req_msg id || has_message_id ia.resp_msg id)
          && ep_are_equal ia.remote_ep ep)
    then (ok, ias, free_unlinked free ia h)
    else (rest.0, ia ∷ rest.1, rest.2)

unfoldable pub append_interaction_to_list : List Interaction → Interaction → List Interaction
append_interaction_to_list ias ia = ias ++ (ia ∷ [])

-- The interaction at a position goes to the end.
unfoldable pub move_interaction_to_list_end : List Interaction → ℕ → Interaction → List Interaction
unfolding append_interaction_to_list
move_interaction_to_list_end ias place ia = append_interaction_to_list (remove_at place ias) ia

unfoldable pub set_sleep_interaction : ℕ → Interaction → ℕ → Interaction
set_sleep_interaction now ia seconds = record ia { sleep_until = (now + seconds) % 2 ^ 32 }

-- `waitTime` after `i` rounds of the loop, in uint32_t.
unfoldable pub wait_time : ℕ → ℕ
wait_time zero = ack_timeout_base
wait_time (suc i) = wait_time i * ack_timeout_base % 2 ^ 32

unfoldable pub enable_ack_timeout : ℕ → Interaction → ℕ → Interaction
unfolding wait_time
enable_ack_timeout now ia retry_num = record ia {
  ack_timeout = (now + wait_time retry_num) % 2 ^ 32;
}

-- The head of the list is the longest pending one; `none` is NULL.
unfoldable pub get_longest_pending_interaction : List Interaction → Option Interaction
get_longest_pending_interaction [] = none
get_longest_pending_interaction (ia ∷ ias) = some ia

-- The loop that looks at an element only if there is a next one.
unfoldable pub search_before_last : List Interaction → ℕ → Option Interaction
unfolding has_message_id
search_before_last [] id = none
search_before_last (ia ∷ []) id = none
search_before_last (ia ∷ (ib ∷ ias)) id =
    let rest = search_before_last (ib ∷ ias) id in
    if has_message_id ia.req_msg id then some ia else rest

unfoldable pub get_interaction_by_message_id : List Interaction → ℕ → Option Interaction
unfolding has_message_id search_before_last
get_interaction_by_message_id [] id = none
get_interaction_by_message_id (ia ∷ ias) id =
    if has_message_id ia.req_msg id then some ia else search_before_last (ia ∷ ias) id

-- The RST or ACK is meant for the interaction if the message that its role sends confirmable has the
-- id: the response, or a client's request.
unfoldable pub apply_as :
    InteractionRole → ReliabilityState → Bool → Bool → Interaction → Option Interaction
apply_as role_not_set r resp req ia = none
apply_as server r resp req ia =
    if resp then some (record ia { resp_reliability_state = r }) else none
apply_as notification r resp req ia =
    if resp then some (record ia { resp_reliability_state = r }) else none
apply_as client r resp req ia = if req then some (record ia { req_reliability_state = r }) else none

unfoldable pub apply_to_interaction :
    ReliabilityState → ℕ → NetEp → Interaction → Option Interaction
unfolding has_message_id ep_are_equal apply_as
apply_to_interaction r id ep ia =
    apply_as ia.role r (has_message_id ia.resp_msg id && ep_are_equal ep ia.remote_ep)
      (has_message_id ia.req_msg id && ep_are_equal ep ia.remote_ep) ia

later_place : Option ℕ → Option ℕ
later_place none = none
later_place (some i) = some (suc i)

-- The changed interaction, or what the rest of the list gives.
unfoldable pub applied_or_rest :
    Interaction
    → List Interaction
    → Option Interaction
    → List Interaction × Option ℕ
    → List Interaction × Option ℕ
unfolding later_place
applied_or_rest ia ias none rest = (ia ∷ rest.0, later_place rest.1)
applied_or_rest ia ias (some ib) rest = (ib ∷ ias, some 0)

-- The list afterwards, and the position of the interaction that was found.
unfoldable pub apply_reliability_state_to_interaction :
    List Interaction → ReliabilityState → ℕ → NetEp → List Interaction × Option ℕ
unfolding apply_to_interaction applied_or_rest
apply_reliability_state_to_interaction [] r id ep = ([], none)
apply_reliability_state_to_interaction (ia ∷ ias) r id ep =
    applied_or_rest ia ias (apply_to_interaction r id ep ia)
      (apply_reliability_state_to_interaction ias r id ep)
