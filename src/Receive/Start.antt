-- ===== src/Receive/Start.antt =====
-- CoAP_StartNewClientInteraction and CoAP_StartNewServerInteraction of
-- coap/server/lobaro-coap/coap_interaction.c.
use sming_coap.Base.{
  ℕ, List, [], ◌∷◌, Bool, true, false, ◌&&◌, Option, none, some, ◌==◌, if◌then◌else◌, and_then,
}
use sming_coap.Heap.{Heap, mem_get}
use sming_coap.CoapResult.{CoapResult, ok, err_argument, err_out_of_memory, err_existing}
use sming_coap.Endpoint.{NetEp, ep_are_equal}
use sming_coap.Message.{Message, msg_is_request, is_con}
use sming_coap.Interaction.{
  Interaction, server, client, InteractionState, handle_request, ready_to_request,
  resource_postpone_empty_ack_sent, sizeof_interaction, new_interaction, append_interaction_to_list,
}
use sming_coap.Stack.{Stack, send_empty_ack}

-- The new interaction is put at the end of the list, if there is memory for it.
unfoldable pub start_interaction : Interaction → Stack → Bool × Heap → CoapResult × Stack
unfolding append_interaction_to_list
start_interaction ia s (false, h) = (err_out_of_memory, record s { heap = h })
start_interaction ia s (true, h) =
    (ok, record s { heap = h; interactions = append_interaction_to_list s.interactions ia })

-- `none` is the NULL pointer.
unfoldable pub start_new_client_interaction :
    Option Message → ℕ → NetEp → Bool → Stack → CoapResult × Stack
unfolding start_interaction msg_is_request mem_get new_interaction
start_new_client_interaction none if_id ep cb s = (err_argument, s)
start_new_client_interaction (some req) if_id ep cb s =
    if msg_is_request req
    then start_interaction
        (record (new_interaction ep) {
          req_msg = some req;
          if_id = if_id;
          resp_cb = cb;
          role = client;
          state = ready_to_request;
        })
        s (mem_get sizeof_interaction s.heap)
    else (err_argument, s)

-- The id of the request, whose pointer is not tested, and the endpoint are these.
unfoldable pub comes_from : ℕ → NetEp → NetEp → Option Message → Option Bool
unfolding ep_are_equal
comes_from id ep remote_ep none = none
comes_from id ep remote_ep (some m) = some ((m.message_id == id) && ep_are_equal remote_ep ep)

-- A server interaction for a request with this id from this endpoint and interface; `none` is a read
-- through the NULL pointer.
unfoldable pub is_same_request : ℕ → ℕ → NetEp → Interaction → Option Bool
unfolding comes_from
is_same_request id if_id ep ia = elim ia.role [
  | server ↦ if ia.if_id == if_id then comes_from id ep ia.remote_ep ia.req_msg else some false
  | _ ↦ some false
]

unfoldable pub find_same_request : ℕ → ℕ → NetEp → List Interaction → Option (Option Interaction)
unfolding is_same_request
find_same_request id if_id ep [] = some none
find_same_request id if_id ep (ia ∷ ias) =
    let rest = find_same_request id if_id ep ias in
    and_then (λ same. if same then some (some ia) else rest) (is_same_request id if_id ep ia)

abbrev pub is_postponed : InteractionState → Bool
is_postponed resource_postpone_empty_ack_sent = true
is_postponed _ = false

unfoldable pub acknowledge_again : Interaction → Stack → Option Message → Option Stack
unfolding send_empty_ack is_con
acknowledge_again ia s none = none
acknowledge_again ia s (some m) =
    if is_con m.type && is_postponed ia.state
    then and_then (λ x. some x.1) (send_empty_ack m.message_id ia.if_id ia.remote_ep s)
    else some s

-- A request that was acknowledged by an empty message before is acknowledged once more.
abbrev pub answer_again : Interaction → Stack → Option Stack
answer_again ia s = acknowledge_again ia s ia.req_msg

-- The interaction of a request that was found, if any, or a new one.
unfoldable pub start_unless :
    Option Interaction
    → Message
    → Option ℕ
    → ℕ
    → NetEp
    → Option (ℕ × ℕ)
    → Stack
    → Option (CoapResult × Stack)
unfolding start_interaction acknowledge_again mem_get new_interaction
start_unless (some ia) req resource if_id ep meta s =
    and_then (λ t. some (err_existing, t)) (answer_again ia s)
start_unless none req resource if_id ep meta s = some (
    start_interaction
      (record (new_interaction ep) {
        if_id = if_id;
        resource = resource;
        role = server;
        state = handle_request;
        meta_info = meta;
        req_msg = some req;
      })
      s (mem_get sizeof_interaction s.heap))

unfoldable pub start_new_server_interaction :
    Message → Option ℕ → ℕ → NetEp → Option (ℕ × ℕ) → Stack → Option (CoapResult × Stack)
unfolding start_unless find_same_request msg_is_request
start_new_server_interaction req resource if_id ep meta s =
    if msg_is_request req
    then and_then (λ found. start_unless found req resource if_id ep meta s)
        (find_same_request req.message_id if_id ep s.interactions)
    else some (err_argument, s)
