-- ===== src/Receive/Packet.antt =====
-- CoAP_onNewPacketHandler of coap/server/lobaro-coap/coap_main.c.
use sming_coap.Base.{
  ℕ, zero, suc, List, [], ◌∷◌, Bool, true, false, ◌&&◌, not, Option, none, some, ◌==◌,
  if◌then◌else◌, and_then, Memory, get_elem?,
}
use sming_coap.CoapResult.{is_ok, is_out_of_memory, CoapResult}
use sming_coap.Endpoint.{NetEp, ep_are_equal}
use sming_coap.Options.{check_for_unknown_critical_option}
use sming_coap.Message.{
  is_con, Message, MessageType, con, non, ack, rst, empty_code, resp_not_found_4_04,
  resp_bad_option_4_02, resp_internal_server_error_5_00, msg_is_request, free_message,
}
use sming_coap.Message.Create.{get_next_mid}
use sming_coap.Message.Parse.{MessageState, parse_message_from_datagram}
use sming_coap.Interaction.{
  Interaction, InteractionRole, client, InteractionState, waiting_response, handle_response,
  ack_set, rst_set, apply_reliability_state_to_interaction,
}
use sming_coap.Resource.{Resource, find_resource_by_uri}
use sming_coap.Stack.{Stack, send_short_resp, send_empty_rst}
use sming_coap.Receive.Start.{start_new_server_interaction}

-- Where a packet came from: the interface, the sender, and the meta information of a radio path.
pub record Origin : Type 0 where
  pub if_id : ℕ
  pub sender : NetEp
  pub meta_info : Option (ℕ × ℕ)

-- The label END: the message is not used and is released.
unfoldable pub drop_message : Message → Stack → Stack
unfolding free_message
drop_message m s = record s { heap = free_message (some m) s.heap }

-- A short answer, then END.
unfoldable pub answer : MessageType → ℕ → ℕ → Origin → Message → Stack → Option Stack
unfolding send_short_resp drop_message
answer type code id from m s =
    and_then (λ x. some (drop_message m x.1))
      (send_short_resp type code id m.token from.if_id from.sender s)

-- An unknown resource was requested.
unfoldable pub answer_not_found : Origin → Message → Stack → Option Stack
unfolding answer get_next_mid
answer_not_found from m s =
    if is_con m.type
    then answer ack resp_not_found_4_04 m.message_id from m s
    else (let (mid, c) = get_next_mid s.counters in
        answer non resp_not_found_4_04 mid from m (record s { counters = c }))

unfoldable pub reset : Origin → Message → Stack → Option Stack
unfolding send_empty_rst drop_message
reset from m s =
    and_then (λ x. some (drop_message m x.1)) (send_empty_rst m.message_id from.if_id from.sender s)

-- The message has an unknown critical option.
unfoldable pub answer_bad_option : Origin → Message → Stack → Option Stack
unfolding answer reset drop_message msg_is_request
answer_bad_option from m s =
    if is_con m.type
    then (if msg_is_request m
        then answer ack resp_bad_option_4_02 m.message_id from m s
        else reset from m s)
    else some (drop_message m s)

-- The interaction at a position is changed.
abbrev pub update_at : ℕ → (Interaction → Interaction) → List Interaction → List Interaction
update_at i f [] = []
update_at zero f (ia ∷ ias) = f ia ∷ ias
update_at (suc i) f (ia ∷ ias) = ia ∷ update_at i f ias

-- The interaction gets the response; an older one that it has is released.
unfoldable pub attach_response : ℕ → Interaction → Message → Stack → Stack
unfolding free_message
attach_response i ia m s = record s {
  heap = free_message ia.resp_msg s.heap;
  interactions =
      update_at i (λ ib. record ib { resp_msg = some m; state = handle_response }) s.interactions;
}

-- The token of a request, whose pointer is not tested; `none` is a read through the NULL pointer.
unfoldable pub has_token : Option Message → ℕ → Option Bool
has_token none token = none
has_token (some m) token = some (m.token == token)

abbrev pub is_waiting : InteractionState → Bool
is_waiting waiting_response = true
is_waiting _ = false

abbrev pub is_waiting_or_handling : InteractionState → Bool
is_waiting_or_handling waiting_response = true
is_waiting_or_handling handle_response = true
is_waiting_or_handling _ = false

abbrev pub is_client : InteractionRole → Bool
is_client client = true
is_client _ = false

unfoldable pub on_reset : Origin → Message → Stack → Stack
unfolding apply_reliability_state_to_interaction drop_message
on_reset from m s =
    let applied =
      apply_reliability_state_to_interaction s.interactions rst_set m.message_id from.sender in
    drop_message m (record s { interactions = applied.0 })

-- An acknowledgement with a response is meant for a client that waits for it.
unfoldable pub piggybacked : Message → Stack → ℕ → Option Interaction → Option Stack
unfolding attach_response drop_message has_token
piggybacked m s i none = some (drop_message m s)
piggybacked m s i (some ia) =
    if not (m.code == empty_code) && is_client ia.role
    then and_then
        (λ same.
          if same && is_waiting ia.state
          then some (attach_response i ia m s)
          else some (drop_message m s))
        (has_token ia.req_msg m.token)
    else some (drop_message m s)

unfoldable pub acknowledged : Message → Stack → Option ℕ → Option Stack
unfolding piggybacked drop_message
acknowledged m s none = some (drop_message m s)
acknowledged m s (some i) = piggybacked m s i (get_elem? s.interactions i)

unfoldable pub on_ack : Origin → Message → Stack → Option Stack
unfolding apply_reliability_state_to_interaction acknowledged
on_ack from m s =
    let applied =
      apply_reliability_state_to_interaction s.interactions ack_set m.message_id from.sender in
    acknowledged m (record s { interactions = applied.0 }) applied.1

unfoldable pub after_start : Origin → Message → CoapResult × Stack → Option Stack
unfolding answer drop_message
after_start from m (r, s) =
    if is_ok r
    then some s
    else if is_out_of_memory r && is_con m.type
    then answer ack resp_internal_server_error_5_00 m.message_id from m s
    else some (drop_message m s)

unfoldable pub is_requested : ℕ → NetEp → Interaction → Option Bool
unfolding has_token ep_are_equal
is_requested token ep ia =
    if is_client ia.role
    then and_then (λ same. some (same && ep_are_equal ep ia.remote_ep)) (has_token ia.req_msg token)
    else some false

abbrev pub one_further : Option (ℕ × Interaction) → Option (ℕ × Interaction)
one_further none = none
one_further (some (i, ia)) = some (suc i, ia)

-- The first client interaction whose request has the token and went to the sender; `none` is a read
-- through the NULL pointer.
unfoldable pub find_request : ℕ → NetEp → List Interaction → Option (Option (ℕ × Interaction))
unfolding is_requested
find_request token ep [] = some none
find_request token ep (ia ∷ ias) =
    let rest = find_request token ep ias in
    and_then
      (λ same. if same then some (some (0, ia)) else and_then (λ o. some (one_further o)) rest)
      (is_requested token ep ia)

unfoldable pub acknowledge_response : ℕ → CoapResult × Stack → Stack
acknowledge_response i (r, s) =
    if is_ok r
    then record s {
      interactions =
          update_at i (λ ib. record ib { resp_reliability_state = ack_set }) s.interactions;
    }
    else s

-- A response that does not come with an acknowledgement. It is attached only while the client
-- waits for it or has not handled it yet; in any other state it is not released either.
unfoldable pub separate_response :
    Origin → Message → Stack → Option (ℕ × Interaction) → Option Stack
unfolding answer attach_response acknowledge_response send_short_resp
separate_response from m s none = answer rst empty_code m.message_id from m s
separate_response from m s (some (i, ia)) =
    let s' = if is_waiting_or_handling ia.state then attach_response i ia m s else s in
    if is_con m.type
    then and_then (λ x. some (acknowledge_response i x))
        (send_short_resp ack empty_code m.message_id m.token from.if_id from.sender s')
    else some s'

-- Where the checks are passed, the message goes to a new or an existing interaction.
-- A request starts an interaction, and anything else is taken for a response.
unfoldable pub on_request_or_response : Origin → Message → Option ℕ → Stack → Option Stack
unfolding after_start separate_response find_request start_new_server_interaction msg_is_request
on_request_or_response from m resource s =
    if msg_is_request m
    then and_then (after_start from m)
        (start_new_server_interaction m resource from.if_id from.sender from.meta_info s)
    else and_then (separate_response from m s) (find_request m.token from.sender s.interactions)

unfoldable pub dispatch_as : MessageType → Origin → Message → Option ℕ → Stack → Option Stack
unfolding on_reset on_ack on_request_or_response
dispatch_as rst from m resource s = some (on_reset from m s)
dispatch_as ack from m resource s = on_ack from m s
dispatch_as non from m resource s = on_request_or_response from m resource s
dispatch_as con from m resource s = on_request_or_response from m resource s

abbrev pub dispatch : Origin → Message → Option ℕ → Stack → Option Stack
dispatch from m resource s = dispatch_as m.type from m resource s

unfoldable pub check_options : Origin → Message → Option ℕ → Stack → Option Stack
unfolding answer_bad_option dispatch_as check_for_unknown_critical_option
check_options from m resource s =
    if check_for_unknown_critical_option m.options == 0
    then dispatch from m resource s
    else answer_bad_option from m s

unfoldable pub with_handler : ℕ → Option Resource → Option ℕ
with_handler i none = none
with_handler i (some r) = elim r.handler [ none ↦ none | some f ↦ some i ]

-- The resource of a request; it needs a handler.
unfoldable pub known_resource : List Resource → Option ℕ → Option ℕ
unfolding with_handler
known_resource rs none = none
known_resource rs (some i) = with_handler i (get_elem? rs i)

unfoldable pub check_resource : Origin → Message → Stack → Option ℕ → Option Stack
unfolding answer_not_found check_options
check_resource from m s none = answer_not_found from m s
check_resource from m s (some i) = check_options from m (some i) s

-- Combinations of type and code that are ignored: a request in an acknowledgement, and a reset that
-- is not empty.
unfoldable pub is_bad_combination : Message → Bool
unfolding msg_is_request
is_bad_combination m = elim m.type [
  | ack ↦ msg_is_request m
  | rst ↦ not (m.code == empty_code)
  | _ ↦ false
]

unfoldable pub is_ping : Message → Bool
is_ping m = elim m.type [ con ↦ m.code == empty_code | _ ↦ false ]

unfoldable pub handle_message : Origin → Message → Stack → Option Stack
unfolding is_ping is_bad_combination reset drop_message check_resource check_options known_resource
    find_resource_by_uri msg_is_request
handle_message from m s =
    if is_ping m
    then reset from m s
    else if is_bad_combination m
    then some (drop_message m s)
    else if msg_is_request m
    then check_resource from m s
        (known_resource s.resources (find_resource_by_uri s.resources m.options))
    else check_options from m none s

-- A packet that is no message is ignored.
unfoldable pub after_parse : Origin → Stack → MessageState → Option Stack
unfolding handle_message
after_parse from s (r, none, h) = some (record s { heap = h })
after_parse from s (r, some m, h) = handle_message from m (record s { heap = h })

-- The fuel of the parser is enough; `none` is a read through a NULL pointer behind it.
unfoldable pub handle_parsed : Origin → Stack → Option MessageState → Option Stack
unfolding after_parse
handle_parsed from s none = none
handle_parsed from s (some p) = after_parse from s p

unfoldable pub on_new_packet_handler : Memory → ℕ → Origin → Stack → Option Stack
unfolding handle_parsed parse_message_from_datagram
on_new_packet_handler mem n from s =
    handle_parsed from s (parse_message_from_datagram mem n s.now s.heap)
