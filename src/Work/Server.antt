-- ===== src/Work/Server.antt =====
-- The server's part of CoAP_doWork in coap/server/lobaro-coap/coap_main.c.
use sming_coap.Base.{
  ℕ, suc, ◌+◌, ◌/◌, ◌%◌, ◌^◌, [], ◌∷◌, Bool, ◌&&◌, not, Option, none, some, and_then, leb, ◌==◌,
  if◌then◌else◌, get_elem?,
}
use sming_coap.Heap.{Heap}
use sming_coap.CoapResult.{CoapResult, is_ok, waiting, holding_back, retry}
use sming_coap.Options.{append_option_to_list}
use sming_coap.OptionTypes.Observe.{add_observe_option_to_msg}
use sming_coap.Message.{
  Message, con, ack, is_con, empty_code, req_get, req_delete, resp_method_not_allowed_4_05,
  resp_success_content_2_05, resp_internal_server_error_5_00, resp_service_unavailable_5_03,
  prefered_payload_size, msg_is_older_than,
}
use sming_coap.Message.Create.{alloc_resp_msg, get_next_mid}
use sming_coap.Interaction.{
  Interaction, InteractionState, handle_request, resource_postpone_empty_ack_sent, response_sent,
  ack_set, postpone_wait_time, postpone_max_wait_time, set_sleep_interaction,
}
use sming_coap.Resource.{
  Resource, HandlerResult, handler_ok, handler_postpone, handler_error, Handler,
}
use sming_coap.Stack.{Stack, send_empty_ack}
use sming_coap.Work.{
  enqueue_last, delete_interaction, put_head, is_ack_set, check_resp_status, send_resp, resend_resp,
}
use sming_coap.Work.Observation.{handle_observation_in_req}

-- One of the four methods whose bit `1 << code` is not set in the resource's flags.
unfoldable pub is_not_allowed : ℕ → ℕ → Bool
is_not_allowed code flags = (leb req_get code && leb code req_delete) && (flags / 2 ^ code % 2 == 0)

-- A response of the stack for the request; `none` is the NULL pointer.
unfoldable pub with_resp : Message → ℕ → ℕ → Interaction → Stack → Interaction × Stack
unfolding alloc_resp_msg
with_resp req code size ia s =
    let ((m, h), c) = alloc_resp_msg req code size s.counters s.heap in
    (record ia { resp_msg = m }, record s { heap = h; counters = c })

unfoldable pub refuse_method : Interaction × Stack → Option Stack
unfolding send_resp
refuse_method (ia, s) = send_resp ia response_sent s

-- The type, and where the request was acknowledged before, the id of the response.
unfoldable pub set_type : Interaction → Message → Message → Stack → Message × Stack
unfolding get_next_mid is_con
set_type ia req m s =
    if is_con req.type
    then (if is_ack_set ia.req_reliability_state
        then (let (mid, c) = get_next_mid s.counters in
            (record m { type = con; message_id = mid }, record s { counters = c }))
        else (record m { type = ack }, s))
    else (m, s)

-- The custom option with the hop count and the signal strength of the request.
unfoldable pub add_meta : Option (ℕ × ℕ) → Message × Stack → Message × Stack
unfolding append_option_to_list
add_meta none (m, s) = (m, s)
add_meta (some (hops, strength)) (m, s) =
    let u = append_option_to_list m.options 10000 (hops ∷ strength ∷ []) s.heap in
    (record m { options = u.1 }, record s { heap = u.2 })

-- An observation that was registered is acknowledged by an observe option.
unfoldable pub after_observation :
    Interaction → Message → Option (CoapResult × Stack) → Option (Interaction × Stack)
unfolding add_observe_option_to_msg
after_observation ia m none = none
after_observation ia m (some (r, s)) =
    if is_ok r
    then (let u = add_observe_option_to_msg m.options 0 s.heap in
        some (record ia { resp_msg = some (record m { options = u.1 }) }, record s { heap = u.2 }))
    else some (record ia { resp_msg = some m }, s)

unfoldable pub observe : Interaction → Message → Message × Stack → Option (Interaction × Stack)
unfolding handle_observation_in_req after_observation
observe ia req (m, s) =
    if (req.code == req_get) && (m.code == resp_success_content_2_05)
    then after_observation ia m (
        let ia' = record ia { resp_msg = some m } in handle_observation_in_req ia' (put_head ia' s))
    else some (record ia { resp_msg = some m }, s)

unfoldable pub transmit_resp : Option (Interaction × Stack) → Option Stack
unfolding send_resp
transmit_resp none = none
transmit_resp (some (ia, s)) = send_resp ia response_sent s

-- What follows the handler when there is a response to send.
unfoldable pub respond : Interaction → Message → Message → Stack → Option Stack
unfolding set_type add_meta observe transmit_resp
respond ia req m s = transmit_resp (observe ia req (add_meta ia.meta_info (set_type ia req m s)))

unfoldable pub after_empty_ack : Interaction → CoapResult × Stack → Stack
unfolding enqueue_last delete_interaction
after_empty_ack ia (r, s) =
    if is_ok r
    then enqueue_last
        (record ia {
          req_reliability_state = ack_set;
          state = resource_postpone_empty_ack_sent;
          sleep_until = (s.now + postpone_wait_time) % 2 ^ 32;
        })
        s
    else delete_interaction ia s

-- The handler needs more time: the request is acknowledged, then waited for, then given up.
unfoldable pub postpone : Interaction → Message → Message → Stack → Option Stack
unfolding send_empty_ack after_empty_ack respond set_sleep_interaction enqueue_last is_ack_set
    is_con
postpone ia req m s =
    let ia' = record ia { resp_msg = some m } in
    if is_con req.type && not (is_ack_set ia.req_reliability_state)
    then and_then (λ x. some (after_empty_ack ia' x))
        (send_empty_ack req.message_id ia.if_id ia.remote_ep s)
    else if msg_is_older_than s.now req postpone_max_wait_time
    then respond ia req (record m { code = resp_service_unavailable_5_03 }) s
    else some (enqueue_last (set_sleep_interaction s.now ia' postpone_wait_time) s)

-- The code that a handler forgot to set.
abbrev pub or_code : Message → ℕ → Message
or_code m code = if m.code == empty_code then record m { code = code } else m

unfoldable pub after_handler :
    Interaction → Message → Stack → HandlerResult × Message × Heap → Option Stack
unfolding respond postpone
after_handler ia req s (handler_ok, m, h) =
    respond ia req (or_code m resp_success_content_2_05) (record s { heap = h })
after_handler ia req s (handler_error, m, h) =
    respond ia req (or_code m resp_internal_server_error_5_00) (record s { heap = h })
after_handler ia req s (handler_postpone, m, h) = postpone ia req m (record s { heap = h })

-- Without a response the code of the response is read, unless the handler postpones: the request is
-- acknowledged, then waited for, and then the code is set through the NULL pointer.
unfoldable pub postpone_null : Interaction → Message → Stack → Option Stack
unfolding send_empty_ack after_empty_ack set_sleep_interaction enqueue_last is_ack_set is_con
postpone_null ia req s =
    if is_con req.type && not (is_ack_set ia.req_reliability_state)
    then and_then (λ x. some (after_empty_ack ia x))
        (send_empty_ack req.message_id ia.if_id ia.remote_ep s)
    else if msg_is_older_than s.now req postpone_max_wait_time
    then none
    else some (enqueue_last (set_sleep_interaction s.now ia postpone_wait_time) s)

unfoldable pub after_null :
    Interaction → Message → Stack → Option (HandlerResult × Heap) → Option Stack
unfolding postpone_null
after_null ia req s none = none
after_null ia req s (some (handler_ok, h)) = none
after_null ia req s (some (handler_error, h)) = none
after_null ia req s (some (handler_postpone, h)) = postpone_null ia req (record s { heap = h })

-- The handler is called on the response, which may be NULL.
unfoldable pub call_with :
    Interaction → Message → Stack → Option Handler → Option Message → Option Stack
unfolding after_handler after_null
call_with ia req s none resp = none
call_with ia req s (some f) none =
    after_null ia req (record s { calls = suc s.calls }) (f.on_null s.calls req s.heap)
call_with ia req s (some f) (some m) =
    after_handler ia req (record s { calls = suc s.calls }) (f.on_resp s.calls req m s.heap)

unfoldable pub call_handler : Message → Resource → Interaction × Stack → Option Stack
unfolding call_with
call_handler req r (ia, s) = call_with ia req s r.handler ia.resp_msg

-- A request that was postponed before has its response already.
unfoldable pub ensure_resp : Message → Interaction → Stack → Option Message → Interaction × Stack
unfolding with_resp
ensure_resp req ia s none = with_resp req empty_code prefered_payload_size ia s
ensure_resp req ia s (some m) = (ia, s)

unfoldable pub handle_with : Message → Resource → Interaction → Stack → Option Stack
unfolding is_not_allowed refuse_method with_resp call_handler ensure_resp
handle_with req r ia s =
    if is_not_allowed req.code r.flags
    then refuse_method (with_resp req resp_method_not_allowed_4_05 0 ia s)
    else call_handler req r (ensure_resp req ia s ia.resp_msg)

unfoldable pub handle_on : Message → Interaction → Stack → Option Resource → Option Stack
unfolding handle_with
handle_on req ia s none = none
handle_on req ia s (some r) = handle_with req r ia s

-- The pointers to the request and to the resource are followed.
unfoldable pub handle_at : Interaction → Stack → Option Message → Option ℕ → Option Stack
unfolding handle_on
handle_at ia s none res = none
handle_at ia s (some req) none = none
handle_at ia s (some req) (some i) = handle_on req ia s (get_elem? s.resources i)

unfoldable pub handle_request_state : Interaction → Stack → Option Stack
unfolding handle_at
handle_request_state ia s = handle_at ia s ia.req_msg ia.resource

unfoldable pub on_resp_status : Interaction → Stack → Option CoapResult → Option Stack
unfolding enqueue_last delete_interaction resend_resp
on_resp_status ia s none = none
on_resp_status ia s (some waiting) = some (enqueue_last ia s)
on_resp_status ia s (some holding_back) = some (enqueue_last ia s)
on_resp_status ia s (some retry) = resend_resp ia s
on_resp_status ia s (some r) = some (delete_interaction ia s)

unfoldable pub server_step : InteractionState → Interaction → Stack → Option Stack
unfolding handle_request_state check_resp_status on_resp_status
server_step handle_request ia s = handle_request_state ia s
server_step resource_postpone_empty_ack_sent ia s = handle_request_state ia s
server_step response_sent ia s = on_resp_status ia s (check_resp_status s.now ia)
server_step _ ia s = some s

abbrev pub server_work : Interaction → Stack → Option Stack
server_work ia s = server_step ia.state ia s
