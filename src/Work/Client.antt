-- ===== src/Work/Client.antt =====
-- The client's part of CoAP_doWork in coap/server/lobaro-coap/coap_main.c.
use sming_coap.Base.{◌∷◌, Option, none, some, if◌then◌else◌}
use sming_coap.CoapResult.{CoapResult, waiting, retry}
use sming_coap.Interaction.{
  Interaction, InteractionState, ready_to_request, waiting_response, handle_response,
}
use sming_coap.Endpoint.{NetEp}
use sming_coap.Message.{Message}
use sming_coap.Stack.{Stack}
use sming_coap.Work.{enqueue_last, delete_interaction, check_req_status, send_req, resend_req}

-- What follows the check of the request's progress.
unfoldable pub on_req_status : Interaction → Stack → Option CoapResult → Option Stack
unfolding enqueue_last delete_interaction resend_req
on_req_status ia s none = none
on_req_status ia s (some waiting) = some (enqueue_last ia s)
on_req_status ia s (some retry) = resend_req ia s
on_req_status ia s (some r) = some (delete_interaction ia s)

unfoldable pub hand_over : Option Message → NetEp → Stack → Stack
hand_over none ep s = s
hand_over (some m) ep s = record s { delivered = (m, ep) ∷ s.delivered }

-- The callback is handed the response.
unfoldable pub call_callback : Interaction → Stack → Stack
unfolding hand_over
call_callback ia s = if ia.resp_cb then hand_over ia.resp_msg ia.remote_ep s else s

-- The step in a state; an unknown state ends the interaction.
unfoldable pub client_step : InteractionState → Interaction → Stack → Option Stack
unfolding send_req check_req_status on_req_status call_callback delete_interaction
client_step ready_to_request ia s = send_req ia waiting_response s
client_step waiting_response ia s = on_req_status ia s (check_req_status s.now ia)
client_step handle_response ia s = some (delete_interaction ia (call_callback ia s))
client_step _ ia s = some (delete_interaction ia s)

abbrev pub client_work : Interaction → Stack → Option Stack
client_work ia s = client_step ia.state ia s
