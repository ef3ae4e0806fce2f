-- ===== src/Tests/Interactions.antt =====
-- The interactions and the state machine at concrete inputs.
use sming_coap.Work.GiveUp.{do_work-GivesUp, steps}
use sming_coap.Work.Unsent.{do_work_unsent}
use sming_coap.Base.{◌≡◌, refl, arith, [], ◌∷◌, true, false, none, some, of_list, inr, take, ◌≤◌, ℕ}
use sming_coap.Heap.{fresh_heap, mem_get}
use sming_coap.CoapResult.{err_existing}
use sming_coap.Message.{Message, con, null, msg_is_request}
use sming_coap.Message.Create.{initial_counters}
use sming_coap.Interaction.{
  Interaction, server, client, handle_request, ready_to_request, has_message_id,
  get_interaction_by_message_id, not_set, notification, ready_to_notify, waiting_response,
  sizeof_interaction,
}
use sming_coap.Interaction.Search.{get_interaction_by_message_id-Misses}
use sming_coap.Resource.{Resource, handler_ok}
use sming_coap.Stack.{Stack, Network}
use sming_coap.Work.DoWork.{do_work}
use sming_coap.Work.WellFormed.{Yields, YieldsUnless}
use sming_coap.Work.Sound.{do_work-IsSound, HeadNotSent}
use sming_coap.Work.OutOfMemory.{do_work_null}
use sming_coap.Receive.Start.{
  start_new_server_interaction, start_unless, start_interaction, find_same_request,
}
use sming_coap.Message.Build.{build_datagram, build_header, write_datagram, write_payload}
use sming_coap.Message.{get_token_byte_count, type_bits}
use sming_coap.Receive.Packet.{on_new_packet_handler}
use sming_coap.Receive.Sound.{on_new_packet_handler-IsSound}
use sming_coap.Receive.Duplicate.{start_new_server_interaction_again}
use sming_coap.Tests.Options.{path_option, full_heap}
use sming_coap.Tests.OptionTypes.{gateway}

abbrev get_request : Message
get_request = record {
  timestamp = 0;
  type = con;
  code = 1;
  message_id = 7;
  payload_length = 0;
  payload_buf_size = 0;
  token = 5;
  options = path_option ∷ [];
  payload = null;
}

-- A resource that answers every request as it was prepared.
abbrev pub echo : Resource
echo = record {
  description = none;
  cf = 0;
  etag = 0;
  uri = path_option ∷ [];
  flags = 2;
  update_cnt = 0;
  observers = [];
  handler = some (record { on_resp = λ _ _ m h. (handler_ok, m, h); on_null = λ _ _ h. none });
  notifier = none;
}

abbrev incoming : Interaction
incoming = record {
  role = server;
  state = handle_request;
  resource = some 0;
  remote_ep = gateway;
  if_id = 0;
  update_pending_notification = false;
  retrans_counter = 0;
  ack_timeout = 0;
  sleep_until = 0;
  req_msg = some get_request;
  req_reliability_state = not_set;
  meta_info = none;
  resp_msg = none;
  resp_reliability_state = not_set;
  resp_cb = false;
}

abbrev outgoing : Interaction
outgoing = record incoming { role = client; state = ready_to_request; resource = none }

abbrev open_network : Network
open_network = record { socket = λ _. some true; transmit = λ _ _. true; log = [] }

abbrev two_waiting : Stack
two_waiting = record {
  interactions = incoming ∷ outgoing ∷ [];
  resources = echo ∷ [];
  counters = initial_counters;
  heap = fresh_heap;
  network = open_network;
  now = 100;
  calls = 0;
  delivered = [];
}

do_work-IsSound_example : YieldsUnless (HeadNotSent two_waiting) (do_work two_waiting)
do_work-IsSound_example =
    do_work-IsSound two_waiting ((omega arith, (tt, (echo, refl, tt), tt)), ((omega arith, tt), tt))
      (λ k n. refl) tt

do_work_null_example : do_work (record two_waiting { heap = full_heap }) ≡ none
do_work_null_example =
    do_work_null (record two_waiting { heap = full_heap }) incoming (outgoing ∷ []) get_request 0
      echo refl refl refl refl refl refl refl refl (λ n. refl) (λ h. tt)

abbrev closed_network : Network
closed_network = record open_network { transmit = λ _ _. false }

-- A notification of the resource that was not sent yet, and no way to send it.
abbrev due : Interaction
due = record incoming {
  role = notification;
  state = ready_to_notify;
  req_msg = none;
  resp_msg = some get_request;
}

abbrev unsent : Stack
unsent = record two_waiting { interactions = due ∷ []; network = closed_network }

do_work_unsent_example : do_work unsent ≡ none
do_work_unsent_example = do_work_unsent unsent due [] refl refl refl refl refl (λ _ _. refl)

abbrev asking : Interaction
asking = record outgoing { state = waiting_response; ack_timeout = 102 }

abbrev asked : Stack
asked = record two_waiting { interactions = asking ∷ incoming ∷ [] }

do_work-GivesUp_example :
    (n : ℕ) × (t : Stack) × (n ≤ 5)
    × (steps (take n (103 ∷ 136 ∷ 169 ∷ 202 ∷ 235 ∷ [])) asked ≡ some t)
    × (t.interactions ≡ incoming ∷ [])
do_work-GivesUp_example =
    do_work-GivesUp (103 ∷ 136 ∷ 169 ∷ 202 ∷ 235 ∷ []) asking (incoming ∷ []) get_request asked refl
      (record {
        is_client = refl;
        is_waiting = refl;
        no_answer = refl;
        is_awake = refl;
        is_con = refl;
        has_request = refl;
      })
      (omega arith) refl
      (
        omega arith,
        omega arith,
        (
          omega arith,
          omega arith,
          (omega arith, omega arith, (omega arith, omega arith, (omega arith, omega arith, tt))),
        ),
      )
      tt

get_interaction_by_message_id-Misses_example :
    get_interaction_by_message_id (incoming ∷ incoming ∷ outgoing ∷ []) 9 ≡ none
unfolding has_message_id
get_interaction_by_message_id-Misses_example =
    get_interaction_by_message_id-Misses 9 incoming (incoming ∷ []) outgoing refl (refl, tt)

abbrev pub empty_stack : Stack
empty_stack = record two_waiting { interactions = [] }

abbrev started : Stack
started = record empty_stack {
  interactions = incoming ∷ [];
  heap = (mem_get sizeof_interaction fresh_heap).1;
}

start_new_server_interaction_again_example :
    start_new_server_interaction get_request (some 0) 0 gateway none started
    ≡ some (err_existing, started)
unfolding start_new_server_interaction start_unless start_interaction find_same_request mem_get
    msg_is_request
start_new_server_interaction_again_example =
    start_new_server_interaction_again get_request (some 0) 0 gateway none empty_stack started
      get_request (some 0) none refl refl refl

-- A request for the resource, sent from the gateway.
on_new_packet_handler-IsSound_example : Yields (
    on_new_packet_handler
      (of_list (build_datagram get_request).0)
      8
      (record { if_id = 0; sender = gateway; meta_info = none })
      two_waiting)
unfolding build_datagram write_datagram write_payload build_header type_bits get_token_byte_count
on_new_packet_handler-IsSound_example =
    on_new_packet_handler-IsSound (of_list (build_datagram get_request).0) 8
      (record { if_id = 0; sender = gateway; meta_info = none }) two_waiting
      ((omega arith, (tt, (echo, refl, tt), tt)), ((omega arith, tt), tt)) (inr (omega arith))
      (omega arith) tt
