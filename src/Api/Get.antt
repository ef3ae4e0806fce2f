-- ===== src/Api/Get.antt =====
-- CoAP_StartNewGetRequest of coap/server/lobaro-coap/coap_interaction.c.
use mathlib.Core.Path.{subst}
use sming_coap.Options.Insert.{taken}
use sming_coap.OptionTypes.UriParts.{Generous-takes, append_uri_options-uri_options}
use sming_coap.OptionTypes.UriWords.{takes, uri_options, query_words, path_words}
use sming_coap.Options.{CoapOption, ListState}
use sming_coap.Endpoint.{NetEp}
use sming_coap.Receive.Start.{start_new_client_interaction, start_interaction}
use sming_coap.Heap.{Heap, Generous, mem_get}
use sming_coap.Stack.{Stack}
use sming_coap.OptionTypes.Uri.{append_uri_options_from_string}
use sming_coap.Interaction.{
  client, ready_to_request, Interaction, new_interaction, append_interaction_to_list,
  sizeof_interaction,
}
use sming_coap.CoapResult.{err_out_of_memory, ok, CoapResult}
use sming_coap.Message.{
  con, Message, req_get, init_to_empty_reset_msg, sizeof_message, msg_is_request,
}
use sming_coap.Message.Create.{get_next_mid, create_message, generate_token, fill_message, when_met}
use sming_coap.Base.{
  ℕ, ◌+◌, ◌%◌, ◌^◌, ◌<◌, ◌≡◌, refl, sym, ap, ◌∙◌, Bool, true, List, [], ◌∷◌, ◌++◌, Option, none,
  some, length,
}

-- What follows the creation of the message. The result of the append is not looked at.
unfoldable pub request_uri :
    Option (List ℕ) → ℕ → NetEp → Bool → Stack → Option Message × Heap → CoapResult × Stack
unfolding append_uri_options_from_string start_new_client_interaction
request_uri uri if_id ep cb s (none, h) = (err_out_of_memory, record s { heap = h })
request_uri uri if_id ep cb s (some m, h) =
    let with_uri = append_uri_options_from_string m.options uri h in
    start_new_client_interaction (some (record m { options = with_uri.1 })) if_id ep cb
      (record s { heap = with_uri.2 })

unfoldable pub start_new_get_request :
    Option (List ℕ) → ℕ → NetEp → Bool → Stack → CoapResult × Stack
unfolding get_next_mid generate_token create_message request_uri
start_new_get_request uri if_id ep cb s =
    let (mid, c) = get_next_mid s.counters in
    let (token, c') = generate_token c in
    request_uri uri if_id ep cb (record s { counters = c' })
      (create_message con req_get mid none 0 0 token s.heap)

-- A new interaction at the end of the list that is ready to send the message, and the next message
-- id and token are used up.
abbrev pub Requests : Stack → ℕ → NetEp → List CoapOption → CoapResult × Stack → Type 0
Requests s if_id ep options (r, t) =
    (r ≡ ok)
    × ((ia : Interaction) × (m : Message) × (t.interactions ≡ s.interactions ++ (ia ∷ []))
        × (ia.role ≡ client)
        × (ia.state ≡ ready_to_request)
        × (ia.if_id ≡ if_id)
        × (ia.remote_ep ≡ ep)
        × (ia.req_msg ≡ some m)
        × (m.type ≡ con)
        × (m.code ≡ req_get)
        × (m.message_id ≡ (s.counters.mid + 1) % 65536)
        × (m.token ≡ (s.counters.last_token + 1) % 2 ^ 64)
        × (m.options ≡ options))
    × (t.counters.mid ≡ (s.counters.mid + 1) % 65536)
    × (t.counters.last_token ≡ (s.counters.last_token + 1) % 2 ^ 64)

-- The message before it has its options.
abbrev get_message : ℕ → ℕ → Message
get_message mid token = record init_to_empty_reset_msg {
  type = con;
  code = req_get;
  message_id = mid;
  token = token;
}

created :
    (mid token : ℕ) (h : Heap)
    → Generous h
    → create_message con req_get mid none 0 0 token h ≡ (some (get_message mid token), taken h)
unfolding create_message mem_get fill_message when_met init_to_empty_reset_msg
created mid token h g = rw (g h.requests (sizeof_message + 0)) refl

started :
    (m : Message) (if_id : ℕ) (ep : NetEp) (cb : Bool) (s : Stack)
    → Generous s.heap
    → msg_is_request m ≡ true
    → start_new_client_interaction (some m) if_id ep cb s ≡ (
      ok,
      record s {
        heap = taken s.heap;
        interactions =
            s.interactions
            ++ (record (new_interaction ep) {
              req_msg = some m;
              if_id = if_id;
              resp_cb = cb;
              role = client;
              state = ready_to_request;
            }
                ∷ []);
      },
    )
unfolding start_new_client_interaction start_interaction mem_get append_interaction_to_list
started m if_id ep cb s g request = rw (request, g s.heap.requests sizeof_interaction) refl

request_uri_lem :
    (uri : List ℕ) (if_id : ℕ) (ep : NetEp) (cb : Bool) (s : Stack) (h : Heap)
    → Generous h
    → length uri < 65536
    → let m = get_message s.counters.mid s.counters.last_token in
      request_uri (some uri) if_id ep cb s (some m, h)
      ≡ start_new_client_interaction
          (some (record m { options = uri_options uri }))
          if_id
          ep
          cb
          (record s { heap = takes (length (query_words uri)) (takes (length (path_words uri)) h) })
unfolding request_uri init_to_empty_reset_msg
request_uri_lem uri if_id ep cb s h g small =
    let m = get_message s.counters.mid s.counters.last_token in
    ap
      (λ (st : ListState).
        start_new_client_interaction (some (record m { options = st.1 })) if_id ep cb
          (record s { heap = st.2 }))
      (append_uri_options-uri_options uri h g small)

-- A GET request for a uri string of fewer than 65536 characters, while every request for memory is
-- met: one interaction is added, behind the others. It is a client's, ready to send a confirmable
-- GET to this endpoint, whose options are the words of the string. Its message id and its token are
-- the successors, as uint16_t and uint64_t, of those that were handed out last, and both counters
-- stand at them afterwards.
pub start_new_get_request-Requests :
    (uri : List ℕ) (if_id : ℕ) (ep : NetEp) (cb : Bool) (s : Stack)
    → Generous s.heap
    → length uri < 65536
    → Requests s if_id ep (uri_options uri) (start_new_get_request (some uri) if_id ep cb s)
unfolding start_new_get_request get_next_mid generate_token msg_is_request new_interaction
start_new_get_request-Requests uri if_id ep cb s g small =
    let c = (generate_token (get_next_mid s.counters).1).1 in
    let s' = record s { counters = c } in
    let h = takes (length (query_words uri)) (takes (length (path_words uri)) (taken s.heap)) in
    let g' =
      Generous-takes (length (query_words uri)) _
        (Generous-takes (length (path_words uri)) (taken s.heap) g) in
    let m = record (get_message c.mid c.last_token) { options = uri_options uri } in
    let path =
      ap (request_uri (some uri) if_id ep cb s') (created c.mid c.last_token s.heap g)
      ∙ request_uri_lem uri if_id ep cb s' (taken s.heap) g small
      ∙ started m if_id ep cb (record s' { heap = h }) g' refl in
    subst (Requests s if_id ep (uri_options uri)) (sym path)
      (refl, (_, m, refl, refl, refl, refl, refl, refl, refl, refl, refl, refl, refl), refl, refl)
