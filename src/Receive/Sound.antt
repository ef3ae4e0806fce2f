-- ===== src/Receive/Sound.antt =====
-- CoAP_onNewPacketHandler of coap/server/lobaro-coap/coap_main.c keeps the interactions well-formed.
use sming_coap.Base.{
  ℕ, ◌≡◌, refl, sym, arith, List, [], ◌∷◌, Bool, true, false, ◌&&◌, Option, none, some,
  if◌then◌else◌, ◌==◌, Option-cases, get_elem?, inl, inr, Memory, ◌⊎◌, ◌<◌, Bool-cases, and_then,
  All,
}
use mathlib.Core.Path.{subst}
use sming_coap.CoapResult.{CoapResult, is_ok, is_out_of_memory}
use sming_coap.Endpoint.{NetEp}
use sming_coap.Message.{
  Message, MessageType, con, non, ack, rst, empty_code, resp_internal_server_error_5_00,
  msg_is_request, is_con,
}
use sming_coap.Message.Parse.{MessageState}
use sming_coap.Interaction.{Interaction}
use sming_coap.Resource.{Resource, find_resource_by_uri}
use sming_coap.Options.{check_for_unknown_critical_option}
use sming_coap.Stack.{Stack}
use sming_coap.Message.Bounds.{TokenFits}
use sming_coap.Message.Accounting.{parse_message-total}
use sming_coap.Work.WellFormed.{Yields, Serves, IsWellFormed, IsSound, Present}
use sming_coap.Receive.Answers.{
  Frame-Safe, Safe-if, attach_response-Safe, on_reset-Safe, acknowledge_response-Safe, Handles,
  Handles-if, Safe-Handles, drop_message-Handles, SendsShort, send_short_resp-Sends, answer-Handles,
  reset-Handles, answer_bad_option-Handles, answer_not_found-Handles, has_token-some,
  client-Present, on_ack-Handles,
}
use sming_coap.Receive.Packet.{
  handle_parsed, Origin, attach_response, after_start, separate_response, find_request,
  on_request_or_response, dispatch_as, check_options, with_handler, known_resource, check_resource,
  handle_message, after_parse, on_new_packet_handler, is_waiting_or_handling, is_ping,
  is_bad_combination, is_requested, is_client, acknowledge_response, on_reset,
}
use sming_coap.Receive.Started.{start_new-Starts}

-- Whether a client's request has the token is found out.
is_requested-some :
    (rs : List Resource) (token : ℕ) (ep : NetEp) (ia : Interaction)
    → IsWellFormed rs ia
    → (b : Bool) × (is_requested token ep ia ≡ some b)
unfolding is_requested
is_requested-some rs token ep ia w = elim (Bool-cases (is_client ia.role)) [
  | inl e ↦
      let (b, t) = has_token-some ia.req_msg token (client-Present rs ia w e) in rw (e, t) (_, refl)
  | inr e ↦ rw e (false, refl)
]

find_request-some :
    (rs : List Resource) (token : ℕ) (ep : NetEp) (ias : List Interaction)
    → All (IsWellFormed rs) ias
    → (o : Option (ℕ × Interaction)) × (find_request token ep ias ≡ some o)
unfolding find_request
find_request-some rs token ep [] a = (none, refl)
find_request-some rs token ep (ia ∷ ias) (w, a) =
    let (b, e) = is_requested-some rs token ep ia w in
    let (o, f) = find_request-some rs token ep ias a in
    rw (e, f) (elim (Bool-cases b) [ inl t ↦ rw t (_, refl) | inr t ↦ rw t (_, refl) ])

acknowledged_short :
    (i : ℕ) (s : Stack) (o : Option (CoapResult × Stack))
    → SendsShort s o
    → Handles s (and_then (λ x. some (acknowledge_response i x)) o)
acknowledged_short i s o (r, t, e, f) =
    subst (λ y. Handles s (and_then (λ x. some (acknowledge_response i x)) y)) (sym e)
      (λ sound. (_, refl, acknowledge_response-Safe i (r, t) (Frame-Safe s t f sound)))

attached_socket :
    (from : Origin) (m : Message) (s : Stack) (i : ℕ) (ia : Interaction) (b : Bool)
    → Present (s.network.socket from.if_id)
    → let t = if b then attach_response i ia m s else s in Present (t.network.socket from.if_id)
unfolding attach_response
attached_socket from m s i ia true k = k
attached_socket from m s i ia false k = k

separate_response-Handles :
    (from : Origin) (m : Message) (s : Stack) (o : Option (ℕ × Interaction))
    → Present (s.network.socket from.if_id)
    → Handles s (separate_response from m s o)
unfolding separate_response
separate_response-Handles from m s none k sound =
    answer-Handles from m s k rst empty_code m.message_id sound
separate_response-Handles from m s (some (i, ia)) k sound =
    let t = if is_waiting_or_handling ia.state then attach_response i ia m s else s in
    let attached =
      Safe-if (is_waiting_or_handling ia.state) s (attach_response i ia m s) s
        (attach_response-Safe i ia m s) (λ x. x) sound in
    Handles-if (is_con m.type) t _ _
      (acknowledged_short i t _ (
        send_short_resp-Sends ack empty_code m.message_id m.token from.if_id from.sender t
          (attached_socket from m s i ia (is_waiting_or_handling ia.state) k)))
      (Safe-Handles t t (λ x. x)) attached

after_start-Handles :
    (from : Origin) (m : Message) (s t : Stack) (r : CoapResult)
    → Present (s.network.socket from.if_id)
    → t.network.socket ≡ s.network.socket
    → Handles t (after_start from m (r, t))
unfolding after_start
after_start-Handles from m s t r k e =
    let k' = subst (λ f. Present (f from.if_id)) (sym e) k in
    Handles-if (is_ok r) t _ _ (Safe-Handles t t (λ x. x)) (
      Handles-if (is_out_of_memory r && is_con m.type) t _ _
        (answer-Handles from m t k' ack resp_internal_server_error_5_00 m.message_id)
        (drop_message-Handles m t))

-- The resource that goes with a request has a handler.
abbrev Known : Message → Stack → Option ℕ → Type 0
Known m s res = msg_is_request m ≡ true → Serves s.resources res

-- A conditional whose branches need the condition.
Handles-either :
    (b : Bool) (s : Stack) (x y : Option Stack)
    → (b ≡ true → Handles s x)
    → (b ≡ false → Handles s y)
    → Handles s (if b then x else y)
Handles-either true s x y p q = p refl
Handles-either false s x y p q = q refl

module _ (from : Origin) (m : Message) (res : Option ℕ) (s : Stack) (known : Known m s res)
    (k : Present (s.network.socket from.if_id)) where
  request_or_response-Handles : Handles s (on_request_or_response from m res s)
  unfolding on_request_or_response
  request_or_response-Handles =
      Handles-either (msg_is_request m) s _ _
        (λ e sound.
          let (r, t, f, sound', same) =
            start_new-Starts m res from.if_id from.sender from.meta_info s (known e) k sound in
          subst (λ x. Yields (and_then (after_start from m) x)) (sym f)
            (after_start-Handles from m s t r k same sound'))
        (λ e sound.
          let (o, f) = find_request-some s.resources m.token from.sender s.interactions sound in
          subst (λ x. Yields (and_then (separate_response from m s) x)) (sym f)
            (separate_response-Handles from m s o k sound))

  dispatch_as-Handles : (t : MessageType) → Handles s (dispatch_as t from m res s)
  unfolding dispatch_as
  dispatch_as-Handles rst = Safe-Handles s (on_reset from m s) (on_reset-Safe from m s)
  dispatch_as-Handles ack = on_ack-Handles from m s
  dispatch_as-Handles con = request_or_response-Handles
  dispatch_as-Handles non = request_or_response-Handles

  check_options-Handles : Handles s (check_options from m res s)
  unfolding check_options
  check_options-Handles =
      Handles-if (check_for_unknown_critical_option m.options == 0) s _ _
        (dispatch_as-Handles m.type) (answer_bad_option-Handles from m s k)

-- A resource that was found to have a handler serves.
check_resource-Handles :
    (from : Origin) (m : Message) (s : Stack) (o : Option ℕ)
    → (o ≡ none) ⊎ Serves s.resources o
    → Present (s.network.socket from.if_id)
    → Handles s (check_resource from m s o)
unfolding check_resource
check_resource-Handles from m s none v k = answer_not_found-Handles from m s k
check_resource-Handles from m s (some i) (inl e) k = ground (arith, e)
check_resource-Handles from m s (some i) (inr v) k =
    check_options-Handles from m (some i) s (λ _. v) k

with_handler-Serves :
    (rs : List Resource) (i : ℕ) (o : Option Resource)
    → get_elem? rs i ≡ o
    → (with_handler i o ≡ none) ⊎ Serves rs (with_handler i o)
unfolding with_handler
with_handler-Serves rs i none e = inl refl
with_handler-Serves rs i (some r) e = elim (Option-cases r.handler) [
  | inl n ↦ rw n (inl refl)
  | inr (f, n) ↦ rw n (inr (r, e, rw n tt))
]

known_resource-Serves :
    (rs : List Resource) (o : Option ℕ)
    → (known_resource rs o ≡ none) ⊎ Serves rs (known_resource rs o)
unfolding known_resource
known_resource-Serves rs none = inl refl
known_resource-Serves rs (some i) = with_handler-Serves rs i (get_elem? rs i) refl

handle_message-Handles :
    (from : Origin) (m : Message) (s : Stack)
    → Present (s.network.socket from.if_id)
    → Handles s (handle_message from m s)
unfolding handle_message
handle_message-Handles from m s k =
    let found = find_resource_by_uri s.resources m.options in
    Handles-if (is_ping m) s _ _ (reset-Handles from m s k) (
      Handles-if (is_bad_combination m) s _ _ (drop_message-Handles m s) (
        Handles-either (msg_is_request m) s
          (check_resource from m s (known_resource s.resources found)) (check_options from m none s)
          (λ e.
            check_resource-Handles from m s (known_resource s.resources found)
              (known_resource-Serves s.resources found) k)
          (λ e. check_options-Handles from m none s (λ f. ground (arith, e, f)) k)))

after_parse-Handles :
    (from : Origin) (s : Stack) (p : MessageState)
    → Present (s.network.socket from.if_id)
    → Handles s (after_parse from s p)
unfolding after_parse
after_parse-Handles from s (r, none, h) k sound = (_, refl, sound)
after_parse-Handles from s (r, some m, h) k sound =
    handle_message-Handles from m (record s { heap = h }) k sound

-- Every datagram of fewer than 65530 bytes that is long enough for its token, received on an
-- interface with a socket, is handled to the end without a read through a NULL pointer, whatever its
-- bytes, its sender, the heap and the network are: a sound stack becomes a sound stack.
pub on_new_packet_handler-IsSound :
    (mem : Memory) (n : ℕ) (from : Origin) (s : Stack)
    → IsSound s
    → TokenFits mem n
    → n < 65530
    → Present (s.network.socket from.if_id)
    → Yields (on_new_packet_handler mem n from s)
unfolding on_new_packet_handler handle_parsed
on_new_packet_handler-IsSound mem n from s sound fits small k =
    let (p, e) = parse_message-total mem n s.now s.heap fits small in
    subst (λ x. Yields (handle_parsed from s x)) (sym e) (after_parse-Handles from s p k sound)
