-- ===== src/Receive/Answers.antt =====
-- The answers and the changes of interactions in CoAP_onNewPacketHandler of
-- coap/server/lobaro-coap/coap_main.c keep the interactions well-formed.
use mathlib.Core.Path.{subst}
use sming_coap.Base.{
  ℕ, zero, suc, List, [], ◌∷◌, Bool, true, false, Option, none, some, if◌then◌else◌, All, get_elem?,
  sym, ◌≡◌, refl, arith, and_then, not, ◌&&◌, ◌==◌, Bool-cases, inl, inr,
}
use sming_coap.CoapResult.{CoapResult, is_ok}
use sming_coap.Endpoint.{NetEp}
use sming_coap.Message.{
  Message, MessageType, non, ack, resp_not_found_4_04, resp_bad_option_4_02, msg_is_request,
  init_to_empty_reset_msg, is_con, empty_code,
}
use sming_coap.Message.Create.{get_next_mid}
use sming_coap.Interaction.{
  Interaction, InteractionRole, role_not_set, server, notification, client, handle_response,
  ReliabilityState, ack_set, rst_set, apply_as, apply_to_interaction, applied_or_rest,
  apply_reliability_state_to_interaction,
}
use sming_coap.Resource.{Resource}
use sming_coap.Stack.{Stack, send_short_resp, send_empty_rst, SendState, forget_message}
use sming_coap.Work.WellFormed.{
  IsWellFormed, IsSound, Frame, send_msg-Frame, Present, Yields, Fits, Sends,
}
use sming_coap.Work.Stored.{Fits-answered}
use sming_coap.Receive.Packet.{
  Origin, drop_message, answer, answer_not_found, reset, answer_bad_option, update_at,
  attach_response, on_reset, piggybacked, acknowledged, on_ack, acknowledge_response, has_token,
  is_client, is_waiting,
}

-- A step from a sound stack leads to a sound stack.
abbrev pub Safe : Stack → Stack → Type 0
Safe s t = IsSound s → IsSound t

pub Frame-Safe : (s t : Stack) → Frame s t → Safe s t
Frame-Safe s t f sound = rw (f.same_interactions, f.same_resources) sound

pub Safe-if : (b : Bool) (s x y : Stack) → Safe s x → Safe s y → Safe s (if b then x else y)
Safe-if true s x y p q = p
Safe-if false s x y p q = q

pub drop_message-Safe : (m : Message) (s : Stack) → Safe s (drop_message m s)
unfolding drop_message
drop_message-Safe m s sound = sound

-- From a sound stack, no NULL pointer is read and a sound stack is reached.
abbrev pub Handles : Stack → Option Stack → Type 0
Handles s o = IsSound s → Yields o

pub Handles-if :
    (b : Bool) (s : Stack) (x y : Option Stack)
    → Handles s x
    → Handles s y
    → Handles s (if b then x else y)
Handles-if true s x y p q = p
Handles-if false s x y p q = q

pub Safe-Handles : (s t : Stack) → Safe s t → Handles s (some t)
Safe-Handles s t f sound = (t, refl, f sound)

pub drop_message-Handles : (m : Message) (s : Stack) → Handles s (some (drop_message m s))
drop_message-Handles m s = Safe-Handles s (drop_message m s) (drop_message-Safe m s)

-- A short message on a socket.
abbrev pub SendsShort : Stack → Option (CoapResult × Stack) → Type 0
SendsShort s o = (r : CoapResult) × (t : Stack) × (o ≡ some (r, t)) × Frame s t

pub short-Sends :
    (s : Stack) (o : Option SendState) → Sends s o → SendsShort s (and_then forget_message o)
short-Sends s o (x, e, f) = (x.0, x.2, rw e refl, f)

pub send_short_resp-Sends :
    (t : MessageType) (code id token i : ℕ) (ep : NetEp) (s : Stack)
    → Present (s.network.socket i)
    → SendsShort s (send_short_resp t code id token i ep s)
unfolding send_short_resp
send_short_resp-Sends t code id token i ep s k = short-Sends s _ (
    send_msg-Frame
      (record init_to_empty_reset_msg { type = t; code = code; message_id = id; token = token }) i
      ep s k)

-- The message is released after an answer.
answered :
    (m : Message) (s : Stack) (o : Option (CoapResult × Stack))
    → SendsShort s o
    → Handles s (and_then (λ x. some (drop_message m x.1)) o)
unfolding drop_message
answered m s o (r, t, e, f) =
    subst (λ y. Handles s (and_then (λ x. some (drop_message m x.1)) y)) (sym e)
      (λ sound. (_, refl, Frame-Safe s t f sound))

module _ (from : Origin) (m : Message) (s : Stack) (k : Present (s.network.socket from.if_id)) where
  pub answer-Handles : (t : MessageType) (code id : ℕ) → Handles s (answer t code id from m s)
  unfolding answer
  answer-Handles t code id =
      answered m s _ (send_short_resp-Sends t code id m.token from.if_id from.sender s k)

  pub reset-Handles : Handles s (reset from m s)
  unfolding reset send_empty_rst
  reset-Handles = answered m s _ (
      short-Sends s _ (
        send_msg-Frame (record init_to_empty_reset_msg { message_id = m.message_id }) from.if_id
          from.sender s k))

  pub answer_bad_option-Handles : Handles s (answer_bad_option from m s)
  unfolding answer_bad_option
  answer_bad_option-Handles =
      Handles-if (is_con m.type) s _ _
        (Handles-if (msg_is_request m) s _ _ (answer-Handles ack resp_bad_option_4_02 m.message_id)
          reset-Handles)
        (drop_message-Handles m s)

pub answer_not_found-Handles :
    (from : Origin) (m : Message) (s : Stack)
    → Present (s.network.socket from.if_id)
    → Handles s (answer_not_found from m s)
unfolding answer_not_found
answer_not_found-Handles from m s k =
    let (mid, c) = get_next_mid s.counters in
    Handles-if (is_con m.type) s _ _
      (answer-Handles from m s k ack resp_not_found_4_04 m.message_id)
      (answer-Handles from m (record s { counters = c }) k non resp_not_found_4_04 mid)

update_at-All :
    (P : Interaction → Type 0) (i : ℕ) (f : Interaction → Interaction) (ias : List Interaction)
    → ((ia : Interaction) → P ia → P (f ia))
    → All P ias
    → All P (update_at i f ias)
update_at-All P i f [] g a = a
update_at-All P zero f (ia ∷ ias) g (p, a) = (g ia p, a)
update_at-All P (suc i) f (ia ∷ ias) g (p, a) = (p, update_at-All P i f ias g a)

pub attach_response-Safe :
    (i : ℕ) (ia : Interaction) (m : Message) (s : Stack) → Safe s (attach_response i ia m s)
unfolding attach_response
attach_response-Safe i ia m s sound =
    update_at-All (IsWellFormed s.resources) i _ s.interactions
      (λ ib w. (
        w.0,
        Fits-answered ib.role s.resources ib.req_msg ib.resp_msg ib.resource ib.state
            handle_response m w.1,
      ))
      sound

abbrev Holds-some : (Interaction → Type 0) → Option Interaction → Type 0
Holds-some P none = Unit {0}
Holds-some P (some ia) = P ia

-- Only the state of reliability changes.
apply_as-IsWellFormed :
    (rs : List Resource) (role : InteractionRole) (r : ReliabilityState) (x y : Bool)
    (ia : Interaction)
    → IsWellFormed rs ia
    → Holds-some (IsWellFormed rs) (apply_as role r x y ia)
unfolding apply_as
apply_as-IsWellFormed rs role_not_set r x y ia w = tt
apply_as-IsWellFormed rs server r true y ia w = w
apply_as-IsWellFormed rs server r false y ia w = tt
apply_as-IsWellFormed rs notification r true y ia w = w
apply_as-IsWellFormed rs notification r false y ia w = tt
apply_as-IsWellFormed rs client r x true ia w = w
apply_as-IsWellFormed rs client r x false ia w = tt

applied_or_rest-All :
    (P : Interaction → Type 0) (ia : Interaction) (ias : List Interaction) (o : Option Interaction)
    (rest : List Interaction × Option ℕ)
    → Holds-some P o
    → P ia
    → All P ias
    → All P rest.0
    → All P (applied_or_rest ia ias o rest).0
unfolding applied_or_rest
applied_or_rest-All P ia ias none rest h p a b = (p, b)
applied_or_rest-All P ia ias (some ib) rest h p a b = (h, a)

applied-All :
    (rs : List Resource) (r : ReliabilityState) (id : ℕ) (ep : NetEp) (ias : List Interaction)
    → All (IsWellFormed rs) ias
    → All (IsWellFormed rs) (apply_reliability_state_to_interaction ias r id ep).0
unfolding apply_reliability_state_to_interaction apply_to_interaction
applied-All rs r id ep [] a = a
applied-All rs r id ep (ia ∷ ias) (w, a) =
    applied_or_rest-All (IsWellFormed rs) ia ias _
      (apply_reliability_state_to_interaction ias r id ep)
      (apply_as-IsWellFormed rs ia.role r _ _ ia w) w a (applied-All rs r id ep ias a)

pub on_reset-Safe : (from : Origin) (m : Message) (s : Stack) → Safe s (on_reset from m s)
unfolding on_reset drop_message
on_reset-Safe from m s sound =
    applied-All s.resources rst_set m.message_id from.sender s.interactions sound

-- A client has a request.
pub client-Present :
    (rs : List Resource) (ia : Interaction)
    → IsWellFormed rs ia
    → is_client ia.role ≡ true
    → Present ia.req_msg
client-Present rs ia w e = of_role ia.role e w.1
  where
    of_role :
        (role : InteractionRole)
        → is_client role ≡ true
        → Fits role rs ia.req_msg ia.resource ia.state ia.resp_msg
        → Present ia.req_msg
    of_role client e f = f
    of_role server e f = ground (arith, e)
    of_role notification e f = ground (arith, e)
    of_role role_not_set e f = ground (arith, e)

-- The token of a request that is there is compared.
pub has_token-some :
    (o : Option Message) (token : ℕ) → Present o → (b : Bool) × (has_token o token ≡ some b)
unfolding has_token
has_token-some none token p = elim p [ ]
has_token-some (some m) token p = (_, refl)

get_elem-Holds :
    (P : Interaction → Type 0) (ias : List Interaction) (i : ℕ)
    → All P ias
    → Holds-some P (get_elem? ias i)
get_elem-Holds P [] i a = tt
get_elem-Holds P (ia ∷ ias) zero (p, a) = p
get_elem-Holds P (ia ∷ ias) (suc i) (p, a) = get_elem-Holds P ias i a

piggybacked-Handles :
    (m : Message) (s : Stack) (i : ℕ) (o : Option Interaction)
    → Holds-some (IsWellFormed s.resources) o
    → Handles s (piggybacked m s i o)
unfolding piggybacked
piggybacked-Handles m s i none h = drop_message-Handles m s
piggybacked-Handles m s i (some ia) w =
    elim (Bool-cases (not (m.code == empty_code) && is_client ia.role)) [
      | inl e ↦
          let (b, t) =
            has_token-some ia.req_msg m.token
              (client-Present s.resources ia w (ground (arith, e))) in
          rw (e, t)
            (Handles-if (b && is_waiting ia.state) s _ _
              (Safe-Handles s _ (attach_response-Safe i ia m s)) (drop_message-Handles m s))
      | inr e ↦ rw e (drop_message-Handles m s)
    ]

acknowledged-Handles : (m : Message) (s : Stack) (o : Option ℕ) → Handles s (acknowledged m s o)
unfolding acknowledged
acknowledged-Handles m s none sound = drop_message-Handles m s sound
acknowledged-Handles m s (some i) sound =
    piggybacked-Handles m s i (get_elem? s.interactions i)
      (get_elem-Holds (IsWellFormed s.resources) s.interactions i sound) sound

pub on_ack-Handles : (from : Origin) (m : Message) (s : Stack) → Handles s (on_ack from m s)
unfolding on_ack
on_ack-Handles from m s sound =
    let applied =
      apply_reliability_state_to_interaction s.interactions ack_set m.message_id from.sender in
    acknowledged-Handles m (record s { interactions = applied.0 }) applied.1
      (applied-All s.resources ack_set m.message_id from.sender s.interactions sound)

pub acknowledge_response-Safe :
    (i : ℕ) (sent : CoapResult × Stack) → Safe sent.1 (acknowledge_response i sent)
unfolding acknowledge_response
acknowledge_response-Safe i (r, s) =
    Safe-if (is_ok r) s _ s
      (λ sound. update_at-All (IsWellFormed s.resources) i _ s.interactions (λ ia w. w) sound)
      (λ sound. sound)
