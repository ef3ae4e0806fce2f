-- ===== src/Receive/Started.antt =====
-- The start of interactions for received packets in coap/server/lobaro-coap/coap_interaction.c keeps
-- the interactions well-formed.
use sming_coap.Base.{
  ℕ, ◌≡◌, refl, sym, arith, List, [], ◌∷◌, Bool, true, false, ◌&&◌, Option, none, some,
  if◌then◌else◌, ◌==◌, All-append, inl, inr, Bool-cases, and_then, All,
}
use mathlib.Core.Path.{subst}
use sming_coap.Heap.{Heap, mem_get}
use sming_coap.CoapResult.{CoapResult, err_existing}
use sming_coap.Endpoint.{NetEp}
use sming_coap.Message.{Message, ack, msg_is_request, init_to_empty_reset_msg, is_con}
use sming_coap.Interaction.{
  Interaction, append_interaction_to_list, new_interaction, sizeof_interaction, InteractionRole,
  role_not_set, server, notification, client,
}
use sming_coap.Resource.{Resource}
use sming_coap.Stack.{send_empty_ack, Stack}
use sming_coap.Work.WellFormed.{Serves, IsWellFormed, IsSound, send_msg-Frame, Present, Fits}
use sming_coap.Receive.Answers.{Safe, Frame-Safe}
use sming_coap.Receive.Start.{
  acknowledge_again, is_postponed, start_interaction, start_unless, start_new_server_interaction,
  find_same_request, comes_from, is_same_request,
}

pub start_interaction-Safe :
    (ia : Interaction) (s : Stack) (a : Bool × Heap)
    → IsWellFormed s.resources ia
    → Safe s (start_interaction ia s a).1
unfolding start_interaction append_interaction_to_list
start_interaction-Safe ia s (false, h) w sound = sound
start_interaction-Safe ia s (true, h) w sound =
    All-append (IsWellFormed s.resources) s.interactions (ia ∷ []) sound (w, tt)

-- A result and a sound stack with the same sockets.
abbrev pub Starts : Stack → Option (CoapResult × Stack) → Type 0
Starts s o =
    IsSound s
    → (r : CoapResult) × (t : Stack) × (o ≡ some (r, t))
      × IsSound t
      × (t.network.socket ≡ s.network.socket)

acknowledge_again-Starts :
    (ia : Interaction) (s : Stack) (o : Option Message)
    → Present o
    → Present (s.network.socket ia.if_id)
    → Starts s (and_then (λ t. some (err_existing, t)) (acknowledge_again ia s o))
unfolding acknowledge_again send_empty_ack
acknowledge_again-Starts ia s none p k sound = elim p [ ]
acknowledge_again-Starts ia s (some m) p k sound =
    elim (Bool-cases (is_con m.type && is_postponed ia.state)) [
      | inl b ↦
          let (x, e, f) =
            send_msg-Frame
              (record init_to_empty_reset_msg { type = ack; message_id = m.message_id }) ia.if_id
              ia.remote_ep s k in
          rw (b, e) (_, _, refl, Frame-Safe s x.2 f sound, f.same_sockets)
      | inr b ↦ rw b (_, _, refl, sound, refl)
    ]

start_interaction-sockets :
    (ia : Interaction) (s : Stack) (a : Bool × Heap)
    → (start_interaction ia s a).1.network.socket ≡ s.network.socket
unfolding start_interaction
start_interaction-sockets ia s (false, h) = refl
start_interaction-sockets ia s (true, h) = refl

-- A request that is found has come from the interface and is there.
abbrev Found : ℕ → Option Interaction → Type 0
Found i none = Unit {0}
Found i (some ia) = (ia.if_id ≡ i) × Present ia.req_msg

start-Starts :
    (o : Option Interaction) (req : Message) (res : Option ℕ) (i : ℕ) (ep : NetEp)
    (meta : Option (ℕ × ℕ)) (s : Stack)
    → Serves s.resources res
    → Found i o
    → Present (s.network.socket i)
    → Starts s (start_unless o req res i ep meta s)
unfolding start_unless new_interaction
start-Starts none req res i ep meta s v f k sound = (
  _,
  _,
  refl,
  start_interaction-Safe _ s (mem_get sizeof_interaction s.heap) (omega arith, (tt, v, tt)) sound,
  start_interaction-sockets _ s (mem_get sizeof_interaction s.heap),
)
start-Starts (some ia) req res i ep meta s v (same, p) k sound =
    acknowledge_again-Starts ia s ia.req_msg p
      (subst (λ j. Present (s.network.socket j)) (sym same) k) sound

pub Safe-result :
    (b : Bool) (s : Stack) (x y : CoapResult × Stack)
    → Safe s x.1
    → Safe s y.1
    → Safe s (if b then x else y).1
Safe-result true s x y p q = p
Safe-result false s x y p q = q

-- Whether an interaction is for the same request is found out, if it is well-formed.
abbrev Compares : ℕ → Interaction → Option Bool → Type 0
Compares i ia o = (b : Bool) × (o ≡ some b) × (b ≡ true → (ia.if_id ≡ i) × Present ia.req_msg)

comes_from-some :
    (id : ℕ) (ep e : NetEp) (o : Option Message)
    → Present o
    → (b : Bool) × (comes_from id ep e o ≡ some b)
unfolding comes_from
comes_from-some id ep e none p = elim p [ ]
comes_from-some id ep e (some m) p = (_, refl)

not_same : (i : ℕ) (ia : Interaction) → Compares i ia (some false)
not_same i ia = (false, refl, λ x. ground (arith, x))

module _ (rs : List Resource) (id i : ℕ) (ep : NetEp) where
  -- The comparison for a role.
  abbrev compared : InteractionRole → Interaction → Option Bool
  compared role ia = elim role [
    | server ↦ if ia.if_id == i then comes_from id ep ia.remote_ep ia.req_msg else some false
    | _ ↦ some false
  ]

  is_same_request-Compares :
      (role : InteractionRole) (ia : Interaction)
      → ia.role ≡ role
      → Fits role rs ia.req_msg ia.resource ia.state ia.resp_msg
      → Compares i ia (is_same_request id i ep ia)
  unfolding is_same_request
  is_same_request-Compares role_not_set ia e f =
      subst (λ r. Compares i ia (compared r ia)) (sym e) (not_same i ia)
  is_same_request-Compares notification ia e f =
      subst (λ r. Compares i ia (compared r ia)) (sym e) (not_same i ia)
  is_same_request-Compares client ia e f =
      subst (λ r. Compares i ia (compared r ia)) (sym e) (not_same i ia)
  is_same_request-Compares server ia e (p, v, r) =
      subst (λ r. Compares i ia (compared r ia)) (sym e)
        (let (b, c) = comes_from-some id ep ia.remote_ep ia.req_msg p in
          elim (Bool-cases (ia.if_id == i)) [
            | inl t ↦ rw (t, c) (b, refl, λ _. (ground (arith, t), p))
            | inr t ↦ rw t (not_same i ia)
          ])

  find_same_request-Found :
      (ias : List Interaction)
      → All (IsWellFormed rs) ias
      → (o : Option Interaction) × (find_same_request id i ep ias ≡ some o) × Found i o
  unfolding find_same_request
  find_same_request-Found [] a = (none, refl, tt)
  find_same_request-Found (ia ∷ ias) (w, a) =
      let (b, e, p) = is_same_request-Compares ia.role ia refl w.1 in
      let (o, f, q) = find_same_request-Found ias a in
      rw (e, f) (elim (Bool-cases b) [ inl t ↦ rw t (_, refl, p t) | inr t ↦ rw t (_, refl, q) ])

pub start_new-Starts :
    (req : Message) (res : Option ℕ) (i : ℕ) (ep : NetEp) (meta : Option (ℕ × ℕ)) (s : Stack)
    → Serves s.resources res
    → Present (s.network.socket i)
    → Starts s (start_new_server_interaction req res i ep meta s)
unfolding start_new_server_interaction
start_new-Starts req res i ep meta s v k sound =
    let (o, e, f) = find_same_request-Found s.resources req.message_id i ep s.interactions sound in
    elim (Bool-cases (msg_is_request req)) [
      | inl t ↦ rw (t, e) (start-Starts o req res i ep meta s v f k sound)
      | inr t ↦ rw t (_, _, refl, sound, refl)
    ]
