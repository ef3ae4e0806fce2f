-- ===== src/Work/Serving.antt =====
-- The handling of a request in CoAP_doWork of coap/server/lobaro-coap/coap_main.c, from the call of
-- the resource's handler on, keeps the stack sound.
use sming_coap.Work.Sent.{send_resp-IsSound, IsSound-if}
use sming_coap.Work.Stored.{enqueue_last-IsSound, delete_interaction-IsSound}
use sming_coap.Base.{get_elem?, ◌≤◌, ◌&&◌, not, suc, some, sym}
use sming_coap.Work.Observed.{changed-Keeps, observe-Observed}
use sming_coap.Base.{
  refl, true, false, none, some, Bool, ◌&&◌, not, ◌≡◌, if◌then◌else◌, get_elem?, ℕ, Option, ◌≤◌,
  and_then,
}
use mathlib.Core.Path.{◌≡◌, subst}
use sming_coap.Heap.{Heap}
use sming_coap.CoapResult.{CoapResult, is_ok}
use sming_coap.Message.{
  init_to_empty_reset_msg, ack, Message, is_con, msg_is_older_than, resp_service_unavailable_5_03,
}
use sming_coap.Message.Create.{Counters}
use sming_coap.Interaction.{
  InteractionState, Interaction, server, max_retransmit, response_sent, InteractionState,
  set_sleep_interaction, resource_postpone_empty_ack_sent, postpone_max_wait_time,
}
use sming_coap.Resource.{
  Resource, HandlerResult, handler_ok, handler_error, handler_postpone, Handler,
}
use sming_coap.Stack.{Stack, send_empty_ack}
use sming_coap.Work.{is_ack_set}
use sming_coap.Work.Server.{
  set_type, add_meta, respond, transmit_resp, after_empty_ack, postpone, after_handler, call_with,
}
use sming_coap.Work.WellFormed.{
  Present, Fits, IsWellFormed, send_msg-Frame, IsSoundBehind, IsSound, Yields,
}
use sming_coap.Work.Keeps.{Keeps, Keeps-trans, Frame-Keeps}

-- The resources are the same, and what is well-formed stays so.
abbrev Quiet : Stack → Stack → Type 0
Quiet s t = (t.resources ≡ s.resources) × Keeps s t

Quiet-if :
    (s : Stack) (b : Bool) (x y : Message × Stack)
    → Quiet s x.1
    → Quiet s y.1
    → Quiet s (if b then x else y).1
Quiet-if s true x y p q = p
Quiet-if s false x y p q = q

set_type-Quiet : (ia : Interaction) (req m : Message) (s : Stack) → Quiet s (set_type ia req m s).1
unfolding set_type
set_type-Quiet ia req m s =
    Quiet-if s (is_con req.type) _ _
      (Quiet-if s (is_ack_set ia.req_reliability_state) _ _ (refl, changed-Keeps s _ s.heap)
        (refl, changed-Keeps s s.counters s.heap))
      (refl, changed-Keeps s s.counters s.heap)

add_meta-Quiet :
    (meta : Option (ℕ × ℕ)) (m : Message) (s : Stack) → Quiet s (add_meta meta (m, s)).1
unfolding add_meta
add_meta-Quiet none m s = (refl, changed-Keeps s s.counters s.heap)
add_meta-Quiet (some (a, b)) m s = (refl, changed-Keeps s s.counters _)

-- A server interaction at the head, with its request and its resource.
pub record IsServing (ia : Interaction) (req : Message) (i : ℕ) (r : Resource) (s : Stack)
    : Type 0 where
  pub serving_role : ia.role ≡ server
  pub serving_request : ia.req_msg ≡ some req
  pub serving_resource : ia.resource ≡ some i
  pub serving_found : get_elem? s.resources i ≡ some r
  pub serving_handler : Present r.handler
  pub serving_bound : ia.retrans_counter ≤ max_retransmit
  pub serving_behind : IsSoundBehind s
  pub serving_socket : Present (s.network.socket ia.if_id)

pub IsServing-Fits :
    (ia : Interaction) (req : Message) (i : ℕ) (r : Resource) (s : Stack)
    → IsServing ia req i r s
    → (st : InteractionState) (n : Message)
    → Fits ia.role s.resources ia.req_msg ia.resource st (some n)
IsServing-Fits ia req i r s v st n =
    rw (v.serving_role, v.serving_request, v.serving_resource)
      (tt, (r, v.serving_found, v.serving_handler), tt)

pub IsServing-request :
    (ia : Interaction) (req : Message) (i : ℕ) (r : Resource) (s : Stack)
    → IsServing ia req i r s
    → Present ia.req_msg
IsServing-request ia req i r s v = subst (λ o. Present o) (sym v.serving_request) tt

respond-Yields :
    (ia : Interaction) (req m : Message) (i : ℕ) (r : Resource) (s : Stack)
    → IsServing ia req i r s
    → Yields (respond ia req m s)
unfolding respond transmit_resp
respond-Yields ia req m i r s v =
    let typed = set_type ia req m s in
    let (e1, k1) = set_type-Quiet ia req m s in
    let full = add_meta ia.meta_info typed in
    let (e2, k2) = add_meta-Quiet ia.meta_info typed.0 typed.1 in
    let found : get_elem? full.1.resources i ≡ some r = rw (e2, e1) v.serving_found in
    let (n, t, e, k3) =
      observe-Observed ia req full.0 i r full.1 v.serving_role v.serving_resource v.serving_request
        found in
    let k = Keeps-trans k1 (Keeps-trans k2 k3) in
    let w =
      k.keeps_one (record ia { resp_msg = some n })
        (v.serving_bound, IsServing-Fits ia req i r s v ia.state n) in
    let socket = subst (λ f. Present (f ia.if_id)) (sym k.keeps_sockets) v.serving_socket in
    rw e (
      send_resp-IsSound (record ia { resp_msg = some n }) t w (k.keeps_behind v.serving_behind)
        socket response_sent tt (IsServing-request ia req i r s v))

pub Yields-if : (b : Bool) (x y : Option Stack) → Yields x → Yields y → Yields (if b then x else y)
Yields-if true x y p q = p
Yields-if false x y p q = q

-- The empty acknowledgement was sent, or the interaction is deleted.
after_empty_ack-IsSound :
    (ia : Interaction) (sent : CoapResult × Stack)
    → IsSoundBehind sent.1
    → ((st : InteractionState)
        → Fits ia.role sent.1.resources ia.req_msg ia.resource st ia.resp_msg)
    → ia.retrans_counter ≤ max_retransmit
    → IsSound (after_empty_ack ia sent)
unfolding after_empty_ack
after_empty_ack-IsSound ia (r, s) b f l =
    IsSound-if (is_ok r) _ _ (enqueue_last-IsSound _ s b (l, f resource_postpone_empty_ack_sent))
      (delete_interaction-IsSound ia s b)

-- The acknowledgement of a request that a handler postpones.
empty_ack-Yields :
    (ia : Interaction) (id : ℕ) (s : Stack)
    → IsSoundBehind s
    → Present (s.network.socket ia.if_id)
    → ((st : InteractionState) → IsWellFormed s.resources (record ia { state = st }))
    → Yields
        (and_then (λ x. some (after_empty_ack ia x)) (send_empty_ack id ia.if_id ia.remote_ep s))
unfolding send_empty_ack
empty_ack-Yields ia id s b socket w =
    let (x, e, f) =
      send_msg-Frame (record init_to_empty_reset_msg { type = ack; message_id = id }) ia.if_id
        ia.remote_ep s socket in
    let k = Frame-Keeps s x.2 f in
    rw e (
      _,
      refl,
      after_empty_ack-IsSound ia (x.0, x.2) (k.keeps_behind b)
          (λ st. (k.keeps_one (record ia { state = st }) (w st)).1) (w ia.state).0,
    )

postpone-Yields :
    (ia : Interaction) (req m : Message) (i : ℕ) (r : Resource) (s : Stack)
    → IsServing ia req i r s
    → Yields (postpone ia req m s)
unfolding postpone set_sleep_interaction
postpone-Yields ia req m i r s v =
    let ia' = record ia { resp_msg = some m } in
    Yields-if (is_con req.type && not (is_ack_set ia.req_reliability_state)) _ _
      (empty_ack-Yields ia' req.message_id s v.serving_behind v.serving_socket
        (λ st. (v.serving_bound, IsServing-Fits ia req i r s v st m)))
      (Yields-if (msg_is_older_than s.now req postpone_max_wait_time) _ _
        (respond-Yields ia req (record m { code = resp_service_unavailable_5_03 }) i r s v)
        (
          _,
          refl,
          enqueue_last-IsSound _ s v.serving_behind
              (v.serving_bound, IsServing-Fits ia req i r s v ia.state m),
        ))

-- Neither the response nor the heap, the counters and the calls matter.
pub IsServing-with :
    (ia : Interaction) (req : Message) (i : ℕ) (r : Resource) (s : Stack) (o : Option Message)
    (c : Counters) (h : Heap) (k : ℕ)
    → IsServing ia req i r s
    → IsServing
        (record ia { resp_msg = o })
        req
        i
        r
        (record s { counters = c; heap = h; calls = k })
IsServing-with ia req i r s o c h k v = record {
  serving_role = v.serving_role;
  serving_request = v.serving_request;
  serving_resource = v.serving_resource;
  serving_found = v.serving_found;
  serving_handler = v.serving_handler;
  serving_bound = v.serving_bound;
  serving_behind = v.serving_behind;
  serving_socket = v.serving_socket;
}

after_handler-Yields :
    (ia : Interaction) (req : Message) (i : ℕ) (r : Resource) (s : Stack)
    (a : HandlerResult × Message × Heap)
    → IsServing ia req i r s
    → Yields (after_handler ia req s a)
unfolding after_handler
after_handler-Yields ia req i r s (handler_ok, m, h) v =
    respond-Yields ia req _ i r (record s { heap = h })
      (IsServing-with ia req i r s ia.resp_msg s.counters h s.calls v)
after_handler-Yields ia req i r s (handler_error, m, h) v =
    respond-Yields ia req _ i r (record s { heap = h })
      (IsServing-with ia req i r s ia.resp_msg s.counters h s.calls v)
after_handler-Yields ia req i r s (handler_postpone, m, h) v =
    postpone-Yields ia req m i r (record s { heap = h })
      (IsServing-with ia req i r s ia.resp_msg s.counters h s.calls v)

pub call_with-Yields :
    (ia : Interaction) (req m : Message) (i : ℕ) (r : Resource) (s : Stack) (f : Option Handler)
    → IsServing ia req i r s
    → Present f
    → Yields (call_with ia req s f (some m))
unfolding call_with
call_with-Yields ia req m i r s none v p = elim p [ ]
call_with-Yields ia req m i r s (some f) v p =
    after_handler-Yields ia req i r (record s { calls = suc s.calls })
      (f.on_resp s.calls req m s.heap)
      (IsServing-with ia req i r s ia.resp_msg s.counters s.heap (suc s.calls) v)
