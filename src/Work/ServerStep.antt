-- ===== src/Work/ServerStep.antt =====
-- The server's step of CoAP_doWork in coap/server/lobaro-coap/coap_main.c keeps the stack sound.
use sming_coap.Work.ClientStep.{Progress, unless_reset-Progress, Progress-if, retry_status-Progress}
use sming_coap.Work.Sent.{send_resp-IsSound, resend_resp-IsSound}
use sming_coap.Work.Stored.{enqueue_last-IsSound, delete_interaction-IsSound}
use sming_coap.Base.{◌≤◌, ◌+◌, le→ltb, some}
use sming_coap.Base.{refl, none, some, inl, inr, Bool, arith, sym, ◌≡◌, ℕ, Option, ◌≤◌}
use mathlib.Core.Path.{subst, sym, ◌≡◌, ap}
use sming_coap.Heap.{Heap, Generous, mem_get}
use sming_coap.CoapResult.{CoapResult, ok, holding_back}
use sming_coap.Message.{
  con, non, rst, ack, Message, MessageType, msg_is_older_than, sizeof_message,
  resp_method_not_allowed_4_05, empty_code, prefered_payload_size,
}
use sming_coap.Message.Create.{
  create_message, alloc_resp_msg, Counters, fill_message, get_resp_msg_id, when_met,
  get_resp_msg_type,
}
use sming_coap.Interaction.{
  InteractionState, handle_request, state_not_set, ready_to_notify, notification_sent,
  ready_to_request, waiting_response, handle_response, finished, Interaction, server,
  max_retransmit, response_sent, InteractionState, resource_postpone_empty_ack_sent,
  holdtime_after_non_transaction_end,
}
use sming_coap.Resource.{Resource}
use sming_coap.Stack.{Stack}
use sming_coap.Work.{is_ack_set, resp_status, check_resp_status}
use sming_coap.Work.Serving.{
  IsServing, IsServing-Fits, IsServing-with, call_with-Yields, Yields-if, IsServing-request,
}
use sming_coap.Work.Server.{
  with_resp, call_handler, call_with, handle_with, refuse_method, is_not_allowed, ensure_resp,
  handle_request_state, on_resp_status, handle_at, handle_on, server_step,
}
use sming_coap.Work.WellFormed.{
  Present, Serves, Fits, IsWellFormed, IsSoundBehind, IsSound, Yields, RespReady,
}

create_message-met :
    (t : MessageType) (code id size token : ℕ) (h : Heap)
    → Generous h
    → (m : Message) × (k : Heap) × (create_message t code id none 0 size token h ≡ (some m, k))
unfolding create_message mem_get fill_message when_met
create_message-met t code id size token h g =
    rw (g h.requests (sizeof_message + size), le→ltb size 0 (omega arith)) (_, _, refl)

-- The response of a request, where memory is given.
with_resp-Present :
    (req : Message) (code size : ℕ) (ia : Interaction) (s : Stack)
    → Generous s.heap
    → (m : Message) × (c : Counters) × (h : Heap) × (with_resp req code size ia s
        ≡ (record ia { resp_msg = some m }, record s { heap = h; counters = c }))
unfolding with_resp alloc_resp_msg
with_resp-Present req code size ia s g =
    let id = get_resp_msg_id req s.counters in
    let (m, k, e) = create_message-met (get_resp_msg_type req) code id.0 size req.token s.heap g in
    (
      m,
      id.1,
      k,
      ap
          (λ (x : Option Message × Heap).
            (record ia { resp_msg = x.0 }, record s { heap = x.1; counters = id.1 }))
          e,
    )

refuse_method-Yields :
    (ia : Interaction) (req m : Message) (i : ℕ) (r : Resource) (s : Stack)
    → IsServing ia req i r s
    → Yields (refuse_method (record ia { resp_msg = some m }, s))
unfolding refuse_method
refuse_method-Yields ia req m i r s v =
    send_resp-IsSound (record ia { resp_msg = some m }) s
      (v.serving_bound, IsServing-Fits ia req i r s v ia.state m) v.serving_behind v.serving_socket
      response_sent tt (IsServing-request ia req i r s v)

ensured-Yields :
    (ia : Interaction) (req : Message) (i : ℕ) (r : Resource) (s : Stack) (o : Option Message)
    → Generous s.heap
    → IsServing ia req i r s
    → ia.resp_msg ≡ o
    → Yields (call_handler req r (ensure_resp req ia s o))
unfolding ensure_resp call_handler
ensured-Yields ia req i r s none g v e =
    let (m, c, h, w) = with_resp-Present req empty_code prefered_payload_size ia s g in
    subst (λ x. Yields (call_handler req r x)) (sym w)
      (call_with-Yields (record ia { resp_msg = some m }) req m i r
        (record s { counters = c; heap = h }) r.handler
        (IsServing-with ia req i r s (some m) c h s.calls v) v.serving_handler)
ensured-Yields ia req i r s (some m) g v e =
    subst (λ x. Yields (call_with ia req s r.handler x)) (sym e)
      (call_with-Yields ia req m i r s r.handler v v.serving_handler)

handle_with-Yields :
    (ia : Interaction) (req : Message) (i : ℕ) (r : Resource) (s : Stack)
    → Generous s.heap
    → IsServing ia req i r s
    → Yields (handle_with req r ia s)
unfolding handle_with
handle_with-Yields ia req i r s g v =
    let (m, c, h, e) = with_resp-Present req resp_method_not_allowed_4_05 0 ia s g in
    Yields-if (is_not_allowed req.code r.flags) _ _
      (subst (λ x. Yields (refuse_method x)) (sym e)
        (refuse_method-Yields ia req m i r (record s { counters = c; heap = h })
          (IsServing-with ia req i r s ia.resp_msg c h s.calls v)))
      (ensured-Yields ia req i r s ia.resp_msg g v refl)

handle_request-Yields :
    (ia : Interaction) (req : Message) (i : ℕ) (r : Resource) (s : Stack)
    → Generous s.heap
    → IsServing ia req i r s
    → Yields (handle_request_state ia s)
unfolding handle_request_state handle_at handle_on
handle_request-Yields ia req i r s g v =
    subst (λ x. Yields (handle_at ia s x ia.resource)) (sym v.serving_request)
      (subst (λ x. Yields (handle_at ia s (some req) x)) (sym v.serving_resource)
        (subst (λ x. Yields (handle_on req ia s x)) (sym v.serving_found)
          (handle_with-Yields ia req i r s g v)))

resp_status-Progress :
    (t : MessageType) (old : Bool) (now : ℕ) (ia : Interaction)
    → Progress ia (resp_status t old now ia)
unfolding resp_status
resp_status-Progress con old now ia =
    Progress-if ia (is_ack_set ia.resp_reliability_state) ok _ (ground arith)
      (retry_status-Progress now ia)
resp_status-Progress non old now ia =
    Progress-if ia old ok holding_back (ground arith) (ground arith)
resp_status-Progress ack old now ia =
    Progress-if ia old ok holding_back (ground arith) (ground arith)
resp_status-Progress rst old now ia = ground arith

-- The check of a response that was sent.
pub check_resp_status-Progress :
    (now : ℕ) (ia : Interaction)
    → Present ia.resp_msg
    → (r : CoapResult) × (check_resp_status now ia ≡ some r) × Progress ia r
unfolding check_resp_status
check_resp_status-Progress now ia p =
    unless_reset-Progress ia ia.resp_reliability_state ia.resp_msg _ p (λ m.
      resp_status-Progress m.type (msg_is_older_than now m holdtime_after_non_transaction_end) now
        ia)

on_resp_status-IsSound :
    (ia : Interaction) (s : Stack) (r : CoapResult)
    → IsWellFormed s.resources ia
    → IsSoundBehind s
    → Present (s.network.socket ia.if_id)
    → Present ia.resp_msg
    → Present ia.req_msg
    → Progress ia r
    → Yields (on_resp_status ia s (some r))
unfolding on_resp_status
on_resp_status-IsSound ia s r w b k p q (inl e) = rw e (_, refl, enqueue_last-IsSound ia s b w)
on_resp_status-IsSound ia s r w b k p q (inr (inl (e, l))) =
    rw e (resend_resp-IsSound ia s w b k l p q)
on_resp_status-IsSound ia s r w b k p q (inr (inr (inl e))) =
    rw e (_, refl, delete_interaction-IsSound ia s b)
on_resp_status-IsSound ia s r w b k p q (inr (inr (inr (inl e)))) =
    rw e (_, refl, delete_interaction-IsSound ia s b)
on_resp_status-IsSound ia s r w b k p q (inr (inr (inr (inr (inl e))))) =
    rw e (_, refl, delete_interaction-IsSound ia s b)
on_resp_status-IsSound ia s r w b k p q (inr (inr (inr (inr (inr (inl e)))))) =
    rw e (_, refl, enqueue_last-IsSound ia s b w)
on_resp_status-IsSound ia s r w b k p q (inr (inr (inr (inr (inr (inr (inl e))))))) =
    rw e (_, refl, delete_interaction-IsSound ia s b)
on_resp_status-IsSound ia s r w b k p q (inr (inr (inr (inr (inr (inr (inr e))))))) =
    rw e (_, refl, delete_interaction-IsSound ia s b)

-- What a well-formed server interaction points to.
IsServing-of :
    (ia : Interaction) (s : Stack) (o : Option Message) (res : Option ℕ)
    → ia.role ≡ server
    → ia.req_msg ≡ o
    → ia.resource ≡ res
    → ia.retrans_counter ≤ max_retransmit
    → IsSoundBehind s
    → Present (s.network.socket ia.if_id)
    → Present o
    → Serves s.resources res
    → (req : Message) × (i : ℕ) × (r : Resource) × IsServing ia req i r s
IsServing-of ia s none res e eo er l b k p v = elim p [ ]
IsServing-of ia s (some req) none e eo er l b k p v = elim v [ ]
IsServing-of ia s (some req) (some i) e eo er l b k p (r, f, h) = (
  req,
  i,
  r,
  record {
    serving_role = e;
    serving_request = eo;
    serving_resource = er;
    serving_found = f;
    serving_handler = h;
    serving_bound = l;
    serving_behind = b;
    serving_socket = k;
  },
)

module _ (ia : Interaction) (s : Stack) (e : ia.role ≡ server) (w : IsWellFormed s.resources ia)
    (b : IsSoundBehind s) (sound : IsSound s) (g : Generous s.heap)
    (k : Present (s.network.socket ia.if_id)) where
  parts : Fits server s.resources ia.req_msg ia.resource ia.state ia.resp_msg
  parts = subst (λ x. Fits x s.resources ia.req_msg ia.resource ia.state ia.resp_msg) e w.1

  handled : Yields (handle_request_state ia s)
  handled =
      let (req, i, r, v) =
        IsServing-of ia s ia.req_msg ia.resource e refl refl w.0 b k parts.0 parts.1 in
      handle_request-Yields ia req i r s g v

  RespReady-Present : (o : Option Message) → RespReady response_sent o → Present o
  RespReady-Present none r = r
  RespReady-Present (some m) r = tt

  pub server_step-IsSound : (st : InteractionState) → ia.state ≡ st → Yields (server_step st ia s)
  unfolding server_step
  server_step-IsSound handle_request q = handled
  server_step-IsSound resource_postpone_empty_ack_sent q = handled
  server_step-IsSound response_sent q =
      let p = RespReady-Present ia.resp_msg (subst (λ x. RespReady x ia.resp_msg) q parts.2) in
      let (r, c, t) = check_resp_status-Progress s.now ia p in
      subst (λ x. Yields (on_resp_status ia s x)) (sym c)
        (on_resp_status-IsSound ia s r w b k p parts.0 t)
  server_step-IsSound state_not_set q = (s, refl, sound)
  server_step-IsSound ready_to_notify q = (s, refl, sound)
  server_step-IsSound notification_sent q = (s, refl, sound)
  server_step-IsSound ready_to_request q = (s, refl, sound)
  server_step-IsSound waiting_response q = (s, refl, sound)
  server_step-IsSound handle_response q = (s, refl, sound)
  server_step-IsSound finished q = (s, refl, sound)
