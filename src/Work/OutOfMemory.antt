-- ===== src/Work/OutOfMemory.antt =====
-- The response of a request in CoAP_doWork of coap/server/lobaro-coap/coap_main.c, when there is no
-- memory for it.
use sming_coap.Base.{
  ℕ, ◌+◌, ◌≡◌, refl, sym, List, ◌∷◌, false, Option, none, some, ltb, Bool-cases, inl, inr,
  get_elem?, suc,
}
use mathlib.Core.Path.{subst}
use sming_coap.Heap.{Heap, mem_get}
use sming_coap.Message.{
  Message, sizeof_message, empty_code, prefered_payload_size, resp_method_not_allowed_4_05,
}
use sming_coap.Message.Create.{create_message, when_met, alloc_resp_msg}
use sming_coap.Interaction.{Interaction, server, handle_request, get_longest_pending_interaction}
use sming_coap.Resource.{
  Resource, Handler, HandlerResult, handler_ok, handler_error, HandlerResult, handler_ok,
  handler_postpone, handler_error,
}
use sming_coap.Stack.{Stack}
use sming_coap.Work.{send_resp}
use sming_coap.Work.Server.{
  is_not_allowed, with_resp, refuse_method, call_with, call_handler, ensure_resp, handle_with,
  handle_on, handle_at, handle_request_state, server_step, after_null,
}
use sming_coap.Work.DoWork.{role_step, work_on, do_work}

-- The next request for memory is refused, whatever its size.
abbrev pub Refusing : Heap → Type 0
Refusing h = (n : ℕ) → h.verdict h.requests n ≡ false

with_resp-null :
    (req : Message) (code size : ℕ) (ia : Interaction) (s : Stack)
    → Refusing s.heap
    → (with_resp req code size ia s).0.resp_msg ≡ none
unfolding with_resp alloc_resp_msg create_message mem_get when_met
with_resp-null req code size ia s full = rw (full (sizeof_message + size)) refl

with_resp-calls :
    (req : Message) (code size : ℕ) (ia : Interaction) (s : Stack)
    → (with_resp req code size ia s).1.calls ≡ s.calls
unfolding with_resp
with_resp-calls req code size ia s = refl

send_resp-null : (x : Interaction × Stack) → x.0.resp_msg ≡ none → refuse_method x ≡ none
unfolding refuse_method send_resp
send_resp-null (ia, s) e = rw e refl

-- The handler does not answer with a postponement.
abbrev Settles : Option (HandlerResult × Heap) → Type 0
Settles none = Unit {0}
Settles (some (handler_ok, h)) = Unit {0}
Settles (some (handler_error, h)) = Unit {0}
Settles (some (handler_postpone, h)) = ⊥

-- The handler of the resource, if any, does not postpone this request where there is no response.
abbrev pub NeverPostpones : ℕ → Message → Option Handler → Type 0
NeverPostpones k req none = Unit {0}
NeverPostpones k req (some f) = (h : Heap) → Settles (f.on_null k req h)

after_null-null :
    (ia : Interaction) (req : Message) (s : Stack) (a : Option (HandlerResult × Heap))
    → Settles a
    → after_null ia req s a ≡ none
unfolding after_null
after_null-null ia req s none p = refl
after_null-null ia req s (some (handler_ok, h)) p = refl
after_null-null ia req s (some (handler_error, h)) p = refl
after_null-null ia req s (some (handler_postpone, h)) p = elim p [ ]

call_with-null :
    (ia : Interaction) (req : Message) (s : Stack) (f : Option Handler)
    → NeverPostpones s.calls req f
    → call_with ia req s f none ≡ none
unfolding call_with
call_with-null ia req s none p = refl
call_with-null ia req s (some f) p =
    after_null-null ia req (record s { calls = suc s.calls }) (f.on_null s.calls req s.heap)
      (p s.heap)

call_handler-null :
    (req : Message) (r : Resource) (x : Interaction × Stack)
    → x.0.resp_msg ≡ none
    → NeverPostpones x.1.calls req r.handler
    → call_handler req r x ≡ none
unfolding call_handler
call_handler-null req r (ia, s) e p =
    subst (λ y. call_with ia req s r.handler y ≡ none) (sym e) (call_with-null ia req s r.handler p)

handle_with-null :
    (ia : Interaction) (req : Message) (r : Resource) (s : Stack)
    → Refusing s.heap
    → ia.resp_msg ≡ none
    → NeverPostpones s.calls req r.handler
    → handle_with req r ia s ≡ none
unfolding handle_with ensure_resp
handle_with-null ia req r s full e p = elim (Bool-cases (is_not_allowed req.code r.flags)) [
  | inl f ↦ rw f (
      send_resp-null (with_resp req resp_method_not_allowed_4_05 0 ia s)
        (with_resp-null req resp_method_not_allowed_4_05 0 ia s full))
  | inr f ↦ rw f (
      subst (λ x. call_handler req r (ensure_resp req ia s x) ≡ none) (sym e)
        (call_handler-null req r (with_resp req empty_code prefered_payload_size ia s)
          (with_resp-null req empty_code prefered_payload_size ia s full)
          (subst (λ k. NeverPostpones k req r.handler)
            (sym (with_resp-calls req empty_code prefered_payload_size ia s)) p)))
]

handle_request-null :
    (ia : Interaction) (req : Message) (i : ℕ) (r : Resource) (s : Stack)
    → ia.req_msg ≡ some req
    → ia.resource ≡ some i
    → get_elem? s.resources i ≡ some r
    → ia.resp_msg ≡ none
    → Refusing s.heap
    → NeverPostpones s.calls req r.handler
    → handle_request_state ia s ≡ none
unfolding handle_request_state handle_at handle_on
handle_request-null ia req i r s q at f resp full p =
    subst (λ x. handle_at ia s x ia.resource ≡ none) (sym q)
      (subst (λ x. handle_at ia s (some req) x ≡ none) (sym at)
        (subst (λ x. handle_on req ia s x ≡ none) (sym f)
          (handle_with-null ia req r s full resp p)))

-- A request that is handled for the first time while no memory is left for its response, by a handler
-- that does not postpone when it is given a NULL pointer for the response: the step reads through a
-- NULL pointer, in the handler or behind its call.
pub do_work_null :
    (s : Stack) (ia : Interaction) (rest : List Interaction) (req : Message) (i : ℕ) (r : Resource)
    → s.interactions ≡ ia ∷ rest
    → ltb s.now ia.sleep_until ≡ false
    → ia.role ≡ server
    → ia.state ≡ handle_request
    → ia.req_msg ≡ some req
    → ia.resource ≡ some i
    → get_elem? s.resources i ≡ some r
    → ia.resp_msg ≡ none
    → Refusing s.heap
    → NeverPostpones s.calls req r.handler
    → do_work s ≡ none
unfolding do_work work_on role_step server_step get_longest_pending_interaction
do_work_null s ia rest req i r e awake srv st q at f resp full p =
    subst (λ x. work_on (get_longest_pending_interaction x) s ≡ none) (sym e)
      (rw awake (
        subst (λ x. role_step x ia s ≡ none) (sym srv)
          (subst (λ x. server_step x ia s ≡ none) (sym st)
            (handle_request-null ia req i r s q at f resp full p))))
