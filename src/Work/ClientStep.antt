-- ===== src/Work/ClientStep.antt =====
-- The client's step of CoAP_doWork in coap/server/lobaro-coap/coap_main.c keeps the stack sound.
use sming_coap.Base.{
  ℕ, ◌<◌, ◌≡◌, ◌⊎◌, inl, inr, refl, arith, Bool, true, false, Option, none, some, if◌then◌else◌,
  Bool-cases,
}
use sming_coap.CoapResult.{
  CoapResult, waiting, retry, err_out_of_attempts, err_timeout, err_remote_rst, ok, holding_back,
  err_argument,
}
use sming_coap.Message.{Message, MessageType, con, non, ack, rst, msg_is_older_than}
use sming_coap.Interaction.{
  Interaction, InteractionState, ready_to_request, waiting_response, handle_response, state_not_set,
  handle_request, resource_postpone_empty_ack_sent, response_sent, ready_to_notify,
  notification_sent, finished, max_retransmit, client, ReliabilityState, not_set, ack_set, rst_set,
  client_max_resp_wait_time,
}
use sming_coap.Stack.{Stack}
use sming_coap.Work.{
  delete_interaction, retry_status, req_status, check_req_status, unless_reset, is_ack_set,
}
use sming_coap.Work.Client.{on_req_status, call_callback, client_step, hand_over}
use sming_coap.Work.WellFormed.{Present, IsWellFormed, IsSoundBehind, Yields}
use sming_coap.Work.Sent.{send_req-IsSound, resend_req-IsSound}
use sming_coap.Work.Stored.{enqueue_last-IsSound, delete_interaction-IsSound}

-- What a status that is not a reset can be; another attempt needs one to be left.
abbrev pub Progress : Interaction → CoapResult → Type 0
Progress ia r =
    (r ≡ waiting)
    ⊎ ((r ≡ retry) × (ia.retrans_counter < max_retransmit))
    ⊎ (r ≡ err_out_of_attempts)
    ⊎ (r ≡ err_timeout)
    ⊎ (r ≡ ok)
    ⊎ (r ≡ holding_back)
    ⊎ (r ≡ err_argument)
    ⊎ (r ≡ err_remote_rst)

pub retry_status-Progress : (now : ℕ) (ia : Interaction) → Progress ia (retry_status now ia)
unfolding retry_status
retry_status-Progress now ia = ground arith

pub Progress-if :
    (ia : Interaction) (b : Bool) (x y : CoapResult)
    → Progress ia x
    → Progress ia y
    → Progress ia (if b then x else y)
Progress-if ia true x y p q = p
Progress-if ia false x y p q = q

req_status-Progress :
    (t : MessageType) (old : Bool) (now : ℕ) (ia : Interaction)
    → Progress ia (req_status t old now ia)
unfolding req_status
req_status-Progress con old now ia =
    Progress-if ia (is_ack_set ia.req_reliability_state) _ _
      (Progress-if ia old err_timeout waiting (ground arith) (ground arith))
      (retry_status-Progress now ia)
req_status-Progress non old now ia =
    Progress-if ia old err_timeout waiting (ground arith) (ground arith)
req_status-Progress ack old now ia =
    Progress-if ia old err_timeout waiting (ground arith) (ground arith)
req_status-Progress rst old now ia =
    Progress-if ia old err_timeout waiting (ground arith) (ground arith)

-- The check of a message that is there gives a status.
pub unless_reset-Progress :
    (ia : Interaction) (u : ReliabilityState) (o : Option Message) (f : Message → CoapResult)
    → Present o
    → ((m : Message) → Progress ia (f m))
    → (r : CoapResult) × (unless_reset u (elim o [ none ↦ none | some m ↦ some (f m) ]) ≡ some r)
      × Progress ia r
unfolding unless_reset
unless_reset-Progress ia u none f p g = elim p [ ]
unless_reset-Progress ia rst_set (some m) f p g = (err_remote_rst, refl, ground arith)
unless_reset-Progress ia not_set (some m) f p g = (f m, refl, g m)
unless_reset-Progress ia ack_set (some m) f p g = (f m, refl, g m)

module _ (ia : Interaction) (s : Stack) (c : ia.role ≡ client) (w : IsWellFormed s.resources ia)
    (b : IsSoundBehind s) (k : Present (s.network.socket ia.if_id)) where
  deleted : Yields (some (delete_interaction ia s))
  deleted = (_, refl, delete_interaction-IsSound ia s b)

  on_req_status-IsSound :
      (r : CoapResult) → Present ia.req_msg → Progress ia r → Yields (on_req_status ia s (some r))
  unfolding on_req_status
  on_req_status-IsSound r p (inl e) = rw e (_, refl, enqueue_last-IsSound ia s b w)
  on_req_status-IsSound r p (inr (inl (e, l))) = rw e (resend_req-IsSound ia s w b k l c p)
  on_req_status-IsSound r p (inr (inr (inl e))) = rw e deleted
  on_req_status-IsSound r p (inr (inr (inr (inl e)))) = rw e deleted
  on_req_status-IsSound r p (inr (inr (inr (inr (inl e))))) = rw e deleted
  on_req_status-IsSound r p (inr (inr (inr (inr (inr (inl e)))))) = rw e deleted
  on_req_status-IsSound r p (inr (inr (inr (inr (inr (inr (inl e))))))) = rw e deleted
  on_req_status-IsSound r p (inr (inr (inr (inr (inr (inr (inr e))))))) = rw e deleted

  waiting-IsSound : Present ia.req_msg → Yields (on_req_status ia s (check_req_status s.now ia))
  unfolding check_req_status
  waiting-IsSound p =
      let (r, e, q) = unless_reset-Progress ia ia.req_reliability_state ia.req_msg _ p (λ m.
        req_status-Progress m.type (msg_is_older_than s.now m client_max_resp_wait_time) s.now
          ia) in
      rw e (on_req_status-IsSound r p q)

  hand_over-IsSoundBehind : (o : Option Message) → IsSoundBehind (hand_over o ia.remote_ep s)
  unfolding hand_over
  hand_over-IsSoundBehind none = b
  hand_over-IsSoundBehind (some m) = b

  callback-IsSoundBehind : IsSoundBehind (call_callback ia s)
  unfolding call_callback
  callback-IsSoundBehind = elim (Bool-cases ia.resp_cb) [
    | inl e ↦ rw e (hand_over-IsSoundBehind ia.resp_msg)
    | inr e ↦ rw e b
  ]

  pub client_step-IsSound :
      (st : InteractionState) → Present ia.req_msg → Yields (client_step st ia s)
  unfolding client_step
  client_step-IsSound ready_to_request p = send_req-IsSound ia s w b k waiting_response c p
  client_step-IsSound waiting_response p = waiting-IsSound p
  client_step-IsSound handle_response p =
      (_, refl, delete_interaction-IsSound ia (call_callback ia s) callback-IsSoundBehind)
  client_step-IsSound state_not_set p = deleted
  client_step-IsSound handle_request p = deleted
  client_step-IsSound resource_postpone_empty_ack_sent p = deleted
  client_step-IsSound response_sent p = deleted
  client_step-IsSound ready_to_notify p = deleted
  client_step-IsSound notification_sent p = deleted
  client_step-IsSound finished p = deleted
