-- ===== src/Work/Unsent.antt =====
-- A notification in CoAP_doWork of coap/server/lobaro-coap/coap_main.c that the network does not
-- take.
use sming_coap.Base.{
  ℕ, ◌≡◌, ◌%◌, refl, sym, List, ◌∷◌, Bool, true, false, Option, none, some, ltb, leb, length, take,
  if◌then◌else◌, and_then,
}
use mathlib.Core.Path.{subst}
use sming_coap.Heap.{Heap, mem_get, mem_release}
use sming_coap.CoapResult.{is_ok}
use sming_coap.Endpoint.{NetEp}
use sming_coap.Message.{Message}
use sming_coap.Message.Build.{build_datagram, get_raw_size_of_message}
use sming_coap.Interaction.{
  Interaction, InteractionState, notification, ready_to_notify, notification_sent,
  get_longest_pending_interaction,
}
use sming_coap.Stack.{
  Stack, Sent, SendState, Network, send_msg, transmit_datagram, send_in_buffer, send_through,
}
use sming_coap.Work.{send_resp, after_resp, delete_logged}
use sming_coap.Work.Notify.{notification_step}
use sming_coap.Work.DoWork.{role_step, work_on, do_work}

-- The network takes no packet.
abbrev pub TakesNone : Network → Type 0
TakesNone n = (k : ℕ) (p : Sent) → n.transmit k p ≡ false

abbrev pub IsRefused : SendState → Type 0
IsRefused (r, m, s) = is_ok r ≡ false

IsRefused-if :
    (b : Bool) (x y : SendState) → IsRefused x → IsRefused y → IsRefused (if b then x else y)
IsRefused-if true x y p q = p
IsRefused-if false x y p q = q

transmit_datagram-IsRefused :
    (f : Heap → Heap) (size i : ℕ) (ep : NetEp) (d : List ℕ × Message × ℕ) (s : Stack)
    → TakesNone s.network
    → IsRefused (transmit_datagram f size i ep d s)
unfolding transmit_datagram
transmit_datagram-IsRefused f size i ep (bytes, m, built) s down =
    rw (down (length s.network.log) (record { if_id = i; receiver = ep; bytes = take size bytes }))
      refl

send_in_buffer-IsRefused :
    (m : Message) (size i : ℕ) (ep : NetEp) (s : Stack) (a : Bool × Heap)
    → TakesNone s.network
    → IsRefused (send_in_buffer m size i ep s a)
unfolding send_in_buffer
send_in_buffer-IsRefused m size i ep s (false, h) down = refl
send_in_buffer-IsRefused m size i ep s (true, h) down =
    transmit_datagram-IsRefused mem_release size i ep (build_datagram m) (record s { heap = h })
      down

send_through-IsRefused :
    (m : Message) (i : ℕ) (ep : NetEp) (s : Stack) (has_tx : Bool)
    → TakesNone s.network
    → IsRefused (send_through m i ep s has_tx)
unfolding send_through
send_through-IsRefused m i ep s has_tx down =
    let size = get_raw_size_of_message m % 65536 in
    IsRefused-if has_tx _ _
      (IsRefused-if (leb size 16) _ _
        (transmit_datagram-IsRefused (λ h. h) size i ep (build_datagram m) s down)
        (send_in_buffer-IsRefused m size i ep s (mem_get size s.heap) down))
      refl

after_resp-null :
    (ia : Interaction) (next : InteractionState) (x : SendState)
    → ia.req_msg ≡ none
    → IsRefused x
    → after_resp ia next x ≡ none
unfolding after_resp delete_logged
after_resp-null ia next (r, m, s) e refused = rw refused (rw e refl)

-- Without a socket, too, nothing follows.
unsent-null :
    (ia : Interaction) (next : InteractionState) (m : Message) (s : Stack)
    → ia.req_msg ≡ none
    → TakesNone s.network
    → and_then (after_resp ia next) (send_msg m ia.if_id ia.remote_ep s) ≡ none
unfolding send_msg
unsent-null ia next m s e down = on (s.network.socket ia.if_id)
  where
    on :
        (o : Option Bool)
        → and_then (after_resp ia next) (elim o [
          | none ↦ none
          | some has_tx ↦ some (send_through m ia.if_id ia.remote_ep s has_tx)
        ])
          ≡ none
    on none = refl
    on (some has_tx) =
        after_resp-null ia next (send_through m ia.if_id ia.remote_ep s has_tx) e
          (send_through-IsRefused m ia.if_id ia.remote_ep s has_tx down)

send_resp-null :
    (ia : Interaction) (next : InteractionState) (s : Stack)
    → ia.req_msg ≡ none
    → TakesNone s.network
    → send_resp ia next s ≡ none
unfolding send_resp
send_resp-null ia next s e down = at ia.resp_msg
  where
    at :
        (o : Option Message)
        → elim o [
          | none ↦ none
          | some m ↦ and_then (after_resp ia next) (send_msg m ia.if_id ia.remote_ep s)
        ]
          ≡ none
    at none = refl
    at (some m) = unsent-null ia next m s e down

-- A notification without a request is due, and the network takes no packet: the step reads through a
-- NULL pointer, whatever the message and the heap are.
pub do_work_unsent :
    (s : Stack) (ia : Interaction) (rest : List Interaction)
    → s.interactions ≡ ia ∷ rest
    → ltb s.now ia.sleep_until ≡ false
    → ia.role ≡ notification
    → ia.state ≡ ready_to_notify
    → ia.req_msg ≡ none
    → TakesNone s.network
    → do_work s ≡ none
unfolding do_work work_on role_step notification_step get_longest_pending_interaction
do_work_unsent s ia rest e awake n st q down =
    subst (λ x. work_on (get_longest_pending_interaction x) s ≡ none) (sym e)
      (rw awake (
        subst (λ x. role_step x ia s ≡ none) (sym n)
          (subst (λ x. notification_step x ia s ≡ none) (sym st)
            (send_resp-null ia notification_sent s q down))))
