-- ===== src/Work/NotifyStep.antt =====
-- The notificator's step of CoAP_doWork in coap/server/lobaro-coap/coap_main.c keeps the stack sound.
use sming_coap.Base.{
  ℕ, suc, ◌<◌, ◌≡◌, inl, inr, refl, sym, arith, false, Option, none, some, ◌∙◌, true, Bool, ap,
  if◌then◌else◌,
}
use mathlib.Core.Path.{subst}
use sming_coap.Heap.{Heap}
use sming_coap.CoapResult.{CoapResult, retry}
use sming_coap.Message.{Message}
use sming_coap.Message.Create.{get_next_mid}
use sming_coap.Interaction.{
  Interaction, notification, InteractionState, state_not_set, handle_request,
  resource_postpone_empty_ack_sent, response_sent, ready_to_notify, notification_sent,
  ready_to_request, waiting_response, handle_response, finished, max_retransmit, not_set,
}
use sming_coap.Resource.{
  Resource, Notifier, HandlerResult, handler_ok, handler_postpone, handler_error,
}
use sming_coap.Stack.{Stack}
use sming_coap.Work.{delete_interaction, resend_resp, send_resp, check_resp_status}
use sming_coap.Work.Notify.{
  after_notifier, call_notifier, refresh_on, refresh_at, refresh_notification, keep_type,
  resend_refreshed, retry_notification, enqueue_refreshed, finish_notification, delete_after,
  abort_with, abort_notification, on_notification_status, notification_step,
}
use sming_coap.Work.WellFormed.{
  Present, Notifies, Fits, IsWellFormed, IsSoundBehind, IsSound, Yields, YieldsUnless,
}
use sming_coap.Work.Sent.{Unsent, RespUnsent, resend_resp-YieldsUnless, send_resp-YieldsUnless}
use sming_coap.Work.Stored.{enqueue_last-IsSound, delete_interaction-IsSound, Fits-answered}
use sming_coap.Work.Keeps.{Keeps, remove_interactions_observer-Keeps}
use sming_coap.Work.ClientStep.{Progress}
use sming_coap.Work.Observed.{changed-Keeps}
use sming_coap.Work.ServerStep.{check_resp_status-Progress}
use sming_coap.Work.Serving.{Yields-if}

-- The interaction with another response, which is there, and what is kept beside it.
abbrev Refreshed : Interaction → Stack → Option (Interaction × Stack) → Type 0
Refreshed ia s o =
    (m : Message) × (t : Stack) × (o ≡ some (record ia { resp_msg = some m }, t)) × Keeps s t

after_notifier-Refreshed :
    (ia : Interaction) (r : Resource) (s : Stack) (m : Message) (h : Heap) (result : HandlerResult)
    → Refreshed ia s (after_notifier ia r s (result, m, h))
unfolding after_notifier
after_notifier-Refreshed ia r s m h handler_ok = (_, _, refl, changed-Keeps s s.counters _)
after_notifier-Refreshed ia r s m h handler_postpone = (_, _, refl, changed-Keeps s s.counters _)
after_notifier-Refreshed ia r s m h handler_error = (_, _, refl, changed-Keeps s s.counters _)

call_notifier-Refreshed :
    (ia : Interaction) (m : Message) (r : Resource) (s : Stack) (f : Option Notifier)
    → Present f
    → Refreshed ia s (call_notifier ia m r s f)
unfolding call_notifier
call_notifier-Refreshed ia m r s none p = elim p [ ]
call_notifier-Refreshed ia m r s (some f) p =
    let a = f s.calls m s.heap in
    let (n, t, e, k) =
      after_notifier-Refreshed ia r (record s { calls = suc s.calls }) a.1 a.2 a.0 in
    (
      n,
      t,
      e,
      record {
        keeps_one = k.keeps_one;
        keeps_behind = k.keeps_behind;
        keeps_sockets = k.keeps_sockets;
      },
    )

refresh-Refreshed :
    (ia : Interaction) (s : Stack) (o : Option Message) (res : Option ℕ)
    → Present o
    → Notifies s.resources res
    → Refreshed (record ia { update_pending_notification = false }) s (refresh_at ia s o res)
unfolding refresh_at refresh_on
refresh-Refreshed ia s none res p v = elim p [ ]
refresh-Refreshed ia s (some m) none p v = elim v [ ]
refresh-Refreshed ia s (some m) (some i) p (r, e, f) =
    subst
      (λ x. Refreshed (record ia { update_pending_notification = false }) s (refresh_on ia m s x))
      (sym e)
      (let (n, t, q, k) =
          call_notifier-Refreshed (record ia { update_pending_notification = false })
            (record m { message_id = (get_next_mid s.counters).0 }) r
            (record s { counters = (get_next_mid s.counters).1 }) r.notifier f in
        (
          n,
          t,
          q,
          record {
            keeps_one = k.keeps_one;
            keeps_behind = k.keeps_behind;
            keeps_sockets = k.keeps_sockets;
          },
        ))

-- The notification that a step sends, and the stack in which it does: the one that is ready, the one
-- whose time to be acknowledged is over and whose attempts are not used up, or the latter after it
-- was refreshed.
pub data Due (ia : Interaction) (s : Stack) : Interaction → Stack → Type 0 where
  first : ia.state ≡ ready_to_notify → Due ia s ia s
  again :
      ia.state ≡ notification_sent
      → check_resp_status s.now ia ≡ some retry
      → ia.update_pending_notification ≡ false
      → Due ia s ia s
  fresh :
      {ib : Interaction} {t : Stack}
      → ia.state ≡ notification_sent
      → check_resp_status s.now ia ≡ some retry
      → ia.update_pending_notification ≡ true
      → refresh_notification ia s ≡ some (ib, t)
      → Due ia s (record ib { resp_msg = keep_type ia.resp_msg ib.resp_msg }) t

-- There is no request, and the sending of the notification that is due fails.
abbrev pub DueUnsent : Interaction → Stack → Type 0
DueUnsent ia s =
    (ia.req_msg ≡ none) × ((ib : Interaction) × (t : Stack) × Due ia s ib t × RespUnsent t ib)

module _ (ia : Interaction) (s : Stack) (e : ia.role ≡ notification)
    (w : IsWellFormed s.resources ia) (b : IsSoundBehind s) (sound : IsSound s)
    (socket : Present (s.network.socket ia.if_id)) where
  parts : Present ia.resp_msg × Notifies s.resources ia.resource
  parts = subst (λ x. Fits x s.resources ia.req_msg ia.resource ia.state ia.resp_msg) e w.1

  -- The interaction fits with any response, in any state.
  fits :
      (st : InteractionState) (m : Message)
      → Fits ia.role s.resources ia.req_msg ia.resource st (some m)
  fits st m = Fits-answered ia.role s.resources ia.req_msg ia.resp_msg ia.resource ia.state st m w.1

  keep_type-some :
      (o : Option Message) (m : Message) → (n : Message) × (keep_type o (some m) ≡ some n)
  unfolding keep_type
  keep_type-some none m = (m, refl)
  keep_type-some (some k) m = (_, refl)

  refreshed :
      Refreshed (record ia { update_pending_notification = false }) s (refresh_notification ia s)
  unfolding refresh_notification
  refreshed = refresh-Refreshed ia s ia.resp_msg ia.resource parts.0 parts.1

  -- The notification was not sent, and the step meets the NULL pointer of its request.
  abbrev Fate : Option Stack → Type 0
  Fate o = YieldsUnless (DueUnsent ia s) o

  Due-Fate :
      (ib : Interaction) (t : Stack) (o : Option Stack)
      → ib.req_msg ≡ ia.req_msg
      → Due ia s ib t
      → YieldsUnless (Unsent t ib) o
      → Fate o
  Due-Fate ib t o same d (inl y) = inl y
  Due-Fate ib t o same d (inr (x, (n, u))) = inr (x, (sym same ∙ n, (ib, t, d, u)))

  Fate-if :
      (c : Bool) (x y : Option Stack)
      → (c ≡ true → Fate x)
      → (c ≡ false → Fate y)
      → Fate (if c then x else y)
  Fate-if true x y p q = p refl
  Fate-if false x y p q = q refl

  retry-Fate :
      ia.state ≡ notification_sent
      → check_resp_status s.now ia ≡ some retry
      → ia.retrans_counter < max_retransmit
      → Fate (retry_notification ia s)
  unfolding retry_notification resend_refreshed
  retry-Fate st c l =
      Fate-if ia.update_pending_notification _ _
        (λ x.
          let (m, t, q, k) = refreshed in
          let (n, z) = keep_type-some ia.resp_msg m in
          let ia' = record ia { update_pending_notification = false; resp_msg = some n } in
          let ib = record ia {
            update_pending_notification = false;
            resp_msg = keep_type ia.resp_msg (some m);
          } in
          let same : ia' ≡ ib =
            ap
              (λ (y : Option Message). record ia {
                update_pending_notification = false;
                resp_msg = y;
              })
              (sym z) in
          subst (λ y. Fate (resend_refreshed ia.resp_msg y)) (sym q)
            (Due-Fate ib t (resend_resp ib t) refl (fresh st c x q) (
              subst (λ y. YieldsUnless (Unsent t y) (resend_resp y t)) same
                (resend_resp-YieldsUnless ia' t (k.keeps_one ia' (w.0, fits ia.state n))
                  (k.keeps_behind b)
                  (subst (λ f. Present (f ia.if_id)) (sym k.keeps_sockets) socket) l tt))))
        (λ x.
          Due-Fate ia s (resend_resp ia s) refl (again st c x)
            (resend_resp-YieldsUnless ia s w b socket l parts.0))

  finish-Yields : Yields (finish_notification ia s)
  unfolding finish_notification enqueue_refreshed refresh_notification
  finish-Yields =
      let ib = record ia {
        state = ready_to_notify;
        retrans_counter = 0;
        resp_reliability_state = not_set;
      } in
      let (m, t, q, k) = refresh-Refreshed ib s ia.resp_msg ia.resource parts.0 parts.1 in
      let ia' = record ib { update_pending_notification = false; resp_msg = some m } in
      Yields-if ia.update_pending_notification _ _
        (subst (λ x. Yields (enqueue_refreshed x)) (sym q)
          (
            _,
            refl,
            enqueue_last-IsSound ia' t (k.keeps_behind b)
                (k.keeps_one ia' (omega arith, fits ready_to_notify m)),
          ))
        (_, refl, delete_interaction-IsSound ia s b)

  abort_with-Yields :
      (o : Option Message) (res : Option ℕ)
      → ia.resource ≡ res
      → Present o
      → Notifies s.resources res
      → Yields (abort_with ia s o)
  unfolding abort_with delete_after
  abort_with-Yields none res q p v = elim p [ ]
  abort_with-Yields (some m) none q p v = elim v [ ]
  abort_with-Yields (some m) (some i) q p (r, f, h) =
      let (t, x, same, k) = remove_interactions_observer-Keeps ia m.token s i r q f in
      subst (λ y. Yields (delete_after ia y)) (sym x)
        (_, refl, delete_interaction-IsSound ia t (k.keeps_behind b))

  abort-Yields : Yields (abort_notification ia s)
  unfolding abort_notification
  abort-Yields = abort_with-Yields ia.resp_msg ia.resource refl parts.0 parts.1

  deleted : Yields (some (delete_interaction ia s))
  deleted = (_, refl, delete_interaction-IsSound ia s b)

  on_status-Fate :
      (r : CoapResult)
      → ia.state ≡ notification_sent
      → check_resp_status s.now ia ≡ some r
      → Progress ia r
      → Fate (on_notification_status ia s (some r))
  unfolding on_notification_status
  on_status-Fate r st c (inl x) = rw x (inl (_, refl, enqueue_last-IsSound ia s b w))
  on_status-Fate r st c (inr (inl (x, l))) = rw x (retry-Fate st (rw x at c) l)
  on_status-Fate r st c (inr (inr (inl x))) = rw x (inl abort-Yields)
  on_status-Fate r st c (inr (inr (inr (inl x)))) = rw x (inl deleted)
  on_status-Fate r st c (inr (inr (inr (inr (inl x))))) = rw x (inl finish-Yields)
  on_status-Fate r st c (inr (inr (inr (inr (inr (inl x)))))) =
      rw x (inl (_, refl, enqueue_last-IsSound ia s b w))
  on_status-Fate r st c (inr (inr (inr (inr (inr (inr (inl x))))))) = rw x (inl deleted)
  on_status-Fate r st c (inr (inr (inr (inr (inr (inr (inr x))))))) = rw x (inl abort-Yields)

  pub notification_step-Fate :
      (st : InteractionState) → ia.state ≡ st → Fate (notification_step st ia s)
  unfolding notification_step
  notification_step-Fate ready_to_notify q =
      Due-Fate ia s (send_resp ia notification_sent s) refl (first q)
        (send_resp-YieldsUnless ia s w b socket notification_sent parts.0)
  notification_step-Fate notification_sent q =
      let (r, c, t) = check_resp_status-Progress s.now ia parts.0 in
      subst (λ x. Fate (on_notification_status ia s x)) (sym c) (on_status-Fate r q c t)
  notification_step-Fate state_not_set q = inl (s, refl, sound)
  notification_step-Fate handle_request q = inl (s, refl, sound)
  notification_step-Fate resource_postpone_empty_ack_sent q = inl (s, refl, sound)
  notification_step-Fate response_sent q = inl (s, refl, sound)
  notification_step-Fate ready_to_request q = inl (s, refl, sound)
  notification_step-Fate waiting_response q = inl (s, refl, sound)
  notification_step-Fate handle_response q = inl (s, refl, sound)
  notification_step-Fate finished q = inl (s, refl, sound)
