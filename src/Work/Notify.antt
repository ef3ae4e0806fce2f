-- ===== src/Work/Notify.antt =====
-- The notificator's part of CoAP_doWork in coap/server/lobaro-coap/coap_main.c, and
-- CoAP_RemoveInteractionsObserver of coap_interaction.c.
use sming_coap.Base.{
  ℕ, zero, suc, List, [], ◌∷◌, false, Option, none, some, leb, if◌then◌else◌, get_elem?,
}
use sming_coap.Heap.{Heap}
use sming_coap.CoapResult.{
  CoapResult, ok, waiting, holding_back, retry, err_out_of_attempts, err_remote_rst,
}
use sming_coap.OptionTypes.Observe.{remove_observe_option_from_msg, update_observe_option_in_msg}
use sming_coap.Message.{Message, resp_error_bad_request_4_00}
use sming_coap.Message.Create.{get_next_mid}
use sming_coap.Interaction.{
  Interaction, InteractionState, ready_to_notify, notification_sent, not_set,
}
use sming_coap.Resource.{
  Resource, Observer, Notifier, HandlerResult, handler_ok, handler_postpone, handler_error,
  remove_observer_from_resource,
}
use sming_coap.Stack.{Stack}
use sming_coap.Work.{enqueue_last, delete_interaction, check_resp_status, send_resp, resend_resp}

-- The list of resources with other observers at a position.
abbrev pub set_observers : List Resource → ℕ → List Observer → List Resource
set_observers [] i os = []
set_observers (r ∷ rs) zero os = record r { observers = os } ∷ rs
set_observers (r ∷ rs) (suc i) os = r ∷ set_observers rs i os

unfoldable pub remove_from : ℕ → Interaction → ℕ → Stack → Option Resource → Option Stack
unfolding remove_observer_from_resource
remove_from i ia token s none = none
remove_from i ia token s (some r) =
    let u = remove_observer_from_resource r.observers ia.if_id ia.remote_ep token s.heap in
    some (record s { resources = set_observers s.resources i u.1; heap = u.2 })

unfoldable pub remove_interactions_observer : Interaction → ℕ → Stack → Option Stack
unfolding remove_from
remove_interactions_observer ia token s = elim ia.resource [
  | none ↦ none
  | some i ↦ remove_from i ia token s (get_elem? s.resources i)
]

-- The result of a notifier as the number that is compared with a response code.
abbrev pub handler_code : HandlerResult → ℕ
handler_code handler_ok = 0
handler_code handler_postpone = 1
handler_code handler_error = 2

-- After the call of the notifier: with an error code the observe option and the observer are
-- removed, otherwise the option gets the resource's count.
unfoldable pub after_notifier :
    Interaction → Resource → Stack → HandlerResult × Message × Heap → Option (Interaction × Stack)
unfolding remove_observe_option_from_msg update_observe_option_in_msg remove_interactions_observer
after_notifier ia r s (result, m, h) =
    if leb resp_error_bad_request_4_00 (handler_code result)
    then (let u = remove_observe_option_from_msg m.options h in
        let m' = record m { options = u.1 } in
        elim (remove_interactions_observer ia m.token (record s { heap = u.2 })) [
          | none ↦ none
          | some s' ↦ some (record ia { resp_msg = some m' }, s')
        ])
    else (let u = update_observe_option_in_msg m.options r.update_cnt h in
        some (record ia { resp_msg = some (record m { options = u.1 }) }, record s { heap = u.2 }))

unfoldable pub call_notifier :
    Interaction → Message → Resource → Stack → Option Notifier → Option (Interaction × Stack)
unfolding after_notifier
call_notifier ia m r s none = none
call_notifier ia m r s (some f) =
    after_notifier ia r (record s { calls = suc s.calls }) (f s.calls m s.heap)

-- The pending notification gets a new message id and the resource's present representation.
unfoldable pub refresh_on :
    Interaction → Message → Stack → Option Resource → Option (Interaction × Stack)
unfolding get_next_mid call_notifier
refresh_on ia m s none = none
refresh_on ia m s (some r) =
    let (mid, c) = get_next_mid s.counters in
    call_notifier (record ia { update_pending_notification = false })
      (record m { message_id = mid }) r (record s { counters = c }) r.notifier

-- The pointers to the response and to the resource are followed.
unfoldable pub refresh_at :
    Interaction → Stack → Option Message → Option ℕ → Option (Interaction × Stack)
unfolding refresh_on
refresh_at ia s none res = none
refresh_at ia s (some m) none = none
refresh_at ia s (some m) (some i) = refresh_on ia m s (get_elem? s.resources i)

unfoldable pub refresh_notification : Interaction → Stack → Option (Interaction × Stack)
unfolding refresh_at
refresh_notification ia s = refresh_at ia s ia.resp_msg ia.resource

-- The message keeps the type that it had before the notifier was called.
unfoldable pub keep_type : Option Message → Option Message → Option Message
keep_type none n = n
keep_type (some m) none = none
keep_type (some m) (some n) = some (record n { type = m.type })

unfoldable pub resend_refreshed : Option Message → Option (Interaction × Stack) → Option Stack
unfolding keep_type resend_resp
resend_refreshed old none = none
resend_refreshed old (some (ia, s)) =
    resend_resp (record ia { resp_msg = keep_type old ia.resp_msg }) s

unfoldable pub retry_notification : Interaction → Stack → Option Stack
unfolding refresh_notification resend_refreshed resend_resp
retry_notification ia s =
    if ia.update_pending_notification
    then resend_refreshed ia.resp_msg (refresh_notification ia s)
    else resend_resp ia s

unfoldable pub enqueue_refreshed : Option (Interaction × Stack) → Option Stack
unfolding enqueue_last
enqueue_refreshed none = none
enqueue_refreshed (some (ia, s)) = some (enqueue_last ia s)

-- A notification that was taken: a fresher one is started if the resource has changed since.
unfoldable pub finish_notification : Interaction → Stack → Option Stack
unfolding refresh_notification enqueue_refreshed delete_interaction
finish_notification ia s =
    if ia.update_pending_notification
    then enqueue_refreshed (
        refresh_notification
          (record ia {
            state = ready_to_notify;
            retrans_counter = 0;
            resp_reliability_state = not_set;
          })
          s)
    else some (delete_interaction ia s)

unfoldable pub delete_after : Interaction → Option Stack → Option Stack
unfolding delete_interaction
delete_after ia none = none
delete_after ia (some s) = some (delete_interaction ia s)

unfoldable pub abort_with : Interaction → Stack → Option Message → Option Stack
unfolding remove_interactions_observer delete_after
abort_with ia s none = none
abort_with ia s (some m) = delete_after ia (remove_interactions_observer ia m.token s)

-- A notification that was given up: the observer is removed with it.
unfoldable pub abort_notification : Interaction → Stack → Option Stack
unfolding abort_with
abort_notification ia s = abort_with ia s ia.resp_msg

unfoldable pub on_notification_status : Interaction → Stack → Option CoapResult → Option Stack
unfolding enqueue_last delete_interaction retry_notification finish_notification abort_notification
on_notification_status ia s none = none
on_notification_status ia s (some waiting) = some (enqueue_last ia s)
on_notification_status ia s (some holding_back) = some (enqueue_last ia s)
on_notification_status ia s (some retry) = retry_notification ia s
on_notification_status ia s (some ok) = finish_notification ia s
on_notification_status ia s (some err_out_of_attempts) = abort_notification ia s
on_notification_status ia s (some err_remote_rst) = abort_notification ia s
on_notification_status ia s (some r) = some (delete_interaction ia s)

unfoldable pub notification_step : InteractionState → Interaction → Stack → Option Stack
unfolding send_resp check_resp_status on_notification_status
notification_step ready_to_notify ia s = send_resp ia notification_sent s
notification_step notification_sent ia s = on_notification_status ia s (check_resp_status s.now ia)
notification_step _ ia s = some s

abbrev pub notification_work : Interaction → Stack → Option Stack
notification_work ia s = notification_step ia.state ia s
