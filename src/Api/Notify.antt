-- ===== src/Api/Notify.antt =====
-- CoAP_StartNotifyInteractions of coap/server/lobaro-coap/coap_interaction.c and
-- CoAP_NotifyResourceObservers of coap_resource.c. `none` stands for an access through NULL.
use sming_coap.OptionTypes.Observe.{add_observe_option_to_msg}
use sming_coap.Heap.{mem_get, Heap}
use sming_coap.Stack.{Stack}
use sming_coap.Work.Notify.{remove_interactions_observer}
use sming_coap.Endpoint.{ep_are_equal}
use sming_coap.CoapResult.{err_out_of_memory, ok, CoapResult, is_out_of_memory}
use sming_coap.Resource.{handler_ok, Observer, Resource, HandlerResult, Notifier}
use sming_coap.Interaction.{
  notification, new_interaction, free_interaction, Interaction, sizeof_interaction, ready_to_notify,
  append_interaction_to_list,
}
use sming_coap.Message.{
  con, non, MessageType, Message, resp_error_bad_request_4_00, resp_success_content_2_05,
  prefered_payload_size,
}
use sming_coap.Message.Create.{create_message, get_next_mid}
use mathlib.Core.Option
use sming_coap.Base.{
  ℕ, zero, suc, ◌+◌, ◌%◌, ◌^◌, Bool, true, false, ◌&&◌, List, [], ◌∷◌, Option, none, some, ◌==◌,
  leb, if◌then◌else◌, get_elem?,
}

abbrev same_place : Option ℕ → ℕ → Bool
same_place none res = false
same_place (some i) res = i == res

-- A notification of the resource to the observer.
unfoldable pub is_notification : ℕ → Observer → Interaction → Bool
unfolding ep_are_equal
is_notification res o ia = elim ia.role [
  | notification ↦
      same_place ia.resource res && ((ia.if_id == o.if_id) && ep_are_equal ia.remote_ep o.ep)
  | _ ↦ false
]

-- The first such notification is marked; `none` if there is none.
unfoldable pub mark_pending : ℕ → Observer → List Interaction → Option (List Interaction)
unfolding is_notification
mark_pending res o [] = none
mark_pending res o (ia ∷ ias) =
    let rest = mark_pending res o ias in
    if is_notification res o ia
    then some (record ia { update_pending_notification = true } ∷ ias)
    else Option.map (◌∷◌ ia) rest

abbrev pub is_non : MessageType → Bool
is_non non = true
is_non _ = false

-- Every 20th notification is sent confirmable.
unfoldable pub notification_type : MessageType → ℕ → MessageType
notification_type t update_cnt = if is_non t && (update_cnt % 20 == 0) then con else t

unfoldable pub notification_to : ℕ → Observer → Message → Interaction
unfolding new_interaction
notification_to res o m = record (new_interaction o.ep) {
  resp_msg = some m;
  role = notification;
  state = ready_to_notify;
  if_id = o.if_id;
  resource = some res;
}

-- With an error code the observer is removed, and the interaction is neither kept nor released. The
-- observers that come next are the ones that the loop began with: the notifier is taken to leave the
-- response's token, by which the observer is found again.
unfoldable pub enqueue_notification : ℕ → Observer → Resource → Message → Stack → Option Stack
unfolding remove_interactions_observer add_observe_option_to_msg notification_type notification_to
    append_interaction_to_list
enqueue_notification res o r m s =
    let u = add_observe_option_to_msg m.options r.update_cnt s.heap in
    let m' = record m { options = u.1; type = notification_type m.type r.update_cnt } in
    if leb resp_error_bad_request_4_00 m.code
    then remove_interactions_observer (notification_to res o m) m.token s
    else some (record s {
      interactions = append_interaction_to_list s.interactions (notification_to res o m');
      heap = u.2;
    })

-- The new interaction is released unless the notifier answers HANDLER_OK.
unfoldable pub after_first_notifier :
    ℕ → Observer → Resource → Stack → HandlerResult × Message × Heap → Option Stack
unfolding enqueue_notification free_interaction new_interaction
after_first_notifier res o r s (handler_ok, m, h) =
    enqueue_notification res o r m (record s { heap = h })
after_first_notifier res o r s (_, m, h) =
    some
      (record s { heap = free_interaction (record (new_interaction o.ep) { resp_msg = some m }) h })

unfoldable pub notify_with :
    ℕ → Observer → Resource → Message → Stack → Option Notifier → Option Stack
unfolding after_first_notifier free_interaction new_interaction
notify_with res o r m s none = some (record s {
  heap = free_interaction (record (new_interaction o.ep) { resp_msg = some m }) s.heap;
})
notify_with res o r m s (some f) =
    after_first_notifier res o r (record s { calls = suc s.calls }) (f s.calls m s.heap)

-- What follows the creation of the message.
unfoldable pub notify_created :
    ℕ → Observer → Resource → Stack → Option Message × Heap → Option Stack
unfolding notify_with free_interaction new_interaction
notify_created res o r s (none, h) =
    some (record s { heap = free_interaction (new_interaction o.ep) h })
notify_created res o r s (some m, h) = notify_with res o r m (record s { heap = h }) r.notifier

-- The result code tells whether the loop goes on.
unfoldable pub as_ok : Option Stack → Option (CoapResult × Stack)
as_ok none = none
as_ok (some s) = some (ok, s)

-- What follows the request for the interaction's block.
unfoldable pub notify_allocated :
    ℕ → Observer → Resource → Stack → Bool × Heap → Option (CoapResult × Stack)
unfolding notify_created create_message get_next_mid as_ok
notify_allocated res o r s (false, h) = some (err_out_of_memory, record s { heap = h })
notify_allocated res o r s (true, h) =
    let (mid, c) = get_next_mid s.counters in
    as_ok (
      notify_created res o r (record s { counters = c })
        (create_message con resp_success_content_2_05 mid none 0 prefered_payload_size o.token h))

unfoldable pub notify_new : ℕ → Observer → Stack → Option Resource → Option (CoapResult × Stack)
unfolding notify_allocated mem_get
notify_new res o s none = none
notify_new res o s (some r) = notify_allocated res o r s (mem_get sizeof_interaction s.heap)

-- A notification that is pending is marked, otherwise a new one is started.
unfoldable pub notify_unless :
    ℕ → Observer → Stack → Option (List Interaction) → Option (CoapResult × Stack)
unfolding notify_new
notify_unless res o s (some ias) = some (ok, record s { interactions = ias })
notify_unless res o s none = notify_new res o s (get_elem? s.resources res)

abbrev pub notify_observer : ℕ → Observer → Stack → Option (CoapResult × Stack)
notify_observer res o s = notify_unless res o s (mark_pending res o s.interactions)

-- The loop ends when memory has run out.
abbrev pub unless_full :
    Bool → CoapResult → Stack → (Stack → Option (CoapResult × Stack)) → Option (CoapResult × Stack)
unless_full true r s next = some (r, s)
unless_full false r s next = next s

abbrev pub then_next :
    Option (CoapResult × Stack)
    → (Stack → Option (CoapResult × Stack))
    → Option (CoapResult × Stack)
then_next none next = none
then_next (some (r, s)) next = unless_full (is_out_of_memory r) r s next

unfoldable pub notify_observers : ℕ → List Observer → Stack → Option (CoapResult × Stack)
unfolding notify_unless mark_pending
notify_observers res [] s = some (ok, s)
notify_observers res (o ∷ os) s = then_next (notify_observer res o s) (notify_observers res os)

unfoldable pub notify_resource : ℕ → Stack → Option Resource → Option (CoapResult × Stack)
unfolding notify_observers
notify_resource res s none = none
notify_resource res s (some r) = notify_observers res r.observers s

-- The resource is given by its position.
unfoldable pub start_notify_interactions : ℕ → Stack → Option (CoapResult × Stack)
unfolding notify_resource
start_notify_interactions res s = notify_resource res s (get_elem? s.resources res)

-- `pRes->UpdateCnt++`, in uint32_t.
unfoldable pub count_update : List Resource → ℕ → List Resource
count_update [] i = []
count_update (r ∷ rs) zero = record r { update_cnt = (r.update_cnt + 1) % 2 ^ 32 } ∷ rs
count_update (r ∷ rs) (suc i) = r ∷ count_update rs i

unfoldable pub answer_ok : Option (CoapResult × Stack) → Option (CoapResult × Stack)
answer_ok none = none
answer_ok (some (r, s)) = some (ok, s)

-- The result of the start is not looked at.
unfoldable pub notify_resource_observers : ℕ → Stack → Option (CoapResult × Stack)
unfolding count_update start_notify_interactions answer_ok
notify_resource_observers res s =
    answer_ok
      (start_notify_interactions res (record s { resources = count_update s.resources res }))
