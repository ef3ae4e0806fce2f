-- ===== src/Work/Observation.antt =====
-- Observation requests: CoAP_HandleObservationInReq of
-- coap/server/lobaro-coap/coap_interaction.c.
use sming_coap.Base.{
  ℕ, List, [], ◌∷◌, Bool, true, false, ◌&&◌, ◌||◌, Option, none, some, ◌==◌, if◌then◌else◌,
  get_elem?,
}
use sming_coap.Heap.{Heap, mem_get}
use sming_coap.CoapResult.{
  CoapResult, ok, is_ok, err_not_found, err_argument, err_out_of_memory, bad_option_val,
}
use sming_coap.Endpoint.{ep_are_equal}
use sming_coap.Options.{CoapOption, opt_num_uri_query, opt_num_observe, append_option_to_list}
use sming_coap.OptionTypes.Observe.{
  get_observe_option_from_msg, observe_opt_register, observe_opt_deregister,
}
use sming_coap.Message.{Message}
use sming_coap.Interaction.{Interaction, notification, free_interaction}
use sming_coap.Resource.{
  Resource, Observer, sizeof_observer, free_observer, append_observer_to_list,
  remove_observer_from_resource, Notifier,
}
use sming_coap.Stack.{Stack}
use sming_coap.Work.Notify.{set_observers, remove_interactions_observer}

-- Where an append failed, what is left of the copied list comes with the answer `false`.
unfoldable pub copy_observer_options :
    List CoapOption → List CoapOption → Heap → Bool × List CoapOption × Heap
unfolding append_option_to_list
copy_observer_options [] copied h = (true, copied, h)
copy_observer_options (o ∷ os) copied h =
    let appended = append_option_to_list copied o.number o.value h in
    let next =
      if (o.number == opt_num_uri_query) || (o.number == opt_num_observe)
      then appended
      else (ok, copied, h) in
    elim next.0 [ ok ↦ copy_observer_options os next.1 next.2 | _ ↦ (false, next.1, next.2) ]

-- The new observer takes the place of one with the same token, interface and endpoint.
unfoldable pub attach_observer :
    Observer → ℕ → Resource → Stack → Bool × List CoapOption × Heap → CoapResult × Stack
unfolding free_observer append_observer_to_list remove_observer_from_resource
attach_observer o i r s (false, opts, h) =
    (err_out_of_memory, record s { heap = free_observer (record o { opt_list = opts }) h })
attach_observer o i r s (true, opts, h) =
    let u = remove_observer_from_resource r.observers o.if_id o.ep o.token h in
    let os = append_observer_to_list u.1 (record o { opt_list = opts }) in
    (ok, record s { resources = set_observers s.resources i os; heap = u.2 })

unfoldable pub alloc_observer :
    Interaction → Message → ℕ → Resource → Stack → Bool × Heap → CoapResult × Stack
unfolding copy_observer_options attach_observer
alloc_observer ia req i r s (false, h) = (err_out_of_memory, record s { heap = h })
alloc_observer ia req i r s (true, h) =
    attach_observer
      (record { ep = ia.remote_ep; if_id = ia.if_id; token = req.token; opt_list = [] }) i r s
      (copy_observer_options req.options [] h)

-- A notification on the interface to the endpoint with the token. Every notification has a
-- response; a missing one would be an access through NULL.
unfoldable pub is_pending : ℕ → Interaction → Interaction → Bool
unfolding ep_are_equal
is_pending token ia p = elim p.role [
  | notification ↦ elim p.resp_msg [
    | none ↦ false
    | some m ↦
        (m.token == token) && ((p.if_id == ia.if_id) && ep_are_equal p.remote_ep ia.remote_ep)
  ]
  | _ ↦ false
]

-- The first such notification is deleted.
unfoldable pub delete_pending : ℕ → Interaction → List Interaction → Heap → List Interaction × Heap
unfolding is_pending free_interaction
delete_pending token ia [] h = ([], h)
delete_pending token ia (p ∷ ps) h =
    let rest = delete_pending token ia ps h in
    if is_pending token ia p then (ps, free_interaction p h) else (p ∷ rest.0, rest.1)

unfoldable pub deregister : Interaction → Message → Option Stack → Option (CoapResult × Stack)
unfolding delete_pending
deregister ia req none = none
deregister ia req (some s) =
    let u = delete_pending req.token ia s.interactions s.heap in
    some (err_not_found, record s { interactions = u.0; heap = u.1 })

unfoldable pub on_observe_value :
    Interaction → Message → ℕ → Resource → Stack → CoapResult × ℕ → Option (CoapResult × Stack)
unfolding alloc_observer deregister remove_interactions_observer mem_get
on_observe_value ia req i r s (q, val) =
    if is_ok q
    then (if val == observe_opt_register
        then some (alloc_observer ia req i r s (mem_get sizeof_observer s.heap))
        else if val == observe_opt_deregister
        then deregister ia req (remove_interactions_observer ia req.token s)
        else some (bad_option_val, s))
    else some (q, s)

-- A resource without a notifier is not observable.
unfoldable pub observe_by :
    Interaction
    → ℕ
    → Resource
    → Stack
    → Option Notifier
    → Option Message
    → Option (CoapResult × Stack)
unfolding on_observe_value get_observe_option_from_msg
observe_by ia i r s none req = some (err_not_found, s)
observe_by ia i r s (some f) none = some (err_argument, s)
observe_by ia i r s (some f) (some req) =
    on_observe_value ia req i r s (get_observe_option_from_msg req.options)

unfoldable pub observe_on : Interaction → ℕ → Stack → Option Resource → Option (CoapResult × Stack)
unfolding observe_by
observe_on ia i s none = none
observe_on ia i s (some r) = observe_by ia i r s r.notifier ia.req_msg

unfoldable pub observe_at : Interaction → Stack → Option ℕ → Option (CoapResult × Stack)
unfolding observe_on
observe_at ia s none = none
observe_at ia s (some i) = observe_on ia i s (get_elem? s.resources i)

unfoldable pub handle_observation_in_req : Interaction → Stack → Option (CoapResult × Stack)
unfolding observe_at
handle_observation_in_req ia s = observe_at ia s ia.resource
