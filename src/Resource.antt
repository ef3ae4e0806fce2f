-- ===== src/Resource.antt =====
-- Resources and their observers: coap/server/lobaro-coap/coap_resource.c and .h, and the list of
-- observers in coap/server/lobaro-coap/option-types/coap_option_observe.c and .h.
pub mod Create
pub mod Find
pub mod Saved
use sming_coap.Base.{
  ℕ, suc, Bool, true, ◌&&◌, List, [], ◌∷◌, ◌++◌, Option, none, some, ◌==◌, if◌then◌else◌,
}
use sming_coap.Heap.{Heap, mem_release}
use sming_coap.CoapResult.{CoapResult, removed, err_not_found}
use sming_coap.Endpoint.{NetEp, ep_are_equal}
use sming_coap.Options.{CoapOption, free_option_list}
use sming_coap.OptionTypes.UriEqual.{uri_options_are_equal}
use sming_coap.Message.{Message}

pub record Observer : Type 0 where
  pub ep : NetEp
  pub if_id : ℕ
  pub token : ℕ
  pub opt_list : List CoapOption

-- `sizeof(CoAP_Observer_t)` on the 32-bit target.
abbrev pub sizeof_observer : ℕ
sizeof_observer = 48

pub data HandlerResult : Type 0 where
  handler_ok handler_postpone handler_error : HandlerResult

-- A function of the application. Its first argument is the number of the call, so that the answers
-- to the same arguments may differ; it may change the response and allocate. `on_null` is what it
-- does when the pointer to the response is NULL: `none` if it reads through it.
pub record Handler : Type 0 where
  pub on_resp : ℕ → Message → Message → Heap → HandlerResult × Message × Heap
  pub on_null : ℕ → Message → Heap → Option (HandlerResult × Heap)

-- A function of the application as above, for notifications.

abbrev pub Notifier : Type 0
Notifier = ℕ → Message → Heap → HandlerResult × Message × Heap

-- The flags hold the bits RES_OPT_GET, _POST, _PUT and _DELETE, `cf` and `etag` are the other options.
-- A description that is NULL is `none`.
pub record Resource : Type 0 where
  pub description : Option (List ℕ)
  pub cf : ℕ
  pub etag : ℕ
  pub uri : List CoapOption
  pub flags : ℕ
  pub update_cnt : ℕ
  pub observers : List Observer
  pub handler : Option Handler
  pub notifier : Option Notifier

unfoldable pub free_observer : Observer → Heap → Heap
unfolding free_option_list mem_release
free_observer o h = mem_release (free_option_list o.opt_list h)

unfoldable pub append_observer_to_list : List Observer → Observer → List Observer
append_observer_to_list os o = os ++ (o ∷ [])

-- The observer with this interface, endpoint and token.
unfoldable pub is_observer : ℕ → NetEp → ℕ → Observer → Bool
unfolding ep_are_equal
is_observer if_id ep token o = (token == o.token) && ((if_id == o.if_id) && ep_are_equal ep o.ep)

-- The first such observer is unlinked and released.
unfoldable pub remove_observer_from_resource :
    List Observer → ℕ → NetEp → ℕ → Heap → CoapResult × List Observer × Heap
unfolding is_observer free_observer
remove_observer_from_resource [] if_id ep token h = (err_not_found, [], h)
remove_observer_from_resource (o ∷ os) if_id ep token h =
    let rest = remove_observer_from_resource os if_id ep token h in
    if is_observer if_id ep token o
    then (removed, os, free_observer o h)
    else (rest.0, o ∷ rest.1, rest.2)

-- The position of the first resource with the request's path; `none` for NULL.
unfoldable pub find_resource_by_uri : List Resource → List CoapOption → Option ℕ
unfolding uri_options_are_equal
find_resource_by_uri [] uri = none
find_resource_by_uri (r ∷ rs) uri =
    found (uri_options_are_equal r.uri uri) (find_resource_by_uri rs uri)
  where
    found : Option Bool → Option ℕ → Option ℕ
    found (some true) rest = some 0
    found _ none = none
    found _ (some i) = some (suc i)
