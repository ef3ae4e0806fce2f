-- ===== src/Tests/Operations.antt =====
-- Notifications and sequences of operations at concrete inputs.
use sming_coap.Tests.Uris.{uri}
use sming_coap.Api.Get.{start_new_get_request}
use sming_coap.Api.Pending.{OneEach, start_notify_interactions-OneEach}
use sming_coap.Api.Notify.{start_notify_interactions}
use sming_coap.Api.Reach.{next, here, get, IsAlive, Reach-IsAlive}
use sming_coap.CoapResult.{ok}
use sming_coap.Tests.Interactions.{echo, empty_stack}
use sming_coap.Tests.OptionTypes.{gateway}
use sming_coap.Stack.{Stack}
use sming_coap.Resource.{handler_ok, Observer, Notifier, Resource}
use sming_coap.Base.{◌≡◌, refl, arith, true, [], ◌∷◌, some}

abbrev watcher : Observer
watcher = record { ep = gateway; if_id = 0; token = 9; opt_list = [] }

-- A notifier that sends what was prepared, as content.
abbrev prepared : Notifier
prepared _ m h = (handler_ok, record m { code = 69 }, h)

-- A resource that is observed.
abbrev observed : Resource
observed = record echo { observers = watcher ∷ []; notifier = some prepared }

abbrev observed_stack : Stack
observed_stack = record empty_stack { resources = observed ∷ [] }

start_notify_interactions-OneEach_example :
    (t : Stack) × (start_notify_interactions 0 observed_stack ≡ some (ok, t))
    × OneEach 0 (watcher ∷ []) t.interactions
start_notify_interactions-OneEach_example =
    start_notify_interactions-OneEach 0 observed prepared observed_stack refl refl
      (λ k m h. (refl, refl, λ g. g)) (λ k n. refl) (omega arith, tt)

Reach-IsAlive_example : IsAlive (start_new_get_request (some uri) 1 gateway true observed_stack).1
Reach-IsAlive_example =
    Reach-IsAlive observed_stack (start_new_get_request (some uri) 1 gateway true observed_stack).1
      tt (next here (get (some uri) 1 gateway true refl))
