-- ===== src/Api/Reach.antt =====
-- All operations of the stack in coap/server/lobaro-coap, in any order: coap_main.c,
-- coap_interaction.c and coap_resource.c.
use sming_coap.Work.Sound.{do_work-IsSound, HeadNotSent, HeadHasSocket}
use sming_coap.OptionTypes.Uri.{append_uri_options_from_string}
use sming_coap.Receive.Sound.{on_new_packet_handler-IsSound}
use sming_coap.Receive.Started.{Safe-result, start_interaction-Safe}
use sming_coap.Api.Notify.{start_notify_interactions}
use sming_coap.Work.DoWork.{do_work}
use sming_coap.Message.Bounds.{TokenFits}
use sming_coap.Heap.{Heap, Generous, mem_get}
use sming_coap.Receive.Answers.{Safe}
use sming_coap.Receive.Packet.{Origin, on_new_packet_handler}
use sming_coap.Endpoint.{NetEp}
use sming_coap.Message.{Message, con, msg_is_request, req_get}
use sming_coap.Message.Create.{generate_token, get_next_mid, create_message}
use sming_coap.Api.NotifySound.{Ends, start_notify_interactions-IsSound}
use sming_coap.Work.WellFormed.{Yields, IsSound, IsWellFormed, Fits, YieldsUnless, Present}
use sming_coap.Api.Get.{request_uri, start_new_get_request}
use sming_coap.Receive.Start.{start_new_client_interaction, start_interaction}
use sming_coap.Resource.Create.{
  create_resource, ResourceTable, fill_resource, append_resource_to_list, ResOpts, sizeof_resource,
  copy_description,
}
use sming_coap.Resource.{Resource, Handler, Notifier}
use sming_coap.CoapResult.{CoapResult, err_argument}
use sming_coap.Stack.{Stack, Network}
use sming_coap.Interaction.{
  role_not_set, server, client, notification, InteractionRole, Interaction, new_interaction,
  InteractionState, ready_to_request, sizeof_interaction,
}
use sming_coap.Base.{
  ℕ, zero, suc, ◌<◌, ◌≡◌, sym, ap, ◌∙◌, arith, inl, inr, Bool, List, [], ◌∷◌, ◌++◌, Option, none,
  some, All, get_elem?, Bool-cases, Memory, append-nil,
}
use mathlib.Core.Path.{subst}

-- One operation that has a result. A datagram is received on an interface with a socket, and the
-- step of the state machine is taken where requests for memory are met and the interface of the head
-- has a socket; between the operations the clock, the network and the application's own requests for
-- memory do as they like.
pub data Step (s : Stack) (t : Stack) : Type 0 where
  receive :
      (mem : Memory) (n : ℕ) (from : Origin)
      → TokenFits mem n
      → n < 65530
      → Present (s.network.socket from.if_id)
      → on_new_packet_handler mem n from s ≡ some t
      → Step s t
  work : Generous s.heap → HeadHasSocket s → do_work s ≡ some t → Step s t
  request :
      (req : Option Message) (if_id : ℕ) (ep : NetEp) (cb : Bool)
      → t ≡ (start_new_client_interaction req if_id ep cb s).1
      → Step s t
  get :
      (uri : Option (List ℕ)) (if_id : ℕ) (ep : NetEp) (cb : Bool)
      → t ≡ (start_new_get_request uri if_id ep cb s).1
      → Step s t
  notify :
      (res : ℕ) (r : Resource) (c : CoapResult)
      → get_elem? s.resources res ≡ some r
      → start_notify_interactions res s ≡ some (c, t)
      → Step s t
  create :
      (uri : Option (List ℕ)) (description : List ℕ) (options : ResOpts) (handler : Option Handler)
      (notifier : Option Notifier) (members : ℕ) (place : Option ℕ) (table : ResourceTable)
      → create_resource uri description options handler notifier
          (record { resources = s.resources; members = members; heap = s.heap })
        ≡ some (place, table)
      → t ≡ record s { resources = table.resources; heap = table.heap }
      → Step s t
  elsewhere :
      (now : ℕ) (heap : Heap) (network : Network)
      → t ≡ record s { now = now; heap = heap; network = network }
      → Step s t

pub data Reach (s : Stack) : Stack → Type 0 where
  here : Reach s s
  next : {t u : Stack} → Reach s t → Step t u → Reach s u

Yields-IsSound : (o : Option Stack) (t : Stack) → Yields o → o ≡ some t → IsSound t
Yields-IsSound o t (u, e, sound) f =
    let same : u ≡ t = ground (arith, e, f) in subst (λ x. IsSound x) same sound

do_work-result :
    (s t : Stack) → YieldsUnless (HeadNotSent s) (do_work s) → do_work s ≡ some t → IsSound t
do_work-result s t (inl y) f = Yields-IsSound (do_work s) t y f
do_work-result s t (inr (e, why)) f = absurd (ground (arith, e, f))

Ends-IsSound :
    (res : ℕ) (o : Option (CoapResult × Stack)) (c : CoapResult) (t : Stack)
    → Ends res o
    → o ≡ some (c, t)
    → IsSound t
Ends-IsSound res o c t (d, u, e, sound, there) f =
    let same : u ≡ t = ground (arith, e, f) in subst (λ x. IsSound x) same sound

-- Resources that are added behind the others change no interaction's resource.
get_elem-append {ℓ} :
    {A : Type ℓ} (xs ys : List A) (i : ℕ) (x : A)
    → get_elem? xs i ≡ some x
    → get_elem? (xs ++ ys) i ≡ some x
get_elem-append [] ys i x e = cc
get_elem-append (y ∷ xs) ys zero x e = e
get_elem-append (y ∷ xs) ys (suc i) x e = get_elem-append xs ys i x e

Fits-append :
    (role : InteractionRole) (rs qs : List Resource) (req : Option Message) (res : Option ℕ)
    (st : InteractionState) (resp : Option Message)
    → Fits role rs req res st resp
    → Fits role (rs ++ qs) req res st resp
Fits-append role_not_set rs qs req res st resp f = f
Fits-append server rs qs req (some i) st resp (p, (r, e, h), q) =
    (p, (r, get_elem-append rs qs i r e, h), q)
Fits-append server rs qs req none st resp f = f
Fits-append notification rs qs req (some i) st resp (p, (r, e, h)) =
    (p, (r, get_elem-append rs qs i r e, h))
Fits-append notification rs qs req none st resp f = f
Fits-append client rs qs req res st resp f = f

All-IsWellFormed-append :
    (rs qs : List Resource) (ias : List Interaction)
    → All (IsWellFormed rs) ias
    → All (IsWellFormed (rs ++ qs)) ias
All-IsWellFormed-append rs qs [] a = tt
All-IsWellFormed-append rs qs (ia ∷ ias) ((l, f), a) = (
  (l, Fits-append ia.role rs qs ia.req_msg ia.resource ia.state ia.resp_msg f),
  All-IsWellFormed-append rs qs ias a,
)

-- The resources afterwards begin with those before.
abbrev Extends : List Resource → Option (Option ℕ × ResourceTable) → Type 0
Extends rs o =
    (place : Option ℕ) (table : ResourceTable)
    → o ≡ some (place, table)
    → (qs : List Resource) × (table.resources ≡ rs ++ qs)

abbrev resources_of : List Resource → Option (Option ℕ × ResourceTable) → List Resource
resources_of rs none = rs
resources_of rs (some (place, table)) = table.resources

fill_resource-Extends :
    (uri : Option (List ℕ)) (options : ResOpts) (handler : Option Handler)
    (notifier : Option Notifier) (t : ResourceTable) (copied : Option (Option (List ℕ) × Heap))
    → Extends t.resources (fill_resource uri options handler notifier t copied)
unfolding fill_resource append_resource_to_list
fill_resource-Extends uri options handler notifier t none place table e = cc
fill_resource-Extends uri options handler notifier t (some (d, h)) place table e =
    (_, sym (ap (resources_of t.resources) e))

create_resource-Extends :
    (uri : Option (List ℕ)) (d : List ℕ) (options : ResOpts) (handler : Option Handler)
    (notifier : Option Notifier) (t : ResourceTable)
    → Extends t.resources (create_resource uri d options handler notifier t)
unfolding create_resource
create_resource-Extends uri d options handler notifier t =
    let got = mem_get sizeof_resource t.heap in
    elim (Bool-cases got.0) [
      | inl e ↦
          rw e (fill_resource-Extends uri options handler notifier t (copy_description d got.1))
      | inr e ↦ rw e (λ place table f.
          ([], sym (ap (resources_of t.resources) f) ∙ sym (append-nil t.resources)))
    ]

request-Safe :
    (req : Option Message) (if_id : ℕ) (ep : NetEp) (cb : Bool) (s : Stack)
    → Safe s (start_new_client_interaction req if_id ep cb s).1
unfolding start_new_client_interaction new_interaction
request-Safe none if_id ep cb s sound = sound
request-Safe (some m) if_id ep cb s sound =
    Safe-result (msg_is_request m) s
      (start_interaction
        (record (new_interaction ep) {
          req_msg = some m;
          if_id = if_id;
          resp_cb = cb;
          role = client;
          state = ready_to_request;
        })
        s (mem_get sizeof_interaction s.heap))
      (err_argument, s)
      (start_interaction-Safe _ s (mem_get sizeof_interaction s.heap) (omega arith, tt)) (λ x. x)
      sound

request_uri-Safe :
    (uri : Option (List ℕ)) (if_id : ℕ) (ep : NetEp) (cb : Bool) (s : Stack)
    (made : Option Message × Heap)
    → Safe s (request_uri uri if_id ep cb s made).1
unfolding request_uri
request_uri-Safe uri if_id ep cb s (none, h) sound = sound
request_uri-Safe uri if_id ep cb s (some m, h) sound =
    let with_uri = append_uri_options_from_string m.options uri h in
    request-Safe (some (record m { options = with_uri.1 })) if_id ep cb
      (record s { heap = with_uri.2 }) sound

get-Safe :
    (uri : Option (List ℕ)) (if_id : ℕ) (ep : NetEp) (cb : Bool) (s : Stack)
    → Safe s (start_new_get_request uri if_id ep cb s).1
unfolding start_new_get_request
get-Safe uri if_id ep cb s sound =
    let c = (generate_token (get_next_mid s.counters).1).1 in
    request_uri-Safe uri if_id ep cb (record s { counters = c })
      (create_message con req_get (get_next_mid s.counters).0 none 0 0
        (generate_token (get_next_mid s.counters).1).0 s.heap)
      sound

Step-IsSound : (s t : Stack) → Step s t → IsSound s → IsSound t
Step-IsSound s t (receive mem n from fits small k e) sound =
    Yields-IsSound _ t (on_new_packet_handler-IsSound mem n from s sound fits small k) e
Step-IsSound s t (work g k e) sound = do_work-result s t (do_work-IsSound s sound g k) e
Step-IsSound s t (request req if_id ep cb e) sound =
    subst (λ x. IsSound x) (sym e) (request-Safe req if_id ep cb s sound)
Step-IsSound s t (get uri if_id ep cb e) sound =
    subst (λ x. IsSound x) (sym e) (get-Safe uri if_id ep cb s sound)
Step-IsSound s t (notify res r c there e) sound =
    Ends-IsSound res _ c t (start_notify_interactions-IsSound res r s there sound) e
Step-IsSound s t (create uri d options handler notifier members place table made e) sound =
    let (qs, f) = create_resource-Extends uri d options handler notifier _ place table made in
    subst (λ x. IsSound x) (sym e)
      (subst (λ rs. All (IsWellFormed rs) s.interactions) (sym f)
        (All-IsWellFormed-append s.resources qs s.interactions sound))
Step-IsSound s t (elsewhere now heap network e) sound = subst (λ x. IsSound x) (sym e) sound

Reach-IsSound : {s t : Stack} → Reach s t → IsSound s → IsSound t
Reach-IsSound here sound = sound
Reach-IsSound (next {t} {u} r st) sound = Step-IsSound t u st (Reach-IsSound r sound)

-- The stack is sound; a step of the state machine, a datagram and the start of notifications each
-- have a result.
pub record IsAlive (t : Stack) : Type 0 where
  pub sound : IsSound t
  pub works : Generous t.heap → HeadHasSocket t → YieldsUnless (HeadNotSent t) (do_work t)
  pub receives :
      (mem : Memory) (n : ℕ) (from : Origin)
      → TokenFits mem n
      → n < 65530
      → Present (t.network.socket from.if_id)
      → Yields (on_new_packet_handler mem n from t)
  pub notifies :
      (res : ℕ) (r : Resource)
      → get_elem? t.resources res ≡ some r
      → Ends res (start_notify_interactions res t)

-- From a sound stack, such as one with no interactions, any sequence of operations leads to a sound
-- stack: datagrams of fewer than 65530 bytes that are long enough for their tokens and come from an
-- interface with a socket, steps of the state machine while requests for memory are met and the
-- interface of the head has a socket, requests and notifications that are started, resources that
-- are created, and whatever the clock, the network and the allocator do between them. There the next
-- such datagram and the next start of notifications read through no NULL pointer, and so does the
-- next such step, unless it finds a notification without a request at the head that is due, and
-- CoAP_SendMsg fails on this notification.
pub Reach-IsAlive : (s t : Stack) → IsSound s → Reach s t → IsAlive t
Reach-IsAlive s t start r =
    let sound = Reach-IsSound r start in
    record {
      sound = sound;
      works = do_work-IsSound t sound;
      receives =
          λ mem n from fits small k. on_new_packet_handler-IsSound mem n from t sound fits small k;
      notifies = λ res q there. start_notify_interactions-IsSound res q t there sound;
    }
