-- ===== src/Work/Sound.antt =====
-- CoAP_doWork of coap/server/lobaro-coap/coap_main.c on well-formed interactions.
use sming_coap.Work.Notify.{notification_work}
use sming_coap.Base.{
  ◌≡◌, refl, List, [], ◌∷◌, ltb, All, true, false, inl, inr, Option, Bool, if◌then◌else◌,
}
use mathlib.Core.Path.{subst, sym}
use sming_coap.Heap.{Generous}
use sming_coap.Interaction.{
  Interaction, InteractionRole, role_not_set, server, notification, client,
  get_longest_pending_interaction,
}
use sming_coap.Stack.{Stack, Network}
use sming_coap.Work.{behind}
use sming_coap.Work.WellFormed.{Fits, IsWellFormed, IsSoundBehind, IsSound, YieldsUnless, Present}
use sming_coap.Work.Stored.{enqueue_last-IsSound}
use sming_coap.Work.ClientStep.{client_step-IsSound}
use sming_coap.Work.ServerStep.{server_step-IsSound}
use sming_coap.Work.NotifyStep.{notification_step-Fate, DueUnsent}
use sming_coap.Work.DoWork.{role_step, work_on, do_work}

-- The interaction is a notification without a request, and the sending of it fails.
abbrev NotSent : Interaction → Stack → Type 0
NotSent ia s = (ia.role ≡ notification) × DueUnsent ia s

-- The interface of the first interaction, if there is one, has a socket.
abbrev HasSocket : Network → List Interaction → Type 0
HasSocket n [] = Unit {0}
HasSocket n (ia ∷ ias) = Present (n.socket ia.if_id)

abbrev pub HeadHasSocket : Stack → Type 0
HeadHasSocket s = HasSocket s.network s.interactions

role_step-YieldsUnless :
    (role : InteractionRole) (ia : Interaction) (s : Stack)
    → ia.role ≡ role
    → IsWellFormed s.resources ia
    → IsSoundBehind s
    → IsSound s
    → Generous s.heap
    → Present (s.network.socket ia.if_id)
    → YieldsUnless (NotSent ia s) (role_step role ia s)
unfolding role_step
role_step-YieldsUnless role_not_set ia s e w b sound g k = inl (s, refl, sound)
role_step-YieldsUnless server ia s e w b sound g k =
    inl (server_step-IsSound ia s e w b sound g k ia.state refl)
role_step-YieldsUnless notification ia s e w b sound g k =
    why (notification_step-Fate ia s e w b sound k ia.state refl)
  where
    why :
        YieldsUnless (DueUnsent ia s) (notification_work ia s)
        → YieldsUnless (NotSent ia s) (notification_work ia s)
    why (inl y) = inl y
    why (inr (f, u)) = inr (f, (e, u))
role_step-YieldsUnless client ia s e w b sound g k = inl (
    client_step-IsSound ia s e w b k ia.state
      (subst (λ x. Fits x s.resources ia.req_msg ia.resource ia.state ia.resp_msg) e w.1))

-- The head is a notification that is awake and has no request, and the sending of it fails.
abbrev pub HeadNotSent : Stack → Type 0
HeadNotSent s =
    (ia : Interaction) × (ias : List Interaction) × (s.interactions ≡ ia ∷ ias)
    × (ltb s.now ia.sleep_until ≡ false)
    × (ia.role ≡ notification)
    × DueUnsent ia s

of_head :
    (ia : Interaction) (ias : List Interaction) (s : Stack) (o : Option Stack)
    → s.interactions ≡ ia ∷ ias
    → ltb s.now ia.sleep_until ≡ false
    → YieldsUnless (NotSent ia s) o
    → YieldsUnless (HeadNotSent s) o
of_head ia ias s o e awake (inl y) = inl y
of_head ia ias s o e awake (inr (f, (role, unsent))) = inr (f, (ia, ias, e, awake, role, unsent))

YieldsUnless-if :
    (P : Type 0) (b : Bool) (x y : Option Stack)
    → YieldsUnless P x
    → (b ≡ false → YieldsUnless P y)
    → YieldsUnless P (if b then x else y)
YieldsUnless-if P true x y p q = p
YieldsUnless-if P false x y p q = q refl

work-YieldsUnless :
    (ias : List Interaction) (s : Stack)
    → s.interactions ≡ ias
    → IsSound s
    → Generous s.heap
    → HasSocket s.network ias
    → YieldsUnless (HeadNotSent s) (work_on (get_longest_pending_interaction ias) s)
unfolding work_on get_longest_pending_interaction
work-YieldsUnless [] s e sound g k = inl (s, refl, sound)
work-YieldsUnless (ia ∷ ias) s e sound g k =
    let all = subst (All (IsWellFormed s.resources)) e sound in
    let rest = subst (λ x. All (IsWellFormed s.resources) (behind x)) (sym e) all.1 in
    YieldsUnless-if (HeadNotSent s) (ltb s.now ia.sleep_until) _ _
      (inl (_, refl, enqueue_last-IsSound ia s rest all.0))
      (λ awake.
        of_head ia ias s (role_step ia.role ia s) e awake
          (role_step-YieldsUnless ia.role ia s refl all.0 rest sound g k))

-- On a sound stack whose requests for memory are met and where the interface of the head has a
-- socket, a step leaves a sound stack: every interaction has what its role and state need, and was
-- sent again four times at most. There is one exception, in which the step reads through a NULL
-- pointer: the head is a notification without a request that is due in this step, for the first
-- time or once more, and CoAP_SendMsg does not return COAP_OK for this message, as the network does
-- not take it or the socket has no function to send with. The resources' handlers and notifiers
-- answer as they like.
pub do_work-IsSound :
    (s : Stack)
    → IsSound s
    → Generous s.heap
    → HeadHasSocket s
    → YieldsUnless (HeadNotSent s) (do_work s)
unfolding do_work
do_work-IsSound s sound g k = work-YieldsUnless s.interactions s refl sound g k
