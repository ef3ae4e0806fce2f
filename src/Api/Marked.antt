-- ===== src/Api/Marked.antt =====
-- The notifications to an observer that are in the list, and the marking of one as pending, in
-- coap/server/lobaro-coap/coap_interaction.c.
use sming_coap.Endpoint.{ep_are_equal}
use sming_coap.Endpoint.Congruence.{ep_are_equal_refl, ep_are_equal-congr}
use sming_coap.Heap.{Heap, Generous}
use sming_coap.Message.{Message, resp_error_bad_request_4_00}
use sming_coap.Interaction.{Interaction, new_interaction}
use sming_coap.Api.Notify.{is_notification, mark_pending, notification_to}
use sming_coap.Resource.{handler_ok, Observer, Notifier}
use sming_coap.Base.{
  ℕ, suc, ◌+◌, ◌<◌, ◌≡◌, refl, arith, inl, inr, true, false, List, [], ◌∷◌, ◌++◌, none, some,
  if◌then◌else◌, Bool-cases, Option-cases, leb,
}
use mathlib.Core.Path.{subst}

-- How many notifications of the resource to the observer there are.
abbrev pub notifications : ℕ → Observer → List Interaction → ℕ
notifications res o [] = 0
notifications res o (ia ∷ ias) =
    if is_notification res o ia then suc (notifications res o ias) else notifications res o ias

-- Every call of the notifier is answered with HANDLER_OK and a code below 4.00, and leaves a heap that
-- meets every request.
abbrev pub IsWilling : Notifier → Type 0
IsWilling f =
    (k : ℕ) (m : Message) (h : Heap)
    → ((f k m h).0 ≡ handler_ok)
      × (leb resp_error_bad_request_4_00 (f k m h).1.code ≡ false)
      × (Generous h → Generous (f k m h).2)

pub notifications-append :
    (res : ℕ) (o : Observer) (ias : List Interaction) (ia : Interaction)
    → notifications res o (ias ++ (ia ∷ []))
      ≡ notifications res o ias + (if is_notification res o ia then 1 else 0)
notifications-append res o [] ia = ground arith
notifications-append res o (ib ∷ ias) ia = ground (arith, notifications-append res o ias ia)

-- The mark changes no notification's role, resource and endpoint.
pub is_notification-marked :
    (res : ℕ) (o : Observer) (ia : Interaction)
    → is_notification res o (record ia { update_pending_notification = true })
      ≡ is_notification res o ia
unfolding is_notification
is_notification-marked res o ia = refl

pub mark_pending-some :
    (res : ℕ) (o p : Observer) (ias marked : List Interaction)
    → mark_pending res o ias ≡ some marked
    → (notifications res p marked ≡ notifications res p ias) × (0 < notifications res o ias)
unfolding mark_pending
mark_pending-some res o p [] marked e = cc
mark_pending-some res o p (ia ∷ ias) marked e = elim (Bool-cases (is_notification res o ia)) [
  | inl n ↦
      let first : record ia { update_pending_notification = true } ∷ ias ≡ marked =
        ground (arith, e, n) in
      subst
        (λ ms.
          (notifications res p ms ≡ notifications res p (ia ∷ ias))
          × (0 < notifications res o (ia ∷ ias)))
        first (ground (arith, is_notification-marked res p ia), ground (arith, n))
  | inr n ↦ elim (Option-cases (mark_pending res o ias)) [
    | inl f ↦ absurd (ground (arith, e, n, f))
    | inr (later, f) ↦
        let rest : ia ∷ later ≡ marked = ground (arith, e, n, f) in
        let ih = mark_pending-some res o p ias later f in
        subst
          (λ ms.
            (notifications res p ms ≡ notifications res p (ia ∷ ias))
            × (0 < notifications res o (ia ∷ ias)))
          rest (ground (arith, ih), ground (arith, ih, n))
  ]
]

pub mark_pending-none :
    (res : ℕ) (o : Observer) (ias : List Interaction)
    → mark_pending res o ias ≡ none
    → notifications res o ias ≡ 0
unfolding mark_pending
mark_pending-none res o [] e = refl
mark_pending-none res o (ia ∷ ias) e = elim (Bool-cases (is_notification res o ia)) [
  | inl n ↦ absurd (ground (arith, e, n))
  | inr n ↦ elim (Option-cases (mark_pending res o ias)) [
    | inl f ↦ ground (arith, n, mark_pending-none res o ias f)
    | inr (later, f) ↦ absurd (ground (arith, e, n, f))
  ]
]

pub is_notification-own :
    (res : ℕ) (o : Observer) (m : Message) → is_notification res o (notification_to res o m) ≡ true
unfolding is_notification notification_to new_interaction
is_notification-own res o m = ground (arith, ep_are_equal_refl o.ep)

-- Another observer that a notification goes to has the same notifications.
pub is_notification-congr :
    (res : ℕ) (o p : Observer) (m : Message) (ia : Interaction)
    → is_notification res p (notification_to res o m) ≡ true
    → is_notification res p ia ≡ is_notification res o ia
unfolding is_notification notification_to new_interaction
is_notification-congr res o p m ia e =
    let same : o.if_id ≡ p.if_id = ground (arith, e) in
    let equal : ep_are_equal o.ep p.ep ≡ true = ground (arith, e) in
    ground (arith, same, ep_are_equal-congr ia.remote_ep o.ep p.ep equal)

pub notifications-congr :
    (res : ℕ) (o p : Observer) (m : Message) (ias : List Interaction)
    → is_notification res p (notification_to res o m) ≡ true
    → notifications res p ias ≡ notifications res o ias
notifications-congr res o p m [] e = refl
notifications-congr res o p m (ia ∷ ias) e =
    ground (arith, is_notification-congr res o p m ia e, notifications-congr res o p m ias e)
