-- ===== src/Api/NotifySound.antt =====
-- CoAP_StartNotifyInteractions of coap/server/lobaro-coap/coap_interaction.c keeps the interactions
-- well-formed.
use sming_coap.Heap.{Heap, mem_get}
use sming_coap.Work.Keeps.{get_elem-set_observers, All-set_observers}
use sming_coap.Work.Notify.{remove_interactions_observer, remove_from}
use sming_coap.Interaction.{
  Interaction, append_interaction_to_list, new_interaction, sizeof_interaction,
}
use sming_coap.Work.WellFormed.{IsSound, IsWellFormed}
use sming_coap.Api.Notify.{
  mark_pending, notify_unless, notify_observers, start_notify_interactions, enqueue_notification,
  notify_with, notify_created, notify_allocated, notify_new, notify_resource, after_first_notifier,
  as_ok, notification_to, is_notification, unless_full,
}
use sming_coap.Stack.{Stack}
use sming_coap.CoapResult.{CoapResult, is_out_of_memory}
use sming_coap.Resource.{
  handler_ok, handler_postpone, handler_error, Resource, Observer, Notifier, HandlerResult,
}
use sming_coap.Message.{
  con, Message, resp_success_content_2_05, resp_error_bad_request_4_00, prefered_payload_size,
}
use sming_coap.Message.Create.{get_next_mid, create_message}
use sming_coap.Base.{
  ℕ, suc, ◌≡◌, refl, arith, inl, inr, Bool, true, false, List, [], ◌∷◌, Option, none, some, All,
  get_elem?, All-append, Bool-cases, leb, Option-cases,
}
use mathlib.Core.Path.{subst}

-- The resource exists.
abbrev pub Exists : List Resource → ℕ → Type 0
Exists rs res = (r : Resource) × (get_elem? rs res ≡ some r)

-- There is a result, with a sound stack that still has the resource.
abbrev pub Goes : ℕ → Option Stack → Type 0
Goes res o = (t : Stack) × (o ≡ some t) × IsSound t × Exists t.resources res

abbrev pub Ends : ℕ → Option (CoapResult × Stack) → Type 0
Ends res o = (r : CoapResult) × (t : Stack) × (o ≡ some (r, t)) × IsSound t × Exists t.resources res

mark_pending-All :
    (rs : List Resource) (res : ℕ) (o : Observer) (ias marked : List Interaction)
    → All (IsWellFormed rs) ias
    → mark_pending res o ias ≡ some marked
    → All (IsWellFormed rs) marked
unfolding mark_pending
mark_pending-All rs res o [] marked a e = cc
mark_pending-All rs res o (ia ∷ ias) marked (w, a) e =
    elim (Bool-cases (is_notification res o ia)) [
      | inl n ↦
          let first : record ia { update_pending_notification = true } ∷ ias ≡ marked =
            ground (arith, e, n) in
          subst (All (IsWellFormed rs)) first (w, a)
      | inr n ↦ elim (Option-cases (mark_pending res o ias)) [
        | inl f ↦ absurd (ground (arith, e, n, f))
        | inr (later, f) ↦
            let rest : ia ∷ later ≡ marked = ground (arith, e, n, f) in
            subst (All (IsWellFormed rs)) rest (w, mark_pending-All rs res o ias later a f)
      ]
    ]

module _ (res : ℕ) (o : Observer) (r : Resource) where
  removal_Goes :
      (ia : Interaction) (token : ℕ) (s : Stack)
      → ia.resource ≡ some res
      → get_elem? s.resources res ≡ some r
      → IsSound s
      → Goes res (remove_interactions_observer ia token s)
  unfolding remove_interactions_observer remove_from
  removal_Goes ia token s at e sound =
      let there = get_elem-set_observers s.resources res res _ r e in
      rw (at, e)
        (_, refl, All-set_observers s.resources res _ s.interactions sound, (there.0, there.1))

  enqueue_notification-Goes :
      (f : Notifier) (m : Message) (s : Stack)
      → r.notifier ≡ some f
      → get_elem? s.resources res ≡ some r
      → IsSound s
      → Goes res (enqueue_notification res o r m s)
  unfolding enqueue_notification append_interaction_to_list notification_to new_interaction
  enqueue_notification-Goes f m s has e sound =
      elim (Bool-cases (leb resp_error_bad_request_4_00 m.code)) [
        | inl bad ↦ rw bad (removal_Goes (notification_to res o m) m.token s refl e sound)
        | inr good ↦ rw good (
          _,
          refl,
          All-append (IsWellFormed s.resources) s.interactions _ sound
              ((omega arith, (tt, (r, e, rw has tt))), tt),
          (r, e),
        )
      ]

  notify_with-Goes :
      (m : Message) (s : Stack) (n : Option Notifier)
      → r.notifier ≡ n
      → get_elem? s.resources res ≡ some r
      → IsSound s
      → Goes res (notify_with res o r m s n)
  unfolding notify_with after_first_notifier
  notify_with-Goes m s none has e sound = (_, refl, sound, (r, e))
  notify_with-Goes m s (some f) has e sound = called (f s.calls m s.heap)
    where
      called :
          (a : HandlerResult × Message × Heap)
          → Goes res (after_first_notifier res o r (record s { calls = suc s.calls }) a)
      called (handler_ok, m', h) =
          enqueue_notification-Goes f m' (record s { calls = suc s.calls; heap = h }) has e sound
      called (handler_postpone, m', h) = (_, refl, sound, (r, e))
      called (handler_error, m', h) = (_, refl, sound, (r, e))

  notify_created-Goes :
      (s : Stack) (made : Option Message × Heap)
      → get_elem? s.resources res ≡ some r
      → IsSound s
      → Goes res (notify_created res o r s made)
  unfolding notify_created
  notify_created-Goes s (none, h) e sound = (_, refl, sound, (r, e))
  notify_created-Goes s (some m, h) e sound =
      notify_with-Goes m (record s { heap = h }) r.notifier refl e sound

  notify_allocated-Ends :
      (s : Stack) (got : Bool × Heap)
      → get_elem? s.resources res ≡ some r
      → IsSound s
      → Ends res (notify_allocated res o r s got)
  unfolding notify_allocated as_ok get_next_mid
  notify_allocated-Ends s (false, h) e sound = (_, _, refl, sound, (r, e))
  notify_allocated-Ends s (true, h) e sound =
      let c = (get_next_mid s.counters).1 in
      let made =
        create_message con resp_success_content_2_05 (get_next_mid s.counters).0 none 0
          prefered_payload_size o.token h in
      let (t, f, sound', there) = notify_created-Goes (record s { counters = c }) made e sound in
      rw f (_, _, refl, sound', there)

notify_unless-Ends :
    (res : ℕ) (o : Observer) (s : Stack) (marked : Option (List Interaction))
    → mark_pending res o s.interactions ≡ marked
    → Exists s.resources res
    → IsSound s
    → Ends res (notify_unless res o s marked)
unfolding notify_unless notify_new
notify_unless-Ends res o s (some ias) e there sound =
    (_, _, refl, mark_pending-All s.resources res o s.interactions ias sound e, there)
notify_unless-Ends res o s none e (r, there) sound =
    rw there (notify_allocated-Ends res o r s (mem_get sizeof_interaction s.heap) there sound)

unless_full-Ends :
    (res : ℕ) (full : Bool) (r : CoapResult) (t : Stack)
    (next : Stack → Option (CoapResult × Stack))
    → Exists t.resources res
    → IsSound t
    → Ends res (next t)
    → Ends res (unless_full full r t next)
unless_full-Ends res true r t next there sound later = (r, t, refl, sound, there)
unless_full-Ends res false r t next there sound later = later

notify_observers-Ends :
    (res : ℕ) (os : List Observer) (s : Stack)
    → Exists s.resources res
    → IsSound s
    → Ends res (notify_observers res os s)
unfolding notify_observers
notify_observers-Ends res [] s there sound = (_, _, refl, sound, there)
notify_observers-Ends res (o ∷ os) s there sound =
    let (r, t, e, sound', there') =
      notify_unless-Ends res o s (mark_pending res o s.interactions) refl there sound in
    rw e (
      unless_full-Ends res (is_out_of_memory r) r t (notify_observers res os) there' sound'
        (notify_observers-Ends res os t there' sound'))

-- On a sound stack, with any heap, whatever the resource's notifier answers: the start of the
-- notifications of a resource that exists reads through no NULL pointer and leaves a sound stack.
pub start_notify_interactions-IsSound :
    (res : ℕ) (r : Resource) (s : Stack)
    → get_elem? s.resources res ≡ some r
    → IsSound s
    → Ends res (start_notify_interactions res s)
unfolding start_notify_interactions notify_resource
start_notify_interactions-IsSound res r s e sound =
    rw e (notify_observers-Ends res r.observers s (r, e) sound)
