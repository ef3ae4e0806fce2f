-- ===== src/Api/Pending.antt =====
-- The notifications that CoAP_StartNotifyInteractions of coap/server/lobaro-coap/coap_interaction.c
-- starts: one for each observer.
use sming_coap.Options.Insert.{append_option_to_list_met, taken}
use sming_coap.Options.{sizeof_option, opt_num_observe, ListState}
use sming_coap.OptionTypes.Observe.{add_observe_option_to_msg, observe_bytes}
use sming_coap.Stack.{Stack}
use sming_coap.CoapResult.{ok}
use sming_coap.Heap.{Heap, Generous, mem_get}
use sming_coap.Message.{
  Message, resp_error_bad_request_4_00, sizeof_message, prefered_payload_size, con,
  resp_success_content_2_05,
}
use sming_coap.Message.Create.{create_message, fill_message, when_met, get_next_mid}
use sming_coap.Interaction.{Interaction, append_interaction_to_list, sizeof_interaction}
use sming_coap.Api.Notify.{
  is_notification, mark_pending, notification_to, after_first_notifier, enqueue_notification,
  notify_with, notify_new, notify_allocated, notify_created, as_ok, notify_observer,
  notify_observers, notify_unless, start_notify_interactions, notify_resource,
}
use sming_coap.Resource.{
  handler_ok, Observer, Notifier, handler_postpone, handler_error, Resource, HandlerResult,
}
use sming_coap.Base.{
  ℕ, suc, ◌+◌, ◌<◌, ◌≤◌, ◌≡◌, refl, ap, ◌∙◌, arith, inl, inr, false, List, [], ◌∷◌, ◌++◌, none,
  some, length, All, get_elem?, Bool-cases, Option-cases, leb,
}
use sming_coap.Api.Marked.{
  notifications, IsWilling, notifications-append, mark_pending-some, mark_pending-none,
  is_notification-own, notifications-congr,
}

-- A notification to the observer was put behind the others.
abbrev Enqueued : ℕ → Observer → Stack → Stack → Type 0
Enqueued res o s t =
    (m : Message) × (t.interactions ≡ s.interactions ++ (notification_to res o m ∷ []))
    × (t.resources ≡ s.resources)
    × Generous t.heap

after_willing :
    (res : ℕ) (o : Observer) (r : Resource) (s : Stack) (a : HandlerResult × Message × Heap)
    → a.0 ≡ handler_ok
    → after_first_notifier res o r s a ≡ enqueue_notification res o r a.1 (record s { heap = a.2 })
unfolding after_first_notifier
after_willing res o r s (handler_ok, m, h) e = refl
after_willing res o r s (handler_postpone, m, h) e = cc
after_willing res o r s (handler_error, m, h) e = cc

message_created :
    (mid token : ℕ) (h : Heap)
    → Generous h
    → (m : Message) × (create_message con resp_success_content_2_05 mid none 0 prefered_payload_size
          token h
        ≡ (some m, taken h))
unfolding create_message fill_message mem_get when_met
message_created mid token h g = rw (g h.requests (sizeof_message + prefered_payload_size)) (_, refl)

module _ (res : ℕ) (o : Observer) (r : Resource) where
  enqueue-Enqueued :
      (m : Message) (s : Stack)
      → leb resp_error_bad_request_4_00 m.code ≡ false
      → Generous s.heap
      → (t : Stack) × (enqueue_notification res o r m s ≡ some t) × Enqueued res o s t
  unfolding enqueue_notification append_interaction_to_list add_observe_option_to_msg
  enqueue-Enqueued m s good g =
      let bytes = observe_bytes r.update_cnt in
      let met = g s.heap.requests (sizeof_option + length bytes) in
      let added = append_option_to_list_met opt_num_observe bytes s.heap m.options met in
      rw good
        (_, refl, (_, refl, refl, λ k n. ap (λ (st : ListState). st.2.verdict k n) added ∙ g k n))

  notify_with-Enqueued :
      (m : Message) (s : Stack) (f : Notifier)
      → IsWilling f
      → Generous s.heap
      → (t : Stack) × (notify_with res o r m s (some f) ≡ some t) × Enqueued res o s t
  unfolding notify_with
  notify_with-Enqueued m s f willing g =
      let a = f s.calls m s.heap in
      let (answer, good, g') = willing s.calls m s.heap in
      let s' = record s { calls = suc s.calls } in
      let (t, e, q) = enqueue-Enqueued a.1 (record s' { heap = a.2 }) good (g' g) in
      (t, after_willing res o r s' a answer ∙ e, q)

  notify_new-Enqueued :
      (s : Stack) (f : Notifier)
      → get_elem? s.resources res ≡ some r
      → r.notifier ≡ some f
      → IsWilling f
      → Generous s.heap
      → (t : Stack) × (notify_new res o s (get_elem? s.resources res) ≡ some (ok, t))
        × Enqueued res o s t
  unfolding notify_new notify_allocated notify_created as_ok mem_get get_next_mid
  notify_new-Enqueued s f there has willing g =
      let h = taken s.heap in
      let (mid, c) = get_next_mid s.counters in
      let (m, made) = message_created mid o.token h g in
      let (t, e, q) =
        notify_with-Enqueued m (record s { counters = c; heap = taken h }) f willing g in
      rw (there, g s.heap.requests sizeof_interaction, made, has, e) (t, refl, q)

-- After an observer's turn: it has a notification, no observer has fewer than before, and none that
-- had one at most has more than one.
record Progress (res : ℕ) (o : Observer) (s t : Stack) : Type 0 where
  same_resources : t.resources ≡ s.resources
  generous : Generous t.heap
  notified : 0 < notifications res o t.interactions
  grows : (p : Observer) → notifications res p s.interactions ≤ notifications res p t.interactions
  capped :
      (p : Observer)
      → notifications res p s.interactions ≤ 1
      → notifications res p t.interactions ≤ 1

Enqueued-Progress :
    (res : ℕ) (o : Observer) (s t : Stack)
    → notifications res o s.interactions ≡ 0
    → Enqueued res o s t
    → Progress res o s t
Enqueued-Progress res o s t empty (m, e, same, g) =
    let ia = notification_to res o m in
    let count =
      λ (p : Observer). ap (notifications res p) e ∙ notifications-append res p s.interactions ia in
    record {
      same_resources = same;
      generous = g;
      notified = ground (arith, count o, is_notification-own res o m);
      grows = λ p. ground (arith, count p);
      capped = λ p l. elim (Bool-cases (is_notification res p ia)) [
        | inl own ↦ ground (arith, count p, own, notifications-congr res o p m s.interactions own)
        | inr other ↦ ground (arith, count p, other, l)
      ];
    }

marked-Progress :
    (res : ℕ) (o : Observer) (s : Stack) (marked : List Interaction)
    → Generous s.heap
    → mark_pending res o s.interactions ≡ some marked
    → Progress res o s (record s { interactions = marked })
marked-Progress res o s marked g e =
    let same = λ (p : Observer). mark_pending-some res o p s.interactions marked e in
    record {
      same_resources = refl;
      generous = g;
      notified = omega (arith, (same o).0, (same o).1);
      grows = λ p. omega (arith, (same p).0);
      capped = λ p l. omega (arith, (same p).0);
    }

module _ (res : ℕ) (r : Resource) (f : Notifier) (has : r.notifier ≡ some f)
    (willing : IsWilling f) where
  notify_observer-Progress :
      (o : Observer) (s : Stack)
      → get_elem? s.resources res ≡ some r
      → Generous s.heap
      → (t : Stack) × (notify_observer res o s ≡ some (ok, t)) × Progress res o s t
  unfolding notify_unless
  notify_observer-Progress o s there g = elim (Option-cases (mark_pending res o s.interactions)) [
    | inl e ↦
        let (t, n, q) = notify_new-Enqueued res o r s f there has willing g in
        let empty = mark_pending-none res o s.interactions e in
        rw e (t, n, Enqueued-Progress res o s t empty q)
    | inr (marked, e) ↦ rw e (_, refl, marked-Progress res o s marked g e)
  ]

  notify_observers-Progress :
      (os : List Observer) (s : Stack)
      → get_elem? s.resources res ≡ some r
      → Generous s.heap
      → (t : Stack) × (notify_observers res os s ≡ some (ok, t))
        × All (λ (p : Observer). 0 < notifications res p t.interactions) os
        × ((p : Observer) → notifications res p s.interactions ≤ notifications res p t.interactions)
        × ((p : Observer)
            → notifications res p s.interactions ≤ 1
            → notifications res p t.interactions ≤ 1)
  unfolding notify_observers
  notify_observers-Progress [] s there g = (s, refl, tt, λ p. omega arith, λ p l. l)
  notify_observers-Progress (o ∷ os) s there g =
      let (t, e, q) = notify_observer-Progress o s there g in
      let (u, d, all, grows, capped) =
        notify_observers-Progress os t (ap (λ rs. get_elem? rs res) q.same_resources ∙ there)
          q.generous in
      rw e (
        u,
        d,
        (omega (arith, q.notified, grows o), all),
        λ p. omega (arith, q.grows p, grows p),
        λ p l. capped p (q.capped p l),
      )

-- Each of the observers has exactly one notification.
abbrev pub OneEach : ℕ → List Observer → List Interaction → Type 0
OneEach res os ias = All (λ (o : Observer). notifications res o ias ≡ 1) os

abbrev pub OneAtMost : ℕ → List Observer → List Interaction → Type 0
OneAtMost res os ias = All (λ (o : Observer). notifications res o ias ≤ 1) os

one_each :
    (res : ℕ) (os : List Observer) (s t : Stack)
    → ((p : Observer)
        → notifications res p s.interactions ≤ 1
        → notifications res p t.interactions ≤ 1)
    → All (λ (p : Observer). 0 < notifications res p t.interactions) os
    → OneAtMost res os s.interactions
    → OneEach res os t.interactions
one_each res [] s t capped all most = tt
one_each res (o ∷ os) s t capped (p, all) (l, most) =
    (omega (arith, capped o l), one_each res os s t capped all most)

-- While every request for memory is met and the resource's notifier is willing: the start of
-- notifications goes through all observers, the result is COAP_OK, and where no observer had more
-- than one pending notification of the resource before, each of them has exactly one then. An
-- observer is the interface and the endpoint here, as for the source.
pub start_notify_interactions-OneEach :
    (res : ℕ) (r : Resource) (f : Notifier) (s : Stack)
    → get_elem? s.resources res ≡ some r
    → r.notifier ≡ some f
    → IsWilling f
    → Generous s.heap
    → OneAtMost res r.observers s.interactions
    → (t : Stack) × (start_notify_interactions res s ≡ some (ok, t))
      × OneEach res r.observers t.interactions
unfolding start_notify_interactions notify_resource
start_notify_interactions-OneEach res r f s there has willing g most =
    let (t, e, all, grows, capped) =
      notify_observers-Progress res r f has willing r.observers s there g in
    rw there (t, e, one_each res r.observers s t capped all most)
