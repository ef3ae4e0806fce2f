-- ===== src/Work/Observed.antt =====
-- The handling of observation requests in coap/server/lobaro-coap/coap_interaction.c, called in
-- CoAP_doWork of coap_main.c, keeps what is well-formed and meets no NULL pointer.
use sming_coap.OptionTypes.Observe.{
  get_observe_option_from_msg, observe_opt_register, observe_opt_deregister,
}
use sming_coap.Work.Notify.{remove_interactions_observer}
use sming_coap.Base.{All, Bool-cases, ◌∷◌, some, inl, inr, get_elem?, ◌==◌, ◌&&◌, ◌∙◌}
use sming_coap.Base.{
  refl, true, false, none, some, inl, inr, [], ◌∷◌, Bool, ◌&&◌, Bool-cases, sym, ◌∙◌, ◌≡◌, ◌==◌,
  if◌then◌else◌, get_elem?, ℕ, List, Option, All,
}
use mathlib.Core.Path.{subst, sym, ◌≡◌}
use sming_coap.Heap.{Heap, mem_get}
use sming_coap.CoapResult.{CoapResult, is_ok}
use sming_coap.Message.{Message, req_get, resp_success_content_2_05}
use sming_coap.Message.Create.{Counters}
use sming_coap.Options.{CoapOption}
use sming_coap.Interaction.{Interaction, server}
use sming_coap.Resource.{Resource, Observer, sizeof_observer, Notifier}
use sming_coap.Stack.{Stack}
use sming_coap.Work.{behind, put_head}
use sming_coap.Work.Observation.{
  delete_pending, attach_observer, alloc_observer, deregister, on_observe_value,
  handle_observation_in_req, is_pending, copy_observer_options, observe_by, observe_at, observe_on,
}
use sming_coap.Work.Server.{after_observation, observe}
use sming_coap.Work.WellFormed.{IsWellFormed}
use sming_coap.Work.Keeps.{
  Keeps, Keeps-trans, set_observers-Keeps, remove_interactions_observer-Keeps,
}

-- A change of counters and heap.
pub changed-Keeps :
    (s : Stack) (c : Counters) (h : Heap) → Keeps s (record s { counters = c; heap = h })
changed-Keeps s c h = record { keeps_one = λ ia w. w; keeps_behind = λ b. b; keeps_sockets = refl }

delete_pending-All :
    (rs : List Resource) (token : ℕ) (ia : Interaction) (ias : List Interaction) (h : Heap)
    → All (IsWellFormed rs) ias
    → All (IsWellFormed rs) (delete_pending token ia ias h).0
unfolding delete_pending
delete_pending-All rs token ia [] h a = a
delete_pending-All rs token ia (p ∷ ps) h (w, a) = elim (Bool-cases (is_pending token ia p)) [
  | inl e ↦ rw e a
  | inr e ↦ rw e (w, delete_pending-All rs token ia ps h a)
]

-- An answer comes with a stack that keeps what is well-formed, if all interactions are.
abbrev Answers : Stack → Option (CoapResult × Stack) → Type 0
Answers s o = (r : CoapResult) × (t : Stack) × (o ≡ some (r, t)) × Keeps s t

Answers-if :
    (s : Stack) (b : Bool) (x y : Option (CoapResult × Stack))
    → Answers s x
    → Answers s y
    → Answers s (if b then x else y)
Answers-if s true x y p q = p
Answers-if s false x y p q = q

attach_observer-Keeps :
    (o : Observer) (i : ℕ) (r : Resource) (s : Stack) (c : Bool × List CoapOption × Heap)
    → Keeps s (attach_observer o i r s c).1
unfolding attach_observer
attach_observer-Keeps o i r s (false, opts, h) = changed-Keeps s s.counters _
attach_observer-Keeps o i r s (true, opts, h) = set_observers-Keeps s i _ _

alloc_observer-Keeps :
    (ia : Interaction) (req : Message) (i : ℕ) (r : Resource) (s : Stack) (a : Bool × Heap)
    → Keeps s (alloc_observer ia req i r s a).1
unfolding alloc_observer
alloc_observer-Keeps ia req i r s (false, h) = changed-Keeps s s.counters h
alloc_observer-Keeps ia req i r s (true, h) =
    attach_observer-Keeps
      (record { ep = ia.remote_ep; if_id = ia.if_id; token = req.token; opt_list = [] }) i r s
      (copy_observer_options req.options [] h)

-- The head is a server interaction, so that no more than the rest is touched.
module _ (ia : Interaction) (req : Message) (i : ℕ) (r : Resource) (srv : ia.role ≡ server)
    (at : ia.resource ≡ some i) where
  delete-Keeps :
      (s : Stack) (h : Heap) (head : Interaction) (rest : List Interaction)
      → s.interactions ≡ head ∷ rest
      → head.role ≡ server
      → let u = delete_pending req.token ia s.interactions h in
        Keeps s (record s { interactions = u.0; heap = u.1 })
  unfolding delete_pending is_pending
  delete-Keeps s h head rest e v =
      rw (e, v)
        (record {
          keeps_one = λ ib w. w;
          keeps_behind = λ b. delete_pending-All s.resources req.token ia rest h b;
          keeps_sockets = refl;
        })

  deregister-Answers :
      (s : Stack) (rest : List Interaction)
      → get_elem? s.resources i ≡ some r
      → s.interactions ≡ ia ∷ rest
      → Answers s (deregister ia req (remove_interactions_observer ia req.token s))
  unfolding deregister
  deregister-Answers s rest f e =
      let (t, eq, same, k) = remove_interactions_observer-Keeps ia req.token s i r at f in
      rw eq (_, _, refl, Keeps-trans k (delete-Keeps t t.heap ia rest (same ∙ e) srv))

  on_observe_value-Answers :
      (s : Stack) (rest : List Interaction) (q : CoapResult) (v : ℕ)
      → get_elem? s.resources i ≡ some r
      → s.interactions ≡ ia ∷ rest
      → Answers s (on_observe_value ia req i r s (q, v))
  unfolding on_observe_value
  on_observe_value-Answers s rest q v f e =
      let none_changed = changed-Keeps s s.counters s.heap in
      Answers-if s (is_ok q) _ _
        (Answers-if s (v == observe_opt_register) _ _
          (_, _, refl, alloc_observer-Keeps ia req i r s (mem_get sizeof_observer s.heap))
          (Answers-if s (v == observe_opt_deregister) _ _ (deregister-Answers s rest f e)
            (_, _, refl, none_changed)))
        (_, _, refl, none_changed)

  observe_by-Answers :
      (s : Stack) (rest : List Interaction) (n : Option Notifier)
      → get_elem? s.resources i ≡ some r
      → s.interactions ≡ ia ∷ rest
      → Answers s (observe_by ia i r s n (some req))
  unfolding observe_by
  observe_by-Answers s rest none f e = (_, _, refl, changed-Keeps s s.counters s.heap)
  observe_by-Answers s rest (some n) f e =
      let v = get_observe_option_from_msg req.options in on_observe_value-Answers s rest v.0 v.1 f e

  handle_observation-Answers :
      (s : Stack) (rest : List Interaction)
      → ia.req_msg ≡ some req
      → get_elem? s.resources i ≡ some r
      → s.interactions ≡ ia ∷ rest
      → Answers s (handle_observation_in_req ia s)
  unfolding handle_observation_in_req observe_at observe_on
  handle_observation-Answers s rest g f e =
      subst (λ x. Answers s (observe_at ia s x)) (sym at)
        (subst (λ x. Answers s (observe_on ia i s x)) (sym f)
          (subst (λ x. Answers s (observe_by ia i r s r.notifier x)) (sym g)
            (observe_by-Answers s rest r.notifier f e)))

-- The response of the step's end, with what was kept.
abbrev Observed : Interaction → Stack → Option (Interaction × Stack) → Type 0
Observed ia s o =
    (m : Message) × (t : Stack) × (o ≡ some (record ia { resp_msg = some m }, t)) × Keeps s t

after_observation-Observed :
    (ia : Interaction) (m : Message) (s : Stack) (o : Option (CoapResult × Stack))
    → Answers s o
    → Observed ia s (after_observation ia m o)
unfolding after_observation
after_observation-Observed ia m s o (r, t, e, k) = rw e (elim (Bool-cases (is_ok r)) [
  | inl x ↦ rw x (_, _, refl, Keeps-trans k (changed-Keeps t t.counters _))
  | inr x ↦ rw x (_, _, refl, k)
])

pub observe-Observed :
    (ia : Interaction) (req m : Message) (i : ℕ) (r : Resource) (s : Stack)
    → ia.role ≡ server
    → ia.resource ≡ some i
    → ia.req_msg ≡ some req
    → get_elem? s.resources i ≡ some r
    → Observed ia s (observe ia req (m, s))
unfolding observe
observe-Observed ia req m i r s v a g f =
    elim (Bool-cases ((req.code == req_get) && (m.code == resp_success_content_2_05))) [
      | inl x ↦ rw x (
          let ia' = record ia { resp_msg = some m } in
          let a' =
            handle_observation-Answers ia' req i r v a (put_head ia' s) (behind s.interactions) g f
              refl in
          let (n, t, e, k) = after_observation-Observed ia m (put_head ia' s) _ a' in
          (
            n,
            t,
            e,
            record {
              keeps_one = k.keeps_one;
              keeps_behind = k.keeps_behind;
              keeps_sockets = k.keeps_sockets;
            },
          ))
      | inr x ↦ rw x (_, _, refl, changed-Keeps s s.counters s.heap)
    ]
