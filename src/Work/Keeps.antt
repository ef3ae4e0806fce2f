-- ===== src/Work/Keeps.antt =====
-- What the parts of a step in coap/server/lobaro-coap/coap_main.c leave well-formed when observers
-- are added to resources and removed from them.
use sming_coap.Base.{
  ℕ, zero, suc, ◌≡◌, refl, List, [], ◌∷◌, Option, none, some, get_elem?, All, ap, ◌∙◌,
}
use sming_coap.Heap.{Heap}
use sming_coap.Message.{Message}
use sming_coap.Interaction.{
  Interaction, InteractionRole, role_not_set, server, notification, client, InteractionState,
}
use sming_coap.Resource.{Resource, Observer}
use sming_coap.Stack.{Stack}
use sming_coap.Work.{behind}
use sming_coap.Work.Notify.{set_observers, remove_interactions_observer, remove_from}
use sming_coap.Work.WellFormed.{Serves, Notifies, Fits, IsWellFormed, IsSoundBehind, Frame}

-- What is well-formed in the one stack is so in the other, and the sockets are the same.
pub record Keeps (s t : Stack) : Type 0 where
  pub keeps_one : (ia : Interaction) → IsWellFormed s.resources ia → IsWellFormed t.resources ia
  pub keeps_behind : IsSoundBehind s → IsSoundBehind t
  pub keeps_sockets : t.network.socket ≡ s.network.socket

pub Keeps-trans : {s t u : Stack} → Keeps s t → Keeps t u → Keeps s u
Keeps-trans f g = record {
  keeps_one = λ ia w. g.keeps_one ia (f.keeps_one ia w);
  keeps_behind = λ b. g.keeps_behind (f.keeps_behind b);
  keeps_sockets = g.keeps_sockets ∙ f.keeps_sockets;
}

pub get_elem-set_observers :
    (rs : List Resource) (i j : ℕ) (os : List Observer) (r : Resource)
    → get_elem? rs i ≡ some r
    → (r' : Resource) × (get_elem? (set_observers rs j os) i ≡ some r')
      × (r'.handler ≡ r.handler)
      × (r'.notifier ≡ r.notifier)
get_elem-set_observers [] i j os r e = (r, e, refl, refl)
get_elem-set_observers (q ∷ qs) zero zero os r e = (
  record q { observers = os },
  refl,
  ap (λ o. elim o [ none ↦ q.handler | some x ↦ x.handler ]) e,
  ap (λ o. elim o [ none ↦ q.notifier | some x ↦ x.notifier ]) e,
)
get_elem-set_observers (q ∷ qs) (suc i) zero os r e = (r, e, refl, refl)
get_elem-set_observers (q ∷ qs) zero (suc j) os r e = (r, e, refl, refl)
get_elem-set_observers (q ∷ qs) (suc i) (suc j) os r e = get_elem-set_observers qs i j os r e

Serves-set_observers :
    (rs : List Resource) (res : Option ℕ) (j : ℕ) (os : List Observer)
    → Serves rs res
    → Serves (set_observers rs j os) res
Serves-set_observers rs (some i) j os (r, e, p) =
    let (r', e', h, n) = get_elem-set_observers rs i j os r e in (r', e', rw h p)
Serves-set_observers rs none j os p = p

Notifies-set_observers :
    (rs : List Resource) (res : Option ℕ) (j : ℕ) (os : List Observer)
    → Notifies rs res
    → Notifies (set_observers rs j os) res
Notifies-set_observers rs (some i) j os (r, e, p) =
    let (r', e', h, n) = get_elem-set_observers rs i j os r e in (r', e', rw n p)
Notifies-set_observers rs none j os p = p

Fits-set_observers :
    (role : InteractionRole) (rs : List Resource) (req : Option Message) (res : Option ℕ)
    (st : InteractionState) (resp : Option Message) (j : ℕ) (os : List Observer)
    → Fits role rs req res st resp
    → Fits role (set_observers rs j os) req res st resp
Fits-set_observers role_not_set rs req res st resp j os f = f
Fits-set_observers server rs req res st resp j os (p, q, r) =
    (p, Serves-set_observers rs res j os q, r)
Fits-set_observers notification rs req res st resp j os (p, q) =
    (p, Notifies-set_observers rs res j os q)
Fits-set_observers client rs req res st resp j os f = f

IsWellFormed-set_observers :
    (rs : List Resource) (j : ℕ) (os : List Observer) (ia : Interaction)
    → IsWellFormed rs ia
    → IsWellFormed (set_observers rs j os) ia
IsWellFormed-set_observers rs j os ia (l, f) =
    (l, Fits-set_observers ia.role rs ia.req_msg ia.resource ia.state ia.resp_msg j os f)

pub All-set_observers :
    (rs : List Resource) (j : ℕ) (os : List Observer) (ias : List Interaction)
    → All (IsWellFormed rs) ias
    → All (IsWellFormed (set_observers rs j os)) ias
All-set_observers rs j os [] a = a
All-set_observers rs j os (ia ∷ ias) (w, a) =
    (IsWellFormed-set_observers rs j os ia w, All-set_observers rs j os ias a)

pub set_observers-Keeps :
    (s : Stack) (j : ℕ) (os : List Observer) (h : Heap)
    → Keeps s (record s { resources = set_observers s.resources j os; heap = h })
set_observers-Keeps s j os h = record {
  keeps_one = IsWellFormed-set_observers s.resources j os;
  keeps_behind = All-set_observers s.resources j os (behind s.interactions);
  keeps_sockets = refl;
}

-- An observer is removed from a resource that exists.
pub remove_interactions_observer-Keeps :
    (ia : Interaction) (token : ℕ) (s : Stack) (i : ℕ) (r : Resource)
    → ia.resource ≡ some i
    → get_elem? s.resources i ≡ some r
    → (t : Stack) × (remove_interactions_observer ia token s ≡ some t)
      × (t.interactions ≡ s.interactions)
      × Keeps s t
unfolding remove_interactions_observer remove_from
remove_interactions_observer-Keeps ia token s i r e f =
    rw (e, f) (_, refl, refl, set_observers-Keeps s i _ _)

-- Sending a message changes neither resources nor interactions.
pub Frame-Keeps : (s t : Stack) → Frame s t → Keeps s t
Frame-Keeps s t f = record {
  keeps_one = λ ia w. rw f.same_resources w;
  keeps_behind = λ b. rw (f.same_interactions, f.same_resources) b;
  keeps_sockets = f.same_sockets;
}
