-- ===== src/Client/Due.antt =====
-- What the queue of coap/client/Queue.cpp stands for: packets with the times at which they are due.
use sming_coap.Base.{
  ℕ, ◌+◌, ◌-◌, ◌%◌, ◌^◌, ◌<◌, ◌≤◌, ◌≡◌, refl, ap, arith, Bool-cases, inl, inr, List, [], ◌∷◌, ltb,
  leb, ◌==◌, if◌then◌else◌, All, lt→ltb, le→ltb, ltb→lt, ltb→le,
}
use sming_coap.Client.Queue.{Node, sooner, insert_behind, add_node, delay_first, remove_node}

-- A packet and the time it is due at. The node's own time is forgotten.
pub record Deadline : Type 0 where
  pub at : ℕ
  pub node : Node

abbrev pub deadline : ℕ → Node → Deadline
deadline base n = record { at = base + n.t; node = record n { t = 0 } }

-- The deadlines of a queue whose first time is counted from `base`.
abbrev pub deadlines : ℕ → List Node → List Deadline
deadlines base [] = []
deadlines base (q ∷ qs) = deadline base q ∷ deadlines (base + q.t) qs

-- The reference: before the first deadline that is later.
abbrev pub insert_deadline : Deadline → List Deadline → List Deadline
insert_deadline d [] = d ∷ []
insert_deadline d (e ∷ es) = if ltb d.at e.at then d ∷ (e ∷ es) else e ∷ insert_deadline d es

-- The reference: without the first deadline of this id.
abbrev pub remove_deadline : ℕ → List Deadline → List Deadline
remove_deadline id [] = []
remove_deadline id (e ∷ es) = if e.node.id == id then es else e ∷ remove_deadline id es

-- Every time is a uint32.
abbrev pub IsQueue : List Node → Type 0
IsQueue = All (λ (q : Node). q.t < 2 ^ 32)

-- The time from the start to the last deadline.
abbrev pub span : List Node → ℕ
span [] = 0
span (q ∷ qs) = q.t + span qs

-- The node becomes the first, and the one behind it is counted from it.
before-deadlines :
    (base : ℕ) (n q : Node) (qs : List Node)
    → n.t < q.t
    → q.t < 2 ^ 32
    → deadlines base (n ∷ (sooner n.t q ∷ qs))
      ≡ insert_deadline (deadline base n) (deadlines base (q ∷ qs))
before-deadlines base n q qs l small =
    let same : base + n.t + (q.t + 2 ^ 32 - n.t) % 2 ^ 32 ≡ base + q.t = omega (arith, l, small) in
    rw (same, lt→ltb (base + n.t) (base + q.t) (omega (arith, l))) refl

behind-deadlines :
    (base : ℕ) (n q : Node) (qs rest : List Node)
    → q.t ≤ n.t
    → n.t < 2 ^ 32
    → deadlines (base + q.t) rest
      ≡ insert_deadline (deadline (base + q.t) (sooner q.t n)) (deadlines (base + q.t) qs)
    → deadlines base (q ∷ rest) ≡ insert_deadline (deadline base n) (deadlines base (q ∷ qs))
behind-deadlines base n q qs rest l small ih =
    let same : base + q.t + (n.t + 2 ^ 32 - q.t) % 2 ^ 32 ≡ base + n.t = omega (arith, l, small) in
    rw (ih, same, le→ltb (base + n.t) (base + q.t) (omega (arith, l))) refl

insert_behind-deadlines :
    (base : ℕ) (n : Node) (qs : List Node)
    → n.t < 2 ^ 32
    → IsQueue qs
    → deadlines base (insert_behind n qs) ≡ insert_deadline (deadline base n) (deadlines base qs)
unfolding insert_behind
insert_behind-deadlines base n [] small w = refl
insert_behind-deadlines base n (q ∷ qs) small (b, w) = elim (Bool-cases (leb q.t n.t)) [
  | inl e ↦ rw e (
      behind-deadlines base n q qs _ (ground (arith, e)) small
        (insert_behind-deadlines (base + q.t) (sooner q.t n) qs (omega arith) w))
  | inr e ↦ rw e (before-deadlines base n q qs (ground (arith, e)) b)
]

-- A packet that is added to the queue is due at its own time, behind those that are due by then, and the
-- others are due when they were.
pub add_node-deadlines :
    (base : ℕ) (n : Node) (qs : List Node)
    → n.t < 2 ^ 32
    → IsQueue qs
    → deadlines base (add_node n qs) ≡ insert_deadline (deadline base n) (deadlines base qs)
unfolding add_node
add_node-deadlines base n [] small w = refl
add_node-deadlines base n (q ∷ qs) small (b, w) = elim (Bool-cases (ltb n.t q.t)) [
  | inl e ↦ rw e (before-deadlines base n q qs (ltb→lt n.t q.t e) b)
  | inr e ↦ rw e (
      behind-deadlines base n q qs _ (ltb→le n.t q.t e) small
        (insert_behind-deadlines (base + q.t) (sooner q.t n) qs (omega arith) w))
]

delay_first-deadlines :
    (base : ℕ) (q : Node) (qs : List Node)
    → span (q ∷ qs) < 2 ^ 32
    → deadlines base (delay_first q.t qs) ≡ deadlines (base + q.t) qs
delay_first-deadlines base q [] small = refl
delay_first-deadlines base q (p ∷ ps) small =
    let same : base + (p.t + q.t) % 2 ^ 32 ≡ base + q.t + p.t = omega (arith, small) in rw same refl

-- The first packet with an id is removed, and the others are due when they were, if the last one is due
-- within 2 ^ 32.
pub remove_node-deadlines :
    (base : ℕ) (qs : List Node) (id : ℕ)
    → span qs < 2 ^ 32
    → deadlines base (remove_node qs id).1 ≡ remove_deadline id (deadlines base qs)
unfolding remove_node
remove_node-deadlines base [] id small = refl
remove_node-deadlines base (q ∷ qs) id small = elim (Bool-cases (q.id == id)) [
  | inl e ↦ rw e (delay_first-deadlines base q qs small)
  | inr e ↦
      rw e (
        ap (◌∷◌ (deadline base q))
          (remove_node-deadlines (base + q.t) qs id (omega (arith, small))))
]
