-- ===== src/Client/Queue.antt =====
-- The queue of packets to send again: coap/client/Queue.cpp and Queue.h. Each node's time is counted
-- from the one of the node before it; the times are of type uint32.
use sming_coap.Base.{
  ℕ, ◌+◌, ◌-◌, ◌%◌, ◌^◌, Bool, true, false, List, [], ◌∷◌, Option, none, some, ltb, leb, ◌==◌,
  if◌then◌else◌,
}

-- `pdu` and `req` are the objects behind the pointers.
pub record Node : Type 0 where
  pub t : ℕ
  pub retransmit_cnt : ℕ
  pub timeout : ℕ
  pub id : ℕ
  pub pdu : ℕ
  pub req : ℕ

-- `node->t -= time`
abbrev pub sooner : ℕ → Node → Node
sooner time q = record q { t = (q.t + 2 ^ 32 - time) % 2 ^ 32 }

-- `node->t += time`
abbrev pub later : ℕ → Node → Node
later time q = record q { t = (q.t + time) % 2 ^ 32 }

-- The search for the place, behind a node that the time is relative to.
unfoldable pub insert_behind : Node → List Node → List Node
insert_behind n [] = n ∷ []
insert_behind n (q ∷ qs) =
    if leb q.t n.t then q ∷ insert_behind (sooner q.t n) qs else n ∷ (sooner n.t q ∷ qs)

unfoldable pub add_node : Node → List Node → List Node
unfolding insert_behind
add_node n [] = n ∷ []
add_node n (q ∷ qs) =
    if ltb n.t q.t then n ∷ (sooner n.t q ∷ qs) else q ∷ insert_behind (sooner q.t n) qs

-- The loop ends at the node, or at NULL, which is then read: no result.
unfoldable pub search_node : List Node → ℕ → Option (Option Node)
search_node [] id = none
search_node (q ∷ qs) id = if q.id == id then some (some q) else search_node qs id

-- An empty queue has no node.
unfoldable pub get_node_by_id : List Node → ℕ → Option (Option Node)
unfolding search_node
get_node_by_id [] id = some none
get_node_by_id (q ∷ qs) id = search_node (q ∷ qs) id

-- The first node of a queue fires later.
abbrev pub delay_first : ℕ → List Node → List Node
delay_first time [] = []
delay_first time (q ∷ qs) = later time q ∷ qs

-- The first node with the id is removed, and its time is added to the one behind it. The result says
-- whether there was one.
unfoldable pub remove_node : List Node → ℕ → Bool × List Node
remove_node [] id = (false, [])
remove_node (q ∷ qs) id =
    let rest = remove_node qs id in
    if q.id == id then (true, delay_first q.t qs) else (rest.0, q ∷ rest.1)

-- The first node and the others; `none` for NULL.
unfoldable pub pop_next : List Node → Option (Node × List Node)
pop_next [] = none
pop_next (q ∷ qs) = some (q, qs)
