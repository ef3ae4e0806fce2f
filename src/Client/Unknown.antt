-- ===== src/Client/Unknown.antt =====
-- A response for which the queue of coap/client/Queue.cpp has no node.
use sming_coap.Base.{ℕ, ◌≡◌, refl, true, false, List, [], ◌∷◌, none, ◌==◌, All}
use sming_coap.Client.Queue.{Node, search_node, get_node_by_id}
use sming_coap.Client.Engine.{Request, CoapClient, on_node, on_response}

search_node-none :
    (qs : List Node) (id : ℕ)
    → All (λ (q : Node). (q.id == id) ≡ false) qs
    → search_node qs id ≡ none
unfolding search_node
search_node-none [] id a = refl
search_node-none (q ∷ qs) id (e, a) = rw e (search_node-none qs id a)

-- A response that was received successfully and whose transaction is not in the queue, while the queue is not empty: the search for its
-- node reads through NULL.
pub on_response_null :
    (i : ℕ) (r : Request) (pdu now : ℕ) (c : CoapClient) (q : Node) (qs : List Node)
    → c.queue ≡ q ∷ qs
    → All (λ (n : Node). (n.id == r.tid) ≡ false) (q ∷ qs)
    → on_response true i r pdu now c ≡ none
unfolding on_response get_node_by_id on_node
on_response_null i r pdu now c q qs e a = rw (e, search_node-none (q ∷ qs) r.tid a) refl
