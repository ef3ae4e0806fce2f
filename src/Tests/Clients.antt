-- ===== src/Tests/Clients.antt =====
-- The client's queue and its requests at concrete inputs.
use sming_coap.Base.{ℕ, ◌≡◌, refl, arith, List, [], ◌∷◌, none, some, true}
use sming_coap.Client.Queue.{Node, add_node, remove_node, insert_behind}
use sming_coap.Client.Due.{
  deadline, deadlines, insert_deadline, remove_deadline, add_node-deadlines, remove_node-deadlines,
}
use sming_coap.Client.Engine.{Request, CoapClient, on_response}
use sming_coap.Client.Unknown.{on_response_null}

abbrev waiting_node : ℕ → ℕ → Node
waiting_node time id = record {
  t = time;
  retransmit_cnt = 0;
  timeout = 2000;
  id = id;
  pdu = 0;
  req = 0;
}

-- Due 10, 15 and 18 after the base.
abbrev three_nodes : List Node
three_nodes = waiting_node 10 1 ∷ waiting_node 5 2 ∷ waiting_node 3 3 ∷ []

add_node_run :
    add_node (waiting_node 16 4) three_nodes
    ≡ waiting_node 10 1 ∷ waiting_node 5 2 ∷ waiting_node 1 4 ∷ waiting_node 2 3 ∷ []
unfolding add_node insert_behind
add_node_run = refl

add_node-deadlines_example :
    deadlines 100 (add_node (waiting_node 16 4) three_nodes)
    ≡ insert_deadline (deadline 100 (waiting_node 16 4)) (deadlines 100 three_nodes)
add_node-deadlines_example =
    add_node-deadlines 100 (waiting_node 16 4) three_nodes (omega arith)
      (omega arith, (omega arith, (omega arith, tt)))

remove_node-deadlines_example :
    deadlines 100 (remove_node three_nodes 2).1 ≡ remove_deadline 2 (deadlines 100 three_nodes)
remove_node-deadlines_example = remove_node-deadlines 100 three_nodes 2 (omega arith)

abbrev done : Request
done = record { remote_ip = 7; remote_port = 5683; connected = true; tid = 9 }

abbrev three_waiting : CoapClient
three_waiting = record {
  queue = three_nodes;
  callbacks = [];
  basetime = 0;
  timer = some 10;
  requests = done ∷ [];
  connects = 1;
  sent = [];
  closed = [];
  invoked = [];
}

on_response_null_example : on_response true 0 done 5 100 three_waiting ≡ none
on_response_null_example =
    on_response_null 0 done 5 100 three_waiting (waiting_node 10 1)
      (waiting_node 5 2 ∷ waiting_node 3 3 ∷ []) refl (refl, (refl, (refl, tt)))
