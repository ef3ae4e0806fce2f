-- ===== src/Client/Engine.antt =====
-- The requests of the client and their timer: coap/client/CoapClient.cpp and the sending in
-- coap/client/CoapRequest.cpp. The packet class, the connection and the timer are other projects';
-- what is asked of them is a parameter. `none` stands for a read through NULL.
use sming_coap.Base.{
  ℕ, suc, ◌+◌, ◌-◌, ◌*◌, ◌/◌, ◌%◌, ◌^◌, Bool, true, false, List, [], ◌∷◌, Option, none, some, ltb,
  leb, ◌==◌, if◌then◌else◌, get_elem?, zero,
}
use sming_coap.Message.{MessageType, con, non}
use sming_coap.Client.Queue.{Node, add_node, get_node_by_id, remove_node, pop_next}
use sming_coap.Client.Hash.{create_transaction_id}

-- A CoapRequest. After a connect the address of the connection is the remote one.
pub record Request : Type 0 where
  pub remote_ip : ℕ
  pub remote_port : ℕ
  pub connected : Bool
  pub tid : ℕ

-- The type and the message id of a packet, and whether the k-th connect succeeds.
pub record Outside : Type 0 where
  pub get_type : ℕ → MessageType
  pub get_message_id : ℕ → ℕ
  pub connect : ℕ → Bool

-- A pointer to a request is its place in `requests`. A callback is a number; `invoked` holds the calls,
-- newest first, with the success and the packet that they were given. `timer` is the interval of the
-- timer that runs. `sent` holds the packets that were sent, newest first.
pub record CoapClient : Type 0 where
  pub queue : List Node
  pub callbacks : List (ℕ × ℕ)
  pub basetime : ℕ
  pub timer : Option ℕ
  pub requests : List Request
  pub connects : ℕ
  pub sent : List ℕ
  pub closed : List ℕ
  pub invoked : List (ℕ × Bool × ℕ)

-- COAP_INVALID_TID, the int -1.
abbrev pub coap_invalid_tid : ℕ
coap_invalid_tid = 2 ^ 32 - 1

abbrev pub coap_default_max_retransmit : ℕ
coap_default_max_retransmit = 4

-- SYS_TIME_MAX
abbrev pub sys_time_max : ℕ
sys_time_max = (2 ^ 32 - 1) / 1000

-- The hash map of the callbacks.
abbrev pub find_callback : List (ℕ × ℕ) → ℕ → Option ℕ
find_callback [] tid = none
find_callback ((k, f) ∷ fs) tid = if k == tid then some f else find_callback fs tid

abbrev pub remove_callback : List (ℕ × ℕ) → ℕ → List (ℕ × ℕ)
remove_callback [] tid = []
remove_callback ((k, f) ∷ fs) tid =
    if k == tid then remove_callback fs tid else (k, f) ∷ remove_callback fs tid

abbrev pub set_request : ℕ → Request → List Request → List Request
set_request i r [] = []
set_request i r (q ∷ qs) = elim i [ zero ↦ r ∷ qs | suc j ↦ q ∷ set_request j r qs ]

-- CoapRequest::sendPDU
unfoldable pub send_on : Outside → ℕ → ℕ → Request → CoapClient → ℕ × CoapClient
unfolding create_transaction_id
send_on out i pdu r c =
    let tid = create_transaction_id r.remote_ip r.remote_port (out.get_message_id pdu) in
    let connected = if r.connected then true else out.connect c.connects in
    let connects = if r.connected then c.connects else suc c.connects in
    (
      tid,
      record c {
        requests = set_request i (record r { connected = connected; tid = tid }) c.requests;
        connects = connects;
        sent = pdu ∷ c.sent;
      },
    )

unfoldable pub send_pdu : Outside → ℕ → ℕ → CoapClient → Option (ℕ × CoapClient)
unfolding send_on
send_pdu out i pdu c = elim (get_elem? c.requests i) [
  | none ↦ none
  | some r ↦ some (send_on out i pdu r c)
]

unfoldable pub timer_restart : CoapClient → CoapClient
timer_restart c = elim c.queue [ [] ↦ c | q ∷ qs ↦ record c { timer = some q.t } ]

abbrev pub timer_stop : CoapClient → CoapClient
timer_stop c = record c { timer = none }

-- The time since the base, in uint32.
unfoldable pub elapsed : ℕ → ℕ → ℕ
elapsed now basetime =
    if leb basetime now then now - basetime else (now + sys_time_max + 2 ^ 32 - basetime) % 2 ^ 32

abbrev pub advance : ℕ → List Node → List Node
advance diff [] = []
advance diff (q ∷ qs) = record q { t = (if leb diff q.t then q.t - diff else 0) } ∷ qs

unfoldable pub timer_update : ℕ → CoapClient → CoapClient
unfolding elapsed
timer_update now c = record c { queue = advance (elapsed now c.basetime) c.queue; basetime = now }

-- The callback of a transaction is called with the success and a packet, if there is one.
unfoldable pub call_back : ℕ → Bool → ℕ → CoapClient → CoapClient
call_back tid success pdu c = elim (find_callback c.callbacks tid) [
  | none ↦ c
  | some f ↦ record c { invoked = (f, success, pdu) ∷ c.invoked }
]

-- The transaction of a response is over.
unfoldable pub end_transaction : ℕ → ℕ → ℕ → CoapClient → CoapClient
unfolding call_back remove_node
end_transaction tid i pdu c = elim (find_callback c.callbacks tid) [
  | none ↦ c
  | some f ↦ record (call_back tid true pdu c) {
    callbacks = remove_callback c.callbacks tid;
    closed = i ∷ c.closed;
    queue = (remove_node c.queue tid).1;
  }
]

unfoldable pub on_node : ℕ → ℕ → ℕ → ℕ → CoapClient → Option (Option Node) → Option CoapClient
unfolding end_transaction timer_update timer_restart
on_node tid i pdu now c none = none
on_node tid i pdu now c (some none) = some c
on_node tid i pdu now c (some (some n)) =
    some (timer_restart (timer_update now (end_transaction tid i pdu (timer_stop c))))

-- CoapClient::onResponse, for a request and the packet that it received.
unfoldable pub on_response : Bool → ℕ → Request → ℕ → ℕ → CoapClient → Option CoapClient
unfolding on_node get_node_by_id
on_response successful i r pdu now c =
    if successful then on_node r.tid i pdu now c (get_node_by_id c.queue r.tid) else some c

-- The randomised timeout of a confirmable packet, and the timeout of any other.
unfoldable pub first_timeout : MessageType → ℕ → ℕ
first_timeout con r = 2000 + 1 * (1000 * (r % 256) / 256)
first_timeout _ r = 2000

unfoldable pub enqueue : ℕ → ℕ → ℕ → ℕ → Option (ℕ × CoapClient) → Option (ℕ × CoapClient)
unfolding timer_update timer_restart add_node
enqueue timeout i pdu now none = none
enqueue timeout i pdu now (some (tid, c)) =
    let n : Node = record {
      t = timeout;
      retransmit_cnt = 0;
      timeout = timeout;
      id = tid;
      pdu = pdu;
      req = i;
    } in
    let c' = timer_update now (timer_stop c) in
    some (tid, timer_restart (record c' { queue = add_node n c'.queue }))

-- CoapClient::doRequest; `memory` says whether there is memory for the node, and `r` is the value of
-- rand().
unfoldable pub do_request : Outside → Bool → ℕ → ℕ → ℕ → ℕ → CoapClient → Option (ℕ × CoapClient)
unfolding send_pdu enqueue first_timeout
do_request out memory r now i pdu c =
    if memory
    then enqueue (first_timeout (out.get_type pdu) r) i pdu now (send_pdu out i pdu c)
    else some (coap_invalid_tid, c)

-- The packet was sent again.
unfoldable pub requeue : Node → Option (ℕ × CoapClient) → Option CoapClient
unfolding timer_restart add_node
requeue n none = none
requeue n (some (tid, c)) =
    if tid == coap_invalid_tid
    then some (timer_restart c)
    else some (timer_restart (record c { queue = add_node (record n { id = tid }) c.queue }))

-- One more attempt: the timeout doubles.
abbrev pub next_attempt : Node → Node
next_attempt n =
    let count = (n.retransmit_cnt + 1) % 256 in
    record n { retransmit_cnt = count; t = n.timeout * 2 ^ count % 2 ^ 32 }

unfoldable pub attempt : Outside → Node → CoapClient → Option CoapClient
unfolding requeue send_pdu call_back timer_restart
attempt out n c =
    if ltb n.retransmit_cnt coap_default_max_retransmit
    then requeue (next_attempt n) (send_pdu out n.req n.pdu c)
    else some (timer_restart (call_back n.id false n.pdu c))

unfoldable pub on_popped : Outside → CoapClient → Option (Node × List Node) → Option CoapClient
unfolding attempt call_back timer_restart
on_popped out c none = none
on_popped out c (some (n, rest)) =
    let c' = record c { queue = rest } in
    elim (out.get_type n.pdu) [
      | non ↦ some (timer_restart (call_back n.id false n.pdu c'))
      | _ ↦ attempt out n c'
    ]

-- CoapClient::timerTick
unfoldable pub timer_tick : Outside → CoapClient → Option CoapClient
unfolding on_popped pop_next
timer_tick out c = on_popped out c (pop_next c.queue)
