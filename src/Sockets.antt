-- ===== src/Sockets.antt =====
-- The table of sockets, coap/server/lobaro-coap/interface/_common/coap_if_Socket.c and .h, and their
-- use in coap/server/lobaro-coap/interface/esp8266/lobaro-coap_esp8266.c. The connections belong to the
-- vendor's SDK: a handle is a number, and whether the SDK takes what it is asked is a parameter.
pub mod Created
use sming_coap.Base.{
  ℕ, zero, suc, Bool, true, false, ◌&&◌, List, [], ◌∷◌, Option, none, some, map, take, ◌==◌,
  if◌then◌else◌, get_elem?, read, ltb,
}
use sming_coap.Endpoint.{NetEp, NetInterfaceType, ipv4, same_type}

-- `rx_cb` and `tx` are the numbers of the functions behind the pointers.
pub record NetSocket : Type 0 where
  pub handle : ℕ
  pub if_id : ℕ
  pub ep_local : NetEp
  pub ep_remote : NetEp
  pub rx_cb : ℕ
  pub tx : ℕ
  pub alive : Bool

-- The MAX_ACTIVE_SOCKETS sockets of SocketMemory.
pub record NetSocketCtrl : Type 0 where
  pub sockets : List NetSocket
  pub init_done : Bool

-- The place of the first socket that is not alive.
unfoldable pub first_free : List NetSocket → Option ℕ
first_free [] = none
first_free (q ∷ qs) =
    let rest = first_free qs in
    if q.alive then elim rest [ none ↦ none | some i ↦ some (suc i) ] else some 0

unfoldable pub init_sockets : NetSocketCtrl → NetSocketCtrl
init_sockets c = if c.init_done then c else record {
  sockets = map (λ (q : NetSocket). record q { alive = false }) c.sockets;
  init_done = true;
}

-- The result is the socket's place, `none` for NULL.
unfoldable pub alloc_socket : NetSocketCtrl → Option ℕ × NetSocketCtrl
unfolding init_sockets first_free
alloc_socket c = let c' = init_sockets c in (first_free c'.sockets, c')

unfoldable pub has_handle : ℕ → NetSocket → Bool
has_handle handle q = q.alive && (q.handle == handle)

unfoldable pub has_interface : ℕ → NetSocket → Bool
has_interface if_id q = q.alive && (q.if_id == if_id)

abbrev pub find_socket : (NetSocket → Bool) → List NetSocket → Option ℕ
find_socket p [] = none
find_socket p (q ∷ qs) =
    let rest = find_socket p qs in
    if p q then some 0 else elim rest [ none ↦ none | some i ↦ some (suc i) ]

unfoldable pub retrieve_socket : NetSocketCtrl → ℕ → Option ℕ
unfolding has_handle
retrieve_socket c handle = find_socket (has_handle handle) c.sockets

unfoldable pub retrieve_socket2 : NetSocketCtrl → ℕ → Option ℕ
unfolding has_interface
retrieve_socket2 c if_id = find_socket (has_interface if_id) c.sockets

-- The socket behind a pointer is changed.
abbrev pub change_socket : ℕ → (NetSocket → NetSocket) → List NetSocket → List NetSocket
change_socket i f [] = []
change_socket zero f (q ∷ qs) = f q ∷ qs
change_socket (suc i) f (q ∷ qs) = q ∷ change_socket i f qs

-- The bytes of 192.168.255.255.
abbrev pub broadcast : ℕ → ℕ
broadcast zero = 192
broadcast (suc zero) = 168
broadcast _ = 255

-- Both ends have the port; the address of the local one is not set, and of the remote one four bytes.
unfoldable pub prepared : ℕ → NetSocket → NetSocket
prepared port q = record q {
  ep_local = record q.ep_local { net_type = ipv4; port = port };
  ep_remote = record {
    net_type = ipv4;
    port = port;
    address = λ i. if ltb i 4 then broadcast i else q.ep_remote.address i;
  };
}

unfoldable pub listening : ℕ → ℕ → ℕ → ℕ → ℕ → NetSocket → NetSocket
unfolding prepared
listening if_id handle port callback send q = record (prepared port q) {
  handle = handle;
  if_id = if_id;
  rx_cb = callback;
  tx = send;
  alive = true;
}

-- `created` says whether espconn_create succeeds. A place is not taken when it does not.
unfoldable pub open_socket :
    Bool → ℕ → ℕ → ℕ → ℕ → ℕ → Option ℕ × NetSocketCtrl → Option ℕ × NetSocketCtrl
unfolding prepared listening
open_socket created if_id handle port callback send (none, c) = (none, c)
open_socket created if_id handle port callback send (some i, c) =
    if created
    then (
      some i,
      record c { sockets = change_socket i (listening if_id handle port callback send) c.sockets },
    )
    else (none, record c { sockets = change_socket i (prepared port) c.sockets })

-- What follows the test that the interface is not in use.
unfoldable pub create_unless_used :
    Bool → ℕ → ℕ → ℕ → Option ℕ → Option ℕ → NetSocketCtrl → Option ℕ → Option ℕ × NetSocketCtrl
unfolding alloc_socket open_socket
create_unless_used created if_id handle port callback send c (some i) = (none, c)
create_unless_used created if_id handle port none send c none = (none, c)
create_unless_used created if_id handle port (some f) none c none = (none, c)
create_unless_used created if_id handle port (some f) (some g) c none =
    open_socket created if_id handle port f g (alloc_socket c)

-- CoAP_ESP8266_CreateInterfaceSocket; a pointer that is NULL is `none`.
unfoldable pub create_interface_socket :
    Bool → ℕ → Option ℕ → ℕ → Option ℕ → Option ℕ → NetSocketCtrl → Option ℕ × NetSocketCtrl
unfolding create_unless_used retrieve_socket2
create_interface_socket created if_id none port callback send c = (none, c)
create_interface_socket created if_id (some handle) port callback send c =
    create_unless_used created if_id handle port callback send c (retrieve_socket2 c if_id)

-- CoAP_ESP8266_DeleteInterfaceSocket: the answer, and the handle that espconn_delete is called with. The
-- table stays as it is.
unfoldable pub delete_interface_socket : ℕ → NetSocketCtrl → Bool × Option ℕ
unfolding retrieve_socket2
delete_interface_socket if_id c = elim (retrieve_socket2 c if_id) [
  | none ↦ (false, none)
  | some i ↦ elim (get_elem? c.sockets i) [ none ↦ (false, none) | some q ↦ (true, some q.handle) ]
]

-- What espconn_sendto is called with.
pub record SendTo : Type 0 where
  pub handle : ℕ
  pub remote_ip : List ℕ
  pub remote_port : ℕ
  pub bytes : List ℕ

-- CoAP_ESP8266_SendDatagram: the answer, and the call of espconn_sendto if there is one. `sends` is the
-- SDK's answer to the call.
unfoldable pub send_datagram :
    (SendTo → Bool) → ℕ → NetEp → List ℕ → NetSocketCtrl → Bool × Option SendTo
unfolding same_type retrieve_socket2
send_datagram sends if_id receiver bytes c =
    let call : ℕ → SendTo = λ h. record {
      handle = h;
      remote_ip = read receiver.address 0 4;
      remote_port = receiver.port;
      bytes = bytes;
    } in
    if same_type receiver.net_type ipv4
    then elim (retrieve_socket2 c if_id) [
      | none ↦ (false, none)
      | some i ↦ elim (get_elem? c.sockets i) [
        | none ↦ (false, none)
        | some q ↦ (sends (call q.handle), some (call q.handle))
      ]
    ]
    else (false, none)

-- What the receive function of a socket is called with. Only the first four bytes of the sender's
-- address are set; the others are read as zeros here. The receiver, which the stack does not read, and
-- the meta information, which is none, are left out.
pub record Delivery : Type 0 where
  pub rx_cb : ℕ
  pub if_id : ℕ
  pub sender : NetEp
  pub bytes : List ℕ

-- udp_recv_cb. `remote` is what espconn_get_connection_info gives, the address and the port; where it
-- gives nothing the pointer is NULL and is read: no result.
unfoldable pub udp_recv_cb :
    ℕ → Option ((ℕ → ℕ) × ℕ) → List ℕ → NetSocketCtrl → Option (Option Delivery)
unfolding retrieve_socket
udp_recv_cb handle none bytes c = none
udp_recv_cb handle (some (ip, port)) bytes c = some (elim (retrieve_socket c handle) [
  | none ↦ none
  | some i ↦ elim (get_elem? c.sockets i) [
    | none ↦ none
    | some q ↦ some (record {
      rx_cb = q.rx_cb;
      if_id = q.if_id;
      sender = record { net_type = ipv4; address = λ j. if ltb j 4 then ip j else 0; port = port };
      bytes = bytes;
    })
  ]
])
