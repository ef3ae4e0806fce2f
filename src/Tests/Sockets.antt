-- ===== src/Tests/Sockets.antt =====
-- The table of sockets at a concrete input.
use sming_coap.Base.{refl, [], ◌∷◌, some, true, false}
use sming_coap.Sockets.{NetSocket, NetSocketCtrl, create_interface_socket}
use sming_coap.Sockets.Created.{Creates, create_interface_socket-Creates}
use sming_coap.Tests.OptionTypes.{gateway}

abbrev unused : NetSocket
unused = record {
  handle = 0;
  if_id = 0;
  ep_local = gateway;
  ep_remote = gateway;
  rx_cb = 0;
  tx = 0;
  alive = false;
}

-- Interface 3 has the first of five sockets.
abbrev one_open : NetSocketCtrl
one_open = record {
  sockets = record unused { if_id = 3; alive = true } ∷ unused ∷ unused ∷ unused ∷ unused ∷ [];
  init_done = true;
}

create_interface_socket-Creates_example :
    Creates 4 3 one_open (create_interface_socket true 4 (some 99) 5683 (some 1) (some 2) one_open)
create_interface_socket-Creates_example =
    create_interface_socket-Creates 4 3 refl true (some 99) 5683 (some 1) (some 2) one_open refl
