-- ===== src/Receive.antt =====
-- The start of interactions in coap/server/lobaro-coap/coap_interaction.c, and the handling of a
-- received packet, CoAP_onNewPacketHandler of coap/server/lobaro-coap/coap_main.c.
pub mod Start
pub mod Packet
pub mod Duplicate
pub mod Answers
pub mod Sound
pub mod Started
