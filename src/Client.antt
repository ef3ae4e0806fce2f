-- ===== src/Client.antt =====
-- The client for the other side of the protocol, in coap/client. Its packets are objects of a packet
-- class of another project and stand here as numbers.
pub mod Queue
pub mod Due
pub mod Hash
pub mod Engine
pub mod Unknown
