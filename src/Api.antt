-- ===== src/Api.antt =====
-- What the application calls to start interactions: coap/server/lobaro-coap/coap_interaction.c and
-- coap_resource.c; and the stacks that are reached by all operations.
pub mod Get
pub mod Notify
pub mod NotifySound
pub mod Pending
pub mod Marked
pub mod Reach
