-- ===== src/Tests.antt =====
-- Test data, concrete runs of the definitions, and the theorems at concrete inputs.
mod Options
mod Messages
mod OptionTypes
mod Interactions
mod Uris
mod Blocks
mod Operations
mod Saved
mod Clients
mod Sockets
