-- ===== src/OptionTypes.antt =====
-- The typed options of coap/server/lobaro-coap/option-types.
pub mod First
pub mod Observe
pub mod Values
pub mod UriEqual
pub mod Uri
pub mod UriWords
pub mod UriParts
pub mod UriSplit
pub mod Block
pub mod BlockCodec
pub mod SetPayload
pub mod BlockRemoval
pub mod Blockwise
pub mod Placed
pub mod FirstBlock
pub mod NoBlock
pub mod Transfer
pub mod ETag
pub mod ContentFormat
