-- ===== src/Message/Token.antt =====
-- The token's bytes in a datagram: written by CoAP_BuildDatagram, read by
-- CoAP_ParseMessageFromDatagram of coap/server/lobaro-coap/coap_message.c.
use sming_coap.Base.{ℕ, zero, suc, ◌*◌, ◌/◌, ◌^◌, ◌≤◌, ◌<◌, ◌≡◌, arith, Memory, Holds}
use native.Mathlib.Nat.{pow-suc}
use sming_coap.Message.{get_token_byte_count}
use sming_coap.Message.Build.{token_bytes}
use sming_coap.Message.Parse.{read_token}

pow_256 : (n : ℕ) → 256 ^ suc n ≡ 256 * 256 ^ n
pow_256 n = omega (arith, pow-suc 256 n)

-- The bytes that are counted are enough for the token, and at most eight.
pub get_token_byte_count_bounds :
    (token : ℕ)
    → token < 2 ^ 64
    → (token < 256 ^ get_token_byte_count token) × (get_token_byte_count token ≤ 8)
unfolding get_token_byte_count
get_token_byte_count_bounds token h = ground arith

-- Read from where they were written, the bytes give the token back.
pub read_token-token_bytes :
    (n token offset : ℕ) (mem : Memory)
    → token < 256 ^ n
    → Holds mem offset (token_bytes n token)
    → read_token mem offset n ≡ token
unfolding read_token token_bytes
read_token-token_bytes zero token offset mem h holds = omega arith
read_token-token_bytes (suc n) token offset mem h holds = omega (
  arith,
  pow_256 n,
  holds.0,
  read_token-token_bytes n (token / 256) (suc offset) mem (omega (arith, pow_256 n)) holds.1,
)
