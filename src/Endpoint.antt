-- ===== src/Endpoint.antt =====
-- Network endpoints: coap/server/lobaro-coap/interface/_common/coap_if_Endpoint.c and .h.
pub mod Equal
pub mod Congruence
use sming_coap.Base.{
  ℕ, zero, suc, ◌+◌, ◌*◌, ◌≡◌, ◌↔◌, arith, Bool, true, false, List, [], ◌∷◌, ◌==◌, if◌then◌else◌,
}

pub data NetInterfaceType : Type 0 where
  ipv6 ipv4 btle uart : NetInterfaceType

-- The address is a union; `address i` is the i-th of its 16 bytes.
pub record NetEp : Type 0 where
  pub net_type : NetInterfaceType
  pub address : ℕ → ℕ
  pub port : ℕ

abbrev pub net_addr_max_length : ℕ
net_addr_max_length = 16

unfoldable pub same_type : NetInterfaceType → NetInterfaceType → Bool
same_type ipv6 ipv6 = true
same_type ipv4 ipv4 = true
same_type btle btle = true
same_type uart uart = true
same_type _ _ = false

-- `n` bytes from place `i` on are compared, one after the other.
unfoldable pub same_bytes : ℕ → ℕ → (ℕ → ℕ) → (ℕ → ℕ) → Bool
same_bytes i zero a b = true
same_bytes i (suc n) a b = if a i == b i then same_bytes (suc i) n a b else false

-- The four bytes of the i-th word of an IPv6 address, as the number that is compared.
abbrev pub word : (ℕ → ℕ) → ℕ → ℕ
word a i = a (4 * i) + 256 * (a (4 * i + 1) + 256 * (a (4 * i + 2) + 256 * a (4 * i + 3)))

unfoldable pub same_words : ℕ → ℕ → (ℕ → ℕ) → (ℕ → ℕ) → Bool
same_words i zero a b = true
same_words i (suc n) a b = if word a i == word b i then same_words (suc i) n a b else false

-- Four words of an IPv6 address are compared, four bytes of an IPv4 address, and all bytes of any
-- other.
unfoldable pub same_address : NetInterfaceType → (ℕ → ℕ) → (ℕ → ℕ) → Bool
unfolding same_bytes same_words
same_address ipv6 a b = same_words 0 4 a b
same_address ipv4 a b = same_bytes 0 4 a b
same_address _ a b = same_bytes 0 net_addr_max_length a b

-- Neither pointer is NULL at any call of the stack.
unfoldable pub ep_are_equal : NetEp → NetEp → Bool
unfolding same_type same_address
ep_are_equal a b =
    if same_type a.net_type b.net_type
    then (if a.port == b.port then same_address a.net_type a.address b.address else false)
    else false
