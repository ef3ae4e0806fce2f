-- ===== src/Endpoint/Equal.antt =====
-- What the comparison of endpoints in
-- coap/server/lobaro-coap/interface/_common/coap_if_Endpoint.c decides.
use sming_coap.Base.{
  ℕ, zero, suc, ◌+◌, ◌*◌, ◌<◌, ◌≡◌, ◌↔◌, refl, arith, true, ◌==◌, Bool-cases, inl, inr, ==_iff, ◌≤◌,
}
use sming_coap.Endpoint.{
  NetInterfaceType, NetEp, same_type, same_bytes, word, same_words, same_address, ep_are_equal,
}
use sming_coap.Endpoint.NetInterfaceType.{ipv6, ipv4, btle, uart}

-- How many bytes of the union an address of the type has.
abbrev pub address_length : NetInterfaceType → ℕ
address_length ipv4 = 4
address_length _ = 16

-- The bytes from place `i` on, `n` of them, are the same.
abbrev Same : ℕ → ℕ → (ℕ → ℕ) → (ℕ → ℕ) → Type 0
Same i zero a b = Unit {0}
Same i (suc n) a b = (a i ≡ b i) × Same (suc i) n a b

same_bytes_iff : (i n : ℕ) (a b : ℕ → ℕ) → (same_bytes i n a b ≡ true) ↔ Same i n a b
unfolding same_bytes
same_bytes_iff i zero a b = (λ _. tt, λ _. refl)
same_bytes_iff i (suc n) a b = ground (arith, same_bytes_iff (suc i) n a b)

pub same_type_iff : (s t : NetInterfaceType) → (same_type s t ≡ true) ↔ (s ≡ t)
unfolding same_type
same_type_iff ipv6 ipv6 = ground arith
same_type_iff ipv6 ipv4 = ground arith
same_type_iff ipv6 btle = ground arith
same_type_iff ipv6 uart = ground arith
same_type_iff ipv4 ipv6 = ground arith
same_type_iff ipv4 ipv4 = ground arith
same_type_iff ipv4 btle = ground arith
same_type_iff ipv4 uart = ground arith
same_type_iff btle ipv6 = ground arith
same_type_iff btle ipv4 = ground arith
same_type_iff btle btle = ground arith
same_type_iff btle uart = ground arith
same_type_iff uart ipv6 = ground arith
same_type_iff uart ipv4 = ground arith
same_type_iff uart btle = ground arith
same_type_iff uart uart = ground arith

word_iff :
    (i : ℕ) (a b : ℕ → ℕ)
    → ((j : ℕ) → a j < 256)
    → ((j : ℕ) → b j < 256)
    → ((word a i == word b i) ≡ true) ↔ Same (4 * i) 4 a b
word_iff i a b ha hb =
    let a0 = ha (4 * i) in
    let a1 = ha (4 * i + 1) in
    let a2 = ha (4 * i + 2) in
    let a3 = ha (4 * i + 3) in
    let b0 = hb (4 * i) in
    let b1 = hb (4 * i + 1) in let b2 = hb (4 * i + 2) in let b3 = hb (4 * i + 3) in ground arith

same_words_iff :
    (a b : ℕ → ℕ)
    → ((j : ℕ) → a j < 256)
    → ((j : ℕ) → b j < 256)
    → (same_words 0 4 a b ≡ true) ↔ Same 0 16 a b
unfolding same_words
same_words_iff a b ha hb =
    let w0 = word_iff 0 a b ha hb in
    let w1 = word_iff 1 a b ha hb in
    let w2 = word_iff 2 a b ha hb in let w3 = word_iff 3 a b ha hb in ground arith

same_address_iff :
    (t : NetInterfaceType) (a b : ℕ → ℕ)
    → ((j : ℕ) → a j < 256)
    → ((j : ℕ) → b j < 256)
    → (same_address t a b ≡ true) ↔ Same 0 (address_length t) a b
unfolding same_address
same_address_iff ipv6 a b ha hb = same_words_iff a b ha hb
same_address_iff ipv4 a b ha hb = same_bytes_iff 0 4 a b
same_address_iff btle a b ha hb = same_bytes_iff 0 16 a b
same_address_iff uart a b ha hb = same_bytes_iff 0 16 a b

Same-at : (i n : ℕ) (a b : ℕ → ℕ) → Same i n a b → (k : ℕ) → i ≤ k → k < i + n → a k ≡ b k
Same-at i zero a b s k l u = ground arith
Same-at i (suc n) a b (e, s) k l u = elim (Bool-cases (i == k)) [
  | inl f ↦ let same = (==_iff i k).0 f in rw (← same) e
  | inr f ↦ Same-at (suc i) n a b s k (ground arith) (omega arith)
]

at-Same : (i n : ℕ) (a b : ℕ → ℕ) → ((k : ℕ) → k < i + n → a k ≡ b k) → Same i n a b
at-Same i zero a b s = tt
at-Same i (suc n) a b s = (s i (omega arith), at-Same (suc i) n a b (λ k u. s k (omega arith)))

pub ep_are_equal_parts :
    (a b : NetEp)
    → (ep_are_equal a b ≡ true) ↔ (
        (same_type a.net_type b.net_type ≡ true)
        × (a.port ≡ b.port)
        × (same_address a.net_type a.address b.address ≡ true))
unfolding ep_are_equal
ep_are_equal_parts a b = ground arith

-- Two endpoints compare equal exactly if they have the same type and port and the same address, of
-- 4 bytes for IPv4 and of 16 for any other type.
pub ep_are_equal_iff :
    (a b : NetEp)
    → ((j : ℕ) → a.address j < 256)
    → ((j : ℕ) → b.address j < 256)
    → (ep_are_equal a b ≡ true) ↔ (
        (a.net_type ≡ b.net_type)
        × (a.port ≡ b.port)
        × ((j : ℕ) → j < address_length a.net_type → a.address j ≡ b.address j))
ep_are_equal_iff a b ha hb =
    let t = same_type_iff a.net_type b.net_type in
    let s = same_address_iff a.net_type a.address b.address ha hb in
    let at =
      λ (x : Same 0 (address_length a.net_type) a.address b.address) (k : ℕ)
          (l : k < address_length a.net_type).
        Same-at 0 (address_length a.net_type) a.address b.address x k (omega arith) (omega arith) in
    let back = λ (w : (j : ℕ) → j < address_length a.net_type → a.address j ≡ b.address j).
      at-Same 0 (address_length a.net_type) a.address b.address (λ k l. w k (omega arith)) in
    let p = ep_are_equal_parts a b in
    (λ e. let q = p.0 e in (t.0 q.0, q.1, at (s.0 q.2)), λ x. p.1 (t.1 x.0, x.1, s.1 (back x.2)))
