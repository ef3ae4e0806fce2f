-- ===== src/Endpoint/Congruence.antt =====
-- Endpoints that compare equal, by
-- coap/server/lobaro-coap/interface/_common/coap_if_Endpoint.c, compare alike with any other.
use mathlib.Core.Path.{subst}
use sming_coap.Endpoint.Equal.{ep_are_equal_parts, same_type_iff}
use sming_coap.Endpoint.{
  same_bytes, same_words, same_address, NetEp, ep_are_equal, NetInterfaceType, net_addr_max_length,
  ipv6, ipv4, btle, uart, same_type,
}
use sming_coap.Base.{ℕ, zero, suc, ◌≡◌, refl, sym, ap, arith, true, Bool-cases, inl, inr}

same_bytes_refl : (i n : ℕ) (a : ℕ → ℕ) → same_bytes i n a a ≡ true
unfolding same_bytes
same_bytes_refl i zero a = refl
same_bytes_refl i (suc n) a = ground (arith, same_bytes_refl (suc i) n a)

same_words_refl : (i n : ℕ) (a : ℕ → ℕ) → same_words i n a a ≡ true
unfolding same_words
same_words_refl i zero a = refl
same_words_refl i (suc n) a = ground (arith, same_words_refl (suc i) n a)

same_address_refl : (t : NetInterfaceType) (a : ℕ → ℕ) → same_address t a a ≡ true
unfolding same_address
same_address_refl ipv6 a = same_words_refl 0 4 a
same_address_refl ipv4 a = same_bytes_refl 0 4 a
same_address_refl btle a = same_bytes_refl 0 net_addr_max_length a
same_address_refl uart a = same_bytes_refl 0 net_addr_max_length a

pub ep_are_equal_refl : (a : NetEp) → ep_are_equal a a ≡ true
ep_are_equal_refl a =
    (ep_are_equal_parts a a).1
      ((same_type_iff a.net_type a.net_type).1 refl, refl, same_address_refl a.net_type a.address)

same_bytes-congr :
    (i n : ℕ) (x a b : ℕ → ℕ) → same_bytes i n a b ≡ true → same_bytes i n x a ≡ same_bytes i n x b
unfolding same_bytes
same_bytes-congr i zero x a b e = refl
same_bytes-congr i (suc n) x a b e = ground (arith, same_bytes-congr (suc i) n x a b)

same_words-congr :
    (i n : ℕ) (x a b : ℕ → ℕ) → same_words i n a b ≡ true → same_words i n x a ≡ same_words i n x b
unfolding same_words
same_words-congr i zero x a b e = refl
same_words-congr i (suc n) x a b e = ground (arith, same_words-congr (suc i) n x a b)

same_address-congr :
    (t : NetInterfaceType) (x a b : ℕ → ℕ)
    → same_address t a b ≡ true
    → same_address t x a ≡ same_address t x b
unfolding same_address
same_address-congr ipv6 x a b e = same_words-congr 0 4 x a b e
same_address-congr ipv4 x a b e = same_bytes-congr 0 4 x a b e
same_address-congr btle x a b e = same_bytes-congr 0 net_addr_max_length x a b e
same_address-congr uart x a b e = same_bytes-congr 0 net_addr_max_length x a b e

-- Two endpoints that compare equal compare alike with any third.
pub ep_are_equal-congr :
    (x a b : NetEp) → ep_are_equal a b ≡ true → ep_are_equal x a ≡ ep_are_equal x b
unfolding ep_are_equal
ep_are_equal-congr x a b e =
    let (t, p, s) = (ep_are_equal_parts a b).0 e in
    let kind = (same_type_iff a.net_type b.net_type).0 t in
    let types = ap (same_type x.net_type) kind in
    elim (Bool-cases (same_type x.net_type a.net_type)) [
      | inl h ↦
          let k = (same_type_iff x.net_type a.net_type).0 h in
          let s' = subst (λ n. same_address n a.address b.address ≡ true) (sym k) s in
          let q = same_address-congr x.net_type x.address a.address b.address s' in
          ground (arith, types, q, p, h)
      | inr h ↦ ground (arith, types, h)
    ]
