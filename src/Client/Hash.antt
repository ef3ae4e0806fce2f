-- ===== src/Client/Hash.antt =====
-- The transaction id of a request: coap/client/Hash.cpp.
use Prim.Native.Nat.{bit_xor}
use sming_coap.Base.{ℕ, ◌+◌, ◌*◌, ◌/◌, ◌%◌, ◌^◌, List, [], ◌∷◌}

-- The four bytes of a coap_key_t.
pub record Key : Type 0 where
  pub h0 : ℕ
  pub h1 : ℕ
  pub h2 : ℕ
  pub h3 : ℕ

-- `((high << 7) | (low >> 1)) + high` as an unsigned char; the low seven bits of the shifted byte are
-- zero.
abbrev pub mix : ℕ → ℕ → ℕ
mix high low = (high * 128 + low / 2 + high) % 256

unfoldable pub coap_hash : List ℕ → Key → Key
coap_hash [] h = h
coap_hash (s ∷ rest) h = coap_hash rest (record {
  h0 = (h.h0 * 128 + h.h0 + s) % 256;
  h1 = mix h.h1 h.h0;
  h2 = mix h.h2 h.h1;
  h3 = mix h.h3 h.h2;
})

-- The bytes of a uint32 on the little-endian target.
abbrev pub word_bytes : ℕ → List ℕ
word_bytes n = n % 256 ∷ n / 256 % 256 ∷ n / 2 ^ 16 % 256 ∷ n / 2 ^ 24 % 256 ∷ []

unfoldable pub create_transaction_id : ℕ → ℕ → ℕ → ℕ
unfolding coap_hash
create_transaction_id ip port message_id =
    let zero_key : Key = record { h0 = 0; h1 = 0; h2 = 0; h3 = 0 } in
    let h =
      coap_hash (message_id % 256 ∷ message_id / 256 % 256 ∷ [])
        (coap_hash (word_bytes ip) (coap_hash (word_bytes port) zero_key)) in
    bit_xor (h.h0 * 256 + h.h1) (h.h2 * 256 + h.h3)
