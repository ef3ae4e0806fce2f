-- ===== src/OptionTypes/Values.antt =====
-- Observe and ETag options that are added and read again:
-- coap/server/lobaro-coap/option-types/coap_option_observe.c and coap_option_ETag.c.
use sming_coap.Base.{
  ℕ, zero, suc, ◌+◌, ◌/◌, ◌%◌, ◌^◌, ◌≤◌, ◌<◌, ◌≡◌, refl, arith, true, List, [], ◌∷◌, some, length,
  ◌∙◌,
}
use native.Mathlib.Nat.{pow-suc}
use sming_coap.Heap.{Heap}
use sming_coap.CoapResult.{ok}
use sming_coap.Options.{
  CoapOption, sizeof_option, append_option_to_list, opt_num_observe, opt_num_etag,
}
use sming_coap.OptionTypes.Observe.{
  observe_bytes, add_observe_option_to_msg, observe_value, get_observe_option_from_msg,
}
use sming_coap.OptionTypes.ETag.{
  etag_bytes, add_64_bit_etag_option_to_msg, little_endian, get_64_bit_etag_option_from_msg,
  get_etag_option_from_msg,
}
use sming_coap.OptionTypes.First.{first_value, Lacks, first_value-append_option_to_list}

get_observe-first_value :
    (opts : List CoapOption) (bytes : List ℕ)
    → first_value opt_num_observe opts ≡ some bytes
    → get_observe_option_from_msg opts ≡ observe_value bytes
unfolding get_observe_option_from_msg
get_observe-first_value [] bytes e = ground arith
get_observe-first_value (o ∷ os) bytes e = ground (arith, get_observe-first_value os bytes)

observe_value-observe_bytes : (val : ℕ) → observe_value (observe_bytes val) ≡ (ok, val % 2 ^ 24)
unfolding observe_value observe_bytes
observe_value-observe_bytes val = ground arith

-- An observe value that is added to a list without one is read back to its low 24 bits, when memory
-- is given.
pub get_observe-add_observe :
    (val : ℕ) (opts : List CoapOption) (h : Heap)
    → h.verdict h.requests (sizeof_option + length (observe_bytes val)) ≡ true
    → Lacks opt_num_observe opts
    → get_observe_option_from_msg (add_observe_option_to_msg opts val h).1 ≡ (ok, val % 2 ^ 24)
unfolding add_observe_option_to_msg
get_observe-add_observe val opts h met l =
    get_observe-first_value _ (observe_bytes val)
      (first_value-append_option_to_list opt_num_observe (observe_bytes val) h opts met l)
    ∙ observe_value-observe_bytes val

length-etag_bytes : (n val : ℕ) → 0 < length (etag_bytes n val)
unfolding etag_bytes
length-etag_bytes zero val = omega arith
length-etag_bytes (suc n) val = ground arith

etag_bytes_bound : (n val : ℕ) → val < 256 ^ n → 0 < n → length (etag_bytes n val) ≤ n
unfolding etag_bytes
etag_bytes_bound zero val v p = omega arith
etag_bytes_bound (suc zero) val v p = ground arith
etag_bytes_bound (suc (suc n)) val v p =
    let s = pow-suc 256 (suc n) in
    ground (arith, etag_bytes_bound (suc n) (val / 256) (omega arith) (omega arith))

little_endian-etag_bytes :
    (n val : ℕ) → val < 256 ^ n → 0 < n → little_endian (etag_bytes n val) ≡ val
unfolding little_endian etag_bytes
little_endian-etag_bytes zero val v p = omega arith
little_endian-etag_bytes (suc zero) val v p = ground arith
little_endian-etag_bytes (suc (suc n)) val v p =
    let s = pow-suc 256 (suc n) in
    ground (arith, little_endian-etag_bytes (suc n) (val / 256) (omega arith) (omega arith))

get_etag-first_value :
    (opts : List CoapOption) (bytes : List ℕ)
    → first_value opt_num_etag opts ≡ some bytes
    → 0 < length bytes
    → length bytes ≤ 8
    → get_etag_option_from_msg opts ≡ (ok, bytes)
unfolding get_etag_option_from_msg
get_etag-first_value [] bytes e p q = ground arith
get_etag-first_value (o ∷ os) bytes e p q = ground (arith, get_etag-first_value os bytes)

-- A 64-bit ETag that is added to a list without one is read back, when memory is given.
pub get_64_bit_etag-add_64_bit_etag :
    (val : ℕ) (opts : List CoapOption) (h : Heap)
    → val < 2 ^ 64
    → h.verdict h.requests (sizeof_option + length (etag_bytes 8 val)) ≡ true
    → Lacks opt_num_etag opts
    → get_64_bit_etag_option_from_msg (add_64_bit_etag_option_to_msg opts val h).1 ≡ (ok, some val)
unfolding add_64_bit_etag_option_to_msg get_64_bit_etag_option_from_msg
get_64_bit_etag-add_64_bit_etag val opts h v met l =
    let f = first_value-append_option_to_list opt_num_etag (etag_bytes 8 val) h opts met l in
    let b = etag_bytes_bound 8 val (omega arith) (omega arith) in
    let g =
      get_etag-first_value (append_option_to_list opts opt_num_etag (etag_bytes 8 val) h).1
        (etag_bytes 8 val) f (length-etag_bytes 8 val) b in
    rw (g, little_endian-etag_bytes 8 val (omega arith) (omega arith)) refl
