-- ===== src/OptionTypes/ETag.antt =====
-- The ETag option of a message: coap/server/lobaro-coap/option-types/coap_option_ETag.c.
use sming_coap.Base.{
  ℕ, zero, suc, ◌+◌, ◌*◌, ◌/◌, ◌%◌, List, [], ◌∷◌, ltb, ◌==◌, if◌then◌else◌, Option, none, some,
  length,
}
use sming_coap.Heap.{Heap}
use sming_coap.CoapResult.{CoapResult, ok, not_found, bad_option_len}
use sming_coap.Options.{CoapOption, ListState, opt_num_etag, append_option_to_list}

-- The sum of the data's bytes is computed and not used: the value is constant.
unfoldable pub add_etag_option_to_msg : List CoapOption → List ℕ → Heap → ListState
unfolding append_option_to_list
add_etag_option_to_msg opts bytes h = append_option_to_list opts opt_num_etag (1 ∷ 2 ∷ 3 ∷ 4 ∷ []) h

-- The first ETag option's bytes; a value of no byte or of more than eight is an error.
unfoldable pub get_etag_option_from_msg : List CoapOption → CoapResult × List ℕ
get_etag_option_from_msg [] = (not_found, [])
get_etag_option_from_msg (o ∷ os) =
    if o.number == opt_num_etag
    then (if length o.value == 0
        then (bad_option_len, [])
        else if ltb 8 (length o.value)
        then (bad_option_len, [])
        else (ok, o.value))
    else get_etag_option_from_msg os

-- The bytes of a value, lowest first, `n` at most: the loop stops when nothing is left. If it does
-- not stop, one byte more than the buffer has is handed on, here as 0.
unfoldable pub etag_bytes : ℕ → ℕ → List ℕ
etag_bytes zero val = 0 ∷ []
etag_bytes (suc n) val =
    let rest = etag_bytes n (val / 256) in
    if val / 256 == 0 then (val % 256) ∷ [] else (val % 256) ∷ rest

unfoldable pub add_64_bit_etag_option_to_msg : List CoapOption → ℕ → Heap → ListState
unfolding append_option_to_list etag_bytes
add_64_bit_etag_option_to_msg opts val h =
    append_option_to_list opts opt_num_etag (etag_bytes 8 val) h

-- `*pVal |= (uint64_t)wBuf[i] << (i * 8)` for i from 0 on.
unfoldable pub little_endian : List ℕ → ℕ
little_endian [] = 0
little_endian (b ∷ bs) = b + 256 * little_endian bs

unfoldable pub get_64_bit_etag_option_from_msg : List CoapOption → CoapResult × Option ℕ
unfolding get_etag_option_from_msg little_endian
get_64_bit_etag_option_from_msg opts = etag_result (get_etag_option_from_msg opts)
  where
    etag_result : CoapResult × List ℕ → CoapResult × Option ℕ
    etag_result (ok, bs) = (ok, some (little_endian bs))
    etag_result (r, bs) = (r, none)
