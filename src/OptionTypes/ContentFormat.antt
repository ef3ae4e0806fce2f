-- ===== src/OptionTypes/ContentFormat.antt =====
-- The content-format option of a message:
-- coap/server/lobaro-coap/option-types/coap_option_cf.c.
use sming_coap.Base.{ℕ, ◌/◌, ◌%◌, List, [], ◌∷◌, leb, ◌==◌, if◌then◌else◌}
use sming_coap.Heap.{Heap}
use sming_coap.CoapResult.{ok}
use sming_coap.Options.{CoapOption, ListState, opt_num_content_format, append_option_to_list}

-- Two bytes are written with the low one first.
unfoldable pub cf_bytes : ℕ → List ℕ
cf_bytes cf =
    if cf == 0 then [] else if leb cf 0xff then cf ∷ [] else (cf % 256) ∷ (cf / 256 % 256) ∷ []

-- The result of the append is dropped: the answer is COAP_OK also when memory ran out.
unfoldable pub add_cf_option_to_msg : List CoapOption → ℕ → Heap → ListState
unfolding append_option_to_list cf_bytes
add_cf_option_to_msg opts cf h =
    let (r, opts', h') = append_option_to_list opts opt_num_content_format (cf_bytes cf) h in
    (ok, opts', h')
