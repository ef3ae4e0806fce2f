-- ===== src/OptionTypes/Observe.antt =====
-- The observe option of a message: coap/server/lobaro-coap/option-types/coap_option_observe.c.
use sming_coap.Base.{ℕ, suc, ◌+◌, ◌*◌, ◌/◌, ◌%◌, List, [], ◌∷◌, ltb, ◌==◌, if◌then◌else◌, length}
use sming_coap.Heap.{Heap}
use sming_coap.CoapResult.{CoapResult, ok, not_found, bad_option_val}
use sming_coap.Options.{
  CoapOption, ListState, opt_num_observe, append_option_to_list, remove_option_from_list,
}

abbrev pub observe_opt_register : ℕ
observe_opt_register = 0

abbrev pub observe_opt_deregister : ℕ
observe_opt_deregister = 1

-- The bytes of the value: none for 0, else the low one, two or three bytes, highest first.
unfoldable pub observe_bytes : ℕ → List ℕ
observe_bytes val =
    if ltb 0xffff val
    then (val / 65536 % 256) ∷ (val / 256 % 256) ∷ (val % 256) ∷ []
    else if ltb 0xff val
    then (val / 256 % 256) ∷ (val % 256) ∷ []
    else if ltb 0 val
    then (val % 256) ∷ []
    else []

unfoldable pub add_observe_option_to_msg : List CoapOption → ℕ → Heap → ListState
unfolding append_option_to_list
add_observe_option_to_msg opts val h =
    append_option_to_list opts opt_num_observe (observe_bytes val) h

-- The position of the first option with a number; behind the end if there is none.
unfoldable pub find_option : ℕ → List CoapOption → ℕ
find_option number [] = 0
find_option number (o ∷ os) = if o.number == number then 0 else suc (find_option number os)

unfoldable pub remove_observe_option_from_msg : List CoapOption → Heap → ListState
unfolding find_option remove_option_from_list
remove_observe_option_from_msg opts h =
    let place = find_option opt_num_observe opts in
    if ltb place (length opts) then remove_option_from_list opts place h else (not_found, opts, h)

unfoldable pub update_observe_option_in_msg : List CoapOption → ℕ → Heap → ListState
unfolding remove_observe_option_from_msg add_observe_option_to_msg
update_observe_option_in_msg opts val h =
    let (r, opts', h') = remove_observe_option_from_msg opts h in
    add_observe_option_to_msg opts' val h'

-- The value of an option of at most three bytes, and 0 with an error code for a longer one.
unfoldable pub observe_value : List ℕ → CoapResult × ℕ
observe_value [] = (ok, 0)
observe_value (a ∷ []) = (ok, a)
observe_value (a ∷ (b ∷ [])) = (ok, a * 256 + b)
observe_value (a ∷ (b ∷ (c ∷ []))) = (ok, a * 65536 + b * 256 + c)
observe_value (a ∷ (b ∷ (c ∷ (d ∷ r)))) = (bad_option_val, 0)

-- The first observe option counts.
unfoldable pub get_observe_option_from_msg : List CoapOption → CoapResult × ℕ
unfolding observe_value
get_observe_option_from_msg [] = (not_found, 0)
get_observe_option_from_msg (o ∷ os) =
    if o.number == opt_num_observe then observe_value o.value else get_observe_option_from_msg os
