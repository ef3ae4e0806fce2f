-- ===== src/OptionTypes/First.antt =====
-- The first option with a number in a list of coap/server/lobaro-coap/coap_options.c, after
-- CoAP_AppendOptionToList.
use sming_coap.Base.{
  ℕ, ◌+◌, ◌≡◌, ◌≢◌, arith, true, List, [], ◌∷◌, ◌==◌, if◌then◌else◌, Option, none, some, length,
  All,
}
use sming_coap.Heap.{Heap}
use sming_coap.Options.{CoapOption, sizeof_option, append_option_to_list}
use sming_coap.Options.Insert.{insert_sorted, append_option_to_list_met}

-- The value of the first option with a number.
abbrev pub first_value : ℕ → List CoapOption → Option (List ℕ)
first_value number [] = none
first_value number (o ∷ os) = if o.number == number then some o.value else first_value number os

-- No option has this number.
abbrev pub Lacks : ℕ → List CoapOption → Type 0
Lacks number opts = All (λ (o : CoapOption). o.number ≢ number) opts

pub first_value-insert_sorted :
    (number : ℕ) (buf : List ℕ) (opts : List CoapOption)
    → Lacks number opts
    → first_value number (insert_sorted (record { number = number; value = buf }) opts) ≡ some buf
first_value-insert_sorted number buf [] l = ground arith
first_value-insert_sorted number buf (o ∷ os) (n, l) =
    ground (arith, first_value-insert_sorted number buf os l)

pub first_value-append_option_to_list :
    (number : ℕ) (buf : List ℕ) (h : Heap) (opts : List CoapOption)
    → h.verdict h.requests (sizeof_option + length buf) ≡ true
    → Lacks number opts
    → first_value number (append_option_to_list opts number buf h).1 ≡ some buf
first_value-append_option_to_list number buf h opts met l =
    rw (append_option_to_list_met number buf h opts met)
      (first_value-insert_sorted number buf opts l)
