-- ===== src/Options/Parse.antt =====
-- parse_OptionsFromRaw of coap/server/lobaro-coap/coap_options.c. The source is a memory and a
-- length: the code may read bytes behind the length, and what stands there is arbitrary.
use sming_coap.Base.{
  ℕ, zero, suc, true, false, ◌+◌, ◌*◌, ◌/◌, ◌%◌, Option, none, some, List, [], ◌∷◌, ltb, ◌==◌,
  if◌then◌else◌, Memory, read,
}
use sming_coap.Heap.{Heap}
use sming_coap.CoapResult.{CoapResult, ok, err_argument, parse_message_format_error}
use sming_coap.Options.{CoapOption, ListState, append_option_to_list, max_option_value_size}
use sming_coap.Options.Pack.{u16}

-- The result, the offset that `*pPayloadBeginInSrc` points to, the list, and the heap.
pub record Parsed : Type 0 where
  pub result : CoapResult
  pub payload_begin : Option ℕ
  pub options : List CoapOption
  pub heap : Heap

-- The delta or length of an option: its field, or the field's extended bytes at the offset, with
-- the offset behind them. `none` is the reserved value 15.
unfoldable pub read_field : Memory → ℕ → ℕ → Option (ℕ × ℕ)
read_field mem field offset =
    if field == 13
    then some (mem offset + 13, u16 (offset + 1))
    else if field == 14
    then some (u16 (mem offset * 256 + mem (offset + 1) + 269), u16 (offset + 2))
    else if field == 15
    then none
    else some (field, offset)

-- The delta, the length and the offset of the value of the option at an offset.
unfoldable pub read_head : Memory → ℕ → Option (ℕ × ℕ × ℕ)
read_head mem offset = elim (read_field mem (mem offset / 16) (u16 (offset + 1))) [
  | none ↦ none
  | some (delta, o1) ↦ elim (read_field mem (mem offset % 16) o1) [
    | none ↦ none
    | some (len, o2) ↦ some (delta, len, o2)
  ]
]

-- One round of the loop returns, or goes on with a new offset, last number, list and heap.
pub data Round : Type 0 where
  return : Parsed → Round
  continue : ℕ → ℕ → List CoapOption → Heap → Round

-- What follows the append of a parsed option.
unfoldable pub after_append : ℕ → ℕ → ListState → Round
after_append offset number (ok, opts, h) = continue offset number opts h
after_append offset number (r, opts, h) =
    return (record { result = r; payload_begin = none; options = opts; heap = h })

format_error : List CoapOption → Heap → Round
format_error opts h =
    return (record {
      result = parse_message_format_error;
      payload_begin = none;
      options = opts;
      heap = h;
    })

-- The option whose value has `len` bytes from `offset` on is checked and added to the list.
unfoldable pub take_option : Memory → ℕ → ℕ → List CoapOption → Heap → ℕ × ℕ × ℕ → Round
unfolding format_error after_append
take_option mem n last opts h (delta, len, offset) =
    let number = u16 (delta + last) in
    if ltb max_option_value_size len
    then format_error opts h
    else if ltb n (offset + len)
    then format_error opts h
    else after_append (u16 (offset + len)) number
        (append_option_to_list opts number (read mem offset len) h)

-- The body of the loop, at an offset below the length.
unfoldable pub parse_round : Memory → ℕ → ℕ → ℕ → List CoapOption → Heap → Round
unfolding format_error
parse_round mem n offset last opts h =
    if mem offset == 0xff
    then (if ltb n (offset + 2)
        then format_error opts h
        else return
            (record { result = ok; payload_begin = some (offset + 1); options = opts; heap = h }))
    else elim (read_head mem offset) [
      | none ↦ format_error opts h
      | some head ↦ take_option mem n last opts h head
    ]

-- `none` is no result of the source: the fuel ran out.
unfoldable pub parse_loop : ℕ → Memory → ℕ → ℕ → ℕ → List CoapOption → Heap → Option Parsed
parse_loop zero mem n offset last opts h = none
parse_loop (suc fuel) mem n offset last opts h = elim (ltb offset n) [
  | false ↦ some (record { result = ok; payload_begin = none; options = opts; heap = h })
  | true ↦ elim (parse_round mem n offset last opts h) [
    | return p ↦ some p
    | continue o l os h' ↦ parse_loop fuel mem n o l os h'
  ]
]

-- The list must be empty on entry.
unfoldable pub parse_options_from_raw : Memory → ℕ → List CoapOption → Heap → Option Parsed
parse_options_from_raw mem n opts h =
    if n == 0
    then some (record { result = ok; payload_begin = none; options = opts; heap = h })
    else if mem 0 == 0xff
    then some (record {
      result = parse_message_format_error;
      payload_begin = none;
      options = opts;
      heap = h;
    })
    else start opts
  where
    start : List CoapOption → Option Parsed
    start [] = parse_loop (suc n) mem n 0 0 [] h
    start (o ∷ os) =
        some (record { result = err_argument; payload_begin = none; options = o ∷ os; heap = h })
