-- ===== src/OptionTypes/Block.antt =====
-- The block options of a message: coap/server/lobaro-coap/option-types/coap_option_blockwise.c
-- and .h.
use sming_coap.Base.{
  ℕ, zero, suc, ◌+◌, ◌*◌, ◌/◌, ◌%◌, ◌^◌, Bool, true, false, ◌&&◌, not, List, [], ◌∷◌, ltb, ◌==◌,
  if◌then◌else◌, length,
}
use sming_coap.Heap.{Heap}
use sming_coap.CoapResult.{
  CoapResult, ok, not_found, err_not_found, err_wrong_option, parse_message_format_error,
}
use sming_coap.Options.{
  CoapOption, ListState, opt_block1, opt_block2, append_option_to_list, remove_option_from_list,
}
use sming_coap.OptionTypes.Observe.{find_option}

-- `block_type` is the option's number: 27 or 23 in the enumeration.
pub record BlockOption : Type 0 where
  pub block_type : ℕ
  pub block_size : ℕ
  pub more_flag : Bool
  pub block_num : ℕ

-- The highest bit of `s` that is set among the bits `i` to 0; 0 if none is.
unfoldable pub highest_bit : ℕ → ℕ → ℕ
highest_bit zero s = 0
highest_bit (suc i) s =
    let lower = highest_bit i s in if s / 2 ^ suc i % 2 == 1 then suc i else lower

-- The three fields of the value share no bit, so that their bitwise or is their sum.
unfoldable pub block_value : BlockOption → ℕ
unfolding highest_bit
block_value b =
    highest_bit 6 (b.block_size / 16 % 256)
    + (if b.more_flag then 8 else 0)
    + (b.block_num * 16 % 2 ^ 32)

-- The length goes by the block's number, the bytes are the low ones of the value.
unfoldable pub number_bytes : ℕ → ℕ → List ℕ
number_bytes num v =
    if ltb num 16
    then (v % 256) ∷ []
    else if ltb num 4096
    then (v / 256 % 256) ∷ (v % 256) ∷ []
    else (v / 65536 % 256) ∷ (v / 256 % 256) ∷ (v % 256) ∷ []

-- `NUM`, `M` and `SZX` are all coded to zero.
unfoldable pub is_zero_block : BlockOption → Bool
is_zero_block b = (b.block_num == 0) && ((b.block_size == 16) && not b.more_flag)

unfoldable pub block_bytes : BlockOption → List ℕ
unfolding is_zero_block block_value number_bytes
block_bytes b = if is_zero_block b then [] else number_bytes b.block_num (block_value b)

unfoldable pub add_blk_option_to_msg : List CoapOption → BlockOption → Heap → ListState
unfolding append_option_to_list block_bytes
add_blk_option_to_msg opts b h =
    if not (b.block_type == opt_block1) && not (b.block_type == opt_block2)
    then (err_wrong_option, opts, h)
    else append_option_to_list opts b.block_type (block_bytes b) h

-- The number that a value of at most three bytes stands for.
unfoldable pub block_number : List ℕ → ℕ
block_number [] = 0
block_number (a ∷ []) = a
block_number (a ∷ (b ∷ [])) = a * 256 + b
block_number (a ∷ (b ∷ (c ∷ r))) = a * 65536 + b * 256 + c

-- What the value's number says; the type is set before an error is answered.
unfoldable pub read_block_number : ℕ → ℕ → BlockOption → CoapResult × BlockOption
read_block_number kind v out =
    if v % 8 == 7 then (parse_message_format_error, record out { block_type = kind }) else (
      ok,
      record {
        block_type = kind;
        block_size = 2 ^ (v % 8 + 4);
        more_flag = v / 8 % 2 == 1;
        block_num = v / 16;
      },
    )

unfoldable pub read_block_value : ℕ → List ℕ → BlockOption → CoapResult × BlockOption
unfolding block_number read_block_number
read_block_value kind bytes out =
    if ltb 3 (length bytes)
    then (parse_message_format_error, record out { block_type = kind })
    else if length bytes == 0
    then (ok, record { block_type = kind; block_size = 16; more_flag = false; block_num = 0 })
    else read_block_number kind (block_number bytes) out

-- `out` is the caller's structure, which the call fills.
unfoldable pub get_block_option_from_msg :
    List CoapOption → ℕ → BlockOption → CoapResult × BlockOption
unfolding read_block_value
get_block_option_from_msg [] kind out = (err_not_found, out)
get_block_option_from_msg (o ∷ os) kind out =
    let rest = get_block_option_from_msg os kind out in
    if o.number == kind then read_block_value kind o.value out else rest

unfoldable pub get_block1_option_from_msg : List CoapOption → BlockOption → CoapResult × BlockOption
unfolding get_block_option_from_msg
get_block1_option_from_msg opts out = get_block_option_from_msg opts opt_block1 out

unfoldable pub get_block2_option_from_msg : List CoapOption → BlockOption → CoapResult × BlockOption
unfolding get_block_option_from_msg
get_block2_option_from_msg opts out = get_block_option_from_msg opts opt_block2 out

-- After each removal the search starts again. Each round removes a node, so that as many rounds as
-- there are nodes are enough.
unfoldable pub remove_blocks : ℕ → List CoapOption → ℕ → Bool → Heap → ListState
unfolding find_option remove_option_from_list
remove_blocks zero opts kind found h = (if found then ok else not_found, opts, h)
remove_blocks (suc fuel) opts kind found h =
    let place = find_option kind opts in
    let removed = remove_option_from_list opts place h in
    let rest = remove_blocks fuel removed.1 kind true removed.2 in
    if ltb place (length opts) then rest else (if found then ok else not_found, opts, h)

unfoldable pub remove_all_block_options_from_msg : List CoapOption → ℕ → Heap → ListState
unfolding remove_blocks
remove_all_block_options_from_msg opts kind h = remove_blocks (length opts) opts kind false h
