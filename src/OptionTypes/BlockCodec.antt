-- ===== src/OptionTypes/BlockCodec.antt =====
-- Block options that are added and read again:
-- coap/server/lobaro-coap/option-types/coap_option_blockwise.c.
use sming_coap.Base.{
  ℕ, zero, suc, ◌+◌, ◌*◌, ◌/◌, ◌%◌, ◌^◌, ◌≤◌, ◌<◌, ◌≡◌, ◌⊎◌, refl, arith, true, false, Bool, List,
  [], ◌∷◌, if◌then◌else◌, some, length, Bool, ◌∙◌, Bool-cases, inl, ap, inr, sym,
}
use sming_coap.Heap.{Heap}
use sming_coap.CoapResult.{ok}
use sming_coap.Options.{
  CoapOption, sizeof_option, append_option_to_list, opt_block1, opt_block2, ListState,
}
use sming_coap.OptionTypes.Block.{
  BlockOption, highest_bit, block_value, block_bytes, add_blk_option_to_msg, block_number,
  read_block_number, read_block_value, get_block_option_from_msg, number_bytes, is_zero_block,
}
use sming_coap.OptionTypes.First.{first_value, Lacks, first_value-append_option_to_list}

get_block-first_value :
    (opts : List CoapOption) (kind : ℕ) (out : BlockOption) (bytes : List ℕ)
    → first_value kind opts ≡ some bytes
    → get_block_option_from_msg opts kind out ≡ read_block_value kind bytes out
unfolding get_block_option_from_msg
get_block-first_value [] kind out bytes e = ground arith
get_block-first_value (o ∷ os) kind out bytes e =
    ground (arith, get_block-first_value os kind out bytes)

-- A block option as the protocol has it: a size of 16 to 1024 bytes, a number of at most 20 bits.
abbrev pub IsBlock : BlockOption → Type 0
IsBlock b =
    ((b.block_type ≡ opt_block1) ⊎ (b.block_type ≡ opt_block2))
    × ((e : ℕ) × (e ≤ 6) × (b.block_size ≡ 2 ^ (e + 4)))
    × (b.block_num < 2 ^ 20)

-- The exponent of a size is found back.
highest_bit_pow : (e : ℕ) → e ≤ 6 → highest_bit 6 (2 ^ (e + 4) / 16 % 256) ≡ e
unfolding highest_bit
highest_bit_pow zero h = refl
highest_bit_pow (suc zero) h = refl
highest_bit_pow (suc (suc zero)) h = refl
highest_bit_pow (suc (suc (suc zero))) h = refl
highest_bit_pow (suc (suc (suc (suc zero)))) h = refl
highest_bit_pow (suc (suc (suc (suc (suc zero))))) h = refl
highest_bit_pow (suc (suc (suc (suc (suc (suc zero)))))) h = refl
highest_bit_pow (suc (suc (suc (suc (suc (suc (suc e))))))) h = omega arith

more_bit : Bool → ℕ
more_bit more = if more then 8 else 0

more_bit_bound : (more : Bool) → more_bit more ≤ 8
unfolding more_bit
more_bit_bound false = omega arith
more_bit_bound true = omega arith

block_value_lem :
    (b : BlockOption) (e : ℕ)
    → e ≤ 6
    → b.block_size ≡ 2 ^ (e + 4)
    → b.block_num < 2 ^ 20
    → block_value b ≡ e + more_bit b.more_flag + b.block_num * 16
unfolding block_value more_bit
block_value_lem b e h size n = rw (size, highest_bit_pow e h) (ground arith)

read_block_number_lem :
    (kind e num : ℕ) (more : Bool) (out : BlockOption)
    → e ≤ 6
    → read_block_number kind (e + more_bit more + num * 16) out ≡ (
      ok,
      record { block_type = kind; block_size = 2 ^ (e + 4); more_flag = more; block_num = num },
    )
unfolding read_block_number more_bit
read_block_number_lem kind e num false out h = ground arith
read_block_number_lem kind e num true out h = ground arith

number_bytes_back :
    (num v : ℕ)
    → num * 16 ≤ v
    → v < num * 16 + 16
    → num < 2 ^ 20
    → block_number (number_bytes num v) ≡ v
unfolding block_number number_bytes
number_bytes_back num v low high n = ground arith

length-number_bytes :
    (num v : ℕ) → (0 < length (number_bytes num v)) × (length (number_bytes num v) ≤ 3)
unfolding number_bytes
length-number_bytes num v = ground arith

read-number_bytes :
    (kind num v : ℕ) (out : BlockOption)
    → num * 16 ≤ v
    → v < num * 16 + 16
    → num < 2 ^ 20
    → read_block_value kind (number_bytes num v) out ≡ read_block_number kind v out
unfolding read_block_value
read-number_bytes kind num v out low high n =
    let b = length-number_bytes num v in let c = number_bytes_back num v low high n in ground arith

zero_block :
    (b : BlockOption)
    → is_zero_block b ≡ true
    → record { block_type = b.block_type; block_size = 16; more_flag = false; block_num = 0 } ≡ b
unfolding is_zero_block
zero_block b e = ground arith

number_bytes_block :
    (b out : BlockOption)
    → IsBlock b
    → read_block_value b.block_type (number_bytes b.block_num (block_value b)) out ≡ (ok, b)
number_bytes_block b out (t, (e, h, size), n) =
    let v = block_value_lem b e h size n in
    let m = more_bit_bound b.more_flag in
    read-number_bytes b.block_type b.block_num (block_value b) out (omega arith) (omega arith) n
    ∙ ap (λ x. read_block_number b.block_type x out) v
    ∙ read_block_number_lem b.block_type e b.block_num b.more_flag out h
    ∙ ap (λ x. (ok, record b { block_size = x })) (sym size)

-- The bytes of a block option are read as the same block option.
pub read-block_bytes :
    (b out : BlockOption) → IsBlock b → read_block_value b.block_type (block_bytes b) out ≡ (ok, b)
unfolding block_bytes read_block_value
read-block_bytes b out v = elim (Bool-cases (is_zero_block b)) [
  | inl e ↦ rw e (ap (λ x. (ok, x)) (zero_block b e))
  | inr e ↦ rw e (number_bytes_block b out v)
]

pub add_blk_lem :
    (b : BlockOption) (opts : List CoapOption) (h : Heap)
    → IsBlock b
    → add_blk_option_to_msg opts b h ≡ append_option_to_list opts b.block_type (block_bytes b) h
unfolding add_blk_option_to_msg
add_blk_lem b opts h (inl t, _, _) = ground arith
add_blk_lem b opts h (inr t, _, _) = ground arith

-- A block option that is added to a list without one of its type is read back, when memory is given.
pub get_block-add_blk :
    (b out : BlockOption) (opts : List CoapOption) (h : Heap)
    → IsBlock b
    → h.verdict h.requests (sizeof_option + length (block_bytes b)) ≡ true
    → Lacks b.block_type opts
    → get_block_option_from_msg (add_blk_option_to_msg opts b h).1 b.block_type out ≡ (ok, b)
get_block-add_blk b out opts h v met l =
    let f = first_value-append_option_to_list b.block_type (block_bytes b) h opts met l in
    let g = get_block-first_value _ b.block_type out (block_bytes b) f in
    let a = add_blk_lem b opts h v in
    ap (λ (s : ListState). get_block_option_from_msg s.1 b.block_type out) a
    ∙ g
    ∙ read-block_bytes b out v
