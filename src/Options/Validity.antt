-- ===== src/Options/Validity.antt =====
-- What parse_OptionsFromRaw of coap/server/lobaro-coap/coap_options.c delivers when it succeeds.
use sming_coap.Options.Loop.{parse_loop_done, Round-cases, parse_loop_return, parse_loop_continue}
use sming_coap.Base.{
  ℕ, zero, suc, ◌+◌, ◌≤◌, ◌<◌, ◌≡◌, refl, arith, List, [], ◌∷◌, length, inl, inr, All, Memory,
  Option-cases, none, some, length-read, read, Option, ◌⊎◌, some, Bool-cases, sym, ◌∙◌,
}
use native.Mathlib.Decide.{dec_lt}
use sming_coap.Heap.{Heap}
use sming_coap.CoapResult.{ok, err_out_of_memory}
use sming_coap.Options.{CoapOption, max_option_value_size, append_option_to_list, sizeof_option}
use sming_coap.Options.Pack.{u16}
use sming_coap.Options.Insert.{
  IsSorted, insert_sorted, append_option_to_list_ok, insert_sorted-Ascending,
  append_option_to_list_met, goes_first, append_option_to_list-refused,
}
use sming_coap.Options.PackedOption.{IsOption}
use sming_coap.Options.Parse.{
  read_head, continue, take_option, parse_round, Parsed, after_append, return, parse_loop,
  parse_options_from_raw,
}
use sming_coap.Options.Heads.{after_append_continue}

-- The list is sorted, its options have numbers below 2 ^ 16 and values of at most 1034 bytes, and
-- one block more than at `start` is held for each of them.
pub record Holding (start : ℕ) (opts : List CoapOption) (h : Heap) : Type 0 where
  pub sorted : IsSorted opts
  pub options : All IsOption opts
  pub blocks : h.live ≡ start + length opts

All-insert_sorted :
    (o : CoapOption) (opts : List CoapOption)
    → IsOption o
    → All IsOption opts
    → All IsOption (insert_sorted o opts)
All-insert_sorted o [] w a = (w, tt)
All-insert_sorted o (p ∷ ps) w a = ground (arith, All-insert_sorted o ps w a.1)

length-insert_sorted :
    (o : CoapOption) (opts : List CoapOption) → length (insert_sorted o opts) ≡ suc (length opts)
length-insert_sorted o [] = refl
length-insert_sorted o (p ∷ ps) = ground (arith, length-insert_sorted o ps)

append-Holding :
    (start number : ℕ) (buf : List ℕ) (opts os : List CoapOption) (h h' : Heap)
    → number < 65536
    → length buf ≤ max_option_value_size
    → append_option_to_list opts number buf h ≡ (ok, os, h')
    → Holding start opts h
    → Holding start os h'
append-Holding start number buf opts os h h' hn hv e v =
    let new : CoapOption = record { number = number; value = buf } in
    let (list, heap) = append_option_to_list_ok number buf h opts os h' e in
    rw (list, heap)
      (record {
        sorted = insert_sorted-Ascending 0 new opts (omega arith) v.sorted;
        options =
            All-insert_sorted new opts (record { number_bound = hn; value_bound = hv }) v.options;
        blocks = omega (arith, v.blocks, length-insert_sorted new opts);
      })

take_option-Holding :
    (mem : Memory) (n last start : ℕ) (opts : List CoapOption) (h : Heap) (d l offset : ℕ) (o k : ℕ)
    (os : List CoapOption) (h' : Heap)
    → take_option mem n last opts h (d, l, offset) ≡ continue o k os h'
    → Holding start opts h
    → Holding start os h'
unfolding take_option
take_option-Holding mem n last start opts h d l offset o k os h' e v = ground (
  arith,
  length-read mem offset l,
  after_append_continue (u16 (offset + l)) (u16 (d + last))
      (append_option_to_list opts (u16 (d + last)) (read mem offset l) h) {o = o} {l = k} {os = os}
      {h = h'},
  append-Holding start (u16 (d + last)) (read mem offset l) opts os h h',
)

parse_round-Holding :
    (mem : Memory) (n offset last start : ℕ) (opts : List CoapOption) (h : Heap) (o k : ℕ)
    (os : List CoapOption) (h' : Heap)
    → parse_round mem n offset last opts h ≡ continue o k os h'
    → Holding start opts h
    → Holding start os h'
unfolding parse_round
parse_round-Holding mem n offset last start opts h o k os h' e v =
    elim (Option-cases (read_head mem offset)) [
      | inl x ↦ ground arith
      | inr ((d, l, p), x) ↦
          ground (arith, take_option-Holding mem n last start opts h d l p o k os h')
    ]

-- Either the list that is handed back accounts for every block, or memory ran out and the list is
-- lost.
abbrev pub Kept : ℕ → Parsed → Type 0
Kept start p = Holding start p.options p.heap ⊎ ((p.result ≡ err_out_of_memory) × (p.options ≡ []))

abbrev pub Within : ℕ → Option ℕ → Type 0
Within n none = Unit {0}
Within n (some i) = i < n

Within-mono : (m n : ℕ) (place : Option ℕ) → m ≤ n → Within m place → Within n place
Within-mono m n none h w = tt
Within-mono m n (some i) h w = omega arith

append-Kept :
    (start number : ℕ) (buf : List ℕ) (opts : List CoapOption) (h : Heap) (offset k : ℕ)
    (p : Parsed)
    → number < 65536
    → length buf ≤ max_option_value_size
    → after_append offset k (append_option_to_list opts number buf h) ≡ return p
    → Holding start opts h
    → Kept start p × Within 0 p.payload_begin
unfolding after_append
append-Kept start number buf opts h offset k p hn hv e v =
    elim (Bool-cases (h.verdict h.requests (sizeof_option + length buf))) [
      | inl met ↦ ground (arith, append_option_to_list_met number buf h opts met)
      | inr not_met ↦ elim (Bool-cases (goes_first number opts)) [
        | inl lost ↦ ground (arith, append_option_to_list-refused number buf h opts not_met)
        | inr kept ↦ ground (arith, append_option_to_list-refused number buf h opts not_met)
      ]
    ]

take_option-Kept :
    (mem : Memory) (n last start : ℕ) (opts : List CoapOption) (h : Heap) (d l offset : ℕ)
    (p : Parsed)
    → take_option mem n last opts h (d, l, offset) ≡ return p
    → Holding start opts h
    → Kept start p × Within 0 p.payload_begin
unfolding take_option
take_option-Kept mem n last start opts h d l offset p e v = ground (
  arith,
  length-read mem offset l,
  append-Kept start (u16 (d + last)) (read mem offset l) opts h (u16 (offset + l)) (u16 (d + last))
      p,
)

parse_round-Kept :
    (mem : Memory) (n offset last start : ℕ) (opts : List CoapOption) (h : Heap) (p : Parsed)
    → offset < n
    → parse_round mem n offset last opts h ≡ return p
    → Holding start opts h
    → Kept start p × Within n p.payload_begin
unfolding parse_round
parse_round-Kept mem n offset last start opts h p below e v =
    elim (Option-cases (read_head mem offset)) [
      | inl x ↦ ground arith
      | inr ((d, l, q), x) ↦
          ground (
            arith,
            take_option-Kept mem n last start opts h d l q p,
            Within-mono 0 n p.payload_begin,
          )
    ]

parse_loop-Kept :
    (mem : Memory) (n start : ℕ) (p : Parsed) (fuel offset last : ℕ) (opts : List CoapOption)
    (h : Heap)
    → parse_loop fuel mem n offset last opts h ≡ some p
    → Holding start opts h
    → Kept start p × Within n p.payload_begin
parse_loop-Kept mem n start p zero offset last opts h e v = unfold parse_loop in cc
parse_loop-Kept mem n start p (suc fuel) offset last opts h e v = elim (dec_lt offset n) [
  | no done ↦ ground (arith, parse_loop_done fuel mem n offset last opts h)
  | yes below ↦ elim (Round-cases (parse_round mem n offset last opts h)) [
    | inl (q, r) ↦ ground (
      arith,
      parse_loop_return fuel mem n offset last opts h below r,
      parse_round-Kept mem n offset last start opts h q below r v,
    )
    | inr (o, k, os, h', r) ↦
        parse_loop-Kept mem n start p fuel o k os h'
          (sym (parse_loop_continue fuel mem n offset last opts h below r) ∙ e)
          (parse_round-Holding mem n offset last start opts h o k os h' r v)
  ]
]

-- On any bytes and with any heap, whatever result the parser returns: the list that it hands back
-- is sorted, its options have numbers below 2 ^ 16 and values of at most 1034 bytes, and exactly one
-- block more than before is held for each of them; or memory ran out and the list is empty. The
-- payload, if one is found, begins before the n-th byte.
pub parse-Kept :
    (mem : Memory) (n : ℕ) (h : Heap) (p : Parsed)
    → parse_options_from_raw mem n [] h ≡ some p
    → Kept h.live p × Within n p.payload_begin
unfolding parse_options_from_raw
parse-Kept mem n h p e =
    ground (arith, none_held h, parse_loop-Kept mem n h.live p (suc n) 0 0 [] h)
  where
    none_held : (g : Heap) → Holding g.live [] g
    none_held g = record { sorted = tt; options = tt; blocks = omega arith }
