-- ===== src/Tests/Options.antt =====
-- The option list of coap/server/lobaro-coap/coap_options.c at concrete inputs.
use mathlib.Core.List.{Perm}
use sming_coap.Base.{
  zero, suc, ◌<◌, ◌≡◌, refl, arith, List, [], ◌∷◌, ◌++◌, some, inl, of_list, of_list-Holds, false,
  Agree, suc,
}
use sming_coap.Heap.{Heap, fresh_heap}
use sming_coap.CoapResult.{ok, err_out_of_memory}
use sming_coap.Options.{CoapOption, append_option_to_list}
use sming_coap.Options.Insert.{
  append_option_to_list_met, append_option_to_list-refused, append_option_to_list-IsSorted,
  IsSorted, taken, refused,
}
use sming_coap.Options.Pack.{
  bytes_written, pack_options_from_list, pack_options, pack_option, field_nibble, field_bytes,
  needed_mem_4_pack_options,
}
use sming_coap.Options.Size.{needed_mem-bytes_written}
use sming_coap.Options.Parse.{
  Parsed, parse_options_from_raw, parse_loop, parse_round, read_head, read_field, take_option,
  after_append,
}
use sming_coap.Options.PackedOption.{grown}
use sming_coap.Options.RoundTrip.{parse-pack, marked}
use sming_coap.Options.Bounds.{parse-total, parse-Agree}
use sming_coap.Options.Validity.{parse-Kept, Kept}

abbrev pub path_option : CoapOption
path_option = record { number = 11; value = 0x61 ∷ 0x62 ∷ [] }

abbrev query_option : CoapOption
query_option = record { number = 300; value = 0x78 ∷ [] }

abbrev pub two_options : List CoapOption
two_options = path_option ∷ query_option ∷ []

-- A heap that refuses every request.
abbrev pub full_heap : Heap
full_heap = record fresh_heap { verdict = λ _ _. false }

packed_bytes :
    pack_options_from_list two_options ≡ 0xb2 ∷ 0x61 ∷ 0x62 ∷ 0xe1 ∷ 0x00 ∷ 0x14 ∷ 0x78 ∷ []
unfolding pack_options_from_list pack_options pack_option field_nibble field_bytes
packed_bytes = refl

append_option_to_list_met_example :
    append_option_to_list two_options 12 [] fresh_heap
    ≡ (ok, path_option ∷ record { number = 12; value = [] } ∷ query_option ∷ [], taken fresh_heap)
append_option_to_list_met_example = append_option_to_list_met 12 [] fresh_heap two_options refl

append_option_to_list-refused_example :
    append_option_to_list two_options 3 [] full_heap ≡ (err_out_of_memory, [], refused full_heap)
append_option_to_list-refused_example =
    append_option_to_list-refused 3 [] full_heap two_options refl

append_option_to_list-IsSorted_example :
    IsSorted (append_option_to_list two_options 12 [] fresh_heap).1
    × Perm
        (append_option_to_list two_options 12 [] fresh_heap).1
        (record { number = 12; value = [] } ∷ two_options)
append_option_to_list-IsSorted_example =
    append_option_to_list-IsSorted 12 [] fresh_heap two_options refl (omega arith)

needed_mem-bytes_written_example : needed_mem_4_pack_options two_options ≡ bytes_written two_options
needed_mem-bytes_written_example = needed_mem-bytes_written two_options

parse-pack_example :
    parse_options_from_raw
      (of_list (pack_options_from_list two_options ++ marked (7 ∷ [])))
      9
      []
      fresh_heap
    ≡ some (record {
      result = ok;
      payload_begin = some 8;
      options = two_options;
      heap = grown 2 fresh_heap;
    })
unfolding pack_options_from_list pack_options pack_option field_nibble field_bytes
parse-pack_example =
    parse-pack two_options (7 ∷ [])
      (of_list (pack_options_from_list two_options ++ marked (7 ∷ []))) 9 fresh_heap (omega arith)
      (omega arith) (inl (λ e. cc)) refl (omega arith)
      (of_list-Holds (pack_options_from_list two_options ++ marked (7 ∷ []))) (λ k n. refl)

parse-total_example :
    (p : Parsed) × (parse_options_from_raw (of_list (0xd0 ∷ [])) 1 [] fresh_heap ≡ some p)
parse-total_example = parse-total (of_list (0xd0 ∷ [])) 1 fresh_heap (omega arith)

-- The extended delta of a datagram that ends with 0xd0 is read from behind it.
parse-Agree_example :
    parse_options_from_raw (of_list (0xd0 ∷ 1 ∷ [])) 1 [] fresh_heap
    ≡ parse_options_from_raw (of_list (0xd0 ∷ 2 ∷ [])) 1 [] fresh_heap
parse-Agree_example =
    parse-Agree (of_list (0xd0 ∷ 1 ∷ [])) (of_list (0xd0 ∷ 2 ∷ [])) 1 fresh_heap first_byte
      (omega arith)
  where
    first_byte : Agree 1 (of_list (0xd0 ∷ 1 ∷ [])) (of_list (0xd0 ∷ 2 ∷ []))
    first_byte zero h = refl
    first_byte (suc i) h = absurd (omega arith)

abbrev parsed_one : Parsed
parsed_one = record {
  result = ok;
  payload_begin = some 3;
  options = record { number = 1; value = 5 ∷ [] } ∷ [];
  heap = grown 1 fresh_heap;
}

parse_one :
    parse_options_from_raw (of_list (0x11 ∷ 5 ∷ 0xff ∷ 6 ∷ [])) 4 [] fresh_heap ≡ some parsed_one
unfolding parse_options_from_raw parse_loop parse_round read_head read_field take_option
    after_append append_option_to_list
parse_one = refl

parse-Kept_example : Kept 0 parsed_one × (3 < 4)
parse-Kept_example =
    parse-Kept (of_list (0x11 ∷ 5 ∷ 0xff ∷ 6 ∷ [])) 4 fresh_heap parsed_one parse_one
