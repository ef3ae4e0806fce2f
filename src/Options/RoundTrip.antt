-- ===== src/Options/RoundTrip.antt =====
-- parse_OptionsFromRaw reads back what pack_OptionsFromList wrote.
use sming_coap.Base.{
  ℕ, zero, suc, ◌+◌, ◌≤◌, ◌<◌, ◌≡◌, refl, ap, ◌∙◌, arith, Option, none, some, List, [], ◌∷◌, ◌++◌,
  length, length-append, ◌⊎◌, ◌≢◌, All, All-append, Memory, Holds, Holds-append_right, append_assoc,
  append-nil,
}
use native.Mathlib.Nat.{add-zero}
use sming_coap.Heap.{Heap, Generous}
use sming_coap.CoapResult.{ok}
use sming_coap.Options.{CoapOption}
use sming_coap.Options.Insert.{Ascending, taken}
use sming_coap.Options.Pack.{delta_of, pack_option, pack_options, pack_options_from_list}
use sming_coap.Options.PackedOption.{
  IsOption, grown, field_nibble-le, All-le, parse_round-packed, pack_option-pos,
}
use sming_coap.Options.Loop.{parse_loop_continue}
use sming_coap.Options.Parse.{parse_round, parse_loop, parse_options_from_raw}

-- The payload behind the options: none if it is empty, else a marker and the bytes.
abbrev pub marked : List ℕ → List ℕ
marked [] = []
marked (b ∷ bs) = 0xff ∷ (b ∷ bs)

abbrev pub payload_start : ℕ → List ℕ → Option ℕ
payload_start offset [] = none
payload_start offset (b ∷ bs) = some (offset + 1)

pub All-snoc :
    (acc : List CoapOption) (last : ℕ) (o : CoapOption)
    → last ≤ o.number
    → All (λ (p : CoapOption). p.number ≤ last) acc
    → All (λ (p : CoapOption). p.number ≤ o.number) (acc ++ (o ∷ []))
All-snoc acc last o h a =
    All-append (λ (p : CoapOption). p.number ≤ o.number) acc (o ∷ []) (All-le acc last o.number h a)
      (omega arith)

parse_loop_end :
    (fuel : ℕ) (mem : Memory) (n offset last : ℕ) (acc : List CoapOption) (h : Heap)
    (payload : List ℕ)
    → n ≡ offset + length (marked payload)
    → Holds mem offset (marked payload)
    → parse_loop (suc fuel) mem n offset last acc h
      ≡ some (record {
        result = ok;
        payload_begin = payload_start offset payload;
        options = acc;
        heap = h;
      })
unfolding parse_loop parse_round
parse_loop_end fuel mem n offset last acc h [] e holds = ground arith
parse_loop_end fuel mem n offset last acc h (b ∷ bs) e holds = ground arith

pub parse_loop-pack_options :
    (opts : List CoapOption) (fuel : ℕ) (mem : Memory) (n offset last : ℕ) (acc : List CoapOption)
    (h : Heap) (payload : List ℕ)
    → length opts < fuel
    → All IsOption opts
    → Ascending last opts
    → All (λ (p : CoapOption). p.number ≤ last) acc
    → Generous h
    → n ≡ offset + length (pack_options last opts ++ marked payload)
    → n + 4 < 65536
    → Holds mem offset (pack_options last opts ++ marked payload)
    → parse_loop fuel mem n offset last acc h
      ≡ some (record {
        result = ok;
        payload_begin = payload_start (offset + length (pack_options last opts)) payload;
        options = acc ++ opts;
        heap = grown (length opts) h;
      })
unfolding pack_options
parse_loop-pack_options opts zero mem n offset last acc h payload f w a b g e r holds = elim f [ ]
parse_loop-pack_options [] (suc fuel) mem n offset last acc h payload f w a b g e r holds =
    rw (append-nil acc, add-zero) (parse_loop_end fuel mem n offset last acc h payload e holds)
parse_loop-pack_options (o ∷ os) (suc fuel) mem n offset last acc h payload f w a b g e r holds =
    let first = pack_option last o in
    let later = pack_options o.number os in
    let next = offset + length first in
    let holds' : Holds mem offset (first ++ (later ++ marked payload)) =
      rw (append_assoc first later (marked payload)) at holds in
    let size : n ≡ next + length (later ++ marked payload) = omega (
      arith,
      ap length (append_assoc first later (marked payload)),
      length-append first (later ++ marked payload),
    ) in
    let round =
      parse_round-packed mem offset last o (later ++ marked payload) w.0 (omega arith) holds' n acc
        h (omega arith) a.0 b g in
    let total : next + length later ≡ offset + length (first ++ later) =
      omega (arith, length-append first later) in
    parse_loop_continue fuel mem n offset last acc h (omega (arith, pack_option-pos last o)) round
    ∙ parse_loop-pack_options os fuel mem n next o.number (acc ++ (o ∷ [])) (taken h) payload
        (omega arith) w.1 a.1 (All-snoc acc last o a.0 b) g size r
        (Holds-append_right mem offset next first (later ++ marked payload) refl holds')
    ∙ rw (total, append_assoc acc (o ∷ []) os)

pack_options-length :
    (last : ℕ) (opts : List CoapOption) → length opts ≤ length (pack_options last opts)
unfolding pack_options
pack_options-length last [] = omega arith
pack_options-length last (o ∷ os) = omega (
  arith,
  pack_options-length o.number os,
  pack_option-pos last o,
  length-append (pack_option last o) (pack_options o.number os),
)

pub pack_options_from_list-length :
    (opts : List CoapOption) → length opts ≤ length (pack_options_from_list opts)
unfolding pack_options_from_list
pack_options_from_list-length opts = pack_options-length 0 opts

pack_options-first :
    (last : ℕ) (opts : List CoapOption) (mem : Memory) (rest : List ℕ)
    → opts ≢ []
    → Holds mem 0 (pack_options last opts ++ rest)
    → mem 0 ≢ 0xff
unfolding pack_options pack_option
pack_options-first last [] mem rest ne holds = absurd (ne refl)
pack_options-first last (o ∷ os) mem rest ne holds =
    omega
      (arith, field_nibble-le (delta_of o.number last), field_nibble-le (length o.value), holds.0)

-- What the packing wrote, with the payload behind its marker, is parsed to the same options in the
-- same order, with the payload's place: for sorted options whose numbers are below 2 ^ 16 and whose
-- values have at most 1034 bytes, at least one if there is a payload, in a memory that holds the
-- bytes, below 2 ^ 16 - 4 bytes, where every request for memory is met. One block is then held for
-- each option.
pub parse-pack :
    (opts : List CoapOption) (payload : List ℕ) (mem : Memory) (n : ℕ) (h : Heap)
    → All IsOption opts
    → Ascending 0 opts
    → (opts ≢ []) ⊎ (payload ≡ [])
    → n ≡ length (pack_options_from_list opts ++ marked payload)
    → n + 4 < 65536
    → Holds mem 0 (pack_options_from_list opts ++ marked payload)
    → Generous h
    → parse_options_from_raw mem n [] h
      ≡ some (record {
        result = ok;
        payload_begin = payload_start (length (pack_options_from_list opts)) payload;
        options = opts;
        heap = grown (length opts) h;
      })
unfolding parse_options_from_raw pack_options_from_list
parse-pack [] [] mem n h w a some_option e r holds g = unfold pack_options in ground arith
parse-pack [] (b ∷ bs) mem n h w a some_option e r holds g = ground arith
parse-pack (o ∷ os) payload mem n h w a some_option e r holds g = ground (
  arith,
  pack_options-first 0 (o ∷ os) mem (marked payload) (λ x. cc) holds,
  length-append (pack_options 0 (o ∷ os)) (marked payload),
  pack_options-length 0 (o ∷ os),
  parse_loop-pack_options (o ∷ os) (suc n) mem n 0 0 [] h payload,
)
