-- ===== src/Message/Refused.antt =====
-- Messages that CoAP_BuildDatagram writes and CoAP_ParseMessageFromDatagram refuses
-- (coap/server/lobaro-coap/coap_message.c): those with a payload and no option.
use sming_coap.Options.RoundTrip.{marked}
use sming_coap.Base.{
  ℕ, ◌+◌, ◌≤◌, ◌<◌, ◌≡◌, refl, arith, Memory, Holds, List, [], ◌∷◌, ◌++◌, length, some, none, ap,
  ◌^◌, suc, length-take,
}
use sming_coap.Heap.{Heap}
use sming_coap.CoapResult.{parse_message_format_error}
use sming_coap.Options.{free_option_list}
use sming_coap.Options.Pack.{pack_options_from_list, pack_options}
use sming_coap.Options.Parse.{parse_options_from_raw}
use sming_coap.Message.{Message, max_payload_size, get_token_byte_count, payload_bytes}
use sming_coap.Message.Build.{build_datagram}
use sming_coap.Message.Size.{PayloadFits, length-datagram_of}
use sming_coap.Message.Token.{get_token_byte_count_bounds}
use sming_coap.Message.Sendable.{
  IsHeader, header_of, parse_header-build, payload_of, parts, build_datagram-parts, parts-Holds,
}
use sming_coap.Message.Parse.{parse_body, parse_message_from_datagram, after_options, header}

parse_body_marker :
    (m : Message) (mem : Memory) (n now : ℕ) (h : Heap)
    → m.token < 2 ^ 64
    → 4 + get_token_byte_count m.token < n
    → n < 65536
    → mem (4 + get_token_byte_count m.token) ≡ 0xff
    → parse_body mem n now h (header (header_of m)) ≡ some (parse_message_format_error, none, h)
unfolding parse_body parse_options_from_raw after_options free_option_list
parse_body_marker m mem n now h t longer small marker =
    ground (arith, get_token_byte_count_bounds m.token t)

pack-none : (m : Message) → m.options ≡ [] → pack_options_from_list m.options ≡ []
unfolding pack_options_from_list pack_options
pack-none m bare = ap pack_options_from_list bare

-- A payload begins with its marker.
marked-first :
    (bytes : List ℕ) (mem : Memory) (i : ℕ)
    → 0 < length bytes
    → Holds mem i (marked bytes)
    → (mem i ≡ 0xff) × (length (marked bytes) ≡ suc (length bytes))
marked-first [] mem i pos holds = elim pos [ ]
marked-first (b ∷ bs) mem i pos holds = (holds.0, refl)

refused_parts :
    (m : Message) (mem : Memory) (now : ℕ) (h : Heap)
    → IsHeader m
    → m.options ≡ []
    → PayloadFits m
    → 0 < m.payload_length
    → m.payload_length ≤ max_payload_size
    → Holds mem 0 (parts m)
    → parse_message_from_datagram mem (length (parts m)) now h
      ≡ some (parse_message_format_error, none, h)
unfolding parse_message_from_datagram
refused_parts m mem now h w bare fits pos bound holds =
    let tl = get_token_byte_count m.token in
    let (size, head, token, tail) = parts-Holds m mem holds in
    let only_payload = ap (λ (xs : List ℕ). xs ++ marked (payload_of m)) (pack-none m bare) in
    let bytes = length-take m.payload_length (payload_bytes m.payload) fits in
    let (marker, count) =
      marked-first (payload_of m) mem (4 + tl) (omega arith) (rw only_payload at tail) in
    let size' : length (parts m) ≡ 4 + tl + length (marked (payload_of m)) =
      omega (arith, ap length only_payload) in
    rw (parse_header-build m mem (length (parts m)) w (omega arith) head) (
      parse_body_marker m mem (length (parts m)) now h w.token_bound (omega arith)
        (omega (arith, get_token_byte_count_bounds m.token w.token_bound)) marker)

-- A message with a payload and no option, otherwise one that can be sent, is refused by the parser
-- with a format error: the datagram that the builder makes is not read back.
pub parse-build_refused :
    (m : Message) (mem : Memory) (now : ℕ) (h : Heap)
    → IsHeader m
    → m.options ≡ []
    → PayloadFits m
    → 0 < m.payload_length
    → m.payload_length ≤ max_payload_size
    → Holds mem 0 (build_datagram m).0
    → parse_message_from_datagram mem (length (build_datagram m).0) now h
      ≡ some (parse_message_format_error, none, h)
parse-build_refused m mem now h w bare fits pos bound holds =
    let tl = get_token_byte_count m.token in
    let long = length-datagram_of tl m fits in
    let none_packed = ap length (pack-none m bare) in
    let count = get_token_byte_count_bounds m.token w.token_bound in
    let same =
      build_datagram-parts m w.code_nonempty fits
        (ground (arith, long, none_packed, count, bound)) in
    rw same (refused_parts m mem now h w bare fits pos bound (rw same at holds))
