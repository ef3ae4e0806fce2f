-- ===== src/Message/Overread.antt =====
-- CoAP_ParseMessageFromDatagram of coap/server/lobaro-coap/coap_message.c on a datagram that is
-- shorter than the token that it announces: the remaining length, a negative number, becomes a
-- uint16_t near 2 ^ 16, and options are read from what stands behind the datagram.
use sming_coap.Base.{
  ℕ, suc, ◌+◌, ◌-◌, ◌≤◌, ◌<◌, ◌≡◌, ◌∙◌, arith, Memory, Agree, List, [], ◌∷◌, some, none,
  if◌then◌else◌, ltb, ◌==◌,
}
use sming_coap.Heap.{Heap, Generous, mem_release}
use sming_coap.CoapResult.{ok, parse_message_format_error, parse_too_much_payload}
use sming_coap.Options.{CoapOption, sizeof_option, free_option_list}
use sming_coap.Options.Insert.{taken, append_option_to_list_met}
use sming_coap.Options.Pack.{u16}
use sming_coap.Options.Parse.{
  read_head, read_field, take_option, after_append, parse_round, continue, return,
  parse_options_from_raw,
}
use sming_coap.Options.Loop.{parse_loop_continue, parse_loop_return}
use sming_coap.Message.Bounds.{parse_header-Agree, parse_header_ok}
use sming_coap.Message.Parse.{
  Header, header, parse_header, after_options, from, parse_body, parse_message_from_datagram,
}

abbrev null_option : CoapOption
null_option = record { number = 0; value = [] }

first_round :
    (mem : Memory) (n : ℕ) (h : Heap)
    → mem 0 ≡ 0
    → 3 ≤ n
    → Generous h
    → parse_round mem n 0 0 [] h ≡ continue 1 0 (null_option ∷ []) (taken h)
unfolding parse_round read_head read_field take_option after_append
first_round mem n h e long g =
    ground (arith, append_option_to_list_met 0 [] h [] (g h.requests (sizeof_option + 0)))

second_round :
    (mem : Memory) (n last : ℕ) (opts : List CoapOption) (h : Heap)
    → mem 1 ≡ 0xff
    → 3 ≤ n
    → parse_round mem n 1 last opts h
      ≡ return (record { result = ok; payload_begin = some 2; options = opts; heap = h })
unfolding parse_round
second_round mem n last opts h e long = ground arith

-- An empty option and a marker, wherever they come from, are parsed.
stray_option :
    (mem : Memory) (k : ℕ) (h : Heap)
    → mem 0 ≡ 0
    → mem 1 ≡ 0xff
    → Generous h
    → parse_options_from_raw mem (suc (suc (suc k))) [] h
      ≡ some (record {
        result = ok;
        payload_begin = some 2;
        options = null_option ∷ [];
        heap = taken h;
      })
unfolding parse_options_from_raw
stray_option mem k h e0 e1 g =
    let n = suc (suc (suc k)) in
    let first =
      parse_loop_continue n mem n 0 0 [] h (omega arith) (first_round mem n h e0 (omega arith) g) in
    let second =
      parse_loop_return (suc (suc k)) mem n 1 0 (null_option ∷ []) (taken h) (omega arith)
        (second_round mem n 0 (null_option ∷ []) (taken h) e1 (omega arith)) in
    ground (arith, first ∙ second)

-- The datagram with a marker behind it, and with an empty option and a marker where the options
-- are looked for.
abbrev with_marker : Memory → ℕ → Memory
with_marker mem n i = if ltb i n then mem i else 0xff

abbrev with_option : Memory → ℕ → ℕ → Memory
with_option mem n offset i = if ltb i n then mem i else if i == offset then 0 else 0xff

module _ (mem : Memory) (n now : ℕ) (h : Heap) (hd : Header) (head : parse_header mem n ≡ header hd)
    (longer : 4 < n) (short : n < 4 + hd.token_length) where
  parse_with_marker :
      parse_message_from_datagram (with_marker mem n) n now h
      ≡ some (parse_message_format_error, none, h)
  unfolding parse_message_from_datagram parse_body parse_options_from_raw after_options
      free_option_list
  parse_with_marker =
      let same = parse_header-Agree mem (with_marker mem n) n (λ i below. ground arith) in
      rw (← same, head) (ground (arith, parse_header_ok mem n hd head))

  parse_with_option :
      Generous h
      → parse_message_from_datagram (with_option mem n (4 + hd.token_length)) n now h
        ≡ some (parse_too_much_payload, none, mem_release (taken h))
  unfolding parse_message_from_datagram parse_body after_options free_option_list mem_release
  parse_with_option g =
      let offset = 4 + hd.token_length in
      let mem' = with_option mem n offset in
      let same = parse_header-Agree mem mem' n (λ i below. ground arith) in
      let bounds = parse_header_ok mem n hd head in
      let left : u16 (n + 65536 - offset) ≡ suc (suc (suc (n + 65533 - offset))) = omega arith in
      rw
        (
          ← same,
          head,
          left,
          stray_option (from offset mem') (n + 65533 - offset) h (ground arith) (ground arith) g,
        )
        (ground (arith, bounds))

-- On every datagram of more than four bytes with a good header that announces a longer token than
-- there is room for, where every request for memory is met: it can be continued in memory in two
-- ways. After the one the parser reports a format error, after the other too much payload, and no
-- message is made. So bytes that do not belong to the datagram decide.
pub parse_message_overread :
    (mem : Memory) (n now : ℕ) (h : Heap) (hd : Header)
    → parse_header mem n ≡ header hd
    → 4 < n
    → n < 4 + hd.token_length
    → Generous h
    → (first : Memory) × (second : Memory) × Agree n mem first
      × Agree n mem second
      × (parse_message_from_datagram first n now h ≡ some (parse_message_format_error, none, h))
      × (parse_message_from_datagram second n now h
          ≡ some (parse_too_much_payload, none, mem_release (taken h)))
parse_message_overread mem n now h hd head longer short g = (
  with_marker mem n,
  with_option mem n (4 + hd.token_length),
  λ i below. ground arith,
  λ i below. ground arith,
  parse_with_marker mem n now h hd head longer short,
  parse_with_option mem n now h hd head longer short g,
)
