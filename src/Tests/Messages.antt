-- ===== src/Tests/Messages.antt =====
-- Messages of coap/server/lobaro-coap/coap_message.c at concrete inputs.
use sming_coap.Base.{
  ℕ, ◌≡◌, ◌⊎◌, refl, arith, List, [], ◌∷◌, ◌++◌, length, some, none, inl, inr, of_list,
  of_list-Holds, Memory, Agree, of_list-Agree, ◌≤◌,
}
use sming_coap.Heap.{fresh_heap, mem_release}
use sming_coap.CoapResult.{ok, parse_message_format_error, parse_too_much_payload}
use sming_coap.Options.Insert.{taken}
use sming_coap.Options.PackedOption.{grown}
use sming_coap.Options.Pack.{
  pack_options_from_list, pack_options, pack_option, field_nibble, field_bytes, u16,
}
use sming_coap.Message.{
  Message, con, in_message, null, get_token_byte_count, type_bits, payload_bytes, req_post,
  type_of_bits,
}
use sming_coap.Message.Build.{
  build_datagram, datagram_of, build_header, token_bytes, build_payload, get_raw_size_of_message,
  write_datagram, write_payload, write_at,
}
use sming_coap.Message.Size.{get_raw_size-build}
use sming_coap.Message.Sendable.{IsSendable, IsHeader, received}
use sming_coap.Message.RoundTrip.{parse-build}
use sming_coap.Message.Refused.{parse-build_refused}
use sming_coap.Message.Bounds.{parse_message-Agree}
use sming_coap.Message.Accounting.{parse_message-Accounted, parse_message-total, Accounted, Lost}
use sming_coap.Message.Overread.{parse_message_overread}
use sming_coap.Message.Parse.{
  header, parse_header, parse_message_from_datagram, MessageState, read_token,
}
use sming_coap.Tests.Options.{path_option}

abbrev post : Message
post = record {
  timestamp = 0;
  type = con;
  code = req_post;
  message_id = 0x1234;
  payload_length = 2;
  payload_buf_size = 4;
  token = 0x1fa;
  options = path_option ∷ [];
  payload = in_message (7 ∷ 8 ∷ 0 ∷ 0 ∷ []);
}

abbrev post_bytes : List ℕ
post_bytes = 0x42 ∷ 2 ∷ 0x12 ∷ 0x34 ∷ 0xfa ∷ 1 ∷ 0xb2 ∷ 0x61 ∷ 0x62 ∷ 0xff ∷ 7 ∷ 8 ∷ []

build_post : (build_datagram post).0 ≡ post_bytes
unfolding build_datagram write_datagram write_payload write_at build_header token_bytes
    build_payload pack_options_from_list pack_options pack_option field_nibble field_bytes type_bits
    get_token_byte_count payload_bytes
build_post = refl

post-IsHeader : IsHeader post
post-IsHeader = record {
  code_bound = omega arith;
  code_nonempty = omega arith;
  code_class = omega arith;
  message_id_bound = omega arith;
  token_bound = omega arith;
}

post-IsSendable : IsSendable post
unfolding payload_bytes datagram_of build_header token_bytes get_token_byte_count
    pack_options_from_list pack_options pack_option field_bytes build_payload
post-IsSendable = record {
  head = post-IsHeader;
  options = omega arith;
  sorted = omega arith;
  payload_fits = omega arith;
  payload_bound = omega arith;
  an_option = inl (λ e. cc);
  size_bound = omega arith;
}

get_raw_size-build_example :
    (u16 (get_raw_size_of_message post) ≡ (build_datagram post).2)
    × ((get_raw_size_of_message post ≡ length (build_datagram post).0)
        ⊎ (65536 ≤ get_raw_size_of_message post))
unfolding payload_bytes pack_options_from_list pack_options pack_option field_nibble field_bytes
get_raw_size-build_example = get_raw_size-build post (omega arith) (omega arith)

parse-build_example :
    parse_message_from_datagram
      (of_list (build_datagram post).0)
      (length (build_datagram post).0)
      5
      fresh_heap
    ≡ some (ok, some (received 5 post), taken (grown 1 fresh_heap))
parse-build_example =
    parse-build post (of_list (build_datagram post).0) 5 fresh_heap post-IsSendable
      (of_list-Holds (build_datagram post).0) (λ k n. refl)

-- The same message without its option.
abbrev bare_post : Message
bare_post = record post { options = [] }

parse-build_refused_example :
    parse_message_from_datagram
      (of_list (build_datagram bare_post).0)
      (length (build_datagram bare_post).0)
      5
      fresh_heap
    ≡ some (parse_message_format_error, none, fresh_heap)
unfolding payload_bytes
parse-build_refused_example =
    parse-build_refused bare_post (of_list (build_datagram bare_post).0) 5 fresh_heap
      (record {
        code_bound = omega arith;
        code_nonempty = omega arith;
        code_class = omega arith;
        message_id_bound = omega arith;
        token_bound = omega arith;
      })
      refl (omega arith) (omega arith) (omega arith) (of_list-Holds (build_datagram bare_post).0)

parse_message-Agree_example :
    parse_message_from_datagram (of_list post_bytes) 12 5 fresh_heap
    ≡ parse_message_from_datagram (of_list (post_bytes ++ (9 ∷ []))) 12 5 fresh_heap
parse_message-Agree_example =
    parse_message-Agree (of_list post_bytes) (of_list (post_bytes ++ (9 ∷ []))) 12 5 fresh_heap
      (of_list-Agree post_bytes (9 ∷ [])) (inr (omega arith)) (omega arith)

parse_message-total_example :
    (s : MessageState) × (parse_message_from_datagram (of_list post_bytes) 12 5 fresh_heap ≡ some s)
parse_message-total_example =
    parse_message-total (of_list post_bytes) 12 5 fresh_heap (inr (omega arith)) (omega arith)

-- Five bytes, and a token of eight announced.
abbrev short_datagram : List ℕ
short_datagram = 0x48 ∷ 1 ∷ 0 ∷ 1 ∷ 0xaa ∷ []

short_header :
    parse_header (of_list short_datagram) 5
    ≡ header (record { type = con; token_length = 8; code = 1; message_id = 1 })
unfolding parse_header type_of_bits
short_header = refl

parse_message_overread_example :
    (first : Memory) × (second : Memory) × Agree 5 (of_list short_datagram) first
    × Agree 5 (of_list short_datagram) second
    × (parse_message_from_datagram first 5 0 fresh_heap
        ≡ some (parse_message_format_error, none, fresh_heap))
    × (parse_message_from_datagram second 5 0 fresh_heap
        ≡ some (parse_too_much_payload, none, mem_release (taken fresh_heap)))
parse_message_overread_example =
    parse_message_overread (of_list short_datagram) 5 0 fresh_heap
      (record { type = con; token_length = 8; code = 1; message_id = 1 }) short_header (omega arith)
      (omega arith) (λ k n. refl)

abbrev ping : List ℕ
ping = 0x40 ∷ 0 ∷ 0 ∷ 7 ∷ []

abbrev ping_message : Message
ping_message = record {
  timestamp = 5;
  type = con;
  code = 0;
  message_id = 7;
  payload_length = 0;
  payload_buf_size = 0;
  token = 0;
  options = [];
  payload = null;
}

parse_ping :
    parse_message_from_datagram (of_list ping) 4 5 fresh_heap
    ≡ some (ok, some ping_message, taken fresh_heap)
unfolding parse_message_from_datagram parse_header read_token type_of_bits
parse_ping = refl

parse_message-Accounted_example :
    Accounted 0 (ok, some ping_message, taken fresh_heap)
    ⊎ Lost (ok, some ping_message, taken fresh_heap)
parse_message-Accounted_example =
    parse_message-Accounted (of_list ping) 4 5 fresh_heap (ok, some ping_message, taken fresh_heap)
      parse_ping
