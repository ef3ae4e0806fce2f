-- ===== src/Message/Build.antt =====
-- CoAP_GetRawSizeOfMessage and CoAP_BuildDatagram of
-- coap/server/lobaro-coap/coap_message.c. The destination is written from its start on, and what is
-- written is a list; where the offset, a uint16_t, wraps around, bytes are overwritten.
use sming_coap.Base.{
  ℕ, zero, suc, ◌+◌, ◌*◌, ◌/◌, ◌%◌, List, [], ◌∷◌, ◌++◌, ◌==◌, if◌then◌else◌, take, drop, length,
}
use sming_coap.Options.Pack.{pack_options_from_list, needed_mem_4_pack_options, bytes_written, u16}
use sming_coap.Message.{
  Message, empty_code, coap_version, type_bits, get_token_byte_count, payload_bytes,
}

unfoldable pub get_raw_size_of_message : Message → ℕ
get_raw_size_of_message m =
    4
    + needed_mem_4_pack_options m.options
    + (if m.code == empty_code
        then 0
        else (if m.payload_length == 0 then 0 else m.payload_length + 1)
          + get_token_byte_count m.token)

-- `(Token64 >> 8 * i) & 0xff` for i from 0 on.
unfoldable pub token_bytes : ℕ → ℕ → List ℕ
token_bytes zero token = []
token_bytes (suc n) token = (token % 256) ∷ token_bytes n (token / 256)

unfoldable pub build_header : ℕ → Message → List ℕ
build_header token_length m =
    (coap_version % 4 * 64 + type_bits m.type % 4 * 16 + token_length % 16)
    ∷ (m.code % 256)
    ∷ (m.message_id / 256 % 256)
    ∷ (m.message_id % 256)
    ∷ []

-- The marker and the payload where no offset wraps around.
unfoldable pub build_payload : Message → List ℕ
build_payload m =
    if m.payload_length == 0 then [] else 0xff ∷ take m.payload_length (payload_bytes m.payload)

-- The datagram where no offset wraps around.
unfoldable pub datagram_of : ℕ → Message → List ℕ
datagram_of token_length m =
    build_header token_length m
    ++ (token_bytes token_length m.token ++ (pack_options_from_list m.options ++ build_payload m))

-- The bytes of an array from an offset on are overwritten.
unfoldable pub write_at : ℕ → List ℕ → List ℕ → List ℕ
write_at offset bytes dest = take offset dest ++ (bytes ++ drop (offset + length bytes) dest)

-- The payload's marker and its bytes behind the options, if it has any, and the size of the datagram.
-- The offset is a uint16_t.
unfoldable pub write_payload : Message → List ℕ → ℕ → List ℕ × ℕ
unfolding write_at
write_payload m dest offset = if m.payload_length == 0 then (dest, offset) else (
  write_at (u16 (offset + 1)) (take m.payload_length (payload_bytes m.payload))
      (write_at offset (0xff ∷ []) dest),
  u16 (u16 (offset + 1) + m.payload_length),
)

unfoldable pub write_datagram : ℕ → Message → List ℕ × ℕ
unfolding build_header token_bytes write_payload
write_datagram token_length m =
    write_payload m
      (build_header token_length m
        ++ (token_bytes token_length m.token ++ pack_options_from_list m.options))
      (u16 (4 + token_length + bytes_written m.options))

-- The array, the message, whose payload the source cuts off if the code is EMPTY, and the size that
-- is reported.
unfoldable pub build_datagram : Message → List ℕ × Message × ℕ
unfolding write_datagram
build_datagram m =
    if m.code == empty_code
    then (let m' = record m { payload_length = 0 } in let d = write_datagram 0 m' in (d.0, m', d.1))
    else (let d = write_datagram (get_token_byte_count m.token) m in (d.0, m, d.1))
