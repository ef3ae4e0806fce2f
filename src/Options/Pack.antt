-- ===== src/Options/Pack.antt =====
-- pack_OptionsFromList and CoAP_NeededMem4PackOptions of
-- coap/server/lobaro-coap/coap_options.c. The destination is written from its start on, one byte
-- behind the other, so what is written is a list; a uint16_t wraps at 2 ^ 16.
use sming_coap.Base.{ℕ, ◌+◌, ◌-◌, ◌*◌, ◌/◌, ◌%◌, List, [], ◌∷◌, ◌++◌, ltb, if◌then◌else◌, length}
use sming_coap.Options.{CoapOption}

abbrev pub u16 : ℕ → ℕ
u16 n = n % 65536

-- `pOption->Number - lastOptNumber` as a uint16_t.
abbrev pub delta_of : ℕ → ℕ → ℕ
delta_of number last = u16 (number + 65536 - last)

-- The four bits of the option's first byte that stand for a delta or a length.
unfoldable pub field_nibble : ℕ → ℕ
field_nibble n = if ltb n 13 then n else if ltb n 269 then 13 else 14

-- The extended bytes of a delta or a length, each cast to uint8_t as the source casts it.
unfoldable pub field_bytes : ℕ → List ℕ
field_bytes n =
    if ltb n 13
    then []
    else if ltb n 269
    then ((n % 256 + 256 - 13) % 256) ∷ []
    else ((n - 269) / 256 % 256) ∷ (((n - 269) % 256) ∷ [])

unfoldable pub pack_option : ℕ → CoapOption → List ℕ
pack_option last o =
    let delta = delta_of o.number last in
    (field_nibble delta * 16 + field_nibble (length o.value))
    ∷ (field_bytes delta ++ (field_bytes (length o.value) ++ o.value))

unfoldable pub pack_options : ℕ → List CoapOption → List ℕ
pack_options last [] = []
pack_options last (o ∷ os) = pack_option last o ++ pack_options o.number os

unfoldable pub pack_options_from_list : List CoapOption → List ℕ
pack_options_from_list opts = pack_options 0 opts

-- `*pBytesWritten`, a uint16_t.
abbrev pub bytes_written : List CoapOption → ℕ
bytes_written opts = u16 (length (pack_options_from_list opts))

-- How many extended bytes a delta or a length takes.
unfoldable pub field_size : ℕ → ℕ
field_size n = if ltb n 13 then 0 else if ltb n 269 then 1 else 2

-- The offset behind an option that starts at an offset.
abbrev pub option_end : ℕ → ℕ → CoapOption → ℕ
option_end offset last o = u16 (
    offset + 1 + field_size (delta_of o.number last) + field_size (length o.value) + length o.value)

unfoldable pub needed_mem : ℕ → ℕ → List CoapOption → ℕ
needed_mem offset last [] = offset
needed_mem offset last (o ∷ os) = needed_mem (option_end offset last o) o.number os

unfoldable pub needed_mem_4_pack_options : List CoapOption → ℕ
unfolding needed_mem
needed_mem_4_pack_options opts = needed_mem 0 0 opts
