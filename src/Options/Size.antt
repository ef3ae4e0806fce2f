-- ===== src/Options/Size.antt =====
-- CoAP_NeededMem4PackOptions counts what pack_OptionsFromList writes.
use sming_coap.Base.{ℕ, ◌+◌, ◌≡◌, refl, arith, List, [], ◌∷◌, ◌++◌, length, length-append}
use sming_coap.Options.{CoapOption}
use sming_coap.Options.Pack.{
  u16, delta_of, field_bytes, field_size, pack_option, pack_options, pack_options_from_list,
  bytes_written, needed_mem, option_end, needed_mem_4_pack_options,
}

field_size-length : (n : ℕ) → length (field_bytes n) ≡ field_size n
unfolding field_bytes field_size
field_size-length n = ground arith

pub length-pack_option :
    (last : ℕ) (o : CoapOption)
    → length (pack_option last o)
      ≡ 1 + field_size (delta_of o.number last) + field_size (length o.value) + length o.value
unfolding pack_option
length-pack_option last o = omega (
  arith,
  length-append (field_bytes (delta_of o.number last)) (field_bytes (length o.value) ++ o.value),
  length-append (field_bytes (length o.value)) o.value,
  field_size-length (delta_of o.number last),
  field_size-length (length o.value),
)

needed_mem-length :
    (offset last : ℕ) (opts : List CoapOption)
    → u16 (needed_mem offset last opts) ≡ u16 (offset + length (pack_options last opts))
unfolding needed_mem pack_options
needed_mem-length offset last [] = omega arith
needed_mem-length offset last (o ∷ os) = omega (
  arith,
  needed_mem-length (option_end offset last o) o.number os,
  length-append (pack_option last o) (pack_options o.number os),
  length-pack_option last o,
)

needed_mem-u16 :
    (offset last : ℕ) (opts : List CoapOption)
    → u16 offset ≡ offset
    → u16 (needed_mem offset last opts) ≡ needed_mem offset last opts
unfolding needed_mem
needed_mem-u16 offset last [] h = h
needed_mem-u16 offset last (o ∷ os) h =
    needed_mem-u16 (option_end offset last o) o.number os (omega arith)

-- For every list of options the size that is computed beforehand is the number of bytes that the
-- packing reports, both as uint16_t.
pub needed_mem-bytes_written :
    (opts : List CoapOption) → needed_mem_4_pack_options opts ≡ bytes_written opts
unfolding needed_mem_4_pack_options pack_options_from_list
needed_mem-bytes_written opts =
    omega (arith, needed_mem-length 0 0 opts, needed_mem-u16 0 0 opts refl)
