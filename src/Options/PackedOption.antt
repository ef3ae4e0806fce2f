-- ===== src/Options/PackedOption.antt =====
-- One round of parse_OptionsFromRaw on one option that pack_OptionsFromList wrote.
use sming_coap.Base.{
  ℕ, zero, suc, ◌+◌, ◌*◌, ◌≤◌, ◌<◌, ◌≡◌, refl, arith, some, List, [], ◌∷◌, ◌++◌, length,
  length-append, All, Memory, Holds, Holds-at, Holds-append_left, Holds-append_right, read-Holds,
}
use sming_coap.Heap.{Heap, Generous}
use sming_coap.Options.{CoapOption, max_option_value_size}
use sming_coap.Options.Insert.{taken, append_option_to_list_met, insert_sorted_last}
use sming_coap.Options.Pack.{u16, delta_of, field_nibble, field_bytes, pack_option}
use sming_coap.Options.Parse.{
  read_field, read_head, continue, take_option, parse_round, after_append,
}

-- An option that the wire format can carry and the parser takes.
pub record IsOption (o : CoapOption) : Type 0 where
  pub number_bound : o.number < 65536
  pub value_bound : length o.value ≤ max_option_value_size

-- The heap after a number of requests that were met.
abbrev pub grown : ℕ → Heap → Heap
grown zero h = h
grown (suc k) h = grown k (taken h)

pub field_nibble-le : (n : ℕ) → field_nibble n ≤ 14
unfolding field_nibble
field_nibble-le n = ground arith

read_field-field_nibble :
    (mem : Memory) (n offset : ℕ)
    → n < 65536
    → offset + 2 < 65536
    → Holds mem offset (field_bytes n)
    → read_field mem (field_nibble n) offset ≡ some (n, offset + length (field_bytes n))
unfolding read_field field_nibble field_bytes
read_field-field_nibble mem n offset hn ho holds = ground arith

pub All-le :
    (acc : List CoapOption) (low high : ℕ)
    → low ≤ high
    → All (λ (p : CoapOption). p.number ≤ low) acc
    → All (λ (p : CoapOption). p.number ≤ high) acc
All-le [] low high h a = tt
All-le (p ∷ ps) low high h a = (omega arith, All-le ps low high h a.1)

-- Where the value of a packed option starts.
abbrev value_start : ℕ → ℕ → CoapOption → ℕ
value_start offset last o =
    offset
    + 1
    + length (field_bytes (delta_of o.number last))
    + length (field_bytes (length o.value))

module _ (mem : Memory) (offset last : ℕ) (o : CoapOption) (rest : List ℕ) (wf : IsOption o)
    (room : offset + length (pack_option last o) + 4 < 65536)
    (holds : Holds mem offset (pack_option last o ++ rest)) where
  value_end : offset + length (pack_option last o) ≡ value_start offset last o + length o.value
  unfolding pack_option
  value_end = omega (
    arith,
    length-append (field_bytes (delta_of o.number last)) (field_bytes (length o.value) ++ o.value),
    length-append (field_bytes (length o.value)) o.value,
  )

  packed_parts :
      Holds mem (offset + 1) (field_bytes (delta_of o.number last))
      × Holds mem
          (offset + 1 + length (field_bytes (delta_of o.number last)))
          (field_bytes (length o.value))
      × Holds mem (value_start offset last o) o.value
      × (mem offset ≡ field_nibble (delta_of o.number last) * 16 + field_nibble (length o.value))
  unfolding pack_option
  packed_parts =
      let d = field_bytes (delta_of o.number last) in
      let l = field_bytes (length o.value) in
      let front = Holds-append_left mem (suc offset) (d ++ (l ++ o.value)) rest holds.1 in
      let back =
        Holds-append_right mem (suc offset) (offset + 1 + length d) d (l ++ o.value) (omega arith)
          front in
      (
        Holds-at mem (suc offset) (offset + 1) d (omega arith)
            (Holds-append_left mem (suc offset) d (l ++ o.value) front),
        Holds-append_left mem (offset + 1 + length d) l o.value back,
        Holds-append_right mem (offset + 1 + length d) (value_start offset last o) l o.value refl
            back,
        holds.0,
      )

  read_head-packed :
      read_head mem offset
      ≡ some (delta_of o.number last, length o.value, value_start offset last o)
  unfolding read_head
  read_head-packed =
      let parts = packed_parts in
      ground (
        arith,
        field_nibble-le (delta_of o.number last),
        field_nibble-le (length o.value),
        value_end,
        wf.value_bound,
        read_field-field_nibble mem (delta_of o.number last) (offset + 1) (omega arith)
            (omega (arith, value_end)) parts.0,
        read_field-field_nibble mem (length o.value)
            (offset + 1 + length (field_bytes (delta_of o.number last)))
            (omega (arith, wf.value_bound)) (omega (arith, value_end)) parts.1,
      )

  take_option-packed :
      (n : ℕ) (acc : List CoapOption) (h : Heap)
      → offset + length (pack_option last o) ≤ n
      → last ≤ o.number
      → All (λ (p : CoapOption). p.number ≤ last) acc
      → Generous h
      → take_option mem n last acc h
          (delta_of o.number last, length o.value, value_start offset last o)
        ≡ continue (offset + length (pack_option last o)) o.number (acc ++ (o ∷ [])) (taken h)
  unfolding take_option after_append
  take_option-packed n acc h fits ascending below met =
      rw
        (
          take_number,
          read-Holds mem (value_start offset last o) o.value packed_parts.2,
          append_option_to_list_met o.number o.value h acc (met _ _),
          insert_sorted_last o acc (All-le acc last o.number ascending below),
        )
        (ground (arith, wf.value_bound, value_end))
    where
      take_number : u16 (delta_of o.number last + last) ≡ o.number
      take_number = omega (arith, wf.number_bound)

  pub parse_round-packed :
      (n : ℕ) (acc : List CoapOption) (h : Heap)
      → offset + length (pack_option last o) ≤ n
      → last ≤ o.number
      → All (λ (p : CoapOption). p.number ≤ last) acc
      → Generous h
      → parse_round mem n offset last acc h
        ≡ continue (offset + length (pack_option last o)) o.number (acc ++ (o ∷ [])) (taken h)
  unfolding parse_round
  parse_round-packed n acc h fits ascending below met = rw read_head-packed (
      ground (
        arith,
        packed_parts.3,
        field_nibble-le (delta_of o.number last),
        field_nibble-le (length o.value),
        take_option-packed n acc h fits ascending below met,
      ))

pub pack_option-pos : (last : ℕ) (o : CoapOption) → 0 < length (pack_option last o)
unfolding pack_option
pack_option-pos last o = omega arith
