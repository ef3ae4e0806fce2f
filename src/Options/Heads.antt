-- ===== src/Options/Heads.antt =====
-- The head of an option in parse_OptionsFromRaw of coap/server/lobaro-coap/coap_options.c.
use sming_coap.Base.{
  ℕ, ◌+◌, ◌*◌, ◌/◌, ◌%◌, ◌≤◌, ◌<◌, ◌≡◌, arith, none, some, List, inl, inr, Memory, Agree, read,
  Option-cases, if◌then◌else◌, ◌==◌,
}
use sming_coap.Heap.{Heap}
use sming_coap.CoapResult.{ok}
use sming_coap.Options.{CoapOption, ListState, append_option_to_list}
use sming_coap.Options.Pack.{u16}
use sming_coap.Options.Parse.{read_field, read_head, continue, take_option, after_append}

pub read_field_bounds :
    (mem : Memory) (field offset v o : ℕ)
    → offset + 2 < 65536
    → read_field mem field offset ≡ some (v, o)
    → (offset ≤ o) × (o ≤ offset + 2)
unfolding read_field
read_field_bounds mem field offset v o h e = ground arith

pub field_value : Memory → ℕ → ℕ → ℕ
field_value mem field offset =
    if field == 13
    then mem offset + 13
    else if field == 14
    then u16 (mem offset * 256 + mem (offset + 1) + 269)
    else field

-- Where a field ends does not depend on the memory.
pub read_field_end :
    (mem mem' : Memory) (field offset v o : ℕ)
    → read_field mem field offset ≡ some (v, o)
    → read_field mem' field offset ≡ some (field_value mem' field offset, o)
unfolding read_field field_value
read_field_end mem mem' field offset v o e = ground arith

pub read_field-none :
    (mem mem' : Memory) (field offset : ℕ)
    → read_field mem field offset ≡ none
    → read_field mem' field offset ≡ none
unfolding read_field
read_field-none mem mem' field offset e = ground arith

pub read_field-Agree :
    (n : ℕ) (mem mem' : Memory) (field offset v o : ℕ)
    → Agree n mem mem'
    → offset + 2 < 65536
    → read_field mem field offset ≡ some (v, o)
    → o ≤ n
    → read_field mem' field offset ≡ some (v, o)
unfolding read_field
read_field-Agree n mem mem' field offset v o a h e below = ground (arith, a offset, a (offset + 1))

pub read_head_bounds :
    (mem : Memory) (offset d l o : ℕ)
    → offset + 5 < 65536
    → read_head mem offset ≡ some (d, l, o)
    → (offset < o) × (o ≤ offset + 5)
unfolding read_head
read_head_bounds mem offset d l o h e =
    elim (Option-cases (read_field mem (mem offset / 16) (offset + 1))) [
      | inl x ↦ ground arith
      | inr ((d', o1), x) ↦ ground (
        arith,
        read_field_bounds mem (mem offset / 16) (offset + 1) d' o1,
        read_field_bounds mem (mem offset % 16) o1 l o,
      )
    ]

pub after_append_continue :
    (offset number : ℕ) (s : ListState) {o l : ℕ} {os : List CoapOption} {h : Heap}
    → after_append offset number s ≡ continue o l os h
    → (o ≡ offset) × (l ≡ number) × (s ≡ (ok, os, h))
unfolding after_append
after_append_continue offset number (r, opts, h') e = ground arith

pub take_option_continue :
    (mem : Memory) (n last : ℕ) (opts : List CoapOption) (h : Heap) (d l offset : ℕ) {o k : ℕ}
    {os : List CoapOption} {h' : Heap}
    → n < 65536
    → take_option mem n last opts h (d, l, offset) ≡ continue o k os h'
    → (o ≡ offset + l) × (o ≤ n)
unfolding take_option
take_option_continue mem n last opts h d l offset r e = ground (
  arith,
  after_append_continue (u16 (offset + l)) (u16 (d + last))
      (append_option_to_list opts (u16 (d + last)) (read mem offset l) h),
)
