-- ===== src/Options/Bounds.antt =====
-- parse_OptionsFromRaw of coap/server/lobaro-coap/coap_options.c on any bytes: its loop ends, and
-- what stands behind the datagram, where it may read, has no influence.
use sming_coap.Base.{
  ℕ, zero, suc, ◌+◌, ◌/◌, ◌%◌, ◌≤◌, ◌<◌, ◌≡◌, refl, sym, ◌∙◌, arith, none, some, List, [], inl, inr,
  Memory, Agree, read-Agree, Option-cases, Bool-cases, ltb, ◌==◌,
}
use native.Mathlib.Decide.{dec_lt}
use sming_coap.Heap.{Heap}
use sming_coap.Options.{CoapOption}
use sming_coap.Options.Pack.{u16}
use sming_coap.Options.Loop.{Round-cases, parse_loop_done, parse_loop_return, parse_loop_continue}
use sming_coap.Options.Parse.{
  Parsed, read_field, read_head, continue, take_option, parse_round, parse_loop,
  parse_options_from_raw,
}
use sming_coap.Options.Heads.{
  read_field_bounds, field_value, read_field_end, read_field-none, read_field-Agree,
  read_head_bounds, take_option_continue,
}

module _ (n : ℕ) (mem mem' : Memory) (offset : ℕ) (same : Agree n mem mem') (below : offset < n)
    (room : n + 5 < 65536) where
  abbrev start : ℕ
  start = u16 (offset + 1)

  read_head_in :
      (d l o : ℕ)
      → read_head mem offset ≡ some (d, l, o)
      → o ≤ n
      → read_head mem' offset ≡ some (d, l, o)
  unfolding read_head
  read_head_in d l o e h = elim (Option-cases (read_field mem (mem offset / 16) start)) [
    | inl x ↦ ground arith
    | inr ((d1, o1), x) ↦ ground (
      arith,
      same offset,
      read_field_bounds mem (mem offset / 16) start d1 o1,
      read_field_bounds mem (mem offset % 16) o1 l o,
      read_field-Agree n mem mem' (mem offset / 16) start d1 o1 same,
      read_field-Agree n mem mem' (mem offset % 16) o1 l o same,
    )
  ]

  read_head_out :
      (d l o : ℕ)
      → read_head mem offset ≡ some (d, l, o)
      → (d' l' : ℕ) × (read_head mem' offset ≡ some (d', l', o))
  unfolding read_head
  read_head_out d l o e = elim (Option-cases (read_field mem (mem offset / 16) start)) [
    | inl x ↦ ground arith
    | inr ((d1, o1), x) ↦ (
      field_value mem' (mem' offset / 16) start,
      field_value mem' (mem' offset % 16) o1,
      ground (
        arith,
        same offset,
        read_field_end mem mem' (mem offset / 16) start d1 o1,
        read_field_end mem mem' (mem offset % 16) o1 l o,
      ),
    )
  ]

  read_head-none : read_head mem offset ≡ none → read_head mem' offset ≡ none
  unfolding read_head
  read_head-none e = elim (Option-cases (read_field mem (mem offset / 16) start)) [
    | inl x ↦ ground (arith, same offset, read_field-none mem mem' (mem offset / 16) start)
    | inr ((d1, o1), x) ↦ ground (
      arith,
      same offset,
      read_field_end mem mem' (mem offset / 16) start d1 o1,
      read_field-none mem mem' (mem offset % 16) o1,
    )
  ]

  take_option-Agree :
      (last : ℕ) (opts : List CoapOption) (h : Heap) (d l o : ℕ)
      → o ≤ n
      → take_option mem n last opts h (d, l, o) ≡ take_option mem' n last opts h (d, l, o)
  unfolding take_option
  take_option-Agree last opts h d l o inside = ground (arith, read-Agree mem mem' o l n same)

  take_option_outside :
      (last : ℕ) (opts : List CoapOption) (h : Heap) (d l d' l' o : ℕ)
      → n < o
      → take_option mem n last opts h (d, l, o) ≡ take_option mem' n last opts h (d', l', o)
  unfolding take_option
  take_option_outside last opts h d l d' l' o outside = ground arith

  parse_round-Agree :
      (last : ℕ) (opts : List CoapOption) (h : Heap)
      → parse_round mem n offset last opts h ≡ parse_round mem' n offset last opts h
  unfolding parse_round
  parse_round-Agree last opts h = elim (Option-cases (read_head mem offset)) [
    | inl x ↦ ground (arith, same offset, read_head-none)
    | inr ((d, l, o), x) ↦ elim (Bool-cases (ltb n o)) [
      | inl outside ↦
          let (d', l', x') = read_head_out d l o x in
          ground (arith, same offset, take_option_outside last opts h d l d' l' o)
      | inr inside ↦
          ground (arith, same offset, read_head_in d l o x, take_option-Agree last opts h d l o)
    ]
  ]

-- The rounds go forward and stay within the length.
pub parse_round_continue :
    (mem : Memory) (n offset last : ℕ) (opts : List CoapOption) (h : Heap) {o k : ℕ}
    {os : List CoapOption} {h' : Heap}
    → offset < n
    → n + 5 < 65536
    → parse_round mem n offset last opts h ≡ continue o k os h'
    → (offset < o) × (o ≤ n)
unfolding parse_round
parse_round_continue mem n offset last opts h {o} {k} {os} {h'} below room e =
    elim (Option-cases (read_head mem offset)) [
      | inl x ↦ ground arith
      | inr ((d, l, v), x) ↦ ground (
        arith,
        read_head_bounds mem offset d l v,
        take_option_continue mem n last opts h d l v {o = o} {k = k} {os = os} {h' = h'},
      )
    ]

parse_loop-Agree :
    (n : ℕ) (mem mem' : Memory)
    → Agree n mem mem'
    → n + 5 < 65536
    → (fuel offset last : ℕ) (opts : List CoapOption) (h : Heap)
    → parse_loop fuel mem n offset last opts h ≡ parse_loop fuel mem' n offset last opts h
parse_loop-Agree n mem mem' same room zero offset last opts h = unfold parse_loop in refl
parse_loop-Agree n mem mem' same room (suc fuel) offset last opts h = elim (dec_lt offset n) [
  | no done ↦
      parse_loop_done fuel mem n offset last opts h (omega arith)
      ∙ sym (parse_loop_done fuel mem' n offset last opts h (omega arith))
  | yes below ↦
      let alike = parse_round-Agree n mem mem' offset same below room last opts h in
      elim (Round-cases (parse_round mem n offset last opts h)) [
        | inl (p, e) ↦
            parse_loop_return fuel mem n offset last opts h below e
            ∙ sym (parse_loop_return fuel mem' n offset last opts h below (sym alike ∙ e))
        | inr (o, k, os, h', e) ↦
            parse_loop_continue fuel mem n offset last opts h below e
            ∙ parse_loop-Agree n mem mem' same room fuel o k os h'
            ∙ sym (parse_loop_continue fuel mem' n offset last opts h below (sym alike ∙ e))
      ]
]

parse_loop-total :
    (mem : Memory) (n : ℕ)
    → n + 5 < 65536
    → (fuel offset last : ℕ) (opts : List CoapOption) (h : Heap) → n < fuel + offset
    → offset ≤ n
    → (p : Parsed) × (parse_loop fuel mem n offset last opts h ≡ some p)
parse_loop-total mem n room zero offset last opts h enough inside = absurd (omega arith)
parse_loop-total mem n room (suc fuel) offset last opts h enough inside = elim (dec_lt offset n) [
  | no done ↦ (_, parse_loop_done fuel mem n offset last opts h (omega arith))
  | yes below ↦ elim (Round-cases (parse_round mem n offset last opts h)) [
    | inl (p, e) ↦ (p, parse_loop_return fuel mem n offset last opts h below e)
    | inr (o, k, os, h', e) ↦
        let (forward, within) = parse_round_continue mem n offset last opts h below room e in
        let (p, q) = parse_loop-total mem n room fuel o k os h' (omega arith) within in
        (p, parse_loop_continue fuel mem n offset last opts h below e ∙ q)
  ]
]

-- On any bytes, with a length below 2 ^ 16 - 5, the parser returns: its loop ends.
pub parse-total :
    (mem : Memory) (n : ℕ) (h : Heap)
    → n + 5 < 65536
    → (p : Parsed) × (parse_options_from_raw mem n [] h ≡ some p)
unfolding parse_options_from_raw
parse-total mem n h room = elim (Bool-cases (n == 0)) [
  | inl empty ↦ rw empty (_, refl)
  | inr more ↦ elim (Bool-cases (mem 0 == 0xff)) [
    | inl marker ↦ rw (more, marker) (_, refl)
    | inr option ↦
        rw (more, option) (parse_loop-total mem n room (suc n) 0 0 [] h (omega arith) (omega arith))
  ]
]

-- Two memories with the same first n bytes, for n below 2 ^ 16 - 5, are parsed alike, though the
-- code reads behind the n-th byte.
pub parse-Agree :
    (mem mem' : Memory) (n : ℕ) (h : Heap)
    → Agree n mem mem'
    → n + 5 < 65536
    → parse_options_from_raw mem n [] h ≡ parse_options_from_raw mem' n [] h
unfolding parse_options_from_raw
parse-Agree mem mem' n h same room =
    ground (arith, same 0, parse_loop-Agree n mem mem' same room (suc n) 0 0 [] h)
