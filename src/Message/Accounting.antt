-- ===== src/Message/Accounting.antt =====
-- CoAP_ParseMessageFromDatagram of coap/server/lobaro-coap/coap_message.c returns, and what it
-- holds of the heap when it does.
use sming_coap.Base.{
  ℕ, suc, ◌+◌, ◌-◌, ◌≤◌, ◌<◌, ◌≡◌, ◌≢◌, ◌⊎◌, inl, inr, refl, arith, Memory, List, [], ◌∷◌, some,
  none, Option, length, Bool-cases, ltb, read,
}
use native.Mathlib.Decide.{ℕ_discrete}
use sming_coap.Heap.{Heap, mem_release}
use sming_coap.CoapResult.{CoapResult, ok, err_out_of_memory}
use sming_coap.Options.{CoapOption, free_option_list}
use sming_coap.Options.Insert.{IsSorted}
use sming_coap.Options.Pack.{u16}
use sming_coap.Options.Parse.{Parsed, parse_options_from_raw}
use sming_coap.Options.Bounds.{parse-total}
use sming_coap.Options.Validity.{parse-Kept, Kept, Holding}
use sming_coap.Message.{sizeof_message, max_payload_size}
use sming_coap.Message.Bounds.{TokenFits, HeaderResult-cases, parse_header_ok}
use sming_coap.Message.Parse.{
  Header, malformed, header, parse_header, read_token, copy_message, after_options, from, finish,
  parse_body, parse_message_from_datagram, payload_length_of, MessageState,
}

-- Every option's block is released, one after the other.
pub free_option_list-live :
    (opts : List CoapOption) (h : Heap) → (free_option_list opts h).live ≡ h.live - length opts
unfolding free_option_list
free_option_list-live [] h = omega arith
free_option_list-live (o ∷ []) h = omega arith
free_option_list-live (o ∷ (p ∷ os)) h =
    omega (arith, free_option_list-live (o ∷ os) (mem_release h))

-- With a message, the result is COAP_OK, the options are sorted, and one block more than before is
-- held for the message and for each option. Without one, the result is another and no block more is
-- held.
abbrev pub Accounted : ℕ → MessageState → Type 0
Accounted live (r, none, h) = (r ≢ ok) × (h.live ≡ live)
Accounted live (r, some m, h) =
    (r ≡ ok) × IsSorted m.options × (h.live ≡ live + length m.options + 1)

copy_message-Accounted :
    (hd : Header) (token : ℕ) (opts : List CoapOption) (payload : List ℕ) (size now live : ℕ)
    (h : Heap)
    → Holding live opts h
    → Accounted live (copy_message hd token opts payload size now h)
unfolding copy_message
copy_message-Accounted hd token opts payload size now live h v =
    elim (Bool-cases (h.verdict h.requests (sizeof_message + size))) [
      | inl met ↦ ground (arith, v.sorted)
      | inr refused ↦
          ground (arith, free_option_list-live opts (record h { requests = suc h.requests }))
    ]

after_options-Accounted :
    (mem : Memory) (n offset : ℕ) (hd : Header) (token now live : ℕ) (r : CoapResult)
    (begin : Option ℕ) (opts : List CoapOption) (h : Heap)
    → Holding live opts h
    → Accounted live (after_options mem n offset hd token now r begin opts h)
unfolding after_options
after_options-Accounted mem n offset hd token now live ok none opts h v =
    copy_message-Accounted hd token opts [] 0 now live h v
after_options-Accounted mem n offset hd token now live ok (some b) opts h v =
    elim (Bool-cases (ltb max_payload_size (payload_length_of n (offset + b)))) [
      | inl much ↦ ground (arith, free_option_list-live opts h)
      | inr fits ↦ ground (
        arith,
        copy_message-Accounted hd token opts
            (read mem (offset + b) (payload_length_of n (offset + b)))
            (payload_length_of n (offset + b)) now live h v,
      )
    ]
after_options-Accounted mem n offset hd token now live r begin opts h v =
    ground (arith, free_option_list-live opts h)

-- Memory ran out, and there is no message.
abbrev pub Lost : MessageState → Type 0
Lost (r, m, h) = (r ≡ err_out_of_memory) × (m ≡ none)

after_options-Kept :
    (mem : Memory) (n offset : ℕ) (hd : Header) (token now live : ℕ) (p : Parsed)
    → Kept live p
    → let s = after_options mem n offset hd token now p.result p.payload_begin p.options p.heap in
      Accounted live s ⊎ Lost s
after_options-Kept mem n offset hd token now live p (inl held) = inl (
    after_options-Accounted mem n offset hd token now live p.result p.payload_begin p.options p.heap
      held)
after_options-Kept mem n offset hd token now live p (inr (r, none_left)) =
    unfold after_options in inr (ground arith)

finish-Accounted :
    (mem : Memory) (n offset : ℕ) (hd : Header) (token now k : ℕ) (h : Heap) (r : Option Parsed)
    (s : MessageState)
    → parse_options_from_raw (from offset mem) k [] h ≡ r
    → finish mem n offset hd token now r ≡ some s
    → Accounted h.live s ⊎ Lost s
finish-Accounted mem n offset hd token now k h none s e q = cc
finish-Accounted mem n offset hd token now k h (some p) s e q = ground (
  arith,
  after_options-Kept mem n offset hd token now h.live p (parse-Kept (from offset mem) k h p e).0,
)

parse_header_malformed :
    (mem : Memory) (n : ℕ) (r : CoapResult) → parse_header mem n ≡ malformed r → r ≢ ok
unfolding parse_header
parse_header_malformed mem n r e = ground arith

none_held : (h : Heap) → Holding h.live [] h
none_held h = record { sorted = tt; options = tt; blocks = omega arith }

parse_body-Accounted :
    (mem : Memory) (n now : ℕ) (h : Heap) (hd : Header) (s : MessageState)
    → parse_body mem n now h (header hd) ≡ some s
    → Accounted h.live s ⊎ Lost s
unfolding parse_body
parse_body-Accounted mem n now h hd s e =
    let offset = 4 + hd.token_length in
    let k = u16 (n + 65536 - offset) in
    let token = read_token mem 4 hd.token_length in
    elim (ℕ_discrete n 4) [
      | yes four ↦ ground (arith, copy_message-Accounted hd 0 [] [] 0 now h.live h (none_held h))
      | no other ↦ elim (ℕ_discrete n offset) [
        | yes bare ↦
            ground (arith, copy_message-Accounted hd token [] [] 0 now h.live h (none_held h))
        | no more ↦
            finish-Accounted mem n offset hd token now k h
              (parse_options_from_raw (from offset mem) k [] h) s refl (ground arith)
      ]
    ]

parse_body-total :
    (mem : Memory) (n now : ℕ) (h : Heap) (hd : Header)
    → (n ≤ 4) ⊎ (4 + hd.token_length ≤ n)
    → 4 ≤ n
    → n < 65530
    → (s : MessageState) × (parse_body mem n now h (header hd) ≡ some s)
unfolding parse_body
parse_body-total mem n now h hd (inl short) long small =
    (copy_message hd 0 [] [] 0 now h, ground arith)
parse_body-total mem n now h hd (inr fits) long small =
    let offset = 4 + hd.token_length in
    let token = read_token mem 4 hd.token_length in
    let (p, e) = parse-total (from offset mem) (u16 (n + 65536 - offset)) h (omega arith) in
    elim (ℕ_discrete n 4) [
      | yes four ↦ (copy_message hd 0 [] [] 0 now h, ground arith)
      | no other ↦ elim (ℕ_discrete n offset) [
        | yes bare ↦ (copy_message hd token [] [] 0 now h, ground arith)
        | no more ↦ (
          after_options mem n offset hd token now p.result p.payload_begin p.options p.heap,
          ground arith,
        )
      ]
    ]

-- Whatever the bytes, the heap and the result are: a message comes with the result COAP_OK, its
-- options are sorted, and exactly one block more than before is held for it and for each option;
-- without a message no block more is held, or memory ran out.
pub parse_message-Accounted :
    (mem : Memory) (n now : ℕ) (h : Heap) (s : MessageState)
    → parse_message_from_datagram mem n now h ≡ some s
    → Accounted h.live s ⊎ Lost s
unfolding parse_message_from_datagram
parse_message-Accounted mem n now h s e = elim (HeaderResult-cases (parse_header mem n)) [
  | inl (r, x) ↦ unfold parse_body in ground (arith, parse_header_malformed mem n r x)
  | inr (hd, x) ↦ parse_body-Accounted mem n now h hd s (rw x at e)
]

-- On every datagram below 65530 bytes that is long enough for its token, the parser returns.
pub parse_message-total :
    (mem : Memory) (n now : ℕ) (h : Heap)
    → TokenFits mem n
    → n < 65530
    → (s : MessageState) × (parse_message_from_datagram mem n now h ≡ some s)
unfolding parse_message_from_datagram
parse_message-total mem n now h fits small = elim (HeaderResult-cases (parse_header mem n)) [
  | inl (r, x) ↦ rw x (unfold parse_body in ((r, none, h), refl))
  | inr (hd, x) ↦
      let (tl, long, most) = parse_header_ok mem n hd x in
      rw x (parse_body-total mem n now h hd (ground arith) long small)
]
