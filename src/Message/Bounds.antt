-- ===== src/Message/Bounds.antt =====
-- What CoAP_ParseMessageFromDatagram of coap/server/lobaro-coap/coap_message.c reads.
use sming_coap.Base.{
  ℕ, zero, suc, ◌+◌, ◌-◌, ◌%◌, ◌≤◌, ◌<◌, ◌≡◌, ◌⊎◌, inl, inr, refl, ap, arith, Memory, Agree, List,
  [], some, none, read-Agree, Option,
}
use sming_coap.Heap.{Heap}
use sming_coap.CoapResult.{CoapResult}
use sming_coap.Options.{CoapOption}
use sming_coap.Options.Pack.{u16}
use sming_coap.Options.Parse.{Parsed, parse_options_from_raw}
use sming_coap.Options.Bounds.{parse-Agree}
use sming_coap.Options.Validity.{parse-Kept, Within}
use sming_coap.Message.Parse.{
  Header, HeaderResult, malformed, header, parse_header, read_token, after_options, from, finish,
  parse_body, parse_message_from_datagram, payload_length_of,
}

-- The datagram is long enough for the token that its first byte announces, or ends with its header.
abbrev pub TokenFits : Memory → ℕ → Type 0
TokenFits mem n = (n ≤ 4) ⊎ (4 + mem 0 % 16 ≤ n)

pub parse_header-Agree :
    (mem mem' : Memory) (n : ℕ) → Agree n mem mem' → parse_header mem n ≡ parse_header mem' n
unfolding parse_header
parse_header-Agree mem mem' n same = ground (arith, same 0, same 1, same 2, same 3)

pub parse_header_ok :
    (mem : Memory) (n : ℕ) (hd : Header)
    → parse_header mem n ≡ header hd
    → (hd.token_length ≡ mem 0 % 16) × (4 ≤ n) × (hd.token_length ≤ 8)
unfolding parse_header
parse_header_ok mem n hd e = ground arith

read_token-Agree :
    (mem mem' : Memory) (n offset k : ℕ)
    → Agree n mem mem'
    → offset + k ≤ n
    → read_token mem offset k ≡ read_token mem' offset k
unfolding read_token
read_token-Agree mem mem' n offset zero same h = refl
read_token-Agree mem mem' n offset (suc k) same h = omega (
  arith,
  same offset (omega arith),
  read_token-Agree mem mem' n (suc offset) k same (omega arith),
)

from-Agree :
    (mem mem' : Memory) (n offset : ℕ)
    → Agree n mem mem'
    → offset ≤ n
    → Agree (n - offset) (from offset mem) (from offset mem')
from-Agree mem mem' n offset same h i below = same (offset + i) (omega arith)

-- The payload's bytes end where the datagram ends.
after_options-Agree :
    (mem mem' : Memory) (n offset : ℕ) (hd : Header) (token now : ℕ) (r : CoapResult)
    (begin : Option ℕ) (opts : List CoapOption) (h : Heap)
    → Agree n mem mem'
    → offset ≤ n
    → n < 65536
    → Within (n - offset) begin
    → after_options mem n offset hd token now r begin opts h
      ≡ after_options mem' n offset hd token now r begin opts h
unfolding after_options
after_options-Agree mem mem' n offset hd token now r none opts h same inside small w = ground arith
after_options-Agree mem mem' n offset hd token now r (some b) opts h same inside small w = ground (
  arith,
  read-Agree mem mem' (offset + b) (payload_length_of n (offset + b)) n same (omega arith),
)

-- The length that is left for the options.
abbrev left : ℕ → Header → ℕ
left n hd = u16 (n + 65536 - (4 + hd.token_length))

finish-Agree :
    (mem mem' : Memory) (n : ℕ) (hd : Header) (token now : ℕ) (h : Heap) (r : Option Parsed)
    → Agree n mem mem'
    → 4 + hd.token_length ≤ n
    → n < 65536
    → parse_options_from_raw (from (4 + hd.token_length) mem) (left n hd) [] h ≡ r
    → finish mem n (4 + hd.token_length) hd token now r
      ≡ finish mem' n (4 + hd.token_length) hd token now r
finish-Agree mem mem' n hd token now h none same inside small e = refl
finish-Agree mem mem' n hd token now h (some p) same inside small e =
    let (kept, within) = parse-Kept (from (4 + hd.token_length) mem) (left n hd) h p e in
    let exact : left n hd ≡ n - (4 + hd.token_length) = omega arith in
    ap some (
      after_options-Agree mem mem' n (4 + hd.token_length) hd token now p.result p.payload_begin
        p.options p.heap same inside small (rw exact at within))

parse_body-Agree :
    (mem mem' : Memory) (n now : ℕ) (h : Heap) (hd : Header)
    → Agree n mem mem'
    → 4 ≤ n
    → (n ≡ 4) ⊎ (4 + hd.token_length ≤ n)
    → n < 65530
    → parse_body mem n now h (header hd) ≡ parse_body mem' n now h (header hd)
unfolding parse_body
parse_body-Agree mem mem' n now h hd same long (inl e) small = ground arith
parse_body-Agree mem mem' n now h hd same long (inr inside) small =
    let offset = 4 + hd.token_length in
    let exact : left n hd ≡ n - offset = omega arith in
    let options : parse_options_from_raw (from offset mem) (left n hd) [] h
        ≡ parse_options_from_raw (from offset mem') (left n hd) [] h =
      rw exact (
        parse-Agree (from offset mem) (from offset mem') (n - offset) h
          (from-Agree mem mem' n offset same inside) (omega arith)) in
    rw (read_token-Agree mem mem' n 4 hd.token_length same inside, ← options)
      (ground (
        arith,
        finish-Agree mem mem' n hd (read_token mem' 4 hd.token_length) now h
            (parse_options_from_raw (from offset mem) (left n hd) [] h) same inside (omega arith)
            refl,
      ))

pub HeaderResult-cases :
    (r : HeaderResult) → ((e : CoapResult) × (r ≡ malformed e)) ⊎ ((hd : Header) × (r ≡ header hd))
HeaderResult-cases (malformed e) = inl (e, refl)
HeaderResult-cases (header hd) = inr (hd, refl)

-- Where the datagram is long enough for its token, nothing that stands behind it has an influence
-- on the result, the message or the heap.
pub parse_message-Agree :
    (mem mem' : Memory) (n now : ℕ) (h : Heap)
    → Agree n mem mem'
    → TokenFits mem n
    → n < 65530
    → parse_message_from_datagram mem n now h ≡ parse_message_from_datagram mem' n now h
unfolding parse_message_from_datagram
parse_message-Agree mem mem' n now h same fits small =
    let head = parse_header-Agree mem mem' n same in
    elim (HeaderResult-cases (parse_header mem n)) [
      | inl (e, x) ↦ rw (← head, x) (unfold parse_body in refl)
      | inr (hd, x) ↦
          let (tl, long, most) = parse_header_ok mem n hd x in
          rw (← head, x) (parse_body-Agree mem mem' n now h hd same long (ground arith) small)
    ]
