-- ===== src/Message/Sendable.antt =====
-- The parts of a datagram that CoAP_BuildDatagram wrote, and the header read back
-- (coap/server/lobaro-coap/coap_message.c).
use sming_coap.Base.{
  ℕ, zero, suc, ◌+◌, ◌/◌, ◌%◌, ◌^◌, ◌≤◌, ◌<◌, ◌≡◌, refl, arith, Memory, Holds, List, [], ◌∷◌, ◌++◌,
  ◌≢◌, ◌⊎◌, inl, inr, length, take, All, Bool-cases, ◌==◌, if◌then◌else◌, ap, length-append,
  Holds-append_right, Holds-append_left, false, ◌∙◌,
}
use sming_coap.Options.Insert.{Ascending}
use sming_coap.Options.Pack.{pack_options_from_list}
use sming_coap.Options.PackedOption.{IsOption}
use sming_coap.Options.RoundTrip.{marked}
use sming_coap.Message.{
  Message, MessageType, con, non, ack, rst, type_bits, type_of_bits, payload_bytes, null,
  in_message, get_token_byte_count, max_payload_size, empty_code,
}
use sming_coap.Message.Build.{token_bytes, build_header, build_payload, datagram_of, build_datagram}
use sming_coap.Message.Size.{PayloadFits, length-token_bytes, write_datagram-fits}
use sming_coap.Message.Token.{get_token_byte_count_bounds}
use sming_coap.Message.Parse.{Header, header, parse_header, from}

-- The header and the token fit their fields; the code is not EMPTY and not of a reserved class.
pub record IsHeader (m : Message) : Type 0 where
  pub code_bound : m.code < 256
  pub code_nonempty : m.code ≢ 0
  pub code_class : (m.code / 32 ≢ 1) × (m.code / 32 ≢ 6) × (m.code / 32 ≢ 7)
  pub message_id_bound : m.message_id < 65536
  pub token_bound : m.token < 2 ^ 64

-- A message that the wire format can carry and the parser takes: there is an option if there is a
-- payload.
pub record IsSendable (m : Message) : Type 0 where
  pub head : IsHeader m
  pub open head use *
  pub options : All IsOption m.options
  pub sorted : Ascending 0 m.options
  pub payload_fits : PayloadFits m
  pub payload_bound : m.payload_length ≤ max_payload_size
  pub an_option : (m.options ≢ []) ⊎ (m.payload_length ≡ 0)
  pub size_bound : length (datagram_of (get_token_byte_count m.token) m) < 65000

-- The payload as the parser sees it.
abbrev pub payload_of : Message → List ℕ
payload_of m = take m.payload_length (payload_bytes m.payload)

-- What the receiver gets: the same message, with its payload in the message's own block and the
-- time of the receipt.
abbrev pub received : ℕ → Message → Message
received now m = record m {
  timestamp = now;
  payload_buf_size = m.payload_length;
  payload = if m.payload_length == 0 then null else in_message (payload_of m);
}

take_pos : (n : ℕ) (xs : List ℕ) → 0 < n → n ≤ length xs → take n xs ≢ []
take_pos zero xs h k = elim h [ ]
take_pos (suc n) [] h k = elim k [ ]
take_pos (suc n) (x ∷ xs) h k = λ e. cc

marked_nonempty : (xs : List ℕ) → xs ≢ [] → 0xff ∷ xs ≡ marked xs
marked_nonempty [] h = absurd (h refl)
marked_nonempty (x ∷ xs) h = refl

build_payload-marked : (m : Message) → PayloadFits m → build_payload m ≡ marked (payload_of m)
unfolding build_payload
build_payload-marked m fits = elim (Bool-cases (m.payload_length == 0)) [
  | inl e ↦ ground arith
  | inr e ↦ ground (
    arith,
    take_pos m.payload_length (payload_bytes m.payload) (ground arith) fits,
    marked_nonempty (payload_of m),
  )
]

type_of_bits-type_bits : (t : MessageType) → type_of_bits (type_bits t % 4) ≡ t
unfolding type_of_bits type_bits
type_of_bits-type_bits con = refl
type_of_bits-type_bits non = refl
type_of_bits-type_bits ack = refl
type_of_bits-type_bits rst = refl

type_bits-lt : (t : MessageType) → type_bits t < 4
unfolding type_bits
type_bits-lt con = omega arith
type_bits-lt non = omega arith
type_bits-lt ack = omega arith
type_bits-lt rst = omega arith

abbrev pub header_of : Message → Header
header_of m = record {
  type = m.type;
  token_length = get_token_byte_count m.token;
  code = m.code;
  message_id = m.message_id;
}

pub parse_header-build :
    (m : Message) (mem : Memory) (n : ℕ)
    → IsHeader m
    → 4 ≤ n
    → Holds mem 0 (build_header (get_token_byte_count m.token) m)
    → parse_header mem n ≡ header (header_of m)
unfolding parse_header build_header
parse_header-build m mem n w long holds =
    let count = get_token_byte_count_bounds m.token w.token_bound in
    ground (
      arith,
      w.code_bound,
      w.code_class,
      w.message_id_bound,
      type_bits-lt m.type,
      type_of_bits-type_bits m.type,
      ap type_of_bits (first_byte m mem holds count.1),
    )
  where
    first_byte :
        (m : Message) (mem : Memory)
        → Holds mem 0 (build_header (get_token_byte_count m.token) m)
        → get_token_byte_count m.token ≤ 8
        → mem 0 / 16 % 4 ≡ type_bits m.type % 4
    first_byte m mem holds le = omega (arith, holds.0, type_bits-lt m.type)

pub Holds-from :
    (mem : Memory) (offset i j : ℕ) (bs : List ℕ)
    → offset + i ≡ j
    → Holds mem j bs
    → Holds (from offset mem) i bs
Holds-from mem offset i j [] e h = tt
Holds-from mem offset i j (b ∷ bs) e (x, h) =
    (rw e x, Holds-from mem offset (suc i) (suc j) bs (omega arith) h)

-- The datagram of a message whose code is not EMPTY, part by part.
abbrev pub parts : Message → List ℕ
parts m =
    build_header (get_token_byte_count m.token) m
    ++ (token_bytes (get_token_byte_count m.token) m.token
        ++ (pack_options_from_list m.options ++ marked (payload_of m)))

pub datagram_of-parts :
    (m : Message) → PayloadFits m → datagram_of (get_token_byte_count m.token) m ≡ parts m
unfolding datagram_of
datagram_of-parts m fits = ground (arith, build_payload-marked m fits)

pub build_datagram-parts :
    (m : Message)
    → m.code ≢ 0
    → PayloadFits m
    → length (datagram_of (get_token_byte_count m.token) m) < 65536
    → (build_datagram m).0 ≡ parts m
unfolding build_datagram
build_datagram-parts m nonempty fits small =
    let other : (m.code == empty_code) ≡ false = ground (arith, nonempty) in
    rw other
      (write_datagram-fits (get_token_byte_count m.token) m fits small ∙ datagram_of-parts m fits)

-- How long it is, and where its parts stand.
pub parts-Holds :
    (m : Message) (mem : Memory)
    → Holds mem 0 (parts m)
    → let tl = get_token_byte_count m.token in
      let tail = pack_options_from_list m.options ++ marked (payload_of m) in
      (length (parts m) ≡ 4 + tl + length tail)
      × Holds mem 0 (build_header tl m)
      × Holds mem 4 (token_bytes tl m.token)
      × Holds mem (4 + tl) tail
unfolding build_header
parts-Holds m mem holds =
    let tl = get_token_byte_count m.token in
    let tail = pack_options_from_list m.options ++ marked (payload_of m) in
    let token = token_bytes tl m.token in
    let rest = Holds-append_right mem 0 4 (build_header tl m) (token ++ tail) refl holds in
    (
      omega (arith, length-append token tail, length-token_bytes tl m.token),
      Holds-append_left mem 0 (build_header tl m) (token ++ tail) holds,
      Holds-append_left mem 4 token tail rest,
      Holds-append_right mem 4 (4 + tl) token tail (omega (arith, length-token_bytes tl m.token))
          rest,
    )
