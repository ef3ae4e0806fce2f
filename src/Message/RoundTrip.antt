-- ===== src/Message/RoundTrip.antt =====
-- CoAP_ParseMessageFromDatagram reads back what CoAP_BuildDatagram wrote
-- (coap/server/lobaro-coap/coap_message.c).
use sming_coap.Message.Sendable.{
  IsSendable, payload_of, parts, received, header_of, parts-Holds, build_datagram-parts, Holds-from,
  parse_header-build, datagram_of-parts,
}
use native.Mathlib.Decide.{dec_lt}
use sming_coap.Base.{
  ℕ, zero, suc, ◌+◌, ◌≤◌, ◌<◌, ◌≡◌, refl, arith, Memory, Holds, List, [], ◌∷◌, ◌++◌, ◌≢◌, ◌⊎◌, inl,
  inr, length, some, ap, sym, ◌∙◌, length-append, length-take, Holds-append_right, read, read-Holds,
  Holds-at, ◌-◌,
}
use sming_coap.Heap.{Heap, Generous}
use sming_coap.CoapResult.{ok}
use sming_coap.Options.{CoapOption}
use sming_coap.Options.Insert.{taken}
use sming_coap.Options.Pack.{pack_options_from_list, u16}
use sming_coap.Options.PackedOption.{grown}
use sming_coap.Options.RoundTrip.{marked, payload_start, parse-pack, pack_options_from_list-length}
use sming_coap.Message.{Message, payload_bytes, get_token_byte_count, sizeof_message}
use sming_coap.Message.Build.{token_bytes, build_datagram}
use sming_coap.Message.Token.{get_token_byte_count_bounds, read_token-token_bytes}
use sming_coap.Message.Parse.{
  header, copy_message, after_options, from, parse_body, parse_message_from_datagram,
  payload_length_of,
}

grown-Generous : (k : ℕ) (h : Heap) → Generous h → Generous (grown k h)
grown-Generous zero h g = g
grown-Generous (suc k) h g = grown-Generous k (taken h) g

marked_longer : (xs : List ℕ) → length xs ≤ length (marked xs)
marked_longer [] = omega arith
marked_longer (x ∷ xs) = omega arith

length-zero : (opts : List CoapOption) → length opts ≤ 0 → opts ≡ []
length-zero [] h = refl
length-zero (o ∷ os) h = absurd (omega arith)

token_zero : (token : ℕ) → get_token_byte_count token ≡ 0 → 0 ≡ token
unfolding get_token_byte_count
token_zero token e = ground arith

module _ (m : Message) (w : IsSendable m) (now : ℕ) where
  abbrev tl : ℕ
  tl = get_token_byte_count m.token

  abbrev packed : List ℕ
  packed = pack_options_from_list m.options

  copy_message-header_of :
      (h : Heap)
      → Generous h
      → copy_message (header_of m) m.token m.options (payload_of m) m.payload_length now h
        ≡ (ok, some (received now m), taken h)
  unfolding copy_message
  copy_message-header_of h g = ground (arith, g h.requests (sizeof_message + m.payload_length))

  -- With no options and no payload the message is copied at once.
  copy_message_bare :
      (h : Heap) (token : ℕ)
      → Generous h
      → token ≡ m.token
      → length (packed ++ marked (payload_of m)) ≡ 0
      → copy_message (header_of m) token [] [] 0 now h
        ≡ (ok, some (received now m), taken (grown (length m.options) h))
  unfolding copy_message
  copy_message_bare h token g same bare =
      let none_packed : m.options ≡ [] = length-zero m.options (
        omega (
          arith,
          pack_options_from_list-length m.options,
          length-append packed (marked (payload_of m)),
        )) in
      let no_payload : m.payload_length ≡ 0 = omega (
        arith,
        length-append packed (marked (payload_of m)),
        marked_longer (payload_of m),
        length-take m.payload_length (payload_bytes m.payload) w.payload_fits,
      ) in
      ground (arith, g h.requests (sizeof_message + 0))

  after_options-packed :
      (mem : Memory) (n : ℕ) (h : Heap)
      → n ≡ 4 + tl + length (packed ++ marked (payload_of m))
      → Holds mem (4 + tl) (packed ++ marked (payload_of m))
      → Generous h
      → after_options mem n
          (4 + tl)
          (header_of m)
          m.token
          now
          ok
          (payload_start (length packed) (payload_of m))
          m.options
          h
        ≡ (ok, some (received now m), taken h)
  unfolding after_options
  after_options-packed mem n h size holds g = at_payload (payload_of m) refl (
      Holds-append_right mem (4 + tl) (4 + tl + length packed) packed (marked (payload_of m)) refl
        holds)
    where
      size_of : m.payload_length ≡ length (payload_of m)
      size_of = omega (arith, length-take m.payload_length (payload_bytes m.payload) w.payload_fits)

      at_payload :
          (bytes : List ℕ)
          → payload_of m ≡ bytes
          → Holds mem (4 + tl + length packed) (marked bytes)
          → after_options mem n
              (4 + tl)
              (header_of m)
              m.token
              now
              ok
              (payload_start (length packed) bytes)
              m.options
              h
            ≡ (ok, some (received now m), taken h)
      at_payload [] e here =
          let nothing : m.payload_length ≡ 0 = size_of ∙ ap length e in
          cc (copy_message-header_of h g, nothing)
      at_payload (b ∷ bs) e here =
          let place = 4 + tl + (length packed + 1) in
          let count : length (b ∷ bs) ≡ m.payload_length = sym (size_of ∙ ap length e) in
          let total : length (marked (payload_of m)) ≡ suc (length (b ∷ bs)) =
            ap (λ (xs : List ℕ). length (marked xs)) e in
          let left : payload_length_of n place ≡ length (b ∷ bs) =
            omega (arith, length-append packed (marked (payload_of m)), w.payload_bound) in
          let same : read mem place (length (b ∷ bs)) ≡ b ∷ bs =
            read-Holds mem place (b ∷ bs)
              (Holds-at mem (suc (4 + tl + length packed)) place (b ∷ bs) (omega arith) here.1) in
          ground (arith, copy_message-header_of h g, w.payload_bound)

  parse_body-packed :
      (mem : Memory) (n : ℕ) (h : Heap)
      → n ≡ 4 + tl + length (packed ++ marked (payload_of m))
      → n < 65000
      → Holds mem 4 (token_bytes tl m.token)
      → Holds mem (4 + tl) (packed ++ marked (payload_of m))
      → Generous h
      → parse_body mem n now h (header (header_of m))
        ≡ some (ok, some (received now m), taken (grown (length m.options) h))
  unfolding parse_body
  parse_body-packed mem n h size small token_held rest_held g =
      let (wide, at_most) = get_token_byte_count_bounds m.token w.token_bound in
      let token_read = read_token-token_bytes tl m.token 4 mem wide token_held in
      let length_left : u16 (n + 65536 - (4 + tl)) ≡ length (packed ++ marked (payload_of m)) =
        omega arith in
      let options_read =
        parse-pack m.options (payload_of m) (from (4 + tl) mem)
          (length (packed ++ marked (payload_of m))) h w.options w.sorted no_bare_payload refl
          (omega arith)
          (Holds-from mem (4 + tl) 0 (4 + tl) (packed ++ marked (payload_of m)) (omega arith)
            rest_held)
          g in
      let done =
        after_options-packed mem n (grown (length m.options) h) size rest_held
          (grown-Generous (length m.options) h g) in
      elim (dec_lt 0 (length (packed ++ marked (payload_of m)))) [
        | yes more ↦ rw (token_read, length_left, options_read) (ground (arith, done))
        | no bare ↦ rw token_read (
            ground (
              arith,
              token_zero m.token,
              copy_message_bare h 0 g,
              copy_message_bare h m.token g refl,
            ))
      ]
    where
      no_bare_payload : (m.options ≢ []) ⊎ (payload_of m ≡ [])
      no_bare_payload = elim w.an_option [ inl o ↦ inl o | inr z ↦ inr (rw z) ]

parse-parts :
    (m : Message) (mem : Memory) (now : ℕ) (h : Heap)
    → IsSendable m
    → length (parts m) < 65000
    → Holds mem 0 (parts m)
    → Generous h
    → parse_message_from_datagram mem (length (parts m)) now h
      ≡ some (ok, some (received now m), taken (grown (length m.options) h))
unfolding parse_message_from_datagram
parse-parts m mem now h w small holds g =
    let (size, head, token, tail) = parts-Holds m mem holds in
    rw (parse_header-build m mem (length (parts m)) w.head (omega arith) head)
      (parse_body-packed m w now mem (length (parts m)) h size small token tail g)

-- A message that can be sent is parsed back from its datagram: type, code, message id, token,
-- options in their order, and payload. It holds in any memory that begins with the datagram, where
-- every request for memory is met; one block is then held for each option and one for the message.
pub parse-build :
    (m : Message) (mem : Memory) (now : ℕ) (h : Heap)
    → IsSendable m
    → Holds mem 0 (build_datagram m).0
    → Generous h
    → parse_message_from_datagram mem (length (build_datagram m).0) now h
      ≡ some (ok, some (received now m), taken (grown (length m.options) h))
parse-build m mem now h w holds g =
    let same =
      build_datagram-parts m w.code_nonempty w.payload_fits (omega (arith, w.size_bound)) in
    rw same (
      parse-parts m mem now h w (rw (datagram_of-parts m w.payload_fits) at w.size_bound)
        (rw same at holds) g)
