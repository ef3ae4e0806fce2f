-- ===== src/Message/Size.antt =====
-- CoAP_SendMsg allocates what CoAP_GetRawSizeOfMessage computes and CoAP_BuildDatagram fills it.
use sming_coap.Base.{
  ℕ, zero, suc, ◌+◌, ◌≤◌, ◌<◌, ◌≡◌, refl, arith, length, length-append, ◌==◌, ◌/◌, if◌then◌else◌,
  length-take, ◌++◌, List, [], ◌∷◌, leb, take_all, take, drop, ap, sym, ◌∙◌, append-nil,
  append_assoc, Bool-cases, inl, inr, ◌⊎◌, ◌%◌,
}
use mathlib.Core.Path.{subst}
use sming_coap.Options.Pack.{pack_options_from_list, u16, bytes_written}
use sming_coap.Options.Size.{needed_mem-bytes_written}
use sming_coap.Message.{Message, empty_code, payload_bytes, get_token_byte_count}
use sming_coap.Message.Build.{
  get_raw_size_of_message, token_bytes, build_header, build_payload, datagram_of, build_datagram,
  write_at, write_payload, write_datagram,
}

-- The payload's buffer holds at least as many bytes as the payload has.
abbrev pub PayloadFits : Message → Type 0
PayloadFits m = m.payload_length ≤ length (payload_bytes m.payload)

pub length-token_bytes : (n token : ℕ) → length (token_bytes n token) ≡ n
unfolding token_bytes
length-token_bytes zero token = refl
length-token_bytes (suc n) token = omega (arith, length-token_bytes n (token / 256))

length-build_payload :
    (m : Message)
    → PayloadFits m
    → length (build_payload m) ≡ (if m.payload_length == 0 then 0 else m.payload_length + 1)
unfolding build_payload
length-build_payload m fits =
    ground (arith, length-take m.payload_length (payload_bytes m.payload) fits)

pub length-datagram_of :
    (tl : ℕ) (m : Message)
    → PayloadFits m
    → length (datagram_of tl m)
      ≡ 4
        + tl
        + length (pack_options_from_list m.options)
        + (if m.payload_length == 0 then 0 else m.payload_length + 1)
unfolding datagram_of build_header
length-datagram_of tl m fits = omega (
  arith,
  length-append (token_bytes tl m.token) (pack_options_from_list m.options ++ build_payload m),
  length-append (pack_options_from_list m.options) (build_payload m),
  length-token_bytes tl m.token,
  length-build_payload m fits,
)

drop_all {ℓ} : {A : Type ℓ} (n : ℕ) (xs : List A) → length xs ≤ n → drop n xs ≡ []
drop_all zero [] h = refl
drop_all zero (x ∷ xs) h = elim h [ ]
drop_all (suc n) [] h = refl
drop_all (suc n) (x ∷ xs) h = drop_all n xs (omega arith)

-- What is written at the end is added.
write_at-length : (bytes dest : List ℕ) → write_at (length dest) bytes dest ≡ dest ++ bytes
unfolding write_at
write_at-length bytes dest =
    rw
      (
        take_all (length dest) dest (omega arith),
        drop_all (length dest + length bytes) dest (omega arith),
        append-nil bytes,
      )
      refl

-- Where no offset wraps around, the payload stands behind the rest.
write_payload-fits :
    (m : Message) (dest : List ℕ)
    → PayloadFits m
    → length dest + (if m.payload_length == 0 then 0 else m.payload_length + 1) < 65536
    → (write_payload m dest (length dest)).0 ≡ dest ++ build_payload m
unfolding write_payload build_payload
write_payload-fits m dest fits small = elim (Bool-cases (m.payload_length == 0)) [
  | inl e ↦ rw e (sym (append-nil dest))
  | inr e ↦
      let payload = take m.payload_length (payload_bytes m.payload) in
      let one_more : length (dest ++ (0xff ∷ [])) ≡ u16 (length dest + 1) =
        ground (arith, length-append dest (0xff ∷ [])) in
      rw e (
        ap (write_at (u16 (length dest + 1)) payload) (write_at-length (0xff ∷ []) dest)
        ∙ subst (λ n. write_at n payload (dest ++ (0xff ∷ [])) ≡ (dest ++ (0xff ∷ [])) ++ payload)
            one_more (write_at-length payload (dest ++ (0xff ∷ [])))
        ∙ append_assoc dest (0xff ∷ []) payload)
]

pub write_datagram-fits :
    (tl : ℕ) (m : Message)
    → PayloadFits m
    → length (datagram_of tl m) < 65536
    → (write_datagram tl m).0 ≡ datagram_of tl m
unfolding write_datagram datagram_of build_header
write_datagram-fits tl m fits small =
    let packed = pack_options_from_list m.options in
    let dest = build_header tl m ++ (token_bytes tl m.token ++ packed) in
    let long = length-datagram_of tl m fits in
    let before : length dest ≡ 4 + tl + length packed =
      omega (arith, length-append (token_bytes tl m.token) packed, length-token_bytes tl m.token) in
    let at : length dest ≡ u16 (4 + tl + bytes_written m.options) =
      omega (arith, before, long, small) in
    subst (λ n. (write_payload m dest n).0 ≡ datagram_of tl m) at
      (write_payload-fits m dest fits (omega (arith, before, long, small))
        ∙ ap (λ xs. build_header tl m ++ xs)
            (append_assoc (token_bytes tl m.token) packed (build_payload m)))

-- The size that is reported, whatever wraps around.
write_datagram-size :
    (tl : ℕ) (m : Message)
    → (write_datagram tl m).1
      ≡ u16 (
          4
          + tl
          + bytes_written m.options
          + (if m.payload_length == 0 then 0 else m.payload_length + 1))
unfolding write_datagram write_payload
write_datagram-size tl m = elim (Bool-cases (m.payload_length == 0)) [
  | inl e ↦ rw e (omega arith)
  | inr e ↦ rw e (omega arith)
]

le_or_lt : (a b : ℕ) → (a ≤ b) ⊎ (b < a)
le_or_lt a b = elim (Bool-cases (leb a b)) [
  | inl e ↦ inl (ground (arith, e))
  | inr e ↦ inr (ground (arith, e))
]

-- On every message whose payload fits its buffer and whose packed options take less than 2 ^ 16
-- bytes: the size that is computed beforehand, as the uint16_t that CoAP_GetRawSizeOfMessage
-- returns, is the size that CoAP_BuildDatagram reports. And if it is less than 2 ^ 16 before it is
-- cut to a uint16_t, it is the length of what is written.
pub get_raw_size-build :
    (m : Message)
    → PayloadFits m
    → length (pack_options_from_list m.options) < 65536
    → (u16 (get_raw_size_of_message m) ≡ (build_datagram m).2)
      × ((get_raw_size_of_message m ≡ length (build_datagram m).0)
          ⊎ (65536 ≤ get_raw_size_of_message m))
unfolding get_raw_size_of_message build_datagram
get_raw_size-build m fits small =
    let tl = get_token_byte_count m.token in
    let m0 = record m { payload_length = 0 } in
    let needed = needed_mem-bytes_written m.options in
    let packed = length (pack_options_from_list m.options) in
    let whole : packed % 65536 ≡ packed = omega (arith, small) in
    elim (Bool-cases (m.code == empty_code)) [
      | inl e ↦ rw e (
        omega (arith, needed, write_datagram-size 0 m0),
        elim (le_or_lt 65536 (4 + packed)) [
          | inl large ↦ inr (omega (arith, needed, whole, large))
          | inr less ↦
              let long = length-datagram_of 0 m0 (omega arith) in
              inl (
                omega (
                  arith,
                  needed,
                  whole,
                  long,
                  ap length (write_datagram-fits 0 m0 (omega arith) (omega (arith, long, less))),
                ))
        ],
      )
      | inr e ↦
          let with_payload = if m.payload_length == 0 then 0 else m.payload_length + 1 in
          rw e (
            omega (arith, needed, write_datagram-size tl m),
            elim (le_or_lt 65536 (4 + packed + (with_payload + tl))) [
              | inl large ↦ inr (omega (arith, needed, whole, large))
              | inr less ↦
                  let long = length-datagram_of tl m fits in
                  inl (
                    omega (
                      arith,
                      needed,
                      whole,
                      long,
                      ap length (write_datagram-fits tl m fits (omega (arith, long, less))),
                    ))
            ],
          )
    ]
