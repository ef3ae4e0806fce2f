-- ===== src/OptionTypes/Transfer.antt =====
-- A whole transfer in blocks, by CoAP_SetPayload of
-- coap/server/lobaro-coap/option-types/coap_option_blockwise.c. The client is the one of RFC 7959:
-- it asks for one block after the other as long as the response says that there are more.
use sming_coap.OptionTypes.BlockCodec.{IsBlock, read-block_bytes}
use mathlib.Core.Path.{subst}
use sming_coap.Options.{opt_block2}
use sming_coap.OptionTypes.Blockwise.{Serves, set_payload-Serves, place_of}
use sming_coap.OptionTypes.Placed.{carried, source_of, HasBuffer}
use sming_coap.OptionTypes.SetPayload.{no_block2, set_payload, limit_block}
use sming_coap.Heap.{Heap, Generous}
use sming_coap.CoapResult.{CoapResult, ok}
use sming_coap.OptionTypes.Block.{
  get_block2_option_from_msg, BlockOption, block_bytes, get_block_option_from_msg,
}
use sming_coap.Message.{con, Message, init_to_empty_reset_msg, req_get, max_payload_size}
use mathlib.Core.Option
use sming_coap.Base.{
  ℕ, zero, suc, ◌+◌, ◌-◌, ◌*◌, ◌^◌, ◌≤◌, ◌<◌, ◌≡◌, refl, sym, ap, ◌∙◌, arith, inl, inr, Bool, false,
  ◌||◌, List, [], ◌∷◌, ◌++◌, Option, none, some, ltb, length, take, drop, if◌then◌else◌, Bool-cases,
  ltb→lt, take_all, length-drop, ltb→le, le→ltb, or-false,
}

abbrev pub asked : ℕ → ℕ → BlockOption
asked size num = record {
  block_type = opt_block2;
  block_size = size;
  more_flag = false;
  block_num = num;
}

-- The client's request for a block of a size.
abbrev pub block_request : ℕ → ℕ → Message
block_request size num = record init_to_empty_reset_msg {
  type = con;
  code = req_get;
  options = record { number = opt_block2; value = block_bytes (asked size num) } ∷ [];
}

-- What the client has after a response: its bytes, and those of the later blocks if it says that
-- there are more.
unfoldable pub after_response :
    Option (CoapResult × Message × Heap) → Option (List ℕ) → Option (List ℕ)
unfolding get_block2_option_from_msg
after_response none rest = none
after_response (some (r, m, h)) rest =
    if (get_block2_option_from_msg m.options no_block2).1.more_flag
    then Option.map (◌++◌ (carried m)) rest
    else some (carried m)

-- The blocks from a number on. The k-th response is prepared in the message `resp k`, with the heap
-- `heap k`. No result: the fuel ran out, or there was no response.
module _ (resp : ℕ → Message) (heap : ℕ → Heap) (is_volatile : Bool) (bs : List ℕ) (size : ℕ) where
  unfoldable pub fetch : ℕ → ℕ → Option (List ℕ)
  unfolding after_response set_payload
  fetch zero num = none
  fetch (suc fuel) num =
      let rest = fetch fuel (num + 1) in
      after_response
        (set_payload (some (block_request size num)) (resp num) (source_of is_volatile bs)
          (length bs) (heap num))
        rest

after_response-Serves :
    (b : BlockOption) (more : Bool) (bytes : List ℕ) (o : Option (CoapResult × Message × Heap))
    (rest : Option (List ℕ))
    → Serves b more bytes o
    → after_response o rest ≡ (if more then Option.map (◌++◌ bytes) rest else some bytes)
unfolding after_response
after_response-Serves b more bytes o rest (m, h, e, c, option) = rw (e, option no_block2, c) refl

take-drop : (n : ℕ) (xs : List ℕ) → take n xs ++ drop n xs ≡ xs
take-drop zero xs = refl
take-drop (suc n) [] = refl
take-drop (suc n) (x ∷ xs) = ap (◌∷◌ x) (take-drop n xs)

drop-nil : (n : ℕ) → drop {A = ℕ} n [] ≡ []
drop-nil zero = refl
drop-nil (suc n) = refl

drop-drop : (m n : ℕ) (xs : List ℕ) → drop n (drop m xs) ≡ drop (m + n) xs
drop-drop zero n xs = ap (λ k. drop k xs) (omega arith)
drop-drop (suc m) n [] = drop-nil n ∙ sym (drop-nil (suc m + n))
drop-drop (suc m) n (x ∷ xs) =
    let k : suc (m + n) ≡ suc m + n = omega arith in drop-drop m n xs ∙ ap (λ k. drop k (x ∷ xs)) k

size_bound : (e : ℕ) → e ≤ 4 → (0 < 2 ^ (e + 4)) × (2 ^ (e + 4) ≤ 256)
size_bound zero l = omega arith
size_bound (suc zero) l = omega arith
size_bound (suc (suc zero)) l = omega arith
size_bound (suc (suc (suc zero))) l = omega arith
size_bound (suc (suc (suc (suc zero)))) l = omega arith
size_bound (suc (suc (suc (suc (suc e))))) l = omega arith

num_bound : (size num total : ℕ) → 0 < size → size * num < total → num < total
num_bound size num total p h = grind arith

next_place : (size num : ℕ) → size * (num + 1) ≡ size * num + size
next_place size num = grind arith

more_fuel : (size fuel : ℕ) → size * suc fuel ≡ size * fuel + size
more_fuel size fuel = grind arith

limit_small : (b : BlockOption) → b.block_size ≤ max_payload_size → limit_block b ≡ b
unfolding limit_block
limit_small b l = rw (le→ltb max_payload_size b.block_size l) refl

-- The server reads the block that the client asks for.
pub read_request :
    (size num : ℕ)
    → IsBlock (asked size num)
    → get_block2_option_from_msg (block_request size num).options no_block2 ≡ (ok, asked size num)
unfolding get_block2_option_from_msg get_block_option_from_msg
read_request size num is_block = read-block_bytes (asked size num) no_block2 is_block

module _ (resp : ℕ → Message) (heap : ℕ → Heap) (is_volatile : Bool) (bs : List ℕ) (e : ℕ) where
  -- The response to the request for a block that there is.
  block_response :
      (num : ℕ)
      → ((k : ℕ) → HasBuffer (resp k).payload (resp k).payload_buf_size)
      → ((k : ℕ) → Generous (heap k))
      → e ≤ 4
      → length bs < 65536
      → 2 ^ (e + 4) * num < length bs
      → Serves
          (asked (2 ^ (e + 4)) num)
          (ltb (2 ^ (e + 4)) (length bs - 2 ^ (e + 4) * num))
          (take (2 ^ (e + 4)) (drop (2 ^ (e + 4) * num) bs))
          (set_payload
            (some (block_request (2 ^ (e + 4)) num))
            (resp num)
            (source_of is_volatile bs)
            (length bs)
            (heap num))
  block_response num has g small short inside =
      let size = 2 ^ (e + 4) in
      let b = asked size num in
      let bound = size_bound e small in
      let n = num_bound size num (length bs) bound.0 inside in
      let is_block : IsBlock b = (inr refl, (e, omega arith, refl), omega arith) in
      let same = limit_small b bound.1 in
      let served =
        set_payload-Serves (block_request size num) (resp num) b is_volatile bs (heap num) (g num)
          (read_request size num is_block) is_block refl
          (subst (λ c. place_of c < length bs) (sym same) inside) (has num) in
      subst
        (λ more. Serves b more (take size (drop (size * num) bs)) (
          set_payload (some (block_request size num)) (resp num) (source_of is_volatile bs)
            (length bs) (heap num)))
        (or-false (ltb size (length bs - size * num)))
        (subst
          (λ c.
            Serves c (ltb c.block_size (length bs - place_of c) || c.more_flag)
              (take c.block_size (drop (place_of c) bs))
              (set_payload (some (block_request size num)) (resp num) (source_of is_volatile bs)
                (length bs) (heap num)))
          same served)

  fetch_lem :
      (fuel num : ℕ)
      → ((k : ℕ) → HasBuffer (resp k).payload (resp k).payload_buf_size)
      → ((k : ℕ) → Generous (heap k))
      → e ≤ 4
      → length bs < 65536
      → 2 ^ (e + 4) * num < length bs
      → length bs ≤ 2 ^ (e + 4) * num + 2 ^ (e + 4) * fuel
      → fetch resp heap is_volatile bs (2 ^ (e + 4)) fuel num ≡ some (drop (2 ^ (e + 4) * num) bs)
  unfolding fetch
  fetch_lem zero num has g small short inside enough = absurd (omega arith)
  fetch_lem (suc fuel) num has g small short inside enough =
      let size = 2 ^ (e + 4) in
      let place = size * num in
      let served = block_response num has g small short inside in
      let answer =
        after_response-Serves (asked size num) (ltb size (length bs - place)) _ _
          (fetch resp heap is_volatile bs size fuel (num + 1)) served in
      answer ∙ elim (Bool-cases (ltb size (length bs - place))) [
        | inl m ↦
            let l = ltb→lt size (length bs - place) m in
            let n = next_place size num in
            let ih =
              fetch_lem fuel (num + 1) has g small short (omega arith)
                (omega (arith, more_fuel size fuel)) in
            rw (m, ih)
              (ap (λ (x : List ℕ). some x)
                (ap (λ k. take size (drop place bs) ++ drop k bs) n
                  ∙ ap (◌++◌ (take size (drop place bs))) (sym (drop-drop place size bs))
                  ∙ take-drop size (drop place bs)))
        | inr m ↦ rw m (
            ap (λ (x : List ℕ). some x)
              (take_all size (drop place bs)
                (omega (arith, length-drop {0} place bs, ltb→le size (length bs - place) m))))
      ]

  -- A client that asks for blocks of 16 to 256 bytes, one after the other from the first on, gets a
  -- payload of 1 to 65535 bytes whole and in order, and stops there: as many requests are enough as
  -- the blocks make up the payload. Every response is prepared in any message and on any heap that
  -- meets every request. It holds for a payload that is copied and for one that is not.
  pub fetch-all :
      (fuel : ℕ)
      → ((k : ℕ) → HasBuffer (resp k).payload (resp k).payload_buf_size)
      → ((k : ℕ) → Generous (heap k))
      → e ≤ 4
      → 0 < length bs
      → length bs < 65536
      → length bs ≤ 2 ^ (e + 4) * fuel
      → fetch resp heap is_volatile bs (2 ^ (e + 4)) fuel 0 ≡ some bs
  fetch-all fuel has g small positive short enough =
      let first : 2 ^ (e + 4) * 0 ≡ 0 = omega arith in
      fetch_lem fuel 0 has g small short (omega arith) (omega arith)
      ∙ ap (λ k. some (drop k bs)) first
