-- ===== src/OptionTypes/Blockwise.antt =====
-- One block of a payload: proofs about CoAP_SetPayload of
-- coap/server/lobaro-coap/option-types/coap_option_blockwise.c.
use native.Mathlib.Nat.{pow-suc}
use mathlib.Core.Path.{subst}
use sming_coap.CoapResult.{ok, CoapResult}
use sming_coap.Options.{opt_block2}
use sming_coap.OptionTypes.BlockCodec.{IsBlock}
use sming_coap.OptionTypes.Block.{get_block2_option_from_msg, BlockOption}
use sming_coap.Heap.{Heap, Generous}
use sming_coap.OptionTypes.SetPayload.{
  Source, put_payload, replace_block2, set_length, put_block, limit_block, set_payload, no_block2,
}
use sming_coap.Message.{Message, Payload, max_payload_size}
use sming_coap.Base.{
  ℕ, zero, suc, ◌+◌, ◌-◌, ◌*◌, ◌^◌, ◌≤◌, ◌<◌, ◌≡◌, refl, sym, ap, ◌∙◌, arith, inl, inr, Bool, true,
  false, ◌||◌, List, Option, some, ltb, leb, length, take, drop, if◌then◌else◌, Bool-cases, ◌==◌,
}
use sming_coap.OptionTypes.Placed.{
  carried, HasBuffer, source_of, Placed, length-block, put_payload-Placed, replace_block2_lem,
  take_block,
}

-- The response to a request for this block of these bytes.
abbrev pub Serves : BlockOption → Bool → List ℕ → Option (CoapResult × Message × Heap) → Type 0
Serves b more bytes o =
    (m : Message) × (h : Heap) × (o ≡ some (ok, m, h))
    × (carried m ≡ bytes)
    × ((out : BlockOption)
        → get_block2_option_from_msg m.options out ≡ (ok, record b { more_flag = more }))

pub Serves-Placed :
    (b : BlockOption) (more : Bool) (bytes : List ℕ) (n : ℕ) (m : Message)
    (o : Option (Message × Heap))
    → length bytes ≡ n
    → ((out : BlockOption)
        → get_block2_option_from_msg m.options out ≡ (ok, record b { more_flag = more }))
    → Placed bytes m o
    → Serves b more bytes (set_length n o)
unfolding set_length
Serves-Placed b more bytes n m o len option (m', h', e, there, same) =
    rw (e, ← len)
      (_, _, refl, there, λ out. ap (λ os. get_block2_option_from_msg os out) same ∙ option out)

IsBlock-positive : (e : ℕ) → 0 < 2 ^ (e + 4)
IsBlock-positive zero = omega arith
IsBlock-positive (suc e) =
    let next : suc e + 4 ≡ suc (e + 4) = omega arith in
    rw next (omega (arith, pow-suc 2 (e + 4), IsBlock-positive e))

flagged :
    (b : BlockOption) (more : Bool)
    → (if more then record b { more_flag = true } else b)
      ≡ record b { more_flag = more || b.more_flag }
flagged b true = refl
flagged b false = refl

flagged-IsBlock :
    (b : BlockOption) (more : Bool) → IsBlock b → IsBlock (record b { more_flag = more })
flagged-IsBlock b more h = h

-- The size of the block from a place on, in a payload of so many bytes.
abbrev block_length : BlockOption → ℕ → ℕ → ℕ
block_length b place total =
    if ltb b.block_size (total - place) then b.block_size else total - place

block_length_bounds :
    (b : BlockOption) (place total : ℕ)
    → 0 < b.block_size
    → place < total
    → (0 < block_length b place total) × (place + block_length b place total ≤ total)
block_length_bounds b place total positive inside = ground arith

pub HasBuffer-eq : (p q : Payload) (m n : ℕ) → p ≡ q → m ≡ n → HasBuffer q n → HasBuffer p m
HasBuffer-eq p q m n e d has = rw (e, d) has

put_block_inside :
    (b : BlockOption) (resp : Message) (source : Source) (total : ℕ) (h : Heap)
    → let place = b.block_size * b.block_num in
      let n = block_length b place total in
      let after =
        replace_block2
          (if ltb b.block_size (total - place) then record b { more_flag = true } else b)
          resp
          h in
      leb total place ≡ false
      → put_block b resp source total h ≡ set_length n (put_payload source place n after.0 after.1)
unfolding put_block
put_block_inside b resp source total h outside = rw outside refl

put_block-Serves :
    (b : BlockOption) (resp : Message) (is_volatile : Bool) (bs : List ℕ) (h : Heap)
    → Generous h
    → IsBlock b
    → b.block_type ≡ opt_block2
    → b.block_size * b.block_num < length bs
    → HasBuffer resp.payload resp.payload_buf_size
    → Serves b
        (ltb b.block_size (length bs - b.block_size * b.block_num) || b.more_flag)
        (take b.block_size (drop (b.block_size * b.block_num) bs))
        (put_block b resp (source_of is_volatile bs) (length bs) h)
put_block-Serves b resp is_volatile bs h g is_block kind inside has =
    let place = b.block_size * b.block_num in
    let more = ltb b.block_size (length bs - place) in
    let positive : 0 < b.block_size = rw (is_block.1.2) (IsBlock-positive is_block.1.0) in
    let bounds = block_length_bounds b place (length bs) positive inside in
    let b' = record b { more_flag = more || b.more_flag } in
    let (m', h', e, option, same, same_size, g') = replace_block2_lem b' resp h g is_block kind in
    let outside : leb (length bs) place ≡ false = ground (arith, inside) in
    let has' : HasBuffer m'.payload m'.payload_buf_size = HasBuffer-eq _ _ _ _ same same_size has in
    let placed =
      put_payload-Placed is_volatile bs place (block_length b place (length bs)) m' h' g' bounds.1
        bounds.0 has' in
    let n = block_length b place (length bs) in
    let src = source_of is_volatile bs in
    let q =
      put_block_inside b resp src (length bs) h outside
      ∙ ap
          (λ (x : BlockOption).
            set_length n
              (put_payload src place n (replace_block2 x resp h).0 (replace_block2 x resp h).1))
          (flagged b more)
      ∙ ap (λ (r : Message × Heap). set_length n (put_payload src place n r.0 r.1)) e in
    let done =
      Serves-Placed b (more || b.more_flag) (take n (drop place bs)) n m'
        (put_payload src place n m' h') (length-block place n bs bounds.1) option placed in
    subst (Serves b (more || b.more_flag) (take b.block_size (drop place bs))) (sym q) (
      subst (λ y. Serves b (more || b.more_flag) y (set_length n (put_payload src place n m' h')))
        (take_block b.block_size place bs) done)

limit_block-IsBlock : (b : BlockOption) → IsBlock b → IsBlock (limit_block b)
unfolding limit_block
limit_block-IsBlock b h = elim (Bool-cases (ltb max_payload_size b.block_size)) [
  | inl e ↦ rw e (h.0, (4, omega arith, refl), h.2)
  | inr e ↦ rw e h
]

limit_block-kind : (b : BlockOption) → (limit_block b).block_type ≡ b.block_type
unfolding limit_block
limit_block-kind b = ground arith

-- The place of a block in the payload.
abbrev pub place_of : BlockOption → ℕ
place_of b = b.block_size * b.block_num

-- A request for a block, whose size is first limited to 256 bytes while its number stays as it is: if
-- the block of that number at the limited size begins within the payload, and every request for
-- memory is met, the response carries the bytes of this block, cut at the payload's end, and its
-- block option says that number and the limited size, and that there are more if bytes follow or if
-- the request said so. It holds for a payload that is copied and for one that is not.
pub set_payload-Serves :
    (req resp : Message) (b : BlockOption) (is_volatile : Bool) (bs : List ℕ) (h : Heap)
    → Generous h
    → get_block2_option_from_msg req.options no_block2 ≡ (ok, b)
    → IsBlock b
    → b.block_type ≡ opt_block2
    → place_of (limit_block b) < length bs
    → HasBuffer resp.payload resp.payload_buf_size
    → let c = limit_block b in
      Serves c
        (ltb c.block_size (length bs - place_of c) || c.more_flag)
        (take c.block_size (drop (place_of c) bs))
        (set_payload (some req) resp (source_of is_volatile bs) (length bs) h)
unfolding set_payload
set_payload-Serves req resp b is_volatile bs h g asked is_block kind inside has =
    let positive : (length bs == 0) ≡ false = ground (arith, inside) in
    rw (positive, asked)
      (put_block-Serves (limit_block b) resp is_volatile bs h g (limit_block-IsBlock b is_block)
        (limit_block-kind b ∙ kind) inside has)
