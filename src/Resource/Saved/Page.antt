-- ===== src/Resource/Saved/Page.antt =====
-- The page that CoAP_NVsaveObservers of coap/server/lobaro-coap/coap_resource.c writes, and its first
-- record as CoAP_NVloadObservers reads it.
use sming_coap.Base.{
  ℕ, zero, suc, ◌+◌, ◌-◌, ◌≤◌, ◌<◌, ◌≡◌, refl, sym, ◌∙◌, arith, List, [], ◌∷◌, ◌++◌, some, inl, All,
  length, length-append, length-read, Memory, Holds, Holds-at, Holds-append_left,
  Holds-append_right, read, ◌≢◌,
}
use sming_coap.Heap.{Heap, Generous}
use sming_coap.CoapResult.{ok}
use sming_coap.Options.{CoapOption}
use sming_coap.Options.Insert.{IsSorted}
use sming_coap.Options.Pack.{pack_options_from_list}
use sming_coap.Options.PackedOption.{IsOption, grown}
use sming_coap.Options.Parse.{parse_options_from_raw}
use sming_coap.Options.RoundTrip.{parse-pack}
use sming_coap.Resource.Saved.{write, page_size}

Holds-same :
    (mem mem' : Memory) (i : ℕ) (bs : List ℕ)
    → ((j : ℕ) → i ≤ j → mem j ≡ mem' j)
    → Holds mem i bs
    → Holds mem' i bs
Holds-same mem mem' i [] same h = tt
Holds-same mem mem' i (b ∷ bs) same (e, h) = (
  sym (same i (omega arith)) ∙ e,
  Holds-same mem mem' (suc i) bs (λ j l. same j (omega (arith, l))) h,
)

-- What was written is there.
pub write-Holds : (mem : Memory) (i : ℕ) (bs : List ℕ) → Holds (write mem i bs) i bs
write-Holds mem i [] = tt
write-Holds mem i (b ∷ bs) = (
  ground arith,
  Holds-same (write mem (suc i) bs) (write mem i (b ∷ bs)) (suc i) bs (λ j l. ground (arith, l))
      (write-Holds mem (suc i) bs),
)

Holds-join :
    (mem : Memory) (i j : ℕ) (xs ys : List ℕ)
    → i + length xs ≡ j
    → Holds mem i xs
    → Holds mem j ys
    → Holds mem i (xs ++ ys)
Holds-join mem i j [] ys e h k = Holds-at mem j i ys (omega (arith, e)) k
Holds-join mem i j (x ∷ xs) ys e (a, h) k =
    (a, Holds-join mem (suc i) j xs ys (omega (arith, e)) h k)

Holds-read : (mem : Memory) (i n : ℕ) → Holds mem i (read mem i n)
Holds-read mem i zero = tt
Holds-read mem i (suc n) = (refl, Holds-read mem (suc i) n)

-- The first record of a page is read, and the next one begins behind its marker, whatever is there.
pub parse_first :
    (opts : List CoapOption) (mem : Memory) (h : Heap)
    → All IsOption opts
    → IsSorted opts
    → opts ≢ []
    → length (pack_options_from_list opts) + 1 < page_size
    → Holds mem 0 (pack_options_from_list opts ++ (0xff ∷ []))
    → Generous h
    → parse_options_from_raw mem page_size [] h
      ≡ some (record {
        result = ok;
        payload_begin = some (length (pack_options_from_list opts) + 1);
        options = opts;
        heap = grown (length opts) h;
      })
parse_first opts mem h w a ne small holds g =
    let bytes = pack_options_from_list opts in
    let n = length bytes in
    let left = page_size - (n + 2) in
    let behind = read mem (n + 1) (suc left) in
    let marker : Holds mem n (0xff ∷ []) =
      Holds-append_right mem 0 n bytes (0xff ∷ []) (omega arith) holds in
    let rest : Holds mem (suc n) behind =
      Holds-at mem (n + 1) (suc n) behind (omega arith) (Holds-read mem (n + 1) (suc left)) in
    parse-pack opts behind mem page_size h w a (inl ne)
      (omega
        (arith, small, length-append bytes (0xff ∷ behind), length-read mem (suc (n + 1)) left))
      (omega arith)
      (Holds-join mem 0 n bytes (0xff ∷ behind) (omega arith)
        (Holds-append_left mem 0 bytes (0xff ∷ []) holds) (marker.0, rest))
      g
