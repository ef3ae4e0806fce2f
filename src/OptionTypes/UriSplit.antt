-- ===== src/OptionTypes/UriSplit.antt =====
-- The loop that splits a uri string at a delimiter, in
-- coap/server/lobaro-coap/option-types/coap_option_uri.c.
use sming_coap.OptionTypes.UriWords.{takes, AtMost, emit, option_of}
use mathlib.Core.Path.{ap₂}
use sming_coap.CoapResult.{ok}
use sming_coap.Options.Insert.{taken, append_option_to_list_met, insert_sorted_last}
use sming_coap.Options.{CoapOption, ListState}
use sming_coap.OptionTypes.Uri.{append_part, at_delimiter, last_part, count_character, Splitting}
use sming_coap.Heap.{Heap, Generous}
use sming_coap.Base.{
  ℕ, List, ◌∷◌, ◌==◌, ◌++◌, [], ◌≡◌, take, map, ap, length, append-nil, append_assoc, sym, ◌<◌,
  All-append, ◌%◌, arith, ◌∙◌, drop, ◌+◌, length-append, ◌^◌, drop-append, refl, false, take-append,
}

-- The variables of a loop that has read `pre` of a part, before `cs`.
abbrev pub reading : List ℕ → List ℕ → List CoapOption → Heap → Splitting
reading pre cs opts h = record { part = pre ++ cs; cnt = length pre; opts = opts; heap = h }

abbrev pub with_words : ℕ → List (List ℕ) → List CoapOption → List CoapOption
with_words number ws opts = opts ++ map (option_of number) ws

abbrev pub added : ℕ → List (List ℕ) → List CoapOption → Heap → ListState
added number ws opts h = (ok, with_words number ws opts, takes (length ws) h)

pub drop_behind :
    (pre : List ℕ) (c : ℕ) (cs : List ℕ) → drop (length pre + 1) (pre ++ (c ∷ cs)) ≡ cs
drop_behind pre c cs =
    let n : length pre + 1 ≡ length (pre ++ (c ∷ [])) =
      omega (arith, length-append {0} pre (c ∷ [])) in
    rw n (
      ap (drop (length (pre ++ (c ∷ [])))) (sym (append_assoc pre (c ∷ []) cs))
      ∙ drop-append (pre ++ (c ∷ [])) cs)

module _ (number : ℕ) where
  pub append_part_lem :
      (pre cs : List ℕ) (opts : List CoapOption) (h : Heap)
      → Generous h
      → length pre < 65536
      → AtMost number opts
      → append_part number (reading pre cs opts h) ≡ record (reading pre cs opts h) {
        opts = opts ++ (option_of number pre ∷ []);
        heap = taken h;
      }
  unfolding append_part
  append_part_lem pre cs opts h g small most =
      let fits : length pre % 65536 ≡ length pre = omega arith in
      let whole : take (length pre % 65536) (pre ++ cs) ≡ pre = rw fits (take-append pre cs) in
      rw whole (
        rw (append_option_to_list_met number pre h opts (g _ _))
          (rw (insert_sorted_last (option_of number pre) opts most) refl))

  at_delimiter_counted :
      (st : Splitting)
      → (st.cnt == 0) ≡ false
      → at_delimiter number st
        ≡ record (append_part number st) { part = drop (st.cnt + 1) st.part; cnt = 0 }
  unfolding at_delimiter
  at_delimiter_counted st e = rw e refl

  last_part_counted :
      (st : Splitting)
      → (st.cnt == 0) ≡ false
      → last_part number st ≡ (ok, (append_part number st).opts, (append_part number st).heap)
  unfolding last_part
  last_part_counted st e = rw e refl

  pub at_delimiter_lem :
      (pre : List ℕ) (c : ℕ) (cs : List ℕ) (opts : List CoapOption) (h : Heap)
      → Generous h
      → length pre < 65536
      → AtMost number opts
      → at_delimiter number (reading pre (c ∷ cs) opts h)
        ≡ reading [] cs (with_words number (emit pre []) opts) (takes (length (emit pre [])) h)
  unfolding at_delimiter
  at_delimiter_lem [] c cs opts h g small most = ap (λ x. reading [] cs x h) (sym (append-nil opts))
  at_delimiter_lem (x ∷ pre) c cs opts h g small most =
      at_delimiter_counted (reading (x ∷ pre) (c ∷ cs) opts h) (ground arith)
      ∙ ap
          (λ (st : Splitting). record st {
            part = drop (length (x ∷ pre) + 1) ((x ∷ pre) ++ (c ∷ cs));
            cnt = 0;
          })
          (append_part_lem (x ∷ pre) (c ∷ cs) opts h g small most)
      ∙ ap (λ p. reading [] p (with_words number (emit (x ∷ pre) []) opts) (taken h))
          (drop_behind (x ∷ pre) c cs)

  pub last_part_lem :
      (pre : List ℕ) (opts : List CoapOption) (h : Heap)
      → Generous h
      → length pre < 65536
      → AtMost number opts
      → last_part number (reading pre [] opts h) ≡ added number (emit pre []) opts h
  unfolding last_part
  last_part_lem [] opts h g small most = ap (λ x. (ok, x, h)) (sym (append-nil opts))
  last_part_lem (x ∷ pre) opts h g small most =
      last_part_counted (reading (x ∷ pre) [] opts h) (ground arith)
      ∙ ap (λ (st : Splitting). (ok, st.opts, st.heap))
          (append_part_lem (x ∷ pre) [] opts h g small most)

  pub count_character_lem :
      (pre : List ℕ) (c : ℕ) (cs : List ℕ) (opts : List CoapOption) (h : Heap)
      → length pre < 65536
      → count_character (reading pre (c ∷ cs) opts h) ≡ reading (pre ++ (c ∷ [])) cs opts h
  unfolding count_character
  count_character_lem pre c cs opts h small =
      let n : (length pre + 1) % 2 ^ 32 ≡ length (pre ++ (c ∷ [])) =
        omega (arith, length-append {0} pre (c ∷ [])) in
      ap₂ (λ p n. record { part = p; cnt = n; opts = opts; heap = h })
        (sym (append_assoc pre (c ∷ []) cs)) n

  pub added-emit :
      (pre : List ℕ) (ws : List (List ℕ)) (opts : List CoapOption) (h : Heap)
      → added number ws (with_words number (emit pre []) opts) (takes (length (emit pre [])) h)
        ≡ added number (emit pre ws) opts h
  added-emit [] ws opts h = ap (λ x. added number ws x h) (append-nil opts)
  added-emit (x ∷ pre) ws opts h =
      ap (λ y. (ok, y, takes (length ws) (taken h)))
        (append_assoc opts (option_of number (x ∷ pre) ∷ []) (map (option_of number) ws))

  pub AtMost-emit :
      (pre : List ℕ) (opts : List CoapOption)
      → AtMost number opts
      → AtMost number (with_words number (emit pre []) opts)
  AtMost-emit [] opts most = rw append-nil most
  AtMost-emit (x ∷ pre) opts most = All-append _ opts _ most (omega arith, tt)
