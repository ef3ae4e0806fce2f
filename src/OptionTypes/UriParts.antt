-- ===== src/OptionTypes/UriParts.antt =====
-- The parts of a uri string: proofs about CoAP_AppendUriOptionsFromString of
-- coap/server/lobaro-coap/option-types/coap_option_uri.c.
use sming_coap.OptionTypes.UriWords.{
  takes, AtMost, emit, words_from, uri_options, non_empty, query_words, pieces, before_mark,
  path_words, words_from-pieces, prepend-nil-pieces,
}
use sming_coap.CoapResult.{ok}
use sming_coap.Options.Insert.{taken}
use sming_coap.Options.{CoapOption, ListState, opt_num_uri_path, opt_num_uri_query}
use sming_coap.OptionTypes.Uri.{
  append_part, Splitting, query_loop, parse_uri_query_from_string_to_option, at_question_mark,
  uri_string_loop, append_uri_options_from_string,
}
use sming_coap.Heap.{Heap, Generous}
use sming_coap.Base.{
  ℕ, List, Bool, ◌∷◌, ◌==◌, suc, ◌++◌, [], ◌≡◌, ◌||◌, ap, Bool-cases, length, append-nil, ◌≤◌, inl,
  sym, ◌<◌, inr, arith, ◌∙◌, ◌+◌, length-append, zero, refl, false, some, or-false,
}
use sming_coap.OptionTypes.UriSplit.{
  reading, with_words, added, last_part_lem, append_part_lem, at_delimiter_lem, AtMost-emit,
  added-emit, count_character_lem,
}

pub Generous-takes : (n : ℕ) (h : Heap) → Generous h → Generous (takes n h)
Generous-takes zero h g = g
Generous-takes (suc n) h g = Generous-takes n (taken h) g

query_loop_lem :
    (cs pre : List ℕ) (opts : List CoapOption) (h : Heap)
    → Generous h
    → length pre + length cs < 65536
    → AtMost opt_num_uri_query opts
    → query_loop cs (reading pre cs opts h)
      ≡ added opt_num_uri_query (words_from (λ c. c == b'&') pre cs) opts h
unfolding query_loop words_from
query_loop_lem [] pre opts h g small most =
    last_part_lem opt_num_uri_query pre opts h g (omega arith) most
query_loop_lem (c ∷ cs) pre opts h g small most = elim (Bool-cases (c == b'&')) [
  | inl e ↦ rw e (
      ap (query_loop cs) (at_delimiter_lem opt_num_uri_query pre c cs opts h g (omega arith) most)
      ∙ query_loop_lem cs [] _ _ (Generous-takes (length (emit pre [])) h g) (omega arith)
          (AtMost-emit opt_num_uri_query pre opts most)
      ∙ added-emit opt_num_uri_query pre _ opts h)
  | inr e ↦ rw e (
      ap (query_loop cs) (count_character_lem opt_num_uri_query pre c cs opts h (omega arith))
      ∙ query_loop_lem cs (pre ++ (c ∷ [])) opts h g (omega (arith, length-append {0} pre (c ∷ [])))
          most)
]

abbrev path_delimiter : ℕ → Bool
path_delimiter c = (c == b'/') || (c == b' ')

parse_uri_query_lem :
    (query : List ℕ) (opts : List CoapOption) (h : Heap)
    → Generous h
    → length query < 65536
    → AtMost opt_num_uri_query opts
    → parse_uri_query_from_string_to_option opts query h
      ≡ added opt_num_uri_query (non_empty (pieces (λ c. c == b'&') query)) opts h
unfolding parse_uri_query_from_string_to_option
parse_uri_query_lem query opts h g small most =
    query_loop_lem query [] opts h g (omega arith) most
    ∙ ap (λ ws. added opt_num_uri_query ws opts h)
        (words_from-pieces _ [] query ∙ ap non_empty (prepend-nil-pieces _ query))

-- What the query's words add to what the path's words left.
abbrev then_query : List (List ℕ) → ListState → ListState
then_query qs (r, opts, h) = added opt_num_uri_query qs opts h

AtMost-weaken : (m n : ℕ) (opts : List CoapOption) → m ≤ n → AtMost m opts → AtMost n opts
AtMost-weaken m n [] le most = tt
AtMost-weaken m n (o ∷ os) le (p, most) = (omega arith, AtMost-weaken m n os le most)

at_question_mark_counted :
    (query : List ℕ) (st : Splitting)
    → (st.cnt == 0) ≡ false
    → at_question_mark query st
      ≡ parse_uri_query_from_string_to_option
          (append_part opt_num_uri_path st).opts
          query
          (append_part opt_num_uri_path st).heap
unfolding at_question_mark
at_question_mark_counted query st e = rw e refl

at_question_mark_lem :
    (pre : List ℕ) (c : ℕ) (cs : List ℕ) (opts : List CoapOption) (h : Heap)
    → Generous h
    → length pre < 65536
    → AtMost opt_num_uri_path opts
    → at_question_mark cs (reading pre (c ∷ cs) opts h)
      ≡ parse_uri_query_from_string_to_option
          (with_words opt_num_uri_path (emit pre []) opts)
          cs
          (takes (length (emit pre [])) h)
unfolding at_question_mark
at_question_mark_lem [] c cs opts h g small most =
    ap (λ x. parse_uri_query_from_string_to_option x cs h) (sym (append-nil opts))
at_question_mark_lem (x ∷ pre) c cs opts h g small most =
    at_question_mark_counted cs (reading (x ∷ pre) (c ∷ cs) opts h) (ground arith)
    ∙ ap (λ (st : Splitting). parse_uri_query_from_string_to_option st.opts cs st.heap)
        (append_part_lem opt_num_uri_path (x ∷ pre) (c ∷ cs) opts h g small most)

uri_string_loop_lem :
    (cs pre : List ℕ) (opts : List CoapOption) (h : Heap)
    → Generous h
    → length pre + length cs < 65536
    → AtMost opt_num_uri_path opts
    → uri_string_loop cs (reading pre cs opts h)
      ≡ then_query
          (query_words cs)
          (added opt_num_uri_path (words_from path_delimiter pre (before_mark cs)) opts h)
unfolding uri_string_loop words_from
uri_string_loop_lem [] pre opts h g small most =
    last_part_lem opt_num_uri_path pre opts h g (omega arith) most
    ∙ ap (λ x. (ok, x, takes (length (emit pre [])) h)) (sym (append-nil _))
uri_string_loop_lem (c ∷ cs) pre opts h g small most = elim (Bool-cases (c == b'?')) [
  | inl e ↦ rw e (
      at_question_mark_lem pre c cs opts h g (omega arith) most
      ∙ parse_uri_query_lem cs _ _ (Generous-takes (length (emit pre [])) h g) (omega arith) (
          AtMost-weaken opt_num_uri_path opt_num_uri_query _ (omega arith)
            (AtMost-emit opt_num_uri_path pre opts most)))
  | inr e ↦
      rw (e, or-false (c == b' '))
        (elim (Bool-cases (path_delimiter c)) [
          | inl d ↦ rw d (
              ap (uri_string_loop cs)
                (at_delimiter_lem opt_num_uri_path pre c cs opts h g (omega arith) most)
              ∙ uri_string_loop_lem cs [] _ _ (Generous-takes (length (emit pre [])) h g)
                  (omega arith) (AtMost-emit opt_num_uri_path pre opts most)
              ∙ ap (then_query (query_words cs)) (added-emit opt_num_uri_path pre _ opts h))
          | inr d ↦ rw d (
              ap (uri_string_loop cs)
                (count_character_lem opt_num_uri_path pre c cs opts h (omega arith))
              ∙ uri_string_loop_lem cs (pre ++ (c ∷ [])) opts h g
                  (omega (arith, length-append {0} pre (c ∷ []))) most)
        ])
]

-- A string of fewer than 65536 characters, appended to an empty list while every request for memory
-- is met: the options are the path's words in their order, then the query's words in theirs, each
-- of them once and none of them empty, and one block is taken for each. The path reaches to the
-- first question mark, and its words are what stands between slashes and blanks; the query's words
-- stand between ampersands.
pub append_uri_options-uri_options :
    (uri : List ℕ) (h : Heap)
    → Generous h
    → length uri < 65536
    → append_uri_options_from_string [] (some uri) h
      ≡ (ok, uri_options uri, takes (length (query_words uri)) (takes (length (path_words uri)) h))
unfolding append_uri_options_from_string
append_uri_options-uri_options uri h g small =
    uri_string_loop_lem uri [] [] h g (omega arith) tt
    ∙ ap (λ ws. then_query (query_words uri) (added opt_num_uri_path ws [] h))
        (words_from-pieces path_delimiter [] (before_mark uri)
          ∙ ap non_empty (prepend-nil-pieces path_delimiter (before_mark uri)))
