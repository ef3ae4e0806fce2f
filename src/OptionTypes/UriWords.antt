-- ===== src/OptionTypes/UriWords.antt =====
-- The words of a uri string, for CoAP_AppendUriOptionsFromString of
-- coap/server/lobaro-coap/option-types/coap_option_uri.c: split at each delimiter, without the empty
-- pieces.
use mathlib.Core.Path.{ap₂}
use sming_coap.Options.Insert.{taken}
use sming_coap.Options.{CoapOption, opt_num_uri_path, opt_num_uri_query}
use sming_coap.Heap.{Heap}
use sming_coap.Base.{
  ℕ, List, Bool, ◌∷◌, ◌==◌, suc, ◌++◌, [], ◌≡◌, if◌then◌else◌, ◌||◌, map, All, ap, Bool-cases,
  append-nil, ◌≤◌, append_assoc, inl, sym, inr, ◌∙◌, zero, refl,
}

-- The pieces between the delimiters, empty ones included.
abbrev pub onto_first : ℕ → List (List ℕ) → List (List ℕ)
onto_first c [] = (c ∷ []) ∷ []
onto_first c (p ∷ ps) = (c ∷ p) ∷ ps

abbrev pub pieces : (ℕ → Bool) → List ℕ → List (List ℕ)
pieces d [] = [] ∷ []
pieces d (c ∷ cs) = if d c then [] ∷ pieces d cs else onto_first c (pieces d cs)

abbrev pub emit : List ℕ → List (List ℕ) → List (List ℕ)
emit [] ws = ws
emit (x ∷ xs) ws = (x ∷ xs) ∷ ws

abbrev pub non_empty : List (List ℕ) → List (List ℕ)
non_empty [] = []
non_empty (p ∷ ps) = emit p (non_empty ps)

-- The string before the first question mark, and the string behind it.
abbrev pub before_mark : List ℕ → List ℕ
before_mark [] = []
before_mark (c ∷ cs) = if c == b'?' then [] else c ∷ before_mark cs

abbrev pub behind_mark : List ℕ → List ℕ
behind_mark [] = []
behind_mark (c ∷ cs) = if c == b'?' then cs else behind_mark cs

abbrev pub path_words : List ℕ → List (List ℕ)
path_words s = non_empty (pieces (λ c. (c == b'/') || (c == b' ')) (before_mark s))

abbrev pub query_words : List ℕ → List (List ℕ)
query_words s = non_empty (pieces (λ c. c == b'&') (behind_mark s))

abbrev pub option_of : ℕ → List ℕ → CoapOption
option_of number value = record { number = number; value = value }

-- The path options in their order, then the query options in theirs.
abbrev pub uri_options : List ℕ → List CoapOption
uri_options s =
    map (option_of opt_num_uri_path) (path_words s)
    ++ map (option_of opt_num_uri_query) (query_words s)

-- The heap after so many requests that were met.
abbrev pub takes : ℕ → Heap → Heap
takes zero h = h
takes (suc n) h = takes n (taken h)

abbrev pub AtMost : ℕ → List CoapOption → Type 0
AtMost number opts = All (λ (o : CoapOption). o.number ≤ number) opts

-- The words as the loops find them: `pre` is what was read of the current one.
unfoldable pub words_from : (ℕ → Bool) → List ℕ → List ℕ → List (List ℕ)
words_from d pre [] = emit pre []
words_from d pre (c ∷ cs) =
    let whole = emit pre (words_from d [] cs) in
    let longer = words_from d (pre ++ (c ∷ [])) cs in if d c then whole else longer

abbrev pub prepend : List ℕ → List (List ℕ) → List (List ℕ)
prepend pre [] = pre ∷ []
prepend pre (p ∷ ps) = (pre ++ p) ∷ ps

prepend-onto_first :
    (pre : List ℕ) (c : ℕ) (ps : List (List ℕ))
    → prepend (pre ++ (c ∷ [])) ps ≡ prepend pre (onto_first c ps)
prepend-onto_first pre c [] = refl
prepend-onto_first pre c (p ∷ ps) = ap (λ x. x ∷ ps) (append_assoc pre (c ∷ []) p)

pub prepend-nil-pieces : (d : ℕ → Bool) (cs : List ℕ) → prepend [] (pieces d cs) ≡ pieces d cs
prepend-nil-pieces d [] = refl
prepend-nil-pieces d (c ∷ cs) = elim (Bool-cases (d c)) [
  | inl e ↦ rw e refl
  | inr e ↦ rw e (onto (pieces d cs))
]
  where
    onto : (ps : List (List ℕ)) → prepend [] (onto_first c ps) ≡ onto_first c ps
    onto [] = refl
    onto (p ∷ ps) = refl

pub words_from-pieces :
    (d : ℕ → Bool) (pre cs : List ℕ) → words_from d pre cs ≡ non_empty (prepend pre (pieces d cs))
unfolding words_from
words_from-pieces d pre [] = ap (λ x. emit x []) (sym (append-nil pre))
words_from-pieces d pre (c ∷ cs) = elim (Bool-cases (d c)) [
  | inl e ↦ rw e (
      ap₂ emit (sym (append-nil pre))
        (words_from-pieces d [] cs ∙ ap non_empty (prepend-nil-pieces d cs)))
  | inr e ↦ rw e (
      words_from-pieces d (pre ++ (c ∷ [])) cs
      ∙ ap non_empty (prepend-onto_first pre c (pieces d cs)))
]
