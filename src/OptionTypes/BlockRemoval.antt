-- ===== src/OptionTypes/BlockRemoval.antt =====
-- RemoveAllBlockOptionsFromMsg of coap/server/lobaro-coap/option-types/coap_option_blockwise.c.
use sming_coap.OptionTypes.First.{Lacks}
use sming_coap.CoapResult.{CoapResult, ok, not_found}
use sming_coap.Options.{CoapOption}
use sming_coap.OptionTypes.Block.{remove_blocks, remove_all_block_options_from_msg}
use sming_coap.OptionTypes.Observe.{find_option}
use sming_coap.Heap.{Heap, mem_release, Generous}
use sming_coap.Base.{
  ℕ, zero, suc, refl, inl, inr, true, false, List, Bool, ◌<◌, ◌∷◌, ◌≡◌, length, if◌then◌else◌, ◌==◌,
  remove_at, ◌≤◌, ◌||◌, ltb, Bool-cases, arith, ap, ltb→lt, [], ltb→le, ◌∙◌, or-false, lt→ltb,
}

-- The options with other numbers, and how many have this one.
abbrev pub without : ℕ → List CoapOption → List CoapOption
without kind [] = []
without kind (o ∷ os) = if o.number == kind then without kind os else o ∷ without kind os

abbrev pub count_of : ℕ → List CoapOption → ℕ
count_of kind [] = 0
count_of kind (o ∷ os) = if o.number == kind then suc (count_of kind os) else count_of kind os

-- The heap after so many blocks were released.
abbrev pub releases : ℕ → Heap → Heap
releases zero h = h
releases (suc n) h = releases n (mem_release h)

-- What the removal of the first option with the number leaves.
abbrev Removal : ℕ → List CoapOption → List CoapOption → Type 0
Removal kind opts rest =
    (count_of kind opts ≡ suc (count_of kind rest)) × (without kind rest ≡ without kind opts)

removal :
    (kind : ℕ) (opts : List CoapOption)
    → find_option kind opts < length opts
    → Removal kind opts (remove_at (find_option kind opts) opts)
unfolding find_option
removal kind [] l = elim l [ ]
removal kind (o ∷ os) l = elim (Bool-cases (o.number == kind)) [
  | inl e ↦ rw e (refl, refl)
  | inr e ↦
      let later : find_option kind os < length os = ground (arith, e, l) in
      let ih = removal kind os later in rw (e, e) (ih.0, ap (◌∷◌ o) ih.1)
]

no_removal :
    (kind : ℕ) (opts : List CoapOption)
    → length opts ≤ find_option kind opts
    → (count_of kind opts ≡ 0) × (without kind opts ≡ opts)
unfolding find_option
no_removal kind [] l = (refl, refl)
no_removal kind (o ∷ os) l = elim (Bool-cases (o.number == kind)) [
  | inl e ↦ absurd (ground (arith, e, l))
  | inr e ↦ let ih = no_removal kind os (ground (arith, e, l)) in rw e (ih.0, ap (◌∷◌ o) ih.1)
]

length-remove_at {ℓ} :
    {A : Type ℓ} (i : ℕ) (xs : List A) → i < length xs → length xs ≡ suc (length (remove_at i xs))
length-remove_at i [] l = elim l [ ]
length-remove_at zero (x ∷ xs) l = refl
length-remove_at (suc i) (x ∷ xs) l = ap suc (length-remove_at i xs (omega arith))

-- The result code says whether a round removed an option.
abbrev code_of : Bool → ℕ → CoapResult
code_of found n = if found || ltb 0 n then ok else not_found

or-true : (b : Bool) → (b || true) ≡ true
or-true true = refl
or-true false = refl

remove_blocks_lem :
    (fuel : ℕ) (opts : List CoapOption) (kind : ℕ) (found : Bool) (h : Heap)
    → length opts ≤ fuel
    → remove_blocks fuel opts kind found h
      ≡ (code_of found (count_of kind opts), without kind opts, releases (count_of kind opts) h)
unfolding remove_blocks
remove_blocks_lem zero [] kind true h l = refl
remove_blocks_lem zero [] kind false h l = refl
remove_blocks_lem zero (o ∷ os) kind found h l = elim l [ ]
remove_blocks_lem (suc fuel) opts kind found h l =
    elim (Bool-cases (ltb (find_option kind opts) (length opts))) [
      | inl e ↦
          let p = ltb→lt _ _ e in
          let step = removal kind opts p in
          let shorter = length-remove_at (find_option kind opts) opts p in
          let ih =
            remove_blocks_lem fuel (remove_at (find_option kind opts) opts) kind true
              (mem_release h) (omega arith) in
          rw
            (
              e,
              step.0,
              lt→ltb 0 (suc (count_of kind (remove_at (find_option kind opts) opts))) (omega arith),
              or-true found,
            )
            (ih
              ∙ ap
                  (λ w. (
                    ok,
                    w,
                    releases (count_of kind (remove_at (find_option kind opts) opts))
                        (mem_release h),
                  ))
                  step.1)
      | inr e ↦
          let none_left = no_removal kind opts (ltb→le _ _ e) in
          rw (e, none_left.0, none_left.1) (rw (or-false found) refl)
    ]

-- All options with the number are removed, and no other: the others stay in their order, and one
-- block is released for each that went. The result is COAP_OK if there was one.
pub remove_all_block_options_lem :
    (opts : List CoapOption) (kind : ℕ) (h : Heap)
    → remove_all_block_options_from_msg opts kind h ≡ (
      if ltb 0 (count_of kind opts) then ok else not_found,
      without kind opts,
      releases (count_of kind opts) h,
    )
unfolding remove_all_block_options_from_msg
remove_all_block_options_lem opts kind h =
    remove_blocks_lem (length opts) opts kind false h (omega arith)

pub without-Lacks : (kind : ℕ) (opts : List CoapOption) → Lacks kind (without kind opts)
without-Lacks kind [] = tt
without-Lacks kind (o ∷ os) = elim (Bool-cases (o.number == kind)) [
  | inl e ↦ rw e (without-Lacks kind os)
  | inr e ↦ rw e (ground (arith, e), without-Lacks kind os)
]

pub Generous-releases : (n : ℕ) (h : Heap) → Generous h → Generous (releases n h)
unfolding mem_release
Generous-releases zero h g = g
Generous-releases (suc n) h g = Generous-releases n (mem_release h) g
