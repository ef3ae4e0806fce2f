-- ===== src/Options/Insert.antt =====
-- What CoAP_AppendOptionToList of coap/server/lobaro-coap/coap_options.c does to the list.
use mathlib.Core.List.{Perm}
use mathlib.Core.List.Perm
use sming_coap.Base.{
  ℕ, suc, ◌+◌, ◌≤◌, ◌≡◌, refl, ap, arith, Bool, true, false, List, [], ◌∷◌, ◌++◌, leb,
  if◌then◌else◌, length, take, drop, Bool-cases, inl, inr, All,
}
use sming_coap.Heap.{Heap}
use sming_coap.CoapResult.{ok, err_out_of_memory}
use sming_coap.Options.{CoapOption, sizeof_option, insert_point, append_option_to_list}

-- The reference: behind the last option with a number up to the new one.
abbrev pub insert_sorted : CoapOption → List CoapOption → List CoapOption
insert_sorted o [] = o ∷ []
insert_sorted o (p ∷ ps) = if leb p.number o.number then p ∷ insert_sorted o ps else o ∷ (p ∷ ps)

-- Ascending option numbers, none below `low`.
abbrev pub Ascending : ℕ → List CoapOption → Type 0
Ascending low [] = Unit {0}
Ascending low (o ∷ os) = (low ≤ o.number) × Ascending o.number os

abbrev pub IsSorted : List CoapOption → Type 0
IsSorted = Ascending 0

abbrev pub taken : Heap → Heap
taken h = record h { requests = suc h.requests; live = suc h.live }

abbrev pub refused : Heap → Heap
refused h = record h { requests = suc h.requests }

-- The new option would become the first of a list that is not empty.
abbrev pub goes_first : ℕ → List CoapOption → Bool
goes_first number [] = false
goes_first number (o ∷ os) = if leb o.number number then false else true

insert_point-le : (opts : List CoapOption) (n : ℕ) → insert_point opts n ≤ length opts
unfolding insert_point
insert_point-le [] n = omega arith
insert_point-le (o ∷ os) n = ground (arith, insert_point-le os n)

insert_point_splits :
    (opts : List CoapOption) (o : CoapOption)
    → take (insert_point opts o.number) opts ++ (o ∷ drop (insert_point opts o.number) opts)
      ≡ insert_sorted o opts
unfolding insert_point
insert_point_splits [] o = refl
insert_point_splits (p ∷ ps) o = elim (Bool-cases (leb p.number o.number)) [
  | inl e ↦ rw e (ap (◌∷◌ p) (insert_point_splits ps o))
  | inr e ↦ rw e
]

insert_point_end :
    (opts : List CoapOption) (o : CoapOption)
    → insert_point opts o.number ≡ length opts
    → opts ++ (o ∷ []) ≡ insert_sorted o opts
unfolding insert_point
insert_point_end [] o h = refl
insert_point_end (p ∷ ps) o h = elim (Bool-cases (leb p.number o.number)) [
  | inl e ↦ rw e (ap (◌∷◌ p) (insert_point_end ps o (ground arith)))
  | inr e ↦ ground arith
]

module _ (number : ℕ) (buf : List ℕ) (h : Heap) where
  -- Where the request for the new node is met, the list is the reference's and one more block is
  -- held; the result is COAP_OK.
  pub append_option_to_list_met :
      (opts : List CoapOption)
      → h.verdict h.requests (sizeof_option + length buf) ≡ true
      → append_option_to_list opts number buf h
        ≡ (ok, insert_sorted (record { number = number; value = buf }) opts, taken h)
  unfolding append_option_to_list
  append_option_to_list_met [] e = rw e
  append_option_to_list_met (o ∷ os) e = ground (
    arith,
    insert_point_splits (o ∷ os) (record { number = number; value = buf }),
    insert_point_end (o ∷ os) (record { number = number; value = buf }),
    insert_point-le (o ∷ os) number,
  )

  -- Where the request for the new option's memory is refused, the append leaves the list as it was,
  -- unless the new option would have become the first of a list that is not empty: then the list's
  -- start is NULL and no block was released.
  pub append_option_to_list-refused :
      (opts : List CoapOption)
      → h.verdict h.requests (sizeof_option + length buf) ≡ false
      → append_option_to_list opts number buf h
        ≡ (err_out_of_memory, (if goes_first number opts then [] else opts), refused h)
  unfolding append_option_to_list
  append_option_to_list-refused [] e = rw e
  append_option_to_list-refused (o ∷ os) e = ground (arith, insert_point-le (o ∷ os) number)

-- An append with the result COAP_OK is one whose request was met.
pub append_option_to_list_ok :
    (number : ℕ) (buf : List ℕ) (h : Heap) (opts os : List CoapOption) (h' : Heap)
    → append_option_to_list opts number buf h ≡ (ok, os, h')
    → (os ≡ insert_sorted (record { number = number; value = buf }) opts) × (h' ≡ taken h)
append_option_to_list_ok number buf h opts os h' e =
    elim (Bool-cases (h.verdict h.requests (sizeof_option + length buf))) [
      | inl met ↦ ground (arith, append_option_to_list_met number buf h opts met)
      | inr not_met ↦ ground (arith, append_option_to_list-refused number buf h opts not_met)
    ]

pub insert_sorted-Ascending :
    (low : ℕ) (o : CoapOption) (opts : List CoapOption)
    → low ≤ o.number
    → Ascending low opts
    → Ascending low (insert_sorted o opts)
insert_sorted-Ascending low o [] h s = (h, tt)
insert_sorted-Ascending low o (p ∷ ps) h s = ground (arith, insert_sorted-Ascending p.number o ps)

pub insert_sorted-perm :
    (o : CoapOption) (opts : List CoapOption) → Perm (insert_sorted o opts) (o ∷ opts)
insert_sorted-perm o [] = Perm.refl (o ∷ [])
insert_sorted-perm o (p ∷ ps) = elim (Bool-cases (leb p.number o.number)) [
  | inl e ↦ rw e (Perm.trans (Perm.cons p (insert_sorted-perm o ps)) (Perm.swap o p ps))
  | inr e ↦ rw e (Perm.refl _)
]

-- From a sorted list a met request makes a sorted list of the same options and the new one.
pub append_option_to_list-IsSorted :
    (number : ℕ) (buf : List ℕ) (h : Heap) (opts : List CoapOption)
    → h.verdict h.requests (sizeof_option + length buf) ≡ true
    → IsSorted opts
    → let after = append_option_to_list opts number buf h in
      IsSorted after.1 × Perm after.1 (record { number = number; value = buf } ∷ opts)
append_option_to_list-IsSorted number buf h opts e s =
    rw (append_option_to_list_met number buf h opts e)
      (insert_sorted-Ascending 0 _ opts (omega arith) s, insert_sorted-perm _ opts)

-- An option whose number no other exceeds goes to the end.
pub insert_sorted_last :
    (o : CoapOption) (opts : List CoapOption)
    → All (λ (p : CoapOption). p.number ≤ o.number) opts
    → insert_sorted o opts ≡ opts ++ (o ∷ [])
insert_sorted_last o [] h = refl
insert_sorted_last o (p ∷ ps) h = ground (arith, insert_sorted_last o ps)
