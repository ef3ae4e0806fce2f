-- ===== src/Resource/Saved/Kept.antt =====
-- The options that stand for an observer in coap/server/lobaro-coap/coap_resource.c, sorted as
-- CoAP_AppendOptionToList sorts them, and what is taken out of them again.
use sming_coap.Base.{
  ℕ, zero, suc, ◌≤◌, ◌<◌, ◌≡◌, refl, sym, ◌∙◌, arith, Bool, true, false, List, [], ◌∷◌, ◌++◌,
  append_assoc, Bool-cases, inl, inr, leb, if◌then◌else◌, All, length, append-nil,
}
use sming_coap.Heap.{Heap, Generous}
use sming_coap.Options.{CoapOption, copy_option_to_list}
use sming_coap.Options.Insert.{
  Ascending, IsSorted, taken, insert_sorted, insert_sorted-Ascending, insert_sorted_last,
  append_option_to_list_met,
}
use sming_coap.Options.PackedOption.{All-le, grown}
use sming_coap.Options.RoundTrip.{All-snoc}
use sming_coap.Resource.Saved.{copy_all, ok}

-- The options with a property, in their order.
abbrev pub keep : (CoapOption → Bool) → List CoapOption → List CoapOption
keep p [] = []
keep p (o ∷ os) = if p o then o ∷ keep p os else keep p os

-- Each option is inserted at its place, one after the other.
abbrev pub insert_all : List CoapOption → List CoapOption → List CoapOption
insert_all [] xs = xs
insert_all (o ∷ os) xs = insert_all os (insert_sorted o xs)

pub keep-All {ℓ} :
    (P : CoapOption → Type ℓ) (p : CoapOption → Bool) (xs : List CoapOption)
    → All P xs
    → All P (keep p xs)
keep-All P p [] a = a
keep-All P p (x ∷ xs) (b, a) = elim (Bool-cases (p x)) [
  | inl e ↦ rw e (b, keep-All P p xs a)
  | inr e ↦ rw e (keep-All P p xs a)
]

insert_sorted-All {ℓ} :
    (P : CoapOption → Type ℓ) (o : CoapOption) (xs : List CoapOption)
    → P o
    → All P xs
    → All P (insert_sorted o xs)
insert_sorted-All P o [] b a = (b, tt)
insert_sorted-All P o (x ∷ xs) b (c, a) = elim (Bool-cases (leb x.number o.number)) [
  | inl e ↦ rw e (c, insert_sorted-All P o xs b a)
  | inr e ↦ rw e (b, (c, a))
]

pub insert_all-All {ℓ} :
    (P : CoapOption → Type ℓ) (os xs : List CoapOption)
    → All P os
    → All P xs
    → All P (insert_all os xs)
insert_all-All P [] xs b a = a
insert_all-All P (o ∷ os) xs (c, b) a =
    insert_all-All P os (insert_sorted o xs) b (insert_sorted-All P o xs c a)

pub insert_all-IsSorted : (os xs : List CoapOption) → IsSorted xs → IsSorted (insert_all os xs)
insert_all-IsSorted [] xs a = a
insert_all-IsSorted (o ∷ os) xs a =
    insert_all-IsSorted os (insert_sorted o xs) (insert_sorted-Ascending 0 o xs (omega arith) a)

pub insert_all-append :
    (os ps xs : List CoapOption) → insert_all (os ++ ps) xs ≡ insert_all ps (insert_all os xs)
insert_all-append [] ps xs = refl
insert_all-append (o ∷ os) ps xs = insert_all-append os ps (insert_sorted o xs)

insert_sorted_first :
    (o : CoapOption) (xs : List CoapOption)
    → All (λ (x : CoapOption). o.number < x.number) xs
    → insert_sorted o xs ≡ o ∷ xs
insert_sorted_first o [] a = refl
insert_sorted_first o (x ∷ xs) (l, a) = ground (arith, l)

Ascending-All :
    (low n : ℕ) (xs : List CoapOption)
    → n < low
    → Ascending low xs
    → All (λ (x : CoapOption). n < x.number) xs
Ascending-All low n [] l a = tt
Ascending-All low n (x ∷ xs) l (b, a) = (omega arith, Ascending-All x.number n xs (omega arith) a)

module _ (p : CoapOption → Bool) where
  keep-insert_other :
      (o : CoapOption) (xs : List CoapOption)
      → p o ≡ false
      → keep p (insert_sorted o xs) ≡ keep p xs
  keep-insert_other o [] e = rw e refl
  keep-insert_other o (x ∷ xs) e = elim (Bool-cases (leb x.number o.number)) [
    | inl f ↦ rw (f, keep-insert_other o xs e) refl
    | inr f ↦ rw (f, e) refl
  ]

  keep-insert :
      (o : CoapOption) (low : ℕ) (xs : List CoapOption)
      → p o ≡ true
      → Ascending low xs
      → keep p (insert_sorted o xs) ≡ insert_sorted o (keep p xs)
  keep-insert o low [] e a = rw e refl
  keep-insert o low (x ∷ xs) e (l, a) = elim (Bool-cases (leb x.number o.number)) [
    | inl f ↦ elim (Bool-cases (p x)) [
      | inl t ↦ rw (f, t, keep-insert o x.number xs e a, f) refl
      | inr t ↦ rw (f, t, keep-insert o x.number xs e a) refl
    ]
    | inr f ↦
        let above =
          keep-All (λ (y : CoapOption). o.number < y.number) p (x ∷ xs)
            (ground (arith, f), Ascending-All x.number o.number xs (ground (arith, f)) a) in
        rw (f, e) (sym (insert_sorted_first o (keep p (x ∷ xs)) above))
  ]

  -- What is kept of a sorted list was kept before the sorting.
  pub keep-insert_all :
      (os xs : List CoapOption)
      → IsSorted xs
      → keep p (insert_all os xs) ≡ insert_all (keep p os) (keep p xs)
  keep-insert_all [] xs a = refl
  keep-insert_all (o ∷ os) xs a =
      let ih =
        keep-insert_all os (insert_sorted o xs) (insert_sorted-Ascending 0 o xs (omega arith) a) in
      elim (Bool-cases (p o)) [
        | inl e ↦ rw (e, ih, keep-insert o 0 xs e a) refl
        | inr e ↦ rw (e, ih, keep-insert_other o xs e) refl
      ]

  pub keep-append : (xs ys : List CoapOption) → keep p (xs ++ ys) ≡ keep p xs ++ keep p ys
  keep-append [] ys = refl
  keep-append (x ∷ xs) ys = elim (Bool-cases (p x)) [
    | inl e ↦ rw (e, keep-append xs ys) refl
    | inr e ↦ rw (e, keep-append xs ys) refl
  ]

  pub keep_every : (xs : List CoapOption) → All (λ x. p x ≡ true) xs → keep p xs ≡ xs
  keep_every [] a = refl
  keep_every (x ∷ xs) (e, a) = rw (e, keep_every xs a) refl

  pub keep_none : (xs : List CoapOption) → All (λ x. p x ≡ false) xs → keep p xs ≡ []
  keep_none [] a = refl
  keep_none (x ∷ xs) (e, a) = rw (e, keep_none xs a) refl

-- Sorted options behind those of lower numbers stay in their order.
pub insert_all_sorted :
    (low : ℕ) (os xs : List CoapOption)
    → All (λ (x : CoapOption). x.number ≤ low) xs
    → Ascending low os
    → insert_all os xs ≡ xs ++ os
insert_all_sorted low [] xs a s = sym (append-nil xs)
insert_all_sorted low (o ∷ os) xs a (l, s) =
    let last = insert_sorted_last o xs (All-le xs low o.number l a) in
    rw last (
      insert_all_sorted o.number os (xs ++ (o ∷ [])) (All-snoc xs low o l a) s
      ∙ append_assoc xs (o ∷ []) os)

pub copy_option_met :
    (opts : List CoapOption) (o : CoapOption) (h : Heap)
    → Generous h
    → copy_option_to_list opts o h ≡ (ok, insert_sorted o opts, taken h)
unfolding copy_option_to_list
copy_option_met opts o h g = append_option_to_list_met o.number o.value h opts (g h.requests _)

-- While every request is met, the copied options are inserted.
pub copy_all_met :
    (os xs : List CoapOption) (h : Heap)
    → Generous h
    → copy_all os xs h ≡ (insert_all os xs, grown (length os) h)
unfolding copy_all
copy_all_met [] xs h g = refl
copy_all_met (o ∷ os) xs h g =
    rw (copy_option_met xs o h g) (copy_all_met os (insert_sorted o xs) (taken h) g)

pub grown-Generous : (k : ℕ) (h : Heap) → Generous h → Generous (grown k h)
grown-Generous zero h g = g
grown-Generous (suc k) h g = grown-Generous k (taken h) g
