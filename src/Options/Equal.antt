-- ===== src/Options/Equal.antt =====
-- The comparison of options and the search for critical ones in
-- coap/server/lobaro-coap/coap_options.c.
use sming_coap.Base.{
  ℕ, ◌≡◌, ◌↔◌, ◌⊎◌, inl, inr, refl, arith, ap, Bool, true, false, List, [], ◌∷◌, ◌++◌, ◌==◌,
  if◌then◌else◌, Option, none, some, length, All, ◌%◌, Bool-cases, ◌∙◌,
}
use sming_coap.Options.{
  CoapOption, bytes_are_equal, is_known, known_options, check_for_unknown_critical_option,
}

-- A pointer to an option, NULL as `none`. The lengths, the numbers, then the bytes are compared.
unfoldable pub options_are_equal : Option CoapOption → Option CoapOption → Bool
unfolding bytes_are_equal
options_are_equal none none = true
options_are_equal none (some b) = false
options_are_equal (some a) none = false
options_are_equal (some a) (some b) =
    if length a.value == length b.value
    then (if a.number == b.number then bytes_are_equal a.value b.value else false)
    else false

bytes_are_equal_refl : (xs : List ℕ) → bytes_are_equal xs xs ≡ true
unfolding bytes_are_equal
bytes_are_equal_refl [] = refl
bytes_are_equal_refl (x ∷ xs) = ground (arith, bytes_are_equal_refl xs)

bytes_are_equal_eq :
    (xs ys : List ℕ) → length xs ≡ length ys → bytes_are_equal xs ys ≡ true → xs ≡ ys
unfolding bytes_are_equal
bytes_are_equal_eq [] [] l e = refl
bytes_are_equal_eq [] (y ∷ ys) l e = ground arith
bytes_are_equal_eq (x ∷ xs) [] l e = ground arith
bytes_are_equal_eq (x ∷ xs) (y ∷ ys) l e = ground (arith, bytes_are_equal_eq xs ys)

options_are_equal_refl : (a : Option CoapOption) → options_are_equal a a ≡ true
unfolding options_are_equal
options_are_equal_refl none = refl
options_are_equal_refl (some a) = ground (arith, bytes_are_equal_refl a.value)

-- Two pointers compare equal exactly if both are NULL or the options have the same number and value.
pub options_are_equal_iff : (a b : Option CoapOption) → (options_are_equal a b ≡ true) ↔ (a ≡ b)
unfolding options_are_equal
options_are_equal_iff a b = (forward a b, λ e. rw (← e) (options_are_equal_refl a))
  where
    forward : (a b : Option CoapOption) → options_are_equal a b ≡ true → a ≡ b
    forward none none e = refl
    forward none (some b) e = ground arith
    forward (some a) none e = ground arith
    forward (some a) (some b) e = ground (arith, bytes_are_equal_eq a.value b.value)

-- The number is one of a list.
abbrev pub Listed : ℕ → List ℕ → Type 0
Listed n [] = ⊥
Listed n (k ∷ ks) = (n ≡ k) ⊎ Listed n ks

-- An option that need not be refused: one of the known ones, or an elective one.
abbrev pub Tolerated : CoapOption → Type 0
Tolerated o = Listed o.number known_options ⊎ (o.number % 2 ≡ 0)

-- The list's first option that is not tolerated, with the tolerated ones before it.
pub record FirstCritical (opts : List CoapOption) (number : ℕ) : Type 0 where
  pub before : List CoapOption
  pub critical : CoapOption
  pub after : List CoapOption
  pub split : opts ≡ before ++ (critical ∷ after)
  pub before_ok : All Tolerated before
  pub critical_bad : ¬ Tolerated critical
  pub critical_number : critical.number ≡ number

Tolerated-or_not :
    (o : CoapOption)
    → (Tolerated o
        × ((rest : List CoapOption)
            → check_for_unknown_critical_option (o ∷ rest)
              ≡ check_for_unknown_critical_option rest))
      ⊎ (¬ Tolerated o
          × ((rest : List CoapOption) → check_for_unknown_critical_option (o ∷ rest) ≡ o.number))
unfolding check_for_unknown_critical_option
Tolerated-or_not o = elim (Bool-cases (is_known o.number known_options)) [
  | inl e ↦ inl (ground (arith, e), λ rest. rw e refl)
  | inr e ↦ elim (Bool-cases (o.number % 2 == 1)) [
    | inl f ↦ inr (ground (arith, e), λ rest. ground (arith, e, f))
    | inr f ↦ inl (ground (arith, e), λ rest. ground (arith, e, f))
  ]
]

further_critical :
    (o : CoapOption) (os : List CoapOption) (n : ℕ)
    → Tolerated o
    → FirstCritical os n
    → FirstCritical (o ∷ os) n
further_critical o os n t f = record {
  before = o ∷ f.before;
  critical = f.critical;
  after = f.after;
  split = ap (◌∷◌ o) f.split;
  before_ok = (t, f.before_ok);
  critical_bad = f.critical_bad;
  critical_number = f.critical_number;
}

check_nil : check_for_unknown_critical_option [] ≡ 0
unfolding check_for_unknown_critical_option
check_nil = refl

-- Either the answer is 0 and every option is known or elective, or the answer is the number of the
-- first option that is neither.
pub check_for_unknown_critical_option_lem :
    (opts : List CoapOption)
    → ((check_for_unknown_critical_option opts ≡ 0) × All Tolerated opts)
      ⊎ FirstCritical opts (check_for_unknown_critical_option opts)
check_for_unknown_critical_option_lem [] = inl (check_nil, tt)
check_for_unknown_critical_option_lem (o ∷ os) = elim (Tolerated-or_not o) [
  | inl (t, e) ↦ elim (check_for_unknown_critical_option_lem os) [
    | inl (z, a) ↦ inl (e os ∙ z, (t, a))
    | inr f ↦ rw (e os) (inr (further_critical o os _ t f))
  ]
  | inr (n, e) ↦ rw (e os) (
      inr (record {
        before = [];
        critical = o;
        after = os;
        split = refl;
        before_ok = tt;
        critical_bad = n;
        critical_number = refl;
      }))
]
