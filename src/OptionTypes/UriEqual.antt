-- ===== src/OptionTypes/UriEqual.antt =====
-- The comparison of two lists by their path options:
-- coap/server/lobaro-coap/option-types/coap_option_uri.c.
use sming_coap.Base.{
  ℕ, zero, suc, ◌+◌, ◌<◌, ◌≡◌, ◌↔◌, ◌⊎◌, inl, inr, refl, arith, Bool, true, false, ◌&&◌, List, [],
  ◌∷◌, ◌==◌, if◌then◌else◌, Option, none, some, length, Bool-cases,
}
use sming_coap.Options.{CoapOption, opt_num_uri_path}
use sming_coap.Options.Equal.{options_are_equal, options_are_equal_iff}

-- The pointer is moved to the next path option, or behind the end.
unfoldable pub to_uri_path : List CoapOption → List CoapOption
to_uri_path [] = []
to_uri_path (o ∷ os) = if o.number == opt_num_uri_path then o ∷ os else to_uri_path os

abbrev pub node : List CoapOption → Option CoapOption
node [] = none
node (o ∷ os) = some o

abbrev pub next : List CoapOption → List CoapOption
next [] = []
next (o ∷ os) = os

abbrev pub is_null : List CoapOption → Bool
is_null [] = true
is_null (o ∷ os) = false

-- The loop runs on fuel; it gives no answer when the fuel is used up.
unfoldable pub uri_loop : ℕ → List CoapOption → List CoapOption → Option Bool
unfolding to_uri_path options_are_equal
uri_loop zero a b = none
uri_loop (suc fuel) a b =
    let rest = uri_loop fuel (next (to_uri_path a)) (next (to_uri_path b)) in
    if is_null a && is_null b
    then some true
    else if options_are_equal (node (to_uri_path a)) (node (to_uri_path b))
    then rest
    else some false

-- Each round leaves a node of one of the lists behind.
unfoldable pub uri_options_are_equal : List CoapOption → List CoapOption → Option Bool
unfolding uri_loop
uri_options_are_equal a b = uri_loop (suc (length a + length b)) a b

-- The path options of a list, in their order.
abbrev pub path_options : List CoapOption → List CoapOption
path_options [] = []
path_options (o ∷ os) =
    if o.number == opt_num_uri_path then o ∷ path_options os else path_options os

-- What the pointer's move leaves of a list.
abbrev View : List CoapOption → Type 0
View a =
    ((to_uri_path a ≡ []) × (path_options a ≡ []))
    ⊎ ((o : CoapOption) × (r : List CoapOption) × (to_uri_path a ≡ o ∷ r)
        × (path_options a ≡ o ∷ path_options r)
        × (length r < length a))

to_uri_path-View : (a : List CoapOption) → View a
unfolding to_uri_path
to_uri_path-View [] = inl (refl, refl)
to_uri_path-View (o ∷ os) = elim (Bool-cases (o.number == opt_num_uri_path)) [
  | inl e ↦ inr (o, os, ground (arith, e), ground (arith, e), omega arith)
  | inr e ↦ elim (to_uri_path-View os) [
    | inl (t, p) ↦ inl (ground (arith, e, t), ground (arith, e, p))
    | inr (q, r, t, p, l) ↦ inr (q, r, ground (arith, e, t), ground (arith, e, p), omega arith)
  ]
]

-- The answer of the loop says whether the path options are the same.
abbrev pub Decides : Option Bool → List CoapOption → List CoapOption → Type 0
Decides answer a b =
    (r : Bool) × (answer ≡ some r) × ((r ≡ true) ↔ (path_options a ≡ path_options b))

-- One round on two lists that are not both at their end.
uri_round :
    (n : ℕ) (a b : List CoapOption)
    → 0 < length a + length b
    → uri_loop (suc n) a b ≡ (
        if options_are_equal (node (to_uri_path a)) (node (to_uri_path b))
        then uri_loop n (next (to_uri_path a)) (next (to_uri_path b))
        else some false)
unfolding uri_loop
uri_round n [] [] l = ground arith
uri_round n [] (o ∷ os) l = refl
uri_round n (o ∷ os) b l = refl

equal_round : (o : Option CoapOption) → options_are_equal o o ≡ true
equal_round o = (options_are_equal_iff o o).1 refl

differ : (a b : Option CoapOption) → ¬ (a ≡ b) → options_are_equal a b ≡ false
differ a b d = elim (Bool-cases (options_are_equal a b)) [
  | inl e ↦ ground (arith, d ((options_are_equal_iff a b).0 e))
  | inr e ↦ e
]

round-Decides :
    (n : ℕ) (a b : List CoapOption)
    → 0 < length a + length b
    → ((a' b' : List CoapOption)
        → length a' + length b' < length a + length b
        → Decides (uri_loop n a' b') a' b')
    → View a
    → View b
    → Decides (uri_loop (suc n) a b) a b
round-Decides n a b l ih (inl (ta, pa)) (inl (tb, pb)) =
    rw (uri_round n a b l, ta, tb, pa, pb, equal_round none) (ih [] [] l)
round-Decides n a b l ih (inl (ta, pa)) (inr (q, s, tb, pb, lb)) =
    rw (uri_round n a b l, ta, tb, pa, pb, differ none (some q) (ground arith))
      (false, refl, ground arith)
round-Decides n a b l ih (inr (o, r, ta, pa, la)) (inl (tb, pb)) =
    rw (uri_round n a b l, ta, tb, pa, pb, differ (some o) none (ground arith))
      (false, refl, ground arith)
round-Decides n a b l ih (inr (o, r, ta, pa, la)) (inr (q, s, tb, pb, lb)) =
    let (x, e, i) = ih r s (omega arith) in
    elim (Bool-cases (options_are_equal (some o) (some q))) [
      | inl f ↦
          let same : some o ≡ some q = (options_are_equal_iff (some o) (some q)).0 f in
          rw (uri_round n a b l, ta, tb, pa, pb, f) (x, e, ground (arith, i, same))
      | inr f ↦
          let other : ¬ (some o ≡ some q) =
            λ g. ground (arith, (options_are_equal_iff (some o) (some q)).1 g, f) in
          rw (uri_round n a b l, ta, tb, pa, pb, f) (false, refl, ground (arith, other))
    ]

uri_loop_nil : (n : ℕ) → uri_loop (suc n) [] [] ≡ some true
unfolding uri_loop
uri_loop_nil n = refl

uri_loop-Decides :
    (fuel : ℕ) (a b : List CoapOption)
    → length a + length b < fuel
    → Decides (uri_loop fuel a b) a b
uri_loop-Decides zero a b l = elim l [ ]
uri_loop-Decides (suc n) [] [] l = (true, uri_loop_nil n, ground arith)
uri_loop-Decides (suc n) [] (o ∷ os) l =
    round-Decides n [] (o ∷ os) (omega arith) (λ a' b' k. uri_loop-Decides n a' b' (omega arith))
      (to_uri_path-View []) (to_uri_path-View (o ∷ os))
uri_loop-Decides (suc n) (o ∷ os) b l =
    round-Decides n (o ∷ os) b (omega arith) (λ a' b' k. uri_loop-Decides n a' b' (omega arith))
      (to_uri_path-View (o ∷ os)) (to_uri_path-View b)

-- The comparison of two lists ends, and answers yes exactly if their path options are the same in
-- the same order.
pub uri_options_are_equal-Decides :
    (a b : List CoapOption) → Decides (uri_options_are_equal a b) a b
unfolding uri_options_are_equal
uri_options_are_equal-Decides a b = uri_loop-Decides (suc (length a + length b)) a b (omega arith)
