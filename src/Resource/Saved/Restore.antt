-- ===== src/Resource/Saved/Restore.antt =====
-- The observer that CoAP_NVloadObservers of coap/server/lobaro-coap/coap_resource.c makes of the
-- options of a record.
use sming_coap.Base.{
  ℕ, ◌≤◌, ◌≡◌, ◌⊎◌, refl, sym, ap, ◌∙◌, arith, Bool, true, false, List, [], ◌∷◌, some, inl, inr,
  ◌==◌, if◌then◌else◌, All, length, take, get_or, le→ltb,
}
use mathlib.Core.Path.{subst}
use sming_coap.Heap.{Heap, Generous}
use sming_coap.Options.{CoapOption, opt_num_uri_host, opt_num_uri_path}
use sming_coap.Options.Insert.{taken, insert_sorted}
use sming_coap.Resource.{Observer}
use sming_coap.Resource.Saved.{
  Layout, opt_num_uri_port, opt_num_lobaro_token_save, sizeof_net_ep, sizeof_token, restore_option,
  restore_options,
}
use sming_coap.Resource.Saved.Kept.{keep, insert_all, copy_option_met}

abbrev pub has_number : ℕ → CoapOption → Bool
has_number n o = o.number == n

-- An option that is the observer's own: it does not stand for one of the fields, or the path.
abbrev pub is_own : CoapOption → Bool
is_own o =
    if o.number == opt_num_uri_host
    then false
    else if o.number == opt_num_uri_port
    then false
    else if o.number == opt_num_uri_path
    then false
    else if o.number == opt_num_lobaro_token_save
    then false
    else true

-- What the last option of a list says, and a default for none.
abbrev pub last_of {ℓ} : {A : Type ℓ} → (List ℕ → A) → List CoapOption → A → A
last_of f [] d = d
last_of f (o ∷ os) d = last_of f os (f o.value)

-- The values of the fields are long enough to be read.
abbrev pub IsReadable : CoapOption → Type 0
IsReadable o =
    (o.number ≡ opt_num_uri_host → sizeof_net_ep ≤ length o.value)
    × (o.number ≡ opt_num_uri_port → 1 ≤ length o.value)
    × (o.number ≡ opt_num_lobaro_token_save → sizeof_token ≤ length o.value)

-- The observer that the options of a record make.
abbrev pub restored : Layout → List CoapOption → Observer → Observer
restored lay ps o = record {
  ep = last_of (λ v. lay.ep_of (take sizeof_net_ep v)) (keep (has_number opt_num_uri_host) ps) o.ep;
  if_id = last_of (λ v. get_or v 0 0) (keep (has_number opt_num_uri_port) ps) o.if_id;
  token =
      last_of (λ v. lay.token_of (take sizeof_token v))
        (keep (has_number opt_num_lobaro_token_save) ps) o.token;
  opt_list = insert_all (keep is_own ps) o.opt_list;
}

-- What the number says of an option.
abbrev Kind : ℕ → Type 0
Kind n =
    (n ≡ opt_num_uri_host)
    ⊎ (n ≡ opt_num_uri_port)
    ⊎ (n ≡ opt_num_uri_path)
    ⊎ (n ≡ opt_num_lobaro_token_save)
    ⊎ (((n == opt_num_uri_host) ≡ false)
        × ((n == opt_num_uri_port) ≡ false)
        × ((n == opt_num_uri_path) ≡ false)
        × ((n == opt_num_lobaro_token_save) ≡ false))

kind : (n : ℕ) → Kind n
kind n = ground arith

module _ (lay : Layout) (v : List ℕ) (o : Observer) (h : Heap) (g : Generous h) where
  -- One option of a number is restored.
  abbrev OneRestored : ℕ → Type 0
  OneRestored n =
      (o' : Observer) × (h' : Heap) × (restore_option lay (record { number = n; value = v }) o h
        ≡ some (o', h'))
      × Generous h'
      × ((ps : List CoapOption)
          → restored lay ps o' ≡ restored lay (record { number = n; value = v } ∷ ps) o)

  one-restored : (n : ℕ) → IsReadable (record { number = n; value = v }) → Kind n → OneRestored n
  unfolding restore_option
  one-restored n (host, port, token) (inl e) =
      subst OneRestored (sym e)
        (rw (le→ltb (length v) sizeof_net_ep (host e)) (_, h, refl, g, λ ps. refl))
  one-restored n (host, port, token) (inr (inl e)) =
      subst OneRestored (sym e) (rw (le→ltb (length v) 1 (port e)) (_, h, refl, g, λ ps. refl))
  one-restored n r (inr (inr (inl e))) = subst OneRestored (sym e) (o, h, refl, g, λ ps. refl)
  one-restored n (host, port, token) (inr (inr (inr (inl e)))) =
      subst OneRestored (sym e)
        (rw (le→ltb (length v) sizeof_token (token e)) (_, h, refl, g, λ ps. refl))
  one-restored n r (inr (inr (inr (inr (a, b, c, d))))) =
      let x : CoapOption = record { number = n; value = v } in
      rw (a, b, c, d, copy_option_met o.opt_list x h g)
        (record o { opt_list = insert_sorted x o.opt_list }, taken h, refl, g, λ ps. refl)

-- While every request is met, the options of a record are restored.
pub restore_options_met :
    (lay : Layout) (ps : List CoapOption) (o : Observer) (h : Heap)
    → All IsReadable ps
    → Generous h
    → (h' : Heap) × (restore_options lay ps o h ≡ some (restored lay ps o, h')) × Generous h'
unfolding restore_options
restore_options_met lay [] o h r g = (h, refl, g)
restore_options_met lay (p ∷ ps) o h (r, rs) g =
    let (o1, h1, e, g1, same) = one-restored lay p.value o h g p.number r (kind p.number) in
    let (h2, f, g2) = restore_options_met lay ps o1 h1 rs g1 in
    rw (restore_options, e) (h2, f ∙ ap (λ x. some (x, h2)) (same ps), g2)
