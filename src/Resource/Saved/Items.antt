-- ===== src/Resource/Saved/Items.antt =====
-- The options that CoAP_NVsaveObservers of coap/server/lobaro-coap/coap_resource.c stores for an
-- observer.
use sming_coap.Base.{◌≡◌, refl, arith, true, false, List, [], ◌∷◌, ◌++◌, All, length}
use sming_coap.Heap.{Heap, Generous}
use sming_coap.Options.{CoapOption, opt_num_uri_host, opt_num_uri_path}
use sming_coap.Options.Insert.{IsSorted, taken, insert_sorted, append_option_to_list_met}
use sming_coap.Options.PackedOption.{IsOption, grown}
use sming_coap.Resource.{Resource, Observer}
use sming_coap.Resource.Saved.{
  Layout, opt_num_uri_port, opt_num_lobaro_token_save, sizeof_net_ep, sizeof_token,
  observer_options,
}
use sming_coap.Resource.Saved.Kept.{insert_all, insert_all-append, copy_all_met, grown-Generous}
use sming_coap.Resource.Saved.Restore.{is_own, IsReadable}

-- The observer's fields have the sizes of the layout, which gives them back, and its options are sorted
-- and stand for no field.
pub record IsStorable (lay : Layout) (o : Observer) : Type 0 where
  pub ep_size : length (lay.ep_bytes o.ep) ≡ sizeof_net_ep
  pub ep_back : lay.ep_of (lay.ep_bytes o.ep) ≡ o.ep
  pub token_size : length (lay.token_bytes o.token) ≡ sizeof_token
  pub token_back : lay.token_of (lay.token_bytes o.token) ≡ o.token
  pub own_options : All (λ p. is_own p ≡ true) o.opt_list
  pub own_sorted : IsSorted o.opt_list
  pub own_valid : All IsOption o.opt_list

-- A uri of path options only.
pub record IsPath (uri : List CoapOption) : Type 0 where
  pub path_only : All (λ (p : CoapOption). p.number ≡ opt_num_uri_path) uri
  pub path_valid : All IsOption uri

abbrev pub items : Layout → Resource → Observer → List CoapOption
items lay r o =
    record { number = opt_num_uri_host; value = lay.ep_bytes o.ep }
    ∷ (record { number = opt_num_uri_port; value = o.if_id ∷ [] }
        ∷ (r.uri
            ++ (o.opt_list
                ++ (record { number = opt_num_lobaro_token_save; value = lay.token_bytes o.token }
                    ∷ []))))

-- The options of the record.
abbrev pub saved : Layout → Resource → Observer → List CoapOption
saved lay r o = insert_all (items lay r o) []

pub All-map {ℓ κ} :
    {P : CoapOption → Type ℓ} {Q : CoapOption → Type κ} (xs : List CoapOption)
    → ((x : CoapOption) → P x → Q x)
    → All P xs
    → All Q xs
All-map [] f a = tt
All-map (x ∷ xs) f (p, a) = (f x p, All-map xs f a)

pub path-IsReadable : (x : CoapOption) → x.number ≡ opt_num_uri_path → IsReadable x
path-IsReadable x d = (
  (λ e. absurd (omega (arith, d, e))),
  (λ e. absurd (omega (arith, d, e))),
  (λ e. absurd (omega (arith, d, e))),
)

pub own-IsReadable : (x : CoapOption) → is_own x ≡ true → IsReadable x
own-IsReadable x d =
    ((λ e. ground (arith, d, e)), (λ e. ground (arith, d, e)), (λ e. ground (arith, d, e)))

-- While every request is met, the record has these options.
pub observer_options_met :
    (lay : Layout) (r : Resource) (o : Observer) (h : Heap)
    → Generous h
    → (h' : Heap) × (observer_options lay false r o h ≡ (saved lay r o, h')) × Generous h'
unfolding observer_options
observer_options_met lay r o h g =
    let h1 = taken (taken h) in
    let host : CoapOption = record { number = opt_num_uri_host; value = lay.ep_bytes o.ep } in
    let port : CoapOption = record { number = opt_num_uri_port; value = o.if_id ∷ [] } in
    let before = insert_sorted port (host ∷ []) in
    let with_uri = insert_all r.uri before in
    let h2 = grown (length r.uri) h1 in
    let g2 = grown-Generous (length r.uri) h1 g in
    let h3 = grown (length o.opt_list) h2 in
    let g3 = grown-Generous (length o.opt_list) h2 g2 in
    let with_own = insert_all o.opt_list with_uri in
    let last =
      append_option_to_list_met opt_num_lobaro_token_save (lay.token_bytes o.token) h3 with_own
        (g3 h3.requests _) in
    rw
      (
        append_option_to_list_met opt_num_uri_host (lay.ep_bytes o.ep) h [] (g h.requests _),
        append_option_to_list_met opt_num_uri_port (o.if_id ∷ []) (taken h) (host ∷ []) (g _ _),
        copy_all_met r.uri before h1 g,
        copy_all_met o.opt_list with_uri h2 g2,
        last,
        insert_all-append r.uri _ before,
        insert_all-append o.opt_list _ with_uri,
      )
      (taken h3, refl, g3)
