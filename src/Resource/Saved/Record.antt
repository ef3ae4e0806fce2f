-- ===== src/Resource/Saved/Record.antt =====
-- The record of one observer in coap/server/lobaro-coap/coap_resource.c: the options that
-- CoAP_NVsaveObservers stores, and what CoAP_NVloadObservers makes of them.
use sming_coap.Base.{
  ℕ, ◌≤◌, ◌≡◌, refl, sym, ap, ◌∙◌, arith, Bool, true, false, List, [], ◌∷◌, ◌++◌, ◌==◌, All,
  All-append, take_all, append-nil, ◌≢◌,
}
use sming_coap.Options.{CoapOption, opt_num_uri_host, opt_num_uri_path}
use sming_coap.Options.Insert.{Ascending, IsSorted}
use sming_coap.Options.PackedOption.{IsOption}
use sming_coap.OptionTypes.UriEqual.{path_options}
use sming_coap.Resource.{Resource, Observer}
use sming_coap.Resource.Saved.{
  Layout, opt_num_uri_port, opt_num_lobaro_token_save, sizeof_net_ep, sizeof_token, new_observer,
}
use sming_coap.Resource.Saved.Kept.{
  keep, insert_all, insert_all-All, insert_all-IsSorted, keep-insert_all, keep-append, keep_every,
  keep_none, insert_all_sorted,
}
use sming_coap.Resource.Saved.Restore.{has_number, is_own, IsReadable, restored}
use sming_coap.Resource.Saved.Items.{
  IsStorable, IsPath, items, saved, All-map, path-IsReadable, own-IsReadable,
}

module _ (lay : Layout) (r : Resource) (o : Observer) (p : IsPath r.uri)
    (w : IsStorable lay o) where
  keep-saved :
      (f : CoapOption → Bool) → keep f (saved lay r o) ≡ insert_all (keep f (items lay r o)) []
  keep-saved f = keep-insert_all f (items lay r o) [] tt

  abbrev token_option : CoapOption
  token_option = record { number = opt_num_lobaro_token_save; value = lay.token_bytes o.token }

  abbrev host_option : CoapOption
  host_option = record { number = opt_num_uri_host; value = lay.ep_bytes o.ep }

  abbrev port_option : CoapOption
  port_option = record { number = opt_num_uri_port; value = o.if_id ∷ [] }

  -- What is kept of the path and of the observer's own options.
  keep-middle :
      (f : CoapOption → Bool) (u v : List CoapOption)
      → keep f r.uri ≡ u
      → keep f o.opt_list ≡ v
      → keep f (r.uri ++ (o.opt_list ++ (token_option ∷ [])))
        ≡ u ++ (v ++ keep f (token_option ∷ []))
  keep-middle f u v d e = rw (keep-append f r.uri _, keep-append f o.opt_list _, d, e) refl

  no_path : (n : ℕ) → (opt_num_uri_path == n) ≡ false → keep (has_number n) r.uri ≡ []
  no_path n e = keep_none (has_number n) r.uri (All-map r.uri (λ x d. rw d e) p.path_only)

  no_own :
      (n : ℕ)
      → ((x : CoapOption) → is_own x ≡ true → has_number n x ≡ false)
      → keep (has_number n) o.opt_list ≡ []
  no_own n f = keep_none (has_number n) o.opt_list (All-map o.opt_list f w.own_options)

  uri-Ascending :
      (uri : List CoapOption) (low : ℕ)
      → low ≤ opt_num_uri_path
      → All (λ (x : CoapOption). x.number ≡ opt_num_uri_path) uri
      → Ascending low uri
  uri-Ascending [] low l a = tt
  uri-Ascending (x ∷ xs) low l (e, a) =
      (omega (arith, e, l), uri-Ascending xs x.number (omega (arith, e)) a)

  pub path_options-keep :
      (os : List CoapOption) → path_options os ≡ keep (has_number opt_num_uri_path) os
  path_options-keep [] = refl
  path_options-keep (x ∷ xs) = rw (path_options-keep xs) refl

  -- The record has the resource's path.
  pub path_options-saved : path_options (saved lay r o) ≡ path_options r.uri
  path_options-saved =
      let path = has_number opt_num_uri_path in
      let all = keep_every path r.uri (All-map r.uri (λ x d. rw d refl) p.path_only) in
      let middle =
        keep-middle path r.uri [] all (no_own opt_num_uri_path (λ x d. ground (arith, d))) in
      path_options-keep (saved lay r o)
      ∙ keep-saved path
      ∙ ap (λ x. insert_all x []) (middle ∙ append-nil r.uri)
      ∙ (insert_all_sorted 0 r.uri [] tt (uri-Ascending r.uri 0 (omega arith) p.path_only))
      ∙ sym all
      ∙ sym (path_options-keep r.uri)

  -- What is kept of a field's number.
  keep-field :
      (n : ℕ)
      → (opt_num_uri_path == n) ≡ false
      → ((x : CoapOption) → is_own x ≡ true → has_number n x ≡ false)
      → keep (has_number n) (saved lay r o)
        ≡ insert_all (keep (has_number n) (host_option ∷ (port_option ∷ (token_option ∷ [])))) []
  keep-field n e f =
      keep-saved (has_number n)
      ∙ ap (λ x. insert_all x [])
          (keep-append (has_number n) (host_option ∷ (port_option ∷ [])) _
            ∙ ap (λ x. keep (has_number n) (host_option ∷ (port_option ∷ [])) ++ x)
                (keep-middle (has_number n) [] [] (no_path n e) (no_own n f))
            ∙ sym
                (keep-append (has_number n) (host_option ∷ (port_option ∷ [])) (token_option ∷ [])))

  keep-own : keep is_own (saved lay r o) ≡ o.opt_list
  keep-own =
      keep-saved is_own
      ∙ ap (λ x. insert_all x [])
          (keep-middle is_own [] o.opt_list
              (keep_none is_own r.uri (All-map r.uri (λ x d. rw d refl) p.path_only))
              (keep_every is_own o.opt_list w.own_options)
            ∙ append-nil o.opt_list)
      ∙ insert_all_sorted 0 o.opt_list [] tt w.own_sorted

  pub saved_some : saved lay r o ≢ []
  saved_some e =
      let host : (host_option ∷ []) ≡ [] =
        sym (keep-field opt_num_uri_host refl (λ x d. ground (arith, d)))
        ∙ ap (keep (has_number opt_num_uri_host)) e in
      cc

  -- The record makes the observer again.
  pub restored-saved : restored lay (saved lay r o) new_observer ≡ o
  restored-saved =
      let host = keep-field opt_num_uri_host refl (λ x d. ground (arith, d)) in
      let port = keep-field opt_num_uri_port refl (λ x d. ground (arith, d)) in
      let token = keep-field opt_num_lobaro_token_save refl (λ x d. ground (arith, d)) in
      let own = keep-own in
      rw (host, port, token, own)
        (rw
          (
            take_all sizeof_net_ep (lay.ep_bytes o.ep) (omega (arith, w.ep_size)),
            w.ep_back,
            take_all sizeof_token (lay.token_bytes o.token) (omega (arith, w.token_size)),
            w.token_back,
            insert_all_sorted 0 o.opt_list [] tt w.own_sorted,
          )
          refl)

  pub saved-IsReadable : All IsReadable (saved lay r o)
  saved-IsReadable =
      insert_all-All IsReadable (items lay r o) []
        (
          (
            (λ e. omega (arith, w.ep_size)),
            (λ e. absurd (omega (arith, e))),
            (λ e. absurd (omega (arith, e))),
          ),
          (
            (
              (λ e. absurd (omega (arith, e))),
              (λ e. omega arith),
              (λ e. absurd (omega (arith, e))),
            ),
            All-append IsReadable r.uri _ (All-map r.uri path-IsReadable p.path_only) (
                All-append IsReadable o.opt_list _ (All-map o.opt_list own-IsReadable w.own_options)
                  (
                    (
                      (λ e. absurd (omega (arith, e))),
                      (λ e. absurd (omega (arith, e))),
                      (λ e. omega (arith, w.token_size)),
                    ),
                    tt,
                  )),
          ),
        )
        tt

  pub saved-IsOption : All IsOption (saved lay r o)
  saved-IsOption =
      insert_all-All IsOption (items lay r o) []
        (
          record { number_bound = omega arith; value_bound = omega (arith, w.ep_size) },
          (
            record { number_bound = omega arith; value_bound = omega arith },
            All-append IsOption r.uri _ p.path_valid (
                All-append IsOption o.opt_list _ w.own_valid (
                  record { number_bound = omega arith; value_bound = omega (arith, w.token_size) },
                  tt,
                )),
          ),
        )
        tt

  pub saved-IsSorted : IsSorted (saved lay r o)
  saved-IsSorted = insert_all-IsSorted (items lay r o) [] tt
