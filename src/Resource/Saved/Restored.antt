-- ===== src/Resource/Saved/Restored.antt =====
-- CoAP_NVloadObservers after CoAP_NVsaveObservers, both of
-- coap/server/lobaro-coap/coap_resource.c.
use sming_coap.Base.{
  ℕ, suc, ◌+◌, ◌<◌, ◌≡◌, refl, sym, ap, ◌∙◌, arith, List, [], ◌∷◌, ◌++◌, Option, none, some, All,
  length, length-append, Memory, Holds, Holds-append_left, Holds-append_right, read, read-Holds,
}
use mathlib.Core.Path.{subst}
use sming_coap.Heap.{Heap, Generous}
use sming_coap.Options.{free_option_list}
use sming_coap.Options.Insert.{taken}
use sming_coap.Options.Pack.{pack_options_from_list}
use sming_coap.Options.PackedOption.{grown}
use sming_coap.OptionTypes.UriEqual.{path_options}
use sming_coap.Resource.{Resource, Observer}
use sming_coap.Resource.Find.{NoneAt}
use sming_coap.Resource.Saved.{
  Layout, Saving, page_size, write, save_options, save_resources, nv_save_observers, load_record,
  nv_load_observers, new_observer,
}
use sming_coap.Resource.Saved.Kept.{grown-Generous}
use sming_coap.Resource.Saved.Restore.{restore_options_met}
use sming_coap.Resource.Saved.Record.{
  path_options-saved, restored-saved, saved-IsReadable, saved-IsOption, saved-IsSorted, saved_some,
}
use sming_coap.Resource.Saved.Items.{IsStorable, IsPath, saved, observer_options_met}
use sming_coap.Resource.Saved.Page.{write-Holds, parse_first}
use sming_coap.Resource.Saved.Rounds.{
  Unobserved, observed_by, find_first, attach_at, save_none, load_loop_end, load_loop_round,
  written, save_options_fits, save_observers_one, save_resources_round, save_resources_end,
  load_record_at,
}

module _ (lay : Layout) (before after : List Resource) (r : Resource) (o : Observer)
    (p : IsPath r.uri) (w : IsStorable lay o) where
  abbrev bytes : List ℕ
  bytes = written (saved lay r o)

  -- The record is written, and the pointer moved.
  abbrev one_saved : Saving → Heap → Saving
  one_saved s h = record {
    page = write s.page s.place bytes;
    place = s.place + (s.total + length bytes);
    total = s.total + length bytes;
    heap = free_option_list (saved lay r o) h;
  }

  save_resources-one :
      (s : Saving)
      → s.place ≡ 0
      → Unobserved before
      → Unobserved after
      → length (pack_options_from_list (saved lay r o)) + 1 < page_size
      → Generous s.heap
      → (h : Heap) × (save_resources lay (before ++ (observed_by (o ∷ []) r ∷ after)) s
          ≡ some (one_saved s h))
  save_resources-one s z u v small g =
      let r' = observed_by (o ∷ []) r in
      let (h, e, g') = observer_options_met lay r' o s.heap g in
      let one =
        save_observers_one lay r' o s (one_saved s h)
          (ap (λ x. save_options x s) e ∙ save_options_fits (saved lay r o) h s z small) in
      (
        h,
        save_none lay before (r' ∷ after) s u
            ∙ save_resources_round lay r' after s (one_saved s h) one
            ∙ save_resources_end lay after (one_saved s h) v,
      )

  load_record-one :
      (h : Heap)
      → NoneAt r.uri before
      → Generous h
      → (h' : Heap) × (load_record lay (saved lay r o) (before ++ (observed_by [] r ∷ after)) h
          ≡ some ([], before ++ (observed_by (o ∷ []) r ∷ after), h'))
  load_record-one h n g =
      let none_at : NoneAt (saved lay r o) before =
        subst (λ x. All (λ (q : Resource). ¬ (path_options q.uri ≡ x)) before)
          (sym (path_options-saved lay r o p w)) n in
      let at =
        find_first before after (observed_by [] r) (saved lay r o) none_at
          (sym (path_options-saved lay r o p w)) in
      let (h', e, g') =
        restore_options_met lay (saved lay r o) new_observer (taken h)
          (saved-IsReadable lay r o p w) g in
      (
        free_option_list (saved lay r o) h',
        load_record_at lay (saved lay r o) (before ++ (observed_by [] r ∷ after)) h h'
              (length before) o g at (e ∙ ap (λ x. some (x, h')) (restored-saved lay r o p w))
            ∙ ap (λ x. some ([], x, free_option_list (saved lay r o) h'))
                (attach_at o before after r),
      )

  load_observers-one :
      (fuel : ℕ) (flash : Memory) (h : Heap)
      → NoneAt r.uri before
      → length (pack_options_from_list (saved lay r o)) + 1 < page_size
      → Holds flash 0 (bytes ++ (0xff ∷ []))
      → Generous h
      → (h' : Heap) × (nv_load_observers lay
            (suc (suc fuel))
            (some flash)
            (before ++ (observed_by [] r ∷ after))
            h
          ≡ some (before ++ (observed_by (o ∷ []) r ∷ after), h'))
  unfolding nv_load_observers
  load_observers-one fuel flash h n small holds g =
      let opts = saved lay r o in
      let size = length (pack_options_from_list opts) in
      let parsed =
        parse_first opts flash h (saved-IsOption lay r o p w) (saved-IsSorted lay r o p w)
          (saved_some lay r o p w) small (Holds-append_left flash 0 bytes (0xff ∷ []) holds) g in
      let (h', e) = load_record-one (grown (length opts) h) n (grown-Generous (length opts) h g) in
      let erased : Holds flash (size + 1) (0xff ∷ []) =
        Holds-append_right flash 0 (size + 1) bytes (0xff ∷ [])
          (omega (arith, length-append (pack_options_from_list opts) (0xff ∷ []))) holds in
      let place : size + 1 + 0 ≡ size + 1 = omega arith in
      (
        h',
        load_loop_round lay (suc fuel) flash _ _ h h' _ [] parsed refl e
            ∙ load_loop_end lay fuel (λ i. flash (size + 1 + i)) _ h' (ap flash place ∙ erased.0),
      )

  save_observers-one :
      (page : Memory) (h : Heap)
      → Unobserved before
      → Unobserved after
      → length (pack_options_from_list (saved lay r o)) + 1 < page_size
      → Generous h
      → (s : Saving) × (nv_save_observers lay (before ++ (observed_by (o ∷ []) r ∷ after)) page h
          ≡ some (bytes, s))
  unfolding nv_save_observers
  save_observers-one page h u v small g =
      let s : Saving = record { page = page; place = 0; total = 0; heap = h } in
      let (h', e) = save_resources-one s refl u v small g in
      let n : 0 + length bytes ≡ length bytes = omega arith in
      let back : read (write page 0 bytes) 0 (0 + length bytes) ≡ bytes =
        ap (read (write page 0 bytes) 0) n
        ∙ read-Holds (write page 0 bytes) 0 bytes (write-Holds page 0 bytes) in
      (
        one_saved s h',
        subst
            (λ x.
              elim x as (λ y. Option (List ℕ × Saving)) [
                | none ↦ none
                | some t ↦ some (read t.page 0 t.total, t)
              ]
              ≡ some (bytes, one_saved s h'))
            (sym e) (ap (λ x. some (x, one_saved s h')) back),
      )

-- One observer outlives a restart: of all resources one is observed, by one observer, whose record
-- is shorter than the page, and no resource before it has its path, which is all that its uri holds. When
-- the observer's fields and options are storable, the saving writes the record, and the loading from a
-- storage that holds it, erased behind it, gives the resources, created anew without observers, the
-- observer back. Every request for memory is met.
pub nv_load_observers-nv_save_observers :
    (lay : Layout) (before after : List Resource) (r : Resource) (o : Observer)
    (page flash : Memory) (h h1 : Heap) (fuel : ℕ)
    → IsPath r.uri
    → IsStorable lay o
    → Unobserved before
    → Unobserved after
    → NoneAt r.uri before
    → length (pack_options_from_list (saved lay r o)) + 1 < page_size
    → Holds flash 0 (written (saved lay r o) ++ (0xff ∷ []))
    → Generous h
    → Generous h1
    → (s : Saving) × (h2 : Heap) × (nv_save_observers lay
          (before ++ (observed_by (o ∷ []) r ∷ after))
          page
          h
        ≡ some (written (saved lay r o), s))
      × (nv_load_observers lay
            (suc (suc fuel))
            (some flash)
            (before ++ (observed_by [] r ∷ after))
            h1
          ≡ some (before ++ (observed_by (o ∷ []) r ∷ after), h2))
nv_load_observers-nv_save_observers lay before after r o page flash h h1 fuel p w u v n small holds
      g g1 =
    let (s, e) = save_observers-one lay before after r o p w page h u v small g in
    let (h2, f) = load_observers-one lay before after r o p w fuel flash h1 n small holds g1 in
    (s, h2, e, f)
