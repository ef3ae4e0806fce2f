-- ===== src/Resource/Saved/Rounds.antt =====
-- One round of CoAP_NVsaveObservers and of CoAP_NVloadObservers, both of
-- coap/server/lobaro-coap/coap_resource.c.
use sming_coap.Base.{
  ℕ, suc, ◌+◌, ◌<◌, ◌≡◌, refl, sym, ap, ◌∙◌, arith, true, false, List, [], ◌∷◌, ◌++◌, Option, none,
  some, All, length, length-append, Memory, le→ltb,
}
use mathlib.Core.Path.{subst}
use sming_coap.Heap.{Heap, Generous, mem_get, mem_release}
use sming_coap.CoapResult.{is_ok, parse_message_format_error}
use sming_coap.Options.{CoapOption, free_option_list}
use sming_coap.Options.Insert.{taken}
use sming_coap.Options.Pack.{pack_options_from_list}
use sming_coap.Options.Parse.{Parsed, parse_options_from_raw}
use sming_coap.OptionTypes.UriEqual.{uri_options_are_equal-Decides}
use sming_coap.Resource.{
  Resource, Observer, sizeof_observer, append_observer_to_list, find_resource_by_uri,
}
use sming_coap.Resource.Find.{NoneAt, SamePath}
use sming_coap.Resource.Saved.{
  Layout, Saving, page_size, write, save_options, save_observers, save_resources, attach,
  attach_restored, load_at, load_record, load_loop, from, new_observer, observer_options,
  restore_options, Loaded,
}

abbrev pub Unobserved : List Resource → Type 0
Unobserved rs = All (λ (r : Resource). r.observers ≡ []) rs

-- The resource with these observers.
abbrev pub observed_by : List Observer → Resource → Resource
observed_by os r = record r { observers = os }

pub find_first :
    (before after : List Resource) (r : Resource) (uri : List CoapOption)
    → NoneAt uri before
    → SamePath r.uri uri
    → find_resource_by_uri (before ++ (r ∷ after)) uri ≡ some (length before)
unfolding find_resource_by_uri
find_first [] after r uri n same =
    let (x, e, i) = uri_options_are_equal-Decides r.uri uri in
    let answer : x ≡ true = i.1 same in rw (e, answer) refl
find_first (q ∷ qs) after r uri (d, n) same =
    let (x, e, i) = uri_options_are_equal-Decides q.uri uri in
    let other : x ≡ false = ground (arith, i, d) in
    rw (e, other, find_first qs after r uri n same) refl

pub attach_at :
    (o : Observer) (before after : List Resource) (r : Resource)
    → attach o (length before) (before ++ (observed_by [] r ∷ after))
      ≡ before ++ (observed_by (o ∷ []) r ∷ after)
unfolding append_observer_to_list
attach_at o [] after r = refl
attach_at o (q ∷ qs) after r = ap (◌∷◌ q) (attach_at o qs after r)

pub save_none :
    (lay : Layout) (rs qs : List Resource) (s : Saving)
    → Unobserved rs
    → save_resources lay (rs ++ qs) s ≡ save_resources lay qs s
unfolding save_resources save_observers
save_none lay [] qs s u = refl
save_none lay (r ∷ rs) qs s (e, u) = rw (save_resources, e) (save_none lay rs qs s u)

pub free_option_list-Generous :
    (opts : List CoapOption) (h : Heap) → Generous h → Generous (free_option_list opts h)
unfolding free_option_list mem_release
free_option_list-Generous [] h g = g
free_option_list-Generous (o ∷ []) h g = g
free_option_list-Generous (o ∷ (p ∷ os)) h g = free_option_list-Generous (o ∷ os) (mem_release h) g

-- Nothing is parsed where the page is erased.
pub parse_erased :
    (mem : Memory) (h : Heap)
    → mem 0 ≡ 0xff
    → parse_options_from_raw mem page_size [] h
      ≡ some (record {
        result = parse_message_format_error;
        payload_begin = none;
        options = [];
        heap = h;
      })
unfolding parse_options_from_raw
parse_erased mem h e = rw e refl

-- There the loading ends.
pub load_loop_end :
    (lay : Layout) (fuel : ℕ) (mem : Memory) (rs : List Resource) (h : Heap)
    → mem 0 ≡ 0xff
    → load_loop lay (suc fuel) (some mem) [] rs h ≡ some (rs, h)
unfolding load_loop
load_loop_end lay fuel mem rs h e = rw (load_loop, parse_erased mem h e) refl

-- A record is parsed and its observer made, and the loading goes on behind it.
pub load_loop_round :
    (lay : Layout) (fuel : ℕ) (mem : Memory) (rs rs' : List Resource) (h h' : Heap) (q : Parsed)
    (opts : List CoapOption)
    → parse_options_from_raw mem page_size [] h ≡ some q
    → is_ok q.result ≡ true
    → load_record lay q.options rs q.heap ≡ some (opts, rs', h')
    → load_loop lay (suc fuel) (some mem) [] rs h
      ≡ load_loop lay fuel (from mem q.payload_begin) opts rs' h'
unfolding load_loop
load_loop_round lay fuel mem rs rs' h h' q opts e f g = rw (load_loop, e, f, g) refl

-- The bytes of a record.
abbrev pub written : List CoapOption → List ℕ
written opts = pack_options_from_list opts ++ (0xff ∷ [])

-- The first record fits in the page.
pub save_options_fits :
    (opts : List CoapOption) (h : Heap) (s : Saving)
    → s.place ≡ 0
    → length (pack_options_from_list opts) + 1 < page_size
    → save_options (opts, h) s
      ≡ some (record {
        page = write s.page s.place (written opts);
        place = s.place + (s.total + length (written opts));
        total = s.total + length (written opts);
        heap = free_option_list opts h;
      })
unfolding save_options
save_options_fits opts h s e small =
    rw
      (le→ltb page_size (s.place + length (written opts))
        (omega (arith, e, small, length-append (pack_options_from_list opts) (0xff ∷ []))))
      refl

pub save_observers_one :
    (lay : Layout) (r : Resource) (o : Observer) (s s' : Saving)
    → save_options (observer_options lay false r o s.heap) s ≡ some s'
    → save_observers lay r false (o ∷ []) s ≡ some s'
unfolding save_observers
save_observers_one lay r o s s' e =
    subst (λ x. elim x [ none ↦ none | some t ↦ save_observers lay r true [] t ] ≡ some s') (sym e)
      refl

pub save_resources_round :
    (lay : Layout) (r : Resource) (rs : List Resource) (s s' : Saving)
    → save_observers lay r false r.observers s ≡ some s'
    → save_resources lay (r ∷ rs) s ≡ save_resources lay rs s'
unfolding save_resources
save_resources_round lay r rs s s' e =
    subst
      (λ x. elim x [ none ↦ none | some t ↦ save_resources lay rs t ] ≡ save_resources lay rs s')
      (sym e) refl

pub save_resources_end :
    (lay : Layout) (rs : List Resource) (s : Saving)
    → Unobserved rs
    → save_resources lay rs s ≡ some s
unfolding save_resources
save_resources_end lay [] s u = refl
save_resources_end lay (r ∷ rs) s (e, u) =
    save_none lay (r ∷ []) rs s (e, tt) ∙ save_resources_end lay rs s u

pub load_record_at :
    (lay : Layout) (opts : List CoapOption) (rs : List Resource) (h h' : Heap) (i : ℕ)
    (o : Observer)
    → Generous h
    → find_resource_by_uri rs opts ≡ some i
    → restore_options lay opts new_observer (taken h) ≡ some (o, h')
    → load_record lay opts rs h ≡ some ([], attach o i rs, free_option_list opts h')
unfolding load_record load_at attach_restored mem_get
load_record_at lay opts rs h h' i o g e f =
    subst
      (λ x.
        elim x as (λ y. Option Loaded) [
          | none ↦ some (opts, rs, h)
          | some i ↦ load_at lay i opts rs (mem_get sizeof_observer h)
        ]
        ≡ some ([], attach o i rs, free_option_list opts h'))
      (sym e) (rw (g h.requests sizeof_observer) (ap (attach_restored i opts rs) f))
