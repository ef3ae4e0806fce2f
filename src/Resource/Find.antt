-- ===== src/Resource/Find.antt =====
-- A resource that CoAP_CreateResource of coap/server/lobaro-coap/coap_resource.c made, as
-- CoAP_FindResourceByUri finds it.
use sming_coap.Options.Insert.{taken}
use sming_coap.OptionTypes.UriParts.{append_uri_options-uri_options}
use sming_coap.Heap.{Generous}
use mathlib.Core.Path.{ap₂}
use sming_coap.Options.{opt_num_uri_path, opt_num_uri_query, ListState}
use sming_coap.Resource.Create.{
  ResourceTable, fill_resource, append_resource_to_list, ResOpts, copy_description, create_resource,
  sizeof_resource,
}
use sming_coap.OptionTypes.UriWords.{uri_options, option_of, path_words, query_words}
use sming_coap.OptionTypes.UriEqual.{path_options, uri_options_are_equal-Decides}
use sming_coap.Resource.{find_resource_by_uri, CoapOption, Resource, Handler, Notifier, Heap}
use sming_coap.Base.{
  ℕ, ◌≡◌, refl, inl, inr, List, All, ◌++◌, ◌∷◌, [], some, length, true, Bool-cases, map, false,
  Option, ◌==◌, arith, take, ap, ◌∙◌, append-nil, ◌<◌, none, take-append, ◌+◌,
}

-- The paths that the options say.
abbrev pub SamePath : List CoapOption → List CoapOption → Type 0
SamePath a b = path_options a ≡ path_options b

-- No resource of the list has this path.
abbrev pub NoneAt : List CoapOption → List Resource → Type 0
NoneAt uri rs = All (λ (r : Resource). ¬ SamePath r.uri uri) rs

find_resource_last :
    (rs : List Resource) (r : Resource) (uri : List CoapOption)
    → NoneAt uri rs
    → SamePath r.uri uri
    → find_resource_by_uri (rs ++ (r ∷ [])) uri ≡ some (length rs)
unfolding find_resource_by_uri
find_resource_last [] r uri n same =
    let (x, e, i) = uri_options_are_equal-Decides r.uri uri in
    let answer : x ≡ true = i.1 same in rw (e, answer) refl
find_resource_last (q ∷ qs) r uri (d, n) same =
    let (x, e, i) = uri_options_are_equal-Decides q.uri uri in
    let other : x ≡ false = ground (arith, i, d) in
    rw (e, other, find_resource_last qs r uri n same) refl

path_options-append :
    (xs ys : List CoapOption) → path_options (xs ++ ys) ≡ path_options xs ++ path_options ys
path_options-append [] ys = refl
path_options-append (x ∷ xs) ys = elim (Bool-cases (x.number == opt_num_uri_path)) [
  | inl e ↦ rw (e, path_options-append xs ys) refl
  | inr e ↦ rw (e, path_options-append xs ys) refl
]

path_options-paths :
    (ws : List (List ℕ))
    → path_options (map (option_of opt_num_uri_path) ws) ≡ map (option_of opt_num_uri_path) ws
path_options-paths [] = refl
path_options-paths (w ∷ ws) = ap (◌∷◌ (option_of opt_num_uri_path w)) (path_options-paths ws)

path_options-queries :
    (ws : List (List ℕ)) → path_options (map (option_of opt_num_uri_query) ws) ≡ []
path_options-queries [] = refl
path_options-queries (w ∷ ws) = path_options-queries ws

pub path_options-uri_options :
    (uri : List ℕ)
    → path_options (uri_options uri) ≡ map (option_of opt_num_uri_path) (path_words uri)
path_options-uri_options uri =
    path_options-append (map (option_of opt_num_uri_path) (path_words uri)) _
    ∙ ap₂ ◌++◌ (path_options-paths (path_words uri)) (path_options-queries (query_words uri))
    ∙ append-nil _

-- The table holds the resource, last and alone at its path, and the search finds it.
abbrev pub Finds : ResourceTable → List CoapOption → Option (Option ℕ × ResourceTable) → Type 0
Finds t uri made =
    (t' : ResourceTable) × (made ≡ some (some (length t.resources), t'))
    × (find_resource_by_uri t'.resources uri ≡ some (length t.resources))
    × (take (length t.resources) t'.resources ≡ t.resources)

fill_resource-Finds :
    (uri : List ℕ) (d : Option (List ℕ)) (options : ResOpts) (handler : Option Handler)
    (notifier : Option Notifier) (t : ResourceTable) (h : Heap) (req : List CoapOption)
    → Generous h
    → length uri < 65536
    → NoneAt req t.resources
    → map (option_of opt_num_uri_path) (path_words uri) ≡ path_options req
    → Finds t req (fill_resource (some uri) options handler notifier t (some (d, h)))
unfolding fill_resource append_resource_to_list
fill_resource-Finds uri d options handler notifier t h req g small free same =
    let made = append_uri_options-uri_options uri h g small in
    let path =
      ap (λ (st : ListState). path_options st.1) made ∙ path_options-uri_options uri ∙ same in
    (_, refl, find_resource_last t.resources _ req free path, take-append t.resources _)

copy_description-met :
    (description : List ℕ) (h : Heap)
    → Generous h
    → (d : Option (List ℕ)) × (h' : Heap) × (copy_description description h ≡ some (d, h'))
      × Generous h'
unfolding copy_description
copy_description-met [] h g = (none, h, refl, g)
copy_description-met (c ∷ cs) h g =
    rw (g h.requests (length cs + 2)) (some (c ∷ cs), taken h, refl, g)

-- A resource that is created at a path where there is none, while every request for memory is met:
-- it stands behind the resources that there were, and a request whose path options are the words of
-- the string's path finds it.
pub find_resource-create_resource :
    (uri description : List ℕ) (options : ResOpts) (handler : Option Handler)
    (notifier : Option Notifier) (t : ResourceTable) (req : List CoapOption)
    → Generous t.heap
    → length uri < 65536
    → NoneAt req t.resources
    → map (option_of opt_num_uri_path) (path_words uri) ≡ path_options req
    → Finds t req (create_resource (some uri) description options handler notifier t)
unfolding create_resource
find_resource-create_resource uri description options handler notifier t req g small free same =
    let (d, h', e, g') = copy_description-met description (taken t.heap) g in
    rw (g t.heap.requests sizeof_resource, e)
      (fill_resource-Finds uri d options handler notifier t h' req g' small free same)
