-- ===== src/Resource/Saved.antt =====
-- The observers in non-volatile memory: CoAP_NVsaveObservers and CoAP_NVloadObservers of
-- coap/server/lobaro-coap/coap_resource.c. The layout of a NetEp_t and of a uint64_t is the
-- compiler's, and the storage is the driver's; both are parameters.
pub mod Kept
pub mod Restore
pub mod Record
pub mod Items
pub mod Page
pub mod Rounds
pub mod Restored
use sming_coap.Base.{
  ℕ, zero, suc, ◌+◌, Bool, true, false, List, [], ◌∷◌, ◌++◌, Option, none, some, ltb, leb, ◌&&◌,
  ◌==◌, if◌then◌else◌, length, take, Memory, read, get_or,
}
use sming_coap.Heap.{Heap, mem_get}
use sming_coap.CoapResult.{CoapResult, ok, is_ok}
use sming_coap.Endpoint.{NetEp, ipv6}
use sming_coap.Options.{
  CoapOption, ListState, opt_num_uri_host, opt_num_uri_path, append_option_to_list,
  copy_option_to_list, free_option_list,
}
use sming_coap.Options.Pack.{pack_options_from_list}
use sming_coap.Options.Parse.{Parsed, parse_options_from_raw}
use sming_coap.Resource.{
  Resource, Observer, sizeof_observer, append_observer_to_list, find_resource_by_uri,
}

abbrev pub opt_num_uri_port : ℕ
opt_num_uri_port = 7

abbrev pub opt_num_lobaro_token_save : ℕ
opt_num_lobaro_token_save = 350

-- The size of TempPage.
abbrev pub page_size : ℕ
page_size = 2048

-- `sizeof(NetEp_t)` on the 32-bit target.
abbrev pub sizeof_net_ep : ℕ
sizeof_net_ep = 24

abbrev pub sizeof_token : ℕ
sizeof_token = 8

-- The bytes of an endpoint and of a token in memory, and what such bytes stand for.
pub record Layout : Type 0 where
  pub ep_bytes : NetEp → List ℕ
  pub ep_of : List ℕ → NetEp
  pub token_bytes : ℕ → List ℕ
  pub token_of : List ℕ → ℕ

-- Each option of a list is copied to another; the results are not looked at.
unfoldable pub copy_all : List CoapOption → List CoapOption → Heap → List CoapOption × Heap
unfolding copy_option_to_list
copy_all [] opts h = (opts, h)
copy_all (o ∷ os) opts h = let a = copy_option_to_list opts o h in copy_all os a.1 a.2

-- The options that stand for an observer; the resource's uri is left out if it has been encoded.
unfoldable pub observer_options :
    Layout → Bool → Resource → Observer → Heap → List CoapOption × Heap
unfolding copy_all append_option_to_list
observer_options lay encoded r o h =
    let host = append_option_to_list [] opt_num_uri_host (lay.ep_bytes o.ep) h in
    let port = append_option_to_list host.1 opt_num_uri_port (o.if_id ∷ []) host.2 in
    let uri = copy_all (if encoded then [] else r.uri) port.1 port.2 in
    let own = copy_all o.opt_list uri.0 uri.1 in
    let token =
      append_option_to_list own.0 opt_num_lobaro_token_save (lay.token_bytes o.token) own.1 in
    (token.1, token.2)

-- The page, the place of pTempPage in it, and TotalPageBytes.
pub record Saving : Type 0 where
  pub page : Memory
  pub place : ℕ
  pub total : ℕ
  pub heap : Heap

-- The bytes are written from a place on.
abbrev pub write : Memory → ℕ → List ℕ → Memory
write mem i [] = mem
write mem i (b ∷ bs) = λ j. if j == i then b else write mem (suc i) bs j

-- The options and the marker are written, and the options are released. The pointer is moved by the
-- number of all bytes so far. No result stands for a write behind the page.
unfoldable pub save_options : List CoapOption × Heap → Saving → Option Saving
unfolding pack_options_from_list free_option_list
save_options (opts, h) s =
    let bytes = pack_options_from_list opts ++ (0xff ∷ []) in
    let total = s.total + length bytes in
    if ltb page_size (s.place + length bytes)
    then none
    else some (record {
      page = write s.page s.place bytes;
      place = s.place + total;
      total = total;
      heap = free_option_list opts h;
    })

-- The observers of a resource, one after the other.
unfoldable pub save_observers : Layout → Resource → Bool → List Observer → Saving → Option Saving
unfolding observer_options save_options
save_observers lay r encoded [] s = some s
save_observers lay r encoded (o ∷ os) s =
    elim (save_options (observer_options lay encoded r o s.heap) s) [
      | none ↦ none
      | some s' ↦ save_observers lay r true os s'
    ]

unfoldable pub save_resources : Layout → List Resource → Saving → Option Saving
unfolding save_observers
save_resources lay [] s = some s
save_resources lay (r ∷ rs) s = elim (save_observers lay r false r.observers s) [
  | none ↦ none
  | some s' ↦ save_resources lay rs s'
]

-- The page, and the bytes that are handed to the storage.
unfoldable pub nv_save_observers : Layout → List Resource → Memory → Heap → Option (List ℕ × Saving)
unfolding save_resources
nv_save_observers lay rs page h =
    elim (save_resources lay rs (record { page = page; place = 0; total = 0; heap = h })) [
      | none ↦ none
      | some s ↦ some (read s.page 0 s.total, s)
    ]

-- The zeroed block of a new observer.
abbrev pub new_observer : Observer
new_observer = record {
  ep = record { net_type = ipv6; address = λ i. 0; port = 0 };
  if_id = 0;
  token = 0;
  opt_list = [];
}

-- One option goes to the observer's field or to its list. No result stands for a read behind the
-- option's value.
unfoldable pub restore_option : Layout → CoapOption → Observer → Heap → Option (Observer × Heap)
unfolding copy_option_to_list
restore_option lay p o h =
    let copied = copy_option_to_list o.opt_list p h in
    if p.number == opt_num_uri_host
    then (if ltb (length p.value) sizeof_net_ep
        then none
        else some (record o { ep = lay.ep_of (take sizeof_net_ep p.value) }, h))
    else if p.number == opt_num_uri_port
    then (if ltb (length p.value) 1
        then none
        else some (record o { if_id = get_or p.value 0 0 }, h))
    else if p.number == opt_num_uri_path
    then some (o, h)
    else if p.number == opt_num_lobaro_token_save
    then (if ltb (length p.value) sizeof_token
        then none
        else some (record o { token = lay.token_of (take sizeof_token p.value) }, h))
    else some (record o { opt_list = copied.1 }, copied.2)

unfoldable pub restore_options :
    Layout → List CoapOption → Observer → Heap → Option (Observer × Heap)
unfolding restore_option
restore_options lay [] o h = some (o, h)
restore_options lay (p ∷ ps) o h = elim (restore_option lay p o h) [
  | none ↦ none
  | some (o', h') ↦ restore_options lay ps o' h'
]

-- The observer is appended to those of the resource at a position.
abbrev pub attach : Observer → ℕ → List Resource → List Resource
attach o i [] = []
attach o zero (r ∷ rs) = record r { observers = append_observer_to_list r.observers o } ∷ rs
attach o (suc i) (r ∷ rs) = r ∷ attach o i rs

-- The list behind pOptList, the resources, and the heap.
abbrev pub Loaded : Type 0
Loaded = List CoapOption × List Resource × Heap

unfoldable pub attach_restored :
    ℕ → List CoapOption → List Resource → Option (Observer × Heap) → Option Loaded
unfolding free_option_list
attach_restored i opts rs none = none
attach_restored i opts rs (some (o, h)) = some ([], attach o i rs, free_option_list opts h)

unfoldable pub load_at : Layout → ℕ → List CoapOption → List Resource → Bool × Heap → Option Loaded
unfolding restore_options attach_restored
load_at lay i opts rs (false, h) = some (opts, rs, h)
load_at lay i opts rs (true, h) =
    attach_restored i opts rs (restore_options lay opts new_observer h)

-- One record. A record without a resource, or without memory for its observer, is left, and so are its
-- options in the list.
unfoldable pub load_record : Layout → List CoapOption → List Resource → Heap → Option Loaded
unfolding find_resource_by_uri load_at mem_get
load_record lay opts rs h = elim (find_resource_by_uri rs opts) [
  | none ↦ some (opts, rs, h)
  | some i ↦ load_at lay i opts rs (mem_get sizeof_observer h)
]

-- The memory behind a pointer.
abbrev pub from : Memory → Option ℕ → Option Memory
from mem none = none
from mem (some begin) = some (λ i. mem (begin + i))

-- The records are read until one is not parsed. No result stands for a read through NULL, and for
-- fuel that is used up.
unfoldable pub load_loop :
    Layout
    → ℕ
    → Option Memory
    → List CoapOption
    → List Resource
    → Heap
    → Option (List Resource × Heap)
unfolding parse_options_from_raw load_record
load_loop lay zero page opts rs h = none
load_loop lay (suc fuel) none opts rs h = none
load_loop lay (suc fuel) (some mem) opts rs h = elim (parse_options_from_raw mem page_size opts h) [
  | none ↦ none
  | some p ↦ elim (is_ok p.result) [
    | false ↦ some (rs, p.heap)
    | true ↦ elim (load_record lay p.options rs p.heap) [
      | none ↦ none
      | some (opts', rs', h') ↦ load_loop lay fuel (from mem p.payload_begin) opts' rs' h'
    ]
  ]
]

unfoldable pub nv_load_observers :
    Layout → ℕ → Option Memory → List Resource → Heap → Option (List Resource × Heap)
unfolding load_loop
nv_load_observers lay fuel page rs h = load_loop lay fuel page [] rs h
