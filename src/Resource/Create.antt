-- ===== src/Resource/Create.antt =====
-- CoAP_CreateResource and CoAP_FreeResource of coap/server/lobaro-coap/coap_resource.c.
use sming_coap.Resource.{Resource, Handler, Notifier}
use sming_coap.Options.{free_option_list}
use sming_coap.OptionTypes.Uri.{append_uri_options_from_string}
use sming_coap.Heap.{mem_get, Heap, mem_release}
use sming_coap.Base.{
  ℕ, List, Option, some, ◌++◌, none, ◌∷◌, [], length, if◌then◌else◌, ◌+◌, ◌%◌, ◌^◌,
}

-- `sizeof(CoAP_Res_t)` on the 32-bit target.
abbrev pub sizeof_resource : ℕ
sizeof_resource = 36

-- The static variables of the source, pResList and ResListMembers, and the heap.
pub record ResourceTable : Type 0 where
  pub resources : List Resource
  pub members : ℕ
  pub heap : Heap

-- CoAP_ResOpts_t
pub record ResOpts : Type 0 where
  pub cf : ℕ
  pub flags : ℕ
  pub etag : ℕ

unfoldable pub append_resource_to_list : List Resource → Resource → List Resource
append_resource_to_list rs r = rs ++ (r ∷ [])

-- The copy of the description is written to what the allocator gave, without a test: no result
-- stands for the write through NULL. An empty description is not copied.
unfoldable pub copy_description : List ℕ → Heap → Option (Option (List ℕ) × Heap)
unfolding mem_get
copy_description [] h = some (none, h)
copy_description (c ∷ cs) h =
    let got = mem_get (length cs + 2) h in if got.0 then some (some (c ∷ cs), got.1) else none

-- The new resource with its uri; the result of the append is not looked at.
unfoldable pub fill_resource :
    Option (List ℕ)
    → ResOpts
    → Option Handler
    → Option Notifier
    → ResourceTable
    → Option (Option (List ℕ) × Heap)
    → Option (Option ℕ × ResourceTable)
unfolding append_uri_options_from_string append_resource_to_list
fill_resource uri options handler notifier t none = none
fill_resource uri options handler notifier t (some (description, h)) =
    let with_uri = append_uri_options_from_string [] uri h in
    some (
      some (length t.resources),
      record {
        resources = append_resource_to_list t.resources (record {
          description = description;
          cf = options.cf;
          etag = options.etag;
          uri = with_uri.1;
          flags = options.flags;
          update_cnt = 0;
          observers = [];
          handler = handler;
          notifier = notifier;
        });
        members = (t.members + 1) % 2 ^ 32;
        heap = with_uri.2;
      },
    )

-- The result is the new resource's position, `none` for NULL.
unfoldable pub create_resource :
    Option (List ℕ)
    → List ℕ
    → ResOpts
    → Option Handler
    → Option Notifier
    → ResourceTable
    → Option (Option ℕ × ResourceTable)
unfolding mem_get copy_description fill_resource
create_resource uri description options handler notifier t =
    let got = mem_get sizeof_resource t.heap in
    if got.0
    then fill_resource uri options handler notifier t (copy_description description got.1)
    else some (none, record t { heap = got.1 })

-- The uri's options, the description and the resource's own block are released.
unfoldable pub free_resource : Resource → Heap → Heap
unfolding free_option_list mem_release
free_resource r h =
    let h' = free_option_list r.uri h in
    mem_release (elim r.description [ none ↦ h' | some d ↦ mem_release h' ])
