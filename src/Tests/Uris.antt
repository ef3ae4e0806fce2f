-- ===== src/Tests/Uris.antt =====
-- Uri strings, resources that are created and requests that are started, at concrete inputs.
use sming_coap.OptionTypes.UriParts.{append_uri_options-uri_options}
use sming_coap.Options.{append_option_to_list}
use sming_coap.Tests.OptionTypes.{gateway}
use sming_coap.OptionTypes.UriWords.{option_of, takes, uri_options}
use sming_coap.Tests.Interactions.{empty_stack}
use sming_coap.Heap.{fresh_heap}
use sming_coap.Api.Get.{Requests, start_new_get_request, start_new_get_request-Requests}
use sming_coap.Resource.Find.{Finds, find_resource-create_resource}
use sming_coap.Resource.Create.{ResourceTable, ResOpts, create_resource}
use sming_coap.OptionTypes.Uri.{append_uri_options_from_string, uri_string_loop, query_loop}
use sming_coap.CoapResult.{ok}
use sming_coap.Base.{ℕ, ◌≡◌, refl, arith, true, List, [], ◌∷◌, none, some}

-- "a/b?c"
abbrev pub uri : List ℕ
uri = 97 ∷ 47 ∷ 98 ∷ 63 ∷ 99 ∷ []

append_uri_options-uri_options_example : append_uri_options_from_string [] (some uri) fresh_heap ≡ (
  ok,
  option_of 11 (97 ∷ []) ∷ option_of 11 (98 ∷ []) ∷ option_of 15 (99 ∷ []) ∷ [],
  takes 3 fresh_heap,
)
append_uri_options-uri_options_example =
    append_uri_options-uri_options uri fresh_heap (λ k n. refl) (omega arith)

-- Slashes at both ends and in a row make no part, and the query's parts are split.
split_parts :
    append_uri_options_from_string []
      (some (47 ∷ 97 ∷ 47 ∷ 47 ∷ 98 ∷ 47 ∷ 63 ∷ 99 ∷ 38 ∷ 100 ∷ []))
      fresh_heap
    ≡ (
      ok,
      option_of 11 (97 ∷ [])
          ∷ option_of 11 (98 ∷ [])
          ∷ option_of 15 (99 ∷ [])
          ∷ option_of 15 (100 ∷ [])
          ∷ [],
      takes 4 fresh_heap,
    )
unfolding append_uri_options_from_string uri_string_loop query_loop append_option_to_list
split_parts = refl

abbrev no_resources : ResourceTable
no_resources = record { resources = []; members = 0; heap = fresh_heap }

abbrev get_only : ResOpts
get_only = record { cf = 0; flags = 2; etag = 0 }

find_resource-create_resource_example :
    Finds no_resources
      (option_of 11 (97 ∷ []) ∷ option_of 11 (98 ∷ []) ∷ [])
      (create_resource (some uri) (116 ∷ []) get_only none none no_resources)
find_resource-create_resource_example =
    find_resource-create_resource uri (116 ∷ []) get_only none none no_resources
      (option_of 11 (97 ∷ []) ∷ option_of 11 (98 ∷ []) ∷ []) (λ k n. refl) (omega arith) tt refl

start_new_get_request-Requests_example :
    Requests empty_stack 1 gateway
      (uri_options uri)
      (start_new_get_request (some uri) 1 gateway true empty_stack)
start_new_get_request-Requests_example =
    start_new_get_request-Requests uri 1 gateway true empty_stack (λ k n. refl) (omega arith)
